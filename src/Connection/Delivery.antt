-- ===== src/Connection/Delivery.antt =====
-- What is sent arrives: the frames that `Send` writes, read by a decoder with the same key.
use gb32960_go_sdk.Base.{
  ℕ, ◌+◌, ◌<◌, ◌≤◌, ◌≡◌, ◌≢◌, refl, ap, Bool, false, inl, inr, List, ◌∷◌, ◌++◌, Option, none, some,
  length, ◌==◌, All, IsByte, Result, ok, err, panic, stuck, Bool-cases, arith,
}
use gb32960_go_sdk.Constant.{enc_none, enc_aes128}
use gb32960_go_sdk.Packet.{Packet}
use gb32960_go_sdk.Decoder.{Decoder, decode, encode_response}
use gb32960_go_sdk.Decoder.Stream.{unread, IsValid}
use gb32960_go_sdk.Decoder.RoundTrip.{decode-encode_response}
use gb32960_go_sdk.Crypto.{BlockCipher, block_size}
use gb32960_go_sdk.Crypto.RoundTrip.{decrypt-encrypt}
use gb32960_go_sdk.Connection.{
  Connection, Event, writes, Env, World, sealed, frame_of, written, is_closed, send,
}
use gb32960_go_sdk.Connection.Handle.{opened}

-- A key, where there is one, has sixteen bytes at least.
abbrev pub KeyFits : Option (List ℕ) → Type 0
KeyFits none = Unit {0}
KeyFits (some key) = (block_size ≤ length key) × All IsByte key

-- The packet that the other side gets.
pub record IsDelivered (aes : BlockCipher) (c : Connection) (command : ℕ) (input rest : List ℕ)
    (d : Decoder) : Type 0 where
  pub packet : Packet
  pub after : Decoder
  pub decoded : decode d ≡ ok (some packet, after)
  pub left : unread after ≡ rest
  pub same_command : packet.command ≡ command
  pub same_vin : packet.vin ≡ c.vin
  pub same_data : opened aes c.encrypt_key packet ≡ ok input

plain-IsDelivered :
    (aes : BlockCipher) (c : Connection) (command : ℕ) (input frame rest : List ℕ) (d : Decoder)
    → IsValid d
    → length input + 16 < 65536
    → encode_response command c.vin enc_none input ≡ ok frame
    → unread d ≡ frame ++ rest
    → IsDelivered aes c command input rest d
unfolding opened
plain-IsDelivered aes c command input frame rest d v small e u =
    let (d', dec, left) =
      decode-encode_response d command c.vin enc_none input frame rest v (omega arith) e u in
    record {
      packet = _;
      after = d';
      decoded = dec;
      left = left;
      same_command = refl;
      same_vin = refl;
      same_data = open_plain c.encrypt_key;
    }
  where
    open_plain :
        (k : Option (List ℕ))
        → opened aes k (record {
          command = command;
          response = 0xfe;
          vin = c.vin;
          encrypt_type = 1;
          payload = input;
          length = length input;
        })
          ≡ ok input
    open_plain none = refl
    open_plain (some key) = refl

frame_of-IsDelivered :
    (aes : BlockCipher) (c : Connection) (k : Option (List ℕ)) (command : ℕ)
    (input frame rest : List ℕ) (d : Decoder)
    → c.encrypt_key ≡ k
    → KeyFits k
    → All IsByte input
    → length input + 16 < 65536
    → IsValid d
    → frame_of aes c command input ≡ ok frame
    → unread d ≡ frame ++ rest
    → IsDelivered aes c command input rest d
unfolding frame_of sealed opened
frame_of-IsDelivered aes c none command input frame rest d ek kf ib small v e u =
    plain-IsDelivered aes c command input frame rest d v small (rw ek at e) u
frame_of-IsDelivered aes c (some key) command input frame rest d ek kf ib small v e u =
    elim (Bool-cases (length input == 0)) [
      | inl z ↦ plain-IsDelivered aes c command input frame rest d v small (rw (ek, z) at e) u
      | inr z ↦
          let (t, enc, len, dec) = decrypt-encrypt aes input key kf.0 kf.1 ib in
          let (d', got, left) =
            decode-encode_response d command c.vin enc_aes128 t frame rest v (omega arith)
              (rw (ek, z, enc) at e) u in
          record {
            packet = _;
            after = d';
            decoded = got;
            left = left;
            same_command = refl;
            same_vin = refl;
            same_data = rw ek dec;
          }
    ]

not_longer : (x : Event) (xs : List Event) → xs ≢ x ∷ xs
not_longer x xs e = absurd (omega (arith, ap (length {0} {A = Event}) e))

-- A call that writes a frame has made it with `frame_of`.
written-frame :
    (env : Env) (w w' : World) (r : Result (List ℕ)) (fine : Bool) (frame : List ℕ)
    → written env w r ≡ ok (fine, w')
    → w'.trace ≡ writes frame ∷ w.trace
    → r ≡ ok frame
written-frame env w w' (ok f) fine frame e t = cc
written-frame env w w' (err x) fine frame e t = absurd (not_longer (writes frame) w.trace cc)
written-frame env w w' panic fine frame e t = cc
written-frame env w w' stuck fine frame e t = cc

-- What `send` writes arrives: if a call of `send` has written a frame, then a decoder on the other
-- side that has the frame at the front of its unread bytes gives a packet with the command that was
-- sent and the connection's VIN, whose data, deciphered with the connection's key if they have to
-- be, are the bytes that were sent; it leaves unread what follows the frame. This holds for fewer
-- than 65520 bytes, and with any key of sixteen bytes or more, or none.
pub send-IsDelivered :
    (env : Env) (w w' : World) (command : ℕ) (input frame rest : List ℕ) (fine : Bool) (d : Decoder)
    → KeyFits w.conn.encrypt_key
    → All IsByte input
    → length input + 16 < 65536
    → send env w command input ≡ ok (fine, w')
    → w'.trace ≡ writes frame ∷ w.trace
    → IsValid d
    → unread d ≡ frame ++ rest
    → IsDelivered env.aes w.conn command input rest d
unfolding send
send-IsDelivered env w w' command input frame rest fine d kf ib small e t v u =
    elim (Bool-cases (is_closed w.conn.state)) [
      | inl c ↦
          let same : ◌≡◌ {A = Result (Bool × World)} (ok (false, w)) (ok (fine, w')) = rw c at e in
          absurd (not_longer (writes frame) w.trace cc)
      | inr c ↦
          frame_of-IsDelivered env.aes w.conn w.conn.encrypt_key command input frame rest d refl kf
            ib small v
            (written-frame env w w' (frame_of env.aes w.conn command input) fine frame (rw c at e)
              t)
            u
    ]

-- ===== src/Decoder/RoundTrip.antt =====
-- `Decode` on the frames that `EncodeResponse` makes.
use Prim.Native.Nat.{bit_xor}
use gb32960_go_sdk.Base.{
  ℕ, suc, ◌+◌, ◌%◌, ◌<◌, ◌≡◌, ◌≢◌, refl, sym, ap, ◌∙◌, Bool, true, List, [], ◌∷◌, ◌++◌, Option,
  some, length, take, drop, get_elem?, ◌==◌, if◌then◌else◌, Result, Returns, ok, err, panic, stuck,
  arith, length-append, get_elem?-append, append_assoc, take-append, drop-append, ==_refl, ==_ne,
  le→ltb, invalid_vin, put_uint16,
}
use native.Mathlib.Decide.{ℕ_discrete}
use gb32960_go_sdk.Base.Bits.{bit_xor-zero}
use gb32960_go_sdk.Constant.{
  header_size, start_marker1, start_marker2, enc_none, resp_success, vin_length,
}
use gb32960_go_sdk.Packet.{Packet}
use gb32960_go_sdk.Decoder.{
  Decoder, marker_from, decode, encode_response, header_length, packet_of, verify_bcc, xor_bytes,
  calculate_bcc,
}
use gb32960_go_sdk.Decoder.Stream.{
  unread, IsValid, check_stream, read_stream, stream_step, stream_decode,
}
use gb32960_go_sdk.Decoder.Refines.{view_result, decode-stream_decode}
use gb32960_go_sdk.Decoder.Sound.{Heads}

pub xor_bytes-append :
    (acc : ℕ) (xs ys : List ℕ) → xor_bytes acc (xs ++ ys) ≡ xor_bytes (xor_bytes acc xs) ys
unfolding xor_bytes
xor_bytes-append acc [] ys = refl
xor_bytes-append acc (x ∷ xs) ys = xor_bytes-append (bit_xor acc x) xs ys

xor_bytes-zero : (acc : ℕ) (xs : List ℕ) → xor_bytes acc (xs ++ (0 ∷ [])) ≡ xor_bytes acc xs
unfolding xor_bytes
xor_bytes-zero acc xs = xor_bytes-append acc xs (0 ∷ []) ∙ bit_xor-zero _

module _ (m : Bool) (header body : List ℕ) (h : Heads header body) where
  -- A round on bytes that begin with a header and its data.
  pub stream_step_frame :
      (tail : List ℕ)
      → stream_step m (header ++ (body ++ tail))
        ≡ check_stream m (header ++ (body ++ tail)) header body tail
  unfolding stream_step read_stream marker_from
  stream_step_frame tail =
      let w = header ++ (body ++ tail) in
      let e : marker_from w 0 ≡ some 0 = rw h.starts.1 in
      let et : take header_size w ≡ header =
        take-append header_size header (body ++ tail) (sym h.header_length_eq) in
      let ed : drop header_size w ≡ body ++ tail =
        drop-append header_size header (body ++ tail) (sym h.header_length_eq) in
      rw (e, stream_step)
        (rw (
          le→ltb (length w) header_size
              (omega (arith, h.header_length_eq, length-append header (body ++ tail))),
          et,
          ed,
          le→ltb (length (body ++ tail)) (header_length header)
              (omega (arith, h.declares, length-append body tail)),
          take-append (header_length header) body tail h.declares,
          drop-append (header_length header) body tail h.declares,
        ))

pub stream_decode_frame :
    (fuel : ℕ) (m : Bool) (header body : List ℕ) (bcc : ℕ) (rest : List ℕ)
    → Heads header body
    → verify_bcc m header body bcc ≡ true
    → stream_decode (suc fuel) m (header ++ (body ++ (bcc ∷ rest)))
      ≡ ok (some (packet_of header body), rest)
unfolding stream_decode check_stream
stream_decode_frame fuel m header body bcc rest h v =
    rw (stream_step_frame m header body h (bcc ∷ rest), stream_decode) (rw v)

pub view_result_ok :
    (r : Result (Option Packet × Decoder)) {p : Option Packet} {rest : List ℕ}
    → view_result r ≡ ok (p, rest)
    → (d : Decoder) × (r ≡ ok (p, d)) × (unread d ≡ rest)
view_result_ok (ok (p, d)) e = (d, ground arith, ground arith)
view_result_ok (err x) e = cc
view_result_ok panic e = cc
view_result_ok stuck e = cc

pub view_result_panic : (r : Result (Option Packet × Decoder)) → view_result r ≡ panic → r ≡ panic
view_result_panic (ok (p, d)) e = cc
view_result_panic (err x) e = cc
view_result_panic panic e = refl
view_result_panic stuck e = cc

-- A frame at the front of the unread bytes, with a checksum that `verify_bcc` accepts, is decoded:
-- the packet has the fields of its header and its data, and the bytes behind it are left unread.
pub decode_frame :
    (d : Decoder) (header body : List ℕ) (bcc : ℕ) (rest : List ℕ)
    → IsValid d
    → Heads header body
    → verify_bcc d.bcc_include_start header body bcc ≡ true
    → unread d ≡ header ++ (body ++ (bcc ∷ rest))
    → (d' : Decoder) × (decode d ≡ ok (some (packet_of header body), d')) × (unread d' ≡ rest)
decode_frame d header body bcc rest v h c u = view_result_ok (decode d) (
    decode-stream_decode d v
    ∙ ap (λ w. stream_decode (suc (length w)) d.bcc_include_start w) u
    ∙ stream_decode_frame _ d.bcc_include_start header body bcc rest h c)

-- The header of a frame whose data have `n` bytes.
abbrev pub frame_header : ℕ → ℕ → List ℕ → ℕ → ℕ → List ℕ
frame_header command response vin enc n =
    start_marker1 ∷ start_marker2 ∷ command ∷ response ∷ (vin ++ (enc ∷ put_uint16 n))

-- The packet that such a frame stands for.
abbrev pub frame_packet : ℕ → ℕ → List ℕ → ℕ → List ℕ → Packet
frame_packet command response vin enc body = record {
  command = command;
  response = response;
  vin = vin;
  encrypt_type = enc;
  payload = body;
  length = length body;
}

module _ (command response : ℕ) (vin : List ℕ) (enc : ℕ) (body : List ℕ)
    (hv : length vin ≡ vin_length) (hb : length body < 65536) where
  abbrev tail_fields : List ℕ
  tail_fields = enc ∷ put_uint16 (length body % 65536)

  tail_field : (n k : ℕ) → n ≡ 17 + k → get_elem? (vin ++ tail_fields) n ≡ get_elem? tail_fields k
  tail_field n k e = get_elem?-append n k vin tail_fields (omega arith)

  declared :
      header_length (frame_header command response vin enc (length body % 65536)) ≡ length body
  declared = rw (tail_field 18 1 refl, tail_field 19 2 refl) (omega arith)

  pub frame_header-Heads : Heads (frame_header command response vin enc (length body % 65536)) body
  frame_header-Heads = record {
    header_length_eq = omega (arith, length-append vin tail_fields);
    starts = (_, refl);
    declares = declared;
  }

  pub packet_of-frame_header :
      packet_of (frame_header command response vin enc (length body % 65536)) body
      ≡ frame_packet command response vin enc body
  packet_of-frame_header =
      rw (tail_field 17 0 refl, declared, take-append 17 vin tail_fields (sym hv))

  pub frame_header_checked :
      (m : Bool)
      → let header = frame_header command response vin enc (length body % 65536) in
        verify_bcc m header body (calculate_bcc (drop 2 header ++ body)) ≡ true
  unfolding verify_bcc calculate_bcc
  frame_header_checked m =
      let checked : List ℕ = command ∷ response ∷ (vin ++ tail_fields) in
      rw (xor_bytes-append 0 checked body, ==_refl (xor_bytes (xor_bytes 0 checked) body))

-- The header that `EncodeResponse` writes, and its packet.
abbrev response_header : ℕ → List ℕ → ℕ → ℕ → List ℕ
response_header command vin enc n = frame_header command resp_success vin enc n

abbrev pub response_packet : ℕ → List ℕ → ℕ → List ℕ → Packet
response_packet command vin enc body = frame_packet command resp_success vin enc body

abbrev pub effective_enc : ℕ → ℕ
effective_enc encrypt_type = if encrypt_type == 0 then enc_none else encrypt_type

-- The frame is the header, the data, and the checksum over both without the marker.
encode_response_ok :
    (command : ℕ) (vin : List ℕ) (encrypt_type : ℕ) (body : List ℕ)
    → length vin ≡ vin_length
    → let header = response_header command vin (effective_enc encrypt_type) (length body % 65536) in
      encode_response command vin encrypt_type body
      ≡ ok (header ++ (body ++ (calculate_bcc (drop 2 header ++ body) ∷ [])))
unfolding encode_response calculate_bcc
encode_response_ok command vin encrypt_type body hv =
    rw
      (
        hv,
        xor_bytes-zero 0 (
            command
            ∷ resp_success
            ∷ (vin ++ (effective_enc encrypt_type ∷ (put_uint16 (length body % 65536) ++ body)))),
      )
      (simp append_assoc)

pub encode_response_bad :
    (command : ℕ) (vin : List ℕ) (encrypt_type : ℕ) (body : List ℕ)
    → length vin ≢ vin_length
    → encode_response command vin encrypt_type body ≡ err invalid_vin
unfolding encode_response
encode_response_bad command vin encrypt_type body hv = rw (==_ne (length vin) vin_length hv)

pub encode_response-Returns :
    (command : ℕ) (vin : List ℕ) (encrypt_type : ℕ) (body : List ℕ)
    → Returns (encode_response command vin encrypt_type body)
encode_response-Returns command vin encrypt_type body = elim (ℕ_discrete (length vin) vin_length) [
  | no bad ↦ rw (encode_response_bad command vin encrypt_type body bad) tt
  | yes hv ↦ rw (encode_response_ok command vin encrypt_type body hv) tt
]

-- A frame that `encode_response` made, fed to a decoder, comes back: if the unread bytes begin with
-- it, `decode` returns the packet with the given command, VIN and data, the response byte of
-- success, and the given encryption type, 1 in place of 0; it leaves unread exactly what follows the
-- frame. This holds in both checksum modes, for data shorter than 65536 bytes.
pub decode-encode_response :
    (d : Decoder) (command : ℕ) (vin : List ℕ) (encrypt_type : ℕ) (body frame rest : List ℕ)
    → IsValid d
    → length body < 65536
    → encode_response command vin encrypt_type body ≡ ok frame
    → unread d ≡ frame ++ rest
    → (d' : Decoder) × (decode d
        ≡ ok (some (response_packet command vin (effective_enc encrypt_type) body), d'))
      × (unread d' ≡ rest)
decode-encode_response d command vin encrypt_type body frame rest v hb e u =
    elim (ℕ_discrete (length vin) vin_length) [
      | no bad ↦ cc (encode_response_bad command vin encrypt_type body bad)
      | yes hv ↦
          let enc = effective_enc encrypt_type in
          let header = response_header command vin enc (length body % 65536) in
          let bcc = calculate_bcc (drop 2 header ++ body) in
          let made : frame ≡ header ++ (body ++ (bcc ∷ [])) =
            cc (encode_response_ok command vin encrypt_type body hv) in
          rw (← packet_of-frame_header command resp_success vin enc body hv hb) (
            decode_frame d header body bcc rest v
              (frame_header-Heads command resp_success vin enc body hv hb)
              (frame_header_checked command resp_success vin enc body hv hb d.bcc_include_start)
              (u ∙ ap (λ f. f ++ rest) made ∙ simp append_assoc))
    ]

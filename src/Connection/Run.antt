-- ===== src/Connection/Run.antt =====
-- conn.go, `run` and `processPackets`: the loop over what is read, and that over the packets in it.
use gb32960_go_sdk.Base.{
  ℕ, zero, suc, List, [], ◌∷◌, Option, none, some, length, if◌then◌else◌, Result, ok, stuck, ◌>>=◌,
}
use gb32960_go_sdk.Packet.{Packet}
use gb32960_go_sdk.Decoder.{Decoder, decode, feed}
use gb32960_go_sdk.Decoder.Stream.{unread}
use gb32960_go_sdk.Connection.{is_done, Env, World, close}
use gb32960_go_sdk.Connection.Handle.{handle_packet}

abbrev pub with_decoder : World → Decoder → World
with_decoder w d = record w { conn = record w.conn { decoder = d } }

-- What follows a decoding: nil ends the loop, a packet is handled.
abbrev pub after_decode :
    Env → World → (World → Result World) → Option Packet × Decoder → Result World
after_decode env w more (none, d) = ok (with_decoder w d)
after_decode env w more (some p, d) = handle_packet env (with_decoder w d) p >>= more

unfoldable pub packets_loop : ℕ → Env → World → Result World
packets_loop zero env w = stuck
packets_loop (suc fuel) env w = decode w.conn.decoder >>= after_decode env w (packets_loop fuel env)

-- Each packet takes a byte at least.
unfoldable pub process_packets : Env → World → Result World
unfolding packets_loop
process_packets env w = packets_loop (suc (length (unread w.conn.decoder))) env w

-- One read of some bytes.
unfoldable pub on_read : Env → World → List ℕ → Result World
unfolding process_packets
on_read env w input = process_packets env (with_decoder w (feed w.conn.decoder input))

-- The reads of a connection, of which the one behind the last gives an error. `Close` ends the
-- context, and a login that follows does not bring it back. A read of no byte is passed over, and the end is always `Close`.
unfoldable pub run : Env → World → List (List ℕ) → Result World
unfolding on_read
run env w [] = ok (close w)
run env w (input ∷ reads) =
    let pass = run env w reads in
    if is_done w.conn.context
    then ok (close w)
    else elim input [ [] ↦ pass | b ∷ bs ↦ on_read env w (b ∷ bs) >>= λ w'. run env w' reads ]

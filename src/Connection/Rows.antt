-- ===== src/Connection/Rows.antt =====
-- A connection that reads rows of whole frames: `processPackets` handles the packets in their order.
use gb32960_go_sdk.Base.{
  ℕ, zero, suc, ◌<◌, ◌≡◌, refl, sym, ap, ◌∙◌, Bool, false, List, [], ◌∷◌, ◌++◌, Option, none, some,
  map, length, ok, All, arith, length-append,
}
use gb32960_go_sdk.Packet.{Packet}
use gb32960_go_sdk.Decoder.{Decoder, decode, feed}
use gb32960_go_sdk.Decoder.Stream.{unread, IsValid}
use gb32960_go_sdk.Decoder.Buffer.{decode-Total, Keeps, feed-IsValid, mode-feed, unread-feed}
use gb32960_go_sdk.Decoder.RoundTrip.{decode_frame}
use gb32960_go_sdk.Decoder.Rows.{Frame, IsFrame, packet_in, row, decode_nothing}
use gb32960_go_sdk.Connection.{is_done, Env, World, close}
use gb32960_go_sdk.Connection.Handle.{handle_packet}
use gb32960_go_sdk.Connection.Run.{with_decoder, packets_loop, process_packets, on_read, run}
use gb32960_go_sdk.Connection.Rule.{Gives, >>=-Gives}

-- A decoder with nothing left to read.
pub record IsDrained (include_start : Bool) (d : Decoder) : Type 0 where
  pub valid : IsValid d
  pub mode : d.bcc_include_start ≡ include_start
  pub empty : unread d ≡ []

-- The packets of frames that come in several reads.
abbrev pub packets_in : List (List Frame) → List Packet
packets_in [] = []
packets_in (g ∷ groups) = map packet_in g ++ packets_in groups

-- A rule for rows of packets. `Q ps w` says of a world what is to hold while `ps` are to come: it
-- does not look at the decoder, and handling the first of `ps` leaves both the decoder and `Q` of
-- the others.
pub record Follows (env : Env) (Q : List Packet → World → Type 0) : Type 0 where
  pub on_decoder : (ps : List Packet) (w : World) (d : Decoder) → Q ps w → Q ps (with_decoder w d)
  pub on_packet :
      (p : Packet) (ps : List Packet) (w : World)
      → Q (p ∷ ps) w
      → Gives (λ w'. Q ps w' × (w'.conn.decoder ≡ w.conn.decoder)) (handle_packet env w p)

module _ (env : Env) (Q : List Packet → World → Type 0) (follows : Follows env Q)
    (include_start : Bool) where
  abbrev Drained : List Packet → World → Type 0
  Drained ps w = Q ps w × IsDrained include_start w.conn.decoder

  kept_by : (d d' : Decoder) (p : Option Packet) → IsValid d → decode d ≡ ok (p, d') → Keeps d d'
  kept_by d d' p v e = rw e at (decode-Total d v)

  packets_loop-Follows :
      (fuel : ℕ) (fs : List Frame) (ps : List Packet) (w : World)
      → All (IsFrame include_start) fs
      → IsValid w.conn.decoder
      → w.conn.decoder.bcc_include_start ≡ include_start
      → unread w.conn.decoder ≡ row fs
      → length (row fs) < fuel
      → Q (map packet_in fs ++ ps) w
      → Gives (Drained ps) (packets_loop fuel env w)
  unfolding packets_loop
  packets_loop-Follows zero fs ps w fine v m u lt q = absurd (omega arith)
  packets_loop-Follows (suc fuel) [] ps w fine v m u lt q =
      let (d, e, left) = decode_nothing w.conn.decoder v u in
      let k = kept_by w.conn.decoder d none v e in
      rw e
        (follows.on_decoder ps w d q, record { valid = k.valid; mode = k.mode ∙ m; empty = left })
  packets_loop-Follows (suc fuel) (f ∷ fs) ps w fine v m u lt q =
      let (d, e, left) =
        decode_frame w.conn.decoder f.header f.body f.bcc (row fs) v fine.0.heads
          (rw m fine.0.checked) u in
      let k = kept_by w.conn.decoder d (some (packet_in f)) v e in
      rw e (
        >>=-Gives (λ w'. Q (map packet_in fs ++ ps) w' × (w'.conn.decoder ≡ d)) (Drained ps)
          (handle_packet env (with_decoder w d) (packet_in f)) (packets_loop fuel env)
          (follows.on_packet (packet_in f) (map packet_in fs ++ ps) (with_decoder w d)
            (follows.on_decoder (packet_in f ∷ (map packet_in fs ++ ps)) w d q))
          λ w' h.
            packets_loop-Follows fuel fs ps w' fine.1 (rw h.1 k.valid) (rw h.1 (k.mode ∙ m))
              (rw h.1 left)
              (omega (
                arith,
                length-append f.header (f.body ++ (f.bcc ∷ row fs)),
                length-append f.body (f.bcc ∷ row fs),
              ))
              h.0)

  pub process_packets-Follows :
      (fs : List Frame) (ps : List Packet) (w : World)
      → All (IsFrame include_start) fs
      → IsValid w.conn.decoder
      → w.conn.decoder.bcc_include_start ≡ include_start
      → unread w.conn.decoder ≡ row fs
      → Q (map packet_in fs ++ ps) w
      → Gives (Drained ps) (process_packets env w)
  unfolding process_packets
  process_packets-Follows fs ps w fine v m u q =
      packets_loop-Follows (suc (length (unread w.conn.decoder))) fs ps w fine v m u
        (omega (arith, ap length u)) q

  on_read-Follows :
      (input : List ℕ) (fs : List Frame) (ps : List Packet) (w : World)
      → row fs ≡ input
      → All (IsFrame include_start) fs
      → Drained (map packet_in fs ++ ps) w
      → Gives (Drained ps) (on_read env w input)
  unfolding on_read
  on_read-Follows input fs ps w e fine h =
      let d = w.conn.decoder in
      process_packets-Follows fs ps (with_decoder w (feed d input)) fine (feed-IsValid d input)
        (mode-feed d input ∙ h.1.mode)
        (unread-feed d input h.1.valid ∙ ap (λ u. u ++ input) h.1.empty ∙ sym e)
        (follows.on_decoder (map packet_in fs ++ ps) w (feed d input) h.0)

  module _ (stays : (ps : List Packet) (w : World) → Q ps w → is_done w.conn.context ≡ false) where
    -- The end of a connection whose context was not cancelled until its last read.
    abbrev ClosedAfter : World → Type 0
    ClosedAfter w = (v : World) × Q [] v × (w ≡ close v)

    run_read-Follows :
        (input : List ℕ) (fs : List Frame) (ps : List Packet) (reads : List (List ℕ)) (w : World)
        → row fs ≡ input
        → All (IsFrame include_start) fs
        → Drained (map packet_in fs ++ ps) w
        → ((w' : World) → Drained ps w' → Gives ClosedAfter (run env w' reads))
        → Gives ClosedAfter (run env w (input ∷ reads))
    unfolding run
    run_read-Follows [] [] ps reads w e fine h k = rw (stays ps w h.0) (k w h)
    run_read-Follows [] (f ∷ fs) ps reads w e fine h k = cc (rw fine.0.heads.starts.1 at e)
    run_read-Follows (b ∷ bs) fs ps reads w e fine h k = rw (stays _ w h.0) (
        >>=-Gives (Drained ps) ClosedAfter (on_read env w (b ∷ bs)) _
          (on_read-Follows (b ∷ bs) fs ps w e fine h) k)

    pub run-Follows :
        (groups : List (List Frame)) (w : World)
        → All (All (IsFrame include_start)) groups
        → Drained (packets_in groups) w
        → Gives ClosedAfter (run env w (map row groups))
    unfolding run
    run-Follows [] w fine h = (w, h.0, refl)
    run-Follows (g ∷ groups) w fine h =
        run_read-Follows (row g) g (packets_in groups) (map row groups) w refl fine.0 h
          λ w' h'. run-Follows groups w' fine.1 h'

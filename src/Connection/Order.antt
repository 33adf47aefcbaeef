-- ===== src/Connection/Order.antt =====
-- The order in which `processPackets` handles the packets of a read.
use gb32960_go_sdk.Base.{
  ◌≡◌, refl, sym, subst, ◌∙◌, List, [], ◌∷◌, ◌++◌, map, Result, ok, err, panic, stuck, All,
  append-nil, append_assoc,
}
use gb32960_go_sdk.Packet.{Packet}
use gb32960_go_sdk.Decoder.{Decoder}
use gb32960_go_sdk.Decoder.Stream.{unread, IsValid}
use gb32960_go_sdk.Decoder.Rows.{Frame, IsFrame, packet_in, row}
use gb32960_go_sdk.Connection.{Env, World}
use gb32960_go_sdk.Connection.Handle.{handle_packet}
use gb32960_go_sdk.Connection.Run.{with_decoder, process_packets}
use gb32960_go_sdk.Connection.Rule.{Gives}
use gb32960_go_sdk.Connection.Lifetime.{close-decoder}
use gb32960_go_sdk.Connection.LoginRule.{Survives, handle_packet-Gives}
use gb32960_go_sdk.Connection.Rows.{IsDrained, Follows, process_packets-Follows}

-- From `w0` on, exactly these packets have been handled, in this order, each in the world that the one
-- before has left; in between only the decoder changes.
pub data Handled (env : Env) (w0 : World) : List Packet → World → Type 0 where
  starts : Handled env w0 [] w0
  decodes :
      (ps : List Packet) (w : World) (d : Decoder)
      → Handled env w0 ps w
      → Handled env w0 ps (with_decoder w d)
  handles :
      (ps : List Packet) (p : Packet) (w w' : World)
      → Handled env w0 ps w
      → handle_packet env w p ≡ ok w'
      → Handled env w0 (ps ++ (p ∷ [])) w'

-- No packet touches the decoder.
decoder-Survives : (d : Decoder) → Survives (λ w. w.conn.decoder ≡ d)
decoder-Survives d = record {
  kept = record { on_event = λ w e h. h; on_key = λ w k h. h };
  on_enter = λ w vin login h. h;
  on_close = λ w h. close-decoder w ∙ h;
}

pub handle_packet-decoder :
    (env : Env) (w : World) (p : Packet)
    → Gives (λ w'. w'.conn.decoder ≡ w.conn.decoder) (handle_packet env w p)
handle_packet-decoder env w p =
    handle_packet-Gives env (λ w'. w'.conn.decoder ≡ w.conn.decoder)
      (decoder-Survives w.conn.decoder) w p refl

-- A property of the result that uses where it comes from.
pub Gives-map :
    (P Q : World → Type 0) (r : Result World)
    → Gives P r
    → ((w : World) → r ≡ ok w → P w → Q w)
    → Gives Q r
Gives-map P Q (ok w) h k = k w refl h
Gives-map P Q (err e) h k = h
Gives-map P Q panic h k = h
Gives-map P Q stuck h k = h

module _ (env : Env) (w0 : World) (all : List Packet) where
  abbrev HandledUpTo : List Packet → World → Type 0
  HandledUpTo ps w = (done : List Packet) × (done ++ ps ≡ all) × Handled env w0 done w

  HandledUpTo-Follows : Follows env HandledUpTo
  HandledUpTo-Follows = record {
    on_decoder = λ ps w d h. (h.0, h.1, decodes h.0 w d h.2);
    on_packet = λ p ps w h.
        Gives-map (λ w'. w'.conn.decoder ≡ w.conn.decoder) _ (handle_packet env w p)
          (handle_packet-decoder env w p)
          λ w' e same.
            ((h.0 ++ (p ∷ []), append_assoc h.0 (p ∷ []) ps ∙ h.1, handles h.0 p w w' h.2 e), same);
  }

-- If the unread bytes are a row of frames whose checksums the decoder takes, then `process_packets`
-- ends without a panic, whatever the handlers and the network answer: it has handled the packets of
-- these frames, all of them, in their order and nothing else, and nothing is left unread.
pub process_packets-Handled :
    (env : Env) (w : World) (fs : List Frame)
    → IsValid w.conn.decoder
    → All (IsFrame w.conn.decoder.bcc_include_start) fs
    → unread w.conn.decoder ≡ row fs
    → Gives
        (λ w'.
          Handled env w (map packet_in fs) w'
          × IsDrained w.conn.decoder.bcc_include_start w'.conn.decoder)
        (process_packets env w)
process_packets-Handled env w fs v fine u =
    let all = map packet_in fs in
    Gives-map (λ w'. HandledUpTo env w all [] w' × IsDrained _ w'.conn.decoder) _
      (process_packets env w)
      (process_packets-Follows env (HandledUpTo env w all) (HandledUpTo-Follows env w all)
        w.conn.decoder.bcc_include_start fs [] w fine v refl u ([], append-nil all, starts))
      λ w' e h. (subst (λ ps. Handled env w ps w') (sym (append-nil h.0.0) ∙ h.0.1) h.0.2, h.1)

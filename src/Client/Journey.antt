-- ===== src/Client/Journey.antt =====
-- From a terminal to the handlers of the server: what a terminal of cmd/ sends is heard by the handler.
use gb32960_go_sdk.Base.{
  ℕ, ◌<◌, ◌≡◌, refl, sym, subst, ap, ◌∙◌, Bool, true, false, List, [], ◌∷◌, ◌++◌, map, length, All,
}
use gb32960_go_sdk.Constant.{vin_length}
use gb32960_go_sdk.Packet.{Packet}
use gb32960_go_sdk.Decoder.Rows.{Frame, IsFrame, packet_in, row, row-append}
use gb32960_go_sdk.Connection.{is_done, Call, Env, World}
use gb32960_go_sdk.Connection.Run.{run}
use gb32960_go_sdk.Connection.Rule.{Gives}
use gb32960_go_sdk.Connection.Rows.{IsDrained, packets_in}
use gb32960_go_sdk.Connection.Calls.{calls_of, AllMean, Accepts}
use gb32960_go_sdk.Connection.Session.{put_calls, run-calls_of}
use gb32960_go_sdk.Client.{assemble}
use gb32960_go_sdk.Client.Frames.{
  assembled, request_packet, assemble-row, assembled-IsFrame, packet_in-assembled,
}

-- A command with its data.
abbrev pub Transmission : Type 0
Transmission = ℕ × List ℕ

abbrev pub Fits : Transmission → Type 0
Fits t = length t.1 < 65536

abbrev pub concat : List (List Transmission) → List Transmission
concat [] = []
concat (g ∷ gs) = g ++ concat gs

-- The frames of some transmissions in one read.
abbrev pub together : (Transmission → List ℕ) → List Transmission → List ℕ
together frame [] = []
together frame (t ∷ ts) = frame t ++ together frame ts

module _ (vin : List ℕ) where
  abbrev pub bytes_together : List Transmission → List ℕ
  bytes_together = together (λ t. assemble t.0 vin t.1)

  abbrev frames : List Transmission → List Frame
  frames = map (λ t. assembled t.0 vin t.1)

  abbrev pub packets : List Transmission → List Packet
  packets = map (λ t. request_packet t.0 vin t.1)

  module _ (hv : length vin ≡ vin_length) where
    row-frames : (ts : List Transmission) → All Fits ts → row (frames ts) ≡ bytes_together ts
    row-frames [] h = refl
    row-frames (t ∷ ts) h =
        row-append (assembled t.0 vin t.1) (frames ts)
        ∙ ap (λ b. row (assembled t.0 vin t.1 ∷ []) ++ b) (row-frames ts h.1)
        ∙ ap (λ b. b ++ bytes_together ts) (sym (assemble-row t.0 vin t.1 hv h.0))

    frames-IsFrame : (m : Bool) (ts : List Transmission) → All Fits ts → All (IsFrame m) (frames ts)
    frames-IsFrame m [] h = tt
    frames-IsFrame m (t ∷ ts) h = (assembled-IsFrame t.0 vin t.1 hv h.0 m, frames-IsFrame m ts h.1)

    packets-frames : (ts : List Transmission) → All Fits ts → map packet_in (frames ts) ≡ packets ts
    packets-frames [] h = refl
    packets-frames (t ∷ ts) h =
        rw (packet_in-assembled t.0 vin t.1 hv h.0, packets-frames ts h.1) refl

    rows-frames :
        (cut : List (List Transmission))
        → All (All Fits) cut
        → map row (map frames cut) ≡ map bytes_together cut
    rows-frames [] h = refl
    rows-frames (g ∷ cut) h = rw (row-frames g h.0, rows-frames cut h.1) refl

    rows-IsFrame :
        (m : Bool) (cut : List (List Transmission))
        → All (All Fits) cut
        → All (All (IsFrame m)) (map frames cut)
    rows-IsFrame m [] h = tt
    rows-IsFrame m (g ∷ cut) h = (frames-IsFrame m g h.0, rows-IsFrame m cut h.1)

    packets_in-frames :
        (cut : List (List Transmission))
        → All (All Fits) cut
        → packets_in (map frames cut) ≡ packets (concat cut)
    packets_in-frames [] h = refl
    packets_in-frames (g ∷ cut) h =
        rw (packets-frames g h.0, packets_in-frames cut h.1) (sym (packets-append g (concat cut)))
      where
        packets-append : (xs ys : List Transmission) → packets (xs ++ ys) ≡ packets xs ++ packets ys
        packets-append [] ys = refl
        packets-append (x ∷ xs) ys = ap (◌∷◌ (request_packet x.0 vin x.1)) (packets-append xs ys)

    packets-from : (ts : List Transmission) → All (λ p. p.vin ≡ vin) (packets ts)
    packets-from [] = tt
    packets-from (t ∷ ts) = (refl, packets-from ts)

pub All-append : (xs ys : List Transmission) → All Fits (xs ++ ys) → All Fits xs × All Fits ys
All-append [] ys h = (tt, h)
All-append (x ∷ xs) ys h = let r = All-append xs ys h.1 in ((h.0, r.0), r.1)

All-concat : (cut : List (List Transmission)) → All Fits (concat cut) → All (All Fits) cut
All-concat [] h = tt
All-concat (g ∷ cut) h = let r = All-append g (concat cut) h in (r.0, All-concat cut r.1)

-- A server that has a handler and lets a VIN of seventeen bytes in, on a connection whose context is not cancelled, with
-- nothing unread. A terminal with this VIN sends commands with their data in plain frames, and the
-- network delivers them whole, any number of them in one read. If each of them is a message of
-- vehicles whose data are decoded, then the connection runs to its end without a panic, and the
-- handler hears the messages in the order in which they were sent, each once.
pub run-terminal :
    (env : Env) (w : World) (vin : List ℕ) (cut : List (List Transmission)) (cs : List Call)
    → length vin ≡ vin_length
    → env.has_handler ≡ true
    → Accepts env vin
    → is_done w.conn.context ≡ false
    → IsDrained w.conn.decoder.bcc_include_start w.conn.decoder
    → All Fits (concat cut)
    → AllMean (packets vin (concat cut)) cs
    → Gives
        (λ w'. calls_of w'.trace ≡ put_calls cs (calls_of w.trace))
        (run env w (map (bytes_together vin) cut))
run-terminal env w vin cut cs hv set accepts live drained fits mean =
    let m = w.conn.decoder.bcc_include_start in
    let all = All-concat cut fits in
    let same = packets_in-frames vin hv cut all in
    rw (← rows-frames vin hv cut all) (
      run-calls_of env w vin (map (frames vin) cut) cs set accepts live drained
        (rows-IsFrame vin hv m cut all)
        (subst (All (λ p. p.vin ≡ vin)) (sym same) (packets-from vin hv (concat cut)))
        (subst (λ ps. AllMean ps cs) (sym same) mean))

-- ===== src/Connection/Session.antt =====
-- What the handlers of a server hear of a vehicle, from the first read to the last.
use gb32960_go_sdk.Base.{
  ℕ, ◌≡◌, refl, sym, subst, ap, ◌∙◌, true, false, inl, inr, List, [], ◌∷◌, map, All, Bool-cases,
}
use gb32960_go_sdk.Packet.{Packet}
use gb32960_go_sdk.Decoder.Rows.{Frame, IsFrame, row}
use gb32960_go_sdk.Connection.{is_done, Call, Env, World, is_closed, close}
use gb32960_go_sdk.Connection.Handle.{handle_packet}
use gb32960_go_sdk.Connection.Run.{run}
use gb32960_go_sdk.Connection.Order.{Gives-map}
use gb32960_go_sdk.Connection.Rule.{Gives}
use gb32960_go_sdk.Connection.Rows.{IsDrained, Follows, packets_in, run-Follows}
use gb32960_go_sdk.Connection.Calls.{
  calls_of, AllMean, nothing, also, Accepts, Heard, handle_packet-Heard,
}

-- The calls of a list put in front of others, so that the last of them stands first.
abbrev pub put_calls : List Call → List Call → List Call
put_calls [] heard = heard
put_calls (c ∷ cs) heard = put_calls cs (c ∷ heard)

module _ (env : Env) (set : env.has_handler ≡ true) where
  -- What is to hold while packets are to come: with their calls the trace has all of `goal`.
  record Awaits (vin : List ℕ) (goal : List Call) (ps : List Packet) (w : World) : Type 0 where
    coming : List Call
    mean : AllMean ps coming
    from_one : All (λ p. p.vin ≡ vin) ps
    live : is_done w.conn.context ≡ false
    completes : put_calls coming (calls_of w.trace) ≡ goal

  Awaits-step :
      (vin : List ℕ) (goal : List Call) (p : Packet) (ps : List Packet) (w : World)
      (coming : List Call)
      → Accepts env vin
      → AllMean (p ∷ ps) coming
      → All (λ p. p.vin ≡ vin) (p ∷ ps)
      → is_done w.conn.context ≡ false
      → put_calls coming (calls_of w.trace) ≡ goal
      → Gives
          (λ w'. Awaits vin goal ps w' × (w'.conn.decoder ≡ w.conn.decoder))
          (handle_packet env w p)
  Awaits-step vin goal p ps w _ accepts (also _ c _ cs plain means more) one live completes =
      Gives-map (Heard w.conn.decoder (c ∷ calls_of w.trace)) _ (handle_packet env w p)
        (handle_packet-Heard env set w p c (calls_of w.trace) plain means
          (subst (Accepts env) (sym one.0) accepts)
          (record { called = refl; live = live; same_decoder = refl }))
        λ w' e h. (
          record {
            coming = cs;
            mean = more;
            from_one = one.1;
            live = h.live;
            completes = ap (put_calls cs) h.called ∙ completes;
          },
          h.same_decoder,
        )

  Awaits-Follows :
      (vin : List ℕ) (goal : List Call) → Accepts env vin → Follows env (Awaits vin goal)
  Awaits-Follows vin goal accepts = record {
    on_decoder = λ ps w d h. record {
      coming = h.coming;
      mean = h.mean;
      from_one = h.from_one;
      live = h.live;
      completes = h.completes;
    };
    on_packet = λ p ps w h.
        Awaits-step vin goal p ps w h.coming accepts h.mean h.from_one h.live h.completes;
  }

calls_of-close : (w : World) → calls_of (close w).trace ≡ calls_of w.trace
unfolding close
calls_of-close w = elim (Bool-cases (is_closed w.conn.state)) [
  | inl e ↦ rw e refl
  | inr e ↦ rw e refl
]

none_left : (cs heard goal : List Call) → AllMean [] cs → put_calls cs heard ≡ goal → heard ≡ goal
none_left _ heard goal nothing e = e

-- A connection of a server that has a handler and lets a VIN in, whose context is not cancelled and in which nothing
-- is unread. Whole frames of this VIN are read, in reads of any number of frames, each the login,
-- logout, realtime, reissue or heartbeat message of a vehicle, in plain data that are decoded. Then
-- `run` ends without a panic, whatever the handlers and the network answer, and the handler has been
-- called once for each frame, in their order, with the decoded message, and for nothing else.
pub run-calls_of :
    (env : Env) (w : World) (vin : List ℕ) (groups : List (List Frame)) (cs : List Call)
    → env.has_handler ≡ true
    → Accepts env vin
    → is_done w.conn.context ≡ false
    → IsDrained w.conn.decoder.bcc_include_start w.conn.decoder
    → All (All (IsFrame w.conn.decoder.bcc_include_start)) groups
    → All (λ p. p.vin ≡ vin) (packets_in groups)
    → AllMean (packets_in groups) cs
    → Gives (λ w'. calls_of w'.trace ≡ put_calls cs (calls_of w.trace)) (run env w (map row groups))
run-calls_of env w vin groups cs set accepts live drained fine one mean =
    let goal = put_calls cs (calls_of w.trace) in
    Gives-map _ _ (run env w (map row groups))
      (run-Follows env (Awaits env set vin goal) (Awaits-Follows env set vin goal accepts)
        w.conn.decoder.bcc_include_start (λ ps v h. h.live) groups w fine
        (
          record { coming = cs; mean = mean; from_one = one; live = live; completes = refl },
          drained,
        ))
      λ w' e h.
        ap (λ v. calls_of v.trace) h.2
        ∙ calls_of-close h.0
        ∙ none_left h.1.coming _ goal h.1.mean h.1.completes

-- ===== src/Server/Idle.antt =====
-- The idle check: a connection from which nothing is read is closed.
use gb32960_go_sdk.Base.{
  ℕ, ◌+◌, ◌-◌, ◌*◌, ◌<◌, ◌≤◌, ◌≡◌, refl, Bool, true, false, ◌||◌, inl, inr, List, [], ◌∷◌, ◌++◌,
  none, some, get_elem?, ltb, leb, if◌then◌else◌, sym, All, Bool-cases, lt→ltb, arith, Result, ok,
  err, panic, stuck, ◌>>=◌, Returns, subst,
}
use gb32960_go_sdk.Constant.Cmd
use gb32960_go_sdk.Time6.{encode_bcd_time}
use gb32960_go_sdk.Decoder.Stream.{IsValid}
use gb32960_go_sdk.Connection.{Env, World, is_closed, close, send, frame_of, written}
use gb32960_go_sdk.Connection.Rule.{frame_of-Returns}
use gb32960_go_sdk.Connection.Lifetime.{close-decoder}
use gb32960_go_sdk.Server.Pool.{
  Settings, Slot, Pool, second, since, focus, put_back, close_conn, probed, idle_probe,
  idle_recheck, idle_wake, Move, probes, wakes, perform, perform_all,
}
use gb32960_go_sdk.Server.Slots.{get_elem?-set_at, set_at-AllValid, AllValid}
use gb32960_go_sdk.Server.Outcome.{
  Finishes, Finishes-bind, Finishes-split, Option-choose, Bool-choose,
}
use gb32960_go_sdk.Server.Moves.{perform-Steady}
use gb32960_go_sdk.Server.Unread.{NoRead, total, IsUnread, all-IsUnread, is_closed-close}
use gb32960_go_sdk.Server.Shut.{ClosedAt, ShutAt, ShutAt-Steady}

recheck-ClosedAt :
    (st : Settings) (i : ℕ) (p : Pool) (s : Slot)
    → get_elem? p.slots i ≡ some s
    → st.idle_timeout + 3 * second < since p s
    → ClosedAt i (idle_recheck st i p)
unfolding idle_recheck close_conn
recheck-ClosedAt st i p s at idle = elim (Bool-cases (is_closed s.conn.state)) [
  | inl shut ↦ rw (at, idle_recheck, shut) (s, at, shut)
  | inr live ↦
      let due : ltb (st.idle_timeout + 3 * second) (since p s) ≡ true = lt→ltb _ _ idle in
      rw (at, idle_recheck, live, due, at, close_conn)
        (_, get_elem?-set_at i s _ p.slots at, is_closed-close (focus p s))
]

module _ (st : Settings) (env : Env) (i : ℕ) (p : Pool) (s : Slot) (valid : AllValid p.slots)
    (at : get_elem? p.slots i ≡ some s) where
  -- The check has seen to the connection: it sleeps for it, or has closed it.
  abbrev Seen : Pool → Type 0
  Seen = IsUnread i s.last_seen (p.clock + 3 * second) p.clock

  closed_now :
      (w : World) → IsValid w.conn.decoder → Seen (close_conn i (put_back p i s.last_seen w))
  unfolding close_conn
  closed_now w v =
      let t : Slot = record { conn = w.conn; last_seen = s.last_seen } in
      let here = get_elem?-set_at i s t p.slots at in
      rw (here, close_conn)
        (record {
          valid =
              set_at-AllValid i _ _ (set_at-AllValid i t p.slots valid v)
                (subst IsValid (sym (close-decoder _)) v);
          slot = record {
            conn = (close (focus (put_back p i s.last_seen w) t)).conn;
            last_seen = s.last_seen;
          };
          at = get_elem?-set_at i t _ _ here;
          seen = refl;
          clock_past = omega arith;
          awaited = inl (is_closed-close _);
        })

  sent_now :
      (r : Result (List ℕ))
      → Returns r
      → Finishes Seen (written env (focus p s) r >>= λ x. ok (probed p i s x))
  sent_now (ok frame) h = elim (Bool-cases (env.write p.trace frame)) [
    | inl fine ↦ rw fine (record {
      valid = set_at-AllValid i _ p.slots valid (valid i s at);
      slot = s;
      at = get_elem?-set_at i s _ p.slots at;
      seen = refl;
      clock_past = omega arith;
      awaited = inr refl;
    })
    | inr bad ↦ rw bad (closed_now _ (valid i s at))
  ]
  sent_now (err x) h = closed_now (focus p s) (valid i s at)
  sent_now panic h = absurd h
  sent_now stuck h = absurd h

  or_left : (a b : Bool) → (a || b) ≡ true → b ≡ false → a ≡ true
  or_left true b e f = refl
  or_left false b e f = cc

  or_false : (a b : Bool) → (a || b) ≡ false → a ≡ false
  or_false true b e = e
  or_false false b e = refl

  idle_probe-Seen : st.idle_timeout < since p s → Finishes Seen (idle_probe st env i p)
  unfolding idle_probe send
  idle_probe-Seen idle =
      let closed = is_closed s.conn.state in
      let recent = leb (since p s) st.idle_timeout in
      let silent : recent ≡ false = ground arith in
      elim (Bool-cases (closed || recent)) [
        | inl skip ↦
            rw (at, idle_probe, skip)
              (record {
                valid = valid;
                slot = s;
                at = at;
                seen = refl;
                clock_past = omega arith;
                awaited = inl (or_left closed recent skip silent);
              })
        | inr go ↦
            rw (at, idle_probe, go, or_false closed recent go)
              (sent_now (frame_of env.aes s.conn Cmd.heartbeat (encode_bcd_time (env.now p.trace)))
                (frame_of-Returns env.aes s.conn Cmd.heartbeat _))
      ]

  probes-Seen :
      0 < st.idle_timeout
      → st.idle_timeout < since p s
      → p.probing ≡ none
      → Finishes Seen (perform st env (probes i) p)
  unfolding perform
  probes-Seen some_timeout idle awake = rw (lt→ltb 0 st.idle_timeout some_timeout) (
      Option-choose (Finishes Seen) p.probing (idle_probe st env i p) (λ other. ok p)
        (λ e. idle_probe-Seen idle) (λ other e. cc (awake, e)))

-- The move that ends the sleep reads nothing.
abbrev IsWake : Move → Pool → Type 0
IsWake m p = m ≡ wakes

wakes-ShutAt :
    (st : Settings) (env : Env) (i : ℕ) (p : Pool) → ShutAt i p → ClosedAt i (idle_wake st p)
unfolding perform
wakes-ShutAt st env i p h =
    (perform-Steady st env IsWake (ShutAt i)
      (ShutAt-Steady st env IsWake i (λ q j input s a k e live. cc a)) wakes p refl h).1

wakes-ClosedAt :
    (st : Settings) (env : Env) (i l due c : ℕ) (p : Pool)
    → IsUnread i l due c p
    → due ≤ c
    → st.idle_timeout + 3 * second < c - l * second
    → Finishes (ClosedAt i) (perform st env wakes p)
unfolding perform idle_wake
wakes-ClosedAt st env i l due c p h late idle = elim h.awaited [
  | inl closed ↦ wakes-ShutAt st env i p (h.valid, (h.slot, h.at, closed))
  | inr asleep ↦
      Option-choose (ClosedAt i) p.probing p _ (λ e. cc (e, asleep))
        λ x e.
          let same : (i, due) ≡ x = cc (e, asleep) in
          let q : Pool = record p { probing = none } in
          let woken : ClosedAt i (if ltb p.clock due then p else idle_recheck st i q) =
            Bool-choose (ClosedAt i) (ltb p.clock due) p (idle_recheck st i q)
              (λ early. absurd (ground (arith, h.clock_past)))
              (λ on_time.
                recheck-ClosedAt st i q h.slot h.at (omega (arith, idle, h.clock_past, h.seen))) in
          subst (λ y. ClosedAt i (if ltb p.clock y.1 then p else idle_recheck st y.0 q)) same woken
]

perform_all-append :
    (st : Settings) (env : Env) (ms : List Move) (m : Move) (p : Pool) (Q R : Pool → Type 0)
    → Finishes Q (perform_all st env ms p)
    → ((p' : Pool) → Q p' → Finishes R (perform st env m p'))
    → Finishes R (perform_all st env (ms ++ (m ∷ [])) p)
unfolding perform_all
perform_all-append st env [] m p Q R h k =
    Finishes-bind R R (perform st env m p) _ (k p h) (λ p' r. r)
perform_all-append st env (n ∷ ms) m p Q R h k =
    Finishes-split Q R (perform st env n p) (perform_all st env ms) _ h
      λ p' h'. perform_all-append st env ms m p' Q R h' k

-- The idle check of a server that has an idle timeout closes a silent connection. The check, which is
-- awake, comes to a connection that was last seen longer ago than the idle timeout; then other moves of
-- the server follow in any order and number, reads of other connections, closings, accepts and the
-- beginning of `Stop`, but no read of this connection, for three seconds or more, and then the check
-- wakes up. Whether the heartbeat could be sent or not, whatever the networks and handlers answer, and
-- if no connection's bytes make the process panic, the connection is closed afterwards. This holds in
-- every pool whose decoders have fields that agree.
pub perform_all-ClosedAt :
    (st : Settings) (env : Env) (p : Pool) (i : ℕ) (s : Slot) (ms : List Move)
    → AllValid p.slots
    → get_elem? p.slots i ≡ some s
    → p.probing ≡ none
    → 0 < st.idle_timeout
    → st.idle_timeout < since p s
    → All (NoRead i) ms
    → 3 * second ≤ total ms
    → Finishes (ClosedAt i) (perform_all st env (probes i ∷ (ms ++ (wakes ∷ []))) p)
unfolding perform_all
perform_all-ClosedAt st env p i s ms valid at awake some_timeout idle quiet slept =
    let l = s.last_seen in
    let due = p.clock + 3 * second in
    Finishes-bind (IsUnread i l due p.clock) (ClosedAt i) (perform st env (probes i) p) _
      (probes-Seen st env i p s valid at some_timeout idle awake)
      λ q h.
        perform_all-append st env ms wakes q (IsUnread i l due (p.clock + total ms)) (ClosedAt i)
          (all-IsUnread st env i l due ms p.clock q quiet h)
          λ q' h'.
            wakes-ClosedAt st env i l due _ q' h' (omega (arith, slept))
              (omega (arith, idle, slept))

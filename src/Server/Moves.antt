-- ===== src/Server/Moves.antt =====
-- A rule for the moves of the pool: what accepting, closing, writing and reading keep is kept by every
-- move.
use gb32960_go_sdk.Base.{
  ℕ, zero, suc, ◌+◌, ◌*◌, ◌≡◌, refl, sym, subst, ap, Bool, true, false, ◌||◌, inl, inr, List, [],
  ◌∷◌, ◌++◌, none, some, length, get_elem?, ltb, leb, ◌==◌, if◌then◌else◌, Result, ok, err, panic,
  stuck, ◌>>=◌, Returns, Bool-cases, Option-cases,
}
use gb32960_go_sdk.Constant.Cmd
use gb32960_go_sdk.Time6.{encode_bcd_time}
use gb32960_go_sdk.Connection.{
  is_done, writes, Env, World, new_connection, logged, frame_of, written, is_closed, send, close,
}
use gb32960_go_sdk.Connection.Run.{on_read}
use gb32960_go_sdk.Connection.Rule.{frame_of-Returns}
use gb32960_go_sdk.Connection.Lifetime.{Ends}
use gb32960_go_sdk.Server.{accept, is_full}
use gb32960_go_sdk.Server.Outcome.{Finishes, Option-choose, Bool-choose}
use gb32960_go_sdk.Server.Pool.{
  Settings, Slot, Pool, second, unix, since, set_at, focus, put_back, put_back_result, accept_conn,
  store_conn, idle_start, idle_wake, read_conn, close_conn, probed, idle_probe, idle_recheck, stop,
  checks_idle, Move, accepts, stores, reads, closes, passes, probes, wakes, stops, perform,
}

set_at_same : (i : ℕ) (s : Slot) (ss : List Slot) → get_elem? ss i ≡ some s → set_at i s ss ≡ ss
set_at_same i s [] e = refl
set_at_same zero s (t ∷ ss) e = ap (λ u. u ∷ ss) cc
set_at_same (suc i) s (t ∷ ss) e = ap (◌∷◌ t) (set_at_same i s ss e)

put_back_same :
    (p : Pool) (i : ℕ) (s : Slot)
    → get_elem? p.slots i ≡ some s
    → put_back p i s.last_seen (focus p s) ≡ p
put_back_same p i s e = ap (λ ss. record p { slots = ss }) (set_at_same i s p.slots e)

-- The pool behind a connection that has been let in.
abbrev pub with_accepted : Settings → List ℕ → Pool → Pool
with_accepted st id p = record p {
  slots =
      p.slots
      ++ (record {
        conn = new_connection st.time_codec st.bcc_include_start id (length p.slots);
        last_seen = unix p.clock;
      }
          ∷ []);
  server = accept st.max_conns id (length p.slots) p.server;
  accepted = none;
}

-- What is kept, under a condition on the moves.
pub record Steady (st : Settings) (env : Env) (Allowed : Move → Pool → Type 0) (Q : Pool → Type 0)
    : Type 0 where
  pub on_accept :
      (p : Pool) (id : List ℕ)
      → Q p
      → Allowed (accepts id) p
      → p.stopped ≡ false
      → Q (record p { accepted = some id })
  pub on_refuse : (p : Pool) → Q p → Q (record p { accepted = none })
  pub on_store :
      (p : Pool) (id : List ℕ)
      → Q p
      → Allowed stores p
      → p.accepted ≡ some id
      → is_full p.server.conn_count st.max_conns ≡ false
      → Q (with_accepted st id p)
  pub on_sleep : (p : Pool) (x : ℕ × ℕ) → Q p → p.probing ≡ none → Q (record p { probing = some x })
  pub on_wake : (p : Pool) → Q p → Allowed wakes p → Q (record p { probing = none })
  pub on_clock : (p : Pool) (n : ℕ) → Q p → Q (record p { clock = p.clock + n })
  pub on_stop : (p : Pool) → Q p → Q (record p { stopped = true })
  pub on_close :
      (p : Pool) (i : ℕ) (s : Slot)
      → Q p
      → get_elem? p.slots i ≡ some s
      → Q (put_back p i s.last_seen (close (focus p s)))
  pub on_write :
      (p : Pool) (i : ℕ) (s : Slot) (frame : List ℕ)
      → Q p
      → get_elem? p.slots i ≡ some s
      → Q (put_back p i s.last_seen (logged (focus p s) (writes frame)))
  pub on_bytes :
      (p : Pool) (i : ℕ) (s : Slot) (input : List ℕ)
      → Q p
      → Allowed (reads i input) p
      → get_elem? p.slots i ≡ some s
      → is_done s.conn.context ≡ false
      → Ends (λ w. Q (put_back p i (unix p.clock) w)) (on_read env (focus p s) input)

module _ (st : Settings) (env : Env) (Allowed : Move → Pool → Type 0) (Q : Pool → Type 0)
    (steady : Steady st env Allowed Q) where
  close_conn-Steady : (i : ℕ) (p : Pool) → Q p → Q (close_conn i p)
  unfolding close_conn
  close_conn-Steady i p q = elim (Option-cases (get_elem? p.slots i)) [
    | inl e ↦ rw (e, close_conn) q
    | inr (s, e) ↦ rw (e, close_conn) (steady.on_close p i s q e)
  ]

  put_back-Ends :
      (p : Pool) (i l : ℕ) (r : Result World)
      → Ends (λ w. Q (put_back p i l w)) r
      → Finishes Q (put_back_result p i l r)
  put_back-Ends p i l (ok w) h = h
  put_back-Ends p i l (err e) h = h
  put_back-Ends p i l panic h = tt
  put_back-Ends p i l stuck h = h

  choose-Finishes :
      (b : Bool) (r : Result Pool) (p : Pool)
      → Q p
      → (b ≡ false → Finishes Q r)
      → Finishes Q (if b then ok p else r)
  choose-Finishes true r p q h = q
  choose-Finishes false r p q h = h refl

  choose-Finishes-of :
      (b : Bool) (r : Result Pool) (p : Pool)
      → Q p
      → Finishes Q r
      → Finishes Q (if b then r else ok p)
  choose-Finishes-of true r p q h = h
  choose-Finishes-of false r p q h = q

  or_false : (a b : Bool) → (a || b) ≡ false → a ≡ false
  or_false true b e = e
  or_false false b e = refl

  read_conn-Steady :
      (i : ℕ) (input : List ℕ) (p : Pool)
      → Allowed (reads i input) p
      → Q p
      → Finishes Q (read_conn env i input p)
  unfolding read_conn
  read_conn-Steady i input p a q = elim (Option-cases (get_elem? p.slots i)) [
    | inl e ↦ rw (e, read_conn) q
    | inr (s, e) ↦
        rw (e, read_conn)
          (choose-Finishes (is_done s.conn.context || length input == 0) _ p q λ live.
            put_back-Ends p i (unix p.clock) (on_read env (focus p s) input)
              (steady.on_bytes p i s input q a e (or_false _ _ live)))
  ]

  same_probing :
      (p : Pool) (i : ℕ) (s : Slot) (r : Result (List ℕ))
      → Q p
      → p.probing ≡ none
      → get_elem? p.slots i ≡ some s
      → Returns r
      → Finishes Q (written env (focus p s) r >>= λ x. ok (probed p i s x))
  same_probing p i s (ok frame) q awake e h =
      let q1 = steady.on_write p i s frame q e in
      elim (Bool-cases (env.write p.trace frame)) [
        | inl fine ↦ rw fine (steady.on_sleep _ (i, p.clock + 3 * second) q1 awake)
        | inr bad ↦ rw bad (close_conn-Steady i _ q1)
      ]
  same_probing p i s (err x) q awake e h =
      close_conn-Steady i _ (subst Q (sym (put_back_same p i s e)) q)
  same_probing p i s panic q awake e h = absurd h
  same_probing p i s stuck q awake e h = absurd h

  idle_probe-Steady :
      (i : ℕ) (p : Pool) → Q p → p.probing ≡ none → Finishes Q (idle_probe st env i p)
  unfolding idle_probe send
  idle_probe-Steady i p q awake = elim (Option-cases (get_elem? p.slots i)) [
    | inl e ↦ rw (e, idle_probe) q
    | inr (s, e) ↦
        let input = encode_bcd_time (env.now p.trace) in
        elim (Bool-cases (is_closed s.conn.state || leb (since p s) st.idle_timeout)) [
          | inl skip ↦ rw (e, idle_probe, skip) q
          | inr idle ↦
              rw
                (
                  e,
                  idle_probe,
                  idle,
                  or_false (is_closed s.conn.state) (leb (since p s) st.idle_timeout) idle,
                )
                (same_probing p i s (frame_of env.aes s.conn Cmd.heartbeat input) q awake e
                  (frame_of-Returns env.aes s.conn Cmd.heartbeat input))
        ]
  ]

  idle_start-Steady : (i : ℕ) (p : Pool) → Q p → Finishes Q (idle_start st env i p)
  idle_start-Steady i p q =
      Option-choose (Finishes Q) p.probing (idle_probe st env i p) (λ other. ok p)
        (idle_probe-Steady i p q) (λ other e. q)

  choose-Q : (b : Bool) (x y : Pool) → Q x → Q y → Q (if b then x else y)
  choose-Q true x y h k = h
  choose-Q false x y h k = k

  idle_recheck-Steady : (i : ℕ) (p : Pool) → Q p → Q (idle_recheck st i p)
  unfolding idle_recheck
  idle_recheck-Steady i p q = elim (Option-cases (get_elem? p.slots i)) [
    | inl e ↦ rw (e, idle_recheck) q
    | inr (s, e) ↦
        rw (e, idle_recheck)
          (choose-Q (is_closed s.conn.state) _ _ q (
            choose-Q (ltb (st.idle_timeout + 3 * second) (since p s)) _ _ (close_conn-Steady i p q)
              q))
  ]

  accept_conn-Steady :
      (id : List ℕ) (p : Pool) → Allowed (accepts id) p → Q p → Q (accept_conn id p)
  accept_conn-Steady id p a q =
      Bool-choose Q p.stopped p _ (λ e. q)
        λ up.
          Option-choose Q p.accepted (record p { accepted = some id }) (λ other. p)
            (λ e. steady.on_accept p id q a up) (λ other e. q)

  store_conn-Steady : (p : Pool) → Allowed stores p → Q p → Q (store_conn st p)
  unfolding store_conn
  store_conn-Steady p a q =
      Option-choose Q p.accepted p _ (λ e. q)
        λ id e.
          Bool-choose Q (is_full p.server.conn_count st.max_conns) (record p { accepted = none })
            (with_accepted st id p) (λ full. steady.on_refuse p q)
            (λ free. steady.on_store p id q a e free)

  idle_wake-Steady : (p : Pool) → Allowed wakes p → Q p → Q (idle_wake st p)
  unfolding idle_wake
  idle_wake-Steady p a q =
      Option-choose Q p.probing p _ (λ e. q)
        λ x e.
          choose-Q (ltb p.clock x.1) p (idle_recheck st x.0 (record p { probing = none })) q
            (idle_recheck-Steady x.0 _ (steady.on_wake p q a))

  pub perform-Steady : (m : Move) (p : Pool) → Allowed m p → Q p → Finishes Q (perform st env m p)
  unfolding perform stop
  perform-Steady (accepts id) p a q = accept_conn-Steady id p a q
  perform-Steady stores p a q = store_conn-Steady p a q
  perform-Steady (reads i input) p a q = read_conn-Steady i input p a q
  perform-Steady (closes i) p a q = close_conn-Steady i p q
  perform-Steady (passes n) p a q = steady.on_clock p n q
  perform-Steady (probes i) p a q =
      choose-Finishes-of (checks_idle st) _ p q (idle_start-Steady i p q)
  perform-Steady wakes p a q = idle_wake-Steady p a q
  perform-Steady stops p a q = steady.on_stop p q

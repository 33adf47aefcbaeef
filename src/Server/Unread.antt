-- ===== src/Server/Unread.antt =====
-- A connection from which nothing is read: what all other moves of the server keep of it.
use gb32960_go_sdk.Base.{
  Bool-cases, true, ℕ, ◌+◌, ◌≤◌, ◌≡◌, ◌≢◌, ◌⊎◌, inl, inr, refl, sym, subst, ap, ◌∙◌, List, [], ◌∷◌,
  some, get_elem?, All, arith,
}
use native.Mathlib.Decide.{ℕ_discrete}
use gb32960_go_sdk.Decoder.Stream.{IsValid}
use gb32960_go_sdk.Connection.{Env, World, writes, logged, close, is_closed}
use gb32960_go_sdk.Connection.Run.{on_read}
use gb32960_go_sdk.Connection.Lifetime.{close-decoder}
use gb32960_go_sdk.Server.Pool.{
  Settings, Slot, Pool, unix, focus, put_back, Move, accepts, stores, reads, closes, passes, probes,
  wakes, stops, perform, perform_all,
}
use gb32960_go_sdk.Server.Slots.{
  get_elem?-set_at, get_elem?-set_at_other, get_elem?-append_front, on_read-IsValid, Ends-map,
  AllValid, set_at-AllValid, append-AllValid, new_connection-IsValid, one_slot,
}
use gb32960_go_sdk.Server.Outcome.{Finishes, Finishes-bind}
use gb32960_go_sdk.Server.Moves.{Steady, perform-Steady}

pub is_closed-close : (w : World) → is_closed (close w).conn.state ≡ true
unfolding close
is_closed-close w = elim (Bool-cases (is_closed w.conn.state)) [
  | inl e ↦ rw e e
  | inr e ↦ rw e refl
]

-- A move that is no read of connection `i`, and not the end of the idle check's sleep.
abbrev pub NoRead : ℕ → Move → Type 0
NoRead i (accepts id) = Unit {0}
NoRead i stores = Unit {0}
NoRead i (reads j input) = j ≢ i
NoRead i (closes j) = Unit {0}
NoRead i (passes n) = Unit {0}
NoRead i (probes j) = Unit {0}
NoRead i wakes = ⊥
NoRead i stops = Unit {0}

-- How long a move takes, and all of some.
abbrev pub elapsed : Move → ℕ
elapsed (accepts id) = 0
elapsed stores = 0
elapsed (reads j input) = 0
elapsed (closes j) = 0
elapsed (passes n) = n
elapsed (probes j) = 0
elapsed wakes = 0
elapsed stops = 0

abbrev pub total : List Move → ℕ
total [] = 0
total (m ∷ ms) = elapsed m + total ms

-- Connection `i` was last seen at `l`, the clock has come to `c`, and the connection is closed or the
-- idle check sleeps for it until `due`.
pub record IsUnread (i l due c : ℕ) (p : Pool) : Type 0 where
  pub valid : AllValid p.slots
  pub slot : Slot
  pub at : get_elem? p.slots i ≡ some slot
  pub seen : slot.last_seen ≡ l
  pub clock_past : c ≤ p.clock
  pub awaited : (is_closed slot.conn.state ≡ true) ⊎ (p.probing ≡ some (i, due))

module _ (i l due c : ℕ) where
  -- A slot that is put back, with another time only if it is another's.
  put_back-IsUnread :
      (p : Pool) (j l' : ℕ) (s : Slot) (w : World)
      → IsUnread i l due c p
      → get_elem? p.slots j ≡ some s
      → (j ≡ i → l' ≡ s.last_seen)
      → (j ≡ i → is_closed s.conn.state ≡ true → is_closed w.conn.state ≡ true)
      → IsValid w.conn.decoder
      → IsUnread i l due c (put_back p j l' w)
  put_back-IsUnread p j l' s w h e same shut v =
      let t : Slot = record { conn = w.conn; last_seen = l' } in
      let valid = set_at-AllValid j t p.slots h.valid v in
      elim (ℕ_discrete j i) [
        | yes here ↦
            let e' : get_elem? p.slots i ≡ some s = rw here at e in
            record {
              valid = valid;
              slot = t;
              at = rw here (get_elem?-set_at i s t p.slots e');
              seen =
                  same here ∙ ap (λ u. u.last_seen) (one_slot i s h.slot p.slots e' h.at) ∙ h.seen;
              clock_past = h.clock_past;
              awaited = elim h.awaited [
                | inl closed ↦
                    let one : h.slot ≡ s = one_slot i h.slot s p.slots h.at e' in
                    inl (shut here (ap (λ u. is_closed u.conn.state) (sym one) ∙ closed))
                | inr asleep ↦ inr asleep
              ];
            }
        | no there ↦ record {
          valid = valid;
          slot = h.slot;
          at = get_elem?-set_at_other i j t p.slots there ∙ h.at;
          seen = h.seen;
          clock_past = h.clock_past;
          awaited = h.awaited;
        }
      ]

  IsUnread-Steady :
      (st : Settings) (env : Env) → Steady st env (λ m p. NoRead i m) (IsUnread i l due c)
  IsUnread-Steady st env = record {
    on_accept = λ p id h a up. record {
      valid = h.valid;
      slot = h.slot;
      at = h.at;
      seen = h.seen;
      clock_past = h.clock_past;
      awaited = h.awaited;
    };
    on_refuse = λ p h. record {
      valid = h.valid;
      slot = h.slot;
      at = h.at;
      seen = h.seen;
      clock_past = h.clock_past;
      awaited = h.awaited;
    };
    on_store = λ p id h a e free. record {
      valid = append-AllValid _ p.slots h.valid (new_connection-IsValid _ _ _ _);
      slot = h.slot;
      at = get_elem?-append_front i h.slot p.slots _ h.at;
      seen = h.seen;
      clock_past = h.clock_past;
      awaited = h.awaited;
    };
    on_sleep = λ p x h awake. record {
      valid = h.valid;
      slot = h.slot;
      at = h.at;
      seen = h.seen;
      clock_past = h.clock_past;
      awaited = elim h.awaited [ inl closed ↦ inl closed | inr asleep ↦ cc (awake, asleep) ];
    };
    on_wake = λ p h a. absurd a;
    on_clock = λ p n h. record {
      valid = h.valid;
      slot = h.slot;
      at = h.at;
      seen = h.seen;
      clock_past = omega (arith, h.clock_past);
      awaited = h.awaited;
    };
    on_stop = λ p h. record {
      valid = h.valid;
      slot = h.slot;
      at = h.at;
      seen = h.seen;
      clock_past = h.clock_past;
      awaited = h.awaited;
    };
    on_close = λ p j s h e.
        put_back-IsUnread p j s.last_seen s (close (focus p s)) h e (λ _. refl)
          (λ _ _. is_closed-close (focus p s))
          (subst IsValid (sym (close-decoder (focus p s))) (h.valid j s e));
    on_write = λ p j s frame h e.
        put_back-IsUnread p j s.last_seen s (logged (focus p s) (writes frame)) h e (λ _. refl)
          (λ _ shut. shut) (h.valid j s e);
    on_bytes = λ p j s input h other e live.
        Ends-map (λ w. IsValid w.conn.decoder) _ (on_read env (focus p s) input)
          (on_read-IsValid env (focus p s) input (h.valid j s e))
          λ w v.
            put_back-IsUnread p j (unix p.clock) s w h e (λ here. absurd (other here))
              (λ here. absurd (other here)) v;
  }

module _ (st : Settings) (env : Env) (i l due : ℕ) where
  at_once :
      (m : Move) (c : ℕ) (p : Pool)
      → NoRead i m
      → IsUnread i l due c p
      → Finishes (IsUnread i l due (c + 0)) (perform st env m p)
  at_once m c p a h =
      let same : c + 0 ≡ c = omega arith in
      rw same (
        perform-Steady st env (λ m p. NoRead i m) (IsUnread i l due c)
          (IsUnread-Steady i l due c st env) m p a h)

  later-IsUnread :
      (m : Move) (c : ℕ) (p : Pool)
      → NoRead i m
      → IsUnread i l due c p
      → Finishes (IsUnread i l due (c + elapsed m)) (perform st env m p)
  unfolding perform
  later-IsUnread (passes n) c p a h = record {
    valid = h.valid;
    slot = h.slot;
    at = h.at;
    seen = h.seen;
    clock_past = omega (arith, h.clock_past);
    awaited = h.awaited;
  }
  later-IsUnread (accepts id) c p a h = at_once (accepts id) c p a h
  later-IsUnread (reads j input) c p a h = at_once (reads j input) c p a h
  later-IsUnread (closes j) c p a h = at_once (closes j) c p a h
  later-IsUnread (probes j) c p a h = at_once (probes j) c p a h
  later-IsUnread wakes c p a h = absurd a
  later-IsUnread stores c p a h = at_once stores c p a h
  later-IsUnread stops c p a h = at_once stops c p a h

  pub all-IsUnread :
      (ms : List Move) (c : ℕ) (p : Pool)
      → All (NoRead i) ms
      → IsUnread i l due c p
      → Finishes (IsUnread i l due (c + total ms)) (perform_all st env ms p)
  unfolding perform_all
  all-IsUnread [] c p a h = record {
    valid = h.valid;
    slot = h.slot;
    at = h.at;
    seen = h.seen;
    clock_past = omega (arith, h.clock_past);
    awaited = h.awaited;
  }
  all-IsUnread (m ∷ ms) c p a h =
      Finishes-bind (IsUnread i l due (c + elapsed m)) _ (perform st env m p)
        (perform_all st env ms) (later-IsUnread m c p a.0 h)
        λ p' h'.
          let sum : c + elapsed m + total ms ≡ c + total (m ∷ ms) = omega arith in
          rw (← sum) (all-IsUnread ms (c + elapsed m) p' a.1 h')

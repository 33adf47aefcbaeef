-- ===== src/Server/Shut.antt =====
-- A connection that is closed stays so.
use gb32960_go_sdk.Base.{ℕ, ◌≡◌, ◌≢◌, sym, ap, ◌∙◌, subst, true, false, List, some, get_elem?}
use native.Mathlib.Decide.{ℕ_discrete}
use gb32960_go_sdk.Decoder.Stream.{IsValid}
use gb32960_go_sdk.Connection.{Env, World, is_closed, is_done, writes, logged, close}
use gb32960_go_sdk.Connection.Run.{on_read}
use gb32960_go_sdk.Connection.Lifetime.{close-decoder}
use gb32960_go_sdk.Server.Pool.{Settings, Slot, Pool, unix, focus, put_back, Move, reads}
use gb32960_go_sdk.Server.Slots.{
  get_elem?-set_at, get_elem?-set_at_other, get_elem?-append_front, on_read-IsValid, Ends-map,
  AllValid, set_at-AllValid, append-AllValid, new_connection-IsValid, one_slot,
}
use gb32960_go_sdk.Server.Moves.{Steady}
use gb32960_go_sdk.Server.Unread.{is_closed-close}

-- Connection `i` is closed.
abbrev pub ClosedAt : ℕ → Pool → Type 0
ClosedAt i p = (s : Slot) × (get_elem? p.slots i ≡ some s) × (is_closed s.conn.state ≡ true)

-- The same in a pool whose decoders have fields that agree.
abbrev pub ShutAt : ℕ → Pool → Type 0
ShutAt i p = AllValid p.slots × ClosedAt i p

put_back-ShutAt :
    (i : ℕ) (p : Pool) (j l : ℕ) (s : Slot) (w : World)
    → ShutAt i p
    → get_elem? p.slots j ≡ some s
    → (j ≡ i → is_closed s.conn.state ≡ true → is_closed w.conn.state ≡ true)
    → IsValid w.conn.decoder
    → ShutAt i (put_back p j l w)
put_back-ShutAt i p j l s w (valid, (t, at, shut)) e k v = (
  set_at-AllValid j _ p.slots valid v,
  elim (ℕ_discrete j i) [
    | yes here ↦
        let e' : get_elem? p.slots i ≡ some s = rw here at e in
        let one : t ≡ s = one_slot i t s p.slots at e' in
        (
          record { conn = w.conn; last_seen = l },
          rw here (get_elem?-set_at i s _ p.slots e'),
          k here (ap (λ u. is_closed u.conn.state) (sym one) ∙ shut),
        )
    | no there ↦ (t, get_elem?-set_at_other i j _ p.slots there ∙ at, shut)
  ],
)

module _ (st : Settings) (env : Env) (Allowed : Move → Pool → Type 0) (i : ℕ)
    (others : (p : Pool) (j : ℕ) (input : List ℕ) (s : Slot)
      → Allowed (reads j input) p
      → ClosedAt i p
      → get_elem? p.slots j ≡ some s
      → is_done s.conn.context ≡ false
      → j ≢ i) where
  -- Every move keeps a closed connection closed, where the reads that are allowed are other
  -- connections'.
  pub ShutAt-Steady : Steady st env Allowed (ShutAt i)
  ShutAt-Steady = record {
    on_accept = λ p id h a up. h;
    on_refuse = λ p h. h;
    on_store = λ p id h a e free. (
      append-AllValid _ p.slots h.0 (new_connection-IsValid _ _ _ _),
      (h.1.0, get_elem?-append_front i h.1.0 p.slots _ h.1.1, h.1.2),
    );
    on_sleep = λ p x h awake. h;
    on_wake = λ p h a. h;
    on_clock = λ p n h. h;
    on_stop = λ p h. h;
    on_close = λ p j s h e.
        put_back-ShutAt i p j s.last_seen s (close (focus p s)) h e
          (λ _ _. is_closed-close (focus p s))
          (subst IsValid (sym (close-decoder (focus p s))) (h.0 j s e));
    on_write = λ p j s frame h e.
        put_back-ShutAt i p j s.last_seen s (logged (focus p s) (writes frame)) h e (λ _ shut. shut)
          (h.0 j s e);
    on_bytes = λ p j s input h a e live.
        let other = others p j input s a h.1 e live in
        Ends-map (λ w. IsValid w.conn.decoder) _ (on_read env (focus p s) input)
          (on_read-IsValid env (focus p s) input (h.0 j s e))
          λ w v. put_back-ShutAt i p j (unix p.clock) s w h e (λ here. absurd (other here)) v;
  }

-- ===== src/Server/Count.antt =====
-- The count of connections, over all orders of accepting and unregistering.
use gb32960_go_sdk.Base.{
  ℕ, suc, ◌≤◌, ◌≡◌, refl, sym, ap, ◌∙◌, true, false, inl, inr, List, [], ◌∷◌, length, leb,
  Bool-cases, arith,
}
use gb32960_go_sdk.Base.Integers.{pos, increment, decrement}
use gb32960_go_sdk.VinRegistry.Keys.{bytes_eq, bytes_eq_iff}
use gb32960_go_sdk.Connection.{Server, Connection, forget, unregister}
use gb32960_go_sdk.Connection.Lifetime.{knows}
use gb32960_go_sdk.Server.{new_server, is_full, accept}

-- What the accept loop and the connections do to the server: ids are new, and a connection is
-- unregistered while the server has it.
pub data Step (max_conns : ℕ) : Server → Server → Type 0 where
  accepts :
      (s : Server) (id : List ℕ) (self : ℕ)
      → knows id s.connections ≡ false
      → Step max_conns s (accept max_conns id self s)
  unregisters :
      (s : Server) (c : Connection)
      → knows c.id s.connections ≡ true
      → Step max_conns s (unregister s c)

pub data Reaches (max_conns : ℕ) : Server → Type 0 where
  starts : Reaches max_conns new_server
  goes_on : {s t : Server} → Reaches max_conns s → Step max_conns s t → Reaches max_conns t

abbrev Distinct : List (List ℕ × ℕ) → Type 0
Distinct [] = Unit {0}
Distinct ((k, c) ∷ m) = (knows k m ≡ false) × Distinct m

-- The count is the number of the connections, which have different ids and keep to the limit.
pub record IsCounted (max_conns : ℕ) (s : Server) : Type 0 where
  pub distinct : Distinct s.connections
  pub counted : s.conn_count ≡ pos (length s.connections)
  pub limited : length s.connections ≤ max_conns

pub forget_unknown : (id : List ℕ) (m : List (List ℕ × ℕ)) → knows id m ≡ false → forget id m ≡ m
unfolding knows forget
forget_unknown id [] e = refl
forget_unknown id ((k, c) ∷ m) e = ground (arith, forget_unknown id m)

pub knows-forget_other :
    (k id : List ℕ) (m : List (List ℕ × ℕ)) → knows k m ≡ false → knows k (forget id m) ≡ false
unfolding knows forget
knows-forget_other k id [] e = refl
knows-forget_other k id ((l, c) ∷ m) e = ground (arith, knows-forget_other k id m)

forget-Distinct : (id : List ℕ) (m : List (List ℕ × ℕ)) → Distinct m → Distinct (forget id m)
unfolding forget
forget-Distinct id [] d = tt
forget-Distinct id ((k, c) ∷ m) d =
    ground (arith, forget-Distinct id m d.1, knows-forget_other k id m d.0)

length-forget :
    (id : List ℕ) (m : List (List ℕ × ℕ))
    → Distinct m
    → knows id m ≡ true
    → suc (length (forget id m)) ≡ length m
unfolding knows forget
length-forget id [] d e = cc
length-forget id ((k, c) ∷ m) d e = elim (Bool-cases (bytes_eq k id)) [
  | inl same ↦
      let here : k ≡ id = (bytes_eq_iff k id).0 same in
      rw same (ap (λ l. suc (length l)) (forget_unknown id m (rw here at d.0)))
  | inr other ↦ rw other (ap suc (length-forget id m d.1 (rw other at e)))
]

Step-IsCounted :
    (max_conns : ℕ) (s t : Server)
    → Step max_conns s t
    → IsCounted max_conns s
    → IsCounted max_conns t
unfolding accept is_full increment unregister decrement
Step-IsCounted max_conns _ _ (accepts s id self new) h =
    elim (Bool-cases (is_full s.conn_count max_conns)) [
      | inl full ↦ rw full h
      | inr free ↦
          let room : leb max_conns (length s.connections) ≡ false =
            sym (ap (λ n. is_full n max_conns) h.counted) ∙ free in
          rw free (record {
            distinct = rw (forget_unknown id s.connections new) (new, h.distinct);
            counted = rw (forget_unknown id s.connections new) (ap increment h.counted);
            limited = rw (forget_unknown id s.connections new) (ground arith);
          })
    ]
Step-IsCounted max_conns _ _ (unregisters s c known) h =
    let less = length-forget c.id s.connections h.distinct known in
    record {
      distinct = forget-Distinct c.id s.connections h.distinct;
      counted = ap decrement (h.counted ∙ ap pos (sym less));
      limited = omega (arith, less, h.limited);
    }

-- In every order of accepting connections and unregistering them, as long as ids are new and a
-- connection is unregistered only while the server has it, the connections have different ids,
-- `conn_count` is their number, and it does not pass the limit.
pub Reaches-IsCounted : (max_conns : ℕ) (s : Server) → Reaches max_conns s → IsCounted max_conns s
unfolding new_server
Reaches-IsCounted max_conns _ starts = record {
  distinct = tt;
  counted = refl;
  limited = omega arith;
}
Reaches-IsCounted max_conns _ (goes_on {s} {t} r step) =
    Step-IsCounted max_conns s t step (Reaches-IsCounted max_conns s r)

-- ===== src/Server/Reach.antt =====
-- Every pool that the moves lead to is well-formed.
use gb32960_go_sdk.Base.{
  ℕ, zero, suc, ◌≡◌, ◌≢◌, refl, sym, ap, ◌∙◌, false, inl, inr, List, [], ◌∷◌, ◌++◌, some, length,
  get_elem?, Bool-cases, arith, ok, get_elem?-append,
}
use gb32960_go_sdk.Base.Integers.{ℤ, pos, negsuc, increment}
use gb32960_go_sdk.VinRegistry.Keys.{bytes_eq, bytes_eq_iff}
use gb32960_go_sdk.VinRegistry.Laws
use gb32960_go_sdk.Connection.{Env, new_connection, is_closed}
use gb32960_go_sdk.Connection.Lifetime.{knows}
use gb32960_go_sdk.Server.{accept, is_full, new_server}
use gb32960_go_sdk.Server.Count.{knows-forget_other}
use gb32960_go_sdk.Server.Pool.{
  Settings, Slot, Pool, new_pool, unix, Move, accepts, stores, reads, closes, passes, probes, wakes,
  stops, perform,
}
use gb32960_go_sdk.Server.Slots.{
  get_elem?-append_front, get_elem?-append_one, append-AllValid, new_connection-IsValid,
}
use gb32960_go_sdk.Server.Outcome.{Finishes}
use gb32960_go_sdk.Server.Moves.{with_accepted, Steady, perform-Steady}
use gb32960_go_sdk.Server.Sound.{HasEntry, AtMost, IsPool}
use gb32960_go_sdk.Server.PutBack.{
  All-map, forget-All, put_back-IsPool, PutsBack, puts_closed, puts_written, puts_read,
}

module _ (st : Settings) where
  -- A new id is no connection's.
  abbrev pub IsFresh : Move → Pool → Type 0
  IsFresh (accepts id) p = Unit {0}
  IsFresh stores p =
      (id : List ℕ)
      → p.accepted ≡ some id
      → (i : ℕ) (s : Slot) → get_elem? p.slots i ≡ some s
      → s.conn.id ≢ id
  IsFresh (reads i input) p = Unit {0}
  IsFresh (closes i) p = Unit {0}
  IsFresh (passes n) p = Unit {0}
  IsFresh (probes i) p = Unit {0}
  IsFresh wakes p = Unit {0}
  IsFresh stops p = Unit {0}

  accept_limited : (c : ℤ) → is_full c st.max_conns ≡ false → AtMost st.max_conns (increment c)
  unfolding is_full increment
  accept_limited (pos n) e = ground arith
  accept_limited (negsuc zero) e = omega arith
  accept_limited (negsuc (suc n)) e = tt

  with_accepted-IsPool :
      (p : Pool) (id : List ℕ)
      → IsPool st p
      → ((i : ℕ) (s : Slot) → get_elem? p.slots i ≡ some s → s.conn.id ≢ id)
      → is_full p.server.conn_count st.max_conns ≡ false
      → IsPool st (with_accepted st id p)
  unfolding accept new_connection knows
  with_accepted-IsPool p id h fresh free =
      let self = length p.slots in
      let new : Slot = record {
        conn = new_connection st.time_codec st.bcc_include_start id self;
        last_seen = unix p.clock;
      } in
      rw free (record {
        valid =
            append-AllValid new p.slots h.valid
              (new_connection-IsValid st.time_codec st.bcc_include_start id self);
        numbered = λ i s e. elim (get_elem?-append_one i s new p.slots e) [
          | inl old ↦ h.numbered i s old
          | inr (end, same) ↦ ap (λ x. x.conn.self) (sym same) ∙ sym end
        ];
        distinct = λ i j s t e f eq. elim (get_elem?-append_one i s new p.slots e) [
          | inl old ↦ elim (get_elem?-append_one j t new p.slots f) [
            | inl old' ↦ h.distinct i j s t old old' eq
            | inr (end, same) ↦ absurd (fresh i s old (eq ∙ ap (λ x. x.conn.id) (sym same)))
          ]
          | inr (end, same) ↦ elim (get_elem?-append_one j t new p.slots f) [
            | inl old' ↦ absurd (fresh j t old' (sym eq ∙ ap (λ x. x.conn.id) (sym same)))
            | inr (end', same') ↦ end ∙ sym end'
          ]
        ];
        forgotten = λ i s e shut. elim (get_elem?-append_one i s new p.slots e) [
          | inl old ↦ elim (Bool-cases (bytes_eq id s.conn.id)) [
            | inl eq ↦ absurd (fresh i s old (sym ((bytes_eq_iff id s.conn.id).0 eq)))
            | inr ne ↦
                rw ne
                  (knows-forget_other s.conn.id id p.server.connections (h.forgotten i s old shut))
          ]
          | inr (end, same) ↦ cc (ap (λ x. is_closed x.conn.state) same)
        ];
        done = λ i s e shut. elim (get_elem?-append_one i s new p.slots e) [
          | inl old ↦ h.done i s old shut
          | inr (end, same) ↦ cc (ap (λ x. is_closed x.conn.state) same)
        ];
        entries = (
          (new, get_elem?-append self 0 p.slots (new ∷ []) (omega arith), refl),
          All-map (HasEntry p.slots) (HasEntry (p.slots ++ (new ∷ []))) _
              (λ e k. (k.0, get_elem?-append_front e.1 k.0 p.slots (new ∷ []) k.1, k.2))
              (forget-All (HasEntry p.slots) id p.server.connections h.entries),
        );
        vins = h.vins;
        limited = accept_limited p.server.conn_count free;
      })

  IsPool-PutsBack : PutsBack st (IsPool st)
  IsPool-PutsBack = record {
    sound = λ p h. h;
    puts = λ p i l s w h e t v. put_back-IsPool st p i l s w h e t v;
  }

  IsPool-Steady : (env : Env) → Steady st env IsFresh (IsPool st)
  IsPool-Steady env = record {
    on_accept = λ p id h a up. h;
    on_refuse = λ p h. h;
    on_store = λ p id h fresh e free. with_accepted-IsPool p id h (fresh id e) free;
    on_sleep = λ p x h awake. h;
    on_wake = λ p h a. h;
    on_clock = λ p n h. h;
    on_stop = λ p h. h;
    on_close = puts_closed st env (IsPool st) IsPool-PutsBack;
    on_write = puts_written st env (IsPool st) IsPool-PutsBack;
    on_bytes =
        λ p i s input h a e live. puts_read st env (IsPool st) IsPool-PutsBack p i s input h e;
  }

  -- The pools that the moves lead to, in any order, as long as the id of a new connection is new.
  pub data Reaches (env : Env) : Pool → Type 0 where
    starts : (clock : ℕ) → Reaches env (new_pool clock)
    moves :
        {p p' : Pool} (m : Move)
        → Reaches env p
        → IsFresh m p
        → perform st env m p ≡ ok p'
        → Reaches env p'

  new_pool-IsPool : (clock : ℕ) → IsPool st (new_pool clock)
  unfolding new_pool new_server
  new_pool-IsPool clock = record {
    valid = λ i s e. cc;
    numbered = λ i s e. cc;
    distinct = λ i j s t e f eq. cc;
    forgotten = λ i s e shut. cc;
    done = λ i s e shut. cc;
    entries = tt;
    vins = Laws.new_vin_registry-IsValid;
    limited = omega arith;
  }

  -- A pool that the moves of the server lead to, whatever order its goroutines run in, whatever is read
  -- and whatever the handlers and networks answer, as long as the ids of new connections are new, is
  -- well-formed: every connection has its number and a decoder whose fields agree, different
  -- connections have different ids, a closed connection is no longer in the map of connections and has a cancelled context, each
  -- entry of the map stands for a connection with its id, the VIN registry is valid, and the count of
  -- connections does not pass the limit.
  pub Reaches-IsPool : (env : Env) (p : Pool) → Reaches env p → IsPool st p
  Reaches-IsPool env _ (starts clock) = new_pool-IsPool clock
  Reaches-IsPool env _ (moves {p} {p'} m r fresh e) = rw e at (
      perform-Steady st env IsFresh (IsPool st) (IsPool-Steady env) m p fresh
        (Reaches-IsPool env p r))

  -- From a well-formed pool a move whose new id is new ends in a well-formed pool, or the bytes of a
  -- read make the process panic: no loop runs out of fuel.
  pub perform-IsPool :
      (env : Env) (m : Move) (p : Pool)
      → IsPool st p
      → IsFresh m p
      → Finishes (IsPool st) (perform st env m p)
  perform-IsPool env m p h fresh =
      perform-Steady st env IsFresh (IsPool st) (IsPool-Steady env) m p fresh h

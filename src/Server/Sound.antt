-- ===== src/Server/Sound.antt =====
-- Well-formed pools, and that they stay so when a connection is put back that has done its work.
use gb32960_go_sdk.Base.{
  ℕ, zero, suc, ◌≤◌, ◌≡◌, refl, ap, ◌∙◌, true, false, ◌⊎◌, inl, inr, List, some, get_elem?, All,
  Bool-cases, arith,
}
use gb32960_go_sdk.Base.Integers.{ℤ, pos, negsuc, decrement}
use gb32960_go_sdk.VinRegistry.Laws
use gb32960_go_sdk.Connection.{Server, is_done, World, is_closed, forget, unregister, close}
use gb32960_go_sdk.Connection.Lifetime.{
  knows, knows-forget, Inert, IsSound, close-IsSound, close-decoder,
}
use gb32960_go_sdk.Server.Count.{forget_unknown}
use gb32960_go_sdk.Server.Pool.{Settings, Slot, Pool}
use gb32960_go_sdk.Server.Slots.{AllValid}

abbrev pub Entries : Type 0
Entries = List (List ℕ × ℕ)

-- An entry of the map of connections stands for a connection with its id.
abbrev pub HasEntry : List Slot → List ℕ × ℕ → Type 0
HasEntry ss e = (s : Slot) × (get_elem? ss e.1 ≡ some s) × (s.conn.id ≡ e.0)

abbrev pub AtMost : ℕ → ℤ → Type 0
AtMost m (pos n) = n ≤ m
AtMost m (negsuc n) = Unit {0}

-- Each connection stands at its number, different connections have different ids, a closed connection
-- is no longer in the map and its context is cancelled, every entry of the map stands for a connection,
-- and the count keeps to the limit.
pub record IsSoundPool (st : Settings) (slots : List Slot) (server : Server) : Type 0 where
  pub valid : AllValid slots
  pub numbered : (i : ℕ) (s : Slot) → get_elem? slots i ≡ some s → s.conn.self ≡ i
  pub distinct :
      (i j : ℕ) (s t : Slot)
      → get_elem? slots i ≡ some s
      → get_elem? slots j ≡ some t
      → s.conn.id ≡ t.conn.id
      → i ≡ j
  pub forgotten :
      (i : ℕ) (s : Slot)
      → get_elem? slots i ≡ some s
      → is_closed s.conn.state ≡ true
      → knows s.conn.id server.connections ≡ false
  pub done :
      (i : ℕ) (s : Slot)
      → get_elem? slots i ≡ some s
      → is_closed s.conn.state ≡ true
      → is_done s.conn.context ≡ true
  pub entries : All (HasEntry slots) server.connections
  pub vins : Laws.IsValid server.vin_registry
  pub limited : AtMost st.max_conns server.conn_count

abbrev pub IsPool : Settings → Pool → Type 0
IsPool st p = IsSoundPool st p.slots p.server

-- Of a connection in its world: only its own id may have left the map.
pub record Touched (id : List ℕ) (self : ℕ) (conns : Entries) (limit : ℕ) (w : World) : Type 0 where
  pub sound : IsSound id w
  pub same_self : w.conn.self ≡ self
  pub done : is_closed w.conn.state ≡ true → is_done w.conn.context ≡ true
  pub fewer : (w.server.connections ≡ conns) ⊎ (w.server.connections ≡ forget id conns)
  pub within : AtMost limit w.server.conn_count

AtMost-decrement : (m : ℕ) (z : ℤ) → AtMost m z → AtMost m (decrement z)
unfolding decrement
AtMost-decrement m (pos zero) h = tt
AtMost-decrement m (pos (suc n)) h = omega arith
AtMost-decrement m (negsuc n) h = tt

pub close-Touched :
    (id : List ℕ) (self : ℕ) (conns : Entries) (limit : ℕ) (w : World)
    → Touched id self conns limit w
    → Touched id self conns limit (close w)
unfolding close unregister
close-Touched id self conns limit w h = elim (Bool-cases (is_closed w.conn.state)) [
  | inl e ↦ rw e h
  | inr e ↦
      let again : forget id (forget id conns) ≡ forget id conns =
        forget_unknown id (forget id conns) (knows-forget id conns) in
      let less : forget w.conn.id w.server.connections ≡ forget id conns =
        ap (λ i. forget i w.server.connections) h.sound.same_id
        ∙ elim h.fewer [ inl same ↦ ap (forget id) same | inr one ↦ ap (forget id) one ∙ again ] in
      let shut = close-IsSound id w h.sound in
      rw e (record {
        sound = rw e at shut;
        same_self = h.same_self;
        done = λ e. refl;
        fewer = inr less;
        within = AtMost-decrement limit w.server.conn_count h.within;
      })
]

pub Touched-Inert :
    (id : List ℕ) (self : ℕ) (conns : Entries) (limit : ℕ) → Inert (Touched id self conns limit)
Touched-Inert id self conns limit = record {
  survives = λ d. record {
    kept = record {
      on_event = λ w e h. (
        record {
          sound = record {
            same_id = h.0.sound.same_id;
            forgotten = h.0.sound.forgotten;
            vins = h.0.sound.vins;
          };
          same_self = h.0.same_self;
          done = h.0.done;
          fewer = h.0.fewer;
          within = h.0.within;
        },
        h.1,
      );
      on_key = λ w k h. (
        record {
          sound = record {
            same_id = h.0.sound.same_id;
            forgotten = h.0.sound.forgotten;
            vins = h.0.sound.vins;
          };
          same_self = h.0.same_self;
          done = h.0.done;
          fewer = h.0.fewer;
          within = h.0.within;
        },
        h.1,
      );
    };
    on_enter = λ w vin login h. (
      record {
        sound = record {
          same_id = h.0.sound.same_id;
          forgotten = λ e. cc;
          vins = Laws.add-IsValid w.server.vin_registry vin w.conn.self h.0.sound.vins;
        };
        same_self = h.0.same_self;
        done = λ e. cc;
        fewer = h.0.fewer;
        within = h.0.within;
      },
      h.1,
    );
    on_close = λ w h. (close-Touched id self conns limit w h.0, close-decoder w ∙ h.1);
  };
  on_decoder = λ w d h. record {
    sound = record {
      same_id = h.sound.same_id;
      forgotten = h.sound.forgotten;
      vins = h.sound.vins;
    };
    same_self = h.same_self;
    done = h.done;
    fewer = h.fewer;
    within = h.within;
  };
}

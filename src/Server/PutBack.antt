-- ===== src/Server/PutBack.antt =====
-- A well-formed pool stays so when a connection is put back that has done its work.
use gb32960_go_sdk.Base.{
  ℕ, ◌≡◌, refl, sym, subst, ap, ◌∙◌, false, ◌⊎◌, inl, inr, List, [], ◌∷◌, some, get_elem?, All,
  Bool-cases,
}
use native.Mathlib.Decide.{ℕ_discrete}
use gb32960_go_sdk.Decoder.Stream.{IsValid}
use gb32960_go_sdk.VinRegistry.Keys.{bytes_eq}
use gb32960_go_sdk.Connection.{is_done, World, Env, writes, logged, close, is_closed, forget}
use gb32960_go_sdk.Connection.Run.{on_read}
use gb32960_go_sdk.Connection.Lifetime.{knows, Ends, Ready, close-decoder, on_read-Ends}
use gb32960_go_sdk.Server.Count.{knows-forget_other}
use gb32960_go_sdk.Server.Pool.{Settings, Slot, Pool, set_at, focus, put_back, unix}
use gb32960_go_sdk.Server.Slots.{
  get_elem?-set_at, get_elem?-set_at_other, set_at_cases, set_at-AllValid, one_slot, Ends-map,
}
use gb32960_go_sdk.Server.Sound.{Entries, HasEntry, IsPool, Touched, close-Touched, Touched-Inert}

-- A slot behind a replacement that keeps id and number: there was one before with the same.
old_slot :
    (i k : ℕ) (s t u : Slot) (ss : List Slot)
    → get_elem? ss i ≡ some s
    → t.conn.id ≡ s.conn.id
    → get_elem? (set_at i t ss) k ≡ some u
    → (v : Slot) × (get_elem? ss k ≡ some v) × (u.conn.id ≡ v.conn.id)
old_slot i k s t u ss e same f = elim (set_at_cases i k t u ss f) [
  | inl (here, new) ↦ (s, rw here at e, ap (λ x. x.conn.id) (sym new) ∙ same)
  | inr old ↦ (u, old, refl)
]

pub set_at-HasEntry :
    (i : ℕ) (s t : Slot) (ss : List Slot) (e : List ℕ × ℕ)
    → get_elem? ss i ≡ some s
    → t.conn.id ≡ s.conn.id
    → HasEntry ss e
    → HasEntry (set_at i t ss) e
set_at-HasEntry i s t ss e at same (u, h, k) = elim (ℕ_discrete i e.1) [
  | yes here ↦
      let at' : get_elem? ss e.1 ≡ some s = rw here at at in
      (
        t,
        rw here (get_elem?-set_at e.1 s t ss at'),
        same ∙ ap (λ x. x.conn.id) (one_slot e.1 s u ss at' h) ∙ k,
      )
  | no there ↦ (u, get_elem?-set_at_other e.1 i t ss there ∙ h, k)
]

pub All-map :
    (P Q : List ℕ × ℕ → Type 0) (m : Entries) → ((e : List ℕ × ℕ) → P e → Q e) → All P m → All Q m
All-map P Q [] f h = tt
All-map P Q (e ∷ m) f h = (f e h.0, All-map P Q m f h.1)

pub forget-All :
    (P : List ℕ × ℕ → Type 0) (id : List ℕ) (m : Entries) → All P m → All P (forget id m)
unfolding forget
forget-All P id [] h = tt
forget-All P id ((k, c) ∷ m) h = elim (Bool-cases (bytes_eq k id)) [
  | inl e ↦ rw e (forget-All P id m h.1)
  | inr e ↦ rw e (h.0, forget-All P id m h.1)
]

fewer-All :
    (P : List ℕ × ℕ → Type 0) (id : List ℕ) (m n : Entries)
    → (n ≡ m) ⊎ (n ≡ forget id m)
    → All P m
    → All P n
fewer-All P id m n (inl e) h = subst (All P) (sym e) h
fewer-All P id m n (inr e) h = subst (All P) (sym e) (forget-All P id m h)

pub fewer-knows :
    (k id : List ℕ) (m n : Entries)
    → (n ≡ m) ⊎ (n ≡ forget id m)
    → knows k m ≡ false
    → knows k n ≡ false
fewer-knows k id m n (inl e) h = ap (knows k) e ∙ h
fewer-knows k id m n (inr e) h = ap (knows k) e ∙ knows-forget_other k id m h

module _ (st : Settings) where
  -- A connection that has done its work is put back.
  pub put_back-IsPool :
      (p : Pool) (i l : ℕ) (s : Slot) (w : World)
      → IsPool st p
      → get_elem? p.slots i ≡ some s
      → Touched s.conn.id s.conn.self p.server.connections st.max_conns w
      → IsValid w.conn.decoder
      → IsPool st (put_back p i l w)
  put_back-IsPool p i l s w h e t v =
      let u : Slot = record { conn = w.conn; last_seen = l } in
      let same = t.sound.same_id in
      record {
        valid = set_at-AllValid i u p.slots h.valid v;
        numbered = λ k x f. elim (set_at_cases i k u x p.slots f) [
          | inl (here, new) ↦
              ap (λ y. y.conn.self) (sym new) ∙ t.same_self ∙ h.numbered i s e ∙ here
          | inr old ↦ h.numbered k x old
        ];
        distinct = λ k j x y f g eq.
            let (x', fx, ix) = old_slot i k s u x p.slots e same f in
            let (y', fy, iy) = old_slot i j s u y p.slots e same g in
            h.distinct k j x' y' fx fy (sym ix ∙ eq ∙ iy);
        forgotten = λ k x f shut. elim (set_at_cases i k u x p.slots f) [
          | inl (here, new) ↦
              let id_same : s.conn.id ≡ x.conn.id = sym same ∙ ap (λ y. y.conn.id) new in
              ap (λ y. knows y w.server.connections) (sym id_same)
              ∙ t.sound.forgotten (ap (λ y. is_closed y.conn.state) new ∙ shut)
          | inr old ↦
              fewer-knows x.conn.id s.conn.id p.server.connections w.server.connections t.fewer
                (h.forgotten k x old shut)
        ];
        done = λ k x f shut. elim (set_at_cases i k u x p.slots f) [
          | inl (here, new) ↦
              ap (λ y. is_done y.conn.context) (sym new)
              ∙ t.done (ap (λ y. is_closed y.conn.state) new ∙ shut)
          | inr old ↦ h.done k x old shut
        ];
        entries =
            All-map (HasEntry p.slots) (HasEntry (set_at i u p.slots)) w.server.connections
              (λ en k. set_at-HasEntry i s u p.slots en e same k)
              (fewer-All (HasEntry p.slots) s.conn.id p.server.connections w.server.connections
                t.fewer h.entries);
        vins = t.sound.vins;
        limited = t.within;
      }

  pub start-Touched :
      (p : Pool) (i : ℕ) (s : Slot)
      → IsPool st p
      → get_elem? p.slots i ≡ some s
      → Touched s.conn.id s.conn.self p.server.connections st.max_conns (focus p s)
  start-Touched p i s h e = record {
    sound = record { same_id = refl; forgotten = h.forgotten i s e; vins = h.vins };
    same_self = refl;
    done = h.done i s e;
    fewer = inl refl;
    within = h.limited;
  }

  -- What a write, closing and a read make of a connection.
  pub write-Touched :
      (p : Pool) (i : ℕ) (s : Slot) (frame : List ℕ)
      → IsPool st p
      → get_elem? p.slots i ≡ some s
      → Touched s.conn.id s.conn.self p.server.connections st.max_conns
          (logged (focus p s) (writes frame))
  write-Touched p i s frame h e =
      let t = start-Touched p i s h e in
      record {
        sound = record {
          same_id = t.sound.same_id;
          forgotten = t.sound.forgotten;
          vins = t.sound.vins;
        };
        same_self = t.same_self;
        done = t.done;
        fewer = t.fewer;
        within = t.within;
      }

  pub closed-Touched :
      (p : Pool) (i : ℕ) (s : Slot)
      → IsPool st p
      → get_elem? p.slots i ≡ some s
      → Touched s.conn.id s.conn.self p.server.connections st.max_conns (close (focus p s))
  closed-Touched p i s h e = close-Touched _ _ _ _ (focus p s) (start-Touched p i s h e)

  pub read-Touched :
      (env : Env) (p : Pool) (i : ℕ) (s : Slot) (input : List ℕ)
      → IsPool st p
      → get_elem? p.slots i ≡ some s
      → Ends
          (Ready (Touched s.conn.id s.conn.self p.server.connections st.max_conns))
          (on_read env (focus p s) input)
  read-Touched env p i s input h e =
      on_read-Ends env (Touched s.conn.id s.conn.self p.server.connections st.max_conns)
        (Touched-Inert _ _ _ _) (focus p s) input (start-Touched p i s h e, h.valid i s e)

  -- A property of pools that is kept where a connection is put back that has done its work.
  pub record PutsBack (Q : Pool → Type 0) : Type 0 where
    pub sound : (p : Pool) → Q p → IsPool st p
    pub puts :
        (p : Pool) (i l : ℕ) (s : Slot) (w : World)
        → Q p
        → get_elem? p.slots i ≡ some s
        → Touched s.conn.id s.conn.self p.server.connections st.max_conns w
        → IsValid w.conn.decoder
        → Q (put_back p i l w)

  module _ (env : Env) (Q : Pool → Type 0) (k : PutsBack Q) where
    pub puts_closed :
        (p : Pool) (i : ℕ) (s : Slot)
        → Q p
        → get_elem? p.slots i ≡ some s
        → Q (put_back p i s.last_seen (close (focus p s)))
    puts_closed p i s q e =
        let h = k.sound p q in
        k.puts p i s.last_seen s (close (focus p s)) q e (closed-Touched p i s h e)
          (subst IsValid (sym (close-decoder (focus p s))) (h.valid i s e))

    pub puts_written :
        (p : Pool) (i : ℕ) (s : Slot) (frame : List ℕ)
        → Q p
        → get_elem? p.slots i ≡ some s
        → Q (put_back p i s.last_seen (logged (focus p s) (writes frame)))
    puts_written p i s frame q e =
        let h = k.sound p q in
        k.puts p i s.last_seen s (logged (focus p s) (writes frame)) q e
          (write-Touched p i s frame h e) (h.valid i s e)

    pub puts_read :
        (p : Pool) (i : ℕ) (s : Slot) (input : List ℕ)
        → Q p
        → get_elem? p.slots i ≡ some s
        → Ends (λ w. Q (put_back p i (unix p.clock) w)) (on_read env (focus p s) input)
    puts_read p i s input q e =
        Ends-map (Ready (Touched s.conn.id s.conn.self p.server.connections st.max_conns)) _
          (on_read env (focus p s) input) (read-Touched env p i s input (k.sound p q) e)
          λ w t. k.puts p i (unix p.clock) s w q e t.0 t.1

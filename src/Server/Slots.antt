-- ===== src/Server/Slots.antt =====
-- The slots of a pool: reading behind a change, and the part of a pool that the moves of other
-- connections leave alone.
use gb32960_go_sdk.Base.{
  ℕ, zero, suc, ◌≡◌, ◌≢◌, Bool, refl, subst, ap, ◌∙◌, ◌⊎◌, inl, inr, List, [], ◌∷◌, ◌++◌, some,
  length, get_elem?, Result, ok, err, panic, stuck, arith,
}
use gb32960_go_sdk.Decoder.{TimeCodec, new_decoder_with_config}
use gb32960_go_sdk.Decoder.Stream.{IsValid}
use gb32960_go_sdk.Connection.{World, Env, new_connection}
use gb32960_go_sdk.Connection.Run.{on_read}
use gb32960_go_sdk.Connection.Lifetime.{Ends, Inert, Ready, close-decoder, on_read-Ends}
use gb32960_go_sdk.Server.Pool.{Slot, set_at}

pub get_elem?-set_at :
    (i : ℕ) (s t : Slot) (ss : List Slot)
    → get_elem? ss i ≡ some s
    → get_elem? (set_at i t ss) i ≡ some t
get_elem?-set_at i s t [] e = cc
get_elem?-set_at zero s t (u ∷ ss) e = refl
get_elem?-set_at (suc i) s t (u ∷ ss) e = get_elem?-set_at i s t ss e

pub get_elem?-set_at_other :
    (i j : ℕ) (t : Slot) (ss : List Slot) → j ≢ i → get_elem? (set_at j t ss) i ≡ get_elem? ss i
get_elem?-set_at_other i j t [] d = refl
get_elem?-set_at_other zero zero t (u ∷ ss) d = absurd (d refl)
get_elem?-set_at_other (suc i) zero t (u ∷ ss) d = refl
get_elem?-set_at_other zero (suc j) t (u ∷ ss) d = refl
get_elem?-set_at_other (suc i) (suc j) t (u ∷ ss) d =
    get_elem?-set_at_other i j t ss (λ e. d (ap suc e))

pub length-set_at : (i : ℕ) (t : Slot) (ss : List Slot) → length (set_at i t ss) ≡ length ss
length-set_at i t [] = refl
length-set_at zero t (u ∷ ss) = refl
length-set_at (suc i) t (u ∷ ss) = ap suc (length-set_at i t ss)

pub get_elem?-append_front :
    (i : ℕ) (s : Slot) (ss ts : List Slot)
    → get_elem? ss i ≡ some s
    → get_elem? (ss ++ ts) i ≡ some s
get_elem?-append_front i s [] ts e = cc
get_elem?-append_front zero s (u ∷ ss) ts e = e
get_elem?-append_front (suc i) s (u ∷ ss) ts e = get_elem?-append_front i s ss ts e

-- What stands behind one more slot: an old one, or the new one at the end.
pub get_elem?-append_one :
    (i : ℕ) (s t : Slot) (ss : List Slot)
    → get_elem? (ss ++ (t ∷ [])) i ≡ some s
    → (get_elem? ss i ≡ some s) ⊎ ((i ≡ length ss) × (t ≡ s))
get_elem?-append_one zero s t [] e = inr (refl, cc)
get_elem?-append_one (suc i) s t [] e = cc
get_elem?-append_one zero s t (u ∷ ss) e = inl e
get_elem?-append_one (suc i) s t (u ∷ ss) e = elim (get_elem?-append_one i s t ss e) [
  | inl old ↦ inl old
  | inr (j, same) ↦ inr (ap suc j, same)
]

-- Nothing but the decoder's validity.
abbrev Anything : World → Type 0
Anything w = Unit {0}

Anything-Inert : Inert Anything
Anything-Inert = record {
  survives = λ d. record {
    kept = record { on_event = λ w e h. h; on_key = λ w k h. h };
    on_enter = λ w vin login h. h;
    on_close = λ w h. (tt, close-decoder w ∙ h.1);
  };
  on_decoder = λ w d h. tt;
}

pub Ends-map :
    (P Q : World → Type 0) (r : Result World) → Ends P r → ((w : World) → P w → Q w) → Ends Q r
Ends-map P Q (ok w) h k = k w h
Ends-map P Q (err e) h k = h
Ends-map P Q panic h k = h
Ends-map P Q stuck h k = h

pub on_read-IsValid :
    (env : Env) (w : World) (input : List ℕ)
    → IsValid w.conn.decoder
    → Ends (λ w'. IsValid w'.conn.decoder) (on_read env w input)
on_read-IsValid env w input v =
    Ends-map (Ready Anything) (λ w'. IsValid w'.conn.decoder) (on_read env w input)
      (on_read-Ends env Anything Anything-Inert w input (tt, v)) (λ w' h. h.1)

-- What stands where after a slot has been replaced.
pub set_at_cases :
    (j k : ℕ) (t u : Slot) (ss : List Slot)
    → get_elem? (set_at j t ss) k ≡ some u
    → ((j ≡ k) × (t ≡ u)) ⊎ (get_elem? ss k ≡ some u)
set_at_cases j k t u [] e = inr e
set_at_cases zero zero t u (s ∷ ss) e = inl (refl, cc)
set_at_cases zero (suc k) t u (s ∷ ss) e = inr e
set_at_cases (suc j) zero t u (s ∷ ss) e = inr e
set_at_cases (suc j) (suc k) t u (s ∷ ss) e = elim (set_at_cases j k t u ss e) [
  | inl (here, same) ↦ inl (ap suc here, same)
  | inr old ↦ inr old
]

-- All connections have decoders whose fields agree.
abbrev pub AllValid : List Slot → Type 0
AllValid ss = (j : ℕ) (s : Slot) → get_elem? ss j ≡ some s → IsValid s.conn.decoder

pub set_at-AllValid :
    (j : ℕ) (t : Slot) (ss : List Slot)
    → AllValid ss
    → IsValid t.conn.decoder
    → AllValid (set_at j t ss)
set_at-AllValid j t ss h v k u e = elim (set_at_cases j k t u ss e) [
  | inl (here, same) ↦ subst (λ s. IsValid s.conn.decoder) same v
  | inr old ↦ h k u old
]

pub append-AllValid :
    (t : Slot) (ss : List Slot) → AllValid ss → IsValid t.conn.decoder → AllValid (ss ++ (t ∷ []))
append-AllValid t ss h v k u e = elim (get_elem?-append_one k u t ss e) [
  | inl old ↦ h k u old
  | inr (end, same) ↦ subst (λ s. IsValid s.conn.decoder) same v
]

pub new_connection-IsValid :
    (tc : TimeCodec) (b : Bool) (id : List ℕ) (self : ℕ)
    → IsValid (new_connection tc b id self).decoder
unfolding new_connection new_decoder_with_config
new_connection-IsValid tc b id self = record { limit_length = refl; pos_limit = omega arith }

pub one_slot :
    (i : ℕ) (s t : Slot) (ss : List Slot)
    → get_elem? ss i ≡ some s
    → get_elem? ss i ≡ some t
    → s ≡ t
one_slot i s t ss e f = cc

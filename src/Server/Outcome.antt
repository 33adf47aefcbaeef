-- ===== src/Server/Outcome.antt =====
-- How moves of the pool end, and properties of choices.
use gb32960_go_sdk.Base.{
  ◌≡◌, refl, Bool, true, false, Option, none, some, if◌then◌else◌, Result, ok, err, panic, stuck,
  ◌>>=◌,
}
use gb32960_go_sdk.Server.Pool.{Pool}

-- The process panics, or the call ends with the property.
abbrev pub Finishes : (Pool → Type 0) → Result Pool → Type 0
Finishes Q (ok p) = Q p
Finishes Q (err e) = ⊥
Finishes Q panic = Unit {0}
Finishes Q stuck = ⊥

pub Finishes-bind :
    (Q R : Pool → Type 0) (m : Result Pool) (f : Pool → Result Pool)
    → Finishes Q m
    → ((p : Pool) → Q p → Finishes R (f p))
    → Finishes R (m >>= f)
Finishes-bind Q R (ok p) f h k = k p h
Finishes-bind Q R (err e) f h k = h
Finishes-bind Q R panic f h k = tt
Finishes-bind Q R stuck f h k = h

pub Finishes-split :
    (Q R : Pool → Type 0) (r : Result Pool) (f g : Pool → Result Pool)
    → Finishes Q (r >>= f)
    → ((p : Pool) → Finishes Q (f p) → Finishes R (g p))
    → Finishes R (r >>= g)
Finishes-split Q R (ok p) f g h k = k p h
Finishes-split Q R (err e) f g h k = h
Finishes-split Q R panic f g h k = tt
Finishes-split Q R stuck f g h k = h

pub Finishes-both :
    (Q R : Pool → Type 0) (r : Result Pool)
    → Finishes Q r
    → Finishes R r
    → Finishes (λ p. Q p × R p) r
Finishes-both Q R (ok p) h k = (h, k)
Finishes-both Q R (err e) h k = h
Finishes-both Q R panic h k = tt
Finishes-both Q R stuck h k = h

pub Finishes-map :
    (Q R : Pool → Type 0) (r : Result Pool) → Finishes Q r → ((p : Pool) → Q p → R p) → Finishes R r
Finishes-map Q R (ok p) h k = k p h
Finishes-map Q R (err e) h k = h
Finishes-map Q R panic h k = tt
Finishes-map Q R stuck h k = h

-- A property of a choice, by the two cases.
pub Option-choose {ℓ κ} :
    {A : Type ℓ} {B : Type κ} (P : B → Type 0) (o : Option A) (x : B) (f : A → B)
    → (o ≡ none → P x)
    → ((a : A) → o ≡ some a → P (f a))
    → P (elim o [ none ↦ x | some a ↦ f a ])
Option-choose P none x f h k = h refl
Option-choose P (some a) x f h k = k a refl

pub Bool-choose {ℓ} :
    {B : Type ℓ} (P : B → Type 0) (b : Bool) (x y : B)
    → (b ≡ true → P x)
    → (b ≡ false → P y)
    → P (if b then x else y)
Bool-choose P true x y h k = h refl
Bool-choose P false x y h k = k refl

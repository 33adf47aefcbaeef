-- ===== src/Base/Outcome.antt =====
-- Go's `(value, error)` results, with the outcomes that are no return: a run-time panic, and
-- `stuck`, which no Go code produces, for a loop of the model that is out of fuel.
use mathlib.Core.Path.{◌≡◌, refl}
use Prim.Native.Nat.{ℕ}

-- The errors that the SDK creates. The numbers are those that the message prints.
pub data Error : Type 0 where
  invalid_vin key_too_short decrypt empty_data invalid_padding : Error
  too_short : ℕ → Error
  exceeds : ℕ → ℕ → Error

pub data Result {ℓ} (A : Type ℓ) : Type ℓ where
  ok : A → Result A
  err : Error → Result A
  panic : Result A
  stuck : Result A

infixl 5 ◌>>=◌ ◌>>◌
abbrev pub ◌>>=◌ {ℓ κ} : {A : Type ℓ} {B : Type κ} → Result A → (A → Result B) → Result B
ok a >>= f = f a
err e >>= f = err e
panic >>= f = panic
stuck >>= f = stuck

abbrev pub ◌>>◌ {ℓ} : {B : Type ℓ} → Result (Unit {0}) → Result B → Result B
m >> k = m >>= λ _. k

-- The call returns: a value or an error, no panic and no loop without end.
abbrev pub Returns {ℓ} : {A : Type ℓ} → Result A → Type 0
Returns (ok a) = Unit {0}
Returns (err e) = Unit {0}
Returns panic = ⊥
Returns stuck = ⊥

pub >>=-Returns {ℓ κ} :
    {A : Type ℓ} {B : Type κ} (m : Result A) (f : A → Result B)
    → Returns m
    → ((a : A) → m ≡ ok a → Returns (f a))
    → Returns (m >>= f)
>>=-Returns (ok a) f h k = k a refl
>>=-Returns (err e) f h k = tt
>>=-Returns panic f h k = h
>>=-Returns stuck f h k = h

-- The call returns, and a value that it returns has the property.
abbrev pub Satisfies {ℓ} : {A : Type ℓ} → (A → Type 0) → Result A → Type 0
Satisfies P (ok a) = P a
Satisfies P (err e) = Unit {0}
Satisfies P panic = ⊥
Satisfies P stuck = ⊥

pub >>=-Satisfies {ℓ κ} :
    {A : Type ℓ} {B : Type κ} (P : B → Type 0) (m : Result A) (f : A → Result B)
    → Returns m
    → ((a : A) → m ≡ ok a → Satisfies P (f a))
    → Satisfies P (m >>= f)
>>=-Satisfies P (ok a) f h k = k a refl
>>=-Satisfies P (err e) f h k = tt
>>=-Satisfies P panic f h k = h
>>=-Satisfies P stuck f h k = h

pub Satisfies-Returns {ℓ} : {A : Type ℓ} (P : A → Type 0) (r : Result A) → Satisfies P r → Returns r
Satisfies-Returns P (ok a) h = tt
Satisfies-Returns P (err e) h = tt
Satisfies-Returns P panic h = h
Satisfies-Returns P stuck h = h

-- The same where the first call's value is known to have a property.
pub >>=-after {ℓ κ} :
    {A : Type ℓ} {B : Type κ} (Q : A → Type 0) (P : B → Type 0) (m : Result A) (f : A → Result B)
    → Satisfies Q m
    → ((a : A) → Q a → Satisfies P (f a))
    → Satisfies P (m >>= f)
>>=-after Q P (ok a) f h k = k a h
>>=-after Q P (err e) f h k = tt
>>=-after Q P panic f h k = h
>>=-after Q P stuck f h k = h

pub Satisfies-mono {ℓ} :
    {A : Type ℓ} (Q P : A → Type 0) (r : Result A)
    → ((a : A) → Q a → P a)
    → Satisfies Q r
    → Satisfies P r
Satisfies-mono Q P (ok a) h k = h a k
Satisfies-mono Q P (err e) h k = tt
Satisfies-mono Q P panic h k = k
Satisfies-mono Q P stuck h k = k

pub Returns-Satisfies {ℓ} : {A : Type ℓ} (r : Result A) → Returns r → Satisfies (λ _. Unit {0}) r
Returns-Satisfies (ok a) h = tt
Returns-Satisfies (err e) h = tt
Returns-Satisfies panic h = h
Returns-Satisfies stuck h = h

pub Satisfies-both {ℓ} :
    {A : Type ℓ} (P Q : A → Type 0) (r : Result A)
    → Satisfies P r
    → Satisfies Q r
    → Satisfies (λ a. P a × Q a) r
Satisfies-both P Q (ok a) h k = (h, k)
Satisfies-both P Q (err e) h k = tt
Satisfies-both P Q panic h k = h
Satisfies-both P Q stuck h k = h

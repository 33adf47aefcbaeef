-- ===== src/Base/NoErr.antt =====
-- Calls that give no error of their own: reads of bytes give a value or panic.
use gb32960_go_sdk.Base.{
  ℕ, ◌+◌, Bool, true, false, List, [], ◌∷◌, if◌then◌else◌, Result, ok, err, panic, stuck, ◌>>=◌,
  index, slice, be_uint16, be_uint32, uint16_at, uint32_at, arith,
}

-- The call gives no error of its own.
abbrev pub NoErr {ℓ} : {A : Type ℓ} → Result A → Type 0
NoErr (ok x) = Unit {0}
NoErr (err e) = ⊥
NoErr panic = Unit {0}
NoErr stuck = Unit {0}

pub >>=-NoErr {ℓ κ} :
    {A : Type ℓ} {B : Type κ} (m : Result A) (f : A → Result B)
    → NoErr m
    → ((a : A) → NoErr (f a))
    → NoErr (m >>= f)
>>=-NoErr (ok x) f h k = k x
>>=-NoErr (err e) f h k = h
>>=-NoErr panic f h k = tt
>>=-NoErr stuck f h k = tt

pub index-NoErr : (input : List ℕ) (pos : ℕ) → NoErr (index input pos)
unfolding index
index-NoErr input pos = ground arith

pub slice-NoErr : (input : List ℕ) (a b : ℕ) → NoErr (slice input a b)
unfolding slice
slice-NoErr input a b = ground arith

be_uint16-NoErr : (s : List ℕ) → NoErr (be_uint16 s)
unfolding be_uint16
be_uint16-NoErr [] = tt
be_uint16-NoErr (a ∷ []) = tt
be_uint16-NoErr (a ∷ b ∷ r) = tt

be_uint32-NoErr : (s : List ℕ) → NoErr (be_uint32 s)
unfolding be_uint32
be_uint32-NoErr [] = tt
be_uint32-NoErr (a ∷ []) = tt
be_uint32-NoErr (a ∷ b ∷ []) = tt
be_uint32-NoErr (a ∷ b ∷ c ∷ []) = tt
be_uint32-NoErr (a ∷ b ∷ c ∷ d ∷ r) = tt

uint16_at-NoErr : (input : List ℕ) (pos : ℕ) → NoErr (uint16_at input pos)
unfolding uint16_at
uint16_at-NoErr input pos =
    >>=-NoErr (slice input pos (pos + 2)) be_uint16 (slice-NoErr input pos (pos + 2))
      be_uint16-NoErr

uint32_at-NoErr : (input : List ℕ) (pos : ℕ) → NoErr (uint32_at input pos)
unfolding uint32_at
uint32_at-NoErr input pos =
    >>=-NoErr (slice input pos (pos + 4)) be_uint32 (slice-NoErr input pos (pos + 4))
      be_uint32-NoErr

pub if-NoErr {ℓ} :
    {A : Type ℓ} (b : Bool) (r s : Result A) → NoErr r → NoErr s → NoErr (if b then r else s)
if-NoErr true r s h k = h
if-NoErr false r s h k = k

-- Reads in a row give no error.
module _ {ℓ} {B : Type ℓ} (input : List ℕ) where
  pub byte_then :
      (pos : ℕ) (f : ℕ → Result B) → ((b : ℕ) → NoErr (f b)) → NoErr (index input pos >>= f)
  byte_then pos f k = >>=-NoErr (index input pos) f (index-NoErr input pos) k

  pub word_then :
      (pos : ℕ) (f : ℕ → Result B) → ((b : ℕ) → NoErr (f b)) → NoErr (uint16_at input pos >>= f)
  word_then pos f k = >>=-NoErr (uint16_at input pos) f (uint16_at-NoErr input pos) k

  pub long_then :
      (pos : ℕ) (f : ℕ → Result B) → ((b : ℕ) → NoErr (f b)) → NoErr (uint32_at input pos >>= f)
  long_then pos f k = >>=-NoErr (uint32_at input pos) f (uint32_at-NoErr input pos) k

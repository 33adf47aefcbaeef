-- ===== src/Message/Bounds.antt =====
-- Where `findFieldEnd` finds an end, it lies behind the place that it looks at.
use gb32960_go_sdk.Base.{
  ℕ, zero, suc, ◌+◌, ◌-◌, ◌*◌, ◌≤◌, List, ltb, not, ◌||◌, if◌then◌else◌, inl, inr, length, Result,
  ok, ◌>>=◌, Satisfies, >>=-Satisfies, >>=-after, Satisfies-mono, index, uint16_at, uint32_at,
  index_lt, uint16_at_le, uint32_at_le, arith, Bool-cases, Option, Option-cases, none, some,
}
use gb32960_go_sdk.Codec.{
  FieldId, vehicle, motor, fuel_cell, engine, position, extreme, alarm, voltage, temperature,
  field_id,
}
use gb32960_go_sdk.Message.FieldEnd.{subsystems_end, known_field_end, find_field_end}

-- A length check in front of the reads.
pub checked-Satisfies {ℓ} :
    {B : Type ℓ} (P : B → Type 0) (a n : ℕ) (e r : Result B)
    → Satisfies P e
    → (n ≤ a → Satisfies P r)
    → Satisfies P (if ltb a n then e else r)
checked-Satisfies P a n e r he h = elim (Bool-cases (ltb a n)) [
  | inl short ↦ rw short he
  | inr long ↦ rw long (h (ground arith))
]

-- The end of a field, where there is one, does not stand before `pos`.
abbrev pub From : ℕ → Option ℕ → Type 0
From pos none = Unit {0}
From pos (some end) = pos ≤ end

pub subsystems_end_ge :
    (head unit n : ℕ) (input : List ℕ) (end : ℕ)
    → 2 ≤ head
    → Satisfies (λ e. end ≤ e) (subsystems_end head unit n input end)
unfolding subsystems_end
subsystems_end_ge head unit zero input end h = omega arith
subsystems_end_ge head unit (suc n) input end h =
    elim (Bool-cases (not (ltb end (length input)) || ltb (length input) (end + head))) [
      | inl out ↦ rw out (omega arith)
      | inr within ↦ rw within (
          >>=-Satisfies _ (uint16_at input (end + head - 2)) _
            (uint16_at_le input (end + head - 2) (ground arith))
            λ count _.
              Satisfies-mono (λ e. end + head + count * unit ≤ e) (λ e. end ≤ e) _
                (λ e k. omega arith)
                (subsystems_end_ge head unit n input (end + head + count * unit) h))
    ]

-- A count of subsystems and the loop over them.
counted-From :
    (head unit : ℕ) (input : List ℕ) (pos : ℕ)
    → 2 ≤ head
    → Satisfies (From pos) (
        if ltb (length input) (pos + 2) then ok none else do
          n ← uint16_at input pos
          end ← subsystems_end head unit n input (pos + 2)
          ok (some end))
counted-From head unit input pos two =
    checked-Satisfies (From pos) (length input) (pos + 2) _ _ tt λ h.
      >>=-Satisfies _ (uint16_at input pos) _ (uint16_at_le input pos h) λ n _.
        >>=-after (λ e. pos + 2 ≤ e) (From pos) (subsystems_end head unit n input (pos + 2)) _
          (subsystems_end_ge head unit n input (pos + 2) two) λ end k. omega arith

known_field_end-From :
    (f : FieldId) (input : List ℕ) (pos : ℕ) → Satisfies (From pos) (known_field_end f input pos)
unfolding known_field_end
known_field_end-From vehicle input pos = ground arith
known_field_end-From motor input pos =
    checked-Satisfies (From pos) (length input) (pos + 1) _ _ tt λ h.
      >>=-Satisfies _ (index input pos) _ (index_lt input pos (omega arith)) λ count _. omega arith
known_field_end-From fuel_cell input pos =
    checked-Satisfies (From pos) (length input) (pos + 8) _ _ tt λ h.
      >>=-Satisfies _ (uint16_at input (pos + 6)) _ (uint16_at_le input (pos + 6) (omega arith))
        λ n _. omega arith
known_field_end-From engine input pos = ground arith
known_field_end-From position input pos = ground arith
known_field_end-From extreme input pos = ground arith
known_field_end-From alarm input pos =
    checked-Satisfies (From pos) (length input) (pos + 5) _ _ tt λ h.
      >>=-Satisfies _ (uint32_at input 1) _ (uint32_at_le input 1 (omega arith)) λ n _. omega arith
known_field_end-From voltage input pos = counted-From 7 3 input pos (omega arith)
known_field_end-From temperature input pos = counted-From 3 1 input pos (omega arith)

pub find_field_end-From :
    (b : ℕ) (input : List ℕ) (pos : ℕ) → Satisfies (From pos) (find_field_end b input pos)
unfolding find_field_end
find_field_end-From b input pos = elim (Option-cases (field_id b)) [
  | inl e ↦ rw (e, find_field_end) tt
  | inr (f, e) ↦ rw (e, find_field_end) (known_field_end-From f input pos)
]

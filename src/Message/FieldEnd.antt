-- ===== src/Message/FieldEnd.antt =====
-- message.go, `findFieldEnd`: where the bytes of a field end, from its own counts.
use gb32960_go_sdk.Base.{
  ℕ, zero, suc, ◌+◌, ◌-◌, ◌*◌, List, Option, none, some, not, ◌||◌, ltb, leb, if◌then◌else◌, length,
  Result, ok, ◌>>=◌, index, uint16_at, uint32_at,
}
use gb32960_go_sdk.Codec.{
  FieldId, vehicle, motor, fuel_cell, engine, position, extreme, alarm, voltage, temperature,
  field_id,
}

-- A field of a fixed length, which has to be there.
abbrev fixed : List ℕ → ℕ → ℕ → Result (Option ℕ)
fixed input pos n = if leb (pos + n) (length input) then ok (some (pos + n)) else ok none

-- The loop over `n` more subsystems of `head` bytes, the last two of which count what follows, each
-- of `unit` bytes.
unfoldable pub subsystems_end : ℕ → ℕ → ℕ → List ℕ → ℕ → Result ℕ
subsystems_end head unit zero input end = ok end
subsystems_end head unit (suc n) input end =
    if not (ltb end (length input)) || ltb (length input) (end + head) then ok end else do
      count ← uint16_at input (end + head - 2)
      subsystems_end head unit n input (end + head + count * unit)

-- `none` is the result -1. The length of an alarm field is read from the bytes 1 to 4 of the data.
unfoldable pub known_field_end : FieldId → List ℕ → ℕ → Result (Option ℕ)
known_field_end vehicle input pos = fixed input pos 20
known_field_end motor input pos =
    if ltb (length input) (pos + 1)
    then ok none
    else do count ← index input pos; ok (some (pos + 1 + count * 12))
known_field_end fuel_cell input pos =
    if ltb (length input) (pos + 8)
    then ok none
    else do n ← uint16_at input (pos + 6); ok (some (pos + 8 + n + 13))
known_field_end engine input pos = fixed input pos 5
known_field_end position input pos = fixed input pos 8
known_field_end extreme input pos = fixed input pos 10
known_field_end alarm input pos =
    if ltb (length input) (pos + 5)
    then ok none
    else do n ← uint32_at input 1; ok (some (pos + 5 + n))
known_field_end voltage input pos =
    if ltb (length input) (pos + 2)
    then ok none
    else do n ← uint16_at input pos; end ← subsystems_end 7 3 n input (pos + 2); ok (some end)
known_field_end temperature input pos =
    if ltb (length input) (pos + 2)
    then ok none
    else do n ← uint16_at input pos; end ← subsystems_end 3 1 n input (pos + 2); ok (some end)

unfoldable pub find_field_end : ℕ → List ℕ → ℕ → Result (Option ℕ)
find_field_end b input pos = elim (field_id b) [
  | none ↦ ok none
  | some f ↦ known_field_end f input pos
]

-- ===== src/Message/Accept.antt =====
-- The bytes that make a field are accepted by its decoder.
use gb32960_go_sdk.Base.{
  ℕ, zero, suc, ◌+◌, ◌*◌, ◌≡◌, refl, sym, List, ◌∷◌, ◌++◌, some, length, ltb, Result, ok, err,
  panic, stuck, Returns, slice, uint16_at_cursor, drop-append, length-append, arith, le→ltb,
}
use gb32960_go_sdk.Codec.{FieldId, field_id, Decoded, decode_known, decode_field}
use gb32960_go_sdk.Codec.Fixed.{
  read_vehicle, decode_vehicle_data, read_engine, decode_engine_data, read_position,
  decode_position_data, read_extreme, decode_extreme_data,
}
use gb32960_go_sdk.Codec.Counted.{
  read_motor, motors_from, decode_motor_data, read_fuel_cell, decode_fuel_cell_data,
}
use gb32960_go_sdk.Codec.Subsystems.{
  cells_from, voltages_from, decode_voltage_data, temperatures_from, decode_temperature_data,
}
use gb32960_go_sdk.Codec.Safe.{decode_field-Returns}
use gb32960_go_sdk.Message.Fields.{
  IsField, vehicle_field, motor_field, fuel_cell_field, engine_field, position_field, extreme_field,
  voltage_field, temperature_field,
}
use gb32960_go_sdk.Base.NoErr.{
  NoErr, >>=-NoErr, slice-NoErr, if-NoErr, byte_then, word_then, long_then,
}

read_vehicle-NoErr : (input : List ℕ) → NoErr (read_vehicle input)
unfolding read_vehicle
read_vehicle-NoErr i = byte_then i _ _ λ _. byte_then i _ _ λ _. byte_then i _ _ λ _.
    word_then i _ _ λ _. long_then i _ _ λ _. word_then i _ _ λ _. word_then i _ _ λ _.
      byte_then i _ _
        λ _. byte_then i _ _ λ _. byte_then i _ _ λ _. word_then i _ _ λ _. word_then i _ _ λ _. tt

read_engine-NoErr : (input : List ℕ) → NoErr (read_engine input)
unfolding read_engine
read_engine-NoErr i = byte_then i _ _ λ _. word_then i _ _ λ _. word_then i _ _ λ _. tt

read_position-NoErr : (input : List ℕ) → NoErr (read_position input)
unfolding read_position
read_position-NoErr i = long_then i _ _ λ _. long_then i _ _ λ _. tt

read_extreme-NoErr : (input : List ℕ) → NoErr (read_extreme input)
unfolding read_extreme
read_extreme-NoErr i = word_then i _ _ λ _. byte_then i _ _ λ _. word_then i _ _ λ _.
    byte_then i _ _
      λ _. byte_then i _ _ λ _. byte_then i _ _ λ _. byte_then i _ _ λ _. byte_then i _ _ λ _. tt

read_motor-NoErr : (input : List ℕ) (pos : ℕ) → NoErr (read_motor input pos)
unfolding read_motor
read_motor-NoErr i pos = byte_then i _ _ λ _. byte_then i _ _ λ _. byte_then i _ _ λ _.
    word_then i _ _
      λ _. word_then i _ _ λ _. byte_then i _ _ λ _. word_then i _ _ λ _. word_then i _ _ λ _. tt

motors_from-NoErr : (n : ℕ) (input : List ℕ) (pos : ℕ) → NoErr (motors_from n input pos)
unfolding motors_from
motors_from-NoErr zero i pos = tt
motors_from-NoErr (suc n) i pos = if-NoErr (ltb (length i) (pos + 12)) _ _ tt (
    >>=-NoErr (read_motor i pos) _ (read_motor-NoErr i pos)
      λ m. >>=-NoErr (motors_from n i (pos + 12)) _ (motors_from-NoErr n i (pos + 12)) λ ms. tt)

read_fuel_cell-NoErr : (input : List ℕ) (a b c n : ℕ) → NoErr (read_fuel_cell input a b c n)
unfolding read_fuel_cell
read_fuel_cell-NoErr i a b c n = >>=-NoErr (slice i 8 (8 + n)) _ (slice-NoErr i 8 (8 + n)) λ _.
    word_then i _ _ λ _. byte_then i _ _ λ _. word_then i _ _ λ _. byte_then i _ _ λ _.
      word_then i _ _
        λ _. byte_then i _ _ λ _. word_then i _ _ λ _. byte_then i _ _ λ _. byte_then i _ _ λ _. tt

cells_from-NoErr : (n : ℕ) (input : List ℕ) (pos : ℕ) → NoErr (cells_from n input pos)
unfolding cells_from
cells_from-NoErr zero i pos = tt
cells_from-NoErr (suc n) i pos = if-NoErr (ltb (length i) (pos + 3)) _ _ tt (
    byte_then i _ _ λ _.
      word_then i _ _
        λ _. >>=-NoErr (cells_from n i (pos + 3)) _ (cells_from-NoErr n i (pos + 3)) λ r. tt)

voltages_from-NoErr : (n : ℕ) (input : List ℕ) (pos : ℕ) → NoErr (voltages_from n input pos)
unfolding voltages_from
voltages_from-NoErr zero i pos = tt
voltages_from-NoErr (suc n) i pos = if-NoErr (ltb (length i) (pos + 7)) _ _ tt (
    byte_then i _ _ λ _. word_then i _ _ λ _. word_then i _ _ λ _. word_then i _ _ λ count.
      >>=-NoErr (cells_from count i (pos + 7)) _ (cells_from-NoErr count i (pos + 7))
        λ r. >>=-NoErr (voltages_from n i r.1) _ (voltages_from-NoErr n i r.1) λ s. tt)

temperatures_from-NoErr : (n : ℕ) (input : List ℕ) (pos : ℕ) → NoErr (temperatures_from n input pos)
unfolding temperatures_from
temperatures_from-NoErr zero i pos = tt
temperatures_from-NoErr (suc n) i pos = if-NoErr (ltb (length i) (pos + 3)) _ _ tt (
    byte_then i _ _ λ _. word_then i _ _ λ count.
      >>=-NoErr (slice i _ _) _ (slice-NoErr i _ _)
        λ p. >>=-NoErr (temperatures_from n i _) _ (temperatures_from-NoErr n i _) λ s. tt)

decode_known-NoErr : (f : FieldId) (body : List ℕ) → IsField f body → NoErr (decode_known f body)
unfolding decode_known decode_vehicle_data decode_motor_data decode_fuel_cell_data
    decode_engine_data decode_position_data decode_extreme_data decode_voltage_data
    decode_temperature_data
decode_known-NoErr _ _ (vehicle_field body l) =
    >>=-NoErr (decode_vehicle_data body) _ (rw l (read_vehicle-NoErr body)) λ v. tt
decode_known-NoErr _ _ (motor_field n motors l) =
    >>=-NoErr (decode_motor_data (n ∷ motors)) _
      (rw (le→ltb (length (n ∷ motors)) 1 (omega arith))
        (byte_then (n ∷ motors) 0 _ λ c. motors_from-NoErr c _ 1))
      λ v. tt
decode_known-NoErr _ _ (fuel_cell_field hi lo front back lf lb) =
    let body = front ++ (hi ∷ lo ∷ back) in
    let size = length-append front (hi ∷ lo ∷ back) in
    let count =
      uint16_at_cursor body 6 hi lo back (drop-append 6 front (hi ∷ lo ∷ back) (sym lf)) in
    >>=-NoErr (decode_fuel_cell_data body) _
      (rw (le→ltb (length body) 8 (omega arith)) (
        word_then body 0 _ λ a. word_then body 2 _ λ b. word_then body 4 _ λ c.
          rw (count, le→ltb (length body) (8 + (hi * 256 + lo) + 13) (omega arith))
            (read_fuel_cell-NoErr body a b c (hi * 256 + lo))))
      λ v. tt
decode_known-NoErr _ _ (engine_field body l) =
    >>=-NoErr (decode_engine_data body) _ (rw l (read_engine-NoErr body)) λ v. tt
decode_known-NoErr _ _ (position_field body l) =
    >>=-NoErr (decode_position_data body) _ (rw l (read_position-NoErr body)) λ v. tt
decode_known-NoErr _ _ (extreme_field body l) =
    >>=-NoErr (decode_extreme_data body) _ (rw l (read_extreme-NoErr body)) λ v. tt
decode_known-NoErr _ _ (voltage_field hi lo subs s) =
    let body = hi ∷ lo ∷ subs in
    >>=-NoErr (decode_voltage_data body) _
      (rw (le→ltb (length body) 2 (omega arith)) (
        word_then body 0 _
          λ n. >>=-NoErr (voltages_from n body 2) _ (voltages_from-NoErr n body 2) λ r. tt))
      λ v. tt
decode_known-NoErr _ _ (temperature_field hi lo subs s) =
    let body = hi ∷ lo ∷ subs in
    >>=-NoErr (decode_temperature_data body) _
      (rw (le→ltb (length body) 2 (omega arith)) (
        word_then body 0 _
          λ n. >>=-NoErr (temperatures_from n body 2) _ (temperatures_from-NoErr n body 2) λ r. tt))
      λ v. tt

value_of : (r : Result Decoded) → Returns r → NoErr r → (x : Decoded) × (r ≡ ok x)
value_of (ok x) h k = (x, refl)
value_of (err e) h k = absurd k
value_of panic h k = absurd h
value_of stuck h k = absurd h

-- For every id of the table other than that of alarms, bytes that make a field of this id are
-- accepted: `decode_field` gives a value for them.
pub decode_field-IsField :
    (id : ℕ) (f : FieldId) (body : List ℕ)
    → field_id id ≡ some f
    → IsField f body
    → (x : Decoded) × (decode_field id body ≡ ok x)
unfolding decode_field
decode_field-IsField id f body e k =
    value_of (decode_field id body) (decode_field-Returns id body)
      (rw (e, decode_field) (decode_known-NoErr f body k))

-- ===== src/Codec/Safe.antt =====
-- The field decoders return on every input: no read leaves the bytes given.
use gb32960_go_sdk.Base.{
  ℕ, zero, suc, ◌+◌, ◌-◌, ◌≤◌, List, inl, inr, length, Returns, >>=-Returns, checked, read_then,
  read16_then, read32_then, slice, slice_le, arith, Option-cases,
}
use gb32960_go_sdk.Codec.{
  FieldId, vehicle, motor, fuel_cell, engine, position, extreme, alarm, voltage, temperature,
  field_id, decode_known, decode_field,
}
use gb32960_go_sdk.Codec.Fixed.{
  read_vehicle, read_engine, read_position, read_extreme, decode_vehicle_data, decode_engine_data,
  decode_position_data, decode_extreme_data,
}
use gb32960_go_sdk.Codec.Counted.{
  read_motor, motors_from, decode_motor_data, read_fuel_cell, decode_fuel_cell_data,
  decode_alarm_data,
}
use gb32960_go_sdk.Codec.Subsystems.{
  cells_from, voltages_from, decode_voltage_data, temperatures_from, decode_temperature_data,
  probes_left,
}

read_vehicle-Returns : (input : List ℕ) → 20 ≤ length input → Returns (read_vehicle input)
unfolding read_vehicle
read_vehicle-Returns input h = read_then input 0 _ (omega arith) λ _.
    read_then input 1 _ (omega arith) λ _. read_then input 2 _ (omega arith) λ _.
      read16_then input 3 _ (omega arith) λ _. read32_then input 5 _ (omega arith) λ _.
        read16_then input 9 _ (omega arith) λ _. read16_then input 11 _ (omega arith) λ _.
          read_then input 13 _ (omega arith) λ _. read_then input 14 _ (omega arith) λ _.
            read_then input 15 _ (omega arith) λ _.
              read16_then input 16 _ (omega arith) λ _. read16_then input 18 _ (omega arith) λ _. tt

pub decode_vehicle_data-Returns : (input : List ℕ) → Returns (decode_vehicle_data input)
unfolding decode_vehicle_data
decode_vehicle_data-Returns input =
    checked (length input) 20 _ (read_vehicle input) tt (read_vehicle-Returns input)

pub decode_engine_data-Returns : (input : List ℕ) → Returns (decode_engine_data input)
unfolding decode_engine_data
decode_engine_data-Returns input = checked (length input) 5 _ (read_engine input) tt λ h.
    read_then input 0 _ (omega arith)
      λ _. read16_then input 1 _ (omega arith) λ _. read16_then input 3 _ (omega arith) λ _. tt

pub decode_position_data-Returns : (input : List ℕ) → Returns (decode_position_data input)
unfolding decode_position_data
decode_position_data-Returns input =
    checked (length input) 8 _ (read_position input) tt
      λ h. read32_then input 0 _ (omega arith) λ _. read32_then input 4 _ (omega arith) λ _. tt

pub decode_extreme_data-Returns : (input : List ℕ) → Returns (decode_extreme_data input)
unfolding decode_extreme_data
decode_extreme_data-Returns input = checked (length input) 10 _ (read_extreme input) tt λ h.
    read16_then input 0 _ (omega arith) λ _. read_then input 2 _ (omega arith) λ _.
      read16_then input 3 _ (omega arith) λ _. read_then input 5 _ (omega arith) λ _.
        read_then input 6 _ (omega arith) λ _.
          read_then input 7 _ (omega arith)
            λ _. read_then input 8 _ (omega arith) λ _. read_then input 9 _ (omega arith) λ _. tt

read_motor-Returns :
    (input : List ℕ) (pos : ℕ) → pos + 12 ≤ length input → Returns (read_motor input pos)
unfolding read_motor
read_motor-Returns input pos h = read_then input pos _ (omega arith) λ _.
    read_then input (pos + 1) _ (omega arith) λ _. read_then input (pos + 2) _ (omega arith) λ _.
      read16_then input (pos + 3) _ (omega arith) λ _.
        read16_then input (pos + 5) _ (omega arith) λ _.
          read_then input (pos + 7) _ (omega arith) λ _.
            read16_then input (pos + 8) _ (omega arith)
              λ _. read16_then input (pos + 10) _ (omega arith) λ _. tt

motors_from-Returns : (n : ℕ) (input : List ℕ) (pos : ℕ) → Returns (motors_from n input pos)
unfolding motors_from
motors_from-Returns zero input pos = tt
motors_from-Returns (suc n) input pos = checked (length input) (pos + 12) _ _ tt λ h.
    >>=-Returns (read_motor input pos) _ (read_motor-Returns input pos h) λ m _.
      >>=-Returns (motors_from n input (pos + 12)) _ (motors_from-Returns n input (pos + 12))
        λ ms _. tt

pub decode_motor_data-Returns : (input : List ℕ) → Returns (decode_motor_data input)
unfolding decode_motor_data
decode_motor_data-Returns input =
    checked (length input) 1 _ _ tt
      λ h. read_then input 0 _ (omega arith) λ n. motors_from-Returns n input 1

read_fuel_cell-Returns :
    (input : List ℕ) (a b c n : ℕ)
    → 8 + n + 13 ≤ length input
    → Returns (read_fuel_cell input a b c n)
unfolding read_fuel_cell
read_fuel_cell-Returns input a b c n h =
    >>=-Returns (slice input 8 (8 + n)) _ (slice_le input 8 (8 + n) (omega arith) (omega arith))
      λ _ _. read16_then input (8 + n) _ (omega arith) λ _.
        read_then input (10 + n) _ (omega arith) λ _.
          read16_then input (11 + n) _ (omega arith) λ _.
            read_then input (13 + n) _ (omega arith) λ _.
              read16_then input (14 + n) _ (omega arith) λ _.
                read_then input (16 + n) _ (omega arith) λ _.
                  read16_then input (17 + n) _ (omega arith) λ _.
                    read_then input (19 + n) _ (omega arith)
                      λ _. read_then input (20 + n) _ (omega arith) λ _. tt

pub decode_fuel_cell_data-Returns : (input : List ℕ) → Returns (decode_fuel_cell_data input)
unfolding decode_fuel_cell_data
decode_fuel_cell_data-Returns input = checked (length input) 8 _ _ tt λ h.
    read16_then input 0 _ (omega arith) λ a. read16_then input 2 _ (omega arith) λ b.
      read16_then input 4 _ (omega arith) λ c.
        read16_then input 6 _ (omega arith)
          λ n. checked (length input) (8 + n + 13) _ _ tt (read_fuel_cell-Returns input a b c n)

pub decode_alarm_data-Returns : (input : List ℕ) → Returns (decode_alarm_data input)
unfolding decode_alarm_data
decode_alarm_data-Returns input = checked (length input) 5 _ _ tt λ h.
    read_then input 0 _ (omega arith) λ _. read32_then input 1 _ (omega arith) λ n.
      checked (length input - 5) n _ _ tt λ k.
        >>=-Returns (slice input 5 (5 + n)) _ (slice_le input 5 (5 + n) (omega arith) (omega arith))
          λ _ _. tt

cells_from-Returns : (n : ℕ) (input : List ℕ) (pos : ℕ) → Returns (cells_from n input pos)
unfolding cells_from
cells_from-Returns zero input pos = tt
cells_from-Returns (suc n) input pos = checked (length input) (pos + 3) _ _ tt λ h.
    read_then input pos _ (omega arith) λ _. read16_then input (pos + 1) _ (omega arith) λ _.
      >>=-Returns (cells_from n input (pos + 3)) _ (cells_from-Returns n input (pos + 3)) λ _ _. tt

voltages_from-Returns : (n : ℕ) (input : List ℕ) (pos : ℕ) → Returns (voltages_from n input pos)
unfolding voltages_from
voltages_from-Returns zero input pos = tt
voltages_from-Returns (suc n) input pos = checked (length input) (pos + 7) _ _ tt λ h.
    read_then input pos _ (omega arith) λ _. read16_then input (pos + 1) _ (omega arith) λ _.
      read16_then input (pos + 3) _ (omega arith) λ _.
        read16_then input (pos + 5) _ (omega arith) λ count.
          >>=-Returns (cells_from count input (pos + 7)) _
            (cells_from-Returns count input (pos + 7))
            λ r _.
              >>=-Returns (voltages_from n input r.1) _ (voltages_from-Returns n input r.1)
                λ _ _. tt

pub decode_voltage_data-Returns : (input : List ℕ) → Returns (decode_voltage_data input)
unfolding decode_voltage_data
decode_voltage_data-Returns input = checked (length input) 2 _ _ tt λ h.
    read16_then input 0 _ (omega arith)
      λ n. >>=-Returns (voltages_from n input 2) _ (voltages_from-Returns n input 2) λ _ _. tt

probes_left-le :
    (input : List ℕ) (pos n : ℕ) → pos ≤ length input → pos + probes_left input pos n ≤ length input
probes_left-le input pos n h = ground arith

temperatures_from-Returns :
    (n : ℕ) (input : List ℕ) (pos : ℕ) → Returns (temperatures_from n input pos)
unfolding temperatures_from
temperatures_from-Returns zero input pos = tt
temperatures_from-Returns (suc n) input pos = checked (length input) (pos + 3) _ _ tt λ h.
    read_then input pos _ (omega arith) λ _. read16_then input (pos + 1) _ (omega arith) λ count.
      let k = probes_left input (pos + 3) count in
      >>=-Returns (slice input (pos + 3) (pos + 3 + k)) _
        (slice_le input (pos + 3) (pos + 3 + k) (omega arith)
          (probes_left-le input (pos + 3) count h))
        λ _ _.
          >>=-Returns (temperatures_from n input (pos + 3 + k)) _
            (temperatures_from-Returns n input (pos + 3 + k)) λ _ _. tt

pub decode_temperature_data-Returns : (input : List ℕ) → Returns (decode_temperature_data input)
unfolding decode_temperature_data
decode_temperature_data-Returns input = checked (length input) 2 _ _ tt λ h.
    read16_then input 0 _ (omega arith) λ n.
      >>=-Returns (temperatures_from n input 2) _ (temperatures_from-Returns n input 2) λ _ _. tt

decode_known-Returns : (f : FieldId) (input : List ℕ) → Returns (decode_known f input)
unfolding decode_known
decode_known-Returns vehicle i =
    >>=-Returns (decode_vehicle_data i) _ (decode_vehicle_data-Returns i) λ _ _. tt
decode_known-Returns motor i =
    >>=-Returns (decode_motor_data i) _ (decode_motor_data-Returns i) λ _ _. tt
decode_known-Returns fuel_cell i =
    >>=-Returns (decode_fuel_cell_data i) _ (decode_fuel_cell_data-Returns i) λ _ _. tt
decode_known-Returns engine i =
    >>=-Returns (decode_engine_data i) _ (decode_engine_data-Returns i) λ _ _. tt
decode_known-Returns position i =
    >>=-Returns (decode_position_data i) _ (decode_position_data-Returns i) λ _ _. tt
decode_known-Returns extreme i =
    >>=-Returns (decode_extreme_data i) _ (decode_extreme_data-Returns i) λ _ _. tt
decode_known-Returns alarm i =
    >>=-Returns (decode_alarm_data i) _ (decode_alarm_data-Returns i) λ _ _. tt
decode_known-Returns voltage i =
    >>=-Returns (decode_voltage_data i) _ (decode_voltage_data-Returns i) λ _ _. tt
decode_known-Returns temperature i =
    >>=-Returns (decode_temperature_data i) _ (decode_temperature_data-Returns i) λ _ _. tt

-- For every id and all bytes `decode_field` gives a value or an error: none of the nine decoders
-- reads or slices outside the bytes that it is given, whatever counts they hold.
pub decode_field-Returns : (b : ℕ) (input : List ℕ) → Returns (decode_field b input)
unfolding decode_field
decode_field-Returns b input = elim (Option-cases (field_id b)) [
  | inl e ↦ rw (e, decode_field) tt
  | inr (f, e) ↦ rw (e, decode_field) (decode_known-Returns f input)
]

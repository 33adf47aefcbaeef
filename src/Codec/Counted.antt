-- ===== src/Codec/Counted.antt =====
-- codec/motor.go, battery.go and alarm.go: fields whose length is counted
-- by their own bytes.
use gb32960_go_sdk.Base.{
  ℕ, zero, suc, ◌+◌, ◌-◌, List, [], ◌∷◌, ltb, if◌then◌else◌, length, replicate, Result, ok, err,
  ◌>>=◌, too_short, exceeds, index, slice, uint16_at, uint32_at,
}

pub record MotorInfo : Type 0 where
  pub motor_seq : ℕ
  pub motor_status : ℕ
  pub controller_temp : ℕ
  pub motor_speed : ℕ
  pub motor_torque : ℕ
  pub motor_temp : ℕ
  pub motor_voltage : ℕ
  pub motor_current : ℕ

-- An element of `make([]MotorInfo, count)` that is not assigned.
abbrev pub no_motor : MotorInfo
no_motor = record {
  motor_seq = 0;
  motor_status = 0;
  controller_temp = 0;
  motor_speed = 0;
  motor_torque = 0;
  motor_temp = 0;
  motor_voltage = 0;
  motor_current = 0;
}

unfoldable pub read_motor : List ℕ → ℕ → Result MotorInfo
read_motor input pos = do
  motor_seq ← index input pos
  motor_status ← index input (pos + 1)
  controller_temp ← index input (pos + 2)
  motor_speed ← uint16_at input (pos + 3)
  motor_torque ← uint16_at input (pos + 5)
  motor_temp ← index input (pos + 7)
  motor_voltage ← uint16_at input (pos + 8)
  motor_current ← uint16_at input (pos + 10)
  ok (record {
    motor_seq = motor_seq;
    motor_status = motor_status;
    controller_temp = controller_temp;
    motor_speed = motor_speed;
    motor_torque = motor_torque;
    motor_temp = motor_temp;
    motor_voltage = motor_voltage;
    motor_current = motor_current;
  })

-- The elements from here on, of which `n` are left: a record that is cut ends the loop.
unfoldable pub motors_from : ℕ → List ℕ → ℕ → Result (List MotorInfo)
motors_from zero input pos = ok []
motors_from (suc n) input pos =
    let rest = motors_from n input (pos + 12) in
    if ltb (length input) (pos + 12)
    then ok (replicate (suc n) no_motor)
    else do m ← read_motor input pos; ms ← rest; ok (m ∷ ms)

unfoldable pub decode_motor_data : List ℕ → Result (List MotorInfo)
decode_motor_data input =
    if ltb (length input) 1
    then err (too_short (length input))
    else do count ← index input 0; motors_from count input 1

pub record FuelCellInfo : Type 0 where
  pub cell_voltage : ℕ
  pub cell_current : ℕ
  pub fuel_consumption : ℕ
  pub probe_count : ℕ
  pub probe_temps : List ℕ
  pub h2_max_temp : ℕ
  pub h2_max_temp_probe : ℕ
  pub h2_max_concentration : ℕ
  pub h2_max_concentration_sensor : ℕ
  pub h2_pressure_max : ℕ
  pub h2_pressure_max_sensor : ℕ
  pub h2_pressure_min : ℕ
  pub h2_pressure_min_sensor : ℕ
  pub dcdc_status : ℕ

-- The probes and what follows them, behind the second length check.
unfoldable pub read_fuel_cell : List ℕ → ℕ → ℕ → ℕ → ℕ → Result FuelCellInfo
read_fuel_cell input cell_voltage cell_current fuel_consumption n = do
  probe_temps ← slice input 8 (8 + n)
  h2_max_temp ← uint16_at input (8 + n)
  h2_max_temp_probe ← index input (10 + n)
  h2_max_concentration ← uint16_at input (11 + n)
  h2_max_concentration_sensor ← index input (13 + n)
  h2_pressure_max ← uint16_at input (14 + n)
  h2_pressure_max_sensor ← index input (16 + n)
  h2_pressure_min ← uint16_at input (17 + n)
  h2_pressure_min_sensor ← index input (19 + n)
  dcdc_status ← index input (20 + n)
  ok (record {
    cell_voltage = cell_voltage;
    cell_current = cell_current;
    fuel_consumption = fuel_consumption;
    probe_count = n;
    probe_temps = probe_temps;
    h2_max_temp = h2_max_temp;
    h2_max_temp_probe = h2_max_temp_probe;
    h2_max_concentration = h2_max_concentration;
    h2_max_concentration_sensor = h2_max_concentration_sensor;
    h2_pressure_max = h2_pressure_max;
    h2_pressure_max_sensor = h2_pressure_max_sensor;
    h2_pressure_min = h2_pressure_min;
    h2_pressure_min_sensor = h2_pressure_min_sensor;
    dcdc_status = dcdc_status;
  })

unfoldable pub decode_fuel_cell_data : List ℕ → Result FuelCellInfo
decode_fuel_cell_data input = if ltb (length input) 8 then err (too_short (length input)) else do
  cell_voltage ← uint16_at input 0
  cell_current ← uint16_at input 2
  fuel_consumption ← uint16_at input 4
  n ← uint16_at input 6
  if ltb (length input) (8 + n + 13)
      then err (exceeds (8 + n + 13) (length input))
      else read_fuel_cell input cell_voltage cell_current fuel_consumption n

pub record AlarmInfo : Type 0 where
  pub max_level : ℕ
  pub alarm_byte_len : ℕ
  pub alarm_bytes : List ℕ

unfoldable pub decode_alarm_data : List ℕ → Result AlarmInfo
decode_alarm_data input = if ltb (length input) 5 then err (too_short (length input)) else do
  max_level ← index input 0
  n ← uint32_at input 1
  if ltb (length input - 5) n then err (exceeds n (length input - 5)) else do
    alarm_bytes ← slice input 5 (5 + n)
    ok (record { max_level = max_level; alarm_byte_len = n; alarm_bytes = alarm_bytes })

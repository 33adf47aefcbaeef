-- ===== src/Codec.antt =====
-- codec/field.go: the decoders of the nine kinds of data fields, by the field's id.
pub mod Fixed
pub mod Counted
pub mod Subsystems
pub mod Safe
pub mod Encode
use gb32960_go_sdk.Base.{
  ℕ, List, Option, none, some, Bool, true, false, ◌==◌, if◌then◌else◌, Result, ok, err, ◌>>=◌,
}
use Fixed.{
  VehicleBaseInfo, EngineInfo, PositionInfo, ExtremeInfo, decode_vehicle_data, decode_engine_data,
  decode_position_data, decode_extreme_data,
}
use Counted.{
  MotorInfo, FuelCellInfo, AlarmInfo, decode_motor_data, decode_fuel_cell_data, decode_alarm_data,
}
use Subsystems.{VoltageInfo, TemperatureInfo, decode_voltage_data, decode_temperature_data}

-- The id of a field, which stands in front of its bytes.
pub data FieldId : Type 0 where
  vehicle motor fuel_cell engine position extreme alarm voltage temperature : FieldId

-- The keys of the table `decoders`.
unfoldable pub field_id : ℕ → Option FieldId
field_id b =
    if b == 0x01
    then some vehicle
    else if b == 0x02
    then some motor
    else if b == 0x03
    then some fuel_cell
    else if b == 0x04
    then some engine
    else if b == 0x05
    then some position
    else if b == 0x06
    then some extreme
    else if b == 0x07
    then some alarm
    else if b == 0x08
    then some voltage
    else if b == 0x09
    then some temperature
    else none

-- What `interface{}` holds.
pub data Decoded : Type 0 where
  vehicle_of : VehicleBaseInfo → Decoded
  motors_of : List MotorInfo → Decoded
  fuel_cell_of : FuelCellInfo → Decoded
  engine_of : EngineInfo → Decoded
  position_of : PositionInfo → Decoded
  extreme_of : ExtremeInfo → Decoded
  alarm_of : AlarmInfo → Decoded
  voltage_of : VoltageInfo → Decoded
  temperature_of : TemperatureInfo → Decoded
  raw : List ℕ → Decoded

-- The decoder that the table holds for an id, as `interface{}`.
unfoldable pub decode_known : FieldId → List ℕ → Result Decoded
decode_known vehicle input = do v ← decode_vehicle_data input; ok (vehicle_of v)
decode_known motor input = do ms ← decode_motor_data input; ok (motors_of ms)
decode_known fuel_cell input = do f ← decode_fuel_cell_data input; ok (fuel_cell_of f)
decode_known engine input = do e ← decode_engine_data input; ok (engine_of e)
decode_known position input = do p ← decode_position_data input; ok (position_of p)
decode_known extreme input = do e ← decode_extreme_data input; ok (extreme_of e)
decode_known alarm input = do a ← decode_alarm_data input; ok (alarm_of a)
decode_known voltage input = do v ← decode_voltage_data input; ok (voltage_of v)
decode_known temperature input = do t ← decode_temperature_data input; ok (temperature_of t)

-- An id that the table lacks gives the bytes themselves.
unfoldable pub decode_field : ℕ → List ℕ → Result Decoded
decode_field b input = elim (field_id b) [ none ↦ ok (raw input) | some f ↦ decode_known f input ]

unfoldable pub has_decoder : ℕ → Bool
has_decoder b = elim (field_id b) [ none ↦ false | some f ↦ true ]

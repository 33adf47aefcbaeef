-- ===== src/Codec/Fixed.antt =====
-- codec/vehicle.go, engine.go, position.go and extreme.go: fields of a fixed length.
use gb32960_go_sdk.Base.{
  ℕ, List, ltb, if◌then◌else◌, length, Result, ok, err, ◌>>=◌, too_short, index, uint16_at,
  uint32_at,
}

pub record VehicleBaseInfo : Type 0 where
  pub vehicle_status : ℕ
  pub charging_status : ℕ
  pub run_mode : ℕ
  pub speed : ℕ
  pub odometer : ℕ
  pub total_voltage : ℕ
  pub total_current : ℕ
  pub soc : ℕ
  pub dc_status : ℕ
  pub gear : ℕ
  pub insulation_res : ℕ
  pub reserved : ℕ

-- The reads behind the length check; `pos` runs through the numbers below.
unfoldable pub read_vehicle : List ℕ → Result VehicleBaseInfo
read_vehicle input = do
  vehicle_status ← index input 0
  charging_status ← index input 1
  run_mode ← index input 2
  speed ← uint16_at input 3
  odometer ← uint32_at input 5
  total_voltage ← uint16_at input 9
  total_current ← uint16_at input 11
  soc ← index input 13
  dc_status ← index input 14
  gear ← index input 15
  insulation_res ← uint16_at input 16
  reserved ← uint16_at input 18
  ok (record {
    vehicle_status = vehicle_status;
    charging_status = charging_status;
    run_mode = run_mode;
    speed = speed;
    odometer = odometer;
    total_voltage = total_voltage;
    total_current = total_current;
    soc = soc;
    dc_status = dc_status;
    gear = gear;
    insulation_res = insulation_res;
    reserved = reserved;
  })

unfoldable pub decode_vehicle_data : List ℕ → Result VehicleBaseInfo
unfolding read_vehicle
decode_vehicle_data input =
    if ltb (length input) 20 then err (too_short (length input)) else read_vehicle input

pub record EngineInfo : Type 0 where
  pub engine_status : ℕ
  pub crank_speed : ℕ
  pub fuel_rate : ℕ

unfoldable pub read_engine : List ℕ → Result EngineInfo
read_engine input = do
  engine_status ← index input 0
  crank_speed ← uint16_at input 1
  fuel_rate ← uint16_at input 3
  ok (record { engine_status = engine_status; crank_speed = crank_speed; fuel_rate = fuel_rate })

unfoldable pub decode_engine_data : List ℕ → Result EngineInfo
unfolding read_engine
decode_engine_data input =
    if ltb (length input) 5 then err (too_short (length input)) else read_engine input

pub record PositionInfo : Type 0 where
  pub longitude : ℕ
  pub latitude : ℕ

unfoldable pub read_position : List ℕ → Result PositionInfo
read_position input = do
  longitude ← uint32_at input 0
  latitude ← uint32_at input 4
  ok (record { longitude = longitude; latitude = latitude })

unfoldable pub decode_position_data : List ℕ → Result PositionInfo
unfolding read_position
decode_position_data input =
    if ltb (length input) 8 then err (too_short (length input)) else read_position input

pub record ExtremeInfo : Type 0 where
  pub max_battery_voltage : ℕ
  pub max_battery_voltage_code : ℕ
  pub min_battery_voltage : ℕ
  pub min_battery_voltage_code : ℕ
  pub max_temp : ℕ
  pub max_temp_code : ℕ
  pub min_temp : ℕ
  pub min_temp_code : ℕ

unfoldable pub read_extreme : List ℕ → Result ExtremeInfo
read_extreme input = do
  max_battery_voltage ← uint16_at input 0
  max_battery_voltage_code ← index input 2
  min_battery_voltage ← uint16_at input 3
  min_battery_voltage_code ← index input 5
  max_temp ← index input 6
  max_temp_code ← index input 7
  min_temp ← index input 8
  min_temp_code ← index input 9
  ok (record {
    max_battery_voltage = max_battery_voltage;
    max_battery_voltage_code = max_battery_voltage_code;
    min_battery_voltage = min_battery_voltage;
    min_battery_voltage_code = min_battery_voltage_code;
    max_temp = max_temp;
    max_temp_code = max_temp_code;
    min_temp = min_temp;
    min_temp_code = min_temp_code;
  })

unfoldable pub decode_extreme_data : List ℕ → Result ExtremeInfo
unfolding read_extreme
decode_extreme_data input =
    if ltb (length input) 10 then err (too_short (length input)) else read_extreme input

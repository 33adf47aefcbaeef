-- ===== src/Packet/Fields.antt =====
-- packet.go, the contents of realtime messages. The types of package codec have the same names and,
-- but for the reserved word of a vehicle, the same fields.
use gb32960_go_sdk.Base.{ℕ, List, Option}
use gb32960_go_sdk.GoTime.{Time}

pub record VehicleBaseInfo : Type 0 where
  pub vehicle_status : ℕ
  pub charging_status : ℕ
  pub run_mode : ℕ
  pub speed : ℕ
  pub odometer : ℕ
  pub total_voltage : ℕ
  pub total_current : ℕ
  pub soc : ℕ
  pub dc_status : ℕ
  pub gear : ℕ
  pub insulation_res : ℕ

pub record MotorInfo : Type 0 where
  pub motor_seq : ℕ
  pub motor_status : ℕ
  pub controller_temp : ℕ
  pub motor_speed : ℕ
  pub motor_torque : ℕ
  pub motor_temp : ℕ
  pub motor_voltage : ℕ
  pub motor_current : ℕ

pub record FuelCellInfo : Type 0 where
  pub cell_voltage : ℕ
  pub cell_current : ℕ
  pub fuel_consumption : ℕ
  pub probe_count : ℕ
  pub probe_temps : List ℕ
  pub h2_max_temp : ℕ
  pub h2_max_temp_probe : ℕ
  pub h2_max_concentration : ℕ
  pub h2_max_concentration_sensor : ℕ
  pub h2_pressure_max : ℕ
  pub h2_pressure_max_sensor : ℕ
  pub h2_pressure_min : ℕ
  pub h2_pressure_min_sensor : ℕ
  pub dcdc_status : ℕ

pub record EngineInfo : Type 0 where
  pub engine_status : ℕ
  pub crank_speed : ℕ
  pub fuel_rate : ℕ

pub record PositionInfo : Type 0 where
  pub longitude : ℕ
  pub latitude : ℕ

pub record ExtremeInfo : Type 0 where
  pub max_battery_voltage : ℕ
  pub max_battery_voltage_code : ℕ
  pub min_battery_voltage : ℕ
  pub min_battery_voltage_code : ℕ
  pub max_temp : ℕ
  pub max_temp_code : ℕ
  pub min_temp : ℕ
  pub min_temp_code : ℕ

pub record AlarmInfo : Type 0 where
  pub max_level : ℕ
  pub alarm_byte_len : ℕ
  pub alarm_bytes : List ℕ

pub record CellInfo : Type 0 where
  pub voltage : ℕ
  pub temp : ℕ

pub record CellVoltage : Type 0 where
  pub cell_no : ℕ
  pub cell_info : CellInfo

pub record SubsystemVoltage : Type 0 where
  pub subsys_no : ℕ
  pub voltage : ℕ
  pub current : ℕ
  pub cell_count : ℕ
  pub cells : List CellVoltage

pub record VoltageInfo : Type 0 where
  pub subsys_count : ℕ
  pub subsystem_voltages : List SubsystemVoltage

pub record RealtimeMessage : Type 0 where
  pub info_time : Time
  pub vehicle_data : Option VehicleBaseInfo
  pub motor_data : List MotorInfo
  pub fuel_cell_data : Option FuelCellInfo
  pub engine_data : Option EngineInfo
  pub position_data : Option PositionInfo
  pub extreme_data : Option ExtremeInfo
  pub alarm_data : Option AlarmInfo
  pub voltage_data : Option VoltageInfo

pub record ReissueMessage : Type 0 where
  pub info_time : Time
  pub data_items : List RealtimeMessage

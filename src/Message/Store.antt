-- ===== src/Message/Store.antt =====
-- message.go, the switch over a decoded field: its values are copied into the message.
use gb32960_go_sdk.Base.{◌++◌, map, some}
use gb32960_go_sdk.Codec.{
  Decoded, vehicle_of, motors_of, fuel_cell_of, engine_of, position_of, extreme_of, alarm_of,
  voltage_of, temperature_of, raw,
}
use gb32960_go_sdk.Codec.Fixed
use gb32960_go_sdk.Codec.Counted
use gb32960_go_sdk.Codec.Subsystems
use gb32960_go_sdk.Packet.Fields.{
  VehicleBaseInfo, MotorInfo, FuelCellInfo, EngineInfo, PositionInfo, ExtremeInfo, AlarmInfo,
  CellVoltage, SubsystemVoltage, VoltageInfo, RealtimeMessage,
}

unfoldable pub copy_vehicle : Fixed.VehicleBaseInfo → VehicleBaseInfo
copy_vehicle x = record {
  vehicle_status = x.vehicle_status;
  charging_status = x.charging_status;
  run_mode = x.run_mode;
  speed = x.speed;
  odometer = x.odometer;
  total_voltage = x.total_voltage;
  total_current = x.total_current;
  soc = x.soc;
  dc_status = x.dc_status;
  gear = x.gear;
  insulation_res = x.insulation_res;
}

unfoldable pub copy_motor : Counted.MotorInfo → MotorInfo
copy_motor x = record {
  motor_seq = x.motor_seq;
  motor_status = x.motor_status;
  controller_temp = x.controller_temp;
  motor_speed = x.motor_speed;
  motor_torque = x.motor_torque;
  motor_temp = x.motor_temp;
  motor_voltage = x.motor_voltage;
  motor_current = x.motor_current;
}

unfoldable pub copy_fuel_cell : Counted.FuelCellInfo → FuelCellInfo
copy_fuel_cell x = record {
  cell_voltage = x.cell_voltage;
  cell_current = x.cell_current;
  fuel_consumption = x.fuel_consumption;
  probe_count = x.probe_count;
  probe_temps = x.probe_temps;
  h2_max_temp = x.h2_max_temp;
  h2_max_temp_probe = x.h2_max_temp_probe;
  h2_max_concentration = x.h2_max_concentration;
  h2_max_concentration_sensor = x.h2_max_concentration_sensor;
  h2_pressure_max = x.h2_pressure_max;
  h2_pressure_max_sensor = x.h2_pressure_max_sensor;
  h2_pressure_min = x.h2_pressure_min;
  h2_pressure_min_sensor = x.h2_pressure_min_sensor;
  dcdc_status = x.dcdc_status;
}

unfoldable pub copy_engine : Fixed.EngineInfo → EngineInfo
copy_engine x = record {
  engine_status = x.engine_status;
  crank_speed = x.crank_speed;
  fuel_rate = x.fuel_rate;
}

unfoldable pub copy_position : Fixed.PositionInfo → PositionInfo
copy_position x = record { longitude = x.longitude; latitude = x.latitude }

unfoldable pub copy_extreme : Fixed.ExtremeInfo → ExtremeInfo
copy_extreme x = record {
  max_battery_voltage = x.max_battery_voltage;
  max_battery_voltage_code = x.max_battery_voltage_code;
  min_battery_voltage = x.min_battery_voltage;
  min_battery_voltage_code = x.min_battery_voltage_code;
  max_temp = x.max_temp;
  max_temp_code = x.max_temp_code;
  min_temp = x.min_temp;
  min_temp_code = x.min_temp_code;
}

unfoldable pub copy_alarm : Counted.AlarmInfo → AlarmInfo
copy_alarm x = record {
  max_level = x.max_level;
  alarm_byte_len = x.alarm_byte_len;
  alarm_bytes = x.alarm_bytes;
}

unfoldable pub copy_cell : Subsystems.CellVoltage → CellVoltage
copy_cell x = record {
  cell_no = x.cell_no;
  cell_info = record { voltage = x.cell_info.voltage; temp = x.cell_info.temp };
}

unfoldable pub copy_subsystem : Subsystems.SubsystemVoltage → SubsystemVoltage
unfolding copy_cell
copy_subsystem x = record {
  subsys_no = x.subsys_no;
  voltage = x.voltage;
  current = x.current;
  cell_count = x.cell_count;
  cells = map copy_cell x.cells;
}

unfoldable pub copy_voltage : Subsystems.VoltageInfo → VoltageInfo
unfolding copy_subsystem
copy_voltage x = record {
  subsys_count = x.subsys_count;
  subsystem_voltages = map copy_subsystem x.subsystem_voltages;
}

-- Motors are appended, everything else is replaced; temperatures and unknown fields are dropped.
unfoldable pub store : RealtimeMessage → Decoded → RealtimeMessage
store msg (vehicle_of v) = record msg { vehicle_data = some (copy_vehicle v) }
store msg (motors_of ms) = record msg { motor_data = msg.motor_data ++ map copy_motor ms }
store msg (fuel_cell_of f) = record msg { fuel_cell_data = some (copy_fuel_cell f) }
store msg (engine_of e) = record msg { engine_data = some (copy_engine e) }
store msg (position_of p) = record msg { position_data = some (copy_position p) }
store msg (extreme_of e) = record msg { extreme_data = some (copy_extreme e) }
store msg (alarm_of a) = record msg { alarm_data = some (copy_alarm a) }
store msg (voltage_of v) = record msg { voltage_data = some (copy_voltage v) }
store msg (temperature_of t) = msg
store msg (raw bs) = msg

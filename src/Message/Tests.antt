-- ===== src/Message/Tests.antt =====
-- Messages on bytes.
use gb32960_go_sdk.Base.{
  ok, map, ℕ, ◌≡◌, refl, List, [], ◌∷◌, ◌++◌, none, some, replicate, Returns, Satisfies, arith,
}
use gb32960_go_sdk.GoTime.{Time, date, settle, roll, days_in, is_leap}
use gb32960_go_sdk.Time6.{decode_time6, parse_bcd_time6}
use gb32960_go_sdk.Codec.{vehicle, motor, voltage, field_id, has_decoder}
use gb32960_go_sdk.Message.Fields.{no_more, one_more, vehicle_field, motor_field, voltage_field}
use gb32960_go_sdk.Message.Cut.{Field, AllKnown, join, put_all, decode_realtime_data-join}
use gb32960_go_sdk.Decoder.{bcd}
use gb32960_go_sdk.Codec.{
  vehicle_of, motors_of, fuel_cell_of, engine_of, position_of, extreme_of, alarm_of, voltage_of,
}
use gb32960_go_sdk.Codec.Fixed
use gb32960_go_sdk.Codec.Counted
use gb32960_go_sdk.Codec.Subsystems
use gb32960_go_sdk.Packet.Fields.{
  VehicleBaseInfo, MotorInfo, FuelCellInfo, EngineInfo, PositionInfo, ExtremeInfo, AlarmInfo,
}
use gb32960_go_sdk.Message.Store.{
  store, copy_vehicle, copy_motor, copy_fuel_cell, copy_engine, copy_position, copy_extreme,
  copy_alarm, copy_cell, copy_subsystem, copy_voltage,
}
use gb32960_go_sdk.Message.{no_fields, decode_realtime_data, decode_reissue_data}
use gb32960_go_sdk.Codec.{Decoded, decode_field}
use gb32960_go_sdk.Message.Accept.{decode_field-IsField}
use gb32960_go_sdk.Message.Safe.{decode_realtime_data-Returns}
use gb32960_go_sdk.Message.Reissue.{
  Item, AllItems, put_items, message, decode_reissue_data-put_items,
}
use gb32960_go_sdk.Message.AlarmLoss.{decode_realtime_data_no_alarm}

-- A time, and an alarm field of level 1 with two bytes.
abbrev alarm_rest : List ℕ
alarm_rest = 0x29 ∷ 0x12 ∷ 0 ∷ 0 ∷ 7 ∷ 1 ∷ 0 ∷ 0 ∷ 0 ∷ 2 ∷ 8 ∷ 9 ∷ []

abbrev two_cells : Subsystems.VoltageInfo
two_cells = record {
  subsys_count = 1;
  subsystem_voltages =
      record {
        subsys_no = 1;
        voltage = 3500;
        current = 10000;
        cell_count = 1;
        cells = record { cell_no = 1; cell_info = record { voltage = 3300; temp = 0 } } ∷ [];
      }
      ∷ [];
}

-- A voltage field is copied with its cells.
voltage_stored :
    (t : Time)
    → (store (no_fields t) (voltage_of two_cells)).voltage_data
      ≡ some (record {
        subsys_count = 1;
        subsystem_voltages =
            record {
              subsys_no = 1;
              voltage = 3500;
              current = 10000;
              cell_count = 1;
              cells = record { cell_no = 1; cell_info = record { voltage = 3300; temp = 0 } } ∷ [];
            }
            ∷ [];
      })
unfolding store copy_voltage copy_subsystem copy_cell
voltage_stored t = refl

-- Every other field is copied from its own record.
vehicle_stored :
    (t : Time) (v : Fixed.VehicleBaseInfo) (f : Counted.FuelCellInfo) (m : Counted.MotorInfo)
    (e : Fixed.EngineInfo) (p : Fixed.PositionInfo) (x : Fixed.ExtremeInfo) (a : Counted.AlarmInfo)
    → ((v' : VehicleBaseInfo) × ((store (no_fields t) (vehicle_of v)).vehicle_data ≡ some v')
        × (v'.soc ≡ v.soc))
      × ((f' : FuelCellInfo) × ((store (no_fields t) (fuel_cell_of f)).fuel_cell_data ≡ some f')
          × (f'.dcdc_status ≡ f.dcdc_status))
      × ((m' : MotorInfo) × ((store (no_fields t) (motors_of (m ∷ []))).motor_data ≡ m' ∷ [])
          × (m'.motor_current ≡ m.motor_current))
      × ((e' : EngineInfo) × ((store (no_fields t) (engine_of e)).engine_data ≡ some e')
          × (e'.fuel_rate ≡ e.fuel_rate))
      × ((p' : PositionInfo) × ((store (no_fields t) (position_of p)).position_data ≡ some p')
          × (p'.latitude ≡ p.latitude))
      × ((x' : ExtremeInfo) × ((store (no_fields t) (extreme_of x)).extreme_data ≡ some x')
          × (x'.min_temp ≡ x.min_temp))
      × ((a' : AlarmInfo) × ((store (no_fields t) (alarm_of a)).alarm_data ≡ some a')
          × (a'.max_level ≡ a.max_level))
unfolding store copy_vehicle copy_fuel_cell copy_motor copy_engine copy_position copy_extreme
    copy_alarm
vehicle_stored t v f m e p x a = (
  (_, refl, refl),
  (_, refl, refl),
  (_, refl, refl),
  (_, refl, refl),
  (_, refl, refl),
  (_, refl, refl),
  (_, refl, refl),
)

decode_realtime_data_no_alarm_example :
    Satisfies (λ msg. msg.alarm_data ≡ none) (decode_realtime_data bcd (0x24 ∷ 2 ∷ alarm_rest))
decode_realtime_data_no_alarm_example =
    decode_realtime_data_no_alarm bcd 0x24 2 alarm_rest (omega arith) (omega arith)

decode_realtime_data-Returns_example : Returns (decode_realtime_data bcd (0x24 ∷ 2 ∷ alarm_rest))
decode_realtime_data-Returns_example = decode_realtime_data-Returns bcd (0x24 ∷ 2 ∷ alarm_rest)

abbrev noon : Time
noon = record { year = 2024; month = 2; day = 29; hour = 12; minute = 0; second = 7 }

abbrev noon_bytes : List ℕ
noon_bytes = 0x24 ∷ 2 ∷ 0x29 ∷ 0x12 ∷ 0 ∷ 7 ∷ []

noon_decoded : decode_time6 bcd noon_bytes ≡ ok noon
unfolding decode_time6 parse_bcd_time6 date settle roll days_in is_leap
noon_decoded = refl

-- One subsystem with two cells.
abbrev cells_body : List ℕ
cells_body = (1 ∷ 2 ∷ 3 ∷ 4 ∷ 5 ∷ []) ++ (0 ∷ 2 ∷ ((1 ∷ 2 ∷ 3 ∷ 4 ∷ 5 ∷ 6 ∷ []) ++ []))

abbrev three_fields : List Field
three_fields =
    record { id = 1; body = replicate 20 3 }
    ∷ record { id = 2; body = 1 ∷ replicate 12 5 }
    ∷ record { id = 8; body = 0 ∷ 1 ∷ cells_body }
    ∷ []

three_known : AllKnown three_fields
unfolding field_id
three_known = (
  (vehicle, refl, vehicle_field (replicate 20 3) refl),
  (
    (motor, refl, motor_field 1 (replicate 12 5) refl),
    (
      (
        voltage,
        refl,
        voltage_field 0 1 cells_body (
            one_more 0 0 2 (1 ∷ 2 ∷ 3 ∷ 4 ∷ 5 ∷ []) (1 ∷ 2 ∷ 3 ∷ 4 ∷ 5 ∷ 6 ∷ []) [] refl refl
              no_more),
      ),
      tt,
    ),
  ),
)

decode_realtime_data-join_example :
    decode_realtime_data bcd (noon_bytes ++ join three_fields)
    ≡ ok (put_all (no_fields noon) three_fields)
decode_realtime_data-join_example =
    decode_realtime_data-join bcd noon_bytes noon three_fields refl noon_decoded three_known

abbrev two_items : List Item
two_items =
    record { time6 = noon_bytes; time = noon; fields = three_fields }
    ∷ record { time6 = noon_bytes; time = noon; fields = [] }
    ∷ []

two_items_known : AllItems bcd two_items
unfolding has_decoder field_id
two_items_known = (
  record { six = refl; decoded = noon_decoded; known = three_known },
  refl,
  (record { six = refl; decoded = noon_decoded; known = tt }, tt, tt),
)

decode_reissue_data-put_items_example :
    decode_reissue_data bcd (noon_bytes ++ (0 ∷ 2 ∷ put_items two_items))
    ≡ ok (record { info_time = noon; data_items = map message two_items })
decode_reissue_data-put_items_example =
    decode_reissue_data-put_items bcd noon_bytes noon two_items refl noon_decoded (omega arith)
      two_items_known

two_cells_known : field_id 8 ≡ some voltage
unfolding field_id
two_cells_known = refl

decode_field-IsField_example : (x : Decoded) × (decode_field 8 (0 ∷ 1 ∷ cells_body) ≡ ok x)
decode_field-IsField_example = decode_field-IsField 8 voltage (0 ∷ 1 ∷ cells_body) two_cells_known (
    voltage_field 0 1 cells_body
      (one_more 0 0 2 (1 ∷ 2 ∷ 3 ∷ 4 ∷ 5 ∷ []) (1 ∷ 2 ∷ 3 ∷ 4 ∷ 5 ∷ 6 ∷ []) [] refl refl no_more))

-- ===== src/Client/Readings.antt =====
-- What the server reads in the realtime messages of the simulated terminal.
use gb32960_go_sdk.Base.{ℕ, ◌+◌, ◌*◌, ◌%◌, ◌≡◌, refl, ◌∙◌, List, [], ◌∷◌, some, ok, arith}
use gb32960_go_sdk.GoTime.{date}
use gb32960_go_sdk.Decoder.{bcd}
use gb32960_go_sdk.Time6.{decode_time6, parse_bcd_time6, from_bcd}
use gb32960_go_sdk.Codec.{
  field_id, vehicle, position, extreme, decode_field, decode_known, vehicle_of, position_of,
  extreme_of,
}
use gb32960_go_sdk.Codec.Fixed
use gb32960_go_sdk.Codec.Encode.{
  put_vehicle, put_position, put_extreme, decode_vehicle_data-put_vehicle,
  decode_position_data-put_position, decode_extreme_data-put_extreme,
}
use gb32960_go_sdk.Packet.Fields.{RealtimeMessage}
use gb32960_go_sdk.Message.{decode_realtime_data, no_fields}
use gb32960_go_sdk.Message.Store.{store, copy_vehicle, copy_position, copy_extreme}
use gb32960_go_sdk.Message.Fields.{vehicle_field, position_field, extreme_field}
use gb32960_go_sdk.Message.Cut.{Field, decode_realtime_data-join}
use gb32960_go_sdk.Client.Simulator.{build_realtime_data}

-- The values that the terminal means to send.
abbrev sent_vehicle : ℕ → Fixed.VehicleBaseInfo
sent_vehicle seq = record {
  vehicle_status = 1;
  charging_status = 1;
  run_mode = 1;
  speed = (400 + seq * 50) % 65536;
  odometer = (123450 + seq * 100) % 4294967296;
  total_voltage = (380 + seq) % 65536;
  total_current = (200 + seq * 10) % 65536;
  soc = (80 + seq) % 256;
  dc_status = 1;
  gear = 3;
  insulation_res = 9999;
  reserved = 0;
}

abbrev sent_position : ℕ → Fixed.PositionInfo
sent_position seq = record {
  longitude = (121473708 + seq * 1000 % 4294967296) % 4294967296;
  latitude = (31235538 + seq * 500 % 4294967296) % 4294967296;
}

abbrev sent_extreme : ℕ → Fixed.ExtremeInfo
sent_extreme seq = record {
  max_battery_voltage = (4100 + seq * 10 % 65536) % 65536;
  max_battery_voltage_code = 5;
  min_battery_voltage = 3700;
  min_battery_voltage_code = 16;
  max_temp = (40 + seq) % 256;
  max_temp_code = 3;
  min_temp = 15;
  min_temp_code = 31;
}

-- The message with these values. The seconds are a plain number that is read as a binary coded decimal.
abbrev pub readings : ℕ → RealtimeMessage
readings seq = record (no_fields (date 2026 5 14 14 30 (from_bcd (seq * 10 % 256)))) {
  vehicle_data = some (copy_vehicle (sent_vehicle seq));
  position_data = some (copy_position (sent_position seq));
  extreme_data = some (copy_extreme (sent_extreme seq));
}

decode_vehicle_field :
    (seq : ℕ)
    → decode_field 0x01 (put_vehicle (sent_vehicle seq)) ≡ ok (vehicle_of (sent_vehicle seq))
unfolding decode_field decode_known field_id
decode_vehicle_field seq =
    rw
      (decode_vehicle_data-put_vehicle (sent_vehicle seq) (record {
        speed_fits = omega arith;
        odometer_fits = omega arith;
        voltage_fits = omega arith;
        current_fits = omega arith;
        insulation_fits = omega arith;
        reserved_fits = omega arith;
      }))
      refl

decode_position_field :
    (seq : ℕ)
    → decode_field 0x05 (put_position (sent_position seq)) ≡ ok (position_of (sent_position seq))
unfolding decode_field decode_known field_id
decode_position_field seq =
    rw (decode_position_data-put_position (sent_position seq) (omega arith) (omega arith)) refl

decode_extreme_field :
    (seq : ℕ)
    → decode_field 0x06 (put_extreme (sent_extreme seq)) ≡ ok (extreme_of (sent_extreme seq))
unfolding decode_field decode_known field_id
decode_extreme_field seq =
    rw (decode_extreme_data-put_extreme (sent_extreme seq) (omega arith) (omega arith)) refl

abbrev fields : ℕ → List Field
fields seq =
    record { id = 0x01; body = put_vehicle (sent_vehicle seq) }
    ∷ record { id = 0x05; body = put_position (sent_position seq) }
    ∷ record { id = 0x06; body = put_extreme (sent_extreme seq) }
    ∷ []

-- Every realtime message of the simulated terminal, whatever its number, is decoded without an error
-- to the values that the terminal has put in: vehicle data, position and extreme values, each at its
-- place and narrowed to the width of its field, and no other field.
pub decode_realtime_data-build_realtime_data :
    (seq : ℕ) → decode_realtime_data bcd (build_realtime_data seq) ≡ ok (readings seq)
unfolding decode_time6 parse_bcd_time6 field_id store
decode_realtime_data-build_realtime_data seq =
    let t6 : List ℕ = 0x26 ∷ 0x05 ∷ 0x0e ∷ 0x0e ∷ 0x30 ∷ seq * 10 % 256 ∷ [] in
    decode_realtime_data-join bcd t6 (date 2026 5 14 14 30 (from_bcd (seq * 10 % 256))) (fields seq)
      refl refl
      (
        (vehicle, refl, vehicle_field _ refl),
        ((position, refl, position_field _ refl), ((extreme, refl, extreme_field _ refl), tt)),
      )
    ∙ rw (decode_vehicle_field seq, decode_position_field seq, decode_extreme_field seq) refl

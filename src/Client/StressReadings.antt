-- ===== src/Client/StressReadings.antt =====
-- What the server reads in the realtime messages of the stress test.
use gb32960_go_sdk.Base.{ℕ, ◌+◌, ◌*◌, ◌%◌, ◌≡◌, refl, ◌∙◌, List, [], ◌∷◌, some, ok, arith}
use gb32960_go_sdk.GoTime.{date}
use gb32960_go_sdk.Decoder.{bcd}
use gb32960_go_sdk.Time6.{decode_time6, parse_bcd_time6, from_bcd}
use gb32960_go_sdk.Codec.{
  field_id, vehicle, position, decode_field, decode_known, vehicle_of, position_of,
}
use gb32960_go_sdk.Codec.Fixed
use gb32960_go_sdk.Codec.Encode.{
  put_vehicle, put_position, decode_vehicle_data-put_vehicle, decode_position_data-put_position,
}
use gb32960_go_sdk.Packet.Fields.{RealtimeMessage}
use gb32960_go_sdk.Message.{decode_realtime_data, no_fields}
use gb32960_go_sdk.Message.Store.{store, copy_vehicle, copy_position}
use gb32960_go_sdk.Message.Fields.{vehicle_field, position_field}
use gb32960_go_sdk.Message.Cut.{Field, decode_realtime_data-join}
use gb32960_go_sdk.Client.Stress.{build_realtime}

abbrev sent_vehicle : ℕ → Fixed.VehicleBaseInfo
sent_vehicle seq = record {
  vehicle_status = 1;
  charging_status = 1;
  run_mode = 1;
  speed = (400 + seq * 50) % 65536;
  odometer = (123450 + seq * 100) % 4294967296;
  total_voltage = 380;
  total_current = 200;
  soc = 85;
  dc_status = 0;
  gear = 0;
  insulation_res = 0;
  reserved = 0;
}

abbrev sent_position : Fixed.PositionInfo
sent_position = record { longitude = 121473708; latitude = 31235538 }

abbrev pub client_readings : ℕ → RealtimeMessage
client_readings seq = record (no_fields (date 2026 5 14 14 30 (from_bcd (seq * 10 % 256)))) {
  vehicle_data = some (copy_vehicle (sent_vehicle seq));
  position_data = some (copy_position sent_position);
}

decode_vehicle_field :
    (seq : ℕ)
    → decode_field 0x01 (put_vehicle (sent_vehicle seq)) ≡ ok (vehicle_of (sent_vehicle seq))
unfolding decode_field decode_known field_id
decode_vehicle_field seq =
    rw
      (decode_vehicle_data-put_vehicle (sent_vehicle seq) (record {
        speed_fits = omega arith;
        odometer_fits = omega arith;
        voltage_fits = omega arith;
        current_fits = omega arith;
        insulation_fits = omega arith;
        reserved_fits = omega arith;
      }))
      refl

decode_position_field :
    decode_field 0x05 (put_position sent_position) ≡ ok (position_of sent_position)
unfolding decode_field decode_known field_id
decode_position_field =
    rw (decode_position_data-put_position sent_position (omega arith) (omega arith)) refl

abbrev fields : ℕ → List Field
fields seq =
    record { id = 0x01; body = put_vehicle (sent_vehicle seq) }
    ∷ record { id = 0x05; body = put_position sent_position }
    ∷ []

pub decode_realtime_data-build_realtime :
    (seq : ℕ) → decode_realtime_data bcd (build_realtime seq) ≡ ok (client_readings seq)
unfolding decode_time6 parse_bcd_time6 field_id store
decode_realtime_data-build_realtime seq =
    let t6 : List ℕ = 0x26 ∷ 0x05 ∷ 0x0e ∷ 0x0e ∷ 0x30 ∷ seq * 10 % 256 ∷ [] in
    decode_realtime_data-join bcd t6 (date 2026 5 14 14 30 (from_bcd (seq * 10 % 256))) (fields seq)
      refl refl
      ((vehicle, refl, vehicle_field _ refl), ((position, refl, position_field _ refl), tt))
    ∙ rw (decode_vehicle_field seq, decode_position_field) refl

-- ===== src/Codec/Encode.antt =====
-- Reference encoders of the fields of a fixed length: the bytes of a field, as the standard lays them
-- out, and that the decoders of codec/ read them back.
use gb32960_go_sdk.Base.{
  ℕ, ◌+◌, ◌*◌, ◌/◌, ◌%◌, ◌<◌, ◌≡◌, refl, List, [], ◌∷◌, ◌++◌, arith, ok, index, slice, uint16_at,
  uint32_at, be_uint16, be_uint32, put_uint16, put_uint32,
}
use gb32960_go_sdk.Codec.Fixed.{
  VehicleBaseInfo, EngineInfo, PositionInfo, ExtremeInfo, read_vehicle, decode_vehicle_data,
  read_engine, decode_engine_data, read_position, decode_position_data, read_extreme,
  decode_extreme_data,
}

abbrev pub put_vehicle : VehicleBaseInfo → List ℕ
put_vehicle v =
    v.vehicle_status
    ∷ v.charging_status
    ∷ v.run_mode
    ∷ (put_uint16 v.speed
        ++ (put_uint32 v.odometer
            ++ (put_uint16 v.total_voltage
                ++ (put_uint16 v.total_current
                    ++ (v.soc
                        ∷ v.dc_status
                        ∷ v.gear
                        ∷ (put_uint16 v.insulation_res ++ put_uint16 v.reserved))))))

-- The fields of two and four bytes fit.
pub record VehicleFits (v : VehicleBaseInfo) : Type 0 where
  pub speed_fits : v.speed < 65536
  pub odometer_fits : v.odometer < 4294967296
  pub voltage_fits : v.total_voltage < 65536
  pub current_fits : v.total_current < 65536
  pub insulation_fits : v.insulation_res < 65536
  pub reserved_fits : v.reserved < 65536

abbrev pub put_position : PositionInfo → List ℕ
put_position p = put_uint32 p.longitude ++ put_uint32 p.latitude

abbrev pub put_extreme : ExtremeInfo → List ℕ
put_extreme e =
    put_uint16 e.max_battery_voltage
    ++ (e.max_battery_voltage_code
        ∷ (put_uint16 e.min_battery_voltage
            ++ (e.min_battery_voltage_code ∷ e.max_temp ∷ e.max_temp_code ∷ e.min_temp
                ∷ e.min_temp_code ∷ [])))

abbrev pub put_engine : EngineInfo → List ℕ
put_engine e = e.engine_status ∷ (put_uint16 e.crank_speed ++ put_uint16 e.fuel_rate)

word_of_bytes : (v : ℕ) → v < 65536 → v / 256 % 256 * 256 + v % 256 ≡ v
word_of_bytes v h = omega arith

long_of_bytes :
    (v : ℕ)
    → v < 4294967296
    → ((v / 16777216 % 256 * 256 + v / 65536 % 256) * 256 + v / 256 % 256) * 256 + v % 256 ≡ v
long_of_bytes v h = omega arith

-- The decoder of vehicle data reads every value back that its field can hold.
pub decode_vehicle_data-put_vehicle :
    (v : VehicleBaseInfo) → VehicleFits v → decode_vehicle_data (put_vehicle v) ≡ ok v
unfolding decode_vehicle_data read_vehicle index uint16_at uint32_at slice be_uint16 be_uint32
decode_vehicle_data-put_vehicle v f =
    rw
      (
        word_of_bytes v.speed f.speed_fits,
        long_of_bytes v.odometer f.odometer_fits,
        word_of_bytes v.total_voltage f.voltage_fits,
        word_of_bytes v.total_current f.current_fits,
        word_of_bytes v.insulation_res f.insulation_fits,
        word_of_bytes v.reserved f.reserved_fits,
      )
      refl

pub decode_position_data-put_position :
    (p : PositionInfo)
    → p.longitude < 4294967296
    → p.latitude < 4294967296
    → decode_position_data (put_position p) ≡ ok p
unfolding decode_position_data read_position uint32_at slice be_uint32
decode_position_data-put_position p h k =
    rw (long_of_bytes p.longitude h, long_of_bytes p.latitude k) refl

pub decode_extreme_data-put_extreme :
    (e : ExtremeInfo)
    → e.max_battery_voltage < 65536
    → e.min_battery_voltage < 65536
    → decode_extreme_data (put_extreme e) ≡ ok e
unfolding decode_extreme_data read_extreme index uint16_at slice be_uint16
decode_extreme_data-put_extreme e h k =
    rw (word_of_bytes e.max_battery_voltage h, word_of_bytes e.min_battery_voltage k) refl

pub decode_engine_data-put_engine :
    (e : EngineInfo)
    → e.crank_speed < 65536
    → e.fuel_rate < 65536
    → decode_engine_data (put_engine e) ≡ ok e
unfolding decode_engine_data read_engine index uint16_at slice be_uint16
decode_engine_data-put_engine e h k =
    rw (word_of_bytes e.crank_speed h, word_of_bytes e.fuel_rate k) refl

-- ===== src/Time6/Tests.antt =====
-- Times of six bytes.
use gb32960_go_sdk.Base.{◌≡◌, refl, [], ◌∷◌, ok, arith}
use gb32960_go_sdk.GoTime.{Time, IsCalendar, days_in, is_leap}
use gb32960_go_sdk.Decoder.{bcd, binary}
use gb32960_go_sdk.Time6.{
  decode_time6, encode_bcd_time, encode_binary_time6, bcd_byte, bcd_byte_negative,
}
use gb32960_go_sdk.Time6.RoundTrip.{decode_time6-encode_bcd_time, decode_time6-encode_binary_time6}

abbrev leap_day : Time
leap_day = record { year = 2024; month = 2; day = 29; hour = 23; minute = 59; second = 58 }

leap_day-IsCalendar : IsCalendar leap_day
unfolding days_in is_leap
leap_day-IsCalendar = record {
  month_low = omega arith;
  month_high = omega arith;
  day_low = omega arith;
  day_high = omega arith;
  hour_high = omega arith;
  minute_high = omega arith;
  second_high = omega arith;
}

encoded : encode_bcd_time leap_day ≡ 0x24 ∷ 0x02 ∷ 0x29 ∷ 0x23 ∷ 0x59 ∷ 0x58 ∷ []
unfolding encode_bcd_time bcd_byte
encoded = refl

-- The byte of -11: -1 shifted by four bits, with the bits of -1.
minus_eleven : bcd_byte_negative 11 ≡ 0xff
unfolding bcd_byte_negative
minus_eleven = refl

decode_time6-encode_bcd_time_example : decode_time6 bcd (encode_bcd_time leap_day) ≡ ok leap_day
decode_time6-encode_bcd_time_example =
    decode_time6-encode_bcd_time leap_day leap_day-IsCalendar (omega arith) (omega arith)

decode_time6-encode_binary_time6_example :
    decode_time6 binary (encode_binary_time6 leap_day) ≡ ok leap_day
decode_time6-encode_binary_time6_example =
    decode_time6-encode_binary_time6 leap_day leap_day-IsCalendar (omega arith) (omega arith)

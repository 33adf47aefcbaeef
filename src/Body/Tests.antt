-- ===== src/Body/Tests.antt =====
-- Bodies of packets, encoded and decoded.
use gb32960_go_sdk.Base.{◌≡◌, refl, [], ◌∷◌, ◌++◌, Returns, arith}
use gb32960_go_sdk.GoTime.{Time, days_in, is_leap}
use gb32960_go_sdk.Decoder.{bcd}
use gb32960_go_sdk.Time6.{encode_bcd_time}
use gb32960_go_sdk.Body.{
  encode_login_response, decode_login_data, decode_logout_data, decode_plat_login_response,
  decode_plat_logout_response, decode_param_query_data, decode_param_setting_data,
  param_query_response_body,
}
use gb32960_go_sdk.Body.RoundTrip.{IsSendable}
use gb32960_go_sdk.Body.Safe.{body_decoders-Returns}

abbrev noon : Time
noon = record { year = 2024; month = 2; day = 29; hour = 12; minute = 0; second = 0 }

noon-IsSendable : IsSendable noon
unfolding days_in is_leap
noon-IsSendable = record {
  calendar = record {
    month_low = omega arith;
    month_high = omega arith;
    day_low = omega arith;
    day_high = omega arith;
    hour_high = omega arith;
    minute_high = omega arith;
    second_high = omega arith;
  };
  from_2000 = omega arith;
  to_2159 = omega arith;
}

login_answer :
    encode_login_response (record { login_time = noon; sequence = 258; result = 1; token = 7 ∷ [] })
    ≡ encode_bcd_time noon ++ (1 ∷ 2 ∷ 1 ∷ 7 ∷ [])
unfolding encode_login_response
login_answer = refl

-- The answer to a parameter query carries no time.
query_answer :
    param_query_response_body
      (record { count = 1; params = record { id = 258; value = 9 ∷ [] } ∷ [] })
    ≡ 1 ∷ 0 ∷ 0 ∷ 1 ∷ 2 ∷ 1 ∷ 9 ∷ []
unfolding param_query_response_body
query_answer = refl

body_decoders-Returns_example :
    Returns (decode_login_data bcd (1 ∷ 2 ∷ []))
    × Returns (decode_logout_data bcd (1 ∷ 2 ∷ []))
    × Returns (decode_plat_login_response bcd (1 ∷ 2 ∷ []))
    × Returns (decode_plat_logout_response bcd (1 ∷ 2 ∷ []))
    × Returns (decode_param_query_data bcd (1 ∷ 2 ∷ []))
    × Returns (decode_param_setting_data bcd (1 ∷ 2 ∷ []))
body_decoders-Returns_example = body_decoders-Returns bcd (1 ∷ 2 ∷ [])

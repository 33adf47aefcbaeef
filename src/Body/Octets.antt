-- ===== src/Body/Octets.antt =====
-- The bodies that the Send methods build are bytes, and how many.
use gb32960_go_sdk.Base.{
  ℕ, ◌+◌, ◌-◌, ◌*◌, ◌%◌, ◌≡◌, refl, List, [], ◌∷◌, ◌++◌, length, All, All-append, IsByte, le→ltb,
  length-append, put_uint32, arith,
}
use gb32960_go_sdk.GoTime.{Time, days_in_bounds}
use gb32960_go_sdk.Packet.Bodies.{ParamItem}
use gb32960_go_sdk.Time6.{encode_bcd_time}
use gb32960_go_sdk.Time6.RoundTrip.{bcd_byte-IsByte}
use gb32960_go_sdk.Body.{
  encode_param_string, plat_login_body, plat_logout_body, put_ids, param_query_body, put_params,
  param_setting_body,
}
use gb32960_go_sdk.Body.RoundTrip.{IsSendable, length-encode_bcd_time}

encode_bcd_time-octets : (t : Time) → IsSendable t → All IsByte (encode_bcd_time t)
unfolding encode_bcd_time
encode_bcd_time-octets t s =
    let days = days_in_bounds t.year t.month in
    let v = s.calendar in
    rw (le→ltb t.year 2000 s.from_2000) (
      bcd_byte-IsByte (t.year - 2000) (omega (arith, s.to_2159)),
      (
        bcd_byte-IsByte t.month (omega (arith, s.calendar)),
        (
          bcd_byte-IsByte t.day (omega (arith, s.calendar)),
          (
            bcd_byte-IsByte t.hour (omega (arith, s.calendar)),
            (
              bcd_byte-IsByte t.minute (omega (arith, s.calendar)),
              (bcd_byte-IsByte t.second (omega (arith, s.calendar)), tt),
            ),
          ),
        ),
      ),
    )

put_uint32-octets : (v : ℕ) → All IsByte (put_uint32 v)
put_uint32-octets v = (omega arith, (omega arith, (omega arith, (omega arith, tt))))

encode_param_string-octets : (s : List ℕ) → All IsByte s → All IsByte (encode_param_string s)
unfolding encode_param_string
encode_param_string-octets s h = (omega arith, h)

put_ids-octets : (ids : List ℕ) → All IsByte (put_ids ids)
put_ids-octets [] = tt
put_ids-octets (id ∷ ids) =
    All-append IsByte (put_uint32 id) (put_ids ids) (put_uint32-octets id) (put_ids-octets ids)

abbrev pub HasOctets : ParamItem → Type 0
HasOctets p = All IsByte p.value

put_params-octets : (ps : List ParamItem) → All HasOctets ps → All IsByte (put_params ps)
put_params-octets [] h = tt
put_params-octets (p ∷ ps) h =
    All-append IsByte (put_uint32 p.id) ((length p.value % 256) ∷ (p.value ++ put_params ps))
      (put_uint32-octets p.id)
      (omega arith, All-append IsByte p.value (put_params ps) h.0 (put_params-octets ps h.1))

length-put_ids : (ids : List ℕ) → length (put_ids ids) ≡ 4 * length ids
length-put_ids [] = refl
length-put_ids (id ∷ ids) = omega (arith, length-put_ids ids)

pub plat_login_body-octets :
    (t : Time) (username password : List ℕ)
    → IsSendable t
    → All IsByte username
    → All IsByte password
    → All IsByte (plat_login_body t username password)
unfolding plat_login_body
plat_login_body-octets t username password s hu hp =
    All-append IsByte (encode_bcd_time t) _ (encode_bcd_time-octets t s) (
      omega arith,
      (
        omega arith,
        All-append IsByte (encode_param_string username) (encode_param_string password)
            (encode_param_string-octets username hu) (encode_param_string-octets password hp),
      ),
    )

pub length-plat_login_body :
    (t : Time) (username password : List ℕ)
    → length (plat_login_body t username password) ≡ 10 + length username + length password
unfolding plat_login_body encode_param_string
length-plat_login_body t username password = omega (
  arith,
  length-append (encode_bcd_time t)
      (0 ∷ 0 ∷ (encode_param_string username ++ encode_param_string password)),
  length-encode_bcd_time t,
  length-append username (encode_param_string password),
)

pub plat_logout_body-octets : (t : Time) → IsSendable t → All IsByte (plat_logout_body t)
unfolding plat_logout_body
plat_logout_body-octets t s =
    All-append IsByte (encode_bcd_time t) (0 ∷ 0 ∷ []) (encode_bcd_time-octets t s)
      (omega arith, (omega arith, tt))

pub length-plat_logout_body : (t : Time) → length (plat_logout_body t) ≡ 8
unfolding plat_logout_body
length-plat_logout_body t =
    omega (arith, length-append (encode_bcd_time t) (0 ∷ 0 ∷ []), length-encode_bcd_time t)

pub param_query_body-octets :
    (t : Time) (ids : List ℕ) → IsSendable t → All IsByte (param_query_body t ids)
unfolding param_query_body
param_query_body-octets t ids s =
    All-append IsByte (encode_bcd_time t) ((length ids % 256) ∷ put_ids ids)
      (encode_bcd_time-octets t s) (omega arith, put_ids-octets ids)

pub length-param_query_body :
    (t : Time) (ids : List ℕ) → length (param_query_body t ids) ≡ 7 + 4 * length ids
unfolding param_query_body
length-param_query_body t ids = omega (
  arith,
  length-append (encode_bcd_time t) ((length ids % 256) ∷ put_ids ids),
  length-encode_bcd_time t,
  length-put_ids ids,
)

pub param_setting_body-octets :
    (t : Time) (ps : List ParamItem)
    → IsSendable t
    → All HasOctets ps
    → All IsByte (param_setting_body t ps)
unfolding param_setting_body
param_setting_body-octets t ps s h =
    All-append IsByte (encode_bcd_time t) ((length ps % 256) ∷ put_params ps)
      (encode_bcd_time-octets t s) (omega arith, put_params-octets ps h)

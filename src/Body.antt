-- ===== src/Body.antt =====
-- decoder.go, the bodies of login, logout and parameter messages, and conn.go, the bodies that the
-- `Send` methods write. The times that are sent are arguments.
mod Tests
pub mod Safe
pub mod RoundTrip
pub mod Octets
use gb32960_go_sdk.Base.{
  ℕ, zero, suc, ◌+◌, ◌%◌, List, [], ◌∷◌, ◌++◌, Bool, true, false, not, ltb, if◌then◌else◌, length,
  take, Result, ok, err, ◌>>=◌, too_short, exceeds, index, slice, uint16_at, uint32_at, put_uint16,
  put_uint32, drop,
}
use gb32960_go_sdk.GoTime.{Time}
use gb32960_go_sdk.Decoder.{TimeCodec}
use gb32960_go_sdk.Time6.{decode_time6, encode_bcd_time}
use gb32960_go_sdk.Packet.Bodies.{
  ConfigField, VehicleLoginData, VehicleLogoutData, LoginResponse, PlatformLoginData,
  PlatformLogoutData, ParamQueryData, ParamItem, ParamQueryResponse, ParamSettingData,
}

-- `d.decodeTime6(data[0:6])`
unfoldable pub time_at_start : TimeCodec → List ℕ → Result Time
time_at_start tc input = do t6 ← slice input 0 6; decode_time6 tc t6

-- The configuration fields from `pos` on, of which `n` are announced still.
unfoldable pub configs_from : ℕ → List ℕ → ℕ → Result (List ConfigField)
configs_from zero input pos = ok []
configs_from (suc n) input pos = if ltb (length input) (pos + 2) then ok [] else do
  id ← index input pos
  len ← index input (pos + 1)
  if ltb (length input) (pos + 2 + len) then ok [] else do
    value ← slice input (pos + 2) (pos + 2 + len)
    rest ← configs_from n input (pos + 2 + len)
    ok (record { id = id; length = len; value = value } ∷ rest)

-- The count and the fields, if there are bytes behind the ICCID.
unfoldable pub read_configs : List ℕ → ℕ → Result (ℕ × List ConfigField)
read_configs input pos = if not (ltb pos (length input)) then ok (0, []) else do
  count ← index input pos
  configs ← configs_from count input (pos + 1)
  ok (count, configs)

unfoldable pub decode_login_data : TimeCodec → List ℕ → Result VehicleLoginData
decode_login_data tc input = if ltb (length input) 9 then err (too_short (length input)) else do
  login_time ← time_at_start tc input
  seq ← uint16_at input 6
  iccid_len ← index input 8
  if ltb (length input) (9 + iccid_len) then err (exceeds (9 + iccid_len) (length input)) else do
    iccid ← slice input 9 (9 + iccid_len)
    (count, configs) ← read_configs input (9 + iccid_len)
    ok (record {
      login_time = login_time;
      sequence = seq;
      iccid = iccid;
      config_data_cnt = count;
      config_data = configs;
    })

pub encode_login_response : LoginResponse → List ℕ
encode_login_response r =
    encode_bcd_time r.login_time ++ (put_uint16 r.sequence ++ (r.result ∷ r.token))

unfoldable pub decode_logout_data : TimeCodec → List ℕ → Result VehicleLogoutData
decode_logout_data tc input = if ltb (length input) 8 then err (too_short (length input)) else do
  logout_time ← time_at_start tc input
  seq ← uint16_at input 6
  ok (record { logout_time = logout_time; sequence = seq })

-- A string with its length in one byte.
unfoldable pub encode_param_string : List ℕ → List ℕ
encode_param_string s = (length s % 256) ∷ s

-- The string, and the number of bytes it took; an incomplete string is empty and takes none.
pub decode_param_string : List ℕ → Result (List ℕ × ℕ)
decode_param_string [] = ok ([], 0)
decode_param_string (n ∷ r) =
    if ltb (length (n ∷ r)) (1 + n)
    then ok ([], 0)
    else do s ← slice (n ∷ r) 1 (1 + n); ok (s, 1 + n)

pub decode_plat_login_response : TimeCodec → List ℕ → Result PlatformLoginData
decode_plat_login_response tc input =
    if ltb (length input) 8 then err (too_short (length input)) else do
      login_time ← time_at_start tc input
      seq ← uint16_at input 6
      behind ← slice input 8 (length input)
      (username, n) ← decode_param_string behind
      last ← slice input (8 + n) (length input)
      (password, k) ← decode_param_string last
      ok (record {
        login_time = login_time;
        sequence = seq;
        username = username;
        password = password;
      })

pub decode_plat_logout_response : TimeCodec → List ℕ → Result PlatformLogoutData
decode_plat_logout_response tc input =
    if ltb (length input) 8 then err (too_short (length input)) else do
      logout_time ← time_at_start tc input
      seq ← uint16_at input 6
      ok (record { logout_time = logout_time; sequence = seq })

-- The ids from `pos` on, of which `n` are announced still.
pub ids_from : ℕ → List ℕ → ℕ → Result (List ℕ)
ids_from zero input pos = ok []
ids_from (suc n) input pos =
    if ltb (length input) (pos + 4)
    then ok []
    else do id ← uint32_at input pos; rest ← ids_from n input (pos + 4); ok (id ∷ rest)

pub decode_param_query_data : TimeCodec → List ℕ → Result ParamQueryData
decode_param_query_data tc input =
    if ltb (length input) 7 then err (too_short (length input)) else do
      query_time ← time_at_start tc input
      count ← index input 6
      ids ← ids_from count input 7
      ok (record { query_time = query_time; count = count; param_ids = ids })

-- The parameters from `pos` on, of which `n` are announced still.
pub params_from : ℕ → List ℕ → ℕ → Result (List ParamItem)
params_from zero input pos = ok []
params_from (suc n) input pos = if ltb (length input) (pos + 5) then ok [] else do
  id ← uint32_at input pos
  len ← index input (pos + 4)
  if ltb (length input) (pos + 5 + len) then ok [] else do
    value ← slice input (pos + 5) (pos + 5 + len)
    rest ← params_from n input (pos + 5 + len)
    ok (record { id = id; value = value } ∷ rest)

pub decode_param_setting_data : TimeCodec → List ℕ → Result ParamSettingData
decode_param_setting_data tc input =
    if ltb (length input) 7 then err (too_short (length input)) else do
      setting_time ← time_at_start tc input
      count ← index input 6
      params ← params_from count input 7
      ok (record { setting_time = setting_time; count = count; params = params })

-- The body that `SendPlatLogin` writes: the sequence number is 0.
unfoldable pub plat_login_body : Time → List ℕ → List ℕ → List ℕ
plat_login_body t username password =
    encode_bcd_time t ++ (0 ∷ 0 ∷ (encode_param_string username ++ encode_param_string password))

-- The body that `SendPlatLogout` writes.
pub plat_logout_body : Time → List ℕ
plat_logout_body t = encode_bcd_time t ++ (0 ∷ 0 ∷ [])

abbrev pub put_ids : List ℕ → List ℕ
put_ids [] = []
put_ids (id ∷ ids) = put_uint32 id ++ put_ids ids

-- The body that `SendParamQuery` writes.
unfoldable pub param_query_body : Time → List ℕ → List ℕ
param_query_body t ids = encode_bcd_time t ++ ((length ids % 256) ∷ put_ids ids)

abbrev pub put_params : List ParamItem → List ℕ
put_params [] = []
put_params (p ∷ ps) = put_uint32 p.id ++ ((length p.value % 256) ∷ (p.value ++ put_params ps))

-- The body that `SendParamSetting` writes.
unfoldable pub param_setting_body : Time → List ParamItem → List ℕ
param_setting_body t ps = encode_bcd_time t ++ ((length ps % 256) ∷ put_params ps)

-- The body that `sendParamQueryResponse` writes: it has no time.
pub param_query_response_body : ParamQueryResponse → List ℕ
param_query_response_body r = r.count ∷ put_params r.params

-- ===== src/Connection/Handle.antt =====
-- conn.go, `handlePacket`: what a packet does, by its command. The package's decode functions have
-- the default decoder, which reads times as binary coded decimals.
use gb32960_go_sdk.Base.{
  ℕ, Bool, ◌&&◌, not, List, Option, none, some, length, ltb, ◌==◌, if◌then◌else◌, Result, ok, err,
  panic, stuck, ◌>>=◌,
}
use gb32960_go_sdk.Constant.{enc_aes128, req_request}
use gb32960_go_sdk.Constant.Cmd
use gb32960_go_sdk.Packet.{Packet}
use gb32960_go_sdk.Packet.Bodies.{LoginResponse, VehicleLoginData, ParamQueryResponse}
use gb32960_go_sdk.Decoder.{bcd}
use gb32960_go_sdk.GoTime.{Time}
use gb32960_go_sdk.Time6.{encode_bcd_time}
use gb32960_go_sdk.Crypto.{BlockCipher, decrypt_aes128, derive_aes_key}
use gb32960_go_sdk.Body.{
  decode_login_data, encode_login_response, decode_logout_data, decode_plat_login_response,
  decode_plat_logout_response, decode_param_query_data, decode_param_setting_data,
  param_query_response_body,
}
use gb32960_go_sdk.Message.{decode_realtime_data, decode_reissue_data}
use gb32960_go_sdk.VinRegistry
use gb32960_go_sdk.Connection.{
  conn_logged_in, authenticates, calls, forwards, Call, vehicle_login, vehicle_logout,
  realtime_data, reissue_data, heartbeat, time_calibration, platform_login_request,
  plat_login_response, plat_logout_response, param_query, param_query_ack, param_setting_ack,
  login_msg, logout_msg, realtime_msg, reissue_msg, Env, World, logged, send, close,
}

-- A decoder's error is logged and ends the handling; a panic goes on.
abbrev pub decoded_or {ℓ} : {A : Type ℓ} → World → Result A → (A → Result World) → Result World
decoded_or w (ok x) f = f x
decoded_or w (err e) f = ok w
decoded_or w panic f = panic
decoded_or w stuck f = stuck

-- A call that is made if its interface is set.
abbrev pub called : Bool → World → Call → World
called set w c = if set then logged w (calls c) else w

-- `Send` with its error passed over.
unfoldable pub sent : Env → World → ℕ → List ℕ → Result World
unfolding send
sent env w command input = do (fine, w') ← send env w command input; ok w'

-- `sendLoginResponse` and `sendParamQueryResponse`, with their errors passed over.
abbrev pub send_login_response : Env → World → LoginResponse → Result World
send_login_response env w resp = sent env w Cmd.login (encode_login_response resp)

abbrev pub send_param_query_response : Env → World → ParamQueryResponse → Result World
send_param_query_response env w resp =
    sent env w Cmd.param_query_resp (param_query_response_body resp)

-- `LoginTime.IsZero()`: the first second of the year 1.
pub is_zero : Time → Bool
is_zero t =
    t.year == 1 && t.month == 1 && t.day == 1 && t.hour == 0 && t.minute == 0 && t.second == 0

-- The data of a packet, deciphered where they have to be.
unfoldable pub opened : BlockCipher → Option (List ℕ) → Packet → Result (List ℕ)
opened aes none p = ok p.payload
opened aes (some key) p =
    if p.encrypt_type == enc_aes128 then decrypt_aes128 aes p.payload key else ok p.payload

-- The answer to a login: it is sent under the old key, and a token makes a new one.
unfoldable pub login_answer : Env → World → VehicleLoginData → LoginResponse → Result World
unfolding sent is_zero
login_answer env w login resp = do
  w' ←
      send_login_response env w
        (if is_zero resp.login_time then record resp { login_time = login.login_time } else resp)
  ok (
      if ltb 0 (length resp.token)
      then record w' { conn = record w'.conn { encrypt_key = some (derive_aes_key resp.token) } }
      else w')

-- A login that is let in.
abbrev pub enter : World → List ℕ → VehicleLoginData → World
enter w vin login = record {
  conn = record w.conn { vin = vin; iccid = login.iccid; state = conn_logged_in };
  server = record w.server { vin_registry = VinRegistry.add w.server.vin_registry vin w.conn.self };
  trace = w.trace;
}

-- What the handler of logins leads to: its error ends the handling, and nil is no answer.
abbrev pub login_answered :
    Env
    → World
    → VehicleLoginData
    → Option (Option LoginResponse)
    → (World → Result World)
    → Result World
login_answered env w login none more = ok w
login_answered env w login (some none) more = more w
login_answered env w login (some (some resp)) more = login_answer env w login resp >>= more

unfoldable pub admit : Env → World → List ℕ → VehicleLoginData → Result World
unfolding login_answer
admit env w vin login =
    let w1 = enter w vin login in
    let more : World → Result World = λ w2. ok (logged w2 (forwards vin (login_msg login))) in
    if env.has_handler
    then login_answered env (logged w1 (calls (vehicle_login login))) login
        (env.on_vehicle_login w1.trace login) more
    else more w1

unfoldable pub handle_login : Env → World → List ℕ → List ℕ → Result World
unfolding admit
handle_login env w vin body =
    let w1 = if env.has_auth then logged w (authenticates vin) else w in
    if env.has_auth && not (env.authenticate w.trace vin)
    then ok (close w1)
    else decoded_or w1 (decode_login_data bcd body) (admit env w1 vin)

unfoldable pub handle_logout : Env → World → List ℕ → List ℕ → Result World
handle_logout env w vin body = decoded_or w (decode_logout_data bcd body) λ x.
    let w1 = called env.has_handler w (vehicle_logout x) in
    ok (
      logged (record w1 { conn = record w1.conn { encrypt_key = none } })
        (forwards vin (logout_msg x)))

unfoldable pub handle_realtime : Env → World → List ℕ → List ℕ → Result World
handle_realtime env w vin body =
    decoded_or w (decode_realtime_data bcd body)
      λ x. ok (logged (called env.has_handler w (realtime_data x)) (forwards vin (realtime_msg x)))

unfoldable pub handle_reissue : Env → World → List ℕ → List ℕ → Result World
handle_reissue env w vin body =
    decoded_or w (decode_reissue_data bcd body)
      λ x. ok (logged (called env.has_handler w (reissue_data x)) (forwards vin (reissue_msg x)))

unfoldable pub handle_heartbeat : Env → World → Result World
unfolding sent
handle_heartbeat env w =
    let w1 = called env.has_handler w heartbeat in
    sent env w1 Cmd.heartbeat (encode_bcd_time (env.now w1.trace))

-- The provider's time, or the current one where there is no provider or it gives an error.
abbrev calibrated : Env → World → Option Time → Time
calibrated env w none = env.now w.trace
calibrated env w (some t) = t

unfoldable pub handle_time_calibr : Env → World → Result World
unfolding sent
handle_time_calibr env w =
    let w1 = called env.has_time_provider w time_calibration in
    let t = if env.has_time_provider then env.on_time_calibration w.trace else none in
    sent env w1 Cmd.time_calibr (encode_bcd_time (calibrated env w1 t))

unfoldable pub handle_plat_login : Env → World → ℕ → List ℕ → Result World
handle_plat_login env w response body =
    if not env.has_platform_handler
    then ok w
    else decoded_or w (decode_plat_login_response bcd body) λ x. ok (
        logged w (
          calls
            (if response == req_request then platform_login_request x else plat_login_response x)))

unfoldable pub handle_plat_logout : Env → World → List ℕ → Result World
handle_plat_logout env w body =
    if not env.has_platform_handler
    then ok w
    else decoded_or w (decode_plat_logout_response bcd body)
        λ x. ok (logged w (calls (plat_logout_response x)))

-- What the handler of parameter queries leads to.
abbrev pub query_answered : Env → World → Option (Option ParamQueryResponse) → Result World
query_answered env w none = ok w
query_answered env w (some none) = ok w
query_answered env w (some (some resp)) = send_param_query_response env w resp

unfoldable pub handle_param_query : Env → World → List ℕ → Result World
unfolding sent
handle_param_query env w body =
    if not env.has_param_handler
    then ok w
    else decoded_or w (decode_param_query_data bcd body)
        λ x. query_answered env (logged w (calls (param_query x))) (env.on_param_query w.trace x)

unfoldable pub handle_param_query_resp : Env → World → List ℕ → Result World
handle_param_query_resp env w body =
    if not env.has_param_handler
    then ok w
    else decoded_or w (decode_param_query_data bcd body)
        λ x. ok (logged w (calls (param_query_ack x)))

unfoldable pub handle_param_setting : Env → World → List ℕ → Result World
handle_param_setting env w body =
    if not env.has_param_handler
    then ok w
    else decoded_or w (decode_param_setting_data bcd body)
        λ x. ok (logged w (calls (param_setting_ack x)))

-- The switch over the command, on data that are opened.
unfoldable pub dispatch : Env → World → Packet → List ℕ → Result World
unfolding handle_login handle_logout handle_realtime handle_reissue handle_heartbeat
    handle_time_calibr handle_plat_login handle_plat_logout handle_param_query
    handle_param_query_resp handle_param_setting
dispatch env w p body =
    if p.command == Cmd.login
    then handle_login env w p.vin body
    else if p.command == Cmd.logout
    then handle_logout env w p.vin body
    else if p.command == Cmd.realtime
    then handle_realtime env w p.vin body
    else if p.command == Cmd.reissue
    then handle_reissue env w p.vin body
    else if p.command == Cmd.heartbeat
    then handle_heartbeat env w
    else if p.command == Cmd.time_calibr
    then handle_time_calibr env w
    else if p.command == Cmd.plat_login
    then handle_plat_login env w p.response body
    else if p.command == Cmd.plat_logout
    then handle_plat_logout env w body
    else if p.command == Cmd.param_query
    then handle_param_query env w body
    else if p.command == Cmd.param_query_resp
    then handle_param_query_resp env w body
    else if p.command == Cmd.param_setting
    then handle_param_setting env w body
    else ok w

unfoldable pub handle_packet : Env → World → Packet → Result World
unfolding opened dispatch
handle_packet env w p = decoded_or w (opened env.aes w.conn.encrypt_key p) (dispatch env w p)

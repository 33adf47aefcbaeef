-- ===== src/Connection/Senders.antt =====
-- conn.go, the methods that send a request or an answer, and that what they send is read on the other
-- side as what they were given.
use gb32960_go_sdk.Base.{
  ℕ, ◌+◌, ◌<◌, ◌≡◌, Bool, List, ◌∷◌, ◌++◌, some, length, All, IsByte, Result, ok, arith,
}
use gb32960_go_sdk.Constant.Cmd
use gb32960_go_sdk.GoTime.{Time}
use gb32960_go_sdk.Packet.{Packet}
use gb32960_go_sdk.Packet.Bodies.{ParamItem}
use gb32960_go_sdk.Decoder.{Decoder, bcd, decode}
use gb32960_go_sdk.Decoder.Stream.{unread, IsValid}
use gb32960_go_sdk.Crypto.{BlockCipher}
use gb32960_go_sdk.Body.{
  plat_login_body, plat_logout_body, param_query_body, param_setting_body,
  decode_plat_login_response, decode_plat_logout_response, decode_param_query_data,
  decode_param_setting_data,
}
use gb32960_go_sdk.Body.RoundTrip.{
  IsSendable, IsParam, decode_plat_login_response-body, decode_plat_logout_response-body,
  decode_param_query_data-body, decode_param_setting_data-body,
}
use gb32960_go_sdk.Body.Octets.{
  HasOctets, plat_login_body-octets, length-plat_login_body, plat_logout_body-octets,
  length-plat_logout_body, param_query_body-octets, length-param_query_body,
  param_setting_body-octets,
}
use gb32960_go_sdk.Connection.{Connection, Env, World, writes, send}
use gb32960_go_sdk.Connection.Handle.{opened}
use gb32960_go_sdk.Connection.Delivery.{KeyFits, send-IsDelivered}

unfoldable pub send_plat_login : Env → World → Time → List ℕ → List ℕ → Result (Bool × World)
send_plat_login env w t username password =
    send env w Cmd.plat_login (plat_login_body t username password)

pub send_plat_logout : Env → World → Time → Result (Bool × World)
send_plat_logout env w t = send env w Cmd.plat_logout (plat_logout_body t)

-- `time.Now()` is the clock's answer at the call.
unfoldable pub send_param_query : Env → World → List ℕ → Result (Bool × World)
send_param_query env w ids = send env w Cmd.param_query (param_query_body (env.now w.trace) ids)

unfoldable pub send_param_setting : Env → World → List ParamItem → Result (Bool × World)
send_param_setting env w ps = send env w Cmd.param_setting (param_setting_body (env.now w.trace) ps)

-- The other side gets a packet of this command and VIN, and what its decoder reads in the packet's
-- data, deciphered if they have to be, is `message`.
pub record Arrives {A : Type 0} (aes : BlockCipher) (c : Connection) (command : ℕ)
    (read : List ℕ → Result A) (message : A) (rest : List ℕ) (d : Decoder) : Type 0 where
  pub packet : Packet
  pub after : Decoder
  pub decoded : decode d ≡ ok (some packet, after)
  pub left : unread after ≡ rest
  pub same_command : packet.command ≡ command
  pub same_vin : packet.vin ≡ c.vin
  pub body : List ℕ
  pub deciphered : opened aes c.encrypt_key packet ≡ ok body
  pub same_message : read body ≡ ok message

-- A call that has written a frame, which the other side has at the front of its unread bytes.
pub record WasWritten (w w' : World) (frame rest : List ℕ) (d : Decoder) : Type 0 where
  pub key_fits : KeyFits w.conn.encrypt_key
  pub wrote : w'.trace ≡ writes frame ∷ w.trace
  pub valid : IsValid d
  pub at_front : unread d ≡ frame ++ rest

module _ {A : Type 0} (read : List ℕ → Result A) (message : A) where
  send-Arrives :
      (env : Env) (w w' : World) (command : ℕ) (body frame rest : List ℕ) (fine : Bool)
      (d : Decoder)
      → WasWritten w w' frame rest d
      → All IsByte body
      → length body + 16 < 65536
      → read body ≡ ok message
      → send env w command body ≡ ok (fine, w')
      → Arrives env.aes w.conn command read message rest d
  send-Arrives env w w' command body frame rest fine d h octets small same e =
      let r =
        send-IsDelivered env w w' command body frame rest fine d h.key_fits octets small e h.wrote
          h.valid h.at_front in
      record {
        packet = r.packet;
        after = r.after;
        decoded = r.decoded;
        left = r.left;
        same_command = r.same_command;
        same_vin = r.same_vin;
        body = body;
        deciphered = r.same_data;
        same_message = same;
      }

module _ (env : Env) (w w' : World) (frame rest : List ℕ) (fine : Bool) (d : Decoder)
    (h : WasWritten w w' frame rest d) where
  -- A platform login that `SendPlatLogin` has written, with a time of the years 2000 to 2159 and
  -- strings of fewer than 256 bytes, is read on the other side, which has the same key or none, as a
  -- platform login with this time, the sequence number 0, this user name and this password.
  pub send_plat_login-Arrives :
      (t : Time) (username password : List ℕ)
      → IsSendable t
      → length username < 256
      → length password < 256
      → All IsByte username
      → All IsByte password
      → send_plat_login env w t username password ≡ ok (fine, w')
      → Arrives env.aes w.conn Cmd.plat_login
          (decode_plat_login_response bcd)
          (record { login_time = t; sequence = 0; username = username; password = password })
          rest
          d
  unfolding send_plat_login
  send_plat_login-Arrives t username password s hu hp ou op e =
      send-Arrives (decode_plat_login_response bcd) _ env w w' Cmd.plat_login
        (plat_login_body t username password) frame rest fine d h
        (plat_login_body-octets t username password s ou op)
        (omega (arith, length-plat_login_body t username password))
        (decode_plat_login_response-body t username password s hu hp) e

  pub send_plat_logout-Arrives :
      (t : Time)
      → IsSendable t
      → send_plat_logout env w t ≡ ok (fine, w')
      → Arrives env.aes w.conn Cmd.plat_logout
          (decode_plat_logout_response bcd)
          (record { logout_time = t; sequence = 0 })
          rest
          d
  unfolding send_plat_logout
  send_plat_logout-Arrives t s e =
      send-Arrives (decode_plat_logout_response bcd) _ env w w' Cmd.plat_logout (plat_logout_body t)
        frame rest fine d h (plat_logout_body-octets t s) (omega (arith, length-plat_logout_body t))
        (decode_plat_logout_response-body t s) e

  -- A query of at most 255 parameters that `SendParamQuery` has written is read on the other side,
  -- which has the same key or none, as a query with the time of the call and these ids in their order.
  pub send_param_query-Arrives :
      (ids : List ℕ)
      → IsSendable (env.now w.trace)
      → length ids < 256
      → All (λ id. id < 4294967296) ids
      → send_param_query env w ids ≡ ok (fine, w')
      → Arrives env.aes w.conn Cmd.param_query
          (decode_param_query_data bcd)
          (record { query_time = env.now w.trace; count = length ids; param_ids = ids })
          rest
          d
  unfolding send_param_query
  send_param_query-Arrives ids s few fit e =
      let t = env.now w.trace in
      send-Arrives (decode_param_query_data bcd) _ env w w' Cmd.param_query (param_query_body t ids)
        frame rest fine d h (param_query_body-octets t ids s)
        (omega (arith, length-param_query_body t ids))
        (decode_param_query_data-body t ids s few fit) e

  -- A setting of at most 255 parameters that `SendParamSetting` has written, if it has fewer than
  -- 65520 bytes in all, is read on the other side, which has the same key or none, as a setting with
  -- the time of the call and these parameters in their order.
  pub send_param_setting-Arrives :
      (ps : List ParamItem)
      → IsSendable (env.now w.trace)
      → length ps < 256
      → All IsParam ps
      → All HasOctets ps
      → length (param_setting_body (env.now w.trace) ps) + 16 < 65536
      → send_param_setting env w ps ≡ ok (fine, w')
      → Arrives env.aes w.conn Cmd.param_setting
          (decode_param_setting_data bcd)
          (record { setting_time = env.now w.trace; count = length ps; params = ps })
          rest
          d
  unfolding send_param_setting
  send_param_setting-Arrives ps s few fit octets small e =
      let t = env.now w.trace in
      send-Arrives (decode_param_setting_data bcd) _ env w w' Cmd.param_setting
        (param_setting_body t ps) frame rest fine d h (param_setting_body-octets t ps s octets)
        small (decode_param_setting_data-body t ps s few fit) e

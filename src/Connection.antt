-- ===== src/Connection.antt =====
-- conn.go: a connection of the server, what it sends, and how it is closed. What happens outside, the
-- calls of handlers, the writes and the forwards, is recorded in a trace.
mod Tests
mod SendTests
pub mod Handle
pub mod Run
pub mod Rule
pub mod LoginRule
pub mod Lifetime
pub mod Delivery
pub mod Login
pub mod Rows
pub mod Order
pub mod Calls
pub mod Session
pub mod Senders
use gb32960_go_sdk.Base.{
  ℕ, zero, suc, ◌+◌, ◌-◌, Bool, true, false, ◌&&◌, not, List, [], ◌∷◌, Option, none, some, length,
  ltb, ◌==◌, if◌then◌else◌, Result, ok, err, panic, stuck, ◌>>=◌,
}
use gb32960_go_sdk.Base.Integers.{ℤ, pos, negsuc, decrement}
use gb32960_go_sdk.Constant.{enc_none, enc_aes128}
use gb32960_go_sdk.Decoder.{Decoder, TimeCodec, new_decoder_with_config, encode_response}
use gb32960_go_sdk.Crypto.{BlockCipher, encrypt_aes128}
use gb32960_go_sdk.GoTime.{Time}
use gb32960_go_sdk.Packet.Fields.{RealtimeMessage, ReissueMessage}
use gb32960_go_sdk.Packet.Bodies.{
  VehicleLoginData, VehicleLogoutData, LoginResponse, PlatformLoginData, PlatformLogoutData,
  ParamQueryData, ParamQueryResponse, ParamSettingData,
}
use gb32960_go_sdk.VinRegistry
use gb32960_go_sdk.VinRegistry.{VinRegistry}
use gb32960_go_sdk.VinRegistry.Keys.{bytes_eq}

pub data ConnectionState : Type 0 where
  conn_new conn_logged_in conn_closed : ConnectionState

-- What the context of a connection says: `cancelled` is for good.
pub data Context : Type 0 where
  running cancelled : Context

-- `self` is the number of the object, under which the VIN registry has it. `context` is its
-- context.
pub record Connection : Type 0 where
  pub id : List ℕ
  pub self : ℕ
  pub state : ConnectionState
  pub context : Context
  pub vin : List ℕ
  pub iccid : List ℕ
  pub encrypt_key : Option (List ℕ)
  pub decoder : Decoder

-- What the connections share: `connections` has the ids with their objects.
pub record Server : Type 0 where
  pub connections : List (List ℕ × ℕ)
  pub conn_count : ℤ
  pub vin_registry : VinRegistry

-- The methods of the interfaces in events.go, with the message that they get.
pub data Call : Type 0 where
  vehicle_login : VehicleLoginData → Call
  vehicle_logout : VehicleLogoutData → Call
  realtime_data : RealtimeMessage → Call
  reissue_data : ReissueMessage → Call
  heartbeat time_calibration : Call
  platform_login_request plat_login_response : PlatformLoginData → Call
  plat_logout_response : PlatformLogoutData → Call
  param_query param_query_ack : ParamQueryData → Call
  param_setting_ack : ParamSettingData → Call

pub data ForwardMsg : Type 0 where
  login_msg : VehicleLoginData → ForwardMsg
  logout_msg : VehicleLogoutData → ForwardMsg
  realtime_msg : RealtimeMessage → ForwardMsg
  reissue_msg : ReissueMessage → ForwardMsg

pub data Event : Type 0 where
  authenticates : List ℕ → Event
  calls : Call → Event
  writes : List ℕ → Event
  forwards : List ℕ → ForwardMsg → Event
  closes : Event

-- What is not the SDK's own code: which interfaces are set, and what they and the network answer. An
-- answer may depend on all that happened before; `none` is an error, and a second `none` is nil.
pub record Env : Type 0 where
  pub has_auth : Bool
  pub has_handler : Bool
  pub has_platform_handler : Bool
  pub has_param_handler : Bool
  pub has_time_provider : Bool
  pub authenticate : List Event → List ℕ → Bool
  pub on_vehicle_login : List Event → VehicleLoginData → Option (Option LoginResponse)
  pub on_param_query : List Event → ParamQueryData → Option (Option ParamQueryResponse)
  pub on_time_calibration : List Event → Option Time
  pub now : List Event → Time
  pub write : List Event → List ℕ → Bool
  pub aes : BlockCipher

-- The latest event stands first.
pub record World : Type 0 where
  pub conn : Connection
  pub server : Server
  pub trace : List Event

unfoldable pub new_connection : TimeCodec → Bool → List ℕ → ℕ → Connection
new_connection tc include_start id self = record {
  id = id;
  self = self;
  state = conn_new;
  context = running;
  vin = [];
  iccid = [];
  encrypt_key = none;
  decoder = new_decoder_with_config tc include_start;
}

abbrev pub logged : World → Event → World
logged w e = record w { trace = e ∷ w.trace }

abbrev pub is_closed : ConnectionState → Bool
is_closed conn_new = false
is_closed conn_logged_in = false
is_closed conn_closed = true

abbrev pub is_done : Context → Bool
is_done running = false
is_done cancelled = true

-- The data as they go out, with their encryption type.
pub sealed : BlockCipher → Option (List ℕ) → List ℕ → Result (ℕ × List ℕ)
sealed aes none input = ok (enc_none, input)
sealed aes (some key) input =
    if length input == 0
    then ok (enc_none, input)
    else do c ← encrypt_aes128 aes input key; ok (enc_aes128, c)

-- The frame that `Send` makes for its data.
pub frame_of : BlockCipher → Connection → ℕ → List ℕ → Result (List ℕ)
unfolding sealed
frame_of aes c command input = do
  (enc, body) ← sealed aes c.encrypt_key input
  encode_response command c.vin enc body

-- The end of `Send`: `true` where it returns no error.
abbrev pub written : Env → World → Result (List ℕ) → Result (Bool × World)
written env w (ok frame) = ok (env.write w.trace frame, logged w (writes frame))
written env w (err e) = ok (false, w)
written env w panic = panic
written env w stuck = stuck

unfoldable pub send : Env → World → ℕ → List ℕ → Result (Bool × World)
unfolding frame_of
send env w command input =
    if is_closed w.conn.state
    then ok (false, w)
    else written env w (frame_of env.aes w.conn command input)

-- `sync.Map.Delete` of an id.
unfoldable pub forget : List ℕ → List (List ℕ × ℕ) → List (List ℕ × ℕ)
forget id [] = []
forget id ((k, c) ∷ m) = let rest = forget id m in if bytes_eq k id then rest else (k, c) ∷ rest

unfoldable pub unregister : Server → Connection → Server
unfolding forget
unregister s c = record {
  connections = forget c.id s.connections;
  conn_count = decrement s.conn_count;
  vin_registry =
      if length c.vin == 0 then s.vin_registry else VinRegistry.remove s.vin_registry c.vin c.self;
}

unfoldable pub close : World → World
unfolding unregister
close w =
    if is_closed w.conn.state
    then w
    else let c = record w.conn { state = conn_closed; context = cancelled } in
      record { conn = c; server = unregister w.server c; trace = closes ∷ w.trace }

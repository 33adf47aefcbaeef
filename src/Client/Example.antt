-- ===== src/Client/Example.antt =====
-- cmd/example/main.go: a server with a handler that answers each login with a token.
use gb32960_go_sdk.Base.{ℕ, Bool, true, false, List, [], ◌∷◌, Option, none, some}
use gb32960_go_sdk.GoTime.{Time}
use gb32960_go_sdk.Crypto.{BlockCipher}
use gb32960_go_sdk.Packet.Bodies.{VehicleLoginData, LoginResponse}
use gb32960_go_sdk.Connection.{Event, Env}

-- "TOKEN123"
abbrev token : List ℕ
token = 0x54 ∷ 0x4f ∷ 0x4b ∷ 0x45 ∷ 0x4e ∷ 0x31 ∷ 0x32 ∷ 0x33 ∷ []

abbrev on_vehicle_login : VehicleLoginData → Option (Option LoginResponse)
on_vehicle_login msg = some (
    some (record {
      login_time = msg.login_time;
      sequence = msg.sequence;
      result = 0x01;
      token = token;
    }))

-- The options of `NewServer`: a handler, and an authenticator that lets all in. What the clock and
-- the network answer is the argument.
abbrev pub example_env : (List Event → Time) → (List Event → List ℕ → Bool) → BlockCipher → Env
example_env now write aes = record {
  has_auth = true;
  has_handler = true;
  has_platform_handler = false;
  has_param_handler = false;
  has_time_provider = false;
  authenticate = λ t vin. true;
  on_vehicle_login = λ t msg. on_vehicle_login msg;
  on_param_query = λ t q. none;
  on_time_calibration = λ t. none;
  now = now;
  write = write;
  aes = aes;
}

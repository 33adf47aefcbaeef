-- ===== src/Connection/Tests.antt =====
-- A connection with an authenticator that knows one VIN, and no handler.
use gb32960_go_sdk.Base.{
  ◌>>=◌, ℕ, ◌≡◌, refl, sym, ◌∙◌, true, false, ◌&&◌, not, List, [], ◌∷◌, ◌++◌, Option, none, some,
  replicate, length, slice, index, uint16_at, be_uint16, ok, arith,
}
use gb32960_go_sdk.Base.Integers.{pos, decrement}
use gb32960_go_sdk.GoTime.{Time, date, settle, roll, days_in, is_leap}
use gb32960_go_sdk.Packet.{Packet}
use gb32960_go_sdk.Packet.Bodies.{VehicleLoginData}
use gb32960_go_sdk.Time6.{decode_time6, parse_bcd_time6}
use gb32960_go_sdk.Body.{time_at_start, configs_from, read_configs, decode_login_data}
use gb32960_go_sdk.Decoder.{
  Decoder, bcd, new_decoder, new_decoder_with_config, feed, encode_response, calculate_bcc,
  xor_bytes,
}
use gb32960_go_sdk.Decoder.Stream.{unread}
use gb32960_go_sdk.Decoder.Buffer.{feed-IsValid}
use gb32960_go_sdk.Crypto.{BlockCipher, xor_block, encrypt_aes128, pkcs7_pad, cbc_encrypt}
use gb32960_go_sdk.Crypto.RoundTrip.{replicate-bytes}
use gb32960_go_sdk.Crypto.Blocks.{xor_block-IsBlock, xor_block_twice}
use gb32960_go_sdk.VinRegistry.{get_all, new_vin_registry}
use gb32960_go_sdk.VinRegistry.Keys.{bytes_eq}
use gb32960_go_sdk.VinRegistry.Laws.{new_vin_registry-IsValid}
use gb32960_go_sdk.Connection.{
  running, ConnectionState, conn_new, conn_logged_in, conn_closed, authenticates, writes, closes,
  Env, World, logged, sealed, frame_of, send, close,
}
use gb32960_go_sdk.Connection.Handle.{opened, handle_packet}
use gb32960_go_sdk.Connection.Run.{run}
use gb32960_go_sdk.Connection.Rule.{Gives}
use gb32960_go_sdk.Connection.Lifetime.{Ends, knows, IsSound, IsOver, run-IsOver}
use gb32960_go_sdk.Connection.Delivery.{IsDelivered, send-IsDelivered}
use gb32960_go_sdk.Connection.Login.{
  IsSame, handle_packet-IsSame, IsEntered, handle_packet-IsEntered, handle_packet_refused,
  handle_packet_reopens,
}

abbrev mixing : BlockCipher
mixing = record {
  encipher = λ k b. xor_block b k;
  decipher = λ k b. xor_block b k;
  encipher_block = λ k b hk hb. xor_block-IsBlock b k hb hk;
  decipher_encipher = λ k b hk hb. xor_block_twice b k (hb.sized ∙ sym hk.sized);
}

abbrev noon : Time
noon = record { year = 2024; month = 2; day = 29; hour = 12; minute = 0; second = 0 }

abbrev known_vin : List ℕ
known_vin = replicate 17 0x41

abbrev env : Env
env = record {
  has_auth = true;
  has_handler = false;
  has_platform_handler = false;
  has_param_handler = false;
  has_time_provider = false;
  authenticate = λ t vin. bytes_eq vin known_vin;
  on_vehicle_login = λ t login. none;
  on_param_query = λ t q. none;
  on_time_calibration = λ t. none;
  now = λ t. noon;
  write = λ t frame. true;
  aes = mixing;
}

abbrev decoder : Decoder
decoder = feed new_decoder []

abbrev world : ConnectionState → List ℕ → Option (List ℕ) → World
world state vin key = record {
  conn = record {
    id = 1 ∷ [];
    self = 1;
    state = state;
    context = running;
    vin = vin;
    iccid = [];
    encrypt_key = key;
    decoder = decoder;
  };
  server = record {
    connections = (1 ∷ [], 1) ∷ [];
    conn_count = pos 1;
    vin_registry = new_vin_registry;
  };
  trace = [];
}

abbrev fresh : World
fresh = world conn_new [] none

fresh-IsSound : IsSound (1 ∷ []) fresh
fresh-IsSound = record { same_id = refl; forgotten = λ e. cc; vins = new_vin_registry-IsValid }

abbrev packet : ℕ → List ℕ → List ℕ → Packet
packet command vin body = record {
  command = command;
  response = 1;
  vin = vin;
  encrypt_type = 1;
  payload = body;
  length = length body;
}

-- The login's time, its sequence number, and an ICCID of two bytes.
abbrev login_body : List ℕ
login_body = 0x24 ∷ 2 ∷ 0x29 ∷ 0x12 ∷ 0 ∷ 0 ∷ 0 ∷ 1 ∷ 2 ∷ 0x31 ∷ 0x32 ∷ []

abbrev login : VehicleLoginData
login = record {
  login_time = noon;
  sequence = 1;
  iccid = 0x31 ∷ 0x32 ∷ [];
  config_data_cnt = 0;
  config_data = [];
}

login_decoded : decode_login_data bcd login_body ≡ ok login
unfolding decode_login_data time_at_start decode_time6 parse_bcd_time6 date settle roll days_in
    is_leap read_configs configs_from slice index uint16_at be_uint16
login_decoded = refl

known_accepted : (env.has_auth && not (env.authenticate [] known_vin)) ≡ false
unfolding bytes_eq
known_accepted = refl

unknown_refused : env.authenticate [] [] ≡ false
unfolding bytes_eq
unknown_refused = refl

opened_plain :
    (command : ℕ) (vin body : List ℕ) → opened mixing none (packet command vin body) ≡ ok body
unfolding opened
opened_plain command vin body = refl

run-IsOver_example :
    Ends (IsOver (1 ∷ [])) (run env fresh ((0x23 ∷ 0x23 ∷ []) ∷ [] ∷ replicate 30 7 ∷ []))
run-IsOver_example =
    run-IsOver env fresh ((0x23 ∷ 0x23 ∷ []) ∷ [] ∷ replicate 30 7 ∷ [])
      (feed-IsValid new_decoder []) fresh-IsSound

abbrev sixteen : List ℕ
sixteen = replicate 16 7

abbrev cipher_frame : List ℕ
cipher_frame =
    0x23 ∷ 0x23 ∷ 7 ∷ 0xfe ∷ (known_vin ++ (3 ∷ 0 ∷ 16 ∷ 1 ∷ 2 ∷ (replicate 14 14 ++ (0xa8 ∷ []))))

abbrev keyed : World
keyed = world conn_logged_in known_vin (some sixteen)

enciphered : send env keyed 7 (1 ∷ 2 ∷ []) ≡ ok (true, logged keyed (writes cipher_frame))
unfolding send frame_of sealed encrypt_aes128 pkcs7_pad cbc_encrypt xor_block encode_response
    calculate_bcc xor_bytes
enciphered = refl

unread-feed : (bytes : List ℕ) → unread (feed new_decoder bytes) ≡ bytes
unfolding feed new_decoder new_decoder_with_config
unread-feed bytes = refl

send-IsDelivered_example :
    IsDelivered mixing keyed.conn 7
      (1 ∷ 2 ∷ [])
      (9 ∷ [])
      (feed new_decoder (cipher_frame ++ (9 ∷ [])))
send-IsDelivered_example =
    send-IsDelivered env keyed (logged keyed (writes cipher_frame)) 7 (1 ∷ 2 ∷ []) cipher_frame
      (9 ∷ []) true (feed new_decoder (cipher_frame ++ (9 ∷ [])))
      (omega arith, replicate-bytes 16 7 (omega arith)) (omega arith, (omega arith, tt))
      (omega arith) enciphered refl (feed-IsValid new_decoder (cipher_frame ++ (9 ∷ [])))
      (unread-feed (cipher_frame ++ (9 ∷ [])))

handle_packet-IsSame_example :
    Gives (IsSame fresh) (handle_packet env fresh (packet 7 known_vin []))
handle_packet-IsSame_example = handle_packet-IsSame env fresh (packet 7 known_vin []) (λ e. cc)

handle_packet-IsEntered_example :
    Gives
      (IsEntered fresh known_vin login)
      (handle_packet env fresh (packet 1 known_vin login_body))
handle_packet-IsEntered_example =
    handle_packet-IsEntered env fresh (packet 1 known_vin login_body) login_body login refl
      (opened_plain 1 known_vin login_body) known_accepted login_decoded

handle_packet_refused_example :
    (w' : World) × (handle_packet env fresh (packet 1 [] login_body) ≡ ok w')
    × (w'.conn.state ≡ conn_closed)
    × (w'.trace ≡ closes ∷ authenticates [] ∷ [])
    × (knows (1 ∷ []) w'.server.connections ≡ false)
handle_packet_refused_example =
    handle_packet_refused env fresh (packet 1 [] login_body) login_body refl
      (opened_plain 1 [] login_body) refl unknown_refused refl

known_let_in : bytes_eq known_vin known_vin ≡ true
unfolding bytes_eq
known_let_in = refl

handle_packet_reopens_example :
    Gives
      (λ w'.
        (w'.conn.state ≡ conn_logged_in)
        × (get_all w'.server.vin_registry known_vin
            ≡ get_all (close fresh).server.vin_registry known_vin ++ (1 ∷ []))
        × ((reads : List (List ℕ)) → run env w' reads ≡ ok (close w'))
        × ((close w').server.conn_count ≡ decrement (decrement (pos 1))))
      (handle_packet env fresh (packet 1 [] login_body) >>= λ w1.
        handle_packet env w1 (packet 1 known_vin login_body))
handle_packet_reopens_example =
    handle_packet_reopens env fresh (packet 1 [] login_body) (packet 1 known_vin login_body)
      login_body login_body login refl refl refl (opened_plain 1 [] login_body) unknown_refused refl
      (opened_plain 1 known_vin login_body) known_let_in login_decoded

-- ===== src/Connection/SendTests.antt =====
-- The Send methods on a connection with a key.
use gb32960_go_sdk.Base.{
  ℕ, ◌+◌, ◌≡◌, ◌<◌, refl, sym, ◌∙◌, Bool, true, false, List, [], ◌∷◌, ◌++◌, none, some, replicate,
  length, Result, ok, err, panic, stuck, arith,
}
use gb32960_go_sdk.Base.Integers.{pos}
use gb32960_go_sdk.GoTime.{Time, days_in, is_leap}
use gb32960_go_sdk.Crypto.{BlockCipher, xor_block, encrypt_aes128, pkcs7_pad, cbc_encrypt}
use gb32960_go_sdk.Crypto.RoundTrip.{replicate-bytes}
use gb32960_go_sdk.Crypto.Blocks.{xor_block-IsBlock, xor_block_twice}
use gb32960_go_sdk.Constant.Cmd
use gb32960_go_sdk.Packet.Bodies.{ParamItem}
use gb32960_go_sdk.Decoder.{
  Decoder, bcd, new_decoder, new_decoder_with_config, feed, encode_response, calculate_bcc,
  xor_bytes,
}
use gb32960_go_sdk.Decoder.Stream.{unread}
use gb32960_go_sdk.Decoder.Buffer.{feed-IsValid}
use gb32960_go_sdk.Time6.{encode_bcd_time, bcd_byte}
use gb32960_go_sdk.VinRegistry.{new_vin_registry}
use gb32960_go_sdk.Body.{
  encode_param_string, plat_login_body, param_query_body, param_setting_body,
  decode_plat_login_response, decode_param_setting_data,
}
use gb32960_go_sdk.Body.RoundTrip.{IsSendable}
use gb32960_go_sdk.Connection.{
  running, conn_logged_in, Event, writes, Env, World, logged, sealed, frame_of, send,
}
use gb32960_go_sdk.Connection.Senders.{
  send_plat_login, send_param_query, send_param_setting, Arrives, WasWritten,
  send_plat_login-Arrives, send_param_setting-Arrives,
}

abbrev mixing : BlockCipher
mixing = record {
  encipher = λ k b. xor_block b k;
  decipher = λ k b. xor_block b k;
  encipher_block = λ k b hk hb. xor_block-IsBlock b k hb hk;
  decipher_encipher = λ k b hk hb. xor_block_twice b k (hb.sized ∙ sym hk.sized);
}

abbrev noon : Time
noon = record { year = 2024; month = 2; day = 29; hour = 12; minute = 0; second = 0 }

noon-IsSendable : IsSendable noon
unfolding days_in is_leap
noon-IsSendable = record {
  calendar = record {
    month_low = omega arith;
    month_high = omega arith;
    day_low = omega arith;
    day_high = omega arith;
    hour_high = omega arith;
    minute_high = omega arith;
    second_high = omega arith;
  };
  from_2000 = omega arith;
  to_2159 = omega arith;
}

abbrev sixteen : List ℕ
sixteen = replicate 16 7

abbrev env : Env
env = record {
  has_auth = false;
  has_handler = false;
  has_platform_handler = false;
  has_param_handler = false;
  has_time_provider = false;
  authenticate = λ t vin. true;
  on_vehicle_login = λ t login. none;
  on_param_query = λ t q. none;
  on_time_calibration = λ t. none;
  now = λ t. noon;
  write = λ t frame. true;
  aes = mixing;
}

abbrev keyed : World
keyed = record {
  conn = record {
    id = 1 ∷ [];
    self = 0;
    state = conn_logged_in;
    context = running;
    vin = replicate 17 0x41;
    iccid = [];
    encrypt_key = some sixteen;
    decoder = new_decoder;
  };
  server = record {
    connections = (1 ∷ [], 0) ∷ [];
    conn_count = pos 1;
    vin_registry = new_vin_registry;
  };
  trace = [];
}

abbrev first_of : List Event → List ℕ
first_of (writes frame ∷ t) = frame
first_of _ = []

-- What a call has written.
abbrev frame_written : Result (Bool × World) → List ℕ
frame_written (ok (fine, w)) = first_of w.trace
frame_written (err e) = []
frame_written panic = []
frame_written stuck = []

-- The other side, with the frame and a byte behind it.
abbrev other_side : List ℕ → Decoder
other_side frame = feed new_decoder (frame ++ (9 ∷ []))

at_front : (bytes : List ℕ) → unread (feed new_decoder bytes) ≡ bytes
unfolding feed new_decoder new_decoder_with_config
at_front bytes = refl

was_written :
    (frame : List ℕ)
    → WasWritten keyed (logged keyed (writes frame)) frame (9 ∷ []) (other_side frame)
was_written frame = record {
  key_fits = (omega arith, replicate-bytes 16 7 (omega arith));
  wrote = refl;
  valid = feed-IsValid new_decoder (frame ++ (9 ∷ []));
  at_front = at_front (frame ++ (9 ∷ []));
}

abbrev login_frame : List ℕ
login_frame = frame_written (send_plat_login env keyed noon (1 ∷ 2 ∷ []) (3 ∷ []))

login_sent :
    send_plat_login env keyed noon (1 ∷ 2 ∷ []) (3 ∷ [])
    ≡ ok (true, logged keyed (writes login_frame))
unfolding send_plat_login send frame_of sealed plat_login_body encode_param_string encode_bcd_time
    bcd_byte encrypt_aes128 pkcs7_pad cbc_encrypt xor_block encode_response calculate_bcc xor_bytes
login_sent = refl

send_plat_login-Arrives_example :
    Arrives mixing keyed.conn Cmd.plat_login
      (decode_plat_login_response bcd)
      (record { login_time = noon; sequence = 0; username = 1 ∷ 2 ∷ []; password = 3 ∷ [] })
      (9 ∷ [])
      (other_side login_frame)
send_plat_login-Arrives_example =
    send_plat_login-Arrives env keyed (logged keyed (writes login_frame)) login_frame (9 ∷ []) true
      (other_side login_frame) (was_written login_frame) noon (1 ∷ 2 ∷ []) (3 ∷ []) noon-IsSendable
      (omega arith) (omega arith) (omega arith, (omega arith, tt)) (omega arith, tt) login_sent

abbrev query_frame : List ℕ
query_frame = frame_written (send_param_query env keyed (1 ∷ 65536 ∷ []))

query_sent :
    send_param_query env keyed (1 ∷ 65536 ∷ []) ≡ ok (true, logged keyed (writes query_frame))
unfolding send_param_query send frame_of sealed param_query_body encode_bcd_time bcd_byte
    encrypt_aes128 pkcs7_pad cbc_encrypt xor_block encode_response calculate_bcc xor_bytes
query_sent = refl

abbrev items : List ParamItem
items = record { id = 5; value = 1 ∷ 2 ∷ [] } ∷ record { id = 70000; value = [] } ∷ []

abbrev setting_frame : List ℕ
setting_frame = frame_written (send_param_setting env keyed items)

setting_sent : send_param_setting env keyed items ≡ ok (true, logged keyed (writes setting_frame))
unfolding send_param_setting send frame_of sealed param_setting_body encode_bcd_time bcd_byte
    encrypt_aes128 pkcs7_pad cbc_encrypt xor_block encode_response calculate_bcc xor_bytes
setting_sent = refl

setting_short : length (param_setting_body noon items) + 16 < 65536
unfolding param_setting_body encode_bcd_time bcd_byte
setting_short = omega arith

send_param_setting-Arrives_example :
    Arrives mixing keyed.conn Cmd.param_setting
      (decode_param_setting_data bcd)
      (record { setting_time = noon; count = 2; params = items })
      (9 ∷ [])
      (other_side setting_frame)
send_param_setting-Arrives_example =
    send_param_setting-Arrives env keyed (logged keyed (writes setting_frame)) setting_frame
      (9 ∷ []) true (other_side setting_frame) (was_written setting_frame) items noon-IsSendable
      (omega arith) ((omega arith, omega arith), ((omega arith, omega arith), tt))
      ((omega arith, (omega arith, tt)), (tt, tt)) setting_short setting_sent

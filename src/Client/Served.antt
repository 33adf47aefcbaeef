-- ===== src/Client/Served.antt =====
-- The server and the terminals of cmd/ together: what a handler hears of the simulated terminal and of
-- a client of the stress test.
use gb32960_go_sdk.Base.{
  ◌≡◌, refl, sym, subst, true, false, List, [], ◌∷◌, map, All, ok, arith, slice, index, uint16_at,
  be_uint16,
}
use gb32960_go_sdk.GoTime.{date, settle, roll, days_in, is_leap}
use gb32960_go_sdk.Packet.Bodies.{VehicleLoginData, VehicleLogoutData}
use gb32960_go_sdk.Decoder.{bcd}
use gb32960_go_sdk.Time6.{decode_time6, parse_bcd_time6}
use gb32960_go_sdk.Body.{
  time_at_start, configs_from, read_configs, decode_login_data, decode_logout_data,
}
use gb32960_go_sdk.Connection.{
  is_done, Call, vehicle_login, vehicle_logout, realtime_data, heartbeat, Env, World,
}
use gb32960_go_sdk.Connection.Run.{run}
use gb32960_go_sdk.Connection.Rule.{Gives}
use gb32960_go_sdk.Connection.Rows.{IsDrained}
use gb32960_go_sdk.Connection.Calls.{
  calls_of, AllMean, nothing, also, Accepts, means_login, means_realtime, means_heartbeat,
  means_logout,
}
use gb32960_go_sdk.Connection.Session.{put_calls}
use gb32960_go_sdk.Client.Simulator.{
  build_packet, simulated_vin, simulated_login, simulated_logout, transmissions,
}
use gb32960_go_sdk.Client.Readings.{readings, decode_realtime_data-build_realtime_data}
use gb32960_go_sdk.Client.Journey.{Transmission, Fits, concat, together, packets, run-terminal}

abbrev login_data : VehicleLoginData
login_data = record {
  login_time = record { year = 2026; month = 5; day = 14; hour = 14; minute = 30; second = 0 };
  sequence = 1;
  iccid =
      0x53 ∷ 0x49 ∷ 0x4d ∷ 0x43 ∷ 0x41 ∷ 0x52 ∷ 0x44 ∷ 0x30 ∷ 0x30 ∷ 0x30 ∷ 0x30 ∷ 0x30 ∷ 0x30
      ∷ 0x30 ∷ 0x30 ∷ 0x31 ∷ [];
  config_data_cnt = 0;
  config_data = [];
}

abbrev pub logout_data : VehicleLogoutData
logout_data = record {
  logout_time = record { year = 2026; month = 5; day = 14; hour = 14; minute = 35; second = 0 };
  sequence = 3;
}

login_read : decode_login_data bcd simulated_login ≡ ok login_data
unfolding decode_login_data time_at_start decode_time6 parse_bcd_time6 date settle roll days_in
    is_leap read_configs configs_from slice index uint16_at be_uint16
login_read = refl

pub logout_read : decode_logout_data bcd simulated_logout ≡ ok logout_data
unfolding decode_logout_data time_at_start decode_time6 parse_bcd_time6 date settle roll days_in
    is_leap slice index uint16_at be_uint16
logout_read = refl

-- What the handler is to hear.
abbrev pub simulated_calls : List Call
simulated_calls =
    vehicle_login login_data
    ∷ realtime_data (readings 1)
    ∷ realtime_data (readings 2)
    ∷ realtime_data (readings 3)
    ∷ heartbeat
    ∷ heartbeat
    ∷ vehicle_logout logout_data
    ∷ []

simulated-AllMean : AllMean (packets simulated_vin transmissions) simulated_calls
simulated-AllMean = also _ _ _ _ refl (means_login _ login_data refl login_read) (
    also _ _ _ _ refl
      (means_realtime _ (readings 1) refl (decode_realtime_data-build_realtime_data 1))
      (also _ _ _ _ refl
        (means_realtime _ (readings 2) refl (decode_realtime_data-build_realtime_data 2))
        (also _ _ _ _ refl
          (means_realtime _ (readings 3) refl (decode_realtime_data-build_realtime_data 3))
          (also _ _ _ _ refl (means_heartbeat _ refl) (
            also _ _ _ _ refl (means_heartbeat _ refl)
              (also _ _ _ _ refl (means_logout _ logout_data refl logout_read) nothing))))))

simulated-Fits : All Fits transmissions
simulated-Fits = (
  omega arith,
  (omega arith, (omega arith, (omega arith, (omega arith, (omega arith, (omega arith, tt)))))),
)

-- The simulated terminal and the server together: on a connection whose context is not cancelled and with nothing unread, of a
-- server that has a handler and lets the terminal's VIN in, all that the terminal sends is delivered
-- in whole frames, any number of them in one read. Then the connection runs to its end without a
-- panic, whatever the handlers and the network answer, and the handler hears the login, the three
-- realtime messages with the values that the terminal has put in, two heartbeats and the logout, in
-- this order and nothing else.
pub run-simulated :
    (env : Env) (w : World) (cut : List (List Transmission))
    → env.has_handler ≡ true
    → Accepts env simulated_vin
    → is_done w.conn.context ≡ false
    → IsDrained w.conn.decoder.bcc_include_start w.conn.decoder
    → concat cut ≡ transmissions
    → Gives
        (λ w'. calls_of w'.trace ≡ put_calls simulated_calls (calls_of w.trace))
        (run env w (map (together (λ t. build_packet t.0 simulated_vin t.1)) cut))
unfolding build_packet
run-simulated env w cut set accepts live drained whole =
    run-terminal env w simulated_vin cut simulated_calls refl set accepts live drained
      (subst (All Fits) (sym whole) simulated-Fits)
      (subst (λ ts. AllMean (packets simulated_vin ts) simulated_calls) (sym whole)
        simulated-AllMean)

-- ===== src/Client/StressServed.antt =====
-- The server and a client of the stress test together, however far the client comes.
use gb32960_go_sdk.Base.{
  ℕ, suc, ◌+◌, ◌*◌, ◌%◌, ◌/◌, ◌≡◌, refl, sym, subst, ap, true, false, List, [], ◌∷◌, ◌++◌, map,
  take, length, replicate, All, ok, arith, slice, index, uint16_at, be_uint16, append-nil,
}
use gb32960_go_sdk.GoTime.{date, settle, roll, days_in, is_leap}
use gb32960_go_sdk.Constant.{vin_length}
use gb32960_go_sdk.Packet.Bodies.{VehicleLoginData}
use gb32960_go_sdk.Decoder.{bcd}
use gb32960_go_sdk.Time6.{decode_time6, parse_bcd_time6}
use gb32960_go_sdk.Body.{time_at_start, configs_from, read_configs, decode_login_data}
use gb32960_go_sdk.Connection.{
  is_done, Call, vehicle_login, vehicle_logout, realtime_data, heartbeat, Env, World,
}
use gb32960_go_sdk.Connection.Run.{run}
use gb32960_go_sdk.Connection.Rule.{Gives}
use gb32960_go_sdk.Connection.Rows.{IsDrained}
use gb32960_go_sdk.Connection.Calls.{
  calls_of, AllMean, nothing, also, Accepts, means_login, means_realtime, means_heartbeat,
  means_logout,
}
use gb32960_go_sdk.Connection.Session.{put_calls}
use gb32960_go_sdk.Client.{copy}
use gb32960_go_sdk.Client.Frames.{length-copy}
use gb32960_go_sdk.Client.Served.{logout_data, logout_read}
use gb32960_go_sdk.Client.Stress.{
  build_packet, client_vin, client_login, Stats, Network, run_client,
}
use gb32960_go_sdk.Client.StressReadings.{client_readings, decode_realtime_data-build_realtime}
use gb32960_go_sdk.Client.Written.{client_transmissions, client_frame, run_client-IsPartOf}
use gb32960_go_sdk.Client.Journey.{
  Transmission, Fits, concat, together, packets, All-append, run-terminal,
}

-- The VIN of a client as it goes out, padded with zeros.
abbrev pub padded_vin : ℕ → List ℕ
padded_vin id = copy (replicate vin_length 0) (client_vin id)

abbrev client_login_data : ℕ → VehicleLoginData
client_login_data id = record {
  login_time = record { year = 2026; month = 5; day = 14; hour = 14; minute = 30; second = 0 };
  sequence = id / 256 % 256 * 256 + id % 256;
  iccid = 0x53 ∷ 0x49 ∷ 0x4d ∷ (replicate 12 0x30 ++ (0x31 ∷ []));
  config_data_cnt = 0;
  config_data = [];
}

login_read : (id : ℕ) → decode_login_data bcd (client_login id) ≡ ok (client_login_data id)
unfolding decode_login_data time_at_start decode_time6 parse_bcd_time6 date settle roll days_in
    is_leap read_configs configs_from slice index uint16_at be_uint16
login_read id = refl

-- What the handler is to hear of a client that comes to its end.
abbrev pub client_calls : ℕ → List Call
client_calls id =
    vehicle_login (client_login_data id)
    ∷ realtime_data (client_readings 0)
    ∷ realtime_data (client_readings 1)
    ∷ heartbeat
    ∷ vehicle_logout logout_data
    ∷ []

client-AllMean :
    (id : ℕ) → AllMean (packets (padded_vin id) (client_transmissions id)) (client_calls id)
client-AllMean id = also _ _ _ _ refl (means_login _ (client_login_data id) refl (login_read id)) (
    also _ _ _ _ refl
      (means_realtime _ (client_readings 0) refl (decode_realtime_data-build_realtime 0))
      (also _ _ _ _ refl
        (means_realtime _ (client_readings 1) refl (decode_realtime_data-build_realtime 1))
        (also _ _ _ _ refl (means_heartbeat _ refl)
          (also _ _ _ _ refl (means_logout _ logout_data refl logout_read) nothing))))

client-Fits : (id : ℕ) → All Fits (client_transmissions id)
client-Fits id = (omega arith, (omega arith, (omega arith, (omega arith, (omega arith, tt)))))

-- The first packets mean the first calls.
AllMean-take :
    (vin : List ℕ) (done rest : List Transmission) (cs : List Call)
    → AllMean (packets vin (done ++ rest)) cs
    → AllMean (packets vin done) (take (length done) cs)
AllMean-take vin [] rest cs h = nothing
AllMean-take vin (t ∷ done) rest _ (also p c ps cs plain m h) =
    also _ c _ _ plain m (AllMean-take vin done rest cs h)

-- Each transmission in a read of its own.
abbrev one_by_one : List Transmission → List (List Transmission)
one_by_one = map (λ t. t ∷ [])

concat-one_by_one : (ts : List Transmission) → concat (one_by_one ts) ≡ ts
concat-one_by_one [] = refl
concat-one_by_one (t ∷ ts) = ap (◌∷◌ t) (concat-one_by_one ts)

reads-one_by_one :
    (frame : Transmission → List ℕ) (ts : List Transmission)
    → map (together frame) (one_by_one ts) ≡ map frame ts
reads-one_by_one frame [] = refl
reads-one_by_one frame (t ∷ ts) = rw (append-nil (frame t), reads-one_by_one frame ts) refl

length-map_frame :
    (frame : Transmission → List ℕ) (ts : List Transmission) → length (map frame ts) ≡ length ts
length-map_frame frame [] = refl
length-map_frame frame (t ∷ ts) = ap suc (length-map_frame frame ts)

-- A client of the stress test and the server together: whatever the client's network does to it,
-- each frame that it has written is read by the server on a connection whose context is not cancelled and with nothing unread, of
-- a server that has a handler and lets the client's VIN in, padded with zeros. Then the connection
-- runs to its end without a panic, and the handler hears the login, two realtime messages with the
-- values that the client has put in, a heartbeat and the logout, or as many of them as the client has
-- written frames, in this order and nothing else.
pub run-run_client :
    (env : Env) (w : World) (net : Network) (id : ℕ) (s : Stats)
    → env.has_handler ≡ true
    → Accepts env (padded_vin id)
    → is_done w.conn.context ≡ false
    → IsDrained w.conn.decoder.bcc_include_start w.conn.decoder
    → let frames = (run_client net id s).frames in
      Gives
        (λ w'.
          calls_of w'.trace ≡ put_calls (take (length frames) (client_calls id)) (calls_of w.trace))
        (run env w frames)
unfolding build_packet
run-run_client env w net id s set accepts live drained =
    let part = run_client-IsPartOf net id s in
    let frame = client_frame id in
    let same = concat-one_by_one part.done in
    let hv : length (padded_vin id) ≡ vin_length =
      length-copy (replicate vin_length 0) (client_vin id) in
    let fits =
      All-append part.done part.rest (subst (All Fits) (sym part.splits) (client-Fits id)) in
    let mean = AllMean-take (padded_vin id) part.done part.rest (client_calls id) (
      subst (λ ts. AllMean (packets (padded_vin id) ts) (client_calls id)) (sym part.splits)
        (client-AllMean id)) in
    rw (part.has_written, length-map_frame frame part.done, ← reads-one_by_one frame part.done)
      (run-terminal env w (padded_vin id) (one_by_one part.done)
        (take (length part.done) (client_calls id)) hv set accepts live drained
        (subst (All Fits) (sym same) fits.0)
        (subst
          (λ ts. AllMean (packets (padded_vin id) ts) (take (length part.done) (client_calls id)))
          (sym same) mean))

-- ===== src/Client/Simulator.antt =====
-- cmd/simclient/main.go: a simulated terminal, with what it sends from its login to its logout.
use gb32960_go_sdk.Base.{
  ℕ, ◌+◌, ◌*◌, ◌%◌, List, [], ◌∷◌, ◌++◌, map, replicate, put_uint16, put_uint32,
}
use gb32960_go_sdk.Constant.{vin_length}
use gb32960_go_sdk.Constant.Cmd
use gb32960_go_sdk.Client.{copy, assemble}

-- The VIN is padded with spaces.
unfoldable pub build_packet : ℕ → List ℕ → List ℕ → List ℕ
unfolding assemble
build_packet command vin body = assemble command (copy (replicate vin_length 0x20) vin) body

-- "SIMUVIN1234567890"
abbrev pub simulated_vin : List ℕ
simulated_vin =
    0x53 ∷ 0x49 ∷ 0x4d ∷ 0x55 ∷ 0x56 ∷ 0x49 ∷ 0x4e ∷ 0x31 ∷ 0x32 ∷ 0x33 ∷ 0x34 ∷ 0x35 ∷ 0x36 ∷ 0x37
    ∷ 0x38 ∷ 0x39 ∷ 0x30 ∷ []

-- The sequence number 1 and an ICCID of sixteen bytes, "SIMCARD000000001".
abbrev pub simulated_login : List ℕ
simulated_login =
    0x26 ∷ 0x05 ∷ 0x0e ∷ 0x0e ∷ 0x30 ∷ 0x00 ∷ 0x00 ∷ 0x01 ∷ 0x10 ∷ 0x53 ∷ 0x49 ∷ 0x4d ∷ 0x43 ∷ 0x41
    ∷ 0x52 ∷ 0x44 ∷ 0x30 ∷ 0x30 ∷ 0x30 ∷ 0x30 ∷ 0x30 ∷ 0x30 ∷ 0x30 ∷ 0x30 ∷ 0x31 ∷ 0x00 ∷ []

abbrev vehicle_bytes : ℕ → List ℕ
vehicle_bytes seq =
    0x01
    ∷ 0x01
    ∷ 0x01
    ∷ (put_uint16 ((400 + seq * 50) % 65536)
        ++ (put_uint32 ((123450 + seq * 100) % 4294967296)
            ++ (put_uint16 ((380 + seq) % 65536)
                ++ (put_uint16 ((200 + seq * 10) % 65536)
                    ++ ((80 + seq) % 256 ∷ 0x01 ∷ 0x03 ∷ (put_uint16 9999 ++ (0 ∷ 0 ∷ [])))))))

abbrev position_bytes : ℕ → List ℕ
position_bytes seq =
    put_uint32 ((121473708 + seq * 1000 % 4294967296) % 4294967296)
    ++ put_uint32 ((31235538 + seq * 500 % 4294967296) % 4294967296)

abbrev extreme_bytes : ℕ → List ℕ
extreme_bytes seq =
    put_uint16 ((4100 + seq * 10 % 65536) % 65536)
    ++ (0x05 ∷ (put_uint16 3700 ++ (0x10 ∷ (40 + seq) % 256 ∷ 0x03 ∷ 15 ∷ 0x1f ∷ [])))

-- A message of three fields, of vehicle data, position and extreme values.
abbrev pub build_realtime_data : ℕ → List ℕ
build_realtime_data seq =
    0x26
    ∷ 0x05
    ∷ 0x0e
    ∷ 0x0e
    ∷ 0x30
    ∷ seq * 10 % 256
    ∷ 0x01
    ∷ (vehicle_bytes seq ++ (0x05 ∷ (position_bytes seq ++ (0x06 ∷ extreme_bytes seq))))

abbrev pub simulated_logout : List ℕ
simulated_logout = 0x26 ∷ 0x05 ∷ 0x0e ∷ 0x0e ∷ 0x35 ∷ 0x00 ∷ 0x00 ∷ 0x03 ∷ []

-- The calls of `sendPacket` in `main`, with their commands and data. A write that fails is logged, and
-- `main` goes on.
abbrev pub transmissions : List (ℕ × List ℕ)
transmissions =
    (Cmd.login, simulated_login)
    ∷ (map {A = ℕ} (λ i. (Cmd.realtime, build_realtime_data i)) (1 ∷ 2 ∷ 3 ∷ [])
        ++ (map {A = ℕ} (λ i. (Cmd.heartbeat, [])) (1 ∷ 2 ∷ [])
            ++ ((Cmd.logout, simulated_logout) ∷ [])))

pub simulate : List (List ℕ)
unfolding build_packet
simulate = map (λ t. build_packet t.0 simulated_vin t.1) transmissions

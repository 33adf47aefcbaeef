-- ===== src/Client/Stress.antt =====
-- cmd/stresstest/main.go: a client of the stress test, and the counts that all clients share.
use gb32960_go_sdk.Base.{
  ℕ, zero, suc, ◌+◌, ◌*◌, ◌/◌, ◌%◌, ◌-◌, Bool, true, false, not, ltb, if◌then◌else◌, List, [], ◌∷◌,
  ◌++◌, Option, none, some, length, replicate, put_uint16, put_uint32,
}
use gb32960_go_sdk.Constant.{vin_length}
use gb32960_go_sdk.Constant.Cmd
use gb32960_go_sdk.Client.{copy, assemble}

-- The VIN is padded with zeros.
unfoldable pub build_packet : ℕ → List ℕ → List ℕ → List ℕ
unfolding assemble
build_packet command vin body = assemble command (copy (replicate vin_length 0) vin) body

-- `%d` of a number that has at most `fuel` digits, and one of an int has at most nineteen.
unfoldable pub decimal : ℕ → ℕ → List ℕ
decimal zero n = []
decimal (suc fuel) n =
    let front = decimal fuel (n / 10) in
    if ltb n 10 then (0x30 + n) ∷ [] else front ++ ((0x30 + n % 10) ∷ [])

-- `fmt.Sprintf("HC%013d", id)`
unfoldable pub client_vin : ℕ → List ℕ
unfolding decimal
client_vin id =
    let digits = decimal 19 id in 0x48 ∷ 0x43 ∷ (replicate (13 - length digits) 0x30 ++ digits)

-- The sequence number is the client's, and the ICCID "SIM0000000000001".
abbrev pub client_login : ℕ → List ℕ
client_login id =
    0x26
    ∷ 0x05
    ∷ 0x0e
    ∷ 0x0e
    ∷ 0x30
    ∷ 0x00
    ∷ id / 256 % 256
    ∷ id % 256
    ∷ 0x10
    ∷ 0x53
    ∷ 0x49
    ∷ 0x4d
    ∷ (replicate 12 0x30 ++ (0x31 ∷ 0x00 ∷ []))

-- A message of vehicle data and a position.
abbrev pub build_realtime : ℕ → List ℕ
build_realtime seq =
    0x26
    ∷ 0x05
    ∷ 0x0e
    ∷ 0x0e
    ∷ 0x30
    ∷ seq * 10 % 256
    ∷ 0x01
    ∷ 0x01
    ∷ 0x01
    ∷ 0x01
    ∷ (put_uint16 ((400 + seq * 50) % 65536)
        ++ (put_uint32 ((123450 + seq * 100) % 4294967296)
            ++ (put_uint16 380
                ++ (put_uint16 200
                    ++ (85
                        ∷ (replicate 6 0
                            ++ (0x05 ∷ (put_uint32 121473708 ++ put_uint32 31235538))))))))

abbrev pub client_logout : List ℕ
client_logout = 0x26 ∷ 0x05 ∷ 0x0e ∷ 0x0e ∷ 0x35 ∷ 0x00 ∷ 0x00 ∷ 0x03 ∷ []

-- The counters are atomic, and each `Add` is one step.
pub record Stats : Type 0 where
  pub conned : ℕ
  pub failed : ℕ
  pub authed : ℕ
  pub realdata : ℕ
  pub heartbeats : ℕ
  pub bytes_sent : ℕ
  pub bytes_recv : ℕ
  pub total_latency : ℕ
  pub latency_count : ℕ

pub no_stats : Stats
no_stats = record {
  conned = 0;
  failed = 0;
  authed = 0;
  realdata = 0;
  heartbeats = 0;
  bytes_sent = 0;
  bytes_recv = 0;
  total_latency = 0;
  latency_count = 0;
}

-- The network of one client: whether it is reached, what a write and a read give after the frames
-- that were written, and how long the login takes. A write gives the bytes it took, or `none` for an
-- error; a read gives the bytes it got, and whether there is an error.
pub record Network : Type 0 where
  pub dials : Bool
  pub write : List (List ℕ) → List ℕ → Option ℕ
  pub read : List (List ℕ) → ℕ × Bool
  pub latency : ℕ

-- The frames that were written without an error, in their order, and the counts.
pub record Client : Type 0 where
  pub frames : List (List ℕ)
  pub stats : Stats

-- A frame that is written, with its bytes counted.
abbrev pub wrote : Client → List ℕ → ℕ → Client
wrote c frame n = record {
  frames = c.frames ++ (frame ∷ []);
  stats = record c.stats { bytes_sent = c.stats.bytes_sent + n };
}

-- The end of `sendAndRecv`: an error of the read is passed over where there are bytes.
abbrev pub received : Client → ℕ × Bool → Bool × Client
received c (n, true) = (ltb 0 n, c)
received c (n, false) =
    (true, record c { stats = record c.stats { bytes_recv = c.stats.bytes_recv + n } })

unfoldable pub send_and_recv : Network → ℕ → List ℕ → List ℕ → Client → Bool × Client
unfolding build_packet
send_and_recv net command vin body c =
    let frame = build_packet command vin body in
    elim (net.write c.frames frame) [
      | none ↦ (false, c)
      | some n ↦ received (wrote c frame n) (net.read (wrote c frame n).frames)
    ]

unfoldable pub send_only : Network → ℕ → List ℕ → List ℕ → Client → Bool × Client
unfolding build_packet
send_only net command vin body c =
    let frame = build_packet command vin body in
    elim (net.write c.frames frame) [ none ↦ (false, c) | some n ↦ (true, wrote c frame n) ]

-- `if !send(...) { return }`
abbrev pub if_sent : Bool × Client → (Client → Client) → Client
if_sent (false, c) more = c
if_sent (true, c) more = more c

abbrev pub with_stats : Client → Stats → Client
with_stats c s = record c { stats = s }

-- The end of `runClient`, after the realtime messages.
unfoldable pub finish_client : Network → List ℕ → Client → Client
unfolding send_only
finish_client net vin c = if_sent (send_only net Cmd.heartbeat vin [] c) λ c1.
    (send_only net Cmd.logout vin client_logout
      (with_stats c1 (record c1.stats { heartbeats = c1.stats.heartbeats + 1 }))).1

-- The loop over the realtime messages, with what follows it.
unfoldable pub realtime_loop : Network → List ℕ → List ℕ → (Client → Client) → Client → Client
unfolding send_only
realtime_loop net vin [] more c = more c
realtime_loop net vin (i ∷ is) more c =
    if_sent (send_only net Cmd.realtime vin (build_realtime i) c) λ c1.
      realtime_loop net vin is more
        (with_stats c1 (record c1.stats { realdata = c1.stats.realdata + 1 }))

-- What follows the login.
unfoldable pub after_login : Network → List ℕ → Bool × Client → Client
unfolding realtime_loop finish_client
after_login net vin (false, c) = with_stats c (record c.stats { failed = c.stats.failed + 1 })
after_login net vin (true, c) = realtime_loop net vin (0 ∷ 1 ∷ []) (finish_client net vin) (
    with_stats c (record c.stats {
      total_latency = c.stats.total_latency + net.latency;
      latency_count = c.stats.latency_count + 1;
      authed = c.stats.authed + 1;
    }))

unfoldable pub run_client : Network → ℕ → Stats → Client
unfolding after_login client_vin send_and_recv
run_client net id s =
    if not net.dials
    then record { frames = []; stats = record s { failed = s.failed + 1 } }
    else let vin = client_vin id in
      after_login net vin (
        send_and_recv net Cmd.login vin (client_login id)
          (record { frames = []; stats = record s { conned = s.conned + 1 } }))

-- The clients of `main`, from `id` on, each with its own network.
unfoldable pub run_clients : (ℕ → Network) → ℕ → ℕ → Stats → Stats
unfolding run_client
run_clients nets id zero s = s
run_clients nets id (suc n) s = run_clients nets (id + 1) n (run_client (nets id) id s).stats

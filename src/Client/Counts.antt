-- ===== src/Client/Counts.antt =====
-- The counts of the stress test.
use gb32960_go_sdk.Base.{
  ℕ, zero, suc, ◌+◌, ◌*◌, ◌≤◌, ◌≡◌, refl, Bool, true, false, not, inl, inr, List, [], ◌∷◌, length,
  Option-cases, arith,
}
use gb32960_go_sdk.Constant.Cmd
use gb32960_go_sdk.Client.Stress.{
  build_packet, client_vin, client_login, build_realtime, client_logout, Stats, Network, Client,
  wrote, received, send_and_recv, with_stats, finish_client, realtime_loop, after_login, run_client,
  run_clients,
}
use gb32960_go_sdk.Client.Rule.{if_sent-rule, send_only-rule, choose-client}

-- How the counts of a run of `n` clients differ from those before: every client has failed or is
-- authenticated, and each that is authenticated was connected, has one login time, and has sent two
-- realtime messages and one heartbeat at most.
pub record IsAccounted (n : ℕ) (s s' : Stats) : Type 0 where
  pub all_counted : s'.failed + s'.authed ≡ s.failed + s.authed + n
  pub conned_bounds : (s'.authed + s.conned ≤ s'.conned + s.authed) × (s'.conned ≤ s.conned + n)
  pub latencies : s'.latency_count + s.authed ≡ s.latency_count + s'.authed
  pub realdata_bound : s'.realdata + 2 * s.authed ≤ s.realdata + 2 * s'.authed
  pub heartbeats_bound : s'.heartbeats + s.authed ≤ s.heartbeats + s'.authed

-- The counts of a client that is connected, before it has logged in or failed.
record IsConnected (s : Stats) (c : Client) : Type 0 where
  conned_one : c.stats.conned ≡ s.conned + 1
  failed_same : c.stats.failed ≡ s.failed
  authed_same : c.stats.authed ≡ s.authed
  latencies_same : c.stats.latency_count ≡ s.latency_count
  realdata_same : c.stats.realdata ≡ s.realdata
  heartbeats_same : c.stats.heartbeats ≡ s.heartbeats

-- The counts of one that has logged in and has sent some messages.
record IsLoggedIn (s : Stats) (realdata heartbeats : ℕ) (c : Client) : Type 0 where
  conned_one : c.stats.conned ≡ s.conned + 1
  failed_same : c.stats.failed ≡ s.failed
  authed_one : c.stats.authed ≡ s.authed + 1
  latencies_one : c.stats.latency_count ≡ s.latency_count + 1
  realdata_sent : c.stats.realdata ≡ s.realdata + realdata
  heartbeats_sent : c.stats.heartbeats ≡ s.heartbeats + heartbeats

IsLoggedIn-IsAccounted :
    (s : Stats) (r h : ℕ) (c : Client)
    → IsLoggedIn s r h c
    → r ≤ 2
    → h ≤ 1
    → IsAccounted 1 s c.stats
IsLoggedIn-IsAccounted s r h c k hr hh = record {
  all_counted = omega (arith, k.failed_same, k.authed_one);
  conned_bounds = (omega (arith, k.conned_one, k.authed_one), omega (arith, k.conned_one));
  latencies = omega (arith, k.latencies_one, k.authed_one);
  realdata_bound = omega (arith, k.realdata_sent, k.authed_one);
  heartbeats_bound = omega (arith, k.heartbeats_sent, k.authed_one);
}

wrote-IsLoggedIn :
    (s : Stats) (r h : ℕ) (c : Client) (frame : List ℕ) (n : ℕ)
    → IsLoggedIn s r h c
    → IsLoggedIn s r h (wrote c frame n)
wrote-IsLoggedIn s r h c frame n k = record {
  conned_one = k.conned_one;
  failed_same = k.failed_same;
  authed_one = k.authed_one;
  latencies_one = k.latencies_one;
  realdata_sent = k.realdata_sent;
  heartbeats_sent = k.heartbeats_sent;
}

finish_client-IsAccounted :
    (s : Stats) (net : Network) (vin : List ℕ) (r : ℕ) (c : Client)
    → r ≤ 2
    → IsLoggedIn s r 0 c
    → IsAccounted 1 s (finish_client net vin c).stats
unfolding finish_client
finish_client-IsAccounted s net vin r c hr k =
    if_sent-rule (λ c. IsAccounted 1 s c.stats) net Cmd.heartbeat vin [] c _
      (IsLoggedIn-IsAccounted s r 0 c k hr (omega arith))
      λ n.
        let c1 = wrote c (build_packet Cmd.heartbeat vin []) n in
        let c2 = with_stats c1 (record c1.stats { heartbeats = c1.stats.heartbeats + 1 }) in
        let k2 : IsLoggedIn s r 1 c2 = record {
          conned_one = k.conned_one;
          failed_same = k.failed_same;
          authed_one = k.authed_one;
          latencies_one = k.latencies_one;
          realdata_sent = k.realdata_sent;
          heartbeats_sent = omega (arith, k.heartbeats_sent);
        } in
        send_only-rule (λ c. IsAccounted 1 s c.stats) net Cmd.logout vin client_logout c2
          (IsLoggedIn-IsAccounted s r 1 c2 k2 hr (omega arith))
          λ m.
            IsLoggedIn-IsAccounted s r 1 (wrote c2 (build_packet Cmd.logout vin client_logout) m)
              (wrote-IsLoggedIn s r 1 c2 (build_packet Cmd.logout vin client_logout) m k2) hr
              (omega arith)

realtime_loop-IsAccounted :
    (s : Stats) (net : Network) (vin is : List ℕ) (r : ℕ) (c : Client)
    → IsLoggedIn s r 0 c
    → r + length is ≤ 2
    → IsAccounted 1 s (realtime_loop net vin is (finish_client net vin) c).stats
unfolding realtime_loop
realtime_loop-IsAccounted s net vin [] r c k b =
    finish_client-IsAccounted s net vin r c (omega arith) k
realtime_loop-IsAccounted s net vin (i ∷ is) r c k b =
    if_sent-rule (λ c. IsAccounted 1 s c.stats) net Cmd.realtime vin (build_realtime i) c _
      (IsLoggedIn-IsAccounted s r 0 c k (omega arith) (omega arith))
      λ n.
        realtime_loop-IsAccounted s net vin is (suc r) _
          (record {
            conned_one = k.conned_one;
            failed_same = k.failed_same;
            authed_one = k.authed_one;
            latencies_one = k.latencies_one;
            realdata_sent = omega (arith, k.realdata_sent);
            heartbeats_sent = k.heartbeats_sent;
          })
          (omega arith)

after_login-IsAccounted :
    (s : Stats) (net : Network) (vin : List ℕ) (fine : Bool) (c : Client)
    → IsConnected s c
    → IsAccounted 1 s (after_login net vin (fine, c)).stats
unfolding after_login
after_login-IsAccounted s net vin false c k = record {
  all_counted = omega (arith, k.failed_same, k.authed_same);
  conned_bounds = (omega (arith, k.conned_one, k.authed_same), omega (arith, k.conned_one));
  latencies = omega (arith, k.latencies_same, k.authed_same);
  realdata_bound = omega (arith, k.realdata_same, k.authed_same);
  heartbeats_bound = omega (arith, k.heartbeats_same, k.authed_same);
}
after_login-IsAccounted s net vin true c k =
    realtime_loop-IsAccounted s net vin (0 ∷ 1 ∷ []) 0 _
      (record {
        conned_one = k.conned_one;
        failed_same = k.failed_same;
        authed_one = omega (arith, k.authed_same);
        latencies_one = omega (arith, k.latencies_same);
        realdata_sent = omega (arith, k.realdata_same);
        heartbeats_sent = omega (arith, k.heartbeats_same);
      })
      (omega arith)

received-IsConnected :
    (s : Stats) (c : Client) (got : ℕ × Bool) → IsConnected s c → IsConnected s (received c got).1
received-IsConnected s c (n, true) k = k
received-IsConnected s c (n, false) k = record {
  conned_one = k.conned_one;
  failed_same = k.failed_same;
  authed_same = k.authed_same;
  latencies_same = k.latencies_same;
  realdata_same = k.realdata_same;
  heartbeats_same = k.heartbeats_same;
}

send_and_recv-IsConnected :
    (s : Stats) (net : Network) (command : ℕ) (vin body : List ℕ) (c : Client)
    → IsConnected s c
    → IsConnected s (send_and_recv net command vin body c).1
unfolding send_and_recv
send_and_recv-IsConnected s net command vin body c k =
    elim (Option-cases (net.write c.frames (build_packet command vin body))) [
      | inl e ↦ rw (e, send_and_recv) k
      | inr (n, e) ↦
          rw (e, send_and_recv)
            (received-IsConnected s (wrote c (build_packet command vin body) n)
              (net.read (wrote c (build_packet command vin body) n).frames)
              (record {
                conned_one = k.conned_one;
                failed_same = k.failed_same;
                authed_same = k.authed_same;
                latencies_same = k.latencies_same;
                realdata_same = k.realdata_same;
                heartbeats_same = k.heartbeats_same;
              }))
    ]

run_client-IsAccounted :
    (net : Network) (id : ℕ) (s : Stats) → IsAccounted 1 s (run_client net id s).stats
unfolding run_client
run_client-IsAccounted net id s =
    let vin = client_vin id in
    let c : Client = record { frames = []; stats = record s { conned = s.conned + 1 } } in
    let r = send_and_recv net Cmd.login vin (client_login id) c in
    choose-client (λ c. IsAccounted 1 s c.stats) (not net.dials) _ _
      (record {
        all_counted = omega arith;
        conned_bounds = (omega arith, omega arith);
        latencies = omega arith;
        realdata_bound = omega arith;
        heartbeats_bound = omega arith;
      })
      (after_login-IsAccounted s net vin r.0 r.1 (
        send_and_recv-IsConnected s net Cmd.login vin (client_login id) c (record {
          conned_one = refl;
          failed_same = refl;
          authed_same = refl;
          latencies_same = refl;
          realdata_same = refl;
          heartbeats_same = refl;
        })))

-- The counts of the stress test, whatever the networks of its clients do: from any counts on, after
-- `n` clients each of them has either failed or is authenticated. Those that are authenticated were
-- connected, and no more than `n` were; there is one login time for each authenticated client, and
-- at most two realtime messages and one heartbeat.
pub run_clients-IsAccounted :
    (nets : ℕ → Network) (id n : ℕ) (s : Stats) → IsAccounted n s (run_clients nets id n s)
unfolding run_clients
run_clients-IsAccounted nets id zero s = record {
  all_counted = omega arith;
  conned_bounds = (omega arith, omega arith);
  latencies = omega arith;
  realdata_bound = omega arith;
  heartbeats_bound = omega arith;
}
run_clients-IsAccounted nets id (suc n) s =
    let a = run_client-IsAccounted (nets id) id s in
    let b = run_clients-IsAccounted nets (id + 1) n (run_client (nets id) id s).stats in
    record {
      all_counted = omega (arith, a.all_counted, b.all_counted);
      conned_bounds = (
        omega (arith, a.conned_bounds.0, b.conned_bounds.0),
        omega (arith, a.conned_bounds.1, b.conned_bounds.1),
      );
      latencies = omega (arith, a.latencies, b.latencies);
      realdata_bound = omega (arith, a.realdata_bound, b.realdata_bound);
      heartbeats_bound = omega (arith, a.heartbeats_bound, b.heartbeats_bound);
    }

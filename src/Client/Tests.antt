-- ===== src/Client/Tests.antt =====
-- The terminals of cmd/ on the server of cmd/example, whose network fails at every other write.
use gb32960_go_sdk.Base.{
  ℕ, ◌%◌, ◌≡◌, refl, sym, ◌∙◌, Bool, true, false, ◌==◌, List, [], ◌∷◌, none, some, map, take, drop,
  length, arith,
}
use gb32960_go_sdk.Base.Integers.{pos}
use gb32960_go_sdk.GoTime.{Time}
use gb32960_go_sdk.Crypto.{BlockCipher, xor_block}
use gb32960_go_sdk.Crypto.Blocks.{xor_block-IsBlock, xor_block_twice}
use gb32960_go_sdk.Decoder.{Decoder, bcd, new_decoder_with_config, feed}
use gb32960_go_sdk.Decoder.Stream.{unread}
use gb32960_go_sdk.Decoder.Buffer.{feed-IsValid}
use gb32960_go_sdk.VinRegistry.{new_vin_registry}
use gb32960_go_sdk.Connection.{running, World, Env, Event, conn_new, heartbeat}
use gb32960_go_sdk.Decoder.Rows.{Frame, packet_in, row}
use gb32960_go_sdk.Connection.Run.{run, with_decoder, process_packets}
use gb32960_go_sdk.Connection.Order.{Handled, process_packets-Handled}
use gb32960_go_sdk.Connection.Rule.{Gives}
use gb32960_go_sdk.Connection.Rows.{IsDrained}
use gb32960_go_sdk.Connection.Calls.{calls_of, nothing, also, means_heartbeat}
use gb32960_go_sdk.Connection.Session.{put_calls, run-calls_of}
use gb32960_go_sdk.Client.Frames.{assembled, assembled-IsFrame}
use gb32960_go_sdk.Client.Example.{example_env}
use gb32960_go_sdk.Client.Simulator.{build_packet, simulated_vin, transmissions}
use gb32960_go_sdk.Client.Journey.{Transmission, together}
use gb32960_go_sdk.Client.Served.{simulated_calls, run-simulated}
use gb32960_go_sdk.Client.Stress.{no_stats, Network, run_client, run_clients}
use gb32960_go_sdk.Client.StressServed.{client_calls, run-run_client}
use gb32960_go_sdk.Client.Counts.{IsAccounted, run_clients-IsAccounted}

abbrev mixing : BlockCipher
mixing = record {
  encipher = λ k b. xor_block b k;
  decipher = λ k b. xor_block b k;
  encipher_block = λ k b hk hb. xor_block-IsBlock b k hb hk;
  decipher_encipher = λ k b hk hb. xor_block_twice b k (hb.sized ∙ sym hk.sized);
}

abbrev noon : Time
noon = record { year = 2024; month = 2; day = 29; hour = 12; minute = 0; second = 0 }

abbrev every_other : List Event → List ℕ → Bool
every_other t frame = length t % 2 == 0

abbrev env : Env
env = example_env (λ t. noon) every_other mixing

abbrev decoder : Decoder
decoder = feed (new_decoder_with_config bcd false) []

decoder-IsDrained : IsDrained decoder.bcc_include_start decoder
unfolding feed new_decoder_with_config
decoder-IsDrained = record {
  valid = feed-IsValid (new_decoder_with_config bcd false) [];
  mode = refl;
  empty = refl;
}

abbrev fresh : World
fresh = record {
  conn = record {
    id = 1 ∷ [];
    self = 1;
    state = conn_new;
    context = running;
    vin = [];
    iccid = [];
    encrypt_key = none;
    decoder = decoder;
  };
  server = record {
    connections = (1 ∷ [], 1) ∷ [];
    conn_count = pos 1;
    vin_registry = new_vin_registry;
  };
  trace = [];
}

-- All that the terminal sends, in three reads of one, five and one frames.
abbrev cut : List (List Transmission)
cut = take 1 transmissions ∷ take 5 (drop 1 transmissions) ∷ drop 6 transmissions ∷ []

run-simulated_example :
    Gives
      (λ w'. calls_of w'.trace ≡ put_calls simulated_calls [])
      (run env fresh (map (together (λ t. build_packet t.0 simulated_vin t.1)) cut))
run-simulated_example = run-simulated env fresh cut refl (λ t. refl) refl decoder-IsDrained refl

-- A network on which the fourth write fails.
abbrev breaking : Network
breaking = record {
  dials = true;
  write = λ fs frame. elim (length fs == 3) [ true ↦ none | false ↦ some (length frame) ];
  read = λ fs. (36, false);
  latency = 5;
}

breaks_off : length (run_client breaking 42 no_stats).frames ≡ 3
unfolding run_client
breaks_off = refl

run-run_client_example :
    let fs = (run_client breaking 42 no_stats).frames in
    Gives
      (λ w'. calls_of w'.trace ≡ put_calls (take (length fs) (client_calls 42)) [])
      (run env fresh fs)
run-run_client_example =
    run-run_client env fresh breaking 42 no_stats refl (λ t. refl) refl decoder-IsDrained

-- A network for each client, of which the odd ones are not reached.
abbrev networks : ℕ → Network
networks id = record breaking { dials = id % 2 == 0 }

run_clients-IsAccounted_example : IsAccounted 5 no_stats (run_clients networks 0 5 no_stats)
run_clients-IsAccounted_example = run_clients-IsAccounted networks 0 5 no_stats

-- Two frames in one read: a heartbeat and an empty message that is no vehicle's.
abbrev beat : Frame
beat = assembled 7 simulated_vin []

abbrev odd : Frame
odd = assembled 0x55 simulated_vin (1 ∷ 2 ∷ [])

abbrev two : List Frame
two = beat ∷ odd ∷ []

abbrev loaded : World
loaded = with_decoder fresh (feed decoder (row two))

loaded-unread : unread loaded.conn.decoder ≡ row two
unfolding feed new_decoder_with_config
loaded-unread = refl

process_packets-Handled_example :
    Gives
      (λ w'.
        Handled env loaded (map packet_in two) w'
        × IsDrained loaded.conn.decoder.bcc_include_start w'.conn.decoder)
      (process_packets env loaded)
process_packets-Handled_example =
    process_packets-Handled env loaded two (feed-IsValid decoder (row two))
      (
        assembled-IsFrame 7 simulated_vin [] refl (omega arith)
            loaded.conn.decoder.bcc_include_start,
        (
          assembled-IsFrame 0x55 simulated_vin (1 ∷ 2 ∷ []) refl (omega arith)
              loaded.conn.decoder.bcc_include_start,
          tt,
        ),
      )
      loaded-unread

run-calls_of_example :
    Gives
      (λ w'. calls_of w'.trace ≡ put_calls (heartbeat ∷ heartbeat ∷ []) [])
      (run env fresh (map row ((beat ∷ []) ∷ (beat ∷ []) ∷ [])))
run-calls_of_example =
    let fine = assembled-IsFrame 7 simulated_vin [] refl (omega arith) in
    run-calls_of env fresh simulated_vin ((beat ∷ []) ∷ (beat ∷ []) ∷ [])
      (heartbeat ∷ heartbeat ∷ []) refl (λ t. refl) refl decoder-IsDrained
      ((fine _, tt), ((fine _, tt), tt)) (refl, (refl, tt))
      (also _ _ _ _ refl (means_heartbeat _ refl)
        (also _ _ _ _ refl (means_heartbeat _ refl) nothing))

-- ===== src/Server/PoolTests.antt =====
-- A server with room for two connections and an idle timeout of a minute.
use gb32960_go_sdk.Base.{
  zero, suc, ◌*◌, ◌≡◌, refl, sym, ◌∙◌, true, false, List, [], ◌∷◌, ◌++◌, none, some, inl, inr, All,
  get_elem?, arith,
}
use gb32960_go_sdk.Base.Integers.{increment, decrement}
use gb32960_go_sdk.GoTime.{Time}
use gb32960_go_sdk.Crypto.{BlockCipher, xor_block}
use gb32960_go_sdk.Crypto.Blocks.{xor_block-IsBlock, xor_block_twice}
use gb32960_go_sdk.Decoder.{bcd}
use gb32960_go_sdk.VinRegistry.Keys.{bytes_eq}
use gb32960_go_sdk.Connection.{Env, new_connection, forget, close, unregister}
use gb32960_go_sdk.Client.Example.{example_env}
use gb32960_go_sdk.Server.{new_server, accept, is_full}
use gb32960_go_sdk.Server.Pool.{
  Settings, Slot, Pool, new_pool, second, accept_conn, store_conn, close_conn, Move, accepts,
  stores, reads, closes, passes, probes, wakes, stops, perform, perform_all, stop,
}
use gb32960_go_sdk.Server.Outcome.{Finishes}
use gb32960_go_sdk.Server.Sound.{IsPool}
use gb32960_go_sdk.Server.Reach.{Reaches, starts, moves, IsFresh, Reaches-IsPool}
use gb32960_go_sdk.Server.Shut.{ClosedAt}
use gb32960_go_sdk.Server.Idle.{perform_all-ClosedAt}
use gb32960_go_sdk.Server.Stop.{Closes, IsStopped, perform_all-IsStopped}

abbrev mixing : BlockCipher
mixing = record {
  encipher = λ k b. xor_block b k;
  decipher = λ k b. xor_block b k;
  encipher_block = λ k b hk hb. xor_block-IsBlock b k hb hk;
  decipher_encipher = λ k b hk hb. xor_block_twice b k (hb.sized ∙ sym hk.sized);
}

abbrev noon : Time
noon = record { year = 2024; month = 2; day = 29; hour = 12; minute = 0; second = 0 }

abbrev env : Env
env = example_env (λ t. noon) (λ t frame. true) mixing

abbrev st : Settings
st = record {
  max_conns = 2;
  idle_timeout = 60 * second;
  time_codec = bcd;
  bcc_include_start = false;
}

abbrev empty_pool : Pool
empty_pool = new_pool (1000 * second)

abbrev one : Pool
one = store_conn st (accept_conn (1 ∷ []) empty_pool)

abbrev two : Pool
two = store_conn st (accept_conn (2 ∷ []) one)

first-IsFresh : IsFresh st stores (accept_conn (1 ∷ []) empty_pool)
unfolding new_pool
first-IsFresh id a i s e = cc

second-IsFresh : IsFresh st stores (accept_conn (2 ∷ []) one)
unfolding new_pool store_conn new_server is_full new_connection
second-IsFresh id a zero s e = λ same. cc
second-IsFresh id a (suc i) s e = cc

two-Reaches : Reaches st env two
unfolding perform
two-Reaches =
    moves stores
      (moves (accepts (2 ∷ []))
        (moves stores (moves (accepts (1 ∷ [])) (starts (1000 * second)) tt refl) first-IsFresh
          refl)
        tt refl)
      second-IsFresh refl

Reaches-IsPool_example : IsPool st two
Reaches-IsPool_example = Reaches-IsPool st env two two-Reaches

nothing_accepted : two.accepted ≡ none
unfolding new_pool store_conn new_server is_full increment
nothing_accepted = refl

-- The second connection reads half a marker before it is closed, and another one knocks.
abbrev stopping : List Move
stopping = closes 0 ∷ accepts (3 ∷ []) ∷ reads 1 (0x23 ∷ []) ∷ stores ∷ closes 1 ∷ []

two_entries : All (λ e. Closes e.1 stopping) two.server.connections
unfolding new_pool store_conn accept new_server is_full increment forget bytes_eq
two_entries = (inr (inr (inr (inr (inl refl)))), (inl refl, tt))

perform_all-IsStopped_example :
    Finishes (IsStopped st env two.server.connections) (perform_all st env (stops ∷ stopping) two)
perform_all-IsStopped_example =
    perform_all-IsStopped st env two stopping (Reaches-IsPool st env two two-Reaches)
      nothing_accepted two_entries

-- A connection that `Accept` has returned before `Stop` and that is stored behind its `Range` stays in
-- the map.
abbrev raced : Pool
raced = store_conn st (close_conn 0 (stop (accept_conn (2 ∷ []) one)))

left_over : raced.server.connections ≡ (2 ∷ [], 1) ∷ []
unfolding new_pool store_conn accept new_server is_full increment forget bytes_eq stop close_conn
    close unregister new_connection decrement
left_over = refl

-- The same pool a minute and a half later.
abbrev late : Pool
late = record two { clock = 1090 * second }

late-Reaches : Reaches st env late
unfolding perform new_pool store_conn new_server is_full increment
late-Reaches = moves (passes (90 * second)) two-Reaches tt refl

abbrev silent : Slot
silent = record { conn = new_connection bcd false (1 ∷ []) 0; last_seen = 1000 }

silent_first : get_elem? late.slots 0 ≡ some silent
unfolding new_pool store_conn new_server is_full increment
silent_first = refl

check_awake : late.probing ≡ none
unfolding new_pool store_conn new_server is_full increment
check_awake = refl

abbrev meanwhile : List Move
meanwhile = passes (2 * second) ∷ reads 1 (0x23 ∷ []) ∷ passes (1 * second) ∷ []

perform_all-ClosedAt_example :
    Finishes (ClosedAt 0) (perform_all st env (probes 0 ∷ (meanwhile ++ (wakes ∷ []))) late)
perform_all-ClosedAt_example =
    perform_all-ClosedAt st env late 0 silent meanwhile
      (Reaches-IsPool st env late late-Reaches).valid silent_first check_awake (omega arith)
      (omega arith) (tt, ((λ e. cc), (tt, tt))) (omega arith)

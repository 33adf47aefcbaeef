-- ===== src/Server.antt =====
-- server.go: the connections of the server and their count, as the loop of `Start` and `unregister`
-- change them.
mod Tests
mod PoolTests
pub mod Count
pub mod Pool
pub mod Outcome
pub mod Moves
pub mod Slots
pub mod Unread
pub mod Idle
pub mod Sound
pub mod PutBack
pub mod Reach
pub mod Shut
pub mod Stop
use gb32960_go_sdk.Base.{ℕ, suc, Bool, true, false, List, [], ◌∷◌, leb, if◌then◌else◌}
use gb32960_go_sdk.Base.Integers.{ℤ, pos, negsuc, increment}
use gb32960_go_sdk.VinRegistry.{new_vin_registry}
use gb32960_go_sdk.Connection.{Server, forget}

pub new_server : Server
new_server = record { connections = []; conn_count = pos 0; vin_registry = new_vin_registry }

-- `connCount.Load() >= int64(maxConns)`
pub is_full : ℤ → ℕ → Bool
is_full (pos n) max_conns = leb max_conns n
is_full (negsuc n) max_conns = false

-- A round of the loop, with the id and the object of the new connection: over the limit the server
-- stays as it is.
pub accept : ℕ → List ℕ → ℕ → Server → Server
unfolding is_full
accept max_conns id self s = if is_full s.conn_count max_conns then s else record s {
  connections = (id, self) ∷ forget id s.connections;
  conn_count = increment s.conn_count;
}

-- ===== src/Server/Pool.antt =====
-- server.go with all its connections: the loop of `Start`, `Stop`, the idle check and the lookups. A
-- move of the pool is a step of one of its goroutines.
use gb32960_go_sdk.Base.{
  ℕ, zero, suc, ◌+◌, ◌-◌, ◌*◌, ◌/◌, Bool, true, false, ◌||◌, List, [], ◌∷◌, ◌++◌, Option, none,
  some, map, length, get_elem?, ltb, leb, ◌==◌, if◌then◌else◌, Result, ok, ◌>>=◌,
}
use gb32960_go_sdk.Constant.Cmd
use gb32960_go_sdk.Decoder.{TimeCodec}
use gb32960_go_sdk.Time6.{encode_bcd_time}
use gb32960_go_sdk.VinRegistry
use gb32960_go_sdk.VinRegistry.Keys.{bytes_eq}
use gb32960_go_sdk.Connection.{
  is_done, Connection, Server, Event, Env, World, new_connection, is_closed, send, close,
}
use gb32960_go_sdk.Connection.Run.{on_read}
use gb32960_go_sdk.Server.{new_server, is_full, accept}

-- The fields of the server that stay as the options have set them. Times are in nanoseconds.
pub record Settings : Type 0 where
  pub max_conns : ℕ
  pub idle_timeout : ℕ
  pub time_codec : TimeCodec
  pub bcc_include_start : Bool

-- A connection with its `lastSeen`, in seconds.
pub record Slot : Type 0 where
  pub conn : Connection
  pub last_seen : ℕ

-- All connections there have been, each at the place of its number, what they share, the clock, whether
-- `Stop` has cancelled the context and closed the listener, the id of a connection that `Accept` has
-- returned and that is not stored yet, and the connection for which the idle check sleeps, with the
-- time at which it wakes up.
pub record Pool : Type 0 where
  pub slots : List Slot
  pub server : Server
  pub trace : List Event
  pub clock : ℕ
  pub stopped : Bool
  pub accepted : Option (List ℕ)
  pub probing : Option (ℕ × ℕ)

unfoldable pub new_pool : ℕ → Pool
unfolding new_server
new_pool clock = record {
  slots = [];
  server = new_server;
  trace = [];
  clock = clock;
  stopped = false;
  accepted = none;
  probing = none;
}

abbrev pub second : ℕ
second = 1000000000

-- `time.Now().Unix()`
abbrev pub unix : ℕ → ℕ
unix clock = clock / second

-- `time.Since(c.LastSeen())`
abbrev pub since : Pool → Slot → ℕ
since p s = p.clock - s.last_seen * second

abbrev pub set_at : ℕ → Slot → List Slot → List Slot
set_at i t [] = []
set_at zero t (s ∷ ss) = t ∷ ss
set_at (suc i) t (s ∷ ss) = s ∷ set_at i t ss

-- A connection as a world of its own, and back.
abbrev pub focus : Pool → Slot → World
focus p s = record { conn = s.conn; server = p.server; trace = p.trace }

abbrev pub put_back : Pool → ℕ → ℕ → World → Pool
put_back p i last_seen w = record p {
  slots = set_at i (record { conn = w.conn; last_seen = last_seen }) p.slots;
  server = w.server;
  trace = w.trace;
}

abbrev pub put_back_result : Pool → ℕ → ℕ → Result World → Result Pool
put_back_result p i last_seen r = r >>= λ w. ok (put_back p i last_seen w)

-- `Accept` returns a connection, while the listener is open; the loop takes one at a time.
abbrev pub accept_conn : List ℕ → Pool → Pool
accept_conn id p =
    if p.stopped
    then p
    else elim p.accepted [ none ↦ record p { accepted = some id } | some other ↦ p ]

-- What follows `Accept`: over the limit the connection is closed at once, else it is stored. `Stop` may
-- have been called in between.
unfoldable pub store_conn : Settings → Pool → Pool
unfolding accept is_full new_connection
store_conn st p = elim p.accepted [
  | none ↦ p
  | some id ↦
      if is_full p.server.conn_count st.max_conns
      then record p { accepted = none }
      else let self = length p.slots in
        record p {
          slots =
              p.slots
              ++ (record {
                conn = new_connection st.time_codec st.bcc_include_start id self;
                last_seen = unix p.clock;
              }
                  ∷ []);
          server = accept st.max_conns id self p.server;
          accepted = none;
        }
]

-- A read of a connection whose loop goes on: some bytes set the time at which it was last seen.
unfoldable pub read_conn : Env → ℕ → List ℕ → Pool → Result Pool
unfolding on_read
read_conn env i input p = elim (get_elem? p.slots i) [
  | none ↦ ok p
  | some s ↦
      if is_done s.conn.context || length input == 0
      then ok p
      else put_back_result p i (unix p.clock) (on_read env (focus p s) input)
]

-- `Close` of a connection: from its own loop, when a read fails, or from outside.
unfoldable pub close_conn : ℕ → Pool → Pool
unfolding close
close_conn i p = elim (get_elem? p.slots i) [
  | none ↦ p
  | some s ↦ put_back p i s.last_seen (close (focus p s))
]

-- The end of the probe: a heartbeat that was sent puts the check to sleep for three seconds, one that
-- fails closes the connection.
abbrev pub probed : Pool → ℕ → Slot → Bool × World → Pool
probed p i s (true, w) = record (put_back p i s.last_seen w) {
  probing = some (i, p.clock + 3 * second);
}
probed p i s (false, w) = close_conn i (put_back p i s.last_seen w)

-- A round of the idle check for one connection, up to its sleep.
unfoldable pub idle_probe : Settings → Env → ℕ → Pool → Result Pool
unfolding close_conn send
idle_probe st env i p = elim (get_elem? p.slots i) [
  | none ↦ ok p
  | some s ↦ if is_closed s.conn.state || leb (since p s) st.idle_timeout then ok p else do
    r ← send env (focus p s) Cmd.heartbeat (encode_bcd_time (env.now p.trace))
    ok (probed p i s r)
]

-- And what follows the sleep.
unfoldable pub idle_recheck : Settings → ℕ → Pool → Pool
unfolding close_conn
idle_recheck st i p = elim (get_elem? p.slots i) [
  | none ↦ p
  | some s ↦
      if is_closed s.conn.state
      then p
      else if ltb (st.idle_timeout + 3 * second) (since p s)
      then close_conn i p
      else p
]

-- When the sleep is over the check looks again, and then goes on to other connections.
unfoldable pub idle_wake : Settings → Pool → Pool
unfolding idle_recheck
idle_wake st p = elim p.probing [
  | none ↦ p
  | some (i, due) ↦ if ltb p.clock due then p else idle_recheck st i (record p { probing = none })
]

-- The idle check takes up a connection, unless it sleeps.
abbrev pub idle_start : Settings → Env → ℕ → Pool → Result Pool
idle_start st env i p = elim p.probing [ none ↦ idle_probe st env i p | some other ↦ ok p ]

-- The beginning of `Stop`, which cancels the server's context and closes the listener. Its `Range` over
-- the map, with a call of `Close` for each connection, are moves that close, and others may come
-- between them.
unfoldable pub stop : Pool → Pool
stop p = record p { stopped = true }

-- `Connections`, `GetConnection` and `GetConnectionByVIN`, by the numbers of the connections.
pub connections : Pool → List ℕ
connections p = map (λ e. e.1) p.server.connections

unfoldable pub load : List ℕ → List (List ℕ × ℕ) → Option ℕ
load id [] = none
load id ((k, c) ∷ m) = let rest = load id m in if bytes_eq k id then some c else rest

unfoldable pub get_connection : List ℕ → Pool → Option ℕ
unfolding load
get_connection id p = load id p.server.connections

pub get_connection_by_vin : List ℕ → Pool → Option ℕ
get_connection_by_vin vin p = VinRegistry.get p.server.vin_registry vin

-- `if s.idleTimeout > 0`: without a timeout there is no idle check.
abbrev pub checks_idle : Settings → Bool
checks_idle st = ltb 0 st.idle_timeout

-- The moves, in any order. A call of `Close`, a read with all its packets, and a step of the idle check
-- are one move each.
pub data Move : Type 0 where
  accepts : List ℕ → Move
  stores : Move
  reads : ℕ → List ℕ → Move
  closes : ℕ → Move
  passes : ℕ → Move
  probes : ℕ → Move
  wakes : Move
  stops : Move

unfoldable pub perform : Settings → Env → Move → Pool → Result Pool
unfolding store_conn read_conn close_conn idle_probe idle_wake stop
perform st env (accepts id) p = ok (accept_conn id p)
perform st env stores p = ok (store_conn st p)
perform st env (reads i input) p = read_conn env i input p
perform st env (closes i) p = ok (close_conn i p)
perform st env (passes n) p = ok (record p { clock = p.clock + n })
perform st env (probes i) p = if checks_idle st then idle_start st env i p else ok p
perform st env wakes p = ok (idle_wake st p)
perform st env stops p = ok (stop p)

unfoldable pub perform_all : Settings → Env → List Move → Pool → Result Pool
unfolding perform
perform_all st env [] p = ok p
perform_all st env (m ∷ ms) p = perform st env m p >>= perform_all st env ms

-- ===== src/Server/Tests.antt =====
-- A server with room for one connection: the second is refused, and after the first has gone a third
-- is let in.
use gb32960_go_sdk.Base.{◌≡◌, refl, false, [], ◌∷◌}
use gb32960_go_sdk.Base.Integers.{increment, decrement}
use gb32960_go_sdk.VinRegistry.Keys.{bytes_eq}
use gb32960_go_sdk.Decoder.{bcd}
use gb32960_go_sdk.Connection.{Server, new_connection, forget, unregister}
use gb32960_go_sdk.Connection.Lifetime.{knows}
use gb32960_go_sdk.Server.{new_server, is_full, accept}
use gb32960_go_sdk.Server.Count.{
  accepts, unregisters, Reaches, starts, goes_on, IsCounted, Reaches-IsCounted,
}

abbrev first : Server
first = accept 1 (1 ∷ []) 1 new_server

abbrev second : Server
second = accept 1 (2 ∷ []) 2 first

abbrev gone : Server
gone = unregister second (new_connection bcd false (1 ∷ []) 1)

abbrev third : Server
third = accept 1 (3 ∷ []) 3 gone

second_refused : second ≡ first
unfolding accept is_full new_server increment
second_refused = refl

third-Reaches : Reaches 1 third
unfolding accept is_full new_server increment decrement unregister forget knows bytes_eq
    new_connection
third-Reaches =
    goes_on
      (goes_on
        (goes_on (goes_on starts (accepts new_server (1 ∷ []) 1 refl))
          (accepts first (2 ∷ []) 2 refl))
        (unregisters second (new_connection bcd false (1 ∷ []) 1) refl))
      (accepts gone (3 ∷ []) 3 refl)

Reaches-IsCounted_example : IsCounted 1 third
Reaches-IsCounted_example = Reaches-IsCounted 1 third third-Reaches

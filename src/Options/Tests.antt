-- ===== src/Options/Tests.antt =====
-- A server that is given some options twice.
use gb32960_go_sdk.Base.{◌≡◌, List, [], ◌∷◌}
use gb32960_go_sdk.Base.Integers.{pos}
use gb32960_go_sdk.Options.{
  ServerOption, default_config, new_config, with_max_connections, with_forwarder,
  with_bcc_include_start,
}
use gb32960_go_sdk.Options.LastWins.{settled, new_config-settled}
use gb32960_go_sdk.Base.{true}

abbrev given : List ServerOption
given =
    with_max_connections (pos 5)
    ∷ with_forwarder (1 ∷ [])
    ∷ with_bcc_include_start true
    ∷ with_max_connections (pos 7)
    ∷ with_forwarder (2 ∷ 3 ∷ [])
    ∷ []

new_config-settled_example : new_config given ≡ settled default_config given
new_config-settled_example = new_config-settled given

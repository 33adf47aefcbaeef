-- ===== src/Options/LastWins.antt =====
-- The options have no order but for one setting: the last one that sets a field decides it, and the
-- forwarders of all are kept.
use gb32960_go_sdk.Base.{
  ℕ, ◌≡◌, refl, sym, ap, ◌∙◌, Bool, List, [], ◌∷◌, ◌++◌, Option, none, some, foldl, append-nil,
  append_assoc,
}
use gb32960_go_sdk.Base.Integers.{ℤ}
use gb32960_go_sdk.Decoder.{TimeCodec}
use gb32960_go_sdk.Options.{
  Config, ServerOption, apply, default_config, new_config, with_listen_addr, with_max_connections,
  with_read_timeout, with_write_timeout, with_idle_timeout, with_handler, with_authenticator,
  with_forwarder, with_time_provider, with_crypto_provider, with_platform_handler,
  with_param_handler, with_time_codec, with_bcc_include_start,
}

-- The last of the values that some options give, or the first value where none gives one.
abbrev pub last_of {ℓ} : {A : Type ℓ} → (ServerOption → Option A) → A → List ServerOption → A
last_of pick a [] = a
last_of pick a (o ∷ os) = last_of pick (elim (pick o) [ none ↦ a | some b ↦ b ]) os

-- All that some options give, in their order.
abbrev pub all_of : (ServerOption → List ℕ) → List ServerOption → List ℕ
all_of pick [] = []
all_of pick (o ∷ os) = pick o ++ all_of pick os

abbrev pub sets_addr : ServerOption → Option (List ℕ)
sets_addr (with_listen_addr x) = some x
sets_addr _ = none

abbrev pub sets_max_conns : ServerOption → Option ℤ
sets_max_conns (with_max_connections x) = some x
sets_max_conns _ = none

abbrev pub sets_read_timeout : ServerOption → Option ℤ
sets_read_timeout (with_read_timeout x) = some x
sets_read_timeout _ = none

abbrev pub sets_write_timeout : ServerOption → Option ℤ
sets_write_timeout (with_write_timeout x) = some x
sets_write_timeout _ = none

abbrev pub sets_idle_timeout : ServerOption → Option ℤ
sets_idle_timeout (with_idle_timeout x) = some x
sets_idle_timeout _ = none

abbrev pub sets_handler : ServerOption → Option (Option ℕ)
sets_handler (with_handler x) = some x
sets_handler _ = none

abbrev pub sets_auth : ServerOption → Option (Option ℕ)
sets_auth (with_authenticator x) = some x
sets_auth _ = none

abbrev pub sets_forwarders : ServerOption → List ℕ
sets_forwarders (with_forwarder x) = x
sets_forwarders _ = []

abbrev pub sets_time_provider : ServerOption → Option (Option ℕ)
sets_time_provider (with_time_provider x) = some x
sets_time_provider _ = none

abbrev pub sets_crypto_provider : ServerOption → Option (Option ℕ)
sets_crypto_provider (with_crypto_provider x) = some x
sets_crypto_provider _ = none

abbrev pub sets_platform_handler : ServerOption → Option (Option ℕ)
sets_platform_handler (with_platform_handler x) = some x
sets_platform_handler _ = none

abbrev pub sets_param_handler : ServerOption → Option (Option ℕ)
sets_param_handler (with_param_handler x) = some x
sets_param_handler _ = none

abbrev pub sets_time_codec : ServerOption → Option TimeCodec
sets_time_codec (with_time_codec x) = some x
sets_time_codec _ = none

abbrev pub sets_bcc_include_start : ServerOption → Option Bool
sets_bcc_include_start (with_bcc_include_start x) = some x
sets_bcc_include_start _ = none

-- The settings that some options lead to from others, each field on its own.
abbrev pub settled : Config → List ServerOption → Config
settled s os = record {
  addr = last_of sets_addr s.addr os;
  max_conns = last_of sets_max_conns s.max_conns os;
  read_timeout = last_of sets_read_timeout s.read_timeout os;
  write_timeout = last_of sets_write_timeout s.write_timeout os;
  idle_timeout = last_of sets_idle_timeout s.idle_timeout os;
  handler = last_of sets_handler s.handler os;
  auth = last_of sets_auth s.auth os;
  forwarders = s.forwarders ++ all_of sets_forwarders os;
  time_provider = last_of sets_time_provider s.time_provider os;
  crypto_provider = last_of sets_crypto_provider s.crypto_provider os;
  platform_handler = last_of sets_platform_handler s.platform_handler os;
  param_handler = last_of sets_param_handler s.param_handler os;
  time_codec = last_of sets_time_codec s.time_codec os;
  bcc_include_start = last_of sets_bcc_include_start s.bcc_include_start os;
}

settled_step :
    (s : Config) (o : ServerOption) (os : List ServerOption)
    → settled (apply s o) os ≡ settled s (o ∷ os)
unfolding apply
settled_step s (with_listen_addr x) os = refl
settled_step s (with_max_connections x) os = refl
settled_step s (with_read_timeout x) os = refl
settled_step s (with_write_timeout x) os = refl
settled_step s (with_idle_timeout x) os = refl
settled_step s (with_handler x) os = refl
settled_step s (with_authenticator x) os = refl
settled_step s (with_forwarder x) os =
    ap (λ fs. record (settled s (with_forwarder x ∷ os)) { forwarders = fs })
      (append_assoc s.forwarders x (all_of sets_forwarders os))
settled_step s (with_time_provider x) os = refl
settled_step s (with_crypto_provider x) os = refl
settled_step s (with_platform_handler x) os = refl
settled_step s (with_param_handler x) os = refl
settled_step s (with_time_codec x) os = refl
settled_step s (with_bcc_include_start x) os = refl

foldl-settled : (s : Config) (os : List ServerOption) → foldl apply s os ≡ settled s os
foldl-settled s [] = ap (λ fs. record s { forwarders = fs }) (sym (append-nil s.forwarders))
foldl-settled s (o ∷ os) = foldl-settled (apply s o) os ∙ settled_step s o os

-- For every list of options `NewServer` ends with the settings that each field has on its own: the
-- value of the last option that sets it, or the default where none does, and for the forwarders those
-- of all options in their order. So options for different fields may come in any order.
pub new_config-settled : (os : List ServerOption) → new_config os ≡ settled default_config os
unfolding new_config
new_config-settled os = foldl-settled default_config os

-- ===== src/Options.antt =====
-- options.go and `NewServer` of server.go: the settings of a server and the options that set them.
mod Tests
pub mod LastWins
use gb32960_go_sdk.Base.{ℕ, Bool, true, false, List, [], ◌∷◌, ◌++◌, Option, none, some, foldl}
use gb32960_go_sdk.Base.Integers.{ℤ, pos}
use gb32960_go_sdk.Decoder.{TimeCodec, bcd}

-- The fields of the server that options set. A duration is in nanoseconds, an object behind an
-- interface is a number, and `none` is nil.
pub record Config : Type 0 where
  pub addr : List ℕ
  pub max_conns : ℤ
  pub read_timeout : ℤ
  pub write_timeout : ℤ
  pub idle_timeout : ℤ
  pub handler : Option ℕ
  pub auth : Option ℕ
  pub forwarders : List ℕ
  pub time_provider : Option ℕ
  pub crypto_provider : Option ℕ
  pub platform_handler : Option ℕ
  pub param_handler : Option ℕ
  pub time_codec : TimeCodec
  pub bcc_include_start : Bool

pub data ServerOption : Type 0 where
  with_listen_addr : List ℕ → ServerOption
  with_max_connections : ℤ → ServerOption
  with_read_timeout : ℤ → ServerOption
  with_write_timeout : ℤ → ServerOption
  with_idle_timeout : ℤ → ServerOption
  with_handler : Option ℕ → ServerOption
  with_authenticator : Option ℕ → ServerOption
  with_forwarder : List ℕ → ServerOption
  with_time_provider : Option ℕ → ServerOption
  with_crypto_provider : Option ℕ → ServerOption
  with_platform_handler : Option ℕ → ServerOption
  with_param_handler : Option ℕ → ServerOption
  with_time_codec : TimeCodec → ServerOption
  with_bcc_include_start : Bool → ServerOption

-- The body of an option.
pub apply : Config → ServerOption → Config
apply s (with_listen_addr x) = record s { addr = x }
apply s (with_max_connections x) = record s { max_conns = x }
apply s (with_read_timeout x) = record s { read_timeout = x }
apply s (with_write_timeout x) = record s { write_timeout = x }
apply s (with_idle_timeout x) = record s { idle_timeout = x }
apply s (with_handler x) = record s { handler = x }
apply s (with_authenticator x) = record s { auth = x }
apply s (with_forwarder x) = record s { forwarders = s.forwarders ++ x }
apply s (with_time_provider x) = record s { time_provider = x }
apply s (with_crypto_provider x) = record s { crypto_provider = x }
apply s (with_platform_handler x) = record s { platform_handler = x }
apply s (with_param_handler x) = record s { param_handler = x }
apply s (with_time_codec x) = record s { time_codec = x }
apply s (with_bcc_include_start x) = record s { bcc_include_start = x }

-- The fields before the options, with the address ":32960".
abbrev pub default_config : Config
default_config = record {
  addr = 0x3a ∷ 0x33 ∷ 0x32 ∷ 0x39 ∷ 0x36 ∷ 0x30 ∷ [];
  max_conns = pos 10000;
  read_timeout = pos 300000000000;
  write_timeout = pos 10000000000;
  idle_timeout = pos 600000000000;
  handler = none;
  auth = none;
  forwarders = [];
  time_provider = none;
  crypto_provider = none;
  platform_handler = none;
  param_handler = none;
  time_codec = bcd;
  bcc_include_start = false;
}

pub new_config : List ServerOption → Config
unfolding apply
new_config opts = foldl apply default_config opts

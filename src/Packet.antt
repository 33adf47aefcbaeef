-- ===== src/Packet.antt =====
-- packet.go: the data that the SDK hands to its user. A byte, uint16 or uint32 is a natural number,
-- a string or byte slice the list of its bytes, a nil pointer `none`.
pub mod Fields
pub mod Bodies
use gb32960_go_sdk.Base.{ℕ, List}

pub record Packet : Type 0 where
  pub command : ℕ
  pub response : ℕ
  pub vin : List ℕ
  pub encrypt_type : ℕ
  pub payload : List ℕ
  pub length : ℕ

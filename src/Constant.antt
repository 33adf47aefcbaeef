-- ===== src/Constant.antt =====
-- constant/command.go: the protocol's bytes and sizes.
pub mod Cmd
use gb32960_go_sdk.Base.{ℕ}

abbrev pub start_marker1 : ℕ
start_marker1 = 0x23

abbrev pub start_marker2 : ℕ
start_marker2 = 0x23

abbrev pub resp_success : ℕ
resp_success = 0xfe

abbrev pub req_request : ℕ
req_request = 0x01

abbrev pub enc_none : ℕ
enc_none = 0x01

abbrev pub enc_aes128 : ℕ
enc_aes128 = 0x03

abbrev pub vin_length : ℕ
vin_length = 17

abbrev pub header_size : ℕ
header_size = 24

-- ===== src/Constant/Cmd.antt =====
-- The command bytes of constant/command.go.
use gb32960_go_sdk.Base.{ℕ}

abbrev pub login : ℕ
login = 0x01

abbrev pub realtime : ℕ
realtime = 0x02

abbrev pub reissue : ℕ
reissue = 0x03

abbrev pub logout : ℕ
logout = 0x04

abbrev pub plat_login : ℕ
plat_login = 0x05

abbrev pub plat_logout : ℕ
plat_logout = 0x06

abbrev pub heartbeat : ℕ
heartbeat = 0x07

abbrev pub time_calibr : ℕ
time_calibr = 0x08

abbrev pub param_query : ℕ
param_query = 0x80

abbrev pub param_query_resp : ℕ
param_query_resp = 0x81

abbrev pub param_setting : ℕ
param_setting = 0x82

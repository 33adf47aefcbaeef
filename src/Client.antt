-- ===== src/Client.antt =====
-- The terminals of cmd/simclient and cmd/stresstest: how they build the frames that they send.
mod Tests
pub mod Example
pub mod Frames
pub mod Simulator
pub mod Stress
pub mod Readings
pub mod Rule
pub mod Counts
pub mod Journey
pub mod StressReadings
pub mod Served
pub mod Written
pub mod StressServed
pub mod Vins
use gb32960_go_sdk.Base.{ℕ, ◌+◌, ◌%◌, List, [], ◌∷◌, ◌++◌, length, drop, put_uint16}
use gb32960_go_sdk.Constant.{start_marker1, start_marker2, vin_length, enc_none}
use gb32960_go_sdk.Decoder.{calculate_bcc}

-- `copy(dst, src)`, which stops at the end of the shorter one.
abbrev pub copy : List ℕ → List ℕ → List ℕ
copy [] src = []
copy (d ∷ dst) [] = d ∷ dst
copy (d ∷ dst) (s ∷ src) = s ∷ copy dst src

-- The end of `buildPacket`, which is the same in both programs: from the padded VIN on. The checksum
-- runs over the bytes from the third on that are written so far.
pub assemble : ℕ → List ℕ → List ℕ → List ℕ
unfolding calculate_bcc
assemble command vin_padded body =
    let written =
      start_marker1
      ∷ start_marker2
      ∷ command
      ∷ 0x01
      ∷ (vin_padded ++ (enc_none ∷ (put_uint16 (length body % 65536) ++ body))) in
    written ++ (calculate_bcc (drop 2 written) ∷ [])

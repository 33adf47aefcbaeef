-- ===== src/Client/Frames.antt =====
-- The frames of the terminals are frames that the decoder of the server takes.
use gb32960_go_sdk.Base.{
  ℕ, ◌%◌, ◌<◌, suc, ◌≡◌, refl, ap, Bool, List, [], ◌∷◌, ◌++◌, length, drop, append_assoc,
}
use gb32960_go_sdk.Constant.{enc_none, vin_length}
use gb32960_go_sdk.Packet.{Packet}
use gb32960_go_sdk.Decoder.{calculate_bcc}
use gb32960_go_sdk.Decoder.RoundTrip.{
  frame_header, frame_packet, frame_header-Heads, frame_header_checked, packet_of-frame_header,
}
use gb32960_go_sdk.Decoder.Rows.{Frame, IsFrame, packet_in, row}
use gb32960_go_sdk.Client.{copy, assemble}

pub length-copy : (dst src : List ℕ) → length (copy dst src) ≡ length dst
length-copy [] src = refl
length-copy (d ∷ dst) [] = refl
length-copy (d ∷ dst) (s ∷ src) = ap suc (length-copy dst src)

-- The frame whose bytes `assemble` gives.
abbrev pub assembled : ℕ → List ℕ → List ℕ → Frame
assembled command vin body =
    let header = frame_header command 0x01 vin enc_none (length body % 65536) in
    record { header = header; body = body; bcc = calculate_bcc (drop 2 header ++ body) }

abbrev pub request_packet : ℕ → List ℕ → List ℕ → Packet
request_packet command vin body = frame_packet command 0x01 vin enc_none body

module _ (command : ℕ) (vin body : List ℕ) (hv : length vin ≡ vin_length)
    (hb : length body < 65536) where
  pub assemble-row : assemble command vin body ≡ row (assembled command vin body ∷ [])
  unfolding assemble
  assemble-row = simp append_assoc

  pub assembled-IsFrame : (m : Bool) → IsFrame m (assembled command vin body)
  assembled-IsFrame m = record {
    heads = frame_header-Heads command 0x01 vin enc_none body hv hb;
    checked = frame_header_checked command 0x01 vin enc_none body hv hb m;
  }

  pub packet_in-assembled : packet_in (assembled command vin body) ≡ request_packet command vin body
  packet_in-assembled = packet_of-frame_header command 0x01 vin enc_none body hv hb

-- ===== src/Decoder/Rows.antt =====
-- Rows of frames, one behind the other, and `Decode` where nothing is unread.
use gb32960_go_sdk.Base.{
  append_assoc, sym, ℕ, suc, ◌≡◌, ap, ◌∙◌, Bool, true, List, [], ◌∷◌, ◌++◌, none, length, ok,
}
use gb32960_go_sdk.Packet.{Packet}
use gb32960_go_sdk.Decoder.{Decoder, marker_from, decode, packet_of, verify_bcc}
use gb32960_go_sdk.Decoder.Stream.{unread, IsValid, stream_step, stream_decode}
use gb32960_go_sdk.Decoder.Refines.{decode-stream_decode}
use gb32960_go_sdk.Decoder.RoundTrip.{view_result_ok}
use gb32960_go_sdk.Decoder.Sound.{Heads}

pub record Frame : Type 0 where
  pub header : List ℕ
  pub body : List ℕ
  pub bcc : ℕ

-- A frame that a decoder of the given checksum mode takes.
pub record IsFrame (include_start : Bool) (f : Frame) : Type 0 where
  pub heads : Heads f.header f.body
  pub checked : verify_bcc include_start f.header f.body f.bcc ≡ true

abbrev pub packet_in : Frame → Packet
packet_in f = packet_of f.header f.body

abbrev pub row : List Frame → List ℕ
row [] = []
row (f ∷ fs) = f.header ++ (f.body ++ (f.bcc ∷ row fs))

-- With nothing unread there is no packet, and nothing is unread afterwards.
pub decode_nothing :
    (d : Decoder)
    → IsValid d
    → unread d ≡ []
    → (d' : Decoder) × (decode d ≡ ok (none, d')) × (unread d' ≡ [])
unfolding stream_decode stream_step marker_from
decode_nothing d v e =
    view_result_ok (decode d)
      (decode-stream_decode d v ∙ ap (λ w. stream_decode (suc (length w)) d.bcc_include_start w) e)

pub row-append : (f : Frame) (fs : List Frame) → row (f ∷ fs) ≡ row (f ∷ []) ++ row fs
row-append f fs = sym (
    append_assoc f.header (f.body ++ (f.bcc ∷ [])) (row fs)
    ∙ ap (◌++◌ f.header) (append_assoc f.body (f.bcc ∷ []) (row fs)))

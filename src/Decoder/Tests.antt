-- ===== src/Decoder/Tests.antt =====
-- The decoder on concrete bytes: a heartbeat response with two bytes of data.
use gb32960_go_sdk.Base.{
  ◌↔◌, All, length, ℕ, suc, ◌≡◌, refl, true, false, List, [], ◌∷◌, ◌++◌, none, some, replicate,
  length, take, drop, ok, panic, arith,
}
use gb32960_go_sdk.Decoder.{
  Decoder, new_decoder_with_config, new_decoder, feed, decode, encode_response, verify_bcc,
  packet_of, decode_loop, find_start_marker, marker_from, xor_bytes, calculate_bcc, attempt,
  read_frame, check_frame, reset,
}
use gb32960_go_sdk.Decoder.Stream.{unread, IsValid, stream_decode}
use gb32960_go_sdk.Decoder.Buffer.{feed-IsValid, Total, decode-Total}
use gb32960_go_sdk.Decoder.Refines.{view_result, decode-stream_decode}
use gb32960_go_sdk.Decoder.Sound.{Heads, Holds, decode-Holds}
use gb32960_go_sdk.Decoder.Vin.{IsAlphanumeric, verify_vin, verify_vin_iff}
use gb32960_go_sdk.Decoder.RoundTrip.{response_packet, decode-encode_response}
use gb32960_go_sdk.Decoder.Fragments.{
  decode_missing_checksum, decode_two_parts, decode_split_marker,
}
use gb32960_go_sdk.Decoder.Checksum.{verify_bcc_one_byte}
use gb32960_go_sdk.Constant.{start_marker1}

abbrev vin : List ℕ
vin = replicate 17 0x41

abbrev header : List ℕ
header = 0x23 ∷ 0x23 ∷ 0x07 ∷ 0xfe ∷ (vin ++ (0x01 ∷ 0 ∷ 2 ∷ []))

abbrev body : List ℕ
body = 5 ∷ 6 ∷ []

abbrev bcc : ℕ
bcc = 0xb8

abbrev frame : List ℕ
frame = header ++ (body ++ (bcc ∷ []))

encoded : encode_response 0x07 vin 0 body ≡ ok frame
unfolding encode_response calculate_bcc xor_bytes
encoded = refl

abbrev fed : List ℕ → Decoder
fed bytes = feed new_decoder bytes

unread-fed : (bytes : List ℕ) → unread (fed bytes) ≡ bytes
unfolding feed new_decoder
unread-fed bytes = refl

fed-IsValid : (bytes : List ℕ) → IsValid (fed bytes)
fed-IsValid bytes = feed-IsValid new_decoder bytes

header-Heads : Heads header body
header-Heads = record { header_length_eq = refl; starts = (_, refl); declares = refl }

new_decoder-IsValid : IsValid new_decoder
unfolding new_decoder
new_decoder-IsValid = record { limit_length = refl; pos_limit = omega arith }

unread_new : unread new_decoder ≡ []
unfolding new_decoder new_decoder_with_config
unread_new = refl

accepted : verify_bcc false header body bcc ≡ true
unfolding verify_bcc calculate_bcc xor_bytes
accepted = refl

-- Two bytes of noise are passed over, and the byte behind the frame is left.
noisy :
    decode (fed (1 ∷ 2 ∷ (frame ++ (9 ∷ []))))
    ≡ ok (some (packet_of header body), record (fed (1 ∷ 2 ∷ (frame ++ (9 ∷ [])))) { pos = 29 })
unfolding decode feed new_decoder decode_loop attempt find_start_marker marker_from read_frame
    check_frame verify_bcc calculate_bcc xor_bytes
noisy = refl

-- A wrong checksum: the frame is skipped, and nothing is left.
rejected :
    decode (fed (header ++ (body ++ (0 ∷ []))))
    ≡ ok (none, record (fed []) { buf = none; limit = 0 })
unfolding decode feed new_decoder decode_loop attempt find_start_marker marker_from read_frame
    check_frame verify_bcc calculate_bcc xor_bytes reset
rejected = refl

decode-encode_response_example :
    (d' : Decoder) × (decode (fed (frame ++ (9 ∷ [])))
      ≡ ok (some (response_packet 0x07 vin 0x01 body), d'))
    × (unread d' ≡ 9 ∷ [])
decode-encode_response_example =
    decode-encode_response (fed (frame ++ (9 ∷ []))) 0x07 vin 0 body frame (9 ∷ [])
      (fed-IsValid (frame ++ (9 ∷ []))) (omega arith) encoded (unread-fed (frame ++ (9 ∷ [])))

decode-stream_decode_example :
    view_result (decode (fed frame))
    ≡ stream_decode
        (suc (length (unread (fed frame))))
        (fed frame).bcc_include_start
        (unread (fed frame))
decode-stream_decode_example = decode-stream_decode (fed frame) (fed-IsValid frame)

decoded : decode (fed frame) ≡ ok (some (packet_of header body), record (fed frame) { pos = 27 })
unfolding decode feed new_decoder decode_loop attempt find_start_marker marker_from read_frame
    check_frame verify_bcc calculate_bcc xor_bytes
decoded = refl

decode-Holds_example :
    Holds
      (fed frame).bcc_include_start
      (unread (fed frame))
      (unread (record (fed frame) { pos = 27 }))
      (packet_of header body)
decode-Holds_example =
    decode-Holds (fed frame) (record (fed frame) { pos = 27 }) (packet_of header body)
      (fed-IsValid frame) decoded

decode_two_parts_example :
    (d1 : Decoder) × (d2 : Decoder) × (decode (feed new_decoder (take 20 frame)) ≡ ok (none, d1))
    × (decode (feed d1 (drop 20 frame)) ≡ ok (some (packet_of header body), d2))
    × (unread d2 ≡ [])
unfolding new_decoder new_decoder_with_config
decode_two_parts_example =
    decode_two_parts new_decoder header body (take 20 frame) (drop 20 frame) bcc new_decoder-IsValid
      unread_new header-Heads accepted refl (omega arith) (omega arith)

decode-Total_example : Total (fed frame) (decode (fed frame))
decode-Total_example = decode-Total (fed frame) (fed-IsValid frame)

decode_missing_checksum_example : decode (fed (header ++ body)) ≡ panic
decode_missing_checksum_example =
    decode_missing_checksum (fed (header ++ body)) header body (fed-IsValid (header ++ body))
      header-Heads (unread-fed (header ++ body))

decode_split_marker_example :
    (d' : Decoder) × (decode (fed (start_marker1 ∷ [])) ≡ ok (none, d'))
    × (unread (feed d' (drop 1 frame)) ≡ drop 1 frame)
decode_split_marker_example =
    decode_split_marker (fed (start_marker1 ∷ [])) (drop 1 frame) (fed-IsValid (start_marker1 ∷ []))
      (unread-fed (start_marker1 ∷ []))

verify_bcc_one_byte_example : verify_bcc false header (5 ∷ 7 ∷ []) bcc ≡ false
verify_bcc_one_byte_example =
    verify_bcc_one_byte header header body (5 ∷ 7 ∷ []) (drop 2 header ++ (5 ∷ [])) [] 6 7 bcc
      (λ e. cc) refl refl accepted

-- A VIN of seventeen bytes whose last two make one letter of another script.
abbrev accented : List ℕ
accented = replicate 15 0x41 ++ (0xc3 ∷ 0xa9 ∷ [])

verify_vin_iff_example :
    (verify_vin accented ≡ true) ↔ ((length accented ≡ 17) × All IsAlphanumeric accented)
verify_vin_iff_example = verify_vin_iff accented

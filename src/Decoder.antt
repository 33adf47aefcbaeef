-- ===== src/Decoder.antt =====
-- decoder.go, the frame layer: the stream decoder (`Decoder`, its `Feed`, `Decode` and helpers) and
-- `EncodeResponse`.
mod Tests
pub mod Stream
pub mod Buffer
pub mod Refines
pub mod Sound
pub mod RoundTrip
pub mod Rows
pub mod Fragments
pub mod Checksum
pub mod Vin
use Prim.Native.Nat.{bit_xor}
use gb32960_go_sdk.Base.{
  ℕ, zero, suc, ◌+◌, ◌-◌, ◌*◌, ◌%◌, Bool, true, false, ◌&&◌, ◌||◌, not, List, [], ◌∷◌, ◌++◌, foldl,
  map, Option, none, some, length, take, drop, get_elem?, replicate, ltb, leb, ◌==◌, if◌then◌else◌,
  Result, ok, err, panic, stuck, Error, invalid_vin, put_uint16,
}
use gb32960_go_sdk.Constant.{
  start_marker1, start_marker2, header_size, vin_length, enc_none, resp_success,
}
use gb32960_go_sdk.Packet.{Packet}

pub data TimeCodec : Type 0 where
  bcd binary : TimeCodec

-- `buf` is `none` where the slice is nil.
pub record Decoder : Type 0 where
  pub buf : Option (List ℕ)
  pub pos : ℕ
  pub limit : ℕ
  pub time_codec : TimeCodec
  pub bcc_include_start : Bool

unfoldable pub new_decoder_with_config : TimeCodec → Bool → Decoder
new_decoder_with_config tc b = record {
  buf = none;
  pos = 0;
  limit = 0;
  time_codec = tc;
  bcc_include_start = b;
}

unfoldable pub new_decoder : Decoder
unfolding new_decoder_with_config
new_decoder = new_decoder_with_config bcd false

-- A nil slice reads as an empty one.
abbrev pub bytes : Option (List ℕ) → List ℕ
bytes none = []
bytes (some b) = b

pub reset : Decoder → Decoder
reset d = record d { buf = none; pos = 0; limit = 0 }

-- The buffer with new contents, read from its start.
abbrev refilled : Decoder → List ℕ → Decoder
refilled d b = record d { buf = some b; pos = 0; limit = length b }

unfoldable pub feed : Decoder → List ℕ → Decoder
feed d input = elim d.buf [
  | none ↦ refilled d input
  | some b ↦
      if ltb 0 (d.limit - d.pos)
      then refilled d (take (d.limit - d.pos) (drop d.pos b) ++ input)
      else refilled d input
]

-- The first place, counted from `i`, of two marker bytes in a row.
pub marker_from : List ℕ → ℕ → Option ℕ
marker_from [] i = none
marker_from (a ∷ []) i = none
marker_from (a ∷ b ∷ r) i =
    let rest = marker_from (b ∷ r) (i + 1) in
    if a == start_marker1 && b == start_marker2 then some i else rest

-- The loop runs over `pos ≤ i < limit - 1`, and reads the bytes at `i` and `i + 1`.
pub find_start_marker : Decoder → Option ℕ
find_start_marker d = marker_from (take (d.limit - d.pos) (drop d.pos (bytes d.buf))) d.pos

-- `bcc ^= b` over the bytes, from a start value.
unfoldable pub xor_bytes : ℕ → List ℕ → ℕ
xor_bytes acc [] = acc
xor_bytes acc (b ∷ r) = xor_bytes (bit_xor acc b) r

unfoldable pub calculate_bcc : List ℕ → ℕ
calculate_bcc bs = xor_bytes 0 bs

pub verify_bcc : Bool → List ℕ → List ℕ → ℕ → Bool
verify_bcc include_start header body bcc =
    xor_bytes (calculate_bcc (drop 2 header)) body == bcc
    || include_start && xor_bytes (calculate_bcc header) body == bcc

-- One round of the loop in `Decode`: it returns a packet or nil, tries again from `pos`, or panics.
pub data Attempt : Type 0 where
  returns : Option Packet → Decoder → Attempt
  again : Decoder → Attempt
  crash : Attempt

-- The fields of a header of 24 bytes: command, response, VIN, encryption and length.
abbrev pub byte_or_zero : Option ℕ → ℕ
byte_or_zero none = 0
byte_or_zero (some b) = b

abbrev field : List ℕ → ℕ → ℕ
field header i = byte_or_zero (get_elem? header i)

abbrev pub header_length : List ℕ → ℕ
header_length header = field header 22 * 256 + field header 23

abbrev pub packet_of : List ℕ → List ℕ → Packet
packet_of header body = record {
  command = field header 2;
  response = field header 3;
  vin = take 17 (drop 4 header);
  encrypt_type = field header 21;
  payload = body;
  length = header_length header;
}

-- The rest of the round, from the byte behind the data on: `d.pos` is that byte's place.
pub check_frame : Decoder → ℕ → List ℕ → List ℕ → Attempt
check_frame d start header body = elim (get_elem? (bytes d.buf) d.pos) [
  | none ↦ crash
  | some bcc ↦
      if verify_bcc d.bcc_include_start header body bcc
      then returns (some (packet_of header body)) (record d { pos = d.pos + 1 })
      else again (record d { pos = start + 2 })
]

pub read_frame : Decoder → ℕ → Attempt
unfolding check_frame
read_frame d start =
    let b = bytes d.buf in
    if ltb (d.limit - start) header_size
    then returns none (record d { pos = start })
    else let header = take header_size (drop start b) in
      let n = header_length header in
      let body_pos = start + header_size in
      if ltb (d.limit - body_pos) n
      then returns none (record d { pos = start })
      else check_frame (record d { pos = body_pos + n }) start header (take n (drop body_pos b))

pub attempt : Decoder → Attempt
unfolding find_start_marker read_frame
attempt d = elim (find_start_marker d) [ none ↦ returns none (reset d) | some i ↦ read_frame d i ]

pub decode_loop : ℕ → Decoder → Result (Option Packet × Decoder)
unfolding attempt
decode_loop zero d = stuck
decode_loop (suc fuel) d = elim (attempt d) [
  | returns p d' ↦ ok (p, d')
  | again d' ↦ decode_loop fuel d'
  | crash ↦ panic
]

-- Each further round starts at least two bytes on, so that the bytes left bound the rounds.
pub decode : Decoder → Result (Option Packet × Decoder)
unfolding decode_loop
decode d = decode_loop (suc (d.limit - d.pos)) d

-- `EncodeResponse`: the checksum is taken over the frame with a zero in the checksum's place.
unfoldable pub encode_response : ℕ → List ℕ → ℕ → List ℕ → Result (List ℕ)
unfolding calculate_bcc
encode_response command vin encrypt_type body =
    if not (length vin == vin_length)
    then err invalid_vin
    else let enc = if encrypt_type == 0 then enc_none else encrypt_type in
      let checked =
        command ∷ resp_success ∷ (vin ++ (enc ∷ (put_uint16 (length body % 65536) ++ body))) in
      ok (start_marker1 ∷ start_marker2 ∷ (checked ++ (calculate_bcc (checked ++ (0 ∷ [])) ∷ [])))

-- ===== src/Decoder/Stream.antt =====
-- The specification of `Decode`: a parser of the bytes that are not yet read, with no buffer and no
-- positions.
use gb32960_go_sdk.Base.{
  ℕ, zero, suc, ◌≤◌, ◌≡◌, Bool, List, [], ◌∷◌, Option, none, some, length, take, drop, ltb,
  if◌then◌else◌, Result, ok, panic, stuck,
}
use gb32960_go_sdk.Constant.{header_size}
use gb32960_go_sdk.Packet.{Packet}
use gb32960_go_sdk.Decoder.{Decoder, bytes, marker_from, header_length, packet_of, verify_bcc}

-- The bytes that `Feed` took and `Decode` has not passed.
abbrev pub unread : Decoder → List ℕ
unread d = drop d.pos (bytes d.buf)

-- The buffer's fields agree: `limit` is its length, and `pos` does not pass it.
pub record IsValid (d : Decoder) : Type 0 where
  pub limit_length : d.limit ≡ length (bytes d.buf)
  pub pos_limit : d.pos ≤ d.limit

pub data StreamStep : Type 0 where
  emits : Option Packet → List ℕ → StreamStep
  retries : List ℕ → StreamStep
  crashes : StreamStep

-- The checksum's byte decides: the packet, a new start two bytes on, or no byte to read.
unfoldable pub check_stream : Bool → List ℕ → List ℕ → List ℕ → List ℕ → StreamStep
check_stream include_start w header body [] = crashes
check_stream include_start w header body (bcc ∷ rest) =
    if verify_bcc include_start header body bcc
    then emits (some (packet_of header body)) rest
    else retries (drop 2 w)

-- A round on bytes that begin with the marker.
unfoldable pub read_stream : Bool → List ℕ → StreamStep
unfolding check_stream
read_stream include_start w =
    if ltb (length w) header_size
    then emits none w
    else let header = take header_size w in
      let n = header_length header in
      let after = drop header_size w in
      if ltb (length after) n
      then emits none w
      else check_stream include_start w header (take n after) (drop n after)

unfoldable pub stream_step : Bool → List ℕ → StreamStep
unfolding read_stream
stream_step include_start u = elim (marker_from u 0) [
  | none ↦ emits none []
  | some i ↦ read_stream include_start (drop i u)
]

unfoldable pub stream_decode : ℕ → Bool → List ℕ → Result (Option Packet × List ℕ)
unfolding stream_step
stream_decode zero include_start u = stuck
stream_decode (suc fuel) include_start u = elim (stream_step include_start u) [
  | emits p rest ↦ ok (p, rest)
  | retries rest ↦ stream_decode fuel include_start rest
  | crashes ↦ panic
]

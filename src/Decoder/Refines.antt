-- ===== src/Decoder/Refines.antt =====
-- The buffered decoder implements the stream parser.
use gb32960_go_sdk.Base.{
  ℕ, zero, suc, ◌+◌, ◌-◌, ◌≡◌, refl, sym, ap, ◌∙◌, inl, inr, List, Option, none, some, length, take,
  drop, ltb, Result, ok, err, panic, stuck, arith, length-drop, drop-drop, get_elem?-drop_cases,
  Bool-cases,
}
use gb32960_go_sdk.Decoder.Buffer.{
  length-unread, marker_from_shift, find_start_marker-unread, KeepsAfter, attempt-KeepsAfter,
}
use native.Mathlib.Numerals.{add-one}
use gb32960_go_sdk.Constant.{header_size}
use gb32960_go_sdk.Packet.{Packet}
use gb32960_go_sdk.Decoder.{
  Decoder, Attempt, returns, again, crash, bytes, reset, find_start_marker, check_frame, read_frame,
  attempt, decode_loop, decode, header_length, verify_bcc,
}
use gb32960_go_sdk.Decoder.Stream.{
  unread, IsValid, StreamStep, emits, retries, crashes, check_stream, read_stream, stream_step,
  stream_decode,
}

abbrev view : Attempt → StreamStep
view (returns p d) = emits p (unread d)
view (again d) = retries (unread d)
view crash = crashes

check_frame-view :
    (d : Decoder) (start : ℕ) (header body w : List ℕ)
    → drop (start + 2) (bytes d.buf) ≡ drop 2 w
    → view (check_frame d start header body)
      ≡ check_stream d.bcc_include_start w header body (unread d)
unfolding check_frame check_stream
check_frame-view d start header body w e = elim (get_elem?-drop_cases d.pos (bytes d.buf)) [
  | inl (g, u) ↦ rw (g, u, check_frame, check_stream)
  | inr (bcc, g, u) ↦ elim (Bool-cases (verify_bcc d.bcc_include_start header body bcc)) [
    | inl pass ↦ rw (g, u, check_frame, check_stream) (rw pass (rw add-one))
    | inr fail ↦ rw (g, u, check_frame, check_stream) (rw fail (ap retries e))
  ]
]

read_frame-view :
    (d : Decoder) (start : ℕ)
    → d.limit ≡ length (bytes d.buf)
    → view (read_frame d start) ≡ read_stream d.bcc_include_start (drop start (bytes d.buf))
unfolding read_frame read_stream
read_frame-view d start v =
    let b = bytes d.buf in
    let w = drop start b in
    let n = header_length (take header_size w) in
    let el : length w ≡ d.limit - start = omega (arith, length-drop start b) in
    let ea : drop header_size w ≡ drop (start + header_size) b =
      drop-drop (start + header_size) header_size start b refl in
    let em : length (drop header_size w) ≡ d.limit - (start + header_size) =
      omega (arith, length-drop start b, length-drop header_size w) in
    elim (Bool-cases (ltb (d.limit - start) header_size)) [
      | inl short ↦ rw (el, short)
      | inr long ↦ elim (Bool-cases (ltb (d.limit - (start + header_size)) n)) [
        | inl short ↦ rw (el, long, em, short)
        | inr enough ↦
            rw (el, long, em, enough)
              (rw (ea, drop-drop (start + header_size + n) n (start + header_size) b refl)
                (check_frame-view (record d { pos = start + header_size + n }) start
                  (take header_size w) (take n (drop (start + header_size) b)) w
                  (sym (drop-drop (start + 2) 2 start b refl))))
      ]
    ]

pub attempt-view :
    (d : Decoder) → IsValid d → view (attempt d) ≡ stream_step d.bcc_include_start (unread d)
unfolding attempt stream_step reset
attempt-view d v = elim (marker_from_shift (unread d) d.pos) [
  | inl (e, e0) ↦
      let f : find_start_marker d ≡ none = find_start_marker-unread d v ∙ e in
      rw (f, e0, attempt, stream_step) refl
  | inr (k, r, e, e0, _) ↦
      let f : find_start_marker d ≡ some (d.pos + k) = find_start_marker-unread d v ∙ e in
      rw (f, e0, attempt, stream_step)
        (read_frame-view d (d.pos + k) v.limit_length
          ∙ ap (read_stream d.bcc_include_start)
              (sym (drop-drop (d.pos + k) k d.pos (bytes d.buf) refl)))
]

abbrev pub view_result : Result (Option Packet × Decoder) → Result (Option Packet × List ℕ)
view_result (ok (p, d)) = ok (p, unread d)
view_result (err e) = err e
view_result panic = panic
view_result stuck = stuck

-- A decoding that goes on by one round, from the outcome of that round.
decode_loop-view_step :
    (fuel : ℕ) (d : Decoder) (a : Attempt)
    → ((d' : Decoder)
        → IsValid d'
        → view_result (decode_loop fuel d') ≡ stream_decode fuel d'.bcc_include_start (unread d'))
    → attempt d ≡ a
    → view a ≡ stream_step d.bcc_include_start (unread d)
    → KeepsAfter d a
    → view_result (decode_loop (suc fuel) d)
      ≡ stream_decode (suc fuel) d.bcc_include_start (unread d)
unfolding decode_loop stream_decode
decode_loop-view_step fuel d (returns p d') ih e s k = rw (e, decode_loop, ← s, stream_decode)
decode_loop-view_step fuel d (again d') ih e s k =
    rw (e, decode_loop, ← s, stream_decode)
      (ih d' k.0.valid ∙ ap (λ m. stream_decode fuel m (unread d')) k.0.mode)
decode_loop-view_step fuel d crash ih e s k = rw (e, decode_loop, ← s, stream_decode)

decode_loop-view :
    (fuel : ℕ) (d : Decoder)
    → IsValid d
    → view_result (decode_loop fuel d) ≡ stream_decode fuel d.bcc_include_start (unread d)
decode_loop-view zero d v = unfold decode_loop stream_decode in refl
decode_loop-view (suc fuel) d v =
    decode_loop-view_step fuel d (attempt d) (decode_loop-view fuel) refl (attempt-view d v)
      (attempt-KeepsAfter d v)

-- On a decoder whose fields agree, `decode` gives what the stream parser gives on the unread bytes:
-- the same packet or nil with the same bytes left over, and a panic where that crashes. The buffer,
-- the positions and the copies made by `feed` do not show.
pub decode-stream_decode :
    (d : Decoder)
    → IsValid d
    → view_result (decode d)
      ≡ stream_decode (suc (length (unread d))) d.bcc_include_start (unread d)
unfolding decode
decode-stream_decode d v = rw (length-unread d v) (decode_loop-view (suc (d.limit - d.pos)) d v)

-- ===== src/Decoder/Fragments.antt =====
-- Frames that reach `Decode` in pieces.
use gb32960_go_sdk.Base.{
  ℕ, suc, ◌+◌, ◌≤◌, ◌≡◌, sym, ap, ◌∙◌, Bool, true, List, [], ◌∷◌, ◌++◌, none, some, length, take,
  drop, ok, panic, arith, length-drop, length-append, append-nil, take-append, take-append_le,
  le→ltb, lt→ltb,
}
use native.Mathlib.Decide.{dec_lt}
use gb32960_go_sdk.Constant.{header_size, start_marker1, start_marker2}
use gb32960_go_sdk.Decoder.{
  Decoder, feed, marker_from, decode, header_length, packet_of, verify_bcc,
}
use gb32960_go_sdk.Decoder.Stream.{
  unread, IsValid, emits, check_stream, read_stream, stream_step, stream_decode,
}
use gb32960_go_sdk.Decoder.Buffer.{feed-IsValid, mode-feed, unread-feed, Total, decode-Total}
use gb32960_go_sdk.Decoder.Refines.{decode-stream_decode}
use gb32960_go_sdk.Decoder.Sound.{Heads}
use gb32960_go_sdk.Decoder.RoundTrip.{
  stream_step_frame, view_result_ok, view_result_panic, decode_frame,
}

-- A frame that is complete but for its checksum makes `decode` panic: it waits for the data only,
-- and then reads the byte behind them.
pub decode_missing_checksum :
    (d : Decoder) (header body : List ℕ)
    → IsValid d
    → Heads header body
    → unread d ≡ header ++ body
    → decode d ≡ panic
unfolding stream_decode check_stream
decode_missing_checksum d header body v h u =
    let e : unread d ≡ header ++ (body ++ []) = u ∙ ap (◌++◌ header) (sym (append-nil body)) in
    view_result_panic (decode d) (
      decode-stream_decode d v
      ∙ ap (λ w. stream_decode (suc (length w)) d.bcc_include_start w) e
      ∙ rw (stream_step_frame d.bcc_include_start header body h [], stream_decode))

front_starts :
    (front back r : List ℕ)
    → 2 ≤ length front
    → front ++ back ≡ start_marker1 ∷ start_marker2 ∷ r
    → (r' : List ℕ) × (front ≡ start_marker1 ∷ start_marker2 ∷ r')
front_starts [] back r h e = absurd (omega arith)
front_starts (a ∷ []) back r h e = absurd (omega arith)
front_starts (a ∷ b ∷ r') back r h e = (r', cc)

module _ (m : Bool) (header body front back : List ℕ) (bcc : ℕ) (h : Heads header body)
    (e : front ++ back ≡ header ++ (body ++ (bcc ∷ []))) where
  total_length : length front + length back ≡ header_size + length body + 1
  total_length = omega (
    arith,
    ap length e,
    length-append front back,
    length-append header (body ++ (bcc ∷ [])),
    length-append body (bcc ∷ []),
    h.header_length_eq,
  )

  front_marker : 2 ≤ length front → marker_from front 0 ≡ some 0
  unfolding marker_from
  front_marker long =
      let (r, s) = h.starts in
      let (r', f) = front_starts front back _ long (e ∙ ap (λ t. t ++ (body ++ (bcc ∷ []))) s) in
      rw f

  front_header : header_size ≤ length front → take header_size front ≡ header
  front_header long =
      sym (take-append_le header_size front back long)
      ∙ ap (take header_size) e
      ∙ take-append header_size header (body ++ (bcc ∷ [])) (sym h.header_length_eq)

  -- A part of a frame, from its marker on, is kept while two bytes or more are missing.
  waits : 2 ≤ length front → 2 ≤ length back → stream_step m front ≡ emits none front
  unfolding stream_step read_stream
  waits lo hi = elim (dec_lt (length front) header_size) [
    | yes short ↦ rw (front_marker lo, stream_step) (rw (lt→ltb (length front) header_size short))
    | no long ↦
        rw (front_marker lo, stream_step)
          (rw (
            le→ltb (length front) header_size (omega arith),
            front_header (omega arith),
            lt→ltb (length (drop header_size front)) (header_length header)
                (omega (arith, length-drop header_size front, total_length, h.declares)),
          ))
  ]

-- A decoding that returns nil and keeps the unread bytes.
decode_waits :
    (d : Decoder) (w : List ℕ)
    → IsValid d
    → unread d ≡ w
    → stream_step d.bcc_include_start w ≡ emits none w
    → (d' : Decoder) × (decode d ≡ ok (none, d'))
      × (unread d' ≡ w)
      × IsValid d'
      × (d'.bcc_include_start ≡ d.bcc_include_start)
unfolding stream_decode
decode_waits d w v u s =
    let (d', e, u') = view_result_ok (decode d) (
      decode-stream_decode d v
      ∙ ap (λ x. stream_decode (suc (length x)) d.bcc_include_start x) u
      ∙ rw (s, stream_decode)) in
    let k : Total d (ok (none, d')) = rw e at (decode-Total d v) in (d', e, u', k.valid, k.mode)

-- A frame may come in two parts: if the first holds the marker, and the second two bytes or more,
-- then `decode` returns nil after the first part and the packet after the second, with no byte left.
pub decode_two_parts :
    (d : Decoder) (header body front back : List ℕ) (bcc : ℕ)
    → IsValid d
    → unread d ≡ []
    → Heads header body
    → verify_bcc d.bcc_include_start header body bcc ≡ true
    → front ++ back ≡ header ++ (body ++ (bcc ∷ []))
    → 2 ≤ length front
    → 2 ≤ length back
    → (d1 : Decoder) × (d2 : Decoder) × (decode (feed d front) ≡ ok (none, d1))
      × (decode (feed d1 back) ≡ ok (some (packet_of header body), d2))
      × (unread d2 ≡ [])
decode_two_parts d header body front back bcc v empty h c e lo hi =
    let fed = feed d front in
    let (d1, e1, u1, v1, m1) =
      decode_waits fed front (feed-IsValid d front)
        (unread-feed d front v ∙ ap (λ t. t ++ front) empty)
        (waits fed.bcc_include_start header body front back bcc h e lo hi) in
    let mode : (feed d1 back).bcc_include_start ≡ d.bcc_include_start =
      mode-feed d1 back ∙ m1 ∙ mode-feed d front in
    let (d2, e2, u2) =
      decode_frame (feed d1 back) header body bcc [] (feed-IsValid d1 back) h
        (ap (λ m. verify_bcc m header body bcc) mode ∙ c)
        (unread-feed d1 back v1 ∙ ap (λ t. t ++ back) u1 ∙ e) in
    (d1, d2, e1, e2, u2)

-- A lone first byte of the marker is thrown away: `decode` returns nil, and of the bytes that are
-- fed next none is joined to it.
pub decode_split_marker :
    (d : Decoder) (back : List ℕ)
    → IsValid d
    → unread d ≡ start_marker1 ∷ []
    → (d' : Decoder) × (decode d ≡ ok (none, d')) × (unread (feed d' back) ≡ back)
unfolding stream_decode stream_step marker_from
decode_split_marker d back v u =
    let (d', e, u') = view_result_ok (decode d) (
      decode-stream_decode d v
      ∙ ap (λ x. stream_decode (suc (length x)) d.bcc_include_start x) u) in
    let k : Total d (ok (none, d')) = rw e at (decode-Total d v) in
    (d', e, unread-feed d' back k.valid ∙ ap (λ t. t ++ back) u')

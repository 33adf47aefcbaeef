-- ===== src/Decoder/Buffer.antt =====
-- What the decoder keeps: its fields agree, `Feed` adds to the unread bytes, the marker is searched in
-- them, and a round moves on.
use gb32960_go_sdk.Base.{
  ℕ, zero, suc, ◌+◌, ◌-◌, ◌≤◌, ◌<◌, ◌&&◌, ◌≡◌, refl, sym, ap, ◌∙◌, ◌⊎◌, inl, inr, List, [], ◌∷◌,
  ◌++◌, Option, none, some, length, take, drop, get_elem?, ltb, ◌==◌, Result, ok, err, panic, stuck,
  arith, take_all, length-drop, drop-nil, drop_all, get_elem?-some, Option-cases, Bool-cases,
}
use gb32960_go_sdk.Constant.{header_size, start_marker1, start_marker2}
use gb32960_go_sdk.Packet.{Packet}
use gb32960_go_sdk.Decoder.{
  Decoder, Attempt, returns, again, crash, bytes, reset, feed, marker_from, find_start_marker,
  check_frame, read_frame, attempt, decode_loop, decode, header_length, verify_bcc,
}
use gb32960_go_sdk.Decoder.Stream.{unread, IsValid}

pub length-unread : (d : Decoder) → IsValid d → length (unread d) ≡ d.limit - d.pos
length-unread d v = omega (arith, length-drop d.pos (bytes d.buf))

-- Whatever a decoder's fields were, after `feed` they agree.
pub feed-IsValid : (d : Decoder) (input : List ℕ) → IsValid (feed d input)
unfolding feed
feed-IsValid d input = ground arith

pub mode-feed :
    (d : Decoder) (input : List ℕ) → (feed d input).bcc_include_start ≡ d.bcc_include_start
unfolding feed
mode-feed d input = ground arith

-- `feed` adds its bytes behind those that were not read.
pub unread-feed :
    (d : Decoder) (input : List ℕ) → IsValid d → unread (feed d input) ≡ unread d ++ input
unfolding feed
unread-feed d input v = elim (Option-cases d.buf) [
  | inl e ↦ rw (e, feed) (rw (drop-nil d.pos))
  | inr (b, e) ↦
      let full : d.limit ≡ length b = v.limit_length ∙ ap (λ t. length (bytes t)) e in
      elim (Bool-cases (ltb 0 (d.limit - d.pos))) [
        | inl more ↦
            rw (e, feed)
              (rw more (
                ap (λ t. t ++ input)
                  (take_all (d.limit - d.pos) (drop d.pos b) (omega (arith, length-drop d.pos b)))))
        | inr done ↦
            rw (e, feed)
              (rw done (ap (λ t. t ++ input) (sym (drop_all d.pos b (ground (arith, full))))))
      ]
]

-- The marker is found at the same place from whatever number the count starts.
pub marker_from_shift :
    (w : List ℕ) (i : ℕ)
    → ((marker_from w i ≡ none) × (marker_from w 0 ≡ none))
      ⊎ ((k : ℕ) × (r : List ℕ) × (marker_from w i ≡ some (i + k))
          × (marker_from w 0 ≡ some k)
          × (drop k w ≡ start_marker1 ∷ start_marker2 ∷ r))
unfolding marker_from
marker_from_shift [] i = inl (refl, refl)
marker_from_shift (a ∷ []) i = inl (refl, refl)
marker_from_shift (a ∷ b ∷ r) i = elim (Bool-cases (a == start_marker1 && b == start_marker2)) [
  | inl found ↦ inr (0, r, ground arith, ground arith, ground arith)
  | inr other ↦ elim (marker_from_shift (b ∷ r) (i + 1)) [
    | inl (e, e0) ↦ elim (marker_from_shift (b ∷ r) 1) [
      | inl (e1, _) ↦ inl (rw (other, e), rw (other, e1))
      | inr (k, r', e1, e0', f) ↦ cc
    ]
    | inr (k, r', e, e0, f) ↦ elim (marker_from_shift (b ∷ r) 1) [
      | inl (e1, e0') ↦ cc
      | inr (k', r'', e1, e0', f') ↦ inr (suc k, r', ground arith, ground arith, f)
    ]
  ]
]

-- With valid fields the search runs over the unread bytes.
pub find_start_marker-unread :
    (d : Decoder) → IsValid d → find_start_marker d ≡ marker_from (unread d) d.pos
unfolding find_start_marker
find_start_marker-unread d v =
    ap (λ w. marker_from w d.pos)
      (take_all (d.limit - d.pos) (unread d) (omega (arith, length-unread d v)))

-- What a round keeps: the fields agree, the mode and the time format stay, and a further round
-- starts at least two bytes on.
pub record Keeps (d d' : Decoder) : Type 0 where
  pub valid : IsValid d'
  pub mode : d'.bcc_include_start ≡ d.bcc_include_start
  pub codec : d'.time_codec ≡ d.time_codec

abbrev pub KeepsAfter : Decoder → Attempt → Type 0
KeepsAfter d (returns p d') = Keeps d d'
KeepsAfter d (again d') = Keeps d d' × (d'.limit ≡ d.limit) × (d.pos + 2 ≤ d'.pos)
KeepsAfter d crash = Unit {0}

check_frame-KeepsAfter :
    (d : Decoder) (start : ℕ) (header body : List ℕ) {p : ℕ}
    → IsValid d
    → p ≤ start
    → start + 2 ≤ d.pos
    → KeepsAfter (record d { pos = p }) (check_frame d start header body)
unfolding check_frame
check_frame-KeepsAfter d start header body v h k =
    elim (Option-cases (get_elem? (bytes d.buf) d.pos)) [
      | inl e ↦ rw (e, check_frame) tt
      | inr (bcc, e) ↦ elim (Bool-cases (verify_bcc d.bcc_include_start header body bcc)) [
        | inl pass ↦
            rw (e, check_frame)
              (rw pass (record {
                valid = omega (arith, get_elem?-some (bytes d.buf) d.pos e);
                mode = refl;
                codec = refl;
              }))
        | inr fail ↦
            rw (e, check_frame)
              (rw fail
                (record { valid = omega arith; mode = refl; codec = refl }, refl, omega arith))
      ]
    ]

read_frame-KeepsAfter :
    (d : Decoder) (start : ℕ)
    → IsValid d
    → d.pos ≤ start
    → start + 2 ≤ d.limit
    → KeepsAfter d (read_frame d start)
unfolding read_frame
read_frame-KeepsAfter d start v h k =
    let b = bytes d.buf in
    let n = header_length (take header_size (drop start b)) in
    elim (Bool-cases (ltb (d.limit - start) header_size)) [
      | inl short ↦ rw short (record { valid = omega arith; mode = refl; codec = refl })
      | inr long ↦ elim (Bool-cases (ltb (d.limit - (start + header_size)) n)) [
        | inl short ↦ rw (long, short) (record { valid = omega arith; mode = refl; codec = refl })
        | inr enough ↦
            rw (long, enough)
              (check_frame-KeepsAfter (record d { pos = start + header_size + n }) start _ _
                (ground arith) h (omega arith))
      ]
    ]

pub attempt-KeepsAfter : (d : Decoder) → IsValid d → KeepsAfter d (attempt d)
unfolding attempt reset
attempt-KeepsAfter d v = elim (marker_from_shift (unread d) d.pos) [
  | inl (e, e0) ↦
      let f : find_start_marker d ≡ none = find_start_marker-unread d v ∙ e in
      rw (f, attempt) (record { valid = omega arith; mode = refl; codec = refl })
  | inr (k, r, e, e0, m) ↦
      let f : find_start_marker d ≡ some (d.pos + k) = find_start_marker-unread d v ∙ e in
      rw (f, attempt)
        (read_frame-KeepsAfter d (d.pos + k) v (omega arith)
          (omega (arith, ap length m, length-drop k (unread d), length-unread d v)))
]

-- Each decoding ends: the bytes left bound its rounds. It panics, or the fields agree afterwards.
abbrev pub Total : Decoder → Result (Option Packet × Decoder) → Type 0
Total d (ok (p, d')) = Keeps d d'
Total d (err e) = ⊥
Total d panic = Unit {0}
Total d stuck = ⊥

Total-trans :
    (d d' : Decoder) (r : Result (Option Packet × Decoder)) → Keeps d d' → Total d' r → Total d r
Total-trans d d' (ok (p, d'')) k t = record {
  valid = t.valid;
  mode = t.mode ∙ k.mode;
  codec = t.codec ∙ k.codec;
}
Total-trans d d' (err e) k t = t
Total-trans d d' panic k t = t
Total-trans d d' stuck k t = t

decode_loop-Total_step :
    (fuel : ℕ) (d : Decoder) (a : Attempt)
    → ((d' : Decoder) → IsValid d' → d'.limit < d'.pos + fuel → Total d' (decode_loop fuel d'))
    → attempt d ≡ a
    → KeepsAfter d a
    → d.limit < d.pos + suc fuel
    → Total d (decode_loop (suc fuel) d)
unfolding decode_loop
decode_loop-Total_step fuel d (returns p d') ih e k h = rw (e, decode_loop) k
decode_loop-Total_step fuel d (again d') ih e k h =
    rw (e, decode_loop) (Total-trans d d' _ k.0 (ih d' k.0.valid (omega arith)))
decode_loop-Total_step fuel d crash ih e k h = rw (e, decode_loop) tt

decode_loop-Total :
    (fuel : ℕ) (d : Decoder) → IsValid d → d.limit < d.pos + fuel → Total d (decode_loop fuel d)
decode_loop-Total zero d v h = absurd (omega arith)
decode_loop-Total (suc fuel) d v h =
    decode_loop-Total_step fuel d (attempt d) (decode_loop-Total fuel) refl (attempt-KeepsAfter d v)
      h

-- On a decoder whose fields agree, `decode` either panics or returns, with fuel to spare: it gives
-- no error, and the decoder that it leaves has fields that agree, the same checksum mode and the
-- same time format.
pub decode-Total : (d : Decoder) → IsValid d → Total d (decode d)
unfolding decode
decode-Total d v = decode_loop-Total (suc (d.limit - d.pos)) d v (omega arith)

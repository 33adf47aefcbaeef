-- ===== src/Decoder/Vin.antt =====
-- decoder.go, `VerifyVIN`: a loop over the runes of a string, as Go decodes them from its bytes, and
-- that it is a check of the bytes.
use gb32960_go_sdk.Base.{
  ℕ, zero, suc, ◌+◌, ◌*◌, ◌%◌, ◌≤◌, ◌≡◌, ◌⊎◌, ◌↔◌, refl, Bool, true, false, ◌&&◌, ◌||◌, not, inl,
  inr, List, [], ◌∷◌, length, drop, ltb, leb, ◌==◌, ==_iff, All, if◌then◌else◌, Bool-cases, arith,
}
use gb32960_go_sdk.Constant.{vin_length}

-- A byte that goes on a rune.
abbrev pub is_continuation : ℕ → Bool
is_continuation b = leb 0x80 b && leb b 0xbf

-- What a rune is where its bytes are no UTF-8.
abbrev pub rune_error : ℕ × ℕ
rune_error = (0xfffd, 1)

abbrev between : ℕ → ℕ → ℕ → Bool
between lo hi b = leb lo b && leb b hi

-- The range of the second byte of a rune of three or four bytes, which leaves out what a shorter rune
-- can say, surrogates, and what lies above the last rune.
abbrev second_of_three : ℕ → ℕ → Bool
second_of_three a b =
    if a == 0xe0
    then between 0xa0 0xbf b
    else if a == 0xed
    then between 0x80 0x9f b
    else is_continuation b

abbrev second_of_four : ℕ → ℕ → Bool
second_of_four a b =
    if a == 0xf0
    then between 0x90 0xbf b
    else if a == 0xf4
    then between 0x80 0x8f b
    else is_continuation b

abbrev two_bytes : ℕ → List ℕ → ℕ × ℕ
two_bytes a [] = rune_error
two_bytes a (b ∷ r) = if is_continuation b then (a % 32 * 64 + b % 64, 2) else rune_error

abbrev three_bytes : ℕ → List ℕ → ℕ × ℕ
three_bytes a (b ∷ c ∷ r) =
    if second_of_three a b && is_continuation c
    then (a % 16 * 4096 + b % 64 * 64 + c % 64, 3)
    else rune_error
three_bytes a _ = rune_error

abbrev four_bytes : ℕ → List ℕ → ℕ × ℕ
four_bytes a (b ∷ c ∷ d ∷ r) =
    if second_of_four a b && (is_continuation c && is_continuation d)
    then (a % 8 * 262144 + b % 64 * 4096 + c % 64 * 64 + d % 64, 4)
    else rune_error
four_bytes a _ = rune_error

-- The first rune of bytes, by their first one, with the number of its bytes.
pub decode_rune : ℕ → List ℕ → ℕ × ℕ
decode_rune a r =
    if ltb a 0x80
    then (a, 1)
    else if between 0xc2 0xdf a
    then two_bytes a r
    else if between 0xe0 0xef a
    then three_bytes a r
    else if between 0xf0 0xf4 a
    then four_bytes a r
    else rune_error

-- `(c >= '0' && c <= '9') || (c >= 'A' && c <= 'Z') || (c >= 'a' && c <= 'z')`
abbrev pub is_alphanumeric : ℕ → Bool
is_alphanumeric c = between 0x30 0x39 c || between 0x41 0x5a c || between 0x61 0x7a c

-- The loop; a rune has a byte at least.
pub runes_loop : ℕ → List ℕ → Bool
unfolding decode_rune
runes_loop zero s = true
runes_loop (suc fuel) [] = true
runes_loop (suc fuel) (a ∷ r) =
    let (c, n) = decode_rune a r in
    let rest = runes_loop fuel (drop n (a ∷ r)) in if not (is_alphanumeric c) then false else rest

pub verify_vin : List ℕ → Bool
unfolding runes_loop
verify_vin vin = if not (length vin == vin_length) then false else runes_loop (length vin) vin

abbrev all_alphanumeric : List ℕ → Bool
all_alphanumeric [] = true
all_alphanumeric (b ∷ r) = is_alphanumeric b && all_alphanumeric r

not_alphanumeric : (c : ℕ) → 0x80 ≤ c → is_alphanumeric c ≡ false
not_alphanumeric c h = ground arith

two_bytes-high : (a : ℕ) (r : List ℕ) → 0xc2 ≤ a → a ≤ 0xdf → 0x80 ≤ (two_bytes a r).0
two_bytes-high a [] lo hi = omega arith
two_bytes-high a (b ∷ r) lo hi = elim (Bool-cases (is_continuation b)) [
  | inl e ↦ rw e (omega arith)
  | inr e ↦ rw e (omega arith)
]

three_bytes-high : (a : ℕ) (r : List ℕ) → 0xe0 ≤ a → a ≤ 0xef → 0x80 ≤ (three_bytes a r).0
three_bytes-high a [] lo hi = omega arith
three_bytes-high a (b ∷ []) lo hi = omega arith
three_bytes-high a (b ∷ c ∷ r) lo hi =
    elim (Bool-cases (second_of_three a b && is_continuation c)) [
      | inl e ↦ rw e (ground arith)
      | inr e ↦ rw e (omega arith)
    ]

four_bytes-high : (a : ℕ) (r : List ℕ) → 0xf0 ≤ a → a ≤ 0xf4 → 0x80 ≤ (four_bytes a r).0
four_bytes-high a [] lo hi = omega arith
four_bytes-high a (b ∷ []) lo hi = omega arith
four_bytes-high a (b ∷ c ∷ []) lo hi = omega arith
four_bytes-high a (b ∷ c ∷ d ∷ r) lo hi =
    elim (Bool-cases (second_of_four a b && (is_continuation c && is_continuation d))) [
      | inl e ↦ rw e (ground arith)
      | inr e ↦ rw e (omega arith)
    ]

decode_rune-high : (a : ℕ) (r : List ℕ) → ltb a 0x80 ≡ false → 0x80 ≤ (decode_rune a r).0
unfolding decode_rune
decode_rune-high a r high = rw high (elim (Bool-cases (between 0xc2 0xdf a)) [
  | inl e ↦ rw e (two_bytes-high a r (ground arith) (ground arith))
  | inr e ↦ rw e (elim (Bool-cases (between 0xe0 0xef a)) [
    | inl e3 ↦ rw e3 (three_bytes-high a r (ground arith) (ground arith))
    | inr e3 ↦ rw e3 (elim (Bool-cases (between 0xf0 0xf4 a)) [
      | inl e4 ↦ rw e4 (four_bytes-high a r (ground arith) (ground arith))
      | inr e4 ↦ rw e4 (omega arith)
    ])
  ])
])

runes_loop-all_alphanumeric :
    (fuel : ℕ) (s : List ℕ) → length s ≤ fuel → runes_loop fuel s ≡ all_alphanumeric s
unfolding runes_loop
runes_loop-all_alphanumeric zero [] h = refl
runes_loop-all_alphanumeric zero (a ∷ r) h = absurd (omega arith)
runes_loop-all_alphanumeric (suc fuel) [] h = refl
runes_loop-all_alphanumeric (suc fuel) (a ∷ r) h = elim (Bool-cases (ltb a 0x80)) [
  | inl low ↦
      let one : decode_rune a r ≡ (a, 1) = unfold decode_rune in rw low refl in
      rw one (elim (Bool-cases (is_alphanumeric a)) [
        | inl fine ↦ rw fine (runes_loop-all_alphanumeric fuel r (omega arith))
        | inr bad ↦ rw bad refl
      ])
  | inr high ↦ rw (
    not_alphanumeric (decode_rune a r).0 (decode_rune-high a r high),
    not_alphanumeric a (ground arith),
  )
]

-- A digit or a letter of ASCII, by its code.
abbrev pub IsAlphanumeric : ℕ → Type 0
IsAlphanumeric b = ((48 ≤ b) × (b ≤ 57)) ⊎ (((65 ≤ b) × (b ≤ 90)) ⊎ ((97 ≤ b) × (b ≤ 122)))

is_alphanumeric_iff : (b : ℕ) → (is_alphanumeric b ≡ true) ↔ IsAlphanumeric b
is_alphanumeric_iff b = ground arith

all_alphanumeric_iff : (s : List ℕ) → (all_alphanumeric s ≡ true) ↔ All IsAlphanumeric s
all_alphanumeric_iff [] = (λ e. tt, λ h. refl)
all_alphanumeric_iff (b ∷ r) =
    let here = is_alphanumeric_iff b in
    let rest = all_alphanumeric_iff r in
    elim (Bool-cases (is_alphanumeric b)) [
      | inl e ↦ rw e ((λ t. (here.0 e, rest.0 t)), (λ h. rest.1 h.1))
      | inr e ↦ rw e ((λ t. cc), (λ h. cc (e, here.1 h.0)))
    ]

-- `VerifyVIN` accepts exactly the strings of seventeen bytes each of which is a digit or a letter of
-- ASCII, although it goes over runes: a byte that begins a longer rune, or none, is refused.
pub verify_vin_iff :
    (vin : List ℕ) → (verify_vin vin ≡ true) ↔ ((length vin ≡ 17) × All IsAlphanumeric vin)
unfolding verify_vin
verify_vin_iff vin =
    let loop = runes_loop-all_alphanumeric (length vin) vin (omega arith) in
    let all = all_alphanumeric_iff vin in
    let sized = ==_iff (length vin) vin_length in
    elim (Bool-cases (length vin == vin_length)) [
      | inl e ↦ rw (e, loop) ((λ t. (sized.0 e, all.0 t)), (λ h. all.1 h.1))
      | inr e ↦ rw e ((λ t. cc), (λ h. cc (e, sized.1 h.0)))
    ]

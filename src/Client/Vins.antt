-- ===== src/Client/Vins.antt =====
-- The VINs of the clients of the stress test are different.
use gb32960_go_sdk.Base.{
  ℕ, zero, suc, ◌+◌, ◌-◌, ◌*◌, ◌/◌, ◌%◌, ◌^◌, ◌<◌, ◌≤◌, ◌≡◌, refl, sym, ap, ◌∙◌, inl, inr, List, [],
  ◌∷◌, ◌++◌, ltb, length, take, drop, replicate, arith, Bool-cases, lt→ltb, length-append,
  length-replicate, take-append,
}
use gb32960_go_sdk.Constant.{vin_length}
use gb32960_go_sdk.Client.{copy}
use gb32960_go_sdk.Client.Stress.{decimal, client_vin}
use gb32960_go_sdk.Client.StressServed.{padded_vin}

-- The number that decimal digits stand for, behind a number that is read already.
abbrev value : ℕ → List ℕ → ℕ
value n [] = n
value n (d ∷ ds) = value (n * 10 + (d - 0x30)) ds

value-append : (n : ℕ) (xs ys : List ℕ) → value n (xs ++ ys) ≡ value (value n xs) ys
value-append n [] ys = refl
value-append n (x ∷ xs) ys = value-append (n * 10 + (x - 0x30)) xs ys

value-zeros : (k : ℕ) → value 0 (replicate k 0x30) ≡ 0
value-zeros zero = refl
value-zeros (suc k) = value-zeros k

value-decimal : (fuel n : ℕ) → n < 10 ^ fuel → value 0 (decimal fuel n) ≡ n
unfolding decimal
value-decimal zero n h = omega arith
value-decimal (suc fuel) n h = elim (Bool-cases (ltb n 10)) [
  | inl small ↦ rw small (omega arith)
  | inr big ↦
      rw
        (
          big,
          value-append 0 (decimal fuel (n / 10)) ((0x30 + n % 10) ∷ []),
          value-decimal fuel (n / 10) (omega arith),
        )
        (omega arith)
]

length-decimal : (fuel k n : ℕ) → n < 10 ^ suc k → length (decimal fuel n) ≤ suc k
unfolding decimal
length-decimal zero k n h = omega arith
length-decimal (suc fuel) zero n h = rw (lt→ltb n 10 (omega arith)) (omega arith)
length-decimal (suc fuel) (suc k) n h =
    let less = length-decimal fuel k (n / 10) (omega arith) in
    elim (Bool-cases (ltb n 10)) [
      | inl small ↦ rw small (omega arith)
      | inr big ↦
          rw big (omega (arith, less, length-append (decimal fuel (n / 10)) ((0x30 + n % 10) ∷ [])))
    ]

-- The digits behind "HC", thirteen of them at least.
digits : ℕ → List ℕ
unfolding decimal
digits id = replicate (13 - length (decimal 19 id)) 0x30 ++ decimal 19 id

abbrev Numbered : ℕ → Type 0
Numbered id = id < 10000000000000

value-digits : (id : ℕ) → Numbered id → value 0 (digits id) ≡ id
unfolding digits
value-digits id h =
    value-append 0 (replicate (13 - length (decimal 19 id)) 0x30) (decimal 19 id)
    ∙ ap (λ n. value n (decimal 19 id)) (value-zeros (13 - length (decimal 19 id)))
    ∙ value-decimal 19 id (omega arith)

length-digits : (id : ℕ) → Numbered id → length (digits id) ≡ 13
unfolding digits
length-digits id h = omega (
  arith,
  length-append (replicate (13 - length (decimal 19 id)) 0x30) (decimal 19 id),
  length-replicate {A = ℕ} (13 - length (decimal 19 id)) 0x30,
  length-decimal 19 12 id h,
)

copy-shorter :
    (dst src : List ℕ) → length src ≤ length dst → copy dst src ≡ src ++ drop (length src) dst
copy-shorter [] [] h = refl
copy-shorter [] (s ∷ src) h = absurd (omega arith)
copy-shorter (d ∷ dst) [] h = refl
copy-shorter (d ∷ dst) (s ∷ src) h = ap (◌∷◌ s) (copy-shorter dst src (omega arith))

padded_vin-digits :
    (id : ℕ) → Numbered id → padded_vin id ≡ 0x48 ∷ 0x43 ∷ (digits id ++ (0 ∷ 0 ∷ []))
unfolding digits client_vin
padded_vin-digits id h =
    let size = length-digits id h in
    copy-shorter (replicate vin_length 0) (client_vin id) (omega (arith, size))
    ∙ ap (λ n. client_vin id ++ drop (suc (suc n)) (replicate vin_length 0)) size

-- The number in the digits of a VIN.
abbrev pub number_in : List ℕ → ℕ
number_in vin = value 0 (take 13 (drop 2 vin))

-- The number of a client of the stress test, if it is below ten to the thirteenth, can be read off
-- the VIN that the client sends, so that the VINs of different clients are different.
pub number_in-padded_vin : (id : ℕ) → Numbered id → number_in (padded_vin id) ≡ id
number_in-padded_vin id h =
    ap number_in (padded_vin-digits id h)
    ∙ ap (value 0) (take-append 13 (digits id) (0 ∷ 0 ∷ []) (sym (length-digits id h)))
    ∙ value-digits id h

-- ===== src/Decoder/Checksum.antt =====
-- What the checksum detects.
use Prim.Native.Nat.{bit_xor}
use gb32960_go_sdk.Base.{
  ℕ, ◌≡◌, ◌≢◌, sym, ap, ◌∙◌, true, false, List, [], ◌∷◌, ◌++◌, drop, arith, inl, inr, Bool-cases,
}
use gb32960_go_sdk.Base.Bits.{bit_xor_cancel, bit_xor_comm}
use gb32960_go_sdk.Decoder.{xor_bytes, calculate_bcc, verify_bcc}
use gb32960_go_sdk.Decoder.RoundTrip.{xor_bytes-append}

xor_bytes_cancel : (a b : ℕ) (xs : List ℕ) → xor_bytes a xs ≡ xor_bytes b xs → a ≡ b
unfolding xor_bytes
xor_bytes_cancel a b [] e = e
xor_bytes_cancel a b (x ∷ xs) e =
    bit_xor_cancel a b x (xor_bytes_cancel (bit_xor a x) (bit_xor b x) xs e)

-- Two lists of bytes that differ in one place have different checksums.
calculate_bcc_one :
    (front back : List ℕ) (a b : ℕ)
    → calculate_bcc (front ++ (a ∷ back)) ≡ calculate_bcc (front ++ (b ∷ back))
    → a ≡ b
unfolding calculate_bcc xor_bytes
calculate_bcc_one front back a b e =
    let acc = xor_bytes 0 front in
    let same : bit_xor acc a ≡ bit_xor acc b =
      xor_bytes_cancel (bit_xor acc a) (bit_xor acc b) back
        (sym (xor_bytes-append 0 front (a ∷ back)) ∙ e ∙ xor_bytes-append 0 front (b ∷ back)) in
    bit_xor_cancel a b acc (bit_xor_comm a acc ∙ same ∙ bit_xor_comm acc b)

checked_bytes :
    (header body : List ℕ) (bcc : ℕ)
    → verify_bcc false header body bcc ≡ true
    → calculate_bcc (drop 2 header ++ body) ≡ bcc
unfolding verify_bcc calculate_bcc
checked_bytes header body bcc v = xor_bytes-append 0 (drop 2 header) body ∙ ground arith

-- In the standard mode `verify_bcc` detects every change of a single byte behind the marker: if two
-- frames differ in one byte of the header behind the marker or of the data, then a checksum that it
-- accepts for one of them it refuses for the other.
pub verify_bcc_one_byte :
    (header header' body body' front back : List ℕ) (a b bcc : ℕ)
    → a ≢ b
    → drop 2 header ++ body ≡ front ++ (a ∷ back)
    → drop 2 header' ++ body' ≡ front ++ (b ∷ back)
    → verify_bcc false header body bcc ≡ true
    → verify_bcc false header' body' bcc ≡ false
verify_bcc_one_byte header header' body body' front back a b bcc ne e e' v =
    elim (Bool-cases (verify_bcc false header' body' bcc)) [
      | inl v' ↦ absurd (
          ne (
            calculate_bcc_one front back a b (
              ap calculate_bcc (sym e)
              ∙ checked_bytes header body bcc v
              ∙ sym (checked_bytes header' body' bcc v')
              ∙ ap calculate_bcc e')))
      | inr v' ↦ v'
    ]

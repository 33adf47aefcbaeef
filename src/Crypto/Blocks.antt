-- ===== src/Crypto/Blocks.antt =====
-- The chaining of blocks, undone.
use gb32960_go_sdk.Base.{
  ℕ, zero, suc, ◌*◌, ◌≡◌, refl, sym, ◌∙◌, List, [], ◌∷◌, length, take, drop, IsByte, All, arith,
  length-append, length-take, length-drop, take-append, drop-append, take-append-drop,
}
use gb32960_go_sdk.Base.Bits.{bit_xor_twice, bit_xor-byte}
use gb32960_go_sdk.Crypto.{block_size, IsBlock, BlockCipher, xor_block, cbc_encrypt, cbc_decrypt}

pub xor_block_twice : (xs ys : List ℕ) → length xs ≡ length ys → xor_block (xor_block xs ys) ys ≡ xs
unfolding xor_block
xor_block_twice [] ys e = refl
xor_block_twice (x ∷ xs) [] e = absurd (omega arith)
xor_block_twice (x ∷ xs) (y ∷ ys) e = rw (bit_xor_twice x y, xor_block_twice xs ys (omega arith))

length-xor_block : (xs ys : List ℕ) → length xs ≡ length ys → length (xor_block xs ys) ≡ length xs
unfolding xor_block
length-xor_block [] ys e = refl
length-xor_block (x ∷ xs) [] e = absurd (omega arith)
length-xor_block (x ∷ xs) (y ∷ ys) e = omega (arith, length-xor_block xs ys (omega arith))

xor_block-bytes : (xs ys : List ℕ) → All IsByte xs → All IsByte ys → All IsByte (xor_block xs ys)
unfolding xor_block
xor_block-bytes [] ys h k = tt
xor_block-bytes (x ∷ xs) [] h k = tt
xor_block-bytes (x ∷ xs) (y ∷ ys) h k = (bit_xor-byte x y h.0 k.0, xor_block-bytes xs ys h.1 k.1)

pub xor_block-IsBlock : (xs ys : List ℕ) → IsBlock xs → IsBlock ys → IsBlock (xor_block xs ys)
xor_block-IsBlock xs ys h k = record {
  sized = length-xor_block xs ys (h.sized ∙ sym k.sized) ∙ h.sized;
  bytes = xor_block-bytes xs ys h.bytes k.bytes;
}

pub take-bytes : (n : ℕ) (xs : List ℕ) → All IsByte xs → All IsByte (take n xs)
take-bytes zero xs h = tt
take-bytes (suc n) [] h = tt
take-bytes (suc n) (x ∷ xs) h = (h.0, take-bytes n xs h.1)

drop-bytes : (n : ℕ) (xs : List ℕ) → All IsByte xs → All IsByte (drop n xs)
drop-bytes zero xs h = h
drop-bytes (suc n) [] h = tt
drop-bytes (suc n) (x ∷ xs) h = drop-bytes n xs h.1

module _ (aes : BlockCipher) (k : List ℕ) (key : IsBlock k) where
  -- Each cipher block is enciphered from the plain block mixed with the one before it.
  pub cbc_decrypt-encrypt :
      (n : ℕ) (iv input : List ℕ)
      → IsBlock iv
      → All IsByte input
      → length input ≡ n * block_size
      → cbc_decrypt (aes.decipher k) n iv (cbc_encrypt (aes.encipher k) n iv input) ≡ input
  unfolding cbc_decrypt cbc_encrypt
  cbc_decrypt-encrypt zero iv [] b h e = refl
  cbc_decrypt-encrypt zero iv (x ∷ xs) b h e = absurd (omega arith)
  cbc_decrypt-encrypt (suc n) iv input b h e =
      let p = take block_size input in
      let plain : IsBlock p = record {
        sized = omega (arith, length-take block_size input);
        bytes = take-bytes block_size input h;
      } in
      let x = xor_block p iv in
      let mixed : IsBlock x = xor_block-IsBlock p iv plain b in
      let c = aes.encipher k x in
      let block : IsBlock c = aes.encipher_block k x key mixed in
      let rest = cbc_encrypt (aes.encipher k) n c (drop block_size input) in
      rw
        (
          take-append block_size c rest (sym block.sized),
          drop-append block_size c rest (sym block.sized),
          aes.decipher_encipher k x key mixed,
          xor_block_twice p iv (plain.sized ∙ sym b.sized),
          cbc_decrypt-encrypt n c (drop block_size input) block (drop-bytes block_size input h)
              (omega (arith, length-drop block_size input)),
        )
        (take-append-drop block_size input)

  pub length-cbc_encrypt :
      (n : ℕ) (iv input : List ℕ)
      → IsBlock iv
      → All IsByte input
      → length input ≡ n * block_size
      → length (cbc_encrypt (aes.encipher k) n iv input) ≡ n * block_size
  unfolding cbc_encrypt
  length-cbc_encrypt zero iv input b h e = refl
  length-cbc_encrypt (suc n) iv input b h e =
      let p = take block_size input in
      let plain : IsBlock p = record {
        sized = omega (arith, length-take block_size input);
        bytes = take-bytes block_size input h;
      } in
      let x = xor_block p iv in
      let block = aes.encipher_block k x key (xor_block-IsBlock p iv plain b) in
      let c = aes.encipher k x in
      omega (
        arith,
        block.sized,
        length-append c (cbc_encrypt (aes.encipher k) n c (drop block_size input)),
        length-cbc_encrypt n c (drop block_size input) block (drop-bytes block_size input h)
            (omega (arith, length-drop block_size input)),
      )

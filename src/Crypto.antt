-- ===== src/Crypto.antt =====
-- crypto.go: AES-128 in CBC mode with PKCS#7 padding, the key and the initial vector from the token
-- of the login. The block function of crypto/aes is a parameter; the chaining of crypto/cipher is
-- written out.
mod Tests
pub mod Blocks
pub mod RoundTrip
pub mod Safe
use Prim.Native.Nat.{bit_xor}
use gb32960_go_sdk.Base.{
  ℕ, zero, suc, ◌+◌, ◌-◌, ◌/◌, ◌%◌, Bool, true, false, ◌||◌, not, List, [], ◌∷◌, ◌++◌, ◌==◌, ltb,
  if◌then◌else◌, length, take, drop, replicate, Result, ok, err, key_too_short, decrypt, empty_data,
  invalid_padding, panic, stuck, IsByte, All, ◌≡◌,
}

abbrev pub block_size : ℕ
block_size = 16

-- Sixteen bytes.
pub record IsBlock (b : List ℕ) : Type 0 where
  pub sized : length b ≡ block_size
  pub bytes : All IsByte b

-- crypto/aes: with a key of sixteen bytes a block is enciphered to a block, and deciphered again.
pub record BlockCipher : Type 0 where
  pub encipher : List ℕ → List ℕ → List ℕ
  pub decipher : List ℕ → List ℕ → List ℕ
  pub encipher_block : (k b : List ℕ) → IsBlock k → IsBlock b → IsBlock (encipher k b)
  pub decipher_encipher : (k b : List ℕ) → IsBlock k → IsBlock b → decipher k (encipher k b) ≡ b

-- `DeriveAESKey`: the token, cut or filled up with zeros.
pub derive_aes_key : List ℕ → List ℕ
derive_aes_key token = take block_size token ++ replicate (block_size - length token) 0

unfoldable pub xor_block : List ℕ → List ℕ → List ℕ
xor_block [] ys = []
xor_block (x ∷ xs) [] = []
xor_block (x ∷ xs) (y ∷ ys) = bit_xor x y ∷ xor_block xs ys

-- `CryptBlocks` over `n` blocks, each mixed with the cipher block before it.
unfoldable pub cbc_encrypt : (List ℕ → List ℕ) → ℕ → List ℕ → List ℕ → List ℕ
cbc_encrypt f zero iv input = []
cbc_encrypt f (suc n) iv input =
    let c = f (xor_block (take block_size input) iv) in
    c ++ cbc_encrypt f n c (drop block_size input)

pub cbc_decrypt : (List ℕ → List ℕ) → ℕ → List ℕ → List ℕ → List ℕ
cbc_decrypt f zero iv input = []
cbc_decrypt f (suc n) iv input =
    let c = take block_size input in xor_block (f c) iv ++ cbc_decrypt f n c (drop block_size input)

unfoldable pub pkcs7_pad : List ℕ → ℕ → List ℕ
pkcs7_pad input size = let n = size - length input % size in input ++ replicate n (n % 256)

-- The last byte; 0 of no bytes, which the caller has excluded.
pub last_byte : List ℕ → ℕ
last_byte [] = 0
last_byte (b ∷ []) = b
last_byte (b ∷ c ∷ r) = last_byte (c ∷ r)

pub pkcs7_unpad : List ℕ → Result (List ℕ)
pkcs7_unpad input =
    if length input == 0
    then err empty_data
    else let n = last_byte input in
      if ltb (length input) n || n == 0 || ltb block_size n
      then err invalid_padding
      else ok (take (length input - n) input)

-- Every error of the padding is reported as this one.
abbrev pub or_decrypt : Result (List ℕ) → Result (List ℕ)
or_decrypt (ok x) = ok x
or_decrypt (err e) = err decrypt
or_decrypt panic = panic
or_decrypt stuck = stuck

module _ (aes : BlockCipher) where
  unfoldable pub encrypt_aes128 : List ℕ → List ℕ → Result (List ℕ)
  encrypt_aes128 input key =
      if ltb (length key) block_size
      then err key_too_short
      else let k = take block_size key in
        let padded = pkcs7_pad input block_size in
        ok (cbc_encrypt (aes.encipher k) (length padded / block_size) k padded)

  pub decrypt_aes128 : List ℕ → List ℕ → Result (List ℕ)
  decrypt_aes128 input key =
      if ltb (length key) block_size
      then err key_too_short
      else if not (length input % block_size == 0)
      then err decrypt
      else let k = take block_size key in
        or_decrypt (pkcs7_unpad (cbc_decrypt (aes.decipher k) (length input / block_size) k input))

-- ===== src/Crypto/RoundTrip.antt =====
-- Encrypted data are decrypted again, and have the length that the padding gives.
use gb32960_go_sdk.Base.{
  ℕ, zero, suc, ◌+◌, ◌-◌, ◌*◌, ◌/◌, ◌%◌, ◌≤◌, ◌<◌, ◌≡◌, refl, ap, List, [], ◌∷◌, ◌++◌, length, take,
  replicate, ok, IsByte, All, All-append, arith, length-append, length-take, length-replicate,
  take-append, le→ltb, ==_ne,
}
use gb32960_go_sdk.Crypto.{
  block_size, IsBlock, BlockCipher, derive_aes_key, cbc_encrypt, pkcs7_pad, last_byte, pkcs7_unpad,
  encrypt_aes128, decrypt_aes128,
}
use gb32960_go_sdk.Crypto.Blocks.{take-bytes, cbc_decrypt-encrypt, length-cbc_encrypt}

last_byte-replicate : (n b : ℕ) → last_byte (replicate (suc n) b) ≡ b
unfolding last_byte
last_byte-replicate zero b = refl
last_byte-replicate (suc n) b = last_byte-replicate n b

last_byte-append : (xs : List ℕ) (n b : ℕ) → last_byte (xs ++ replicate (suc n) b) ≡ b
unfolding last_byte
last_byte-append [] n b = last_byte-replicate n b
last_byte-append (x ∷ []) n b = last_byte-replicate n b
last_byte-append (x ∷ y ∷ r) n b = last_byte-append (y ∷ r) n b

pub replicate-bytes : (n b : ℕ) → b < 256 → All IsByte (replicate n b)
replicate-bytes zero b h = tt
replicate-bytes (suc n) b h = (h, replicate-bytes n b h)

-- The number of padding bytes, from 1 to 16.
abbrev padding : List ℕ → ℕ
padding input = block_size - length input % block_size

length-pkcs7_pad :
    (input : List ℕ)
    → length (pkcs7_pad input block_size) ≡ (length input / block_size + 1) * block_size
unfolding pkcs7_pad
length-pkcs7_pad input = omega (
  arith,
  length-append input (replicate (padding input) (padding input % 256)),
  length-replicate (padding input) (padding input % 256),
)

pkcs7_pad-bytes : (input : List ℕ) → All IsByte input → All IsByte (pkcs7_pad input block_size)
unfolding pkcs7_pad
pkcs7_pad-bytes input h =
    All-append IsByte input _ h
      (replicate-bytes (padding input) (padding input % 256) (omega arith))

pkcs7_unpad-padded :
    (input : List ℕ) (m : ℕ) → m < 16 → pkcs7_unpad (input ++ replicate (suc m) (suc m)) ≡ ok input
unfolding pkcs7_unpad
pkcs7_unpad-padded input m h =
    let w = input ++ replicate (suc m) (suc m) in
    let el : length w ≡ length input + suc m =
      omega (
        arith,
        length-append input (replicate (suc m) (suc m)),
        length-replicate (suc m) (suc m),
      ) in
    rw
      (
        last_byte-append input m (suc m),
        ==_ne (length w) 0 (omega arith),
        le→ltb (length w) (suc m) (omega arith),
        ==_ne (suc m) 0 (omega arith),
        le→ltb block_size (suc m) (omega arith),
      )
      (ap ok (take-append (length w - suc m) input (replicate (suc m) (suc m)) (omega arith)))

pkcs7_unpad_counted :
    (input : List ℕ) (n b : ℕ)
    → 1 ≤ n
    → n ≤ 16
    → b ≡ n
    → pkcs7_unpad (input ++ replicate n b) ≡ ok input
pkcs7_unpad_counted input zero b lo hi e = absurd (omega arith)
pkcs7_unpad_counted input (suc m) b lo hi e = rw e (pkcs7_unpad-padded input m (omega arith))

-- What `pkcs7_pad` adds, from 1 to 16 bytes, `pkcs7_unpad` takes off.
pub pkcs7_unpad-pad : (input : List ℕ) → pkcs7_unpad (pkcs7_pad input block_size) ≡ ok input
unfolding pkcs7_pad
pkcs7_unpad-pad input =
    pkcs7_unpad_counted input (padding input) (padding input % 256) (omega arith) (omega arith)
      (omega arith)

take-IsBlock :
    (key : List ℕ) → block_size ≤ length key → All IsByte key → IsBlock (take block_size key)
take-IsBlock key h b = record {
  sized = omega (arith, length-take block_size key);
  bytes = take-bytes block_size key b;
}

module _ (aes : BlockCipher) (input key : List ℕ) (long : block_size ≤ length key)
    (kb : All IsByte key) (ib : All IsByte input) where
  abbrev k : List ℕ
  k = take block_size key

  abbrev padded : List ℕ
  padded = pkcs7_pad input block_size

  abbrev blocks : ℕ
  blocks = length input / block_size + 1

  blocks_of_padded : length padded / block_size ≡ blocks
  blocks_of_padded = omega (arith, length-pkcs7_pad input)

  abbrev cipher_text : List ℕ
  cipher_text = cbc_encrypt (aes.encipher k) blocks k padded

  -- Encrypting bytes under a key of sixteen bytes or more succeeds, with a text of whole blocks, one
  -- to sixteen bytes longer than the data, and decrypting that under the same key gives the data
  -- back. The block cipher is a parameter, of which only the law is used that deciphering undoes
  -- enciphering on blocks of sixteen bytes.
  pub decrypt-encrypt :
      (c : List ℕ) × (encrypt_aes128 aes input key ≡ ok c)
      × (length c ≡ (length input / block_size + 1) * block_size)
      × (decrypt_aes128 aes c key ≡ ok input)
  unfolding encrypt_aes128 decrypt_aes128
  decrypt-encrypt =
      let kk = take-IsBlock key long kb in
      let pb = pkcs7_pad-bytes input ib in
      let size = length-pkcs7_pad input in
      let len : length cipher_text ≡ blocks * block_size =
        length-cbc_encrypt aes k kk blocks k padded kk pb size in
      let whole : length cipher_text % block_size ≡ 0 = omega arith in
      let count : length cipher_text / block_size ≡ blocks = omega arith in
      (
        cipher_text,
        rw (le→ltb (length key) block_size long, blocks_of_padded),
        len,
        rw (
          le→ltb (length key) block_size long,
          whole,
          count,
          cbc_decrypt-encrypt aes k kk blocks k padded kk pb size,
          pkcs7_unpad-pad input,
        ),
      )

-- A key derived from a token has sixteen bytes: those of the token as far as they go, then zeros.
pub derive_aes_key-IsBlock : (token : List ℕ) → All IsByte token → IsBlock (derive_aes_key token)
unfolding derive_aes_key
derive_aes_key-IsBlock token h = record {
  sized = omega (
    arith,
    length-append (take block_size token) (replicate (block_size - length token) 0),
    length-replicate {0} {A = ℕ} (block_size - length token) 0,
    length-take block_size token,
  );
  bytes =
      All-append IsByte (take block_size token) _ (take-bytes block_size token h)
        (replicate-bytes (block_size - length token) 0 (omega arith));
}

-- With the key of any token, data of bytes are encrypted, never refused, and decrypted again.
pub decrypt-encrypt_derived :
    (aes : BlockCipher) (input token : List ℕ)
    → All IsByte token
    → All IsByte input
    → (c : List ℕ) × (encrypt_aes128 aes input (derive_aes_key token) ≡ ok c)
      × (decrypt_aes128 aes c (derive_aes_key token) ≡ ok input)
decrypt-encrypt_derived aes input token ht hi =
    let key = derive_aes_key-IsBlock token ht in
    let (c, e, l, d) =
      decrypt-encrypt aes input (derive_aes_key token) (omega (arith, key.sized)) key.bytes hi in
    (c, e, d)

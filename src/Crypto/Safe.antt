-- ===== src/Crypto/Safe.antt =====
-- Encryption and decryption give a value or an error.
use gb32960_go_sdk.Base.{
  ℕ, ◌%◌, not, inl, inr, List, length, ltb, ◌==◌, Result, ok, err, panic, stuck, Returns,
  Bool-cases, arith,
}
use gb32960_go_sdk.Crypto.{
  block_size, BlockCipher, pkcs7_unpad, or_decrypt, encrypt_aes128, decrypt_aes128,
}

or_decrypt-Returns : (r : Result (List ℕ)) → Returns r → Returns (or_decrypt r)
or_decrypt-Returns (ok x) h = tt
or_decrypt-Returns (err e) h = tt
or_decrypt-Returns panic h = h
or_decrypt-Returns stuck h = h

pkcs7_unpad-Returns : (input : List ℕ) → Returns (pkcs7_unpad input)
unfolding pkcs7_unpad
pkcs7_unpad-Returns input = ground arith

pub encrypt_aes128-Returns :
    (aes : BlockCipher) (input key : List ℕ) → Returns (encrypt_aes128 aes input key)
unfolding encrypt_aes128
encrypt_aes128-Returns aes input key = ground arith

pub decrypt_aes128-Returns :
    (aes : BlockCipher) (input key : List ℕ) → Returns (decrypt_aes128 aes input key)
unfolding decrypt_aes128
decrypt_aes128-Returns aes input key = elim (Bool-cases (ltb (length key) block_size)) [
  | inl e ↦ rw e tt
  | inr e ↦ elim (Bool-cases (not (length input % block_size == 0))) [
    | inl f ↦ rw (e, f) tt
    | inr f ↦ rw (e, f) (or_decrypt-Returns _ (pkcs7_unpad-Returns _))
  ]
]

-- ===== src/Crypto/Tests.antt =====
-- Encryption with a block function that mixes the key into the block.
use gb32960_go_sdk.Base.{
  ℕ, ◌+◌, ◌*◌, ◌/◌, ◌≡◌, refl, ◌∙◌, sym, List, [], ◌∷◌, ◌++◌, length, replicate, ok, err,
  invalid_padding, key_too_short, arith,
}
use gb32960_go_sdk.Crypto.{
  block_size, BlockCipher, xor_block, pkcs7_unpad, last_byte, encrypt_aes128, decrypt_aes128,
}
use gb32960_go_sdk.Crypto.RoundTrip.{replicate-bytes, decrypt-encrypt}
use gb32960_go_sdk.Crypto.Blocks.{xor_block-IsBlock, xor_block_twice}

abbrev mixing : BlockCipher
mixing = record {
  encipher = λ k b. xor_block b k;
  decipher = λ k b. xor_block b k;
  encipher_block = λ k b hk hb. xor_block-IsBlock b k hb hk;
  decipher_encipher = λ k b hk hb. xor_block_twice b k (hb.sized ∙ sym hk.sized);
}

abbrev key : List ℕ
key = replicate 16 7

abbrev three : List ℕ
three = replicate 3 9

-- A last byte of 4 that is not repeated: only its range is checked.
loose_padding : pkcs7_unpad (replicate 15 1 ++ (4 ∷ [])) ≡ ok (replicate 12 1)
unfolding pkcs7_unpad last_byte
loose_padding = refl

bad_padding : pkcs7_unpad (replicate 15 1 ++ (17 ∷ [])) ≡ err invalid_padding
unfolding pkcs7_unpad last_byte
bad_padding = refl

short_key : encrypt_aes128 mixing three three ≡ err key_too_short
unfolding encrypt_aes128
short_key = refl

decrypt-encrypt_example :
    (c : List ℕ) × (encrypt_aes128 mixing three key ≡ ok c)
    × (length c ≡ (length three / block_size + 1) * block_size)
    × (decrypt_aes128 mixing c key ≡ ok three)
decrypt-encrypt_example =
    decrypt-encrypt mixing three key (omega arith) (replicate-bytes 16 7 (omega arith))
      (replicate-bytes 3 9 (omega arith))

-- ===== src/Cipher/Aes/RoundTrip.antt =====
-- aes128_encrypt_block and aes128_decrypt_block, round by round.
use mini_security_crypto_web.Prelude.{ℕ, zero, suc, ◌<◌, ◌≡◌, refl, List, All}
use mini_security_crypto_web.Cipher.Aes.{
  sub_bytes, shift_rows, mix_columns, add_round_key, round_key, encrypt_round, encrypt_rounds,
  decrypt_round, decrypt_rounds, aes128_encrypt_block, aes128_decrypt_block, IsBlock,
}
use mini_security_crypto_web.Cipher.Aes.Steps.{
  inv_sub_bytes-sub_bytes, sub_bytes-IsBlock, inv_shift_rows-shift_rows, shift_rows-IsBlock,
  inv_mix_columns-mix_columns, mix_columns-IsBlock, add_round_key-IsBlock, add_round_key_twice,
}

module _ (keys : List ℕ) (k : All (λ b. b < 256) keys) where
  encrypt_round-IsBlock :
      (round : ℕ) (s : List ℕ) → IsBlock 16 s → IsBlock 16 (encrypt_round keys round s)
  unfolding encrypt_round
  encrypt_round-IsBlock round s h =
      add_round_key-IsBlock keys round _ k
        (mix_columns-IsBlock _ (shift_rows-IsBlock _ (sub_bytes-IsBlock s h)))

  decrypt_round-encrypt_round :
      (round : ℕ) (s : List ℕ)
      → IsBlock 16 s
      → decrypt_round keys round (encrypt_round keys round s) ≡ s
  unfolding encrypt_round decrypt_round
  decrypt_round-encrypt_round round s h =
      let shifted = shift_rows-IsBlock _ (sub_bytes-IsBlock s h) in
      rw
        (
          add_round_key_twice (mix_columns (shift_rows (sub_bytes s))) (round_key keys round),
          inv_mix_columns-mix_columns (shift_rows (sub_bytes s)) shifted.1,
          inv_shift_rows-shift_rows (sub_bytes s),
        )
        (inv_sub_bytes-sub_bytes s h.1)

  encrypt_rounds-IsBlock :
      (n : ℕ) (s : List ℕ) → IsBlock 16 s → IsBlock 16 (encrypt_rounds keys n s)
  unfolding encrypt_rounds
  encrypt_rounds-IsBlock zero s h = h
  encrypt_rounds-IsBlock (suc n) s h =
      encrypt_round-IsBlock (suc n) _ (encrypt_rounds-IsBlock n s h)

  decrypt_rounds-encrypt_rounds :
      (n : ℕ) (s : List ℕ) → IsBlock 16 s → decrypt_rounds keys n (encrypt_rounds keys n s) ≡ s
  unfolding encrypt_rounds decrypt_rounds
  decrypt_rounds-encrypt_rounds zero s h = refl
  decrypt_rounds-encrypt_rounds (suc n) s h =
      rw
        (decrypt_round-encrypt_round (suc n) (encrypt_rounds keys n s)
          (encrypt_rounds-IsBlock n s h))
        (decrypt_rounds-encrypt_rounds n s h)

  pub aes128_encrypt_block-IsBlock :
      (plain : List ℕ) → IsBlock 16 plain → IsBlock 16 (aes128_encrypt_block keys plain)
  unfolding aes128_encrypt_block
  aes128_encrypt_block-IsBlock plain h = add_round_key-IsBlock keys 10 _ k (
      shift_rows-IsBlock _
        (sub_bytes-IsBlock _ (encrypt_rounds-IsBlock 9 _ (add_round_key-IsBlock keys 0 plain k h))))

  -- For round keys of bytes, decrypting the encryption of a block of 16 bytes returns the block.
  pub aes128_decrypt_block-aes128_encrypt_block :
      (plain : List ℕ)
      → IsBlock 16 plain
      → aes128_decrypt_block keys (aes128_encrypt_block keys plain) ≡ plain
  unfolding aes128_decrypt_block aes128_encrypt_block
  aes128_decrypt_block-aes128_encrypt_block plain h =
      let start = add_round_key-IsBlock keys 0 plain k h in
      let rounds = encrypt_rounds keys 9 (add_round_key plain (round_key keys 0)) in
      let block : IsBlock 16 rounds = encrypt_rounds-IsBlock 9 _ start in
      rw
        (
          add_round_key_twice (shift_rows (sub_bytes rounds)) (round_key keys 10),
          inv_shift_rows-shift_rows (sub_bytes rounds),
          inv_sub_bytes-sub_bytes rounds block.1,
          decrypt_rounds-encrypt_rounds 9 (add_round_key plain (round_key keys 0)) start,
        )
        (add_round_key_twice plain (round_key keys 0))

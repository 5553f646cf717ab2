-- ===== src/Cipher/Gcm/Repeats.antt =====
-- gcm_next_block over DES.
use mathlib.Core.Path.{subst}
use mini_security_crypto_web.Prelude.{
  ℕ, ◌≤◌, ◌≡◌, refl, sym, List, ◌∷◌, ◌++◌, length, take, drop, drop-append_exact, arith,
}
use mini_security_crypto_web.Cipher.Des.{des_encrypt_block}
use mini_security_crypto_web.Cipher.Des.RoundTrip.{length-des_encrypt_block}
use mini_security_crypto_web.Cipher.Block.{CipherContext, des, block_size, cipher_encrypt_block}
use mini_security_crypto_web.Cipher.Gcm.{GcmContext, gcm_next_block, gcm_increment_counter}

take-increment :
    (counter : List ℕ)
    → 12 ≤ length counter
    → take 8 (gcm_increment_counter counter) ≡ take 8 counter
unfolding gcm_increment_counter
take-increment (_ ∷ _ ∷ _ ∷ _ ∷ _ ∷ _ ∷ _ ∷ _ ∷ _ ∷ _ ∷ _ ∷ _ ∷ counter) h = refl
take-increment counter h = absurd (omega arith)

abbrev IsRepeated : List ℕ → List ℕ → CipherContext → Type 0
IsRepeated counter keystream c =
    let once =
      cipher_encrypt_block c (take (block_size c) counter) ++ drop (block_size c) keystream in
    cipher_encrypt_block c (take (block_size c) (gcm_increment_counter counter))
      ++ drop (block_size c) once
    ≡ once

des_repeats :
    (keys counter keystream : List ℕ)
    → 12 ≤ length counter
    → IsRepeated counter keystream (des keys)
unfolding cipher_encrypt_block block_size
des_repeats keys counter keystream h =
    rw
      (
        take-increment counter h,
        drop-append_exact 8 (des_encrypt_block keys (take 8 counter)) (drop 8 keystream)
            (length-des_encrypt_block keys (take 8 counter)),
      )
      refl

-- Under DES, with a counter of at least 12 bytes, the keystream of the next block is the one after
-- it too.
pub des_keystream_repeats :
    (keys : List ℕ) (gcm : GcmContext)
    → gcm.cipher ≡ des keys
    → 12 ≤ length gcm.counter
    → (gcm_next_block (gcm_next_block gcm)).keystream ≡ (gcm_next_block gcm).keystream
unfolding gcm_next_block
des_keystream_repeats keys gcm e h =
    subst (IsRepeated gcm.counter gcm.keystream) (sym e)
      (des_repeats keys gcm.counter gcm.keystream h)

-- ===== src/Cipher/Aes/Schedule.antt =====
-- aes128_key_schedule, and the cipher under its round keys.
use mini_security_crypto_web.Prelude.{
  ℕ, zero, suc, ◌+◌, ◌*◌, ◌/◌, ◌%◌, ◌<◌, ◌≡◌, refl, ◌==◌, Bool-cases, inl, inr, List, [], ◌∷◌, ◌++◌,
  length, length-append, append-All, drop-All, drop, get_or, get_or-All, arith,
}
use mini_security_crypto_web.Prelude.Xor.{xor_bytes}
use mini_security_crypto_web.Cipher.Gf.Linear.{xor_byte}
use mini_security_crypto_web.Cipher.Aes.Tables.{aes_rcon}
use mini_security_crypto_web.Cipher.Aes.{
  schedule_temp, next_words, next_round_key, expand_from, aes128_key_schedule, aes128_encrypt_block,
  aes128_decrypt_block, IsBlock,
}
use mini_security_crypto_web.Cipher.Aes.Steps.{sbox_facts}
use mini_security_crypto_web.Cipher.Aes.RoundTrip.{aes128_decrypt_block-aes128_encrypt_block}

IsBlock-append : {n m : ℕ} (a b : List ℕ) → IsBlock n a → IsBlock m b → IsBlock (n + m) (a ++ b)
IsBlock-append a b h k =
    (omega (arith, length-append a b, h.0, k.0), append-All (λ x. x < 256) a b h.1 k.1)

rcon_lt : (i : ℕ) → get_or aes_rcon (i / 4) 0 < 256
rcon_lt i = get_or-All (λ b. b < 256) aes_rcon (i / 4) 0 (omega arith) (omega arith)

schedule_temp-IsBlock : (i : ℕ) (temp : List ℕ) → IsBlock 4 temp → IsBlock 4 (schedule_temp i temp)
unfolding schedule_temp
schedule_temp-IsBlock i (t0 ∷ t1 ∷ t2 ∷ t3 ∷ []) (e, (h0, (h1, (h2, (h3, _))))) =
    elim (Bool-cases (i % 4 == 0)) [
      | inl q ↦ rw q (
        refl,
        (
          xor_byte _ _ (sbox_facts t1 h1).1 (rcon_lt i),
          ((sbox_facts t2 h2).1, ((sbox_facts t3 h3).1, ((sbox_facts t0 h0).1, tt))),
        ),
      )
      | inr q ↦ rw q (refl, (xor_byte _ _ h0 (rcon_lt i), (h1, (h2, (h3, tt)))))
    ]
schedule_temp-IsBlock i temp h = h

next_words-IsBlock :
    (n : ℕ) (before temp : List ℕ)
    → IsBlock (n * 4) before
    → IsBlock 4 temp
    → IsBlock (n * 4) (next_words before temp)
unfolding next_words xor_bytes
next_words-IsBlock zero [] temp b h = b
next_words-IsBlock (suc n) (a ∷ b ∷ c ∷ d ∷ rest) (t0 ∷ t1 ∷ t2 ∷ t3 ∷ [])
      (e, (h0, (h1, (h2, (h3, hr))))) (f, (k0, (k1, (k2, (k3, _))))) =
    let made : IsBlock 4 (xor_bytes (a ∷ b ∷ c ∷ d ∷ []) (t0 ∷ t1 ∷ t2 ∷ t3 ∷ [])) = (
      refl,
      (
        xor_byte a t0 h0 k0,
        (xor_byte b t1 h1 k1, (xor_byte c t2 h2 k2, (xor_byte d t3 h3 k3, tt))),
      ),
    ) in
    let ih = next_words-IsBlock n rest _ (omega arith, hr) made in
    (omega (arith, ih.0), (made.1.0, (made.1.1.0, (made.1.1.1.0, (made.1.1.1.1.0, ih.1)))))
next_words-IsBlock n before temp b h = absurd (omega (arith, b.0, h.0))

next_round_key-IsBlock :
    (i : ℕ) (before : List ℕ) → IsBlock 16 before → IsBlock 16 (next_round_key i before)
unfolding next_round_key
next_round_key-IsBlock i before h = next_words-IsBlock 4 before _ h (
    schedule_temp-IsBlock i (drop 12 before)
      (length-drop_last before h.0, drop-All (λ x. x < 256) 12 before h.1))
  where
    length-drop_last : (l : List ℕ) → length l ≡ 16 → length (drop 12 l) ≡ 4
    length-drop_last (_ ∷ _ ∷ _ ∷ _ ∷ _ ∷ _ ∷ _ ∷ _ ∷ _ ∷ _ ∷ _ ∷ _ ∷ rest) sixteen = omega arith
    length-drop_last l sixteen = absurd (omega arith)

expand_from-IsBlock :
    (n i : ℕ) (before : List ℕ) → IsBlock 16 before → IsBlock (n * 16) (expand_from n i before)
unfolding expand_from
expand_from-IsBlock zero i before h = (omega arith, tt)
expand_from-IsBlock (suc n) i before h =
    let made = next_round_key-IsBlock i before h in
    let both = IsBlock-append _ _ made (expand_from-IsBlock n (suc i) _ made) in
    (omega (arith, both.0), both.1)

-- The schedule of a key of 16 bytes is the 176 bytes of AesContext.
pub aes128_key_schedule-IsBlock :
    (key : List ℕ) → IsBlock 16 key → IsBlock 176 (aes128_key_schedule key)
unfolding aes128_key_schedule
aes128_key_schedule-IsBlock key h = IsBlock-append key _ h (expand_from-IsBlock 10 1 key h)

-- Under the round keys of any key of 16 bytes, decrypting the encryption of a block of 16 bytes
-- returns the block.
pub aes_round_trip :
    (key plain : List ℕ)
    → IsBlock 16 key
    → IsBlock 16 plain
    → aes128_decrypt_block
        (aes128_key_schedule key)
        (aes128_encrypt_block (aes128_key_schedule key) plain)
      ≡ plain
aes_round_trip key plain h p =
    aes128_decrypt_block-aes128_encrypt_block (aes128_key_schedule key)
      (aes128_key_schedule-IsBlock key h).1 plain p

-- ===== src/Cipher/Aes.antt =====
-- AES-128 of mini-crypto-basic/src/symmetric_cipher.c: a state is the list of its 16 bytes, column
-- by column, and AesContext the list of its 176 bytes of round keys.
pub mod Tables
pub mod Steps
pub mod RoundTrip
pub mod Schedule
use Prim.Native.Nat.{bit_xor}
use mini_security_crypto_web.Prelude.{
  ℕ, zero, suc, ◌+◌, ◌-◌, ◌*◌, ◌/◌, ◌%◌, ◌<◌, ◌≡◌, ◌==◌, if◌then◌else◌, List, [], ◌∷◌, ◌++◌, map,
  get_or, take, drop, length, All,
}
use mini_security_crypto_web.Prelude.Xor.{xor_bytes}
use mini_security_crypto_web.Cipher.Gf.{gf_mul2, gf_mul3, gf_mul}
use mini_security_crypto_web.Cipher.Gf.Column.{
  mixed0, mixed1, mixed2, mixed3, unmixed0, unmixed1, unmixed2, unmixed3,
}
use mini_security_crypto_web.Cipher.Aes.Tables.{aes_sbox, aes_inv_sbox, aes_rcon}

-- `AES_SBOX[b]` and `AES_INV_SBOX[b]`, b a byte.
unfoldable pub sbox_at : ℕ → ℕ
sbox_at b = get_or aes_sbox b 0

unfoldable pub inv_sbox_at : ℕ → ℕ
inv_sbox_at b = get_or aes_inv_sbox b 0

unfoldable pub sub_bytes : List ℕ → List ℕ
unfolding sbox_at
sub_bytes state = map sbox_at state

unfoldable pub inv_sub_bytes : List ℕ → List ℕ
unfolding inv_sbox_at
inv_sub_bytes state = map inv_sbox_at state

-- The rotations of the rows of a state; another list is no state and is left alone.
unfoldable pub shift_rows : List ℕ → List ℕ
shift_rows
      (s0 ∷ s1 ∷ s2 ∷ s3 ∷ s4 ∷ s5 ∷ s6 ∷ s7 ∷ s8 ∷ s9 ∷ s10 ∷ s11 ∷ s12 ∷ s13 ∷ s14 ∷ s15 ∷ []) =
    s0 ∷ s5 ∷ s10 ∷ s15 ∷ s4 ∷ s9 ∷ s14 ∷ s3 ∷ s8 ∷ s13 ∷ s2 ∷ s7 ∷ s12 ∷ s1 ∷ s6 ∷ s11 ∷ []
shift_rows state = state

unfoldable pub inv_shift_rows : List ℕ → List ℕ
inv_shift_rows
      (s0 ∷ s1 ∷ s2 ∷ s3 ∷ s4 ∷ s5 ∷ s6 ∷ s7 ∷ s8 ∷ s9 ∷ s10 ∷ s11 ∷ s12 ∷ s13 ∷ s14 ∷ s15 ∷ []) =
    s0 ∷ s13 ∷ s10 ∷ s7 ∷ s4 ∷ s1 ∷ s14 ∷ s11 ∷ s8 ∷ s5 ∷ s2 ∷ s15 ∷ s12 ∷ s9 ∷ s6 ∷ s3 ∷ []
inv_shift_rows state = state

-- The loop over the columns, four bytes at a time.
unfoldable pub mix_columns : List ℕ → List ℕ
unfolding mixed0 mixed1 mixed2 mixed3
mix_columns (s0 ∷ s1 ∷ s2 ∷ s3 ∷ rest) =
    mixed0 s0 s1 s2 s3
    ∷ mixed1 s0 s1 s2 s3
    ∷ mixed2 s0 s1 s2 s3
    ∷ mixed3 s0 s1 s2 s3
    ∷ mix_columns rest
mix_columns state = state

unfoldable pub inv_mix_columns : List ℕ → List ℕ
unfolding unmixed0 unmixed1 unmixed2 unmixed3
inv_mix_columns (s0 ∷ s1 ∷ s2 ∷ s3 ∷ rest) =
    unmixed0 s0 s1 s2 s3
    ∷ unmixed1 s0 s1 s2 s3
    ∷ unmixed2 s0 s1 s2 s3
    ∷ unmixed3 s0 s1 s2 s3
    ∷ inv_mix_columns rest
inv_mix_columns state = state

-- `ctx->round_keys + round * AES_BLOCK_SIZE`, the 16 bytes that are read from there
unfoldable pub round_key : List ℕ → ℕ → List ℕ
round_key keys round = take 16 (drop (round * 16) keys)

unfoldable pub add_round_key : List ℕ → List ℕ → List ℕ
unfolding xor_bytes
add_round_key state key = xor_bytes state key

unfoldable pub encrypt_round : List ℕ → ℕ → List ℕ → List ℕ
unfolding sub_bytes shift_rows mix_columns add_round_key round_key
encrypt_round keys round state =
    add_round_key (mix_columns (shift_rows (sub_bytes state))) (round_key keys round)

-- `for (round = 1; round < AES_NUM_ROUNDS; round++)`: the rounds up to the n-th.
unfoldable pub encrypt_rounds : List ℕ → ℕ → List ℕ → List ℕ
unfolding encrypt_round
encrypt_rounds keys zero state = state
encrypt_rounds keys (suc n) state = encrypt_round keys (suc n) (encrypt_rounds keys n state)

unfoldable pub aes128_encrypt_block : List ℕ → List ℕ → List ℕ
unfolding encrypt_rounds sub_bytes shift_rows add_round_key round_key
aes128_encrypt_block keys plain =
    let rounds = encrypt_rounds keys 9 (add_round_key plain (round_key keys 0)) in
    add_round_key (shift_rows (sub_bytes rounds)) (round_key keys 10)

unfoldable pub decrypt_round : List ℕ → ℕ → List ℕ → List ℕ
unfolding inv_sub_bytes inv_shift_rows inv_mix_columns add_round_key round_key
decrypt_round keys round state =
    inv_sub_bytes (inv_shift_rows (inv_mix_columns (add_round_key state (round_key keys round))))

-- `for (round = AES_NUM_ROUNDS - 1; round >= 1; round--)`
unfoldable pub decrypt_rounds : List ℕ → ℕ → List ℕ → List ℕ
unfolding decrypt_round
decrypt_rounds keys zero state = state
decrypt_rounds keys (suc n) state = decrypt_rounds keys n (decrypt_round keys (suc n) state)

unfoldable pub aes128_decrypt_block : List ℕ → List ℕ → List ℕ
unfolding decrypt_rounds inv_sub_bytes inv_shift_rows add_round_key round_key
aes128_decrypt_block keys cipher =
    let first = inv_sub_bytes (inv_shift_rows (add_round_key cipher (round_key keys 10))) in
    add_round_key (decrypt_rounds keys 9 first) (round_key keys 0)

-- The four bytes before the round's, turned and substituted if 4 divides the round, with
-- `AES_RCON[i / 4]` added to the first.
unfoldable pub schedule_temp : ℕ → List ℕ → List ℕ
unfolding sbox_at
schedule_temp i (t0 ∷ t1 ∷ t2 ∷ t3 ∷ []) =
    let rcon = get_or aes_rcon (i / 4) 0 in
    if i % 4 == 0
    then bit_xor (sbox_at t1) rcon ∷ sbox_at t2 ∷ sbox_at t3 ∷ sbox_at t0 ∷ []
    else bit_xor t0 rcon ∷ t1 ∷ t2 ∷ t3 ∷ []
schedule_temp i temp = temp

-- The words of the next round key: each is the word 16 bytes before it, and the one just made.
unfoldable pub next_words : List ℕ → List ℕ → List ℕ
unfolding xor_bytes
next_words (a ∷ b ∷ c ∷ d ∷ rest) temp =
    let made = xor_bytes (a ∷ b ∷ c ∷ d ∷ []) temp in made ++ next_words rest made
next_words before temp = []

unfoldable pub next_round_key : ℕ → List ℕ → List ℕ
unfolding schedule_temp next_words
next_round_key i before = next_words before (schedule_temp i (drop 12 before))

-- `aes_key_expansion`: the round keys from the i-th on, n of them, after the one before.
unfoldable pub expand_from : ℕ → ℕ → List ℕ → List ℕ
unfolding next_round_key
expand_from zero i before = []
expand_from (suc n) i before =
    let made = next_round_key i before in made ++ expand_from n (suc i) made

-- The copy into the context changes nothing.
unfoldable pub aes128_key_schedule : List ℕ → List ℕ
unfolding expand_from
aes128_key_schedule key = key ++ expand_from 10 1 key

abbrev pub IsBlock : ℕ → List ℕ → Type 0
IsBlock n bytes = (length bytes ≡ n) × All (λ b. b < 256) bytes

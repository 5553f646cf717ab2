-- ===== src/Cipher/Aes/Steps.antt =====
-- The steps of an AES round and their inverses.
use mini_security_crypto_web.Prelude.{
  ℕ, suc, ◌*◌, ◌<◌, ◌≡◌, refl, ap, ◌∙◌, true, ◌&&◌, ◌==◌, ltb, List, [], ◌∷◌, length, All, take-All,
  drop-All, arith,
}
use mini_security_crypto_web.Prelude.Xor.{xor_bytes_twice, length-xor_bytes, All-xor_bytes}
use mini_security_crypto_web.Cipher.Gf.Linear.{all_below, all_below_sound}
use mini_security_crypto_web.Cipher.Gf.Column.{mixed0-lt, mixed1-lt, mixed2-lt, mixed3-lt}
use mini_security_crypto_web.Cipher.Gf.Column.Undo.{
  unmixed0-mixed, unmixed1-mixed, unmixed2-mixed, unmixed3-mixed,
}
use mini_security_crypto_web.Cipher.Aes.{
  sbox_at, inv_sbox_at, sub_bytes, inv_sub_bytes, shift_rows, inv_shift_rows, mix_columns,
  inv_mix_columns, add_round_key, round_key, IsBlock,
}

sbox_table : all_below 256 (λ b. inv_sbox_at (sbox_at b) == b && ltb (sbox_at b) 256) ≡ true
unfolding sbox_at inv_sbox_at
sbox_table = refl

pub sbox_facts : (b : ℕ) → b < 256 → (inv_sbox_at (sbox_at b) ≡ b) × (sbox_at b < 256)
sbox_facts b h =
    let e =
      all_below_sound 256 (λ n. inv_sbox_at (sbox_at n) == n && ltb (sbox_at n) 256) b sbox_table
        h in
    ground arith

pub inv_sub_bytes-sub_bytes : (s : List ℕ) → All (λ b. b < 256) s → inv_sub_bytes (sub_bytes s) ≡ s
unfolding sub_bytes inv_sub_bytes
inv_sub_bytes-sub_bytes [] h = refl
inv_sub_bytes-sub_bytes (b ∷ s) h = rw ((sbox_facts b h.0).0, inv_sub_bytes-sub_bytes s h.1)

length-sub_bytes : (s : List ℕ) → length (sub_bytes s) ≡ length s
unfolding sub_bytes
length-sub_bytes [] = refl
length-sub_bytes (b ∷ s) = ap suc (length-sub_bytes s)

All-sub_bytes : (s : List ℕ) → All (λ b. b < 256) s → All (λ b. b < 256) (sub_bytes s)
unfolding sub_bytes
All-sub_bytes [] h = h
All-sub_bytes (b ∷ s) h = ((sbox_facts b h.0).1, All-sub_bytes s h.1)

pub sub_bytes-IsBlock : {n : ℕ} (s : List ℕ) → IsBlock n s → IsBlock n (sub_bytes s)
sub_bytes-IsBlock s h = (length-sub_bytes s ∙ h.0, All-sub_bytes s h.1)

pub inv_shift_rows-shift_rows : (s : List ℕ) → inv_shift_rows (shift_rows s) ≡ s
unfolding shift_rows inv_shift_rows
inv_shift_rows-shift_rows
      (s0 ∷ s1 ∷ s2 ∷ s3 ∷ s4 ∷ s5 ∷ s6 ∷ s7 ∷ s8 ∷ s9 ∷ s10 ∷ s11 ∷ s12 ∷ s13 ∷ s14 ∷ s15 ∷ []) =
    refl
inv_shift_rows-shift_rows s = refl

pub shift_rows-IsBlock : {n : ℕ} (s : List ℕ) → IsBlock n s → IsBlock n (shift_rows s)
unfolding shift_rows
shift_rows-IsBlock
      (s0 ∷ s1 ∷ s2 ∷ s3 ∷ s4 ∷ s5 ∷ s6 ∷ s7 ∷ s8 ∷ s9 ∷ s10 ∷ s11 ∷ s12 ∷ s13 ∷ s14 ∷ s15 ∷ []) h =
    omega arith
shift_rows-IsBlock s h = h

pub inv_mix_columns-mix_columns :
    (s : List ℕ) → All (λ b. b < 256) s → inv_mix_columns (mix_columns s) ≡ s
unfolding mix_columns inv_mix_columns
inv_mix_columns-mix_columns (s0 ∷ s1 ∷ s2 ∷ s3 ∷ rest) (h0, (h1, (h2, (h3, h)))) =
    rw
      (
        unmixed0-mixed s0 s1 s2 s3 h0 h1 h2 h3,
        unmixed1-mixed s0 s1 s2 s3 h0 h1 h2 h3,
        unmixed2-mixed s0 s1 s2 s3 h0 h1 h2 h3,
        unmixed3-mixed s0 s1 s2 s3 h0 h1 h2 h3,
        inv_mix_columns-mix_columns rest h,
      )
      refl
inv_mix_columns-mix_columns s h = refl

length-mix_columns : (s : List ℕ) → length (mix_columns s) ≡ length s
unfolding mix_columns
length-mix_columns (s0 ∷ s1 ∷ s2 ∷ s3 ∷ rest) = omega (arith, length-mix_columns rest)
length-mix_columns s = refl

All-mix_columns : (s : List ℕ) → All (λ b. b < 256) s → All (λ b. b < 256) (mix_columns s)
unfolding mix_columns
All-mix_columns (s0 ∷ s1 ∷ s2 ∷ s3 ∷ rest) (h0, (h1, (h2, (h3, h)))) = (
  mixed0-lt s0 s1 s2 s3 h0 h1 h2 h3,
  (
    mixed1-lt s0 s1 s2 s3 h0 h1 h2 h3,
    (
      mixed2-lt s0 s1 s2 s3 h0 h1 h2 h3,
      (mixed3-lt s0 s1 s2 s3 h0 h1 h2 h3, All-mix_columns rest h),
    ),
  ),
)
All-mix_columns s h = h

pub mix_columns-IsBlock : {n : ℕ} (s : List ℕ) → IsBlock n s → IsBlock n (mix_columns s)
mix_columns-IsBlock s h = (length-mix_columns s ∙ h.0, All-mix_columns s h.1)

pub add_round_key-IsBlock :
    {n : ℕ} (keys : List ℕ) (round : ℕ) (s : List ℕ)
    → All (λ b. b < 256) keys
    → IsBlock n s
    → IsBlock n (add_round_key s (round_key keys round))
unfolding add_round_key round_key
add_round_key-IsBlock keys round s k h = (
  length-xor_bytes s _ ∙ h.0,
  All-xor_bytes 8 s _ h.1
      (take-All (λ b. b < 256) 16 _ (drop-All (λ b. b < 256) (round * 16) keys k)),
)

pub add_round_key_twice : (s key : List ℕ) → add_round_key (add_round_key s key) key ≡ s
unfolding add_round_key
add_round_key_twice s key = xor_bytes_twice s key

-- ===== src/Cipher/Ctr/Counter.antt =====
-- The counter of ctr_next_keystream as a number.
use native.Mathlib.Nat.{pow-suc, mod-eq_of_lt, mod_self, suc-mul, zero-mul}
use mini_security_crypto_web.Prelude.{
  ℕ, suc, ◌+◌, ◌*◌, ◌%◌, ◌^◌, ◌<◌, ◌≡◌, refl, sym, ap, ◌∙◌, ◌==◌, Bool-cases, inl, inr,
  if◌then◌else◌, List, [], ◌∷◌, length, All, arith,
}
use mini_security_crypto_web.Prelude.ByteString.{big_endian, big_endian-lt}
use mini_security_crypto_web.Cipher.Ctr.{increment}

pub length-increment : (bytes : List ℕ) → length (increment bytes).0 ≡ length bytes
unfolding increment
length-increment [] = refl
length-increment (b ∷ bytes) = elim (Bool-cases (increment bytes).1) [
  | inl e ↦ rw e (ap suc (length-increment bytes))
  | inr e ↦ rw e (ap suc (length-increment bytes))
]

top_digit :
    (b p v e : ℕ)
    → b < 256
    → v + p ≡ e + 1
    → (b + 1) % 256 * p + v + (if (b + 1) % 256 == 0 then p * 256 else 0) ≡ b * p + e + 1
top_digit b p v e h k = elim (Bool-cases (b == 255)) [
  | inl q ↦ let is : b ≡ 255 = ground arith in rw is (omega (arith, zero-mul p))
  | inr q ↦ let low : (b + 1) % 256 ≡ suc b = ground arith in rw low (ground (arith, suc-mul b p))
]

-- With the carry counted above the bytes, the number is one higher.
increment-value :
    (bytes : List ℕ)
    → All (λ b. b < 256) bytes
    → All (λ b. b < 256) (increment bytes).0
      × (big_endian (increment bytes).0 + (if (increment bytes).1 then 256 ^ length bytes else 0)
          ≡ big_endian bytes + 1)
unfolding increment
increment-value [] h = (tt, omega arith)
increment-value (b ∷ bytes) h =
    let ih = increment-value bytes h.1 in
    elim (Bool-cases (increment bytes).1) [
      | inr e ↦
          let up = rw e at ih.1 in
          rw e ((h.0, ih.0), rw (length-increment bytes) (omega (arith, up)))
      | inl e ↦
          let up = rw e at ih.1 in
          rw e (
            (omega arith, ih.0),
            rw (length-increment bytes, pow-suc 256 (length bytes))
                (top_digit b (256 ^ length bytes) (big_endian (increment bytes).0)
                  (big_endian bytes) h.0 up),
          )
    ]

pub increment-All :
    (bytes : List ℕ) → All (λ b. b < 256) bytes → All (λ b. b < 256) (increment bytes).0
increment-All bytes h = (increment-value bytes h).0

-- The counter's bytes, read as one big-endian number, become that number plus one, modulo 256 to
-- the power of their count.
pub big_endian-increment :
    (bytes : List ℕ)
    → All (λ b. b < 256) bytes
    → big_endian (increment bytes).0 ≡ (big_endian bytes + 1) % 256 ^ length bytes
big_endian-increment bytes h =
    let bound = big_endian-lt bytes h in
    elim (Bool-cases (increment bytes).1) [
      | inl e ↦
          let up = rw e at (increment-value bytes h).1 in
          let none_ : big_endian (increment bytes).0 ≡ 0 = omega (arith, up, bound) in
          let full : big_endian bytes + 1 ≡ 256 ^ length bytes = omega (arith, up, bound) in
          rw (none_, full) (sym (mod_self (256 ^ length bytes)))
      | inr e ↦
          let up = rw e at (increment-value bytes h).1 in
          let same : big_endian (increment bytes).0 ≡ big_endian bytes + 1 = omega (arith, up) in
          let below : big_endian (increment bytes).0 < 256 ^ length bytes =
            rw (← length-increment bytes)
              (big_endian-lt (increment bytes).0 (increment-value bytes h).0) in
          same ∙ sym (mod-eq_of_lt (rw (← same) below))
    ]

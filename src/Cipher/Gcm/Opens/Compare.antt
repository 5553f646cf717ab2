-- ===== src/Cipher/Gcm/Opens/Compare.antt =====
-- ct_memcmp of mini-crypto-basic/src/hash_func.c.
use mini_security_crypto_web.Prelude.{
  ℕ, zero, suc, ◌+◌, ◌/◌, ◌≤◌, ◌≡◌, ◌↔◌, refl, ap, ◌∙◌, sym, true, ◌==◌, ==_iff, Bool-cases, inl,
  inr, List, [], ◌∷◌, length, arith,
}
use Prim.Native.Nat.{bit_or, bit_xor}
use native.Mathlib.Nat.{le_refl}
use mini_security_crypto_web.Prelude.Bits.{bit_or_step}
use mini_security_crypto_web.Prelude.Xor.{bit_xor_twice, zero-bit_xor, bit_xor_self}
use mini_security_crypto_web.Cipher.Gcm.{differences, ct_memcmp}

bit_or-eq-zero_fuel : (n a b : ℕ) → a + b ≤ n → bit_or a b ≡ 0 → (a ≡ 0) × (b ≡ 0)
bit_or-eq-zero_fuel zero a b h e = omega arith
bit_or-eq-zero_fuel (suc n) a b h e =
    let ih = bit_or-eq-zero_fuel n (a / 2) (b / 2) in
    elim (Bool-cases (a + b == 0)) [
      | inl q ↦ ground arith
      | inr q ↦
          let half = ih (ground arith) (omega (arith, bit_or_step a b)) in
          omega (arith, bit_or_step a b, half.0, half.1)
    ]

xor-eq-zero : (a b : ℕ) → bit_xor a b ≡ 0 → a ≡ b
xor-eq-zero a b e = sym (bit_xor_twice a b) ∙ ap (λ t. bit_xor t b) e ∙ zero-bit_xor b

differences-eq-zero :
    (diff : ℕ) (a b : List ℕ)
    → length a ≡ length b
    → differences diff a b ≡ 0
    → (diff ≡ 0) × (a ≡ b)
unfolding differences
differences-eq-zero diff [] [] h e = (e, refl)
differences-eq-zero diff [] (b ∷ bs) h e = absurd (omega arith)
differences-eq-zero diff (a ∷ xs) [] h e = absurd (omega arith)
differences-eq-zero diff (a ∷ xs) (b ∷ bs) h e =
    let ih = differences-eq-zero (bit_or diff (bit_xor a b)) xs bs (omega arith) e in
    let both = bit_or-eq-zero_fuel _ diff (bit_xor a b) (le_refl _) ih.0 in
    (both.0, rw (xor-eq-zero a b both.1, ih.1) refl)

differences_self : (a : List ℕ) → differences 0 a a ≡ 0
unfolding differences
differences_self [] = refl
differences_self (b ∷ a) = rw (bit_xor_self b) (differences_self a)

-- Two byte strings of one length compare equal exactly when they are equal.
pub ct_memcmp_iff : (a b : List ℕ) → length a ≡ length b → (ct_memcmp a b ≡ true) ↔ (a ≡ b)
unfolding ct_memcmp
ct_memcmp_iff a b h = (
  λ e. (differences-eq-zero 0 a b h ((==_iff _ 0).0 e)).1,
  λ e. rw e ((==_iff _ 0).1 (differences_self b)),
)

-- ===== src/Mpc/Paillier/Homomorphic.antt =====
-- Operations on the ciphertexts of mini-privacy-compute/src/secure_mpc_comp.c.
use mini_security_crypto_web.Prelude.{
  ℕ, zero, suc, ◌+◌, ◌*◌, ◌/◌, ◌%◌, ◌^◌, ◌≤◌, ◌<◌, ◌≡◌, refl, sym, ap, ◌∙◌, arith, u32_mod,
}
use mini_security_crypto_web.Prelude.Congruence.{Congruent, mod_drop, mul_congruent, pow_congruent}
use mini_security_crypto_web.Mpc.Arithmetic.{mul64_small, mpc_mod_exp-power}
use mini_security_crypto_web.Mpc.Paillier.{
  PubKey, encrypt_with, paillier_add, paillier_scalar_mul, rerandomize_with,
}
use native.Mathlib.Nat.{
  pow-zero, pow-suc, mul_comm, mul_assoc, mul-suc, mul-add, add-mul, mul-mul-mul_comm, mul-one,
  mod-lt, mul-le-mul, div-add-mod', suc-mul, add-mul-mod_self_right,
}

pow-add : (a m k : ℕ) → a ^ (m + k) ≡ a ^ m * a ^ k
pow-add a m zero = let e : m + zero ≡ m = omega arith in rw (e, pow-zero a, mul-one (a ^ m)) refl
pow-add a m (suc k) =
    let e : m + suc k ≡ suc (m + k) = omega arith in
    rw (e, pow-suc a (m + k), pow-suc a k, pow-add a m k) (mul_assoc (a ^ m) (a ^ k) a)

mul-pow : (a b k : ℕ) → (a * b) ^ k ≡ a ^ k * b ^ k
mul-pow a b zero = rw (pow-zero (a * b), pow-zero a, pow-zero b) refl
mul-pow a b (suc k) =
    rw (pow-suc (a * b) k, pow-suc a k, pow-suc b k, mul-pow a b k)
      (mul-mul-mul_comm (a ^ k) (b ^ k) a b)

pow-mul : (a m k : ℕ) → (a ^ m) ^ k ≡ a ^ (m * k)
pow-mul a m zero =
    let e : m * zero ≡ zero = omega arith in rw (e, pow-zero (a ^ m), pow-zero a) refl
pow-mul a m (suc k) =
    let e : m * suc k ≡ m * k + m = mul-suc m k in
    rw (e, pow-suc (a ^ m) k, pow-mul a m k, pow-add a (m * k) m) refl

pow_swap : (a m k : ℕ) → (a ^ m) ^ k ≡ (a ^ k) ^ m
pow_swap a m k = rw (pow-mul a m k, pow-mul a k m, mul_comm m k) refl

-- The first terms of the binomial: the powers of n + 1 modulo n n.
binomial : (n k : ℕ) → Congruent (n * n) ((n + 1) ^ k) (1 + k * n)
binomial n zero = let e : 1 + 0 * n ≡ 1 = omega arith in rw (pow-zero (n + 1), e) refl
binomial n (suc k) =
    let a = add-mul 1 (k * n) (n + 1) in
    let b = mul-add (k * n) n 1 in
    let c = mul_assoc k n n in
    let e : (1 + k * n) * (n + 1) ≡ 1 + suc k * n + k * (n * n) =
      omega (arith, a, b, c, suc-mul k n) in
    rw (pow-suc (n + 1) k) (
      mul_congruent (n * n) ((n + 1) ^ k) (1 + k * n) (n + 1) (n + 1) (binomial n k) refl
      ∙ ap (λ z. z % (n * n)) e
      ∙ add-mul-mod_self_right (1 + suc k * n) k (n * n))

-- n + 1 has the order n modulo n n.
reduce_exponent : (n m : ℕ) → Congruent (n * n) ((n + 1) ^ (m % n)) ((n + 1) ^ m)
reduce_exponent n m =
    let a = div-add-mod' m n in
    let b = add-mul (m / n * n) (m % n) n in
    let c = mul_assoc (m / n) n n in
    let d : m * n ≡ (m / n * n + m % n) * n = ap (λ z. z * n) (sym a) in
    let e : 1 + m * n ≡ 1 + m % n * n + m / n * (n * n) = omega (arith, b, c, d) in
    binomial n (m % n)
    ∙ sym (ap (λ z. z % (n * n)) e ∙ add-mul-mod_self_right (1 + m % n * n) (m / n) (n * n))
    ∙ sym (binomial n m)

-- The key's shape, with a 32-bit square.
abbrev pub IsKey : PubKey → Type 0
IsKey key = (1 < key.n) × (key.g ≡ key.n + 1) × (key.n_sq ≡ key.n * key.n) × (key.n_sq ≤ u32_mod)

square_pos : (key : PubKey) → IsKey key → 0 < key.n_sq
square_pos key h =
    let m : 1 * 1 ≤ key.n * key.n =
      mul-le-mul {n₁ = 1} {m₁ = 1} (omega (arith, h.0)) (omega (arith, h.0)) in
    omega (arith, m, h.2)

-- What an encryption computes.
encrypt-value :
    (key : PubKey) (m r : ℕ) → IsKey key → encrypt_with key m r ≡ key.g ^ m * r ^ key.n % key.n_sq
unfolding encrypt_with
encrypt-value key m r h =
    let pos = square_pos key h in
    let s = key.n_sq in
    let a = key.g ^ (m % key.n) in
    let b = r ^ key.n in
    let q : Congruent s a (key.g ^ m) = rw (h.1, h.2) (reduce_exponent key.n m) in
    rw
      (
        mpc_mod_exp-power key.g (m % key.n) s pos h.3,
        mpc_mod_exp-power r key.n s pos h.3,
        mul64_small (a % s) (b % s) s (mod-lt a pos) (mod-lt b pos) h.3,
      )
      (mul_congruent s (a % s) (key.g ^ m) (b % s) b (mod_drop s a ∙ q) (mod_drop s b))

-- Under a key with g = n + 1 and a 32-bit square of n: the product of two ciphertexts is the ciphertext of
-- the sum under the product of the nonces, a power is the ciphertext of the multiple, and another nonce
-- multiplies the nonce.
pub paillier_homomorphic :
    (key : PubKey) (m1 m2 r1 r2 k : ℕ)
    → IsKey key
    → (paillier_add key (encrypt_with key m1 r1) (encrypt_with key m2 r2)
        ≡ encrypt_with key (m1 + m2) (r1 * r2))
      × (paillier_scalar_mul key (encrypt_with key m1 r1) k ≡ encrypt_with key (m1 * k) (r1 ^ k))
      × (rerandomize_with key (encrypt_with key m1 r1) r2 ≡ encrypt_with key m1 (r1 * r2))
unfolding paillier_add paillier_scalar_mul rerandomize_with
paillier_homomorphic key m1 m2 r1 r2 k h =
    rw
      (
        encrypt-value key m1 r1 h,
        encrypt-value key m2 r2 h,
        encrypt-value key (m1 + m2) (r1 * r2) h,
        encrypt-value key (m1 * k) (r1 ^ k) h,
        encrypt-value key m1 (r1 * r2) h,
        mpc_mod_exp-power (a1 % s) k s pos h.3,
        mpc_mod_exp-power r2 n s pos h.3,
        mul64_small (a1 % s) (a2 % s) s (mod-lt a1 pos) (mod-lt a2 pos) h.3,
        mul64_small (a1 % s) (r2 ^ n % s) s (mod-lt a1 pos) (mod-lt (r2 ^ n) pos) h.3,
      )
      (sum, multiple, again)
  where
    s : ℕ
    s = key.n_sq

    n : ℕ
    n = key.n

    pos : 0 < key.n_sq
    pos = square_pos key h

    a1 : ℕ
    a1 = key.g ^ m1 * r1 ^ key.n

    a2 : ℕ
    a2 = key.g ^ m2 * r2 ^ key.n

    sum : a1 % s * (a2 % s) % s ≡ key.g ^ (m1 + m2) * (r1 * r2) ^ n % s
    sum =
        mul_congruent s (a1 % s) a1 (a2 % s) a2 (mod_drop s a1) (mod_drop s a2)
        ∙ ap (λ z. z % s)
            (mul-mul-mul_comm (key.g ^ m1) (r1 ^ n) (key.g ^ m2) (r2 ^ n)
              ∙ rw (pow-add key.g m1 m2, mul-pow r1 r2 n) refl)

    multiple : (a1 % s) ^ k % s ≡ key.g ^ (m1 * k) * (r1 ^ k) ^ n % s
    multiple =
        pow_congruent s (a1 % s) a1 k (mod_drop s a1)
        ∙ ap (λ z. z % s)
            (mul-pow (key.g ^ m1) (r1 ^ n) k ∙ rw (pow-mul key.g m1 k, pow_swap r1 n k) refl)

    again : a1 % s * (r2 ^ n % s) % s ≡ key.g ^ m1 * (r1 * r2) ^ n % s
    again =
        mul_congruent s (a1 % s) a1 (r2 ^ n % s) (r2 ^ n) (mod_drop s a1) (mod_drop s (r2 ^ n))
        ∙ ap (λ z. z % s) (mul_assoc (key.g ^ m1) (r1 ^ n) (r2 ^ n) ∙ rw (mul-pow r1 r2 n) refl)

-- ===== src/Mpc/Arithmetic.antt =====
-- The number theory of mini-privacy-compute/src/secure_mpc_comp.c: mpc_mod_exp and mpc_mod_inv.
pub mod Inverse
use mini_security_crypto_web.Prelude.{
  ℕ, zero, suc, ◌+◌, ◌*◌, ◌/◌, ◌%◌, ◌^◌, ◌≤◌, ◌<◌, ◌≡◌, refl, sym, ap, Bool, true, false, ◌∙◌,
  arith, u64_mod, u32_mod, add64, sub64, mul64, ◌-◌, ltb, leb, if◌then◌else◌, ◌==◌, Bool-cases, inl,
  inr,
}
use mini_security_crypto_web.Prelude.Congruence.{Congruent, mod_drop, mul_congruent, pow_congruent}
use native.Mathlib.Nat.{
  mul-le-mul, mod-eq_of_lt, mod-lt, pow-zero, pow-suc, one-mul, mul-one, mul_comm, mul_assoc,
}

-- The loop of `mpc_mod_exp`, on fuel that the exponent bounds.
unfoldable pub mod_exp_loop : ℕ → ℕ → ℕ → ℕ → ℕ → ℕ
mod_exp_loop fuel result base zero modulus = result
mod_exp_loop zero result base (suc exp) modulus = result
mod_exp_loop (suc fuel) result base (suc exp) modulus =
    mod_exp_loop fuel (if suc exp % 2 == 1 then mul64 result base % modulus else result)
      (mul64 base base % modulus) (suc exp / 2) modulus

unfoldable pub mpc_mod_exp : ℕ → ℕ → ℕ → ℕ
unfolding mod_exp_loop
mpc_mod_exp base exp modulus = mod_exp_loop exp (1 % modulus) (base % modulus) exp modulus

-- The loop of `mpc_mod_inv`, on fuel that the remainder bounds. The `int64_t` t and newt are numbers
-- below 2^64 in two's complement; the remainders r and newr, and so the quotient, stay positive for a
-- modulus below 2^63.
unfoldable pub mod_inv_loop : ℕ → ℕ → ℕ → ℕ → ℕ → ℕ × ℕ
mod_inv_loop fuel t newt r zero = (t, r)
mod_inv_loop zero t newt r (suc newr) = (t, r)
mod_inv_loop (suc fuel) t newt r (suc newr) =
    let q = r / suc newr in
    mod_inv_loop fuel newt (sub64 t (mul64 q newt)) (suc newr) (r - q * suc newr)

unfoldable pub mpc_mod_inv : ℕ → ℕ → ℕ
unfolding mod_inv_loop
mpc_mod_inv a modulus =
    let found = mod_inv_loop modulus 0 1 modulus (a % modulus) in
    if ltb 1 found.1 then 0 else if leb (2 ^ 63) found.0 then add64 found.0 modulus else found.0

-- A product of residues of a 32-bit modulus does not wrap round.
pub mul64_small : (a b m : ℕ) → a < m → b < m → m ≤ u32_mod → mul64 a b ≡ a * b
mul64_small a b m h k l = mod-eq_of_lt below
  where
    below : a * b < u64_mod
    below =
        let s : a * b ≤ 4294967295 * 4294967295 =
          mul-le-mul {n₂ = 4294967295} {m₂ = 4294967295} (omega arith) (omega arith) in
        omega arith

pow-square : (b n : ℕ) → (b * b) ^ n ≡ b ^ (n + n)
pow-square b zero = rw (pow-zero (b * b), pow-zero b) refl
pow-square b (suc n) =
    let e : suc n + suc n ≡ suc (suc (n + n)) = omega arith in
    rw
      (
        e,
        pow-suc (b * b) n,
        pow-suc b (suc (n + n)),
        pow-suc b (n + n),
        pow-square b n,
        mul_assoc (b ^ (n + n)) b b,
      )
      refl

-- One turn: the halved exponent on the square, with the factor of an odd exponent taken out.
pow_halves : (r b e : ℕ) → (if e % 2 == 1 then r * b else r) * (b * b) ^ (e / 2) ≡ r * b ^ e
pow_halves r b e = elim (Bool-cases (e % 2 == 1)) [
  | inl h ↦
      let o : e ≡ suc (e / 2 + e / 2) = ground arith in
      rw (h, pow-square b (e / 2)) (odd (e / 2 + e / 2) o)
  | inr h ↦
      let o : e ≡ e / 2 + e / 2 = ground arith in
      rw (h, pow-square b (e / 2)) (even (e / 2 + e / 2) o)
]
  where
    odd : (n : ℕ) → e ≡ suc n → r * b * b ^ n ≡ r * b ^ e
    odd n o = rw (o, pow-suc b n, mul_comm (b ^ n) b, mul_assoc r b (b ^ n)) refl

    even : (n : ℕ) → e ≡ n → r * b ^ n ≡ r * b ^ e
    even n o = rw o refl

module _ (m : ℕ) (pos : 0 < m) (small : m ≤ u32_mod) where
  -- A turn's factor, without the wrap-around and up to congruence.
  step_congruent :
      (c : Bool) (r b : ℕ)
      → r < m
      → b < m
      → Congruent m (if c then mul64 r b % m else r) (if c then r * b else r)
  step_congruent true r b h k = rw (mul64_small r b m h k small) (mod_drop m (r * b))
  step_congruent false r b h k = refl

  step_bound : (c : Bool) (r b : ℕ) → r < m → (if c then mul64 r b % m else r) < m
  step_bound true r b h = mod-lt (mul64 r b) pos
  step_bound false r b h = h

  loop-power :
      (fuel r b e : ℕ) → e ≤ fuel → r < m → b < m → mod_exp_loop fuel r b e m ≡ r * b ^ e % m
  unfolding mod_exp_loop
  loop-power zero r b (suc e) h k l = absurd (omega arith)
  loop-power zero r b zero h k l = rw (pow-zero b, mul-one r, mod-eq_of_lt k) refl
  loop-power (suc fuel) r b zero h k l = rw (pow-zero b, mul-one r, mod-eq_of_lt k) refl
  loop-power (suc fuel) r b (suc e) h k l =
      let c = suc e % 2 == 1 in
      loop-power fuel _ _ (suc e / 2) (omega arith) (step_bound c r b k) (mod-lt (mul64 b b) pos)
      ∙ mul_congruent m (if c then mul64 r b % m else r) (if c then r * b else r)
          ((mul64 b b % m) ^ (suc e / 2)) ((b * b) ^ (suc e / 2)) (step_congruent c r b k l)
          (pow_congruent m (mul64 b b % m) (b * b) (suc e / 2)
            (rw (mul64_small b b m l l small) (mod_drop m (b * b))))
      ∙ ap (λ x. x % m) (pow_halves r b (suc e))

-- For a 32-bit modulus that is not 0, `mpc_mod_exp` is the power modulo it, and its loop ends.
pub mpc_mod_exp-power :
    (base exp modulus : ℕ)
    → 0 < modulus
    → modulus ≤ u32_mod
    → mpc_mod_exp base exp modulus ≡ base ^ exp % modulus
unfolding mpc_mod_exp
mpc_mod_exp-power base exp modulus h k =
    loop-power modulus h k exp (1 % modulus) (base % modulus) exp (omega arith) (mod-lt 1 h)
      (mod-lt base h)
    ∙ mul_congruent modulus (1 % modulus) 1 ((base % modulus) ^ exp) (base ^ exp)
        (mod_drop modulus 1)
        (pow_congruent modulus (base % modulus) base exp (mod_drop modulus base))
    ∙ rw (one-mul (base ^ exp)) refl

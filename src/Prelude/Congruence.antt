-- ===== src/Prelude/Congruence.antt =====
-- Arithmetic modulo a number: sums, products and powers of congruent numbers.
use Prim.Native.Nat.{ℕ, zero, suc, ◌+◌, ◌-◌, ◌*◌, ◌/◌, ◌%◌, ◌^◌, ◌≤◌, ◌<◌}
use mathlib.Core.Path.{◌≡◌, refl, sym, ◌∙◌}
use native.Mathlib.Nat.{
  mul_comm, mul_assoc, mul-le-mul_right, add-mul, add-mod, mod-mod, div-add-mod,
  add-mul-mod_self_left, pow-zero, pow-suc,
}
use native.Mathlib.Omega.{arith}

module _ (p : ℕ) where
  abbrev pub Congruent : ℕ → ℕ → Type 0
  Congruent a b = a % p ≡ b % p

  pub mod_drop : (a : ℕ) → Congruent (a % p) a
  mod_drop a = mod-mod a p

  pub add_congruent : (a b c d : ℕ) → Congruent a b → Congruent c d → Congruent (a + c) (b + d)
  add_congruent a b c d h k = rw (add-mod a c p, add-mod b d p, h, k) refl

  mul_congruent_left : (a b : ℕ) → Congruent (a % p * b) (a * b)
  mul_congruent_left a b =
      let e = div-add-mod a p in
      let d = add-mul (p * (a / p)) (a % p) b in
      let m = mul_assoc p (a / p) b in
      let s : a * b ≡ a % p * b + p * (a / p * b) = split e d m in
      rw s (sym (add-mul-mod_self_left (a % p * b) p (a / p * b)))
    where
      split :
          p * (a / p) + a % p ≡ a
          → (p * (a / p) + a % p) * b ≡ p * (a / p) * b + a % p * b
          → p * (a / p) * b ≡ p * (a / p * b)
          → a * b ≡ a % p * b + p * (a / p * b)
      split e d m = cc_split (rw e at d) m
        where
          cc_split :
              a * b ≡ p * (a / p) * b + a % p * b
              → p * (a / p) * b ≡ p * (a / p * b)
              → a * b ≡ a % p * b + p * (a / p * b)
          cc_split d m = omega (arith, d, m)

  pub mul_congruent : (a b c d : ℕ) → Congruent a b → Congruent c d → Congruent (a * c) (b * d)
  mul_congruent a b c d h k =
      sym (mul_congruent_left a c)
      ∙ rw (h, mul_comm (b % p) c)
          (sym (mul_congruent_left c (b % p))
            ∙ rw (k, mul_comm (d % p) (b % p))
                (mul_congruent_left b (d % p)
                  ∙ rw (mul_comm b (d % p)) (mul_congruent_left d b ∙ rw (mul_comm d b) refl)))

  pub pow_congruent : (a b n : ℕ) → Congruent a b → Congruent (a ^ n) (b ^ n)
  pow_congruent a b zero h = rw (pow-zero a, pow-zero b) refl
  pow_congruent a b (suc n) h =
      rw (pow-suc a n, pow-suc b n) (mul_congruent (a ^ n) (b ^ n) a b (pow_congruent a b n h) h)

  pub cancel_congruent : (a b c : ℕ) → 0 < p → Congruent (a + c) (b + c) → Congruent a b
  cancel_congruent a b c pos h =
      sym (twice a) ∙ add_congruent (a + c) (b + c) (p * c - c) (p * c - c) h refl ∙ twice b
    where
      twice : (x : ℕ) → Congruent (x + c + (p * c - c)) x
      twice x =
          let le : 1 * c ≤ p * c = mul-le-mul_right c pos in
          let e : x + c + (p * c - c) ≡ x + p * c = omega arith in
          rw e (add-mul-mod_self_left x p c)

-- ===== src/Evm/Word/Add.antt =====
-- `uint256_add` adds modulo 2 ^ 256.
use mini_security_crypto_web.Prelude.{ℕ, ◌+◌, ◌*◌, ◌%◌, ◌^◌, ◌≤◌, ◌≡◌, arith, u64_mod, IsU64}
use mini_security_crypto_web.Evm.Word.{U256, add, add_limb}
use mini_security_crypto_web.Evm.Word.Value.{IsWord, to_nat, to_nat-eq-mod}

-- What one round of the loop computes.
record AddsLimb (a b carry : ℕ) (out : ℕ × ℕ) : Type 0 where
  small : IsU64 out.0
  carry_bit : out.1 ≤ 1
  exact : a + b + carry ≡ out.0 + out.1 * u64_mod

add_limb-AddsLimb :
    (a b carry : ℕ) → IsU64 a → IsU64 b → carry ≤ 1 → AddsLimb a b carry (add_limb a b carry)
add_limb-AddsLimb a b carry ha hb hc = ground arith

module _ (a b : U256) (ha : IsWord a) (hb : IsWord b) where
  abbrev r0 : ℕ × ℕ
  r0 = add_limb a.w0 b.w0 0

  abbrev r1 : ℕ × ℕ
  r1 = add_limb a.w1 b.w1 r0.1

  abbrev r2 : ℕ × ℕ
  r2 = add_limb a.w2 b.w2 r1.1

  step0 : AddsLimb a.w0 b.w0 0 r0
  step0 = add_limb-AddsLimb a.w0 b.w0 0 ha.small0 hb.small0 (omega arith)

  step1 : AddsLimb a.w1 b.w1 r0.1 r1
  step1 = add_limb-AddsLimb a.w1 b.w1 r0.1 ha.small1 hb.small1 step0.carry_bit

  step2 : AddsLimb a.w2 b.w2 r1.1 r2
  step2 = add_limb-AddsLimb a.w2 b.w2 r1.1 ha.small2 hb.small2 step1.carry_bit

  step3 : AddsLimb a.w3 b.w3 r2.1 (add_limb a.w3 b.w3 r2.1)
  step3 = add_limb-AddsLimb a.w3 b.w3 r2.1 ha.small3 hb.small3 step2.carry_bit

  pub add-IsWord : IsWord (add a b)
  unfolding add
  add-IsWord = record {
    small0 = step0.small;
    small1 = step1.small;
    small2 = step2.small;
    small3 = step3.small;
  }

  -- For two words `uint256_add` gives the sum of their values modulo 2 ^ 256, in four 64-bit limbs.
  pub to_nat-add : to_nat (add a b) ≡ (to_nat a + to_nat b) % 2 ^ 256
  unfolding add
  to_nat-add =
      to_nat-eq-mod {v = add a b} (to_nat a + to_nat b) (add_limb a.w3 b.w3 r2.1).1 add-IsWord
        (add_up r0 r1 r2 (add_limb a.w3 b.w3 r2.1) step0.exact step1.exact step2.exact step3.exact)
    where
      add_up :
          (p0 p1 p2 p3 : ℕ × ℕ)
          → a.w0 + b.w0 + 0 ≡ p0.0 + p0.1 * u64_mod
          → a.w1 + b.w1 + p0.1 ≡ p1.0 + p1.1 * u64_mod
          → a.w2 + b.w2 + p1.1 ≡ p2.0 + p2.1 * u64_mod
          → a.w3 + b.w3 + p2.1 ≡ p3.0 + p3.1 * u64_mod
          → to_nat a + to_nat b
            ≡ p0.0 + p1.0 * 2 ^ 64 + p2.0 * 2 ^ 128 + p3.0 * 2 ^ 192 + p3.1 * 2 ^ 256
      add_up p0 p1 p2 p3 e0 e1 e2 e3 = omega arith

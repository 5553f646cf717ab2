-- ===== src/Evm/Word/Sub.antt =====
-- `uint256_sub`: right where no borrow meets a limb of ones, and wrong where one does.
use mini_security_crypto_web.Prelude.{
  ℕ, ◌+◌, ◌-◌, ◌*◌, ◌%◌, ◌^◌, ◌≤◌, ◌<◌, ◌≡◌, ◌≢◌, arith, u64_mod, IsU64,
}
use mini_security_crypto_web.Evm.Word.{U256, sub, sub_limb}
use mini_security_crypto_web.Evm.Word.Value.{IsWord, to_nat}

-- The limbs that a borrow can meet are not all ones.
pub record BorrowsPass (b : U256) : Type 0 where
  pub below1 : b.w1 + 1 < u64_mod
  pub below2 : b.w2 + 1 < u64_mod
  pub below3 : b.w3 + 1 < u64_mod

-- What one round of the loop computes.
record SubsLimb (a b borrow : ℕ) (out : ℕ × ℕ) : Type 0 where
  small : IsU64 out.0
  borrow_bit : out.1 ≤ 1
  exact : a + out.1 * u64_mod ≡ out.0 + b + borrow

sub_limb-SubsLimb :
    (a b borrow : ℕ)
    → IsU64 a
    → b + borrow < u64_mod
    → borrow ≤ 1
    → SubsLimb a b borrow (sub_limb a b borrow)
sub_limb-SubsLimb a b borrow ha hb hc = ground arith

module _ (a b : U256) (ha : IsWord a) (hb : IsWord b) (hp : BorrowsPass b) where
  abbrev r0 : ℕ × ℕ
  r0 = sub_limb a.w0 b.w0 0

  abbrev r1 : ℕ × ℕ
  r1 = sub_limb a.w1 b.w1 r0.1

  abbrev r2 : ℕ × ℕ
  r2 = sub_limb a.w2 b.w2 r1.1

  step0 : SubsLimb a.w0 b.w0 0 r0
  step0 = sub_limb-SubsLimb a.w0 b.w0 0 ha.small0 (omega arith) (omega arith)

  step1 : SubsLimb a.w1 b.w1 r0.1 r1
  step1 = sub_limb-SubsLimb a.w1 b.w1 r0.1 ha.small1 (omega (arith, step0)) step0.borrow_bit

  step2 : SubsLimb a.w2 b.w2 r1.1 r2
  step2 = sub_limb-SubsLimb a.w2 b.w2 r1.1 ha.small2 (omega (arith, step1)) step1.borrow_bit

  step3 : SubsLimb a.w3 b.w3 r2.1 (sub_limb a.w3 b.w3 r2.1)
  step3 = sub_limb-SubsLimb a.w3 b.w3 r2.1 ha.small3 (omega (arith, step2)) step2.borrow_bit

  -- For words whose second operand has no upper limb of ones, `uint256_sub` gives the difference of
  -- the values modulo 2 ^ 256.
  pub to_nat-sub : to_nat (sub a b) ≡ (to_nat a + 2 ^ 256 - to_nat b) % 2 ^ 256
  unfolding sub
  to_nat-sub = subtract r0 r1 r2 (sub_limb a.w3 b.w3 r2.1) step0 step1 step2 step3
    where
      subtract :
          (p0 p1 p2 p3 : ℕ × ℕ)
          → SubsLimb a.w0 b.w0 0 p0
          → SubsLimb a.w1 b.w1 p0.1 p1
          → SubsLimb a.w2 b.w2 p1.1 p2
          → SubsLimb a.w3 b.w3 p2.1 p3
          → p0.0 + p1.0 * 2 ^ 64 + p2.0 * 2 ^ 128 + p3.0 * 2 ^ 192
            ≡ (to_nat a + 2 ^ 256 - to_nat b) % 2 ^ 256
      subtract p0 p1 p2 p3 e0 e1 e2 e3 = omega arith

-- For words where the lowest limb borrows and the next limb of the second operand is all ones, the
-- borrow is lost: the result is not the difference modulo 2 ^ 256.
pub sub_loses_borrow :
    (a b : U256)
    → IsWord a
    → IsWord b
    → a.w0 < b.w0
    → b.w1 + 1 ≡ u64_mod
    → to_nat (sub a b) ≢ (to_nat a + 2 ^ 256 - to_nat b) % 2 ^ 256
unfolding sub
sub_loses_borrow a b ha hb low ones = ground arith

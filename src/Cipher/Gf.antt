-- ===== src/Cipher/Gf.antt =====
-- The field GF(2^8) of AES in mini-crypto-basic/src/symmetric_cipher.c: aes_gf_mul2, aes_gf_mul3
-- and aes_gf_mul.
pub mod Linear
pub mod Column
use Prim.Native.Nat.{bit_xor, bit_and}
use native.Mathlib.Nat.{pow-suc, pow-zero, suc-add, zero-add}
use mini_security_crypto_web.Prelude.{
  ℕ, zero, suc, ◌+◌, ◌*◌, ◌/◌, ◌%◌, ◌^◌, ◌<◌, ◌≡◌, refl, Bool, true, ◌&&◌, ◌==◌, ==_iff,
  if◌then◌else◌, inl, inr, Bool-cases, arith,
}

unfoldable pub gf_mul2 : ℕ → ℕ
gf_mul2 val = bit_xor (val * 2) (if bit_and val 0x80 == 0 then 0x00 else 0x1b) % 256

unfoldable pub gf_mul3 : ℕ → ℕ
unfolding gf_mul2
gf_mul3 val = bit_xor (gf_mul2 val) val

-- `while (b)`, a round for each digit of b.
unfoldable pub gf_mul_loop : ℕ → ℕ → ℕ → ℕ → ℕ
gf_mul_loop zero a b result = result
gf_mul_loop (suc f) a b result =
    let rest =
      gf_mul_loop f (gf_mul2 a) (b / 2) (if b % 2 == 1 then bit_xor result a else result) in
    if b == 0 then result else rest

unfoldable pub gf_mul : ℕ → ℕ → ℕ
unfolding gf_mul_loop gf_mul2
gf_mul a b = gf_mul_loop 8 a b 0

-- Enough rounds for every digit: more change nothing.
pub gf_mul_loop_fuel :
    (f n a b result : ℕ) → b < 2 ^ f → gf_mul_loop (f + n) a b result ≡ gf_mul_loop f a b result
unfolding gf_mul_loop
gf_mul_loop_fuel zero zero a b result h = refl
gf_mul_loop_fuel zero (suc n) a b result h =
    let e : b ≡ 0 = omega (arith, pow-zero 2) in rw (e, zero-add (suc n)) refl
gf_mul_loop_fuel (suc f) n a b result h =
    rw
      (
        suc-add f n,
        gf_mul_loop_fuel f n (gf_mul2 a) (b / 2) (if b % 2 == 1 then bit_xor result a else result)
            (omega (arith, pow-suc 2 f)),
      )
      refl

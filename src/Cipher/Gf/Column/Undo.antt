-- ===== src/Cipher/Gf/Column/Undo.antt =====
-- A column of aes_mix_columns and then of aes_inv_mix_columns in
-- mini-crypto-basic/src/symmetric_cipher.c.
use Prim.Native.Nat.{bit_xor}
use mini_security_crypto_web.Prelude.{ℕ, ◌<◌, ◌≡◌, refl, true, ◌==◌, ==_iff}
use mini_security_crypto_web.Prelude.Xor.{bit_xor_swap, bit_xor-zero, zero-bit_xor}
use mini_security_crypto_web.Cipher.Gf.{gf_mul2, gf_mul3, gf_mul}
use mini_security_crypto_web.Cipher.Gf.Linear.{
  all_below, all_below_sound, IsLinear, xor_byte, gf_mul2-IsLinear, gf_mul3-IsLinear,
  gf_mul_nine-IsLinear, gf_mul_eleven-IsLinear, gf_mul_thirteen-IsLinear, gf_mul_fourteen-IsLinear,
}
use mini_security_crypto_web.Cipher.Gf.Column.{
  xor4, mixed0, mixed1, mixed2, mixed3, unmixed0, unmixed1, unmixed2, unmixed3,
}

xor4_swap :
    (a b c d e f g h : ℕ)
    → bit_xor (xor4 a b c d) (xor4 e f g h)
      ≡ xor4 (bit_xor a e) (bit_xor b f) (bit_xor c g) (bit_xor d h)
xor4_swap a b c d e f g h =
    rw
      (
        bit_xor_swap (bit_xor (bit_xor a b) c) d (bit_xor (bit_xor e f) g) h,
        bit_xor_swap (bit_xor a b) c (bit_xor e f) g,
        bit_xor_swap a b e f,
      )
      refl

module _ (f : ℕ → ℕ) (lf : IsLinear f) where
  xor4-linear :
      (a b c d : ℕ)
      → a < 256
      → b < 256
      → c < 256
      → d < 256
      → f (xor4 a b c d) ≡ xor4 (f a) (f b) (f c) (f d)
  xor4-linear a b c d p q r s =
      rw
        (
          lf.additive (bit_xor (bit_xor a b) c) d (xor_byte _ _ (xor_byte _ _ p q) r) s,
          lf.additive (bit_xor a b) c (xor_byte _ _ p q) r,
          lf.additive a b p q,
        )
        refl

-- The four sums over a column of the product of the two matrices, one for each byte mixed.
module _ (f0 f1 f2 f3 : ℕ → ℕ) where
  abbrev part0 : ℕ → ℕ
  part0 s = xor4 (f0 (gf_mul2 s)) (f1 s) (f2 s) (f3 (gf_mul3 s))

  abbrev part1 : ℕ → ℕ
  part1 s = xor4 (f0 (gf_mul3 s)) (f1 (gf_mul2 s)) (f2 s) (f3 s)

  abbrev part2 : ℕ → ℕ
  part2 s = xor4 (f0 s) (f1 (gf_mul3 s)) (f2 (gf_mul2 s)) (f3 s)

  abbrev part3 : ℕ → ℕ
  part3 s = xor4 (f0 s) (f1 s) (f2 (gf_mul3 s)) (f3 (gf_mul2 s))

module _ (f0 f1 f2 f3 : ℕ → ℕ) (l0 : IsLinear f0) (l1 : IsLinear f1) (l2 : IsLinear f2)
    (l3 : IsLinear f3) (s0 s1 s2 s3 : ℕ) (h0 : s0 < 256) (h1 : s1 < 256) (h2 : s2 < 256)
    (h3 : s3 < 256) where
  unmix-mix :
      xor4
        (f0 (mixed0 s0 s1 s2 s3))
        (f1 (mixed1 s0 s1 s2 s3))
        (f2 (mixed2 s0 s1 s2 s3))
        (f3 (mixed3 s0 s1 s2 s3))
      ≡ xor4
          (part0 f0 f1 f2 f3 s0)
          (part1 f0 f1 f2 f3 s1)
          (part2 f0 f1 f2 f3 s2)
          (part3 f0 f1 f2 f3 s3)
  unfolding mixed0 mixed1 mixed2 mixed3
  unmix-mix =
      rw
        (
          xor4-linear f0 l0 (gf_mul2 s0) (gf_mul3 s1) s2 s3 (gf_mul2-IsLinear.is_byte s0 h0)
              (gf_mul3-IsLinear.is_byte s1 h1) h2 h3,
          xor4-linear f1 l1 s0 (gf_mul2 s1) (gf_mul3 s2) s3 h0 (gf_mul2-IsLinear.is_byte s1 h1)
              (gf_mul3-IsLinear.is_byte s2 h2) h3,
          xor4-linear f2 l2 s0 s1 (gf_mul2 s2) (gf_mul3 s3) h0 h1 (gf_mul2-IsLinear.is_byte s2 h2)
              (gf_mul3-IsLinear.is_byte s3 h3),
          xor4-linear f3 l3 (gf_mul3 s0) s1 s2 (gf_mul2 s3) (gf_mul3-IsLinear.is_byte s0 h0) h1 h2
              (gf_mul2-IsLinear.is_byte s3 h3),
          xor4_swap (f0 (gf_mul2 s0)) (f0 (gf_mul3 s1)) (f0 s2) (f0 s3) (f1 s0) (f1 (gf_mul2 s1))
              (f1 (gf_mul3 s2)) (f1 s3),
          xor4_swap (bit_xor (f0 (gf_mul2 s0)) (f1 s0))
              (bit_xor (f0 (gf_mul3 s1)) (f1 (gf_mul2 s1))) (bit_xor (f0 s2) (f1 (gf_mul3 s2)))
              (bit_xor (f0 s3) (f1 s3)) (f2 s0) (f2 s1) (f2 (gf_mul2 s2)) (f2 (gf_mul3 s3)),
          xor4_swap (bit_xor (bit_xor (f0 (gf_mul2 s0)) (f1 s0)) (f2 s0))
              (bit_xor (bit_xor (f0 (gf_mul3 s1)) (f1 (gf_mul2 s1))) (f2 s1))
              (bit_xor (bit_xor (f0 s2) (f1 (gf_mul3 s2))) (f2 (gf_mul2 s2)))
              (bit_xor (bit_xor (f0 s3) (f1 s3)) (f2 (gf_mul3 s3))) (f3 (gf_mul3 s0)) (f3 s1)
              (f3 s2) (f3 (gf_mul2 s3)),
        )
        refl

ends0 : (x : ℕ) → xor4 x 0 0 0 ≡ x
ends0 x = rw (bit_xor-zero x, bit_xor-zero x) (bit_xor-zero x)

ends1 : (x : ℕ) → xor4 0 x 0 0 ≡ x
ends1 x = rw (zero-bit_xor x, bit_xor-zero x) (bit_xor-zero x)

ends2 : (x : ℕ) → xor4 0 0 x 0 ≡ x
ends2 x = rw (zero-bit_xor 0, zero-bit_xor x) (bit_xor-zero x)

ends3 : (x : ℕ) → xor4 0 0 0 x ≡ x
ends3 x = rw (zero-bit_xor 0, zero-bit_xor 0) (zero-bit_xor x)

Agree : (ℕ → ℕ) → (ℕ → ℕ) → Type 0
Agree f g = all_below 256 (λ n. f n == g n) ≡ true

Agree-at : (f g : ℕ → ℕ) (x : ℕ) → Agree f g → x < 256 → f x ≡ g x
unfolding Agree
Agree-at f g x table h = (==_iff _ _).0 (all_below_sound 256 (λ n. f n == g n) x table h)

table0 :
    Agree (part0 (gf_mul 0x0e) (gf_mul 0x0b) (gf_mul 0x0d) (gf_mul 0x09)) (λ n. n)
    × Agree (part1 (gf_mul 0x0e) (gf_mul 0x0b) (gf_mul 0x0d) (gf_mul 0x09)) (λ n. 0)
    × Agree (part2 (gf_mul 0x0e) (gf_mul 0x0b) (gf_mul 0x0d) (gf_mul 0x09)) (λ n. 0)
    × Agree (part3 (gf_mul 0x0e) (gf_mul 0x0b) (gf_mul 0x0d) (gf_mul 0x09)) (λ n. 0)
unfolding Agree gf_mul gf_mul2 gf_mul3
table0 = (refl, refl, refl, refl)

pub unmixed0-mixed :
    (s0 s1 s2 s3 : ℕ)
    → s0 < 256
    → s1 < 256
    → s2 < 256
    → s3 < 256
    → unmixed0 (mixed0 s0 s1 s2 s3) (mixed1 s0 s1 s2 s3) (mixed2 s0 s1 s2 s3) (mixed3 s0 s1 s2 s3)
      ≡ s0
unfolding unmixed0
unmixed0-mixed s0 s1 s2 s3 h0 h1 h2 h3 =
    rw
      (
        unmix-mix (gf_mul 0x0e) (gf_mul 0x0b) (gf_mul 0x0d) (gf_mul 0x09) gf_mul_fourteen-IsLinear
            gf_mul_eleven-IsLinear gf_mul_thirteen-IsLinear gf_mul_nine-IsLinear s0 s1 s2 s3 h0 h1
            h2 h3,
        Agree-at (part0 (gf_mul 0x0e) (gf_mul 0x0b) (gf_mul 0x0d) (gf_mul 0x09)) (λ n. n) s0
            (table0.0) h0,
        Agree-at (part1 (gf_mul 0x0e) (gf_mul 0x0b) (gf_mul 0x0d) (gf_mul 0x09)) (λ n. 0) s1
            (table0.1) h1,
        Agree-at (part2 (gf_mul 0x0e) (gf_mul 0x0b) (gf_mul 0x0d) (gf_mul 0x09)) (λ n. 0) s2
            (table0.2) h2,
        Agree-at (part3 (gf_mul 0x0e) (gf_mul 0x0b) (gf_mul 0x0d) (gf_mul 0x09)) (λ n. 0) s3
            (table0.3) h3,
      )
      (ends0 s0)

table1 :
    Agree (part0 (gf_mul 0x09) (gf_mul 0x0e) (gf_mul 0x0b) (gf_mul 0x0d)) (λ n. 0)
    × Agree (part1 (gf_mul 0x09) (gf_mul 0x0e) (gf_mul 0x0b) (gf_mul 0x0d)) (λ n. n)
    × Agree (part2 (gf_mul 0x09) (gf_mul 0x0e) (gf_mul 0x0b) (gf_mul 0x0d)) (λ n. 0)
    × Agree (part3 (gf_mul 0x09) (gf_mul 0x0e) (gf_mul 0x0b) (gf_mul 0x0d)) (λ n. 0)
unfolding Agree gf_mul gf_mul2 gf_mul3
table1 = (refl, refl, refl, refl)

pub unmixed1-mixed :
    (s0 s1 s2 s3 : ℕ)
    → s0 < 256
    → s1 < 256
    → s2 < 256
    → s3 < 256
    → unmixed1 (mixed0 s0 s1 s2 s3) (mixed1 s0 s1 s2 s3) (mixed2 s0 s1 s2 s3) (mixed3 s0 s1 s2 s3)
      ≡ s1
unfolding unmixed1
unmixed1-mixed s0 s1 s2 s3 h0 h1 h2 h3 =
    rw
      (
        unmix-mix (gf_mul 0x09) (gf_mul 0x0e) (gf_mul 0x0b) (gf_mul 0x0d) gf_mul_nine-IsLinear
            gf_mul_fourteen-IsLinear gf_mul_eleven-IsLinear gf_mul_thirteen-IsLinear s0 s1 s2 s3 h0
            h1 h2 h3,
        Agree-at (part0 (gf_mul 0x09) (gf_mul 0x0e) (gf_mul 0x0b) (gf_mul 0x0d)) (λ n. 0) s0
            (table1.0) h0,
        Agree-at (part1 (gf_mul 0x09) (gf_mul 0x0e) (gf_mul 0x0b) (gf_mul 0x0d)) (λ n. n) s1
            (table1.1) h1,
        Agree-at (part2 (gf_mul 0x09) (gf_mul 0x0e) (gf_mul 0x0b) (gf_mul 0x0d)) (λ n. 0) s2
            (table1.2) h2,
        Agree-at (part3 (gf_mul 0x09) (gf_mul 0x0e) (gf_mul 0x0b) (gf_mul 0x0d)) (λ n. 0) s3
            (table1.3) h3,
      )
      (ends1 s1)

table2 :
    Agree (part0 (gf_mul 0x0d) (gf_mul 0x09) (gf_mul 0x0e) (gf_mul 0x0b)) (λ n. 0)
    × Agree (part1 (gf_mul 0x0d) (gf_mul 0x09) (gf_mul 0x0e) (gf_mul 0x0b)) (λ n. 0)
    × Agree (part2 (gf_mul 0x0d) (gf_mul 0x09) (gf_mul 0x0e) (gf_mul 0x0b)) (λ n. n)
    × Agree (part3 (gf_mul 0x0d) (gf_mul 0x09) (gf_mul 0x0e) (gf_mul 0x0b)) (λ n. 0)
unfolding Agree gf_mul gf_mul2 gf_mul3
table2 = (refl, refl, refl, refl)

pub unmixed2-mixed :
    (s0 s1 s2 s3 : ℕ)
    → s0 < 256
    → s1 < 256
    → s2 < 256
    → s3 < 256
    → unmixed2 (mixed0 s0 s1 s2 s3) (mixed1 s0 s1 s2 s3) (mixed2 s0 s1 s2 s3) (mixed3 s0 s1 s2 s3)
      ≡ s2
unfolding unmixed2
unmixed2-mixed s0 s1 s2 s3 h0 h1 h2 h3 =
    rw
      (
        unmix-mix (gf_mul 0x0d) (gf_mul 0x09) (gf_mul 0x0e) (gf_mul 0x0b) gf_mul_thirteen-IsLinear
            gf_mul_nine-IsLinear gf_mul_fourteen-IsLinear gf_mul_eleven-IsLinear s0 s1 s2 s3 h0 h1
            h2 h3,
        Agree-at (part0 (gf_mul 0x0d) (gf_mul 0x09) (gf_mul 0x0e) (gf_mul 0x0b)) (λ n. 0) s0
            (table2.0) h0,
        Agree-at (part1 (gf_mul 0x0d) (gf_mul 0x09) (gf_mul 0x0e) (gf_mul 0x0b)) (λ n. 0) s1
            (table2.1) h1,
        Agree-at (part2 (gf_mul 0x0d) (gf_mul 0x09) (gf_mul 0x0e) (gf_mul 0x0b)) (λ n. n) s2
            (table2.2) h2,
        Agree-at (part3 (gf_mul 0x0d) (gf_mul 0x09) (gf_mul 0x0e) (gf_mul 0x0b)) (λ n. 0) s3
            (table2.3) h3,
      )
      (ends2 s2)

table3 :
    Agree (part0 (gf_mul 0x0b) (gf_mul 0x0d) (gf_mul 0x09) (gf_mul 0x0e)) (λ n. 0)
    × Agree (part1 (gf_mul 0x0b) (gf_mul 0x0d) (gf_mul 0x09) (gf_mul 0x0e)) (λ n. 0)
    × Agree (part2 (gf_mul 0x0b) (gf_mul 0x0d) (gf_mul 0x09) (gf_mul 0x0e)) (λ n. 0)
    × Agree (part3 (gf_mul 0x0b) (gf_mul 0x0d) (gf_mul 0x09) (gf_mul 0x0e)) (λ n. n)
unfolding Agree gf_mul gf_mul2 gf_mul3
table3 = (refl, refl, refl, refl)

pub unmixed3-mixed :
    (s0 s1 s2 s3 : ℕ)
    → s0 < 256
    → s1 < 256
    → s2 < 256
    → s3 < 256
    → unmixed3 (mixed0 s0 s1 s2 s3) (mixed1 s0 s1 s2 s3) (mixed2 s0 s1 s2 s3) (mixed3 s0 s1 s2 s3)
      ≡ s3
unfolding unmixed3
unmixed3-mixed s0 s1 s2 s3 h0 h1 h2 h3 =
    rw
      (
        unmix-mix (gf_mul 0x0b) (gf_mul 0x0d) (gf_mul 0x09) (gf_mul 0x0e) gf_mul_eleven-IsLinear
            gf_mul_thirteen-IsLinear gf_mul_nine-IsLinear gf_mul_fourteen-IsLinear s0 s1 s2 s3 h0 h1
            h2 h3,
        Agree-at (part0 (gf_mul 0x0b) (gf_mul 0x0d) (gf_mul 0x09) (gf_mul 0x0e)) (λ n. 0) s0
            (table3.0) h0,
        Agree-at (part1 (gf_mul 0x0b) (gf_mul 0x0d) (gf_mul 0x09) (gf_mul 0x0e)) (λ n. 0) s1
            (table3.1) h1,
        Agree-at (part2 (gf_mul 0x0b) (gf_mul 0x0d) (gf_mul 0x09) (gf_mul 0x0e)) (λ n. 0) s2
            (table3.2) h2,
        Agree-at (part3 (gf_mul 0x0b) (gf_mul 0x0d) (gf_mul 0x09) (gf_mul 0x0e)) (λ n. n) s3
            (table3.3) h3,
      )
      (ends3 s3)

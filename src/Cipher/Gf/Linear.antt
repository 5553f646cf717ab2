-- ===== src/Cipher/Gf/Linear.antt =====
-- The multiplications that aes_mix_columns and aes_inv_mix_columns use, over sums of bytes.
use Prim.Native.Nat.{bit_xor}
use mini_security_crypto_web.Prelude.{
  ℕ, zero, suc, ◌<◌, ◌≡◌, refl, Bool, true, ◌&&◌, ◌==◌, ==_iff, ltb, ltb→lt, arith,
}
use mini_security_crypto_web.Prelude.Xor.{bit_xor-lt, bit_xor_swap}
use mini_security_crypto_web.Cipher.Gf.{gf_mul2, gf_mul3, gf_mul}

-- Every byte, by evaluation.
abbrev pub all_below : ℕ → (ℕ → Bool) → Bool
all_below zero p = true
all_below (suc n) p = p n && all_below n p

pub all_below_sound : (n : ℕ) (p : ℕ → Bool) (x : ℕ) → all_below n p ≡ true → x < n → p x ≡ true
all_below_sound zero p x h lt = absurd (omega arith)
all_below_sound (suc n) p x h lt = ground (arith, all_below_sound n p x)

pub record IsLinear (f : ℕ → ℕ) : Type 0 where
  pub is_byte : (x : ℕ) → x < 256 → f x < 256
  pub additive : (x y : ℕ) → x < 256 → y < 256 → f (bit_xor x y) ≡ bit_xor (f x) (f y)

pub xor_byte : (x y : ℕ) → x < 256 → y < 256 → bit_xor x y < 256
xor_byte x y h k = bit_xor-lt 8 x y h k

linear_table :
    all_below 256
      (λ x. all_below 256 (λ y. gf_mul2 (bit_xor x y) == bit_xor (gf_mul2 x) (gf_mul2 y)))
    ≡ true
unfolding gf_mul2
linear_table = refl

bounds_table : all_below 256 (λ x. ltb (gf_mul2 x) 256) ≡ true
unfolding gf_mul2
bounds_table = refl

pub gf_mul2-IsLinear : IsLinear gf_mul2
gf_mul2-IsLinear = record {
  is_byte = λ x h. ltb→lt _ _ (all_below_sound 256 (λ n. ltb (gf_mul2 n) 256) x bounds_table h);
  additive = λ x y h k. (==_iff _ _).0 (
      all_below_sound 256 (λ n. gf_mul2 (bit_xor x n) == bit_xor (gf_mul2 x) (gf_mul2 n)) y
        (all_below_sound 256
          (λ m. all_below 256 (λ n. gf_mul2 (bit_xor m n) == bit_xor (gf_mul2 m) (gf_mul2 n))) x
          linear_table h)
        k);
}

pub IsLinear-identity : IsLinear (λ x. x)
IsLinear-identity = record { is_byte = λ x h. h; additive = λ x y h k. refl }

pub IsLinear-sum : (f g : ℕ → ℕ) → IsLinear f → IsLinear g → IsLinear (λ x. bit_xor (f x) (g x))
IsLinear-sum f g lf lg = record {
  is_byte = λ x h. xor_byte (f x) (g x) (lf.is_byte x h) (lg.is_byte x h);
  additive = λ x y h k.
      rw (lf.additive x y h k, lg.additive x y h k) (bit_xor_swap (f x) (f y) (g x) (g y));
}

pub IsLinear-after : (f g : ℕ → ℕ) → IsLinear f → IsLinear g → IsLinear (λ x. f (g x))
IsLinear-after f g lf lg = record {
  is_byte = λ x h. lf.is_byte (g x) (lg.is_byte x h);
  additive = λ x y h k.
      rw (lg.additive x y h k) (lf.additive (g x) (g y) (lg.is_byte x h) (lg.is_byte y k));
}

-- A function that agrees with a linear one on the bytes.
IsLinear-agrees : (f g : ℕ → ℕ) → IsLinear g → ((x : ℕ) → x < 256 → f x ≡ g x) → IsLinear f
IsLinear-agrees f g lg e = record {
  is_byte = λ x h. rw (e x h) (lg.is_byte x h);
  additive = λ x y h k. rw (e (bit_xor x y) (xor_byte x y h k), e x h, e y k) (lg.additive x y h k);
}

pub gf_mul3-IsLinear : IsLinear gf_mul3
unfolding gf_mul3
gf_mul3-IsLinear = IsLinear-sum gf_mul2 (λ x. x) gf_mul2-IsLinear IsLinear-identity

times4 : ℕ → ℕ
times4 x = gf_mul2 (gf_mul2 x)

times8 : ℕ → ℕ
times8 x = gf_mul2 (gf_mul2 (gf_mul2 x))

times4-IsLinear : IsLinear times4
unfolding times4
times4-IsLinear = IsLinear-after gf_mul2 gf_mul2 gf_mul2-IsLinear gf_mul2-IsLinear

times8-IsLinear : IsLinear times8
unfolding times8 times4
times8-IsLinear = IsLinear-after gf_mul2 times4 gf_mul2-IsLinear times4-IsLinear

agrees :
    (c : ℕ) (g : ℕ → ℕ)
    → IsLinear g
    → all_below 256 (λ x. gf_mul c x == g x) ≡ true
    → IsLinear (gf_mul c)
agrees c g lg table =
    IsLinear-agrees (gf_mul c) g lg
      (λ x h. (==_iff _ _).0 (all_below_sound 256 (λ n. gf_mul c n == g n) x table h))

pub gf_mul_nine-IsLinear : IsLinear (gf_mul 0x09)
unfolding gf_mul times8
gf_mul_nine-IsLinear =
    agrees 0x09 (λ x. bit_xor (times8 x) x)
      (IsLinear-sum times8 (λ x. x) times8-IsLinear IsLinear-identity) refl

pub gf_mul_eleven-IsLinear : IsLinear (gf_mul 0x0b)
unfolding gf_mul gf_mul3 times8
gf_mul_eleven-IsLinear =
    agrees 0x0b (λ x. bit_xor (times8 x) (gf_mul3 x))
      (IsLinear-sum times8 gf_mul3 times8-IsLinear gf_mul3-IsLinear) refl

pub gf_mul_thirteen-IsLinear : IsLinear (gf_mul 0x0d)
unfolding gf_mul times8 times4
gf_mul_thirteen-IsLinear =
    agrees 0x0d (λ x. bit_xor (times8 x) (bit_xor (times4 x) x))
      (IsLinear-sum times8 (λ x. bit_xor (times4 x) x) times8-IsLinear
        (IsLinear-sum times4 (λ x. x) times4-IsLinear IsLinear-identity))
      refl

pub gf_mul_fourteen-IsLinear : IsLinear (gf_mul 0x0e)
unfolding gf_mul times8 times4
gf_mul_fourteen-IsLinear =
    agrees 0x0e (λ x. bit_xor (times8 x) (bit_xor (times4 x) (gf_mul2 x)))
      (IsLinear-sum times8 (λ x. bit_xor (times4 x) (gf_mul2 x)) times8-IsLinear
        (IsLinear-sum times4 gf_mul2 times4-IsLinear gf_mul2-IsLinear))
      refl

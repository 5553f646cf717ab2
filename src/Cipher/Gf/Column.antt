-- ===== src/Cipher/Gf/Column.antt =====
-- The four bytes that aes_mix_columns and aes_inv_mix_columns make of a column.
pub mod Undo
use Prim.Native.Nat.{bit_xor}
use mini_security_crypto_web.Prelude.{ℕ, ◌<◌, ◌≡◌, refl, true, ◌==◌, ==_iff}
use mini_security_crypto_web.Prelude.Xor.{bit_xor_swap, bit_xor-zero, zero-bit_xor}
use mini_security_crypto_web.Cipher.Gf.{gf_mul2, gf_mul3, gf_mul}
use mini_security_crypto_web.Cipher.Gf.Linear.{
  all_below, all_below_sound, IsLinear, xor_byte, gf_mul2-IsLinear, gf_mul3-IsLinear,
  gf_mul_nine-IsLinear, gf_mul_eleven-IsLinear, gf_mul_thirteen-IsLinear, gf_mul_fourteen-IsLinear,
}

abbrev pub xor4 : ℕ → ℕ → ℕ → ℕ → ℕ
xor4 a b c d = bit_xor (bit_xor (bit_xor a b) c) d

unfoldable pub mixed0 : ℕ → ℕ → ℕ → ℕ → ℕ
mixed0 s0 s1 s2 s3 = bit_xor (bit_xor (bit_xor (gf_mul2 s0) (gf_mul3 s1)) s2) s3

unfoldable pub mixed1 : ℕ → ℕ → ℕ → ℕ → ℕ
mixed1 s0 s1 s2 s3 = bit_xor (bit_xor (bit_xor s0 (gf_mul2 s1)) (gf_mul3 s2)) s3

unfoldable pub mixed2 : ℕ → ℕ → ℕ → ℕ → ℕ
mixed2 s0 s1 s2 s3 = bit_xor (bit_xor (bit_xor s0 s1) (gf_mul2 s2)) (gf_mul3 s3)

unfoldable pub mixed3 : ℕ → ℕ → ℕ → ℕ → ℕ
mixed3 s0 s1 s2 s3 = bit_xor (bit_xor (bit_xor (gf_mul3 s0) s1) s2) (gf_mul2 s3)

unfoldable pub unmixed0 : ℕ → ℕ → ℕ → ℕ → ℕ
unmixed0 s0 s1 s2 s3 =
    bit_xor (bit_xor (bit_xor (gf_mul 0x0e s0) (gf_mul 0x0b s1)) (gf_mul 0x0d s2)) (gf_mul 0x09 s3)

unfoldable pub unmixed1 : ℕ → ℕ → ℕ → ℕ → ℕ
unmixed1 s0 s1 s2 s3 =
    bit_xor (bit_xor (bit_xor (gf_mul 0x09 s0) (gf_mul 0x0e s1)) (gf_mul 0x0b s2)) (gf_mul 0x0d s3)

unfoldable pub unmixed2 : ℕ → ℕ → ℕ → ℕ → ℕ
unmixed2 s0 s1 s2 s3 =
    bit_xor (bit_xor (bit_xor (gf_mul 0x0d s0) (gf_mul 0x09 s1)) (gf_mul 0x0e s2)) (gf_mul 0x0b s3)

unfoldable pub unmixed3 : ℕ → ℕ → ℕ → ℕ → ℕ
unmixed3 s0 s1 s2 s3 =
    bit_xor (bit_xor (bit_xor (gf_mul 0x0b s0) (gf_mul 0x0d s1)) (gf_mul 0x09 s2)) (gf_mul 0x0e s3)

xor4-lt : (a b c d : ℕ) → a < 256 → b < 256 → c < 256 → d < 256 → xor4 a b c d < 256
xor4-lt a b c d p q r s = xor_byte _ _ (xor_byte _ _ (xor_byte a b p q) r) s

pub mixed0-lt :
    (s0 s1 s2 s3 : ℕ) → s0 < 256 → s1 < 256 → s2 < 256 → s3 < 256 → mixed0 s0 s1 s2 s3 < 256
unfolding mixed0
mixed0-lt s0 s1 s2 s3 h0 h1 h2 h3 =
    xor4-lt _ _ _ _ (gf_mul2-IsLinear.is_byte s0 h0) (gf_mul3-IsLinear.is_byte s1 h1) h2 h3

pub mixed1-lt :
    (s0 s1 s2 s3 : ℕ) → s0 < 256 → s1 < 256 → s2 < 256 → s3 < 256 → mixed1 s0 s1 s2 s3 < 256
unfolding mixed1
mixed1-lt s0 s1 s2 s3 h0 h1 h2 h3 =
    xor4-lt _ _ _ _ h0 (gf_mul2-IsLinear.is_byte s1 h1) (gf_mul3-IsLinear.is_byte s2 h2) h3

pub mixed2-lt :
    (s0 s1 s2 s3 : ℕ) → s0 < 256 → s1 < 256 → s2 < 256 → s3 < 256 → mixed2 s0 s1 s2 s3 < 256
unfolding mixed2
mixed2-lt s0 s1 s2 s3 h0 h1 h2 h3 =
    xor4-lt _ _ _ _ h0 h1 (gf_mul2-IsLinear.is_byte s2 h2) (gf_mul3-IsLinear.is_byte s3 h3)

pub mixed3-lt :
    (s0 s1 s2 s3 : ℕ) → s0 < 256 → s1 < 256 → s2 < 256 → s3 < 256 → mixed3 s0 s1 s2 s3 < 256
unfolding mixed3
mixed3-lt s0 s1 s2 s3 h0 h1 h2 h3 =
    xor4-lt _ _ _ _ (gf_mul3-IsLinear.is_byte s0 h0) h1 h2 (gf_mul2-IsLinear.is_byte s3 h3)

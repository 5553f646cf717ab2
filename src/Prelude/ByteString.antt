-- ===== src/Prelude/ByteString.antt =====
-- Byte strings: `memcmp`, and the order of big-endian numbers.
use Prim.Native.Nat.{ℕ, zero, suc, ◌+◌, ◌*◌, ◌/◌, ◌%◌, ◌^◌, ◌≤◌, ◌<◌}
use mathlib.Core.Path.{◌≡◌, refl, ap}
use mathlib.Core.Logic.{◌↔◌}
use mathlib.Core.Bool.{Bool, true, false, ◌&&◌}
use mathlib.Core.List.{List, [], ◌∷◌}
use native.Mathlib.Nat.{pow-zero, pow-suc, mul-le-mul_left, mul-le-mul_right, one-le-pow}
use native.Mathlib.Omega.{arith}
use mini_security_crypto_web.Prelude.Tests.{◌==◌, ltb, if◌then◌else◌}
use mini_security_crypto_web.Prelude.Lists.{length, All}

abbrev pub IsByte : ℕ → Type 0
IsByte b = b < 256

-- `memcmp(a, b, n) == 0` for two arrays of n bytes
unfoldable pub bytes_eq : List ℕ → List ℕ → Bool
bytes_eq [] [] = true
bytes_eq [] (b ∷ bs) = false
bytes_eq (a ∷ xs) [] = false
bytes_eq (a ∷ xs) (b ∷ bs) = a == b && bytes_eq xs bs

bytes_eq_sound : (a b : List ℕ) → bytes_eq a b ≡ true → a ≡ b
unfolding bytes_eq
bytes_eq_sound [] [] h = refl
bytes_eq_sound [] (b ∷ bs) h = cc
bytes_eq_sound (a ∷ xs) [] h = cc
bytes_eq_sound (a ∷ xs) (b ∷ bs) h = ground (arith, bytes_eq_sound xs bs)

pub bytes_eq_refl : (a : List ℕ) → bytes_eq a a ≡ true
unfolding bytes_eq
bytes_eq_refl [] = refl
bytes_eq_refl (a ∷ xs) = ground (arith, bytes_eq_refl xs)

pub bytes_eq_iff : (a b : List ℕ) → (bytes_eq a b ≡ true) ↔ (a ≡ b)
bytes_eq_iff a b = (bytes_eq_sound a b, λ e. rw e (bytes_eq_refl b))

-- The number that bytes spell, the highest first.
abbrev pub big_endian : List ℕ → ℕ
big_endian [] = 0
big_endian (b ∷ bytes) = b * 256 ^ length bytes + big_endian bytes

pub big_endian-lt : (bytes : List ℕ) → All IsByte bytes → big_endian bytes < 256 ^ length bytes
big_endian-lt [] h = omega arith
big_endian-lt (b ∷ bytes) h =
    let top : suc b * 256 ^ length bytes ≤ 256 * 256 ^ length bytes =
      mul-le-mul_right (256 ^ length bytes) h.0 in
    rw (pow-suc 256 (length bytes)) (omega (arith, big_endian-lt bytes h.1))

-- The loop that compares two numbers of the same length from the highest byte on.
unfoldable pub bytes_above : List ℕ → List ℕ → Bool
bytes_above [] limit = false
bytes_above (a ∷ xs) [] = false
bytes_above (a ∷ xs) (b ∷ ys) =
    let rest = bytes_above xs ys in if ltb b a then true else if ltb a b then false else rest

higher_digit : (a b p x y : ℕ) → b < a → y < p → b * p + y < a * p + x
higher_digit a b p x y h k = let m : suc b * p ≤ a * p = mul-le-mul_right p h in omega arith

pub bytes_above-eq-ltb :
    (xs ys : List ℕ)
    → length xs ≡ length ys
    → All IsByte xs
    → All IsByte ys
    → bytes_above xs ys ≡ ltb (big_endian ys) (big_endian xs)
unfolding bytes_above
bytes_above-eq-ltb [] [] e hx hy = refl
bytes_above-eq-ltb [] (b ∷ ys) e hx hy = absurd (omega arith)
bytes_above-eq-ltb (a ∷ xs) [] e hx hy = absurd (omega arith)
bytes_above-eq-ltb (a ∷ xs) (b ∷ ys) e hx hy = ground (
  arith,
  same,
  bytes_above-eq-ltb xs ys (omega arith) hx.1 hy.1,
  big_endian-lt xs hx.1,
  big_endian-lt ys hy.1,
  higher_digit a b (256 ^ length ys) (big_endian xs) (big_endian ys),
  higher_digit b a (256 ^ length ys) (big_endian ys) (big_endian xs),
)
  where
    same : 256 ^ length xs ≡ 256 ^ length ys
    same = ap (λ n. 256 ^ n) (omega arith)

unfoldable pub is_zero_bytes : List ℕ → Bool
is_zero_bytes [] = true
is_zero_bytes (b ∷ bytes) = b == 0 && is_zero_bytes bytes

pub is_zero_bytes_iff : (bytes : List ℕ) → (is_zero_bytes bytes ≡ true) ↔ (big_endian bytes ≡ 0)
unfolding is_zero_bytes
is_zero_bytes_iff [] = (λ _. refl, λ _. refl)
is_zero_bytes_iff (b ∷ bytes) =
    let pos : 1 ≤ 256 ^ length bytes = one-le-pow (length bytes) 256 (omega arith) in
    let big : b * 1 ≤ b * 256 ^ length bytes = mul-le-mul_left b pos in
    let ih = is_zero_bytes_iff bytes in (λ h. ground (arith, ih.0), λ h. ground (arith, ih.1))

-- The bytes of a number of k bytes in memory, on a little-endian machine.
abbrev pub le_bytes : ℕ → ℕ → List ℕ
le_bytes zero n = []
le_bytes (suc k) n = (n % 256) ∷ le_bytes k (n / 256)

abbrev pub from_le : List ℕ → ℕ
from_le [] = 0
from_le (b ∷ bytes) = b + 256 * from_le bytes

pub length-le_bytes : (k n : ℕ) → length (le_bytes k n) ≡ k
length-le_bytes zero n = refl
length-le_bytes (suc k) n = ap suc (length-le_bytes k (n / 256))

pub from_le-le_bytes : (k n : ℕ) → n < 256 ^ k → from_le (le_bytes k n) ≡ n
from_le-le_bytes zero n h = omega (arith, pow-zero 256)
from_le-le_bytes (suc k) n h =
    omega (arith, from_le-le_bytes k (n / 256) (omega (arith, pow-suc 256 k)))

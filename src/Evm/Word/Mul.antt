-- ===== src/Evm/Word/Mul.antt =====
-- `uint256_mul` multiplies modulo 2 ^ 256, and its 128-bit products do not overflow.
use mini_security_crypto_web.Prelude.{
  ℕ, zero, suc, ◌+◌, ◌-◌, ◌*◌, ◌%◌, ◌/◌, ◌^◌, ◌≤◌, ◌<◌, ◌≡◌, refl, ap, ◌∙◌, arith, List, [], ◌∷◌,
  All, length, drop, u64_mod, IsU64,
}
use native.Mathlib.Nat.{mul-le-mul}
use mini_security_crypto_web.Evm.Word.{U256, mul, mul_row, mul_rows, limbs, of_limbs}
use mini_security_crypto_web.Evm.Word.Value.{IsWord, to_nat, value}

-- The 128-bit product of one round holds the exact number.
product-lt : (a b r c : ℕ) → IsU64 a → IsU64 b → IsU64 r → IsU64 c → a * b + r + c < 2 ^ 128
product-lt a b r c ha hb hr hc =
    let top : a * b ≤ (2 ^ 64 - 1) * (2 ^ 64 - 1) =
      mul-le-mul {n₂ = 2 ^ 64 - 1} {m₂ = 2 ^ 64 - 1} (omega arith) (omega arith) in
    omega arith

-- The low and the high half of such a product.
record Halves (p lo hi : ℕ) : Type 0 where
  low_small : IsU64 lo
  high_small : IsU64 hi
  exact : p ≡ lo + u64_mod * hi

halves : (p : ℕ) → p < 2 ^ 128 → Halves p (p % 2 ^ 128 % u64_mod) (p % 2 ^ 128 / u64_mod % u64_mod)
halves p h = omega arith

module _ (b : ℕ) (hb : IsU64 b) where
  -- One row adds `value xs * b` to the result, where the cells behind it hold 0.
  value-mul_row :
      (xs rs : List ℕ) (c : ℕ)
      → length xs < length rs
      → All IsU64 xs
      → All IsU64 rs
      → IsU64 c
      → All (λ r. r ≡ 0) (drop (length xs) rs)
      → value (mul_row xs b rs c) ≡ value rs + value xs * b + c
  unfolding mul_row
  value-mul_row [] [] c h hx hr hc z = elim h [ ]
  value-mul_row [] (r ∷ rs) c h hx hr hc z = omega arith
  value-mul_row (x ∷ xs) [] c h hx hr hc z = elim h [ ]
  value-mul_row (x ∷ xs) (r ∷ rs) c h hx hr hc z =
      add_up (halves p (product-lt x b r c hx.0 hb hr.0 hc)) (
        value-mul_row xs rs (p % 2 ^ 128 / u64_mod % u64_mod) (omega arith) hx.1 hr.1 (omega arith)
          z)
    where
      p : ℕ
      p = x * b + r + c

      add_up :
          {lo hi row : ℕ}
          → Halves p lo hi
          → row ≡ value rs + value xs * b + hi
          → lo + u64_mod * row ≡ value (r ∷ rs) + value (x ∷ xs) * b + c
      add_up e k = rw k (omega (arith, e))

  mul_row-All : (xs rs : List ℕ) (c : ℕ) → All IsU64 rs → IsU64 c → All IsU64 (mul_row xs b rs c)
  unfolding mul_row
  mul_row-All [] [] c hr hc = tt
  mul_row-All [] (r ∷ rs) c hr hc = (hc, hr.1)
  mul_row-All (x ∷ xs) [] c hr hc = tt
  mul_row-All (x ∷ xs) (r ∷ rs) c hr hc = (omega arith, mul_row-All xs rs _ hr.1 (omega arith))

length-mul_row :
    (xs : List ℕ) (b : ℕ) (rs : List ℕ) (c : ℕ) → length (mul_row xs b rs c) ≡ length rs
unfolding mul_row
length-mul_row [] b [] c = refl
length-mul_row [] b (r ∷ rs) c = refl
length-mul_row (x ∷ xs) b [] c = refl
length-mul_row (x ∷ xs) b (r ∷ rs) c = ap suc (length-mul_row xs b rs _)

drop-mul_row :
    (xs : List ℕ) (b : ℕ) (rs : List ℕ) (c : ℕ)
    → drop (suc (length xs)) (mul_row xs b rs c) ≡ drop (suc (length xs)) rs
unfolding mul_row
drop-mul_row [] b [] c = refl
drop-mul_row [] b (r ∷ rs) c = refl
drop-mul_row (x ∷ xs) b [] c = refl
drop-mul_row (x ∷ xs) b (r ∷ rs) c = drop-mul_row xs b rs _

-- What the outer loop needs of the part of the result from `result[i]` on, with `n` rows to go.
record IsOpen (m n : ℕ) (rs : List ℕ) : Type 0 where
  long : length rs ≡ m + n
  small : All IsU64 rs
  clear : All (λ r. r ≡ 0) (drop m rs)

drop-suc-All : (P : ℕ → Type 0) (m : ℕ) (rs : List ℕ) → All P (drop m rs) → All P (drop (suc m) rs)
drop-suc-All P zero [] h = tt
drop-suc-All P zero (r ∷ rs) h = h.1
drop-suc-All P (suc m) [] h = tt
drop-suc-All P (suc m) (r ∷ rs) h = drop-suc-All P m rs h

module _ (xs : List ℕ) (hx : All IsU64 xs) where
  row_tail :
      (b n r : ℕ) (rs out : List ℕ)
      → IsU64 b
      → IsOpen (length xs) (suc n) rs
      → mul_row xs b rs 0 ≡ r ∷ out
      → IsU64 r × IsOpen (length xs) n out × (r + u64_mod * value out ≡ value rs + value xs * b)
  row_tail b n r rs out hb o e =
      (small.0, record { long = long; small = small.1; clear = clear }, val)
    where
      small : All IsU64 (r ∷ out)
      small = rw e at (mul_row-All b hb xs rs 0 o.small (omega arith))

      long : length out ≡ length xs + n
      long = omega (arith, o.long, length-mul_row xs b rs 0, ap (length {A = ℕ}) e)

      clear : All (λ r. r ≡ 0) (drop (length xs) out)
      clear = rw (← drop-mul_row xs b rs 0, e) at (drop-suc-All (λ r. r ≡ 0) (length xs) rs o.clear)

      val : r + u64_mod * value out ≡ value rs + value xs * b
      val = omega (
        arith,
        ap value e,
        value-mul_row b hb xs rs 0 (omega (arith, o.long)) hx o.small (omega arith) o.clear,
      )

  -- All rows together multiply, and keep the length and the size of the limbs.
  record Multiplies (ys rs out : List ℕ) : Type 0 where
    long : length out ≡ length rs
    small : All IsU64 out
    exact : value out ≡ value rs + value xs * value ys

  mul_rows-Multiplies :
      (ys rs : List ℕ)
      → All IsU64 ys
      → IsOpen (length xs) (length ys) rs
      → Multiplies ys rs (mul_rows xs ys rs)
  unfolding mul_rows
  mul_rows-Multiplies [] rs hy o = record { long = refl; small = o.small; exact = omega arith }
  mul_rows-Multiplies (y ∷ ys) rs hy o =
      go (mul_row xs y rs 0) refl (λ out. mul_rows-Multiplies ys out hy.1)
    where
      go :
          (row : List ℕ)
          → mul_row xs y rs 0 ≡ row
          → ((out : List ℕ)
              → IsOpen (length xs) (length ys) out
              → Multiplies ys out (mul_rows xs ys out))
          → Multiplies (y ∷ ys) rs (mul_rows xs (y ∷ ys) rs)
      go [] e ih = absurd (omega (arith, o.long, length-mul_row xs y rs 0, ap (length {A = ℕ}) e))
      go (r ∷ out) e ih =
          let t = row_tail y (length ys) r rs out hy.0 o e in
          let m = ih out t.1 in
          rw (e, mul_rows)
            (record {
              long = omega (arith, m.long, length-mul_row xs y rs 0, ap (length {A = ℕ}) e);
              small = (t.0, m.small);
              exact = rw m.exact (omega (arith, t.2));
            })

of_limbs-value :
    (ws : List ℕ) → length ws ≡ 8 → All IsU64 ws → to_nat (of_limbs ws) ≡ value ws % 2 ^ 256
of_limbs-value (w0 ∷ w1 ∷ w2 ∷ w3 ∷ ws) e h = omega arith
of_limbs-value ws e h = absurd (omega (arith, e))

abbrev zeros : List ℕ
zeros = 0 ∷ 0 ∷ 0 ∷ 0 ∷ 0 ∷ 0 ∷ 0 ∷ 0 ∷ []

-- For two words `uint256_mul` gives the product of their values modulo 2 ^ 256.
pub to_nat-mul :
    (a b : U256) → IsWord a → IsWord b → to_nat (mul a b) ≡ to_nat a * to_nat b % 2 ^ 256
unfolding mul
to_nat-mul a b ha hb =
    of_limbs-value (mul_rows (limbs a) (limbs b) zeros) m.long m.small
    ∙ ap (λ n. n % 2 ^ 256) (m.exact ∙ exact)
  where
    m : Multiplies (limbs a) (omega arith) (limbs b) zeros (mul_rows (limbs a) (limbs b) zeros)
    m =
        mul_rows-Multiplies (limbs a) (omega arith) (limbs b) zeros (omega arith)
          (record { long = refl; small = omega arith; clear = omega arith })

    exact : value zeros + value (limbs a) * value (limbs b) ≡ to_nat a * to_nat b
    exact = omega arith

-- ===== src/Rsa/BigInt/Product.antt =====
-- bigint_mul over the numbers that the words spell.
use native.Mathlib.Nat.{
  pow-suc, pow-zero, zero-mul, mul-zero, mul-suc, mul-le-mul_left, mul-le-mul_right, suc-mul,
  zero-add, suc-add, pow-le-pow_right,
}
use mini_security_crypto_web.Prelude.{
  ℕ, zero, suc, ◌+◌, ◌*◌, ◌/◌, ◌^◌, ◌≤◌, ◌<◌, ◌≡◌, refl, ap, ◌∙◌, ◌==◌, Bool-cases, inl, inr, List,
  [], ◌∷◌, length, replicate, All, u32_mod, arith,
}
use mini_security_crypto_web.Rsa.BigInt.{carry_up, mul_row, mul_rows, bigint_mul, bi_max_words}
use mini_security_crypto_web.Rsa.BigInt.Value.{value, value-normalise, value-lt, IsWord}
use mini_security_crypto_web.Rsa.BigInt.Sum.{carried, value-zeros}

-- What is carried out of the array's end is lost: the number is taken modulo the array's size.
abbrev Lost : ℕ → ℕ → ℕ → Type 0
Lost n v t = (lost : ℕ) × (v + u32_mod ^ n * lost ≡ t)

carry_up-value :
    (rs : List ℕ) (carry : ℕ) → Lost (length rs) (value (carry_up carry rs)) (value rs + carry)
unfolding carry_up value
carry_up-value [] carry = (carry, omega (arith, pow-zero u32_mod))
carry_up-value (r ∷ rs) carry = elim (Bool-cases (carry == 0)) [
  | inl e ↦
      let none_ : carry ≡ 0 = ground arith in
      rw e (0, omega (arith, none_, mul-zero (u32_mod ^ suc (length rs))))
  | inr e ↦
      let (lost, ih) = carry_up-value rs ((r + carry) / u32_mod) in
      rw e (lost, carried (r + carry) (length rs) _ lost (value rs) ih ∙ omega arith)
]

length-carry_up : (rs : List ℕ) (carry : ℕ) → length (carry_up carry rs) ≡ length rs
unfolding carry_up
length-carry_up [] carry = refl
length-carry_up (r ∷ rs) carry = elim (Bool-cases (carry == 0)) [
  | inl e ↦ rw e refl
  | inr e ↦ rw e (ap suc (length-carry_up rs ((r + carry) / u32_mod)))
]

length-mul_row :
    (b rs : List ℕ) (a carry : ℕ) → length b ≤ length rs → length (mul_row a b rs carry) ≡ length rs
unfolding mul_row
length-mul_row [] rs a carry h = length-carry_up rs carry
length-mul_row (b ∷ ys) [] a carry h = absurd (omega arith)
length-mul_row (b ∷ ys) (r ∷ rs) a carry h =
    ap suc (length-mul_row ys rs a ((a * b + r + carry) / u32_mod) (omega arith))

spread :
    (a b v r w carry : ℕ)
    → a * b + r + carry + u32_mod * (w + a * v) ≡ r + u32_mod * w + a * (b + u32_mod * v) + carry
spread a b v r w carry = grind arith

mul_row-value :
    (b rs : List ℕ) (a carry : ℕ)
    → length b ≤ length rs
    → Lost (length rs) (value (mul_row a b rs carry)) (value rs + a * value b + carry)
unfolding mul_row value
mul_row-value [] rs a carry h =
    let (lost, e) = carry_up-value rs carry in (lost, e ∙ omega (arith, mul-zero a))
mul_row-value (b ∷ ys) [] a carry h = absurd (omega arith)
mul_row-value (b ∷ ys) (r ∷ rs) a carry h =
    let (lost, ih) = mul_row-value ys rs a ((a * b + r + carry) / u32_mod) (omega arith) in
    (
      lost,
      carried (a * b + r + carry) (length rs) _ lost (value rs + a * value ys) ih
          ∙ spread a b (value ys) r (value rs) carry,
    )

row_step :
    (n r v vr l1 l2 t a vx vb : ℕ)
    → r + u32_mod * vr + u32_mod ^ suc n * l1 ≡ t + a * vb + 0
    → v + u32_mod ^ n * l2 ≡ vr + vx * vb
    → r + u32_mod * v + u32_mod ^ suc n * (l1 + l2) ≡ t + (a + u32_mod * vx) * vb
row_step n r v vr l1 l2 t a vx vb e f =
    let top : u32_mod ^ suc n * (l1 + l2) ≡ u32_mod ^ suc n * l1 + u32_mod * (u32_mod ^ n * l2) =
      rw (pow-suc u32_mod n) (grind arith) in
    let spread : (a + u32_mod * vx) * vb ≡ a * vb + u32_mod * (vx * vb) = grind arith in
    omega (arith, top, spread, e, f)

-- A row's first word is done, and the other rows go on above it.
row_then_rows :
    (a : ℕ) (xs b rs row : List ℕ)
    → length row ≡ length rs
    → suc (length xs) + length b ≤ length rs
    → Lost (length rs) (value row) (value rs + a * value b + 0)
    → ((rest : List ℕ)
        → length xs + length b ≤ length rest
        → Lost (length rest) (value (mul_rows xs b rest)) (value rest + value xs * value b))
    → Lost
        (length rs)
        (value (elim row [ [] ↦ [] | r ∷ rest ↦ r ∷ mul_rows xs b rest ]))
        (value rs + value (a ∷ xs) * value b)
unfolding value
row_then_rows a xs b rs [] n h first others = absurd (omega arith)
row_then_rows a xs b rs (r ∷ rest) n h (l1, e) others =
    let (l2, f) = others rest (omega arith) in
    let e' : r + u32_mod * value rest + u32_mod ^ suc (length rest) * l1
        ≡ value rs + a * value b + 0 =
      rw n e in
    (
      l1 + l2,
      rw (← n) (
          row_step (length rest) r (value (mul_rows xs b rest)) (value rest) l1 l2 (value rs) a
            (value xs) (value b) e' f),
    )

mul_rows-value :
    (a b rs : List ℕ)
    → length a + length b ≤ length rs
    → Lost (length rs) (value (mul_rows a b rs)) (value rs + value a * value b)
unfolding mul_rows
mul_rows-value [] b rs h =
    unfold value in (0, omega (arith, mul-zero (u32_mod ^ length rs), zero-mul (value b)))
mul_rows-value (a ∷ xs) b rs h =
    row_then_rows a xs b rs (mul_row a b rs 0) (length-mul_row b rs a 0 (omega arith)) (omega arith)
      (mul_row-value b rs a 0 (omega arith)) (mul_rows-value xs b)

no_loss : (v p lost t : ℕ) → v + p * lost ≡ t → t < p → v ≡ t
no_loss v p zero t e h = omega (arith, mul-zero p, e)
no_loss v p (suc lost) t e h = absurd (omega (arith, mul-suc p lost, e))

pow_add : (p m n : ℕ) → p ^ (m + n) ≡ p ^ m * p ^ n
pow_add p zero n = rw (zero-add n, pow-zero p) (omega arith)
pow_add p (suc m) n = rw (suc-add m n, pow-suc p (m + n), pow-suc p m, pow_add p m n) (grind arith)

mul-lt : (x y p q : ℕ) → x < p → y < q → x * y < p * q
mul-lt x y p q h k =
    let low : x * y ≤ x * q = mul-le-mul_left x (omega arith) in
    let high : suc x * q ≤ p * q = mul-le-mul_right q h in omega (arith, low, high, suc-mul x q)

-- For operands of together at most 64 words of 32 bits, bigint_mul is multiplication.
pub value-bigint_mul :
    (a b : List ℕ)
    → All IsWord a
    → All IsWord b
    → length a + length b ≤ bi_max_words
    → value (bigint_mul a b) ≡ value a * value b
unfolding bigint_mul
value-bigint_mul a b ha hb h =
    let (lost, e) = mul_rows-value a b (replicate bi_max_words 0) h in
    let room : u32_mod ^ (length a + length b) ≤ u32_mod ^ bi_max_words =
      pow-le-pow_right (omega arith) {i = length a + length b} {j = bi_max_words} h in
    let product = mul-lt _ _ _ _ (value-lt a ha) (value-lt b hb) in
    let small : value a * value b < u32_mod ^ bi_max_words =
      omega (arith, room, product, pow_add u32_mod (length a) (length b)) in
    value-normalise (mul_rows a b (replicate bi_max_words 0))
    ∙ no_loss _ (u32_mod ^ bi_max_words) lost _ (e ∙ omega (arith, value-zeros bi_max_words)) small

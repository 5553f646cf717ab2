-- ===== src/Amm/Product.antt =====
-- The product of the reserves, which no swap lowers.
use mini_security_crypto_web.Prelude.{
  ℕ, ◌+◌, ◌-◌, ◌*◌, ◌/◌, ◌≤◌, ◌<◌, ◌≡◌, refl, Bool, true, false, arith, leb, Bool-cases, inl, inr,
  ◌==◌, ◌||◌, u64_mod, add64, sub64, mul64, if◌then◌else◌,
}
use native.Mathlib.Nat.{
  mul-le-mul, mul-le-mul_left, mul-le-mul_right, mod-eq_of_lt, div-add-mod, mul_comm, mul_assoc,
  mul-add, add-mul, le_of_mul-le-mul_left,
}
use mini_security_crypto_web.Amm.{AmmPool, fee_denom, get_amount_out, amm_swap}

-- With `g` of the fee denominator kept after the fee, the output of the quotient gives back no more
-- than the product allows: first for a reserve `q + r`.
quotient_bound :
    (a x g q r : ℕ) → g ≤ fee_denom → (x * fee_denom + a * g) * q ≤ a * g * (q + r) → x * q ≤ a * r
quotient_bound a x g q r h k =
    let e = add-mul (x * fee_denom) (a * g) q in
    let d = mul-add (a * g) q r in
    let s : a * g * r ≤ a * fee_denom * r = mul-le-mul_right r (mul-le-mul_left a h) in
    let m : x * fee_denom * q ≤ a * fee_denom * r = omega (arith, e, d, k, s) in
    let u : x * fee_denom * q ≡ fee_denom * (x * q) = move_out x fee_denom q in
    let v : a * fee_denom * r ≡ fee_denom * (a * r) = move_out a fee_denom r in
    le_of_mul-le-mul_left {k = fee_denom} (omega (arith, u, v, m)) (omega arith)
  where
    move_out : (p n s : ℕ) → p * n * s ≡ n * (p * s)
    move_out p n s = rw (mul_comm p n, mul_assoc n p s) refl

-- The quotient is at most the reserve that it is paid from.
quotient_fits : (a x g y q : ℕ) → 0 < x → (x * fee_denom + a * g) * q ≤ a * g * y → q ≤ y
quotient_fits a x g y q p k = elim (Bool-cases (leb q y)) [
  | inl t ↦ ground arith
  | inr t ↦
      let e = add-mul (x * fee_denom) (a * g) q in
      let w : y + 1 ≤ q = ground arith in
      let s : a * g * (y + 1) ≤ a * g * q = mul-le-mul_left (a * g) w in
      let z : 1 * 1 ≤ x * fee_denom * q =
        mul-le-mul {n₁ = 1} {m₁ = 1} (omega arith) (omega arith) in
      let d = mul-add (a * g) y 1 in omega (arith, e, s, d, z, k)
]

product_kept :
    (a x g y q : ℕ)
    → 0 < x
    → g ≤ fee_denom
    → (x * fee_denom + a * g) * q ≤ a * g * y
    → (q ≤ y) × (x * y ≤ (x + a) * (y - q))
product_kept a x g y q p h k =
    let f = quotient_fits a x g y q p k in
    let r = y - q in
    let s : q + r ≡ y = omega (arith, f) in
    let b : x * q ≤ a * r = quotient_bound a x g q r h (rw s k) in
    let e = mul-add x q r in
    let d = add-mul x a r in
    let j : x * (q + r) ≤ (x + a) * r = omega (arith, e, d, b) in (f, rw s at j)

-- Sizes at which no product of a swap wraps round.
pub record IsSmallSwap (a x y : ℕ) : Type 0 where
  pub out_fits : a * fee_denom * y < u64_mod
  pub in_fits : x * fee_denom + a * fee_denom < u64_mod
  pub reserve_fits : y < u64_mod

get_amount_out-bound :
    (a x y f : ℕ)
    → IsSmallSwap a x y
    → 0 < y
    → f ≤ fee_denom
    → (x * fee_denom + a * (fee_denom - f)) * get_amount_out a x y f ≤ a * (fee_denom - f) * y
unfolding get_amount_out
get_amount_out-bound a x y f v p h =
    let g = fee_denom - f in
    let le : g ≤ fee_denom = omega arith in
    let s : sub64 fee_denom f ≡ g = omega (arith, h) in
    let t : a * g ≤ a * fee_denom = mul-le-mul_left a le in
    let t' : a * g * y ≤ a * fee_denom * y = mul-le-mul_right y t in
    let w : mul64 a (sub64 fee_denom f) ≡ a * g =
      rw s (mod-eq_of_lt (omega (arith, t, v.in_fits))) in
    let n : mul64 (a * g) y ≡ a * g * y = mod-eq_of_lt (omega (arith, t', v.out_fits)) in
    let d : add64 (mul64 x fee_denom) (a * g) ≡ x * fee_denom + a * g =
      omega (arith, t, v.in_fits) in
    let q = a * g * y / (x * fee_denom + a * g) in
    let k : (x * fee_denom + a * g) * q ≤ a * g * y =
      omega (arith, div-add-mod (a * g * y) (x * fee_denom + a * g)) in
    let z : (x * fee_denom + a * g) * 0 ≤ a * g * y = omega arith in
    elim (Bool-cases ((a == 0) || (x == 0) || (y == 0))) [
      | inl e ↦ rw e z
      | inr e ↦ rw (e, w, n, d) k
    ]

-- While no product of the swap wraps round and the fee is at most the denominator, `amm_swap` pays
-- out no more than the reserve, and does not lower the product of the two reserves.
pub amm_swap-product :
    (pool : AmmPool) (amount_in : ℕ) (zero_for_one : Bool)
    → pool.fee_bps ≤ fee_denom
    → 0 < pool.reserve0
    → 0 < pool.reserve1
    → IsSmallSwap amount_in pool.reserve0 pool.reserve1
    → IsSmallSwap amount_in pool.reserve1 pool.reserve0
    → let (result, pool') = amm_swap pool amount_in zero_for_one in
      (pool.reserve0 * pool.reserve1 ≤ pool'.reserve0 * pool'.reserve1)
      × (result.output_amount ≤ (if zero_for_one then pool.reserve1 else pool.reserve0))
unfolding amm_swap
amm_swap-product pool a true h p q v w =
    let x = pool.reserve0 in
    let y = pool.reserve1 in
    let out = get_amount_out a x y pool.fee_bps in
    let b = get_amount_out-bound a x y pool.fee_bps v q h in
    let (f, k) = product_kept a x (fee_denom - pool.fee_bps) y out p (omega arith) b in
    let fits = v.in_fits in
    let small = v.reserve_fits in
    elim (Bool-cases (out == 0)) [
      | inl e ↦ ground (arith, e)
      | inr e ↦
          let r : (amm_swap pool a true).1.reserve0 ≡ x + a = ground (arith, e, fits) in
          let s : (amm_swap pool a true).1.reserve1 ≡ y - out = ground (arith, e, f, small) in
          (rw (r, s) k, ground (arith, e, f))
    ]
amm_swap-product pool a false h p q v w =
    let x = pool.reserve1 in
    let y = pool.reserve0 in
    let out = get_amount_out a x y pool.fee_bps in
    let b = get_amount_out-bound a x y pool.fee_bps w p h in
    let (f, k) = product_kept a x (fee_denom - pool.fee_bps) y out q (omega arith) b in
    let fits = w.in_fits in
    let small = w.reserve_fits in
    elim (Bool-cases (out == 0)) [
      | inl e ↦ ground (arith, e)
      | inr e ↦
          let r : (amm_swap pool a false).1.reserve1 ≡ x + a = ground (arith, e, fits) in
          let s : (amm_swap pool a false).1.reserve0 ≡ y - out = ground (arith, e, f, small) in
          (
            rw
                (
                  r,
                  s,
                  mul_comm pool.reserve0 pool.reserve1,
                  mul_comm (pool.reserve0 - out) (pool.reserve1 + a),
                )
                k,
            ground (arith, e, f),
          )
    ]

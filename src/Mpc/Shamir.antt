-- ===== src/Mpc/Shamir.antt =====
-- Shamir's sharing, mini-privacy-compute/src/secure_mpc_comp.c: the polynomials, the shares and their
-- interpolation, where allocations succeed.
use mini_security_crypto_web.Prelude.{
  ℕ, zero, suc, ◌+◌, ◌-◌, ◌*◌, ◌%◌, ◌≤◌, ◌<◌, ◌≡◌, refl, sym, ap, ◌∙◌, arith, u32_mod, add64, sub64,
  mul64, ltb, ◌==◌, if◌then◌else◌, get_or, Option, none, some, List, [], ◌∷◌, map, length, All,
}
use mini_security_crypto_web.Prelude.Congruence.{mod_drop, add_congruent, mul_congruent}
use mini_security_crypto_web.Mpc.Arithmetic.{mul64_small, mpc_mod_inv}
use mini_security_crypto_web.Mpc.Sharing.{next_seed}
use native.Mathlib.Nat.{mod-lt, mod-eq_of_lt, mul-le-mul, mul_comm, mul_assoc, mul-add}

-- `x_coords` are the coordinates of the parties, `num_parties` of them.
pub record ShamirSs : Type 0 where
  pub threshold : ℕ
  pub prime : ℕ
  pub x_coords : List ℕ

-- The coordinates from i + 1 on.
unfoldable pub coordinates : ℕ → ℕ → List ℕ
coordinates i zero = []
coordinates i (suc n) = (i + 1) ∷ coordinates (i + 1) n

unfoldable pub shamir_ss_init : ℕ → ℕ → ℕ → ShamirSs
unfolding coordinates
shamir_ss_init threshold num_parties prime = record {
  threshold = threshold;
  prime = prime;
  x_coords = coordinates 0 num_parties;
}

-- The loop of `mpc_poly_eval`, over the coefficients that are left.
unfoldable pub poly_loop : ℕ → ℕ → ℕ → ℕ → List ℕ → ℕ
poly_loop modulus x result x_pow [] = result
poly_loop modulus x result x_pow (c ∷ coeffs) =
    poly_loop modulus x (add64 result (mul64 (c % modulus) (x_pow % modulus)) % modulus)
      (mul64 x_pow (x % modulus) % modulus) coeffs

-- `coeffs` are the degree + 1 coefficients that are read.
unfoldable pub mpc_poly_eval : List ℕ → ℕ → ℕ → ℕ
unfolding poly_loop
mpc_poly_eval coeffs x modulus = poly_loop modulus x 0 1 coeffs

-- The loop that draws the coefficients behind the secret, and the seed behind it.
unfoldable pub draw_coeffs : ℕ → ℕ → ℕ → List ℕ × ℕ
draw_coeffs zero prime seed = ([], seed)
draw_coeffs (suc n) prime seed =
    let seed = next_seed seed in
    let rest = draw_coeffs n prime seed in (seed % prime ∷ rest.0, rest.1)

-- The shares and the new seed, for a threshold of 1 or more.
unfoldable pub shamir_ss_share : ShamirSs → ℕ → ℕ → List ℕ × ℕ
unfolding draw_coeffs mpc_poly_eval
shamir_ss_share sss secret seed =
    let drawn = draw_coeffs (sss.threshold - 1) sss.prime seed in
    let coeffs = secret % sss.prime ∷ drawn.0 in
    (map (λ x. mpc_poly_eval coeffs x sss.prime) sss.x_coords, drawn.1)

-- The inner loop of `mpc_lagrange_interp`, from the index j on: numerator and denominator of the point
-- x_i with the index i.
unfoldable pub basis_loop : ℕ → ℕ → ℕ → ℕ → ℕ → ℕ × ℕ → List ℕ → ℕ × ℕ
basis_loop modulus x x_i i j parts [] = parts
basis_loop modulus x x_i i j parts (x_j ∷ xi) =
    let num = mul64 parts.0 (sub64 (add64 x modulus) x_j % modulus) % modulus in
    let den = mul64 parts.1 (sub64 (add64 x_i modulus) x_j % modulus) % modulus in
    basis_loop modulus x x_i i (j + 1) (if i == j then parts else (num, den)) xi

-- The outer loop, over the points that are left; `xi` are all coordinates.
unfoldable pub interp_loop : ℕ → ℕ → List ℕ → ℕ → ℕ → List ℕ → List ℕ → ℕ
unfolding basis_loop
interp_loop modulus x xi i result [] ys = result
interp_loop modulus x xi i result (x_i ∷ xs) [] = result
interp_loop modulus x xi i result (x_i ∷ xs) (y_i ∷ ys) =
    let parts = basis_loop modulus x x_i i 0 (1, 1) xi in
    let denom_inv = mpc_mod_inv parts.1 modulus in
    let term = mul64 (mul64 (y_i % modulus) parts.0 % modulus) denom_inv % modulus in
    interp_loop modulus x xi (i + 1) (add64 result term % modulus) xs ys

unfoldable pub mpc_lagrange_interp : List ℕ → List ℕ → ℕ → ℕ → ℕ
unfolding interp_loop
mpc_lagrange_interp xi yi x modulus = interp_loop modulus x xi 0 0 xi yi

-- What is written to `secret_out`, if anything is, for indices of parties.
unfoldable pub shamir_ss_reconstruct : ShamirSs → List ℕ → List ℕ → Option ℕ
unfolding mpc_lagrange_interp
shamir_ss_reconstruct sss xi_indices shares =
    if ltb (length xi_indices) sss.threshold
    then none
    else some
        (mpc_lagrange_interp (map (λ i. get_or sss.x_coords i 0) xi_indices) shares 0 sss.prime)

-- The value of a polynomial, the constant term first.
unfoldable pub poly_value : List ℕ → ℕ → ℕ
poly_value [] x = 0
poly_value (c ∷ coeffs) x = c + x * poly_value coeffs x

module _ (m : ℕ) (pos : 0 < m) (small : m ≤ u32_mod) where
  add64_product : (r a b : ℕ) → r < m → a < m → b < m → add64 r (a * b) ≡ r + a * b
  add64_product r a b h k l =
      let s : a * b ≤ 4294967295 * 4294967295 =
        mul-le-mul {n₂ = 4294967295} {m₂ = 4294967295} (omega arith) (omega arith) in
      mod-eq_of_lt (omega arith)

  poly_loop-value :
      (x result x_pow : ℕ) (coeffs : List ℕ)
      → result < m
      → x_pow < m
      → poly_loop m x result x_pow coeffs ≡ (result + x_pow * poly_value coeffs x) % m
  unfolding poly_loop poly_value
  poly_loop-value x result x_pow [] h k =
      let e : result + x_pow * 0 ≡ result = omega arith in sym (ap (λ z. z % m) e ∙ mod-eq_of_lt h)
  poly_loop-value x result x_pow (c ∷ coeffs) h k =
      let v = poly_value coeffs x in
      let cb = mod-lt c pos in
      let xb = mod-lt x pos in
      let r' = result + c % m * x_pow in
      let p' = x_pow * (x % m) in
      let e : result + c * x_pow + x_pow * x * v ≡ result + x_pow * (c + x * v) =
        omega (arith, mul-add x_pow c (x * v), mul_comm c x_pow, mul_assoc x_pow x v) in
      rw
        (
          mod-eq_of_lt k,
          mul64_small (c % m) x_pow m cb k small,
          add64_product result (c % m) x_pow h cb k,
          mul64_small x_pow (x % m) m k xb small,
        )
        (poly_loop-value x (r' % m) (p' % m) coeffs (mod-lt r' pos) (mod-lt p' pos)
          ∙ add_congruent m (r' % m) (result + c * x_pow) (p' % m * v) (x_pow * x * v)
              (mod_drop m r'
                ∙ add_congruent m result result _ _ refl
                    (mul_congruent m (c % m) c x_pow x_pow (mod_drop m c) refl))
              (mul_congruent m (p' % m) (x_pow * x) v v
                (mod_drop m p' ∙ mul_congruent m x_pow x_pow (x % m) x refl (mod_drop m x)) refl)
          ∙ ap (λ z. z % m) e)

-- For a 32-bit modulus above 1, `mpc_poly_eval` is the value of the polynomial modulo it.
pub mpc_poly_eval-value :
    (coeffs : List ℕ) (x modulus : ℕ)
    → 1 < modulus
    → modulus ≤ u32_mod
    → mpc_poly_eval coeffs x modulus ≡ poly_value coeffs x % modulus
unfolding mpc_poly_eval
mpc_poly_eval-value coeffs x modulus pos small =
    let e : 0 + 1 * poly_value coeffs x ≡ poly_value coeffs x = omega arith in
    poly_loop-value modulus (omega arith) small x 0 1 coeffs (omega arith) pos
    ∙ ap (λ z. z % modulus) e

map-values :
    (coeffs xs : List ℕ) (modulus : ℕ)
    → 1 < modulus
    → modulus ≤ u32_mod
    → map (λ x. mpc_poly_eval coeffs x modulus) xs ≡ map (λ x. poly_value coeffs x % modulus) xs
map-values coeffs [] modulus h k = refl
map-values coeffs (x ∷ xs) modulus h k =
    rw (mpc_poly_eval-value coeffs x modulus h k, map-values coeffs xs modulus h k) refl

draw_coeffs-bound :
    (n prime seed : ℕ)
    → 0 < prime
    → (length (draw_coeffs n prime seed).0 ≡ n) × All (λ c. c < prime) (draw_coeffs n prime seed).0
unfolding draw_coeffs
draw_coeffs-bound zero prime seed h = (refl, tt)
draw_coeffs-bound (suc n) prime seed h =
    let rest = draw_coeffs-bound n prime (next_seed seed) h in
    (ap suc rest.0, (mod-lt (next_seed seed) h, rest.1))

-- The shares are the values, at the parties' coordinates and modulo a 32-bit prime, of one polynomial of as
-- many coefficients as the threshold, all residues, whose value at 0 is the secret.
pub shamir_ss_share-values :
    (sss : ShamirSs) (secret seed : ℕ)
    → 1 < sss.prime
    → sss.prime ≤ u32_mod
    → 0 < sss.threshold
    → (coeffs : List ℕ) × (length coeffs ≡ sss.threshold)
      × All (λ c. c < sss.prime) coeffs
      × (poly_value coeffs 0 ≡ secret % sss.prime)
      × ((shamir_ss_share sss secret seed).0
          ≡ map (λ x. poly_value coeffs x % sss.prime) sss.x_coords)
unfolding shamir_ss_share poly_value
shamir_ss_share-values sss secret seed one small t =
    let drawn = draw_coeffs (sss.threshold - 1) sss.prime seed in
    let b = draw_coeffs-bound (sss.threshold - 1) sss.prime seed (omega arith) in
    (
      secret % sss.prime ∷ drawn.0,
      omega (arith, b.0),
      (mod-lt secret (omega arith), b.1),
      omega arith,
      map-values (secret % sss.prime ∷ drawn.0) sss.x_coords sss.prime one small,
    )

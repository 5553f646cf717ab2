-- ===== src/Mpc/Arithmetic/Inverse.antt =====
-- The extended Euclidean loop of `mpc_mod_inv`, mini-privacy-compute/src/secure_mpc_comp.c.
use mini_security_crypto_web.Prelude.{
  ℕ, zero, suc, ◌+◌, ◌-◌, ◌*◌, ◌/◌, ◌%◌, ◌^◌, ◌≤◌, ◌<◌, ◌≡◌, ◌⊎◌, refl, sym, ap, ◌∙◌, arith,
  u64_mod, add64, sub64, mul64, if◌then◌else◌, Bool, true, false, ltb, leb, inl, inr, Bool-cases,
}
use mini_security_crypto_web.Prelude.Congruence.{
  Congruent, mod_drop, add_congruent, mul_congruent, cancel_congruent,
}
use mini_security_crypto_web.Mpc.Arithmetic.{mod_inv_loop, mpc_mod_inv}
use Prim.Native.Nat.{◌∣◌}
use native.Mathlib.Nat.{
  mod-eq_of_lt, mod-lt, div-add-mod', div-mul-le_self, mul_comm, mul-add, add-mul, le_of_lt,
  one-mul, dvd-mod_iff, eq-one_of_dvd-one, mul-mod_right, mul_assoc, mul-zero, zero-mul, zero-add,
  mod_self, zero-mod, dvd_refl, dvd-zero, dvd-add, dvd-mul_left_of_dvd, mul-le-mul_left,
}

-- The two's complement of -y.
abbrev pub negated : ℕ → ℕ
negated y = (u64_mod - y) % u64_mod

-- `value s x` is x, and -x where the sign s is false.
abbrev pub value : Bool → ℕ → ℕ
value true x = x
value false x = negated x

-- A signed coefficient x of a, up to a multiple of m, is r: x a = r or x a + r = 0 modulo m.
abbrev pub Gives : ℕ → ℕ → Bool → ℕ → ℕ → Type 0
Gives m a true x r = Congruent m (x * a) r
Gives m a false x r = Congruent m (x * a + r) 0

abbrev flip : Bool → Bool
flip true = false
flip false = true

flip-flip : (s : Bool) → flip (flip s) ≡ s
flip-flip true = refl
flip-flip false = refl

-- The state of the loop: the coefficients alternate in sign, their magnitudes x and y stay within the
-- modulus, and each gives its remainder.
abbrev IsEuclid : ℕ → ℕ → Bool → ℕ → ℕ → ℕ → ℕ → Type 0
IsEuclid m a s x y r n =
    (x * n + y * r ≡ m) × (x ≤ m) × (0 < r) × Gives m a s x r × Gives m a (flip s) y n

negated-zero : (q y : ℕ) → y ≤ u64_mod → (mul64 q (negated y) + q * y) % u64_mod ≡ 0
negated-zero q y h =
    let z : Congruent u64_mod (negated y + y) 0 = omega arith in
    add_congruent u64_mod (mul64 q (negated y)) (q * negated y) (q * y) (q * y)
      (mod_drop u64_mod (q * negated y)) refl
    ∙ rw (sym (mul-add q (negated y) y))
        (mul_congruent u64_mod q q (negated y + y) 0 refl z ∙ rw (mul-zero q) refl)

module _ (m a : ℕ) where
  -- What the loop ends in: a coefficient that gives the last remainder, which divides both.
  abbrev IsFound : ℕ × ℕ → Type 0
  IsFound found = (s : Bool) × (x : ℕ) × (x ≤ m) × (found.0 ≡ value s x) × Gives m a s x found.1

  abbrev IsEnd : ℕ → ℕ → ℕ × ℕ → Type 0
  IsEnd r n found = (found.1 ∣ r) × (found.1 ∣ n) × (0 < found.1) × IsFound found

-- The remainder of a turn is below its divisor, and their common divisors divide r.
remainder-lt : (r n : ℕ) → 0 < n → r - r / n * n < n
remainder-lt r n p = let d = div-add-mod' r n in let l = mod-lt r p in omega (arith, d, l)

divides_up : (r n g : ℕ) → r / n * n ≤ r → g ∣ n → g ∣ (r - r / n * n) → g ∣ r
divides_up r n g w h k =
    let e : r / n * n + (r - r / n * n) ≡ r = omega arith in
    rw e at (dvd-add g (dvd-mul_left_of_dvd g h (r / n)) k)

module _ (m a : ℕ) (pos : 0 < m) (small : m < 2 ^ 63) where
  -- The step on the coefficients, as numbers in two's complement.
  step-value :
      (s : Bool) (x y q : ℕ)
      → y ≤ m
      → x + q * y ≤ m
      → sub64 (value s x) (mul64 q (value (flip s) y)) ≡ value s (x + q * y)
  step-value true x y q l h = omega (arith, negated-zero q y (omega arith))
  step-value false x y q l h = omega arith

  step-Gives :
      (s : Bool) (x y q r n : ℕ)
      → q * n ≤ r
      → Gives m a s x r
      → Gives m a (flip s) y n
      → Gives m a s (x + q * y) (r - q * n)
  step-Gives true x y q r n l h k =
      let d = add-mul x (q * y) a in
      let e = mul-add q (y * a) n in
      let f = mul_assoc q y a in
      let s : (x + q * y) * a + q * n ≡ x * a + q * (y * a + n) = omega (arith, d, e, f) in
      let t : r + 0 ≡ r - q * n + q * n = omega arith in
      cancel_congruent m ((x + q * y) * a) (r - q * n) (q * n) pos (
        rw (s, sym t)
          (add_congruent m (x * a) r (q * (y * a + n)) 0 h
            (mul_congruent m q q (y * a + n) 0 refl k ∙ rw (mul-zero q) refl)))
  step-Gives false x y q r n l h k =
      let d = add-mul x (q * y) a in
      let f = mul_assoc q y a in
      let s : (x + q * y) * a + (r - q * n) ≡ q * (y * a) + (x * a + r - q * n) =
        omega (arith, d, f) in
      let t : q * n + (x * a + r - q * n) ≡ x * a + r = omega arith in
      rw s (
        add_congruent m (q * (y * a)) (q * n) _ (x * a + r - q * n)
          (mul_congruent m q q (y * a) n refl k) refl
        ∙ rw t h)

  -- One turn of the loop.
  turn-IsEuclid :
      (s : Bool) (x y r n : ℕ)
      → 0 < n
      → IsEuclid m a s x y r n
      → IsEuclid m a (flip s) y (x + r / n * y) n (r - r / n * n)
  turn-IsEuclid s x y r n p e =
      let q = r / n in
      let w : q * n ≤ r = div-mul-le_self r n in
      let k : r ≡ r - q * n + q * n = omega arith in
      let u : y * r ≡ y * (r - q * n) + y * (q * n) =
        ap (λ z. y * z) k ∙ mul-add y (r - q * n) (q * n) in
      let v = add-mul x (q * y) n in
      let f : q * y * n ≡ y * (q * n) = rw (mul_comm q y, mul_assoc y q n) refl in
      let b : y * 1 ≤ y * r = mul-le-mul_left y e.2 in
      (
        omega (arith, u, v, f, e.0),
        omega (arith, b, e.0),
        p,
        e.4,
        rw (flip-flip s) (step-Gives s x y q r n w e.3 e.4),
      )

  loop-IsEnd :
      (fuel : ℕ) (s : Bool) (x y r n : ℕ)
      → n ≤ fuel
      → IsEuclid m a s x y r n
      → IsEnd m a r n (mod_inv_loop fuel (value s x) (value (flip s) y) r n)
  unfolding mod_inv_loop
  loop-IsEnd fuel s x y r zero h e = (dvd_refl r, dvd-zero r, e.2, (s, x, e.1, refl, e.3))
  loop-IsEnd zero s x y r (suc n) h e = absurd (omega arith)
  loop-IsEnd (suc fuel) s x y r (suc n) h e =
      let q = r / suc n in
      let w : q * suc n ≤ r = div-mul-le_self r (suc n) in
      let l : r - q * suc n < suc n = remainder-lt r (suc n) (omega arith) in
      let t = turn-IsEuclid s x y r (suc n) (omega arith) e in
      let b : (x + q * y) * 1 ≤ (x + q * y) * suc n = mul-le-mul_left (x + q * y) (omega arith) in
      let v = step-value s x y q t.1 (omega (arith, b, t.0)) in
      let ih = loop-IsEnd fuel (flip s) y (x + q * y) (suc n) (r - q * suc n) (omega arith) t in
      go_on (sub64 (value s x) (mul64 q (value (flip s) y))) v (rw (flip-flip s) at ih)
    where
      rest : ℕ
      rest = r - r / suc n * suc n

      go_on :
          (z : ℕ)
          → z ≡ value s (x + r / suc n * y)
          → IsEnd m a
              (suc n)
              rest
              (mod_inv_loop fuel (value (flip s) y) (value s (x + r / suc n * y)) (suc n) rest)
          → IsEnd m a r (suc n) (mod_inv_loop fuel (value (flip s) y) z (suc n) rest)
      go_on z v ih =
          rw v (divides_up r (suc n) _ (div-mul-le_self r (suc n)) ih.0 ih.1, ih.0, ih.2, ih.3)

-- The coefficient of a remainder of 1, brought into the residues.
coefficient-inverts :
    (m a t : ℕ)
    → 1 < m
    → m < 2 ^ 63
    → IsFound m a (t, 1)
    → ((if leb (2 ^ 63) t then add64 t m else t) * a % m ≡ 1)
      × ((if leb (2 ^ 63) t then add64 t m else t) < m)
coefficient-inverts m a t one small (true, x, h, e, k) =
    let o : leb (2 ^ 63) t ≡ false = rw e (ground arith) in
    let v : x * a % m ≡ 1 = k ∙ mod-eq_of_lt one in rw (o, e) (v, proper v (Bool-cases (ltb x m)))
  where
    proper : x * a % m ≡ 1 → (ltb x m ≡ true) ⊎ (ltb x m ≡ false) → x < m
    proper v (inl t) = ground arith
    proper v (inr f) =
        let q : x ≡ m = ground arith in
        absurd (omega (arith, sym (mul-mod_right m a) ∙ (rw q at v)))
coefficient-inverts m a t one small (false, x, h, e, k) =
    let o : leb (2 ^ 63) t ≡ true = rw e (ground (arith, p)) in
    let r : add64 (negated x) m ≡ m - x = omega (arith, p) in
    rw (o, e, r)
      (
        cancel_congruent m ((m - x) * a) 1 (x * a) (omega arith) (whole ∙ sym k')
            ∙ mod-eq_of_lt one,
        omega (arith, p),
      )
  where
    proper : (ltb 0 x ≡ true) ⊎ (ltb 0 x ≡ false) → 0 < x
    proper (inl t) = ground arith
    proper (inr f) =
        let q : x ≡ 0 = ground arith in
        let z : (0 * a + 1) % m ≡ 0 % m = rw q at k in
        absurd (
          omega (
            arith,
            rw (zero-mul a, mod-eq_of_lt one) at z,
            mod-eq_of_lt {n = 0} {m = m} (omega arith),
          ))

    p : 0 < x
    p = proper (Bool-cases (ltb 0 x))

    k' : Congruent m (1 + x * a) 0
    k' = let c : x * a + 1 ≡ 1 + x * a = omega arith in rw c at k

    whole : Congruent m ((m - x) * a + x * a) 0
    whole =
        let c : m - x + x ≡ m = omega arith in
        rw (sym (add-mul (m - x) x a), c, mul-mod_right m a)
          (sym (mod-eq_of_lt {n = 0} {m = m} (omega arith)))

-- For a modulus from 2 on and below 2^63, `mpc_mod_inv` returns a residue that is an inverse of a, where
-- a has an inverse b.
pub mpc_mod_inv-inverts :
    (a b modulus : ℕ)
    → 1 < modulus
    → modulus < 2 ^ 63
    → b * a % modulus ≡ 1
    → (mpc_mod_inv a modulus * a % modulus ≡ 1) × (mpc_mod_inv a modulus < modulus)
unfolding mpc_mod_inv
mpc_mod_inv-inverts a b modulus one small h =
    let end =
      loop-IsEnd modulus a (omega arith) small modulus false 0 1 modulus (a % modulus)
        (le_of_lt (mod-lt a (omega arith))) start in
    let found : ℕ × ℕ = mod_inv_loop modulus 0 1 modulus (a % modulus) in
    let g : found.1 ≡ 1 = divides found.1 end.0 end.1 in
    let o : ltb 1 found.1 ≡ false = ground (arith, g) in
    rw o (coefficient-inverts modulus a found.0 one small (rw g at end.3))
  where
    start : IsEuclid modulus a false 0 1 modulus (a % modulus)
    start = (
      omega (arith, one-mul modulus, zero-mul (a % modulus)),
      omega arith,
      omega arith,
      rw (zero-mul a, zero-add modulus, mod_self modulus) (sym (zero-mod modulus)),
      rw (one-mul a) (sym (mod_drop modulus a)),
    )

    divides : (g : ℕ) → g ∣ modulus → g ∣ (a % modulus) → g ≡ 1
    divides g k l =
        let d : g ∣ a = (dvd-mod_iff g k).0 l in
        let e : g ∣ (b * a % modulus) = (dvd-mod_iff g k).1 (dvd-mul_left_of_dvd g d b) in
        eq-one_of_dvd-one (rw h at e)

-- ===== src/Mpc/Beaver/Product.antt =====
-- The shares that `bt_multiply` of mini-privacy-compute/src/secure_mpc_comp.c computes.
use mini_security_crypto_web.Prelude.{
  ℕ, zero, suc, ◌+◌, ◌-◌, ◌*◌, ◌%◌, ◌≤◌, ◌<◌, ◌≡◌, refl, sym, ap, ◌∙◌, arith, u32_mod, add64, sub64,
  ◌==◌, true, false, List, [], ◌∷◌, some, length, All,
}
use mini_security_crypto_web.Prelude.Congruence.{Congruent, mod_drop, add_congruent, mul_congruent}
use mini_security_crypto_web.Mpc.Arithmetic.{mpc_mod_inv, mul64_small}
use mini_security_crypto_web.Mpc.Arithmetic.Inverse.{mpc_mod_inv-inverts}
use mini_security_crypto_web.Mpc.Sharing.{SecretSharing, sum_shares, ss_reconstruct}
use mini_security_crypto_web.Mpc.Sharing.Linear.{
  total, IsSharing, take_all, sum_shares-total, ss_reconstruct-total,
}
use mini_security_crypto_web.Mpc.Beaver.{BeaverTriple, masked, product_shares, bt_multiply}
use native.Mathlib.Nat.{
  mod-lt, zero-mul, zero-add, zero-mod, mul_comm, mul_assoc, add-mul, mul-add, add-mod_right,
  mod-eq_of_lt, suc-mul, mul-one,
}

module _ (p : ℕ) (pos : 0 < p) (small : p ≤ u32_mod) where
  masked-total :
      (a : ℕ) (xs : List ℕ)
      → a < p
      → All (λ x. x < p) xs
      → All (λ x. x < p) (masked p a xs)
        × Congruent p (total (masked p a xs) + length xs * a) (total xs)
  unfolding masked
  masked-total a [] h k =
      let e : 0 + 0 * a ≡ 0 = omega (arith, zero-mul a) in (tt, ap (λ z. z % p) e)
  masked-total a (x ∷ xs) h k =
      let ih = masked-total a xs h k.1 in
      let e : sub64 (add64 x p) a ≡ x + p - a = omega (arith, k.0) in
      let m = total (masked p a xs) in
      let one : Congruent p ((x + p - a) % p + a) x =
        add_congruent p _ _ a a (mod_drop p (x + p - a)) refl
        ∙ ap (λ z. z % p) (back x a (omega arith))
        ∙ add-mod_right x p in
      let s : (x + p - a) % p + m + suc (length xs) * a
          ≡ (x + p - a) % p + a + (m + length xs * a) =
        omega (arith, suc-mul (length xs) a) in
      rw e ((mod-lt (x + p - a) pos, ih.0), ap (λ z. z % p) s ∙ add_congruent p _ _ _ _ one ih.1)
    where
      back : (x a : ℕ) → a ≤ p → x + p - a + a ≡ x + p
      back x a h = omega arith

  product_shares-total :
      (term both i n : ℕ)
      → term < p
      → (length (product_shares p term both (suc i) n) ≡ n)
        × All (λ x. x < p) (product_shares p term both (suc i) n)
        × (total (product_shares p term both (suc i) n) ≡ n * term)
  unfolding product_shares
  product_shares-total term both i zero h = (refl, tt, sym (zero-mul term))
  product_shares-total term both i (suc n) h =
      let ih = product_shares-total term both (suc i) n h in
      let o : (suc i == 0) ≡ false = ground arith in
      rw o (ap suc ih.0, (h, ih.1), omega (arith, ih.2, suc-mul n term))

  -- The first party adds the product of the opened numbers.
  products-total :
      (term both n : ℕ)
      → term < p
      → both < p
      → 0 < n
      → (length (product_shares p term both 0 n) ≡ n)
        × All (λ x. x < p) (product_shares p term both 0 n)
        × Congruent p (total (product_shares p term both 0 n)) (n * term + both)
  unfolding product_shares
  products-total term both zero h k l = absurd (omega arith)
  products-total term both (suc n) h k l =
      let rest = product_shares-total term both 0 n h in
      let e : add64 term both ≡ term + both = mod-eq_of_lt (omega arith) in
      let s : term + both + n * term ≡ suc n * term + both = omega (arith, suc-mul n term) in
      rw (e, rest.2)
        (
          ap suc rest.0,
          (mod-lt (term + both) pos, rest.1),
          add_congruent p _ _ _ _ (mod_drop p (term + both)) refl ∙ ap (λ z. z % p) s,
        )

  module _ (n inv : ℕ) (inverse : inv * n % p ≡ 1 % p) where
    -- n shares of z, each z times the inverse of n, make z.
    split_whole : (z : ℕ) → Congruent p (n * (z * inv % p)) z
    split_whole z =
        let e : n * (z * inv) ≡ z * (inv * n) = rw (mul_comm n (z * inv), mul_assoc z inv n) refl in
        mul_congruent p n n _ _ refl (mod_drop p (z * inv))
        ∙ ap (λ w. w % p) e
        ∙ mul_congruent p z z _ 1 refl inverse
        ∙ ap (λ w. w % p) (mul-one z)

    split_product : (d b : ℕ) → Congruent p (n * (d * (b * inv % p) % p)) (d * b)
    split_product d b =
        let w = b * inv % p in
        let e : n * (d * w) ≡ d * (n * w) =
          rw (sym (mul_assoc n d w), mul_comm n d, mul_assoc d n w) refl in
        mul_congruent p n n _ _ refl (mod_drop p (d * w))
        ∙ ap (λ z. z % p) e
        ∙ mul_congruent p d d _ b refl (split_whole b)

    -- What all parties' terms make.
    terms-total :
        (a b c d e : ℕ)
        → Congruent p
            (n * ((c * inv % p + d * (b * inv % p) % p + e * (a * inv % p) % p) % p))
            (c + d * b + e * a)
    terms-total a b c d e =
        let u = c * inv % p in
        let v = d * (b * inv % p) % p in
        let w = e * (a * inv % p) % p in
        let s : n * (u + v + w) ≡ n * u + n * v + n * w =
          omega (arith, mul-add n (u + v) w, mul-add n u v) in
        mul_congruent p n n _ _ refl (mod_drop p (u + v + w))
        ∙ ap (λ z. z % p) s
        ∙ add_congruent p _ _ _ _ (add_congruent p _ _ _ _ (split_whole c) (split_product d b))
            (split_product e a)

    -- The opened difference and the masked number make the shared one.
    opened :
        (a : ℕ) (xs : List ℕ)
        → length xs ≡ n
        → All (λ x. x < p) xs
        → (sum_shares p 0 (masked p (a * inv % p) xs) < p)
          × Congruent p (sum_shares p 0 (masked p (a * inv % p) xs) + a) (total xs)
    opened a xs h k =
        let w = a * inv % p in
        let m = masked-total w xs (mod-lt (a * inv) pos) k in
        let t = total (masked p w xs) in
        let d : sum_shares p 0 (masked p w xs) ≡ t % p =
          sum_shares-total p pos (omega arith) 0 (masked p w xs) pos m.0
          ∙ ap (λ z. z % p) (zero-add t) in
        let l : length xs * w ≡ n * w = ap (λ z. z * w) h in
        rw d (
          mod-lt t pos,
          add_congruent p (t % p) t a (n * w) (mod_drop p t) (sym (split_whole a)) ∙ rw l at m.1,
        )

-- (d + a) (e + b) multiplied out.
beaver_identity : (a b d e : ℕ) → a * b + d * b + e * a + d * e ≡ (d + a) * (e + b)
beaver_identity a b d e =
    omega (arith, add-mul d a (e + b), mul-add d e b, mul-add a e b, mul_comm e a)

-- The terms added without the wrap-around.
terms_small :
    (p c u v : ℕ) → 0 < p → p ≤ u32_mod → c < p → u < p → v < p → add64 (add64 c u) v ≡ c + u + v
terms_small p c u v pos small h k l = omega arith

-- What `bt_multiply` computes from residues, without the wrap-around.
module _ (ss : SecretSharing) (a b c inv : ℕ) (xs ys : List ℕ) where
  abbrev d_open : ℕ
  d_open = sum_shares ss.prime 0 (masked ss.prime (a * inv % ss.prime) xs)

  abbrev e_open : ℕ
  e_open = sum_shares ss.prime 0 (masked ss.prime (b * inv % ss.prime) ys)

  abbrev plain_term : ℕ
  plain_term =
      (c * inv % ss.prime
        + d_open * (b * inv % ss.prime) % ss.prime
        + e_open * (a * inv % ss.prime) % ss.prime)
      % ss.prime

  plain_product : List ℕ
  unfolding product_shares
  plain_product = product_shares ss.prime plain_term (d_open * e_open % ss.prime) 0 ss.num_parties

  plain_product-opens :
      1 < ss.prime
      → ss.prime ≤ u32_mod
      → 2 ≤ ss.num_parties
      → inv * ss.num_parties % ss.prime ≡ 1
      → c ≡ a * b % ss.prime
      → IsSharing ss xs
      → IsSharing ss ys
      → (d_open < ss.prime)
        × (e_open < ss.prime)
        × (ss_reconstruct ss plain_product ≡ some (total xs * total ys % ss.prime))
  unfolding plain_product
  plain_product-opens one small two h hc hx hy =
      let p = ss.prime in
      let n = ss.num_parties in
      let pos : 0 < ss.prime = omega arith in
      let h' : inv * ss.num_parties % ss.prime ≡ 1 % ss.prime = h ∙ sym (mod-eq_of_lt one) in
      let d = opened p pos small n inv h' a xs hx.0 hx.1 in
      let e = opened p pos small n inv h' b ys hy.0 hy.1 in
      let t =
        products-total p pos small plain_term (d_open * e_open % p) n (mod-lt _ pos) (mod-lt _ pos)
          (omega arith) in
      let k : Congruent ss.prime c (a * b) = rw hc (mod_drop p (a * b)) in
      (
        d.0,
        e.0,
        ss_reconstruct-total ss plain_product pos (omega arith) two (t.0, t.1)
            ∙ ap some (
                t.2
                ∙ add_congruent p _ _ _ _
                    (terms-total p pos small n inv h' a b c d_open e_open
                      ∙ add_congruent p _ _ (e_open * a) (e_open * a)
                          (add_congruent p _ _ (d_open * b) (d_open * b) k refl) refl)
                    (mod_drop p (d_open * e_open))
                ∙ ap (λ z. z % p) (beaver_identity a b d_open e_open)
                ∙ mul_congruent p _ _ _ _ d.1 e.1),
      )

-- With both allocations, a triple of residues with c = a b modulo a 32-bit prime (or another modulus
-- that the number of parties is invertible by) turns two sharings into one of their product.
pub bt_multiply-opens :
    (ss : SecretSharing) (triple : BeaverTriple) (xs ys out : List ℕ) (b : ℕ)
    → 1 < ss.prime
    → ss.prime ≤ u32_mod
    → 2 ≤ ss.num_parties
    → b * ss.num_parties % ss.prime ≡ 1
    → triple.a_share < ss.prime
    → triple.b_share < ss.prime
    → triple.c_share ≡ triple.a_share * triple.b_share % ss.prime
    → IsSharing ss xs
    → IsSharing ss ys
    → ss_reconstruct ss (bt_multiply true ss triple xs ys out)
      ≡ some (total xs * total ys % ss.prime)
unfolding bt_multiply
bt_multiply-opens ss triple xs ys out b one small two h ha hb hc hx hy =
    let p = ss.prime in
    let pos : 0 < ss.prime = omega arith in
    let inv = mpc_mod_inv ss.num_parties ss.prime in
    let i = mpc_mod_inv-inverts ss.num_parties b ss.prime one (omega arith) h in
    let c : triple.c_share < ss.prime = rw hc (mod-lt _ pos) in
    let o : (inv == 0) ≡ false = not_zero inv ss.num_parties ss.prime i.0 in
    let t =
      plain_product-opens ss triple.a_share triple.b_share triple.c_share inv xs ys one small two
        i.0 hc hx hy in
    rw
      (
        o,
        take_all ss.num_parties xs hx.0,
        take_all ss.num_parties ys hy.0,
        mul64_small triple.a_share inv p ha i.1 small,
        mul64_small triple.b_share inv p hb i.1 small,
        mul64_small triple.c_share inv p c i.1 small,
        mul64_small _ (triple.b_share * inv % p) p t.0 (mod-lt _ pos) small,
        mul64_small _ (triple.a_share * inv % p) p t.1 (mod-lt _ pos) small,
        mul64_small _ _ p t.0 t.1 small,
        terms_small p (triple.c_share * inv % p)
            (d_open ss triple.a_share triple.b_share triple.c_share inv xs ys
              * (triple.b_share * inv % p)
              % p)
            (e_open ss triple.a_share triple.b_share triple.c_share inv xs ys
              * (triple.a_share * inv % p)
              % p)
            pos small (mod-lt _ pos) (mod-lt _ pos) (mod-lt _ pos),
      )
      (unfold plain_product in t.2)
  where
    not_zero : (x n m : ℕ) → x * n % m ≡ 1 → (x == 0) ≡ false
    not_zero zero n m e = absurd (omega (arith, rw (zero-mul n, zero-mod m) at e))
    not_zero (suc x) n m e = ground arith

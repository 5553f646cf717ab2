-- ===== src/Mpc/Sharing/Linear.antt =====
-- Dealing, opening, adding and scaling shares, mini-privacy-compute/src/secure_mpc_comp.c.
use mini_security_crypto_web.Prelude.{
  ℕ, zero, suc, ◌+◌, ◌-◌, ◌*◌, ◌%◌, ◌^◌, ◌≤◌, ◌<◌, ◌≡◌, refl, sym, ap, ◌∙◌, arith, u32_mod, add64,
  sub64, false, ltb, List, [], ◌∷◌, ◌++◌, some, take, length, All, append-All, length-append,
}
use mini_security_crypto_web.Prelude.Congruence.{Congruent, mod_drop, add_congruent, mul_congruent}
use mini_security_crypto_web.Mpc.Arithmetic.{mul64_small}
use mini_security_crypto_web.Mpc.Sharing.{
  SecretSharing, next_seed, random_shares, ss_share, sum_shares, ss_reconstruct, add_shares, ss_add,
  scale_shares, ss_scalar_mul,
}
use native.Mathlib.Nat.{
  zero-add, zero-mul, add-mod-mod, mod-eq_of_lt, mod-lt, mod-add-mod, mod-mod, add-mul,
  add-mod_right,
}

-- What an array of shares stands for, before the reduction.
abbrev pub total : List ℕ → ℕ
total [] = 0
total (x ∷ xs) = x + total xs

-- The shares of a prime: one residue for each party.
abbrev pub IsSharing : SecretSharing → List ℕ → Type 0
IsSharing ss xs = (length xs ≡ ss.num_parties) × All (λ x. x < ss.prime) xs

pub take_all : (n : ℕ) (xs : List ℕ) → length xs ≡ n → take n xs ≡ xs
take_all zero [] h = refl
take_all (suc n) [] h = refl
take_all zero (x ∷ xs) h = absurd (omega arith)
take_all (suc n) (x ∷ xs) h = ap (λ ys. x ∷ ys) (take_all n xs (omega arith))

total-append : (xs ys : List ℕ) → total (xs ++ ys) ≡ total xs + total ys
total-append [] ys = omega arith
total-append (x ∷ xs) ys = omega (arith, total-append xs ys)

module _ (p : ℕ) (pos : 0 < p) (small : p ≤ 2 ^ 63) where
  pub add64_small : (a b : ℕ) → a < p → b < p → add64 a b ≡ a + b
  add64_small a b h k = mod-eq_of_lt (omega arith)

  take_in : (sum x t : ℕ) → ((sum + x) % p + t) % p ≡ (sum + (x + t)) % p
  take_in sum x t =
      let e : sum + x + t ≡ sum + (x + t) = omega arith in
      mod-add-mod (sum + x) p t ∙ ap (λ z. z % p) e

  none_in : (sum : ℕ) → sum < p → sum ≡ (sum + 0) % p
  none_in sum h = let e : sum + 0 ≡ sum = omega arith in sym (ap (λ z. z % p) e ∙ mod-eq_of_lt h)

  pub sum_shares-total :
      (sum : ℕ) (xs : List ℕ)
      → sum < p
      → All (λ x. x < p) xs
      → sum_shares p sum xs ≡ (sum + total xs) % p
  unfolding sum_shares
  sum_shares-total sum [] h k = none_in sum h
  sum_shares-total sum (x ∷ xs) h k =
      rw (add64_small sum x h k.0)
        (sum_shares-total ((sum + x) % p) xs (mod-lt (sum + x) pos) k.1 ∙ take_in sum x (total xs))

  random-total :
      (n seed sum : ℕ)
      → sum < p
      → (random_shares n seed sum p).1 ≡ (sum + total (random_shares n seed sum p).0) % p
  unfolding random_shares
  random-total zero seed sum h = none_in sum h
  random-total (suc n) seed sum h =
      let x = next_seed seed % p in
      rw (add64_small sum x h (mod-lt (next_seed seed) pos)) (
        random-total n (next_seed seed) ((sum + x) % p) (mod-lt (sum + x) pos)
        ∙ take_in sum x (total (random_shares n (next_seed seed) ((sum + x) % p) p).0))

  random-All : (n seed sum : ℕ) → All (λ x. x < p) (random_shares n seed sum p).0
  unfolding random_shares
  random-All zero seed sum = tt
  random-All (suc n) seed sum = (mod-lt (next_seed seed) pos, random-All n (next_seed seed) _)

  random-bound : (n seed sum : ℕ) → sum < p → (random_shares n seed sum p).1 < p
  unfolding random_shares
  random-bound zero seed sum h = h
  random-bound (suc n) seed sum h = random-bound n (next_seed seed) _ (mod-lt _ pos)

  random-length : (n seed sum : ℕ) → length (random_shares n seed sum p).0 ≡ n
  unfolding random_shares
  random-length zero seed sum = refl
  random-length (suc n) seed sum = ap suc (random-length n (next_seed seed) _)

-- A sharing of two parties or more opens to its total.
pub ss_reconstruct-total :
    (ss : SecretSharing) (xs : List ℕ)
    → 0 < ss.prime
    → ss.prime ≤ 2 ^ 63
    → 2 ≤ ss.num_parties
    → IsSharing ss xs
    → ss_reconstruct ss xs ≡ some (total xs % ss.prime)
unfolding ss_reconstruct
ss_reconstruct-total ss xs pos small two h =
    let o : ltb ss.num_parties 2 ≡ false = ground arith in
    rw (o, take_all ss.num_parties xs h.0)
      (ap some (
        sum_shares-total ss.prime pos small 0 xs pos h.1
        ∙ ap (λ z. z % ss.prime) (zero-add (total xs))))

-- The last share makes up for the sum of the others.
last_share :
    (p secret sum : ℕ)
    → 0 < p
    → p ≤ 2 ^ 63
    → (sum + sub64 (add64 (secret % p) p) (sum % p) % p) % p ≡ secret % p
last_share p secret sum pos small =
    let r : secret % p < p = mod-lt secret pos in
    let d : sum % p < p = mod-lt sum pos in
    let e : sub64 (add64 (secret % p) p) (sum % p) ≡ secret % p + p - sum % p = omega arith in
    let w : sum % p + (secret % p + p - sum % p) ≡ secret % p + p = omega arith in
    rw e (
      sym (mod-add-mod sum p ((secret % p + p - sum % p) % p))
      ∙ add-mod-mod (sum % p) (secret % p + p - sum % p) p
      ∙ ap (λ z. z % p) w
      ∙ add-mod_right (secret % p) p
      ∙ mod-mod secret p)

-- Dealing gives each party a residue, and the shares open to the secret modulo the prime.
pub ss_reconstruct-ss_share :
    (ss : SecretSharing) (time secret : ℕ) (shares_out : List ℕ)
    → 0 < ss.prime
    → ss.prime ≤ 2 ^ 63
    → 2 ≤ ss.num_parties
    → IsSharing ss (ss_share ss time secret shares_out)
      × (ss_reconstruct ss (ss_share ss time secret shares_out) ≡ some (secret % ss.prime))
unfolding ss_share
ss_reconstruct-ss_share ss time secret shares_out pos small two =
    rw o
      (dealt, ss_reconstruct-total ss (drawn.0 ++ (last ∷ [])) pos small two dealt ∙ ap some opens)
  where
    o : ltb ss.num_parties 2 ≡ false
    o = ground arith

    drawn : List ℕ × ℕ
    drawn = random_shares (ss.num_parties - 1) time 0 ss.prime

    last : ℕ
    last = sub64 (add64 (secret % ss.prime) ss.prime) drawn.1 % ss.prime

    dealt : IsSharing ss (drawn.0 ++ (last ∷ []))
    dealt = (
      omega (
        arith,
        length-append drawn.0 (last ∷ []),
        random-length ss.prime pos small (ss.num_parties - 1) time 0,
      ),
      append-All (λ x. x < ss.prime) drawn.0 (last ∷ [])
          (random-All ss.prime pos small (ss.num_parties - 1) time 0) (mod-lt _ pos, tt),
    )

    opens : total (drawn.0 ++ (last ∷ [])) % ss.prime ≡ secret % ss.prime
    opens =
        let t : total (drawn.0 ++ (last ∷ [])) ≡ total drawn.0 + last =
          omega (arith, total-append drawn.0 (last ∷ [])) in
        let d : drawn.1 ≡ total drawn.0 % ss.prime =
          random-total ss.prime pos small (ss.num_parties - 1) time 0 pos
          ∙ ap (λ z. z % ss.prime) (zero-add (total drawn.0)) in
        rw t (rw d (last_share ss.prime secret (total drawn.0) pos small))

module _ (p : ℕ) (pos : 0 < p) (small : p ≤ u32_mod) where
  add_shares-total :
      (xs ys : List ℕ)
      → length xs ≡ length ys
      → All (λ x. x < p) xs
      → All (λ x. x < p) ys
      → (length (add_shares p xs ys) ≡ length xs)
        × (All (λ x. x < p) (add_shares p xs ys)
            × Congruent p (total (add_shares p xs ys)) (total xs + total ys))
  unfolding add_shares
  add_shares-total [] [] h k l = (refl, (tt, refl))
  add_shares-total [] (y ∷ ys) h k l = absurd (omega arith)
  add_shares-total (x ∷ xs) [] h k l = absurd (omega arith)
  add_shares-total (x ∷ xs) (y ∷ ys) h k l =
      let ih = add_shares-total xs ys (omega arith) k.1 l.1 in
      let e : x + y + (total xs + total ys) ≡ x + total xs + (y + total ys) = omega arith in
      rw (add64_small p pos (omega arith) x y k.0 l.0) (
        ap suc ih.0,
        (
          (mod-lt (x + y) pos, ih.1.0),
          add_congruent p ((x + y) % p) (x + y) _ _ (mod_drop p (x + y)) ih.1.1 ∙ ap (λ z. z % p) e,
        ),
      )

  scale_shares-total :
      (xs : List ℕ) (k : ℕ)
      → k < p
      → All (λ x. x < p) xs
      → (length (scale_shares p xs k) ≡ length xs)
        × (All (λ x. x < p) (scale_shares p xs k)
            × Congruent p (total (scale_shares p xs k)) (total xs * k))
  unfolding scale_shares
  scale_shares-total [] k b h = (refl, (tt, ap (λ z. z % p) (sym (zero-mul k))))
  scale_shares-total (x ∷ xs) k b h =
      let ih = scale_shares-total xs k b h.1 in
      rw (mul64_small x k p h.0 b small) (
        ap suc ih.0,
        (
          (mod-lt (x * k) pos, ih.1.0),
          add_congruent p (x * k % p) (x * k) _ _ (mod_drop p (x * k)) ih.1.1
              ∙ ap (λ z. z % p) (sym (add-mul x (total xs) k)),
        ),
      )

-- Adding two sharings adds what they open to, and scaling a sharing scales it, modulo a 32-bit prime.
pub shares_linear :
    (ss : SecretSharing) (xs ys : List ℕ) (k : ℕ)
    → 0 < ss.prime
    → ss.prime ≤ u32_mod
    → 2 ≤ ss.num_parties
    → IsSharing ss xs
    → IsSharing ss ys
    → (ss_reconstruct ss (ss_add ss xs ys) ≡ some ((total xs + total ys) % ss.prime))
      × (ss_reconstruct ss (ss_scalar_mul ss xs k) ≡ some (total xs * k % ss.prime))
unfolding ss_add ss_scalar_mul
shares_linear ss xs ys k pos small two hx hy =
    let n = ss.num_parties in
    let add = add_shares-total ss.prime pos small xs ys (hx.0 ∙ sym hy.0) hx.1 hy.1 in
    let scale = scale_shares-total ss.prime pos small xs (k % ss.prime) (mod-lt k pos) hx.1 in
    rw (take_all n xs hx.0, take_all n ys hy.0)
      (
        ss_reconstruct-total ss (add_shares ss.prime xs ys) pos (omega arith) two
              (add.0 ∙ hx.0, add.1.0)
            ∙ ap some add.1.1,
        ss_reconstruct-total ss (scale_shares ss.prime xs (k % ss.prime)) pos (omega arith) two
              (scale.0 ∙ hx.0, scale.1.0)
            ∙ ap some (
                scale.1.1
                ∙ mul_congruent ss.prime (total xs) (total xs) (k % ss.prime) k refl
                    (mod_drop ss.prime k)),
      )

-- ===== src/Mpc/Sharing.antt =====
-- Additive secret sharing, mini-privacy-compute/src/secure_mpc_comp.c. The clock that seeds the
-- generator is an argument. An array of shares is the list of its entries, one for each party.
pub mod Linear
use mini_security_crypto_web.Prelude.{
  ℕ, zero, suc, ◌+◌, ◌-◌, ◌*◌, ◌%◌, ◌^◌, ◌≤◌, ◌<◌, ◌≡◌, refl, sym, ap, ◌∙◌, arith, u64_mod, u32_mod,
  add64, sub64, mul64, if◌then◌else◌, ltb, List, [], ◌∷◌, ◌++◌, Option, none, some, take, length,
  All, append-All, length-append,
}

-- `shares` is never read.
pub record SecretSharing : Type 0 where
  pub num_parties : ℕ
  pub prime : ℕ

-- The generator of the file: its next seed.
unfoldable pub next_seed : ℕ → ℕ
next_seed seed = add64 (mul64 seed 6364136223846793005) 1442695040888963407

-- The loop of `ss_share`: the random shares, and their sum.
unfoldable pub random_shares : ℕ → ℕ → ℕ → ℕ → List ℕ × ℕ
unfolding next_seed
random_shares zero seed sum prime = ([], sum)
random_shares (suc n) seed sum prime =
    let seed = next_seed seed in
    let share = seed % prime in
    let rest = random_shares n seed (add64 sum share % prime) prime in (share ∷ rest.0, rest.1)

-- The array `shares_out` after the call.
unfoldable pub ss_share : SecretSharing → ℕ → ℕ → List ℕ → List ℕ
unfolding random_shares
ss_share ss time secret shares_out =
    if ltb ss.num_parties 2
    then shares_out
    else let drawn = random_shares (ss.num_parties - 1) time 0 ss.prime in
      let last = sub64 (add64 (secret % ss.prime) ss.prime) drawn.1 % ss.prime in
      drawn.0 ++ (last ∷ [])

unfoldable pub sum_shares : ℕ → ℕ → List ℕ → ℕ
sum_shares prime sum [] = sum
sum_shares prime sum (share ∷ shares) = sum_shares prime (add64 sum share % prime) shares

-- What is written to `secret_out`, if anything is.
unfoldable pub ss_reconstruct : SecretSharing → List ℕ → Option ℕ
unfolding sum_shares
ss_reconstruct ss shares =
    if ltb ss.num_parties 2 then none else some (sum_shares ss.prime 0 (take ss.num_parties shares))

-- The loop of `ss_add`.
unfoldable pub add_shares : ℕ → List ℕ → List ℕ → List ℕ
add_shares prime [] ys = []
add_shares prime (x ∷ xs) [] = []
add_shares prime (x ∷ xs) (y ∷ ys) = (add64 x y % prime) ∷ add_shares prime xs ys

unfoldable pub ss_add : SecretSharing → List ℕ → List ℕ → List ℕ
unfolding add_shares
ss_add ss xs ys = add_shares ss.prime (take ss.num_parties xs) (take ss.num_parties ys)

-- The loop of `ss_scalar_mul`, with the scalar reduced before it.
unfoldable pub scale_shares : ℕ → List ℕ → ℕ → List ℕ
scale_shares prime [] scalar = []
scale_shares prime (x ∷ xs) scalar = (mul64 x scalar % prime) ∷ scale_shares prime xs scalar

unfoldable pub ss_scalar_mul : SecretSharing → List ℕ → ℕ → List ℕ
unfolding scale_shares
ss_scalar_mul ss shares scalar =
    scale_shares ss.prime (take ss.num_parties shares) (scalar % ss.prime)

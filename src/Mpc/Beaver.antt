-- ===== src/Mpc/Beaver.antt =====
-- Beaver triples and the multiplication of shared numbers, mini-privacy-compute/src/secure_mpc_comp.c.
pub mod Product
pub mod Pool
use mini_security_crypto_web.Prelude.{
  ℕ, zero, suc, ◌+◌, ◌-◌, ◌*◌, ◌%◌, add64, sub64, mul64, if◌then◌else◌, ltb, leb, ◌==◌, ◌||◌, not,
  Bool, true, false, List, [], ◌∷◌, Option, none, some, take, get_elem?, set, replicate,
}
use mini_security_crypto_web.Mpc.Arithmetic.{mpc_mod_inv}
use mini_security_crypto_web.Mpc.Sharing.{SecretSharing, next_seed, sum_shares}

pub record BeaverTriple : Type 0 where
  pub a_share : ℕ
  pub b_share : ℕ
  pub c_share : ℕ
  pub consumed : Bool

-- `triples` is none where the allocation failed.
pub record BeaverTriplePool : Type 0 where
  pub triples : Option (List BeaverTriple)
  pub num_triples : ℕ
  pub used : ℕ
  pub prime : ℕ
  pub seed : ℕ

-- `alloc` says whether the allocation succeeds.
unfoldable pub bt_pool_init : Bool → ℕ → ℕ → ℕ → BeaverTriplePool
bt_pool_init alloc num_triples prime seed = record {
  triples =
      if alloc
      then some (
          replicate num_triples
            (record { a_share = 0; b_share = 0; c_share = 0; consumed = false }))
      else none;
  num_triples = num_triples;
  used = 0;
  prime = prime;
  seed = seed;
}

-- The triple of a seed, and the seed behind it: a turn of the loop of `bt_pool_generate`.
unfoldable pub new_triple : ℕ → ℕ → BeaverTriple × ℕ
unfolding next_seed
new_triple prime seed =
    let seed_a = next_seed seed in
    let a = seed_a % prime in
    let seed_b = next_seed seed_a in
    let b = seed_b % prime in
    (record { a_share = a; b_share = b; c_share = mul64 a b % prime; consumed = false }, seed_b)

unfoldable pub new_triples : ℕ → ℕ → ℕ → List BeaverTriple × ℕ
unfolding new_triple
new_triples zero prime seed = ([], seed)
new_triples (suc n) prime seed =
    let first = new_triple prime seed in
    let rest = new_triples n prime first.1 in (first.0 ∷ rest.0, rest.1)

-- The number of triples made, and the pool.
unfoldable pub bt_pool_generate : BeaverTriplePool → ℕ × BeaverTriplePool
unfolding new_triples
bt_pool_generate pool = elim pool.triples [
  | none ↦ (0, pool)
  | some triples ↦
      if pool.num_triples == 0
      then (0, pool)
      else let made = new_triples pool.num_triples pool.prime pool.seed in
        (pool.num_triples, record pool { triples = some made.0; seed = made.1 })
]

-- The triple handed out, if one is, and the pool.
unfoldable pub bt_pool_consume : BeaverTriplePool → Option BeaverTriple × BeaverTriplePool
bt_pool_consume pool = elim pool.triples [
  | none ↦ (none, pool)
  | some triples ↦
      if leb pool.num_triples pool.used then (none, pool) else elim (get_elem? triples pool.used) [
        | none ↦ (none, pool)
        | some triple ↦ (
          some triple,
          record pool {
            triples = some (set triples pool.used (record triple { consumed = true }));
            used = suc pool.used;
          },
        )
      ]
]

-- The shares of x - a, for a share of a.
unfoldable pub masked : ℕ → ℕ → List ℕ → List ℕ
masked prime a_n [] = []
masked prime a_n (x ∷ xs) = (sub64 (add64 x prime) a_n % prime) ∷ masked prime a_n xs

-- The product shares of the parties from the index i on.
unfoldable pub product_shares : ℕ → ℕ → ℕ → ℕ → ℕ → List ℕ
product_shares prime term both i zero = []
product_shares prime term both i (suc n) =
    (if i == 0 then add64 term both % prime else term) ∷ product_shares prime term both (suc i) n

-- The array `prod_shares` after the call. `alloc` says whether the two allocations succeed.
unfoldable pub bt_multiply : Bool → SecretSharing → BeaverTriple → List ℕ → List ℕ → List ℕ → List ℕ
unfolding masked product_shares
bt_multiply alloc ss triple x_shares y_shares prod_shares =
    let p = ss.prime in
    let n = ss.num_parties in
    let n_inv = mpc_mod_inv n p in
    if n_inv == 0 || not alloc
    then prod_shares
    else let a_n = mul64 triple.a_share n_inv % p in
      let b_n = mul64 triple.b_share n_inv % p in
      let c_n = mul64 triple.c_share n_inv % p in
      let d_open = sum_shares p 0 (masked p a_n (take n x_shares)) in
      let e_open = sum_shares p 0 (masked p b_n (take n y_shares)) in
      let term = add64 (add64 c_n (mul64 d_open b_n % p)) (mul64 e_open a_n % p) % p in
      product_shares p term (mul64 d_open e_open % p) 0 n

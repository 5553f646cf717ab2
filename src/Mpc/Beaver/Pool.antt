-- ===== src/Mpc/Beaver/Pool.antt =====
-- The pool of triples of mini-privacy-compute/src/secure_mpc_comp.c, and products by its triples.
use mini_security_crypto_web.Prelude.{
  ℕ, zero, suc, ◌*◌, ◌%◌, ◌≤◌, ◌<◌, ◌≡◌, refl, sym, ap, ◌∙◌, arith, u32_mod, leb, ◌==◌, true, false,
  List, [], ◌∷◌, none, some, take, drop, get_elem?, get_elem?-of_lt, set, length, length-set, All,
  take-All, Bool-cases, inl, inr,
}
use mini_security_crypto_web.Prelude.Congruence.{mul_congruent}
use mini_security_crypto_web.Mpc.Arithmetic.{mul64_small}
use mini_security_crypto_web.Mpc.Sharing.{SecretSharing, next_seed, ss_share, ss_reconstruct}
use mini_security_crypto_web.Mpc.Sharing.Linear.{
  total, IsSharing, ss_reconstruct-total, ss_reconstruct-ss_share,
}
use mini_security_crypto_web.Mpc.Beaver.{
  BeaverTriple, BeaverTriplePool, bt_pool_init, new_triple, new_triples, bt_pool_generate,
  bt_pool_consume, bt_multiply,
}
use mini_security_crypto_web.Mpc.Beaver.Product.{bt_multiply-opens}
use native.Mathlib.Nat.{mod-lt}

-- Residues with c = a b, not handed out yet.
abbrev pub IsTriple : ℕ → BeaverTriple → Type 0
IsTriple p t =
    (t.a_share < p)
    × (t.b_share < p)
    × (t.c_share ≡ t.a_share * t.b_share % p)
    × (t.consumed ≡ false)

module _ (p : ℕ) (pos : 0 < p) (small : p ≤ u32_mod) where
  new_triple-IsTriple : (seed : ℕ) → IsTriple p (new_triple p seed).0
  unfolding new_triple
  new_triple-IsTriple seed =
      let a = next_seed seed in
      let b = next_seed a in
      (
        mod-lt a pos,
        mod-lt b pos,
        ap (λ z. z % p) (mul64_small (a % p) (b % p) p (mod-lt a pos) (mod-lt b pos) small),
        refl,
      )

  new_triples-All :
      (n seed : ℕ)
      → (length (new_triples n p seed).0 ≡ n) × All (IsTriple p) (new_triples n p seed).0
  unfolding new_triples
  new_triples-All zero seed = (refl, tt)
  new_triples-All (suc n) seed =
      let rest = new_triples-All n (new_triple p seed).1 in
      (ap suc rest.0, (new_triple-IsTriple seed, rest.1))

-- The triples that n calls of `bt_pool_consume` hand out.
unfoldable pub consumed : ℕ → BeaverTriplePool → List BeaverTriple
consumed zero pool = []
consumed (suc n) pool =
    let rest = consumed n (bt_pool_consume pool).1 in
    elim (bt_pool_consume pool).0 [ none ↦ [] | some t ↦ t ∷ rest ]

drop-set :
    (ts : List BeaverTriple) (u : ℕ) (t : BeaverTriple)
    → drop (suc u) (set ts u t) ≡ drop (suc u) ts
drop-set [] u t = refl
drop-set (x ∷ ts) zero t = refl
drop-set (x ∷ ts) (suc u) t = drop-set ts u t

drop-get :
    (ts : List BeaverTriple) (u : ℕ) (t : BeaverTriple)
    → get_elem? ts u ≡ some t
    → drop u ts ≡ t ∷ drop (suc u) ts
drop-get [] u t h = cc
drop-get (x ∷ ts) zero t h = cc
drop-get (x ∷ ts) (suc u) t h = drop-get ts u t h

drop_all : (n : ℕ) (ts : List BeaverTriple) → length ts ≤ n → drop n ts ≡ []
drop_all zero [] h = refl
drop_all (suc n) [] h = refl
drop_all zero (t ∷ ts) h = absurd (omega arith)
drop_all (suc n) (t ∷ ts) h = drop_all n ts (omega arith)

-- The pool with the triples ts, the first u of them handed out.
abbrev pool_of : List BeaverTriple → ℕ → ℕ → ℕ → BeaverTriplePool
pool_of ts u prime seed = record {
  triples = some ts;
  num_triples = length ts;
  used = u;
  prime = prime;
  seed = seed;
}

consume_none :
    (ts : List BeaverTriple) (u prime seed : ℕ)
    → leb (length ts) u ≡ true
    → bt_pool_consume (pool_of ts u prime seed) ≡ (none, pool_of ts u prime seed)
unfolding bt_pool_consume
consume_none ts u prime seed h = rw h refl

consume_next :
    (ts : List BeaverTriple) (u prime seed : ℕ) (t : BeaverTriple)
    → leb (length ts) u ≡ false
    → get_elem? ts u ≡ some t
    → bt_pool_consume (pool_of ts u prime seed)
      ≡ (some t, pool_of (set ts u (record t { consumed = true })) (suc u) prime seed)
unfolding bt_pool_consume
consume_next ts u prime seed t h g = rw (h, g, length-set ts u (record t { consumed = true })) refl

consumed_none :
    (n : ℕ) (pool next : BeaverTriplePool)
    → bt_pool_consume pool ≡ (none, next)
    → consumed (suc n) pool ≡ []
unfolding consumed
consumed_none n pool next e = ap (λ r. elim r.0 [ none ↦ [] | some t ↦ t ∷ consumed n r.1 ]) e

consumed_next :
    (n : ℕ) (pool next : BeaverTriplePool) (t : BeaverTriple)
    → bt_pool_consume pool ≡ (some t, next)
    → consumed (suc n) pool ≡ t ∷ consumed n next
unfolding consumed
consumed_next n pool next t e = ap (λ r. elim r.0 [ none ↦ [] | some t ↦ t ∷ consumed n r.1 ]) e

consumed-take :
    (n : ℕ) (ts : List BeaverTriple) (u prime seed : ℕ)
    → consumed n (pool_of ts u prime seed) ≡ take n (drop u ts)
unfolding consumed
consumed-take zero ts u prime seed = refl
consumed-take (suc n) ts u prime seed = elim (Bool-cases (leb (length ts) u)) [
  | inl h ↦
      let k : length ts ≤ u = ground (arith, h) in
      rw (drop_all u ts k) (consumed_none n _ _ (consume_none ts u prime seed h))
  | inr h ↦
      let k : u < length ts = ground (arith, h) in
      let (t, g) = get_elem?-of_lt ts u k in
      rw (drop-get ts u t g) (
        consumed_next n _ _ t (consume_next ts u prime seed t h g)
        ∙ ap (λ rest. t ∷ rest)
            (consumed-take n (set ts u (record t { consumed = true })) (suc u) prime seed
              ∙ ap (take n) (drop-set ts u (record t { consumed = true }))))
]

abbrev pub filled : ℕ → ℕ → ℕ → BeaverTriplePool
filled n prime seed = (bt_pool_generate (bt_pool_init true n prime seed)).1

filled_pool :
    (n prime seed : ℕ)
    → 0 < n
    → n ≡ length (new_triples n prime seed).0
    → filled n prime seed
      ≡ pool_of (new_triples n prime seed).0 0 prime (new_triples n prime seed).1
unfolding bt_pool_generate bt_pool_init
filled_pool n prime seed some_triples l =
    let o : (n == 0) ≡ false = ground arith in rw (filled, o, ← l) refl

-- A pool that is filled for a 32-bit modulus hands out its triples in order and each once, and they are
-- products of residues.
pub consumed-filled :
    (calls n prime seed : ℕ)
    → 0 < n
    → 0 < prime
    → prime ≤ u32_mod
    → (consumed calls (filled n prime seed) ≡ take calls (new_triples n prime seed).0)
      × All (IsTriple prime) (consumed calls (filled n prime seed))
consumed-filled calls n prime seed some_triples pos small =
    let made = new_triples-All prime pos small n seed in
    let ts = (new_triples n prime seed).0 in
    let e = filled_pool n prime seed some_triples (sym made.0) in
    let k : consumed calls (filled n prime seed) ≡ take calls (new_triples n prime seed).0 =
      rw e (consumed-take calls ts 0 prime (new_triples n prime seed).1) in
    (k, rw k (take-All (IsTriple prime) calls ts made.1))

-- Where the modulus is above 1 and at most 2 ^ 32, so that no 64-bit product wraps, there are two
-- parties or more and the number of parties has an inverse b for the modulus: each triple that is
-- handed out by a pool filled with at least one triple multiplies two dealt secrets, that is, the
-- product shares open to the product of the secrets for the modulus.
pub beaver_multiplies :
    (ss : SecretSharing) (calls n seed b time_x time_y x y : ℕ) (out : List ℕ)
    → 0 < n
    → 1 < ss.prime
    → ss.prime ≤ u32_mod
    → 2 ≤ ss.num_parties
    → b * ss.num_parties % ss.prime ≡ 1
    → All
        (λ t.
          ss_reconstruct ss
            (bt_multiply true ss t (ss_share ss time_x x out) (ss_share ss time_y y out) out)
          ≡ some (x * y % ss.prime))
        (consumed calls (filled n ss.prime seed))
beaver_multiplies ss calls n seed b time_x time_y x y out some_triples one small two h =
    each _ (consumed-filled calls n ss.prime seed some_triples (omega arith) small).1
  where
    dealt :
        (time z : ℕ)
        → IsSharing ss (ss_share ss time z out)
          × (total (ss_share ss time z out) % ss.prime ≡ z % ss.prime)
    dealt time z =
        let d = ss_reconstruct-ss_share ss time z out (omega arith) (omega arith) two in
        let t =
          ss_reconstruct-total ss (ss_share ss time z out) (omega arith) (omega arith) two d.0 in
        let q : some (total (ss_share ss time z out) % ss.prime) ≡ some (z % ss.prime) =
          sym t ∙ d.1 in
        (d.0, cc)

    each :
        (ts : List BeaverTriple)
        → All (IsTriple ss.prime) ts
        → All
            (λ t.
              ss_reconstruct ss
                (bt_multiply true ss t (ss_share ss time_x x out) (ss_share ss time_y y out) out)
              ≡ some (x * y % ss.prime))
            ts
    each [] k = tt
    each (t ∷ ts) k =
        let (i, ex) = dealt time_x x in
        let (j, ey) = dealt time_y y in
        (
          bt_multiply-opens ss t _ _ out b one small two h k.0.0 k.0.1 k.0.2 i j
              ∙ ap some (mul_congruent ss.prime _ _ _ _ ex ey),
          each ts k.1,
        )

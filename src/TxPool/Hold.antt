-- ===== src/TxPool/Hold.antt =====
-- What the pool holds: no more than its size, and no transaction twice.
use mini_security_crypto_web.Prelude.{
  ℕ, zero, suc, ◌+◌, ◌-◌, ◌≤◌, ◌<◌, ◌≡◌, refl, Bool, true, false, Option, none, some, List, [], ◌∷◌,
  ◌++◌, arith, leb, ltb, take, Option-cases, Bool-cases, ◌⊎◌, inl, inr, length, length-append,
  length-take, if◌then◌else◌,
}
use mini_security_crypto_web.Prelude.ByteString.{bytes_eq, bytes_eq_iff, bytes_eq_refl}
use mini_security_crypto_web.TxPool.{
  Pool, PoolTx, get_from, pool_get, pool_contains, evict_lowest_gas, prune, pool_add, with_room,
  new_tx,
}

abbrev pub sum_by : (PoolTx → ℕ) → List PoolTx → ℕ
sum_by f [] = 0
sum_by f (t ∷ ts) = f t + sum_by f ts

-- `qsort` permutes, and so keeps the sum of any weight.
pub record IsPermuting (sort : List PoolTx → List PoolTx) : Type 0 where
  pub keeps : (f : PoolTx → ℕ) (ts : List PoolTx) → sum_by f (sort ts) ≡ sum_by f ts

abbrev one_each : PoolTx → ℕ
one_each t = 1

abbrev pub same_id : List ℕ → PoolTx → ℕ
same_id txid t = if bytes_eq t.txid txid then 1 else 0

-- How many entries have the identifier.
abbrev pub copies : List ℕ → List PoolTx → ℕ
copies txid ts = sum_by (same_id txid) ts

-- The pool holds at most `max_size` entries, and one at most for each identifier.
pub record IsHeld (pool : Pool) : Type 0 where
  pub fits : length pool.txs ≤ pool.max_size
  pub single : (txid : List ℕ) → copies txid pool.txs ≤ 1

sum_by-append :
    (f : PoolTx → ℕ) (ts us : List PoolTx) → sum_by f (ts ++ us) ≡ sum_by f ts + sum_by f us
sum_by-append f [] us = omega arith
sum_by-append f (t ∷ ts) us = omega (arith, sum_by-append f ts us)

sum_by-take : (f : PoolTx → ℕ) (n : ℕ) (ts : List PoolTx) → sum_by f (take n ts) ≤ sum_by f ts
sum_by-take f zero ts = omega arith
sum_by-take f (suc n) [] = omega arith
sum_by-take f (suc n) (t ∷ ts) = omega (arith, sum_by-take f n ts)

sum_by-one : (ts : List PoolTx) → sum_by one_each ts ≡ length ts
sum_by-one [] = refl
sum_by-one (t ∷ ts) = omega (arith, sum_by-one ts)

length-sort :
    (sort : List PoolTx → List PoolTx) (ts : List PoolTx)
    → IsPermuting sort
    → length (sort ts) ≡ length ts
length-sort sort ts p = omega (arith, p.keeps one_each ts, sum_by-one ts, sum_by-one (sort ts))

get_from-none : (ts : List PoolTx) (txid : List ℕ) → get_from ts txid ≡ none → copies txid ts ≡ 0
unfolding get_from
get_from-none [] txid h = refl
get_from-none (t ∷ ts) txid h = ground (arith, get_from-none ts txid)

-- The front of a permutation of a held pool is held.
IsHeld-front :
    (sort : List PoolTx → List PoolTx) (pool : Pool) (n : ℕ)
    → IsPermuting sort
    → IsHeld pool
    → IsHeld (record pool { txs = take n (sort pool.txs) })
IsHeld-front sort pool n p v = record {
  fits = omega (arith, v.fits, length-take n (sort pool.txs), length-sort sort pool.txs p);
  single = λ txid. omega (
    arith,
    v.single txid,
    p.keeps (same_id txid) pool.txs,
    sum_by-take (same_id txid) n (sort pool.txs),
  );
}

-- Appending an entry whose identifier is new, where there is room.
IsHeld-append :
    (pool : Pool) (t : PoolTx)
    → IsHeld pool
    → length pool.txs < pool.max_size
    → copies t.txid pool.txs ≡ 0
    → IsHeld (record pool { txs = pool.txs ++ (t ∷ []) })
IsHeld-append pool t v room new = record {
  fits = omega (arith, room, length-append pool.txs (t ∷ []));
  single = one_at_most;
}
  where
    one_at_most : (txid : List ℕ) → copies txid (pool.txs ++ (t ∷ [])) ≤ 1
    one_at_most txid = elim (Bool-cases (bytes_eq t.txid txid)) [
      | inl e ↦
          let same : t.txid ≡ txid = (bytes_eq_iff t.txid txid).0 e in
          let none_yet : copies txid pool.txs ≡ 0 = rw (← same) new in
          ground (arith, none_yet, sum_by-append (same_id txid) pool.txs (t ∷ []))
      | inr e ↦ ground (arith, v.single txid, sum_by-append (same_id txid) pool.txs (t ∷ []))
    ]

evict-IsHeld :
    (sort : List PoolTx → List PoolTx) (pool : Pool)
    → IsPermuting sort
    → IsHeld pool
    → IsHeld (evict_lowest_gas sort pool 1).1
      × ((txid : List ℕ) → copies txid (evict_lowest_gas sort pool 1).1.txs ≤ copies txid pool.txs)
unfolding evict_lowest_gas
evict-IsHeld sort pool p v =
    let n = if ltb (length (sort pool.txs)) 1 then length (sort pool.txs) else 1 in
    let m = length (sort pool.txs) - n in
    (
      IsHeld-front sort pool m p v,
      λ txid.
          omega
            (arith, p.keeps (same_id txid) pool.txs, sum_by-take (same_id txid) m (sort pool.txs)),
    )

with_room-IsHeld :
    (sort : List PoolTx → List PoolTx) (pool : Pool)
    → IsPermuting sort
    → IsHeld pool
    → IsHeld (with_room sort pool)
      × ((txid : List ℕ) → copies txid (with_room sort pool).txs ≤ copies txid pool.txs)
unfolding with_room
with_room-IsHeld sort pool p v = elim (Bool-cases (leb pool.max_size (length pool.txs))) [
  | inl e ↦ rw e (evict-IsHeld sort pool p v)
  | inr e ↦ rw e (v, λ txid. omega arith)
]

abbrev added : (List ℕ → List ℕ) → Pool → List ℕ → Bool → Option (List ℕ) → ℕ → Pool
added hash room raw from_local from_addr now = record room {
  txs = room.txs ++ (new_tx room (hash raw) raw now from_local from_addr ∷ []);
}

pool_add-cases :
    (hash : List ℕ → List ℕ) (sort : List PoolTx → List PoolTx) (pool : Pool) (raw : List ℕ)
    (from_local : Bool) (from_addr : Option (List ℕ)) (now : ℕ) (allocated : Bool)
    → let (code, accepted, pool') =
        pool_add hash sort pool raw from_local from_addr now allocated in
      let room = with_room sort pool in
      ((accepted ≡ false) × (pool' ≡ pool))
      ⊎ (((accepted ≡ false) × (pool' ≡ room))
          ⊎ ((accepted ≡ true)
              × (pool' ≡ added hash room raw from_local from_addr now)
              × (length room.txs < room.max_size)
              × (get_from pool.txs (hash raw) ≡ none)))
unfolding pool_add pool_contains pool_get
pool_add-cases hash sort pool raw from_local from_addr now allocated =
    elim (Option-cases (get_from pool.txs (hash raw))) [
      | inl e ↦ ground arith
      | inr (t, e) ↦ ground arith
    ]

-- A pool that holds at most its size, and no identifier twice, does so after `txpool_add`, whatever
-- it is given and whether or not the allocation succeeds.
pub pool_add-IsHeld :
    (hash : List ℕ → List ℕ) (sort : List PoolTx → List PoolTx) (pool : Pool) (raw : List ℕ)
    (from_local : Bool) (from_addr : Option (List ℕ)) (now : ℕ) (allocated : Bool)
    → IsPermuting sort
    → IsHeld pool
    → IsHeld (pool_add hash sort pool raw from_local from_addr now allocated).2
pool_add-IsHeld hash sort pool raw from_local from_addr now allocated p v =
    elim (pool_add-cases hash sort pool raw from_local from_addr now allocated) [
      | inl (a, e) ↦ rw e v
      | inr (inl (a, e)) ↦ rw e (with_room-IsHeld sort pool p v).0
      | inr (inr (a, e, room, g)) ↦
          let (w, fewer) = with_room-IsHeld sort pool p v in
          let new = new_tx (with_room sort pool) (hash raw) raw now from_local from_addr in
          let z = get_from-none pool.txs (hash raw) g in
          rw e (IsHeld-append (with_room sort pool) new w room (omega (arith, z, fewer (hash raw))))
    ]

get_from-append :
    (ts : List PoolTx) (t : PoolTx) (txid : List ℕ)
    → copies txid ts ≡ 0
    → get_from (ts ++ (t ∷ [])) txid ≡ (if bytes_eq t.txid txid then some t else none)
unfolding get_from
get_from-append [] t txid h = refl
get_from-append (x ∷ ts) t txid h = ground (arith, get_from-append ts t txid)

-- Where `txpool_add` says that it accepted a transaction, a held pool finds it under its hash, with
-- the bytes that were given; where it says that it did not, the pool is unchanged or has made room.
pub pool_add-pool_get :
    (hash : List ℕ → List ℕ) (sort : List PoolTx → List PoolTx) (pool : Pool) (raw : List ℕ)
    (from_local : Bool) (from_addr : Option (List ℕ)) (now : ℕ) (allocated : Bool)
    → IsPermuting sort
    → IsHeld pool
    → let (code, accepted, pool') =
        pool_add hash sort pool raw from_local from_addr now allocated in
      ((accepted ≡ false) × ((pool' ≡ pool) ⊎ (pool' ≡ with_room sort pool)))
      ⊎ ((accepted ≡ true)
          × ((t : PoolTx) × (pool_get pool' (hash raw) ≡ some t) × (t.raw ≡ some raw)))
unfolding pool_get
pool_add-pool_get hash sort pool raw from_local from_addr now allocated p v =
    elim (pool_add-cases hash sort pool raw from_local from_addr now allocated) [
      | inl (a, e) ↦ inl (a, inl e)
      | inr (inl (a, e)) ↦ inl (a, inr e)
      | inr (inr (a, e, room, g)) ↦
          let (w, fewer) = with_room-IsHeld sort pool p v in
          let new = new_tx (with_room sort pool) (hash raw) raw now from_local from_addr in
          let z = get_from-none pool.txs (hash raw) g in
          let f =
            get_from-append (with_room sort pool).txs new (hash raw)
              (omega (arith, z, fewer (hash raw))) in
          let s = bytes_eq_refl (hash raw) in inr (a, (new, ground (arith, e, f, s), refl))
    ]

-- Pruning a held pool keeps it held, and leaves at most the target size.
pub prune-IsHeld :
    (sort : List PoolTx → List PoolTx) (pool : Pool) (target_size : ℕ)
    → IsPermuting sort
    → IsHeld pool
    → let pool' = (prune sort pool target_size).1 in IsHeld pool' × (length pool'.txs ≤ target_size)
unfolding prune
prune-IsHeld sort pool target_size p v = elim (Bool-cases (leb (length pool.txs) target_size)) [
  | inl e ↦ rw e (v, ground arith)
  | inr e ↦ rw e (
    IsHeld-front sort pool target_size p v,
    omega (arith, length-take target_size (sort pool.txs)),
  )
]

-- ===== src/TxPool/Select.antt =====
-- The selections from the pool.
use mini_security_crypto_web.Prelude.{
  ℕ, zero, suc, ◌+◌, ◌≤◌, ◌<◌, ◌≡◌, refl, ap, map, true, none, some, List, [], ◌∷◌, arith, u64_mod,
  All, add64, ltb, ◌==◌, Bool-cases, ◌⊎◌, inl, inr, length,
}
use mini_security_crypto_web.TxPool.{
  Pool, PoolTx, without_raw, select_from, pool_select, pool_get_all,
}

abbrev pub bytes_of : List PoolTx → ℕ
bytes_of [] = 0
bytes_of (t ∷ ts) = t.raw_len + bytes_of ts

-- A buffer whose length cannot make the total wrap around.
abbrev pub IsShort : ℕ → PoolTx → Type 0
IsShort max_bytes t = max_bytes + t.raw_len < u64_mod

abbrev pub HasNoRaw : PoolTx → Type 0
HasNoRaw t = t.raw ≡ none

select_from-fits :
    (ts : List PoolTx) (room max_bytes total : ℕ)
    → All (IsShort max_bytes) ts
    → total ≤ max_bytes
    → let chosen = select_from ts room max_bytes total in
      (length chosen ≤ room) × (total + bytes_of chosen ≤ max_bytes) × All HasNoRaw chosen
unfolding select_from
select_from-fits [] zero m n a h = (omega arith, omega arith, tt)
select_from-fits (t ∷ ts) zero m n a h = (omega arith, omega arith, tt)
select_from-fits [] (suc r) m n a h = (omega arith, omega arith, tt)
select_from-fits (t ∷ ts) (suc r) m n a h = elim (Bool-cases (ltb m (add64 n t.raw_len))) [
  | inl e ↦ rw e (select_from-fits ts (suc r) m n a.1 h)
  | inr e ↦
      let short = a.0 in
      let (x, y, z) = select_from-fits ts r m (add64 n t.raw_len) a.1 (ground arith) in
      rw e (omega (arith, x), ground (arith, y), (refl, z))
]

-- Where no length makes the total wrap around and its allocation succeeds, `txpool_select` for a
-- positive count hands out at most that many entries, of at most `max_bytes` bytes together, each
-- without its buffer; for a count of 0 it fails.
pub pool_select_fits :
    (pool : Pool) (max_count max_bytes : ℕ)
    → All (IsShort max_bytes) pool.txs
    → ((max_count ≡ 0) × (pool_select pool max_count max_bytes true ≡ none))
      ⊎ ((chosen : List PoolTx) × (pool_select pool max_count max_bytes true ≡ some chosen)
          × (length chosen ≤ max_count)
          × (bytes_of chosen ≤ max_bytes)
          × All HasNoRaw chosen)
unfolding pool_select
pool_select_fits pool zero m a = inl (refl, ground arith)
pool_select_fits pool (suc c) m a =
    let (x, y, z) = select_from-fits pool.txs (suc c) m 0 a (omega arith) in
    inr (select_from pool.txs (suc c) m 0, ground arith, x, ground (arith, y), z)

length-without_raw : (ts : List PoolTx) → length (map without_raw ts) ≡ length ts
length-without_raw [] = refl
length-without_raw (t ∷ ts) = ap suc (length-without_raw ts)

-- `txpool_get_all` fails on an empty pool, and on no other whose allocation succeeds: there it hands out
-- as many entries as the pool has.
pub pool_get_all_empty :
    (pool : Pool)
    → ((length pool.txs ≡ 0) × (pool_get_all pool true ≡ none))
      ⊎ ((0 < length pool.txs)
          × ((all : List PoolTx) × (pool_get_all pool true ≡ some all)
              × (length all ≡ length pool.txs)))
unfolding pool_get_all
pool_get_all_empty pool = elim (Bool-cases (length pool.txs == 0)) [
  | inl e ↦ inl (ground arith, ground arith)
  | inr e ↦
      inr (ground arith, (map without_raw pool.txs, ground arith, length-without_raw pool.txs))
]

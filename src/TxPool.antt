-- ===== src/TxPool.antt =====
-- The pool of transactions of mini-blockchain-core/src/tx_pool.c. The array's part in use is a list;
-- the hash, the C library's sort, the clock and the outcome of an allocation are arguments. A
-- transaction's `raw` buffer is an `Option`, with `none` for the null pointer.
pub mod Hold
pub mod Remove
pub mod Select
mod Tests
use mini_security_crypto_web.Prelude.{
  ℕ, zero, suc, ◌+◌, ◌-◌, ◌*◌, ◌/◌, ◌%◌, ◌^◌, Bool, true, false, not, ◌&&◌, ◌||◌, Option, none,
  some, List, [], ◌∷◌, ◌++◌, map, leb, ltb, ◌==◌, add64, mul64, u32_mod, length, take, replicate,
  if◌then◌else◌,
}
use mini_security_crypto_web.Prelude.ByteString.{bytes_eq}

abbrev pub max_pool_size : ℕ
max_pool_size = 50000

abbrev pub default_max : ℕ
default_max = 5000

pub record PoolTx : Type 0 where
  pub txid : List ℕ
  pub raw : Option (List ℕ)
  pub raw_len : ℕ
  pub fee : ℕ
  pub gas_price : ℕ
  pub gas_limit : ℕ
  pub nonce : ℕ
  pub arrival_time : ℕ
  pub from_local : Bool
  pub from_addr : List ℕ

-- `rbf_percent` is `(uint64_t)(rbf_ratio * 100)`, the one use of the ratio: 110 for the ratio 1.1.
pub record Pool : Type 0 where
  pub txs : List PoolTx
  pub capacity : ℕ
  pub max_size : ℕ
  pub min_gas_price : ℕ
  pub rbf_percent : ℕ

pub data Code : Type 0 where
  ok : Code
  failed : Code

abbrev pub pool_init : ℕ → Bool → Option Pool
pool_init max_size allocated =
    let size = if (max_size == 0) || ltb max_pool_size max_size then default_max else max_size in
    if allocated
    then some (record {
      txs = [];
      capacity = size;
      max_size = size;
      min_gas_price = 1;
      rbf_percent = 110;
    })
    else none

-- The buffers that are freed are not read again.
abbrev pub pool_free : Pool → Pool
pool_free pool = record pool { txs = []; capacity = 0 }

-- The first four bytes, the lowest first.
abbrev pub version_of : List ℕ → ℕ
version_of (a ∷ b ∷ c ∷ d ∷ rest) = a + 256 * b + 65536 * c + 16777216 * d
version_of _ = 0

unfoldable pub validate_tx : List ℕ → Bool
validate_tx raw =
    if ltb (length raw) 10 then false else not (ltb (version_of raw) 1 || ltb 2 (version_of raw))

unfoldable pub get_from : List PoolTx → List ℕ → Option PoolTx
get_from [] txid = none
get_from (t ∷ ts) txid = if bytes_eq t.txid txid then some t else get_from ts txid

unfoldable pub pool_get : Pool → List ℕ → Option PoolTx
pool_get pool txid = get_from pool.txs txid

unfoldable pub pool_contains : Pool → List ℕ → Bool
pool_contains pool txid = elim (pool_get pool txid) [ none ↦ false | some t ↦ true ]

-- `sort` is `qsort` with the comparison by gas price, the highest first.
abbrev pub sort_by_gas : (List PoolTx → List PoolTx) → Pool → Pool
sort_by_gas sort pool = record pool { txs = sort pool.txs }

unfoldable pub evict_lowest_gas : (List PoolTx → List PoolTx) → Pool → ℕ → Code × Pool
evict_lowest_gas sort pool count =
    if count == 0
    then (failed, pool)
    else (let sorted = sort pool.txs in
        let n = if ltb (length sorted) count then length sorted else count in
        (ok, record pool { txs = take (length sorted - n) sorted }))

unfoldable pub prune : (List PoolTx → List PoolTx) → Pool → ℕ → Code × Pool
prune sort pool target_size =
    if leb (length pool.txs) target_size
    then (ok, pool)
    else (ok, record pool { txs = take target_size (sort pool.txs) })

-- The entry that `txpool_add` writes; `from_addr` is `none` for a null pointer.
abbrev pub new_tx : Pool → List ℕ → List ℕ → ℕ → Bool → Option (List ℕ) → PoolTx
new_tx pool txid raw now from_local from_addr = record {
  txid = txid;
  raw = some raw;
  raw_len = length raw;
  fee = 0;
  gas_price = pool.min_gas_price;
  gas_limit = 21000;
  nonce = 0;
  arrival_time = now;
  from_local = from_local;
  from_addr = elim from_addr [ none ↦ replicate 64 0 | some a ↦ a ];
}

-- A full pool gives up an entry.
unfoldable pub with_room : (List PoolTx → List PoolTx) → Pool → Pool
with_room sort pool =
    if leb pool.max_size (length pool.txs) then (evict_lowest_gas sort pool 1).1 else pool

-- The code, whether the transaction is accepted, and the pool. `hash` is the double SHA-256; its
-- refusal of an empty buffer cannot occur after the validation.
unfoldable pub pool_add :
    (List ℕ → List ℕ)
    → (List PoolTx → List PoolTx)
    → Pool
    → List ℕ
    → Bool
    → Option (List ℕ)
    → ℕ
    → Bool
    → Code × Bool × Pool
pool_add hash sort pool raw from_local from_addr now allocated =
    if not (validate_tx raw)
    then (ok, false, pool)
    else if pool_contains pool (hash raw)
    then (ok, false, pool)
    else (let room = with_room sort pool in
        if leb room.max_size (length room.txs)
        then (ok, false, room)
        else if not allocated
        then (failed, false, room)
        else (
          ok,
          true,
          record room {
            txs = room.txs ++ (new_tx room (hash raw) raw now from_local from_addr ∷ []);
          },
        ))

unfoldable pub remove_from : List PoolTx → List ℕ → Option (List PoolTx)
remove_from [] txid = none
remove_from (t ∷ ts) txid =
    let rest = remove_from ts txid in
    if bytes_eq t.txid txid then some ts else elim rest [ none ↦ none | some ts' ↦ some (t ∷ ts') ]

unfoldable pub pool_remove : Pool → List ℕ → Code × Pool
pool_remove pool txid = elim (remove_from pool.txs txid) [
  | none ↦ (failed, pool)
  | some ts ↦ (ok, record pool { txs = ts })
]

abbrev pub pool_is_full : Pool → Bool
pool_is_full pool = leb pool.max_size (length pool.txs)

-- A copy for a selector has no buffer.
abbrev pub without_raw : PoolTx → PoolTx
without_raw t = record t { raw = none }

-- The loop of `txpool_select`, with `room` places and `total` bytes taken.
unfoldable pub select_from : List PoolTx → ℕ → ℕ → ℕ → List PoolTx
select_from ts zero max_bytes total = []
select_from [] (suc room) max_bytes total = []
select_from (t ∷ ts) (suc room) max_bytes total =
    if ltb max_bytes (add64 total t.raw_len)
    then select_from ts (suc room) max_bytes total
    else without_raw t ∷ select_from ts room max_bytes (add64 total t.raw_len)

-- `none` is the code -1; `allocated` is the selector's allocation.
unfoldable pub pool_select : Pool → ℕ → ℕ → Bool → Option (List PoolTx)
pool_select pool max_count max_bytes allocated =
    if (max_count == 0) || not allocated
    then none
    else some (select_from pool.txs max_count max_bytes 0)

unfoldable pub select_by_gas :
    (List PoolTx → List PoolTx) → Pool → ℕ → ℕ → Bool → Option (List PoolTx) × Pool
select_by_gas sort pool max_count max_bytes allocated =
    let pool' = sort_by_gas sort pool in (pool_select pool' max_count max_bytes allocated, pool')

unfoldable pub replace_first : List PoolTx → List ℕ → PoolTx → List PoolTx
replace_first [] txid u = []
replace_first (t ∷ ts) txid u =
    let rest = replace_first ts txid u in if bytes_eq t.txid txid then u ∷ ts else t ∷ rest

-- The code, whether the entry was replaced, and the pool. A failed allocation leaves a null buffer.
unfoldable pub replace_by_fee : Pool → List ℕ → List ℕ → ℕ → Bool → Code × Bool × Pool
replace_by_fee pool new_raw txid now allocated = elim (pool_get pool txid) [
  | none ↦ (ok, false, pool)
  | some t ↦
      let price = mul64 pool.min_gas_price 2 in
      if not (ltb (mul64 t.gas_price pool.rbf_percent / 100) price)
      then (ok, false, pool)
      else if not allocated
      then (
        failed,
        false,
        record pool { txs = replace_first pool.txs txid (record t { raw = none }) },
      )
      else (
        ok,
        true,
        record pool {
          txs = replace_first pool.txs txid (record t {
            raw = some new_raw;
            raw_len = length new_raw;
            gas_price = price;
            arrival_time = now;
          });
        },
      )
]

unfoldable pub pool_get_all : Pool → Bool → Option (List PoolTx)
pool_get_all pool allocated =
    if (length pool.txs == 0) || not allocated then none else some (map without_raw pool.txs)

abbrev pub in_range : ℕ → ℕ → PoolTx → Bool
in_range min_nonce max_nonce t = leb min_nonce t.nonce && leb t.nonce max_nonce

unfoldable pub range_from : List PoolTx → ℕ → ℕ → List PoolTx
range_from [] min_nonce max_nonce = []
range_from (t ∷ ts) min_nonce max_nonce =
    let rest = range_from ts min_nonce max_nonce in
    if in_range min_nonce max_nonce t then without_raw t ∷ rest else rest

unfoldable pub get_by_nonce_range : Pool → ℕ → ℕ → Bool → Option (List PoolTx)
get_by_nonce_range pool min_nonce max_nonce allocated =
    if (length pool.txs == 0) || not allocated
    then none
    else some (range_from pool.txs min_nonce max_nonce)

unfoldable pub keep_from : List PoolTx → ℕ → List PoolTx
keep_from [] min_nonce = []
keep_from (t ∷ ts) min_nonce =
    let rest = keep_from ts min_nonce in if leb min_nonce t.nonce then t ∷ rest else rest

unfoldable pub remove_below_nonce : Pool → ℕ → Pool
remove_below_nonce pool min_nonce = record pool { txs = keep_from pool.txs min_nonce }

-- `sort` is `qsort` with the comparison by fee, the highest first.
abbrev pub sort_by_fee : (List PoolTx → List PoolTx) → Pool → Pool
sort_by_fee sort pool = record pool { txs = sort pool.txs }

-- `sort` is `qsort` with the comparison by arrival, the earliest first.
abbrev pub sort_by_arrival : (List PoolTx → List PoolTx) → Pool → Pool
sort_by_arrival sort pool = record pool { txs = sort pool.txs }

-- The loop of `txpool_get_next_nonce`, with `next` for `max_nonce + 1`. A nonce from 2^31 on is
-- negative as an `int`, and so never above the maximum.
unfoldable pub next_nonce_from : List PoolTx → ℕ → ℕ
next_nonce_from [] next = next
next_nonce_from (t ∷ ts) next =
    next_nonce_from ts (if ltb t.nonce (2 ^ 31) && leb next t.nonce then t.nonce + 1 else next)

unfoldable pub get_next_nonce : Pool → ℕ
get_next_nonce pool = next_nonce_from pool.txs 0

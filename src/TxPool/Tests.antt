-- ===== src/TxPool/Tests.antt =====
-- The theorems on tx_pool.c (mini-blockchain-core/src) at concrete pools.
use mini_security_crypto_web.Prelude.{
  ℕ, ◌+◌, ◌≤◌, ◌<◌, ◌≡◌, refl, Bool, true, false, Option, none, some, ◌⊎◌, inl, inr, List, [], ◌∷◌,
  replicate, take, length, arith, All, u64_mod,
}
use mini_security_crypto_web.Prelude.ByteString.{bytes_eq}
use mini_security_crypto_web.TxPool.{Pool, PoolTx, pool_add, pool_select, new_tx}
use mini_security_crypto_web.TxPool.Hold.{IsHeld, IsPermuting, pool_add-IsHeld}
use mini_security_crypto_web.TxPool.Select.{bytes_of, HasNoRaw, pool_select_fits}

abbrev first_id : List ℕ
first_id = replicate 32 1

abbrev other_id : List ℕ
other_id = replicate 32 2

abbrev no_hash : List ℕ → List ℕ
no_hash raw = take 32 raw

abbrev same_order : List PoolTx → List PoolTx
same_order ts = ts

same_order-IsPermuting : IsPermuting same_order
same_order-IsPermuting = record { keeps = λ f ts. refl }

abbrev payment : List ℕ
payment = 1 ∷ replicate 40 0

abbrev empty : Pool
empty = record { txs = []; capacity = 2; max_size = 2; min_gas_price = 1; rbf_percent = 110 }

abbrev holding : Pool
holding = record empty { txs = new_tx empty first_id payment 5 true none ∷ [] }

holding-IsHeld : IsHeld holding
holding-IsHeld = record { fits = omega arith; single = λ txid. ground arith }

pool_add-IsHeld_example : IsHeld (pool_add no_hash same_order holding payment true none 6 true).2
pool_add-IsHeld_example =
    pool_add-IsHeld no_hash same_order holding payment true none 6 true same_order-IsPermuting
      holding-IsHeld

ids_differ : bytes_eq first_id other_id ≡ false
unfolding mini_security_crypto_web.Prelude.ByteString.bytes_eq
ids_differ = refl

pool_select_fits_example :
    ((◌≡◌ {A = ℕ} 3 0) × (pool_select holding 3 100 true ≡ none))
    ⊎ ((chosen : List PoolTx) × (pool_select holding 3 100 true ≡ some chosen)
        × (length chosen ≤ 3)
        × (bytes_of chosen ≤ 100)
        × All HasNoRaw chosen)
pool_select_fits_example = pool_select_fits holding 3 100 (omega arith)

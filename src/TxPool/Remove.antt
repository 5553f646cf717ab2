-- ===== src/TxPool/Remove.antt =====
-- What `txpool_remove` takes out of the pool.
use mini_security_crypto_web.Prelude.{
  ℕ, ◌+◌, ◌≡◌, refl, ap, false, none, some, List, [], ◌∷◌, arith, Option-cases, Bool-cases, ◌⊎◌,
  inl, inr, if◌then◌else◌,
}
use mini_security_crypto_web.Prelude.ByteString.{bytes_eq, bytes_eq_iff, bytes_eq_refl}
use mini_security_crypto_web.TxPool.{Pool, PoolTx, ok, failed, remove_from, pool_remove}
use mini_security_crypto_web.TxPool.Hold.{IsHeld, copies}

copies-remove_from :
    (ts us : List PoolTx) (txid other : List ℕ)
    → remove_from ts txid ≡ some us
    → copies other ts ≡ copies other us + (if bytes_eq txid other then 1 else 0)
unfolding remove_from
copies-remove_from [] us txid other h = cc
copies-remove_from (t ∷ ts) us txid other h = elim (Bool-cases (bytes_eq t.txid txid)) [
  | inl e ↦
      let same : t.txid ≡ txid = (bytes_eq_iff t.txid txid).0 e in
      let w : bytes_eq t.txid other ≡ bytes_eq txid other = ap (λ x. bytes_eq x other) same in
      ground (arith, w)
  | inr e ↦ elim (Option-cases (remove_from ts txid)) [
    | inl q ↦ ground arith
    | inr (vs, q) ↦ ground (arith, copies-remove_from ts vs txid other q)
  ]
]

remove_from-none :
    (ts : List PoolTx) (txid : List ℕ) → remove_from ts txid ≡ none → copies txid ts ≡ 0
unfolding remove_from
remove_from-none [] txid h = refl
remove_from-none (t ∷ ts) txid h = elim (Option-cases (remove_from ts txid)) [
  | inl q ↦ ground (arith, remove_from-none ts txid q)
  | inr (vs, q) ↦ ground arith
]

-- After `txpool_remove` a held pool has no entry with the identifier, and as many as before with any
-- other one; it says so by its code whether there was one.
pub pool_remove-copies :
    (pool : Pool) (txid other : List ℕ)
    → IsHeld pool
    → bytes_eq txid other ≡ false
    → let (code, pool') = pool_remove pool txid in
      (copies txid pool'.txs ≡ 0)
      × (copies other pool'.txs ≡ copies other pool.txs)
      × (((code ≡ ok) × (copies txid pool.txs ≡ 1))
          ⊎ ((code ≡ failed) × (copies txid pool.txs ≡ 0)))
unfolding pool_remove
pool_remove-copies pool txid other v ne = elim (Option-cases (remove_from pool.txs txid)) [
  | inl q ↦
      let z = remove_from-none pool.txs txid q in
      (ground (arith, z), ground arith, ground (arith, z))
  | inr (us, q) ↦
      let c = copies-remove_from pool.txs us txid txid q in
      let d = copies-remove_from pool.txs us txid other q in
      let s = bytes_eq_refl txid in
      let o = v.single txid in (ground (arith, c, o, s), ground (arith, d), ground (arith, c, o, s))
]

-- ===== src/Utxo/Selection.antt =====
-- The selection of coins.
use mini_security_crypto_web.Prelude.{
  ℕ, zero, suc, ◌+◌, ◌-◌, ◌≤◌, ◌<◌, ◌≡◌, refl, true, false, none, some, List, [], ◌∷◌, arith, leb,
  ltb, add64, mul64, u64_mod, All, Bool-cases, ◌⊎◌, inl, inr, length, if◌then◌else◌,
}
use native.Mathlib.Nat.{zero-add}
use mini_security_crypto_web.Utxo.{UtxoSet, Entry, Picked, gather, copy_unspent, coin_selection}

abbrev pub sum_by : (Entry → ℕ) → List Entry → ℕ
sum_by f [] = 0
sum_by f (e ∷ es) = f e + sum_by f es

-- What `qsort` is used for here: it permutes, and so keeps the sum of any weight.
pub record IsPermuting (sort : List Entry → List Entry) : Type 0 where
  pub keeps : (f : Entry → ℕ) (es : List Entry) → sum_by f (sort es) ≡ sum_by f es

abbrev pub available : Entry → ℕ
available e = if e.spent then 0 else e.value

abbrev pub IsUnspent : Entry → Type 0
IsUnspent e = e.spent ≡ false

copy_unspent-spent :
    (e : Entry) (es : List Entry) (k : ℕ)
    → e.spent ≡ true
    → copy_unspent (e ∷ es) k ≡ copy_unspent es k
unfolding copy_unspent
copy_unspent-spent e [] zero h = refl
copy_unspent-spent e (x ∷ es) zero h = refl
copy_unspent-spent e es (suc k) h = ground arith

copy_unspent-unspent :
    (e : Entry) (es : List Entry) (k : ℕ)
    → e.spent ≡ false
    → copy_unspent (e ∷ es) (suc k) ≡ e ∷ copy_unspent es k
unfolding copy_unspent
copy_unspent-unspent e es k h = ground arith

copied-le :
    (es : List Entry) (k : ℕ) → sum_by (λ e. e.value) (copy_unspent es k) ≤ sum_by available es
unfolding copy_unspent
copied-le [] zero = omega arith
copied-le [] (suc k) = omega arith
copied-le (e ∷ es) zero = omega arith
copied-le (e ∷ es) (suc k) = elim (Bool-cases e.spent) [
  | inl t ↦ ground (arith, copy_unspent-spent e es (suc k) t, copied-le es (suc k))
  | inr t ↦ ground (arith, copy_unspent-unspent e es k t, copied-le es k)
]

-- The coins that `gather` counts, from `n` counted with the sum `s`, are copied and worth its sum;
-- and the sum reaches the bound, or takes in all that is available.
gather-copy :
    (es : List Entry) (bound s n : ℕ)
    → s + sum_by available es < u64_mod
    → (k : ℕ) × ((gather es bound s n).1 ≡ n + k)
      × ((gather es bound s n).0 ≡ s + sum_by (λ e. e.value) (copy_unspent es k))
      × (length (copy_unspent es k) ≡ k)
      × All IsUnspent (copy_unspent es k)
      × ((bound ≤ (gather es bound s n).0) ⊎ ((gather es bound s n).0 ≡ s + sum_by available es))
unfolding gather copy_unspent
gather-copy [] bound s n h = (0, ground arith, ground arith, refl, tt, inr (ground arith))
gather-copy (e ∷ es) bound s n h = elim (Bool-cases e.spent) [
  | inl t ↦
      let (k, a, b, l, u, o) = gather-copy es bound s n (ground arith) in
      let c = copy_unspent-spent e es k t in
      (k, ground (arith, a), ground (arith, b, c), ground (arith, c, l), rw c u, ground (arith, o))
  | inr t ↦ elim (Bool-cases (leb bound (add64 s e.value))) [
    | inl w ↦
        let c = copy_unspent-unspent e es 0 t in
        (1, ground arith, ground (arith, c), ground (arith, c), rw c (t, tt), inl (ground arith))
    | inr w ↦
        let (k, a, b, l, u, o) = gather-copy es bound (add64 s e.value) (n + 1) (ground arith) in
        let c = copy_unspent-unspent e es k t in
        (
          suc k,
          ground (arith, a),
          ground (arith, b, c),
          ground (arith, c, l),
          rw c (t, u),
          ground (arith, o),
        )
  ]
]

-- `utxo_coin_selection` on a set that is not empty, with its allocations and a sort that permutes,
-- where what is available fits 64 bits and so does the target plus the fee for 200 bytes, as computed
-- modulo 2 ^ 64 (the sum at which the code stops early, which wraps otherwise), fails exactly where the unspent coins are worth less than the target. Where it
-- succeeds, the coins it hands out are unspent, it counts them, their values add up to its total,
-- and the target and the change make up that total.
pub coin_selection_covers :
    (sort : List Entry → List Entry) (set : UtxoSet) (target fee : ℕ)
    → IsPermuting sort
    → 0 < length set.entries
    → sum_by available set.entries < u64_mod
    → target + mul64 fee 200 < u64_mod
    → ((sum_by available set.entries < target)
        × (coin_selection sort true true set target fee ≡ none))
      ⊎ ((target ≤ sum_by available set.entries)
          × ((r : Picked) × (coin_selection sort true true set target fee ≡ some r)
              × All IsUnspent r.selected
              × (r.count ≡ length r.selected)
              × (r.total ≡ sum_by (λ e. e.value) r.selected)
              × (r.total ≡ target + r.change)))
unfolding coin_selection
coin_selection_covers sort set target fee p full fits small =
    let bound = add64 target (mul64 fee 200) in
    let q = p.keeps available set.entries in
    let (k, a, b, l, u, o) = gather-copy (sort set.entries) bound 0 0 (omega (arith, q)) in
    let sorted = sort set.entries in
    let c = copied-le sorted k in
    elim (Bool-cases (ltb (sum_by available set.entries) target)) [
      | inl t ↦ inl (ground arith, ground (arith, b, c, q))
      | inr t ↦
          let (sum, sel) = gather sorted bound 0 0 in
          let enough : target ≤ sum = ground (arith, b, o, q) in
          inr (
            ground arith,
            (
              record {
                selected = copy_unspent sorted sel;
                count = sel;
                total = sum;
                change = sum - target;
              },
              ground arith,
              rw (a, zero-add k) u,
              ground (arith, a, l),
              ground (arith, a, b),
              omega arith,
            ),
          )
    ]

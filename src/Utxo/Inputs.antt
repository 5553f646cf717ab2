-- ===== src/Utxo/Inputs.antt =====
-- The check of a transaction's inputs against the set.
use mini_security_crypto_web.Prelude.{
  ℕ, ◌+◌, ◌%◌, ◌≤◌, ◌<◌, ◌≡◌, ◌↔◌, false, none, some, List, [], ◌∷◌, arith, add64, u64_mod, IsU64,
  All, Option-cases, Bool-cases, inl, inr,
}
use mini_security_crypto_web.Utxo.{
  UtxoSet, Entry, Transaction, TxIn, TxOut, ok, set_find, total_in_from, total_out_from,
  verify_tx_inputs,
}

-- The input names an entry of the set that is not spent.
abbrev pub IsSpendable : UtxoSet → TxIn → Type 0
IsSpendable set i = (e : Entry) × (set_find set i.prev_txid i.vout ≡ some e) × (e.spent ≡ false)

abbrev value_at : UtxoSet → TxIn → ℕ
value_at set i = elim (set_find set i.prev_txid i.vout) [ none ↦ 0 | some e ↦ e.value ]

abbrev pub sum_in : UtxoSet → List TxIn → ℕ
sum_in set [] = 0
sum_in set (i ∷ is) = value_at set i + sum_in set is

abbrev pub sum_out : List TxOut → ℕ
sum_out [] = 0
sum_out (o ∷ os) = o.value + sum_out os

total_out_from-sum :
    (os : List TxOut) (n : ℕ) → IsU64 n → total_out_from os n ≡ (n + sum_out os) % u64_mod
unfolding total_out_from
total_out_from-sum [] n h = ground arith
total_out_from-sum (o ∷ os) n h =
    ground (arith, total_out_from-sum os (add64 n o.value) (omega arith))

total_in_from-sum :
    (set : UtxoSet) (is : List TxIn) (n : ℕ)
    → IsU64 n
    → All (IsSpendable set) is
    → total_in_from set is n ≡ some ((n + sum_in set is) % u64_mod)
unfolding total_in_from
total_in_from-sum set [] n h a = ground arith
total_in_from-sum set (i ∷ is) n h ((e, f, u), a) =
    ground (arith, f, u, total_in_from-sum set is (add64 n e.value) (omega arith) a)

total_in_from-IsSpendable :
    (set : UtxoSet) (is : List TxIn) (n m : ℕ)
    → total_in_from set is n ≡ some m
    → All (IsSpendable set) is
unfolding total_in_from
total_in_from-IsSpendable set [] n m h = tt
total_in_from-IsSpendable set (i ∷ is) n m h =
    elim (Option-cases (set_find set i.prev_txid i.vout)) [
      | inl q ↦ ground arith
      | inr (e, q) ↦ elim (Bool-cases e.spent) [
        | inl s ↦ ground arith
        | inr s ↦ ((e, q, s), total_in_from-IsSpendable set is (add64 n e.value) m (ground arith))
      ]
    ]

-- `utxo_verify_tx_inputs` accepts exactly the transactions whose every input names an unspent entry
-- of the set, and whose inputs, summed modulo 2^64, are worth at least the outputs, summed so too.
pub verify_tx_inputs_iff :
    (tx : Transaction) (set : UtxoSet)
    → (verify_tx_inputs tx set ≡ ok) ↔ (
        All (IsSpendable set) tx.inputs
        × (sum_out tx.outputs % u64_mod ≤ sum_in set tx.inputs % u64_mod))
unfolding verify_tx_inputs
verify_tx_inputs_iff tx set = (accepted, sufficient)
  where
    outs : total_out_from tx.outputs 0 ≡ sum_out tx.outputs % u64_mod
    outs = ground (arith, total_out_from-sum tx.outputs 0 (omega arith))

    accepted :
        verify_tx_inputs tx set ≡ ok
        → All (IsSpendable set) tx.inputs
          × (sum_out tx.outputs % u64_mod ≤ sum_in set tx.inputs % u64_mod)
    accepted h = elim (Option-cases (total_in_from set tx.inputs 0)) [
      | inl q ↦ absurd (ground arith)
      | inr (m, q) ↦
          let a = total_in_from-IsSpendable set tx.inputs 0 m q in
          let s = total_in_from-sum set tx.inputs 0 (omega arith) a in (a, ground (arith, s, outs))
    ]

    sufficient :
        All (IsSpendable set) tx.inputs
          × (sum_out tx.outputs % u64_mod ≤ sum_in set tx.inputs % u64_mod)
        → verify_tx_inputs tx set ≡ ok
    sufficient (a, le) =
        let s = total_in_from-sum set tx.inputs 0 (omega arith) a in ground (arith, s, outs)

-- The inputs are not compared with each other: a transaction that names one unspent entry twice may
-- pay out twice the entry's value, where that fits 64 bits.
pub duplicate_input_passes :
    (tx : Transaction) (set : UtxoSet) (i : TxIn) (o : TxOut) (e : Entry)
    → set_find set i.prev_txid i.vout ≡ some e
    → e.spent ≡ false
    → e.value + e.value < u64_mod
    → tx.inputs ≡ i ∷ i ∷ []
    → tx.outputs ≡ o ∷ []
    → o.value ≡ e.value + e.value
    → verify_tx_inputs tx set ≡ ok
unfolding verify_tx_inputs
duplicate_input_passes tx set i o e f u small p q v =
    let a : All (IsSpendable set) (i ∷ i ∷ []) = ((e, f, u), ((e, f, u), tt)) in
    let w = total_in_from-sum set (i ∷ i ∷ []) 0 (omega arith) a in
    let z = total_out_from-sum (o ∷ []) 0 (omega arith) in ground (arith, w, z)

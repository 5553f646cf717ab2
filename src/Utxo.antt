-- ===== src/Utxo.antt =====
-- The set of unspent outputs of mini-blockchain-core/src/utxo_model.c: transactions, the set, the
-- check of a transaction's inputs, and the selection of coins. Arrays in use are lists; a size_t or a
-- uint64_t wraps around; whether an allocation succeeds, and the sort of the C library, are arguments.
pub mod Set
pub mod Inputs
pub mod Selection
pub mod Format
mod Tests
use mini_security_crypto_web.Prelude.{
  ℕ, zero, suc, ◌+◌, ◌-◌, Bool, true, false, not, ◌&&◌, Option, none, some, List, [], ◌∷◌, ◌++◌,
  leb, ltb, ◌==◌, add64, mul64, length, take, replicate, if◌then◌else◌,
}
use mini_security_crypto_web.Prelude.ByteString.{bytes_eq}

abbrev pub max_inputs : ℕ
max_inputs = 256

abbrev pub max_outputs : ℕ
max_outputs = 256

abbrev pub script_pub_max : ℕ
script_pub_max = 256

-- `script_sig` is the part of the array that `scriptSig_len` counts.
pub record TxIn : Type 0 where
  pub prev_txid : List ℕ
  pub vout : ℕ
  pub script_sig : List ℕ

pub record TxOut : Type 0 where
  pub value : ℕ
  pub script_pub_key : List ℕ

pub record Transaction : Type 0 where
  pub txid : List ℕ
  pub inputs : List TxIn
  pub outputs : List TxOut
  pub locktime : ℕ
  pub version : ℕ

pub record Entry : Type 0 where
  pub txid : List ℕ
  pub vout : ℕ
  pub value : ℕ
  pub script_pub_key : List ℕ
  pub height : ℕ
  pub spent : Bool

pub record UtxoSet : Type 0 where
  pub entries : List Entry
  pub capacity : ℕ

-- A return code: 0, or -1.
pub data Code : Type 0 where
  ok : Code
  failed : Code

abbrev pub tx_create : Transaction
tx_create = record { txid = replicate 32 0; inputs = []; outputs = []; locktime = 0; version = 1 }

unfoldable pub tx_add_input : Transaction → List ℕ → ℕ → Code × Transaction
tx_add_input tx prev_txid vout = if leb max_inputs (length tx.inputs) then (failed, tx) else (
  ok,
  record tx {
    inputs = tx.inputs ++ (record { prev_txid = prev_txid; vout = vout; script_sig = [] } ∷ []);
  },
)

-- `len` is the length of the script that the caller gives.
unfoldable pub tx_add_output : Transaction → ℕ → List ℕ → Code × Transaction
tx_add_output tx value script =
    if leb max_outputs (length tx.outputs)
    then (failed, tx)
    else if ltb script_pub_max (length script)
    then (failed, tx)
    else (
      ok,
      record tx {
        outputs = tx.outputs ++ (record { value = value; script_pub_key = script } ∷ []);
      },
    )

abbrev pub set_init : ℕ → Bool → Option UtxoSet
set_init capacity allocated =
    if capacity == 0
    then none
    else if allocated
    then some (record { entries = []; capacity = capacity })
    else none

abbrev pub set_free : UtxoSet
set_free = record { entries = []; capacity = 0 }

abbrev pub unspent : Entry → Entry
unspent e = record e { spent = false }

unfoldable pub set_add : UtxoSet → Entry → Bool → Code × UtxoSet
set_add set entry reallocated =
    let added = set.entries ++ (unspent entry ∷ []) in
    if leb set.capacity (length set.entries)
    then (if reallocated
        then (ok, record { entries = added; capacity = mul64 set.capacity 2 })
        else (failed, set))
    else (ok, record set { entries = added })

-- The test of every loop over the set.
abbrev pub is_at : List ℕ → ℕ → Entry → Bool
is_at txid vout e = bytes_eq e.txid txid && (e.vout == vout)

unfoldable pub find_from : List Entry → List ℕ → ℕ → Option Entry
find_from [] txid vout = none
find_from (e ∷ es) txid vout = if is_at txid vout e then some e else find_from es txid vout

unfoldable pub set_find : UtxoSet → List ℕ → ℕ → Option Entry
set_find set txid vout = find_from set.entries txid vout

unfoldable pub remove_from : List Entry → List ℕ → ℕ → Option (List Entry)
remove_from [] txid vout = none
remove_from (e ∷ es) txid vout =
    let rest = remove_from es txid vout in
    if is_at txid vout e then some es else elim rest [ none ↦ none | some es' ↦ some (e ∷ es') ]

unfoldable pub set_remove : UtxoSet → List ℕ → ℕ → Code × UtxoSet
set_remove set txid vout = elim (remove_from set.entries txid vout) [
  | none ↦ (failed, set)
  | some es ↦ (ok, record set { entries = es })
]

-- The first entry at the outpoint, marked as spent; `none` where there is none, or it is spent.
unfoldable pub spend_from : List Entry → List ℕ → ℕ → Option (List Entry)
spend_from [] txid vout = none
spend_from (e ∷ es) txid vout =
    let rest = spend_from es txid vout in
    if is_at txid vout e
    then (if e.spent then none else some (record e { spent = true } ∷ es))
    else elim rest [ none ↦ none | some es' ↦ some (e ∷ es') ]

unfoldable pub set_spend : UtxoSet → List ℕ → ℕ → Code × UtxoSet
set_spend set txid vout = elim (spend_from set.entries txid vout) [
  | none ↦ (failed, set)
  | some es ↦ (ok, record set { entries = es })
]

unfoldable pub set_is_spent : UtxoSet → List ℕ → ℕ → Bool
set_is_spent set txid vout = elim (set_find set txid vout) [ none ↦ true | some e ↦ e.spent ]

-- The first loop of `utxo_verify_tx_inputs`: the total of the inputs, or `none` at an early return.
unfoldable pub total_in_from : UtxoSet → List TxIn → ℕ → Option ℕ
total_in_from set [] total = some total
total_in_from set (i ∷ is) total = elim (set_find set i.prev_txid i.vout) [
  | none ↦ none
  | some e ↦ if e.spent then none else total_in_from set is (add64 total e.value)
]

unfoldable pub total_out_from : List TxOut → ℕ → ℕ
total_out_from [] total = total
total_out_from (o ∷ os) total = total_out_from os (add64 total o.value)

unfoldable pub verify_tx_inputs : Transaction → UtxoSet → Code
verify_tx_inputs tx set = elim (total_in_from set tx.inputs 0) [
  | none ↦ failed
  | some total_in ↦ if ltb total_in (total_out_from tx.outputs 0) then failed else ok
]

-- The loop that adds coins up to the bound: the sum and the number of coins.
unfoldable pub gather : List Entry → ℕ → ℕ → ℕ → ℕ × ℕ
gather [] bound sum sel = (sum, sel)
gather (e ∷ es) bound sum sel =
    if e.spent
    then gather es bound sum sel
    else if leb bound (add64 sum e.value)
    then (add64 sum e.value, sel + 1)
    else gather es bound (add64 sum e.value) (sel + 1)

-- The loop that copies the first `n` coins that are not spent.
unfoldable pub copy_unspent : List Entry → ℕ → List Entry
copy_unspent es zero = []
copy_unspent [] (suc n) = []
copy_unspent (e ∷ es) (suc n) = if e.spent then copy_unspent es (suc n) else e ∷ copy_unspent es n

pub record Picked : Type 0 where
  pub selected : List Entry
  pub count : ℕ
  pub total : ℕ
  pub change : ℕ

-- `sort` is `qsort` by value, the largest first; `allocated` and `copied` are the two allocations.
unfoldable pub coin_selection :
    (List Entry → List Entry) → Bool → Bool → UtxoSet → ℕ → ℕ → Option Picked
coin_selection sort allocated copied set target fee_per_byte =
    if length set.entries == 0
    then none
    else if not allocated
    then none
    else (let sorted = sort set.entries in
        let (sum, sel) = gather sorted (add64 target (mul64 fee_per_byte 200)) 0 0 in
        if ltb sum target
        then none
        else if not copied
        then none
        else some (record {
          selected = copy_unspent sorted sel;
          count = sel;
          total = sum;
          change = if ltb target sum then sum - target else 0;
        }))

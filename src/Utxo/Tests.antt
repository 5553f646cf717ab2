-- ===== src/Utxo/Tests.antt =====
-- The theorems on utxo_model.c (mini-blockchain-core/src) at concrete sets.
use mini_security_crypto_web.Prelude.{
  ℕ, ◌+◌, ◌%◌, ◌≤◌, ◌<◌, ◌≡◌, ◌≢◌, ◌↔◌, refl, Bool, true, false, ◌&&◌, Option, none, some, ◌⊎◌, inl,
  inr, List, [], ◌∷◌, ◌++◌, ◌-◌, replicate, length, arith, ◌==◌, u64_mod, mul64, All,
}
use mini_security_crypto_web.Prelude.ByteString.{bytes_eq}
use mini_security_crypto_web.Utxo.{
  UtxoSet, Entry, Transaction, TxIn, TxOut, Picked, ok, failed, is_at, set_find, find_from,
  set_spend, set_is_spent, verify_tx_inputs, coin_selection,
}
use mini_security_crypto_web.Utxo.Format.{serialize_tx, deserialize_tx, made, refused}
use mini_security_crypto_web.Utxo.Format.Reading.{tx_bytes}
use mini_security_crypto_web.Utxo.Format.RoundTrip.{deserialize_tx-serialize_tx}
use mini_security_crypto_web.Utxo.Set.{spend_once}
use mini_security_crypto_web.Utxo.Inputs.{IsSpendable, sum_in, sum_out, verify_tx_inputs_iff}
use mini_security_crypto_web.Utxo.Selection.{
  sum_by, IsPermuting, IsUnspent, available, coin_selection_covers,
}

abbrev first_id : List ℕ
first_id = replicate 32 1

abbrev other_id : List ℕ
other_id = replicate 32 2

abbrev coin : Entry
coin = record {
  txid = first_id;
  vout = 0;
  value = 50;
  script_pub_key = [];
  height = 9;
  spent = false;
}

abbrev next_coin : Entry
next_coin = record coin { vout = 1; value = 30 }

abbrev one_coin : UtxoSet
one_coin = record { entries = coin ∷ []; capacity = 1 }

next_is_new : set_find one_coin first_id 1 ≡ none
unfolding set_find find_from mini_security_crypto_web.Prelude.ByteString.bytes_eq
next_is_new = refl

coin_is_elsewhere : is_at first_id 0 next_coin ≡ false
unfolding mini_security_crypto_web.Prelude.ByteString.bytes_eq
coin_is_elsewhere = refl

coin_is_found : set_find one_coin first_id 0 ≡ some coin
unfolding set_find find_from mini_security_crypto_web.Prelude.ByteString.bytes_eq
coin_is_found = refl

ids_differ : bytes_eq first_id other_id && (0 == 0) ≡ false
unfolding mini_security_crypto_web.Prelude.ByteString.bytes_eq
ids_differ = refl

spend_once_example :
    let (code, set') = set_spend one_coin first_id 0 in
    (code ≡ ok)
    × (set_is_spent one_coin first_id 0 ≡ false)
    × (set_is_spent set' first_id 0 ≡ true)
    × (set_find set' other_id 0 ≡ set_find one_coin other_id 0)
    × (set_spend set' first_id 0 ≡ (failed, set'))
spend_once_example = spend_once one_coin coin first_id other_id 0 0 coin_is_found refl ids_differ

abbrev spends : TxIn
spends = record { prev_txid = first_id; vout = 0; script_sig = [] }

abbrev pays : TxOut
pays = record { value = 100; script_pub_key = [] }

abbrev doubled : Transaction
doubled = record {
  txid = other_id;
  inputs = spends ∷ spends ∷ [];
  outputs = pays ∷ [];
  locktime = 0;
  version = 1;
}

verify_tx_inputs_iff_example : (verify_tx_inputs doubled one_coin ≡ ok) ↔ (
    All (IsSpendable one_coin) doubled.inputs
    × (sum_out doubled.outputs % u64_mod ≤ sum_in one_coin doubled.inputs % u64_mod))
verify_tx_inputs_iff_example = verify_tx_inputs_iff doubled one_coin

abbrev same_order : List Entry → List Entry
same_order es = es

same_order-IsPermuting : IsPermuting same_order
same_order-IsPermuting = record { keeps = λ f es. refl }

coin_selection_covers_example :
    ((sum_by available one_coin.entries < 20)
      × (coin_selection same_order true true one_coin 20 1 ≡ none))
    ⊎ ((20 ≤ sum_by available one_coin.entries)
        × ((r : Picked) × (coin_selection same_order true true one_coin 20 1 ≡ some r)
            × All IsUnspent r.selected
            × (r.count ≡ length r.selected)
            × (r.total ≡ sum_by (λ e. e.value) r.selected)
            × (r.total ≡ 20 + r.change)))
coin_selection_covers_example =
    coin_selection_covers same_order one_coin 20 1 same_order-IsPermuting (omega arith)
      (omega arith) (omega arith)

abbrev spending : TxIn
spending = record { prev_txid = replicate 32 9; vout = 1; script_sig = 7 ∷ 8 ∷ [] }

abbrev paying : TxOut
paying = record { value = 5000; script_pub_key = 3 ∷ [] }

abbrev small_tx : Transaction
small_tx = record {
  txid = replicate 32 4;
  inputs = spending ∷ [];
  outputs = paying ∷ [];
  locktime = 77;
  version = 2;
}

deserialize_tx-serialize_tx_example :
    (serialize_tx small_tx 100 ≡ made (tx_bytes small_tx))
    × (deserialize_tx (tx_bytes small_tx ++ replicate (100 - length (tx_bytes small_tx)) 0)
        ≡ made (record small_tx { txid = replicate 32 0 }))
deserialize_tx-serialize_tx_example =
    deserialize_tx-serialize_tx small_tx 100
      (
        omega arith,
        omega arith,
        ((refl, omega arith, omega arith), tt),
        ((omega arith, omega arith), tt),
        omega arith,
        omega arith,
      )
      (omega arith)

-- With the length that was written, the bytes of the same transaction are refused.
exact_length_refused : deserialize_tx (tx_bytes small_tx) ≡ refused
unfolding deserialize_tx
exact_length_refused = refl

-- ===== src/Utxo/Format/RoundTrip.antt =====
-- Writing a transaction to a buffer and reading it, mini-blockchain-core/src/utxo_model.c.
use mini_security_crypto_web.Prelude.{
  ℕ, ◌+◌, ◌-◌, ◌≤◌, ◌≡◌, refl, sym, ap, ◌∙◌, arith, List, [], ◌∷◌, ◌++◌, length, take, replicate,
  All, length-append, length-replicate,
}
use mini_security_crypto_web.Prelude.ByteString.{le_bytes, from_le, from_le-le_bytes}
use mini_security_crypto_web.Utxo.{TxIn, TxOut, Transaction, max_inputs}
use mini_security_crypto_web.Utxo.Format.{
  made, fitting, input_bytes, output_bytes, write_inputs, write_outputs, serialize_tx, read_inputs,
  read_tail, deserialize_tx,
}
use mini_security_crypto_web.Utxo.Format.Reading.{
  not_ltb, take-append, drop-append, IsTxIn, IsTx, inputs_bytes, outputs_bytes, tx_bytes,
  read_inputs-bytes, read_outputs-bytes, read_tail_parts,
}
use mathlib.Core.List.{append_assoc, append-nil}

abbrev with_zero_txid : Transaction → Transaction
with_zero_txid tx = record tx { txid = replicate 32 0 }

-- Reading from the inputs on.
deserialize_parts :
    (version count rest after : List ℕ) (inputs : List TxIn) (t : Transaction)
    → length version ≡ 4
    → length count ≡ 2
    → from_le count ≡ length inputs
    → length inputs ≤ max_inputs
    → 2 ≤ length rest
    → read_inputs (length inputs) rest ≡ made (inputs, after)
    → read_tail (from_le version) inputs after ≡ made t
    → deserialize_tx (version ++ (count ++ rest)) ≡ made t
unfolding deserialize_tx
deserialize_parts version count rest after inputs t hv hc e m l r q =
    let whole : length (version ++ (count ++ rest)) ≡ 6 + length rest =
      omega (arith, length-append version (count ++ rest), length-append count rest, hv, hc) in
    let q' : read_tail (from_le (take 4 (version ++ (count ++ rest)))) inputs after ≡ made t =
      ap (λ z. read_tail (from_le z) inputs after) (take-append 4 version (count ++ rest) hv) ∙ q in
    rw
      (
        not_ltb (length (version ++ (count ++ rest))) 8 (omega (arith, whole, l)),
        drop-append 4 version (count ++ rest) hv,
        take-append 2 count rest hc,
        drop-append 2 count rest hc,
        e,
        not_ltb max_inputs (length inputs) m,
        r,
      )
      q'

tx_read :
    (tx : Transaction) (rest : List ℕ)
    → IsTx tx
    → 20 ≤ length rest
    → deserialize_tx (tx_bytes tx ++ rest) ≡ made (with_zero_txid tx)
tx_read tx rest h l =
    let v = le_bytes 4 tx.version in
    let c = le_bytes 2 (length tx.inputs) in
    let d = le_bytes 2 (length tx.outputs) in
    let k = le_bytes 4 tx.locktime in
    let tail = d ++ (outputs_bytes tx.outputs ++ (k ++ rest)) in
    let e : tx_bytes tx ++ rest ≡ v ++ (c ++ (inputs_bytes tx.inputs ++ tail)) =
      ap (λ z. v ++ (c ++ z))
        (append_assoc (inputs_bytes tx.inputs) (d ++ (outputs_bytes tx.outputs ++ k)) rest
          ∙ ap (λ z. inputs_bytes tx.inputs ++ (d ++ z))
              (append_assoc (outputs_bytes tx.outputs) k rest)) in
    let n : 26 ≤ length tail =
      omega (arith, length-append (outputs_bytes tx.outputs) (k ++ rest), l) in
    let m : 26 ≤ length (inputs_bytes tx.inputs ++ tail) =
      omega (arith, length-append (inputs_bytes tx.inputs) tail, n) in
    let q =
      read_tail_parts (from_le v) tx.inputs d (outputs_bytes tx.outputs ++ (k ++ rest)) rest
        tx.outputs k refl (from_le-le_bytes 2 (length tx.outputs) (omega (arith, h.1))) h.1
        (read_outputs-bytes tx.outputs (k ++ rest) h.3 (omega (arith, l))) refl in
    let r =
      deserialize_parts v c (inputs_bytes tx.inputs ++ tail) tail tx.inputs _ refl refl
        (from_le-le_bytes 2 (length tx.inputs) (omega (arith, h.0))) h.0 (omega (arith, m))
        (read_inputs-bytes tx.inputs tail h.2 n) q in
    ap deserialize_tx e
    ∙ r
    ∙ ap (λ z. made (record tx { txid = replicate 32 0; version = from_le v; locktime = z }))
        (from_le-le_bytes 4 tx.locktime (omega (arith, h.4)))
    ∙ ap (λ z. made (record tx { txid = replicate 32 0; version = z }))
        (from_le-le_bytes 4 tx.version (omega (arith, h.5)))

-- The writers, where the buffer has room.
write_inputs_step :
    (bufsz : ℕ) (i : TxIn) (inputs : List TxIn) (written : List ℕ)
    → length written + 64 ≤ bufsz
    → length (written ++ input_bytes i) ≤ bufsz
    → write_inputs bufsz written (i ∷ inputs) ≡ write_inputs bufsz (written ++ input_bytes i) inputs
unfolding write_inputs fitting
write_inputs_step bufsz i inputs written h k =
    rw (not_ltb bufsz (length written + 64) h, not_ltb bufsz (length (written ++ input_bytes i)) k)
      refl

write_inputs-bytes :
    (bufsz : ℕ) (inputs : List TxIn) (written : List ℕ)
    → All IsTxIn inputs
    → length (written ++ inputs_bytes inputs) + 26 ≤ bufsz
    → write_inputs bufsz written inputs ≡ made (written ++ inputs_bytes inputs)
unfolding write_inputs fitting
write_inputs-bytes bufsz [] written h l = ap made (sym (append-nil written))
write_inputs-bytes bufsz (i ∷ inputs) written h l =
    let e = append_assoc written (input_bytes i) (inputs_bytes inputs) in
    let a = length-append written (input_bytes i ++ inputs_bytes inputs) in
    let b = length-append (input_bytes i) (inputs_bytes inputs) in
    let c = length-append written (input_bytes i) in
    let z : 38 ≤ length (input_bytes i) = omega (
      arith,
      length-append i.prev_txid
          (le_bytes 4 i.vout ++ (le_bytes 2 (length i.script_sig) ++ i.script_sig)),
      h.0.0,
    ) in
    write_inputs_step bufsz i inputs written (omega (arith, a, b, l, z)) (omega (arith, a, b, c, l))
    ∙ write_inputs-bytes bufsz inputs (written ++ input_bytes i) h.1 (omega (arith, ap length e, l))
    ∙ ap made e

write_outputs_step :
    (bufsz : ℕ) (o : TxOut) (outputs : List TxOut) (written : List ℕ)
    → length written + 16 ≤ bufsz
    → length (written ++ output_bytes o) ≤ bufsz
    → write_outputs bufsz written (o ∷ outputs)
      ≡ write_outputs bufsz (written ++ output_bytes o) outputs
unfolding write_outputs fitting
write_outputs_step bufsz o outputs written h k =
    rw (not_ltb bufsz (length written + 16) h, not_ltb bufsz (length (written ++ output_bytes o)) k)
      refl

write_outputs-bytes :
    (bufsz : ℕ) (outputs : List TxOut) (written : List ℕ)
    → length (written ++ outputs_bytes outputs) + 6 ≤ bufsz
    → write_outputs bufsz written outputs ≡ made (written ++ outputs_bytes outputs)
unfolding write_outputs fitting
write_outputs-bytes bufsz [] written l = ap made (sym (append-nil written))
write_outputs-bytes bufsz (o ∷ outputs) written l =
    let e = append_assoc written (output_bytes o) (outputs_bytes outputs) in
    let a = length-append written (output_bytes o ++ outputs_bytes outputs) in
    let b = length-append (output_bytes o) (outputs_bytes outputs) in
    let c = length-append written (output_bytes o) in
    let z : 10 ≤ length (output_bytes o) = omega arith in
    write_outputs_step bufsz o outputs written (omega (arith, a, b, l, z))
      (omega (arith, a, b, c, l))
    ∙ write_outputs-bytes bufsz outputs (written ++ output_bytes o) (omega (arith, ap length e, l))
    ∙ ap made e

serialize_parts :
    (tx : Transaction) (bufsz : ℕ) (w w3 : List ℕ)
    → 8 ≤ bufsz
    → write_inputs bufsz (le_bytes 4 tx.version ++ le_bytes 2 (length tx.inputs)) tx.inputs ≡ made w
    → length (w ++ le_bytes 2 (length tx.outputs)) ≤ bufsz
    → write_outputs bufsz (w ++ le_bytes 2 (length tx.outputs)) tx.outputs ≡ made w3
    → length (w3 ++ le_bytes 4 tx.locktime) ≤ bufsz
    → serialize_tx tx bufsz ≡ made (w3 ++ le_bytes 4 tx.locktime)
unfolding serialize_tx fitting
serialize_parts tx bufsz w w3 h e l f m =
    rw
      (
        not_ltb bufsz 8 h,
        e,
        not_ltb bufsz (length (w ++ le_bytes 2 (length tx.outputs))) l,
        f,
        not_ltb bufsz (length (w3 ++ le_bytes 4 tx.locktime)) m,
      )
      refl

tx_written :
    (tx : Transaction) (bufsz : ℕ)
    → IsTx tx
    → length (tx_bytes tx) + 20 ≤ bufsz
    → serialize_tx tx bufsz ≡ made (tx_bytes tx)
tx_written tx bufsz h l =
    let head = le_bytes 4 tx.version ++ le_bytes 2 (length tx.inputs) in
    let ins = inputs_bytes tx.inputs in
    let d = le_bytes 2 (length tx.outputs) in
    let outs = outputs_bytes tx.outputs in
    let k = le_bytes 4 tx.locktime in
    let w = head ++ ins in
    let n = length-append ins (d ++ (outs ++ k)) in
    let n2 = length-append outs k in
    let a = length-append ins d in
    let b = length-append (w ++ d) outs in
    let c = length-append ((w ++ d) ++ outs) k in
    let e : ((w ++ d) ++ outs) ++ k ≡ tx_bytes tx = joined head ins d outs k in
    serialize_parts tx bufsz w ((w ++ d) ++ outs) (omega (arith, l))
      (write_inputs-bytes bufsz tx.inputs head h.2 (omega (arith, l, n, n2)))
      (omega (arith, l, n, n2, a))
      (write_outputs-bytes bufsz tx.outputs (w ++ d) (omega (arith, l, ap length e, c)))
      (omega (arith, l, ap length e))
    ∙ ap made e
  where
    joined :
        (head ins d outs k : List ℕ)
        → (((head ++ ins) ++ d) ++ outs) ++ k ≡ head ++ (ins ++ (d ++ (outs ++ k)))
    joined head ins d outs k =
        append_assoc ((head ++ ins) ++ d) outs k
        ∙ append_assoc (head ++ ins) d (outs ++ k)
        ∙ append_assoc head ins (d ++ (outs ++ k))

-- A transaction within the bounds of its arrays and fields, with 20 bytes of room behind it in the buffer, is
-- written without an error; the buffer, read back as a whole, gives the transaction with a zero identifier.
pub deserialize_tx-serialize_tx :
    (tx : Transaction) (bufsz : ℕ)
    → IsTx tx
    → length (tx_bytes tx) + 20 ≤ bufsz
    → (serialize_tx tx bufsz ≡ made (tx_bytes tx))
      × (deserialize_tx (tx_bytes tx ++ replicate (bufsz - length (tx_bytes tx)) 0)
          ≡ made (record tx { txid = replicate 32 0 }))
deserialize_tx-serialize_tx tx bufsz h l = (
  tx_written tx bufsz h l,
  tx_read tx (replicate (bufsz - length (tx_bytes tx)) 0) h
      (room (bufsz - length (tx_bytes tx)) (omega arith)),
)
  where
    room : (n : ℕ) → 20 ≤ n → 20 ≤ length (replicate {A = ℕ} n 0)
    room n k = omega (arith, length-replicate {A = ℕ} n 0)

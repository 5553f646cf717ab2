-- ===== src/Utxo/Format/Reading.antt =====
-- Reading inputs, outputs and the parts of a transaction, mini-blockchain-core/src/utxo_model.c.
use mini_security_crypto_web.Prelude.{
  ℕ, zero, suc, ◌+◌, ◌≤◌, ◌<◌, ◌≡◌, refl, ap, ◌∙◌, arith, false, List, [], ◌∷◌, ◌++◌, ltb, length,
  take, drop, replicate, All, length-append, IsU64, u32_mod,
}
use mini_security_crypto_web.Prelude.ByteString.{le_bytes, from_le, from_le-le_bytes}
use mini_security_crypto_web.Utxo.{
  TxIn, TxOut, Transaction, max_inputs, max_outputs, script_pub_max,
}
use mini_security_crypto_web.Utxo.Format.{
  made, script_sig_max, input_bytes, output_bytes, read_input, read_output, read_inputs,
  read_outputs, read_tail,
}
use mathlib.Core.List.{append_assoc}

pub not_ltb : (a b : ℕ) → b ≤ a → ltb a b ≡ false
not_ltb a b h = ground arith

pub take-append : (n : ℕ) (a b : List ℕ) → length a ≡ n → take n (a ++ b) ≡ a
take-append zero [] b h = refl
take-append (suc n) [] b h = absurd (omega arith)
take-append zero (x ∷ a) b h = absurd (omega arith)
take-append (suc n) (x ∷ a) b h = ap (λ t. x ∷ t) (take-append n a b (omega arith))

pub drop-append : (n : ℕ) (a b : List ℕ) → length a ≡ n → drop n (a ++ b) ≡ b
drop-append zero [] b h = refl
drop-append (suc n) [] b h = absurd (omega arith)
drop-append zero (x ∷ a) b h = absurd (omega arith)
drop-append (suc n) (x ∷ a) b h = drop-append n a b (omega arith)

-- What the arrays and the fields of an input, an output and a transaction hold.
abbrev pub IsTxIn : TxIn → Type 0
IsTxIn i = (length i.prev_txid ≡ 32) × (i.vout < u32_mod) × (length i.script_sig ≤ script_sig_max)

abbrev pub IsTxOut : TxOut → Type 0
IsTxOut o = IsU64 o.value × (length o.script_pub_key ≤ script_pub_max)

-- An input in its parts, before a rest.
read_input_parts :
    (id v size script rest : List ℕ)
    → length id ≡ 32
    → length v ≡ 4
    → length size ≡ 2
    → from_le size ≡ length script
    → length script ≤ script_sig_max
    → 26 ≤ length rest
    → read_input (id ++ (v ++ (size ++ (script ++ rest))))
      ≡ made (record { prev_txid = id; vout = from_le v; script_sig = script }, rest)
unfolding read_input
read_input_parts id v size script rest hi hv hs e m l =
    let whole : length (id ++ (v ++ (size ++ (script ++ rest)))) ≡ 38 + length (script ++ rest) =
      omega (
        arith,
        length-append id (v ++ (size ++ (script ++ rest))),
        length-append v (size ++ (script ++ rest)),
        length-append size (script ++ rest),
      ) in
    let end = length-append script rest in
    let o : ltb (length (id ++ (v ++ (size ++ (script ++ rest))))) 64 ≡ false =
      not_ltb _ _ (omega (arith, whole, end)) in
    let p : ltb script_sig_max (length script) ≡ false = not_ltb _ _ m in
    let q : ltb (length (script ++ rest)) (length script) ≡ false =
      not_ltb _ _ (omega (arith, end)) in
    rw
      (
        o,
        drop-append 32 id (v ++ (size ++ (script ++ rest))) hi,
        take-append 32 id (v ++ (size ++ (script ++ rest))) hi,
        drop-append 4 v (size ++ (script ++ rest)) hv,
        take-append 4 v (size ++ (script ++ rest)) hv,
        drop-append 2 size (script ++ rest) hs,
        take-append 2 size (script ++ rest) hs,
        e,
        p,
        q,
        drop-append (length script) script rest refl,
        take-append (length script) script rest refl,
      )
      refl

read_output_parts :
    (v size script rest : List ℕ)
    → length v ≡ 8
    → length size ≡ 2
    → from_le size ≡ length script
    → length script ≤ script_pub_max
    → 6 ≤ length rest
    → read_output (v ++ (size ++ (script ++ rest)))
      ≡ made (record { value = from_le v; script_pub_key = script }, rest)
unfolding read_output
read_output_parts v size script rest hv hs e m l =
    let whole : length (v ++ (size ++ (script ++ rest))) ≡ 10 + length (script ++ rest) =
      omega
        (arith, length-append v (size ++ (script ++ rest)), length-append size (script ++ rest)) in
    let end = length-append script rest in
    let o : ltb (length (v ++ (size ++ (script ++ rest)))) 16 ≡ false =
      not_ltb _ _ (omega (arith, whole, end)) in
    let p : ltb script_pub_max (length script) ≡ false = not_ltb _ _ m in
    let q : ltb (length (script ++ rest)) (length script) ≡ false =
      not_ltb _ _ (omega (arith, end)) in
    rw
      (
        o,
        drop-append 8 v (size ++ (script ++ rest)) hv,
        take-append 8 v (size ++ (script ++ rest)) hv,
        drop-append 2 size (script ++ rest) hs,
        take-append 2 size (script ++ rest) hs,
        e,
        p,
        q,
        drop-append (length script) script rest refl,
        take-append (length script) script rest refl,
      )
      refl

-- The same for the bytes that the writers put there.
read_input-bytes :
    (i : TxIn) (rest : List ℕ)
    → IsTxIn i
    → 26 ≤ length rest
    → read_input (input_bytes i ++ rest) ≡ made (i, rest)
read_input-bytes i rest h l =
    let n = from_le-le_bytes 2 (length i.script_sig) (omega (arith, h.2)) in
    let v = from_le-le_bytes 4 i.vout (omega (arith, h.1)) in
    let r =
      read_input_parts i.prev_txid (le_bytes 4 i.vout) (le_bytes 2 (length i.script_sig))
        i.script_sig rest h.0 refl refl n h.2 l in
    let e : input_bytes i ++ rest
        ≡ i.prev_txid
          ++ (le_bytes 4 i.vout ++ (le_bytes 2 (length i.script_sig) ++ (i.script_sig ++ rest))) =
      append_assoc i.prev_txid _ rest in
    ap read_input e ∙ r ∙ ap (λ x. made (record i { vout = x }, rest)) v

read_output-bytes :
    (o : TxOut) (rest : List ℕ)
    → IsTxOut o
    → 6 ≤ length rest
    → read_output (output_bytes o ++ rest) ≡ made (o, rest)
read_output-bytes o rest h l =
    let n = from_le-le_bytes 2 (length o.script_pub_key) (omega (arith, h.1)) in
    let v = from_le-le_bytes 8 o.value (omega (arith, h.0)) in
    read_output_parts (le_bytes 8 o.value) (le_bytes 2 (length o.script_pub_key)) o.script_pub_key
      rest refl refl n h.1 l
    ∙ ap (λ x. made (record o { value = x }, rest)) v

abbrev pub inputs_bytes : List TxIn → List ℕ
inputs_bytes [] = []
inputs_bytes (i ∷ inputs) = input_bytes i ++ inputs_bytes inputs

abbrev pub outputs_bytes : List TxOut → List ℕ
outputs_bytes [] = []
outputs_bytes (o ∷ outputs) = output_bytes o ++ outputs_bytes outputs

read_inputs_step :
    (n : ℕ) (rest left after : List ℕ) (i : TxIn) (inputs : List TxIn)
    → read_input rest ≡ made (i, left)
    → read_inputs n left ≡ made (inputs, after)
    → read_inputs (suc n) rest ≡ made (i ∷ inputs, after)
unfolding read_inputs
read_inputs_step n rest left after i inputs e g = rw (read_inputs, e, g) refl

pub read_inputs-bytes :
    (inputs : List TxIn) (rest : List ℕ)
    → All IsTxIn inputs
    → 26 ≤ length rest
    → read_inputs (length inputs) (inputs_bytes inputs ++ rest) ≡ made (inputs, rest)
unfolding read_inputs
read_inputs-bytes [] rest h l = refl
read_inputs-bytes (i ∷ inputs) rest h l =
    let n : 26 ≤ length (inputs_bytes inputs ++ rest) =
      omega (arith, length-append (inputs_bytes inputs) rest) in
    let e : (input_bytes i ++ inputs_bytes inputs) ++ rest
        ≡ input_bytes i ++ (inputs_bytes inputs ++ rest) =
      append_assoc (input_bytes i) (inputs_bytes inputs) rest in
    ap (read_inputs (suc (length inputs))) e
    ∙ read_inputs_step (length inputs) (input_bytes i ++ (inputs_bytes inputs ++ rest))
        (inputs_bytes inputs ++ rest) rest i inputs
        (read_input-bytes i (inputs_bytes inputs ++ rest) h.0 n)
        (read_inputs-bytes inputs rest h.1 l)

read_outputs_step :
    (n : ℕ) (rest left after : List ℕ) (o : TxOut) (outputs : List TxOut)
    → read_output rest ≡ made (o, left)
    → read_outputs n left ≡ made (outputs, after)
    → read_outputs (suc n) rest ≡ made (o ∷ outputs, after)
unfolding read_outputs
read_outputs_step n rest left after o outputs e g = rw (read_outputs, e, g) refl

pub read_outputs-bytes :
    (outputs : List TxOut) (rest : List ℕ)
    → All IsTxOut outputs
    → 6 ≤ length rest
    → read_outputs (length outputs) (outputs_bytes outputs ++ rest) ≡ made (outputs, rest)
unfolding read_outputs
read_outputs-bytes [] rest h l = refl
read_outputs-bytes (o ∷ outputs) rest h l =
    let n : 6 ≤ length (outputs_bytes outputs ++ rest) =
      omega (arith, length-append (outputs_bytes outputs) rest) in
    let e : (output_bytes o ++ outputs_bytes outputs) ++ rest
        ≡ output_bytes o ++ (outputs_bytes outputs ++ rest) =
      append_assoc (output_bytes o) (outputs_bytes outputs) rest in
    ap (read_outputs (suc (length outputs))) e
    ∙ read_outputs_step (length outputs) (output_bytes o ++ (outputs_bytes outputs ++ rest))
        (outputs_bytes outputs ++ rest) rest o outputs
        (read_output-bytes o (outputs_bytes outputs ++ rest) h.0 n)
        (read_outputs-bytes outputs rest h.1 l)

abbrev pub tx_bytes : Transaction → List ℕ
tx_bytes tx =
    (le_bytes 4 tx.version ++ le_bytes 2 (length tx.inputs))
    ++ (inputs_bytes tx.inputs
        ++ (le_bytes 2 (length tx.outputs) ++ (outputs_bytes tx.outputs ++ le_bytes 4 tx.locktime)))

-- The arrays' counts and the fields of a transaction.
abbrev pub IsTx : Transaction → Type 0
IsTx tx =
    (length tx.inputs ≤ max_inputs)
    × (length tx.outputs ≤ max_outputs)
    × All IsTxIn tx.inputs
    × All IsTxOut tx.outputs
    × (tx.locktime < u32_mod)
    × (tx.version < u32_mod)

pub read_tail_parts :
    (version : ℕ) (inputs : List TxIn) (count rest after : List ℕ) (outputs : List TxOut)
    (locktime : List ℕ)
    → length count ≡ 2
    → from_le count ≡ length outputs
    → length outputs ≤ max_outputs
    → read_outputs (length outputs) rest ≡ made (outputs, locktime ++ after)
    → length locktime ≡ 4
    → read_tail version inputs (count ++ rest)
      ≡ made (record {
        txid = replicate 32 0;
        inputs = inputs;
        outputs = outputs;
        locktime = from_le locktime;
        version = version;
      })
unfolding read_tail
read_tail_parts version inputs count rest after outputs locktime hc e m r hl =
    let o : ltb (length (count ++ rest)) 2 ≡ false =
      not_ltb _ _ (omega (arith, length-append count rest, hc)) in
    let p : ltb max_outputs (length outputs) ≡ false = not_ltb _ _ m in
    let q : ltb (length (locktime ++ after)) 4 ≡ false =
      not_ltb _ _ (omega (arith, length-append locktime after, hl)) in
    rw
      (
        o,
        take-append 2 count rest hc,
        drop-append 2 count rest hc,
        e,
        p,
        r,
        q,
        take-append 4 locktime after hl,
      )
      refl

-- ===== src/Utxo/Format.antt =====
-- Transactions as bytes: `utxo_serialize_tx` and `utxo_deserialize_tx` of
-- mini-blockchain-core/src/utxo_model.c, on a little-endian machine. The offset into the buffer is the
-- length of what is written, and `len` less the offset the length of what is left to read.
pub mod Reading
pub mod RoundTrip
use mini_security_crypto_web.Prelude.{
  ℕ, zero, suc, ◌+◌, ◌-◌, List, [], ◌∷◌, ◌++◌, ltb, length, take, drop, replicate, if◌then◌else◌,
}
use mini_security_crypto_web.Prelude.ByteString.{le_bytes, from_le}
use mini_security_crypto_web.Utxo.{
  TxIn, TxOut, Transaction, max_inputs, max_outputs, script_pub_max,
}

-- A success with its value, a return of -1, or an access behind the end of the buffer.
pub data Outcome {ℓ} (A : Type ℓ) : Type ℓ where
  made : A → Outcome A
  refused : Outcome A
  overrun : Outcome A

abbrev pub txid_len : ℕ
txid_len = 32

abbrev pub script_sig_max : ℕ
script_sig_max = 256

-- What is written so far, unless it runs over a buffer of `bufsz` bytes.
unfoldable pub fitting : ℕ → List ℕ → Outcome (List ℕ)
fitting bufsz written = if ltb bufsz (length written) then overrun else made written

abbrev pub input_bytes : TxIn → List ℕ
input_bytes i =
    i.prev_txid ++ (le_bytes 4 i.vout ++ (le_bytes 2 (length i.script_sig) ++ i.script_sig))

abbrev pub output_bytes : TxOut → List ℕ
output_bytes o = le_bytes 8 o.value ++ (le_bytes 2 (length o.script_pub_key) ++ o.script_pub_key)

-- The loop over the inputs, from what is written before on.
unfoldable pub write_inputs : ℕ → List ℕ → List TxIn → Outcome (List ℕ)
unfolding fitting
write_inputs bufsz written [] = made written
write_inputs bufsz written (i ∷ inputs) =
    let next = write_inputs bufsz (written ++ input_bytes i) inputs in
    if ltb bufsz (length written + 64)
    then refused
    else elim (fitting bufsz (written ++ input_bytes i)) [
      | made _ ↦ next
      | refused ↦ refused
      | overrun ↦ overrun
    ]

unfoldable pub write_outputs : ℕ → List ℕ → List TxOut → Outcome (List ℕ)
unfolding fitting
write_outputs bufsz written [] = made written
write_outputs bufsz written (o ∷ outputs) =
    let next = write_outputs bufsz (written ++ output_bytes o) outputs in
    if ltb bufsz (length written + 16)
    then refused
    else elim (fitting bufsz (written ++ output_bytes o)) [
      | made _ ↦ next
      | refused ↦ refused
      | overrun ↦ overrun
    ]

-- The bytes written to the zeroed buffer; their number is what is written to `len`.
unfoldable pub serialize_tx : Transaction → ℕ → Outcome (List ℕ)
unfolding write_inputs write_outputs fitting
serialize_tx tx bufsz =
    if ltb bufsz 8
    then refused
    else elim (write_inputs bufsz (le_bytes 4 tx.version ++ le_bytes 2 (length tx.inputs))
        tx.inputs) [
          | refused ↦ refused
          | overrun ↦ overrun
          | made w ↦ elim (fitting bufsz (w ++ le_bytes 2 (length tx.outputs))) [
            | refused ↦ refused
            | overrun ↦ overrun
            | made w2 ↦ elim (write_outputs bufsz w2 tx.outputs) [
              | refused ↦ refused
              | overrun ↦ overrun
              | made w3 ↦ fitting bufsz (w3 ++ le_bytes 4 tx.locktime)
            ]
          ]
        ]

-- One input off the front of what is left, and what is left then.
unfoldable pub read_input : List ℕ → Outcome (TxIn × List ℕ)
read_input rest =
    if ltb (length rest) 64
    then refused
    else let after_id = drop txid_len rest in
      let after_vout = drop 4 after_id in
      let n = from_le (take 2 after_vout) in
      let script = drop 2 after_vout in
      if ltb script_sig_max n
      then refused
      else if ltb (length script) n
      then overrun
      else made (
        record {
          prev_txid = take txid_len rest;
          vout = from_le (take 4 after_id);
          script_sig = take n script;
        },
        drop n script,
      )

unfoldable pub read_output : List ℕ → Outcome (TxOut × List ℕ)
read_output rest =
    if ltb (length rest) 16
    then refused
    else let after_value = drop 8 rest in
      let n = from_le (take 2 after_value) in
      let script = drop 2 after_value in
      if ltb script_pub_max n
      then refused
      else if ltb (length script) n
      then overrun
      else made
          (record { value = from_le (take 8 rest); script_pub_key = take n script }, drop n script)

-- The loops of `utxo_deserialize_tx`, with n entries left to read.
unfoldable pub read_inputs : ℕ → List ℕ → Outcome (List TxIn × List ℕ)
unfolding read_input
read_inputs zero rest = made ([], rest)
read_inputs (suc n) rest = elim (read_input rest) [
  | refused ↦ refused
  | overrun ↦ overrun
  | made (i, left) ↦ elim (read_inputs n left) [
    | refused ↦ refused
    | overrun ↦ overrun
    | made (inputs, after) ↦ made (i ∷ inputs, after)
  ]
]

unfoldable pub read_outputs : ℕ → List ℕ → Outcome (List TxOut × List ℕ)
unfolding read_output
read_outputs zero rest = made ([], rest)
read_outputs (suc n) rest = elim (read_output rest) [
  | refused ↦ refused
  | overrun ↦ overrun
  | made (o, left) ↦ elim (read_outputs n left) [
    | refused ↦ refused
    | overrun ↦ overrun
    | made (outputs, after) ↦ made (o ∷ outputs, after)
  ]
]

-- The second half: the outputs and the locktime.
unfoldable pub read_tail : ℕ → List TxIn → List ℕ → Outcome Transaction
unfolding read_outputs
read_tail version inputs rest =
    if ltb (length rest) 2
    then overrun
    else let n = from_le (take 2 rest) in
      if ltb max_outputs n then refused else elim (read_outputs n (drop 2 rest)) [
        | refused ↦ refused
        | overrun ↦ overrun
        | made (outputs, after) ↦
            if ltb (length after) 4
            then overrun
            else made (record {
              txid = replicate 32 0;
              inputs = inputs;
              outputs = outputs;
              locktime = from_le (take 4 after);
              version = version;
            })
      ]

unfoldable pub deserialize_tx : List ℕ → Outcome Transaction
unfolding read_inputs read_tail
deserialize_tx buf =
    if ltb (length buf) 8
    then refused
    else let n = from_le (take 2 (drop 4 buf)) in
      if ltb max_inputs n then refused else elim (read_inputs n (drop 2 (drop 4 buf))) [
        | refused ↦ refused
        | overrun ↦ overrun
        | made (inputs, rest) ↦ read_tail (from_le (take 4 buf)) inputs rest
      ]

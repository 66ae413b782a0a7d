-- ===== src/SatoshiSerialize/Tx/Saves.antt =====
-- The bytes of a transaction, and how many they are.
use libbitcoin.Prelude.{
  ℕ, ◌+◌, ◌≡◌, refl, sym, ap, ◌∙◌, false, List, [], ◌∷◌, ◌++◌, append_assoc, append-nil, reverse,
  length, length-append, length-reverse, All, arith, ok,
}
use libbitcoin.Format.{uncast_type, length-uncast_type}
use libbitcoin.Messages.{TransactionInput, TransactionOutput, Transaction}
use libbitcoin.Script.Codec.{save_script}
use libbitcoin.Serializer.Lengths.{variable_uint_bytes, writes}
use libbitcoin.SatoshiSerialize.{variable_uint_size, length-variable_uint_bytes}
use libbitcoin.SatoshiSerialize.Tx.{
  save_inputs, save_outputs, save_transaction, inputs_size, outputs_size, transaction_raw_size,
  satoshi_save_transaction,
}

-- Each list of bytes with what follows it.
abbrev pub input_bytes : TransactionInput → List ℕ → List ℕ
input_bytes input rest =
    let raw = save_script input.input_script in
    reverse input.previous_output.hash
    ++ (uncast_type 4 input.previous_output.index false
        ++ (variable_uint_bytes (length raw)
            ++ (raw ++ (uncast_type 4 input.sequence false ++ rest))))

abbrev pub inputs_bytes : List TransactionInput → List ℕ → List ℕ
inputs_bytes [] rest = rest
inputs_bytes (input ∷ inputs) rest = input_bytes input (inputs_bytes inputs rest)

abbrev pub output_bytes : TransactionOutput → List ℕ → List ℕ
output_bytes output rest =
    let raw = save_script output.output_script in
    uncast_type 8 output.value false ++ (variable_uint_bytes (length raw) ++ (raw ++ rest))

abbrev pub outputs_bytes : List TransactionOutput → List ℕ → List ℕ
outputs_bytes [] rest = rest
outputs_bytes (output ∷ outputs) rest = output_bytes output (outputs_bytes outputs rest)

unfoldable pub transaction_bytes : Transaction → List ℕ → List ℕ
transaction_bytes tx rest =
    uncast_type 4 tx.version false
    ++ (variable_uint_bytes (length tx.inputs)
        ++ inputs_bytes tx.inputs (
            variable_uint_bytes (length tx.outputs)
            ++ outputs_bytes tx.outputs (uncast_type 4 tx.locktime false ++ rest)))

save_inputs-bytes :
    (inputs : List TransactionInput) (s rest : List ℕ)
    → save_inputs inputs s ++ rest ≡ s ++ inputs_bytes inputs rest
unfolding save_inputs
save_inputs-bytes [] s rest = refl
save_inputs-bytes (input ∷ inputs) s rest = save_inputs-bytes inputs _ rest ∙ simp writes

save_outputs-bytes :
    (outputs : List TransactionOutput) (s rest : List ℕ)
    → save_outputs outputs s ++ rest ≡ s ++ outputs_bytes outputs rest
unfolding save_outputs
save_outputs-bytes [] s rest = refl
save_outputs-bytes (output ∷ outputs) s rest = save_outputs-bytes outputs _ rest ∙ simp writes

-- A transaction is written behind what was written before, as the bytes of its parts in turn.
pub save_transaction-bytes :
    (tx : Transaction) (s rest : List ℕ)
    → save_transaction tx s ++ rest ≡ s ++ transaction_bytes tx rest
unfolding save_transaction transaction_bytes
save_transaction-bytes tx s rest =
    simp writes (simp (save_outputs-bytes, append_assoc) (simp (save_inputs-bytes, writes)))

abbrev pub HasHash : TransactionInput → Type 0
HasHash input = length input.previous_output.hash ≡ 32

ruleset lengths = (length-append, length-reverse, length-uncast_type, length-variable_uint_bytes)

length-input_bytes :
    (input : TransactionInput) (rest : List ℕ)
    → HasHash input
    → let raw = save_script input.input_script in
      length (input_bytes input rest)
      ≡ 40 + variable_uint_size (length raw) + length raw + length rest
length-input_bytes input rest h = simp (lengths, h) (omega arith)

length-inputs_bytes :
    (inputs : List TransactionInput) (n : ℕ) (rest : List ℕ)
    → All HasHash inputs
    → n + length (inputs_bytes inputs rest) ≡ inputs_size inputs n + length rest
unfolding inputs_size
length-inputs_bytes [] n rest h = refl
length-inputs_bytes (input ∷ inputs) n rest h =
    let size = length (save_script input.input_script) in
    omega (
      arith,
      length-input_bytes input (inputs_bytes inputs rest) h.0,
      length-inputs_bytes inputs (n + (40 + variable_uint_size size + size)) rest h.1,
    )

length-output_bytes :
    (output : TransactionOutput) (rest : List ℕ)
    → let raw = save_script output.output_script in
      length (output_bytes output rest)
      ≡ 8 + variable_uint_size (length raw) + length raw + length rest
length-output_bytes output rest = simp lengths (omega arith)

length-outputs_bytes :
    (outputs : List TransactionOutput) (n : ℕ) (rest : List ℕ)
    → n + length (outputs_bytes outputs rest) ≡ outputs_size outputs n + length rest
unfolding outputs_size
length-outputs_bytes [] n rest = refl
length-outputs_bytes (output ∷ outputs) n rest =
    let size = length (save_script output.output_script) in
    omega (
      arith,
      length-output_bytes output (outputs_bytes outputs rest),
      length-outputs_bytes outputs (n + (8 + variable_uint_size size + size)) rest,
    )

pub length-transaction_bytes :
    (tx : Transaction) (rest : List ℕ)
    → All HasHash tx.inputs
    → length (transaction_bytes tx rest) ≡ transaction_raw_size tx + length rest
unfolding transaction_raw_size transaction_bytes
length-transaction_bytes tx rest h =
    let ins = 8 + variable_uint_size (length tx.inputs) in
    let locktime = uncast_type 4 tx.locktime false ++ rest in
    let outs = variable_uint_bytes (length tx.outputs) ++ outputs_bytes tx.outputs locktime in
    simp lengths (
      omega (
        arith,
        length-inputs_bytes tx.inputs ins outs h,
        length-outputs_bytes tx.outputs
            (inputs_size tx.inputs ins + variable_uint_size (length tx.outputs)) locktime,
        length-append (variable_uint_bytes (length tx.outputs)) (outputs_bytes tx.outputs locktime),
        length-variable_uint_bytes (length tx.outputs),
        length-append (uncast_type 4 tx.locktime false) rest,
        length-uncast_type 4 tx.locktime false,
      ))

-- `satoshi_raw_size` is how many bytes `save_transaction` adds, for a transaction whose inputs refer to
-- hashes of 32 bytes.
length-save_transaction :
    (tx : Transaction) (s : List ℕ)
    → All HasHash tx.inputs
    → length (save_transaction tx s) ≡ length s + transaction_raw_size tx
length-save_transaction tx s h =
    let whole = save_transaction-bytes tx s [] in
    omega (
      arith,
      ap length whole,
      length-append (save_transaction tx s) [],
      length-append s (transaction_bytes tx []),
      length-transaction_bytes tx [] h,
    )

-- The assertion of `satoshi_save` holds.
pub satoshi_save_transaction-ok :
    (tx : Transaction)
    → All HasHash tx.inputs
    → satoshi_save_transaction tx ≡ ok (transaction_bytes tx [])
unfolding satoshi_save_transaction
satoshi_save_transaction-ok tx h =
    let size : length (save_transaction tx []) ≡ transaction_raw_size tx =
      length-save_transaction tx [] h ∙ omega arith in
    let whole : save_transaction tx [] ≡ transaction_bytes tx [] =
      sym (append-nil (save_transaction tx [])) ∙ save_transaction-bytes tx [] [] in
    ground (arith, whole)

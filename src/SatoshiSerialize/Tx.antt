-- ===== src/SatoshiSerialize/Tx.antt =====
-- Transactions: save_transaction, read_transaction, their sizes, and satoshi_save and satoshi_load.
pub mod Saves
pub mod RoundTrip
use libbitcoin.Prelude.{
  ℕ, zero, suc, ◌+◌, List, [], ◌∷◌, ◌++◌, length, ◌==◌, chunk_eq, if◌then◌else◌, Result, ok, assert,
  ◌>>=◌, ◌>>◌,
}
use libbitcoin.Script.{Script, coinbase_script}
use libbitcoin.Script.Codec.{parse_script, save_script}
use libbitcoin.Messages.{OutputPoint, TransactionInput, TransactionOutput, Transaction}
use libbitcoin.Transaction.{previous_output_is_null}
use libbitcoin.SatoshiSerialize.{variable_uint_size}
use libbitcoin.Serializer.{
  write_4_bytes, write_8_bytes, write_variable_uint, write_hash, write_data, read_4_bytes,
  read_8_bytes, read_variable_uint, read_hash, read_data,
}

unfoldable pub save_inputs : List TransactionInput → List ℕ → List ℕ
save_inputs [] serial = serial
save_inputs (input ∷ inputs) serial =
    let serial = write_hash input.previous_output.hash serial in
    let serial = write_4_bytes input.previous_output.index serial in
    let raw_script = save_script input.input_script in
    let serial = write_variable_uint (length raw_script) serial in
    let serial = write_data raw_script serial in
    save_inputs inputs (write_4_bytes input.sequence serial)

unfoldable pub save_outputs : List TransactionOutput → List ℕ → List ℕ
save_outputs [] serial = serial
save_outputs (output ∷ outputs) serial =
    let serial = write_8_bytes output.value serial in
    let raw_script = save_script output.output_script in
    let serial = write_variable_uint (length raw_script) serial in
    save_outputs outputs (write_data raw_script serial)

unfoldable pub save_transaction : Transaction → List ℕ → List ℕ
unfolding save_inputs save_outputs
save_transaction packet serial =
    let serial = write_4_bytes packet.version serial in
    let serial = save_inputs packet.inputs (write_variable_uint (length packet.inputs) serial) in
    let serial = save_outputs packet.outputs (write_variable_uint (length packet.outputs) serial) in
    write_4_bytes packet.locktime serial

unfoldable pub read_raw_script : List ℕ → Result (List ℕ × List ℕ)
read_raw_script deserial = do
  (script_length, rest) ← read_variable_uint deserial
  read_data script_length rest

unfoldable pub read_script : List ℕ → Result (Script × List ℕ)
read_script deserial = do
  (raw_script, rest) ← read_raw_script deserial
  parsed ← parse_script raw_script
  assert (chunk_eq raw_script (save_script parsed))
  ok (parsed, rest)

read_coinbase : List ℕ → Result (Script × List ℕ)
read_coinbase deserial = do
  (raw_script, rest) ← read_raw_script deserial
  ok (coinbase_script raw_script, rest)

pub read_input_script : OutputPoint → List ℕ → Result (Script × List ℕ)
unfolding read_coinbase
read_input_script previous_output deserial =
    if previous_output_is_null previous_output then read_coinbase deserial else read_script deserial

unfoldable pub read_input : List ℕ → Result (TransactionInput × List ℕ)
unfolding read_input_script
read_input deserial = do
  (hash, rest) ← read_hash deserial
  (index, rest) ← read_4_bytes rest
  let previous_output : OutputPoint = record { hash = hash; index = index }
  (input_script, rest) ← read_input_script previous_output rest
  (sequence, rest) ← read_4_bytes rest
  ok (
    record { previous_output = previous_output; input_script = input_script; sequence = sequence },
    rest,
  )

unfoldable pub read_inputs :
    ℕ → List TransactionInput → List ℕ → Result (List TransactionInput × List ℕ)
read_inputs zero inputs deserial = ok (inputs, deserial)
read_inputs (suc count) inputs deserial = do
  (input, rest) ← read_input deserial
  read_inputs count (inputs ++ input ∷ []) rest

unfoldable pub read_output : List ℕ → Result (TransactionOutput × List ℕ)
read_output deserial = do
  (value, rest) ← read_8_bytes deserial
  (output_script, rest) ← read_script rest
  ok (record { value = value; output_script = output_script }, rest)

unfoldable pub read_outputs :
    ℕ → List TransactionOutput → List ℕ → Result (List TransactionOutput × List ℕ)
read_outputs zero outputs deserial = ok (outputs, deserial)
read_outputs (suc count) outputs deserial = do
  (output, rest) ← read_output deserial
  read_outputs count (outputs ++ output ∷ []) rest

-- The inputs and outputs are added to those that `packet` has.
unfoldable pub read_transaction : Transaction → List ℕ → Result (Transaction × List ℕ)
unfolding read_inputs read_outputs
read_transaction packet deserial = do
  (version, rest) ← read_4_bytes deserial
  (tx_in_count, rest) ← read_variable_uint rest
  (inputs, rest) ← read_inputs tx_in_count packet.inputs rest
  (tx_out_count, rest) ← read_variable_uint rest
  (outputs, rest) ← read_outputs tx_out_count packet.outputs rest
  (locktime, rest) ← read_4_bytes rest
  ok (record { version = version; locktime = locktime; inputs = inputs; outputs = outputs }, rest)

inputs_size : List TransactionInput → ℕ → ℕ
inputs_size [] tx_size = tx_size
inputs_size (input ∷ inputs) tx_size =
    let raw_script = save_script input.input_script in
    inputs_size inputs (tx_size + (40 + variable_uint_size (length raw_script) + length raw_script))

outputs_size : List TransactionOutput → ℕ → ℕ
outputs_size [] tx_size = tx_size
outputs_size (output ∷ outputs) tx_size =
    let raw_script = save_script output.output_script in
    outputs_size outputs
      (tx_size + (8 + variable_uint_size (length raw_script) + length raw_script))

unfoldable pub transaction_raw_size : Transaction → ℕ
unfolding inputs_size outputs_size
transaction_raw_size packet =
    let tx_size = inputs_size packet.inputs (8 + variable_uint_size (length packet.inputs)) in
    outputs_size packet.outputs (tx_size + variable_uint_size (length packet.outputs))

unfoldable pub satoshi_save_transaction : Transaction → Result (List ℕ)
satoshi_save_transaction packet = do
  let raw_data = save_transaction packet []
  assert (transaction_raw_size packet == length raw_data)
  ok raw_data

unfoldable pub satoshi_load_transaction : Transaction → List ℕ → Result Transaction
satoshi_load_transaction packet stream = do
  (packet, _) ← read_transaction packet stream
  assert (transaction_raw_size packet == length stream)
  ok packet

-- ===== src/SatoshiSerialize/Tx/RoundTrip.antt =====
-- A transaction is read back from the bytes that were saved of it.
use libbitcoin.Prelude.{
  ℕ, ◌<◌, ◌^◌, ◌≡◌, refl, ◌∙◌, true, false, List, [], ◌∷◌, ◌++◌, append_assoc, append-nil, length,
  All, arith, ok, ◌>>=◌, ◌⊎◌, inl, inr, chunk_eq_refl,
}
use libbitcoin.Format.{uncast_type}
use libbitcoin.Messages.{TransactionInput, TransactionOutput, Transaction}
use libbitcoin.Script.{Script, coinbase_script}
use libbitcoin.Script.Codec.{code_eq, save_script}
use libbitcoin.Script.Codec.Save.{StartsCoded}
use libbitcoin.Script.Codec.Parse.{IsCanonical, parse_script-save_script}
use libbitcoin.Serializer.Lengths.{variable_uint_bytes}
use libbitcoin.Serializer.RoundTrip.{
  read_4_bytes-uncast_type, read_8_bytes-uncast_type, read_variable_uint-bytes, read_hash-reverse,
  read_data-append,
}
use libbitcoin.Transaction.{previous_output_is_null}
use libbitcoin.SatoshiSerialize.Tx.{
  read_raw_script, read_script, read_input_script, read_input, read_inputs, read_output,
  read_outputs, read_transaction, satoshi_save_transaction, satoshi_load_transaction,
}
use libbitcoin.SatoshiSerialize.Tx.Saves.{
  input_bytes, inputs_bytes, output_bytes, outputs_bytes, transaction_bytes, HasHash,
  length-transaction_bytes, satoshi_save_transaction-ok,
}

-- A script that the reader takes for what was written: canonical operations, not raw data.
pub record IsReadable (s : Script) : Type 0 where
  pub canonical : All IsCanonical s.operations
  pub coded : StartsCoded s.operations
  pub fits : length (save_script s) < 2 ^ 64

-- The input script of a coinbase is raw data; every other script is read as operations.
abbrev pub InputScript : TransactionInput → Type 0
InputScript input =
    ((previous_output_is_null input.previous_output ≡ true)
      × ((raw : List ℕ) × (input.input_script ≡ coinbase_script raw) × (length raw < 2 ^ 64)))
    ⊎ ((previous_output_is_null input.previous_output ≡ false) × IsReadable input.input_script)

pub record InputFits (input : TransactionInput) : Type 0 where
  pub hash_size : length input.previous_output.hash ≡ 32
  pub index_fits : input.previous_output.index < 2 ^ 32
  pub sequence_fits : input.sequence < 2 ^ 32
  pub input_script_fits : InputScript input

pub record OutputFits (output : TransactionOutput) : Type 0 where
  pub value_fits : output.value < 2 ^ 64
  pub output_script_fits : IsReadable output.output_script

pub record TransactionFits (tx : Transaction) : Type 0 where
  pub version_fits : tx.version < 2 ^ 32
  pub locktime_fits : tx.locktime < 2 ^ 32
  pub input_count : length tx.inputs < 2 ^ 64
  pub output_count : length tx.outputs < 2 ^ 64
  pub inputs_fit : All InputFits tx.inputs
  pub outputs_fit : All OutputFits tx.outputs

read_raw_script-bytes :
    (raw rest : List ℕ)
    → length raw < 2 ^ 64
    → read_raw_script (variable_uint_bytes (length raw) ++ (raw ++ rest)) ≡ ok (raw, rest)
unfolding read_raw_script
read_raw_script-bytes raw rest h =
    rw (read_variable_uint-bytes (length raw) (raw ++ rest) h) (read_data-append raw rest)

read_script-bytes :
    (s : Script) (rest : List ℕ)
    → IsReadable s
    → read_script (variable_uint_bytes (length (save_script s)) ++ (save_script s ++ rest))
      ≡ ok (s, rest)
unfolding read_script
read_script-bytes s rest r = rw (
  read_raw_script-bytes (save_script s) rest r.fits,
  parse_script-save_script s r.canonical r.coded,
  chunk_eq_refl (save_script s),
)

save_script-coinbase : (raw : List ℕ) → save_script (coinbase_script raw) ≡ raw
unfolding save_script coinbase_script code_eq
save_script-coinbase raw = refl

read_input_script-bytes :
    (input : TransactionInput) (rest : List ℕ)
    → InputScript input
    → let raw = save_script input.input_script in
      read_input_script input.previous_output (variable_uint_bytes (length raw) ++ (raw ++ rest))
      ≡ ok (input.input_script, rest)
unfolding read_input_script
read_input_script-bytes input rest (inl (e, (raw, coinbase, fits))) =
    rw (e, coinbase, save_script-coinbase raw, read_raw_script-bytes raw rest fits)
read_input_script-bytes input rest (inr (e, r)) = rw e (read_script-bytes input.input_script rest r)

read_input-bytes :
    (input : TransactionInput) (rest : List ℕ)
    → InputFits input
    → read_input (input_bytes input rest) ≡ ok (input, rest)
unfolding read_input
read_input-bytes input rest f =
    let sequence = uncast_type 4 input.sequence false ++ rest in
    let raw = save_script input.input_script in
    let scr = variable_uint_bytes (length raw) ++ (raw ++ sequence) in
    rw (
      read_hash-reverse input.previous_output.hash
          (uncast_type 4 input.previous_output.index false ++ scr) f.hash_size,
      read_4_bytes-uncast_type input.previous_output.index scr f.index_fits,
      read_input_script-bytes input sequence f.input_script_fits,
      read_4_bytes-uncast_type input.sequence rest f.sequence_fits,
    )

read_inputs-bytes :
    (inputs done : List TransactionInput) (rest : List ℕ)
    → All InputFits inputs
    → read_inputs (length inputs) done (inputs_bytes inputs rest) ≡ ok (done ++ inputs, rest)
unfolding read_inputs
read_inputs-bytes [] done rest f = rw append-nil
read_inputs-bytes (input ∷ inputs) done rest f =
    rw (read_input-bytes input (inputs_bytes inputs rest) f.0) (
      read_inputs-bytes inputs (done ++ input ∷ []) rest f.1
      ∙ rw (append_assoc done (input ∷ []) inputs))

read_output-bytes :
    (output : TransactionOutput) (rest : List ℕ)
    → OutputFits output
    → read_output (output_bytes output rest) ≡ ok (output, rest)
unfolding read_output
read_output-bytes output rest f =
    let raw = save_script output.output_script in
    rw (
      read_8_bytes-uncast_type output.value (variable_uint_bytes (length raw) ++ (raw ++ rest))
          f.value_fits,
      read_script-bytes output.output_script rest f.output_script_fits,
    )

read_outputs-bytes :
    (outputs done : List TransactionOutput) (rest : List ℕ)
    → All OutputFits outputs
    → read_outputs (length outputs) done (outputs_bytes outputs rest) ≡ ok (done ++ outputs, rest)
unfolding read_outputs
read_outputs-bytes [] done rest f = rw append-nil
read_outputs-bytes (output ∷ outputs) done rest f =
    rw (read_output-bytes output (outputs_bytes outputs rest) f.0) (
      read_outputs-bytes outputs (done ++ output ∷ []) rest f.1
      ∙ rw (append_assoc done (output ∷ []) outputs))

-- A packet that holds nothing yet.
abbrev pub IsFresh : Transaction → Type 0
IsFresh packet = (packet.inputs ≡ []) × (packet.outputs ≡ [])

-- The bytes of a transaction are read back into a fresh packet, and what follows is left.
pub read_transaction-bytes :
    (tx packet : Transaction) (rest : List ℕ)
    → TransactionFits tx
    → IsFresh packet
    → read_transaction packet (transaction_bytes tx rest) ≡ ok (tx, rest)
unfolding read_transaction transaction_bytes
read_transaction-bytes tx packet rest f fresh =
    let locktime = uncast_type 4 tx.locktime false ++ rest in
    let outs = outputs_bytes tx.outputs locktime in
    let count = variable_uint_bytes (length tx.outputs) in
    let ins = inputs_bytes tx.inputs (count ++ outs) in
    rw (
      fresh.0,
      fresh.1,
      read_4_bytes-uncast_type tx.version (variable_uint_bytes (length tx.inputs) ++ ins)
          f.version_fits,
      read_variable_uint-bytes (length tx.inputs) ins f.input_count,
      read_inputs-bytes tx.inputs [] (count ++ outs) f.inputs_fit,
      read_variable_uint-bytes (length tx.outputs) outs f.output_count,
      read_outputs-bytes tx.outputs [] locktime f.outputs_fit,
      read_4_bytes-uncast_type tx.locktime rest f.locktime_fits,
    )

pub TransactionFits-HasHash :
    (inputs : List TransactionInput) → All InputFits inputs → All HasHash inputs
TransactionFits-HasHash [] f = tt
TransactionFits-HasHash (input ∷ inputs) f = (f.0.hash_size, TransactionFits-HasHash inputs f.1)

-- A transaction whose fields fit their widths and whose scripts are canonical, or the raw data of a
-- coinbase, is saved by `satoshi_save` and loaded back by `satoshi_load` into a packet without inputs
-- and outputs: both pass their assertions and no read runs out of bytes.
pub satoshi_load-satoshi_save :
    (tx packet : Transaction)
    → TransactionFits tx
    → IsFresh packet
    → (satoshi_save_transaction tx >>= satoshi_load_transaction packet) ≡ ok tx
unfolding satoshi_load_transaction
satoshi_load-satoshi_save tx packet f fresh =
    let hashes = TransactionFits-HasHash tx.inputs f.inputs_fit in
    let size = length-transaction_bytes tx [] hashes in
    rw (satoshi_save_transaction-ok tx hashes, read_transaction-bytes tx packet [] f fresh)
      (ground (arith, size))

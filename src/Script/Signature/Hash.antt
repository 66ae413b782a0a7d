-- ===== src/Script/Signature/Hash.antt =====
-- generate_signature_hash of src/script.cpp.
pub mod Covers
use libbitcoin.Prelude.{
  ℕ, zero, suc, ◌-◌, ◌/◌, ◌%◌, ◌^◌, List, [], ◌∷◌, map, length, leb, ◌==◌, if◌then◌else◌, get_elem?,
  Option, none, some, Result, ok,
}
use libbitcoin.Openssl.{Openssl}
use libbitcoin.Constants.{null_hash}
use libbitcoin.Messages.{TransactionInput, TransactionOutput, Transaction}
use libbitcoin.Script.{Script, empty_script}
use libbitcoin.Transaction.Hash.{hash_transaction_impl}

unfoldable with_script : Script → TransactionInput → TransactionInput
with_script script_code input = record input { input_script = script_code }

unfoldable nullified : TransactionInput → TransactionInput
nullified input = record input { sequence = 0 }

-- Every input's script is blanked and the one at `input_index` is set to `script_code`.
unfoldable pub set_scripts : ℕ → Script → List TransactionInput → List TransactionInput
unfolding with_script
set_scripts input_index script_code [] = []
set_scripts zero script_code (input ∷ inputs) =
    with_script script_code input ∷ map (with_script empty_script) inputs
set_scripts (suc n) script_code (input ∷ inputs) =
    with_script empty_script input ∷ set_scripts n script_code inputs

unfoldable pub nullify_input_sequences : List TransactionInput → ℕ → List TransactionInput
unfolding nullified
nullify_input_sequences [] except_input = []
nullify_input_sequences (input ∷ inputs) zero = input ∷ map nullified inputs
nullify_input_sequences (input ∷ inputs) (suc n) =
    nullified input ∷ nullify_input_sequences inputs n

-- `outputs.resize(output_index + 1)` and the loop over all outputs but the last; `~0` is cast to
-- uint64_t.
unfoldable pub single_outputs : ℕ → List TransactionOutput → List TransactionOutput
single_outputs n [] = []
single_outputs zero (output ∷ outputs) = output ∷ []
single_outputs (suc n) (output ∷ outputs) =
    record output { value = 2 ^ 64 - 1; output_script = empty_script } ∷ single_outputs n outputs

-- `hash_type & 0x1f` is the remainder by 32. `none` is the early `return null_hash`.
unfoldable pub signed_outputs : Transaction → ℕ → ℕ → Option Transaction
unfolding nullify_input_sequences single_outputs
signed_outputs tx input_index hash_type =
    if hash_type % 32 == 2
    then some (record tx { outputs = []; inputs = nullify_input_sequences tx.inputs input_index })
    else if hash_type % 32 == 3
    then (if leb (length tx.outputs) input_index
        then none
        else some (record tx {
          outputs = single_outputs input_index tx.outputs;
          inputs = nullify_input_sequences tx.inputs input_index;
        }))
    else some tx

kept : Option TransactionInput → List TransactionInput
kept none = []
kept (some input) = input ∷ []

-- `hash_type & 0x80`.
unfoldable pub signed_inputs : Transaction → ℕ → ℕ → Transaction
unfolding kept
signed_inputs tx input_index hash_type =
    if hash_type / 128 % 2 == 1
    then record tx { inputs = kept (get_elem? tx.inputs input_index) }
    else tx

module _ (o : Openssl) where
  hashed : Option Transaction → ℕ → ℕ → Result (List ℕ)
  unfolding signed_inputs hash_transaction_impl
  hashed none input_index hash_type = ok null_hash
  hashed (some tx) input_index hash_type =
      hash_transaction_impl o (signed_inputs tx input_index hash_type) (some hash_type)

  unfoldable pub generate_signature_hash : Transaction → ℕ → Script → ℕ → Result (List ℕ)
  unfolding set_scripts signed_outputs hashed
  generate_signature_hash parent_tx input_index script_code hash_type =
      if leb (length parent_tx.inputs) input_index
      then ok null_hash
      else hashed
          (signed_outputs
            (record parent_tx { inputs = set_scripts input_index script_code parent_tx.inputs })
            input_index hash_type)
          input_index hash_type

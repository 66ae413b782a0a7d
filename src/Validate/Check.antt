-- ===== src/Validate/Check.antt =====
-- validate_transaction::check_transaction of src/validate.cpp.
use libbitcoin.Prelude.{
  ℕ, ◌+◌, ◌%◌, ◌^◌, Bool, true, false, ◌||◌, List, [], ◌∷◌, length, ltb, if◌then◌else◌, Option,
  none, some,
}
use libbitcoin.Constants.{max_money}
use libbitcoin.Messages.{TransactionInput, TransactionOutput, Transaction}
use libbitcoin.Script.Codec.{save_script}
use libbitcoin.Transaction.{previous_output_is_null, is_coinbase}
use libbitcoin.Validate.{ErrorCode}

-- The loop over the outputs: whether it ends, with the total in a uint64_t.
unfoldable pub outputs_in_range : List TransactionOutput → ℕ → Bool
outputs_in_range [] total = true
outputs_in_range (output ∷ outputs) total =
    let rest = outputs_in_range outputs ((total + output.value) % 2 ^ 64) in
    if ltb max_money output.value
    then false
    else if ltb max_money ((total + output.value) % 2 ^ 64)
    then false
    else rest

unfoldable pub has_null_input : List TransactionInput → Bool
has_null_input [] = false
has_null_input (input ∷ inputs) =
    if previous_output_is_null input.previous_output then true else has_null_input inputs

unfoldable pub coinbase_error : ℕ → Option ErrorCode
coinbase_error coinbase_script_size =
    if ltb coinbase_script_size 2 || ltb 100 coinbase_script_size
    then some ErrorCode.invalid_coinbase_script_size
    else none

unfoldable pub inputs_error : Bool → List TransactionInput → Option ErrorCode
unfolding has_null_input coinbase_error
inputs_error coinbase [] = some ErrorCode.empty_transaction
inputs_error true (input ∷ inputs) = coinbase_error (length (save_script input.input_script))
inputs_error false (input ∷ inputs) =
    if has_null_input (input ∷ inputs) then some ErrorCode.previous_output_null else none

-- The first test of the code is for empty inputs or outputs.
unfoldable pub filled :
    Transaction → List TransactionInput → List TransactionOutput → Option ErrorCode
unfolding outputs_in_range inputs_error
filled tx [] outputs = some ErrorCode.empty_transaction
filled tx (input ∷ inputs) [] = some ErrorCode.empty_transaction
filled tx (input ∷ inputs) (output ∷ outputs) =
    if outputs_in_range (output ∷ outputs) 0
    then inputs_error (is_coinbase tx) (input ∷ inputs)
    else some ErrorCode.output_value_overflow

unfoldable pub check_transaction : Transaction → Option ErrorCode
unfolding filled
check_transaction tx = filled tx tx.inputs tx.outputs

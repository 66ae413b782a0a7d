-- ===== src/Validate/Connect.antt =====
-- connect_input and tally_fees of validate_transaction in src/validate.cpp.
use libbitcoin.Prelude.{
  ℕ, ◌+◌, ◌-◌, ◌%◌, ◌^◌, Bool, true, ◌&&◌, ltb, if◌then◌else◌, get_elem?, Option, none, some,
}
use libbitcoin.Openssl.{Openssl}
use libbitcoin.Constants.{max_money, coinbase_maturity}
use libbitcoin.Messages.{TransactionInput, TransactionOutput, Transaction}
use libbitcoin.Transaction.{is_coinbase, total_output_value}
use libbitcoin.Script.Outcome.{Outcome, pass, fail, fault, ◌>>=◌}
use libbitcoin.Script.Run.{run}

-- A size_t difference.
unfoldable pub is_immature : Transaction → ℕ → ℕ → Bool
is_immature previous_tx parent_depth last_block_depth =
    is_coinbase previous_tx
    && ltb ((last_block_depth + 2 ^ 64 - parent_depth) % 2 ^ 64) coinbase_maturity

unfoldable pub add_value : ℕ → ℕ → Outcome ℕ
add_value value_in output_value =
    if ltb max_money ((value_in + output_value) % 2 ^ 64)
    then fail
    else pass ((value_in + output_value) % 2 ^ 64)

-- `none` is the result false, and `some` the new total of the fees.
unfoldable pub tally_fees : Transaction → ℕ → ℕ → Option ℕ
tally_fees tx value_in total_fees =
    if ltb value_in (total_output_value tx)
    then none
    else if ltb max_money ((total_fees + (value_in - total_output_value tx)) % 2 ^ 64)
    then none
    else some ((total_fees + (value_in - total_output_value tx)) % 2 ^ 64)

module _ (o : Openssl) (tx : Transaction) (current_input : ℕ) (previous_tx : Transaction) where
  -- `none` is an index past the outputs: `return false`.
  unfoldable pub spend : TransactionInput → Option TransactionOutput → ℕ → ℕ → ℕ → Outcome ℕ
  unfolding is_immature add_value
  spend input none parent_depth last_block_depth value_in = fail
  spend input (some previous_output) parent_depth last_block_depth value_in =
      if ltb max_money previous_output.value
      then fail
      else if is_immature previous_tx parent_depth last_block_depth
      then fail
      else (run o tx (current_input % 2 ^ 32) previous_output.output_script input.input_script true
          >>= λ _. add_value value_in previous_output.value)

  unfoldable pub spend_input : Option TransactionInput → ℕ → ℕ → ℕ → Outcome ℕ
  unfolding spend
  spend_input none parent_depth last_block_depth value_in = fault
  spend_input (some input) parent_depth last_block_depth value_in =
      spend input (get_elem? previous_tx.outputs input.previous_output.index) parent_depth
        last_block_depth value_in

  -- The new `value_in`, where the result is true.
  unfoldable pub connect_input : ℕ → ℕ → ℕ → Outcome ℕ
  unfolding spend_input
  connect_input parent_depth last_block_depth value_in =
      spend_input (get_elem? tx.inputs current_input) parent_depth last_block_depth value_in

-- ===== src/Validate/Block/Inputs.antt =====
-- connect_input and validate_inputs of validate_block in src/validate.cpp.
use libbitcoin.Prelude.{
  ℕ, suc, ◌+◌, ◌-◌, ◌%◌, ◌^◌, Bool, true, false, not, List, [], ◌∷◌, ltb, leb, if◌then◌else◌,
  get_elem?, Option, none, some,
}
use libbitcoin.Openssl.{Openssl}
use libbitcoin.Constants.{
  max_money, coinbase_maturity, bip16_switchover_timestamp, bip16_switchover_depth,
}
use libbitcoin.Messages.{TransactionInput, TransactionOutput, Transaction}
use libbitcoin.Transaction.{is_coinbase}
use libbitcoin.Script.{Operation, Script}
use libbitcoin.Script.Codec.{parse_script}
use libbitcoin.Script.Outcome.{Outcome, pass, fail, fault, ◌>>=◌, require, trusted}
use libbitcoin.Script.Types.{pays_script_hash}
use libbitcoin.Script.Run.{run}
use libbitcoin.Validate.Connect.{add_value}
use libbitcoin.Validate.Sigops.{count_script_sigops}
use libbitcoin.Validate.Block.{BlockContext, max_block_script_sig_operations}

-- The data of the back of a vector that is not empty.
unfoldable pub back_data : Operation → List Operation → List ℕ
back_data op [] = op.bytes
back_data op (next ∷ operations) = back_data next operations

unfoldable pub eval_sigops : List Operation → Outcome ℕ
unfolding back_data
eval_sigops [] = pass 0
eval_sigops (op ∷ operations) = trusted (parse_script (back_data op operations)) >>= λ eval_script.
    pass (count_script_sigops eval_script.operations true)

unfoldable pub script_hash_signature_operations_count : Script → Script → Outcome ℕ
unfolding eval_sigops
script_hash_signature_operations_count output_script input_script =
    if pays_script_hash output_script
    then eval_sigops input_script.operations
    else pass (count_script_sigops output_script.operations true)

-- The difference of depths is kept in a uint32_t.
unfoldable pub spends_immature : Transaction → ℕ → ℕ → Outcome Bool
spends_immature previous_tx previous_depth depth =
    if is_coinbase previous_tx
    then (if leb previous_depth depth
        then pass (ltb ((depth - previous_depth) % 2 ^ 32) coinbase_maturity)
        else fault)
    else pass false

unfoldable pub bip16_enabled : ℕ → ℕ → Outcome Bool
bip16_enabled timestamp depth =
    if leb bip16_switchover_timestamp timestamp
    then (if leb bip16_switchover_depth depth then pass true else fault)
    else pass false

-- What the loops carry from input to input.
pub record Tally : Type 0 where
  pub value_in : ℕ
  pub total_sigops : ℕ

module _ (o : Openssl) (context : BlockContext) (depth timestamp : ℕ) where
  unfoldable pub spend_output :
      Transaction
      → ℕ
      → ℕ
      → TransactionInput
      → Transaction
      → ℕ
      → TransactionOutput
      → Tally
      → Outcome Tally
  unfolding spends_immature bip16_enabled
  spend_output current_tx index_in_parent input_index input previous_tx previous_depth output
        tally =
      script_hash_signature_operations_count output.output_script input.input_script >>= λ sigops.
      require (not (ltb max_block_script_sig_operations (tally.total_sigops + sigops))) (
        require (not (ltb max_money output.value)) (
          spends_immature previous_tx previous_depth depth >>= λ immature. require (not immature) (
            bip16_enabled timestamp depth >>= λ enabled.
            run o current_tx (input_index % 2 ^ 32) output.output_script input.input_script enabled
            >>= λ _.
                require
                  (not (context.is_output_spent input.previous_output index_in_parent input_index))
                  (add_value tally.value_in output.value >>= λ value_in.
                    pass (record {
                      value_in = value_in;
                      total_sigops = tally.total_sigops + sigops;
                    })))))

  -- The output is read without a test of its index.
  unfoldable pub spend_indexed :
      Transaction
      → ℕ
      → ℕ
      → TransactionInput
      → Transaction
      → ℕ
      → Option TransactionOutput
      → Tally
      → Outcome Tally
  unfolding spend_output
  spend_indexed current_tx index_in_parent input_index input previous_tx previous_depth none tally =
      fault
  spend_indexed current_tx index_in_parent input_index input previous_tx previous_depth
        (some output) tally =
      spend_output current_tx index_in_parent input_index input previous_tx previous_depth output
        tally

  unfoldable pub spend_fetched :
      Transaction → ℕ → ℕ → TransactionInput → Option (Transaction × ℕ) → Tally → Outcome Tally
  unfolding spend_indexed
  spend_fetched current_tx index_in_parent input_index input none tally = fail
  spend_fetched current_tx index_in_parent input_index input (some (previous_tx, previous_depth))
        tally =
      spend_indexed current_tx index_in_parent input_index input previous_tx previous_depth
        (get_elem? previous_tx.outputs input.previous_output.index) tally

  unfoldable pub connect_block_input :
      Transaction → ℕ → ℕ → TransactionInput → Tally → Outcome Tally
  unfolding spend_fetched
  connect_block_input current_tx index_in_parent input_index input tally =
      spend_fetched current_tx index_in_parent input_index input
        (context.fetch_transaction input.previous_output.hash) tally

  unfoldable pub inputs_loop : Transaction → ℕ → ℕ → List TransactionInput → Tally → Outcome Tally
  unfolding connect_block_input
  inputs_loop tx index_in_parent input_index [] tally = pass tally
  inputs_loop tx index_in_parent input_index (input ∷ inputs) tally =
      connect_block_input tx index_in_parent input_index input tally
      >>= inputs_loop tx index_in_parent (suc input_index) inputs

  unfoldable pub validate_inputs : Transaction → ℕ → Tally → Outcome Tally
  unfolding inputs_loop
  validate_inputs tx index_in_parent tally =
      if is_coinbase tx then fault else inputs_loop tx index_in_parent 0 tx.inputs tally

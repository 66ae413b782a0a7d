-- ===== src/Validate/Block/Spends/Totals.antt =====
-- What the inputs of a transaction that validate_inputs accepts are worth together.
use libbitcoin.Prelude.{
  arith, ℕ, suc, ◌+◌, ◌≤◌, ◌≡◌, refl, ap, Bool, true, false, List, [], ◌∷◌, if◌then◌else◌,
}
use libbitcoin.Openssl.{Openssl}
use libbitcoin.Constants.{max_money}
use libbitcoin.Messages.{TransactionInput, Transaction}
use libbitcoin.Transaction.{is_coinbase}
use libbitcoin.Script.Outcome.{Outcome, pass, fault, bind_elim}
use libbitcoin.Validate.Block.{BlockContext, max_block_script_sig_operations}
use libbitcoin.Validate.Block.Inputs.{Tally, connect_block_input, inputs_loop, validate_inputs}
use libbitcoin.Validate.Block.Spends.{
  AllAccepted, none_left, accepted, pass-eq, connect_block_input-Accepted,
}

not_coinbase :
    (coinbase : Bool) {rest : Outcome Tally} {after : Tally}
    → (if coinbase then fault else rest) ≡ pass after
    → (coinbase ≡ false) × (rest ≡ pass after)
not_coinbase true e = cc
not_coinbase false e = (refl, e)

module _ (o : Openssl) (context : BlockContext) (depth timestamp : ℕ) where
  inputs_loop-AllAccepted :
      (tx : Transaction) (index_in_parent input_index : ℕ) (inputs : List TransactionInput)
      (tally : Tally) {after : Tally}
      → tally.value_in ≤ max_money
      → tally.total_sigops ≤ max_block_script_sig_operations
      → inputs_loop o context depth timestamp tx index_in_parent input_index inputs tally
        ≡ pass after
      → (total : ℕ) × AllAccepted o context depth timestamp tx index_in_parent input_index inputs
          total
        × (after.value_in ≡ tally.value_in + total)
        × (after.value_in ≤ max_money)
        × (after.total_sigops ≤ max_block_script_sig_operations)
  unfolding inputs_loop
  inputs_loop-AllAccepted tx index_in_parent input_index [] tally h k e =
      let same = ap Tally.value_in (pass-eq e) in
      (
        0,
        none_left,
        omega (arith, same),
        omega (arith, same),
        omega (arith, ap Tally.total_sigops (pass-eq e)),
      )
  inputs_loop-AllAccepted tx index_in_parent input_index (input ∷ inputs) tally h k e =
      bind_elim
        (connect_block_input o context depth timestamp tx index_in_parent input_index input tally) _
        e
        λ middle connects rest.
          let (output, accepts, same, bound, _, few) =
            connect_block_input-Accepted o context depth timestamp tx index_in_parent input_index
              input tally h connects in
          let (total, all_accepted, same_rest, bound_rest, few_rest) =
            inputs_loop-AllAccepted tx index_in_parent (suc input_index) inputs middle bound few
              rest in
          (
            output.value + total,
            accepted output accepts all_accepted,
            omega (arith, same, same_rest),
            bound_rest,
            few_rest,
          )

  -- Where validate_inputs passes on a value within max_money, the transaction is no coinbase, every
  -- input spends an output that the context finds, mature and spent by no other input, whose script
  -- accepts it, and the value grows by what these outputs are worth, with no wrap.
  pub validate_inputs-AllAccepted :
      (tx : Transaction) (index_in_parent : ℕ) (tally : Tally) {after : Tally}
      → tally.value_in ≤ max_money
      → tally.total_sigops ≤ max_block_script_sig_operations
      → validate_inputs o context depth timestamp tx index_in_parent tally ≡ pass after
      → (total : ℕ) × (is_coinbase tx ≡ false)
        × AllAccepted o context depth timestamp tx index_in_parent 0 tx.inputs total
        × (after.value_in ≡ tally.value_in + total)
        × (after.value_in ≤ max_money)
        × (after.total_sigops ≤ max_block_script_sig_operations)
  unfolding validate_inputs
  validate_inputs-AllAccepted tx index_in_parent tally h k e =
      let (spender, looped) = not_coinbase (is_coinbase tx) e in
      let (total, all_accepted, same, bound, few) =
        inputs_loop-AllAccepted tx index_in_parent 0 tx.inputs tally h k looped in
      (total, spender, all_accepted, same, bound, few)

-- ===== src/Validate/Block/Spends.antt =====
-- What holds of an input that the connect_input of a block accepts, and what it is worth.
pub mod Totals
use libbitcoin.Prelude.{
  arith, ℕ, suc, ◌+◌, ◌%◌, ◌^◌, ◌≤◌, ◌≡◌, refl, ◌∙◌, ap, Bool, true, false, not, List, [], ◌∷◌, ltb,
  if◌then◌else◌, get_elem?, Option, none, some,
}
use libbitcoin.Openssl.{Openssl}
use libbitcoin.Constants.{max_money}
use libbitcoin.Messages.{TransactionInput, TransactionOutput, Transaction}
use libbitcoin.Transaction.{is_coinbase}
use libbitcoin.Script.Outcome.{Outcome, pass, fault, bind_elim, require_elim}
use libbitcoin.Script.Run.{run}
use libbitcoin.Validate.Connect.{add_value}
use libbitcoin.Validate.Bounds.{add_value-bounds}
use libbitcoin.Validate.Block.{BlockContext, max_block_script_sig_operations}
use libbitcoin.Validate.Block.Inputs.{
  Tally, script_hash_signature_operations_count, spends_immature, bip16_enabled, spend_output,
  spend_indexed, spend_fetched, connect_block_input, inputs_loop, validate_inputs,
}

not-eq-true : (b : Bool) → not b ≡ true → b ≡ false
not-eq-true true h = cc
not-eq-true false h = refl

pub pass-eq : {a b : Tally} → ◌≡◌ {A = Outcome Tally} (pass a) (pass b) → a ≡ b
pass-eq e = cc

Tally-fields :
    (value_in total_sigops : ℕ) {tally : Tally}
    → ◌≡◌ {A = Outcome Tally}
        (pass (record { value_in = value_in; total_sigops = total_sigops }))
        (pass tally)
    → (value_in ≡ tally.value_in) × (total_sigops ≡ tally.total_sigops)
Tally-fields value_in total_sigops e = (cc, cc)

-- The output that an input spends, where the context finds it.
pub record Spends (context : BlockContext) (input : TransactionInput) (output : TransactionOutput)
    : Type 0 where
  pub previous_tx : Transaction
  pub previous_depth : ℕ
  pub is_fetched :
      context.fetch_transaction input.previous_output.hash ≡ some (previous_tx, previous_depth)
  pub is_indexed : get_elem? previous_tx.outputs input.previous_output.index ≡ some output

module _ (o : Openssl) (context : BlockContext) (depth timestamp : ℕ) where
  -- An accepted input: it spends an output that no other input spends, and the scripts agree.
  pub record Accepted (tx : Transaction) (index_in_parent input_index : ℕ)
      (input : TransactionInput) (output : TransactionOutput) : Type 0 where
    pub spends : Spends context input output
    pub unspent : context.is_output_spent input.previous_output index_in_parent input_index ≡ false
    pub mature : spends_immature spends.previous_tx spends.previous_depth depth ≡ pass false
    pub enabled : Bool
    pub switched : bip16_enabled timestamp depth ≡ pass enabled
    pub ran :
        run o tx (input_index % 2 ^ 32) output.output_script input.input_script enabled ≡ pass tt

  -- Every input of a list is accepted, and `total` is what their outputs are worth together.
  pub data AllAccepted (tx : Transaction) (index_in_parent : ℕ)
      : ℕ → List TransactionInput → ℕ → Type 0 where
    none_left : {input_index : ℕ} → AllAccepted tx index_in_parent input_index [] 0
    accepted :
        {input_index total : ℕ} {input : TransactionInput} {inputs : List TransactionInput}
        (output : TransactionOutput)
        → Accepted tx index_in_parent input_index input output
        → AllAccepted tx index_in_parent (suc input_index) inputs total
        → AllAccepted tx index_in_parent input_index (input ∷ inputs) (output.value + total)

  spend_output-eq-pass :
      (tx : Transaction) (index_in_parent input_index : ℕ) (input : TransactionInput)
      (previous_tx : Transaction) (previous_depth : ℕ) (output : TransactionOutput) (tally : Tally)
      {after : Tally}
      → spend_output o context depth timestamp tx index_in_parent input_index input previous_tx
          previous_depth output tally
        ≡ pass after
      → (after.total_sigops ≤ max_block_script_sig_operations)
        × (tally.total_sigops ≤ after.total_sigops)
        × (output.value ≤ max_money)
        × (spends_immature previous_tx previous_depth depth ≡ pass false)
        × (add_value tally.value_in output.value ≡ pass after.value_in)
        × (context.is_output_spent input.previous_output index_in_parent input_index ≡ false)
        × (enabled : Bool) × (bip16_enabled timestamp depth ≡ pass enabled)
        × (run o tx (input_index % 2 ^ 32) output.output_script input.input_script enabled
            ≡ pass tt)
  unfolding spend_output
  spend_output-eq-pass tx index_in_parent input_index input previous_tx previous_depth output tally
        e =
      bind_elim (script_hash_signature_operations_count output.output_script input.input_script) _ e
        λ sigops _ e1.
          require_elim (not (ltb max_block_script_sig_operations (tally.total_sigops + sigops))) _
            e1
            λ few e2. require_elim (not (ltb max_money output.value)) _ e2 λ small e3.
              bind_elim (spends_immature previous_tx previous_depth depth) _ e3
                λ immature matures e4. require_elim (not immature) _ e4 λ mature e5.
                  bind_elim (bip16_enabled timestamp depth) _ e5 λ enabled switched e6.
                    bind_elim
                      (run o tx (input_index % 2 ^ 32) output.output_script input.input_script
                        enabled)
                      _ e6
                      λ _ ran e7.
                        require_elim
                          (not (
                            context.is_output_spent input.previous_output index_in_parent
                              input_index))
                          _ e7
                          λ unspent e8.
                            bind_elim (add_value tally.value_in output.value) _ e8
                              λ value_in added e9.
                                let (same_value, same_sigops) =
                                  Tally-fields value_in (tally.total_sigops + sigops) e9 in
                                (
                                  ground (arith, few),
                                  omega (arith, same_sigops),
                                  ground (arith, small),
                                  matures ∙ ap pass (not-eq-true immature mature),
                                  added ∙ ap pass same_value,
                                  not-eq-true _ unspent,
                                  enabled,
                                  switched,
                                  ran,
                                )

  -- What connect_block_input has found where it passes.
  spend_fetched-eq-pass :
      (tx : Transaction) (index_in_parent input_index : ℕ) (input : TransactionInput)
      (fetched : Option (Transaction × ℕ)) (tally : Tally) {after : Tally}
      → spend_fetched o context depth timestamp tx index_in_parent input_index input fetched tally
        ≡ pass after
      → (previous_tx : Transaction) × (previous_depth : ℕ) × (output : TransactionOutput) × (fetched
          ≡ some (previous_tx, previous_depth))
        × (get_elem? previous_tx.outputs input.previous_output.index ≡ some output)
        × (spend_output o context depth timestamp tx index_in_parent input_index input previous_tx
              previous_depth output tally
            ≡ pass after)
  unfolding spend_fetched
  spend_fetched-eq-pass tx index_in_parent input_index input none tally e = cc
  spend_fetched-eq-pass tx index_in_parent input_index input (some (previous_tx, previous_depth))
        tally {after = after} e =
      indexed (get_elem? previous_tx.outputs input.previous_output.index) refl e
    where
      indexed :
          (found : Option TransactionOutput)
          → get_elem? previous_tx.outputs input.previous_output.index ≡ found
          → spend_indexed o context depth timestamp tx index_in_parent input_index input previous_tx
              previous_depth found tally
            ≡ pass after
          → (previous_tx' : Transaction) × (previous_depth' : ℕ) × (output : TransactionOutput)
            × (◌≡◌ {A = Option (Transaction × ℕ)}
                (some (previous_tx, previous_depth))
                (some (previous_tx', previous_depth')))
            × (get_elem? previous_tx'.outputs input.previous_output.index ≡ some output)
            × (spend_output o context depth timestamp tx index_in_parent input_index input
                  previous_tx' previous_depth' output tally
                ≡ pass after)
      indexed none here e = cc
      indexed (some output) here e = (previous_tx, previous_depth, output, refl, here, e)

  pub connect_block_input-Accepted :
      (tx : Transaction) (index_in_parent input_index : ℕ) (input : TransactionInput)
      (tally : Tally) {after : Tally}
      → tally.value_in ≤ max_money
      → connect_block_input o context depth timestamp tx index_in_parent input_index input tally
        ≡ pass after
      → (output : TransactionOutput) × Accepted tx index_in_parent input_index input output
        × (after.value_in ≡ tally.value_in + output.value)
        × (after.value_in ≤ max_money)
        × (tally.total_sigops ≤ after.total_sigops)
        × (after.total_sigops ≤ max_block_script_sig_operations)
  unfolding connect_block_input
  connect_block_input-Accepted tx index_in_parent input_index input tally h e =
      let (previous_tx, previous_depth, output, is_fetched, is_indexed, spent) =
        spend_fetched-eq-pass tx index_in_parent input_index input
          (context.fetch_transaction input.previous_output.hash) tally e in
      let (few, more, small, mature, added, unspent, enabled, switched, ran) =
        spend_output-eq-pass tx index_in_parent input_index input previous_tx previous_depth output
          tally spent in
      let (same, bound) = add_value-bounds tally.value_in output.value h small added in
      let accepted : Accepted tx index_in_parent input_index input output = record {
        spends = record {
          previous_tx = previous_tx;
          previous_depth = previous_depth;
          is_fetched = is_fetched;
          is_indexed = is_indexed;
        };
        unspent = unspent;
        mature = mature;
        enabled = enabled;
        switched = switched;
        ran = ran;
      } in
      (output, accepted, same, bound, more, few)

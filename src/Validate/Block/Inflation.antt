-- ===== src/Validate/Block/Inflation.antt =====
-- An accepted block makes no more value than the subsidy.
use native.Mathlib.Nat.{div-le_self}
use libbitcoin.Prelude.{
  arith, ℕ, suc, ◌+◌, ◌/◌, ◌%◌, ◌^◌, ◌≤◌, ◌≡◌, refl, not, ◌||◌, ◌==◌, List, [], ◌∷◌, ltb,
  if◌then◌else◌, Option, none, some, All,
}
use libbitcoin.Openssl.{Openssl}
use libbitcoin.Constants.{max_money}
use libbitcoin.Messages.{Transaction, Block}
use libbitcoin.Transaction.{total_output_value}
use libbitcoin.Block.{block_value}
use libbitcoin.Validate.{ErrorCode}
use libbitcoin.Validate.Verdict.{
  Verdict, valid, unless_fails, bind_elim, demand_elim, demand-eq-valid, unless_fails-eq-valid,
}
use libbitcoin.Validate.Connect.{tally_fees}
use libbitcoin.Validate.Sigops.{tx_legacy_sigops_count}
use libbitcoin.Validate.Check.{check_transaction}
use libbitcoin.Validate.Bounds.{
  max_money-lt, output_sum, check_transaction-total_output_value, tally_fees-total_output_value,
}
use libbitcoin.Validate.Block.Check.{check_block}
use libbitcoin.Validate.Block.Accept.{accept_block}
use libbitcoin.Validate.Block.Start.{validate_block}
use libbitcoin.Validate.Block.Guarantees.{IsChecked, check_block-IsChecked}
use libbitcoin.Validate.Block.{BlockContext, max_block_script_sig_operations}
use libbitcoin.Validate.Block.Inputs.{Tally, validate_inputs}
use libbitcoin.Validate.Block.Connect.{
  fees_or_invalid, coinbase_within, connect_transactions, connect_from, connect_block,
  check_duplicates,
}
use libbitcoin.Validate.Block.Spends.{AllAccepted}
use libbitcoin.Validate.Block.Spends.Totals.{validate_inputs-AllAccepted}

valid-eq : {a b : ℕ} → ◌≡◌ {A = Verdict ℕ} (valid a) (valid b) → a ≡ b
valid-eq e = cc

fees-eq : (fees : Option ℕ) {value : ℕ} → fees_or_invalid fees ≡ valid value → fees ≡ some value
unfolding fees_or_invalid
fees-eq none e = cc
fees-eq (some fees) e = cc

module _ (o : Openssl) (context : BlockContext) (depth timestamp : ℕ) where
  -- All inputs of all transactions of a list are accepted; `inputs_value` is what they are worth, and
  -- `outputs_value` what the outputs are, both as numbers without a width.
  pub data AllConnected : ℕ → List Transaction → ℕ → ℕ → Type 0 where
    none_left : {tx_index : ℕ} → AllConnected tx_index [] 0 0
    connected :
        {tx_index inputs_value outputs_value : ℕ} {tx : Transaction}
        {transactions : List Transaction} (total : ℕ)
        → AllAccepted o context depth timestamp tx tx_index 0 tx.inputs total
        → AllConnected (suc tx_index) transactions inputs_value outputs_value
        → AllConnected tx_index
            (tx ∷ transactions)
            (total + inputs_value)
            (output_sum tx.outputs + outputs_value)

  connect_transactions-AllConnected :
      (transactions : List Transaction) (tx_index fees total_sigops : ℕ) {new_fees : ℕ}
      → fees ≤ max_money
      → All (λ tx. check_transaction tx ≡ none) transactions
      → connect_transactions o context depth timestamp transactions tx_index fees total_sigops
        ≡ valid new_fees
      → (inputs_value : ℕ) × (outputs_value : ℕ) × AllConnected tx_index transactions inputs_value
          outputs_value
        × (new_fees + outputs_value ≡ fees + inputs_value)
        × (new_fees ≤ max_money)
  unfolding connect_transactions
  connect_transactions-AllConnected [] tx_index fees total_sigops h checks e =
      let same = valid-eq e in (0, 0, none_left, omega (arith, same), omega (arith, same))
  connect_transactions-AllConnected (tx ∷ transactions) tx_index fees total_sigops h checks e =
      let counted = total_sigops + tx_legacy_sigops_count tx in
      let start : Tally = record { value_in = 0; total_sigops = counted } in
      demand_elim (not (ltb max_block_script_sig_operations counted)) ErrorCode.too_many_sigs _ e
        λ few e1.
          bind_elim
            (unless_fails (validate_inputs o context depth timestamp tx tx_index start)
              ErrorCode.validate_inputs_failed)
            _ e1
            λ tally passed e2.
              bind_elim (fees_or_invalid (tally_fees tx tally.value_in fees)) _ e2
                λ middle tallied e3.
                  let (total, _, all_accepted, same, bound, _) =
                    validate_inputs-AllAccepted o context depth timestamp tx tx_index start
                      (omega arith) (ground (arith, few))
                      (unless_fails-eq-valid _ ErrorCode.validate_inputs_failed passed) in
                  let (_, conserved, within) =
                    tally_fees-total_output_value tx tally.value_in fees bound h
                      (fees-eq _ tallied) in
                  let (inputs_value, outputs_value, rest, sums, within_rest) =
                    connect_transactions-AllConnected transactions (suc tx_index) middle
                      tally.total_sigops within checks.1 e3 in
                  let (_, _, _, whole) = check_transaction-total_output_value tx checks.0 in
                  (
                    total + inputs_value,
                    output_sum tx.outputs + outputs_value,
                    connected total all_accepted rest,
                    omega (arith, same, conserved, sums, whole),
                    within_rest,
                  )

subsidy_bound : (depth : ℕ) {subsidy : ℕ} → block_value depth ≡ some subsidy → subsidy ≤ 5000000000
unfolding block_value
subsidy_bound depth e = ground (arith, div-le_self 5000000000 (2 ^ (depth / 210000)))

coinbase_within-le :
    (coinbase : Transaction) (subsidy : Option ℕ) (fees : ℕ)
    → coinbase_within coinbase subsidy fees ≡ valid tt
    → (value : ℕ) × (subsidy ≡ some value) × (total_output_value coinbase ≤ (value + fees) % 2 ^ 64)
unfolding coinbase_within
coinbase_within-le coinbase none fees e = cc
coinbase_within-le coinbase (some value) fees e =
    (value, refl, ground (arith, demand-eq-valid _ ErrorCode.coinbase_too_large e))

connect_from-conserved :
    (o : Openssl) (context : BlockContext) (depth timestamp : ℕ) (block_txs : List Transaction)
    → All (λ tx. check_transaction tx ≡ none) block_txs
    → connect_from o context depth timestamp block_txs ≡ valid tt
    → (coinbase : Transaction) × (transactions : List Transaction) × (subsidy : ℕ)
      × (inputs_value : ℕ) × (outputs_value : ℕ) × (block_txs ≡ coinbase ∷ transactions)
      × (block_value depth ≡ some subsidy)
      × AllConnected o context depth timestamp 1 transactions inputs_value outputs_value
      × (output_sum coinbase.outputs + outputs_value ≤ subsidy + inputs_value)
unfolding connect_from
connect_from-conserved o context depth timestamp [] checks e = cc
connect_from-conserved o context depth timestamp (coinbase ∷ transactions) checks e =
    bind_elim (connect_transactions o context depth timestamp transactions 1 0 0) _ e
      λ fees connects within.
        let (inputs_value, outputs_value, all_connected, sums, few) =
          connect_transactions-AllConnected o context depth timestamp transactions 1 0 0
            (omega arith) checks.1 connects in
        let (_, _, _, whole) = check_transaction-total_output_value coinbase checks.0 in
        let (subsidy, paid, claimed) =
          coinbase_within-le coinbase (block_value depth) fees within in
        (
          coinbase,
          transactions,
          subsidy,
          inputs_value,
          outputs_value,
          refl,
          paid,
          all_connected,
          omega (arith, sums, claimed, few, whole, subsidy_bound depth paid, max_money-lt),
        )

connect_block-conserved :
    (o : Openssl) (context : BlockContext) (depth : ℕ) (block : Block)
    → All (λ tx. check_transaction tx ≡ none) block.transactions
    → connect_block o context depth block ≡ valid tt
    → (coinbase : Transaction) × (transactions : List Transaction) × (subsidy : ℕ)
      × (inputs_value : ℕ) × (outputs_value : ℕ) × (block.transactions ≡ coinbase ∷ transactions)
      × (block_value depth ≡ some subsidy)
      × AllConnected o context depth block.timestamp 1 transactions inputs_value outputs_value
      × (output_sum coinbase.outputs + outputs_value ≤ subsidy + inputs_value)
unfolding connect_block
connect_block-conserved o context depth block checks e =
    bind_elim
      (if depth == 91842 || depth == 91880
        then valid tt
        else check_duplicates o context depth block.transactions)
      _ e
      λ _ _ connects.
        connect_from-conserved o context depth block.timestamp block.transactions checks connects

-- A block that a validation accepts has a coinbase, all inputs of its other transactions are accepted, and
-- all its outputs together, the coinbase's included, are worth at most the subsidy of its depth and
-- what the inputs are worth, added up without a width: a block makes no value but the subsidy.
pub validate_block-conserved :
    (o : Openssl) (context : BlockContext) (depth : ℕ) (block : Block)
    → validate_block o context depth block ≡ valid tt
    → (coinbase : Transaction) × (transactions : List Transaction) × (subsidy : ℕ)
      × (inputs_value : ℕ) × (outputs_value : ℕ) × (block.transactions ≡ coinbase ∷ transactions)
      × (block_value depth ≡ some subsidy)
      × AllConnected o context depth block.timestamp 1 transactions inputs_value outputs_value
      × (output_sum coinbase.outputs + outputs_value ≤ subsidy + inputs_value)
unfolding validate_block
validate_block-conserved o context depth block e =
    bind_elim (check_block o context.universal_time block) _ e λ _ checks e1.
      bind_elim (accept_block o context depth block) _ e1 λ _ _ connects.
        connect_block-conserved o context depth block
          (IsChecked.each_checked (check_block-IsChecked o context.universal_time block checks))
          connects

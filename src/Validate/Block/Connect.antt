-- ===== src/Validate/Block/Connect.antt =====
-- connect_block of src/validate.cpp: the inputs, the fees and the coinbase.
use libbitcoin.Prelude.{
  ℕ, suc, ◌+◌, ◌%◌, ◌^◌, not, ◌||◌, List, [], ◌∷◌, ltb, ◌==◌, if◌then◌else◌, Option, none, some,
}
use libbitcoin.Openssl.{Openssl}
use libbitcoin.Messages.{Transaction, Block}
use libbitcoin.Transaction.{total_output_value}
use libbitcoin.Block.{block_value}
use libbitcoin.Validate.{ErrorCode}
use libbitcoin.Validate.Verdict.{
  Verdict, valid, invalid, broken, ◌>>=◌, ◌>>◌, demand, trusted, unless_fails,
}
use libbitcoin.Validate.Connect.{tally_fees}
use libbitcoin.Validate.Sigops.{tx_legacy_sigops_count}
use libbitcoin.Validate.Block.{BlockContext, max_block_script_sig_operations}
use libbitcoin.Validate.Block.Duplicates.{not_duplicate_or_spent}
use libbitcoin.Validate.Block.Inputs.{validate_inputs}

-- `fees`, where tally_fees succeeds.
unfoldable pub fees_or_invalid : Option ℕ → Verdict ℕ
fees_or_invalid none = invalid ErrorCode.fees_out_of_range
fees_or_invalid (some fees) = valid fees

unfoldable pub coinbase_within : Transaction → Option ℕ → ℕ → Verdict (Unit {0})
coinbase_within coinbase none fees = broken
coinbase_within coinbase (some subsidy) fees =
    demand (not (ltb ((subsidy + fees) % 2 ^ 64) (total_output_value coinbase)))
      ErrorCode.coinbase_too_large

module _ (o : Openssl) (context : BlockContext) (depth : ℕ) where
  unfoldable pub check_duplicates : List Transaction → Verdict (Unit {0})
  check_duplicates [] = valid tt
  check_duplicates (tx ∷ transactions) = do
    allowed ← trusted (not_duplicate_or_spent o context tx)
    demand allowed ErrorCode.duplicate_or_spent
    check_duplicates transactions

  -- The loop over the transactions after the coinbase, with the fees and the signature operations
  -- so far. Each transaction starts from a `value_in` of 0.
  unfoldable pub connect_transactions : ℕ → List Transaction → ℕ → ℕ → ℕ → Verdict ℕ
  unfolding fees_or_invalid
  connect_transactions timestamp [] tx_index fees total_sigops = valid fees
  connect_transactions timestamp (tx ∷ transactions) tx_index fees total_sigops = do
    let counted = total_sigops + tx_legacy_sigops_count tx
    demand (not (ltb max_block_script_sig_operations counted)) ErrorCode.too_many_sigs
    tally ←
        unless_fails
          (validate_inputs o context depth timestamp tx tx_index
            (record { value_in = 0; total_sigops = counted }))
          ErrorCode.validate_inputs_failed
    new_fees ← fees_or_invalid (tally_fees tx tally.value_in fees)
    connect_transactions timestamp transactions (suc tx_index) new_fees tally.total_sigops

  unfoldable pub connect_from : ℕ → List Transaction → Verdict (Unit {0})
  unfolding connect_transactions coinbase_within
  connect_from timestamp [] = broken
  connect_from timestamp (coinbase ∷ transactions) = do
    fees ← connect_transactions timestamp transactions 1 0 0
    coinbase_within coinbase (block_value depth) fees

  -- BIP 30, from which two blocks are exempt.
  unfoldable pub connect_block : Block → Verdict (Unit {0})
  unfolding check_duplicates connect_from
  connect_block block = do
    (if depth == 91842 || depth == 91880 then valid tt else check_duplicates block.transactions)
    connect_from block.timestamp block.transactions

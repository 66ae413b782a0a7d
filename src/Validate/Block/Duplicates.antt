-- ===== src/Validate/Block/Duplicates.antt =====
-- not_duplicate_or_spent of src/validate.cpp: the fix of BIP 30.
use libbitcoin.Prelude.{
  ℕ, zero, suc, Bool, true, false, List, length, if◌then◌else◌, Result, ok, ◌>>=◌,
}
use libbitcoin.Openssl.{Openssl}
use libbitcoin.Messages.{Transaction}
use libbitcoin.Transaction.Hash.{hash_transaction}
use libbitcoin.Validate.Block.{BlockContext}

-- The loop over the outputs from `output_index` on, of which `left` are left.
unfoldable pub all_spent : BlockContext → List ℕ → ℕ → ℕ → Bool
all_spent context tx_hash zero output_index = true
all_spent context tx_hash (suc left) output_index =
    if context.output_is_spent (record { hash = tx_hash; index = output_index })
    then all_spent context tx_hash left (suc output_index)
    else false

unfoldable pub not_duplicate_or_spent : Openssl → BlockContext → Transaction → Result Bool
unfolding all_spent
not_duplicate_or_spent o context tx = do
  tx_hash ← hash_transaction o tx
  ok (
      if context.transaction_exists tx_hash
      then all_spent context tx_hash (length tx.outputs) 0
      else true)

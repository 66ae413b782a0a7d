-- ===== src/Validate/Block/Check.antt =====
-- check_block of src/validate.cpp: the checks that need no chain.
use libbitcoin.Prelude.{
  ℕ, ◌+◌, Bool, true, false, not, ◌||◌, List, [], ◌∷◌, ltb, ◌==◌, if◌then◌else◌, chunk_eq, length,
}
use libbitcoin.Openssl.{Openssl}
use libbitcoin.Messages.{Transaction, Block}
use libbitcoin.Transaction.{is_coinbase}
use libbitcoin.Transaction.Hash.{hash_transaction}
use libbitcoin.Transaction.Merkle.{generate_merkle_root}
use libbitcoin.Block.{hash_block_header}
use libbitcoin.SatoshiSerialize.Blocks.{block_raw_size}
use libbitcoin.Validate.{ErrorCode}
use libbitcoin.Validate.Verdict.{Verdict, valid, broken, ◌>>=◌, ◌>>◌, demand, checked, trusted}
use libbitcoin.Validate.Check.{check_transaction}
use libbitcoin.Validate.Sigops.{legacy_sigops_count}
use libbitcoin.Validate.Block.{max_block_size, max_block_script_sig_operations}
use libbitcoin.Validate.Block.Work.{check_proof_of_work}

unfoldable pub has_coinbase : List Transaction → Bool
has_coinbase [] = false
has_coinbase (tx ∷ transactions) = if is_coinbase tx then true else has_coinbase transactions

-- The size limits have refused an empty list before its front is read.
unfoldable pub check_coinbases : List Transaction → Verdict (Unit {0})
check_coinbases [] = broken
check_coinbases (coinbase ∷ transactions) = do
  demand (is_coinbase coinbase) ErrorCode.first_not_coinbase
  demand (not (has_coinbase transactions)) ErrorCode.extra_coinbases

unfoldable pub contains : List (List ℕ) → List ℕ → Bool
contains [] hash = false
contains (other ∷ hashes) hash = if chunk_eq other hash then true else contains hashes hash

-- std::set::insert.
unfoldable pub insert_unique : List ℕ → List (List ℕ) → List (List ℕ)
unfolding contains
insert_unique hash unique_txs = if contains unique_txs hash then unique_txs else hash ∷ unique_txs

module _ (o : Openssl) where
  unfoldable pub check_transactions : List Transaction → List (List ℕ) → Verdict (List (List ℕ))
  unfolding insert_unique
  check_transactions [] unique_txs = valid unique_txs
  check_transactions (tx ∷ transactions) unique_txs = do
    checked (check_transaction tx)
    hash ← trusted (hash_transaction o tx)
    check_transactions transactions (insert_unique hash unique_txs)

  unfoldable pub check_size : Block → Verdict (Unit {0})
  check_size block =
      demand
        (not (
          length block.transactions == 0
          || (ltb max_block_size (length block.transactions)
              || ltb max_block_size (block_raw_size block))))
        ErrorCode.size_limits

  -- Two hours from the clock's time on.
  unfoldable pub check_block : ℕ → Block → Verdict (Unit {0})
  unfolding check_size check_coinbases check_transactions
  check_block universal_time block = do
    check_size block
    demand (check_proof_of_work o (hash_block_header o block) block.bits) ErrorCode.proof_of_work
    demand (not (ltb (universal_time + 7200) block.timestamp)) ErrorCode.futuristic_timestamp
    check_coinbases block.transactions
    unique_txs ← check_transactions block.transactions []
    demand (length unique_txs == length block.transactions) ErrorCode.duplicate
    demand (not (ltb max_block_script_sig_operations (legacy_sigops_count block.transactions 0)))
        ErrorCode.too_many_sigs
    merkle ← trusted (generate_merkle_root o block.transactions)
    demand (chunk_eq block.merkle merkle) ErrorCode.merkle_mismatch

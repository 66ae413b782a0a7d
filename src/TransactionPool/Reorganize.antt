-- ===== src/TransactionPool/Reorganize.antt =====
-- reorganize and its helpers in src/transaction_pool.cpp.
use libbitcoin.Prelude.{ℕ, List, [], ◌∷◌, ◌++◌, if◌then◌else◌, chunk_eq, none, Result, ok, ◌>>=◌}
use libbitcoin.Openssl.{Openssl}
use libbitcoin.Messages.{Transaction, Block}
use libbitcoin.Transaction.Hash.{hash_transaction}
use libbitcoin.TransactionPool.{Pool}
use libbitcoin.TransactionPool.Delegate.{StoreHandler, resubmit, Call, confirm_called}

-- The first entry with the hash is erased, and its confirm handler called.
unfoldable pub try_delete : Pool → List ℕ → Pool × List Call
try_delete [] tx_hash = ([], [])
try_delete (entry ∷ pool) tx_hash =
    let (rest, calls) = try_delete pool tx_hash in
    if chunk_eq entry.hash tx_hash
    then (pool, confirm_called entry.handle_confirm none ∷ [])
    else (entry ∷ rest, calls)

-- A call of `store`, which waits on the strand.
pub record Posted : Type 0 where
  pub stored_transaction : Transaction
  pub confirm : ℕ
  pub handler : StoreHandler

unfoldable pub resubmit_all : Pool → List Posted
resubmit_all [] = []
resubmit_all (entry ∷ pool) =
    record {
      stored_transaction = entry.tx;
      confirm = entry.handle_confirm;
      handler = resubmit entry.handle_confirm;
    }
    ∷ resubmit_all pool

module _ (o : Openssl) where
  unfoldable pub takeout_transactions : Pool → List Transaction → Result (Pool × List Call)
  unfolding try_delete
  takeout_transactions pool [] = ok (pool, [])
  takeout_transactions pool (new_tx ∷ transactions) = do
    tx_hash ← hash_transaction o new_tx
    rest ← takeout_transactions (try_delete pool tx_hash).0 transactions
    ok (rest.0, (try_delete pool tx_hash).1 ++ rest.1)

  unfoldable pub takeout_confirmed : Pool → List Block → Result (Pool × List Call)
  unfolding takeout_transactions
  takeout_confirmed pool [] = ok (pool, [])
  takeout_confirmed pool (new_block ∷ blocks) = do
    taken ← takeout_transactions pool new_block.transactions
    rest ← takeout_confirmed taken.0 blocks
    ok (rest.0, taken.1 ++ rest.1)

  -- The pool, the calls of `store` and the calls of confirm handlers. With a replaced block, every entry
  -- is stored again and the pool cleared; the blocks themselves are not read then.
  unfoldable pub reorganize :
      Pool → List Block → List Block → Result (Pool × List Posted × List Call)
  unfolding resubmit_all takeout_confirmed
  reorganize pool new_blocks (replaced ∷ replaced_blocks) = ok ([], resubmit_all pool, [])
  reorganize pool new_blocks [] = do
    taken ← takeout_confirmed pool new_blocks
    ok (taken.0, [], taken.1)

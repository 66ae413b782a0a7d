-- ===== src/TransactionPool/Delegate.antt =====
-- do_store and handle_delegate of src/transaction_pool.cpp.
use libbitcoin.Prelude.{
  ℕ, Bool, true, false, List, [], ◌∷◌, length, ltb, if◌then◌else◌, Option, none, some, Result, ok,
  assert, ◌>>=◌, ◌>>◌,
}
use libbitcoin.Openssl.{Openssl}
use libbitcoin.Messages.{Transaction}
use libbitcoin.Transaction.Hash.{hash_transaction}
use libbitcoin.TransactionPool.{Entry, Pool, push_back, tx_exists}
use libbitcoin.Validate.{ErrorCode}
use libbitcoin.Validate.Transaction.{Progress}
use libbitcoin.Validate.Transaction.Handlers.{start}

-- A store handler: a client's, by a number, or handle_resubmit bound to a confirm handler.
pub data StoreHandler : Type 0 where
  client resubmit : ℕ → StoreHandler

-- The calls of handlers.
pub data Call : Type 0 where
  store_called : ℕ → Option ErrorCode → List ℕ → Call
  confirm_called : ℕ → Option ErrorCode → Call

-- A call of a store handler. handle_resubmit calls the confirm handler where there is an error.
unfoldable pub call_store : StoreHandler → Option ErrorCode → List ℕ → List Call
call_store (client handler) ec unconfirmed = store_called handler ec unconfirmed ∷ []
call_store (resubmit handler) none unconfirmed = []
call_store (resubmit handler) (some code) unconfirmed = confirm_called handler (some code) ∷ []

-- `unconfirmed.size() == 1` and the test of its front.
unfoldable pub is_one_index : List ℕ → ℕ → Bool
is_one_index (index ∷ []) size = ltb index size
is_one_index _ size = false

unfoldable pub is_empty : List ℕ → Bool
is_empty [] = true
is_empty (index ∷ indexes) = false

unfoldable pub handle_delegate :
    Pool → Option ErrorCode → List ℕ → Entry → StoreHandler → Result (Pool × List Call)
unfolding call_store is_one_index is_empty
handle_delegate pool (some ErrorCode.input_not_found) unconfirmed tx_entry handle_store = do
  assert (is_one_index unconfirmed (length tx_entry.tx.inputs))
  ok (pool, call_store handle_store (some ErrorCode.input_not_found) unconfirmed)
handle_delegate pool none unconfirmed tx_entry handle_store =
    if tx_exists pool tx_entry.hash
    then ok (pool, call_store handle_store (some ErrorCode.duplicate) [])
    else ok (push_back pool tx_entry, call_store handle_store none unconfirmed)
handle_delegate pool (some code) unconfirmed tx_entry handle_store = do
  assert (is_empty unconfirmed)
  ok (pool, call_store handle_store (some code) [])

-- A validation that runs for an entry.
pub record Delegate : Type 0 where
  pub tx_entry : Entry
  pub handler : StoreHandler
  pub progress : Progress

unfoldable pub do_store : Openssl → Pool → Transaction → ℕ → StoreHandler → Result Delegate
do_store o pool tx handle_confirm handle_store = do
  hash ← hash_transaction o tx
  ok (record {
    tx_entry = record { hash = hash; tx = tx; handle_confirm = handle_confirm };
    handler = handle_store;
    progress = start o pool tx;
  })

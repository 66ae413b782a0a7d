-- ===== src/TransactionPool/Steps.antt =====
-- The runs of a transaction pool: what the strand may do next, and the states that follow.
pub mod Invariant
pub mod Keeps
pub mod Takeout
pub mod Asserts
use libbitcoin.Prelude.{Option, ℕ, List, [], ◌∷◌, ◌++◌, ◌≡◌, ok}
use libbitcoin.Openssl.{Openssl}
use libbitcoin.Messages.{Transaction, Block}
use libbitcoin.TransactionPool.{Pool}
use libbitcoin.TransactionPool.Delegate.{Delegate, Call, StoreHandler, do_store, handle_delegate}
use libbitcoin.TransactionPool.Reorganize.{Posted, reorganize}
use libbitcoin.Validate.{ErrorCode}
use libbitcoin.Validate.Transaction.{Moment, Progress, finished}
use libbitcoin.Validate.Transaction.Handlers.{resume}

-- The pool, the calls of `store` that wait on the strand, and the validations that run, each of which
-- waits for the blockchain or for the strand to run its handle_delegate.
pub record State : Type 0 where
  pub pool : Pool
  pub posted : List Posted
  pub delegates : List Delegate

abbrev pub empty_state : State
empty_state = record { pool = []; posted = []; delegates = [] }

-- One handler of the strand, by its calls of client handlers. The strand runs one at a time, and
-- which validation is answered next is the blockchain's choice.
pub data Step (o : Openssl) (before : State) (calls : List Call) (after : State) : Type 0 where
  store :
      (call : Posted)
      → calls ≡ []
      → after ≡ record before { posted = before.posted ++ call ∷ [] }
      → Step o before calls after
  run_store :
      (call : Posted) (others : List Posted) (delegate : Delegate)
      → before.posted ≡ call ∷ others
      → do_store o before.pool call.stored_transaction call.confirm call.handler ≡ ok delegate
      → calls ≡ []
      → after ≡ record before { posted = others; delegates = before.delegates ++ delegate ∷ [] }
      → Step o before calls after
  answer :
      (now : Moment) (front : List Delegate) (delegate : Delegate) (back : List Delegate)
      → now.pool ≡ before.pool
      → before.delegates ≡ front ++ delegate ∷ back
      → calls ≡ []
      → after ≡ record before {
        delegates = front ++ record delegate { progress = resume o now delegate.progress } ∷ back;
      }
      → Step o before calls after
  deliver :
      (front : List Delegate) (delegate : Delegate) (back : List Delegate) (new_pool : Pool)
      (ec : Option ErrorCode) (unconfirmed : List ℕ)
      → before.delegates ≡ front ++ delegate ∷ back
      → delegate.progress ≡ finished ec unconfirmed
      → handle_delegate before.pool ec unconfirmed delegate.tx_entry delegate.handler
        ≡ ok (new_pool, calls)
      → after ≡ record before { pool = new_pool; delegates = front ++ back }
      → Step o before calls after
  reorganized :
      (new_blocks replaced_blocks : List Block) (new_pool : Pool) (stores : List Posted)
      → reorganize o before.pool new_blocks replaced_blocks ≡ ok (new_pool, stores, calls)
      → after ≡ record before { pool = new_pool; posted = before.posted ++ stores }
      → Step o before calls after

-- The states that are reached from an empty pool.
pub data Reach (o : Openssl) : State → Type 0 where
  started : Reach o empty_state
  then_step :
      {before after : State} (calls : List Call)
      → Reach o before
      → Step o before calls after
      → Reach o after

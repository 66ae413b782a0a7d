-- ===== src/Validate/Transaction.antt =====
-- The class validate_transaction of include/bitcoin/validate.hpp and src/validate.cpp, whose handlers run
-- one after another as the blockchain answers.
pub mod Handlers
pub mod Cases
pub mod Rounds
pub mod Reports
pub mod Steps
pub mod Fetched
pub mod Guarantees
use libbitcoin.Prelude.{ℕ, List, Option}
use libbitcoin.Messages.{OutputPoint, Transaction}
use libbitcoin.TransactionPool.{Pool}
use libbitcoin.Validate.{ErrorCode}

-- The arguments of a handler: a value, or an error.
pub data Reply {ℓ} (A : Type ℓ) : Type ℓ where
  found : A → Reply A
  failed : ErrorCode → Reply A

-- What the blockchain and the pool are while a handler runs. A call of the chain and its answer are
-- taken as one: the answer is the one that the handler is run with.
pub record Moment : Type 0 where
  pub fetch_transaction : List ℕ → Reply Transaction
  pub fetch_last_depth : Reply ℕ
  pub fetch_transaction_index : List ℕ → Reply ℕ
  -- The spend of an output, of which the code reads only the error code.
  pub fetch_spend : OutputPoint → Option ErrorCode
  pub pool : Pool

pub record Validation : Type 0 where
  pub tx : Transaction
  pub tx_hash : List ℕ
  pub last_block_depth : ℕ
  pub value_in : ℕ
  pub current_input : ℕ
  pub unconfirmed : List ℕ

-- The call of the blockchain that a validation waits for, by the handler of its answer.
pub data Awaited : Type 0 where
  handle_duplicate_check set_last_depth previous_tx_index check_double_spend : Awaited
  handle_previous_tx : ℕ → Awaited

-- `finished` is the call of handle_validate_ with its two arguments, after which no handler of the
-- validation is called; `broken` what C++ leaves undefined, or an assertion that does not hold.
pub data Progress : Type 0 where
  waiting : Awaited → Validation → Progress
  finished : Option ErrorCode → List ℕ → Progress
  broken : Progress

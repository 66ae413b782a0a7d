-- ===== src/Validate/Transaction/Handlers.antt =====
-- The handlers of validate_transaction in src/validate.cpp.
use libbitcoin.Prelude.{
  ℕ, suc, Bool, true, false, List, [], ◌∷◌, ◌++◌, length, ltb, ◌==◌, if◌then◌else◌, get_elem?,
  Option, none, some, Result, ok, err,
}
use libbitcoin.Openssl.{Openssl}
use libbitcoin.Messages.{OutputPoint, TransactionInput, Transaction}
use libbitcoin.Transaction.{is_coinbase, point_eq}
use libbitcoin.Transaction.Hash.{hash_transaction}
use libbitcoin.TransactionPool.{Pool, fetch}
use libbitcoin.Script.Outcome.{Outcome, pass, fail, fault}
use libbitcoin.Validate.{ErrorCode}
use libbitcoin.Validate.Check.{check_transaction}
use libbitcoin.Validate.Connect.{connect_input}
use libbitcoin.Validate.Transaction.{
  Reply, found, failed, Moment, Validation, Awaited, Progress, waiting, finished, broken,
}

spends_point : List TransactionInput → OutputPoint → Bool
spends_point [] outpoint = false
spends_point (input ∷ inputs) outpoint =
    if point_eq input.previous_output outpoint then true else spends_point inputs outpoint

unfoldable pub is_spent : Pool → OutputPoint → Bool
unfolding spends_point
is_spent [] outpoint = false
is_spent (entry ∷ pool) outpoint =
    if spends_point entry.tx.inputs outpoint then true else is_spent pool outpoint

unfoldable pub any_spent : Pool → List TransactionInput → Bool
any_spent pool [] = false
any_spent pool (input ∷ inputs) =
    if is_spent pool input.previous_output then true else any_spent pool inputs

exists_error : Option Transaction → Option ErrorCode
exists_error none = none
exists_error (some tx) = some ErrorCode.duplicate

checked_then : Option ErrorCode → Option ErrorCode → Option ErrorCode
checked_then (some code) rest = some code
checked_then none rest = rest

-- is_standard() is true.
unfoldable pub basic_checks : Pool → Transaction → List ℕ → Option ErrorCode
unfolding exists_error checked_then
basic_checks pool tx tx_hash = checked_then (check_transaction tx) (
    if is_coinbase tx
    then some ErrorCode.coinbase_transaction
    else exists_error (fetch pool tx_hash))

unfoldable pub next_previous_transaction : Validation → Progress
next_previous_transaction validation =
    if ltb validation.current_input (length validation.tx.inputs)
    then waiting Awaited.previous_tx_index validation
    else broken

-- The result of tally_fees is not read.
unfoldable pub check_fees : Validation → Progress
check_fees validation = finished none validation.unconfirmed

unfoldable pub double_spend_checked : Option ErrorCode → Validation → Progress
unfolding next_previous_transaction check_fees
double_spend_checked (some ErrorCode.unspent_output) validation =
    let advanced = record validation { current_input = suc validation.current_input } in
    if advanced.current_input == length validation.tx.inputs
    then check_fees advanced
    else next_previous_transaction advanced
double_spend_checked ec validation = finished (some ErrorCode.double_spend) []

unfoldable pub last_depth_set : Reply ℕ → Validation → Progress
unfolding next_previous_transaction
last_depth_set (failed ec) validation = finished (some ec) []
last_depth_set (found last_depth) validation =
    if ltb 0 (length validation.tx.inputs)
    then next_previous_transaction
        (record validation { last_block_depth = last_depth; value_in = 0; current_input = 0 })
    else broken

unfoldable pub duplicate_checked : Pool → Reply Transaction → Validation → Progress
duplicate_checked pool (failed ErrorCode.not_found) validation =
    if any_spent pool validation.tx.inputs
    then finished (some ErrorCode.double_spend) []
    else waiting Awaited.set_last_depth validation
duplicate_checked pool reply validation = finished (some ErrorCode.duplicate) []

unfoldable pub connected : Validation → Outcome ℕ → Progress
connected validation (pass value_in) =
    waiting Awaited.check_double_spend (record validation { value_in = value_in })
connected validation fail = finished (some ErrorCode.validate_inputs_failed) []
connected validation fault = broken

-- The constructor leaves the numbers without a value, and they are assigned before they are read.
abbrev pub new_validation : Transaction → List ℕ → Validation
new_validation tx tx_hash = record {
  tx = tx;
  tx_hash = tx_hash;
  last_block_depth = 0;
  value_in = 0;
  current_input = 0;
  unconfirmed = [];
}

module _ (o : Openssl) where
  unfoldable pub previous_tx_fetched : Reply Transaction → ℕ → Validation → Progress
  unfolding connected
  previous_tx_fetched (failed ec) parent_depth validation =
      finished (some ErrorCode.input_not_found) (validation.current_input ∷ [])
  previous_tx_fetched (found previous_tx) parent_depth validation = connected validation (
      connect_input o validation.tx validation.current_input previous_tx parent_depth
        validation.last_block_depth validation.value_in)

  -- `unconfirmed_.push_back(current_input_)`, which changes nothing once handle_validate_ is called.
  unfoldable pub push_unconfirmed : ℕ → Progress → Progress
  push_unconfirmed current_input (waiting awaited validation) =
      waiting awaited
        (record validation { unconfirmed = validation.unconfirmed ++ current_input ∷ [] })
  push_unconfirmed current_input (finished ec unconfirmed) = finished ec unconfirmed
  push_unconfirmed current_input broken = broken

  unfoldable pub pool_searched : Option Transaction → Validation → Progress
  unfolding previous_tx_fetched push_unconfirmed
  pool_searched none validation =
      finished (some ErrorCode.input_not_found) (validation.current_input ∷ [])
  pool_searched (some previous_tx) validation =
      if is_coinbase previous_tx
      then broken
      else push_unconfirmed validation.current_input
          (previous_tx_fetched (found previous_tx) 0 validation)

  unfoldable pub index_fetched : Pool → Reply ℕ → OutputPoint → Validation → Progress
  unfolding pool_searched
  index_fetched pool (failed ec) previous_output validation =
      pool_searched (fetch pool previous_output.hash) validation
  index_fetched pool (found parent_depth) previous_output validation =
      waiting (Awaited.handle_previous_tx parent_depth) validation

  -- A handler with the answer of the call that it was bound to. The last three calls are for an output
  -- of the current input, which is read without a test.
  unfoldable pub resume_at : Moment → Awaited → Validation → Option TransactionInput → Progress
  unfolding duplicate_checked last_depth_set index_fetched previous_tx_fetched double_spend_checked
  resume_at now Awaited.handle_duplicate_check validation input =
      duplicate_checked now.pool (now.fetch_transaction validation.tx_hash) validation
  resume_at now Awaited.set_last_depth validation input =
      last_depth_set now.fetch_last_depth validation
  resume_at now Awaited.previous_tx_index validation none = broken
  resume_at now Awaited.previous_tx_index validation (some input) =
      index_fetched now.pool (now.fetch_transaction_index input.previous_output.hash)
        input.previous_output validation
  resume_at now (Awaited.handle_previous_tx parent_depth) validation none = broken
  resume_at now (Awaited.handle_previous_tx parent_depth) validation (some input) =
      previous_tx_fetched (now.fetch_transaction input.previous_output.hash) parent_depth validation
  resume_at now Awaited.check_double_spend validation none = broken
  resume_at now Awaited.check_double_spend validation (some input) =
      double_spend_checked (now.fetch_spend input.previous_output) validation

  unfoldable pub resume : Moment → Progress → Progress
  unfolding resume_at
  resume now (waiting awaited validation) =
      resume_at now awaited validation (get_elem? validation.tx.inputs validation.current_input)
  resume now (finished ec unconfirmed) = finished ec unconfirmed
  resume now broken = broken

  -- `start` after the constructor.
  unfoldable pub started : Pool → Transaction → List ℕ → Option ErrorCode → Progress
  started pool tx tx_hash (some ec) = finished (some ec) []
  started pool tx tx_hash none = waiting Awaited.handle_duplicate_check (new_validation tx tx_hash)

  unfoldable pub hashed_start : Pool → Transaction → Result (List ℕ) → Progress
  unfolding started
  hashed_start pool tx (err e) = broken
  hashed_start pool tx (ok tx_hash) = started pool tx tx_hash (basic_checks pool tx tx_hash)

  unfoldable pub start : Pool → Transaction → Progress
  unfolding hashed_start
  start pool tx = hashed_start pool tx (hash_transaction o tx)

  -- The handlers run at each of these moments in turn.
  unfoldable pub run_through : List Moment → Progress → Progress
  run_through [] progress = progress
  run_through (now ∷ moments) progress = run_through moments (resume now progress)

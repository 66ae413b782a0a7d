-- ===== src/Validate/Transaction/Rounds.antt =====
-- A validation ends after so many answers of the blockchain.
use libbitcoin.Prelude.{
  arith, ℕ, ◌+◌, ◌-◌, ◌*◌, ◌≤◌, ◌<◌, ◌≡◌, ◌≢◌, refl, inl, inr, List, [], ◌∷◌, length, Option, none,
  some, Bool-cases, get_elem?, ap,
}
use libbitcoin.Openssl.{Openssl}
use libbitcoin.Messages.{TransactionInput, Transaction}
use libbitcoin.Transaction.{is_coinbase}
use libbitcoin.TransactionPool.{Pool, fetch}
use libbitcoin.Script.Outcome.{Outcome, pass, fail, fault}
use libbitcoin.Validate.{ErrorCode}
use libbitcoin.Validate.Connect.{connect_input}
use libbitcoin.Validate.Transaction.{
  Reply, found, failed, Moment, Validation, Awaited, Progress, waiting, finished, broken,
}
use libbitcoin.Validate.Transaction.Cases.{
  not_found-cases, unspent_output-cases, Starts, not_hashed, rejected, begun, start-Starts,
}
use libbitcoin.Validate.Transaction.Handlers.{
  double_spend_checked, last_depth_set, duplicate_checked, connected, previous_tx_fetched,
  push_unconfirmed, pool_searched, index_fetched, resume_at, resume, started, start, run_through,
}

inputs_left : Validation → ℕ
inputs_left validation = 3 * (length validation.tx.inputs - validation.current_input)

remaining : Progress → ℕ
unfolding inputs_left
remaining (waiting Awaited.handle_duplicate_check validation) = 5 + 3 * length validation.tx.inputs
remaining (waiting Awaited.set_last_depth validation) = 4 + 3 * length validation.tx.inputs
remaining (waiting Awaited.previous_tx_index validation) = 3 + inputs_left validation
remaining (waiting (Awaited.handle_previous_tx depth) validation) = 2 + inputs_left validation
remaining (waiting Awaited.check_double_spend validation) = 1 + inputs_left validation
remaining (finished ec unconfirmed) = 0
remaining broken = 0

duplicate_checked-remaining :
    (pool : Pool) (reply : Reply Transaction) (validation : Validation)
    → remaining (duplicate_checked pool reply validation) < 5 + 3 * length validation.tx.inputs
unfolding remaining
duplicate_checked-remaining pool reply validation =
    ground (arith, not_found-cases pool reply validation)

last_depth_set-remaining :
    (reply : Reply ℕ) (validation : Validation)
    → remaining (last_depth_set reply validation) < 4 + 3 * length validation.tx.inputs
unfolding remaining last_depth_set
last_depth_set-remaining (failed ec) validation = omega arith
last_depth_set-remaining (found depth) validation = ground arith

double_spend_checked-remaining :
    (ec : Option ErrorCode) (validation : Validation)
    → remaining (double_spend_checked ec validation) < 1 + inputs_left validation
unfolding remaining
double_spend_checked-remaining ec validation = ground (arith, unspent_output-cases ec validation)

module _ (o : Openssl) where
  previous_tx_fetched-remaining :
      (reply : Reply Transaction) (parent_depth : ℕ) (validation : Validation)
      → remaining (previous_tx_fetched o reply parent_depth validation) < 2 + inputs_left validation
  unfolding previous_tx_fetched
  previous_tx_fetched-remaining (failed ec) parent_depth validation =
      unfold remaining in omega arith
  previous_tx_fetched-remaining (found previous_tx) parent_depth validation = after (
      connect_input o validation.tx validation.current_input previous_tx parent_depth
        validation.last_block_depth validation.value_in)
    where
      after :
          (outcome : Outcome ℕ)
          → remaining (connected validation outcome) < 2 + inputs_left validation
      after (pass value_in) = unfold remaining connected inputs_left in omega arith
      after fail = unfold remaining connected in omega arith
      after fault = unfold remaining connected in omega arith

  push_unconfirmed-remaining :
      (input : ℕ) (progress : Progress)
      → remaining (push_unconfirmed o input progress) ≡ remaining progress
  unfolding remaining push_unconfirmed
  push_unconfirmed-remaining input (waiting Awaited.handle_duplicate_check validation) = refl
  push_unconfirmed-remaining input (waiting Awaited.set_last_depth validation) = refl
  push_unconfirmed-remaining input (waiting Awaited.previous_tx_index validation) = refl
  push_unconfirmed-remaining input (waiting (Awaited.handle_previous_tx depth) validation) = refl
  push_unconfirmed-remaining input (waiting Awaited.check_double_spend validation) = refl
  push_unconfirmed-remaining input (finished ec unconfirmed) = refl
  push_unconfirmed-remaining input broken = refl

  pool_searched-remaining :
      (previous_tx : Option Transaction) (validation : Validation)
      → remaining (pool_searched o previous_tx validation) < 2 + inputs_left validation
  unfolding pool_searched
  pool_searched-remaining none validation = unfold remaining in omega arith
  pool_searched-remaining (some previous_tx) validation =
      elim (Bool-cases (is_coinbase previous_tx)) [
        | inl coinbase ↦ rw coinbase (unfold remaining in omega arith)
        | inr spender ↦ rw spender (
            omega (
              arith,
              push_unconfirmed-remaining validation.current_input
                  (previous_tx_fetched o (found previous_tx) 0 validation),
              previous_tx_fetched-remaining (found previous_tx) 0 validation,
            ))
      ]

  resume_at-remaining :
      (now : Moment) (awaited : Awaited) (validation : Validation) (input : Option TransactionInput)
      → remaining (resume_at o now awaited validation input)
        < remaining (waiting awaited validation)
  unfolding resume_at remaining index_fetched
  resume_at-remaining now Awaited.handle_duplicate_check validation input =
      duplicate_checked-remaining now.pool (now.fetch_transaction validation.tx_hash) validation
  resume_at-remaining now Awaited.set_last_depth validation input =
      last_depth_set-remaining now.fetch_last_depth validation
  resume_at-remaining now Awaited.previous_tx_index validation none = omega arith
  resume_at-remaining now Awaited.previous_tx_index validation (some input) =
      indexed (now.fetch_transaction_index input.previous_output.hash)
    where
      indexed :
          (reply : Reply ℕ)
          → remaining (index_fetched o now.pool reply input.previous_output validation)
            < 3 + inputs_left validation
      indexed (failed ec) =
          omega
            (arith, pool_searched-remaining (fetch now.pool input.previous_output.hash) validation)
      indexed (found depth) = omega arith
  resume_at-remaining now (Awaited.handle_previous_tx depth) validation none = omega arith
  resume_at-remaining now (Awaited.handle_previous_tx depth) validation (some input) =
      previous_tx_fetched-remaining (now.fetch_transaction input.previous_output.hash) depth
        validation
  resume_at-remaining now Awaited.check_double_spend validation none = omega arith
  resume_at-remaining now Awaited.check_double_spend validation (some input) =
      double_spend_checked-remaining (now.fetch_spend input.previous_output) validation

  waits : (awaited : Awaited) (validation : Validation) → 0 < remaining (waiting awaited validation)
  unfolding remaining
  waits Awaited.handle_duplicate_check validation = omega arith
  waits Awaited.set_last_depth validation = omega arith
  waits Awaited.previous_tx_index validation = omega arith
  waits (Awaited.handle_previous_tx depth) validation = omega arith
  waits Awaited.check_double_spend validation = omega arith

  resumes-ends :
      (moments : List Moment) (progress : Progress)
      → remaining progress ≤ length moments
      → {awaited : Awaited} {validation : Validation}
      → run_through o moments progress ≢ waiting awaited validation
  unfolding run_through
  resumes-ends [] progress h {awaited = awaited} {validation = validation} e =
      absurd (omega (arith, ap remaining e, waits awaited validation))
  resumes-ends (now ∷ moments) (waiting due started) h e =
      let less =
        resume_at-remaining now due started (get_elem? started.tx.inputs started.current_input) in
      resumes-ends moments (resume o now (waiting due started))
        (unfold resume in omega (arith, less)) e
  resumes-ends (now ∷ moments) (finished ec unconfirmed) h e =
      resumes-ends moments (resume o now (finished ec unconfirmed))
        (unfold resume remaining in omega arith) e
  resumes-ends (now ∷ moments) broken h e =
      resumes-ends moments (resume o now broken) (unfold resume remaining in omega arith) e

  Starts-remaining :
      (pool : Pool) (tx : Transaction) {progress : Progress}
      → Starts o pool tx progress
      → remaining progress ≤ 5 + 3 * length tx.inputs
  unfolding remaining
  Starts-remaining pool tx (not_hashed h) = omega arith
  Starts-remaining pool tx (rejected hash code hashed h) = omega arith
  Starts-remaining pool tx (begun hash h k) = omega arith

  -- The validation of a transaction has ended, by a call of its handler or in a fault, after the answers
  -- to at most five calls of the blockchain and three for each input, whatever the answers are and
  -- whatever the pool is at each of them.
  pub start-ends :
      (pool : Pool) (tx : Transaction) (moments : List Moment)
      → 5 + 3 * length tx.inputs ≤ length moments
      → {awaited : Awaited} {validation : Validation}
      → run_through o moments (start o pool tx) ≢ waiting awaited validation
  start-ends pool tx moments h =
      resumes-ends moments (start o pool tx)
        (omega (arith, Starts-remaining pool tx (start-Starts o pool tx)))

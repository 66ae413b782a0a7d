-- ===== src/Validate/Transaction/Cases.antt =====
-- The cases of a handler's tests on an error code, and of the start.
use libbitcoin.Prelude.{
  ℕ, suc, ◌≡◌, ◌≢◌, refl, ◌⊎◌, inl, inr, List, [], length, ltb, ◌==◌, if◌then◌else◌, Option, none,
  some, Result, ok, err,
}
use libbitcoin.Openssl.{Openssl}
use libbitcoin.Messages.{Transaction}
use libbitcoin.Transaction.Hash.{hash_transaction}
use libbitcoin.TransactionPool.{Pool}
use libbitcoin.Validate.{ErrorCode}
use libbitcoin.Validate.Transaction.{
  Reply, found, failed, Validation, Awaited, Progress, waiting, finished, broken,
}
use libbitcoin.Validate.Transaction.Handlers.{
  any_spent, double_spend_checked, duplicate_checked, basic_checks, new_validation, started,
  hashed_start, start,
}

-- The case of each comparison of an error code.
pub not_found-cases :
    (pool : Pool) (reply : Reply Transaction) (validation : Validation)
    → ((reply ≢ failed ErrorCode.not_found)
        × (duplicate_checked pool reply validation ≡ finished (some ErrorCode.duplicate) []))
      ⊎ ((reply ≡ failed ErrorCode.not_found)
          × (duplicate_checked pool reply validation ≡ (
              if any_spent pool validation.tx.inputs
              then finished (some ErrorCode.double_spend) []
              else waiting Awaited.set_last_depth validation)))
unfolding duplicate_checked
not_found-cases pool (failed ErrorCode.not_found) validation = inr (refl, refl)
not_found-cases pool (found tx) validation = inl (λ e. cc, refl)
not_found-cases pool (failed _) validation = inl (λ e. cc, refl)

abbrev pub advance : Validation → Validation
advance validation = record validation { current_input = suc validation.current_input }

pub unspent_output-cases :
    (ec : Option ErrorCode) (validation : Validation)
    → ((ec ≢ some ErrorCode.unspent_output)
        × (double_spend_checked ec validation ≡ finished (some ErrorCode.double_spend) []))
      ⊎ ((ec ≡ some ErrorCode.unspent_output)
          × (double_spend_checked ec validation ≡ (
              if suc validation.current_input == length validation.tx.inputs
              then finished none validation.unconfirmed
              else if ltb (suc validation.current_input) (length validation.tx.inputs)
              then waiting Awaited.previous_tx_index (advance validation)
              else broken)))
unfolding double_spend_checked
unspent_output-cases (some ErrorCode.unspent_output) validation = inr (refl, refl)
unspent_output-cases none validation = inl (λ e. cc, refl)
unspent_output-cases (some _) validation = inl (λ e. cc, refl)

module _ (o : Openssl) (pool : Pool) (tx : Transaction) where
  -- A start is a fault, an error of the basic checks, or the first call of the blockchain.
  pub data Starts : Progress → Type 0 where
    not_hashed : ((hash : List ℕ) → hash_transaction o tx ≢ ok hash) → Starts broken
    rejected :
        (hash : List ℕ) (code : ErrorCode)
        → hash_transaction o tx ≡ ok hash
        → basic_checks pool tx hash ≡ some code
        → Starts (finished (some code) [])
    begun :
        (hash : List ℕ)
        → hash_transaction o tx ≡ ok hash
        → basic_checks pool tx hash ≡ none
        → Starts (waiting Awaited.handle_duplicate_check (new_validation tx hash))

  started-Starts :
      (hash : List ℕ) (ec : Option ErrorCode)
      → hash_transaction o tx ≡ ok hash
      → basic_checks pool tx hash ≡ ec
      → Starts (started o pool tx hash ec)
  unfolding started
  started-Starts hash none hashed e = begun hash hashed e
  started-Starts hash (some code) hashed e = rejected hash code hashed e

  hashed_start-Starts :
      (hashed : Result (List ℕ))
      → hash_transaction o tx ≡ hashed
      → Starts (hashed_start o pool tx hashed)
  unfolding hashed_start
  hashed_start-Starts (err e) same = not_hashed (λ hash h. cc)
  hashed_start-Starts (ok hash) same = started-Starts hash (basic_checks pool tx hash) same refl

  pub start-Starts : Starts (start o pool tx)
  unfolding start
  start-Starts = hashed_start-Starts (hash_transaction o tx) refl

-- ===== src/Validate/Transaction/Guarantees.antt =====
-- What the validate handler is called with, over every run of a validation.
use libbitcoin.Prelude.{
  arith, ℕ, zero, suc, ◌<◌, ◌≡◌, ◌≢◌, refl, sym, ap, ◌∙◌, Bool, true, false, List, [], ◌∷◌, All,
  length, Option, none, some, get_elem?,
}
use libbitcoin.Openssl.{Openssl}
use libbitcoin.Messages.{TransactionInput, TransactionOutput, Transaction}
use libbitcoin.Transaction.{is_coinbase}
use libbitcoin.Script.Codec.{save_script}
use libbitcoin.TransactionPool.{Pool, fetch}
use libbitcoin.Validate.{ErrorCode}
use libbitcoin.Validate.Check.{coinbase_error, inputs_error, filled, check_transaction}
use libbitcoin.Validate.Bounds.{check_transaction-total_output_value}
use libbitcoin.Validate.Transaction.{
  Reply, found, failed, Moment, Validation, Awaited, Progress, waiting, finished, broken,
}
use libbitcoin.Validate.Transaction.Handlers.{
  index_fetched, resume_at, resume, start, run_through, basic_checks,
}
use libbitcoin.Validate.Transaction.Cases.{Starts, not_hashed, rejected, begun, start-Starts}
use libbitcoin.Validate.Transaction.Reports.{refused, by_basic_checks, Breaks, Sound}
use libbitcoin.Validate.Transaction.Steps.{
  duplicate_checked-Sound, last_depth_set-Sound, double_spend_checked-Sound,
}
use libbitcoin.Validate.Transaction.Fetched.{previous_tx_fetched-Sound, pool_searched-Sound}

get_elem?-inside {ℓ} : {A : Type ℓ} (xs : List A) (i : ℕ) → i < length xs → get_elem? xs i ≢ none
get_elem?-inside [] i h e = absurd (omega arith)
get_elem?-inside (x ∷ xs) zero h e = cc
get_elem?-inside (x ∷ xs) (suc i) h e = get_elem?-inside xs i (omega arith) e

-- fetch_last_depth has no input to miss.
abbrev pub Answers : Moment → Type 0
Answers now = now.fetch_last_depth ≢ failed ErrorCode.input_not_found

-- One of the given moments.
pub data Among (now : Moment) : List Moment → Type 0 where
  first : {moments : List Moment} → Among now (now ∷ moments)
  next : {other : Moment} {moments : List Moment} → Among now moments → Among now (other ∷ moments)

All-Among : (moments : List Moment) → All (λ now. Among now moments) moments
All-Among [] = tt
All-Among (now ∷ moments) = (first, further moments (All-Among moments))
  where
    further :
        (some_moments : List Moment)
        → All (λ at. Among at moments) some_moments
        → All (λ at. Among at (now ∷ moments)) some_moments
    further [] h = tt
    further (at ∷ some_moments) h = (next h.0, further some_moments h.1)

module _ (o : Openssl) (first_pool : Pool) (tx : Transaction) (Seen : Moment → Type 0) where
  same_turn :
      (v : Validation) {input : Option TransactionInput}
      → v.tx ≡ tx
      → get_elem? v.tx.inputs v.current_input ≡ input
      → get_elem? tx.inputs v.current_input ≡ input
  same_turn v same here =
      ap (λ (t : Transaction). get_elem? t.inputs v.current_input) (sym same) ∙ here

  resume_at-Sound :
      (now : Moment) (awaited : Awaited) (v : Validation) (input : Option TransactionInput)
      → Seen now
      → Answers now
      → get_elem? v.tx.inputs v.current_input ≡ input
      → Sound o first_pool tx Seen (waiting awaited v)
      → Sound o first_pool tx Seen (resume_at o now awaited v input)
  unfolding resume_at index_fetched
  resume_at-Sound now Awaited.handle_duplicate_check v input seen known here
        (same, some_inputs, held) =
      duplicate_checked-Sound o first_pool tx Seen now v seen same some_inputs held
  resume_at-Sound now Awaited.set_last_depth v input seen known here (same, filled, held) =
      last_depth_set-Sound o first_pool tx Seen now now.fetch_last_depth v seen refl known same
        filled held
  resume_at-Sound now Awaited.previous_tx_index v none seen known here (same, filled, held) =
      absurd (get_elem?-inside tx.inputs v.current_input held.0 (same_turn v same here))
  resume_at-Sound now Awaited.previous_tx_index v (some input) seen known here
        (same, filled, held) =
      indexed (now.fetch_transaction_index input.previous_output.hash) refl
    where
      turn : get_elem? tx.inputs v.current_input ≡ some input
      turn = same_turn v same here

      indexed :
          (reply : Reply ℕ)
          → now.fetch_transaction_index input.previous_output.hash ≡ reply
          → Sound o first_pool tx Seen (index_fetched o now.pool reply input.previous_output v)
      indexed (failed code) e =
          pool_searched-Sound o first_pool tx Seen now code _ v input seen turn e refl same filled
            held
      indexed (found depth) e = (
        same,
        filled,
        (
          held.0,
          held.1,
          record { input = input; now = now; turn = turn; seen = seen; indexed = e },
        ),
      )
  resume_at-Sound now (Awaited.handle_previous_tx depth) v none seen known here
        (same, filled, held) =
      absurd (get_elem?-inside tx.inputs v.current_input held.0 (same_turn v same here))
  resume_at-Sound now (Awaited.handle_previous_tx depth) v (some input) seen known here
        (same, filled, held) =
      previous_tx_fetched-Sound o first_pool tx Seen now
        (now.fetch_transaction input.previous_output.hash) depth v input seen
        (same_turn v same here) refl same filled held
  resume_at-Sound now Awaited.check_double_spend v none seen known here (same, filled, held) =
      absurd (get_elem?-inside tx.inputs v.current_input held.0 (same_turn v same here))
  resume_at-Sound now Awaited.check_double_spend v (some input) seen known here
        (same, filled, held) =
      double_spend_checked-Sound o first_pool tx Seen now v input seen (same_turn v same here) same
        filled held

  run_through-Sound :
      (moments : List Moment) (progress : Progress)
      → All Seen moments
      → All Answers moments
      → Sound o first_pool tx Seen progress
      → Sound o first_pool tx Seen (run_through o moments progress)
  unfolding run_through resume
  run_through-Sound [] progress seen known h = h
  run_through-Sound (now ∷ moments) (waiting awaited v) seen known h =
      run_through-Sound moments _ seen.1 known.1
        (resume_at-Sound now awaited v _ seen.0 known.0 refl h)
  run_through-Sound (now ∷ moments) (finished ec unconfirmed) seen known h =
      run_through-Sound moments (finished ec unconfirmed) seen.1 known.1 h
  run_through-Sound (now ∷ moments) broken seen known h =
      run_through-Sound moments broken seen.1 known.1 h

-- The errors of the basic checks are none of a missing input.
coinbase_error-known : (size : ℕ) → coinbase_error size ≢ some ErrorCode.input_not_found
unfolding coinbase_error
coinbase_error-known size e = ground (arith, e)

inputs_error-known :
    (coinbase : Bool) (inputs : List TransactionInput)
    → inputs_error coinbase inputs ≢ some ErrorCode.input_not_found
unfolding inputs_error
inputs_error-known coinbase [] e = cc
inputs_error-known true (input ∷ inputs) e =
    coinbase_error-known (length (save_script input.input_script)) e
inputs_error-known false (input ∷ inputs) e = ground (arith, e)

filled-known :
    (tx : Transaction) (inputs : List TransactionInput) (outputs : List TransactionOutput)
    → filled tx inputs outputs ≢ some ErrorCode.input_not_found
unfolding filled
filled-known tx [] outputs e = cc
filled-known tx (input ∷ inputs) [] e = cc
filled-known tx (input ∷ inputs) (output ∷ outputs) e =
    ground (arith, e, inputs_error-known (is_coinbase tx) (input ∷ inputs))

check_transaction-known : (tx : Transaction) → check_transaction tx ≢ some ErrorCode.input_not_found
unfolding check_transaction
check_transaction-known tx = filled-known tx tx.inputs tx.outputs

basic_checks-known :
    (pool : Pool) (tx : Transaction) (hash : List ℕ)
    → basic_checks pool tx hash ≢ some ErrorCode.input_not_found
unfolding basic_checks
basic_checks-known pool tx hash e = ground (arith, e, check_transaction-known tx)

-- A transaction that passes the basic checks passes its own, and is no coinbase or copy of an entry.
pub basic_checks-none :
    (pool : Pool) (tx : Transaction) (hash : List ℕ)
    → basic_checks pool tx hash ≡ none
    → (check_transaction tx ≡ none) × (is_coinbase tx ≡ false) × (fetch pool hash ≡ none)
unfolding basic_checks
basic_checks-none pool tx hash e = (ground (arith, e), ground (arith, e), ground (arith, e))

has_inputs : (tx : Transaction) → tx.inputs ≢ [] → 0 < length tx.inputs
has_inputs tx = filled_list tx.inputs
  where
    filled_list : (inputs : List TransactionInput) → inputs ≢ [] → 0 < length inputs
    filled_list [] h = absurd (h refl)
    filled_list (input ∷ inputs) h = omega arith

Starts-Sound :
    (o : Openssl) (pool : Pool) (tx : Transaction) (Seen : Moment → Type 0) {progress : Progress}
    → Starts o pool tx progress
    → Sound o pool tx Seen progress
Starts-Sound o pool tx Seen (not_hashed h) = Breaks.not_hashed h
Starts-Sound o pool tx Seen (rejected hash code hashed h) =
    refused code (λ e. basic_checks-known pool tx hash (h ∙ ap some e))
      (by_basic_checks hash hashed h)
Starts-Sound o pool tx Seen (begun hash h k) =
    let (inputs, _, _, _) =
      check_transaction-total_output_value tx (basic_checks-none pool tx hash k).0 in
    (refl, has_inputs tx inputs, (refl, h, k))

-- Whatever the blockchain answers and whatever the pool is at each of the moments, the validate handler
-- is called in one of three ways. With no error: the transaction has passed the basic checks on the first
-- pool, the chain does not know it and the pool spends none of its outputs; the inputs have one after
-- another been connected to the transactions they spend, as the chain or else the pool gave them, each
-- output unspent by the chain's answer; and the list is that of the indexes, ascending, of exactly the
-- inputs whose transactions the pool gave. With input_not_found and the index of an input whose
-- transaction the chain or the pool does not give. Or with another error, for its own reason, and no
-- index. A validation that breaks has a transaction that cannot be hashed, a script that faults on an
-- input when its turn comes, or an input that spends a coinbase of the pool. The chain's answer for its
-- last depth is taken not to be input_not_found.
pub run_through-start :
    (o : Openssl) (pool : Pool) (tx : Transaction) (moments : List Moment)
    → All Answers moments
    → Sound o pool tx (λ now. Among now moments) (run_through o moments (start o pool tx))
run_through-start o pool tx moments known =
    run_through-Sound o pool tx (λ now. Among now moments) moments (start o pool tx)
      (All-Among moments) known
      (Starts-Sound o pool tx (λ now. Among now moments) (start-Starts o pool tx))

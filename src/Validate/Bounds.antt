-- ===== src/Validate/Bounds.antt =====
-- What a transaction and an input that pass the checks are worth: no sum wraps around.
use libbitcoin.Prelude.{
  arith, ℕ, ◌+◌, ◌%◌, ◌^◌, ◌≤◌, ◌<◌, ◌≡◌, ◌≢◌, refl, subst, ap, ◌∙◌, Bool, true, false, List, [],
  ◌∷◌, if◌then◌else◌, Option, none, some,
}
use libbitcoin.Constants.{max_money, max_money_recursive}
use libbitcoin.Messages.{TransactionInput, TransactionOutput, Transaction}
use libbitcoin.Transaction.{total_output_value, total_loop, is_coinbase}
use libbitcoin.Script.Outcome.{pass}
use libbitcoin.Validate.{ErrorCode}
use libbitcoin.Validate.Check.{outputs_in_range, filled, inputs_error, check_transaction}
use libbitcoin.Validate.Connect.{add_value, tally_fees}

-- The sum of the values, as numbers without a width.
unfoldable pub output_sum : List TransactionOutput → ℕ
output_sum [] = 0
output_sum (output ∷ outputs) = output.value + output_sum outputs

pub max_money-lt : max_money < 2 ^ 63
unfolding max_money max_money_recursive
max_money-lt = omega arith

no_wrap :
    (total value : ℕ)
    → total ≤ max_money
    → value ≤ max_money
    → (total + value) % 2 ^ 64 ≡ total + value
no_wrap total value h k = omega (arith, max_money-lt)

split :
    (output : TransactionOutput) (outputs : List TransactionOutput) (total : ℕ)
    → outputs_in_range (output ∷ outputs) total ≡ true
    → (output.value ≤ max_money)
      × ((total + output.value) % 2 ^ 64 ≤ max_money)
      × (outputs_in_range outputs ((total + output.value) % 2 ^ 64) ≡ true)
unfolding outputs_in_range
split output outputs total e = ground arith

outputs_in_range-bounds :
    (outputs : List TransactionOutput) (total : ℕ)
    → total ≤ max_money
    → outputs_in_range outputs total ≡ true
    → (total + output_sum outputs ≤ max_money)
      × (total_loop outputs total ≡ total + output_sum outputs)
unfolding outputs_in_range output_sum total_loop
outputs_in_range-bounds [] total h e = (omega arith, omega arith)
outputs_in_range-bounds (output ∷ outputs) total h e =
    let (inside, within, rest) = split output outputs total e in
    let same = no_wrap total output.value h inside in
    let (bound, loop) =
      outputs_in_range-bounds outputs (total + output.value)
        (subst (λ t. t ≤ max_money) same within)
        (subst (λ t. outputs_in_range outputs t ≡ true) same rest) in
    (omega (arith, bound), ap (total_loop outputs) same ∙ loop ∙ omega arith)

checked :
    (b : Bool) {r : Option ErrorCode} (code : ErrorCode)
    → (if b then r else some code) ≡ none
    → (b ≡ true) × (r ≡ none)
checked true code e = (refl, e)
checked false code e = cc

check_transaction-parts :
    (tx : Transaction)
    → check_transaction tx ≡ none
    → (tx.inputs ≢ [])
      × (tx.outputs ≢ [])
      × (outputs_in_range tx.outputs 0 ≡ true)
      × (inputs_error (is_coinbase tx) tx.inputs ≡ none)
unfolding check_transaction
check_transaction-parts tx e = parts tx tx.inputs tx.outputs e
  where
    parts :
        (tx : Transaction) (inputs : List TransactionInput) (outputs : List TransactionOutput)
        → filled tx inputs outputs ≡ none
        → (inputs ≢ [])
          × (outputs ≢ [])
          × (outputs_in_range outputs 0 ≡ true)
          × (inputs_error (is_coinbase tx) inputs ≡ none)
    parts tx [] outputs e = cc
    parts tx (input ∷ inputs) [] e = cc
    parts tx (input ∷ inputs) (output ∷ outputs) e =
        let (range, rest) =
          checked (outputs_in_range (output ∷ outputs) 0) ErrorCode.output_value_overflow e in
        (λ k. cc, λ k. cc, range, rest)

-- A transaction without an error has inputs and outputs, and its output values add up to at most
-- max_money: the 64-bit sum of total_output_value is the true one.
pub check_transaction-total_output_value :
    (tx : Transaction)
    → check_transaction tx ≡ none
    → (tx.inputs ≢ [])
      × (tx.outputs ≢ [])
      × (output_sum tx.outputs ≤ max_money)
      × (total_output_value tx ≡ output_sum tx.outputs)
unfolding total_output_value
check_transaction-total_output_value tx e =
    let (ins, outs, range, _) = check_transaction-parts tx e in
    let (bound, loop) = outputs_in_range-bounds tx.outputs 0 (omega arith) range in
    (ins, outs, omega (arith, bound), loop ∙ omega arith)

-- Where tally_fees succeeds on fees of at most max_money, the outputs take no more than the value that
-- comes in, and the new fees are the old ones and the difference, and at most max_money.
pub tally_fees-total_output_value :
    (tx : Transaction) (value_in total_fees : ℕ) {fees : ℕ}
    → value_in ≤ max_money
    → total_fees ≤ max_money
    → tally_fees tx value_in total_fees ≡ some fees
    → (total_output_value tx ≤ value_in)
      × (fees + total_output_value tx ≡ total_fees + value_in)
      × (fees ≤ max_money)
unfolding tally_fees
tally_fees-total_output_value tx value_in total_fees h k e = ground (arith, max_money-lt)

pub add_value-bounds :
    (value_in output_value : ℕ) {value : ℕ}
    → value_in ≤ max_money
    → output_value ≤ max_money
    → add_value value_in output_value ≡ pass value
    → (value ≡ value_in + output_value) × (value ≤ max_money)
unfolding add_value
add_value-bounds value_in output_value h k e = ground (arith, no_wrap value_in output_value h k)

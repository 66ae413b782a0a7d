-- ===== src/Validate/Accepts.antt =====
-- Which inputs connect_input accepts.
use libbitcoin.Prelude.{
  arith, ℕ, ◌+◌, ◌%◌, ◌^◌, ◌≤◌, ◌<◌, ◌≡◌, refl, ap, Bool, true, false, ltb, if◌then◌else◌,
  get_elem?, Option, none, some, ◌⊎◌, ◌↔◌, inl, inr, Bool-cases,
}
use libbitcoin.Openssl.{Openssl}
use libbitcoin.Constants.{max_money}
use libbitcoin.Messages.{TransactionInput, TransactionOutput, Transaction}
use libbitcoin.Transaction.{is_coinbase}
use libbitcoin.Script.Outcome.{Outcome, pass, fail, >>=-eq-pass}
use libbitcoin.Script.Run.{run}
use libbitcoin.Validate.Connect.{is_immature, add_value, spend, spend_input, connect_input}
use libbitcoin.Validate.Bounds.{max_money-lt, add_value-bounds}

guards :
    (a b : Bool) {r : Outcome ℕ} {value : ℕ}
    → (if a then fail else if b then fail else r) ≡ pass value
    → ((a ≡ false) × (b ≡ false)) × (r ≡ pass value)
guards true b e = cc
guards false true e = cc
guards false false e = ((refl, refl), e)

module _ (o : Openssl) (tx : Transaction) (current_input : ℕ) (previous_tx : Transaction) where
  spend_input-eq-pass :
      (input : Option TransactionInput) (parent_depth last_block_depth value_in : ℕ) {value : ℕ}
      → spend_input o tx current_input previous_tx input parent_depth last_block_depth value_in
        ≡ pass value
      → (given : TransactionInput) × (input ≡ some given)
        × (spend o tx current_input previous_tx given
              (get_elem? previous_tx.outputs given.previous_output.index)
              parent_depth
              last_block_depth
              value_in
            ≡ pass value)
  unfolding spend_input
  spend_input-eq-pass none parent_depth last_block_depth value_in e = cc
  spend_input-eq-pass (some input) parent_depth last_block_depth value_in e = (input, refl, e)

  spend-eq-pass :
      (input : TransactionInput) (output : Option TransactionOutput)
      (parent_depth last_block_depth value_in : ℕ) {value : ℕ}
      → spend o tx current_input previous_tx input output parent_depth last_block_depth value_in
        ≡ pass value
      → (given : TransactionOutput) × (output ≡ some given)
        × (is_immature previous_tx parent_depth last_block_depth ≡ false)
        × (run o tx (current_input % 2 ^ 32) given.output_script input.input_script true ≡ pass tt)
        × (given.value ≤ max_money)
        × (add_value value_in given.value ≡ pass value)
  unfolding spend
  spend-eq-pass input none parent_depth last_block_depth value_in e = cc
  spend-eq-pass input (some output) parent_depth last_block_depth value_in e =
      let ((fits, mature), running) =
        guards (ltb max_money output.value) (is_immature previous_tx parent_depth last_block_depth)
          e in
      let (_, ran, added) =
        >>=-eq-pass (run o tx (current_input % 2 ^ 32) output.output_script input.input_script true)
          _ running in
      (output, refl, mature, ran, ground (arith, fits), added)

  -- What an input must be to be accepted, over numbers without a width: it spends an output of the
  -- previous transaction, which is no coinbase or at least 100 blocks deep, and whose script accepts.
  pub record Spends (parent_depth last_block_depth value_in value : ℕ) : Type 0 where
    pub input : TransactionInput
    pub output : TransactionOutput
    pub is_input : get_elem? tx.inputs current_input ≡ some input
    pub is_output : get_elem? previous_tx.outputs input.previous_output.index ≡ some output
    pub mature : (is_coinbase previous_tx ≡ false) ⊎ (parent_depth + 100 ≤ last_block_depth)
    pub ran :
        run o tx (current_input % 2 ^ 32) output.output_script input.input_script true ≡ pass tt
    pub grows : value ≡ value_in + output.value
    pub within : value ≤ max_money

  mature_of :
      (parent_depth last_block_depth : ℕ)
      → parent_depth ≤ last_block_depth
      → last_block_depth < 2 ^ 64
      → is_immature previous_tx parent_depth last_block_depth ≡ false
      → (is_coinbase previous_tx ≡ false) ⊎ (parent_depth + 100 ≤ last_block_depth)
  unfolding is_immature
  mature_of parent_depth last_block_depth h k e = elim (Bool-cases (is_coinbase previous_tx)) [
    | inl coinbase ↦ inr (ground (arith, coinbase, e))
    | inr plain ↦ inl plain
  ]

  is_immature_of :
      (parent_depth last_block_depth : ℕ)
      → last_block_depth < 2 ^ 64
      → (is_coinbase previous_tx ≡ false) ⊎ (parent_depth + 100 ≤ last_block_depth)
      → is_immature previous_tx parent_depth last_block_depth ≡ false
  unfolding is_immature
  is_immature_of parent_depth last_block_depth k (inl plain) = rw plain refl
  is_immature_of parent_depth last_block_depth k (inr deep) = ground (arith, deep)

  connect_input-Spends :
      (parent_depth last_block_depth value_in : ℕ) {value : ℕ}
      → value_in ≤ max_money
      → parent_depth ≤ last_block_depth
      → last_block_depth < 2 ^ 64
      → connect_input o tx current_input previous_tx parent_depth last_block_depth value_in
        ≡ pass value
      → Spends parent_depth last_block_depth value_in value
  unfolding connect_input
  connect_input-Spends parent_depth last_block_depth value_in h d k e =
      let (input, found, spends) =
        spend_input-eq-pass (get_elem? tx.inputs current_input) parent_depth last_block_depth
          value_in e in
      let (output, found_output, immature, ran, fits, added) =
        spend-eq-pass input (get_elem? previous_tx.outputs input.previous_output.index) parent_depth
          last_block_depth value_in spends in
      let (same, bound) = add_value-bounds value_in output.value h fits added in
      record {
        input = input;
        output = output;
        is_input = found;
        is_output = found_output;
        mature = mature_of parent_depth last_block_depth d k immature;
        ran = ran;
        grows = same;
        within = bound;
      }

  Spends-connect_input :
      (parent_depth last_block_depth value_in : ℕ) {value : ℕ}
      → last_block_depth < 2 ^ 64
      → Spends parent_depth last_block_depth value_in value
      → connect_input o tx current_input previous_tx parent_depth last_block_depth value_in
        ≡ pass value
  unfolding connect_input spend_input spend add_value
  Spends-connect_input parent_depth last_block_depth value_in k given =
      let small : ltb max_money given.output.value ≡ false =
        ground (arith, given.grows, given.within) in
      let fits : ltb max_money ((value_in + given.output.value) % 2 ^ 64) ≡ false =
        ground (arith, given.grows, given.within, max_money-lt) in
      rw
        (
          given.is_input,
          given.is_output,
          small,
          is_immature_of parent_depth last_block_depth k given.mature,
          given.ran,
          fits,
        )
        (ap pass (omega (arith, given.grows, given.within, max_money-lt)))

  -- For a previous transaction no deeper than the last block, connect_input accepts an input, with the
  -- value that has then come in, exactly where it meets its specification: the sum is the true one,
  -- and the tests of maturity and of the range are on numbers without a width.
  pub connect_input_iff :
      (parent_depth last_block_depth value_in value : ℕ)
      → value_in ≤ max_money
      → parent_depth ≤ last_block_depth
      → last_block_depth < 2 ^ 64
      → (connect_input o tx current_input previous_tx parent_depth last_block_depth value_in
          ≡ pass value)
        ↔ Spends parent_depth last_block_depth value_in value
  connect_input_iff parent_depth last_block_depth value_in value h d k = (
    connect_input-Spends parent_depth last_block_depth value_in h d k,
    Spends-connect_input parent_depth last_block_depth value_in k,
  )

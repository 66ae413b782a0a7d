-- ===== src/Validate/Transaction/Fetched.antt =====
-- The handlers of the previous transaction keep what holds of a validation.
use libbitcoin.Prelude.{
  ℕ, ◌<◌, ◌≡◌, refl, sym, subst, ap, ◌∙◌, [], ◌∷◌, append-nil, length, get_elem?, Option, none,
  some,
}
use libbitcoin.Openssl.{Openssl}
use libbitcoin.Messages.{TransactionInput, Transaction}
use libbitcoin.Transaction.{is_coinbase}
use libbitcoin.TransactionPool.{Pool, fetch}
use libbitcoin.Script.Outcome.{Outcome, pass, fail, fault}
use libbitcoin.Validate.{ErrorCode}
use libbitcoin.Validate.Connect.{connect_input}
use libbitcoin.Validate.Transaction.{Reply, found, failed, Moment, Validation, Awaited, broken}
use libbitcoin.Validate.Transaction.Handlers.{
  connected, previous_tx_fetched, push_unconfirmed, pool_searched,
}
use libbitcoin.Validate.Transaction.Reports.{
  Fetches, from_chain, from_pool, by_chain, by_pool, missing, refused, script_faults,
  coinbase_in_pool, not_connected, Held, Sound, Sound-if,
}
use libbitcoin.Validate.Transaction.Steps.{some-eq}

module _ (o : Openssl) (first_pool : Pool) (tx : Transaction) (Seen : Moment → Type 0) where
  connected-Sound :
      (v : Validation) (parent_depth : ℕ) (input : TransactionInput) (previous_tx : Transaction)
      (outcome : Outcome ℕ)
      → v.tx ≡ tx
      → 0 < length tx.inputs
      → Held o first_pool tx Seen Awaited.previous_tx_index v
      → get_elem? tx.inputs v.current_input ≡ some input
      → Fetches o first_pool tx Seen v.current_input input.previous_output.hash previous_tx
          parent_depth []
      → connect_input o tx v.current_input previous_tx parent_depth v.last_block_depth v.value_in
        ≡ outcome
      → Sound o first_pool tx Seen (connected v outcome)
  unfolding connected
  connected-Sound v parent_depth input previous_tx (pass value) same filled (inside, before) here
        fetches e =
      (
        same,
        filled,
        (
          inside,
          record {
            value_in = v.value_in;
            parent_depth = parent_depth;
            unconfirmed = v.unconfirmed;
            more = [];
            input = input;
            previous_tx = previous_tx;
            before = before;
            turn = here;
            fetches = fetches;
            connects = e;
            recorded = sym (append-nil v.unconfirmed);
          },
        ),
      )
  connected-Sound v parent_depth input previous_tx fail same filled held here fetches e =
      refused ErrorCode.validate_inputs_failed (λ h. cc) (not_connected held.1 here fetches e)
  connected-Sound v parent_depth input previous_tx fault same filled held here fetches e =
      script_faults held.1 here fetches e

  -- connect_input reads the transaction of the validation, which is the given one.
  connects_same :
      (v : Validation) (parent_depth : ℕ) (previous_tx : Transaction)
      → v.tx ≡ tx
      → connect_input o tx v.current_input previous_tx parent_depth v.last_block_depth v.value_in
        ≡ connect_input o v.tx v.current_input previous_tx parent_depth v.last_block_depth
            v.value_in
  connects_same v parent_depth previous_tx same =
      ap
        (λ (t : Transaction).
          connect_input o t v.current_input previous_tx parent_depth v.last_block_depth v.value_in)
        (sym same)

  pub previous_tx_fetched-Sound :
      (later : Moment) (reply : Reply Transaction) (parent_depth : ℕ) (v : Validation)
      (input : TransactionInput)
      → Seen later
      → get_elem? tx.inputs v.current_input ≡ some input
      → later.fetch_transaction input.previous_output.hash ≡ reply
      → v.tx ≡ tx
      → 0 < length tx.inputs
      → Held o first_pool tx Seen (Awaited.handle_previous_tx parent_depth) v
      → Sound o first_pool tx Seen (previous_tx_fetched o reply parent_depth v)
  unfolding previous_tx_fetched
  previous_tx_fetched-Sound later (failed ec) parent_depth v input seen here e same filled held =
      missing held.0 here (by_chain later seen e)
  previous_tx_fetched-Sound later (found previous_tx) parent_depth v input seen here e same filled
        (inside, before, answered) =
      connected-Sound v parent_depth input previous_tx _ same filled (inside, before) here
        (from_chain answered.now later answered.seen
          (subst
            (λ (at : TransactionInput).
              answered.now.fetch_transaction_index at.previous_output.hash ≡ found parent_depth)
            (some-eq (sym answered.turn ∙ here)) answered.indexed)
          seen e)
        (connects_same v parent_depth previous_tx same)

  -- The index is pushed after the handler of the pool's transaction, which waits for the spend by then.
  pushed-Sound :
      (v : Validation) (input : TransactionInput) (previous_tx : Transaction) (outcome : Outcome ℕ)
      → v.tx ≡ tx
      → 0 < length tx.inputs
      → Held o first_pool tx Seen Awaited.previous_tx_index v
      → get_elem? tx.inputs v.current_input ≡ some input
      → Fetches o first_pool tx Seen v.current_input input.previous_output.hash previous_tx 0
          (v.current_input ∷ [])
      → connect_input o tx v.current_input previous_tx 0 v.last_block_depth v.value_in ≡ outcome
      → Sound o first_pool tx Seen (push_unconfirmed o v.current_input (connected v outcome))
  unfolding connected push_unconfirmed
  pushed-Sound v input previous_tx (pass value) same filled (inside, before) here fetches e = (
    same,
    filled,
    (
      inside,
      record {
        value_in = v.value_in;
        parent_depth = 0;
        unconfirmed = v.unconfirmed;
        more = v.current_input ∷ [];
        input = input;
        previous_tx = previous_tx;
        before = before;
        turn = here;
        fetches = fetches;
        connects = e;
        recorded = refl;
      },
    ),
  )
  pushed-Sound v input previous_tx fail same filled held here fetches e =
      refused ErrorCode.validate_inputs_failed (λ h. cc) (not_connected held.1 here fetches e)
  pushed-Sound v input previous_tx fault same filled held here fetches e =
      script_faults held.1 here fetches e

  pub pool_searched-Sound :
      (now : Moment) (code : ErrorCode) (previous_tx : Option Transaction) (v : Validation)
      (input : TransactionInput)
      → Seen now
      → get_elem? tx.inputs v.current_input ≡ some input
      → now.fetch_transaction_index input.previous_output.hash ≡ failed code
      → fetch now.pool input.previous_output.hash ≡ previous_tx
      → v.tx ≡ tx
      → 0 < length tx.inputs
      → Held o first_pool tx Seen Awaited.previous_tx_index v
      → Sound o first_pool tx Seen (pool_searched o previous_tx v)
  unfolding pool_searched previous_tx_fetched
  pool_searched-Sound now code none v input seen here fails e same filled held =
      missing held.0 here (by_pool now seen fails e)
  pool_searched-Sound now code (some previous_tx) v input seen here fails e same filled held =
      Sound-if o first_pool tx Seen (is_coinbase previous_tx) broken _
        (λ coinbase. coinbase_in_pool v.current_input now seen here e coinbase)
        (λ spendable.
          pushed-Sound v input previous_tx _ same filled held here
            (from_pool now seen fails e spendable) (connects_same v 0 previous_tx same))

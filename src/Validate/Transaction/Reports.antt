-- ===== src/Validate/Transaction/Reports.antt =====
-- What a validation reports, and what it has done before it accepts.
use libbitcoin.Prelude.{
  ℕ, suc, ◌≤◌, ◌<◌, ◌≡◌, ◌≢◌, refl, Bool, true, false, List, [], ◌∷◌, ◌++◌, length, get_elem?,
  if◌then◌else◌, Option, none, some, ok,
}
use libbitcoin.Openssl.{Openssl}
use libbitcoin.Messages.{TransactionInput, Transaction}
use libbitcoin.Transaction.{is_coinbase}
use libbitcoin.Transaction.Hash.{hash_transaction}
use libbitcoin.TransactionPool.{Pool, fetch}
use libbitcoin.Script.Outcome.{pass, fail, fault}
use libbitcoin.Validate.{ErrorCode}
use libbitcoin.Validate.Connect.{connect_input}
use libbitcoin.Validate.Transaction.Handlers.{any_spent, basic_checks}
use libbitcoin.Validate.Transaction.{
  found, failed, Moment, Validation, Awaited, Progress, waiting, finished, broken,
}

-- A list of indexes from `low` on and below `bound`, each above the one before.
abbrev pub Ascends : ℕ → ℕ → List ℕ → Type 0
Ascends low bound [] = low ≤ bound
Ascends low bound (index ∷ indexes) = (low ≤ index) × Ascends (suc index) bound indexes

module _ (o : Openssl) (first_pool : Pool) (tx : Transaction) (Seen : Moment → Type 0) where
  -- Where the transaction of a previous output comes from, its depth, and the index of the input if the
  -- transaction is unconfirmed: the chain has answered with the depth and then with the transaction, or
  -- the chain knows no depth and the pool has the transaction, which is no coinbase.
  pub data Fetches (index : ℕ) (hash : List ℕ) : Transaction → ℕ → List ℕ → Type 0 where
    from_chain :
        {depth : ℕ} {previous_tx : Transaction} (now later : Moment)
        → Seen now
        → now.fetch_transaction_index hash ≡ found depth
        → Seen later
        → later.fetch_transaction hash ≡ found previous_tx
        → Fetches index hash previous_tx depth []
    from_pool :
        {previous_tx : Transaction} {code : ErrorCode} (now : Moment)
        → Seen now
        → now.fetch_transaction_index hash ≡ failed code
        → fetch now.pool hash ≡ some previous_tx
        → is_coinbase previous_tx ≡ false
        → Fetches index hash previous_tx 0 (index ∷ [])

  -- The transaction has passed the basic checks on the first pool, the chain has answered that it does not
  -- know its hash, and the pool spends none of its outputs by then.
  pub record Fresh : Type 0 where
    pub hash : List ℕ
    pub now : Moment
    pub hashed : hash_transaction o tx ≡ ok hash
    pub checked : basic_checks first_pool tx hash ≡ none
    pub seen : Seen now
    pub unknown : now.fetch_transaction hash ≡ failed ErrorCode.not_found
    pub unspent : any_spent now.pool tx.inputs ≡ false

  -- From a new transaction, a value of 0 and the chain's last depth, the inputs below an index have one after another been
  -- connected to the transactions they spend, each output being unspent in the chain; with the value
  -- so far and the indexes of the inputs whose transactions are unconfirmed, in order.
  pub data Connects (last_depth : ℕ) : ℕ → ℕ → List ℕ → Type 0 where
    no_input :
        (now : Moment)
        → Fresh
        → Seen now
        → now.fetch_last_depth ≡ found last_depth
        → Connects last_depth 0 0 []
    next_input :
        {index value_in value parent_depth : ℕ} {unconfirmed more : List ℕ}
        {input : TransactionInput} {previous_tx : Transaction} (now : Moment)
        → Connects last_depth index value_in unconfirmed
        → get_elem? tx.inputs index ≡ some input
        → Fetches index input.previous_output.hash previous_tx parent_depth more
        → connect_input o tx index previous_tx parent_depth last_depth value_in ≡ pass value
        → Seen now
        → now.fetch_spend input.previous_output ≡ some ErrorCode.unspent_output
        → Connects last_depth (suc index) value (unconfirmed ++ more)

  -- The transaction of a previous output is found neither in the chain nor in the pool.
  pub data Misses (hash : List ℕ) : Type 0 where
    by_chain :
        {code : ErrorCode} (now : Moment)
        → Seen now
        → now.fetch_transaction hash ≡ failed code
        → Misses hash
    by_pool :
        {code : ErrorCode} (now : Moment)
        → Seen now
        → now.fetch_transaction_index hash ≡ failed code
        → fetch now.pool hash ≡ none
        → Misses hash

  -- Why a validation refuses the transaction.
  pub data Refuses : ErrorCode → Type 0 where
    by_basic_checks :
        {code : ErrorCode} (hash : List ℕ)
        → hash_transaction o tx ≡ ok hash
        → basic_checks first_pool tx hash ≡ some code
        → Refuses code
    known_to_chain :
        (hash : List ℕ) (now : Moment)
        → hash_transaction o tx ≡ ok hash
        → Seen now
        → now.fetch_transaction hash ≢ failed ErrorCode.not_found
        → Refuses ErrorCode.duplicate
    spent_in_pool :
        (now : Moment)
        → Seen now
        → any_spent now.pool tx.inputs ≡ true
        → Refuses ErrorCode.double_spend
    no_last_depth :
        {code : ErrorCode} (now : Moment)
        → Seen now
        → now.fetch_last_depth ≡ failed code
        → Refuses code
    not_connected :
        {index parent_depth last_depth value_in : ℕ} {unconfirmed more : List ℕ}
        {input : TransactionInput} {previous_tx : Transaction}
        → Connects last_depth index value_in unconfirmed
        → get_elem? tx.inputs index ≡ some input
        → Fetches index input.previous_output.hash previous_tx parent_depth more
        → connect_input o tx index previous_tx parent_depth last_depth value_in ≡ fail
        → Refuses ErrorCode.validate_inputs_failed
    spent_in_chain :
        (index : ℕ) {input : TransactionInput} (now : Moment)
        → Seen now
        → get_elem? tx.inputs index ≡ some input
        → now.fetch_spend input.previous_output ≢ some ErrorCode.unspent_output
        → Refuses ErrorCode.double_spend

  -- The arguments of the validate handler.
  pub data Reports : Option ErrorCode → List ℕ → Type 0 where
    accepted :
        {unconfirmed : List ℕ} (last_depth value : ℕ)
        → Ascends 0 (length tx.inputs) unconfirmed
        → Connects last_depth (length tx.inputs) value unconfirmed
        → Reports none unconfirmed
    missing :
        {index : ℕ} {input : TransactionInput}
        → index < length tx.inputs
        → get_elem? tx.inputs index ≡ some input
        → Misses input.previous_output.hash
        → Reports (some ErrorCode.input_not_found) (index ∷ [])
    refused :
        (code : ErrorCode)
        → code ≢ ErrorCode.input_not_found
        → Refuses code
        → Reports (some code) []

  -- Why a validation may break: the transaction cannot be hashed, a script faults on an input whose
  -- turn it is, or the pool has a coinbase that an input spends.
  pub data Breaks : Type 0 where
    not_hashed : ((hash : List ℕ) → hash_transaction o tx ≢ ok hash) → Breaks
    script_faults :
        {index parent_depth last_depth value_in : ℕ} {unconfirmed more : List ℕ}
        {input : TransactionInput} {previous_tx : Transaction}
        → Connects last_depth index value_in unconfirmed
        → get_elem? tx.inputs index ≡ some input
        → Fetches index input.previous_output.hash previous_tx parent_depth more
        → connect_input o tx index previous_tx parent_depth last_depth value_in ≡ fault
        → Breaks
    coinbase_in_pool :
        (index : ℕ) {input : TransactionInput} {previous_tx : Transaction} (now : Moment)
        → Seen now
        → get_elem? tx.inputs index ≡ some input
        → fetch now.pool input.previous_output.hash ≡ some previous_tx
        → is_coinbase previous_tx ≡ true
        → Breaks

  -- The current input is connected, and the chain has not answered for its spend.
  pub record Pending (v : Validation) : Type 0 where
    pub value_in : ℕ
    pub parent_depth : ℕ
    pub unconfirmed : List ℕ
    pub more : List ℕ
    pub input : TransactionInput
    pub previous_tx : Transaction
    pub before : Connects v.last_block_depth v.current_input value_in unconfirmed
    pub turn : get_elem? tx.inputs v.current_input ≡ some input
    pub fetches : Fetches v.current_input input.previous_output.hash previous_tx parent_depth more
    pub connects :
        connect_input o tx v.current_input previous_tx parent_depth v.last_block_depth value_in
        ≡ pass v.value_in
    pub recorded : v.unconfirmed ≡ unconfirmed ++ more

  -- The chain has answered with the depth of the transaction that the current input spends.
  pub record Indexed (depth : ℕ) (v : Validation) : Type 0 where
    pub input : TransactionInput
    pub now : Moment
    pub turn : get_elem? tx.inputs v.current_input ≡ some input
    pub seen : Seen now
    pub indexed : now.fetch_transaction_index input.previous_output.hash ≡ found depth

  abbrev pub Held : Awaited → Validation → Type 0
  Held Awaited.handle_duplicate_check v =
      (v.unconfirmed ≡ [])
      × (hash_transaction o tx ≡ ok v.tx_hash)
      × (basic_checks first_pool tx v.tx_hash ≡ none)
  Held Awaited.set_last_depth v = (v.unconfirmed ≡ []) × Fresh
  Held Awaited.previous_tx_index v =
      (v.current_input < length tx.inputs)
      × Connects v.last_block_depth v.current_input v.value_in v.unconfirmed
  Held (Awaited.handle_previous_tx depth) v =
      (v.current_input < length tx.inputs)
      × Connects v.last_block_depth v.current_input v.value_in v.unconfirmed
      × Indexed depth v
  Held Awaited.check_double_spend v = (v.current_input < length tx.inputs) × Pending v

  -- What holds between two handlers.
  abbrev pub Sound : Progress → Type 0
  Sound (waiting awaited validation) =
      (validation.tx ≡ tx) × (0 < length tx.inputs) × Held awaited validation
  Sound (finished ec unconfirmed) = Reports ec unconfirmed
  Sound broken = Breaks

  pub Sound-if :
      (test : Bool) (yes_case no_case : Progress)
      → (test ≡ true → Sound yes_case)
      → (test ≡ false → Sound no_case)
      → Sound (if test then yes_case else no_case)
  Sound-if true yes_case no_case when_true when_false = when_true refl
  Sound-if false yes_case no_case when_true when_false = when_false refl

-- ===== src/TransactionPool/Steps/Keeps.antt =====
-- Every step of the transaction pool keeps it valid.
use libbitcoin.Prelude.{
  arith, ◌⊎◌, All-append_of, ok-eq, ℕ, ◌≡◌, refl, sym, subst, ap, Bool, true, false, List, [], ◌∷◌,
  All, All-append, if◌then◌else◌, inl, inr, Option, none, some, ok, ◌>>=◌, >>=-eq-ok, assert,
}
use libbitcoin.Openssl.{Openssl}
use libbitcoin.Messages.{Transaction}
use libbitcoin.Transaction.{is_coinbase}
use libbitcoin.Transaction.Hash.{hash_transaction}
use libbitcoin.TransactionPool.{Entry, Pool, push_back, tx_exists}
use libbitcoin.TransactionPool.Delegate.{Delegate, Call, StoreHandler, do_store, handle_delegate}
use libbitcoin.TransactionPool.Steps.{
  State, Step, store, run_store, answer, deliver, reorganized, Reach, started, then_step,
}
use libbitcoin.TransactionPool.Steps.Invariant.{IsValid, push_back-IsValid}
use libbitcoin.TransactionPool.Steps.Takeout.{reorganize-IsValid}
use libbitcoin.Validate.{ErrorCode}
use libbitcoin.Validate.Check.{check_transaction}
use libbitcoin.Validate.Transaction.{Moment, Progress, waiting, finished, broken}
use libbitcoin.Validate.Transaction.Handlers.{resume}
use libbitcoin.Validate.Transaction.Cases.{Starts, not_hashed, rejected, begun, start-Starts}
use libbitcoin.Validate.Transaction.Guarantees.{basic_checks-none}

abbrev Checks : Transaction → Type 0
Checks tx = (check_transaction tx ≡ none) × (is_coinbase tx ≡ false)

-- A validation that runs, or has accepted, is of a transaction that has passed the basic checks.
abbrev Passed : Transaction → Progress → Type 0
Passed tx (waiting awaited validation) = Checks tx
Passed tx (finished none unconfirmed) = Checks tx
Passed tx (finished (some code) unconfirmed) = Unit {0}
Passed tx broken = Unit {0}

all-Passed : (tx : Transaction) (progress : Progress) → Checks tx → Passed tx progress
all-Passed tx (waiting awaited validation) h = h
all-Passed tx (finished none unconfirmed) h = h
all-Passed tx (finished (some code) unconfirmed) h = tt
all-Passed tx broken h = tt

resume-Passed :
    (o : Openssl) (now : Moment) (tx : Transaction) (progress : Progress)
    → Passed tx progress
    → Passed tx (resume o now progress)
unfolding resume
resume-Passed o now tx (waiting awaited validation) h = all-Passed tx _ h
resume-Passed o now tx (finished ec unconfirmed) h = h
resume-Passed o now tx broken h = h

Starts-Passed :
    (o : Openssl) (pool : Pool) (tx : Transaction) {progress : Progress}
    → Starts o pool tx progress
    → Passed tx progress
Starts-Passed o pool tx (not_hashed h) = tt
Starts-Passed o pool tx (rejected hash code _ h) = tt
Starts-Passed o pool tx (begun hash h k) =
    let (fine, spends, _) = basic_checks-none pool tx hash k in (fine, spends)

abbrev Holds : Openssl → Delegate → Type 0
Holds o delegate =
    (hash_transaction o delegate.tx_entry.tx ≡ ok delegate.tx_entry.hash)
    × Passed delegate.tx_entry.tx delegate.progress

do_store-Holds :
    (o : Openssl) (pool : Pool) (tx : Transaction) (handle_confirm : ℕ) (handler : StoreHandler)
    {delegate : Delegate}
    → do_store o pool tx handle_confirm handler ≡ ok delegate
    → Holds o delegate
unfolding do_store
do_store-Holds o pool tx handle_confirm handler e =
    let (hash, hashed, same) = >>=-eq-ok (hash_transaction o tx) _ e in
    subst (Holds o) (ok-eq same) (hashed, Starts-Passed o pool tx (start-Starts o pool tx))

-- The pool after handle_delegate: as it was, or with the entry pushed of a validation that accepted.
data Delegated (pool : Pool) (entry : Entry) : Option ErrorCode → Pool → Type 0 where
  kept : {ec : Option ErrorCode} → Delegated pool entry ec pool
  pushed : tx_exists pool entry.hash ≡ false → Delegated pool entry none (push_back pool entry)

asserted {ℓ} :
    {A : Type ℓ} (test : Bool) (value : A) {result : A}
    → (assert test >>= λ _. ok value) ≡ ok result
    → value ≡ result
asserted true value e = ok-eq e
asserted false value e = cc

chosen {ℓ} :
    {A : Type ℓ} (test : Bool) (yes_value no_value : A) {result : A}
    → (if test then ok yes_value else ok no_value) ≡ ok result
    → ((test ≡ true) × (yes_value ≡ result)) ⊎ ((test ≡ false) × (no_value ≡ result))
chosen true yes_value no_value e = inl (refl, ok-eq e)
chosen false yes_value no_value e = inr (refl, ok-eq e)

abbrev pool_of : Pool × List Call → Pool
pool_of result = result.0

handle_delegate-Delegated :
    (pool : Pool) (ec : Option ErrorCode) (unconfirmed : List ℕ) (entry : Entry)
    (handler : StoreHandler) {new_pool : Pool} {calls : List Call}
    → handle_delegate pool ec unconfirmed entry handler ≡ ok (new_pool, calls)
    → Delegated pool entry ec new_pool
unfolding handle_delegate
handle_delegate-Delegated pool (some ErrorCode.input_not_found) unconfirmed entry handler e =
    subst (Delegated pool entry _) (ap pool_of (asserted _ _ e)) kept
handle_delegate-Delegated pool none unconfirmed entry handler e =
    elim (chosen (tx_exists pool entry.hash) _ _ e) [
      | inl (_, same) ↦ subst (Delegated pool entry none) (ap pool_of same) kept
      | inr (new, same) ↦ subst (Delegated pool entry none) (ap pool_of same) (pushed new)
    ]
handle_delegate-Delegated pool (some code) unconfirmed entry handler e =
    subst (Delegated pool entry _) (ap pool_of (asserted _ _ e)) kept

-- What holds of a state between two handlers of the strand.
pub record IsSound (o : Openssl) (state : State) : Type 0 where
  pub valid : IsValid o state.pool
  pub holds : All (Holds o) state.delegates

Delegated-IsValid :
    (o : Openssl) (pool : Pool) (delegate : Delegate) {ec : Option ErrorCode} {unconfirmed : List ℕ}
    {new_pool : Pool}
    → IsValid o pool
    → Holds o delegate
    → delegate.progress ≡ finished ec unconfirmed
    → Delegated pool delegate.tx_entry ec new_pool
    → IsValid o new_pool
Delegated-IsValid o pool delegate valid holds e kept = valid
Delegated-IsValid o pool delegate valid (hashed, passed) e (pushed new) =
    let (fine, spends) = subst (Passed delegate.tx_entry.tx) e passed in
    push_back-IsValid o pool delegate.tx_entry valid
      (record { hashed = hashed; checked = fine; spends = spends }) new

Step-IsSound :
    {o : Openssl} {before after : State} {calls : List Call}
    → Step o before calls after
    → IsSound o before
    → IsSound o after
Step-IsSound {o = o} {before = before} (store call _ same) sound =
    subst (IsSound o) (sym same) (record { valid = sound.valid; holds = sound.holds })
Step-IsSound {o = o} {before = before} (run_store call others delegate _ stored _ same) sound =
    subst (IsSound o) (sym same) (record {
      valid = sound.valid;
      holds = All-append_of (Holds o) before.delegates (delegate ∷ []) sound.holds (
        do_store-Holds o before.pool call.stored_transaction call.confirm call.handler stored,
        tt,
      );
    })
Step-IsSound {o = o} {before = before} (answer now front delegate back _ at _ same) sound =
    let (front_holds, back_holds) =
      All-append (Holds o) front (delegate ∷ back) (subst (All (Holds o)) at sound.holds) in
    subst (IsSound o) (sym same) (record {
      valid = sound.valid;
      holds = All-append_of (Holds o) front _ front_holds (
        (back_holds.0.0, resume-Passed o now delegate.tx_entry.tx delegate.progress back_holds.0.1),
        back_holds.1,
      );
    })
Step-IsSound {o = o} {before = before}
      (deliver front delegate back new_pool ec unconfirmed at done e same) sound =
    let (front_holds, back_holds) =
      All-append (Holds o) front (delegate ∷ back) (subst (All (Holds o)) at sound.holds) in
    subst (IsSound o) (sym same) (record {
      valid = Delegated-IsValid o before.pool delegate sound.valid back_holds.0 done (
          handle_delegate-Delegated before.pool ec unconfirmed delegate.tx_entry delegate.handler
            e);
      holds = All-append_of (Holds o) front back front_holds back_holds.1;
    })
Step-IsSound {o = o} {before = before}
      (reorganized new_blocks replaced_blocks new_pool stores e same) sound =
    subst (IsSound o) (sym same) (record {
      valid = reorganize-IsValid o before.pool new_blocks replaced_blocks sound.valid e;
      holds = sound.holds;
    })

Reach-IsSound : {o : Openssl} {state : State} → Reach o state → IsSound o state
Reach-IsSound started = record {
  valid = record { within = omega arith; distinct = tt; entries = tt };
  holds = tt;
}
Reach-IsSound (then_step calls reach step) = Step-IsSound step (Reach-IsSound reach)

-- Whatever is stored, answered, delivered and reorganized, in any order, the pool never holds more
-- than 2000 entries or two with one hash, and every entry has the hash of its transaction, which
-- passes its check and is no coinbase.
pub Reach-IsValid : {o : Openssl} {state : State} → Reach o state → IsValid o state.pool
Reach-IsValid reach = (Reach-IsSound reach).valid

-- ===== src/TransactionPool/Steps/Asserts.antt =====
-- The assertions of handle_delegate in src/transaction_pool.cpp.
use libbitcoin.Prelude.{
  ℕ, ◌≡◌, ◌≢◌, refl, subst, Bool, true, false, List, [], ◌∷◌, All, length, lt→ltb, if◌then◌else◌,
  Option, some, ok,
}
use libbitcoin.Openssl.{Openssl}
use libbitcoin.TransactionPool.{Entry, Pool, tx_exists}
use libbitcoin.TransactionPool.Delegate.{Call, StoreHandler, handle_delegate, call_store}
use libbitcoin.Validate.{ErrorCode}
use libbitcoin.Validate.Transaction.{Moment, finished}
use libbitcoin.Validate.Transaction.Handlers.{start, run_through}
use libbitcoin.Validate.Transaction.Reports.{Reports, accepted, missing, refused, Sound}
use libbitcoin.Validate.Transaction.Guarantees.{Among, Answers, run_through-start}

delegated_choice :
    (test : Bool) (first second : Pool × List Call)
    → (result : Pool × List Call) × ((if test then ok first else ok second) ≡ ok result)
delegated_choice true first second = (first, refl)
delegated_choice false first second = (second, refl)

refused-ok :
    (pool : Pool) (code : ErrorCode) (entry : Entry) (handler : StoreHandler)
    → code ≢ ErrorCode.input_not_found
    → (result : Pool × List Call) × (handle_delegate pool (some code) [] entry handler ≡ ok result)
unfolding handle_delegate
refused-ok pool ErrorCode.input_not_found entry handler known = absurd (known refl)
refused-ok pool _ entry handler known = (_, refl)

Reports-ok :
    (o : Openssl) (pool : Pool) (entry : Entry) (handler : StoreHandler) {ec : Option ErrorCode}
    {unconfirmed : List ℕ} {first_pool : Pool} {Seen : Moment → Type 0}
    → Reports o first_pool entry.tx Seen ec unconfirmed
    → (result : Pool × List Call) × (handle_delegate pool ec unconfirmed entry handler ≡ ok result)
unfolding handle_delegate
Reports-ok o pool entry handler (accepted depth value ascends connects) =
    delegated_choice (tx_exists pool entry.hash) _ _
Reports-ok o pool entry handler (missing {index = index} inside turn misses) = (
  (pool, call_store handler (some ErrorCode.input_not_found) (index ∷ [])),
  rw (lt→ltb index (length entry.tx.inputs) inside) refl,
)
Reports-ok o pool entry handler (refused code known reason) =
    refused-ok pool code entry handler known

-- However a validation of an entry's transaction has run, the assertions of handle_delegate on the list of
-- unconfirmed inputs hold for what it reports, for every pool at that time. The chain's answer for
-- its last depth is taken not to be input_not_found.
pub handle_delegate-run_through :
    (o : Openssl) (first_pool pool : Pool) (entry : Entry) (handler : StoreHandler)
    (moments : List Moment) {ec : Option ErrorCode} {unconfirmed : List ℕ}
    → All Answers moments
    → run_through o moments (start o first_pool entry.tx) ≡ finished ec unconfirmed
    → (result : Pool × List Call) × (handle_delegate pool ec unconfirmed entry handler ≡ ok result)
handle_delegate-run_through o first_pool pool entry handler moments known e =
    Reports-ok o pool entry handler (
      subst (Sound o first_pool entry.tx (λ now. Among now moments)) e
        (run_through-start o first_pool entry.tx moments known))

-- ===== src/TransactionPool/Steps/Takeout.antt =====
-- What a reorganization leaves of the transaction pool.
use libbitcoin.Prelude.{
  arith, ℕ, ◌≡◌, ◌≢◌, sym, subst, ap, ◌∙◌, List, [], ◌∷◌, All, Bool-cases, inl, inr, ok, >>=-eq-ok,
  ok-eq, chunk_eq, chunk_eq_refl, chunk_eq→eq,
}
use libbitcoin.Openssl.{Openssl}
use libbitcoin.Messages.{Transaction, Block}
use libbitcoin.Transaction.Hash.{hash_transaction}
use libbitcoin.TransactionPool.{Entry, Pool}
use libbitcoin.TransactionPool.Delegate.{Call}
use libbitcoin.TransactionPool.Reorganize.{
  try_delete, takeout_transactions, takeout_confirmed, reorganize, Posted,
}
use libbitcoin.TransactionPool.Steps.Invariant.{
  Absent, Distinct, IsValid, try_delete-All, try_delete-IsValid,
}

abbrev pool_of : Pool × List Call → Pool
pool_of result = result.0

takeout_transactions-IsValid :
    (o : Openssl) (pool : Pool) (transactions : List Transaction) {new_pool : Pool}
    {calls : List Call}
    → IsValid o pool
    → takeout_transactions o pool transactions ≡ ok (new_pool, calls)
    → IsValid o new_pool
unfolding takeout_transactions
takeout_transactions-IsValid o pool [] valid e = subst (IsValid o) (ap pool_of (ok-eq e)) valid
takeout_transactions-IsValid o pool (tx ∷ transactions) valid e =
    let (hash, _, e1) = >>=-eq-ok (hash_transaction o tx) _ e in
    let (rest, taken, same) =
      >>=-eq-ok (takeout_transactions o (try_delete pool hash).0 transactions) _ e1 in
    subst (IsValid o) (ap pool_of (ok-eq same)) (
      takeout_transactions-IsValid o (try_delete pool hash).0 transactions
        (try_delete-IsValid o pool hash valid) taken)

takeout_confirmed-IsValid :
    (o : Openssl) (pool : Pool) (blocks : List Block) {new_pool : Pool} {calls : List Call}
    → IsValid o pool
    → takeout_confirmed o pool blocks ≡ ok (new_pool, calls)
    → IsValid o new_pool
unfolding takeout_confirmed
takeout_confirmed-IsValid o pool [] valid e = subst (IsValid o) (ap pool_of (ok-eq e)) valid
takeout_confirmed-IsValid o pool (block ∷ blocks) valid e =
    let (taken, takes, e1) = >>=-eq-ok (takeout_transactions o pool block.transactions) _ e in
    let (rest, takes_rest, same) = >>=-eq-ok (takeout_confirmed o taken.0 blocks) _ e1 in
    subst (IsValid o) (ap pool_of (ok-eq same)) (
      takeout_confirmed-IsValid o taken.0 blocks
        (takeout_transactions-IsValid o pool block.transactions valid takes) takes_rest)

pub reorganize-IsValid :
    (o : Openssl) (pool : Pool) (new_blocks replaced_blocks : List Block) {new_pool : Pool}
    {stores : List Posted} {calls : List Call}
    → IsValid o pool
    → reorganize o pool new_blocks replaced_blocks ≡ ok (new_pool, stores, calls)
    → IsValid o new_pool
unfolding reorganize
reorganize-IsValid o pool new_blocks [] valid e =
    let (taken, takes, same) = >>=-eq-ok (takeout_confirmed o pool new_blocks) _ e in
    subst (IsValid o) (ap (λ (r : Pool × List Posted × List Call). r.0) (ok-eq same))
      (takeout_confirmed-IsValid o pool new_blocks valid takes)
reorganize-IsValid o pool new_blocks (replaced ∷ replaced_blocks) valid e =
    subst (IsValid o) (ap (λ (r : Pool × List Posted × List Call). r.0) (ok-eq e))
      (record { within = omega arith; distinct = tt; entries = tt })

try_delete-Absent :
    (pool : Pool) (hash : List ℕ) → Distinct pool → Absent hash (try_delete pool hash).0
unfolding try_delete
try_delete-Absent [] hash h = tt
try_delete-Absent (entry ∷ pool) hash h = elim (Bool-cases (chunk_eq entry.hash hash)) [
  | inl same ↦ rw same (subst (λ other. Absent other pool) (chunk_eq→eq entry.hash hash same) h.0)
  | inr differs ↦ rw differs (
    λ equal. cc (sym (chunk_eq_refl hash) ∙ ap (λ h. chunk_eq h hash) (sym equal) ∙ differs),
    try_delete-Absent pool hash h.1,
  )
]

-- A predicate of entries that held of the pool holds of what is left.
takeout_transactions-All {κ} :
    (P : Entry → Type κ) (o : Openssl) (pool : Pool) (transactions : List Transaction)
    {new_pool : Pool} {calls : List Call}
    → All P pool
    → takeout_transactions o pool transactions ≡ ok (new_pool, calls)
    → All P new_pool
unfolding takeout_transactions
takeout_transactions-All P o pool [] h e = subst (All P) (ap pool_of (ok-eq e)) h
takeout_transactions-All P o pool (tx ∷ transactions) h e =
    let (hash, _, e1) = >>=-eq-ok (hash_transaction o tx) _ e in
    let (rest, taken, same) =
      >>=-eq-ok (takeout_transactions o (try_delete pool hash).0 transactions) _ e1 in
    subst (All P) (ap pool_of (ok-eq same)) (
      takeout_transactions-All P o (try_delete pool hash).0 transactions
        (try_delete-All P pool hash h) taken)

takeout_confirmed-All {κ} :
    (P : Entry → Type κ) (o : Openssl) (pool : Pool) (blocks : List Block) {new_pool : Pool}
    {calls : List Call}
    → All P pool
    → takeout_confirmed o pool blocks ≡ ok (new_pool, calls)
    → All P new_pool
unfolding takeout_confirmed
takeout_confirmed-All P o pool [] h e = subst (All P) (ap pool_of (ok-eq e)) h
takeout_confirmed-All P o pool (block ∷ blocks) h e =
    let (taken, takes, e1) = >>=-eq-ok (takeout_transactions o pool block.transactions) _ e in
    let (rest, takes_rest, same) = >>=-eq-ok (takeout_confirmed o taken.0 blocks) _ e1 in
    subst (All P) (ap pool_of (ok-eq same)) (
      takeout_confirmed-All P o taken.0 blocks
        (takeout_transactions-All P o pool block.transactions h takes) takes_rest)

-- Every transaction of a list has a hash that no entry of the pool has.
abbrev pub NonePooled : Openssl → Pool → List Transaction → Type 0
NonePooled o pool = All (λ tx. (hash : List ℕ) → hash_transaction o tx ≡ ok hash → Absent hash pool)

map-All {ℓ κ} :
    {A : Type ℓ} (P Q : A → Type κ) (xs : List A) → ((x : A) → P x → Q x) → All P xs → All Q xs
map-All P Q [] f h = tt
map-All P Q (x ∷ xs) f h = (f x h.0, map-All P Q xs f h.1)

takeout_transactions-NonePooled :
    (o : Openssl) (pool : Pool) (transactions : List Transaction) {new_pool : Pool}
    {calls : List Call}
    → IsValid o pool
    → takeout_transactions o pool transactions ≡ ok (new_pool, calls)
    → NonePooled o new_pool transactions
unfolding takeout_transactions
takeout_transactions-NonePooled o pool [] valid e = tt
takeout_transactions-NonePooled o pool (tx ∷ transactions) valid e =
    let (hash, hashed, e1) = >>=-eq-ok (hash_transaction o tx) _ e in
    let (rest, taken, same) =
      >>=-eq-ok (takeout_transactions o (try_delete pool hash).0 transactions) _ e1 in
    subst (λ p. NonePooled o p (tx ∷ transactions)) (ap pool_of (ok-eq same))
      (
        λ other other_hashed.
            subst (λ h. Absent h rest.0) (ok-eq (sym hashed ∙ other_hashed))
              (takeout_transactions-All (λ entry. entry.hash ≢ hash) o (try_delete pool hash).0
                transactions (try_delete-Absent pool hash valid.distinct) taken),
        takeout_transactions-NonePooled o (try_delete pool hash).0 transactions
            (try_delete-IsValid o pool hash valid) taken,
      )

-- After a valid pool has taken out the transactions of new blocks, none of them is in it.
pub takeout_confirmed-NonePooled :
    (o : Openssl) (pool : Pool) (blocks : List Block) {new_pool : Pool} {calls : List Call}
    → IsValid o pool
    → takeout_confirmed o pool blocks ≡ ok (new_pool, calls)
    → All (λ block. NonePooled o new_pool block.transactions) blocks
unfolding takeout_confirmed
takeout_confirmed-NonePooled o pool [] valid e = tt
takeout_confirmed-NonePooled o pool (block ∷ blocks) valid e =
    let (taken, takes, e1) = >>=-eq-ok (takeout_transactions o pool block.transactions) _ e in
    let (rest, takes_rest, same) = >>=-eq-ok (takeout_confirmed o taken.0 blocks) _ e1 in
    subst (λ p. All (λ b. NonePooled o p b.transactions) (block ∷ blocks)) (ap pool_of (ok-eq same))
      (
        map-All _ _ block.transactions
            (λ tx absent hash hashed.
              takeout_confirmed-All (λ entry. entry.hash ≢ hash) o taken.0 blocks
                (absent hash hashed) takes_rest)
            (takeout_transactions-NonePooled o pool block.transactions valid takes),
        takeout_confirmed-NonePooled o taken.0 blocks
            (takeout_transactions-IsValid o pool block.transactions valid takes) takes_rest,
      )

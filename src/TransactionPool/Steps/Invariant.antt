-- ===== src/TransactionPool/Steps/Invariant.antt =====
-- What holds of the pool in every state that is reached.
use libbitcoin.Prelude.{
  arith, ℕ, ◌≤◌, ◌<◌, ◌≡◌, ◌≢◌, sym, ap, ◌∙◌, true, false, List, [], ◌∷◌, ◌++◌, length,
  length-append, leb, All, All-append_of, chunk_eq, chunk_eq_refl, Bool-cases, inl, inr, ok,
}
use libbitcoin.Openssl.{Openssl}
use libbitcoin.Transaction.{is_coinbase}
use libbitcoin.Transaction.Hash.{hash_transaction}
use libbitcoin.TransactionPool.{Entry, Pool, pool_capacity, push_back, tx_exists}
use libbitcoin.TransactionPool.Reorganize.{try_delete}
use libbitcoin.Validate.Check.{check_transaction}
use libbitcoin.Prelude.{none}

-- An entry's hash is that of its transaction, which passes its check and is no coinbase.
pub record IsChecked (o : Openssl) (entry : Entry) : Type 0 where
  pub hashed : hash_transaction o entry.tx ≡ ok entry.hash
  pub checked : check_transaction entry.tx ≡ none
  pub spends : is_coinbase entry.tx ≡ false

abbrev pub Absent : List ℕ → Pool → Type 0
Absent hash pool = All (λ entry. entry.hash ≢ hash) pool

-- No two entries have the same hash.
abbrev pub Distinct : Pool → Type 0
Distinct [] = Unit {0}
Distinct (entry ∷ pool) = Absent entry.hash pool × Distinct pool

pub record IsValid (o : Openssl) (pool : Pool) : Type 0 where
  pub within : length pool ≤ pool_capacity
  pub distinct : Distinct pool
  pub entries : All (IsChecked o) pool

pub true-ne-false : true ≢ false
true-ne-false h = cc

pub tx_exists-Absent :
    (pool : Pool) (hash : List ℕ) → tx_exists pool hash ≡ false → Absent hash pool
unfolding tx_exists
tx_exists-Absent [] hash e = tt
tx_exists-Absent (entry ∷ pool) hash e = elim (Bool-cases (chunk_eq entry.hash hash)) [
  | inl same ↦ absurd (true-ne-false (rw same at e))
  | inr differs ↦ (
    λ equal.
        true-ne-false (sym (chunk_eq_refl hash) ∙ ap (λ h. chunk_eq h hash) (sym equal) ∙ differs),
    tx_exists-Absent pool hash (rw differs at e),
  )
]

Distinct-append :
    (pool : Pool) (entry : Entry)
    → Distinct pool
    → Absent entry.hash pool
    → Distinct (pool ++ entry ∷ [])
Distinct-append [] entry h fresh = (tt, tt)
Distinct-append (first ∷ pool) entry h fresh = (
  All-append_of (λ other. other.hash ≢ first.hash) pool (entry ∷ []) h.0
      ((λ e. fresh.0 (sym e)), tt),
  Distinct-append pool entry h.1 fresh.1,
)

append-IsValid :
    (o : Openssl) (pool : Pool) (entry : Entry)
    → length pool < pool_capacity
    → Distinct pool
    → All (IsChecked o) pool
    → IsChecked o entry
    → Absent entry.hash pool
    → IsValid o (pool ++ entry ∷ [])
append-IsValid o pool entry small distinct entries checks fresh = record {
  within = omega (arith, length-append pool (entry ∷ []));
  distinct = Distinct-append pool entry distinct fresh;
  entries = All-append_of (IsChecked o) pool (entry ∷ []) entries (checks, tt);
}

-- A valid pool stays valid when a checked entry is pushed whose hash it does not have.
pub push_back-IsValid :
    (o : Openssl) (pool : Pool) (entry : Entry)
    → IsValid o pool
    → IsChecked o entry
    → tx_exists pool entry.hash ≡ false
    → IsValid o (push_back pool entry)
unfolding push_back
push_back-IsValid o [] entry valid checks new =
    append-IsValid o [] entry (omega arith) tt tt checks tt
push_back-IsValid o (first ∷ pool) entry valid checks new =
    let fresh = tx_exists-Absent (first ∷ pool) entry.hash new in
    elim (Bool-cases (leb pool_capacity (length (first ∷ pool)))) [
      | inl full ↦ rw full (
          append-IsValid o pool entry (omega (arith, valid.within)) valid.distinct.1 valid.entries.1
            checks fresh.1)
      | inr room ↦ rw room (
          append-IsValid o (first ∷ pool) entry (ground (arith, room)) valid.distinct valid.entries
            checks fresh)
    ]

-- What try_delete leaves: a part of the pool, without the hash.
pub try_delete-All {κ} :
    (P : Entry → Type κ) (pool : Pool) (hash : List ℕ) → All P pool → All P (try_delete pool hash).0
unfolding try_delete
try_delete-All P [] hash h = h
try_delete-All P (entry ∷ pool) hash h = elim (Bool-cases (chunk_eq entry.hash hash)) [
  | inl same ↦ rw same h.1
  | inr differs ↦ rw differs (h.0, try_delete-All P pool hash h.1)
]

try_delete-length : (pool : Pool) (hash : List ℕ) → length (try_delete pool hash).0 ≤ length pool
unfolding try_delete
try_delete-length [] hash = omega arith
try_delete-length (entry ∷ pool) hash = ground (arith, try_delete-length pool hash)

try_delete-Distinct :
    (pool : Pool) (hash : List ℕ) → Distinct pool → Distinct (try_delete pool hash).0
unfolding try_delete
try_delete-Distinct [] hash h = tt
try_delete-Distinct (entry ∷ pool) hash h = elim (Bool-cases (chunk_eq entry.hash hash)) [
  | inl same ↦ rw same h.1
  | inr differs ↦ rw differs (
    try_delete-All (λ other. other.hash ≢ entry.hash) pool hash h.0,
    try_delete-Distinct pool hash h.1,
  )
]

pub try_delete-IsValid :
    (o : Openssl) (pool : Pool) (hash : List ℕ)
    → IsValid o pool
    → IsValid o (try_delete pool hash).0
try_delete-IsValid o pool hash valid = record {
  within = omega (arith, try_delete-length pool hash, valid.within);
  distinct = try_delete-Distinct pool hash valid.distinct;
  entries = try_delete-All (IsChecked o) pool hash valid.entries;
}

-- ===== src/Validate/Block/Distinct.antt =====
-- The transactions of a block that check_block accepts have different hashes.
use libbitcoin.Prelude.{
  arith, ℕ, ◌+◌, ◌≤◌, ◌≡◌, ◌≢◌, refl, sym, subst, ap, true, false, List, [], ◌∷◌, ◌++◌, length, All,
  chunk_eq, chunk_eq_refl, Bool-cases, inl, inr, ok, none,
}
use libbitcoin.Openssl.{Openssl}
use libbitcoin.Messages.{Transaction}
use libbitcoin.Transaction.Hash.{hash_transaction}
use libbitcoin.Transaction.Merkle.{transaction_hashes}
use libbitcoin.Validate.Verdict.{
  Verdict, valid, checked, trusted, bind_elim, trusted-eq-valid, checked-eq-valid,
}
use libbitcoin.Validate.Check.{check_transaction}
use libbitcoin.Validate.Block.Check.{contains, insert_unique, check_transactions}

abbrev pub Fresh : List (List ℕ) → List ℕ → Type 0
Fresh hashes hash = All (λ other. other ≢ hash) hashes

abbrev pub Distinct : List (List ℕ) → Type 0
Distinct [] = Unit {0}
Distinct (hash ∷ hashes) = Fresh hashes hash × Distinct hashes

Fresh-contains :
    (hashes : List (List ℕ)) (hash : List ℕ) → contains hashes hash ≡ false → Fresh hashes hash
unfolding contains
Fresh-contains [] hash e = tt
Fresh-contains (other ∷ hashes) hash e = elim (Bool-cases (chunk_eq other hash)) [
  | inl same ↦ cc (rw same at e)
  | inr differs ↦ (
    λ equal. cc (subst (λ h. chunk_eq h hash ≡ true) (sym equal) (chunk_eq_refl hash)),
    Fresh-contains hashes hash (rw differs at e),
  )
]

-- What is fresh for a list with a hash in front is fresh for the list, and differs from the hash.
split-Fresh :
    (hash : List ℕ) (unique_txs hashes : List (List ℕ))
    → All (Fresh (hash ∷ unique_txs)) hashes
    → Fresh hashes hash × All (Fresh unique_txs) hashes
split-Fresh hash unique_txs [] h = (tt, tt)
split-Fresh hash unique_txs (next ∷ hashes) h =
    let (differs, rest) = split-Fresh hash unique_txs hashes h.1 in
    ((λ e. h.0.0 (sym e), differs), (h.0.1, rest))

valid-eq : {a b : List (List ℕ)} → ◌≡◌ {A = Verdict (List (List ℕ))} (valid a) (valid b) → a ≡ b
valid-eq e = cc

insert_unique-length :
    (hash : List ℕ) (unique_txs : List (List ℕ))
    → length (insert_unique hash unique_txs) ≤ length unique_txs + 1
unfolding insert_unique
insert_unique-length hash unique_txs = ground arith

insert_unique-grows :
    (hash : List ℕ) (unique_txs : List (List ℕ))
    → length (insert_unique hash unique_txs) ≡ length unique_txs + 1
    → (insert_unique hash unique_txs ≡ hash ∷ unique_txs) × Fresh unique_txs hash
unfolding insert_unique
insert_unique-grows hash unique_txs e = elim (Bool-cases (contains unique_txs hash)) [
  | inl old ↦ absurd (omega (arith, rw old at e))
  | inr new ↦ (rw new, Fresh-contains unique_txs hash new)
]

pub Distinct-append : (front rest : List (List ℕ)) → Distinct (front ++ rest) → Distinct rest
Distinct-append [] rest h = h
Distinct-append (hash ∷ front) rest h = Distinct-append front rest h.1

module _ (o : Openssl) where
  hashed-cons :
      (tx : Transaction) (transactions : List Transaction) {hash : List ℕ} {hashes : List (List ℕ)}
      → hash_transaction o tx ≡ ok hash
      → transaction_hashes o transactions ≡ ok hashes
      → transaction_hashes o (tx ∷ transactions) ≡ ok (hash ∷ hashes)
  unfolding transaction_hashes
  hashed-cons tx transactions p q = rw (p, q)

  pub check_transactions-Distinct :
      (transactions : List Transaction) (unique_txs : List (List ℕ)) {result : List (List ℕ)}
      → check_transactions o transactions unique_txs ≡ valid result
      → (hashes : List (List ℕ)) × (transaction_hashes o transactions ≡ ok hashes)
        × All (λ tx. check_transaction tx ≡ none) transactions
        × (length hashes ≡ length transactions)
        × (length result ≤ length unique_txs + length transactions)
        × (length result ≡ length unique_txs + length transactions
            → All (Fresh unique_txs) hashes × Distinct hashes)
  unfolding check_transactions transaction_hashes
  check_transactions-Distinct [] unique_txs e =
      ([], refl, tt, refl, omega (arith, ap length (valid-eq e)), λ _. (tt, tt))
  check_transactions-Distinct (tx ∷ transactions) unique_txs {result = result} e =
      bind_elim (checked (check_transaction tx)) _ e λ _ fine e1.
        bind_elim (trusted (hash_transaction o tx)) _ e1 λ hash hashed e2.
          let (hashes, all_hashed, all_fine, same, bound, distinct) =
            check_transactions-Distinct transactions (insert_unique hash unique_txs) e2 in
          let grown = insert_unique-length hash unique_txs in
          (
            hash ∷ hashes,
            hashed-cons tx transactions (trusted-eq-valid _ hashed) all_hashed,
            (checked-eq-valid _ fine, all_fine),
            omega (arith, same),
            omega (arith, bound, grown),
            λ full.
                let (new, fresh) =
                  insert_unique-grows hash unique_txs (omega (arith, bound, grown, full)) in
                let (rest_fresh, rest_distinct) = distinct (omega (arith, ap length new, full)) in
                let (differs, all_fresh) =
                  split-Fresh hash unique_txs hashes
                    (subst (λ u. All (Fresh u) hashes) new rest_fresh) in
                ((fresh, all_fresh), (differs, rest_distinct)),
          )

-- ===== src/Validate/Block/Repeats.antt =====
-- A block with a transaction repeated, and its Merkle root.
use libbitcoin.Prelude.{
  ℕ, ◌≡◌, ◌≢◌, refl, ap, subst, ◌∙◌, List, [], ◌∷◌, ◌++◌, All-append, Result, ok, err, ◌>>=◌,
}
use libbitcoin.Openssl.{Openssl}
use libbitcoin.Messages.{Transaction, Block}
use libbitcoin.Transaction.Hash.{hash_transaction}
use libbitcoin.Transaction.Merkle.{transaction_hashes}
use libbitcoin.Validate.Verdict.{valid}
use libbitcoin.Validate.Block.Check.{check_block}
use libbitcoin.Validate.Block.Distinct.{Fresh, Distinct, Distinct-append}
use libbitcoin.Validate.Block.Guarantees.{check_block-IsChecked}

module _ (o : Openssl) where
  cons_hashes :
      (tx : Transaction) (transactions : List Transaction) {hashes : List (List ℕ)}
      → transaction_hashes o (tx ∷ transactions) ≡ ok hashes
      → (hash : List ℕ) × (others : List (List ℕ)) × (hash_transaction o tx ≡ ok hash)
        × (transaction_hashes o transactions ≡ ok others)
        × (hashes ≡ hash ∷ others)
  unfolding transaction_hashes
  cons_hashes tx transactions {hashes = hashes} e =
      parts (hash_transaction o tx) (transaction_hashes o transactions) refl refl e
    where
      parts :
          (first : Result (List ℕ)) (rest : Result (List (List ℕ)))
          → hash_transaction o tx ≡ first
          → transaction_hashes o transactions ≡ rest
          → (first >>= λ hash. rest >>= λ others. ok (hash ∷ others)) ≡ ok hashes
          → (hash : List ℕ) × (others : List (List ℕ)) × (hash_transaction o tx ≡ ok hash)
            × (transaction_hashes o transactions ≡ ok others)
            × (hashes ≡ hash ∷ others)
      parts (err code) rest p q e = cc
      parts (ok hash) (err code) p q e = cc
      parts (ok hash) (ok others) p q e = (hash, others, p, q, cc)

  append_hashes :
      (front rest : List Transaction) {hashes : List (List ℕ)}
      → transaction_hashes o (front ++ rest) ≡ ok hashes
      → (before : List (List ℕ)) × (after : List (List ℕ)) × (transaction_hashes o rest ≡ ok after)
        × (hashes ≡ before ++ after)
  append_hashes [] rest {hashes = hashes} e = ([], hashes, e, refl)
  append_hashes (tx ∷ front) rest e =
      let (hash, others, _, all_hashed, same) = cons_hashes tx (front ++ rest) e in
      let (before, after, rest_hashed, split) = append_hashes front rest all_hashed in
      (hash ∷ before, after, rest_hashed, same ∙ ap (λ hs. hash ∷ hs) split)

  same_hash :
      {a b : List ℕ} (tx : Transaction)
      → hash_transaction o tx ≡ ok a
      → hash_transaction o tx ≡ ok b
      → a ≡ b
  same_hash tx p q = cc

  -- Repeated transactions have no list of different hashes.
  not-Distinct :
      (tx : Transaction) (front middle rest : List Transaction) {hashes : List (List ℕ)}
      → transaction_hashes o (front ++ (tx ∷ (middle ++ (tx ∷ rest)))) ≡ ok hashes
      → ¬ Distinct hashes
  not-Distinct tx front middle rest e distinct =
      let (before, after, hashed, split) = append_hashes front (tx ∷ (middle ++ (tx ∷ rest))) e in
      let (hash, others, first, others_hashed, cons) =
        cons_hashes tx (middle ++ (tx ∷ rest)) hashed in
      let (between, last, last_hashed, split_others) =
        append_hashes middle (tx ∷ rest) others_hashed in
      let (again, _, second, _, cons_last) = cons_hashes tx rest last_hashed in
      let (fresh, _) =
        subst Distinct cons (Distinct-append before after (subst Distinct split distinct)) in
      let (_, fresh_last) =
        All-append (λ other. other ≢ hash) between last
          (subst (λ hs. Fresh hs hash) split_others fresh) in
      (subst (λ hs. Fresh hs hash) cons_last fresh_last).0 (same_hash tx second first)

-- check_block refuses every block in which a transaction stands twice, also where the Merkle root
-- does not tell it from the block with the transaction once.
pub check_block-repeated :
    (o : Openssl) (universal_time : ℕ) (block : Block) (tx : Transaction)
    (front middle rest : List Transaction)
    → block.transactions ≡ front ++ (tx ∷ (middle ++ (tx ∷ rest)))
    → check_block o universal_time block ≢ valid tt
check_block-repeated o universal_time block tx front middle rest same e =
    let is_checked = check_block-IsChecked o universal_time block e in
    not-Distinct o tx front middle rest
      (subst (λ txs. transaction_hashes o txs ≡ ok is_checked.hashes) same is_checked.hashed)
      is_checked.distinct

-- ===== src/Transaction/Merkle.antt =====
-- build_merkle_tree and generate_merkle_root of src/transaction.cpp.
pub mod Laws
use libbitcoin.Prelude.{
  ℕ, zero, suc, List, [], ◌∷◌, ◌++◌, length, Result, ok, err, out_of_fuel, ◌>>=◌,
}
use libbitcoin.Openssl.{Openssl}
use libbitcoin.Digest.{generate_sha256_hash}
use libbitcoin.Constants.{null_hash}
use libbitcoin.Serializer.{write_hash}
use libbitcoin.Messages.{Transaction}
use libbitcoin.Transaction.Hash.{hash_transaction}

module _ (o : Openssl) where
  unfoldable pub merkle_parent : List ℕ → List ℕ → List ℕ
  merkle_parent left right = generate_sha256_hash o (write_hash right (write_hash left []))

  -- A round of the loop: an odd list's back is hashed with its copy.
  unfoldable pub merkle_level : List (List ℕ) → List (List ℕ)
  merkle_level [] = []
  merkle_level (hash ∷ []) = merkle_parent hash hash ∷ []
  merkle_level (left ∷ right ∷ merkle) = merkle_parent left right ∷ merkle_level merkle

  -- `while (merkle.size() > 1)`.
  unfoldable pub merkle_loop : ℕ → List (List ℕ) → Result (List ℕ)
  unfolding merkle_level
  merkle_loop fuel [] = ok null_hash
  merkle_loop fuel (root ∷ []) = ok root
  merkle_loop zero (left ∷ right ∷ merkle) = err out_of_fuel
  merkle_loop (suc fuel) (left ∷ right ∷ merkle) =
      merkle_loop fuel (merkle_level (left ∷ right ∷ merkle))

  -- A list halves in a round, so its length is fuel enough.
  unfoldable pub build_merkle_tree : List (List ℕ) → Result (List ℕ)
  unfolding merkle_loop
  build_merkle_tree merkle = merkle_loop (length merkle) merkle

  unfoldable pub transaction_hashes : List Transaction → Result (List (List ℕ))
  transaction_hashes [] = ok []
  transaction_hashes (tx ∷ transactions) = do
    hash ← hash_transaction o tx
    hashes ← transaction_hashes transactions
    ok (hash ∷ hashes)

  unfoldable pub generate_merkle_root : List Transaction → Result (List ℕ)
  unfolding build_merkle_tree transaction_hashes
  generate_merkle_root transactions = do
    tx_hashes ← transaction_hashes transactions
    build_merkle_tree tx_hashes

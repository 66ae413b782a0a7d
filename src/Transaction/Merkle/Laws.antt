-- ===== src/Transaction/Merkle/Laws.antt =====
-- The loop of build_merkle_tree ends, and what its root does not tell apart.
use libbitcoin.Prelude.{
  arith, ℕ, zero, suc, ◌+◌, ◌≤◌, ◌%◌, ◌*◌, List, [], ◌∷◌, ◌++◌, length, ◌≡◌, refl, ap, ok,
  length-append,
}
use libbitcoin.Openssl.{Openssl}
use libbitcoin.Constants.{null_hash}
use libbitcoin.Transaction.Merkle.{merkle_parent, merkle_level, merkle_loop, build_merkle_tree}

module _ (o : Openssl) where
  length-merkle_level :
      (merkle : List (List ℕ)) → length (merkle_level o merkle) * 2 ≤ length merkle + 1
  unfolding merkle_level
  length-merkle_level [] = omega arith
  length-merkle_level (hash ∷ []) = omega arith
  length-merkle_level (left ∷ right ∷ merkle) = omega (arith, length-merkle_level merkle)

  merkle_loop-ends :
      (fuel : ℕ) (merkle : List (List ℕ))
      → length merkle ≤ fuel + 1
      → (root : List ℕ) × (merkle_loop o fuel merkle ≡ ok root)
  unfolding merkle_loop merkle_level
  merkle_loop-ends fuel [] h = (null_hash, refl)
  merkle_loop-ends fuel (root ∷ []) h = (root, refl)
  merkle_loop-ends zero (left ∷ right ∷ merkle) h = ground arith
  merkle_loop-ends (suc fuel) (left ∷ right ∷ merkle) h =
      merkle_loop-ends fuel (merkle_level o (left ∷ right ∷ merkle))
        (omega (arith, length-merkle_level merkle))

  -- The loop of build_merkle_tree ends with a root for every list of hashes: its rounds are never more
  -- than the list's length.
  pub build_merkle_tree-ends :
      (merkle : List (List ℕ)) → (root : List ℕ) × (build_merkle_tree o merkle ≡ ok root)
  unfolding build_merkle_tree
  build_merkle_tree-ends merkle = merkle_loop-ends (length merkle) merkle (omega arith)

  -- More rounds than the loop needs change nothing.
  merkle_loop-fuel :
      (fuel more : ℕ) (merkle : List (List ℕ))
      → length merkle ≤ fuel + 1
      → fuel ≤ more
      → merkle_loop o more merkle ≡ merkle_loop o fuel merkle
  unfolding merkle_loop merkle_level
  merkle_loop-fuel fuel more [] h k = refl
  merkle_loop-fuel fuel more (root ∷ []) h k = refl
  merkle_loop-fuel zero more (left ∷ right ∷ merkle) h k = ground arith
  merkle_loop-fuel (suc fuel) zero (left ∷ right ∷ merkle) h k = ground arith
  merkle_loop-fuel (suc fuel) (suc more) (left ∷ right ∷ merkle) h k =
      merkle_loop-fuel fuel more (merkle_level o (left ∷ right ∷ merkle))
        (omega (arith, length-merkle_level merkle)) (omega arith)

  merkle_level-repeated :
      (merkle : List (List ℕ)) (hash : List ℕ)
      → length merkle % 2 ≡ 0
      → merkle_level o (merkle ++ hash ∷ hash ∷ []) ≡ merkle_level o (merkle ++ hash ∷ [])
  unfolding merkle_level
  merkle_level-repeated [] hash h = refl
  merkle_level-repeated (only ∷ []) hash h = ground arith
  merkle_level-repeated (left ∷ right ∷ merkle) hash h =
      ap (λ rest. merkle_parent o left right ∷ rest)
        (merkle_level-repeated merkle hash (omega arith))

  -- The root does not tell a list of an odd number of hashes, three or more, from the list with its last
  -- hash written twice.
  pub build_merkle_tree-repeated :
      (left right : List ℕ) (merkle : List (List ℕ)) (hash : List ℕ)
      → length merkle % 2 ≡ 0
      → build_merkle_tree o (left ∷ right ∷ merkle ++ hash ∷ hash ∷ [])
        ≡ build_merkle_tree o (left ∷ right ∷ merkle ++ hash ∷ [])
  unfolding build_merkle_tree merkle_loop merkle_level
  build_merkle_tree-repeated left right merkle hash even =
      let rounds : length (merkle_level o (merkle ++ hash ∷ [])) * 2 ≤ length merkle + 2 =
        omega
          (arith, length-merkle_level (merkle ++ hash ∷ []), length-append merkle (hash ∷ [])) in
      rw (merkle_level-repeated merkle hash even) (
        merkle_loop-fuel (suc (length (merkle ++ hash ∷ [])))
          (suc (length (merkle ++ hash ∷ hash ∷ [])))
          (merkle_parent o left right ∷ merkle_level o (merkle ++ hash ∷ []))
          (omega (arith, rounds, length-append merkle (hash ∷ [])))
          (omega
            (arith, length-append merkle (hash ∷ []), length-append merkle (hash ∷ hash ∷ []))))

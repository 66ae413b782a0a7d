-- ===== src/Examples/Chain.antt =====
-- Merkle trees, block locators and subsidies at concrete inputs.
use libbitcoin.Prelude.{
  arith, ℕ, ◌-◌, ◌<◌, ◌≤◌, ◌≡◌, ◌⊎◌, refl, get_elem?, List, [], ◌∷◌, ◌++◌, length, replicate, ok,
  some,
}
use libbitcoin.Block.{block_locator_indexes}
use libbitcoin.Block.Locator.{Spans, Descends, block_locator_indexes-Descends}
use libbitcoin.Block.Subsidy.{Issued, block_value-max_money}
use libbitcoin.Constants.{max_money}
use libbitcoin.Transaction.Merkle.{build_merkle_tree}
use libbitcoin.Transaction.Merkle.Laws.{build_merkle_tree-ends, build_merkle_tree-repeated}
use libbitcoin.Examples.Toy.{toy}

abbrev hash_of : ℕ → List ℕ
hash_of n = replicate 32 n

build_merkle_tree-ends_example :
    (root : List ℕ) × (build_merkle_tree toy (hash_of 1 ∷ hash_of 2 ∷ hash_of 3 ∷ []) ≡ ok root)
build_merkle_tree-ends_example = build_merkle_tree-ends toy (hash_of 1 ∷ hash_of 2 ∷ hash_of 3 ∷ [])

build_merkle_tree-repeated_example :
    build_merkle_tree toy (hash_of 1 ∷ hash_of 2 ∷ [] ++ hash_of 3 ∷ hash_of 3 ∷ [])
    ≡ build_merkle_tree toy (hash_of 1 ∷ hash_of 2 ∷ [] ++ hash_of 3 ∷ [])
build_merkle_tree-repeated_example =
    build_merkle_tree-repeated toy (hash_of 1) (hash_of 2) [] (hash_of 3) refl

block_locator_indexes-Descends_example :
    Spans 200 (block_locator_indexes 200)
    × Descends 201 (block_locator_indexes 200)
    × (get_elem? (block_locator_indexes 200) 5 ≡ some (200 - 5))
    × (length (block_locator_indexes 200) ≤ 20)
block_locator_indexes-Descends_example =
    block_locator_indexes-Descends 200 8 5 (omega arith) (omega arith) (omega arith)

block_value-max_money_example :
    (total : ℕ) × Issued 210001 total
    × (total ≤ max_money)
    × ((210001 < 13440000) ⊎ (total ≡ max_money))
block_value-max_money_example = block_value-max_money 210001 (omega arith)

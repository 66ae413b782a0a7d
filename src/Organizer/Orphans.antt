-- ===== src/Organizer/Orphans.antt =====
-- The class orphans_pool of src/blockchain/organizer.cpp.
pub mod Trace
use libbitcoin.Prelude.{
  ℕ, zero, suc, Bool, true, false, not, List, [], ◌∷◌, ◌++◌, reverse, length, leb, ◌==◌,
  if◌then◌else◌, chunk_eq, Option, none, some, Result, ok, err, assertion_failed, out_of_fuel,
  ◌>>=◌,
}
use mathlib.Core.Option
use libbitcoin.Block.{block_eq}
use libbitcoin.Organizer.{Heap}

-- The circular buffer of pointers, its front first, and its capacity.
pub record OrphansPool : Type 0 where
  pub capacity : ℕ
  pub blocks : List ℕ

drop_front : List ℕ → List ℕ
drop_front [] = []
drop_front (p ∷ pointers) = pointers

-- A full buffer loses its front, and one without a capacity stays empty.
unfoldable pub push_back : OrphansPool → ℕ → OrphansPool
unfolding drop_front
push_back pool pointer =
    if pool.capacity == 0
    then pool
    else if leb pool.capacity (length pool.blocks)
    then record pool { blocks = drop_front pool.blocks ++ pointer ∷ [] }
    else record pool { blocks = pool.blocks ++ pointer ∷ [] }

unfoldable pub has_block : Heap → List ℕ → ℕ → Bool
has_block heap [] incoming_block = false
has_block heap (current_block ∷ blocks) incoming_block =
    if block_eq (heap.detail current_block).actual (heap.detail incoming_block).actual
    then true
    else has_block heap blocks incoming_block

-- The pool, and whether the block was added.
unfoldable pub add : Heap → OrphansPool → ℕ → OrphansPool × Bool
unfolding push_back has_block
add heap pool incoming_block =
    if has_block heap pool.blocks incoming_block
    then (pool, false)
    else (push_back pool incoming_block, true)

unfoldable pub find_hash : Heap → List ℕ → List ℕ → Option ℕ
find_hash heap [] previous_hash = none
find_hash heap (current_block ∷ blocks) previous_hash =
    if chunk_eq (heap.detail current_block).block_hash previous_hash
    then some current_block
    else find_hash heap blocks previous_hash

abbrev pub previous_hash : Heap → ℕ → List ℕ
previous_hash heap pointer = (heap.detail pointer).actual.previous_block_hash

-- The loop with its `goto`. `back` is the back of the vector and `rest` what was pushed before it, the
-- last first.
unfoldable pub trace_loop : ℕ → Heap → List ℕ → ℕ → List ℕ → Result (List ℕ)
trace_loop zero heap blocks back rest = err out_of_fuel
trace_loop (suc fuel) heap blocks back rest =
    elim (find_hash heap blocks (previous_hash heap back)) [
      | none ↦ ok (back ∷ rest)
      | some current_block ↦ trace_loop fuel heap blocks current_block (back ∷ rest)
    ]

-- The vector is filled from the end block back and then reversed, so the list that the loop leaves, the
-- last block found first, is the vector that is returned.
unfoldable pub trace : ℕ → Heap → OrphansPool → ℕ → Result (List ℕ)
unfolding trace_loop
trace fuel heap pool end_block = trace_loop fuel heap pool.blocks end_block []

select_unprocessed : Heap → List ℕ → List ℕ
select_unprocessed heap [] = []
select_unprocessed heap (current_block ∷ blocks) =
    if (heap.detail current_block).processed
    then select_unprocessed heap blocks
    else current_block ∷ select_unprocessed heap blocks

unfoldable pub unprocessed : Heap → OrphansPool → List ℕ
unfolding select_unprocessed
unprocessed heap pool = reverse (select_unprocessed heap pool.blocks)

-- The first occurrence of a pointer is erased; `none` is `end()`.
unfoldable pub erase_found : List ℕ → ℕ → Option (List ℕ)
erase_found [] pointer = none
erase_found (p ∷ pointers) pointer =
    if p == pointer
    then some pointers
    else Option.map (λ rest. p ∷ rest) (erase_found pointers pointer)

unfoldable pub erased_or_failed : OrphansPool → Option (List ℕ) → Result OrphansPool
erased_or_failed pool none = err assertion_failed
erased_or_failed pool (some blocks) = ok (record pool { blocks = blocks })

unfoldable pub remove : OrphansPool → ℕ → Result OrphansPool
unfolding erased_or_failed
remove pool remove_block = erased_or_failed pool (erase_found pool.blocks remove_block)

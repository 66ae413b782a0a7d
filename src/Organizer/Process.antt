-- ===== src/Organizer/Process.antt =====
-- process and start of src/blockchain/organizer.cpp.
pub mod Rounds
use libbitcoin.Prelude.{
  ℕ, zero, suc, List, [], ◌∷◌, length, Option, none, some, Result, ok, err, out_of_fuel,
  out_of_bounds, ◌>>=◌,
}
use libbitcoin.Openssl.{Openssl}
use libbitcoin.Organizer.{Heap, update, mark_processed}
use libbitcoin.Organizer.Keeper.{ChainKeeper}
use libbitcoin.Organizer.Orphans
use libbitcoin.Organizer.Replace.{Organizer, replace_chain}

-- `back()` and `pop_back()`: the vector without its last element, and that.
unfoldable pub pop_back : ℕ → List ℕ → List ℕ × ℕ
pop_back p [] = ([], p)
pop_back p (next ∷ pointers) = let (front, back) = pop_back next pointers in (p ∷ front, back)

module _ {o : Openssl} (keeper : ChainKeeper o) (trace_fuel : ℕ) where
  -- The fork index of -1 leaves the chain.
  unfoldable pub replace_from : Option ℕ → List ℕ → Organizer keeper → Result (Organizer keeper)
  replace_from none orphan_chain organizer = ok organizer
  replace_from (some fork_index) orphan_chain organizer =
      replace_chain keeper fork_index orphan_chain organizer

  unfoldable pub process_traced : List ℕ → Organizer keeper → Result (Organizer keeper)
  unfolding replace_from
  process_traced [] organizer = err out_of_bounds
  process_traced (first ∷ orphan_chain) organizer =
      replace_from (keeper.find_index (Orphans.previous_hash organizer.heap first) organizer.chain)
        (first ∷ orphan_chain) organizer

  unfoldable pub process : ℕ → Organizer keeper → Result (Organizer keeper)
  unfolding process_traced
  process process_block organizer = do
    orphan_chain ← Orphans.trace trace_fuel organizer.heap organizer.orphans process_block
    after ← process_traced orphan_chain organizer
    ok (record after { heap = update process_block mark_processed after.heap })

  -- One round of the loop, on a queue of `p` and others.
  unfoldable pub process_back : ℕ → List ℕ → Organizer keeper → Result (Organizer keeper)
  unfolding pop_back process
  process_back p pointers organizer = do
    let popped = pop_back p pointers
    after ←
        process popped.1
          (record organizer { process_queue = popped.0; chain = keeper.start organizer.chain })
    ok (record after { chain = keeper.stop after.chain })

  -- `while (!process_queue_.empty())`. A round shortens the queue.
  unfoldable pub process_loop : ℕ → List ℕ → Organizer keeper → Result (Organizer keeper)
  unfolding process_back
  process_loop fuel [] organizer = ok organizer
  process_loop zero (p ∷ pointers) organizer = err out_of_fuel
  process_loop (suc fuel) (p ∷ pointers) organizer =
      process_back p pointers organizer >>= λ after. process_loop fuel after.process_queue after

  unfoldable pub start : Organizer keeper → Result (Organizer keeper)
  unfolding process_loop
  start organizer =
      let process_queue = Orphans.unprocessed organizer.heap organizer.orphans in
      process_loop (length process_queue) process_queue
        (record organizer { process_queue = process_queue })

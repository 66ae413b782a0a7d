-- ===== src/Examples/Organizer.antt =====
-- The organizer at a chain and an orphan pool of numbered blocks.
use libbitcoin.Prelude.{
  arith, ℕ, ◌-◌, ◌≡◌, ◌≢◌, refl, true, false, List, [], ◌∷◌, ◌++◌, take, none, some, Result, ok,
  err, out_of_fuel, ◌⊎◌, chunk_eq,
}
use libbitcoin.BigNumber.{big_le, set_uint32, set_compact}
use libbitcoin.Messages.{Block}
use libbitcoin.Organizer.{BlockStatus, Heap}
use libbitcoin.Organizer.Orphans.{OrphansPool, trace, erase_found, find_hash, remove}
use libbitcoin.Organizer.Orphans.Trace.{Lower, IsTraced, trace-IsTraced, trace-ends}
use libbitcoin.Organizer.Keeper.{ChainKeeper}
use libbitcoin.Organizer.Replace.{Organizer, actual_blocks, replace_chain}
use libbitcoin.Organizer.Replace.Verify.{Verified, work_from}
use libbitcoin.Organizer.Replace.Work.{replace_chain-work}
use libbitcoin.Organizer.Replace.Switch.{Switched}
use libbitcoin.Validate.{ErrorCode}
use libbitcoin.Organizer.Process.{process_loop}
use libbitcoin.Organizer.Process.Rounds.{TraceStops, process_loop-ends}
use libbitcoin.Block.{block_work}
use libbitcoin.Format.{cast_chunk}
use libbitcoin.Examples.Toy.{wide, mined}

abbrev heap : Heap
heap = record {
  detail = λ p. record {
    actual = record mined { previous_block_hash = (p - 1) ∷ [] };
    block_hash = p ∷ [];
    processed = false;
    info = record { status = BlockStatus.orphan; depth = 0 };
    ec = none;
  };
  next = 10;
}

abbrev orphans : OrphansPool
orphans = record { capacity = 20; blocks = 4 ∷ 3 ∷ 5 ∷ [] }

traced : trace 9 heap orphans 5 ≡ ok (3 ∷ 4 ∷ 5 ∷ [])
unfolding trace find_hash chunk_eq
traced = refl

trace-IsTraced_example : IsTraced heap orphans.blocks 5 (3 ∷ 4 ∷ 5 ∷ [])
trace-IsTraced_example = trace-IsTraced heap 9 orphans 5 traced

abbrev height : List ℕ → ℕ
height [] = 0
height (n ∷ hash) = n

orphans_Lower : Lower heap height orphans.blocks
orphans_Lower = (omega arith, (omega arith, (omega arith, tt)))

trace-ends_example : (chain : List ℕ) × (trace 9 heap orphans 5 ≡ ok chain)
trace-ends_example = trace-ends heap height 9 orphans 5 orphans_Lower (omega arith)

-- A keeper of a list of blocks, on which every orphan chain forks off after its first block.
abbrev keeper : ChainKeeper wide
keeper = record {
  Chain = List Block;
  start = λ chain. chain;
  stop = λ chain. chain;
  add = λ detail chain. chain ++ detail.actual ∷ [];
  find_index = λ hash chain. some 0;
  end_slice_difficulty = λ n chain. 0;
  end_slice = λ n chain. (true, [], take n chain);
  verify = λ fork_index all index chain. none;
}

abbrev organizer : Organizer keeper
organizer = record {
  heap = heap;
  orphans = orphans;
  chain = mined ∷ [];
  process_queue = 3 ∷ 4 ∷ 5 ∷ [];
  reorganizations = [];
}

abbrev organizer_of : Result (Organizer keeper) → Organizer keeper
organizer_of (ok after) = after
organizer_of (err fault) = organizer

abbrev switched : Organizer keeper
switched = organizer_of (replace_chain keeper 0 (3 ∷ 4 ∷ []) organizer)

chain_switched : replace_chain keeper 0 (3 ∷ 4 ∷ []) organizer ≡ ok switched
unfolding replace_chain big_le set_uint32 block_work set_compact cast_chunk remove erase_found
chain_switched = refl

abbrev chain_work : ℕ → wide.Bignum
chain_work count =
    work_from keeper (set_uint32 wide 0) (take count (actual_blocks heap (3 ∷ 4 ∷ [])))

replace_chain-work_example :
    (count : ℕ) × Verified keeper 0 (actual_blocks heap (3 ∷ 4 ∷ [])) (mined ∷ []) 0 count
    × ((count ≡ 2)
        ⊎ ((reason : ErrorCode) × (keeper.verify 0
                (actual_blocks heap (3 ∷ 4 ∷ []))
                count
                (mined ∷ [])
              ≡ some reason)))
    × (((big_le wide (chain_work count) 0 ≡ true)
          × (switched.chain ≡ mined ∷ [])
          × (switched.reorganizations ≡ []))
        ⊎ ((big_le wide (chain_work count) 0 ≡ false)
            × Switched keeper 0
                (take count (actual_blocks heap (3 ∷ 4 ∷ [])))
                (mined ∷ [])
                []
                switched))
replace_chain-work_example =
    replace_chain-work keeper 0 (3 ∷ 4 ∷ []) organizer (omega arith, (omega arith, tt))
      chain_switched

process_loop-ends_example :
    (process_loop keeper 9 3 (3 ∷ 4 ∷ 5 ∷ []) organizer ≢ err out_of_fuel)
    ⊎ TraceStops keeper 9 (3 ∷ 4 ∷ 5 ∷ []) organizer
process_loop-ends_example = process_loop-ends keeper 9 3 (3 ∷ 4 ∷ 5 ∷ []) organizer (omega arith)

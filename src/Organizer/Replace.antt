-- ===== src/Organizer/Replace.antt =====
-- replace_chain, clip_orphans and notify_reorganize of src/blockchain/organizer.cpp.

pub mod Verify
pub mod Queue
pub mod Kept
pub mod Rounds
pub mod Switch
pub mod Work
use libbitcoin.Prelude.{
  ℕ, suc, ◌+◌, Bool, true, false, List, [], ◌∷◌, ◌++◌, map, take, drop, ◌==◌, if◌then◌else◌, Option,
  none, some, Result, ok, err, assert, ◌>>=◌, ◌>>◌,
}
use libbitcoin.Openssl.{Openssl}
use libbitcoin.BigNumber.{big_le, set_uint32}
use libbitcoin.Messages.{Block}
use libbitcoin.Block.{block_work}
use libbitcoin.Organizer.{
  BlockStatus, BlockDetail, Heap, update, make_shared, new_detail, mark_processed, set_info,
  set_errc,
}
use libbitcoin.Organizer.Keeper.{ChainKeeper}
use libbitcoin.Organizer.Orphans
use libbitcoin.Organizer.Orphans.{OrphansPool, erase_found}
use libbitcoin.Validate.{ErrorCode}

-- A call of reorganize_occured.
pub record Reorganization : Type 0 where
  pub fork_point : ℕ
  pub arrivals : List Block
  pub replaced : List Block

unfoldable pub queue_or_same : List ℕ → Option (List ℕ) → List ℕ
queue_or_same process_queue none = process_queue
queue_or_same process_queue (some shorter) = shorter

module _ {o : Openssl} (keeper : ChainKeeper o) where
  -- The organizer with the objects it shares; `process_queue` is in the order of the vector.
  pub record Organizer : Type 0 where
    pub heap : Heap
    pub orphans : OrphansPool
    pub chain : keeper.Chain
    pub process_queue : List ℕ
    pub reorganizations : List Reorganization

unfoldable pub actual_blocks : Heap → List ℕ → List Block
actual_blocks heap pointers = map (λ p. (heap.detail p).actual) pointers

-- `lazy_remove`.
unfoldable pub lazy_remove :
    {o : Openssl} (keeper : ChainKeeper o) → ℕ → Organizer keeper → Organizer keeper
unfolding queue_or_same
lazy_remove keeper remove_block organizer = record organizer {
  process_queue =
      queue_or_same organizer.process_queue (erase_found organizer.process_queue remove_block);
  heap = update remove_block mark_processed organizer.heap;
}

module _ {o : Openssl} (keeper : ChainKeeper o) where
  -- The loop from `orphan_start` on: the first block has the reason, and those after it follow an
  -- invalid block.
  unfoldable pub clip_loop : List ℕ → ErrorCode → Organizer keeper → Result (Organizer keeper)
  clip_loop [] reason organizer = ok organizer
  clip_loop (p ∷ pointers) reason organizer = do
    let heap =
        update p (set_info BlockStatus.rejected 0) (update p (set_errc reason) organizer.heap)
    orphans ← Orphans.remove organizer.orphans p
    clip_loop pointers ErrorCode.previous_block_invalid
        (lazy_remove keeper p (record organizer { heap = heap; orphans = orphans }))

  -- The loop over the orphan chain: the work of the blocks before the first invalid one, and that
  -- one's index and reason.
  unfoldable pub verify_loop :
      ℕ → List Block → ℕ → List Block → keeper.Chain → o.Bignum → o.Bignum × Option (ℕ × ErrorCode)
  verify_loop fork_index all orphan_index [] chain orphan_work = (orphan_work, none)
  verify_loop fork_index all orphan_index (orphan_block ∷ blocks) chain orphan_work =
      elim (keeper.verify fork_index all orphan_index chain) [
        | some invalid_reason ↦ (orphan_work, some (orphan_index, invalid_reason))
        | none ↦
            verify_loop fork_index all (suc orphan_index) blocks chain
              (o.bn_add orphan_work (block_work o orphan_block.bits))
      ]

  -- The orphan chain that is left, and the organizer after clip_orphans.
  unfoldable pub clipped :
      List ℕ → Option (ℕ × ErrorCode) → Organizer keeper → Result (List ℕ × Organizer keeper)
  unfolding clip_loop
  clipped orphan_chain none organizer = ok (orphan_chain, organizer)
  clipped orphan_chain (some (orphan_index, invalid_reason)) organizer = do
    after ← clip_loop (drop orphan_index orphan_chain) invalid_reason organizer
    ok (take orphan_index orphan_chain, after)

  unfoldable pub arrive : List ℕ → ℕ → Organizer keeper → Result (Organizer keeper)
  arrive [] arrival_index organizer = ok organizer
  arrive (p ∷ pointers) arrival_index organizer = do
    orphans ← Orphans.remove organizer.orphans p
    let heap = update p (set_info BlockStatus.confirmed (suc arrival_index)) organizer.heap
    arrive pointers (suc arrival_index) (record organizer {
      heap = heap;
      orphans = orphans;
      chain = keeper.add (heap.detail p) organizer.chain;
    })

  -- The details that end_slice makes of the sliced blocks.
  unfoldable pub share_all : List Block → Heap → List ℕ × Heap
  share_all [] heap = ([], heap)
  share_all (sliced ∷ blocks) heap =
      let (pointers, after) = share_all blocks (make_shared (new_detail o sliced) heap) in
      (heap.next ∷ pointers, after)

  unfoldable pub restore : List ℕ → Organizer keeper → Organizer keeper
  restore [] organizer = organizer
  restore (p ∷ pointers) organizer =
      let heap =
        update p (set_info BlockStatus.orphan 0) (update p mark_processed organizer.heap) in
      restore pointers
        (record organizer { heap = heap; orphans = (Orphans.add heap organizer.orphans p).0 })

  unfoldable pub switch_chain : ℕ → List ℕ → Organizer keeper → Result (Organizer keeper)
  unfolding arrive share_all restore actual_blocks
  switch_chain fork_index orphan_chain organizer = do
    let sliced = keeper.end_slice (fork_index + 1) organizer.chain
    assert sliced.0
    let shared = share_all sliced.1 organizer.heap
    arrived ←
        arrive orphan_chain fork_index (record organizer { heap = shared.1; chain = sliced.2 })
    let restored = restore shared.0 arrived
    ok (record restored {
      chain = keeper.stop restored.chain;
      reorganizations =
          restored.reorganizations
          ++ record {
            fork_point = fork_index;
            arrivals = actual_blocks restored.heap orphan_chain;
            replaced = actual_blocks restored.heap shared.0;
          }
            ∷ [];
    })

  unfoldable pub replace_chain : ℕ → List ℕ → Organizer keeper → Result (Organizer keeper)
  unfolding verify_loop clipped switch_chain
  replace_chain fork_index orphan_chain organizer = do
    let all = actual_blocks organizer.heap orphan_chain
    let verified = verify_loop fork_index all 0 all organizer.chain (set_uint32 o 0)
    left ← clipped orphan_chain verified.1 organizer
    (if big_le o verified.0 (keeper.end_slice_difficulty (fork_index + 1) left.1.chain)
        then ok left.1
        else switch_chain fork_index left.0 left.1)

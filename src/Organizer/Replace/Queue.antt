-- ===== src/Organizer/Replace/Queue.antt =====
-- replace_chain never lengthens the organizer's queue.
use mathlib.Core.Option
use libbitcoin.Prelude.{
  arith, ℕ, suc, ◌+◌, ◌≤◌, ◌≡◌, refl, sym, ap, Bool, true, false, List, [], ◌∷◌, length, drop, ◌==◌,
  if◌then◌else◌, Option, none, some, Result, ok, ok-eq, >>=-eq-ok, assert, Bool-cases, inl, inr,
}
use libbitcoin.Openssl.{Openssl}
use libbitcoin.BigNumber.{big_le, set_uint32}
use libbitcoin.Organizer.Keeper.{ChainKeeper}
use libbitcoin.Organizer.Orphans
use libbitcoin.Organizer.Orphans.{erase_found}
use libbitcoin.Organizer.Replace.{
  Organizer, actual_blocks, lazy_remove, queue_or_same, clip_loop, verify_loop, clipped, arrive,
  share_all, restore, switch_chain, replace_chain,
}
use libbitcoin.Validate.{ErrorCode}

module _ (pointer : ℕ) where
  IsShorter : List ℕ → Option (List ℕ) → Type 0
  IsShorter pointers none = Unit {0}
  IsShorter pointers (some shorter) = length shorter ≤ length pointers

  mapped_length :
      (p : ℕ) (pointers : List ℕ) (erased : Option (List ℕ))
      → IsShorter pointers erased
      → IsShorter (p ∷ pointers) (Option.map (λ rest. p ∷ rest) erased)
  unfolding IsShorter
  mapped_length p pointers none h = tt
  mapped_length p pointers (some shorter) h = omega arith

  erase_found-length : (pointers : List ℕ) → IsShorter pointers (erase_found pointers pointer)
  unfolding erase_found
  erase_found-length [] = unfold IsShorter in tt
  erase_found-length (p ∷ pointers) = elim (Bool-cases (p == pointer)) [
    | inl same ↦ rw same (unfold IsShorter in omega arith)
    | inr differs ↦
        rw differs
          (mapped_length p pointers (erase_found pointers pointer) (erase_found-length pointers))
  ]

  queue_length :
      (queue : List ℕ) (erased : Option (List ℕ))
      → IsShorter queue erased
      → length (queue_or_same queue erased) ≤ length queue
  unfolding queue_or_same IsShorter
  queue_length queue none h = omega arith
  queue_length queue (some shorter) h = h

module _ {o : Openssl} (keeper : ChainKeeper o) where
  abbrev queue_size : Organizer keeper → ℕ
  queue_size organizer = length organizer.process_queue

  clip_loop-queue :
      (pointers : List ℕ) (reason : ErrorCode) (organizer : Organizer keeper)
      {after : Organizer keeper}
      → clip_loop keeper pointers reason organizer ≡ ok after
      → queue_size after ≤ queue_size organizer
  unfolding clip_loop lazy_remove
  clip_loop-queue [] reason organizer e = omega (arith, ap queue_size (ok-eq e))
  clip_loop-queue (p ∷ pointers) reason organizer e =
      let (orphans, _, e1) = >>=-eq-ok (Orphans.remove organizer.orphans p) _ e in
      omega (
        arith,
        queue_length p organizer.process_queue _ (erase_found-length p organizer.process_queue),
        clip_loop-queue pointers ErrorCode.previous_block_invalid _ e1,
      )

  clipped-queue :
      (orphan_chain : List ℕ) (result : Option (ℕ × ErrorCode)) (organizer : Organizer keeper)
      {left : List ℕ × Organizer keeper}
      → clipped keeper orphan_chain result organizer ≡ ok left
      → queue_size left.1 ≤ queue_size organizer
  unfolding clipped
  clipped-queue orphan_chain none organizer e =
      omega (arith, ap (λ (r : List ℕ × Organizer keeper). queue_size r.1) (ok-eq e))
  clipped-queue orphan_chain (some (index, reason)) organizer e =
      let (middle, clips, e1) =
        >>=-eq-ok (clip_loop keeper (drop index orphan_chain) reason organizer) _ e in
      omega (
        arith,
        clip_loop-queue (drop index orphan_chain) reason organizer clips,
        ap (λ (r : List ℕ × Organizer keeper). queue_size r.1) (ok-eq e1),
      )

  arrive-queue :
      (pointers : List ℕ) (arrival_index : ℕ) (organizer : Organizer keeper)
      {after : Organizer keeper}
      → arrive keeper pointers arrival_index organizer ≡ ok after
      → queue_size after ≡ queue_size organizer
  unfolding arrive
  arrive-queue [] arrival_index organizer e = ap queue_size (sym (ok-eq e))
  arrive-queue (p ∷ pointers) arrival_index organizer e =
      let (orphans, _, e1) = >>=-eq-ok (Orphans.remove organizer.orphans p) _ e in
      arrive-queue pointers (suc arrival_index) _ e1

  restore-queue :
      (pointers : List ℕ) (organizer : Organizer keeper)
      → queue_size (restore keeper pointers organizer) ≡ queue_size organizer
  unfolding restore
  restore-queue [] organizer = refl
  restore-queue (p ∷ pointers) organizer = restore-queue pointers _

  switch_chain-queue :
      (fork_index : ℕ) (orphan_chain : List ℕ) (organizer : Organizer keeper)
      {after : Organizer keeper}
      → switch_chain keeper fork_index orphan_chain organizer ≡ ok after
      → queue_size after ≡ queue_size organizer
  unfolding switch_chain
  switch_chain-queue fork_index orphan_chain organizer e =
      let sliced = keeper.end_slice (fork_index + 1) organizer.chain in
      let shared = share_all keeper sliced.1 organizer.heap in
      let (_, _, e1) = >>=-eq-ok (assert sliced.0) _ e in
      let (arrived, arrives, e2) =
        >>=-eq-ok
          (arrive keeper orphan_chain fork_index
            (record organizer { heap = shared.1; chain = sliced.2 }))
          _ e1 in
      omega (
        arith,
        ap queue_size (ok-eq e2),
        restore-queue shared.0 arrived,
        arrive-queue orphan_chain fork_index _ arrives,
      )

  chosen_queue :
      (test : Bool) (stays : Organizer keeper) (switches : Result (Organizer keeper))
      {after : Organizer keeper} (bound : ℕ)
      → (if test then ok stays else switches) ≡ ok after
      → queue_size stays ≤ bound
      → (switches ≡ ok after → queue_size after ≤ bound)
      → queue_size after ≤ bound
  chosen_queue true stays switches bound e h k = omega (arith, h, ap queue_size (ok-eq e))
  chosen_queue false stays switches bound e h k = k e

  pub replace_chain-queue :
      (fork_index : ℕ) (orphan_chain : List ℕ) (organizer : Organizer keeper)
      {after : Organizer keeper}
      → replace_chain keeper fork_index orphan_chain organizer ≡ ok after
      → length after.process_queue ≤ length organizer.process_queue
  unfolding replace_chain
  replace_chain-queue fork_index orphan_chain organizer e =
      let all = actual_blocks organizer.heap orphan_chain in
      let verified = verify_loop keeper fork_index all 0 all organizer.chain (set_uint32 o 0) in
      let (left, clips, e1) = >>=-eq-ok (clipped keeper orphan_chain verified.1 organizer) _ e in
      let shorter = clipped-queue orphan_chain verified.1 organizer clips in
      chosen_queue (big_le o verified.0 (keeper.end_slice_difficulty (fork_index + 1) left.1.chain))
        left.1 _ (queue_size organizer) e1 shorter
        (λ switches. omega (arith, shorter, switch_chain-queue fork_index left.0 left.1 switches))

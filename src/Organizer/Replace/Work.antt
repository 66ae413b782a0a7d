-- ===== src/Organizer/Replace/Work.antt =====
-- When replace_chain changes the chain.
use libbitcoin.Prelude.{
  arith, ℕ, zero, suc, ◌+◌, ◌<◌, ◌≡◌, refl, sym, subst, ap, ◌∙◌, ◌⊎◌, inl, inr, Bool, true, false,
  List, [], ◌∷◌, length, length-map, All, take, drop, Option, none, some, Result, ok, ok-eq,
  >>=-eq-ok, if◌then◌else◌,
}
use libbitcoin.Openssl.{Openssl}
use libbitcoin.BigNumber.{big_le, set_uint32}
use libbitcoin.Organizer.Keeper.{ChainKeeper}
use libbitcoin.Organizer.Orphans
use libbitcoin.Organizer.Replace.{
  Organizer, Reorganization, actual_blocks, lazy_remove, clip_loop, verify_loop, clipped,
  replace_chain,
}
use libbitcoin.Validate.{ErrorCode}
use libbitcoin.Organizer.Replace.Verify.{Verified, Ended, work_from, verify_loop-Ended}
use libbitcoin.Organizer.Replace.Kept.{
  clipped-Keeps, actual_blocks-Keeps, actual_blocks-take, All-take,
}
use libbitcoin.Organizer.Replace.Switch.{Switched, switch_chain-Switched}
use libbitcoin.Organizer.{Heap}
use libbitcoin.Messages.{Block}

chosen {ℓ} :
    {A : Type ℓ} (test : Bool) (stays : A) (switches : Result A) {result : A}
    → (if test then ok stays else switches) ≡ ok result
    → ((test ≡ true) × (stays ≡ result)) ⊎ ((test ≡ false) × (switches ≡ ok result))
chosen true stays switches e = inl (refl, ok-eq e)
chosen false stays switches e = inr (refl, e)

take-length :
    (count : ℕ) (pointers : List ℕ) → count ≡ length pointers → take count pointers ≡ pointers
take-length zero [] h = refl
take-length zero (p ∷ pointers) h = absurd (omega arith)
take-length (suc count) [] h = refl
take-length (suc count) (p ∷ pointers) h =
    ap (λ (rest : List ℕ). p ∷ rest) (take-length count pointers (omega arith))

-- The orphan chain that clip_orphans leaves.
kept_of : List ℕ → Option (ℕ × ErrorCode) → List ℕ
kept_of orphan_chain none = orphan_chain
kept_of orphan_chain (some (index, reason)) = take index orphan_chain

module _ {o : Openssl} (keeper : ChainKeeper o) where
  -- clip_orphans leaves the chain and the notices.
  clip_loop-chain :
      (pointers : List ℕ) (reason : ErrorCode) (organizer : Organizer keeper)
      {after : Organizer keeper}
      → clip_loop keeper pointers reason organizer ≡ ok after
      → (after.chain ≡ organizer.chain) × (after.reorganizations ≡ organizer.reorganizations)
  unfolding clip_loop lazy_remove
  clip_loop-chain [] reason organizer e =
      (ap Organizer.chain (sym (ok-eq e)), ap Organizer.reorganizations (sym (ok-eq e)))
  clip_loop-chain (p ∷ pointers) reason organizer e =
      let (orphans, _, e1) = >>=-eq-ok (Orphans.remove organizer.orphans p) _ e in
      clip_loop-chain pointers ErrorCode.previous_block_invalid _ e1

  clipped-chain :
      (orphan_chain : List ℕ) (result : Option (ℕ × ErrorCode)) (organizer : Organizer keeper)
      {left : List ℕ} {after : Organizer keeper}
      → clipped keeper orphan_chain result organizer ≡ ok (left, after)
      → (after.chain ≡ organizer.chain) × (after.reorganizations ≡ organizer.reorganizations)
  unfolding clipped
  clipped-chain orphan_chain none organizer e =
      let same = ap (λ (r : List ℕ × Organizer keeper). r.1) (ok-eq e) in
      (ap Organizer.chain (sym same), ap Organizer.reorganizations (sym same))
  clipped-chain orphan_chain (some (index, reason)) organizer e =
      let (middle, clips, e1) =
        >>=-eq-ok (clip_loop keeper (drop index orphan_chain) reason organizer) _ e in
      let (chains, notices) = clip_loop-chain (drop index orphan_chain) reason organizer clips in
      let same = ap (λ (r : List ℕ × Organizer keeper). r.1) (ok-eq e1) in
      (ap Organizer.chain (sym same) ∙ chains, ap Organizer.reorganizations (sym same) ∙ notices)

  clipped-left :
      (orphan_chain : List ℕ) (result : Option (ℕ × ErrorCode)) (organizer : Organizer keeper)
      {left : List ℕ} {after : Organizer keeper}
      → clipped keeper orphan_chain result organizer ≡ ok (left, after)
      → left ≡ kept_of orphan_chain result
  unfolding clipped kept_of
  clipped-left orphan_chain none organizer e =
      ap (λ (r : List ℕ × Organizer keeper). r.0) (sym (ok-eq e))
  clipped-left orphan_chain (some (index, reason)) organizer e =
      let (middle, clips, e1) =
        >>=-eq-ok (clip_loop keeper (drop index orphan_chain) reason organizer) _ e in
      ap (λ (r : List ℕ × Organizer keeper). r.0) (sym (ok-eq e1))

  Ended-left :
      (fork_index : ℕ) (orphan_chain : List ℕ) (chain : keeper.Chain) (heap : Heap)
      (work : o.Bignum) {result : o.Bignum × Option (ℕ × ErrorCode)}
      (ended : Ended keeper fork_index
        (actual_blocks heap orphan_chain)
        chain
        0
        (actual_blocks heap orphan_chain)
        work
        result)
      → kept_of orphan_chain result.1 ≡ take ended.count orphan_chain
  unfolding kept_of actual_blocks
  Ended-left fork_index orphan_chain chain heap work {result = result} ended = elim ended.stopped [
    | inl (all_counted, nothing) ↦
        ap (kept_of orphan_chain) nothing
        ∙ sym (take-length ended.count orphan_chain (all_counted ∙ length-map _ orphan_chain))
    | inr (reason, refuses, stops) ↦
        ap (kept_of orphan_chain) stops ∙ ap (λ (n : ℕ). take n orphan_chain) (omega arith)
  ]

  Ended-next :
      (fork_index : ℕ) (orphan_chain : List ℕ) (chain : keeper.Chain) (heap : Heap)
      (work : o.Bignum) {result : o.Bignum × Option (ℕ × ErrorCode)}
      (ended : Ended keeper fork_index
        (actual_blocks heap orphan_chain)
        chain
        0
        (actual_blocks heap orphan_chain)
        work
        result)
      → (ended.count ≡ length orphan_chain)
        ⊎ ((reason : ErrorCode) × (keeper.verify fork_index
                (actual_blocks heap orphan_chain)
                ended.count
                chain
              ≡ some reason))
  Ended-next fork_index orphan_chain chain heap work ended = elim ended.stopped [
    | inl (all_counted, nothing) ↦
        inl (all_counted ∙ (unfold actual_blocks in length-map _ orphan_chain))
    | inr (reason, refuses, stops) ↦ inr (
      reason,
      subst
          (λ (n : ℕ).
            keeper.verify fork_index (actual_blocks heap orphan_chain) n chain ≡ some reason)
          (omega arith) refuses,
    )
  ]

  -- On an orphan chain of details in use, some first blocks of the orphan chain are verified on the chain
  -- as it was, and the first one after them is refused if there is one. If these have together no more
  -- work than the chain has after the fork, replace_chain leaves the chain and notifies nobody; if they
  -- have, they alone take the place of the blocks after the fork, each with its own depth, and one notice
  -- tells of them and of those they replace.
  pub replace_chain-work :
      (fork_index : ℕ) (orphan_chain : List ℕ) (organizer : Organizer keeper)
      {after : Organizer keeper}
      → All (λ p. p < organizer.heap.next) orphan_chain
      → replace_chain keeper fork_index orphan_chain organizer ≡ ok after
      → (count : ℕ) × Verified keeper fork_index
          (actual_blocks organizer.heap orphan_chain)
          organizer.chain
          0
          count
        × ((count ≡ length orphan_chain)
            ⊎ ((reason : ErrorCode) × (keeper.verify fork_index
                    (actual_blocks organizer.heap orphan_chain)
                    count
                    organizer.chain
                  ≡ some reason)))
        × (((big_le o
                  (work_from keeper
                    (set_uint32 o 0)
                    (take count (actual_blocks organizer.heap orphan_chain)))
                  (keeper.end_slice_difficulty (fork_index + 1) organizer.chain)
                ≡ true)
              × (after.chain ≡ organizer.chain)
              × (after.reorganizations ≡ organizer.reorganizations))
            ⊎ ((big_le o
                    (work_from keeper
                      (set_uint32 o 0)
                      (take count (actual_blocks organizer.heap orphan_chain)))
                    (keeper.end_slice_difficulty (fork_index + 1) organizer.chain)
                  ≡ false)
                × Switched keeper fork_index
                    (take count (actual_blocks organizer.heap orphan_chain))
                    organizer.chain
                    organizer.reorganizations
                    after))
  unfolding replace_chain
  replace_chain-work fork_index orphan_chain organizer {after = after} below e =
      let all = actual_blocks organizer.heap orphan_chain in
      let verified = verify_loop keeper fork_index all 0 all organizer.chain (set_uint32 o 0) in
      let ended = verify_loop-Ended keeper fork_index all 0 all organizer.chain (set_uint32 o 0) in
      let (left, clips, e1) = >>=-eq-ok (clipped keeper orphan_chain verified.1 organizer) _ e in
      let (chains, notices) = clipped-chain orphan_chain verified.1 organizer clips in
      let (keeps, nexts) = clipped-Keeps keeper orphan_chain verified.1 organizer clips in
      let works : big_le o verified.0 (keeper.end_slice_difficulty (fork_index + 1) left.1.chain)
          ≡ big_le o (work_from keeper (set_uint32 o 0) (take ended.count all))
              (keeper.end_slice_difficulty (fork_index + 1) organizer.chain) =
        λ i.
          big_le o (ended.counted_work i)
            (keeper.end_slice_difficulty (fork_index + 1) (chains i)) in
      (
        ended.count,
        ended.verified,
        Ended-next fork_index orphan_chain organizer.chain organizer.heap (set_uint32 o 0) ended,
        elim (chosen
            (big_le o verified.0 (keeper.end_slice_difficulty (fork_index + 1) left.1.chain)) _ _
            e1) [
              | inl (enough, same) ↦ inl (
                sym works ∙ enough,
                ap Organizer.chain (sym same) ∙ chains,
                ap Organizer.reorganizations (sym same) ∙ notices,
              )
              | inr (more, switches) ↦
                  let lefts : left.0 ≡ take ended.count orphan_chain =
                    clipped-left orphan_chain verified.1 organizer clips
                    ∙ Ended-left fork_index orphan_chain organizer.chain organizer.heap
                        (set_uint32 o 0) ended in
                  let below_left : All (λ p. p < left.1.heap.next) left.0 =
                    subst (λ (r : List ℕ × ℕ). All (λ p. p < r.1) r.0)
                      (λ i. (sym lefts i, sym nexts i))
                      (All-take (λ p. p < organizer.heap.next) ended.count orphan_chain below) in
                  let blocks_left =
                    actual_blocks-Keeps organizer.heap left.1.heap left.0 keeps
                    ∙ ap (actual_blocks organizer.heap) lefts
                    ∙ actual_blocks-take organizer.heap ended.count orphan_chain in
                  inr (
                    sym works ∙ more,
                    subst
                        (λ (r : List Block × keeper.Chain × List Reorganization).
                          Switched keeper fork_index r.0 r.1 r.2 after)
                        (λ i. (blocks_left i, chains i, notices i))
                        (switch_chain-Switched keeper fork_index left.0 left.1 below_left switches),
                  )
            ],
      )

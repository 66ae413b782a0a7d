-- ===== src/Organizer/Replace/Kept.antt =====
-- The blocks of the details that replace_chain changes, marks and makes stay what they are.
use libbitcoin.Prelude.{
  arith, ℕ, zero, suc, ◌<◌, ◌≡◌, refl, sym, ap, ◌∙◌, Bool, true, false, List, [], ◌∷◌, take, drop,
  ◌==◌, if◌then◌else◌, All, Option, none, some, ok, ok-eq, >>=-eq-ok,
}
use libbitcoin.Openssl.{Openssl}
use libbitcoin.Messages.{Block}
use libbitcoin.Organizer.{
  BlockStatus, BlockDetail, Heap, update, make_shared, new_detail, mark_processed, set_info,
  set_errc,
}
use libbitcoin.Organizer.Keeper.{ChainKeeper}
use libbitcoin.Organizer.Orphans
use libbitcoin.Organizer.Replace.{
  Organizer, actual_blocks, lazy_remove, clip_loop, arrive, restore, share_all, clipped,
}
use libbitcoin.Validate.{ErrorCode}

-- Every detail has the block it had.
abbrev pub Keeps : Heap → Heap → Type 0
Keeps before after = (p : ℕ) → (after.detail p).actual ≡ (before.detail p).actual

if-actual :
    (test : Bool) (changed detail : BlockDetail)
    → changed.actual ≡ detail.actual
    → (if test then changed else detail).actual ≡ detail.actual
if-actual true changed detail h = h
if-actual false changed detail h = refl

update-Keeps :
    (pointer : ℕ) (change : BlockDetail → BlockDetail) (heap : Heap)
    → ((detail : BlockDetail) → (change detail).actual ≡ detail.actual)
    → Keeps heap (update pointer change heap)
unfolding update
update-Keeps pointer change heap h p =
    if-actual (p == pointer) (change (heap.detail p)) (heap.detail p) (h (heap.detail p))

mark_processed-Keeps : (p : ℕ) (heap : Heap) → Keeps heap (update p mark_processed heap)
unfolding mark_processed
mark_processed-Keeps p heap = update-Keeps p mark_processed heap (λ detail. refl)

pub set_info-Keeps :
    (p : ℕ) (status : BlockStatus) (depth : ℕ) (heap : Heap)
    → Keeps heap (update p (set_info status depth) heap)
unfolding set_info
set_info-Keeps p status depth heap = update-Keeps p (set_info status depth) heap (λ detail. refl)

set_errc-Keeps :
    (p : ℕ) (code : ErrorCode) (heap : Heap) → Keeps heap (update p (set_errc code) heap)
unfolding set_errc
set_errc-Keeps p code heap = update-Keeps p (set_errc code) heap (λ detail. refl)

pub actual_blocks-Keeps :
    (before after : Heap) (pointers : List ℕ)
    → Keeps before after
    → actual_blocks after pointers ≡ actual_blocks before pointers
unfolding actual_blocks
actual_blocks-Keeps before after [] h = refl
actual_blocks-Keeps before after (p ∷ pointers) h =
    λ i. h p i ∷ actual_blocks-Keeps before after pointers h i

pub actual_blocks-take :
    (heap : Heap) (count : ℕ) (pointers : List ℕ)
    → actual_blocks heap (take count pointers) ≡ take count (actual_blocks heap pointers)
unfolding actual_blocks
actual_blocks-take heap zero pointers = refl
actual_blocks-take heap (suc count) [] = refl
actual_blocks-take heap (suc count) (p ∷ pointers) =
    ap (λ (bs : List Block). (heap.detail p).actual ∷ bs) (actual_blocks-take heap count pointers)

pub All-take {ℓ} :
    (P : ℕ → Type ℓ) (count : ℕ) (pointers : List ℕ) → All P pointers → All P (take count pointers)
All-take P zero pointers h = tt
All-take P (suc count) [] h = tt
All-take P (suc count) (p ∷ pointers) h = (h.0, All-take P count pointers h.1)

make_shared-actual :
    (detail : BlockDetail) (heap : Heap) (p : ℕ)
    → p < heap.next
    → ((make_shared detail heap).detail p).actual ≡ (heap.detail p).actual
unfolding make_shared
make_shared-actual detail heap p h = ground arith

make_shared-next :
    (detail : BlockDetail) (heap : Heap)
    → ((make_shared detail heap).detail heap.next).actual ≡ detail.actual
unfolding make_shared
make_shared-next detail heap = ground arith

module _ {o : Openssl} (keeper : ChainKeeper o) where
  share_all-actual :
      (blocks : List Block) (heap : Heap) (p : ℕ)
      → p < heap.next
      → ((share_all keeper blocks heap).1.detail p).actual ≡ (heap.detail p).actual
  unfolding share_all
  share_all-actual [] heap p h = refl
  share_all-actual (sliced ∷ blocks) heap p h =
      share_all-actual blocks (make_shared (new_detail o sliced) heap) p
        (unfold make_shared in omega (arith, h))
      ∙ make_shared-actual (new_detail o sliced) heap p h

  pub share_all-below :
      (blocks : List Block) (heap : Heap) (pointers : List ℕ)
      → All (λ p. p < heap.next) pointers
      → actual_blocks (share_all keeper blocks heap).1 pointers ≡ actual_blocks heap pointers
  unfolding actual_blocks
  share_all-below blocks heap [] h = refl
  share_all-below blocks heap (p ∷ pointers) h =
      λ i. share_all-actual blocks heap p h.0 i ∷ share_all-below blocks heap pointers h.1 i

  -- The new details hold the sliced blocks.
  pub share_all-actual_blocks :
      (blocks : List Block) (heap : Heap)
      → actual_blocks (share_all keeper blocks heap).1 (share_all keeper blocks heap).0 ≡ blocks
  unfolding share_all actual_blocks
  share_all-actual_blocks [] heap = refl
  share_all-actual_blocks (sliced ∷ blocks) heap =
      let first : ((share_all keeper blocks (make_shared (new_detail o sliced) heap)).1.detail
            heap.next).actual
          ≡ sliced =
        share_all-actual blocks (make_shared (new_detail o sliced) heap) heap.next
          (unfold make_shared in omega arith)
        ∙ make_shared-next (new_detail o sliced) heap
        ∙ (unfold new_detail in refl) in
      λ i. first i ∷ share_all-actual_blocks blocks (make_shared (new_detail o sliced) heap) i

  clip_loop-Keeps :
      (pointers : List ℕ) (reason : ErrorCode) (organizer : Organizer keeper)
      {after : Organizer keeper}
      → clip_loop keeper pointers reason organizer ≡ ok after
      → Keeps organizer.heap after.heap × (after.heap.next ≡ organizer.heap.next)
  unfolding clip_loop lazy_remove
  clip_loop-Keeps [] reason organizer e = (
    λ p. ap (λ (r : Organizer keeper). (r.heap.detail p).actual) (sym (ok-eq e)),
    ap (λ (r : Organizer keeper). r.heap.next) (sym (ok-eq e)),
  )
  clip_loop-Keeps (p ∷ pointers) reason organizer e =
      let (orphans, _, e1) = >>=-eq-ok (Orphans.remove organizer.orphans p) _ e in
      let (keeps, nexts) = clip_loop-Keeps pointers ErrorCode.previous_block_invalid _ e1 in
      let failed = update p (set_errc reason) organizer.heap in
      let rejected = update p (set_info BlockStatus.rejected 0) failed in
      (
        λ q.
            keeps q
            ∙ mark_processed-Keeps p rejected q
            ∙ set_info-Keeps p BlockStatus.rejected 0 failed q
            ∙ set_errc-Keeps p reason organizer.heap q,
        nexts ∙ (unfold update in refl),
      )

  pub clipped-Keeps :
      (orphan_chain : List ℕ) (result : Option (ℕ × ErrorCode)) (organizer : Organizer keeper)
      {left : List ℕ} {after : Organizer keeper}
      → clipped keeper orphan_chain result organizer ≡ ok (left, after)
      → Keeps organizer.heap after.heap × (after.heap.next ≡ organizer.heap.next)
  unfolding clipped
  clipped-Keeps orphan_chain none organizer e =
      let same = ap (λ (r : List ℕ × Organizer keeper). r.1) (ok-eq e) in
      (
        λ p. ap (λ (r : Organizer keeper). (r.heap.detail p).actual) (sym same),
        ap (λ (r : Organizer keeper). r.heap.next) (sym same),
      )
  clipped-Keeps orphan_chain (some (index, reason)) organizer e =
      let (middle, clips, e1) =
        >>=-eq-ok (clip_loop keeper (drop index orphan_chain) reason organizer) _ e in
      let (keeps, nexts) = clip_loop-Keeps (drop index orphan_chain) reason organizer clips in
      let same = ap (λ (r : List ℕ × Organizer keeper). r.1) (ok-eq e1) in
      (
        λ p. ap (λ (r : Organizer keeper). (r.heap.detail p).actual) (sym same) ∙ keeps p,
        ap (λ (r : Organizer keeper). r.heap.next) (sym same) ∙ nexts,
      )

  pub arrive-Keeps :
      (pointers : List ℕ) (arrival_index : ℕ) (organizer : Organizer keeper)
      {after : Organizer keeper}
      → arrive keeper pointers arrival_index organizer ≡ ok after
      → Keeps organizer.heap after.heap
  unfolding arrive
  arrive-Keeps [] arrival_index organizer e q =
      ap (λ (r : Organizer keeper). (r.heap.detail q).actual) (sym (ok-eq e))
  arrive-Keeps (p ∷ pointers) arrival_index organizer e q =
      let (orphans, _, e1) = >>=-eq-ok (Orphans.remove organizer.orphans p) _ e in
      arrive-Keeps pointers (suc arrival_index) _ e1 q
      ∙ set_info-Keeps p BlockStatus.confirmed (suc arrival_index) organizer.heap q

  pub restore-Keeps :
      (pointers : List ℕ) (organizer : Organizer keeper)
      → Keeps organizer.heap (restore keeper pointers organizer).heap
  unfolding restore
  restore-Keeps [] organizer q = refl
  restore-Keeps (p ∷ pointers) organizer q =
      restore-Keeps pointers _ q
      ∙ set_info-Keeps p BlockStatus.orphan 0 (update p mark_processed organizer.heap) q
      ∙ mark_processed-Keeps p organizer.heap q

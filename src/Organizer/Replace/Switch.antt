-- ===== src/Organizer/Replace/Switch.antt =====
-- What a switch to an orphan chain does to the chain, and what its notice says.
use libbitcoin.Prelude.{
  ℕ, suc, ◌+◌, ◌<◌, ◌≡◌, refl, sym, subst, ap, ◌∙◌, Bool, true, false, List, [], ◌∷◌, ◌++◌, All, ok,
  ok-eq, >>=-eq-ok, assert, if◌then◌else◌, ◌==◌, ==-refl,
}
use libbitcoin.Openssl.{Openssl}
use libbitcoin.Messages.{Block}
use libbitcoin.Organizer.{BlockStatus, BlockDetail, update, set_info}
use libbitcoin.Organizer.Keeper.{ChainKeeper}
use libbitcoin.Organizer.Orphans
use libbitcoin.Organizer.Replace.{
  Organizer, Reorganization, actual_blocks, arrive, restore, share_all, switch_chain,
}
use libbitcoin.Organizer.Replace.Kept.{
  Keeps, set_info-Keeps, actual_blocks-Keeps, share_all-below, share_all-actual_blocks,
  arrive-Keeps, restore-Keeps,
}

-- `assert` passes only on true.
assert-true : (test : Bool) {unit : Unit {0}} → assert test ≡ ok unit → test ≡ true
assert-true true e = refl
assert-true false e = cc

updated-info :
    (test : Bool) (status : BlockStatus) (depth : ℕ) (detail : BlockDetail)
    → test ≡ true
    → (if test then set_info status depth detail else detail).info
      ≡ record { status = status; depth = depth }
unfolding set_info
updated-info true status depth detail h = refl
updated-info false status depth detail h = cc

module _ {o : Openssl} (keeper : ChainKeeper o) where
  -- A chain to which the keeper adds blocks, one after the other, each with the next depth after the
  -- given one.
  pub data Extends : ℕ → List Block → keeper.Chain → keeper.Chain → Type 0 where
    none_added : {depth : ℕ} {chain : keeper.Chain} → Extends depth [] chain chain
    added :
        {depth : ℕ} {blocks : List Block} {chain after : keeper.Chain} (detail : BlockDetail)
        → detail.info ≡ record { status = BlockStatus.confirmed; depth = suc depth }
        → Extends (suc depth) blocks (keeper.add detail chain) after
        → Extends depth (detail.actual ∷ blocks) chain after

  -- A switch from a chain, with the notices so far, to the given blocks after the fork: those after the
  -- fork are sliced off, the given ones are added, and one notice tells of both.
  pub record Switched (fork_index : ℕ) (blocks : List Block) (chain : keeper.Chain)
      (reorganizations : List Reorganization) (after : Organizer keeper) : Type 0 where
    pub slices : (keeper.end_slice (fork_index + 1) chain).0 ≡ true
    pub extended : keeper.Chain
    pub extends : Extends fork_index blocks (keeper.end_slice (fork_index + 1) chain).2 extended
    pub stopped : after.chain ≡ keeper.stop extended
    pub noticed :
        after.reorganizations
        ≡ reorganizations
          ++ record {
            fork_point = fork_index;
            arrivals = blocks;
            replaced = (keeper.end_slice (fork_index + 1) chain).1;
          }
            ∷ []

  arrive-Extends :
      (pointers : List ℕ) (arrival_index : ℕ) (organizer : Organizer keeper)
      {after : Organizer keeper}
      → arrive keeper pointers arrival_index organizer ≡ ok after
      → Extends arrival_index (actual_blocks organizer.heap pointers) organizer.chain after.chain
        × (after.reorganizations ≡ organizer.reorganizations)
  unfolding arrive actual_blocks update
  arrive-Extends [] arrival_index organizer e = (
    subst (λ (r : Organizer keeper). Extends arrival_index [] organizer.chain r.chain) (ok-eq e)
        none_added,
    ap Organizer.reorganizations (sym (ok-eq e)),
  )
  arrive-Extends (p ∷ pointers) arrival_index organizer {after = after} e =
      let (orphans, _, e1) = >>=-eq-ok (Orphans.remove organizer.orphans p) _ e in
      let heap = update p (set_info BlockStatus.confirmed (suc arrival_index)) organizer.heap in
      let keeps = set_info-Keeps p BlockStatus.confirmed (suc arrival_index) organizer.heap in
      let (extends, same) = arrive-Extends pointers (suc arrival_index) _ e1 in
      (
        subst (λ (blocks : List Block). Extends arrival_index blocks organizer.chain after.chain)
            (λ i. keeps p i ∷ actual_blocks-Keeps organizer.heap heap pointers keeps i)
            (added (heap.detail p)
              (updated-info (p == p) BlockStatus.confirmed (suc arrival_index)
                (organizer.heap.detail p) (==-refl p))
              extends),
        same,
      )

  restore-chain :
      (pointers : List ℕ) (organizer : Organizer keeper)
      → ((restore keeper pointers organizer).chain ≡ organizer.chain)
        × ((restore keeper pointers organizer).reorganizations ≡ organizer.reorganizations)
  unfolding restore
  restore-chain [] organizer = (refl, refl)
  restore-chain (p ∷ pointers) organizer = restore-chain pointers _

  pub switch_chain-Switched :
      (fork_index : ℕ) (orphan_chain : List ℕ) (organizer : Organizer keeper)
      {after : Organizer keeper}
      → All (λ p. p < organizer.heap.next) orphan_chain
      → switch_chain keeper fork_index orphan_chain organizer ≡ ok after
      → Switched fork_index
          (actual_blocks organizer.heap orphan_chain)
          organizer.chain
          organizer.reorganizations
          after
  unfolding switch_chain
  switch_chain-Switched fork_index orphan_chain organizer below e =
      let sliced = keeper.end_slice (fork_index + 1) organizer.chain in
      let shared = share_all keeper sliced.1 organizer.heap in
      let (_, asserts, e1) = >>=-eq-ok (assert sliced.0) _ e in
      let (arrived, arrives, e2) =
        >>=-eq-ok
          (arrive keeper orphan_chain fork_index
            (record organizer { heap = shared.1; chain = sliced.2 }))
          _ e1 in
      let (extends, before) = arrive-Extends orphan_chain fork_index _ arrives in
      let restored = restore keeper shared.0 arrived in
      let (chains, notices) = restore-chain shared.0 arrived in
      let keeps : Keeps shared.1 restored.heap = λ p.
        restore-Keeps keeper shared.0 arrived p
        ∙ arrive-Keeps keeper orphan_chain fork_index _ arrives p in
      let below_shared = share_all-below keeper sliced.1 organizer.heap orphan_chain below in
      record {
        slices = assert-true sliced.0 asserts;
        extended = arrived.chain;
        extends =
            subst (λ (blocks : List Block). Extends fork_index blocks sliced.2 arrived.chain)
              below_shared extends;
        stopped = ap Organizer.chain (sym (ok-eq e2)) ∙ ap keeper.stop chains;
        noticed = ap Organizer.reorganizations (sym (ok-eq e2)) ∙ (λ i.
            (notices ∙ before) i
            ++ record {
              fork_point = fork_index;
              arrivals =
                  (actual_blocks-Keeps shared.1 restored.heap orphan_chain keeps ∙ below_shared) i;
              replaced =
                  (actual_blocks-Keeps shared.1 restored.heap shared.0 keeps
                      ∙ share_all-actual_blocks keeper sliced.1 organizer.heap)
                    i;
            }
              ∷ []);
      }

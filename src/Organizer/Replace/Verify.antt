-- ===== src/Organizer/Replace/Verify.antt =====
-- How the loop of replace_chain over the orphan chain ends.
use libbitcoin.Prelude.{
  arith, ℕ, suc, ◌+◌, ◌≡◌, refl, sym, subst, ap, ◌∙◌, ◌⊎◌, inl, inr, List, [], ◌∷◌, length, take,
  Option, none, some,
}
use libbitcoin.Openssl.{Openssl}
use libbitcoin.Messages.{Block}
use libbitcoin.Block.{block_work}
use libbitcoin.Organizer.Keeper.{ChainKeeper}
use libbitcoin.Organizer.Replace.{verify_loop}
use libbitcoin.Validate.{ErrorCode}

module _ {o : Openssl} (keeper : ChainKeeper o) where
  -- The work of blocks, added to a number.
  pub work_from : o.Bignum → List Block → o.Bignum
  work_from work [] = work
  work_from work (block ∷ blocks) = work_from (o.bn_add work (block_work o block.bits)) blocks

  -- The first `count` blocks from an index on are verified.
  pub data Verified (fork_index : ℕ) (all : List Block) (chain : keeper.Chain)
      : ℕ → ℕ → Type 0 where
    no_block : {index : ℕ} → Verified fork_index all chain index 0
    next_block :
        {index count : ℕ}
        → keeper.verify fork_index all index chain ≡ none
        → Verified fork_index all chain (suc index) count
        → Verified fork_index all chain index (suc count)

  -- How verify_loop has ended: the blocks that it has verified, their work, and the first invalid one.
  pub record Ended (fork_index : ℕ) (all : List Block) (chain : keeper.Chain) (index : ℕ)
      (blocks : List Block) (work : o.Bignum) (result : o.Bignum × Option (ℕ × ErrorCode))
      : Type 0 where
    pub count : ℕ
    pub verified : Verified fork_index all chain index count
    pub counted_work : result.0 ≡ work_from work (take count blocks)
    pub stopped :
        ((count ≡ length blocks) × (result.1 ≡ none))
        ⊎ ((reason : ErrorCode) × (keeper.verify fork_index all (index + count) chain ≡ some reason)
            × (result.1 ≡ some (index + count, reason)))

  pub verify_loop-Ended :
      (fork_index : ℕ) (all : List Block) (index : ℕ) (blocks : List Block) (chain : keeper.Chain)
      (work : o.Bignum)
      → Ended fork_index all chain index blocks work
          (verify_loop keeper fork_index all index blocks chain work)
  unfolding verify_loop work_from
  verify_loop-Ended fork_index all index [] chain work = record {
    count = 0;
    verified = no_block;
    counted_work = refl;
    stopped = inl (refl, refl);
  }
  verify_loop-Ended fork_index all index (block ∷ blocks) chain work =
      next (keeper.verify fork_index all index chain) refl (
        verify_loop-Ended fork_index all (suc index) blocks chain
          (o.bn_add work (block_work o block.bits)))
    where
      next :
          (reply : Option ErrorCode)
          → keeper.verify fork_index all index chain ≡ reply
          → Ended fork_index all chain
              (suc index)
              blocks
              (o.bn_add work (block_work o block.bits))
              (verify_loop keeper fork_index all
                (suc index)
                blocks
                chain
                (o.bn_add work (block_work o block.bits)))
          → Ended fork_index all chain index (block ∷ blocks) work (elim reply [
            | some invalid_reason ↦ (work, some (index, invalid_reason))
            | none ↦
                verify_loop keeper fork_index all
                  (suc index)
                  blocks
                  chain
                  (o.bn_add work (block_work o block.bits))
          ])
      next (some reason) refuses rest =
          let same : index + 0 ≡ index = omega arith in
          record {
            count = 0;
            verified = no_block;
            counted_work = refl;
            stopped = inr (
              reason,
              subst (λ i. keeper.verify fork_index all i chain ≡ some reason) (sym same) refuses,
              ap (λ (i : ℕ). some (i, reason)) (sym same),
            );
          }
      next none accepts rest =
          let same : suc index + rest.count ≡ index + suc rest.count = omega arith in
          record {
            count = suc rest.count;
            verified = next_block accepts rest.verified;
            counted_work = rest.counted_work;
            stopped = elim rest.stopped [
              | inl (all_counted, nothing) ↦ inl (ap suc all_counted, nothing)
              | inr (reason, refuses, stops) ↦ inr (
                reason,
                subst (λ i. keeper.verify fork_index all i chain ≡ some reason) same refuses,
                stops ∙ ap (λ (i : ℕ). some (i, reason)) same,
              )
            ];
          }

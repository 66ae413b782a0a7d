-- ===== src/Organizer/Replace/Rounds.antt =====
-- replace_chain has no loop that may run out of rounds.
use libbitcoin.Prelude.{
  ℕ, suc, ◌+◌, ◌≡◌, ◌≢◌, ap, Bool, true, false, List, [], ◌∷◌, drop, Option, none, some, Result,
  Error, ok, err, assert, out_of_fuel, ◌>>=◌, if◌then◌else◌,
}
use libbitcoin.Openssl.{Openssl}
use libbitcoin.BigNumber.{big_le, set_uint32}
use libbitcoin.Organizer.Keeper.{ChainKeeper}
use libbitcoin.Organizer.Orphans.{OrphansPool, remove, erased_or_failed, erase_found}
use libbitcoin.Organizer.Replace.{
  Organizer, actual_blocks, clip_loop, verify_loop, clipped, arrive, switch_chain, replace_chain,
}
use libbitcoin.Validate.{ErrorCode}

-- A result of the code, and not of the model's rounds.
abbrev pub Runs {ℓ} : {A : Type ℓ} → Result A → Type ℓ
Runs {A = A} result = result ≢ err out_of_fuel

err-eq {ℓ} :
    {A : Type ℓ} {code other : Error} → ◌≡◌ {A = Result A} (err code) (err other) → code ≡ other
err-eq e = cc

pub >>=-Runs {ℓ κ} :
    {A : Type ℓ} {B : Type κ} (result : Result A) (next : A → Result B)
    → Runs result
    → ((a : A) → Runs (next a))
    → Runs (result >>= next)
>>=-Runs (ok a) next h k = k a
>>=-Runs (err code) next h k = λ e. h (ap err (err-eq e))

assert-Runs : (test : Bool) → Runs (assert test)
assert-Runs true = λ e. cc
assert-Runs false = λ e. cc

remove-Runs : (pool : OrphansPool) (pointer : ℕ) → Runs (remove pool pointer)
unfolding remove erased_or_failed
remove-Runs pool pointer = failed (erase_found pool.blocks pointer)
  where
    failed : (erased : Option (List ℕ)) → Runs (erased_or_failed pool erased)
    failed none = λ e. cc
    failed (some blocks) = λ e. cc

module _ {o : Openssl} (keeper : ChainKeeper o) where
  clip_loop-Runs :
      (pointers : List ℕ) (reason : ErrorCode) (organizer : Organizer keeper)
      → Runs (clip_loop keeper pointers reason organizer)
  unfolding clip_loop
  clip_loop-Runs [] reason organizer = λ e. cc
  clip_loop-Runs (p ∷ pointers) reason organizer =
      >>=-Runs (remove organizer.orphans p) _ (remove-Runs organizer.orphans p)
        (λ orphans. clip_loop-Runs pointers ErrorCode.previous_block_invalid _)

  clipped-Runs :
      (orphan_chain : List ℕ) (result : Option (ℕ × ErrorCode)) (organizer : Organizer keeper)
      → Runs (clipped keeper orphan_chain result organizer)
  unfolding clipped
  clipped-Runs orphan_chain none organizer = λ e. cc
  clipped-Runs orphan_chain (some (index, reason)) organizer =
      >>=-Runs (clip_loop keeper (drop index orphan_chain) reason organizer) _
        (clip_loop-Runs (drop index orphan_chain) reason organizer) (λ after e. cc)

  arrive-Runs :
      (pointers : List ℕ) (arrival_index : ℕ) (organizer : Organizer keeper)
      → Runs (arrive keeper pointers arrival_index organizer)
  unfolding arrive
  arrive-Runs [] arrival_index organizer = λ e. cc
  arrive-Runs (p ∷ pointers) arrival_index organizer =
      >>=-Runs (remove organizer.orphans p) _ (remove-Runs organizer.orphans p)
        (λ orphans. arrive-Runs pointers (suc arrival_index) _)

  switch_chain-Runs :
      (fork_index : ℕ) (orphan_chain : List ℕ) (organizer : Organizer keeper)
      → Runs (switch_chain keeper fork_index orphan_chain organizer)
  unfolding switch_chain
  switch_chain-Runs fork_index orphan_chain organizer =
      >>=-Runs (assert (keeper.end_slice (fork_index + 1) organizer.chain).0) _ (assert-Runs _)
        (λ _.
          >>=-Runs (arrive keeper orphan_chain fork_index _) _
            (arrive-Runs orphan_chain fork_index _) (λ arrived e. cc))

  chosen-Runs :
      (test : Bool) (stays : Organizer keeper) (switches : Result (Organizer keeper))
      → Runs switches
      → Runs (if test then ok stays else switches)
  chosen-Runs true stays switches h = λ e. cc
  chosen-Runs false stays switches h = h

  pub replace_chain-Runs :
      (fork_index : ℕ) (orphan_chain : List ℕ) (organizer : Organizer keeper)
      → Runs (replace_chain keeper fork_index orphan_chain organizer)
  unfolding replace_chain
  replace_chain-Runs fork_index orphan_chain organizer =
      let all = actual_blocks organizer.heap orphan_chain in
      let verified = verify_loop keeper fork_index all 0 all organizer.chain (set_uint32 o 0) in
      >>=-Runs (clipped keeper orphan_chain verified.1 organizer) _
        (clipped-Runs orphan_chain verified.1 organizer)
        (λ left.
          chosen-Runs
            (big_le o verified.0 (keeper.end_slice_difficulty (fork_index + 1) left.1.chain)) left.1
            _ (switch_chain-Runs fork_index left.0 left.1))

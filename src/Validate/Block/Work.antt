-- ===== src/Validate/Block/Work.antt =====
-- check_proof_of_work and work_required of src/validate.cpp, and max_target of src/constants.cpp.
use libbitcoin.Prelude.{
  ℕ, ◌*◌, ◌/◌, ◌%◌, Bool, true, false, not, ◌||◌, List, ltb, ◌==◌, if◌then◌else◌,
}
use libbitcoin.Openssl.{Openssl}
use libbitcoin.BigNumber.{set_compact, set_hash, set_uint32, compact_of, big_le}
use libbitcoin.Constants.{max_bits, target_timespan, readjustment_interval}
use libbitcoin.Validate.Block.{BlockContext}

unfoldable pub range_constraint : ℕ → ℕ → ℕ → ℕ
range_constraint value minimum maximum =
    if ltb value minimum then minimum else if ltb maximum value then maximum else value

module _ (o : Openssl) where
  unfoldable pub max_target : o.Bignum
  max_target = set_compact o max_bits

  -- `a > b`.
  unfoldable pub big_gt : o.Bignum → o.Bignum → Bool
  big_gt a b = not (big_le o a b)

  unfoldable pub check_proof_of_work : List ℕ → ℕ → Bool
  unfolding big_gt max_target
  check_proof_of_work block_hash bits =
      let target = set_compact o bits in
      if big_le o target (set_uint32 o 0) || big_gt target max_target
      then false
      else if big_gt (set_hash o block_hash) target
      then false
      else true

  -- The quotient by `target_timespan` of the last target times the timespan, at most max_target. Both
  -- factors are converted to a big_number from a uint32_t.
  unfoldable pub retargeted : ℕ → ℕ → o.Bignum
  unfolding big_gt max_target
  retargeted bits actual =
      let retarget =
        (o.bn_div (o.bn_mul (set_compact o bits) (set_uint32 o actual))
          (set_uint32 o target_timespan)).0 in
      if big_gt retarget max_target then max_target else retarget

  unfoldable pub work_required : BlockContext → ℕ → ℕ
  unfolding range_constraint retargeted
  work_required context depth =
      if depth == 0
      then max_bits
      else if not (depth % readjustment_interval == 0)
      then context.previous_block_bits
      else compact_of o (
          retargeted context.previous_block_bits (
            range_constraint (context.actual_timespan readjustment_interval) (target_timespan / 4)
              (target_timespan * 4)))

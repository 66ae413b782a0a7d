-- ===== src/Validate/Block/Retarget.antt =====
-- How far work_required moves the target, over what OpenSSL documents of numbers that are not negative.
use native.Mathlib.Nat.{mul-le-mul_left}
use libbitcoin.Prelude.{
  arith, ℕ, ◌*◌, ◌/◌, ◌%◌, ◌^◌, ◌≤◌, ◌<◌, ◌≡◌, ◌≢◌, refl, Bool, true, false, not, leb,
  if◌then◌else◌, leb→le, sym, ◌∙◌, ltb, Bool-cases, ◌⊎◌, inl, inr,
}
use libbitcoin.Openssl.{Openssl}
use libbitcoin.BigNumber.{set_compact, set_uint32, compact_of, big_le}
use libbitcoin.Constants.{target_timespan, readjustment_interval}
use libbitcoin.Validate.Block.{BlockContext}
use libbitcoin.Validate.Block.Work.{range_constraint, max_target, retargeted, work_required}

-- BN_set_word, BN_mul, BN_div and BN_cmp on numbers that are not negative.
pub record BignumLaws (o : Openssl) : Type 0 where
  pub magnitude : o.Bignum → ℕ
  pub set_word :
      (word : ℕ)
      → word < 2 ^ 32
      → (o.bn_is_negative (o.bn_set_word word) ≡ false) × (magnitude (o.bn_set_word word) ≡ word)
  pub mul :
      (a b : o.Bignum)
      → o.bn_is_negative a ≡ false
      → o.bn_is_negative b ≡ false
      → (o.bn_is_negative (o.bn_mul a b) ≡ false)
        × (magnitude (o.bn_mul a b) ≡ magnitude a * magnitude b)
  pub div :
      (a b : o.Bignum)
      → o.bn_is_negative a ≡ false
      → o.bn_is_negative b ≡ false
      → 0 < magnitude b
      → (o.bn_is_negative (o.bn_div a b).0 ≡ false)
        × (magnitude (o.bn_div a b).0 ≡ magnitude a / magnitude b)
  pub cmp :
      (a b : o.Bignum)
      → o.bn_is_negative a ≡ false
      → o.bn_is_negative b ≡ false
      → big_le o a b ≡ leb (magnitude a) (magnitude b)

range_constraint_bounds :
    (value minimum maximum : ℕ)
    → minimum ≤ maximum
    → (minimum ≤ range_constraint value minimum maximum)
      × (range_constraint value minimum maximum ≤ maximum)
unfolding range_constraint
range_constraint_bounds value minimum maximum h = ground arith

quotient_bounds :
    (target actual : ℕ)
    → 302400 ≤ actual
    → actual ≤ 4838400
    → (target / 4 ≤ target * actual / 1209600) × (target * actual / 1209600 ≤ target * 4)
quotient_bounds target actual low high =
    let below : target * 302400 ≤ target * actual = mul-le-mul_left target low in
    let above : target * actual ≤ target * 4838400 = mul-le-mul_left target high in
    (omega (arith, below), omega (arith, above))

-- The choice between the quotient and the limit.
limited {ℓ} :
    {N : Type ℓ} (magnitude : N → ℕ) (quotient limit : N) (over : Bool) (target : ℕ)
    → over ≡ leb (magnitude quotient) (magnitude limit)
    → target / 4 ≤ magnitude quotient
    → magnitude quotient ≤ target * 4
    → (magnitude (if not over then limit else quotient) ≤ magnitude limit)
      × (magnitude (if not over then limit else quotient) ≤ target * 4)
      × ((magnitude limit < target)
          ⊎ (target / 4 ≤ magnitude (if not over then limit else quotient)))
limited magnitude quotient limit true target e low high = (leb→le _ _ (sym e), high, inr low)
limited magnitude quotient limit false target e low high = (
  omega arith,
  ground (arith, e),
  elim (Bool-cases (ltb (magnitude limit) target)) [
    | inl above ↦ inl (ground (arith, above))
    | inr below ↦ inr (ground (arith, below))
  ],
)

module _ (o : Openssl) (laws : BignumLaws o) where
  open laws use {magnitude}

  retargeted_bounds :
      (bits actual : ℕ)
      → o.bn_is_negative (set_compact o bits) ≡ false
      → o.bn_is_negative (max_target o) ≡ false
      → 302400 ≤ actual
      → actual ≤ 4838400
      → (magnitude (retargeted o bits actual) ≤ magnitude (max_target o))
        × (magnitude (retargeted o bits actual) ≤ magnitude (set_compact o bits) * 4)
        × ((magnitude (max_target o) < magnitude (set_compact o bits))
            ⊎ (magnitude (set_compact o bits) / 4 ≤ magnitude (retargeted o bits actual)))
  unfolding retargeted set_uint32
  retargeted_bounds bits actual positive max_positive low high =
      let target = set_compact o bits in
      let (word_sign, word_value) = laws.set_word (actual % 2 ^ 32) (omega arith) in
      let (span_sign, span_value) = laws.set_word (target_timespan % 2 ^ 32) (omega arith) in
      let (product_sign, product_value) =
        laws.mul target (set_uint32 o actual) positive word_sign in
      let (quotient_sign, quotient_value) =
        laws.div (o.bn_mul target (set_uint32 o actual)) (set_uint32 o target_timespan) product_sign
          span_sign (omega (arith, span_value)) in
      let word : magnitude (set_uint32 o actual) ≡ actual = word_value ∙ omega arith in
      let same : magnitude
            (o.bn_div (o.bn_mul target (set_uint32 o actual)) (set_uint32 o target_timespan)).0
          ≡ magnitude target * actual / 1209600 =
        quotient_value ∙ rw (product_value, word, span_value) refl in
      let (below, above) = quotient_bounds (magnitude target) actual low high in
      limited magnitude
        (o.bn_div (o.bn_mul target (set_uint32 o actual)) (set_uint32 o target_timespan)).0
        (max_target o) _ (magnitude target) (laws.cmp _ (max_target o) quotient_sign max_positive)
        (omega (arith, same, below)) (omega (arith, same, above))

  -- Every 2016 blocks the work asked for is the compact form of a target that is at most the highest one
  -- and at most four times the target before, and, unless that was above the highest, at least a quarter
  -- of it, whatever the timestamps are.
  pub work_required-bounds :
      (context : BlockContext) (depth : ℕ)
      → depth ≢ 0
      → depth % readjustment_interval ≡ 0
      → o.bn_is_negative (set_compact o context.previous_block_bits) ≡ false
      → o.bn_is_negative (max_target o) ≡ false
      → (target : o.Bignum) × (work_required o context depth ≡ compact_of o target)
        × (magnitude target ≤ magnitude (max_target o))
        × (magnitude target ≤ magnitude (set_compact o context.previous_block_bits) * 4)
        × ((magnitude (max_target o) < magnitude (set_compact o context.previous_block_bits))
            ⊎ (magnitude (set_compact o context.previous_block_bits) / 4 ≤ magnitude target))
  unfolding work_required
  work_required-bounds context depth later due positive max_positive =
      let actual =
        range_constraint (context.actual_timespan readjustment_interval) (target_timespan / 4)
          (target_timespan * 4) in
      let (low, high) =
        range_constraint_bounds (context.actual_timespan readjustment_interval) 302400 4838400
          (omega arith) in
      let (highest, at_most, at_least) =
        retargeted_bounds context.previous_block_bits actual positive max_positive low high in
      (
        retargeted o context.previous_block_bits actual,
        ground (arith, later, due),
        highest,
        at_most,
        at_least,
      )

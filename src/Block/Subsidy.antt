-- ===== src/Block/Subsidy.antt =====
-- The subsidies of block_value and their sum, and the rounds of max_money_recursive.
use native.Mathlib.Nat.{div-add-mod', mod-lt, pow-suc, lt_of_mul-lt-mul_left, mul-le-mul_right}
use libbitcoin.Prelude.{
  arith, ℕ, zero, suc, ◌+◌, ◌*◌, ◌/◌, ◌^◌, ◌≤◌, ◌<◌, ◌-◌, ◌%◌, ltb, ltb→lt, lt→ltb, Bool-cases, ◌≡◌,
  refl, subst, ap, ◌∙◌, ◌⊎◌, inl, inr, none, some,
}
use libbitcoin.Constants.{max_money, max_money_recursive}
use libbitcoin.Block.{block_value}

pow_positive : (k : ℕ) → 0 < 2 ^ k
pow_positive zero = omega arith
pow_positive (suc k) = omega (arith, pow-suc 2 k, pow_positive k)

floors : (a b : ℕ) → 0 < b → (a / b * b ≤ a) × (a < (a / b + 1) * b)
floors a b h =
    let parts = div-add-mod' a b in
    let low = mod-lt a h in
    let next : (a / b + 1) * b ≡ a / b * b + b = grind arith in
    (omega (arith, parts), omega (arith, parts, low, next))

-- From depth 13440000 on the shift has 64 places or more and is undefined.
block_value-undefined : (depth : ℕ) → 13440000 ≤ depth → block_value depth ≡ none
unfolding block_value
block_value-undefined depth h = ground arith

-- Rounds of max_money_recursive beyond the bits of `current` change nothing, since `current` is 0 by
-- then, and the sum is at most twice `current`.
max_money_recursive-fuel :
    (fuel more current : ℕ)
    → current < 2 ^ fuel
    → fuel ≤ more
    → (max_money_recursive more current ≡ max_money_recursive fuel current)
      × (max_money_recursive fuel current ≤ current * 2)
unfolding max_money_recursive
max_money_recursive-fuel zero zero current h k = (refl, omega arith)
max_money_recursive-fuel zero (suc more) current h k = (ground arith, omega arith)
max_money_recursive-fuel (suc fuel) zero current h k = omega arith
max_money_recursive-fuel (suc fuel) (suc more) current h k =
    let (same, bound) =
      max_money_recursive-fuel fuel more (current / 2) (omega (arith, pow-suc 2 fuel))
        (omega arith) in
    (ground arith, ground arith)

max_money_recursive-zero : (fuel : ℕ) → max_money_recursive fuel 0 ≡ 0
unfolding max_money_recursive
max_money_recursive-zero zero = refl
max_money_recursive-zero (suc fuel) = refl

max_money_recursive-suc :
    (fuel current : ℕ)
    → max_money_recursive (suc fuel) current ≡ current + max_money_recursive fuel (current / 2)
unfolding max_money_recursive
max_money_recursive-suc fuel zero = omega (arith, max_money_recursive-zero fuel)
max_money_recursive-suc fuel (suc current) = ground arith

-- Halving once more.
halved : (a k : ℕ) → a / 2 ^ k / 2 ≡ a / 2 ^ suc k
halved a k =
    let (low, high) = floors a (2 ^ k) (pow_positive k) in
    let (low_next, high_next) = floors a (2 ^ suc k) (pow_positive (suc k)) in
    let q = a / 2 ^ k in
    let r = a / 2 ^ suc k in
    let twice : r * 2 ^ suc k ≡ 2 ^ k * (2 * r) =
      ap (λ (n : ℕ). r * n) (pow-suc 2 k) ∙ grind arith in
    let twice_next : (r + 1) * 2 ^ suc k ≡ 2 ^ k * (2 * r + 2) =
      ap (λ (n : ℕ). (r + 1) * n) (pow-suc 2 k) ∙ grind arith in
    let up : (q + 1) * 2 ^ k ≡ 2 ^ k * (q + 1) = grind arith in
    let down : q * 2 ^ k ≡ 2 ^ k * q = grind arith in
    let above : 2 * r < q + 1 =
      lt_of_mul-lt-mul_left (2 ^ k) (omega (arith, low_next, high, twice, up)) in
    let below : q < 2 * r + 2 =
      lt_of_mul-lt-mul_left (2 ^ k) (omega (arith, low, high_next, twice_next, down)) in
    omega (arith, above, below)

-- The subsidy after k halvings, and the sum of it and those after it, in max_money_recursive's own words.
abbrev subsidy_after : ℕ → ℕ
subsidy_after k = 5000000000 / 2 ^ k

abbrev rest_after : ℕ → ℕ
rest_after k = max_money_recursive (64 - k) (subsidy_after k)

rest_after-suc : (k : ℕ) → k < 64 → rest_after k ≡ subsidy_after k + rest_after (suc k)
rest_after-suc k h =
    let rounds : 64 - k ≡ suc (64 - suc k) = omega arith in
    ap (λ (n : ℕ). max_money_recursive n (subsidy_after k)) rounds
    ∙ max_money_recursive-suc (64 - suc k) (subsidy_after k)
    ∙ ap (λ (c : ℕ). subsidy_after k + max_money_recursive (64 - suc k) c) (halved 5000000000 k)

-- The subsidies of the blocks below a depth and their sum.
pub data Issued : ℕ → ℕ → Type 0 where
  none_issued : Issued 0 0
  next_issued :
      {depth total value : ℕ}
      → Issued depth total
      → block_value depth ≡ some value
      → Issued (suc depth) (total + value)

block_value-below :
    (depth : ℕ) → depth < 13440000 → block_value depth ≡ some (subsidy_after (depth / 210000))
unfolding block_value
block_value-below depth h = rw (lt→ltb (depth / 210000) 64 (omega arith)) refl

-- A block's subsidy moves from what is left of its interval to what is issued.
moved :
    (depth total : ℕ)
    → depth < 13440000
    → total + 210000 * rest_after (depth / 210000)
      ≡ max_money + depth % 210000 * subsidy_after (depth / 210000)
    → total + subsidy_after (depth / 210000) + 210000 * rest_after (suc depth / 210000)
      ≡ max_money + suc depth % 210000 * subsidy_after (suc depth / 210000)
moved depth total h e = elim (Bool-cases (ltb (depth % 210000 + 1) 210000)) [
  | inl inside ↦
      let within = ltb→lt (depth % 210000 + 1) 210000 inside in
      let same : suc depth / 210000 ≡ depth / 210000 = omega (arith, within) in
      let further : suc depth % 210000 ≡ depth % 210000 + 1 = omega (arith, within) in
      rw (same, further) (grind (arith, e))
  | inr outside ↦
      let last : depth % 210000 ≡ 209999 = ground (arith, outside) in
      let next : suc depth / 210000 ≡ suc (depth / 210000) = omega (arith, last) in
      let anew : suc depth % 210000 ≡ 0 = omega (arith, last) in
      let rest = rest_after-suc (depth / 210000) (omega arith) in
      rw (next, anew)
        (omega (
          arith,
          rest,
          subst
              (λ (n : ℕ).
                total + 210000 * rest_after (depth / 210000)
                ≡ max_money + n * subsidy_after (depth / 210000))
              last e,
        ))
]

issued :
    (depth : ℕ)
    → depth ≤ 13440000
    → (total : ℕ) × Issued depth total
      × (total + 210000 * rest_after (depth / 210000)
          ≡ max_money + depth % 210000 * subsidy_after (depth / 210000))
issued zero h = (0, none_issued, (unfold max_money in refl))
issued (suc depth) h =
    let (total, before, e) = issued depth (omega arith) in
    (
      total + subsidy_after (depth / 210000),
      next_issued before (block_value-below depth (omega arith)),
      moved depth total (omega arith) e,
    )

none_left :
    (total : ℕ)
    → total + 210000 * rest_after 64 ≡ max_money + 0 * subsidy_after 64
    → total ≡ max_money
none_left total e =
    let nothing : rest_after 64 ≡ 0 = unfold max_money_recursive in refl in
    omega (arith, nothing, e)

-- Up to depth 13440000 the blocks below a depth have subsidies that together are at most max_money, the
-- bound of every output and input that the checks use, and at that depth they are all of it.
pub block_value-max_money :
    (depth : ℕ)
    → depth ≤ 13440000
    → (total : ℕ) × Issued depth total
      × (total ≤ max_money)
      × ((depth < 13440000) ⊎ (total ≡ max_money))
block_value-max_money depth h =
    let (total, sum, e) = issued depth h in
    elim (Bool-cases (ltb depth 13440000)) [
      | inl early ↦
          let below = ltb→lt depth 13440000 early in
          let rest = rest_after-suc (depth / 210000) (omega arith) in
          let part : depth % 210000 * subsidy_after (depth / 210000)
              ≤ 210000 * subsidy_after (depth / 210000) =
            mul-le-mul_right (subsidy_after (depth / 210000)) (omega arith) in
          (total, sum, omega (arith, e, rest, part), inl below)
      | inr late ↦
          let last : depth ≡ 13440000 = ground (arith, late) in
          let all : total ≡ max_money = none_left total (
            subst
              (λ (n : ℕ).
                total + 210000 * rest_after (n / 210000)
                ≡ max_money + n % 210000 * subsidy_after (n / 210000))
              last e) in
          (total, sum, omega (arith, all), inr all)
    ]

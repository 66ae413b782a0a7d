-- ===== src/Block/Locator.antt =====
-- The indexes of block_locator_indexes: their order, their bounds and their number.
use libbitcoin.Prelude.{
  arith, ℕ, zero, suc, ◌+◌, ◌-◌, ◌*◌, ◌^◌, ◌≤◌, ◌<◌, false, List, [], ◌∷◌, ◌++◌, length,
  length-append, All, leb, leb→le, Bool-cases, inl, inr, ◌≡◌, refl, ap, ◌∙◌, get_elem?, some,
}
use native.Mathlib.Nat.{pow-suc}
use libbitcoin.Block.{advanced, locator_loop, block_locator_indexes}

-- Each number is less than the one before it, the first less than the bound.
abbrev pub Descends : ℕ → List ℕ → Type 0
Descends bound [] = Unit {0}
Descends bound (n ∷ ns) = (n < bound) × Descends n ns

Descends-append :
    (bound : ℕ) (ns : List ℕ)
    → 0 < bound
    → Descends bound ns
    → All (λ n. 0 < n) ns
    → Descends bound (ns ++ 0 ∷ [])
Descends-append bound [] h d p = (h, tt)
Descends-append bound (n ∷ ns) h d p = (d.0, Descends-append n ns p.0 d.1 p.1)

Descends-weaken : (a b : ℕ) (ns : List ℕ) → a ≤ b → Descends a ns → Descends b ns
Descends-weaken a b [] h d = tt
Descends-weaken a b (n ∷ ns) h d = (omega (arith, h, d.0), d.1)

locator_loop-suc :
    (fuel i step start : ℕ)
    → locator_loop (suc fuel) (suc i) step start
      ≡ suc i ∷ locator_loop fuel (suc i - advanced step start) (advanced step start) (suc start)
unfolding locator_loop
locator_loop-suc fuel i step start = ground arith

advanced-positive : (step start : ℕ) → 0 < step → 0 < advanced step start
unfolding advanced
advanced-positive step start h = ground arith

locator_loop-All : (fuel i step start : ℕ) → All (λ n. 0 < n) (locator_loop fuel i step start)
unfolding locator_loop
locator_loop-All zero i step start = tt
locator_loop-All (suc fuel) zero step start = tt
locator_loop-All (suc fuel) (suc i) step start = rw (locator_loop-suc fuel i step start) (
  omega arith,
  locator_loop-All fuel (suc i - advanced step start) (advanced step start) (suc start),
)

locator_loop-Descends :
    (fuel i step start : ℕ) → 0 < step → Descends (i + 1) (locator_loop fuel i step start)
unfolding locator_loop
locator_loop-Descends zero i step start h = tt
locator_loop-Descends (suc fuel) zero step start h = tt
locator_loop-Descends (suc fuel) (suc i) step start h =
    let next = advanced step start in
    let positive = advanced-positive step start h in
    rw (locator_loop-suc fuel i step start) (
      omega arith,
      Descends-weaken (suc i - next + 1) (suc i) (locator_loop fuel (suc i - next) next (suc start))
          (omega (arith, positive))
          (locator_loop-Descends fuel (suc i - next) next (suc start) positive),
    )

locator_loop-zero : (fuel step start : ℕ) → locator_loop fuel 0 step start ≡ []
unfolding locator_loop
locator_loop-zero zero step start = refl
locator_loop-zero (suc fuel) step start = refl

advanced-doubles : (step start : ℕ) → 10 ≤ start → advanced step start ≡ step * 2
unfolding advanced
advanced-doubles step start h = ground arith

doubled_bound : (i step k : ℕ) → i < step * 2 ^ suc k → i - step * 2 < step * 2 * 2 ^ k
doubled_bound i step k h =
    let shifted : step * 2 ^ suc k ≡ step * 2 * 2 ^ k = grind (arith, pow-suc 2 k) in
    omega (arith, h, shifted)

-- The rounds once the steps double.
length-doubling :
    (fuel k i step start : ℕ)
    → 10 ≤ start
    → i < step * 2 ^ k
    → length (locator_loop fuel i step start) ≤ k + 1
unfolding locator_loop
length-doubling zero k i step start h b = omega arith
length-doubling (suc fuel) k zero step start h b = omega arith
length-doubling (suc fuel) zero (suc i) step start h b = rw (locator_loop-suc fuel i step start) (
    let ends : suc i - advanced step start ≡ 0 = omega (arith, advanced-doubles step start h, b) in
    rw (ends, locator_loop-zero fuel (advanced step start) (suc start)) (omega arith))
length-doubling (suc fuel) (suc k) (suc i) step start h b =
    let next = advanced step start in
    let less : suc i - next < next * 2 ^ k =
      rw (advanced-doubles step start h) (doubled_bound (suc i) step k b) in
    let rest = length-doubling fuel k (suc i - next) next (suc start) (omega arith) less in
    rw (locator_loop-suc fuel i step start) (omega (arith, rest))

advanced-stays : (step start : ℕ) → leb 10 start ≡ false → advanced step start ≡ step
unfolding advanced
advanced-stays step start h = rw h refl

-- The ten rounds before.
length-single :
    (left fuel k i start : ℕ)
    → 10 ≤ start + left
    → i < 2 ^ k
    → length (locator_loop fuel i 1 start) ≤ left + k + 1
unfolding locator_loop
length-single zero fuel k i start h b =
    omega (arith, length-doubling fuel k i 1 start (omega arith) (omega arith))
length-single (suc left) zero k i start h b = omega arith
length-single (suc left) (suc fuel) k zero start h b = omega arith
length-single (suc left) (suc fuel) k (suc i) start h b = elim (Bool-cases (leb 10 start)) [
  | inl late ↦
      omega
        (arith, length-doubling (suc fuel) k (suc i) 1 start (leb→le 10 start late) (omega arith))
  | inr early ↦
      let rest = length-single left fuel k i (suc start) (omega arith) (omega arith) in
      rw (locator_loop-suc fuel i 1 start, advanced-stays 1 start early)
        (let same : suc i - 1 ≡ i = omega arith in rw same (omega (arith, rest)))
]

-- A list starts with the top depth and ends in 0.
pub record Spans (top_depth : ℕ) (indexes : List ℕ) : Type 0 where
  pub rest : List ℕ
  pub front : List ℕ
  pub starts : indexes ≡ top_depth ∷ rest
  pub ends : indexes ≡ front ++ 0 ∷ []

block_locator_indexes-Spans : (top_depth : ℕ) → Spans top_depth (block_locator_indexes top_depth)
unfolding block_locator_indexes locator_loop
block_locator_indexes-Spans zero = record { rest = []; front = []; starts = refl; ends = refl }
block_locator_indexes-Spans (suc top) = record {
  rest = locator_loop top (suc top - advanced 1 0) (advanced 1 0) 1 ++ 0 ∷ [];
  front = locator_loop (suc top) (suc top) 1 0;
  starts = ap (λ indexes. indexes ++ 0 ∷ []) (locator_loop-suc top top 1 0);
  ends = refl;
}

-- Before the steps double, each index is one less than the one before it.
get_elem?-locator_loop :
    (fuel i start position : ℕ)
    → start + position ≤ 10
    → position ≤ i
    → i ≤ fuel
    → get_elem? (locator_loop fuel i 1 start ++ 0 ∷ []) position ≡ some (i - position)
unfolding locator_loop
get_elem?-locator_loop zero zero start zero h k l = refl
get_elem?-locator_loop zero (suc i) start position h k l = absurd (omega arith)
get_elem?-locator_loop zero zero start (suc position) h k l = absurd (omega arith)
get_elem?-locator_loop (suc fuel) zero start zero h k l = refl
get_elem?-locator_loop (suc fuel) zero start (suc position) h k l = absurd (omega arith)
get_elem?-locator_loop (suc fuel) (suc i) start zero h k l =
    let whole : suc i ≡ suc i - 0 = omega arith in
    rw (locator_loop-suc fuel i 1 start) (ap some whole)
get_elem?-locator_loop (suc fuel) (suc i) start (suc position) h k l =
    let early : leb 10 start ≡ false = ground arith in
    let same : suc i - 1 ≡ i = omega arith in
    let less : i - position ≡ suc i - suc position = omega arith in
    rw (locator_loop-suc fuel i 1 start, advanced-stays 1 start early, same)
      (get_elem?-locator_loop fuel i (suc start) position (omega arith) (omega arith) (omega arith)
        ∙ ap some less)

-- The indexes of a block locator start with the top depth, descend to 0, which is the last, and go down
-- one by one for the first eleven; for a top depth below 2^k there are at most k + 12 of them.
pub block_locator_indexes-Descends :
    (top_depth k position : ℕ)
    → top_depth < 2 ^ k
    → position ≤ 10
    → position ≤ top_depth
    → Spans top_depth (block_locator_indexes top_depth)
      × Descends (top_depth + 1) (block_locator_indexes top_depth)
      × (get_elem? (block_locator_indexes top_depth) position ≡ some (top_depth - position))
      × (length (block_locator_indexes top_depth) ≤ k + 12)
unfolding block_locator_indexes
block_locator_indexes-Descends top_depth k position h p q = (
  block_locator_indexes-Spans top_depth,
  Descends-append (top_depth + 1) (locator_loop top_depth top_depth 1 0) (omega arith)
      (locator_loop-Descends top_depth top_depth 1 0 (omega arith))
      (locator_loop-All top_depth top_depth 1 0),
  get_elem?-locator_loop top_depth top_depth 0 position (omega arith) q (omega arith),
  omega (
    arith,
    length-append (locator_loop top_depth top_depth 1 0) (0 ∷ []),
    length-single 10 top_depth k top_depth 0 (omega arith) h,
  ),
)

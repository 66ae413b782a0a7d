-- ===== src/Organizer/Orphans/Trace.antt =====
-- What orphans_pool::trace returns, and that it returns.
use libbitcoin.Prelude.{
  arith, ℕ, zero, suc, ◌<◌, ◌≡◌, refl, sym, subst, ap, inl, inr, List, [], ◌∷◌, All, chunk_eq,
  chunk_eq→eq, Bool-cases, Option, none, some, ok, ok-eq,
}
use libbitcoin.Organizer.{Heap}
use libbitcoin.Organizer.Orphans.{OrphansPool, find_hash, previous_hash, trace_loop, trace}

-- A pointer of a list.
pub data IsIn (pointer : ℕ) : List ℕ → Type 0 where
  here : {pointers : List ℕ} → IsIn pointer (pointer ∷ pointers)
  later : {p : ℕ} {pointers : List ℕ} → IsIn pointer pointers → IsIn pointer (p ∷ pointers)

module _ (heap : Heap) where
  abbrev pub hash_of : ℕ → List ℕ
  hash_of pointer = (heap.detail pointer).block_hash

  find_hash-IsIn :
      (blocks : List ℕ) (hash : List ℕ) {found : ℕ}
      → find_hash heap blocks hash ≡ some found
      → IsIn found blocks × (hash_of found ≡ hash)
  unfolding find_hash
  find_hash-IsIn [] hash e = cc
  find_hash-IsIn (p ∷ blocks) hash {found = found} e =
      elim (Bool-cases (chunk_eq (heap.detail p).block_hash hash)) [
        | inl equal ↦
            let same : p ≡ found = some-eq (rw equal at e) in
            subst (λ q. IsIn q (p ∷ blocks) × (hash_of q ≡ hash)) same
              (here, chunk_eq→eq (hash_of p) hash equal)
        | inr differs ↦
            let (inside, equal) = find_hash-IsIn blocks hash (rw differs at e) in
            (later inside, equal)
      ]
    where
      some-eq : {a b : ℕ} → ◌≡◌ {A = Option ℕ} (some a) (some b) → a ≡ b
      some-eq h = cc

  -- From a block of the pool each time to the block that names it as the one before, up to the last.
  pub data Chained (blocks : List ℕ) (end_block : ℕ) : List ℕ → Type 0 where
    ends : Chained blocks end_block (end_block ∷ [])
    linked :
        {p next : ℕ} {rest : List ℕ}
        → IsIn p blocks
        → previous_hash heap next ≡ hash_of p
        → Chained blocks end_block (next ∷ rest)
        → Chained blocks end_block (p ∷ next ∷ rest)

  pub record IsTraced (blocks : List ℕ) (end_block : ℕ) (chain : List ℕ) : Type 0 where
    pub first : ℕ
    pub rest : List ℕ
    pub is_cons : chain ≡ first ∷ rest
    pub chained : Chained blocks end_block (first ∷ rest)
    pub parentless : find_hash heap blocks (previous_hash heap first) ≡ none

  trace_loop-IsTraced :
      (fuel : ℕ) (blocks : List ℕ) (back end_block : ℕ) (rest : List ℕ) {chain : List ℕ}
      → Chained blocks end_block (back ∷ rest)
      → trace_loop fuel heap blocks back rest ≡ ok chain
      → IsTraced blocks end_block chain
  unfolding trace_loop
  trace_loop-IsTraced zero blocks back end_block rest chained e = cc
  trace_loop-IsTraced (suc fuel) blocks back end_block rest {chain = chain} chained e =
      next (find_hash heap blocks (previous_hash heap back)) refl e
        (λ p. trace_loop-IsTraced fuel blocks p end_block (back ∷ rest))
    where
      next :
          (found : Option ℕ)
          → find_hash heap blocks (previous_hash heap back) ≡ found
          → (elim found [
            | none ↦ ok (back ∷ rest)
            | some current_block ↦ trace_loop fuel heap blocks current_block (back ∷ rest)
          ])
            ≡ ok chain
          → ((p : ℕ)
              → Chained blocks end_block (p ∷ back ∷ rest)
              → trace_loop fuel heap blocks p (back ∷ rest) ≡ ok chain
              → IsTraced blocks end_block chain)
          → IsTraced blocks end_block chain
      next none nothing e again = record {
        first = back;
        rest = rest;
        is_cons = sym (ok-eq e);
        chained = chained;
        parentless = nothing;
      }
      next (some p) found e again =
          let (inside, equal) = find_hash-IsIn blocks (previous_hash heap back) found in
          again p (linked inside (sym equal) chained) e

  -- The chain that trace returns ends with the given block; each of its blocks is named by the next as the
  -- one before, and all but the last are blocks of the pool; and no block of the pool is the one before
  -- the first.
  pub trace-IsTraced :
      (fuel : ℕ) (pool : OrphansPool) (end_block : ℕ) {chain : List ℕ}
      → trace fuel heap pool end_block ≡ ok chain
      → IsTraced pool.blocks end_block chain
  unfolding trace
  trace-IsTraced fuel pool end_block e =
      trace_loop-IsTraced fuel pool.blocks end_block end_block [] ends e

  -- Every block of the pool has a block before it that is lower.
  abbrev pub Lower : (List ℕ → ℕ) → List ℕ → Type 0
  Lower height = All (λ p. height (previous_hash heap p) < height (hash_of p))

  IsIn-Lower :
      (height : List ℕ → ℕ) {p : ℕ} {blocks : List ℕ}
      → IsIn p blocks
      → Lower height blocks
      → height (previous_hash heap p) < height (hash_of p)
  IsIn-Lower height here h = h.0
  IsIn-Lower height (later inside) h = IsIn-Lower height inside h.1

  trace_loop-ends :
      (height : List ℕ → ℕ) (fuel : ℕ) (blocks : List ℕ) (back : ℕ) (rest : List ℕ)
      → Lower height blocks
      → height (previous_hash heap back) < fuel
      → (chain : List ℕ) × (trace_loop fuel heap blocks back rest ≡ ok chain)
  unfolding trace_loop
  trace_loop-ends height zero blocks back rest lower h = absurd (omega arith)
  trace_loop-ends height (suc fuel) blocks back rest lower h =
      next (find_hash heap blocks (previous_hash heap back)) refl
        (λ p. trace_loop-ends height fuel blocks p (back ∷ rest) lower)
    where
      next :
          (found : Option ℕ)
          → find_hash heap blocks (previous_hash heap back) ≡ found
          → ((p : ℕ)
              → height (previous_hash heap p) < fuel
              → (chain : List ℕ) × (trace_loop fuel heap blocks p (back ∷ rest) ≡ ok chain))
          → (chain : List ℕ) × ((elim found [
            | none ↦ ok (back ∷ rest)
            | some current_block ↦ trace_loop fuel heap blocks current_block (back ∷ rest)
          ])
              ≡ ok chain)
      next none nothing again = (back ∷ rest, refl)
      next (some p) found again =
          let (inside, equal) = find_hash-IsIn blocks (previous_hash heap back) found in
          again p (omega (arith, IsIn-Lower height inside lower, ap height equal))

  -- Where the blocks of the pool have heights, each above that of the block before it, the loop of
  -- trace ends within as many rounds as the height below the end block, and one.
  pub trace-ends :
      (height : List ℕ → ℕ) (fuel : ℕ) (pool : OrphansPool) (end_block : ℕ)
      → Lower height pool.blocks
      → height (previous_hash heap end_block) < fuel
      → (chain : List ℕ) × (trace fuel heap pool end_block ≡ ok chain)
  unfolding trace
  trace-ends height fuel pool end_block lower h =
      trace_loop-ends height fuel pool.blocks end_block [] lower h

-- ===== src/Session/Grabbed/Items.antt =====
-- The items of a pumpkin_buffer, where an item is appended to them or overwrites one.
use libbitcoin.Prelude.{
  arith, ℕ, zero, suc, ◌<◌, ◌≡◌, ◌≢◌, refl, sym, ap, ◌∙◌, Bool, true, false, not, ◌&&◌, ◌||◌, List,
  [], ◌∷◌, ◌++◌, length, if◌then◌else◌, chunk_eq, chunk_eq_refl, chunk_eq→eq, Bool-cases, inl, inr,
  get_elem?, Option, some,
}
use libbitcoin.Validate.Block.Check.{contains}
use libbitcoin.Session.{set_at}

-- No two items are equal.
abbrev pub Distinct : List (List ℕ) → Type 0
Distinct [] = Unit {0}
Distinct (item ∷ items) = (contains items item ≡ false) × Distinct items

or_swap :
    (new other rest : Bool)
    → (if other then true else (new || rest)) ≡ (new || (if other then true else rest))
or_swap true true rest = refl
or_swap true false rest = refl
or_swap false true rest = refl
or_swap false false rest = refl

or_replaced :
    (new old rest : Bool)
    → (old ≡ true → rest ≡ false)
    → (if new then true else rest) ≡ (new || ((if old then true else rest) && not old))
or_replaced true old rest h = refl
or_replaced false true rest h = h refl
or_replaced false false true h = refl
or_replaced false false false h = refl

or_kept :
    (new other old rest : Bool)
    → (other ≡ true → old ≡ false)
    → (if other then true else (new || (rest && not old)))
      ≡ (new || ((if other then true else rest) && not old))
or_kept true true old rest h = refl
or_kept true false old rest h = refl
or_kept false true old rest h = sym (ap not (h refl))
or_kept false false old rest h = refl

some-eq : {a b : List ℕ} → ◌≡◌ {A = Option (List ℕ)} (some a) (some b) → a ≡ b
some-eq e = cc

pub contains-append :
    (items : List (List ℕ)) (item hash : List ℕ)
    → contains (items ++ item ∷ []) hash ≡ (chunk_eq item hash || contains items hash)
unfolding contains
contains-append [] item hash = elim (Bool-cases (chunk_eq item hash)) [
  | inl same ↦ rw same refl
  | inr other ↦ rw other refl
]
contains-append (other ∷ items) item hash =
    ap (λ found. if chunk_eq other hash then true else found) (contains-append items item hash)
    ∙ or_swap (chunk_eq item hash) (chunk_eq other hash) (contains items hash)

pub contains-get_elem? :
    (items : List (List ℕ)) (index : ℕ) (item : List ℕ)
    → get_elem? items index ≡ some item
    → contains items item ≡ true
unfolding contains
contains-get_elem? [] index item e = cc
contains-get_elem? (other ∷ items) zero item e =
    let same : other ≡ item = some-eq e in
    rw (ap (λ first. chunk_eq first item) same ∙ chunk_eq_refl item) refl
contains-get_elem? (other ∷ items) (suc index) item e = elim (Bool-cases (chunk_eq other item)) [
  | inl same ↦ rw same refl
  | inr differs ↦ rw differs (contains-get_elem? items index item e)
]

true-ne-false : true ≢ false
true-ne-false h = cc

-- An item that is in a list is not equal to one that is not.
apart :
    (items : List (List ℕ)) (other old hash : List ℕ)
    → contains items other ≡ false
    → contains items old ≡ true
    → chunk_eq other hash ≡ true
    → chunk_eq old hash ≡ false
apart items other old hash absent inside e = elim (Bool-cases (chunk_eq old hash)) [
  | inl same ↦
      let equal : old ≡ other = chunk_eq→eq old hash same ∙ sym (chunk_eq→eq other hash e) in
      absurd (true-ne-false (sym inside ∙ ap (contains items) equal ∙ absent))
  | inr differs ↦ differs
]

pub contains-set_at :
    (index : ℕ) (items : List (List ℕ)) (old item hash : List ℕ)
    → Distinct items
    → get_elem? items index ≡ some old
    → contains (set_at index item items) hash
      ≡ (chunk_eq item hash || (contains items hash && not (chunk_eq old hash)))
unfolding contains set_at
contains-set_at index [] old item hash distinct e = cc
contains-set_at zero (other ∷ items) old item hash distinct e =
    or_replaced (chunk_eq item hash) (chunk_eq other hash) (contains items hash)
      (λ same. ap (contains items) (sym (chunk_eq→eq other hash same)) ∙ distinct.0)
    ∙ ap
        (λ taken.
          chunk_eq item hash
          || ((if chunk_eq other hash then true else contains items hash)
              && not (chunk_eq taken hash)))
        (some-eq e)
contains-set_at (suc index) (other ∷ items) old item hash distinct e =
    ap (λ found. if chunk_eq other hash then true else found)
      (contains-set_at index items old item hash distinct.1 e)
    ∙ or_kept (chunk_eq item hash) (chunk_eq other hash) (chunk_eq old hash) (contains items hash)
        (apart items other old hash distinct.0 (contains-get_elem? items index old e))

pub length-set_at :
    (index : ℕ) (item : List ℕ) (items : List (List ℕ))
    → length (set_at index item items) ≡ length items
unfolding set_at
length-set_at index item [] = refl
length-set_at zero item (other ∷ items) = refl
length-set_at (suc index) item (other ∷ items) = omega (arith, length-set_at index item items)

split :
    (test : Bool) {rest : Bool}
    → (if test then true else rest) ≡ false
    → (test ≡ false) × (rest ≡ false)
split true e = absurd (true-ne-false e)
split false e = (refl, e)

differs_sym : (a b : List ℕ) → chunk_eq a b ≡ false → chunk_eq b a ≡ false
differs_sym a b differs = elim (Bool-cases (chunk_eq b a)) [
  | inl same ↦ absurd (
      true-ne-false
        (sym (chunk_eq_refl a) ∙ ap (chunk_eq a) (sym (chunk_eq→eq b a same)) ∙ differs))
  | inr other ↦ other
]

set_at-absent :
    (index : ℕ) (item : List ℕ) (items : List (List ℕ)) (hash : List ℕ)
    → contains items hash ≡ false
    → chunk_eq item hash ≡ false
    → contains (set_at index item items) hash ≡ false
unfolding contains set_at
set_at-absent index item [] hash absent differs = refl
set_at-absent zero item (other ∷ items) hash absent differs =
    rw differs (split (chunk_eq other hash) absent).1
set_at-absent (suc index) item (other ∷ items) hash absent differs =
    let (first, rest) = split (chunk_eq other hash) absent in
    rw first (set_at-absent index item items hash rest differs)

pub Distinct-append :
    (items : List (List ℕ)) (item : List ℕ)
    → Distinct items
    → contains items item ≡ false
    → Distinct (items ++ item ∷ [])
unfolding contains
Distinct-append [] item distinct fresh = (refl, tt)
Distinct-append (other ∷ items) item distinct fresh =
    let (differs, absent) = split (chunk_eq other item) fresh in
    (
      contains-append items item other ∙ rw (differs_sym other item differs, distinct.0) refl,
      Distinct-append items item distinct.1 absent,
    )

pub Distinct-set_at :
    (index : ℕ) (item : List ℕ) (items : List (List ℕ))
    → Distinct items
    → contains items item ≡ false
    → Distinct (set_at index item items)
unfolding contains set_at
Distinct-set_at index item [] distinct fresh = tt
Distinct-set_at zero item (other ∷ items) distinct fresh =
    ((split (chunk_eq other item) fresh).1, distinct.1)
Distinct-set_at (suc index) item (other ∷ items) distinct fresh =
    let (differs, absent) = split (chunk_eq other item) fresh in
    (
      set_at-absent index item items other distinct.0 (differs_sym other item differs),
      Distinct-set_at index item items distinct.1 absent,
    )

pub get_elem?-some :
    (items : List (List ℕ)) (index : ℕ)
    → index < length items
    → (item : List ℕ) × (get_elem? items index ≡ some item)
get_elem?-some [] index h = absurd (omega arith)
get_elem?-some (item ∷ items) zero h = (item, refl)
get_elem?-some (item ∷ items) (suc index) h = get_elem?-some items index (omega arith)

-- ===== src/Session/Grabbed.antt =====
-- What a pumpkin_buffer holds that only takes items which it does not have.
pub mod Items
use libbitcoin.Prelude.{
  arith, ℕ, zero, suc, ◌+◌, ◌≤◌, ◌<◌, ◌≡◌, ◌≢◌, refl, sym, ap, ◌∙◌, Bool, true, false, not, ◌&&◌,
  ◌||◌, List, [], ◌∷◌, ◌++◌, length, length-append, ltb, ◌==◌, if◌then◌else◌, chunk_eq,
  chunk_eq_refl, chunk_eq→eq, Bool-cases, inl, inr, get_elem?, All, All-append_of, Option, none,
  some, Result, ok, ◌>>=◌, ◌>>◌, assert,
}
use libbitcoin.Validate.Block.Check.{contains}
use libbitcoin.Session.Grabbed.Items.{
  Distinct, contains-append, contains-get_elem?, contains-set_at, length-set_at, Distinct-append,
  Distinct-set_at, get_elem?-some,
}
use libbitcoin.Session.{
  PumpkinBuffer, Call, pool_exists, new_buffer, exists, insert, erase, set_at, overwrite, store,
  new_tx_inventory, new_tx_inventories,
}

-- At most `max_size` items, no two equal, the pointer at one of them as soon as the buffer is full, and
-- the set is that of the items.
pub record IsValid (buffer : PumpkinBuffer) : Type 0 where
  pub within : length buffer.expiry ≤ buffer.max_size
  pub pointed : buffer.pointer < buffer.max_size
  pub distinct : Distinct buffer.expiry
  pub found : (hash : List ℕ) → buffer.lookup hash ≡ contains buffer.expiry hash

overwrite-IsValid :
    (item : List ℕ) (buffer : PumpkinBuffer)
    → IsValid buffer
    → exists item buffer ≡ false
    → length buffer.expiry ≡ buffer.max_size
    → (old : Option (List ℕ)) → get_elem? buffer.expiry buffer.pointer ≡ old
    → (after : PumpkinBuffer) × (overwrite item old buffer ≡ ok after)
      × IsValid after
      × (after.max_size ≡ buffer.max_size)
      × (exists item after ≡ true)
unfolding overwrite exists insert erase
overwrite-IsValid item buffer valid fresh full none e =
    let (old, same) = get_elem?-some buffer.expiry buffer.pointer (omega (arith, valid.pointed)) in
    cc
overwrite-IsValid item buffer valid fresh full (some old) e = (
  record buffer {
    lookup = insert item (erase old buffer.lookup);
    expiry = set_at buffer.pointer item buffer.expiry;
    pointer = if suc buffer.pointer == length buffer.expiry then 0 else suc buffer.pointer;
  },
  rw (valid.found old ∙ contains-get_elem? buffer.expiry buffer.pointer old e) refl,
  record {
    within = omega (arith, length-set_at buffer.pointer item buffer.expiry);
    pointed = ground (arith, full, valid.pointed);
    distinct =
        Distinct-set_at buffer.pointer item buffer.expiry valid.distinct
          (sym (valid.found item) ∙ fresh);
    found = λ hash.
        ap (λ found. chunk_eq item hash || (found && not (chunk_eq old hash))) (valid.found hash)
        ∙ sym (contains-set_at buffer.pointer buffer.expiry old item hash valid.distinct e);
  },
  refl,
  rw (chunk_eq_refl item) refl,
)

-- A valid buffer takes an item that it does not have with no assertion broken, stays valid, and then
-- has the item.
pub store-IsValid :
    (item : List ℕ) (buffer : PumpkinBuffer)
    → IsValid buffer
    → exists item buffer ≡ false
    → (after : PumpkinBuffer) × (store item buffer ≡ ok after)
      × IsValid after
      × (after.max_size ≡ buffer.max_size)
      × (exists item after ≡ true)
unfolding store exists insert
store-IsValid item buffer valid fresh =
    elim (Bool-cases (ltb (length buffer.expiry) buffer.max_size)) [
      | inl room ↦ (
        record buffer { lookup = insert item buffer.lookup; expiry = buffer.expiry ++ item ∷ [] },
        rw room refl,
        record {
          within = ground (arith, room, length-append buffer.expiry (item ∷ []));
          pointed = valid.pointed;
          distinct =
              Distinct-append buffer.expiry item valid.distinct (sym (valid.found item) ∙ fresh);
          found = λ hash.
              ap (λ found. chunk_eq item hash || found) (valid.found hash)
              ∙ sym (contains-append buffer.expiry item hash);
        },
        refl,
        rw (chunk_eq_refl item) refl,
      )
      | inr full ↦
          let same : length buffer.expiry ≡ buffer.max_size = ground (arith, full, valid.within) in
          let filled : length buffer.expiry == buffer.max_size ≡ true = ground (arith, same) in
          let inside : ltb buffer.pointer (length buffer.expiry) ≡ true =
            ground (arith, same, valid.pointed) in
          rw (full, filled, inside) (overwrite-IsValid item buffer valid fresh same _ refl)
    ]

new_tx_inventory-IsValid :
    (tx_hash : List ℕ) (buffer : PumpkinBuffer)
    → IsValid buffer
    → (after : PumpkinBuffer) × (calls : List Call) × (new_tx_inventory tx_hash buffer
        ≡ ok (after, calls))
      × IsValid after
      × (after.max_size ≡ buffer.max_size)
unfolding new_tx_inventory
new_tx_inventory-IsValid tx_hash buffer valid = elim (Bool-cases (exists tx_hash buffer)) [
  | inl known ↦ (buffer, [], rw known refl, valid, refl)
  | inr fresh ↦
      let (after, stored, still_valid, same, _) = store-IsValid tx_hash buffer valid fresh in
      (after, pool_exists tx_hash ∷ [], rw (fresh, stored) refl, still_valid, same)
]

new_tx_inventories-from :
    (hashes : List (List ℕ)) (buffer : PumpkinBuffer)
    → IsValid buffer
    → (after : PumpkinBuffer) × (calls : List Call) × (new_tx_inventories hashes buffer
        ≡ ok (after, calls))
      × IsValid after
      × (after.max_size ≡ buffer.max_size)
unfolding new_tx_inventories
new_tx_inventories-from [] buffer valid = (buffer, [], refl, valid, refl)
new_tx_inventories-from (tx_hash ∷ hashes) buffer valid =
    let (middle, first_calls, first, middle_valid, same) =
      new_tx_inventory-IsValid tx_hash buffer valid in
    let (after, calls, rest, still_valid, kept) =
      new_tx_inventories-from hashes middle middle_valid in
    (after, first_calls ++ calls, rw (first, rest) refl, still_valid, kept ∙ same)

-- However many hashes are announced, none of the assertions of the buffer is broken, which starts empty
-- with a capacity of at least one: it holds different hashes, at most as many as its capacity, and
-- finds exactly these.
pub new_tx_inventories-IsValid :
    (hashes : List (List ℕ)) (max_size : ℕ)
    → 0 < max_size
    → (after : PumpkinBuffer) × (calls : List Call) × (new_tx_inventories hashes
          (new_buffer max_size)
        ≡ ok (after, calls))
      × IsValid after
      × (after.max_size ≡ max_size)
unfolding new_buffer contains
new_tx_inventories-IsValid hashes max_size h =
    new_tx_inventories-from hashes (new_buffer max_size)
      (record { within = omega arith; pointed = h; distinct = tt; found = λ hash. refl })

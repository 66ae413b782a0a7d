-- ===== src/Session.antt =====
-- The handlers of inventories and reorganizations in src/session.cpp, and the class pumpkin_buffer of
-- include/bitcoin/session.hpp.
pub mod Grabbed
use libbitcoin.Prelude.{
  ℕ, zero, suc, ◌+◌, ◌%◌, ◌^◌, Bool, true, false, not, ◌&&◌, ◌||◌, List, [], ◌∷◌, ◌++◌, map, length,
  ltb, ◌==◌, if◌then◌else◌, chunk_eq, get_elem?, Option, none, some, Result, ok, err, assert,
  out_of_bounds, ◌>>=◌, ◌>>◌,
}
use libbitcoin.Openssl.{Openssl}
use libbitcoin.Block.{hash_block_header}
use libbitcoin.Messages.{InventoryType, InventoryVector, Block}
use libbitcoin.Validate.{ErrorCode}

-- The set is its test of membership.
pub record PumpkinBuffer : Type 0 where
  pub lookup : List ℕ → Bool
  pub expiry : List (List ℕ)
  pub max_size : ℕ
  pub pointer : ℕ

unfoldable pub new_buffer : ℕ → PumpkinBuffer
new_buffer max_size = record {
  lookup = λ hash. false;
  expiry = [];
  max_size = max_size;
  pointer = 0;
}

unfoldable pub exists : List ℕ → PumpkinBuffer → Bool
exists item buffer = buffer.lookup item

-- The set with an item, and without one.
unfoldable pub insert : List ℕ → (List ℕ → Bool) → List ℕ → Bool
insert item lookup hash = chunk_eq item hash || lookup hash

unfoldable pub erase : List ℕ → (List ℕ → Bool) → List ℕ → Bool
erase item lookup hash = lookup hash && not (chunk_eq item hash)

unfoldable pub set_at : ℕ → List ℕ → List (List ℕ) → List (List ℕ)
set_at index item [] = []
set_at zero item (other ∷ items) = item ∷ items
set_at (suc index) item (other ∷ items) = other ∷ set_at index item items

-- The old entry at the pointer is overwritten. `number_erased` is 1 where the set has the item.
unfoldable pub overwrite : List ℕ → Option (List ℕ) → PumpkinBuffer → Result PumpkinBuffer
unfolding insert erase set_at
overwrite item none buffer = err out_of_bounds
overwrite item (some erase_item) buffer = do
  assert (buffer.lookup erase_item)
  ok (record buffer {
    lookup = insert item (erase erase_item buffer.lookup);
    expiry = set_at buffer.pointer item buffer.expiry;
    pointer = if suc buffer.pointer == length buffer.expiry then 0 else suc buffer.pointer;
  })

unfoldable pub store : List ℕ → PumpkinBuffer → Result PumpkinBuffer
unfolding insert overwrite
store item buffer =
    if ltb (length buffer.expiry) buffer.max_size
    then ok
        (record buffer { lookup = insert item buffer.lookup; expiry = buffer.expiry ++ item ∷ [] })
    else assert (length buffer.expiry == buffer.max_size)
      >> (assert (ltb buffer.pointer (length buffer.expiry))
          >> overwrite item (get_elem? buffer.expiry buffer.pointer) buffer)

-- What a handler does: a call of tx_pool_.exists that is bound to request_tx_data, messages, a post on
-- the strand, and the depth that the handshake is told.
pub data Call : Type 0 where
  pool_exists : List ℕ → Call
  send_get_data broadcast : List InventoryVector → Call
  post_tx_inventory : List ℕ → Call
  set_depth : ℕ → Call
  subscribe_inventory subscribe_reorganize : Call

unfoldable pub posts_of : List InventoryVector → List Call
posts_of [] = []
posts_of (ivec ∷ inventories) =
    let rest = posts_of inventories in
    elim ivec.kind [ InventoryType.transaction ↦ post_tx_inventory ivec.hash ∷ rest | _ ↦ rest ]

unfoldable pub inventory : Option ErrorCode → List InventoryVector → List Call
unfolding posts_of
inventory (some ec) inventories = []
inventory none inventories = posts_of inventories ++ subscribe_inventory ∷ []

unfoldable pub new_tx_inventory : List ℕ → PumpkinBuffer → Result (PumpkinBuffer × List Call)
unfolding exists store
new_tx_inventory tx_hash grabbed_invs =
    if exists tx_hash grabbed_invs
    then ok (grabbed_invs, [])
    else store tx_hash grabbed_invs >>= λ stored. ok (stored, pool_exists tx_hash ∷ [])

unfoldable pub request_tx_data : Bool → List ℕ → List Call
request_tx_data true tx_hash = []
request_tx_data false tx_hash =
    send_get_data (record { kind = InventoryType.transaction; hash = tx_hash } ∷ []) ∷ []

-- `error` is not read, and handshake::set_start_depth takes a uint32_t.
unfoldable pub set_start_depth : Openssl → ℕ → List Block → List Call
set_start_depth o fork_point new_blocks =
    set_depth ((fork_point + length new_blocks) % 2 ^ 32)
    ∷ subscribe_reorganize
    ∷ broadcast (
        map (λ block. record { kind = InventoryType.block; hash = hash_block_header o block })
          new_blocks)
    ∷ []

-- The posted handlers of one announcement after another.
unfoldable pub new_tx_inventories :
    List (List ℕ) → PumpkinBuffer → Result (PumpkinBuffer × List Call)
unfolding new_tx_inventory
new_tx_inventories [] grabbed_invs = ok (grabbed_invs, [])
new_tx_inventories (tx_hash ∷ hashes) grabbed_invs = do
  first ← new_tx_inventory tx_hash grabbed_invs
  rest ← new_tx_inventories hashes first.0
  ok (rest.0, first.1 ++ rest.1)

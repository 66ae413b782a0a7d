-- ===== src/Poller.antt =====
-- The class poller of include/bitcoin/poller.hpp and src/poller.cpp, which asks a node for blocks.
pub mod Requests
use libbitcoin.Prelude.{
  Bool, true, false, ℕ, List, [], ◌∷◌, ◌++◌, if◌then◌else◌, chunk_eq, Option, none, some, Result,
  ok, err, out_of_bounds, ◌>>=◌,
}
use libbitcoin.Openssl.{Openssl}
use libbitcoin.Block.{hash_block_header}
use libbitcoin.Constants.{null_hash}
use libbitcoin.Messages.{InventoryType, InventoryVector, GetBlocks, Block}
use libbitcoin.Organizer.{BlockStatus, BlockInfo}
use libbitcoin.Validate.{ErrorCode}

-- The front of the last block locator sent, and the last hash of an inventory packet.
pub record Poller : Type 0 where
  pub last_hash_end : List ℕ
  pub last_block_hash : List ℕ

abbrev pub new_poller : Poller
new_poller = record { last_hash_end = null_hash; last_block_hash = null_hash }

-- What a handler does to the node, the chain and the strand. A fetch of a locator is bound to
-- ask_blocks with its hash_stop.
pub data Call : Type 0 where
  send_get_data : List InventoryVector → Call
  send_get_blocks : GetBlocks → Call
  store_block : Block → List ℕ → Call
  fetch_locator : List ℕ → Call
  dispatch_ask : List (List ℕ) → List ℕ → Call
  subscribe_inventory subscribe_block : Call

unfoldable pub is_block : InventoryType → Bool
is_block InventoryType.block = true
is_block _ = false

-- Only the block inventories, less the one with the last hash.
unfoldable pub block_inventories : List ℕ → List InventoryVector → List InventoryVector
unfolding is_block
block_inventories last [] = []
block_inventories last (ivv ∷ inventories) =
    let rest = block_inventories last inventories in
    if is_block ivv.kind then if chunk_eq ivv.hash last then rest else ivv ∷ rest else rest

back_hash : List ℕ → List InventoryVector → List ℕ
back_hash last [] = last
back_hash last (ivv ∷ inventories) = back_hash ivv.hash inventories

unfoldable pub requested : List InventoryVector → List Call
requested [] = []
requested (ivv ∷ inventories) = send_get_data (ivv ∷ inventories) ∷ []

-- `last_block_hash_` stays where no block is asked for.
unfoldable pub receive_inv : Option ErrorCode → List InventoryVector → Poller → Poller × List Call
unfolding block_inventories back_hash requested
receive_inv (some ec) inventories poller = (poller, [])
receive_inv none inventories poller =
    let getdata = block_inventories poller.last_block_hash inventories in
    (
      record poller { last_block_hash = back_hash poller.last_block_hash getdata },
      requested getdata ++ subscribe_inventory ∷ [],
    )

unfoldable pub receive_block : Openssl → Option ErrorCode → Block → List Call
receive_block o (some ec) block = []
receive_block o none block = store_block block (hash_block_header o block) ∷ subscribe_block ∷ []

-- The error is read only where the block is no orphan; the other cases log.
unfoldable pub handle_store : BlockStatus → List ℕ → List Call
handle_store BlockStatus.orphan block_hash = fetch_locator block_hash ∷ []
handle_store BlockStatus.rejected block_hash = []
handle_store BlockStatus.confirmed block_hash = []

unfoldable pub initial_ask_blocks : Option ErrorCode → List (List ℕ) → List Call
initial_ask_blocks (some ec) locator = []
initial_ask_blocks none locator = dispatch_ask locator null_hash ∷ []

-- The front of an empty locator is read past its end.
unfoldable pub ask_blocks :
    Option ErrorCode → List (List ℕ) → List ℕ → Poller → Result (Poller × List Call)
ask_blocks (some ec) locator hash_stop poller = ok (poller, [])
ask_blocks none [] hash_stop poller = err out_of_bounds
ask_blocks none (front ∷ locator) hash_stop poller =
    if chunk_eq poller.last_hash_end front
    then ok (poller, [])
    else ok (
      record poller { last_hash_end = front },
      send_get_blocks (record { start_hashes = front ∷ locator; hash_stop = hash_stop }) ∷ [],
    )

-- The handlers, with their arguments.
pub data Event : Type 0 where
  inventory_received : Option ErrorCode → List InventoryVector → Event
  block_received : Option ErrorCode → Block → Event
  block_stored : BlockInfo → List ℕ → Event
  locator_fetched : Option ErrorCode → List (List ℕ) → Event
  asked : Option ErrorCode → List (List ℕ) → List ℕ → Event

unfoldable pub handle : Openssl → Event → Poller → Result (Poller × List Call)
unfolding receive_inv receive_block handle_store initial_ask_blocks ask_blocks
handle o (inventory_received ec inventories) poller = ok (receive_inv ec inventories poller)
handle o (block_received ec block) poller = ok (poller, receive_block o ec block)
handle o (block_stored info block_hash) poller = ok (poller, handle_store info.status block_hash)
handle o (locator_fetched ec locator) poller = ok (poller, initial_ask_blocks ec locator)
handle o (asked ec locator hash_stop) poller = ask_blocks ec locator hash_stop poller

unfoldable pub handle_all : Openssl → List Event → Poller → Result (Poller × List Call)
unfolding handle
handle_all o [] poller = ok (poller, [])
handle_all o (event ∷ events) poller = do
  first ← handle o event poller
  rest ← handle_all o events first.0
  ok (rest.0, first.1 ++ rest.1)

-- ===== src/SatoshiSerialize/Inventories.antt =====
-- The messages that are lists: addr, inv, getdata and getblocks.
pub mod RoundTrip
pub mod Locators
use libbitcoin.Prelude.{
  ℕ, zero, suc, ◌+◌, ◌*◌, ◌%◌, ◌^◌, List, [], ◌∷◌, ◌++◌, length, ◌==◌, if◌then◌else◌, Result, ok,
  assert, ◌>>=◌, ◌>>◌,
}
use libbitcoin.Constants.{protocol_version}
use libbitcoin.Messages.{NetworkAddress, InventoryType, InventoryVector, GetBlocks}
use libbitcoin.SatoshiSerialize.{variable_uint_size}
use libbitcoin.Serializer.{
  write_4_bytes, write_variable_uint, write_network_address, write_hash, read_4_bytes,
  read_variable_uint, read_network_address, read_hash,
}

unfoldable pub address_raw_size : List NetworkAddress → ℕ
address_raw_size addresses = variable_uint_size (length addresses) + 30 * length addresses

save_addresses : List NetworkAddress → List ℕ → List ℕ
save_addresses [] serial = serial
save_addresses (net_address ∷ rest) serial =
    save_addresses rest
      (write_network_address net_address (write_4_bytes net_address.timestamp serial))

unfoldable pub save_address : List NetworkAddress → Result (List ℕ)
unfolding save_addresses
save_address addresses = do
  let raw_data = save_addresses addresses (write_variable_uint (length addresses) [])
  assert (address_raw_size addresses == length raw_data)
  ok raw_data

load_addresses : ℕ → List NetworkAddress → List ℕ → Result (List NetworkAddress × List ℕ)
load_addresses zero addresses stream = ok (addresses, stream)
load_addresses (suc count) addresses stream = do
  (timestamp, rest) ← read_4_bytes stream
  (addr, rest) ← read_network_address timestamp rest
  load_addresses count (addresses ++ addr ∷ []) rest

unfoldable pub load_address : List ℕ → Result (List NetworkAddress)
unfolding load_addresses
load_address stream = do
  (count, rest) ← read_variable_uint stream
  (addresses, _) ← load_addresses count [] rest
  assert (address_raw_size addresses == length stream)
  ok addresses

unfoldable pub inventory_type_to_number : InventoryType → ℕ
inventory_type_to_number InventoryType.error = 0
inventory_type_to_number InventoryType.none = 0
inventory_type_to_number InventoryType.transaction = 1
inventory_type_to_number InventoryType.block = 2

unfoldable pub inventory_type_from_number : ℕ → InventoryType
inventory_type_from_number raw_type =
    if raw_type == 0
    then InventoryType.error
    else if raw_type == 1
    then InventoryType.transaction
    else if raw_type == 2
    then InventoryType.block
    else InventoryType.none

unfoldable pub raw_size_inventory_impl : List InventoryVector → ℕ
raw_size_inventory_impl inventories =
    variable_uint_size (length inventories) + 36 * length inventories

save_inventories : List InventoryVector → List ℕ → List ℕ
save_inventories [] serial = serial
save_inventories (inv ∷ rest) serial =
    save_inventories rest
      (write_hash inv.hash (write_4_bytes (inventory_type_to_number inv.kind) serial))

unfoldable pub save_inventory_impl : List InventoryVector → Result (List ℕ)
unfolding save_inventories
save_inventory_impl inventories = do
  let raw_data = save_inventories inventories (write_variable_uint (length inventories) [])
  assert (raw_size_inventory_impl inventories == length raw_data)
  ok raw_data

load_inventories : ℕ → List InventoryVector → List ℕ → Result (List InventoryVector × List ℕ)
load_inventories zero inventories stream = ok (inventories, stream)
load_inventories (suc count) inventories stream = do
  (raw_type, rest) ← read_4_bytes stream
  (hash, rest) ← read_hash rest
  load_inventories count
      (inventories ++ record { kind = inventory_type_from_number raw_type; hash = hash } ∷ []) rest

unfoldable pub load_inventory_impl : List ℕ → Result (List InventoryVector)
unfolding load_inventories
load_inventory_impl stream = do
  (count, rest) ← read_variable_uint stream
  (inventories, _) ← load_inventories count [] rest
  assert (raw_size_inventory_impl inventories == length stream)
  ok inventories

unfoldable pub get_blocks_raw_size : GetBlocks → ℕ
get_blocks_raw_size packet =
    36 + variable_uint_size (length packet.start_hashes) + 32 * length packet.start_hashes

save_hashes : List (List ℕ) → List ℕ → List ℕ
save_hashes [] serial = serial
save_hashes (start_hash ∷ rest) serial = save_hashes rest (write_hash start_hash serial)

unfoldable pub save_get_blocks : GetBlocks → Result (List ℕ)
unfolding save_hashes
save_get_blocks packet = do
  let serial = write_variable_uint (length packet.start_hashes) (write_4_bytes protocol_version [])
  let raw_data = write_hash packet.hash_stop (save_hashes packet.start_hashes serial)
  assert (get_blocks_raw_size packet == length raw_data)
  ok raw_data

load_hashes : ℕ → List (List ℕ) → List ℕ → Result (List (List ℕ) × List ℕ)
load_hashes zero hashes stream = ok (hashes, stream)
load_hashes (suc count) hashes stream = do
  (start_hash, rest) ← read_hash stream
  load_hashes count (hashes ++ start_hash ∷ []) rest

checked_get_blocks : GetBlocks → List ℕ → Result GetBlocks
checked_get_blocks packet stream = do
  assert (get_blocks_raw_size packet == length stream)
  ok packet

-- The count is kept in a uint32_t.
unfoldable pub load_get_blocks : List ℕ → Result GetBlocks
unfolding load_hashes checked_get_blocks
load_get_blocks stream = do
  (_, rest) ← read_4_bytes stream
  (count, rest) ← read_variable_uint rest
  (start_hashes, rest) ← load_hashes (count % 2 ^ 32) [] rest
  (hash_stop, _) ← read_hash rest
  checked_get_blocks (record { start_hashes = start_hashes; hash_stop = hash_stop }) stream

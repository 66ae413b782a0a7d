-- ===== src/SatoshiSerialize.antt =====
-- src/satoshi_serialize.cpp and include/bitcoin/satoshi_serialize.hpp. `satoshi_save` of a message is
-- the chunk that it copies to its iterator, and `satoshi_load` reads a whole stream.
pub mod Control
pub mod Inventories
pub mod Tx
pub mod Blocks
use libbitcoin.Prelude.{ℕ, ◌+◌, ◌≡◌, false, length, ltb, leb, if◌then◌else◌, arith}
use libbitcoin.Format.{uncast_type, length-uncast_type}
use libbitcoin.Serializer.{
  write_byte, write_2_bytes, write_4_bytes, write_8_bytes, write_variable_uint,
}
use libbitcoin.Serializer.Lengths.{variable_uint_bytes}

unfoldable pub variable_uint_size : ℕ → ℕ
variable_uint_size v =
    if ltb v 0xfd then 1 else if leb v 0xffff then 3 else if leb v 0xffffffff then 5 else 9

-- The predicted size of a length is the number of bytes that are written for it.
pub length-variable_uint_bytes : (v : ℕ) → length (variable_uint_bytes v) ≡ variable_uint_size v
unfolding variable_uint_size variable_uint_bytes write_variable_uint write_byte write_2_bytes
    write_4_bytes write_8_bytes
length-variable_uint_bytes v = ground (
  arith,
  length-uncast_type 2 v false,
  length-uncast_type 4 v false,
  length-uncast_type 8 v false,
)

-- ===== src/Messages.antt =====
-- The structs of include/bitcoin/messages.hpp. Integers are plain numbers, whose ranges the theorems
-- state; a hash_digest is a list of 32 bytes, an ip_address one of 16, a std::string one of bytes.
use libbitcoin.Prelude.{ℕ, List}
use libbitcoin.Script.{Script}

pub record NetworkAddress : Type 0 where
  pub timestamp : ℕ
  pub services : ℕ
  pub ip : List ℕ
  pub port : ℕ

pub data InventoryType : Type 0 where
  error transaction block none : InventoryType

pub record InventoryVector : Type 0 where
  pub kind : InventoryType
  pub hash : List ℕ

pub record Header : Type 0 where
  pub magic : ℕ
  pub command : List ℕ
  pub payload_length : ℕ
  pub checksum : ℕ

pub record Version : Type 0 where
  pub version : ℕ
  pub services : ℕ
  pub timestamp : ℕ
  pub address_me : NetworkAddress
  pub address_you : NetworkAddress
  pub nonce : ℕ
  pub user_agent : List ℕ
  pub start_depth : ℕ

pub record GetBlocks : Type 0 where
  pub start_hashes : List (List ℕ)
  pub hash_stop : List ℕ

pub record OutputPoint : Type 0 where
  pub hash : List ℕ
  pub index : ℕ

pub record TransactionInput : Type 0 where
  pub previous_output : OutputPoint
  pub input_script : Script
  pub sequence : ℕ

pub record TransactionOutput : Type 0 where
  pub value : ℕ
  pub output_script : Script

pub record Transaction : Type 0 where
  pub version : ℕ
  pub locktime : ℕ
  pub inputs : List TransactionInput
  pub outputs : List TransactionOutput

pub record Block : Type 0 where
  pub version : ℕ
  pub previous_block_hash : List ℕ
  pub merkle : List ℕ
  pub timestamp : ℕ
  pub bits : ℕ
  pub nonce : ℕ
  pub transactions : List Transaction

-- ===== src/SatoshiSerialize/Blocks.antt =====
-- Blocks: satoshi_raw_size, satoshi_save and satoshi_load.
pub mod RoundTrip
use libbitcoin.Prelude.{
  ℕ, zero, suc, ◌+◌, List, [], ◌∷◌, ◌++◌, length, ◌==◌, Result, ok, assert, ◌>>=◌, ◌>>◌,
}
use libbitcoin.Script.{Script}
use libbitcoin.Messages.{Transaction, Block}
use libbitcoin.Serializer.{
  write_4_bytes, write_variable_uint, write_hash, read_4_bytes, read_variable_uint, read_hash,
}
use libbitcoin.SatoshiSerialize.{variable_uint_size}
use libbitcoin.SatoshiSerialize.Tx.{save_transaction, read_transaction, transaction_raw_size}

transactions_size : List Transaction → ℕ → ℕ
transactions_size [] block_size = block_size
transactions_size (tx ∷ transactions) block_size =
    transactions_size transactions (block_size + transaction_raw_size tx)

unfoldable pub block_raw_size : Block → ℕ
unfolding transactions_size
block_raw_size packet =
    transactions_size packet.transactions (80 + variable_uint_size (length packet.transactions))

save_transactions : List Transaction → List ℕ → List ℕ
save_transactions [] serial = serial
save_transactions (tx ∷ transactions) serial =
    save_transactions transactions (save_transaction tx serial)

save_block_fields : Block → List ℕ
unfolding save_transactions
save_block_fields packet =
    let serial = write_4_bytes packet.version [] in
    let serial = write_hash packet.previous_block_hash serial in
    let serial = write_hash packet.merkle serial in
    let serial = write_4_bytes packet.timestamp serial in
    let serial = write_4_bytes packet.bits serial in
    let serial = write_4_bytes packet.nonce serial in
    save_transactions packet.transactions (write_variable_uint (length packet.transactions) serial)

unfoldable pub save_block : Block → Result (List ℕ)
unfolding save_block_fields
save_block packet = do
  let raw_data = save_block_fields packet
  assert (block_raw_size packet == length raw_data)
  ok raw_data

-- `message::transaction tx;`, of which read_transaction keeps no part but the empty lists.
abbrev pub new_transaction : Transaction
new_transaction = record { version = 0; locktime = 0; inputs = []; outputs = [] }

-- The transactions are added to those that the packet has.
load_transactions : ℕ → List Transaction → List ℕ → Result (List Transaction × List ℕ)
load_transactions zero transactions stream = ok (transactions, stream)
load_transactions (suc count) transactions stream = do
  (tx, rest) ← read_transaction new_transaction stream
  load_transactions count (transactions ++ tx ∷ []) rest

checked_block : Block → List ℕ → Result Block
checked_block packet stream = do assert (block_raw_size packet == length stream); ok packet

unfoldable pub load_block : Block → List ℕ → Result Block
unfolding load_transactions checked_block
load_block packet stream = do
  (version, rest) ← read_4_bytes stream
  (previous_block_hash, rest) ← read_hash rest
  (merkle, rest) ← read_hash rest
  (timestamp, rest) ← read_4_bytes rest
  (bits, rest) ← read_4_bytes rest
  (nonce, rest) ← read_4_bytes rest
  (tx_count, rest) ← read_variable_uint rest
  (transactions, _) ← load_transactions tx_count packet.transactions rest
  checked_block
      (record {
        version = version;
        previous_block_hash = previous_block_hash;
        merkle = merkle;
        timestamp = timestamp;
        bits = bits;
        nonce = nonce;
        transactions = transactions;
      })
      stream

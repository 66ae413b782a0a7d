-- ===== src/SatoshiSerialize/Blocks/RoundTrip.antt =====
-- A block is loaded from the bytes that were saved of it.
use libbitcoin.Prelude.{
  arith, ℕ, ◌+◌, ◌<◌, ◌^◌, ◌≡◌, refl, sym, ap, ◌∙◌, List, [], ◌∷◌, ◌++◌, append_assoc, append-nil,
  reverse, length, length-append, length-reverse, All, ==-refl, ok, false,
}
use libbitcoin.Format.{uncast_type, length-uncast_type}
use libbitcoin.Messages.{Transaction, Block}
use libbitcoin.Serializer.{write_4_bytes, write_variable_uint, write_hash}
use libbitcoin.Serializer.Lengths.{variable_uint_bytes, writes}
use libbitcoin.Serializer.RoundTrip.{
  read_4_bytes-uncast_type, read_hash-reverse, read_variable_uint-bytes,
}
use libbitcoin.SatoshiSerialize.{variable_uint_size, length-variable_uint_bytes}
use libbitcoin.SatoshiSerialize.Tx.{save_transaction, transaction_raw_size}
use libbitcoin.SatoshiSerialize.Tx.Saves.{
  transaction_bytes, save_transaction-bytes, length-transaction_bytes,
}
use libbitcoin.SatoshiSerialize.Tx.RoundTrip.{
  TransactionFits, TransactionFits-HasHash, read_transaction-bytes,
}
use libbitcoin.SatoshiSerialize.Blocks.{
  transactions_size, block_raw_size, save_transactions, save_block_fields, save_block,
  new_transaction, load_transactions, checked_block, load_block,
}

pub record BlockFits (packet : Block) : Type 0 where
  pub version_fits : packet.version < 2 ^ 32
  pub previous_block_hash_size : length packet.previous_block_hash ≡ 32
  pub merkle_size : length packet.merkle ≡ 32
  pub timestamp_fits : packet.timestamp < 2 ^ 32
  pub bits_fit : packet.bits < 2 ^ 32
  pub nonce_fits : packet.nonce < 2 ^ 32
  pub transaction_count : length packet.transactions < 2 ^ 64
  pub transactions_fit : All TransactionFits packet.transactions

transactions_bytes : List Transaction → List ℕ
transactions_bytes [] = []
transactions_bytes (tx ∷ transactions) = transaction_bytes tx (transactions_bytes transactions)

block_bytes : Block → List ℕ
block_bytes packet =
    uncast_type 4 packet.version false
    ++ (reverse packet.previous_block_hash
        ++ (reverse packet.merkle
            ++ (uncast_type 4 packet.timestamp false
                ++ (uncast_type 4 packet.bits false
                    ++ (uncast_type 4 packet.nonce false
                        ++ (variable_uint_bytes (length packet.transactions)
                            ++ transactions_bytes packet.transactions))))))

save_transactions-bytes :
    (transactions : List Transaction) (s : List ℕ)
    → save_transactions transactions s ≡ s ++ transactions_bytes transactions
unfolding save_transactions transactions_bytes
save_transactions-bytes [] s = sym (append-nil s)
save_transactions-bytes (tx ∷ transactions) s =
    save_transactions-bytes transactions (save_transaction tx s)
    ∙ save_transaction-bytes tx s (transactions_bytes transactions)

length-transactions_bytes :
    (transactions : List Transaction) (n : ℕ)
    → All TransactionFits transactions
    → n + length (transactions_bytes transactions) ≡ transactions_size transactions n
unfolding transactions_bytes transactions_size
length-transactions_bytes [] n f = omega arith
length-transactions_bytes (tx ∷ transactions) n f = omega (
  arith,
  length-transaction_bytes tx (transactions_bytes transactions)
      (TransactionFits-HasHash tx.inputs f.0.inputs_fit),
  length-transactions_bytes transactions (n + transaction_raw_size tx) f.1,
)

load_transactions-bytes :
    (transactions done : List Transaction)
    → All TransactionFits transactions
    → load_transactions (length transactions) done (transactions_bytes transactions)
      ≡ ok (done ++ transactions, [])
unfolding load_transactions transactions_bytes
load_transactions-bytes [] done f = ap (λ k. ok (k, [])) (sym (append-nil done))
load_transactions-bytes (tx ∷ transactions) done f =
    rw
      (read_transaction-bytes tx new_transaction (transactions_bytes transactions) f.0 (refl, refl))
      (load_transactions-bytes transactions (done ++ tx ∷ []) f.1
        ∙ ap (λ k. ok (k, [])) (append_assoc done (tx ∷ []) transactions))

save_block_fields-bytes : (packet : Block) → save_block_fields packet ≡ block_bytes packet
unfolding save_block_fields block_bytes
save_block_fields-bytes packet =
    let serial = write_4_bytes packet.nonce (
      write_4_bytes packet.bits (
        write_4_bytes packet.timestamp (
          write_hash packet.merkle
            (write_hash packet.previous_block_hash (write_4_bytes packet.version []))))) in
    save_transactions-bytes packet.transactions
      (write_variable_uint (length packet.transactions) serial)
    ∙ simp writes

length-block_bytes :
    (packet : Block) → BlockFits packet → length (block_bytes packet) ≡ block_raw_size packet
unfolding block_bytes block_raw_size
length-block_bytes packet f =
    simp
      (
        length-append, length-uncast_type, length-reverse, length-variable_uint_bytes,
        f.previous_block_hash_size, f.merkle_size,
      )
      (omega (
        arith,
        length-transactions_bytes packet.transactions
            (80 + variable_uint_size (length packet.transactions)) f.transactions_fit,
      ))

load_block-bytes :
    (block packet : Block)
    → BlockFits block
    → packet.transactions ≡ []
    → load_block packet (block_bytes block) ≡ checked_block block (block_bytes block)
unfolding load_block block_bytes
load_block-bytes block packet f fresh =
    let txs =
      variable_uint_bytes (length block.transactions) ++ transactions_bytes block.transactions in
    let nonce = uncast_type 4 block.nonce false ++ txs in
    let bits = uncast_type 4 block.bits false ++ nonce in
    let timestamp = uncast_type 4 block.timestamp false ++ bits in
    let merkle = reverse block.merkle ++ timestamp in
    rw (
      read_4_bytes-uncast_type block.version (reverse block.previous_block_hash ++ merkle)
          f.version_fits,
      read_hash-reverse block.previous_block_hash merkle f.previous_block_hash_size,
      read_hash-reverse block.merkle timestamp f.merkle_size,
      read_4_bytes-uncast_type block.timestamp bits f.timestamp_fits,
      read_4_bytes-uncast_type block.bits nonce f.bits_fit,
      read_4_bytes-uncast_type block.nonce txs f.nonce_fits,
      read_variable_uint-bytes (length block.transactions) (transactions_bytes block.transactions)
          f.transaction_count,
      fresh,
      load_transactions-bytes block.transactions [] f.transactions_fit,
    )

-- A block whose fields fit their widths and whose transactions can be read back is saved in as many
-- bytes as its size says, and is loaded from them, into a packet without transactions, as it was.
pub load_block-save_block :
    (block packet : Block)
    → BlockFits block
    → packet.transactions ≡ []
    → (out : List ℕ) × (save_block block ≡ ok out)
      × (length out ≡ block_raw_size block)
      × (load_block packet out ≡ ok block)
unfolding save_block checked_block
load_block-save_block block packet f fresh =
    let size = length-block_bytes block f in
    (
      block_bytes block,
      rw (save_block_fields-bytes block, size, ==-refl (block_raw_size block)),
      size,
      load_block-bytes block packet f fresh ∙ rw (size, ==-refl (block_raw_size block)),
    )

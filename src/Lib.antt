-- ===== src/Lib.antt =====
-- libbitcoin: a library for Bitcoin nodes. This development models its formats and its consensus
-- code: what a message looks like on the wire, what a script does, which transactions and blocks are
-- accepted, and how the transaction pool and the chain of blocks change.
--
-- The parts and their files:
--   * Format: integers and their bytes (include/bitcoin/format.hpp: cast_chunk, uncast_type).
--   * Serializer: the writes and reads of src/utility/serializer.cpp. A write takes the bytes written
--     so far and returns them longer; a read takes the bytes left and returns a value with those that
--     it leaves, or the exception end_of_stream.
--   * Messages: the structs of include/bitcoin/messages.hpp.
--   * SatoshiSerialize: satoshi_raw_size, satoshi_save and satoshi_load of src/satoshi_serialize.cpp
--     and include/bitcoin/satoshi_serialize.hpp, by message: Control (headers, version, ping and pong),
--     Inventories (addr, inv, getdata, getblocks), Tx (transactions), Blocks (blocks).
--   * Script: include/bitcoin/script.hpp and src/script.cpp. Opcode has the opcodes and their texts,
--     Codec parse_script, save_script and script_size, Stack, Arithmetic and Signature the opcodes,
--     Machine run_operation on the state of a run, Run next_step and the two methods `run`, Types the
--     payment types.
--   * Transaction: the hash, the Merkle tree, the finality and the sums of src/transaction.cpp.
--   * Block: src/block.cpp; Constants: include/bitcoin/constants.hpp; Digest: src/utility/sha256.cpp and
--     src/utility/ripemd.cpp; BigNumber: src/utility/big_number.cpp.
--   * Validate: src/validate.cpp, and the error codes of include/bitcoin/error.hpp. Check, Connect and
--     Sigops have the checks of a transaction by itself, its inputs and its fees, and Accepts says what
--     an input must be to be accepted; Validate.Block the
--     class validate_block, by method (Check, Work, Checkpoints, Accept, Duplicates, Inputs, Connect,
--     Start), with its virtual methods and the clock as the record BlockContext; Validate.Transaction
--     the class validate_transaction, whose handlers go from one call of the blockchain it waits for to
--     the next (Handlers), by what the blockchain answers and the pool then is (Moment).
--   * TransactionPool: src/transaction_pool.cpp. Delegate has do_store and handle_delegate, Reorganize
--     the reaction to new blocks, Steps the relation of what the strand may run next.
--   * Organizer: src/blockchain/organizer.cpp. Orphans has the orphan pool, Keeper the methods that a
--     store implements, Replace replace_chain and clip_orphans, Process the loop of start. The block
--     details are shared by pointer: a pointer is a number, and a Heap says what it leads to.
--   * Network: src/network/hosts.cpp (Hosts) and the handlers of src/network/handshake.cpp (Handshake).
--   * Poller: src/poller.cpp, its handlers as functions from its state to that and the calls they make.
--   * Session: the inventories and reorganizations of src/session.cpp, and the buffer of hashes of
--     include/bitcoin/session.hpp.
--   * Prelude: shared names and lemmas on tests, lists and results. Examples: the theorems at concrete
--     inputs.
--
-- How they meet: SatoshiSerialize calls Serializer and the script codec; Transaction.Hash hashes what
-- SatoshiSerialize.Tx saves; Script.Signature hashes a changed copy of the spending transaction by
-- Transaction.Hash; Script.Run calls Script.Machine, which calls the opcodes; Validate.Connect runs
-- the scripts of an input. Validate.Block connects a block's inputs by Script.Run and adds their values up
-- against Block's subsidy; TransactionPool runs a Validate.Transaction for each transaction that is
-- stored, which reads the pool as it is at each answer; Organizer compares the work of chains by
-- BigNumber and Block.
--
-- How the code is read: an integer is a natural number, with the wrap of its width written out where the
-- code can reach it. A vector is a list; a stack is a list whose head is the back of the vector. A result
-- of code that may throw, assert or read out of bounds is a `Result`, and a result of a part of a run is
-- an `Outcome`: `pass` with the state, `fail` for false, `fault` for what C++ leaves undefined or an
-- assertion that does not hold. A validation of a block gives a `Verdict`: `valid`, `invalid` with the
-- error code, or `broken`. Handlers that boost::asio runs one at a time on a strand are steps.
--
-- What is assumed: OpenSSL (big numbers, digests, elliptic curves) is the record `Openssl`, a parameter,
-- of which no theorem assumes anything but the one on work_required, which takes as BignumLaws what
-- OpenSSL documents of its numbers. Of the blockchain the theorems on validation take only that its
-- answer for the last depth is not input_not_found (Answers), and the one on the poller that a block
-- locator is not empty. A boost::circular_buffer is read as the container that its documentation
-- describes; that of hosts has its push_back as a parameter. The machine is little-endian.
--
-- Fuel: the loop of parse_script takes the number of bytes, the loop of build_merkle_tree the number
-- of hashes, the loop of block_locator_indexes the top depth, and max_money_recursive 64 rounds for a
-- uint64_t. A round of the first takes a byte at least, one of the second halves the list, one of the
-- third lessens the index, and one of the last halves the number. The loop of trace ends where each
-- orphan has a height above its parent's; the loop of organizer::start takes as many rounds as its
-- queue is long, of which each shortens the queue, and traces within them have a fuel of their own. A
-- validation of a transaction takes no fuel but a list of answers, and five and three for each input
-- are enough.
--
-- Not modelled: the messages without fields, the other parts of the network (channels, protocol,
-- the responder) and its threads, addresses and wallets, the stores on Berkeley DB and Kyoto Cabinet,
-- generated code, and the texts printed for people.

pub mod Prelude
pub mod Format
pub mod Script
pub mod Messages
pub mod Serializer
pub mod Openssl
pub mod BigNumber
pub mod Digest
pub mod Constants
pub mod Transaction
pub mod Block
pub mod Validate
pub mod SatoshiSerialize
pub mod Examples
pub mod TransactionPool
pub mod Organizer
pub mod Network
pub mod Poller
pub mod Session

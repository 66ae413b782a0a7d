-- ===== src/TransactionPool.antt =====
-- include/bitcoin/transaction_pool.hpp and src/transaction_pool.cpp: the pool itself.
pub mod Delegate
pub mod Reorganize
pub mod Steps
use libbitcoin.Prelude.{
  ℕ, ◌+◌, Bool, true, false, List, [], ◌∷◌, ◌++◌, length, leb, if◌then◌else◌, chunk_eq, Option,
  none, some,
}
use libbitcoin.Messages.{Transaction}

-- transaction_entry_info. A confirm handler is a number that names it.
pub record Entry : Type 0 where
  pub hash : List ℕ
  pub tx : Transaction
  pub handle_confirm : ℕ

-- The circular buffer, its front first.
abbrev pub Pool : Type 0
Pool = List Entry

abbrev pub pool_capacity : ℕ
pool_capacity = 2000

drop_front : Pool → Pool
drop_front [] = []
drop_front (entry ∷ pool) = pool

-- `push_back` of a boost::circular_buffer: a full buffer loses its front.
unfoldable pub push_back : Pool → Entry → Pool
unfolding drop_front
push_back pool entry =
    if leb pool_capacity (length pool) then drop_front pool ++ entry ∷ [] else pool ++ entry ∷ []

unfoldable pub tx_exists : Pool → List ℕ → Bool
tx_exists [] tx_hash = false
tx_exists (entry ∷ pool) tx_hash =
    if chunk_eq entry.hash tx_hash then true else tx_exists pool tx_hash

-- The loop of `fetch`, in the pool and in validate_transaction: the first entry with the hash.
unfoldable pub fetch : Pool → List ℕ → Option Transaction
fetch [] tx_hash = none
fetch (entry ∷ pool) tx_hash =
    if chunk_eq entry.hash tx_hash then some entry.tx else fetch pool tx_hash

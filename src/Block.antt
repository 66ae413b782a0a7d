-- ===== src/Block.antt =====
-- src/block.cpp.
pub mod Locator
pub mod Subsidy
use libbitcoin.Prelude.{
  ℕ, zero, suc, ◌+◌, ◌-◌, ◌*◌, ◌/◌, ◌^◌, Bool, ◌&&◌, List, [], ◌∷◌, ◌++◌, ◌==◌, ltb, leb,
  if◌then◌else◌, chunk_eq, Option, none, some,
}
use libbitcoin.Openssl.{Openssl}
use libbitcoin.BigNumber.{set_uint32, set_compact, big_le}
use libbitcoin.Constants.{block_reward, reward_interval, coin_price}
use libbitcoin.Digest.{generate_sha256_hash}
use libbitcoin.Serializer.{write_4_bytes, write_hash}
use libbitcoin.Messages.{Block}

-- The `operator==` of two blocks, which compares the headers.
unfoldable pub block_eq : Block → Block → Bool
block_eq block_a block_b =
    block_a.version == block_b.version
    && (chunk_eq block_a.previous_block_hash block_b.previous_block_hash
        && (chunk_eq block_a.merkle block_b.merkle
            && (block_a.timestamp == block_b.timestamp
                && (block_a.bits == block_b.bits && block_a.nonce == block_b.nonce))))

-- A shift of a uint64_t by 64 places or more, which C++ leaves undefined, is `none`.
unfoldable pub block_value : ℕ → Option ℕ
block_value depth =
    if ltb (depth / reward_interval) 64
    then some (coin_price block_reward / 2 ^ (depth / reward_interval))
    else none

-- `if (start >= 10) step *= 2`.
unfoldable pub advanced : ℕ → ℕ → ℕ
advanced step start = if leb 10 start then step * 2 else step

-- The loop `for (int i = top_depth; i > 0; i -= step, ++start)`. A step is never more than the steps
-- before it and 2, so a negative i ends the loop as 0 does. Each round lessens i, which is fuel enough.
unfoldable pub locator_loop : ℕ → ℕ → ℕ → ℕ → List ℕ
unfolding advanced
locator_loop zero i step start = []
locator_loop (suc fuel) i step start =
    let step = advanced step start in
    let rest = locator_loop fuel (i - step) step (suc start) in if ltb 0 i then i ∷ rest else []

unfoldable pub block_locator_indexes : ℕ → List ℕ
unfolding locator_loop
block_locator_indexes top_depth = locator_loop top_depth top_depth 1 0 ++ 0 ∷ []

unfoldable pub header_bytes : Block → List ℕ
header_bytes block =
    let key = write_4_bytes block.version [] in
    let key = write_hash block.previous_block_hash key in
    let key = write_hash block.merkle key in
    let key = write_4_bytes block.timestamp key in
    let key = write_4_bytes block.bits key in write_4_bytes block.nonce key

module _ (o : Openssl) where
  -- `256` places to the left, and the quotient of the division.
  unfoldable pub block_work : ℕ → o.Bignum
  block_work bits =
      let target = set_compact o bits in
      if big_le o target (set_uint32 o 0)
      then set_uint32 o 0
      else (o.bn_div (o.bn_lshift (set_uint32 o 1) 256) (o.bn_add target (set_uint32 o 1))).0

  unfoldable pub hash_block_header : Block → List ℕ
  unfolding header_bytes
  hash_block_header block = generate_sha256_hash o (header_bytes block)

-- ===== src/Organizer.antt =====
-- include/bitcoin/blockchain/organizer.hpp and src/blockchain/organizer.cpp: the block details, which the
-- orphan pool, the organizer's queue and the chains share by pointer.
pub mod Orphans
pub mod Keeper
pub mod Replace
pub mod Process
use libbitcoin.Prelude.{ℕ, ◌+◌, Bool, true, false, List, ◌==◌, if◌then◌else◌, Option, none, some}
use libbitcoin.Openssl.{Openssl}
use libbitcoin.Messages.{Block}
use libbitcoin.Block.{hash_block_header}
use libbitcoin.Validate.{ErrorCode}

pub data BlockStatus : Type 0 where
  orphan confirmed rejected : BlockStatus

pub record BlockInfo : Type 0 where
  pub status : BlockStatus
  pub depth : ℕ

pub record BlockDetail : Type 0 where
  pub actual : Block
  pub block_hash : List ℕ
  pub processed : Bool
  pub info : BlockInfo
  pub ec : Option ErrorCode

-- The constructor.
unfoldable pub new_detail : Openssl → Block → BlockDetail
new_detail o actual_block = record {
  actual = actual_block;
  block_hash = hash_block_header o actual_block;
  processed = false;
  info = record { status = BlockStatus.orphan; depth = 0 };
  ec = none;
}

-- A block_detail_ptr is a number, and the objects that the pointers lead to are a function of it.
-- Numbers from `next` on are not in use.
pub record Heap : Type 0 where
  pub detail : ℕ → BlockDetail
  pub next : ℕ

unfoldable pub update : ℕ → (BlockDetail → BlockDetail) → Heap → Heap
update pointer change heap = record heap {
  detail = λ p. if p == pointer then change (heap.detail p) else heap.detail p;
}

unfoldable pub make_shared : BlockDetail → Heap → Heap
make_shared detail heap = record {
  detail = λ p. if p == heap.next then detail else heap.detail p;
  next = heap.next + 1;
}

unfoldable pub mark_processed : BlockDetail → BlockDetail
mark_processed detail = record detail { processed = true }

unfoldable pub set_info : BlockStatus → ℕ → BlockDetail → BlockDetail
set_info status depth detail = record detail { info = record { status = status; depth = depth } }

unfoldable pub set_errc : ErrorCode → BlockDetail → BlockDetail
set_errc code detail = record detail { ec = some code }

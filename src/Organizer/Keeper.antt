-- ===== src/Organizer/Keeper.antt =====
-- The virtual methods that the organizer calls: those of chain_keeper, and its own `verify`.
use libbitcoin.Prelude.{ℕ, Bool, List, Option}
use libbitcoin.Openssl.{Openssl}
use libbitcoin.Messages.{Block}
use libbitcoin.Organizer.{BlockDetail}
use libbitcoin.Validate.{ErrorCode}

pub record ChainKeeper (o : Openssl) : Type 1 where
  -- What the keeper keeps.
  pub Chain : Type 0
  pub start : Chain → Chain
  pub stop : Chain → Chain
  pub add : BlockDetail → Chain → Chain
  -- `none` is -1.
  pub find_index : List ℕ → Chain → Option ℕ
  pub end_slice_difficulty : ℕ → Chain → o.Bignum
  -- The result, the blocks appended to `sliced_blocks`, and the chain after.
  pub end_slice : ℕ → Chain → Bool × List Block × Chain
  -- `verify` of the organizer, on the fork index, the blocks of the orphan chain and an index in it.
  pub verify : ℕ → List Block → ℕ → Chain → Option ErrorCode

-- ===== src/Validate/Block/Accept.antt =====
-- accept_block of src/validate.cpp: the checks against the blocks before.
use libbitcoin.Prelude.{ℕ, Bool, true, false, not, List, [], ◌∷◌, leb, ◌==◌, if◌then◌else◌}
use libbitcoin.Openssl.{Openssl}
use libbitcoin.Messages.{Transaction, Block}
use libbitcoin.Transaction.{is_final}
use libbitcoin.Validate.{ErrorCode}
use libbitcoin.Validate.Verdict.{Verdict, ◌>>◌, demand}
use libbitcoin.Validate.Block.{BlockContext}
use libbitcoin.Validate.Block.Work.{work_required}
use libbitcoin.Validate.Block.Checkpoints.{passes_checkpoints}

unfoldable pub all_final : List Transaction → ℕ → ℕ → Bool
all_final [] block_depth block_time = true
all_final (tx ∷ transactions) block_depth block_time =
    if is_final tx block_depth block_time
    then all_final transactions block_depth block_time
    else false

unfoldable pub accept_block : Openssl → BlockContext → ℕ → Block → Verdict (Unit {0})
unfolding all_final
accept_block o context depth block = do
  demand (block.bits == work_required o context depth) ErrorCode.incorrect_proof_of_work
  demand (not (leb block.timestamp context.median_time_past)) ErrorCode.timestamp_too_early
  demand (all_final block.transactions depth block.timestamp) ErrorCode.non_final_transaction
  demand (passes_checkpoints o depth block) ErrorCode.checkpoints_failed

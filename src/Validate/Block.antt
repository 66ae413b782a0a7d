-- ===== src/Validate/Block.antt =====
-- The class validate_block of include/bitcoin/validate.hpp and src/validate.cpp, by method.
pub mod Work
pub mod Checkpoints
pub mod Check
pub mod Accept
pub mod Retarget
pub mod Repeats
pub mod Guarantees
pub mod Distinct
pub mod Inflation
pub mod Spends
pub mod Duplicates
pub mod Start
pub mod Inputs
pub mod Connect
use libbitcoin.Prelude.{ℕ, ◌/◌, Bool, List, Option}
use libbitcoin.Messages.{OutputPoint, Transaction}

-- The virtual methods, which a store implements, and the clock. The transaction that fetch_transaction
-- finds comes with its depth; `none` is the result false.
pub record BlockContext : Type 0 where
  pub previous_block_bits : ℕ
  pub actual_timespan : ℕ → ℕ
  pub median_time_past : ℕ
  pub transaction_exists : List ℕ → Bool
  pub output_is_spent : OutputPoint → Bool
  pub fetch_transaction : List ℕ → Option (Transaction × ℕ)
  -- The overload of is_output_spent that leaves out the input at these two indexes.
  pub is_output_spent : OutputPoint → ℕ → ℕ → Bool
  pub universal_time : ℕ

abbrev pub max_block_size : ℕ
max_block_size = 1000000

abbrev pub max_block_script_sig_operations : ℕ
max_block_script_sig_operations = max_block_size / 50

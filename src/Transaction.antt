-- ===== src/Transaction.antt =====
-- The tests and sums of src/transaction.cpp on a transaction.
pub mod Hash
pub mod Merkle
use libbitcoin.Prelude.{
  ℕ, ◌+◌, ◌%◌, ◌^◌, Bool, true, false, ◌&&◌, List, [], ◌∷◌, ◌==◌, ltb, if◌then◌else◌, chunk_eq,
  length,
}
use libbitcoin.Constants.{null_hash, locktime_threshold}
use libbitcoin.Messages.{OutputPoint, TransactionInput, TransactionOutput, Transaction}

-- `std::numeric_limits<uint32_t>::max()`.
abbrev pub max_uint32 : ℕ
max_uint32 = 0xffffffff

unfoldable pub previous_output_is_null : OutputPoint → Bool
previous_output_is_null p = p.index == max_uint32 && chunk_eq p.hash null_hash

-- The `operator==` of two output points.
unfoldable pub point_eq : OutputPoint → OutputPoint → Bool
point_eq a b = chunk_eq a.hash b.hash && a.index == b.index

only_input_is_null : List TransactionInput → Bool
only_input_is_null [] = false
only_input_is_null (input ∷ []) = previous_output_is_null input.previous_output
only_input_is_null (input ∷ next ∷ inputs) = false

unfoldable pub is_coinbase : Transaction → Bool
unfolding only_input_is_null
is_coinbase tx = only_input_is_null tx.inputs

-- The loop of `total_output_value`, on a uint64_t.
unfoldable pub total_loop : List TransactionOutput → ℕ → ℕ
total_loop [] total = total
total_loop (output ∷ outputs) total = total_loop outputs ((total + output.value) % 2 ^ 64)

unfoldable pub total_output_value : Transaction → ℕ
unfolding total_loop
total_output_value tx = total_loop tx.outputs 0

unfoldable pub input_is_final : TransactionInput → Bool
input_is_final input = input.sequence == max_uint32

inputs_are_final : List TransactionInput → Bool
unfolding input_is_final
inputs_are_final [] = true
inputs_are_final (input ∷ inputs) = if input_is_final input then inputs_are_final inputs else false

-- `max_locktime` is a uint32_t, so the size_t depth is cut to 32 bits.
unfoldable pub max_locktime : Transaction → ℕ → ℕ → ℕ
max_locktime tx block_depth block_time =
    if ltb tx.locktime locktime_threshold then block_depth % 2 ^ 32 else block_time

unfoldable pub is_final : Transaction → ℕ → ℕ → Bool
unfolding max_locktime inputs_are_final
is_final tx block_depth block_time =
    if tx.locktime == 0
    then true
    else if ltb tx.locktime (max_locktime tx block_depth block_time)
    then true
    else inputs_are_final tx.inputs

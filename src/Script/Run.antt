-- ===== src/Script/Run.antt =====
-- next_step and the two `run` of src/script.cpp.
pub mod Limits
pub mod Payments
pub mod Redeem
pub mod Branches
pub mod Guarantees
use libbitcoin.Prelude.{
  ℕ, zero, suc, ◌+◌, Bool, true, false, not, ◌&&◌, List, [], ◌∷◌, length, ltb, ◌==◌, if◌then◌else◌,
}
use libbitcoin.Openssl.{Openssl}
use libbitcoin.Messages.{Transaction}
use libbitcoin.Script.{Operation, Script}
use libbitcoin.Script.Opcode.{Opcode}
use libbitcoin.Script.Opcode.Kinds.{is_push, opcode_is_disabled, is_condition_opcode}
use libbitcoin.Script.Codec.{parse_script, script_size}
use libbitcoin.Script.Outcome.{Outcome, pass, fail, fault, require, trusted, ◌>>=◌}
use libbitcoin.Script.Values.{DataStack, cast_to_bool, has_failed_branches, closed}
use libbitcoin.Script.Types.{pays_script_hash}
use libbitcoin.Script.Machine.{Machine, run_operation}

unfoldable pub count_non_push : List Operation → ℕ
unfolding is_push
count_non_push [] = 0
count_non_push (op ∷ operations) =
    if is_push op.code then count_non_push operations else suc (count_non_push operations)

unfoldable pub is_push_only : List Operation → Bool
unfolding count_non_push
is_push_only operations = count_non_push operations == 0

unfoldable pub push_data : List ℕ → Machine → Outcome Machine
push_data bytes m = pass (record m { stack = bytes ∷ m.stack })

-- `stack_.empty()` and `cast_to_bool(stack_.back())`.
unfoldable pub ends_true : DataStack → Bool
ends_true [] = false
ends_true (top ∷ stack) = cast_to_bool top

unfoldable pub within_limit : Machine → Outcome Machine
within_limit m = if ltb 1000 (length m.stack + length m.alternate_stack) then fail else pass m

unfoldable pub start : List Operation → DataStack → Machine
start operations stack = record {
  stack = stack;
  alternate_stack = [];
  codehash = operations;
  conditional_stack = [];
}

module _ (o : Openssl) (parent_tx : Transaction) (input_index : ℕ) where
  -- The chain of `else if`: `it` is the operation with those after it.
  unfoldable pub execute : Opcode → List ℕ → List Operation → Machine → Outcome Machine
  unfolding push_data
  execute Opcode.zero bytes it m = push_data [] m
  execute Opcode.special bytes it m = push_data bytes m
  execute Opcode.pushdata1 bytes it m = push_data bytes m
  execute Opcode.pushdata2 bytes it m = push_data bytes m
  execute Opcode.pushdata4 bytes it m = push_data bytes m
  execute Opcode.codeseparator bytes it m = pass (record m { codehash = it })
  execute code bytes it m = run_operation o parent_tx input_index code m

  unfoldable pub next_step : Operation → List Operation → Machine → Outcome Machine
  unfolding opcode_is_disabled is_condition_opcode execute within_limit
  next_step op operations m =
      if ltb 520 (length op.bytes)
      then fail
      else if opcode_is_disabled op.code
      then fail
      else if has_failed_branches m.conditional_stack && not (is_condition_opcode op.code)
      then pass m
      else (execute op.code op.bytes (op ∷ operations) m >>= within_limit)

  unfoldable pub run_loop : List Operation → Machine → Outcome Machine
  unfolding next_step
  run_loop [] m = pass m
  run_loop (op ∷ operations) m = do m ← next_step op operations m; run_loop operations m

  -- `run(parent_tx, input_index)` from the stack the caller assigned; the stack it leaves.
  unfoldable pub run_script : Script → DataStack → Outcome DataStack
  unfolding run_loop start count_non_push
  run_script s stack =
      if ltb 10000 (script_size s)
      then fail
      else if ltb 201 (count_non_push s.operations)
      then fail
      else (run_loop s.operations (start s.operations stack) >>= λ m.
          require (closed m.conditional_stack) (pass m.stack))

  -- The branch for a spend to a script hash, on the stack the input script left.
  unfoldable pub run_eval_script : Script → DataStack → Outcome (Unit {0})
  unfolding run_script is_push_only ends_true
  run_eval_script input_script [] = require (is_push_only input_script.operations) fault
  run_eval_script input_script (top ∷ eval_stack) = require (is_push_only input_script.operations) (
      trusted (parse_script top) >>= λ eval_script.
      run_script eval_script eval_stack >>= λ stack. require (ends_true stack) (pass tt))

  unfoldable pub run : Script → Script → Bool → Outcome (Unit {0})
  unfolding run_script run_eval_script ends_true
  run s input_script bip16_enabled = run_script input_script [] >>= λ input_stack.
      run_script s input_stack >>= λ stack. require (ends_true stack) (
        if bip16_enabled && pays_script_hash s
        then run_eval_script input_script input_stack
        else pass tt)

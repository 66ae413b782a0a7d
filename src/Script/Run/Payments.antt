-- ===== src/Script/Run/Payments.antt =====
-- What the runs of a script hash payment and of a public key hash payment compute.
use libbitcoin.Prelude.{arith, ℕ, ◌≤◌, List, [], ◌∷◌, length, chunk_eq, ◌≡◌, if◌then◌else◌}
use libbitcoin.Openssl.{Openssl}
use libbitcoin.Digest.{generate_ripemd_hash}
use libbitcoin.Messages.{Transaction}
use libbitcoin.Script.{Operation, Script, empty_script}
use libbitcoin.Script.Opcode.{Opcode}
use libbitcoin.Script.Opcode.Kinds.{is_push, opcode_is_disabled, is_condition_opcode}
use libbitcoin.Script.Codec.{script_size, code_eq}
use libbitcoin.Script.Outcome.{pass, fail, ◌>>=◌}
use libbitcoin.Script.Values.{
  DataStack, has_failed_branches, closed, stack_true_value, stack_false_value,
}
use libbitcoin.Script.Stack.{op_equal, op_dup, op_equalverify}
use libbitcoin.Script.Arithmetic.{op_hash160, digest}
use libbitcoin.Script.Signature.Checks.{
  check_signature, script_code_loop, checksigverify_impl, op_checksig,
}
use libbitcoin.Script.Machine.{run_operation, on_stack}
use libbitcoin.Script.Run.{
  count_non_push, start, push_data, execute, within_limit, next_step, run_loop, run_script,
}

abbrev plain : Opcode → Operation
plain code = record { code = code; bytes = [] }

abbrev special : List ℕ → Operation
special bytes = record { code = Opcode.special; bytes = bytes }

-- The script that pays to a script hash.
unfoldable pub script_hash_script : List ℕ → Script
script_hash_script hash = record {
  operations = plain Opcode.hash160 ∷ special hash ∷ plain Opcode.equal ∷ [];
}

-- The script that pays to a public key hash.
unfoldable pub pubkey_hash_script : List ℕ → Script
pubkey_hash_script hash = record {
  operations =
      plain Opcode.dup
      ∷ plain Opcode.hash160
      ∷ special hash
      ∷ plain Opcode.equalverify
      ∷ plain Opcode.checksig
      ∷ [];
}

module _ (o : Openssl) (parent_tx : Transaction) (input_index : ℕ) where
  -- On a top item and at most 998 below it, the run of a script hash script with a hash of 20 bytes passes:
  -- it leaves those below as they are, and in the place of the top whether its hash is the one the script
  -- holds.
  pub run_script-script_hash_script :
      (hash : List ℕ) (top : List ℕ) (rest : DataStack)
      → length hash ≡ 20
      → length rest ≤ 998
      → run_script o parent_tx input_index (script_hash_script hash) (top ∷ rest)
        ≡ pass (
            (if chunk_eq hash (generate_ripemd_hash o top)
              then stack_true_value
              else stack_false_value)
            ∷ rest)
  unfolding script_hash_script run_script script_size run_loop start count_non_push is_push closed
      next_step opcode_is_disabled has_failed_branches is_condition_opcode execute push_data
      run_operation on_stack op_hash160 digest op_equal within_limit code_eq
  run_script-script_hash_script hash top rest size room = ground arith

  -- On a public key, a signature and at most 996 items below them, the run of a public key hash script
  -- with a hash of 20 bytes fails where the key's hash is not the one the script holds, and
  -- otherwise ends as the check of the signature, against the script's operations less those with
  -- the signature's bytes, and leaves the rest as it is.
  pub run_script-pubkey_hash_script :
      (hash pubkey signature : List ℕ) (rest : DataStack)
      → length hash ≡ 20
      → length rest ≤ 996
      → run_script o parent_tx input_index (pubkey_hash_script hash) (pubkey ∷ signature ∷ rest) ≡ (
          if chunk_eq hash (generate_ripemd_hash o pubkey)
          then (check_signature o parent_tx input_index signature pubkey (
                script_code_loop (signature ∷ []) (pubkey_hash_script hash).operations empty_script)
              >>= λ verified.
                  pass ((if verified then stack_true_value else stack_false_value) ∷ rest))
          else fail)
  unfolding pubkey_hash_script run_script script_size run_loop start count_non_push is_push closed
      next_step opcode_is_disabled has_failed_branches is_condition_opcode execute push_data
      run_operation on_stack op_dup op_hash160 digest op_equalverify op_checksig checksigverify_impl
      within_limit code_eq
  run_script-pubkey_hash_script hash pubkey signature rest size room = ground (arith)

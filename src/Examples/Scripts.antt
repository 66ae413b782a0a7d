-- ===== src/Examples/Scripts.antt =====
-- Runs of scripts at concrete inputs.
use libbitcoin.Prelude.{
  arith, ℕ, ◌≤◌, ◌≡◌, ◌≢◌, ◌↔◌, refl, true, false, List, [], ◌∷◌, replicate, All, ok, some,
  if◌then◌else◌, chunk_eq,
}
use libbitcoin.Digest.{generate_ripemd_hash, generate_sha256_hash}
use libbitcoin.Script.{Script, empty_script, push_operation}
use libbitcoin.Script.Opcode.{Opcode, from_value}
use libbitcoin.Script.Codec.{
  parse_script, parse_loop, parse_operation, code_eq, save_script, save_loop, operation_metadata,
  script_size,
}
use libbitcoin.BigNumber.{data_of, set_uint32}
use libbitcoin.Script.Arithmetic.{op_x, op_hash160}
use libbitcoin.Script.Types.{pays_script_hash}
use libbitcoin.Script.Opcode.Kinds.{opcode_is_disabled}
use libbitcoin.Script.Signature.Hash.{generate_signature_hash}
use libbitcoin.SatoshiSerialize.{variable_uint_size}
use libbitcoin.SatoshiSerialize.Tx.{
  satoshi_save_transaction, transaction_raw_size, save_transaction,
}
use libbitcoin.Serializer.{
  write_4_bytes, write_data, write_variable_uint, write_byte, write_8_bytes, write_hash,
}
use libbitcoin.Format.{uncast_type, value_bytes}
use libbitcoin.Script.Outcome.{pass, fail, fault, ◌>>=◌}
use libbitcoin.Script.Values.{
  DataStack, stack_true_value, stack_false_value, has_failed_branches, cast_to_bool, invert_top,
  close_top, closed,
}
use libbitcoin.Script.Stack.{op_equal}
use libbitcoin.Script.Signature.Checks.{check_signature, check_signatures, script_code_loop}
use libbitcoin.Script.Signature.Multisig.{Matches, check_signatures_iff, check_signatures-replicate}
use libbitcoin.Script.Machine.{Machine, run_operation}
use libbitcoin.Script.Run.{count_non_push, is_push_only, next_step, run_script, run}
use libbitcoin.Script.Run.Limits.{IsAllowed, branch_depth}
use libbitcoin.Script.Run.Guarantees.{run_script-All}
use libbitcoin.Script.Run.Branches.{
  is_asserted, IsUntouched, next_step-IsUntouched, next_step-is_asserted,
}
use libbitcoin.Script.Run.Payments.{
  script_hash_script, pubkey_hash_script, run_script-pubkey_hash_script,
}
use libbitcoin.Script.Run.Redeem.{IsRedeemed, run-script_hash_script}
use libbitcoin.Script.Signature.Hash.Covers.{with_scripts, generate_signature_hash-with_scripts}
use libbitcoin.Examples.Toy.{toy, op, push, script_of, payment}

abbrev branching : Script
branching = script_of (
    op Opcode.op_1
    ∷ op Opcode.if_
    ∷ push (7 ∷ [])
    ∷ op Opcode.else_
    ∷ op Opcode.return_
    ∷ op Opcode.endif
    ∷ [])

branching-passes : run_script toy payment 0 branching [] ≡ pass ((7 ∷ []) ∷ [])
unfolding run_script script_size code_eq has_failed_branches run_operation op_x cast_to_bool data_of
    set_uint32 invert_top close_top closed
branching-passes = refl

run_script-All_example :
    (script_size branching ≤ 10000)
    × (count_non_push branching.operations ≤ 201)
    × All IsAllowed branching.operations
    × (branch_depth branching.operations 0 ≡ some 0)
run_script-All_example = run_script-All toy payment 0 branching [] branching-passes

-- A script that leaves 1, and its toy hash.
abbrev redeem_bytes : List ℕ
redeem_bytes = 81 ∷ []

abbrev redeem_hash : List ℕ
redeem_hash = 81 ∷ replicate 19 0

abbrev redeeming_input : Script
redeeming_input = script_of (push redeem_bytes ∷ [])

redeems : run toy payment 0 (script_hash_script redeem_hash) redeeming_input true ≡ pass tt
unfolding run run_script script_size code_eq has_failed_branches run_operation op_x cast_to_bool
    data_of set_uint32 invert_top close_top closed script_hash_script op_hash160 op_equal chunk_eq
    generate_ripemd_hash pays_script_hash parse_script parse_loop parse_operation from_value
    push_operation
redeems = refl

run-script_hash_script_example :
    (is_push_only redeeming_input.operations ≡ true)
    × (top : List ℕ) × (rest : DataStack) × (run_script toy payment 0 redeeming_input []
        ≡ pass (top ∷ rest))
    × (generate_ripemd_hash toy top ≡ redeem_hash)
    × (eval_script : Script) × (parse_script top ≡ ok eval_script)
    × IsRedeemed toy payment 0 eval_script rest
run-script_hash_script_example =
    run-script_hash_script toy payment 0 redeem_hash redeeming_input refl redeems

run_script-pubkey_hash_script_example :
    run_script toy payment 0 (pubkey_hash_script redeem_hash) (redeem_bytes ∷ (81 ∷ 1 ∷ []) ∷ [])
    ≡ (if chunk_eq redeem_hash (generate_ripemd_hash toy redeem_bytes)
        then (check_signature toy payment 0 (81 ∷ 1 ∷ []) redeem_bytes (
              script_code_loop
                ((81 ∷ 1 ∷ []) ∷ [])
                (pubkey_hash_script redeem_hash).operations
                empty_script)
            >>= λ verified. pass ((if verified then stack_true_value else stack_false_value) ∷ []))
        else fail)
run_script-pubkey_hash_script_example =
    run_script-pubkey_hash_script toy payment 0 redeem_hash redeem_bytes (81 ∷ 1 ∷ []) [] refl
      (omega arith)

abbrev skipping : Machine
skipping = record {
  stack = (7 ∷ []) ∷ [];
  alternate_stack = [];
  codehash = [];
  conditional_stack = false ∷ [];
}

skipping_failed : has_failed_branches skipping.conditional_stack ≡ true
unfolding has_failed_branches
skipping_failed = refl

cat_asserted : is_asserted Opcode.cat ≡ true
unfolding is_asserted opcode_is_disabled
cat_asserted = refl

skips : next_step toy payment 0 (op Opcode.drop) [] skipping ≡ pass skipping
unfolding next_step has_failed_branches
skips = refl

next_step-IsUntouched_example : IsUntouched skipping skipping
next_step-IsUntouched_example =
    next_step-IsUntouched toy payment 0 (op Opcode.drop) [] skipping skipping_failed skips

next_step-is_asserted_example :
    (run_operation toy payment 0 Opcode.cat skipping ≡ fault)
    × (next_step toy payment 0 (op Opcode.cat) [] skipping ≢ fault)
next_step-is_asserted_example =
    next_step-is_asserted toy payment 0 (op Opcode.cat) [] skipping cat_asserted

-- The toy verifies a signature that is its public key and a hash type.
verified_by_key : check_signature toy payment 0 (5 ∷ 1 ∷ []) (5 ∷ []) empty_script ≡ pass true
unfolding check_signature generate_signature_hash satoshi_save_transaction transaction_raw_size
    variable_uint_size save_script code_eq save_loop operation_metadata save_transaction
    write_4_bytes write_data write_variable_uint write_byte write_8_bytes write_hash uncast_type
    value_bytes generate_sha256_hash chunk_eq
verified_by_key = refl

check_signatures_iff_example :
    (check_signatures toy payment 0 empty_script ((5 ∷ 1 ∷ []) ∷ []) ((4 ∷ []) ∷ (5 ∷ []) ∷ [])
      ≡ pass true)
    ↔ Matches toy payment 0 empty_script ((5 ∷ 1 ∷ []) ∷ []) ((4 ∷ []) ∷ (5 ∷ []) ∷ [])
check_signatures_iff_example =
    check_signatures_iff toy payment 0 empty_script ((5 ∷ 1 ∷ []) ∷ []) ((4 ∷ []) ∷ (5 ∷ []) ∷ [])

check_signatures-replicate_example :
    check_signatures toy payment 0 empty_script
      (replicate 2 (5 ∷ 1 ∷ []))
      ((5 ∷ []) ∷ (6 ∷ []) ∷ [])
    ≡ pass true
check_signatures-replicate_example =
    check_signatures-replicate toy payment 0 empty_script (5 ∷ 1 ∷ []) (5 ∷ []) 2 ((6 ∷ []) ∷ [])
      verified_by_key

generate_signature_hash-with_scripts_example :
    (generate_signature_hash toy
        (record payment { inputs = with_scripts (λ _. branching) payment.inputs })
        0
        branching
        0x82
      ≡ generate_signature_hash toy payment 0 branching 0x82)
    × (generate_signature_hash toy (record payment { outputs = [] }) 0 branching 0x82
        ≡ generate_signature_hash toy payment 0 branching 0x82)
generate_signature_hash-with_scripts_example =
    generate_signature_hash-with_scripts toy payment 0 branching 0x82 (λ _. branching) [] refl

-- ===== src/Examples/Blocks.antt =====
-- The checks of blocks in src/validate.cpp at concrete blocks.
use libbitcoin.Prelude.{
  arith, ℕ, ◌+◌, ◌⊎◌, ◌*◌, ◌/◌, ◌≤◌, ◌<◌, ◌≡◌, ◌≢◌, refl, false, List, [], ◌∷◌, some, chunk_eq,
}
use libbitcoin.Format.{cast_chunk, uncast_type, value_bytes}
use libbitcoin.Constants.{max_money, max_bits}
use libbitcoin.Messages.{Transaction, Block}
use libbitcoin.Transaction.{total_output_value, is_coinbase, previous_output_is_null}
use libbitcoin.Transaction.Hash.{hash_transaction}
use libbitcoin.Transaction.Merkle.{generate_merkle_root, merkle_parent}
use libbitcoin.Block.{block_value, hash_block_header}
use libbitcoin.Script.Opcode.{value_of}
use libbitcoin.Validate.Verdict.{valid}
use libbitcoin.Validate.Block.{BlockContext}
use libbitcoin.Validate.Block.Check.{check_block, has_coinbase}
use libbitcoin.Validate.Block.Connect.{connect_block}
use libbitcoin.Script.Run.{run}
use libbitcoin.Script.Codec.{code_eq, script_size, operation_metadata, save_loop, save_script}
use libbitcoin.Script.Values.{has_failed_branches, closed, cast_to_bool}
use libbitcoin.Script.Machine.{run_operation}
use libbitcoin.Script.Arithmetic.{op_x}
use libbitcoin.Script.Types.{pays_script_hash}
use libbitcoin.BigNumber.{data_of, set_uint32, big_le, set_compact, compact_of, set_hash}
use libbitcoin.Validate.Block.Work.{max_target, work_required, check_proof_of_work}
use libbitcoin.Validate.Block.Guarantees.{IsChecked, check_block-IsChecked}
use libbitcoin.Validate.Block.Repeats.{check_block-repeated}
use libbitcoin.Validate.Block.Retarget.{BignumLaws, work_required-bounds}
use libbitcoin.Validate.Block.Inflation.{AllConnected, validate_block-conserved}
use libbitcoin.SatoshiSerialize.Blocks.{block_raw_size}
use libbitcoin.SatoshiSerialize.{variable_uint_size}
use libbitcoin.SatoshiSerialize.Tx.{
  satoshi_save_transaction, save_transaction, transaction_raw_size,
}
use libbitcoin.Digest.{generate_sha256_hash}
use libbitcoin.Validate.Block.Duplicates.{not_duplicate_or_spent}
use libbitcoin.Serializer.{
  write_4_bytes, write_8_bytes, write_byte, write_data, write_hash, write_variable_uint,
}
use libbitcoin.Validate.Sigops.{legacy_sigops_count, tx_legacy_sigops_count}
use libbitcoin.Validate.Block.Inputs.{script_hash_signature_operations_count, validate_inputs}
use libbitcoin.Validate.Connect.{add_value, tally_fees}
use libbitcoin.Validate.Check.{check_transaction}
use libbitcoin.Transaction.{is_final}
use libbitcoin.Validate.Bounds.{output_sum}
use libbitcoin.Validate.Block.Accept.{accept_block}
use libbitcoin.Validate.Block.Start.{validate_block}
use libbitcoin.Validate.Block.Checkpoints.{passes_checkpoints}
use libbitcoin.Examples.Toy.{wide, coinbase, spender, funding, mined}

abbrev context : BlockContext
context = record {
  previous_block_bits = max_bits;
  actual_timespan = λ n. 1209600;
  median_time_past = 900;
  transaction_exists = λ hash. false;
  output_is_spent = λ output. false;
  fetch_transaction = λ hash. some (funding, 3);
  is_output_spent = λ output parent index. false;
  universal_time = 1000;
}

mined_checked : check_block wide 1000 mined ≡ valid tt
unfolding check_block max_money is_coinbase previous_output_is_null block_raw_size
    variable_uint_size transaction_raw_size save_script code_eq save_loop operation_metadata
    check_proof_of_work big_le set_compact cast_chunk set_hash set_uint32 generate_sha256_hash
    hash_block_header value_of script_size not_duplicate_or_spent hash_transaction
    satoshi_save_transaction save_transaction write_4_bytes write_data write_variable_uint
    write_byte write_8_bytes write_hash uncast_type value_bytes tx_legacy_sigops_count
    validate_inputs script_hash_signature_operations_count add_value tally_fees total_output_value
    block_value generate_merkle_root legacy_sigops_count chunk_eq has_coinbase check_transaction
    merkle_parent
mined_checked = refl

mined_connected : connect_block wide context 5 mined ≡ valid tt
unfolding connect_block max_money is_coinbase previous_output_is_null run script_size code_eq
    has_failed_branches closed run_operation op_x cast_to_bool data_of set_uint32 pays_script_hash
    not_duplicate_or_spent hash_transaction satoshi_save_transaction transaction_raw_size
    variable_uint_size save_script save_loop operation_metadata save_transaction write_4_bytes
    write_data write_variable_uint write_byte write_8_bytes write_hash uncast_type value_bytes
    tx_legacy_sigops_count validate_inputs script_hash_signature_operations_count add_value
    tally_fees total_output_value block_value
mined_connected = refl

mined_accepted : accept_block wide context 5 mined ≡ valid tt
unfolding accept_block work_required is_final passes_checkpoints
mined_accepted = refl

mined_validated : validate_block wide context 5 mined ≡ valid tt
unfolding validate_block
mined_validated = rw (mined_checked, mined_accepted) mined_connected

validate_block-conserved_example :
    (first : Transaction) × (transactions : List Transaction) × (subsidy : ℕ) × (inputs_value : ℕ)
    × (outputs_value : ℕ) × (coinbase ∷ spender ∷ [] ≡ first ∷ transactions)
    × (block_value 5 ≡ some subsidy)
    × AllConnected wide context 5 1000 1 transactions inputs_value outputs_value
    × (output_sum first.outputs + outputs_value ≤ subsidy + inputs_value)
validate_block-conserved_example = validate_block-conserved wide context 5 mined mined_validated

check_block-IsChecked_example : IsChecked wide 1000 mined
check_block-IsChecked_example = check_block-IsChecked wide 1000 mined mined_checked

abbrev repeated : Block
repeated = record mined { transactions = coinbase ∷ spender ∷ spender ∷ [] }

check_block-repeated_example : check_block wide 1000 repeated ≢ valid tt
check_block-repeated_example =
    check_block-repeated wide 1000 repeated spender (coinbase ∷ []) [] [] refl

laws : BignumLaws wide
unfolding big_le
laws = record {
  magnitude = λ n. n;
  set_word = λ word h. (refl, refl);
  mul = λ a b h k. (refl, refl);
  div = λ a b h k l. (refl, refl);
  cmp = λ a b h k. refl;
}

work_required-bounds_example :
    (target : ℕ) × (work_required wide context 2016 ≡ compact_of wide target)
    × (target ≤ max_target wide)
    × (target ≤ set_compact wide max_bits * 4)
    × ((max_target wide < set_compact wide max_bits) ⊎ (set_compact wide max_bits / 4 ≤ target))
unfolding laws
work_required-bounds_example =
    work_required-bounds wide laws context 2016 (λ e. omega (arith, e)) refl refl refl

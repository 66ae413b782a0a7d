-- ===== src/Examples/Wire.antt =====
-- Saves and loads at concrete messages.
use libbitcoin.Prelude.{
  arith, ℕ, ◌≡◌, ◌≢◌, refl, inr, List, [], ◌∷◌, length, replicate, All, ok, err, out_of_bounds,
  out_of_fuel, ◌>>=◌,
}
use libbitcoin.Format.{IsByte, cast_chunk}
use libbitcoin.Messages.{Block}
use libbitcoin.Script.{Script, push_operation}
use libbitcoin.Script.Opcode.{Opcode, from_value}
use libbitcoin.Script.Codec.{
  code_eq, parse_script, parse_loop, parse_operation, read_push_data, save_script, save_loop,
  operation_metadata, script_size,
}
use libbitcoin.Script.Codec.Save.{StartsCoded, script_size-save_script}
use libbitcoin.Script.Codec.Parse.{IsCanonical, parse_script-save_script}
use libbitcoin.Script.Codec.Resave.{save_script-parse_script}
use libbitcoin.Script.Codec.Faults.{parse_script-ends}
use libbitcoin.Script.Codec.Overrun.{CutPush, bytes_before, parse_script_overrun}
use libbitcoin.Transaction.{previous_output_is_null}
use libbitcoin.SatoshiSerialize.Tx.{satoshi_save_transaction, satoshi_load_transaction}
use libbitcoin.SatoshiSerialize.Tx.RoundTrip.{
  InputFits, OutputFits, TransactionFits, satoshi_load-satoshi_save,
}
use libbitcoin.SatoshiSerialize.Blocks.{save_block, load_block, block_raw_size}
use libbitcoin.SatoshiSerialize.Blocks.RoundTrip.{BlockFits, load_block-save_block}
use libbitcoin.Examples.Toy.{op, push, script_of, spent_input, paid_output, payment, no_transaction}

abbrev two_pushes : Script
two_pushes =
    script_of
      (push (9 ∷ 8 ∷ []) ∷ op Opcode.dup ∷ record { code = Opcode.pushdata1; bytes = 5 ∷ [] } ∷ [])

two_pushes-All : All IsCanonical two_pushes.operations
two_pushes-All = ((omega arith, omega arith), (refl, (omega arith, tt)))

two_pushes-StartsCoded : StartsCoded two_pushes.operations
two_pushes-StartsCoded = unfold code_eq in refl

parse_script-save_script_example : parse_script (save_script two_pushes) ≡ ok two_pushes
parse_script-save_script_example =
    parse_script-save_script two_pushes two_pushes-All two_pushes-StartsCoded

abbrev two_pushes_bytes : List ℕ
two_pushes_bytes = 2 ∷ 9 ∷ 8 ∷ 118 ∷ 76 ∷ 1 ∷ 5 ∷ []

two_pushes_parsed : parse_script two_pushes_bytes ≡ ok two_pushes
unfolding parse_script parse_loop parse_operation read_push_data from_value cast_chunk
    push_operation
two_pushes_parsed = refl

two_pushes_bytes-All : All IsByte two_pushes_bytes
two_pushes_bytes-All = omega arith

some_operations : two_pushes.operations ≢ []
some_operations e = cc

save_script-parse_script_example : save_script two_pushes ≡ two_pushes_bytes
save_script-parse_script_example =
    save_script-parse_script two_pushes_bytes two_pushes two_pushes_bytes-All two_pushes_parsed
      some_operations two_pushes-StartsCoded

parse_script-ends_example : parse_script (78 ∷ 1 ∷ []) ≢ err out_of_fuel
parse_script-ends_example = parse_script-ends (78 ∷ 1 ∷ [])

parse_script_overrun_example :
    parse_script (bytes_before two_pushes.operations (77 ∷ 4 ∷ [])) ≡ err out_of_bounds
parse_script_overrun_example =
    parse_script_overrun two_pushes.operations 77 (4 ∷ []) two_pushes-All
      (CutPush.cut2 refl (omega arith))

script_size-save_script_example : script_size two_pushes ≡ length (save_script two_pushes)
script_size-save_script_example = script_size-save_script two_pushes

spent_input-InputFits : InputFits spent_input
unfolding previous_output_is_null code_eq save_script save_loop operation_metadata
spent_input-InputFits = record {
  hash_size = refl;
  index_fits = omega arith;
  sequence_fits = omega arith;
  input_script_fits = inr (
    refl,
    record { canonical = ((omega arith, omega arith), tt); coded = refl; fits = omega arith },
  );
}

paid_output-OutputFits : OutputFits paid_output
unfolding code_eq save_script save_loop operation_metadata
paid_output-OutputFits = record {
  value_fits = omega arith;
  output_script_fits = record { canonical = (refl, (refl, tt)); coded = refl; fits = omega arith };
}

payment-TransactionFits : TransactionFits payment
payment-TransactionFits = record {
  version_fits = omega arith;
  locktime_fits = omega arith;
  input_count = omega arith;
  output_count = omega arith;
  inputs_fit = (spent_input-InputFits, tt);
  outputs_fit = (paid_output-OutputFits, tt);
}

satoshi_load-satoshi_save_example :
    (satoshi_save_transaction payment >>= satoshi_load_transaction no_transaction) ≡ ok payment
satoshi_load-satoshi_save_example =
    satoshi_load-satoshi_save payment no_transaction payment-TransactionFits (refl, refl)

abbrev payment_block : Block
payment_block = record {
  version = 1;
  previous_block_hash = replicate 32 0;
  merkle = replicate 32 5;
  timestamp = 1231006505;
  bits = 0x1d00ffff;
  nonce = 2083236893;
  transactions = payment ∷ [];
}

payment_block-BlockFits : BlockFits payment_block
payment_block-BlockFits = record {
  version_fits = omega arith;
  previous_block_hash_size = refl;
  merkle_size = refl;
  timestamp_fits = omega arith;
  bits_fit = omega arith;
  nonce_fits = omega arith;
  transaction_count = omega arith;
  transactions_fit = (payment-TransactionFits, tt);
}

abbrev no_block : Block
no_block = record payment_block { transactions = [] }

load_block-save_block_example :
    (out : List ℕ) × (save_block payment_block ≡ ok out)
    × (length out ≡ block_raw_size payment_block)
    × (load_block no_block out ≡ ok payment_block)
load_block-save_block_example =
    load_block-save_block payment_block no_block payment_block-BlockFits refl

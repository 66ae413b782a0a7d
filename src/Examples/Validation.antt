-- ===== src/Examples/Validation.antt =====
-- The checks of src/validate.cpp at concrete transactions.
use libbitcoin.Prelude.{arith, ◌≤◌, ◌≡◌, ◌≢◌, ◌↔◌, refl, true, [], ◌∷◌, ◌++◌, map, none}
use libbitcoin.Constants.{max_money}
use libbitcoin.Messages.{Transaction}
use libbitcoin.Transaction.{total_output_value, is_coinbase, previous_output_is_null}
use libbitcoin.Script.Opcode.{Opcode, value_of}
use libbitcoin.Script.Outcome.{pass}
use libbitcoin.Script.Run.{run}
use libbitcoin.Script.Codec.{code_eq, script_size}
use libbitcoin.Script.Values.{has_failed_branches, closed, cast_to_bool}
use libbitcoin.Script.Machine.{run_operation}
use libbitcoin.Script.Arithmetic.{op_x}
use libbitcoin.Script.Types.{pays_script_hash}
use libbitcoin.BigNumber.{data_of, set_uint32}
use libbitcoin.Validate.Check.{check_transaction}
use libbitcoin.Validate.Connect.{connect_input}
use libbitcoin.Validate.Sigops.{count_script_sigops, pushed_key, count_script_sigops-value_of}
use libbitcoin.Validate.Bounds.{output_sum, check_transaction-total_output_value}
use libbitcoin.Validate.Accepts.{Spends, connect_input_iff}
use libbitcoin.Examples.Toy.{toy, op, script_of, spent_input, paid_output, payment}

payment_checked : check_transaction payment ≡ none
unfolding check_transaction max_money is_coinbase previous_output_is_null
payment_checked = refl

check_transaction-total_output_value_example :
    (payment.inputs ≢ [])
    × (payment.outputs ≢ [])
    × (output_sum payment.outputs ≤ max_money)
    × (total_output_value payment ≡ output_sum payment.outputs)
check_transaction-total_output_value_example =
    check_transaction-total_output_value payment payment_checked

abbrev funding : Transaction
funding = record {
  version = 1;
  locktime = 0;
  inputs = spent_input ∷ [];
  outputs =
      paid_output ∷ record { value = 7; output_script = script_of (op Opcode.op_1 ∷ []) } ∷ [];
}

input_connected : connect_input toy payment 0 funding 5 10 3 ≡ pass 10
unfolding connect_input max_money is_coinbase previous_output_is_null run script_size code_eq
    has_failed_branches closed run_operation op_x cast_to_bool data_of set_uint32 pays_script_hash
input_connected = refl

three_in_range : 3 ≤ max_money
unfolding max_money
three_in_range = omega arith

connect_input_iff_example :
    (connect_input toy payment 0 funding 5 10 3 ≡ pass 10) ↔ Spends toy payment 0 funding 5 10 3 10
connect_input_iff_example =
    connect_input_iff toy payment 0 funding 5 10 3 10 three_in_range (omega arith) (omega arith)

-- Both sides hold here.
input_Spends : Spends toy payment 0 funding 5 10 3 10
input_Spends =
    (connect_input_iff toy payment 0 funding 5 10 3 10 three_in_range (omega arith) (omega arith)).0
      input_connected

number_in_range : 81 ≤ value_of Opcode.op_2
unfolding value_of
number_in_range = omega arith

number_below : value_of Opcode.op_2 ≤ 96
unfolding value_of
number_below = omega arith

count_script_sigops-value_of_example :
    count_script_sigops
      (record { code = Opcode.op_2; bytes = [] } ∷ map pushed_key ((4 ∷ []) ∷ (5 ∷ []) ∷ [])
        ++ record { code = Opcode.op_2; bytes = [] }
          ∷ record { code = Opcode.checkmultisig; bytes = [] }
          ∷ [])
      true
    ≡ value_of Opcode.op_2
count_script_sigops-value_of_example =
    count_script_sigops-value_of Opcode.op_2 Opcode.op_2 ((4 ∷ []) ∷ (5 ∷ []) ∷ []) number_in_range
      number_below number_in_range number_below

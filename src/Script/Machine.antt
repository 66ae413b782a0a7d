-- ===== src/Script/Machine.antt =====
-- run_operation of src/script.cpp, the opcodes that touch more than the stack, and the state of a run.
pub mod Conditions
use libbitcoin.Prelude.{ℕ, Bool, true, false, List, [], ◌∷◌, if◌then◌else◌}
use libbitcoin.Openssl.{Openssl}
use libbitcoin.Messages.{Transaction}
use libbitcoin.Script.{Operation}
use libbitcoin.Script.Opcode.{Opcode}
use libbitcoin.Script.Outcome.{Outcome, pass, fail, fault, ◌>>=◌}
use libbitcoin.Script.Values.{DataStack, cast_to_bool, has_failed_branches, invert_top, close_top}
use libbitcoin.Script.Stack.{
  op_2drop, op_2dup, op_2over, op_2rot, op_2swap, op_3dup, op_drop, op_dup, op_equal,
  op_equalverify, op_ifdup, op_nip, op_over, op_rot, op_swap, op_tuck, op_verify, op_depth, op_size,
  pick_roll_impl,
}
use libbitcoin.Script.Arithmetic.{
  op_0notequal, op_1add, op_1sub, op_abs, op_add, op_booland, op_boolor, op_greaterthan,
  op_greaterthanorequal, op_hash160, op_hash256, op_lessthan, op_lessthanorequal, op_max, op_min,
  op_negate, op_negative_1, op_not, op_numequal, op_numequalverify, op_numnotequal, op_ripemd160,
  op_sha1, op_sha256, op_sub, op_within, op_x,
}
use libbitcoin.Script.Signature.Checks.{
  op_checksig, op_checksigverify, op_checkmultisig, op_checkmultisigverify,
}

-- The members of `script` that a run changes. `codehash` is the operations from `codehash_begin_` on.
pub record Machine : Type 0 where
  pub stack : DataStack
  pub alternate_stack : DataStack
  pub codehash : List Operation
  pub conditional_stack : List Bool

unfoldable pub on_stack : (DataStack → Outcome DataStack) → Machine → Outcome Machine
on_stack f m = do stack ← f m.stack; pass (record m { stack = stack })

unfoldable pub on_conditions : (List Bool → Outcome (List Bool)) → Machine → Outcome Machine
on_conditions f m = do
  conditions ← f m.conditional_stack
  pass (record m { conditional_stack = conditions })

unfoldable pub open_on : DataStack → Machine → Outcome Machine
open_on [] m = fail
open_on (top ∷ stack) m =
    pass (record m { stack = stack; conditional_stack = cast_to_bool top ∷ m.conditional_stack })

unfoldable pub op_if : Machine → Outcome Machine
unfolding open_on
op_if m =
    if has_failed_branches m.conditional_stack
    then pass (record m { conditional_stack = false ∷ m.conditional_stack })
    else open_on m.stack m

unfoldable pub op_notif : Machine → Outcome Machine
unfolding op_if on_conditions
op_notif m = do opened ← op_if m; on_conditions invert_top opened

-- The test `conditional_stack_.closed()` comes first.
unfoldable pub guarded : (List Bool → Outcome (List Bool)) → List Bool → Outcome (List Bool)
guarded f [] = fail
guarded f (value ∷ values) = f (value ∷ values)

unfoldable pub op_else : Machine → Outcome Machine
unfolding on_conditions guarded
op_else = on_conditions (guarded invert_top)

unfoldable pub op_endif : Machine → Outcome Machine
unfolding on_conditions guarded
op_endif = on_conditions (guarded close_top)

unfoldable pub to_alternate : DataStack → Machine → Outcome Machine
to_alternate [] m = fail
to_alternate (top ∷ stack) m =
    pass (record m { stack = stack; alternate_stack = top ∷ m.alternate_stack })

unfoldable pub op_toaltstack : Machine → Outcome Machine
unfolding to_alternate
op_toaltstack m = to_alternate m.stack m

unfoldable pub from_alternate : DataStack → Machine → Outcome Machine
from_alternate [] m = fail
from_alternate (top ∷ stack) m = pass (record m { stack = top ∷ m.stack; alternate_stack = stack })

unfoldable pub op_fromaltstack : Machine → Outcome Machine
unfolding from_alternate
op_fromaltstack m = from_alternate m.alternate_stack m

module _ (o : Openssl) (parent_tx : Transaction) (input_index : ℕ) where
  -- A BITCOIN_ASSERT_MSG, which none of these opcodes meets, is `fault`.
  unfoldable pub run_operation : Opcode → Machine → Outcome Machine
  unfolding on_stack op_if op_notif op_else op_endif op_toaltstack op_fromaltstack
  run_operation Opcode.zero m = fault
  run_operation Opcode.special m = fault
  run_operation Opcode.pushdata1 m = fault
  run_operation Opcode.pushdata2 m = fault
  run_operation Opcode.pushdata4 m = fault
  run_operation Opcode.negative_1 m = on_stack (op_negative_1 o) m
  run_operation Opcode.reserved m = fail
  run_operation Opcode.op_1 m = on_stack (op_x o Opcode.op_1) m
  run_operation Opcode.op_2 m = on_stack (op_x o Opcode.op_2) m
  run_operation Opcode.op_3 m = on_stack (op_x o Opcode.op_3) m
  run_operation Opcode.op_4 m = on_stack (op_x o Opcode.op_4) m
  run_operation Opcode.op_5 m = on_stack (op_x o Opcode.op_5) m
  run_operation Opcode.op_6 m = on_stack (op_x o Opcode.op_6) m
  run_operation Opcode.op_7 m = on_stack (op_x o Opcode.op_7) m
  run_operation Opcode.op_8 m = on_stack (op_x o Opcode.op_8) m
  run_operation Opcode.op_9 m = on_stack (op_x o Opcode.op_9) m
  run_operation Opcode.op_10 m = on_stack (op_x o Opcode.op_10) m
  run_operation Opcode.op_11 m = on_stack (op_x o Opcode.op_11) m
  run_operation Opcode.op_12 m = on_stack (op_x o Opcode.op_12) m
  run_operation Opcode.op_13 m = on_stack (op_x o Opcode.op_13) m
  run_operation Opcode.op_14 m = on_stack (op_x o Opcode.op_14) m
  run_operation Opcode.op_15 m = on_stack (op_x o Opcode.op_15) m
  run_operation Opcode.op_16 m = on_stack (op_x o Opcode.op_16) m
  run_operation Opcode.nop m = pass m
  run_operation Opcode.ver m = fail
  run_operation Opcode.if_ m = op_if m
  run_operation Opcode.notif m = op_notif m
  run_operation Opcode.verif m = fault
  run_operation Opcode.vernotif m = fault
  run_operation Opcode.else_ m = op_else m
  run_operation Opcode.endif m = op_endif m
  run_operation Opcode.verify m = on_stack op_verify m
  run_operation Opcode.return_ m = fail
  run_operation Opcode.toaltstack m = op_toaltstack m
  run_operation Opcode.fromaltstack m = op_fromaltstack m
  run_operation Opcode.op_2drop m = on_stack op_2drop m
  run_operation Opcode.op_2dup m = on_stack op_2dup m
  run_operation Opcode.op_3dup m = on_stack op_3dup m
  run_operation Opcode.op_2over m = on_stack op_2over m
  run_operation Opcode.op_2rot m = on_stack op_2rot m
  run_operation Opcode.op_2swap m = on_stack op_2swap m
  run_operation Opcode.ifdup m = on_stack op_ifdup m
  run_operation Opcode.depth m = on_stack (op_depth o) m
  run_operation Opcode.drop m = on_stack op_drop m
  run_operation Opcode.dup m = on_stack op_dup m
  run_operation Opcode.nip m = on_stack op_nip m
  run_operation Opcode.over m = on_stack op_over m
  run_operation Opcode.pick m = on_stack (pick_roll_impl o false) m
  run_operation Opcode.roll m = on_stack (pick_roll_impl o true) m
  run_operation Opcode.rot m = on_stack op_rot m
  run_operation Opcode.swap m = on_stack op_swap m
  run_operation Opcode.cat m = fault
  run_operation Opcode.substr m = fault
  run_operation Opcode.left m = fault
  run_operation Opcode.right m = fault
  run_operation Opcode.tuck m = on_stack op_tuck m
  run_operation Opcode.size m = on_stack (op_size o) m
  run_operation Opcode.invert m = fault
  run_operation Opcode.and_ m = fault
  run_operation Opcode.or_ m = fault
  run_operation Opcode.xor_ m = fault
  run_operation Opcode.equal m = on_stack op_equal m
  run_operation Opcode.equalverify m = on_stack op_equalverify m
  run_operation Opcode.reserved1 m = fail
  run_operation Opcode.reserved2 m = fail
  run_operation Opcode.op_1add m = on_stack (op_1add o) m
  run_operation Opcode.op_1sub m = on_stack (op_1sub o) m
  run_operation Opcode.op_2mul m = fault
  run_operation Opcode.op_2div m = fault
  run_operation Opcode.negate m = on_stack (op_negate o) m
  run_operation Opcode.abs m = on_stack (op_abs o) m
  run_operation Opcode.not_ m = on_stack (op_not o) m
  run_operation Opcode.op_0notequal m = on_stack (op_0notequal o) m
  run_operation Opcode.add m = on_stack (op_add o) m
  run_operation Opcode.sub m = on_stack (op_sub o) m
  run_operation Opcode.mul m = fault
  run_operation Opcode.div m = fault
  run_operation Opcode.mod_ m = fault
  run_operation Opcode.lshift m = fault
  run_operation Opcode.rshift m = fault
  run_operation Opcode.booland m = on_stack (op_booland o) m
  run_operation Opcode.boolor m = on_stack (op_boolor o) m
  run_operation Opcode.numequal m = on_stack (op_numequal o) m
  run_operation Opcode.numequalverify m = on_stack (op_numequalverify o) m
  run_operation Opcode.numnotequal m = on_stack (op_numnotequal o) m
  run_operation Opcode.lessthan m = on_stack (op_lessthan o) m
  run_operation Opcode.greaterthan m = on_stack (op_greaterthan o) m
  run_operation Opcode.lessthanorequal m = on_stack (op_lessthanorequal o) m
  run_operation Opcode.greaterthanorequal m = on_stack (op_greaterthanorequal o) m
  run_operation Opcode.min m = on_stack (op_min o) m
  run_operation Opcode.max m = on_stack (op_max o) m
  run_operation Opcode.within m = on_stack (op_within o) m
  run_operation Opcode.ripemd160 m = on_stack (op_ripemd160 o) m
  run_operation Opcode.sha1 m = on_stack (op_sha1 o) m
  run_operation Opcode.sha256 m = on_stack (op_sha256 o) m
  run_operation Opcode.hash160 m = on_stack (op_hash160 o) m
  run_operation Opcode.hash256 m = on_stack (op_hash256 o) m
  run_operation Opcode.codeseparator m = fault
  run_operation Opcode.checksig m = on_stack (op_checksig o parent_tx input_index m.codehash) m
  run_operation Opcode.checksigverify m =
      on_stack (op_checksigverify o parent_tx input_index m.codehash) m
  run_operation Opcode.checkmultisig m =
      on_stack (op_checkmultisig o parent_tx input_index m.codehash) m
  run_operation Opcode.checkmultisigverify m =
      on_stack (op_checkmultisigverify o parent_tx input_index m.codehash) m
  run_operation Opcode.op_nop1 m = pass m
  run_operation Opcode.op_nop2 m = pass m
  run_operation Opcode.op_nop3 m = pass m
  run_operation Opcode.op_nop4 m = pass m
  run_operation Opcode.op_nop5 m = pass m
  run_operation Opcode.op_nop6 m = pass m
  run_operation Opcode.op_nop7 m = pass m
  run_operation Opcode.op_nop8 m = pass m
  run_operation Opcode.op_nop9 m = pass m
  run_operation Opcode.op_nop10 m = pass m
  run_operation Opcode.raw_data m = fail
  run_operation _ m = fail

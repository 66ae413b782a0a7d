-- ===== src/Script/Opcode/Kinds.antt =====
-- The tests of src/script.cpp on a single opcode.
use libbitcoin.Prelude.{Bool, true, false}
use libbitcoin.Script.Opcode.{Opcode}

unfoldable pub is_push : Opcode → Bool
is_push Opcode.zero = true
is_push Opcode.special = true
is_push Opcode.pushdata1 = true
is_push Opcode.pushdata2 = true
is_push Opcode.pushdata4 = true
is_push Opcode.negative_1 = true
is_push Opcode.op_1 = true
is_push Opcode.op_2 = true
is_push Opcode.op_3 = true
is_push Opcode.op_4 = true
is_push Opcode.op_5 = true
is_push Opcode.op_6 = true
is_push Opcode.op_7 = true
is_push Opcode.op_8 = true
is_push Opcode.op_9 = true
is_push Opcode.op_10 = true
is_push Opcode.op_11 = true
is_push Opcode.op_12 = true
is_push Opcode.op_13 = true
is_push Opcode.op_14 = true
is_push Opcode.op_15 = true
is_push Opcode.op_16 = true
is_push _ = false

unfoldable pub opcode_is_disabled : Opcode → Bool
opcode_is_disabled Opcode.cat = true
opcode_is_disabled Opcode.substr = true
opcode_is_disabled Opcode.left = true
opcode_is_disabled Opcode.right = true
opcode_is_disabled Opcode.invert = true
opcode_is_disabled Opcode.and_ = true
opcode_is_disabled Opcode.or_ = true
opcode_is_disabled Opcode.xor_ = true
opcode_is_disabled Opcode.op_2mul = true
opcode_is_disabled Opcode.op_2div = true
opcode_is_disabled Opcode.mul = true
opcode_is_disabled Opcode.div = true
opcode_is_disabled Opcode.mod_ = true
opcode_is_disabled Opcode.lshift = true
opcode_is_disabled Opcode.rshift = true
opcode_is_disabled Opcode.verif = true
opcode_is_disabled Opcode.vernotif = true
opcode_is_disabled _ = false

-- The lambda `is_condition_opcode` of `next_step`.
unfoldable pub is_condition_opcode : Opcode → Bool
is_condition_opcode Opcode.if_ = true
is_condition_opcode Opcode.notif = true
is_condition_opcode Opcode.else_ = true
is_condition_opcode Opcode.endif = true
is_condition_opcode _ = false

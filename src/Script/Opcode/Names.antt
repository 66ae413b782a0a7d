-- ===== src/Script/Opcode/Names.antt =====
-- opcode_to_string and string_to_opcode of src/script.cpp.
use text.Mathlib.Text.{◌==◌ as str_eq}
use Prim.Native.String.{◌++◌}
use libbitcoin.Prelude.{ℕ, ◌/◌, ◌%◌, ltb, if◌then◌else◌, String, ◌≡◌, refl}
use libbitcoin.Script.Opcode.{Opcode, value_of}

-- The values that the enum names.
abbrev pub IsEnumerator : Opcode → Type 0
IsEnumerator (Opcode.other n) = ⊥
IsEnumerator _ = Unit {0}

-- One digit as `ostream << int` prints it.
digit : ℕ → String
digit n =
    if ltb n 1
    then "0"
    else if ltb n 2
    then "1"
    else if ltb n 3
    then "2"
    else if ltb n 4
    then "3"
    else if ltb n 5
    then "4"
    else if ltb n 6
    then "5"
    else if ltb n 7
    then "6"
    else if ltb n 8
    then "7"
    else if ltb n 9
    then "8"
    else "9"

-- `ss << static_cast<int>(code)`: an opcode that is cast from a byte has three digits at most.
decimal : ℕ → String
unfolding digit
decimal n =
    if ltb n 10
    then digit n
    else if ltb n 100
    then digit (n / 10) ++ digit (n % 10)
    else digit (n / 100) ++ (digit (n / 10 % 10) ++ digit (n % 10))

none_text : ℕ → String
unfolding decimal
none_text n = "<none " ++ (decimal n ++ ">")

pub opcode_to_string : Opcode → String
unfolding none_text value_of
opcode_to_string Opcode.zero = "zero"
opcode_to_string Opcode.special = "special"
opcode_to_string Opcode.pushdata1 = "pushdata1"
opcode_to_string Opcode.pushdata2 = "pushdata2"
opcode_to_string Opcode.pushdata4 = "pushdata4"
opcode_to_string Opcode.negative_1 = "-1"
opcode_to_string Opcode.reserved = "reserved"
opcode_to_string Opcode.op_1 = "1"
opcode_to_string Opcode.op_2 = "2"
opcode_to_string Opcode.op_3 = "3"
opcode_to_string Opcode.op_4 = "4"
opcode_to_string Opcode.op_5 = "5"
opcode_to_string Opcode.op_6 = "6"
opcode_to_string Opcode.op_7 = "7"
opcode_to_string Opcode.op_8 = "8"
opcode_to_string Opcode.op_9 = "9"
opcode_to_string Opcode.op_10 = "10"
opcode_to_string Opcode.op_11 = "11"
opcode_to_string Opcode.op_12 = "12"
opcode_to_string Opcode.op_13 = "13"
opcode_to_string Opcode.op_14 = "14"
opcode_to_string Opcode.op_15 = "15"
opcode_to_string Opcode.op_16 = "16"
opcode_to_string Opcode.nop = "nop"
opcode_to_string Opcode.ver = "ver"
opcode_to_string Opcode.if_ = "if"
opcode_to_string Opcode.notif = "notif"
opcode_to_string Opcode.verif = "verif"
opcode_to_string Opcode.vernotif = "vernotif"
opcode_to_string Opcode.else_ = "else"
opcode_to_string Opcode.endif = "endif"
opcode_to_string Opcode.verify = "verify"
opcode_to_string Opcode.return_ = "return"
opcode_to_string Opcode.toaltstack = "toaltstack"
opcode_to_string Opcode.fromaltstack = "fromaltstack"
opcode_to_string Opcode.op_2drop = "2drop"
opcode_to_string Opcode.op_2dup = "2dup"
opcode_to_string Opcode.op_3dup = "3dup"
opcode_to_string Opcode.op_2over = "2over"
opcode_to_string Opcode.op_2rot = "2rot"
opcode_to_string Opcode.op_2swap = "2swap"
opcode_to_string Opcode.ifdup = "ifdup"
opcode_to_string Opcode.depth = "depth"
opcode_to_string Opcode.drop = "drop"
opcode_to_string Opcode.dup = "dup"
opcode_to_string Opcode.nip = "nip"
opcode_to_string Opcode.over = "over"
opcode_to_string Opcode.pick = "pick"
opcode_to_string Opcode.roll = "roll"
opcode_to_string Opcode.rot = "rot"
opcode_to_string Opcode.swap = "swap"
opcode_to_string Opcode.tuck = "tuck"
opcode_to_string Opcode.cat = "cat"
opcode_to_string Opcode.substr = "substr"
opcode_to_string Opcode.left = "left"
opcode_to_string Opcode.right = "right"
opcode_to_string Opcode.size = "size"
opcode_to_string Opcode.invert = "invert"
opcode_to_string Opcode.and_ = "and"
opcode_to_string Opcode.or_ = "or"
opcode_to_string Opcode.xor_ = "xor"
opcode_to_string Opcode.equal = "equal"
opcode_to_string Opcode.equalverify = "equalverify"
opcode_to_string Opcode.reserved1 = "reserved1"
opcode_to_string Opcode.reserved2 = "reserved2"
opcode_to_string Opcode.op_1add = "1add"
opcode_to_string Opcode.op_1sub = "1sub"
opcode_to_string Opcode.op_2mul = "2mul"
opcode_to_string Opcode.op_2div = "2div"
opcode_to_string Opcode.negate = "negate"
opcode_to_string Opcode.abs = "abs"
opcode_to_string Opcode.not_ = "not"
opcode_to_string Opcode.op_0notequal = "0notequal"
opcode_to_string Opcode.add = "add"
opcode_to_string Opcode.sub = "sub"
opcode_to_string Opcode.mul = "mul"
opcode_to_string Opcode.div = "div"
opcode_to_string Opcode.mod_ = "mod"
opcode_to_string Opcode.lshift = "lshift"
opcode_to_string Opcode.rshift = "rshift"
opcode_to_string Opcode.booland = "booland"
opcode_to_string Opcode.boolor = "boolor"
opcode_to_string Opcode.numequal = "numequal"
opcode_to_string Opcode.numequalverify = "numequalverify"
opcode_to_string Opcode.numnotequal = "numnotequal"
opcode_to_string Opcode.lessthan = "lessthan"
opcode_to_string Opcode.greaterthan = "greaterthan"
opcode_to_string Opcode.lessthanorequal = "lessthanorequal"
opcode_to_string Opcode.greaterthanorequal = "greaterthanorequal"
opcode_to_string Opcode.min = "min"
opcode_to_string Opcode.max = "max"
opcode_to_string Opcode.within = "within"
opcode_to_string Opcode.ripemd160 = "ripemd160"
opcode_to_string Opcode.sha1 = "sha1"
opcode_to_string Opcode.sha256 = "sha256"
opcode_to_string Opcode.hash160 = "hash160"
opcode_to_string Opcode.hash256 = "hash256"
opcode_to_string Opcode.codeseparator = "codeseparator"
opcode_to_string Opcode.checksig = "checksig"
opcode_to_string Opcode.checksigverify = "checksigverify"
opcode_to_string Opcode.checkmultisig = "checkmultisig"
opcode_to_string Opcode.checkmultisigverify = "checkmultisigverify"
opcode_to_string Opcode.op_nop1 = "nop1"
opcode_to_string Opcode.op_nop2 = "nop2"
opcode_to_string Opcode.op_nop3 = "nop3"
opcode_to_string Opcode.op_nop4 = "nop4"
opcode_to_string Opcode.op_nop5 = "nop5"
opcode_to_string Opcode.op_nop6 = "nop6"
opcode_to_string Opcode.op_nop7 = "nop7"
opcode_to_string Opcode.op_nop8 = "nop8"
opcode_to_string Opcode.op_nop9 = "nop9"
opcode_to_string Opcode.op_nop10 = "nop10"
opcode_to_string Opcode.raw_data = "raw_data"
opcode_to_string Opcode.bad_operation = none_text (value_of Opcode.bad_operation)
opcode_to_string (Opcode.other n) = none_text n

pub string_to_opcode : String → Opcode
string_to_opcode code_repr =
    if str_eq code_repr "zero"
    then Opcode.zero
    else if str_eq code_repr "special"
    then Opcode.special
    else if str_eq code_repr "pushdata1"
    then Opcode.pushdata1
    else if str_eq code_repr "pushdata2"
    then Opcode.pushdata2
    else if str_eq code_repr "pushdata4"
    then Opcode.pushdata4
    else if str_eq code_repr "-1"
    then Opcode.negative_1
    else if str_eq code_repr "reserved"
    then Opcode.reserved
    else if str_eq code_repr "1"
    then Opcode.op_1
    else if str_eq code_repr "2"
    then Opcode.op_2
    else if str_eq code_repr "3"
    then Opcode.op_3
    else if str_eq code_repr "4"
    then Opcode.op_4
    else if str_eq code_repr "5"
    then Opcode.op_5
    else if str_eq code_repr "6"
    then Opcode.op_6
    else if str_eq code_repr "7"
    then Opcode.op_7
    else if str_eq code_repr "8"
    then Opcode.op_8
    else if str_eq code_repr "9"
    then Opcode.op_9
    else if str_eq code_repr "10"
    then Opcode.op_10
    else if str_eq code_repr "11"
    then Opcode.op_11
    else if str_eq code_repr "12"
    then Opcode.op_12
    else if str_eq code_repr "13"
    then Opcode.op_13
    else if str_eq code_repr "14"
    then Opcode.op_14
    else if str_eq code_repr "15"
    then Opcode.op_15
    else if str_eq code_repr "16"
    then Opcode.op_16
    else if str_eq code_repr "nop"
    then Opcode.nop
    else if str_eq code_repr "ver"
    then Opcode.ver
    else if str_eq code_repr "if"
    then Opcode.if_
    else if str_eq code_repr "notif"
    then Opcode.notif
    else if str_eq code_repr "verif"
    then Opcode.verif
    else if str_eq code_repr "vernotif"
    then Opcode.vernotif
    else if str_eq code_repr "else"
    then Opcode.else_
    else if str_eq code_repr "endif"
    then Opcode.endif
    else if str_eq code_repr "verify"
    then Opcode.verify
    else if str_eq code_repr "return"
    then Opcode.return_
    else if str_eq code_repr "toaltstack"
    then Opcode.toaltstack
    else if str_eq code_repr "fromaltstack"
    then Opcode.fromaltstack
    else if str_eq code_repr "2drop"
    then Opcode.op_2drop
    else if str_eq code_repr "2dup"
    then Opcode.op_2dup
    else if str_eq code_repr "3dup"
    then Opcode.op_3dup
    else if str_eq code_repr "2over"
    then Opcode.op_2over
    else if str_eq code_repr "2rot"
    then Opcode.op_2rot
    else if str_eq code_repr "2swap"
    then Opcode.op_2swap
    else if str_eq code_repr "ifdup"
    then Opcode.ifdup
    else if str_eq code_repr "depth"
    then Opcode.depth
    else if str_eq code_repr "drop"
    then Opcode.drop
    else if str_eq code_repr "dup"
    then Opcode.dup
    else if str_eq code_repr "nip"
    then Opcode.nip
    else if str_eq code_repr "over"
    then Opcode.over
    else if str_eq code_repr "pick"
    then Opcode.pick
    else if str_eq code_repr "roll"
    then Opcode.roll
    else if str_eq code_repr "rot"
    then Opcode.rot
    else if str_eq code_repr "swap"
    then Opcode.swap
    else if str_eq code_repr "tuck"
    then Opcode.tuck
    else if str_eq code_repr "cat"
    then Opcode.cat
    else if str_eq code_repr "substr"
    then Opcode.substr
    else if str_eq code_repr "left"
    then Opcode.left
    else if str_eq code_repr "right"
    then Opcode.right
    else if str_eq code_repr "size"
    then Opcode.size
    else if str_eq code_repr "invert"
    then Opcode.invert
    else if str_eq code_repr "and"
    then Opcode.and_
    else if str_eq code_repr "or"
    then Opcode.or_
    else if str_eq code_repr "xor"
    then Opcode.xor_
    else if str_eq code_repr "equal"
    then Opcode.equal
    else if str_eq code_repr "equalverify"
    then Opcode.equalverify
    else if str_eq code_repr "reserved1"
    then Opcode.reserved1
    else if str_eq code_repr "reserved2"
    then Opcode.reserved2
    else if str_eq code_repr "1add"
    then Opcode.op_1add
    else if str_eq code_repr "1sub"
    then Opcode.op_1sub
    else if str_eq code_repr "2mul"
    then Opcode.op_2mul
    else if str_eq code_repr "2div"
    then Opcode.op_2div
    else if str_eq code_repr "negate"
    then Opcode.negate
    else if str_eq code_repr "abs"
    then Opcode.abs
    else if str_eq code_repr "not"
    then Opcode.not_
    else if str_eq code_repr "0notequal"
    then Opcode.op_0notequal
    else if str_eq code_repr "add"
    then Opcode.add
    else if str_eq code_repr "sub"
    then Opcode.sub
    else if str_eq code_repr "mul"
    then Opcode.mul
    else if str_eq code_repr "div"
    then Opcode.div
    else if str_eq code_repr "mod"
    then Opcode.mod_
    else if str_eq code_repr "lshift"
    then Opcode.lshift
    else if str_eq code_repr "rshift"
    then Opcode.rshift
    else if str_eq code_repr "booland"
    then Opcode.booland
    else if str_eq code_repr "boolor"
    then Opcode.boolor
    else if str_eq code_repr "numequal"
    then Opcode.numequal
    else if str_eq code_repr "numequalverify"
    then Opcode.numequalverify
    else if str_eq code_repr "numnotequal"
    then Opcode.numnotequal
    else if str_eq code_repr "lessthan"
    then Opcode.lessthan
    else if str_eq code_repr "greaterthan"
    then Opcode.greaterthan
    else if str_eq code_repr "lessthanorequal"
    then Opcode.lessthanorequal
    else if str_eq code_repr "greaterthanorequal"
    then Opcode.greaterthanorequal
    else if str_eq code_repr "min"
    then Opcode.min
    else if str_eq code_repr "max"
    then Opcode.max
    else if str_eq code_repr "within"
    then Opcode.within
    else if str_eq code_repr "ripemd160"
    then Opcode.ripemd160
    else if str_eq code_repr "sha1"
    then Opcode.sha1
    else if str_eq code_repr "sha256"
    then Opcode.sha256
    else if str_eq code_repr "hash160"
    then Opcode.hash160
    else if str_eq code_repr "hash256"
    then Opcode.hash256
    else if str_eq code_repr "codeseparator"
    then Opcode.codeseparator
    else if str_eq code_repr "checksig"
    then Opcode.checksig
    else if str_eq code_repr "checksigverify"
    then Opcode.checksigverify
    else if str_eq code_repr "checkmultisig"
    then Opcode.checkmultisig
    else if str_eq code_repr "checkmultisigverify"
    then Opcode.checkmultisigverify
    else if str_eq code_repr "nop1"
    then Opcode.op_nop1
    else if str_eq code_repr "nop2"
    then Opcode.op_nop2
    else if str_eq code_repr "nop3"
    then Opcode.op_nop3
    else if str_eq code_repr "nop4"
    then Opcode.op_nop4
    else if str_eq code_repr "nop5"
    then Opcode.op_nop5
    else if str_eq code_repr "nop6"
    then Opcode.op_nop6
    else if str_eq code_repr "nop7"
    then Opcode.op_nop7
    else if str_eq code_repr "nop8"
    then Opcode.op_nop8
    else if str_eq code_repr "nop9"
    then Opcode.op_nop9
    else if str_eq code_repr "nop10"
    then Opcode.op_nop10
    else if str_eq code_repr "raw_data"
    then Opcode.raw_data
    else Opcode.bad_operation

-- The text of an opcode names it again, for every enumerator of the enum.
string_to_opcode-opcode_to_string :
    (c : Opcode) → IsEnumerator c → string_to_opcode (opcode_to_string c) ≡ c
unfolding string_to_opcode opcode_to_string
string_to_opcode-opcode_to_string (Opcode.other n) h = absurd h
string_to_opcode-opcode_to_string _ h = refl

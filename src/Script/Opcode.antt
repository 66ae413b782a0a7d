-- ===== src/Script/Opcode.antt =====
-- The opcodes of include/bitcoin/script.hpp, and the casts between an opcode and a byte.
pub mod Names
pub mod Casts
pub mod Kinds
use libbitcoin.Prelude.{
  ℕ, ◌-◌, ◌%◌, ◌==◌, ltb, if◌then◌else◌, List, [], ◌∷◌, Option, none, some, get_elem?,
}

-- `other n` is the value n of the enum's underlying int that no enumerator names: what
-- `static_cast<opcode>` makes of a byte above 187, or of 2 to 75.
pub data Opcode : Type 0 where
  zero special pushdata1 pushdata2 pushdata4 negative_1 : Opcode
  reserved op_1 op_2 op_3 op_4 op_5 : Opcode
  op_6 op_7 op_8 op_9 op_10 op_11 : Opcode
  op_12 op_13 op_14 op_15 op_16 nop : Opcode
  ver if_ notif verif vernotif else_ : Opcode
  endif verify return_ toaltstack fromaltstack op_2drop : Opcode
  op_2dup op_3dup op_2over op_2rot op_2swap ifdup : Opcode
  depth drop dup nip over pick : Opcode
  roll rot swap tuck cat substr : Opcode
  left right size invert and_ or_ : Opcode
  xor_ equal equalverify reserved1 reserved2 op_1add : Opcode
  op_1sub op_2mul op_2div negate abs not_ : Opcode
  op_0notequal add sub mul div mod_ : Opcode
  lshift rshift booland boolor numequal numequalverify : Opcode
  numnotequal lessthan greaterthan lessthanorequal greaterthanorequal min : Opcode
  max within ripemd160 sha1 sha256 hash160 : Opcode
  hash256 codeseparator checksig checksigverify checkmultisig checkmultisigverify : Opcode
  op_nop1 op_nop2 op_nop3 op_nop4 op_nop5 op_nop6 : Opcode
  op_nop7 op_nop8 op_nop9 op_nop10 bad_operation raw_data : Opcode
  other : ℕ → Opcode

-- `static_cast<int>(code)`.
unfoldable pub value_of : Opcode → ℕ
value_of Opcode.zero = 0
value_of Opcode.special = 1
value_of Opcode.pushdata1 = 76
value_of Opcode.pushdata2 = 77
value_of Opcode.pushdata4 = 78
value_of Opcode.negative_1 = 79
value_of Opcode.reserved = 80
value_of Opcode.op_1 = 81
value_of Opcode.op_2 = 82
value_of Opcode.op_3 = 83
value_of Opcode.op_4 = 84
value_of Opcode.op_5 = 85
value_of Opcode.op_6 = 86
value_of Opcode.op_7 = 87
value_of Opcode.op_8 = 88
value_of Opcode.op_9 = 89
value_of Opcode.op_10 = 90
value_of Opcode.op_11 = 91
value_of Opcode.op_12 = 92
value_of Opcode.op_13 = 93
value_of Opcode.op_14 = 94
value_of Opcode.op_15 = 95
value_of Opcode.op_16 = 96
value_of Opcode.nop = 97
value_of Opcode.ver = 98
value_of Opcode.if_ = 99
value_of Opcode.notif = 100
value_of Opcode.verif = 101
value_of Opcode.vernotif = 102
value_of Opcode.else_ = 103
value_of Opcode.endif = 104
value_of Opcode.verify = 105
value_of Opcode.return_ = 106
value_of Opcode.toaltstack = 107
value_of Opcode.fromaltstack = 108
value_of Opcode.op_2drop = 109
value_of Opcode.op_2dup = 110
value_of Opcode.op_3dup = 111
value_of Opcode.op_2over = 112
value_of Opcode.op_2rot = 113
value_of Opcode.op_2swap = 114
value_of Opcode.ifdup = 115
value_of Opcode.depth = 116
value_of Opcode.drop = 117
value_of Opcode.dup = 118
value_of Opcode.nip = 119
value_of Opcode.over = 120
value_of Opcode.pick = 121
value_of Opcode.roll = 122
value_of Opcode.rot = 123
value_of Opcode.swap = 124
value_of Opcode.tuck = 125
value_of Opcode.cat = 126
value_of Opcode.substr = 127
value_of Opcode.left = 128
value_of Opcode.right = 129
value_of Opcode.size = 130
value_of Opcode.invert = 131
value_of Opcode.and_ = 132
value_of Opcode.or_ = 133
value_of Opcode.xor_ = 134
value_of Opcode.equal = 135
value_of Opcode.equalverify = 136
value_of Opcode.reserved1 = 137
value_of Opcode.reserved2 = 138
value_of Opcode.op_1add = 139
value_of Opcode.op_1sub = 140
value_of Opcode.op_2mul = 141
value_of Opcode.op_2div = 142
value_of Opcode.negate = 143
value_of Opcode.abs = 144
value_of Opcode.not_ = 145
value_of Opcode.op_0notequal = 146
value_of Opcode.add = 147
value_of Opcode.sub = 148
value_of Opcode.mul = 149
value_of Opcode.div = 150
value_of Opcode.mod_ = 151
value_of Opcode.lshift = 152
value_of Opcode.rshift = 153
value_of Opcode.booland = 154
value_of Opcode.boolor = 155
value_of Opcode.numequal = 156
value_of Opcode.numequalverify = 157
value_of Opcode.numnotequal = 158
value_of Opcode.lessthan = 159
value_of Opcode.greaterthan = 160
value_of Opcode.lessthanorequal = 161
value_of Opcode.greaterthanorequal = 162
value_of Opcode.min = 163
value_of Opcode.max = 164
value_of Opcode.within = 165
value_of Opcode.ripemd160 = 166
value_of Opcode.sha1 = 167
value_of Opcode.sha256 = 168
value_of Opcode.hash160 = 169
value_of Opcode.hash256 = 170
value_of Opcode.codeseparator = 171
value_of Opcode.checksig = 172
value_of Opcode.checksigverify = 173
value_of Opcode.checkmultisig = 174
value_of Opcode.checkmultisigverify = 175
value_of Opcode.op_nop1 = 176
value_of Opcode.op_nop2 = 177
value_of Opcode.op_nop3 = 178
value_of Opcode.op_nop4 = 179
value_of Opcode.op_nop5 = 180
value_of Opcode.op_nop6 = 181
value_of Opcode.op_nop7 = 182
value_of Opcode.op_nop8 = 183
value_of Opcode.op_nop9 = 184
value_of Opcode.op_nop10 = 185
value_of Opcode.bad_operation = 186
value_of Opcode.raw_data = 187
value_of (Opcode.other n) = n

-- The enumerators from 76 on, without a gap.
abbrev named : List Opcode
named =
    Opcode.pushdata1 ∷ Opcode.pushdata2 ∷ Opcode.pushdata4 ∷ Opcode.negative_1 ∷ Opcode.reserved
    ∷ Opcode.op_1 ∷ Opcode.op_2 ∷ Opcode.op_3 ∷ Opcode.op_4 ∷ Opcode.op_5 ∷ Opcode.op_6
    ∷ Opcode.op_7 ∷ Opcode.op_8 ∷ Opcode.op_9 ∷ Opcode.op_10 ∷ Opcode.op_11 ∷ Opcode.op_12
    ∷ Opcode.op_13 ∷ Opcode.op_14 ∷ Opcode.op_15 ∷ Opcode.op_16 ∷ Opcode.nop ∷ Opcode.ver
    ∷ Opcode.if_ ∷ Opcode.notif ∷ Opcode.verif ∷ Opcode.vernotif ∷ Opcode.else_ ∷ Opcode.endif
    ∷ Opcode.verify ∷ Opcode.return_ ∷ Opcode.toaltstack ∷ Opcode.fromaltstack ∷ Opcode.op_2drop
    ∷ Opcode.op_2dup ∷ Opcode.op_3dup ∷ Opcode.op_2over ∷ Opcode.op_2rot ∷ Opcode.op_2swap
    ∷ Opcode.ifdup ∷ Opcode.depth ∷ Opcode.drop ∷ Opcode.dup ∷ Opcode.nip ∷ Opcode.over
    ∷ Opcode.pick ∷ Opcode.roll ∷ Opcode.rot ∷ Opcode.swap ∷ Opcode.tuck ∷ Opcode.cat
    ∷ Opcode.substr ∷ Opcode.left ∷ Opcode.right ∷ Opcode.size ∷ Opcode.invert ∷ Opcode.and_
    ∷ Opcode.or_ ∷ Opcode.xor_ ∷ Opcode.equal ∷ Opcode.equalverify ∷ Opcode.reserved1
    ∷ Opcode.reserved2 ∷ Opcode.op_1add ∷ Opcode.op_1sub ∷ Opcode.op_2mul ∷ Opcode.op_2div
    ∷ Opcode.negate ∷ Opcode.abs ∷ Opcode.not_ ∷ Opcode.op_0notequal ∷ Opcode.add ∷ Opcode.sub
    ∷ Opcode.mul ∷ Opcode.div ∷ Opcode.mod_ ∷ Opcode.lshift ∷ Opcode.rshift ∷ Opcode.booland
    ∷ Opcode.boolor ∷ Opcode.numequal ∷ Opcode.numequalverify ∷ Opcode.numnotequal ∷ Opcode.lessthan
    ∷ Opcode.greaterthan ∷ Opcode.lessthanorequal ∷ Opcode.greaterthanorequal ∷ Opcode.min
    ∷ Opcode.max ∷ Opcode.within ∷ Opcode.ripemd160 ∷ Opcode.sha1 ∷ Opcode.sha256 ∷ Opcode.hash160
    ∷ Opcode.hash256 ∷ Opcode.codeseparator ∷ Opcode.checksig ∷ Opcode.checksigverify
    ∷ Opcode.checkmultisig ∷ Opcode.checkmultisigverify ∷ Opcode.op_nop1 ∷ Opcode.op_nop2
    ∷ Opcode.op_nop3 ∷ Opcode.op_nop4 ∷ Opcode.op_nop5 ∷ Opcode.op_nop6 ∷ Opcode.op_nop7
    ∷ Opcode.op_nop8 ∷ Opcode.op_nop9 ∷ Opcode.op_nop10 ∷ Opcode.bad_operation ∷ Opcode.raw_data
    ∷ []

or_other : Option Opcode → ℕ → Opcode
or_other none n = Opcode.other n
or_other (some c) n = c

-- `static_cast<opcode>(raw_byte)`.
unfoldable pub from_value : ℕ → Opcode
unfolding or_other
from_value n =
    if n == 0
    then Opcode.zero
    else if n == 1
    then Opcode.special
    else if ltb n 76
    then Opcode.other n
    else or_other (get_elem? named (n - 76)) n

-- `static_cast<byte>(code)`.
unfoldable pub byte_of : Opcode → ℕ
unfolding value_of
byte_of c = value_of c % 256

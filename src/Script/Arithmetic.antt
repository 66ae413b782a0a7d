-- ===== src/Script/Arithmetic.antt =====
-- The opcodes of src/script.cpp on numbers, and the digests.
use libbitcoin.Prelude.{ℕ, Bool, not, ◌&&◌, ◌||◌, List, [], ◌∷◌, reverse, if◌then◌else◌, none, some}
use libbitcoin.Openssl.{Openssl}
use libbitcoin.BigNumber.{data_of, set_uint32, big_eq, big_le, big_lt, negated, negsuc, set_int64}
use libbitcoin.Digest.{generate_ripemd_hash, generate_sha256_hash}
use libbitcoin.Script.Opcode.{Opcode, value_of}
use libbitcoin.Script.Outcome.{Outcome, pass, fail, fault, require, ◌>>=◌}
use libbitcoin.Script.Values.{DataStack, cast_to_big_number, stack_true_value, stack_false_value}
use libbitcoin.Prelude.{◌+◌, ◌-◌, ◌%◌}

module _ (o : Openssl) where
  unfoldable pub op_negative_1 : DataStack → Outcome DataStack
  op_negative_1 stack = pass (data_of o (set_int64 o (negsuc 0)) ∷ stack)

  -- Both casts are to uint8_t, and so is the sum.
  unfoldable pub op_x : Opcode → DataStack → Outcome DataStack
  unfolding value_of
  op_x code stack =
      let value_diff = (value_of code % 256 + 256 - value_of Opcode.op_1 % 256 + 1) % 256 in
      pass (data_of o (set_uint32 o value_diff) ∷ stack)

  number : List ℕ → Outcome o.Bignum
  number raw = elim (cast_to_big_number o raw) [ none ↦ fail | some n ↦ pass n ]

  -- The opcodes that replace the top by a number made of it.
  unfoldable pub unary : (o.Bignum → o.Bignum) → DataStack → Outcome DataStack
  unfolding number
  unary f [] = fail
  unary f (top ∷ stack) = do number_n ← number top; pass (data_of o (f number_n) ∷ stack)

  -- `big_number(b)`, for a bool b.
  unfoldable pub big_bool : Bool → o.Bignum
  big_bool b = set_uint32 o (if b then 1 else 0)

  abbrev one : o.Bignum
  one = set_uint32 o 1

  abbrev zero_number : o.Bignum
  zero_number = set_uint32 o 0

  unfoldable pub op_1add : DataStack → Outcome DataStack
  unfolding unary
  op_1add = unary (λ n. o.bn_add n one)

  unfoldable pub op_1sub : DataStack → Outcome DataStack
  unfolding unary
  op_1sub = unary (λ n. o.bn_sub n one)

  unfoldable pub op_negate : DataStack → Outcome DataStack
  unfolding unary
  op_negate = unary (negated o)

  unfoldable pub op_abs : DataStack → Outcome DataStack
  unfolding unary
  op_abs = unary (λ n. if big_lt o n zero_number then negated o n else n)

  unfoldable pub op_not : DataStack → Outcome DataStack
  unfolding unary big_bool
  op_not = unary (λ n. big_bool (big_eq o n zero_number))

  unfoldable pub op_0notequal : DataStack → Outcome DataStack
  unfolding unary big_bool
  op_0notequal = unary (λ n. big_bool (not (big_eq o n zero_number)))

  -- `number_b` is popped and cast first.
  unfoldable pub arithmetic_start : DataStack → Outcome (o.Bignum × o.Bignum × DataStack)
  unfolding number
  arithmetic_start (b ∷ a ∷ stack) = do
    number_b ← number b
    number_a ← number a
    pass (number_a, number_b, stack)
  arithmetic_start _ = fail

  -- The opcodes that replace two numbers by one.
  unfoldable pub binary : (o.Bignum → o.Bignum → o.Bignum) → DataStack → Outcome DataStack
  unfolding arithmetic_start
  binary f stack = do
    (number_a, number_b, rest) ← arithmetic_start stack
    pass (data_of o (f number_a number_b) ∷ rest)

  unfoldable pub op_add : DataStack → Outcome DataStack
  unfolding binary
  op_add = binary o.bn_add

  unfoldable pub op_sub : DataStack → Outcome DataStack
  unfolding binary
  op_sub = binary o.bn_sub

  unfoldable pub op_booland : DataStack → Outcome DataStack
  unfolding binary big_bool
  op_booland =
      binary (λ a b. big_bool (not (big_eq o a zero_number) && not (big_eq o b zero_number)))

  unfoldable pub op_boolor : DataStack → Outcome DataStack
  unfolding binary big_bool
  op_boolor =
      binary (λ a b. big_bool (not (big_eq o a zero_number) || not (big_eq o b zero_number)))

  unfoldable pub op_numequal : DataStack → Outcome DataStack
  unfolding binary big_bool
  op_numequal = binary (λ a b. big_bool (big_eq o a b))

  unfoldable pub op_numequalverify : DataStack → Outcome DataStack
  unfolding arithmetic_start
  op_numequalverify stack = do
    (number_a, number_b, rest) ← arithmetic_start stack
    require (big_eq o number_a number_b) (pass rest)

  unfoldable pub op_numnotequal : DataStack → Outcome DataStack
  unfolding binary big_bool
  op_numnotequal = binary (λ a b. big_bool (not (big_eq o a b)))

  unfoldable pub op_lessthan : DataStack → Outcome DataStack
  unfolding binary big_bool
  op_lessthan = binary (λ a b. big_bool (big_lt o a b))

  unfoldable pub op_greaterthan : DataStack → Outcome DataStack
  unfolding binary big_bool
  op_greaterthan = binary (λ a b. big_bool (not (big_le o a b)))

  unfoldable pub op_lessthanorequal : DataStack → Outcome DataStack
  unfolding binary big_bool
  op_lessthanorequal = binary (λ a b. big_bool (big_le o a b))

  unfoldable pub op_greaterthanorequal : DataStack → Outcome DataStack
  unfolding binary big_bool
  op_greaterthanorequal = binary (λ a b. big_bool (not (big_lt o a b)))

  unfoldable pub op_min : DataStack → Outcome DataStack
  unfolding binary
  op_min = binary (λ a b. if big_lt o a b then a else b)

  unfoldable pub op_max : DataStack → Outcome DataStack
  unfolding binary
  op_max = binary (λ a b. if big_lt o a b then b else a)

  -- `pop_stack` reads the back of the stack whether or not there is one.
  popped_number : DataStack → Outcome (o.Bignum × DataStack)
  unfolding number
  popped_number [] = fault
  popped_number (top ∷ stack) = do n ← number top; pass (n, stack)

  -- There is no test of the stack's size.
  unfoldable pub op_within : DataStack → Outcome DataStack
  unfolding popped_number
  op_within stack = do
    (upper, stack) ← popped_number stack
    (lower, stack) ← popped_number stack
    (value, stack) ← popped_number stack
    pass (
        (if big_le o lower value && big_lt o value upper
          then stack_true_value
          else stack_false_value)
        ∷ stack)

  -- The opcodes that replace the top by a digest of it.
  unfoldable pub digest : (List ℕ → List ℕ) → DataStack → Outcome DataStack
  digest f [] = fail
  digest f (top ∷ stack) = pass (f top ∷ stack)

  unfoldable pub op_ripemd160 : DataStack → Outcome DataStack
  unfolding digest
  op_ripemd160 = digest o.ripemd160

  unfoldable pub op_sha1 : DataStack → Outcome DataStack
  unfolding digest
  op_sha1 = digest o.sha1

  unfoldable pub op_sha256 : DataStack → Outcome DataStack
  unfolding digest
  op_sha256 = digest o.sha256

  unfoldable pub op_hash160 : DataStack → Outcome DataStack
  unfolding digest
  op_hash160 = digest (generate_ripemd_hash o)

  unfoldable pub op_hash256 : DataStack → Outcome DataStack
  unfolding digest
  op_hash256 = digest (λ top. reverse (generate_sha256_hash o top))

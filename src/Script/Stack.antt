-- ===== src/Script/Stack.antt =====
-- The opcodes of src/script.cpp that only move stack items.
pub mod Laws
use libbitcoin.Prelude.{
  ℕ, zero, suc, ◌%◌, ◌^◌, Bool, true, false, List, [], ◌∷◌, length, ltb, leb, if◌then◌else◌,
  get_elem?, Option, none, some, chunk_eq,
}
use libbitcoin.Openssl.{Openssl}
use libbitcoin.BigNumber.{data_of, set_uint32, uint32}
use libbitcoin.Script.Outcome.{Outcome, pass, fail, fault, require}
use libbitcoin.Script.Values.{
  DataStack, cast_to_bool, cast_to_big_number, stack_true_value, stack_false_value,
}

unfoldable pub op_verify : DataStack → Outcome DataStack
op_verify [] = fail
op_verify (top ∷ stack) = require (cast_to_bool top) (pass stack)

unfoldable pub op_2drop : DataStack → Outcome DataStack
op_2drop (b ∷ a ∷ stack) = pass stack
op_2drop _ = fail

unfoldable pub op_2dup : DataStack → Outcome DataStack
op_2dup (b ∷ a ∷ stack) = pass (b ∷ a ∷ b ∷ a ∷ stack)
op_2dup _ = fail

unfoldable pub op_3dup : DataStack → Outcome DataStack
op_3dup (c ∷ b ∷ a ∷ stack) = pass (c ∷ b ∷ a ∷ c ∷ b ∷ a ∷ stack)
op_3dup _ = fail

unfoldable pub op_2over : DataStack → Outcome DataStack
op_2over (d ∷ c ∷ b ∷ a ∷ stack) = pass (b ∷ a ∷ d ∷ c ∷ b ∷ a ∷ stack)
op_2over _ = fail

unfoldable pub op_2rot : DataStack → Outcome DataStack
op_2rot (f ∷ e ∷ d ∷ c ∷ b ∷ a ∷ stack) = pass (b ∷ a ∷ f ∷ e ∷ d ∷ c ∷ stack)
op_2rot _ = fail

unfoldable pub op_2swap : DataStack → Outcome DataStack
op_2swap (d ∷ c ∷ b ∷ a ∷ stack) = pass (b ∷ a ∷ d ∷ c ∷ stack)
op_2swap _ = fail

unfoldable pub op_ifdup : DataStack → Outcome DataStack
op_ifdup [] = fail
op_ifdup (top ∷ stack) = pass (if cast_to_bool top then top ∷ top ∷ stack else top ∷ stack)

unfoldable pub op_drop : DataStack → Outcome DataStack
op_drop [] = fail
op_drop (top ∷ stack) = pass stack

unfoldable pub op_dup : DataStack → Outcome DataStack
op_dup [] = fail
op_dup (top ∷ stack) = pass (top ∷ top ∷ stack)

unfoldable pub op_nip : DataStack → Outcome DataStack
op_nip (b ∷ a ∷ stack) = pass (b ∷ stack)
op_nip _ = fail

unfoldable pub op_over : DataStack → Outcome DataStack
op_over (b ∷ a ∷ stack) = pass (a ∷ b ∷ a ∷ stack)
op_over _ = fail

-- The swaps of the places 3 and 2, and then 2 and 1.
unfoldable pub op_rot : DataStack → Outcome DataStack
op_rot (c ∷ b ∷ a ∷ stack) = pass (a ∷ c ∷ b ∷ stack)
op_rot _ = fail

unfoldable pub op_swap : DataStack → Outcome DataStack
op_swap (b ∷ a ∷ stack) = pass (a ∷ b ∷ stack)
op_swap _ = fail

unfoldable pub op_tuck : DataStack → Outcome DataStack
op_tuck (b ∷ a ∷ stack) = pass (b ∷ a ∷ b ∷ stack)
op_tuck _ = fail

unfoldable pub op_equal : DataStack → Outcome DataStack
op_equal (b ∷ a ∷ stack) =
    pass ((if chunk_eq b a then stack_true_value else stack_false_value) ∷ stack)
op_equal _ = fail

unfoldable pub op_equalverify : DataStack → Outcome DataStack
op_equalverify (b ∷ a ∷ stack) = require (chunk_eq b a) (pass stack)
op_equalverify _ = fail

-- `stack.erase(slice_iter)`.
unfoldable pub erase_at : ℕ → DataStack → DataStack
erase_at n [] = []
erase_at zero (item ∷ stack) = stack
erase_at (suc n) (item ∷ stack) = item ∷ erase_at n stack

moved : Bool → ℕ → DataStack → Option (List ℕ) → Outcome DataStack
unfolding erase_at
moved is_roll n stack none = fail
moved is_roll n stack (some item) = pass (item ∷ (if is_roll then erase_at n stack else stack))

module _ (o : Openssl) where
  unfoldable pub op_depth : DataStack → Outcome DataStack
  op_depth stack = pass (data_of o (set_uint32 o (length stack)) ∷ stack)

  unfoldable pub op_size : DataStack → Outcome DataStack
  op_size [] = fail
  op_size (top ∷ stack) = pass (data_of o (set_uint32 o (length top)) ∷ top ∷ stack)

  -- An index past the stack is the case `none` of `moved`: `if (n >= stack.size()) return false`.
  counted : Bool → Option o.Bignum → DataStack → Outcome DataStack
  unfolding moved
  counted is_roll none stack = fail
  counted is_roll (some number_n) stack =
      let n = uint32 o number_n in moved is_roll n stack (get_elem? stack n)

  unfoldable pub pick_roll_impl : Bool → DataStack → Outcome DataStack
  unfolding counted
  pick_roll_impl is_roll (number ∷ item ∷ stack) =
      counted is_roll (cast_to_big_number o number) (item ∷ stack)
  pick_roll_impl is_roll _ = fail

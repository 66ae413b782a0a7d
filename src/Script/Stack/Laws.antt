-- ===== src/Script/Stack/Laws.antt =====
-- How the stack opcodes are made of each other, short stacks included.
use libbitcoin.Prelude.{[], ◌∷◌, Bool, true, false, ◌≡◌, refl, if◌then◌else◌, chunk_eq}
use libbitcoin.Script.Outcome.{pass, require, ◌>>=◌}
use libbitcoin.Script.Values.{DataStack, cast_to_bool, stack_true_value, stack_false_value}
use libbitcoin.Script.Stack.{
  op_verify, op_2drop, op_2dup, op_2swap, op_drop, op_nip, op_over, op_rot, op_swap, op_tuck,
  op_equal, op_equalverify, op_2rot,
}

verify_bool :
    (b : Bool) (stack : DataStack)
    → require b (pass stack)
      ≡ op_verify ((if b then stack_true_value else stack_false_value) ∷ stack)
unfolding op_verify cast_to_bool
verify_bool true stack = refl
verify_bool false stack = refl

-- On every stack, short ones included: equalverify is equal and then verify, tuck is swap and then
-- over, nip is swap and then drop, 2dup is over twice, and 2drop is drop twice.
op_equalverify-op_equal :
    (stack : DataStack)
    → (op_equalverify stack ≡ (op_equal stack >>= op_verify))
      × (op_tuck stack ≡ (op_swap stack >>= op_over))
      × (op_nip stack ≡ (op_swap stack >>= op_drop))
      × (op_2dup stack ≡ (op_over stack >>= op_over))
      × (op_2drop stack ≡ (op_drop stack >>= op_drop))
unfolding op_equalverify op_equal op_tuck op_swap op_over op_nip op_drop op_2dup op_2drop
op_equalverify-op_equal [] = (refl, refl, refl, refl, refl)
op_equalverify-op_equal (b ∷ []) = (refl, refl, refl, refl, refl)
op_equalverify-op_equal (b ∷ a ∷ stack) = (verify_bool (chunk_eq b a) stack, refl, refl, refl, refl)

-- Applied to what it leaves, swap gives the stack back, so does 2swap, and so do rot and 2rot after
-- three rounds, where the first round does not fail.
op_swap-op_swap :
    (stack : DataStack)
    → ((op_swap stack >>= op_swap) ≡ (op_swap stack >>= λ _. pass stack))
      × ((op_2swap stack >>= op_2swap) ≡ (op_2swap stack >>= λ _. pass stack))
      × ((op_rot stack >>= op_rot >>= op_rot) ≡ (op_rot stack >>= λ _. pass stack))
      × ((op_2rot stack >>= op_2rot >>= op_2rot) ≡ (op_2rot stack >>= λ _. pass stack))
unfolding op_swap op_2swap op_rot op_2rot
op_swap-op_swap [] = (refl, refl, refl, refl)
op_swap-op_swap (a ∷ []) = (refl, refl, refl, refl)
op_swap-op_swap (a ∷ b ∷ []) = (refl, refl, refl, refl)
op_swap-op_swap (a ∷ b ∷ c ∷ []) = (refl, refl, refl, refl)
op_swap-op_swap (a ∷ b ∷ c ∷ d ∷ []) = (refl, refl, refl, refl)
op_swap-op_swap (a ∷ b ∷ c ∷ d ∷ e ∷ []) = (refl, refl, refl, refl)
op_swap-op_swap (a ∷ b ∷ c ∷ d ∷ e ∷ f ∷ stack) = (refl, refl, refl, refl)

-- ===== src/Script/Run/Branches.antt =====
-- Branches that are not taken, and the assertions of run_operation.
use libbitcoin.Prelude.{
  arith, ℕ, Bool, true, false, List, ◌∷◌, ◌≡◌, ◌≢◌, refl, ap, ◌∙◌, inl, inr, Bool-cases,
}
use libbitcoin.Openssl.{Openssl}
use libbitcoin.Messages.{Transaction}
use libbitcoin.Script.{Operation}
use libbitcoin.Script.Opcode.{Opcode}
use libbitcoin.Script.Opcode.Kinds.{opcode_is_disabled, is_condition_opcode}
use libbitcoin.Script.Outcome.{Outcome, pass, fail, fault, ◌>>=◌, >>=-eq-pass}
use libbitcoin.Script.Values.{has_failed_branches, invert_top, close_top}
use libbitcoin.Script.Machine.{
  Machine, run_operation, on_conditions, guarded, op_if, op_notif, op_else, op_endif,
}
use libbitcoin.Script.Run.Limits.{next_step-cases}
use libbitcoin.Script.Run.{execute, within_limit, next_step, push_data}

-- The opcodes whose case in run_operation is a BITCOIN_ASSERT_MSG that does not hold, read off its cases.
unfoldable pub is_asserted : Opcode → Bool
is_asserted Opcode.zero = true
is_asserted Opcode.special = true
is_asserted Opcode.pushdata1 = true
is_asserted Opcode.pushdata2 = true
is_asserted Opcode.pushdata4 = true
is_asserted Opcode.codeseparator = true
is_asserted Opcode.cat = true
is_asserted Opcode.substr = true
is_asserted Opcode.left = true
is_asserted Opcode.right = true
is_asserted Opcode.invert = true
is_asserted Opcode.and_ = true
is_asserted Opcode.or_ = true
is_asserted Opcode.xor_ = true
is_asserted Opcode.op_2mul = true
is_asserted Opcode.op_2div = true
is_asserted Opcode.mul = true
is_asserted Opcode.div = true
is_asserted Opcode.mod_ = true
is_asserted Opcode.lshift = true
is_asserted Opcode.rshift = true
is_asserted Opcode.verif = true
is_asserted Opcode.vernotif = true
is_asserted _ = false

-- What a step in a branch that is not taken may not change.
abbrev pub IsUntouched : Machine → Machine → Type 0
IsUntouched m n =
    (n.stack ≡ m.stack) × (n.alternate_stack ≡ m.alternate_stack) × (n.codehash ≡ m.codehash)

on_conditions-IsUntouched :
    (f : List Bool → Outcome (List Bool)) (m : Machine) {n : Machine}
    → on_conditions f m ≡ pass n
    → IsUntouched m n
unfolding on_conditions
on_conditions-IsUntouched f m h =
    let (values, e, g) = >>=-eq-pass (f m.conditional_stack) _ h in (cc, cc, cc)

op_if-IsUntouched :
    (m : Machine) {n : Machine}
    → has_failed_branches m.conditional_stack ≡ true
    → op_if m ≡ pass n
    → IsUntouched m n
unfolding op_if
op_if-IsUntouched m failed h = ground arith

op_notif-IsUntouched :
    (m : Machine) {n : Machine}
    → has_failed_branches m.conditional_stack ≡ true
    → op_notif m ≡ pass n
    → IsUntouched m n
unfolding op_notif
op_notif-IsUntouched m failed h =
    let (k, e, g) = >>=-eq-pass (op_if m) _ h in
    let (a, b, c) = op_if-IsUntouched m failed e in
    let (d, e, f) = on_conditions-IsUntouched invert_top k g in (d ∙ a, e ∙ b, f ∙ c)

within_limit-terminates : (r : Outcome Machine) → r ≢ fault → (r >>= within_limit) ≢ fault
unfolding within_limit
within_limit-terminates (pass m) h e = ground arith
within_limit-terminates fail h e = cc
within_limit-terminates fault h e = h refl

module _ (o : Openssl) (parent_tx : Transaction) (input_index : ℕ) where
  execute-IsUntouched :
      (code : Opcode) (bytes : List ℕ) (it : List Operation) (m : Machine) {n : Machine}
      → has_failed_branches m.conditional_stack ≡ true
      → is_condition_opcode code ≡ true
      → execute o parent_tx input_index code bytes it m ≡ pass n
      → IsUntouched m n
  unfolding execute run_operation is_condition_opcode op_else op_endif
  execute-IsUntouched Opcode.if_ bytes it m failed c h = op_if-IsUntouched m failed h
  execute-IsUntouched Opcode.notif bytes it m failed c h = op_notif-IsUntouched m failed h
  execute-IsUntouched Opcode.else_ bytes it m failed c h =
      on_conditions-IsUntouched (guarded invert_top) m h
  execute-IsUntouched Opcode.endif bytes it m failed c h =
      on_conditions-IsUntouched (guarded close_top) m h
  execute-IsUntouched _ bytes it m failed c h = (cc, cc, cc)

  -- While a branch is not taken, a step that passes leaves both stacks and the code hash as they are,
  -- whatever its operation is.
  pub next_step-IsUntouched :
      (op : Operation) (ops : List Operation) (m : Machine) {n : Machine}
      → has_failed_branches m.conditional_stack ≡ true
      → next_step o parent_tx input_index op ops m ≡ pass n
      → IsUntouched m n
  unfolding next_step within_limit
  next_step-IsUntouched op ops m failed h = elim (Bool-cases (is_condition_opcode op.code)) [
    | inl c ↦ elim (next_step-cases o parent_tx input_index op ops m h) [
      | inl (same, _) ↦
          (ap Machine.stack same, ap Machine.alternate_stack same, ap Machine.codehash same)
      | inr (executed, _) ↦ execute-IsUntouched op.code op.bytes (op ∷ ops) m failed c executed
    ]
    | inr c ↦ ground arith
  ]

  run_operation-is_asserted :
      (code : Opcode) (m : Machine)
      → is_asserted code ≡ true
      → run_operation o parent_tx input_index code m ≡ fault
  unfolding run_operation is_asserted
  run_operation-is_asserted Opcode.zero m h = refl
  run_operation-is_asserted _ m h = cc

  execute-is_asserted :
      (code : Opcode) (bytes : List ℕ) (it : List Operation) (m : Machine)
      → is_asserted code ≡ true
      → opcode_is_disabled code ≡ false
      → execute o parent_tx input_index code bytes it m ≢ fault
  unfolding execute push_data is_asserted opcode_is_disabled
  execute-is_asserted Opcode.zero bytes it m h d e = cc
  execute-is_asserted _ bytes it m h d e = cc

  -- The assertions of run_operation never fail: each of the 23 opcodes that it asserts on faults there, and
  -- next_step, its only caller, ends with no fault on each of them, in every state.
  pub next_step-is_asserted :
      (op : Operation) (ops : List Operation) (m : Machine)
      → is_asserted op.code ≡ true
      → (run_operation o parent_tx input_index op.code m ≡ fault)
        × (next_step o parent_tx input_index op ops m ≢ fault)
  unfolding next_step within_limit
  next_step-is_asserted op ops m h = (
    run_operation-is_asserted op.code m h,
    ground (
      arith,
      execute-is_asserted op.code op.bytes (op ∷ ops) m h,
      within_limit-terminates (execute o parent_tx input_index op.code op.bytes (op ∷ ops) m),
    ),
  )

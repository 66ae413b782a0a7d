-- ===== src/Script/Run/Limits.antt =====
-- What a run of Script.Run that passes has tested, operation by operation.
use libbitcoin.Prelude.{
  All, subst, arith, ℕ, ◌+◌, ◌≤◌, false, List, [], ◌∷◌, length, ◌⊎◌, ◌≡◌, refl, sym, ap, ◌∙◌,
  Option, none, some, inl, inr,
}
use libbitcoin.Openssl.{Openssl}
use libbitcoin.Messages.{Transaction}
use libbitcoin.Script.{Operation}
use libbitcoin.Script.Opcode.{Opcode}
use libbitcoin.Script.Opcode.Kinds.{opcode_is_disabled, is_condition_opcode}
use libbitcoin.Script.Outcome.{Outcome, pass, ◌>>=◌, >>=-eq-pass}
use libbitcoin.Script.Machine.{Machine}
use libbitcoin.Script.Machine.Conditions.{step_depth, run_operation-step_depth}
use libbitcoin.Script.Run.{execute, within_limit, next_step, run_loop, push_data}

within_limit-eq-pass :
    (m : Machine) {n : Machine}
    → within_limit m ≡ pass n
    → (m ≡ n) × (length n.stack + length n.alternate_stack ≤ 1000)
unfolding within_limit
within_limit-eq-pass m h = ground arith

within_limit-result :
    (r : Outcome Machine) {n : Machine}
    → (r >>= within_limit) ≡ pass n
    → (r ≡ pass n) × (length n.stack + length n.alternate_stack ≤ 1000)
within_limit-result r h =
    let (m, e, g) = >>=-eq-pass r within_limit h in
    let (same, limit) = within_limit-eq-pass m g in (e ∙ ap pass same, limit)

pass_injective : {m n : Machine} → pass m ≡ pass n → m ≡ n
pass_injective h = cc

step_depth-plain :
    (code : Opcode) (d : ℕ) → is_condition_opcode code ≡ false → step_depth code d ≡ some d
unfolding is_condition_opcode step_depth
step_depth-plain Opcode.if_ d h = cc
step_depth-plain Opcode.notif d h = cc
step_depth-plain Opcode.else_ d h = cc
step_depth-plain Opcode.endif d h = cc
step_depth-plain _ d h = refl

module _ (o : Openssl) (parent_tx : Transaction) (input_index : ℕ) where
  pub next_step-allowed :
      (op : Operation) (ops : List Operation) (m : Machine) {n : Machine}
      → next_step o parent_tx input_index op ops m ≡ pass n
      → (length op.bytes ≤ 520) × (opcode_is_disabled op.code ≡ false)
  unfolding next_step
  next_step-allowed op ops m h = ground (arith)

  -- An operation is passed over in a branch that is not taken, or it is executed.
  pub next_step-cases :
      (op : Operation) (ops : List Operation) (m : Machine) {n : Machine}
      → next_step o parent_tx input_index op ops m ≡ pass n
      → ((n ≡ m) × (is_condition_opcode op.code ≡ false))
        ⊎ ((execute o parent_tx input_index op.code op.bytes (op ∷ ops) m ≡ pass n)
            × (length n.stack + length n.alternate_stack ≤ 1000))
  unfolding next_step
  next_step-cases op ops m h =
      ground
        (arith, within_limit-result (execute o parent_tx input_index op.code op.bytes (op ∷ ops) m))

  execute-step_depth :
      (code : Opcode) (bytes : List ℕ) (it : List Operation) (m : Machine) {n : Machine}
      → execute o parent_tx input_index code bytes it m ≡ pass n
      → step_depth code (length m.conditional_stack) ≡ some (length n.conditional_stack)
  unfolding execute push_data step_depth
  execute-step_depth Opcode.zero bytes it m h = cc
  execute-step_depth Opcode.special bytes it m h = cc
  execute-step_depth Opcode.pushdata1 bytes it m h = cc
  execute-step_depth Opcode.pushdata2 bytes it m h = cc
  execute-step_depth Opcode.pushdata4 bytes it m h = cc
  execute-step_depth Opcode.codeseparator bytes it m h = cc
  execute-step_depth code bytes it m h = run_operation-step_depth o parent_tx input_index code m h

  next_step-step_depth :
      (op : Operation) (ops : List Operation) (m : Machine) {n : Machine}
      → next_step o parent_tx input_index op ops m ≡ pass n
      → step_depth op.code (length m.conditional_stack) ≡ some (length n.conditional_stack)
  unfolding is_condition_opcode step_depth
  next_step-step_depth op ops m h = elim (next_step-cases op ops m h) [
    | inl (e, c) ↦
        step_depth-plain op.code (length m.conditional_stack) c
        ∙ ap (λ k. some (length k.conditional_stack)) (sym e)
    | inr (e, c) ↦ execute-step_depth op.code op.bytes (op ∷ ops) m e
  ]

abbrev and_then : Option ℕ → (ℕ → Option ℕ) → Option ℕ
and_then none f = none
and_then (some a) f = f a

-- The depth of the branches after a run of operations, where an else_ or an endif needs an open one.
unfoldable pub branch_depth : List Operation → ℕ → Option ℕ
unfolding step_depth
branch_depth [] d = some d
branch_depth (op ∷ ops) d = and_then (step_depth op.code d) (branch_depth ops)

abbrev pub IsAllowed : Operation → Type 0
IsAllowed op = (length op.bytes ≤ 520) × (opcode_is_disabled op.code ≡ false)

abbrev pub IsWithin : Machine → Type 0
IsWithin m = length m.stack + length m.alternate_stack ≤ 1000

module _ (o : Openssl) (parent_tx : Transaction) (input_index : ℕ) where
  pub run_loop-All :
      (ops : List Operation) (m : Machine) {n : Machine}
      → run_loop o parent_tx input_index ops m ≡ pass n
      → All IsAllowed ops
  unfolding run_loop
  run_loop-All [] m h = tt
  run_loop-All (op ∷ ops) m h =
      let (k, e, g) = >>=-eq-pass (next_step o parent_tx input_index op ops m) _ h in
      (next_step-allowed o parent_tx input_index op ops m e, run_loop-All ops k g)

  pub run_loop-branch_depth :
      (ops : List Operation) (m : Machine) {n : Machine}
      → run_loop o parent_tx input_index ops m ≡ pass n
      → branch_depth ops (length m.conditional_stack) ≡ some (length n.conditional_stack)
  unfolding run_loop branch_depth
  run_loop-branch_depth [] m h = cc
  run_loop-branch_depth (op ∷ ops) m h =
      let (k, e, g) = >>=-eq-pass (next_step o parent_tx input_index op ops m) _ h in
      rw (branch_depth, next_step-step_depth o parent_tx input_index op ops m e)
        (run_loop-branch_depth ops k g)

  next_step-IsWithin :
      (op : Operation) (ops : List Operation) (m : Machine) {n : Machine}
      → next_step o parent_tx input_index op ops m ≡ pass n
      → IsWithin m
      → IsWithin n
  next_step-IsWithin op ops m h w = elim (next_step-cases o parent_tx input_index op ops m h) [
    | inl (e, c) ↦ subst IsWithin (sym e) w
    | inr (e, limit) ↦ limit
  ]

  pub run_loop-IsWithin :
      (ops : List Operation) (m : Machine) {n : Machine}
      → run_loop o parent_tx input_index ops m ≡ pass n
      → IsWithin m
      → IsWithin n
  unfolding run_loop
  run_loop-IsWithin [] m h w = subst IsWithin (pass_injective h) w
  run_loop-IsWithin (op ∷ ops) m h w =
      let (k, e, g) = >>=-eq-pass (next_step o parent_tx input_index op ops m) _ h in
      run_loop-IsWithin ops k g (next_step-IsWithin op ops m e w)

-- ===== src/Script/Run/Guarantees.antt =====
-- What holds of every script whose run in Script.Run passes.
use libbitcoin.Prelude.{All, arith, ℕ, ◌≤◌, Bool, List, [], ◌∷◌, length, ◌≡◌, refl, ap, ◌∙◌, some}
use libbitcoin.Openssl.{Openssl}
use libbitcoin.Messages.{Transaction}
use libbitcoin.Script.{Script}
use libbitcoin.Script.Codec.{script_size}
use libbitcoin.Script.Outcome.{pass, require, ◌>>=◌, >>=-eq-pass}
use libbitcoin.Script.Values.{DataStack, closed}
use libbitcoin.Script.Run.{count_non_push, start, run_loop, run_script}
use libbitcoin.Script.Run.Limits.{
  IsAllowed, branch_depth, run_loop-All, run_loop-branch_depth, run_loop-IsWithin,
}

closed-eq-pass :
    (values : List Bool) {a b : DataStack}
    → require (closed values) (pass a) ≡ pass b
    → (length values ≡ 0) × (a ≡ b)
unfolding closed
closed-eq-pass [] h = (refl, cc)
closed-eq-pass (value ∷ values) h = cc

module _ (o : Openssl) (parent_tx : Transaction) (input_index : ℕ) where
  run_script-eq-pass :
      (s : Script) (stack : DataStack) {result : DataStack}
      → run_script o parent_tx input_index s stack ≡ pass result
      → (script_size s ≤ 10000)
        × (count_non_push s.operations ≤ 201)
        × ((run_loop o parent_tx input_index s.operations (start s.operations stack) >>= λ m.
              require (closed m.conditional_stack) (pass m.stack))
            ≡ pass result)
  unfolding run_script
  run_script-eq-pass s stack h = ground arith

  -- A script whose run passes is within all limits: its size is at most 10000, it has at most 201
  -- operations that are no pushes, no operation, executed or not, has more than 520 bytes of data or a
  -- disabled opcode, every else_ and endif has an open branch and every branch is closed at the end.
  pub run_script-All :
      (s : Script) (stack : DataStack) {result : DataStack}
      → run_script o parent_tx input_index s stack ≡ pass result
      → (script_size s ≤ 10000)
        × (count_non_push s.operations ≤ 201)
        × All IsAllowed s.operations
        × (branch_depth s.operations 0 ≡ some 0)
  unfolding start
  run_script-All s stack h =
      let (size, count, loop) = run_script-eq-pass s stack h in
      let (m, e, g) =
        >>=-eq-pass (run_loop o parent_tx input_index s.operations (start s.operations stack)) _
          loop in
      let (shut, _) = closed-eq-pass m.conditional_stack g in
      (
        size,
        count,
        run_loop-All o parent_tx input_index s.operations (start s.operations stack) e,
        run_loop-branch_depth o parent_tx input_index s.operations (start s.operations stack) e
            ∙ ap some shut,
      )

  -- A run that starts on at most 1000 items and passes leaves at most 1000 items.
  run_script-length :
      (s : Script) (stack : DataStack) {result : DataStack}
      → length stack ≤ 1000
      → run_script o parent_tx input_index s stack ≡ pass result
      → length result ≤ 1000
  unfolding start
  run_script-length s stack w h =
      let (_, _, loop) = run_script-eq-pass s stack h in
      let (m, e, g) =
        >>=-eq-pass (run_loop o parent_tx input_index s.operations (start s.operations stack)) _
          loop in
      let (_, same) = closed-eq-pass m.conditional_stack g in
      let within =
        run_loop-IsWithin o parent_tx input_index s.operations (start s.operations stack) e
          (omega arith) in
      rw⁻¹ same (omega (arith, within))

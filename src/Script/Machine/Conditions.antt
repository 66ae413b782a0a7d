-- ===== src/Script/Machine/Conditions.antt =====
-- What an operation of Script.Machine does to the conditional stack.
use libbitcoin.Prelude.{
  ℕ, zero, suc, Bool, false, arith, sym, ap, ◌∙◌, List, [], ◌∷◌, length, ◌≡◌, refl, Option, none,
  some,
}
use libbitcoin.Openssl.{Openssl}
use libbitcoin.Messages.{Transaction}
use libbitcoin.Script.Opcode.{Opcode}
use libbitcoin.Script.Opcode.Kinds.{is_condition_opcode}
use libbitcoin.Script.Outcome.{Outcome, pass, >>=-eq-pass}
use libbitcoin.Script.Values.{DataStack, invert_top, close_top}
use libbitcoin.Script.Machine.{
  Machine, on_stack, on_conditions, op_if, op_notif, op_else, op_endif, to_alternate,
  from_alternate, open_on, op_toaltstack, op_fromaltstack, run_operation, guarded,
}

-- The rest of the machine is the same.
pub on_stack-conditional_stack :
    (f : DataStack → Outcome DataStack) (m : Machine) {n : Machine}
    → on_stack f m ≡ pass n
    → n.conditional_stack ≡ m.conditional_stack
unfolding on_stack
on_stack-conditional_stack f m h = let (stack, e, g) = >>=-eq-pass (f m.stack) _ h in cc

to_alternate-conditional_stack :
    (stack : DataStack) (m : Machine) {n : Machine}
    → to_alternate stack m ≡ pass n
    → n.conditional_stack ≡ m.conditional_stack
unfolding to_alternate
to_alternate-conditional_stack [] m h = cc
to_alternate-conditional_stack (top ∷ stack) m h = cc

from_alternate-conditional_stack :
    (stack : DataStack) (m : Machine) {n : Machine}
    → from_alternate stack m ≡ pass n
    → n.conditional_stack ≡ m.conditional_stack
unfolding from_alternate
from_alternate-conditional_stack [] m h = cc
from_alternate-conditional_stack (top ∷ stack) m h = cc

module _ (o : Openssl) (parent_tx : Transaction) (input_index : ℕ) where
  pub run_operation-conditional_stack :
      (code : Opcode) (m : Machine) {n : Machine}
      → is_condition_opcode code ≡ false
      → run_operation o parent_tx input_index code m ≡ pass n
      → n.conditional_stack ≡ m.conditional_stack
  unfolding run_operation is_condition_opcode op_toaltstack op_fromaltstack
  run_operation-conditional_stack Opcode.zero m c h = cc
  run_operation-conditional_stack Opcode.toaltstack m c h =
      to_alternate-conditional_stack m.stack m h
  run_operation-conditional_stack Opcode.fromaltstack m c h =
      from_alternate-conditional_stack m.alternate_stack m h
  run_operation-conditional_stack _ m c h = first_of (cc, search on_stack-conditional_stack)

-- The number of open branches after an operation; `none` where there is no branch to go on with.
unfoldable pub step_depth : Opcode → ℕ → Option ℕ
step_depth Opcode.if_ d = some (suc d)
step_depth Opcode.notif d = some (suc d)
step_depth Opcode.else_ zero = none
step_depth Opcode.else_ (suc d) = some (suc d)
step_depth Opcode.endif zero = none
step_depth Opcode.endif (suc d) = some d
step_depth _ d = some d

open_on-length :
    (stack : DataStack) (m : Machine) {n : Machine}
    → open_on stack m ≡ pass n
    → length n.conditional_stack ≡ suc (length m.conditional_stack)
unfolding open_on
open_on-length [] m h = cc
open_on-length (top ∷ stack) m h = cc

op_if-length :
    (m : Machine) {n : Machine}
    → op_if m ≡ pass n
    → length n.conditional_stack ≡ suc (length m.conditional_stack)
unfolding op_if
op_if-length m h = ground (arith, open_on-length m.stack m)

invert_top-length :
    (values : List Bool) {ws : List Bool} → invert_top values ≡ pass ws → length ws ≡ length values
unfolding invert_top
invert_top-length [] h = cc
invert_top-length (v ∷ values) h = cc

on_conditions-eq-pass :
    (f : List Bool → Outcome (List Bool)) (m : Machine) {n : Machine}
    → on_conditions f m ≡ pass n
    → f m.conditional_stack ≡ pass n.conditional_stack
unfolding on_conditions
on_conditions-eq-pass f m h = let (values, e, g) = >>=-eq-pass (f m.conditional_stack) _ h in cc

op_notif-length :
    (m : Machine) {n : Machine}
    → op_notif m ≡ pass n
    → length n.conditional_stack ≡ suc (length m.conditional_stack)
unfolding op_notif
op_notif-length m h =
    let (opened, e, g) = >>=-eq-pass (op_if m) _ h in
    invert_top-length opened.conditional_stack (on_conditions-eq-pass invert_top opened g)
    ∙ op_if-length m e

guarded-else :
    (values : List Bool) {ws : List Bool}
    → guarded invert_top values ≡ pass ws
    → step_depth Opcode.else_ (length values) ≡ some (length ws)
unfolding guarded invert_top step_depth
guarded-else [] h = cc
guarded-else (v ∷ values) h = cc

guarded-endif :
    (values : List Bool) {ws : List Bool}
    → guarded close_top values ≡ pass ws
    → step_depth Opcode.endif (length values) ≡ some (length ws)
unfolding guarded close_top step_depth
guarded-endif [] h = cc
guarded-endif (v ∷ values) h = cc

module _ (o : Openssl) (parent_tx : Transaction) (input_index : ℕ) where
  pub run_operation-step_depth :
      (code : Opcode) (m : Machine) {n : Machine}
      → run_operation o parent_tx input_index code m ≡ pass n
      → step_depth code (length m.conditional_stack) ≡ some (length n.conditional_stack)
  unfolding run_operation op_else op_endif is_condition_opcode step_depth
  run_operation-step_depth Opcode.if_ m h = ap some (sym (op_if-length m h))
  run_operation-step_depth Opcode.notif m h = ap some (sym (op_notif-length m h))
  run_operation-step_depth Opcode.else_ m h =
      guarded-else m.conditional_stack (on_conditions-eq-pass (guarded invert_top) m h)
  run_operation-step_depth Opcode.endif m h =
      guarded-endif m.conditional_stack (on_conditions-eq-pass (guarded close_top) m h)
  run_operation-step_depth code m h =
      ap (λ c. some (length c))
        (sym (run_operation-conditional_stack o parent_tx input_index code m refl h))

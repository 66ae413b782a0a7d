-- ===== src/Script/Run/Redeem.antt =====
-- Spends to a script hash: `run` of Script.Run with bip16_enabled.
use libbitcoin.Prelude.{
  arith, ℕ, Bool, true, false, ◌&&◌, List, [], ◌∷◌, length, leb, leb→le, chunk_eq, chunk_eq→eq, ◌≡◌,
  refl, sym, ap, ◌∙◌, inl, inr, Bool-cases, if◌then◌else◌, Result, ok, err,
}
use libbitcoin.Openssl.{Openssl}
use libbitcoin.Digest.{generate_ripemd_hash}
use libbitcoin.Messages.{Transaction}
use libbitcoin.Script.{Script}
use libbitcoin.Script.Opcode.Kinds.{is_push, opcode_is_disabled, is_condition_opcode}
use libbitcoin.Script.Codec.{script_size, parse_script, code_eq}
use libbitcoin.Script.Outcome.{Outcome, pass, require, trusted, >>=-eq-pass}
use libbitcoin.Script.Values.{
  DataStack, cast_to_bool, has_failed_branches, closed, stack_true_value, stack_false_value,
}
use libbitcoin.Script.Types.{
  pays_script_hash, payment_type, is_pubkey_type, is_pubkey_hash_type, is_script_hash_type,
}
use libbitcoin.Script.Arithmetic.{op_hash160, digest}
use libbitcoin.Script.Machine.{run_operation, on_stack}
use libbitcoin.Script.Run.{
  count_non_push, start, push_data, execute, within_limit, next_step, run_loop, run_script,
  ends_true, is_push_only, run_eval_script, run,
}
use libbitcoin.Script.Run.Payments.{script_hash_script, run_script-script_hash_script}

require-eq-pass {ℓ} :
    {A : Type ℓ} (b : Bool) (k : Outcome A) {a : A}
    → require b k ≡ pass a
    → (b ≡ true) × (k ≡ pass a)
require-eq-pass true k h = (refl, h)
require-eq-pass false k h = cc

outcome_eq {ℓ} : {A : Type ℓ} {a b : A} → pass a ≡ pass b → a ≡ b
outcome_eq h = cc

trusted-eq-pass {ℓ} : {A : Type ℓ} (r : Result A) {a : A} → trusted r ≡ pass a → r ≡ ok a
trusted-eq-pass (ok a) h = cc
trusted-eq-pass (err e) h = cc

pub pays_script_hash-script_hash_script :
    (hash : List ℕ) → length hash ≡ 20 → pays_script_hash (script_hash_script hash) ≡ true
unfolding pays_script_hash payment_type is_pubkey_type is_pubkey_hash_type is_script_hash_type
    script_hash_script code_eq
pays_script_hash-script_hash_script hash h = ground arith

eval_branch :
    {b : Bool} {k : Outcome (Unit {0})}
    → b ≡ true
    → (if true && b then k else pass tt) ≡ pass tt
    → k ≡ pass tt
eval_branch e h = ground arith

module _ (o : Openssl) (parent_tx : Transaction) (input_index : ℕ) where
  -- What the script's run asks of the stack that the input script left.
  abbrev IsPreimage : List ℕ → DataStack → Type 0
  IsPreimage hash stack =
      (top : List ℕ) × (rest : DataStack) × (stack ≡ top ∷ rest)
      × (generate_ripemd_hash o top ≡ hash)

  not_false :
      (b : Bool) (rest : DataStack)
      → ends_true ((if b then stack_true_value else stack_false_value) ∷ rest) ≡ true
      → b ≡ true
  unfolding ends_true cast_to_bool
  not_false true rest h = refl
  not_false false rest h = cc

  script_hash_script-IsPreimage :
      (hash : List ℕ) (stack : DataStack) {result : DataStack}
      → length hash ≡ 20
      → run_script o parent_tx input_index (script_hash_script hash) stack ≡ pass result
      → ends_true result ≡ true
      → IsPreimage hash stack
  unfolding script_hash_script run_script script_size run_loop start count_non_push is_push closed
      next_step opcode_is_disabled has_failed_branches is_condition_opcode execute push_data
      run_operation on_stack op_hash160 digest within_limit code_eq
  script_hash_script-IsPreimage hash [] size h e = ground arith
  script_hash_script-IsPreimage hash (top ∷ rest) size h e =
      elim (Bool-cases (leb (length rest) 998)) [
        | inl b ↦
            let same = outcome_eq (
              sym (
                run_script-script_hash_script o parent_tx input_index hash top rest size
                  (leb→le (length rest) 998 b))
              ∙ h) in
            let b =
              not_false (chunk_eq hash (generate_ripemd_hash o top)) rest (ap ends_true same ∙ e) in
            (top, rest, refl, sym (chunk_eq→eq hash (generate_ripemd_hash o top) b))
        | inr b ↦ ground arith
      ]

  abbrev pub IsRedeemed : Script → DataStack → Type 0
  IsRedeemed eval_script stack =
      (result : DataStack) × (run_script o parent_tx input_index eval_script stack ≡ pass result)
      × (ends_true result ≡ true)

  run_eval_script-eq-pass :
      (input_script : Script) (top : List ℕ) (rest : DataStack)
      → run_eval_script o parent_tx input_index input_script (top ∷ rest) ≡ pass tt
      → (is_push_only input_script.operations ≡ true)
        × (eval_script : Script) × (parse_script top ≡ ok eval_script)
        × IsRedeemed eval_script rest
  unfolding run_eval_script
  run_eval_script-eq-pass input_script top rest h =
      let (pushes, run_eval) = require-eq-pass (is_push_only input_script.operations) _ h in
      let (eval_script, parsed, running) = >>=-eq-pass (trusted (parse_script top)) _ run_eval in
      let (result, ran, ends) =
        >>=-eq-pass (run_script o parent_tx input_index eval_script rest) _ running in
      (
        pushes,
        eval_script,
        trusted-eq-pass (parse_script top) parsed,
        (result, ran, (require-eq-pass (ends_true result) (pass tt) ends).0),
      )

  -- An input script that passes as the spend of a script hash payment under BIP 16, with a hash of 20
  -- bytes, is made of pushes, the item it leaves
  -- on top has the script's hash and parses to a script, and this script passes on the items below and
  -- ends with a true item.
  pub run-script_hash_script :
      (hash : List ℕ) (input_script : Script)
      → length hash ≡ 20
      → run o parent_tx input_index (script_hash_script hash) input_script true ≡ pass tt
      → (is_push_only input_script.operations ≡ true)
        × (top : List ℕ) × (rest : DataStack) × (run_script o parent_tx input_index input_script []
            ≡ pass (top ∷ rest))
        × (generate_ripemd_hash o top ≡ hash)
        × (eval_script : Script) × (parse_script top ≡ ok eval_script)
        × IsRedeemed eval_script rest
  unfolding run
  run-script_hash_script hash input_script size h =
      let (stack, input_ran, g) =
        >>=-eq-pass (run_script o parent_tx input_index input_script []) _ h in
      let (result, ran, g) =
        >>=-eq-pass (run_script o parent_tx input_index (script_hash_script hash) stack) _ g in
      let (ends, evaluated) = require-eq-pass (ends_true result) _ g in
      let (top, rest, same, hashed) = script_hash_script-IsPreimage hash stack size ran ends in
      let evaluates : run_eval_script o parent_tx input_index input_script (top ∷ rest) ≡ pass tt =
        ap (run_eval_script o parent_tx input_index input_script) (sym same)
        ∙ eval_branch (pays_script_hash-script_hash_script hash size) evaluated in
      let (pushes, eval_script, parsed, redeemed) =
        run_eval_script-eq-pass input_script top rest evaluates in
      (pushes, top, rest, input_ran ∙ ap pass same, hashed, eval_script, parsed, redeemed)

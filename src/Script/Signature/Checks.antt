-- ===== src/Script/Signature/Checks.antt =====
-- check_signature and the opcodes checksig and checkmultisig of src/script.cpp.
use libbitcoin.Prelude.{
  ℕ, Bool, true, false, ◌||◌, List, [], ◌∷◌, reverse, length, take, drop, ltb, if◌then◌else◌,
  Option, none, some, chunk_eq,
}
use libbitcoin.Openssl.{Openssl}
use libbitcoin.BigNumber.{uint32}
use libbitcoin.Constants.{null_hash}
use libbitcoin.Messages.{Transaction}
use libbitcoin.Script.{Script, Operation, empty_script, push_operation}
use libbitcoin.Script.Opcode.{Opcode}
use libbitcoin.Script.Codec.{code_eq}
use libbitcoin.Script.Outcome.{Outcome, pass, fault, require, trusted, ◌>>=◌}
use libbitcoin.Script.Values.{DataStack, cast_to_big_number, stack_true_value, stack_false_value}
use libbitcoin.Script.Signature.Hash.{generate_signature_hash}

-- `std::find` on a vector of items.
unfoldable pub is_signature : List (List ℕ) → List ℕ → Bool
is_signature [] bytes = false
is_signature (signature ∷ signatures) bytes =
    if chunk_eq signature bytes then true else is_signature signatures bytes

-- The loop that copies the operations from `codehash_begin_` on.
unfoldable pub script_code_loop : List (List ℕ) → List Operation → Script → Script
unfolding is_signature push_operation
script_code_loop signatures [] script_code = script_code
script_code_loop signatures (op ∷ operations) script_code =
    if code_eq op.code Opcode.codeseparator || is_signature signatures op.bytes
    then script_code_loop signatures operations script_code
    else script_code_loop signatures operations (push_operation script_code op)

module _ (o : Openssl) (parent_tx : Transaction) (input_index : ℕ) where
  -- The back of the signature is the head of the list given.
  signature_verifies : o.Key → Script → List ℕ → Outcome Bool
  signature_verifies key script_code [] = fault
  signature_verifies key script_code (hash_type ∷ signature) = do
    tx_hash ← trusted (generate_signature_hash o parent_tx input_index script_code hash_type)
    pass (
        if chunk_eq tx_hash null_hash
        then false
        else o.ecdsa_verify key (reverse tx_hash) (reverse signature))

  unfoldable pub check_signature : List ℕ → List ℕ → Script → Outcome Bool
  unfolding signature_verifies
  check_signature signature pubkey script_code = elim (o.public_key_of pubkey) [
    | none ↦ pass false
    | some key ↦ signature_verifies key script_code (reverse signature)
  ]

  -- The result of the opcode and the stack it leaves, which `checksig` goes on with.
  unfoldable pub checksigverify_impl : List Operation → DataStack → Outcome (Bool × DataStack)
  unfolding check_signature
  checksigverify_impl codehash (pubkey ∷ signature ∷ stack) = do
    verified ←
        check_signature signature pubkey (script_code_loop (signature ∷ []) codehash empty_script)
    pass (verified, stack)
  checksigverify_impl codehash stack = pass (false, stack)

  unfoldable pub op_checksigverify : List Operation → DataStack → Outcome DataStack
  unfolding checksigverify_impl
  op_checksigverify codehash stack = do
    (verified, stack) ← checksigverify_impl codehash stack
    require verified (pass stack)

  unfoldable pub op_checksig : List Operation → DataStack → Outcome DataStack
  unfolding checksigverify_impl
  op_checksig codehash stack = do
    (verified, stack) ← checksigverify_impl codehash stack
    pass ((if verified then stack_true_value else stack_false_value) ∷ stack)

  counted_section : Option o.Bignum → DataStack → Option DataStack × DataStack
  counted_section none stack = (none, stack)
  counted_section (some count_big_num) stack =
      let count = uint32 o count_big_num in
      if ltb (length stack) count
      then (none, stack)
      else (some (take count stack), drop count stack)

  -- `none` is the result false. The section keeps the order of the pops.
  unfoldable pub read_section : DataStack → Option DataStack × DataStack
  unfolding counted_section
  read_section [] = (none, [])
  read_section (count ∷ stack) = counted_section (cast_to_big_number o count) stack

  -- The inner loop, from `pubkey_current`: the public keys from the one that fits on, or `none`
  -- when they are exhausted. With no public key at all the iterator is dereferenced at the end.
  unfoldable pub advance_pubkeys :
      Script → List ℕ → List (List ℕ) → Outcome (Option (List (List ℕ)))
  unfolding check_signature
  advance_pubkeys script_code signature [] = fault
  advance_pubkeys script_code signature (pubkey ∷ []) = do
    verified ← check_signature signature pubkey script_code
    pass (if verified then some (pubkey ∷ []) else none)
  advance_pubkeys script_code signature (pubkey ∷ next ∷ pubkeys) =
      let rest = advance_pubkeys script_code signature (next ∷ pubkeys) in
      do
        verified ← check_signature signature pubkey script_code
        if verified then pass (some (pubkey ∷ next ∷ pubkeys)) else rest

  -- The outer loop, over the signatures.
  unfoldable pub check_signatures : Script → List (List ℕ) → List (List ℕ) → Outcome Bool
  unfolding advance_pubkeys
  check_signatures script_code [] pubkeys = pass true
  check_signatures script_code (signature ∷ signatures) pubkeys = do
    current ← advance_pubkeys script_code signature pubkeys
    elim current [
      | none ↦ pass false
      | some pubkeys ↦ check_signatures script_code signatures pubkeys
    ]

  with_signatures :
      List Operation → DataStack → Option DataStack × DataStack → Outcome (Bool × DataStack)
  unfolding check_signatures
  with_signatures codehash pubkeys (none, stack) = pass (false, stack)
  with_signatures codehash pubkeys (some signatures, stack) = do
    verified ←
        check_signatures (script_code_loop signatures codehash empty_script) signatures pubkeys
    pass (verified, stack)

  with_pubkeys : List Operation → Option DataStack × DataStack → Outcome (Bool × DataStack)
  unfolding with_signatures read_section
  with_pubkeys codehash (none, stack) = pass (false, stack)
  with_pubkeys codehash (some pubkeys, stack) =
      with_signatures codehash pubkeys (read_section stack)

  unfoldable pub checkmultisigverify_impl : List Operation → DataStack → Outcome (Bool × DataStack)
  unfolding with_pubkeys read_section
  checkmultisigverify_impl codehash stack = with_pubkeys codehash (read_section stack)

  unfoldable pub op_checkmultisigverify : List Operation → DataStack → Outcome DataStack
  unfolding checkmultisigverify_impl
  op_checkmultisigverify codehash stack = do
    (verified, stack) ← checkmultisigverify_impl codehash stack
    require verified (pass stack)

  unfoldable pub op_checkmultisig : List Operation → DataStack → Outcome DataStack
  unfolding checkmultisigverify_impl
  op_checkmultisig codehash stack = do
    (verified, stack) ← checkmultisigverify_impl codehash stack
    pass ((if verified then stack_true_value else stack_false_value) ∷ stack)

-- ===== src/Script/Signature/Hash/Covers.antt =====
-- What a signature hash does not cover.
use libbitcoin.Prelude.{ℕ, zero, suc, ◌%◌, ◌≡◌, refl, ap, List, [], ◌∷◌, map, length}
use libbitcoin.Openssl.{Openssl}
use libbitcoin.Messages.{TransactionInput, TransactionOutput, Transaction}
use libbitcoin.Script.{Script, empty_script}
use libbitcoin.Script.Signature.Hash.{
  with_script, set_scripts, signed_outputs, generate_signature_hash,
}

-- A transaction with other input scripts.
unfoldable pub with_scripts :
    (TransactionInput → Script) → List TransactionInput → List TransactionInput
unfolding with_script
with_scripts scripts [] = []
with_scripts scripts (input ∷ inputs) =
    with_script (scripts input) input ∷ with_scripts scripts inputs

blank_scripts :
    (scripts : TransactionInput → Script) (inputs : List TransactionInput)
    → map (with_script empty_script) (with_scripts scripts inputs)
      ≡ map (with_script empty_script) inputs
unfolding with_scripts with_script
blank_scripts scripts [] = refl
blank_scripts scripts (input ∷ inputs) =
    ap (λ rest. with_script empty_script input ∷ rest) (blank_scripts scripts inputs)

set_scripts-with_scripts :
    (n : ℕ) (code : Script) (scripts : TransactionInput → Script) (inputs : List TransactionInput)
    → set_scripts n code (with_scripts scripts inputs) ≡ set_scripts n code inputs
unfolding set_scripts with_scripts with_script
set_scripts-with_scripts zero code scripts [] = refl
set_scripts-with_scripts (suc n) code scripts [] = refl
set_scripts-with_scripts zero code scripts (input ∷ inputs) =
    ap (λ rest. with_script code input ∷ rest) (blank_scripts scripts inputs)
set_scripts-with_scripts (suc n) code scripts (input ∷ inputs) =
    ap (λ rest. with_script empty_script input ∷ rest)
      (set_scripts-with_scripts n code scripts inputs)

length-with_scripts :
    (scripts : TransactionInput → Script) (inputs : List TransactionInput)
    → length (with_scripts scripts inputs) ≡ length inputs
unfolding with_scripts
length-with_scripts scripts [] = refl
length-with_scripts scripts (input ∷ inputs) = ap suc (length-with_scripts scripts inputs)

module _ (o : Openssl) where
  -- Under the hash type none a signature hash depends on neither the scripts that the transaction's inputs
  -- have nor its outputs.
  pub generate_signature_hash-with_scripts :
      (tx : Transaction) (input_index : ℕ) (script_code : Script) (hash_type : ℕ)
      (scripts : TransactionInput → Script) (outputs : List TransactionOutput)
      → hash_type % 32 ≡ 2
      → (generate_signature_hash o
            (record tx { inputs = with_scripts scripts tx.inputs })
            input_index
            script_code
            hash_type
          ≡ generate_signature_hash o tx input_index script_code hash_type)
        × (generate_signature_hash o
              (record tx { outputs = outputs })
              input_index
              script_code
              hash_type
            ≡ generate_signature_hash o tx input_index script_code hash_type)
  unfolding generate_signature_hash signed_outputs
  generate_signature_hash-with_scripts tx input_index script_code hash_type scripts outputs
        none_type =
      (
        rw (
          set_scripts-with_scripts input_index script_code scripts tx.inputs,
          length-with_scripts scripts tx.inputs,
        ),
        rw none_type refl,
      )

-- ===== src/Validate/Sigops.antt =====
-- The counts of signature operations in src/validate.cpp.
use libbitcoin.Prelude.{
  arith, ℕ, ◌+◌, ◌≤◌, ◌%◌, Bool, true, false, not, ◌&&◌, ◌||◌, List, [], ◌∷◌, ◌++◌, map, leb, ◌==◌,
  if◌then◌else◌, ◌≡◌, refl, ap, ◌∙◌,
}
use libbitcoin.Messages.{TransactionInput, TransactionOutput, Transaction}
use libbitcoin.Script.{Operation}
use libbitcoin.Script.Opcode.{Opcode, value_of}
use libbitcoin.Script.Codec.{code_eq}

unfoldable pub added_sigs : Bool → ℕ → Opcode → ℕ
added_sigs accurate last_number code =
    if code_eq code Opcode.checksig || code_eq code Opcode.checksigverify
    then 1
    else if code_eq code Opcode.checkmultisig || code_eq code Opcode.checkmultisigverify
    then (if accurate && not (last_number == 0) then last_number else 20)
    else 0

-- The opcode is cast to a byte, and the byte of op_1 to op_16 is kept as it is.
unfoldable pub next_number : ℕ → Opcode → ℕ
next_number last_number code =
    if leb 81 (value_of code % 256) && leb (value_of code % 256) 96
    then value_of code % 256
    else last_number

unfoldable pub sigops_loop : Bool → List Operation → ℕ → ℕ → ℕ
unfolding added_sigs next_number
sigops_loop accurate [] total_sigs last_number = total_sigs
sigops_loop accurate (op ∷ operations) total_sigs last_number =
    sigops_loop accurate operations (total_sigs + added_sigs accurate last_number op.code)
      (next_number last_number op.code)

unfoldable pub count_script_sigops : List Operation → Bool → ℕ
unfolding sigops_loop
count_script_sigops operations accurate = sigops_loop accurate operations 0 0

unfoldable pub inputs_sigops : List TransactionInput → ℕ → ℕ
unfolding count_script_sigops
inputs_sigops [] total_sigs = total_sigs
inputs_sigops (input ∷ inputs) total_sigs =
    inputs_sigops inputs (total_sigs + count_script_sigops input.input_script.operations false)

unfoldable pub outputs_sigops : List TransactionOutput → ℕ → ℕ
unfolding count_script_sigops
outputs_sigops [] total_sigs = total_sigs
outputs_sigops (output ∷ outputs) total_sigs =
    outputs_sigops outputs (total_sigs + count_script_sigops output.output_script.operations false)

unfoldable pub tx_legacy_sigops_count : Transaction → ℕ
unfolding inputs_sigops outputs_sigops
tx_legacy_sigops_count tx = outputs_sigops tx.outputs (inputs_sigops tx.inputs 0)

unfoldable pub legacy_sigops_count : List Transaction → ℕ → ℕ
unfolding tx_legacy_sigops_count
legacy_sigops_count [] total_sigs = total_sigs
legacy_sigops_count (tx ∷ transactions) total_sigs =
    legacy_sigops_count transactions (total_sigs + tx_legacy_sigops_count tx)

abbrev pub pushed_key : List ℕ → Operation
pushed_key bytes = record { code = Opcode.special; bytes = bytes }

zero_add : (n : ℕ) → 0 + n ≡ n
zero_add n = omega arith

add_nothing : (n : ℕ) → n + 0 ≡ n
add_nothing n = omega arith

sigops_loop-step :
    (op : Operation) (operations : List Operation) (total last_number : ℕ)
    → sigops_loop true (op ∷ operations) total last_number
      ≡ sigops_loop true operations
          (total + added_sigs true last_number op.code)
          (next_number last_number op.code)
unfolding sigops_loop
sigops_loop-step op operations total last_number = refl

-- After any number of pushed keys.
sigops_loop-pushed_key :
    (keys : List (List ℕ)) (operations : List Operation) (total last_number : ℕ)
    → sigops_loop true (map pushed_key keys ++ operations) total last_number
      ≡ sigops_loop true operations total last_number
unfolding sigops_loop code_eq value_of
sigops_loop-pushed_key [] operations total last_number = refl
sigops_loop-pushed_key (key ∷ keys) operations total last_number =
    ap (λ t. sigops_loop true (map pushed_key keys ++ operations) t last_number) (add_nothing total)
    ∙ sigops_loop-pushed_key keys operations total last_number

added_sigs-number :
    (last_number : ℕ) (code : Opcode)
    → 81 ≤ value_of code
    → value_of code ≤ 96
    → added_sigs true last_number code ≡ 0
unfolding added_sigs code_eq value_of
added_sigs-number last_number code low high = ground arith

next_number-number :
    (last_number : ℕ) (code : Opcode)
    → 81 ≤ value_of code
    → value_of code ≤ 96
    → next_number last_number code ≡ value_of code
unfolding next_number
next_number-number last_number code low high = ground arith

added_sigs-checkmultisig :
    (last_number : ℕ)
    → 81 ≤ last_number
    → added_sigs true last_number Opcode.checkmultisig ≡ last_number
unfolding added_sigs code_eq value_of
added_sigs-checkmultisig last_number low = ground arith

sigops_loop-number :
    (code : Opcode) (operations : List Operation) (total last_number : ℕ)
    → 81 ≤ value_of code
    → value_of code ≤ 96
    → sigops_loop true (record { code = code; bytes = [] } ∷ operations) total last_number
      ≡ sigops_loop true operations total (value_of code)
sigops_loop-number code operations total last_number low high = rw (
  sigops_loop-step (record { code = code; bytes = [] }) operations total last_number,
  added_sigs-number last_number code low high,
  next_number-number last_number code low high,
  add_nothing total,
)

sigops_loop-checkmultisig :
    (last_number : ℕ)
    → 81 ≤ last_number
    → sigops_loop true (record { code = Opcode.checkmultisig; bytes = [] } ∷ []) 0 last_number
      ≡ last_number
unfolding sigops_loop
sigops_loop-checkmultisig last_number low =
    zero_add (added_sigs true last_number Opcode.checkmultisig)
    ∙ added_sigs-checkmultisig last_number low

-- The accurate count of the script of a multisignature payment, which has the opcodes of two numbers from 1 to 16,
-- pushed keys between them, and checkmultisig, is the value of the second opcode: 80 more than its
-- number, which is the number of keys.
pub count_script_sigops-value_of :
    (needed count : Opcode) (keys : List (List ℕ))
    → 81 ≤ value_of needed
    → value_of needed ≤ 96
    → 81 ≤ value_of count
    → value_of count ≤ 96
    → count_script_sigops
        (record { code = needed; bytes = [] } ∷ map pushed_key keys
          ++ record { code = count; bytes = [] }
            ∷ record { code = Opcode.checkmultisig; bytes = [] }
            ∷ [])
        true
      ≡ value_of count
unfolding count_script_sigops
count_script_sigops-value_of needed count keys low high low_count high_count =
    let multisig : List Operation = record { code = Opcode.checkmultisig; bytes = [] } ∷ [] in
    let counted : List Operation = record { code = count; bytes = [] } ∷ multisig in
    sigops_loop-number needed (map pushed_key keys ++ counted) 0 0 low high
    ∙ sigops_loop-pushed_key keys counted 0 (value_of needed)
    ∙ sigops_loop-number count multisig 0 (value_of needed) low_count high_count
    ∙ sigops_loop-checkmultisig (value_of count) low_count

-- ===== src/Script/Codec/Save.antt =====
-- What `save_script` writes, and how long it is.
use libbitcoin.Prelude.{
  ℕ, ◌+◌, ◌≡◌, refl, sym, ◌∙◌, List, [], ◌∷◌, ◌++◌, append_assoc, append-nil, length, length-append,
  arith, false, Bool-cases, inl, inr,
}
use libbitcoin.Format.{length-uncast_type}
use libbitcoin.Script.{Operation, Script}
use libbitcoin.Script.Opcode.{Opcode}
use libbitcoin.Script.Codec.{
  code_eq, operation_metadata, saved_byte, save_loop, save_operations, save_script, metadata_size,
  size_loop, operations_size, script_size,
}

-- The bytes of one operation, with what follows.
unfoldable pub operation_bytes : Operation → List ℕ → List ℕ
operation_bytes op rest =
    saved_byte op.code op.bytes
    ∷ (operation_metadata op.code (length op.bytes) ++ (op.bytes ++ rest))

unfoldable pub operations_bytes : List Operation → List ℕ
operations_bytes [] = []
operations_bytes (op ∷ ops) = operation_bytes op (operations_bytes ops)

pub save_loop-operations_bytes :
    (ops : List Operation) (raw : List ℕ) → save_loop ops raw ≡ raw ++ operations_bytes ops
unfolding save_loop operations_bytes operation_bytes
save_loop-operations_bytes [] raw = sym (append-nil raw)
save_loop-operations_bytes (op ∷ ops) raw = save_loop-operations_bytes ops _ ∙ simp append_assoc

-- The first operation is not the raw data of a coinbase script.
abbrev pub StartsCoded : List Operation → Type 0
StartsCoded [] = Unit {0}
StartsCoded (op ∷ ops) = code_eq op.code Opcode.raw_data ≡ false

pub save_script-operations_bytes :
    (s : Script) → StartsCoded s.operations → save_script s ≡ operations_bytes s.operations
unfolding save_script
save_script-operations_bytes s coded = of_list s.operations coded
  where
    of_list : (ops : List Operation) → StartsCoded ops → save_operations ops ≡ operations_bytes ops
    of_list [] c = unfold operations_bytes save_operations in refl
    of_list (op ∷ ops) c = rw (c, save_operations) (save_loop-operations_bytes (op ∷ ops) [])

length-operation_metadata :
    (code : Opcode) (n : ℕ) → length (operation_metadata code n) ≡ metadata_size code
unfolding operation_metadata metadata_size
length-operation_metadata Opcode.pushdata1 n = length-uncast_type 1 n false
length-operation_metadata Opcode.pushdata2 n = length-uncast_type 2 n false
length-operation_metadata Opcode.pushdata4 n = length-uncast_type 4 n false
length-operation_metadata _ n = refl

size_loop-length :
    (ops : List Operation) (total : ℕ) → size_loop ops total ≡ total + length (operations_bytes ops)
unfolding size_loop operations_bytes operation_bytes
size_loop-length [] total = omega arith
size_loop-length (op ∷ ops) total =
    size_loop-length ops _
    ∙ rw (length-append (operation_metadata op.code (length op.bytes)), length-append op.bytes)
        (omega (arith, length-operation_metadata op.code (length op.bytes)))

operations_size-save_operations :
    (ops : List Operation) → operations_size ops ≡ length (save_operations ops)
unfolding operations_size save_operations
operations_size-save_operations [] = refl
operations_size-save_operations (op ∷ ops) = elim (Bool-cases (code_eq op.code Opcode.raw_data)) [
  | inl raw ↦ rw raw
  | inr coded ↦
      rw (coded, size_loop-length (op ∷ ops) 0, save_loop-operations_bytes (op ∷ ops) [])
        (omega arith)
]

-- `script_size` is the number of bytes that `save_script` writes, of every script.
pub script_size-save_script : (s : Script) → script_size s ≡ length (save_script s)
unfolding script_size save_script
script_size-save_script s = operations_size-save_operations s.operations

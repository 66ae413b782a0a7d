-- ===== src/Script/Codec/Parse.antt =====
-- Parsing undoes saving, and saving undoes parsing.
use libbitcoin.Prelude.{
  ℕ, zero, suc, ◌≤◌, ◌<◌, ◌%◌, ◌^◌, ◌≡◌, refl, ◌∙◌, subst, List, [], ◌∷◌, ◌++◌, append_assoc,
  append-nil, length, length-append, All, arith, some, ok, false,
}
use libbitcoin.Format.{uncast_type, cast_chunk-uncast_type, length-uncast_type}
use libbitcoin.Script.{Operation, Script, push_operation}
use libbitcoin.Script.Opcode.{Opcode, from_value, byte_of}
use libbitcoin.Script.Opcode.Casts.{from_value-other}
use libbitcoin.Script.Codec.{
  code_eq, read_back_from_iterator, read_count, number_of_bytes_from_opcode, read_push_data,
  parse_code, read_operation_data, parse_operation, parse_loop, parse_script, operation_metadata,
  saved_byte, save_script,
}
use libbitcoin.Script.Codec.Save.{
  StartsCoded, save_script-operations_bytes, operation_bytes, operations_bytes,
}

-- What an operation must be for its bytes to mean it: the data fits the length field of its push
-- opcode, and other opcodes have none.
abbrev pub IsCanonicalFor : Opcode → List ℕ → Type 0
IsCanonicalFor Opcode.special d = (0 < length d) × (length d ≤ 75)
IsCanonicalFor Opcode.pushdata1 d = length d < 2 ^ 8
IsCanonicalFor Opcode.pushdata2 d = length d < 2 ^ 16
IsCanonicalFor Opcode.pushdata4 d = length d < 2 ^ 32
IsCanonicalFor (Opcode.other n) d = (187 < n) × (n < 256) × (d ≡ [])
IsCanonicalFor _ d = d ≡ []

abbrev pub IsCanonical : Operation → Type 0
IsCanonical op = IsCanonicalFor op.code op.bytes

read_back-append :
    (xs rest : List ℕ) → read_back_from_iterator (xs ++ rest) (length xs) ≡ ok (xs, rest)
unfolding read_back_from_iterator
read_back-append [] rest = refl
read_back-append (x ∷ xs) rest = rw (read_back-append xs rest)

read_push_data-append :
    (xs rest acc : List ℕ) → read_push_data (xs ++ rest) (length xs) acc ≡ some (acc ++ xs, rest)
unfolding read_push_data
read_push_data-append [] rest acc = rw append-nil
read_push_data-append (x ∷ xs) rest acc =
    read_push_data-append xs rest (acc ++ x ∷ []) ∙ rw (append_assoc acc (x ∷ []) xs)

-- The length field of a push operation.
read_count-uncast_type :
    (w n : ℕ) (rest : List ℕ)
    → n < 256 ^ w
    → read_count w (uncast_type w n false ++ rest) ≡ ok (some n, rest)
unfolding read_count
read_count-uncast_type w n rest h =
    let field = uncast_type w n false in
    let back : read_back_from_iterator (field ++ rest) w ≡ ok (field, rest) =
      subst (λ k. read_back_from_iterator (field ++ rest) k ≡ ok (field, rest))
        (length-uncast_type w n false) (read_back-append field rest) in
    rw (back, cast_chunk-uncast_type w n false h)

read_operation_data-append :
    (code : Opcode) (d rest : List ℕ)
    → read_operation_data code (some (length d)) (d ++ rest)
      ≡ ok (some (record { code = code; bytes = d }), rest)
unfolding read_operation_data
read_operation_data-append code [] rest = refl
read_operation_data-append code (x ∷ xs) rest =
    ground (arith, read_push_data-append (x ∷ xs) rest [])

pub parse_code-special : (n : ℕ) → 0 < n → n ≤ 75 → parse_code n ≡ Opcode.special
unfolding parse_code
parse_code-special n lo hi = ground arith

parse_operation-special :
    (d rest : List ℕ)
    → 0 < length d
    → length d ≤ 75
    → parse_operation (length d % 256) (d ++ rest)
      ≡ ok (some (record { code = Opcode.special; bytes = d }), rest)
unfolding parse_operation number_of_bytes_from_opcode
parse_operation-special d rest lo hi =
    let small : length d % 256 ≡ length d = omega arith in
    rw (small, parse_code-special (length d) lo hi)
      (read_operation_data-append Opcode.special d rest)

parse_code-other : (n : ℕ) → 187 < n → n < 256 → parse_code n ≡ Opcode.other n
unfolding parse_code
parse_code-other n lo hi = ground (arith, from_value-other n lo)

parse_operation-other :
    (n : ℕ) (rest : List ℕ)
    → 187 < n
    → n < 256
    → parse_operation n rest ≡ ok (some (record { code = Opcode.other n; bytes = [] }), rest)
unfolding parse_operation number_of_bytes_from_opcode read_operation_data
parse_operation-other n rest lo hi = rw (parse_code-other n lo hi)

saved_byte-other : (n : ℕ) (d : List ℕ) → 187 < n → n < 256 → saved_byte (Opcode.other n) d ≡ n
unfolding saved_byte code_eq byte_of
saved_byte-other n d lo hi = ground arith

parse_operation-saved_other :
    (n : ℕ) (d rest : List ℕ)
    → IsCanonicalFor (Opcode.other n) d
    → parse_operation
        (saved_byte (Opcode.other n) d)
        (operation_metadata (Opcode.other n) (length d) ++ (d ++ rest))
      ≡ ok (some (record { code = Opcode.other n; bytes = d }), rest)
unfolding operation_metadata
parse_operation-saved_other n d rest h =
    rw (saved_byte-other n d h.0 h.1, h.2) (parse_operation-other n rest h.0 h.1)

pub parse_operation-saved :
    (code : Opcode) (d rest : List ℕ)
    → IsCanonicalFor code d
    → parse_operation (saved_byte code d) (operation_metadata code (length d) ++ (d ++ rest))
      ≡ ok (some (record { code = code; bytes = d }), rest)
unfolding saved_byte operation_metadata parse_code number_of_bytes_from_opcode parse_operation
    byte_of code_eq from_value
parse_operation-saved Opcode.special d rest h = parse_operation-special d rest h.0 h.1
parse_operation-saved Opcode.pushdata1 d rest h =
    rw (read_count-uncast_type 1 (length d) (d ++ rest) h) (read_operation_data-append _ d rest)
parse_operation-saved Opcode.pushdata2 d rest h =
    rw (read_count-uncast_type 2 (length d) (d ++ rest) (omega arith))
      (read_operation_data-append _ d rest)
parse_operation-saved Opcode.pushdata4 d rest h =
    rw (read_count-uncast_type 4 (length d) (d ++ rest) (omega arith))
      (read_operation_data-append _ d rest)
parse_operation-saved Opcode.zero d rest h = rw h (unfold from_value read_operation_data in refl)
parse_operation-saved (Opcode.other n) d rest h = parse_operation-saved_other n d rest h
parse_operation-saved _ d rest h = rw h (unfold from_value read_operation_data in refl)

-- Canonical operations are parsed back, one by one, behind those that are parsed already.
parse_loop-operations_bytes :
    (ops done : List Operation) (fuel : ℕ)
    → All IsCanonical ops
    → length (operations_bytes ops) ≤ fuel
    → parse_loop fuel (operations_bytes ops) (record { operations = done })
      ≡ ok (record { operations = done ++ ops })
unfolding parse_loop operations_bytes operation_bytes push_operation
parse_loop-operations_bytes [] done fuel h hf = rw append-nil
parse_loop-operations_bytes (op ∷ ops) done zero h hf = absurd (omega arith)
parse_loop-operations_bytes (op ∷ ops) done (suc fuel) h hf =
    let rest = operations_bytes ops in
    let meta = operation_metadata op.code (length op.bytes) in
    rw (parse_operation-saved op.code op.bytes rest h.0) (
      parse_loop-operations_bytes ops (done ++ op ∷ []) fuel h.1
        (omega (arith, length-append meta (op.bytes ++ rest), length-append op.bytes rest))
      ∙ rw (append_assoc done (op ∷ []) ops))

-- A script of canonical operations, which does not start with raw data, is parsed back from what
-- `save_script` writes of it.
pub parse_script-save_script :
    (s : Script)
    → All IsCanonical s.operations
    → StartsCoded s.operations
    → parse_script (save_script s) ≡ ok s
unfolding parse_script
parse_script-save_script s h coded =
    rw (save_script-operations_bytes s coded)
      (parse_loop-operations_bytes s.operations [] _ h (omega arith))

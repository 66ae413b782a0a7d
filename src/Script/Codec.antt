-- ===== src/Script/Codec.antt =====
-- parse_script, save_script and script_size of src/script.cpp. An iterator is the list of the bytes
-- that it has not reached; a read through the end iterator is `out_of_bounds`.
pub mod Save
pub mod Parse
mod Back
pub mod Resave
pub mod Faults
pub mod Overrun
use libbitcoin.Prelude.{
  ℕ, zero, suc, ◌+◌, ◌%◌, Bool, true, false, ◌&&◌, List, [], ◌∷◌, ◌++◌, length, Option, none, some,
  ltb, leb, ◌==◌, if◌then◌else◌, Result, ok, err, out_of_bounds, out_of_fuel, ◌>>=◌,
}
use libbitcoin.Format.{uncast_type, cast_chunk}
use libbitcoin.Script.{Operation, Script, empty_script, push_operation}
use libbitcoin.Script.Opcode.{Opcode, value_of, from_value, byte_of}

-- `==` on the enum compares the underlying values.
unfoldable pub code_eq : Opcode → Opcode → Bool
unfolding value_of
code_eq a b = value_of a == value_of b

unfoldable pub read_back_from_iterator : List ℕ → ℕ → Result (List ℕ × List ℕ)
read_back_from_iterator it zero = ok ([], it)
read_back_from_iterator [] (suc total) = err out_of_bounds
read_back_from_iterator (b ∷ it) (suc total) = do
  (number_bytes, rest) ← read_back_from_iterator it total
  ok (b ∷ number_bytes, rest)

-- `cast_chunk<T>(read_back_from_iterator(it, sizeof(T)))`.
pub read_count : ℕ → List ℕ → Result (Option ℕ × List ℕ)
unfolding read_back_from_iterator
read_count w it = do
  (number_bytes, rest) ← read_back_from_iterator it w
  ok (some (cast_chunk w number_bytes false), rest)

unfoldable pub number_of_bytes_from_opcode : Opcode → ℕ → List ℕ → Result (Option ℕ × List ℕ)
unfolding read_count
number_of_bytes_from_opcode Opcode.zero raw_byte it = ok (some raw_byte, it)
number_of_bytes_from_opcode Opcode.special raw_byte it = ok (some raw_byte, it)
number_of_bytes_from_opcode Opcode.pushdata1 raw_byte it = read_count 1 it
number_of_bytes_from_opcode Opcode.pushdata2 raw_byte it = read_count 2 it
number_of_bytes_from_opcode Opcode.pushdata4 raw_byte it = read_count 4 it
number_of_bytes_from_opcode _ raw_byte it = ok (none, it)

-- `none` is the result false, at the end of the script.
unfoldable pub read_push_data : List ℕ → ℕ → List ℕ → Option (List ℕ × List ℕ)
read_push_data it zero op_data = some (op_data, it)
read_push_data [] (suc n) op_data = none
read_push_data (b ∷ it) (suc n) op_data = read_push_data it n (op_data ++ b ∷ [])

unfoldable pub parse_code : ℕ → Opcode
parse_code raw_byte =
    if raw_byte == 0
    then Opcode.zero
    else if ltb 0 raw_byte && leb raw_byte 75
    then Opcode.special
    else from_value raw_byte

-- `none` is the early return of `script()`.
unfoldable pub pushed : Opcode → Option (List ℕ × List ℕ) → Result (Option Operation × List ℕ)
pushed code none = ok (none, [])
pushed code (some (op_data, rest)) = ok (some (record { code = code; bytes = op_data }), rest)

-- `if (read_n_bytes && *read_n_bytes != 0)`.
unfoldable pub read_operation_data : Opcode → Option ℕ → List ℕ → Result (Option Operation × List ℕ)
unfolding pushed
read_operation_data code none it = ok (some (record { code = code; bytes = [] }), it)
read_operation_data code (some n) it =
    if n == 0
    then ok (some (record { code = code; bytes = [] }), it)
    else pushed code (read_push_data it n [])

-- One round of the loop, on the byte at the iterator and those behind it.
unfoldable pub parse_operation : ℕ → List ℕ → Result (Option Operation × List ℕ)
unfolding parse_code number_of_bytes_from_opcode read_operation_data
parse_operation raw_byte it = do
  (read_n_bytes, rest) ← number_of_bytes_from_opcode (parse_code raw_byte) raw_byte it
  read_operation_data (parse_code raw_byte) read_n_bytes rest

unfoldable pub parse_loop : ℕ → List ℕ → Script → Result Script
parse_loop fuel [] s = ok s
parse_loop zero (b ∷ it) s = err out_of_fuel
parse_loop (suc fuel) (b ∷ it) s = do
  (op, rest) ← parse_operation b it
  elim op [ none ↦ ok empty_script | some o ↦ parse_loop fuel rest (push_operation s o) ]

-- Each round takes a byte at least, so as many rounds as there are bytes are enough.
unfoldable pub parse_script : List ℕ → Result Script
parse_script raw_script = parse_loop (length raw_script) raw_script empty_script

unfoldable pub operation_metadata : Opcode → ℕ → List ℕ
operation_metadata Opcode.pushdata1 data_size = uncast_type 1 data_size false
operation_metadata Opcode.pushdata2 data_size = uncast_type 2 data_size false
operation_metadata Opcode.pushdata4 data_size = uncast_type 4 data_size false
operation_metadata _ data_size = []

-- `raw_byte` of the loop of `save_script`.
unfoldable pub saved_byte : Opcode → List ℕ → ℕ
saved_byte code op_data = if code_eq code Opcode.special then length op_data % 256 else byte_of code

unfoldable pub save_loop : List Operation → List ℕ → List ℕ
save_loop [] raw_script = raw_script
save_loop (op ∷ ops) raw_script = save_loop ops (
    ((raw_script ++ saved_byte op.code op.bytes ∷ [])
      ++ operation_metadata op.code (length op.bytes))
    ++ op.bytes)

unfoldable pub save_operations : List Operation → List ℕ
save_operations [] = []
save_operations (op ∷ ops) =
    if code_eq op.code Opcode.raw_data then op.bytes else save_loop (op ∷ ops) []

unfoldable pub save_script : Script → List ℕ
unfolding save_operations
save_script scr = save_operations scr.operations

metadata_size : Opcode → ℕ
metadata_size Opcode.pushdata1 = 1
metadata_size Opcode.pushdata2 = 2
metadata_size Opcode.pushdata4 = 4
metadata_size _ = 0

size_loop : List Operation → ℕ → ℕ
unfolding metadata_size
size_loop [] total_size = total_size
size_loop (op ∷ ops) total_size =
    size_loop ops (total_size + 1 + metadata_size op.code + length op.bytes)

operations_size : List Operation → ℕ
unfolding size_loop
operations_size [] = 0
operations_size (op ∷ ops) =
    if code_eq op.code Opcode.raw_data then length op.bytes else size_loop (op ∷ ops) 0

unfoldable pub script_size : Script → ℕ
unfolding operations_size
script_size scr = operations_size scr.operations

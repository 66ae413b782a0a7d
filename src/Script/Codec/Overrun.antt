-- ===== src/Script/Codec/Overrun.antt =====
-- A script that stops inside the length field of a push makes `parse_script` read past its end.
use libbitcoin.Prelude.{
  ℕ, zero, suc, ◌+◌, ◌≤◌, ◌<◌, ◌≡◌, refl, List, [], ◌∷◌, ◌++◌, length, length-append, All, arith,
  err, out_of_bounds,
}
use libbitcoin.Script.{Operation, Script, empty_script, push_operation}
use libbitcoin.Script.Opcode.{from_value}
use libbitcoin.Script.Codec.{
  read_back_from_iterator, read_count, number_of_bytes_from_opcode, parse_code, parse_operation,
  parse_loop, parse_script, operation_metadata,
}
use libbitcoin.Script.Codec.Save.{operation_bytes}
use libbitcoin.Script.Codec.Parse.{IsCanonical, parse_operation-saved}

-- The bytes of some operations, with what follows.
abbrev pub bytes_before : List Operation → List ℕ → List ℕ
bytes_before [] tail = tail
bytes_before (op ∷ ops) tail = operation_bytes op (bytes_before ops tail)

-- pushdata1, pushdata2 or pushdata4, and fewer bytes than its length field has.
pub data CutPush : ℕ → List ℕ → Type 0 where
  cut1 : {b : ℕ} {tail : List ℕ} → b ≡ 76 → length tail < 1 → CutPush b tail
  cut2 : {b : ℕ} {tail : List ℕ} → b ≡ 77 → length tail < 2 → CutPush b tail
  cut4 : {b : ℕ} {tail : List ℕ} → b ≡ 78 → length tail < 4 → CutPush b tail

read_back_short :
    (it : List ℕ) (w : ℕ) → length it < w → read_back_from_iterator it w ≡ err out_of_bounds
unfolding read_back_from_iterator
read_back_short it zero h = absurd (omega arith)
read_back_short [] (suc w) h = refl
read_back_short (b ∷ it) (suc w) h = rw (read_back_short it w (omega arith))

parse_operation_cut :
    (b : ℕ) (tail : List ℕ) → CutPush b tail → parse_operation b tail ≡ err out_of_bounds
unfolding parse_operation parse_code from_value number_of_bytes_from_opcode read_count
parse_operation_cut b tail (cut1 e h) = rw e (rw (read_back_short tail 1 h))
parse_operation_cut b tail (cut2 e h) = rw e (rw (read_back_short tail 2 h))
parse_operation_cut b tail (cut4 e h) = rw e (rw (read_back_short tail 4 h))

length-bytes_before :
    (ops : List Operation) (tail : List ℕ)
    → length ops + length tail ≤ length (bytes_before ops tail)
unfolding operation_bytes
length-bytes_before [] tail = omega arith
length-bytes_before (op ∷ ops) tail =
    let rest = bytes_before ops tail in
    let meta = operation_metadata op.code (length op.bytes) in
    omega (
      arith,
      length-bytes_before ops tail,
      length-append meta (op.bytes ++ rest),
      length-append op.bytes rest,
    )

parse_loop_cut :
    (ops : List Operation) (b : ℕ) (tail : List ℕ) (fuel : ℕ) (t : Script)
    → All IsCanonical ops
    → CutPush b tail
    → length ops < fuel
    → parse_loop fuel (bytes_before ops (b ∷ tail)) t ≡ err out_of_bounds
unfolding parse_loop operation_bytes
parse_loop_cut ops b tail zero t h cut hf = absurd (omega arith)
parse_loop_cut [] b tail (suc fuel) t h cut hf = rw (parse_operation_cut b tail cut)
parse_loop_cut (op ∷ ops) b tail (suc fuel) t h cut hf =
    rw (parse_operation-saved op.code op.bytes (bytes_before ops (b ∷ tail)) h.0)
      (parse_loop_cut ops b tail fuel (push_operation t op) h.1 cut (omega arith))

-- Whatever canonical operations stand before it, an end inside the length field of a pushdata opcode is
-- read out of bounds.
pub parse_script_overrun :
    (ops : List Operation) (b : ℕ) (tail : List ℕ)
    → All IsCanonical ops
    → CutPush b tail
    → parse_script (bytes_before ops (b ∷ tail)) ≡ err out_of_bounds
unfolding parse_script
parse_script_overrun ops b tail h cut =
    parse_loop_cut ops b tail _ empty_script h cut
      (omega (arith, length-bytes_before ops (b ∷ tail)))

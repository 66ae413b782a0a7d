-- ===== src/Script/Codec/Back.antt =====
-- The bytes that one round of `parse_script` takes are those that `save_script` writes of the
-- operation that it makes of them.
use libbitcoin.Prelude.{
  ℕ, zero, suc, ◌+◌, ◌≤◌, ◌<◌, ◌%◌, ◌≡◌, refl, sym, ◌∙◌, ap, subst, List, [], ◌∷◌, ◌++◌,
  append_assoc, length, length-append, All, All-append, arith, Option, none, some, ok, ◌>>=◌,
  >>=-eq-ok, Bool, true, false, ◌||◌, ltb, leb,
}
use native.Mathlib.Decide.{dec_le, ℕ_discrete}
use libbitcoin.Format.{uncast_type, cast_chunk, IsByte, uncast_type-cast_chunk}
use libbitcoin.Script.{Operation}
use libbitcoin.Script.Opcode.{Opcode, from_value, byte_of}
use libbitcoin.Script.Opcode.Casts.{holds_of_bytes, holds_of_bytes_sound, byte_of-from_value}
use libbitcoin.Script.Codec.{
  code_eq, read_back_from_iterator, read_count, number_of_bytes_from_opcode, read_push_data, pushed,
  parse_code, read_operation_data, parse_operation, operation_metadata, saved_byte,
}
use native.Mathlib.Nat.{mod-eq_of_lt}
use libbitcoin.Script.Codec.Parse.{parse_code-special}
use libbitcoin.Script.Codec.Save.{operation_bytes}

read_push_data-some :
    (it : List ℕ) (n : ℕ) (acc d rest : List ℕ)
    → read_push_data it n acc ≡ some (d, rest)
    → (acc ++ it ≡ d ++ rest) × (length d ≡ length acc + n)
unfolding read_push_data
read_push_data-some it zero acc d rest e = ground arith
read_push_data-some [] (suc n) acc d rest e = cc
read_push_data-some (b ∷ it) (suc n) acc d rest e =
    let ih = read_push_data-some it n (acc ++ b ∷ []) d rest e in
    ground (arith, ih, append_assoc acc (b ∷ []) it, length-append acc (b ∷ []))

pushed-some :
    (code : Opcode) (r : Option (List ℕ × List ℕ)) (op : Operation) (rest : List ℕ)
    → pushed code r ≡ ok (some op, rest)
    → (op.code ≡ code) × (r ≡ some (op.bytes, rest))
unfolding pushed
pushed-some code none op rest e = cc
pushed-some code (some (d, r)) op rest e = ground arith

-- What a push reads is its data, as long as its count says.
read_operation_data-some :
    (code : Opcode) (n : ℕ) (it : List ℕ) (op : Operation) (rest : List ℕ)
    → read_operation_data code (some n) it ≡ ok (some op, rest)
    → (op.code ≡ code) × (it ≡ op.bytes ++ rest) × (length op.bytes ≡ n)
unfolding read_operation_data
read_operation_data-some code zero it op rest e = ground arith
read_operation_data-some code (suc n) it op rest e =
    let (c, p) = pushed-some code (read_push_data it (suc n) []) op rest (ground arith) in
    let (i, l) = read_push_data-some it (suc n) [] op.bytes rest p in (c, i, omega arith)

-- An opcode that pushes nothing from the script.
plain : Opcode → Bool
plain Opcode.zero = false
plain Opcode.special = false
plain Opcode.pushdata1 = false
plain Opcode.pushdata2 = false
plain Opcode.pushdata4 = false
plain (Opcode.other n) = ltb 187 n
plain _ = true

plain_table : holds_of_bytes (λ b. leb b 78 || plain (from_value b)) 256 ≡ true
unfolding plain holds_of_bytes from_value
plain_table = refl

plain-from_value : (b : ℕ) → 78 < b → b < 256 → plain (from_value b) ≡ true
plain-from_value b lo hi =
    ground
      (arith, holds_of_bytes_sound (λ b. leb b 78 || plain (from_value b)) 256 b hi plain_table)

number_of_bytes-plain :
    (c : Opcode) (b : ℕ) (it : List ℕ)
    → plain c ≡ true
    → number_of_bytes_from_opcode c b it ≡ ok (none, it)
unfolding plain number_of_bytes_from_opcode
number_of_bytes-plain Opcode.zero b it h = cc
number_of_bytes-plain _ b it h = first_of (cc, ground arith)

operation_bytes-plain :
    (c : Opcode) (rest : List ℕ)
    → plain c ≡ true
    → operation_bytes (record { code = c; bytes = [] }) rest ≡ byte_of c ∷ rest
unfolding plain operation_bytes operation_metadata saved_byte code_eq
operation_bytes-plain Opcode.zero rest h = cc
operation_bytes-plain (Opcode.other n) rest h = ground arith
operation_bytes-plain _ rest h = first_of (cc, ground arith)

read_back-some :
    (it : List ℕ) (w : ℕ) (field rest : List ℕ)
    → read_back_from_iterator it w ≡ ok (field, rest)
    → (it ≡ field ++ rest) × (length field ≡ w)
unfolding read_back_from_iterator
read_back-some it zero field rest e = ground arith
read_back-some [] (suc w) field rest e = cc
read_back-some (b ∷ it) (suc w) field rest e =
    let ((f, r), p, q) = >>=-eq-ok (read_back_from_iterator it w) (λ x. ok (b ∷ x.0, x.1)) e in
    ground (arith, read_back-some it w f r p)

-- The length field of a push, byte for byte.
read_count-some :
    (w : ℕ) (it : List ℕ) (n : Option ℕ) (rest : List ℕ)
    → All IsByte it
    → read_count w it ≡ ok (n, rest)
    → (v : ℕ) × (n ≡ some v) × (it ≡ uncast_type w v false ++ rest)
unfolding read_count
read_count-some w it n rest bytes e =
    let ((field, r), p, q) =
      >>=-eq-ok (read_back_from_iterator it w) (λ x. ok (some (cast_chunk w x.0 false), x.1)) e in
    let (i, l) = read_back-some it w field r p in
    let kept : All IsByte field = (All-append IsByte field r (subst (All IsByte) i bytes)).0 in
    let back : uncast_type w (cast_chunk w field false) false ≡ field =
      subst (λ k. uncast_type k (cast_chunk k field false) false ≡ field) l
        (uncast_type-cast_chunk field kept) in
    (cast_chunk w field false, ground arith, ground arith)

-- The bytes of one operation, from its opcode on.
push_bytes :
    (w b : ℕ) (code : Opcode) (it : List ℕ) (op : Operation) (rest : List ℕ)
    → ((n : ℕ) → operation_metadata code n ≡ uncast_type w n false)
    → ((d : List ℕ) → saved_byte code d ≡ b)
    → All IsByte it
    → (read_count w it >>= λ x. read_operation_data code x.0 x.1) ≡ ok (some op, rest)
    → b ∷ it ≡ operation_bytes op rest
unfolding operation_bytes
push_bytes w b code it op rest meta saved bytes e =
    let ((n, r), p, q) = >>=-eq-ok (read_count w it) (λ x. read_operation_data code x.0 x.1) e in
    let (v, nv, i) = read_count-some w it n r bytes p in
    let (c, j, l) =
      read_operation_data-some code v r op rest
        (subst (λ k. read_operation_data code k r ≡ ok (some op, rest)) nv q) in
    rw (i, j, c, saved op.bytes, l, meta v)

parse_operation-special :
    (b : ℕ) (it : List ℕ)
    → 0 < b
    → b ≤ 75
    → parse_operation b it ≡ read_operation_data Opcode.special (some b) it
unfolding parse_operation number_of_bytes_from_opcode
parse_operation-special b it lo hi = rw (parse_code-special b lo hi)

parse_code-from_value : (b : ℕ) → 78 < b → parse_code b ≡ from_value b
unfolding parse_code
parse_code-from_value b lo = ground arith

parse_operation-plain :
    (b : ℕ) (it : List ℕ)
    → 78 < b
    → b < 256
    → parse_operation b it ≡ ok (some (record { code = from_value b; bytes = [] }), it)
unfolding parse_operation read_operation_data
parse_operation-plain b it lo hi = rw (
  parse_code-from_value b lo,
  number_of_bytes-plain (from_value b) b it (plain-from_value b lo hi),
)

-- The byte at the iterator and those behind it are those of the operation that is parsed.
abbrev pub ParsesBack : ℕ → Type 0
ParsesBack b =
    (it : List ℕ) (op : Operation) (rest : List ℕ)
    → All IsByte it
    → parse_operation b it ≡ ok (some op, rest)
    → b ∷ it ≡ operation_bytes op rest

zero_back : ParsesBack 0
unfolding parse_operation parse_code number_of_bytes_from_opcode read_operation_data operation_bytes
    operation_metadata saved_byte code_eq byte_of
zero_back it op rest bytes e =
    let o : record { code = Opcode.zero; bytes = [] } ≡ op = cc in
    let r : it ≡ rest = cc in subst (λ o. 0 ∷ it ≡ operation_bytes o rest) o (ap (◌∷◌ 0) r)

special_bytes :
    (d rest : List ℕ)
    → length d ≤ 75
    → length d ∷ (d ++ rest) ≡ operation_bytes (record { code = Opcode.special; bytes = d }) rest
unfolding operation_bytes operation_metadata saved_byte code_eq
special_bytes d rest h = omega_head
  where
    omega_head : length d ∷ (d ++ rest) ≡ length d % 256 ∷ (d ++ rest)
    omega_head = rw (mod-eq_of_lt {n = length d} {m = 256} (omega arith))

special_back : (b : ℕ) → 0 < b → b ≤ 75 → ParsesBack b
special_back b lo hi it op rest bytes e =
    let (c, j, l) =
      read_operation_data-some Opcode.special b it op rest
        (sym (parse_operation-special b it lo hi) ∙ e) in
    subst (λ o. b ∷ it ≡ operation_bytes o rest) (ap (λ c. record op { code = c }) (sym c))
      (rw (j, ← l) (special_bytes op.bytes rest (omega arith)))

pushdata1_back : ParsesBack 76
unfolding parse_operation parse_code from_value number_of_bytes_from_opcode uncast_type
    operation_metadata saved_byte code_eq byte_of
pushdata1_back it op rest bytes e =
    push_bytes 1 76 Opcode.pushdata1 it op rest (λ n. refl) (λ d. refl) bytes e

pushdata2_back : ParsesBack 77
unfolding parse_operation parse_code from_value number_of_bytes_from_opcode uncast_type
    operation_metadata saved_byte code_eq byte_of
pushdata2_back it op rest bytes e =
    push_bytes 2 77 Opcode.pushdata2 it op rest (λ n. refl) (λ d. refl) bytes e

pushdata4_back : ParsesBack 78
unfolding parse_operation parse_code from_value number_of_bytes_from_opcode uncast_type
    operation_metadata saved_byte code_eq byte_of
pushdata4_back it op rest bytes e =
    push_bytes 4 78 Opcode.pushdata4 it op rest (λ n. refl) (λ d. refl) bytes e

plain_back : (b : ℕ) → 78 < b → b < 256 → ParsesBack b
plain_back b lo hi it op rest bytes e =
    let e' = sym (parse_operation-plain b it lo hi) ∙ e in
    let o : record { code = from_value b; bytes = [] } ≡ op = cc in
    let r : it ≡ rest = cc in
    subst (λ o. b ∷ it ≡ operation_bytes o rest) o
      (rw
        (
          operation_bytes-plain (from_value b) rest (plain-from_value b lo hi),
          byte_of-from_value b hi,
        )
        (ap (◌∷◌ b) r))

pub parses_back : (b : ℕ) → b < 256 → ParsesBack b
parses_back zero h = zero_back
parses_back (suc b) h = elim (dec_le (suc b) 75) [
  | yes hi ↦ special_back (suc b) (omega arith) hi
  | no h75 ↦ elim (dec_le (suc b) 78) [
    | yes hi ↦ pushes_back (suc b) (omega arith) hi
    | no h78 ↦ plain_back (suc b) (omega arith) h
  ]
]
  where
    pushes_back : (n : ℕ) → 75 < n → n ≤ 78 → ParsesBack n
    pushes_back n lo hi = elim (ℕ_discrete n 76) [
      | yes e ↦ subst ParsesBack (sym e) pushdata1_back
      | no n76 ↦ elim (ℕ_discrete n 77) [
        | yes e ↦ subst ParsesBack (sym e) pushdata2_back
        | no n77 ↦ subst ParsesBack (omega arith) pushdata4_back
      ]
    ]

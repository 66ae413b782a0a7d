-- ===== src/Serializer/RoundTrip.antt =====
-- What a serializer wrote, a deserializer reads back, and it stops where the writing stopped.
use mathlib.Core.List.{reverse-reverse}
use libbitcoin.Prelude.{
  ℕ, zero, suc, ◌-◌, ◌^◌, ◌≤◌, ◌<◌, ◌≡◌, refl, ◌∙◌, Bool, true, false, List, [], ◌∷◌, ◌++◌,
  append_assoc, append-nil, reverse, length, length-append, length-reverse, le→leb, take-append,
  drop-append, All, replicate, length-replicate, subst, if◌then◌else◌, ok, arith, ◌≢◌,
}
use libbitcoin.Format.{uncast_type, cast_chunk-uncast_type, length-uncast_type}
use libbitcoin.Messages.{NetworkAddress}
use libbitcoin.Serializer.Lengths.{
  write_variable_uint-append, variable_uint_bytes, network_address_bytes,
}
use libbitcoin.Serializer.{
  write_byte, write_2_bytes, write_4_bytes, write_8_bytes, write_variable_uint,
  write_network_address, write_short_hash, write_fixed_string, write_string, check_distance,
  read_data_impl, read_byte, read_2_bytes, read_4_bytes, read_8_bytes, read_variable_uint,
  read_bytes, read_data_loop, read_data, read_network_address, read_hash, read_short_hash, c_str,
  read_fixed_string, read_string,
}

-- A length that is there passes `check_distance`.
check_distance-append :
    {n : ℕ} (xs rest : List ℕ) → length xs ≡ n → check_distance (xs ++ rest) n ≡ ok tt
unfolding check_distance
check_distance-append xs rest h = ground (arith, length-append xs rest)

pub read_data_impl-uncast_type :
    (w v : ℕ) (r : Bool) (rest : List ℕ)
    → v < 256 ^ w
    → read_data_impl w r (uncast_type w v r ++ rest) ≡ ok (v, rest)
unfolding read_data_impl
read_data_impl-uncast_type w v r rest h =
    let n = length-uncast_type w v r in
    rw (
      check_distance-append _ rest n,
      take-append w _ rest n,
      drop-append w _ rest n,
      cast_chunk-uncast_type w v r h,
    )

pub read_4_bytes-uncast_type :
    (v : ℕ) (rest : List ℕ)
    → v < 2 ^ 32
    → read_4_bytes (uncast_type 4 v false ++ rest) ≡ ok (v, rest)
unfolding read_4_bytes
read_4_bytes-uncast_type v rest h = read_data_impl-uncast_type 4 v false rest (omega arith)

pub read_8_bytes-uncast_type :
    (v : ℕ) (rest : List ℕ)
    → v < 2 ^ 64
    → read_8_bytes (uncast_type 8 v false ++ rest) ≡ ok (v, rest)
unfolding read_8_bytes
read_8_bytes-uncast_type v rest h = read_data_impl-uncast_type 8 v false rest (omega arith)

-- A length below 2^64 is read back from the form it is written in, whatever bytes follow.
pub read_variable_uint-bytes :
    (v : ℕ) (rest : List ℕ)
    → v < 2 ^ 64
    → read_variable_uint (variable_uint_bytes v ++ rest) ≡ ok (v, rest)
unfolding read_variable_uint variable_uint_bytes write_variable_uint write_byte read_byte
    read_2_bytes read_4_bytes read_8_bytes write_2_bytes write_4_bytes write_8_bytes
read_variable_uint-bytes v rest h = ground (
  arith,
  read_data_impl-uncast_type 2 v false rest,
  read_data_impl-uncast_type 4 v false rest,
  read_data_impl-uncast_type 8 v false rest,
)

pub read_bytes-append :
    (n : ℕ) (r : Bool) (xs rest : List ℕ)
    → length xs ≡ n
    → read_bytes n r (xs ++ rest) ≡ ok ((if r then reverse xs else xs), rest)
unfolding read_bytes
read_bytes-append n r xs rest h =
    rw (check_distance-append xs rest h, take-append n xs rest h, drop-append n xs rest h)

pub read_hash-reverse :
    (hash rest : List ℕ) → length hash ≡ 32 → read_hash (reverse hash ++ rest) ≡ ok (hash, rest)
unfolding read_hash
read_hash-reverse hash rest h =
    rw (
      read_bytes-append 32 true (reverse hash) rest (length-reverse hash ∙ h),
      reverse-reverse hash,
    )

pub read_short_hash-write_short_hash :
    (hash rest : List ℕ)
    → length hash ≡ 20
    → read_short_hash (write_short_hash hash [] ++ rest) ≡ ok (hash, rest)
unfolding read_short_hash write_short_hash
read_short_hash-write_short_hash hash rest h =
    rw (
      read_bytes-append 20 true (reverse hash) rest (length-reverse hash ∙ h),
      reverse-reverse hash,
    )

read_data_loop-append :
    (xs acc rest : List ℕ) → read_data_loop (length xs) acc (xs ++ rest) ≡ ok (acc ++ xs, rest)
unfolding read_data_loop read_byte
read_data_loop-append [] acc rest = rw append-nil
read_data_loop-append (x ∷ xs) acc rest =
    read_data_loop-append xs (acc ++ x ∷ []) rest ∙ rw (append_assoc acc (x ∷ []) xs)

pub read_data-append : (xs rest : List ℕ) → read_data (length xs) (xs ++ rest) ≡ ok (xs, rest)
unfolding read_data
read_data-append xs rest =
    rw (check_distance-append xs rest refl) (read_data_loop-append xs [] rest)

abbrev pub IsNonzero : ℕ → Type 0
IsNonzero b = b ≢ 0

-- The bytes of a fixed field.
abbrev pub field : List ℕ → ℕ → List ℕ
field command n = command ++ replicate (n - length command) 0

c_str-append : (xs : List ℕ) (k : ℕ) → All IsNonzero xs → c_str (xs ++ replicate k 0) ≡ xs
unfolding c_str
c_str-append [] zero h = refl
c_str-append [] (suc k) h = refl
c_str-append (x ∷ xs) k h = ground (arith, c_str-append xs k h.1)

pub length-field : (command : List ℕ) (n : ℕ) → length command ≤ n → length (field command n) ≡ n
length-field command n h =
    rw (length-append command, length-replicate {A = ℕ} (n - length command) 0) (omega arith)

pub read_fixed_string-field :
    (command : List ℕ) (n : ℕ) (rest : List ℕ)
    → All IsNonzero command
    → length command ≤ n
    → read_fixed_string n (field command n ++ rest) ≡ ok (command, rest)
unfolding read_fixed_string
read_fixed_string-field command n rest h le = rw (
  subst (λ k. read_data k (field command n ++ rest) ≡ ok (field command n, rest))
      (length-field command n le) (read_data-append (field command n) rest),
  c_str-append command (n - length command) h,
)

-- A command that fits is written as its field.
pub write_fixed_string-field :
    (command : List ℕ) (n : ℕ) (s : List ℕ)
    → length command ≤ n
    → write_fixed_string command n s ≡ ok (s ++ field command n)
unfolding write_fixed_string
write_fixed_string-field command n s h = rw (le→leb (length command) n h)

field-length : (str : List ℕ) → field str (length str) ≡ str
field-length str =
    let none_left : length str - length str ≡ 0 = omega arith in rw none_left (append-nil str)

-- A string is its length and its bytes.
pub write_string-bytes :
    (str s : List ℕ) → write_string str s ≡ ok (s ++ (variable_uint_bytes (length str) ++ str))
unfolding write_string
write_string-bytes str s =
    write_fixed_string-field str (length str) (write_variable_uint (length str) s) (omega arith)
    ∙ rw (field-length str, write_variable_uint-append, append_assoc)

pub read_string-bytes :
    (str rest : List ℕ)
    → All IsNonzero str
    → length str < 2 ^ 64
    → read_string (variable_uint_bytes (length str) ++ (str ++ rest)) ≡ ok (str, rest)
unfolding read_string
read_string-bytes str rest h fits = rw (read_variable_uint-bytes (length str) (str ++ rest) fits) (
    subst (λ d. read_fixed_string (length str) (d ++ rest) ≡ ok (str, rest)) (field-length str)
      (read_fixed_string-field str (length str) rest h (omega arith)))

-- A command without a zero byte, where it is written to a field of n bytes, is read back from that
-- field, whatever bytes follow.
read_fixed_string-write_fixed_string :
    (command : List ℕ) (n : ℕ) (rest out : List ℕ)
    → All IsNonzero command
    → write_fixed_string command n [] ≡ ok out
    → read_fixed_string n (out ++ rest) ≡ ok (command, rest)
unfolding write_fixed_string
read_fixed_string-write_fixed_string command n rest out h e =
    let fits : length command ≤ n = ground arith in
    let same : field command n ≡ out = ground arith in
    subst (λ o. read_fixed_string n (o ++ rest) ≡ ok (command, rest)) same
      (read_fixed_string-field command n rest h fits)

-- An address with services of 64 bits, 16 bytes of ip and a port of 16 bits is read back from what
-- the serializer writes of it, but with the timestamp that the reader is given.
pub read_network_address-bytes :
    (a : NetworkAddress) (u : ℕ) (rest : List ℕ)
    → a.services < 2 ^ 64
    → length a.ip ≡ 16
    → a.port < 2 ^ 16
    → read_network_address u (network_address_bytes a ++ rest)
      ≡ ok (record a { timestamp = u }, rest)
unfolding read_network_address network_address_bytes write_network_address write_8_bytes
    read_8_bytes
read_network_address-bytes a u rest hs hi hp =
    let port = uncast_type 2 a.port true in
    simp append_assoc (
      rw (
        read_data_impl-uncast_type 8 a.services false (a.ip ++ (port ++ rest)) (omega arith),
        read_bytes-append 16 false a.ip (port ++ rest) hi,
        read_data_impl-uncast_type 2 a.port true rest (omega arith),
      ))

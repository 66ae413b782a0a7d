-- ===== src/BigNumber.antt =====
-- src/utility/big_number.cpp over OpenSSL's BIGNUM.
use Prim.Native.Nat.{Ordering}
use libbitcoin.Prelude.{
  ℕ, zero, suc, ◌+◌, ◌-◌, ◌*◌, ◌/◌, ◌%◌, ◌^◌, Bool, true, false, not, ◌&&◌, List, [], ◌∷◌, ◌++◌,
  reverse, length, drop, replicate, leb, ◌==◌, if◌then◌else◌, get_elem?, none, some,
}
use libbitcoin.Openssl.{Openssl}

-- An int64_t; `negsuc n` is -(n + 1).
pub data ℤ : Type 0 where
  pos : ℕ → ℤ
  negsuc : ℕ → ℤ

-- The four bytes of a size, highest first, as the MPI format has them.
unfoldable pub mpi_size : ℕ → List ℕ
mpi_size size = size / 2 ^ 24 % 256 ∷ size / 2 ^ 16 % 256 ∷ size / 2 ^ 8 % 256 ∷ size % 256 ∷ []

-- What one byte of `set_uint64_impl` adds: nothing for a leading zero, and a byte for the sign
-- where the first byte has its top bit set. `c |= 0x80` adds 128 to a byte below 128.
emitted : Bool → Bool → ℕ → List ℕ
emitted false is_negative c = c ∷ []
emitted true is_negative c =
    if c == 0
    then []
    else if leb 128 c
    then (if is_negative then 0x80 else 0) ∷ c ∷ []
    else (if is_negative then c + 128 else c) ∷ []

unfoldable pub uint64_bytes : ℕ → Bool → Bool → ℕ → List ℕ → List ℕ
unfolding emitted
uint64_bytes zero leading_zeros is_negative value out = out
uint64_bytes (suc k) leading_zeros is_negative value out =
    let c = value / 2 ^ 56 % 256 in
    uint64_bytes k (leading_zeros && c == 0) is_negative (value * 256 % 2 ^ 64)
      (out ++ emitted leading_zeros is_negative c)

module _ (o : Openssl) where
  unfoldable pub set_data : List ℕ → o.Bignum
  unfolding mpi_size
  set_data load_data = o.bn_mpi2bn (mpi_size (length load_data) ++ reverse load_data)

  unfoldable pub data_of : o.Bignum → List ℕ
  data_of n = let mpi = o.bn_bn2mpi n in if leb (length mpi) 4 then [] else reverse (drop 4 mpi)

  unfoldable pub set_hash : List ℕ → o.Bignum
  unfolding set_data
  set_hash load_hash = set_data (reverse load_hash)

  unfoldable pub set_uint32 : ℕ → o.Bignum
  set_uint32 value = o.bn_set_word (value % 2 ^ 32)

  unfoldable pub uint32 : o.Bignum → ℕ
  uint32 n = o.bn_get_word n % 2 ^ 32

  unfoldable pub set_uint64_impl : ℕ → Bool → o.Bignum
  unfolding uint64_bytes mpi_size
  set_uint64_impl value is_negative =
      let bytes = uint64_bytes 8 true is_negative value [] in
      o.bn_mpi2bn (mpi_size (length bytes) ++ bytes)

  unfoldable pub set_int64 : ℤ → o.Bignum
  unfolding set_uint64_impl
  set_int64 (pos n) = set_uint64_impl n false
  set_int64 (negsuc n) = set_uint64_impl (n + 1) true

  unfoldable pub big_eq : o.Bignum → o.Bignum → Bool
  big_eq a b = elim (o.bn_cmp a b) [ Ordering.eq ↦ true | _ ↦ false ]

  unfoldable pub big_le : o.Bignum → o.Bignum → Bool
  big_le a b = elim (o.bn_cmp a b) [ Ordering.gt ↦ false | _ ↦ true ]

  unfoldable pub big_lt : o.Bignum → o.Bignum → Bool
  big_lt a b = elim (o.bn_cmp a b) [ Ordering.lt ↦ true | _ ↦ false ]

  -- The unary minus.
  unfoldable pub negated : o.Bignum → o.Bignum
  negated n = o.bn_set_negative n (not (o.bn_is_negative n))

  -- The first bytes of the number, as far as the size goes.
  compact_bytes : ℕ → ℕ → List ℕ
  compact_bytes size compact =
      (if leb 1 size then compact / 2 ^ 16 % 256 ∷ [] else [])
      ++ ((if leb 2 size then compact / 2 ^ 8 % 256 ∷ [] else [])
          ++ (if leb 3 size then compact % 256 ∷ [] else []))

  -- `number_repr` is four bytes of size, of which the last is set, and `size` bytes.
  unfoldable pub set_compact : ℕ → o.Bignum
  unfolding compact_bytes
  set_compact compact =
      let size = compact / 2 ^ 24 in
      let bytes = compact_bytes size compact in
      o.bn_mpi2bn ((0 ∷ 0 ∷ 0 ∷ size % 256 ∷ []) ++ (bytes ++ replicate (size - length bytes) 0))

  byte_at : List ℕ → ℕ → ℕ
  byte_at bytes i = elim (get_elem? bytes i) [ none ↦ 0 | some b ↦ b ]

  -- The fields do not overlap, so `|=` adds.
  unfoldable pub compact_of : o.Bignum → ℕ
  unfolding byte_at
  compact_of n =
      let number_repr = o.bn_bn2mpi n in
      let size = length number_repr - 4 in
      size * 2 ^ 24 % 2 ^ 32
      + (if leb 1 size then byte_at number_repr 4 * 2 ^ 16 else 0)
      + (if leb 2 size then byte_at number_repr 5 * 2 ^ 8 else 0)
      + (if leb 3 size then byte_at number_repr 6 else 0)

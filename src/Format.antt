-- ===== src/Format.antt =====
-- include/bitcoin/format.hpp: the bytes of an integer, on a little-endian machine. `w` is sizeof(T).
use libbitcoin.Prelude.{
  ℕ, zero, suc, ◌+◌, ◌*◌, ◌/◌, ◌%◌, ◌^◌, ◌<◌, ◌≡◌, refl, ap, ◌∙◌, Bool, true, false, List, [], ◌∷◌,
  reverse, length, All, subst, length-reverse, arith, if◌then◌else◌,
}
use mathlib.Core.List.{reverse-reverse}
use native.Mathlib.Nat.{div-add-mod, pow-suc, mod-eq_of_lt}
use native.Mathlib.Numerals.{towards_suc}

-- The bytes that `reinterpret_cast` shows, lowest first.
unfoldable pub value_bytes : ℕ → ℕ → List ℕ
value_bytes zero v = []
value_bytes (suc w) v = v % 256 ∷ value_bytes w (v / 256)

unfoldable pub uncast_type : ℕ → ℕ → Bool → List ℕ
uncast_type w v reversed = if reversed then reverse (value_bytes w v) else value_bytes w v

-- The loop of `cast_chunk`, with the rounds left and the index.
cast_loop : ℕ → ℕ → ℕ → ℕ → List ℕ → ℕ
cast_loop w zero i value chunk = value
cast_loop w (suc k) i value [] = value
cast_loop w (suc k) i value (b ∷ bs) =
    cast_loop w k (suc i) ((value + b * 2 ^ (i * 8)) % 2 ^ (w * 8)) bs

unfoldable pub cast_chunk : ℕ → List ℕ → Bool → ℕ
unfolding cast_loop
cast_chunk w chunk reversed = cast_loop w w 0 0 (if reversed then reverse chunk else chunk)

pub length-value_bytes : (w v : ℕ) → length (value_bytes w v) ≡ w
unfolding value_bytes
length-value_bytes zero v = refl
length-value_bytes (suc w) v = omega (arith, length-value_bytes w (v / 256))

pub length-uncast_type : (w v : ℕ) (r : Bool) → length (uncast_type w v r) ≡ w
unfolding uncast_type
length-uncast_type w v true = length-reverse (value_bytes w v) ∙ length-value_bytes w v
length-uncast_type w v false = length-value_bytes w v

add-eight : (i : ℕ) → i * 8 + 8 ≡ suc i * 8
add-eight i = omega arith

shift_byte : (i : ℕ) → 2 ^ (suc i * 8) ≡ 256 * 2 ^ (i * 8)
shift_byte i = rw (← add-eight i) (simp towards_suc (omega arith))

split_byte : (v i : ℕ) → v * 2 ^ (i * 8) ≡ v % 256 * 2 ^ (i * 8) + v / 256 * 2 ^ (suc i * 8)
split_byte v i = omega (
  arith,
  ap (λ (t : ℕ). t * 2 ^ (i * 8)) (div-add-mod v 256),
  ap (λ (t : ℕ). v / 256 * t) (shift_byte i),
)

pow_bytes : (w : ℕ) → 256 ^ w ≡ 2 ^ (w * 8)
pow_bytes zero = refl
pow_bytes (suc w) = omega (arith, pow-suc 256 w, shift_byte w, pow_bytes w)

cast_loop-value_bytes :
    (w k i value v : ℕ)
    → v < 256 ^ k
    → value + v * 2 ^ (i * 8) < 2 ^ (w * 8)
    → cast_loop w k i value (value_bytes k v) ≡ value + v * 2 ^ (i * 8)
unfolding cast_loop value_bytes
cast_loop-value_bytes w zero i value v hv fits = ground (arith)
cast_loop-value_bytes w (suc k) i value v hv fits =
    let low : value + v % 256 * 2 ^ (i * 8) < 2 ^ (w * 8) = omega (arith, split_byte v i) in
    rw (mod-eq_of_lt low) (
      cast_loop-value_bytes w k (suc i) (value + v % 256 * 2 ^ (i * 8)) (v / 256)
        (omega (arith, pow-suc 256 k)) (omega (arith, split_byte v i))
      ∙ omega (arith, split_byte v i))

bare : (w v : ℕ) → v < 256 ^ w → cast_loop w w 0 0 (value_bytes w v) ≡ v
bare w v h = cast_loop-value_bytes w w 0 0 v h (omega (arith, pow_bytes w)) ∙ omega arith

-- An integer that fits in `w` bytes is read back from its bytes, in either order.
pub cast_chunk-uncast_type :
    (w v : ℕ) (r : Bool) → v < 256 ^ w → cast_chunk w (uncast_type w v r) r ≡ v
unfolding cast_chunk uncast_type
cast_chunk-uncast_type w v true h = rw (reverse-reverse (value_bytes w v)) (bare w v h)
cast_chunk-uncast_type w v false h = bare w v h

abbrev pub IsByte : ℕ → Type 0
IsByte b = b < 256

bytes_value : List ℕ → ℕ
bytes_value [] = 0
bytes_value (b ∷ bs) = b + 256 * bytes_value bs

bytes_value-lt : (bs : List ℕ) → All IsByte bs → bytes_value bs < 256 ^ length bs
unfolding bytes_value
bytes_value-lt [] h = omega arith
bytes_value-lt (b ∷ bs) h = omega (arith, pow-suc 256 (length bs), bytes_value-lt bs h.1)

value_bytes-bytes_value :
    (bs : List ℕ) → All IsByte bs → value_bytes (length bs) (bytes_value bs) ≡ bs
unfolding value_bytes bytes_value
value_bytes-bytes_value [] h = refl
value_bytes-bytes_value (b ∷ bs) h =
    let low : (b + 256 * bytes_value bs) % 256 ≡ b = omega arith in
    let high : (b + 256 * bytes_value bs) / 256 ≡ bytes_value bs = omega arith in
    rw (low, high, value_bytes-bytes_value bs h.1)

-- Bytes, each below 256, are the bytes of the integer that `cast_chunk` reads of them.
pub uncast_type-cast_chunk :
    (bs : List ℕ)
    → All IsByte bs
    → uncast_type (length bs) (cast_chunk (length bs) bs false) false ≡ bs
unfolding uncast_type
uncast_type-cast_chunk bs h =
    let v = bytes_value bs in
    let n = length bs in
    subst (λ c. value_bytes n (cast_chunk n c false) ≡ c) (value_bytes-bytes_value bs h)
      (ap (value_bytes n) (cast_chunk-uncast_type n v false (bytes_value-lt bs h)))

-- ===== src/Serializer/Lengths.antt =====
-- Every write appends: what it appends does not depend on what was written before.
use libbitcoin.Prelude.{
  ℕ, suc, ◌+◌, ◌-◌, ◌≤◌, ◌≡◌, refl, sym, Bool, true, false, List, [], ◌∷◌, ◌++◌, append_assoc,
  reverse, length, length-append, length-reverse, replicate, length-replicate, subst, ltb, leb,
  if◌then◌else◌, Result, ok, ◌>>=◌, ◌>>◌, arith, Bool-cases, inl, inr, le→leb, zero,
}
use libbitcoin.Format.{uncast_type, length-uncast_type}
use libbitcoin.Messages.{NetworkAddress}
use libbitcoin.Serializer.{
  write_byte, write_2_bytes, write_4_bytes, write_8_bytes, write_variable_uint, write_data,
  write_network_address, write_hash, write_fixed_string,
}

pub write_4_bytes-append : (v : ℕ) (s : List ℕ) → write_4_bytes v s ≡ s ++ uncast_type 4 v false
unfolding write_4_bytes
write_4_bytes-append v s = refl

pub write_8_bytes-append : (v : ℕ) (s : List ℕ) → write_8_bytes v s ≡ s ++ uncast_type 8 v false
unfolding write_8_bytes
write_8_bytes-append v s = refl

pub write_data-append : (d s : List ℕ) → write_data d s ≡ s ++ d
unfolding write_data
write_data-append d s = refl

pub write_hash-append : (h s : List ℕ) → write_hash h s ≡ s ++ reverse h
unfolding write_hash
write_hash-append h s = refl

-- The one, three, five or nine bytes of a length.
unfoldable pub variable_uint_bytes : ℕ → List ℕ
variable_uint_bytes v = write_variable_uint v []

pub write_variable_uint-append :
    (v : ℕ) (s : List ℕ) → write_variable_uint v s ≡ s ++ variable_uint_bytes v
unfolding write_variable_uint write_byte write_2_bytes write_4_bytes write_8_bytes
    variable_uint_bytes
write_variable_uint-append v s = ground (
  arith,
  append_assoc s (0xfd ∷ []) (uncast_type 2 v false),
  append_assoc s (0xfe ∷ []) (uncast_type 4 v false),
  append_assoc s (0xff ∷ []) (uncast_type 8 v false),
)

unfoldable pub network_address_bytes : NetworkAddress → List ℕ
network_address_bytes a = write_network_address a []

pub write_network_address-append :
    (a : NetworkAddress) (s : List ℕ) → write_network_address a s ≡ s ++ network_address_bytes a
unfolding write_network_address write_8_bytes network_address_bytes
write_network_address-append a s = simp append_assoc

pub length-network_address_bytes :
    (a : NetworkAddress) → length a.ip ≡ 16 → length (network_address_bytes a) ≡ 26
unfolding write_network_address write_8_bytes network_address_bytes
length-network_address_bytes a h = rw (
  length-append (uncast_type 8 a.services false ++ a.ip),
  length-append (uncast_type 8 a.services false),
  length-uncast_type 8 a.services false,
  length-uncast_type 2 a.port true,
  h,
)

-- The laws by which a sequence of writes is read as one list.
pub ruleset writes = (
  write_4_bytes-append, write_8_bytes-append, write_data-append, write_hash-append,
  write_variable_uint-append, write_network_address-append, append_assoc,
)

-- A fixed string takes its whole field, and a write that is too long for it fails the assertion.
pub write_fixed_string-ok :
    (command : List ℕ) (n : ℕ) (s : List ℕ)
    → length command ≤ n
    → (out : List ℕ) × (write_fixed_string command n s ≡ ok out) × (length out ≡ length s + n)
unfolding write_fixed_string
write_fixed_string-ok command n s h = (
  s ++ (command ++ replicate (n - length command) 0),
  rw (le→leb _ _ h),
  rw (length-append s, length-append command, length-replicate {A = ℕ} (n - length command) 0)
      (omega arith),
)

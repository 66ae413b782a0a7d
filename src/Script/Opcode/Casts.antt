-- ===== src/Script/Opcode/Casts.antt =====
-- The casts between opcodes and bytes undo one another.
use libbitcoin.Prelude.{
  get_elem?-none, ◌-◌, ℕ, zero, suc, ◌<◌, ◌≡◌, refl, ◌==◌, Bool, true, ◌&&◌, arith,
}
use libbitcoin.Script.Opcode.{Opcode, named, from_value, byte_of}

-- A test holds of the bytes below a bound.
unfoldable pub holds_of_bytes : (ℕ → Bool) → ℕ → Bool
holds_of_bytes test zero = true
holds_of_bytes test (suc bound) = holds_of_bytes test bound && test bound

pub holds_of_bytes_sound :
    (test : ℕ → Bool) (bound : ℕ) (byte : ℕ)
    → byte < bound
    → holds_of_bytes test bound ≡ true
    → test byte ≡ true
unfolding holds_of_bytes
holds_of_bytes_sound test (suc bound) byte less held =
    ground (arith, holds_of_bytes_sound test bound byte)
holds_of_bytes_sound test zero byte less held = absurd (omega arith)

cast_table : holds_of_bytes (λ b. byte_of (from_value b) == b) 256 ≡ true
unfolding holds_of_bytes byte_of from_value
cast_table = refl

-- A byte that is cast to an opcode and back is the same byte.
pub byte_of-from_value : (b : ℕ) → b < 256 → byte_of (from_value b) ≡ b
byte_of-from_value b h = ground (arith, holds_of_bytes_sound _ 256 b h cast_table)

-- A number beyond the enumerators stays itself.
pub from_value-other : (n : ℕ) → 187 < n → from_value n ≡ Opcode.other n
unfolding from_value
from_value-other n h = ground (arith, get_elem?-none named (n - 76) (omega arith))

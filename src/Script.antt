-- ===== src/Script.antt =====
-- Bitcoin scripts: the types of include/bitcoin/script.hpp and the first methods of src/script.cpp.
-- A `Script` is `operations_`; the stacks that a run works on are `Script.Machine`'s, since every
-- run clears or assigns them before it reads them.
pub mod Opcode
pub mod Codec
pub mod Outcome
pub mod Values
pub mod Stack
pub mod Arithmetic
pub mod Signature
pub mod Machine
pub mod Types
pub mod Run
use libbitcoin.Prelude.{ℕ, List, [], ◌∷◌, ◌++◌}

pub record Operation : Type 0 where
  pub code : Opcode.Opcode
  pub bytes : List ℕ

pub record Script : Type 0 where
  pub operations : List Operation

-- `script()`.
abbrev pub empty_script : Script
empty_script = record { operations = [] }

unfoldable pub push_operation : Script → Operation → Script
push_operation s oper = record s { operations = s.operations ++ oper ∷ [] }

unfoldable pub join : Script → Script → Script
join s other = record s { operations = s.operations ++ other.operations }

unfoldable pub coinbase_script : List ℕ → Script
unfolding push_operation
coinbase_script raw_script =
    push_operation empty_script (record { code = Opcode.Opcode.raw_data; bytes = raw_script })

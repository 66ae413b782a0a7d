-- ===== src/Script/Types.antt =====
-- The payment types of src/script.cpp.
use libbitcoin.Prelude.{Bool, true, false, ◌&&◌, List, [], ◌∷◌, length, ◌==◌, if◌then◌else◌}
use libbitcoin.Script.{Operation, Script}
use libbitcoin.Script.Opcode.{Opcode}
use libbitcoin.Script.Codec.{code_eq}

pub data PaymentType : Type 0 where
  pubkey pubkey_hash script_hash multisig non_standard : PaymentType

unfoldable pub is_pubkey_type : List Operation → Bool
is_pubkey_type (a ∷ b ∷ []) = code_eq a.code Opcode.special && code_eq b.code Opcode.checksig
is_pubkey_type _ = false

unfoldable pub is_pubkey_hash_type : List Operation → Bool
is_pubkey_hash_type (a ∷ b ∷ c ∷ d ∷ e ∷ []) =
    code_eq a.code Opcode.dup
    && (code_eq b.code Opcode.hash160
        && (code_eq c.code Opcode.special
            && (length c.bytes == 20
                && (code_eq d.code Opcode.equalverify && code_eq e.code Opcode.checksig))))
is_pubkey_hash_type _ = false

unfoldable pub is_script_hash_type : List Operation → Bool
is_script_hash_type (a ∷ b ∷ c ∷ []) =
    code_eq a.code Opcode.hash160
    && (code_eq b.code Opcode.special && (length b.bytes == 20 && code_eq c.code Opcode.equal))
is_script_hash_type _ = false

unfoldable pub is_multisig_type : List Operation → Bool
is_multisig_type ops = false

unfoldable pub payment_type : Script → PaymentType
unfolding is_pubkey_type is_pubkey_hash_type is_script_hash_type is_multisig_type
payment_type s =
    if is_pubkey_type s.operations
    then PaymentType.pubkey
    else if is_pubkey_hash_type s.operations
    then PaymentType.pubkey_hash
    else if is_script_hash_type s.operations
    then PaymentType.script_hash
    else if is_multisig_type s.operations
    then PaymentType.multisig
    else PaymentType.non_standard

-- `type() == payment_type::script_hash`.
unfoldable pub pays_script_hash : Script → Bool
unfolding payment_type
pays_script_hash s = elim (payment_type s) [ PaymentType.script_hash ↦ true | _ ↦ false ]

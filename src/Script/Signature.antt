-- ===== src/Script/Signature.antt =====
-- Signature hashes and the opcodes of src/script.cpp that check signatures.
pub mod Hash
pub mod Checks
pub mod Multisig

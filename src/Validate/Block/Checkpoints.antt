-- ===== src/Validate/Block/Checkpoints.antt =====
-- passes_checkpoints of src/validate.cpp.
use libbitcoin.Prelude.{
  ℕ, Bool, true, false, not, ◌&&◌, List, [], ◌∷◌, ◌==◌, if◌then◌else◌, chunk_eq, ◌≡◌, refl,
  chunk_eq→eq, Bool-cases, inl, inr, arith, chunk_eq_refl, subst, All, ◌↔◌,
}
use libbitcoin.Openssl.{Openssl}
use libbitcoin.Messages.{Block}
use libbitcoin.Block.{hash_block_header}

pub record Checkpoint : Type 0 where
  pub depth : ℕ
  pub hash : List ℕ

abbrev checkpoint : ℕ → List ℕ → Checkpoint
checkpoint depth hash = record { depth = depth; hash = hash }

-- The depths and hashes that the tests of the code name, in their order.
unfoldable pub checkpoints : List Checkpoint
checkpoints =
    checkpoint 11111 (
      0 ∷ 0 ∷ 0 ∷ 0 ∷ 0x69 ∷ 0xe2 ∷ 0x44 ∷ 0xf7 ∷ 0x3d ∷ 0x78 ∷ 0xe8 ∷ 0xfd ∷ 0x29 ∷ 0xba ∷ 0x2f
      ∷ 0xd2 ∷ 0xed ∷ 0x61 ∷ 0x8b ∷ 0xd6 ∷ 0xfa ∷ 0x2e ∷ 0xe9 ∷ 0x25 ∷ 0x59 ∷ 0xf5 ∷ 0x42 ∷ 0xfd
      ∷ 0xb2 ∷ 0x6e ∷ 0x7c ∷ 0x1d ∷ [])
    ∷ checkpoint 33333 (
        0 ∷ 0 ∷ 0 ∷ 0 ∷ 0x2d ∷ 0xd5 ∷ 0x58 ∷ 0x8a ∷ 0x74 ∷ 0x78 ∷ 0x4e ∷ 0xaa ∷ 0x7a ∷ 0xb0 ∷ 0x50
        ∷ 0x7a ∷ 0x18 ∷ 0xad ∷ 0x16 ∷ 0xa2 ∷ 0x36 ∷ 0xe7 ∷ 0xb1 ∷ 0xce ∷ 0x69 ∷ 0xf0 ∷ 0x0d ∷ 0x7d
        ∷ 0xdf ∷ 0xb5 ∷ 0xd0 ∷ 0xa6 ∷ [])
    ∷ checkpoint 68555 (
        0 ∷ 0 ∷ 0 ∷ 0 ∷ 0 ∷ 0x1e ∷ 0x1b ∷ 0x49 ∷ 0x03 ∷ 0x55 ∷ 0x0a ∷ 0x0b ∷ 0x96 ∷ 0xe9 ∷ 0xa9
        ∷ 0x40 ∷ 0x5c ∷ 0x8a ∷ 0x95 ∷ 0xf3 ∷ 0x87 ∷ 0x16 ∷ 0x2e ∷ 0x49 ∷ 0x44 ∷ 0xe8 ∷ 0xd9 ∷ 0xfb
        ∷ 0xe5 ∷ 0x01 ∷ 0xcd ∷ 0x6a ∷ [])
    ∷ checkpoint 70567 (
        0 ∷ 0 ∷ 0 ∷ 0 ∷ 0 ∷ 0x6a ∷ 0x49 ∷ 0xb1 ∷ 0x4b ∷ 0xcf ∷ 0x27 ∷ 0x46 ∷ 0x20 ∷ 0x68 ∷ 0xf1
        ∷ 0x26 ∷ 0x4c ∷ 0x96 ∷ 0x1f ∷ 0x11 ∷ 0xfa ∷ 0x2e ∷ 0x0e ∷ 0xdd ∷ 0xd2 ∷ 0xbe ∷ 0x07 ∷ 0x91
        ∷ 0xe1 ∷ 0xd4 ∷ 0x12 ∷ 0x4a ∷ [])
    ∷ checkpoint 74000 (
        0 ∷ 0 ∷ 0 ∷ 0 ∷ 0 ∷ 0x57 ∷ 0x39 ∷ 0x93 ∷ 0xa3 ∷ 0xc9 ∷ 0xe4 ∷ 0x1c ∷ 0xe3 ∷ 0x44 ∷ 0x71
        ∷ 0xc0 ∷ 0x79 ∷ 0xdc ∷ 0xf5 ∷ 0xf5 ∷ 0x2a ∷ 0x0e ∷ 0x82 ∷ 0x4a ∷ 0x81 ∷ 0xe7 ∷ 0xf9 ∷ 0x53
        ∷ 0xb8 ∷ 0x66 ∷ 0x1a ∷ 0x20 ∷ [])
    ∷ checkpoint 105000 (
        0 ∷ 0 ∷ 0 ∷ 0 ∷ 0 ∷ 0x02 ∷ 0x91 ∷ 0xce ∷ 0x28 ∷ 0x02 ∷ 0x7f ∷ 0xae ∷ 0xa3 ∷ 0x20 ∷ 0xc8
        ∷ 0xd2 ∷ 0xb0 ∷ 0x54 ∷ 0xb2 ∷ 0xe0 ∷ 0xfe ∷ 0x44 ∷ 0xa7 ∷ 0x73 ∷ 0xf3 ∷ 0xee ∷ 0xfb ∷ 0x15
        ∷ 0x1d ∷ 0x6b ∷ 0xdc ∷ 0x97 ∷ [])
    ∷ checkpoint 118000 (
        0 ∷ 0 ∷ 0 ∷ 0 ∷ 0 ∷ 0 ∷ 0x77 ∷ 0x4a ∷ 0x7f ∷ 0x8a ∷ 0x7a ∷ 0x12 ∷ 0xdc ∷ 0x90 ∷ 0x6d ∷ 0xdb
        ∷ 0x9e ∷ 0x17 ∷ 0xe7 ∷ 0x5d ∷ 0x68 ∷ 0x4f ∷ 0x15 ∷ 0xe0 ∷ 0x0f ∷ 0x87 ∷ 0x67 ∷ 0xf9 ∷ 0xe8
        ∷ 0xf3 ∷ 0x65 ∷ 0x53 ∷ [])
    ∷ checkpoint 134444 (
        0 ∷ 0 ∷ 0 ∷ 0 ∷ 0 ∷ 0 ∷ 0x05 ∷ 0xb1 ∷ 0x2f ∷ 0xfd ∷ 0x4c ∷ 0xd3 ∷ 0x15 ∷ 0xcd ∷ 0x34 ∷ 0xff
        ∷ 0xd4 ∷ 0xa5 ∷ 0x94 ∷ 0xf4 ∷ 0x30 ∷ 0xac ∷ 0x81 ∷ 0x4c ∷ 0x91 ∷ 0x18 ∷ 0x4a ∷ 0x0d ∷ 0x42
        ∷ 0xd2 ∷ 0xb0 ∷ 0xfe ∷ [])
    ∷ checkpoint 140700 (
        0 ∷ 0 ∷ 0 ∷ 0 ∷ 0 ∷ 0 ∷ 0x03 ∷ 0x3b ∷ 0x51 ∷ 0x20 ∷ 0x28 ∷ 0xab ∷ 0xb9 ∷ 0x0e ∷ 0x16 ∷ 0x26
        ∷ 0xd8 ∷ 0xb3 ∷ 0x46 ∷ 0xfd ∷ 0x0e ∷ 0xd5 ∷ 0x98 ∷ 0xac ∷ 0x0a ∷ 0x3c ∷ 0x37 ∷ 0x11 ∷ 0x38
        ∷ 0xdc ∷ 0xe2 ∷ 0xbd ∷ [])
    ∷ checkpoint 168000 (
        0 ∷ 0 ∷ 0 ∷ 0 ∷ 0 ∷ 0 ∷ 0x09 ∷ 0x9e ∷ 0x61 ∷ 0xea ∷ 0x72 ∷ 0x01 ∷ 0x5e ∷ 0x79 ∷ 0x63 ∷ 0x2f
        ∷ 0x21 ∷ 0x6f ∷ 0xe6 ∷ 0xcb ∷ 0x33 ∷ 0xd7 ∷ 0x89 ∷ 0x9a ∷ 0xcb ∷ 0x35 ∷ 0xb7 ∷ 0x5c ∷ 0x83
        ∷ 0x03 ∷ 0xb7 ∷ 0x63 ∷ [])
    ∷ checkpoint 193000 (
        0 ∷ 0 ∷ 0 ∷ 0 ∷ 0 ∷ 0 ∷ 0x05 ∷ 0x9f ∷ 0x45 ∷ 0x2a ∷ 0x5f ∷ 0x73 ∷ 0x40 ∷ 0xde ∷ 0x66 ∷ 0x82
        ∷ 0xa9 ∷ 0x77 ∷ 0x38 ∷ 0x7c ∷ 0x17 ∷ 0x01 ∷ 0x0f ∷ 0xf6 ∷ 0xe6 ∷ 0xc3 ∷ 0xbd ∷ 0x83 ∷ 0xca
        ∷ 0x8b ∷ 0x13 ∷ 0x17 ∷ [])
    ∷ checkpoint 210000 (
        0 ∷ 0 ∷ 0 ∷ 0 ∷ 0 ∷ 0 ∷ 0x04 ∷ 0x8b ∷ 0x95 ∷ 0x34 ∷ 0x7e ∷ 0x83 ∷ 0x19 ∷ 0x2f ∷ 0x69 ∷ 0xcf
        ∷ 0x03 ∷ 0x66 ∷ 0x07 ∷ 0x63 ∷ 0x36 ∷ 0xc6 ∷ 0x39 ∷ 0xf9 ∷ 0xb7 ∷ 0x22 ∷ 0x8e ∷ 0x9b ∷ 0xa1
        ∷ 0x71 ∷ 0x34 ∷ 0x2e ∷ [])
    ∷ checkpoint 216116 (
        0 ∷ 0 ∷ 0 ∷ 0 ∷ 0 ∷ 0 ∷ 0x01 ∷ 0xb4 ∷ 0xf4 ∷ 0xb4 ∷ 0x33 ∷ 0xe8 ∷ 0x1e ∷ 0xe4 ∷ 0x64 ∷ 0x94
        ∷ 0xaf ∷ 0x94 ∷ 0x5c ∷ 0xf9 ∷ 0x60 ∷ 0x14 ∷ 0x81 ∷ 0x6a ∷ 0x4e ∷ 0x23 ∷ 0x70 ∷ 0xf1 ∷ 0x1b
        ∷ 0x23 ∷ 0xdf ∷ 0x4e ∷ [])
    ∷ []

-- One test of the code after another.
unfoldable pub passes_each : List Checkpoint → ℕ → List ℕ → Bool
passes_each [] depth block_hash = true
passes_each (known ∷ rest) depth block_hash =
    if depth == known.depth && not (chunk_eq block_hash known.hash)
    then false
    else passes_each rest depth block_hash

unfoldable pub passes_checkpoints : Openssl → ℕ → Block → Bool
unfolding passes_each checkpoints
passes_checkpoints o depth block = passes_each checkpoints depth (hash_block_header o block)

passes_point :
    (depth known_depth : ℕ) (block_hash known_hash : List ℕ) (rest : Bool)
    → (if depth == known_depth && not (chunk_eq block_hash known_hash) then false else rest) ≡ true
    → (known_depth ≡ depth → block_hash ≡ known_hash) × (rest ≡ true)
passes_point depth known_depth block_hash known_hash rest e =
    elim (Bool-cases (chunk_eq block_hash known_hash)) [
      | inl equal ↦ (λ _. chunk_eq→eq block_hash known_hash equal, ground (arith, equal))
      | inr differs ↦ (λ same. absurd (ground (arith, differs, same)), ground (arith, differs))
    ]

point_passes :
    (depth known_depth : ℕ) (block_hash known_hash : List ℕ) (rest : Bool)
    → (known_depth ≡ depth → block_hash ≡ known_hash)
    → rest ≡ true
    → (if depth == known_depth && not (chunk_eq block_hash known_hash) then false else rest) ≡ true
point_passes depth known_depth block_hash known_hash rest known passes =
    elim (Bool-cases (depth == known_depth)) [
      | inl same ↦
          let equal : chunk_eq block_hash known_hash ≡ true =
            subst (λ h. chunk_eq block_hash h ≡ true) (known (ground (arith, same)))
              (chunk_eq_refl block_hash) in
          ground (arith, equal, passes)
      | inr differs ↦ ground (arith, differs, passes)
    ]

passes_each_iff :
    (known : List Checkpoint) (depth : ℕ) (block_hash : List ℕ)
    → (passes_each known depth block_hash ≡ true)
      ↔ All (λ point. point.depth ≡ depth → block_hash ≡ point.hash) known
unfolding passes_each
passes_each_iff [] depth block_hash = (λ _. tt, λ _. refl)
passes_each_iff (point ∷ known) depth block_hash =
    let (to, back) = passes_each_iff known depth block_hash in
    (
      λ e.
          let (here, rest) =
            passes_point depth point.depth block_hash point.hash
              (passes_each known depth block_hash) e in
          (here, to rest),
      λ h.
          point_passes depth point.depth block_hash point.hash (passes_each known depth block_hash)
            h.0 (back h.1),
    )

-- A block passes exactly where its hash is the one of every checkpoint at its depth.
passes_checkpoints_iff :
    (o : Openssl) (depth : ℕ) (block : Block)
    → (passes_checkpoints o depth block ≡ true)
      ↔ All (λ point. point.depth ≡ depth → hash_block_header o block ≡ point.hash) checkpoints
unfolding passes_checkpoints
passes_checkpoints_iff o depth block = passes_each_iff checkpoints depth (hash_block_header o block)

-- ===== src/Digest.antt =====
-- src/utility/sha256.cpp and src/utility/ripemd.cpp.
use libbitcoin.Prelude.{ℕ, false, List, reverse, take}
use libbitcoin.Format.{cast_chunk}
use libbitcoin.Openssl.{Openssl}

module _ (o : Openssl) where
  -- SHA-256 twice, reversed.
  unfoldable pub generate_sha256_hash : List ℕ → List ℕ
  generate_sha256_hash chunk = reverse (o.sha256 (o.sha256 chunk))

  unfoldable pub generate_sha256_checksum : List ℕ → ℕ
  unfolding generate_sha256_hash
  generate_sha256_checksum chunk =
      cast_chunk 4 (take 4 (reverse (generate_sha256_hash chunk))) false

  unfoldable pub generate_ripemd_hash : List ℕ → List ℕ
  generate_ripemd_hash chunk = o.ripemd160 (o.sha256 chunk)

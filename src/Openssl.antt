-- ===== src/Openssl.antt =====
-- What the program calls of OpenSSL: big numbers, digests and elliptic curve keys. Its functions are
-- parameters of every definition that calls them.
use Prim.Native.Nat.{Ordering}
use libbitcoin.Prelude.{ℕ, Bool, List, Option}

pub record Openssl : Type 1 where
  pub Bignum : Type 0
  pub bn_init : Bignum
  pub bn_mpi2bn : List ℕ → Bignum
  pub bn_bn2mpi : Bignum → List ℕ
  pub bn_set_word : ℕ → Bignum
  pub bn_get_word : Bignum → ℕ
  pub bn_is_negative : Bignum → Bool
  pub bn_set_negative : Bignum → Bool → Bignum
  pub bn_cmp : Bignum → Bignum → Ordering
  pub bn_add : Bignum → Bignum → Bignum
  pub bn_sub : Bignum → Bignum → Bignum
  pub bn_mul : Bignum → Bignum → Bignum
  pub bn_div : Bignum → Bignum → Bignum × Bignum
  pub bn_lshift : Bignum → ℕ → Bignum
  pub sha1 : List ℕ → List ℕ
  pub sha256 : List ℕ → List ℕ
  pub ripemd160 : List ℕ → List ℕ
  pub Key : Type 0
  -- A fresh key of the curve, filled by o2i_ECPublicKey; `none` where a call fails.
  pub public_key_of : List ℕ → Option Key
  -- ECDSA_verify returns 1.
  pub ecdsa_verify : Key → List ℕ → List ℕ → Bool

-- ===== src/Transaction/Hash.antt =====
-- hash_transaction of src/transaction.cpp.
use libbitcoin.Prelude.{ℕ, false, List, ◌++◌, Option, none, some, Result, ok, ◌>>=◌}
use libbitcoin.Format.{uncast_type}
use libbitcoin.Openssl.{Openssl}
use libbitcoin.Digest.{generate_sha256_hash}
use libbitcoin.Messages.{Transaction}
use libbitcoin.SatoshiSerialize.Tx.{satoshi_save_transaction}

unfoldable extended : List ℕ → Option ℕ → List ℕ
extended serialized_tx none = serialized_tx
extended serialized_tx (some hash_type_code) = serialized_tx ++ uncast_type 4 hash_type_code false

module _ (o : Openssl) where
  unfoldable pub hash_transaction_impl : Transaction → Option ℕ → Result (List ℕ)
  unfolding extended
  hash_transaction_impl tx hash_type_code = do
    serialized_tx ← satoshi_save_transaction tx
    ok (generate_sha256_hash o (extended serialized_tx hash_type_code))

  unfoldable pub hash_transaction : Transaction → Result (List ℕ)
  unfolding hash_transaction_impl
  hash_transaction tx = hash_transaction_impl tx none

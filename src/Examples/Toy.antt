-- ===== src/Examples/Toy.antt =====
-- An OpenSSL on small numbers and paddings, for the examples.
use Prim.Native.Nat.{compare}
use libbitcoin.Prelude.{
  ℕ, ◌+◌, ◌-◌, ◌*◌, ◌/◌, ◌%◌, ◌^◌, false, List, [], ◌∷◌, ◌++◌, take, drop, replicate, ◌==◌,
  if◌then◌else◌, some, chunk_eq, reverse,
}
use libbitcoin.Openssl.{Openssl}
use libbitcoin.Constants.{max_bits}
use libbitcoin.Format.{cast_chunk}
use libbitcoin.Messages.{TransactionInput, TransactionOutput, Transaction, Block}
use libbitcoin.Script.{Operation, Script}
use libbitcoin.Script.Opcode.{Opcode}

abbrev pub toy : Openssl
toy = record {
  Bignum = ℕ;
  bn_init = 0;
  bn_mpi2bn = λ bytes. cast_chunk 8 (reverse (drop 4 bytes)) false;
  bn_bn2mpi = λ n. if n == 0 then replicate 4 0 else 0 ∷ 0 ∷ 0 ∷ 1 ∷ n % 256 ∷ [];
  bn_set_word = λ n. n;
  bn_get_word = λ n. n;
  bn_is_negative = λ n. false;
  bn_set_negative = λ n b. n;
  bn_cmp = compare;
  bn_add = λ a b. a + b;
  bn_sub = λ a b. a - b;
  bn_mul = λ a b. a * b;
  bn_div = λ a b. (a / b, a % b);
  bn_lshift = λ a n. a * 2 ^ n;
  sha1 = λ bytes. take 20 (bytes ++ replicate 20 0);
  sha256 = λ bytes. take 32 (bytes ++ replicate 32 0);
  ripemd160 = λ bytes. take 20 (bytes ++ replicate 20 0);
  Key = List ℕ;
  public_key_of = λ bytes. some bytes;
  ecdsa_verify = λ key hash signature. chunk_eq key signature;
}

-- A transaction that spends an output and pays to a public key hash.
abbrev pub op : Opcode → Operation
op code = record { code = code; bytes = [] }

abbrev pub push : List ℕ → Operation
push bytes = record { code = Opcode.special; bytes = bytes }

abbrev pub script_of : List Operation → Script
script_of ops = record { operations = ops }

abbrev pub spent_input : TransactionInput
spent_input = record {
  previous_output = record { hash = replicate 32 7; index = 1 };
  input_script = script_of (push (9 ∷ 8 ∷ []) ∷ []);
  sequence = 0xffffffff;
}

abbrev pub paid_output : TransactionOutput
paid_output = record {
  value = 5000000000;
  output_script = script_of (op Opcode.dup ∷ op Opcode.checksig ∷ []);
}

abbrev pub payment : Transaction
payment = record {
  version = 1;
  locktime = 0;
  inputs = spent_input ∷ [];
  outputs = paid_output ∷ [];
}

abbrev pub no_transaction : Transaction
no_transaction = record { version = 0; locktime = 0; inputs = []; outputs = [] }

-- The toy on numbers of up to 40 bytes.
abbrev pub wide : Openssl
wide = record toy { bn_mpi2bn = λ bytes. cast_chunk 40 (reverse (drop 4 bytes)) false }

abbrev coinbase_input : TransactionInput
coinbase_input = record {
  previous_output = record { hash = replicate 32 0; index = 0xffffffff };
  input_script = script_of (push (1 ∷ 2 ∷ []) ∷ []);
  sequence = 0xffffffff;
}

abbrev pub coinbase : Transaction
coinbase = record {
  version = 1;
  locktime = 0;
  inputs = coinbase_input ∷ [];
  outputs = paid_output ∷ [];
}

abbrev pub spender : Transaction
spender = record {
  version = 1;
  locktime = 0;
  inputs = spent_input ∷ [];
  outputs = record { value = 5; output_script = script_of (op Opcode.op_1 ∷ []) } ∷ [];
}

abbrev pub funding : Transaction
funding = record {
  version = 1;
  locktime = 0;
  inputs = spent_input ∷ [];
  outputs =
      paid_output ∷ record { value = 7; output_script = script_of (op Opcode.op_1 ∷ []) } ∷ [];
}

abbrev merkle_root : List ℕ
merkle_root = replicate 27 0 ++ 1 ∷ 0 ∷ 0 ∷ 0 ∷ 1 ∷ []

abbrev pub mined : Block
mined = record {
  version = 1;
  previous_block_hash = replicate 32 0;
  merkle = merkle_root;
  timestamp = 1000;
  bits = max_bits;
  nonce = 0;
  transactions = coinbase ∷ spender ∷ [];
}

-- ===== src/Validate/Block/Guarantees.antt =====
-- What a block has passed that check_block of src/validate.cpp accepts.
use libbitcoin.Prelude.{
  arith, ℕ, ◌+◌, ◌≤◌, ◌≡◌, refl, Bool, true, false, not, List, [], ◌∷◌, ◌==◌, ltb, length, All,
  chunk_eq, chunk_eq→eq, none, ok, if◌then◌else◌,
}
use libbitcoin.Openssl.{Openssl}
use libbitcoin.Messages.{Transaction, Block}
use libbitcoin.Transaction.{is_coinbase}
use libbitcoin.Transaction.Merkle.{transaction_hashes, build_merkle_tree, generate_merkle_root}
use libbitcoin.SatoshiSerialize.Blocks.{block_raw_size}
use libbitcoin.Block.{hash_block_header}
use libbitcoin.Validate.{ErrorCode}
use libbitcoin.Validate.Verdict.{
  valid, trusted, bind_elim, demand_elim, trusted-eq-valid, demand-eq-valid,
}
use libbitcoin.Validate.Check.{check_transaction}
use libbitcoin.Validate.Sigops.{legacy_sigops_count}
use libbitcoin.Validate.Block.{max_block_size, max_block_script_sig_operations}
use libbitcoin.Validate.Block.Work.{check_proof_of_work}
use libbitcoin.Validate.Block.Check.{
  has_coinbase, check_coinbases, check_transactions, check_size, check_block,
}
use libbitcoin.Validate.Block.Distinct.{Distinct, check_transactions-Distinct}

-- The first transaction, and only it, is a coinbase.
unfoldable pub OneCoinbase : List Transaction → Type 0
OneCoinbase [] = ⊥
OneCoinbase (coinbase ∷ transactions) =
    (is_coinbase coinbase ≡ true) × All (λ tx. is_coinbase tx ≡ false) transactions

has_coinbase-All :
    (transactions : List Transaction)
    → has_coinbase transactions ≡ false
    → All (λ tx. is_coinbase tx ≡ false) transactions
unfolding has_coinbase
has_coinbase-All [] e = tt
has_coinbase-All (tx ∷ transactions) e =
    let (first, rest) = split (is_coinbase tx) e in (first, has_coinbase-All transactions rest)
  where
    split :
        (coinbase : Bool)
        → (if coinbase then true else has_coinbase transactions) ≡ false
        → (coinbase ≡ false) × (has_coinbase transactions ≡ false)
    split true e = cc
    split false e = (refl, e)

not-eq-true : (b : Bool) → not b ≡ true → b ≡ false
not-eq-true true h = cc
not-eq-true false h = refl

check_coinbases-OneCoinbase :
    (transactions : List Transaction)
    → check_coinbases transactions ≡ valid tt
    → OneCoinbase transactions
unfolding check_coinbases OneCoinbase
check_coinbases-OneCoinbase [] e = cc
check_coinbases-OneCoinbase (coinbase ∷ transactions) e =
    demand_elim (is_coinbase coinbase) ErrorCode.first_not_coinbase _ e λ first rest. (
      first,
      has_coinbase-All transactions
          (not-eq-true _ (demand-eq-valid _ ErrorCode.extra_coinbases rest)),
    )

pub record IsChecked (o : Openssl) (universal_time : ℕ) (block : Block) : Type 0 where
  pub within_size :
      (length block.transactions ≤ max_block_size) × (block_raw_size block ≤ max_block_size)
  pub has_work : check_proof_of_work o (hash_block_header o block) block.bits ≡ true
  pub not_futuristic : block.timestamp ≤ universal_time + 7200
  pub one_coinbase : OneCoinbase block.transactions
  pub each_checked : All (λ tx. check_transaction tx ≡ none) block.transactions
  pub hashes : List (List ℕ)
  pub hashed : transaction_hashes o block.transactions ≡ ok hashes
  pub distinct : Distinct hashes
  pub few_sigops : legacy_sigops_count block.transactions 0 ≤ max_block_script_sig_operations
  pub merkle_root : build_merkle_tree o hashes ≡ ok block.merkle

module _ (o : Openssl) (universal_time : ℕ) (block : Block) where
  merkle_of :
      {hashes : List (List ℕ)} {merkle : List ℕ}
      → transaction_hashes o block.transactions ≡ ok hashes
      → generate_merkle_root o block.transactions ≡ ok merkle
      → build_merkle_tree o hashes ≡ ok merkle
  unfolding generate_merkle_root
  merkle_of p q = rw p at q

  collected :
      check_size o block ≡ valid tt
      → check_proof_of_work o (hash_block_header o block) block.bits ≡ true
      → not (ltb (universal_time + 7200) block.timestamp) ≡ true
      → check_coinbases block.transactions ≡ valid tt
      → (unique_txs : List (List ℕ)) → check_transactions o block.transactions [] ≡ valid unique_txs
      → (length unique_txs == length block.transactions) ≡ true
      → not (ltb max_block_script_sig_operations (legacy_sigops_count block.transactions 0)) ≡ true
      → (merkle : List ℕ) → trusted (generate_merkle_root o block.transactions) ≡ valid merkle
      → chunk_eq block.merkle merkle ≡ true
      → IsChecked o universal_time block
  unfolding check_size
  collected sized worked timely one unique_txs inserted counted few merkle rooted equal =
      let (hashes, hashed, each, _, _, distinct) =
        check_transactions-Distinct o block.transactions [] inserted in
      let size = demand-eq-valid _ ErrorCode.size_limits sized in
      record {
        within_size = (ground (arith, size), ground (arith, size));
        has_work = worked;
        not_futuristic = ground (arith, timely);
        one_coinbase = check_coinbases-OneCoinbase block.transactions one;
        each_checked = each;
        hashes = hashes;
        hashed = hashed;
        distinct = (distinct (ground (arith, counted))).1;
        few_sigops = ground (arith, few);
        merkle_root =
            rw (chunk_eq→eq block.merkle merkle equal)
              (merkle_of hashed (trusted-eq-valid _ rooted));
      }

  -- A block that check_block accepts is within the size limits, has the proof of work that its bits ask
  -- for, lies at most two hours ahead, has exactly one coinbase, in front, transactions that pass their own
  -- check and have different hashes, at most 20000 signature operations, and the Merkle root of
  -- these hashes.
  pub check_block-IsChecked :
      check_block o universal_time block ≡ valid tt → IsChecked o universal_time block
  unfolding check_block
  check_block-IsChecked e = bind_elim (check_size o block) _ e λ _ sized e1.
      demand_elim _ ErrorCode.proof_of_work _ e1 λ worked e2.
        demand_elim (not (ltb (universal_time + 7200) block.timestamp))
          ErrorCode.futuristic_timestamp _ e2
          λ timely e3. bind_elim (check_coinbases block.transactions) _ e3 λ _ one e4.
            bind_elim (check_transactions o block.transactions []) _ e4 λ unique_txs inserted e5.
              demand_elim (length unique_txs == length block.transactions) ErrorCode.duplicate _ e5
                λ counted e6.
                  demand_elim
                    (not (
                      ltb max_block_script_sig_operations
                        (legacy_sigops_count block.transactions 0)))
                    ErrorCode.too_many_sigs _ e6
                    λ few e7.
                      bind_elim (trusted (generate_merkle_root o block.transactions)) _ e7
                        λ merkle rooted e8.
                          collected sized worked timely one unique_txs inserted counted few merkle
                            rooted (demand-eq-valid _ ErrorCode.merkle_mismatch e8)

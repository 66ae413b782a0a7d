-- ===== src/Validate/Transaction/Steps.antt =====
-- Every handler keeps what holds of a validation.
use libbitcoin.Prelude.{
  arith, ℕ, suc, ◌<◌, ◌≡◌, ◌≢◌, sym, subst, ap, ◌∙◌, inl, inr, List, [], ◌∷◌, ◌++◌, append-nil,
  length, get_elem?, ltb, ◌==◌, if◌then◌else◌, Option, none, some, Bool-cases,
}
use libbitcoin.Openssl.{Openssl}
use libbitcoin.Messages.{TransactionInput, Transaction}
use libbitcoin.TransactionPool.{Pool}
use libbitcoin.Validate.{ErrorCode}
use libbitcoin.Validate.Transaction.{
  Reply, found, failed, Moment, Validation, Awaited, waiting, finished, broken,
}
use libbitcoin.Validate.Transaction.Handlers.{
  any_spent, next_previous_transaction, double_spend_checked, last_depth_set, duplicate_checked,
}
use libbitcoin.Validate.Transaction.Cases.{not_found-cases, unspent_output-cases, advance}
use libbitcoin.Validate.Transaction.Reports.{
  Ascends, Fetches, from_chain, from_pool, Connects, no_input, next_input, accepted, refused,
  known_to_chain, spent_in_pool, no_last_depth, spent_in_chain, Held, Sound, Sound-if,
}

pub some-eq {ℓ} : {A : Type ℓ} {a b : A} → ◌≡◌ {A = Option A} (some a) (some b) → a ≡ b
some-eq e = cc

Ascends-append :
    (low bound : ℕ) (indexes : List ℕ)
    → Ascends low bound indexes
    → Ascends low (suc bound) (indexes ++ bound ∷ [])
Ascends-append low bound [] h = (h, omega arith)
Ascends-append low bound (index ∷ indexes) h = (h.0, Ascends-append (suc index) bound indexes h.1)

Ascends-suc :
    (low bound : ℕ) (indexes : List ℕ) → Ascends low bound indexes → Ascends low (suc bound) indexes
Ascends-suc low bound [] h = omega arith
Ascends-suc low bound (index ∷ indexes) h = (h.0, Ascends-suc (suc index) bound indexes h.1)

module _ (o : Openssl) (first_pool : Pool) (tx : Transaction) (Seen : Moment → Type 0) where
  more-Ascends :
      {index parent_depth : ℕ} {hash : List ℕ} {previous_tx : Transaction}
      (unconfirmed more : List ℕ)
      → Fetches o first_pool tx Seen index hash previous_tx parent_depth more
      → Ascends 0 index unconfirmed
      → Ascends 0 (suc index) (unconfirmed ++ more)
  more-Ascends {index = index} unconfirmed _ (from_chain now later _ _ _ _) h =
      subst (Ascends 0 (suc index)) (sym (append-nil unconfirmed))
        (Ascends-suc 0 index unconfirmed h)
  more-Ascends {index = index} unconfirmed _ (from_pool now _ _ _ _) h =
      Ascends-append 0 index unconfirmed h

  Connects-Ascends :
      {last_depth index value : ℕ} {unconfirmed : List ℕ}
      → Connects o first_pool tx Seen last_depth index value unconfirmed
      → Ascends 0 index unconfirmed
  Connects-Ascends (no_input now _ _ _) = omega arith
  Connects-Ascends
        (next_input {unconfirmed = unconfirmed} {more = more} now before _ fetches _ _ _) =
      more-Ascends unconfirmed more fetches (Connects-Ascends before)

  pub duplicate_checked-Sound :
      (now : Moment) (v : Validation)
      → Seen now
      → v.tx ≡ tx
      → 0 < length tx.inputs
      → Held o first_pool tx Seen Awaited.handle_duplicate_check v
      → Sound o first_pool tx Seen (duplicate_checked now.pool (now.fetch_transaction v.tx_hash) v)
  duplicate_checked-Sound now v seen same filled (empty, hashed, checked) =
      elim (not_found-cases now.pool (now.fetch_transaction v.tx_hash) v) [
        | inl (known, refuses) ↦
            rw refuses (
              refused ErrorCode.duplicate (λ e. cc)
                (known_to_chain v.tx_hash now hashed seen known))
        | inr (unknown, continues) ↦
            let pooled : any_spent now.pool v.tx.inputs ≡ any_spent now.pool tx.inputs =
              ap (λ (t : Transaction). any_spent now.pool t.inputs) same in
            elim (Bool-cases (any_spent now.pool v.tx.inputs)) [
              | inl spent ↦
                  rw (continues, spent)
                    (refused ErrorCode.double_spend (λ e. cc)
                      (spent_in_pool now seen (sym pooled ∙ spent)))
              | inr unspent ↦
                  rw (continues, unspent)
                    (
                      same,
                      filled,
                      (
                        empty,
                        record {
                          hash = v.tx_hash;
                          now = now;
                          hashed = hashed;
                          checked = checked;
                          seen = seen;
                          unknown = unknown;
                          unspent = sym pooled ∙ unspent;
                        },
                      ),
                    )
            ]
      ]

  inputs_count : (v : Validation) → v.tx ≡ tx → length v.tx.inputs ≡ length tx.inputs
  inputs_count v same = ap (λ (t : Transaction). length t.inputs) same

  pub last_depth_set-Sound :
      (now : Moment) (reply : Reply ℕ) (v : Validation)
      → Seen now
      → now.fetch_last_depth ≡ reply
      → now.fetch_last_depth ≢ failed ErrorCode.input_not_found
      → v.tx ≡ tx
      → 0 < length tx.inputs
      → Held o first_pool tx Seen Awaited.set_last_depth v
      → Sound o first_pool tx Seen (last_depth_set reply v)
  unfolding last_depth_set next_previous_transaction
  last_depth_set-Sound now (failed code) v seen e known same filled held =
      refused code (λ h. known (e ∙ ap failed h)) (no_last_depth now seen e)
  last_depth_set-Sound now (found last_depth) v seen e known same filled (empty, fresh) =
      let count = inputs_count v same in
      Sound-if o first_pool tx Seen (ltb 0 (length v.tx.inputs)) _ broken
        (λ _.
          Sound-if o first_pool tx Seen (ltb 0 (length v.tx.inputs)) _ broken
            (λ _. (same, filled, (filled, rw empty (no_input now fresh seen e))))
            (λ none_left. absurd (ground (arith, count, filled, none_left))))
        (λ none_left. absurd (ground (arith, count, filled, none_left)))

  advanced-Sound :
      (v : Validation)
      → v.tx ≡ tx
      → 0 < length tx.inputs
      → v.current_input < length tx.inputs
      → Connects o first_pool tx Seen v.last_block_depth
          (suc v.current_input)
          v.value_in
          v.unconfirmed
      → Sound o first_pool tx Seen (
          if suc v.current_input == length v.tx.inputs
          then finished none v.unconfirmed
          else if ltb (suc v.current_input) (length v.tx.inputs)
          then waiting Awaited.previous_tx_index (advance v)
          else broken)
  advanced-Sound v same filled inside connects =
      let count = inputs_count v same in
      Sound-if o first_pool tx Seen (suc v.current_input == length v.tx.inputs) _ _
        (λ last.
          let all : suc v.current_input ≡ length tx.inputs = ground (arith, count, last) in
          accepted v.last_block_depth v.value_in
            (subst (λ n. Ascends 0 n v.unconfirmed) all (Connects-Ascends connects))
            (subst
              (λ n. Connects o first_pool tx Seen v.last_block_depth n v.value_in v.unconfirmed) all
              connects))
        (λ more.
          Sound-if o first_pool tx Seen (ltb (suc v.current_input) (length v.tx.inputs)) _ broken
            (λ inside_next. (same, filled, (ground (arith, count, inside_next), connects)))
            (λ outside. absurd (ground (arith, count, inside, more, outside))))

  pub double_spend_checked-Sound :
      (now : Moment) (v : Validation) (input : TransactionInput)
      → Seen now
      → get_elem? tx.inputs v.current_input ≡ some input
      → v.tx ≡ tx
      → 0 < length tx.inputs
      → Held o first_pool tx Seen Awaited.check_double_spend v
      → Sound o first_pool tx Seen (double_spend_checked (now.fetch_spend input.previous_output) v)
  double_spend_checked-Sound now v input seen here same filled (inside, pending) =
      elim (unspent_output-cases (now.fetch_spend input.previous_output) v) [
        | inl (spent, refuses) ↦ rw refuses (
            refused ErrorCode.double_spend (λ e. cc)
              (spent_in_chain v.current_input now seen here spent))
        | inr (unspent, continues) ↦ subst (Sound o first_pool tx Seen) (sym continues) (
            advanced-Sound v same filled inside (
              subst
                (Connects o first_pool tx Seen v.last_block_depth (suc v.current_input) v.value_in)
                (sym pending.recorded)
                (next_input now pending.before pending.turn pending.fetches pending.connects seen (
                  subst
                    (λ (at : TransactionInput).
                      now.fetch_spend at.previous_output ≡ some ErrorCode.unspent_output)
                    (some-eq (sym here ∙ pending.turn)) unspent))))
      ]

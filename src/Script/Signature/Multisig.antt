-- ===== src/Script/Signature/Multisig.antt =====
-- The loops of op_checkmultisigverify, against an order-preserving assignment of keys to signatures.
use libbitcoin.Prelude.{
  ℕ, zero, suc, Bool, true, false, List, [], ◌∷◌, replicate, ◌≡◌, refl, subst, ◌↔◌, if◌then◌else◌,
  Option, none, some,
}
use libbitcoin.Openssl.{Openssl}
use libbitcoin.Messages.{Transaction}
use libbitcoin.Script.{Script}
use libbitcoin.Script.Outcome.{Outcome, pass, >>=-eq-pass}
use libbitcoin.Script.Signature.Checks.{check_signature, advance_pubkeys, check_signatures}

module _ (o : Openssl) (parent_tx : Transaction) (input_index : ℕ) where
  -- The signatures verify with public keys in the order of the list; a key that has been used is
  -- still there for the next signature.
  pub data Matches (script_code : Script) : List (List ℕ) → List (List ℕ) → Type 0 where
    finished : {pubkeys : List (List ℕ)} → Matches script_code [] pubkeys
    verifies :
        {signature pubkey : List ℕ} {signatures pubkeys : List (List ℕ)}
        → check_signature o parent_tx input_index signature pubkey script_code ≡ pass true
        → Matches script_code signatures (pubkey ∷ pubkeys)
        → Matches script_code (signature ∷ signatures) (pubkey ∷ pubkeys)
    skips :
        {signature pubkey : List ℕ} {signatures pubkeys : List (List ℕ)}
        → check_signature o parent_tx input_index signature pubkey script_code ≡ pass false
        → Matches script_code (signature ∷ signatures) pubkeys
        → Matches script_code (signature ∷ signatures) (pubkey ∷ pubkeys)

  -- The head of a list of keys verifies the signature, or the loop goes on.
  keeps :
      (script_code : Script) (signature pubkey : List ℕ) (signatures pubkeys : List (List ℕ))
      (verified : Bool) (others : Outcome (Option (List (List ℕ)))) {left : List (List ℕ)}
      → check_signature o parent_tx input_index signature pubkey script_code ≡ pass verified
      → (if verified then pass (some (pubkey ∷ pubkeys)) else others) ≡ pass (some left)
      → (others ≡ pass (some left) → Matches script_code (signature ∷ signatures) pubkeys)
      → Matches script_code signatures left
      → Matches script_code (signature ∷ signatures) (pubkey ∷ pubkeys)
  keeps script_code signature pubkey signatures pubkeys true others e h go rest =
      verifies e (subst (Matches script_code signatures) (kept_eq h) rest)
    where
      kept_eq : {a b : List (List ℕ)} → pass (some a) ≡ pass (some b) → b ≡ a
      kept_eq h = cc
  keeps script_code signature pubkey signatures pubkeys false others e h go rest = skips e (go h)

  -- One round: the keys left are those of a match of the rest.
  advance_pubkeys-Matches :
      (script_code : Script) (signature : List ℕ) (signatures pubkeys : List (List ℕ))
      {left : List (List ℕ)}
      → advance_pubkeys o parent_tx input_index script_code signature pubkeys ≡ pass (some left)
      → Matches script_code signatures left
      → Matches script_code (signature ∷ signatures) pubkeys
  unfolding advance_pubkeys
  advance_pubkeys-Matches script_code signature signatures [] h rest = cc
  advance_pubkeys-Matches script_code signature signatures (pubkey ∷ []) h rest =
      let (verified, e, g) =
        >>=-eq-pass (check_signature o parent_tx input_index signature pubkey script_code) _ h in
      keeps script_code signature pubkey signatures [] verified (pass none) e (last verified g)
        (λ k. cc) rest
    where
      last :
          (b : Bool) {k : Option (List (List ℕ))}
          → pass (if b then some (pubkey ∷ []) else none) ≡ pass k
          → (if b then pass (some (pubkey ∷ [])) else pass none) ≡ pass k
      last true h = h
      last false h = h
  advance_pubkeys-Matches script_code signature signatures (pubkey ∷ next ∷ pubkeys) h rest =
      let (verified, e, g) =
        >>=-eq-pass (check_signature o parent_tx input_index signature pubkey script_code) _ h in
      keeps script_code signature pubkey signatures (next ∷ pubkeys) verified _ e g
        (λ k. advance_pubkeys-Matches script_code signature signatures (next ∷ pubkeys) k rest) rest

  check_signatures-Matches :
      (script_code : Script) (signatures pubkeys : List (List ℕ))
      → check_signatures o parent_tx input_index script_code signatures pubkeys ≡ pass true
      → Matches script_code signatures pubkeys
  unfolding check_signatures
  check_signatures-Matches script_code [] pubkeys h = finished
  check_signatures-Matches script_code (signature ∷ signatures) pubkeys h =
      let (current, e, g) =
        >>=-eq-pass (advance_pubkeys o parent_tx input_index script_code signature pubkeys) _ h in
      continue current e g (check_signatures-Matches script_code signatures)
    where
      continue :
          (current : Option (List (List ℕ)))
          → advance_pubkeys o parent_tx input_index script_code signature pubkeys ≡ pass current
          → elim current [
            | none ↦ pass false
            | some left ↦ check_signatures o parent_tx input_index script_code signatures left
          ]
            ≡ pass true
          → ((left : List (List ℕ))
              → check_signatures o parent_tx input_index script_code signatures left ≡ pass true
              → Matches script_code signatures left)
          → Matches script_code (signature ∷ signatures) pubkeys
      continue none e g go = cc
      continue (some left) e g go =
          advance_pubkeys-Matches script_code signature signatures pubkeys e (go left g)

  advance_pubkeys-verifies :
      (script_code : Script) (signature pubkey : List ℕ) (pubkeys : List (List ℕ))
      → check_signature o parent_tx input_index signature pubkey script_code ≡ pass true
      → advance_pubkeys o parent_tx input_index script_code signature (pubkey ∷ pubkeys)
        ≡ pass (some (pubkey ∷ pubkeys))
  unfolding advance_pubkeys
  advance_pubkeys-verifies script_code signature pubkey [] h = rw h refl
  advance_pubkeys-verifies script_code signature pubkey (next ∷ pubkeys) h = rw h refl

  Matches-check_signatures :
      (script_code : Script) (signatures pubkeys : List (List ℕ))
      → Matches script_code signatures pubkeys
      → check_signatures o parent_tx input_index script_code signatures pubkeys ≡ pass true
  unfolding check_signatures advance_pubkeys
  Matches-check_signatures script_code [] pubkeys h = refl
  Matches-check_signatures script_code (signature ∷ signatures) (pubkey ∷ pubkeys)
        (verifies e rest) =
      rw (advance_pubkeys-verifies script_code signature pubkey pubkeys e)
        (Matches-check_signatures script_code signatures (pubkey ∷ pubkeys) rest)
  Matches-check_signatures script_code (signature ∷ signatures) [] h = elim h [ ]
  Matches-check_signatures script_code (signature ∷ signatures) (pubkey ∷ []) (skips e rest) =
      elim rest [ ]
  Matches-check_signatures script_code (signature ∷ signatures) (pubkey ∷ next ∷ pubkeys)
        (skips e rest) =
      rw e (Matches-check_signatures script_code (signature ∷ signatures) (next ∷ pubkeys) rest)

  -- The loops of checkmultisig pass true exactly where the signatures verify with public keys in the
  -- order of the list, a key being free to verify several signatures that follow each other.
  pub check_signatures_iff :
      (script_code : Script) (signatures pubkeys : List (List ℕ))
      → (check_signatures o parent_tx input_index script_code signatures pubkeys ≡ pass true)
        ↔ Matches script_code signatures pubkeys
  check_signatures_iff script_code signatures pubkeys = (
    check_signatures-Matches script_code signatures pubkeys,
    Matches-check_signatures script_code signatures pubkeys,
  )

  -- One signature that the first public key verifies is enough for any number of them: a list of copies
  -- of it passes, whatever the other public keys are.
  pub check_signatures-replicate :
      (script_code : Script) (signature pubkey : List ℕ) (n : ℕ) (pubkeys : List (List ℕ))
      → check_signature o parent_tx input_index signature pubkey script_code ≡ pass true
      → check_signatures o parent_tx input_index script_code
          (replicate n signature)
          (pubkey ∷ pubkeys)
        ≡ pass true
  unfolding check_signatures
  check_signatures-replicate script_code signature pubkey zero pubkeys h = refl
  check_signatures-replicate script_code signature pubkey (suc n) pubkeys h =
      rw (advance_pubkeys-verifies script_code signature pubkey pubkeys h)
        (check_signatures-replicate script_code signature pubkey n pubkeys h)

-- ===== src/Script/Codec/Resave.antt =====
-- Saving what `parse_script` made of some bytes gives those bytes: the assertion of `read_script`.
use libbitcoin.Prelude.{
  ℕ, zero, suc, ◌≡◌, refl, sym, ◌∙◌, ap, subst, List, [], ◌∷◌, ◌++◌, append_assoc, append-nil, All,
  All-append, length, Option, none, some, ok, >>=-eq-ok, ◌⊎◌, inl, inr, ◌≢◌,
}
use libbitcoin.Format.{IsByte}
use libbitcoin.Script.{Operation, Script, empty_script, push_operation}
use libbitcoin.Script.Codec.{
  parse_operation, parse_loop, parse_script, operation_metadata, save_script,
}
use libbitcoin.Script.Codec.Save.{
  operation_bytes, operations_bytes, StartsCoded, save_script-operations_bytes,
}
use libbitcoin.Script.Codec.Back.{parses_back}

operation_bytes-IsByte :
    (op : Operation) (rest : List ℕ) → All IsByte (operation_bytes op rest) → All IsByte rest
unfolding operation_bytes
operation_bytes-IsByte op rest h =
    let meta = operation_metadata op.code (length op.bytes) in
    (All-append IsByte op.bytes rest (All-append IsByte meta (op.bytes ++ rest) h.1).1).1

-- A parse ends early with `script()`, or it has made operations whose bytes are those it was given.
abbrev Parsed : List ℕ → List Operation → Script → Type 0
Parsed it done s =
    (s ≡ empty_script)
    ⊎ ((ops : List Operation) × (s ≡ record { operations = done ++ ops })
        × (operations_bytes ops ≡ it))

parse_loop-none :
    (fuel b : ℕ) (it rest : List ℕ) (t : Script)
    → parse_operation b it ≡ ok (none, rest)
    → parse_loop (suc fuel) (b ∷ it) t ≡ ok empty_script
unfolding parse_loop
parse_loop-none fuel b it rest t p = rw p

parse_loop-some :
    (fuel b : ℕ) (it rest : List ℕ) (op : Operation) (t : Script)
    → parse_operation b it ≡ ok (some op, rest)
    → parse_loop (suc fuel) (b ∷ it) t ≡ parse_loop fuel rest (push_operation t op)
unfolding parse_loop
parse_loop-some fuel b it rest op t p = rw p

abbrev Round : ℕ → List ℕ → Type 0
Round b it =
    ((rest : List ℕ) × (parse_operation b it ≡ ok (none, rest)))
    ⊎ ((op : Operation) × (rest : List ℕ) × (parse_operation b it ≡ ok (some op, rest)))

retraced :
    (b : ℕ) (it : List ℕ) (r : Option Operation × List ℕ) → parse_operation b it ≡ ok r → Round b it
retraced b it (none, rest) p = inl (rest, p)
retraced b it (some op, rest) p = inr (op, rest, p)

retraced_first :
    (fuel b : ℕ) (it : List ℕ) (t s : Script) → parse_loop (suc fuel) (b ∷ it) t ≡ ok s → Round b it
unfolding parse_loop
retraced_first fuel b it t s e =
    let (r, p, _) = >>=-eq-ok (parse_operation b it) _ e in retraced b it r p

Parsed-cons :
    (b : ℕ) (it rest : List ℕ) (done : List Operation) (op : Operation) (s : Script)
    → b ∷ it ≡ operation_bytes op rest
    → Parsed rest (done ++ op ∷ []) s
    → Parsed (b ∷ it) done s
unfolding operations_bytes
Parsed-cons b it rest done op s back (inl same) = inl same
Parsed-cons b it rest done op s back (inr (ops, same, bytes)) = inr (
  op ∷ ops,
  same ∙ ap (λ l. record { operations = l }) (append_assoc done (op ∷ []) ops),
  ap (operation_bytes op) bytes ∙ sym back,
)

parse_loop-Parsed :
    (fuel : ℕ) (it : List ℕ) (done : List Operation) (s : Script)
    → All IsByte it
    → parse_loop fuel it (record { operations = done }) ≡ ok s
    → Parsed it done s
parse_loop-Parsed fuel [] done s bytes e =
    let t : Script = record { operations = done } in
    let same : t ≡ s = unfold parse_loop in cc in
    inr (
      [],
      sym same ∙ ap (λ l. record { operations = l }) (sym (append-nil done)),
      unfold operations_bytes in refl,
    )
parse_loop-Parsed zero (b ∷ it) done s bytes e = unfold parse_loop in cc
parse_loop-Parsed (suc fuel) (b ∷ it) done s bytes e =
    elim (retraced_first fuel b it (record { operations = done }) s e) [
      | inl (rest, p) ↦
          let ended = parse_loop-none fuel b it rest (record { operations = done }) p in inl (cc)
      | inr (op, rest, p) ↦
          let more = parse_loop-some fuel b it rest op (record { operations = done }) p in
          let back = parses_back b bytes.0 it op rest bytes.1 p in
          let kept = operation_bytes-IsByte op rest (subst (All IsByte) back bytes) in
          Parsed-cons b it rest done op s back (
            parse_loop-Parsed fuel rest (done ++ op ∷ []) s kept
              (unfold push_operation in sym more ∙ e))
    ]

-- A script that is parsed from bytes, each below 256, has operations and does not start with raw data
-- is saved as those bytes.
pub save_script-parse_script :
    (raw : List ℕ) (s : Script)
    → All IsByte raw
    → parse_script raw ≡ ok s
    → s.operations ≢ []
    → StartsCoded s.operations
    → save_script s ≡ raw
unfolding parse_script
save_script-parse_script raw s bytes e some_ops coded =
    elim (parse_loop-Parsed _ raw [] s bytes e) [
      | inl same ↦ absurd (some_ops (ap (λ (t : Script). t.operations) same))
      | inr (ops, same, back) ↦
          save_script-operations_bytes s coded
          ∙ ap (λ (t : Script). operations_bytes t.operations) same
          ∙ back
    ]

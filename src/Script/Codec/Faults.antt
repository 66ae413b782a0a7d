-- ===== src/Script/Codec/Faults.antt =====
-- How `parse_script` ends on bytes that are no saved script.
use libbitcoin.Prelude.{
  ℕ, zero, suc, ◌≤◌, List, [], ◌∷◌, ◌++◌, length, arith, Option, none, some, Result, ok, err,
  out_of_bounds, out_of_fuel, end_of_stream, assertion_failed, ◌>>=◌, ◌≢◌, Bool-cases, ◌==◌, inl,
  inr,
}
use libbitcoin.Script.{Operation, Script, empty_script, push_operation}
use libbitcoin.Script.Opcode.{Opcode}
use libbitcoin.Script.Codec.{
  read_back_from_iterator, read_count, number_of_bytes_from_opcode, read_push_data, pushed,
  parse_code, read_operation_data, parse_operation, parse_loop, parse_script,
}

-- A result that leaves at most n bytes, and never runs out of rounds.
abbrev Shrinks {ℓ} : {A : Type ℓ} → ℕ → Result (A × List ℕ) → Type 0
Shrinks n (ok (a, rest)) = length rest ≤ n
Shrinks n (err out_of_fuel) = ⊥
Shrinks n (err _) = Unit {0}

>>=-Shrinks {ℓ κ} :
    {A : Type ℓ} {B : Type κ} (n : ℕ) (m : Result (A × List ℕ))
    (f : A × List ℕ → Result (B × List ℕ))
    → Shrinks n m
    → ((a : A) (rest : List ℕ) → length rest ≤ n → Shrinks n (f (a, rest)))
    → Shrinks n (m >>= f)
>>=-Shrinks n (ok (a, rest)) f h k = k a rest h
>>=-Shrinks n (err end_of_stream) f h k = tt
>>=-Shrinks n (err out_of_bounds) f h k = tt
>>=-Shrinks n (err assertion_failed) f h k = tt
>>=-Shrinks n (err out_of_fuel) f h k = absurd h

read_back-Shrinks :
    (it : List ℕ) (w n : ℕ) → length it ≤ n → Shrinks n (read_back_from_iterator it w)
unfolding read_back_from_iterator
read_back-Shrinks it zero n h = h
read_back-Shrinks [] (suc w) n h = tt
read_back-Shrinks (b ∷ it) (suc w) n h =
    >>=-Shrinks n (read_back_from_iterator it w) (λ x. ok (b ∷ x.0, x.1))
      (read_back-Shrinks it w n (omega arith)) (λ a rest le. le)

read_count-Shrinks : (w n : ℕ) (it : List ℕ) → length it ≤ n → Shrinks n (read_count w it)
unfolding read_count
read_count-Shrinks w n it h =
    >>=-Shrinks n (read_back_from_iterator it w) _ (read_back-Shrinks it w n h) (λ a rest le. le)

number_of_bytes-Shrinks :
    (c : Opcode) (b n : ℕ) (it : List ℕ)
    → length it ≤ n
    → Shrinks n (number_of_bytes_from_opcode c b it)
unfolding number_of_bytes_from_opcode
number_of_bytes-Shrinks Opcode.pushdata1 b n it h = read_count-Shrinks 1 n it h
number_of_bytes-Shrinks Opcode.pushdata2 b n it h = read_count-Shrinks 2 n it h
number_of_bytes-Shrinks Opcode.pushdata4 b n it h = read_count-Shrinks 4 n it h
number_of_bytes-Shrinks _ b n it h = h

pushed-Shrinks :
    (c : Opcode) (it : List ℕ) (k n : ℕ) (acc : List ℕ)
    → length it ≤ n
    → Shrinks n (pushed c (read_push_data it k acc))
unfolding pushed read_push_data
pushed-Shrinks c it zero n acc h = h
pushed-Shrinks c [] (suc k) n acc h = omega arith
pushed-Shrinks c (b ∷ it) (suc k) n acc h = pushed-Shrinks c it k n (acc ++ b ∷ []) (omega arith)

read_operation_data-Shrinks :
    (c : Opcode) (count : Option ℕ) (n : ℕ) (it : List ℕ)
    → length it ≤ n
    → Shrinks n (read_operation_data c count it)
unfolding read_operation_data
read_operation_data-Shrinks c none n it h = h
read_operation_data-Shrinks c (some k) n it h = elim (Bool-cases (k == 0)) [
  | inl e ↦ rw e h
  | inr e ↦ rw e (pushed-Shrinks c it k n [] h)
]

parse_operation-Shrinks : (b : ℕ) (it : List ℕ) → Shrinks (length it) (parse_operation b it)
unfolding parse_operation
parse_operation-Shrinks b it =
    let c = parse_code b in
    >>=-Shrinks (length it) (number_of_bytes_from_opcode c b it)
      (λ x. read_operation_data c x.0 x.1)
      (number_of_bytes-Shrinks c b (length it) it (omega arith))
      (λ a rest le. read_operation_data-Shrinks c a (length it) rest le)

abbrev Ends {ℓ} : {A : Type ℓ} → Result A → Type 0
Ends (err out_of_fuel) = ⊥
Ends _ = Unit {0}

round-Ends :
    (r : Result (Option Operation × List ℕ)) (n : ℕ) (k : List ℕ → Operation → Result Script)
    → Shrinks n r
    → ((rest : List ℕ) (op : Operation) → length rest ≤ n → Ends (k rest op))
    → Ends (r >>= λ x. elim x.0 [ none ↦ ok empty_script | some o ↦ k x.1 o ])
round-Ends (ok (none, rest)) n k h ends = tt
round-Ends (ok (some op, rest)) n k h ends = ends rest op h
round-Ends (err end_of_stream) n k h ends = tt
round-Ends (err out_of_bounds) n k h ends = tt
round-Ends (err assertion_failed) n k h ends = tt
round-Ends (err out_of_fuel) n k h ends = absurd h

parse_loop-Ends :
    (fuel : ℕ) (it : List ℕ) (t : Script) → length it ≤ fuel → Ends (parse_loop fuel it t)
unfolding parse_loop
parse_loop-Ends fuel [] t h = tt
parse_loop-Ends zero (b ∷ it) t h = absurd (omega arith)
parse_loop-Ends (suc fuel) (b ∷ it) t h =
    round-Ends (parse_operation b it) (length it)
      (λ rest op. parse_loop fuel rest (push_operation t op)) (parse_operation-Shrinks b it)
      (λ rest op le. parse_loop-Ends fuel rest (push_operation t op) (omega arith))

without_fuel_error : (r : Result Script) → Ends r → r ≢ err out_of_fuel
without_fuel_error (ok s) h = λ e. cc
without_fuel_error (err end_of_stream) h = λ e. cc
without_fuel_error (err out_of_bounds) h = λ e. cc
without_fuel_error (err assertion_failed) h = λ e. cc
without_fuel_error (err out_of_fuel) h = absurd h

-- `parse_script` ends on all bytes: its loop takes no more rounds than there are bytes.
pub parse_script-ends : (raw : List ℕ) → parse_script raw ≢ err out_of_fuel
unfolding parse_script
parse_script-ends raw =
    without_fuel_error _ (parse_loop-Ends (length raw) raw empty_script (omega arith))

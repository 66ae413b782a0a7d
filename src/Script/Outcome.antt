-- ===== src/Script/Outcome.antt =====
-- The result of running a part of a script.
use libbitcoin.Prelude.{◌≡◌, refl, Bool, true, false, Result, ok, err}

-- `pass` is the result true with what the part leaves, `fail` the result false, after which no code
-- reads the state. `fault` is what C++ leaves undefined, a read of an empty vector, or an assertion
-- that does not hold.
pub data Outcome {ℓ} (A : Type ℓ) : Type ℓ where
  pass : A → Outcome A
  fail fault : Outcome A

infixl 5 ◌>>=◌
abbrev pub ◌>>=◌ {ℓ κ} : {A : Type ℓ} {B : Type κ} → Outcome A → (A → Outcome B) → Outcome B
pass a >>= f = f a
fail >>= f = fail
fault >>= f = fault

abbrev pub require {ℓ} : {A : Type ℓ} → Bool → Outcome A → Outcome A
require true k = k
require false k = fail

-- An exception or a failed assertion of the code called.
abbrev pub trusted {ℓ} : {A : Type ℓ} → Result A → Outcome A
trusted (ok a) = pass a
trusted (err e) = fault

pub >>=-eq-pass {ℓ κ} :
    {A : Type ℓ} {B : Type κ} (m : Outcome A) (f : A → Outcome B) {b : B}
    → (m >>= f) ≡ pass b
    → (a : A) × (m ≡ pass a) × (f a ≡ pass b)
>>=-eq-pass (pass a) f h = (a, refl, h)
>>=-eq-pass fail f h = cc
>>=-eq-pass fault f h = cc

-- A bind or a test that passes, for a goal that needs what it leaves.
pub bind_elim {ℓ κ} :
    {A B : Type ℓ} {Goal : Type κ} (m : Outcome A) (next : A → Outcome B) {b : B}
    → (m >>= next) ≡ pass b
    → ((a : A) → m ≡ pass a → next a ≡ pass b → Goal)
    → Goal
bind_elim (pass a) next h use_parts = use_parts a refl h
bind_elim fail next h use_parts = cc
bind_elim fault next h use_parts = cc

pub require_elim {ℓ κ} :
    {A : Type ℓ} {Goal : Type κ} (test : Bool) (rest : Outcome A) {a : A}
    → require test rest ≡ pass a
    → (test ≡ true → rest ≡ pass a → Goal)
    → Goal
require_elim true rest h use_parts = use_parts refl h
require_elim false rest h use_parts = cc

-- ===== src/Validate/Verdict.antt =====
-- The std::error_code that the checks of src/validate.cpp return.
use libbitcoin.Prelude.{Bool, true, false, Result, ok, err, Option, none, some, ◌≡◌, refl}
use libbitcoin.Script.Outcome.{Outcome}
use libbitcoin.Validate.{ErrorCode}

-- `valid` is the empty code with what the check leaves, `invalid` an error, and `broken` what C++ leaves
-- undefined, an assertion that does not hold, or an exception.
pub data Verdict {ℓ} (A : Type ℓ) : Type ℓ where
  valid : A → Verdict A
  invalid : ErrorCode → Verdict A
  broken : Verdict A

infixl 5 ◌>>=◌ ◌>>◌
abbrev pub ◌>>=◌ {ℓ κ} : {A : Type ℓ} {B : Type κ} → Verdict A → (A → Verdict B) → Verdict B
valid a >>= next = next a
invalid code >>= next = invalid code
broken >>= next = broken

abbrev pub ◌>>◌ {ℓ} : {A : Type ℓ} → Verdict (Unit {0}) → Verdict A → Verdict A
checked >> rest = checked >>= λ _. rest

-- `if (!test) return code;`.
abbrev pub demand : Bool → ErrorCode → Verdict (Unit {0})
demand true code = valid tt
demand false code = invalid code

-- `if (ec) return ec;`.
abbrev pub checked : Option ErrorCode → Verdict (Unit {0})
checked none = valid tt
checked (some code) = invalid code

-- A call that may throw or fail an assertion.
abbrev pub trusted {ℓ} : {A : Type ℓ} → Result A → Verdict A
trusted (ok a) = valid a
trusted (err e) = broken

-- A call whose result false is the error.
abbrev pub unless_fails {ℓ} : {A : Type ℓ} → Outcome A → ErrorCode → Verdict A
unless_fails (Outcome.pass a) code = valid a
unless_fails Outcome.fail code = invalid code
unless_fails Outcome.fault code = broken

-- A bind or a test that is valid, for a goal that needs what it leaves.
pub bind_elim {ℓ κ} :
    {A B : Type ℓ} {Goal : Type κ} (m : Verdict A) (next : A → Verdict B) {b : B}
    → (m >>= next) ≡ valid b
    → ((a : A) → m ≡ valid a → next a ≡ valid b → Goal)
    → Goal
bind_elim (valid a) next h use_parts = use_parts a refl h
bind_elim (invalid code) next h use_parts = cc
bind_elim broken next h use_parts = cc

pub demand_elim {ℓ κ} :
    {B : Type ℓ} {Goal : Type κ} (test : Bool) (code : ErrorCode) (rest : Verdict B) {b : B}
    → (demand test code >> rest) ≡ valid b
    → (test ≡ true → rest ≡ valid b → Goal)
    → Goal
demand_elim true code rest h use_parts = use_parts refl h
demand_elim false code rest h use_parts = cc

pub demand-eq-valid : (test : Bool) (code : ErrorCode) → demand test code ≡ valid tt → test ≡ true
demand-eq-valid true code h = refl
demand-eq-valid false code h = cc

pub checked-eq-valid : (ec : Option ErrorCode) → checked ec ≡ valid tt → ec ≡ none
checked-eq-valid none h = refl
checked-eq-valid (some code) h = cc

pub trusted-eq-valid {ℓ} :
    {A : Type ℓ} (result : Result A) {a : A} → trusted result ≡ valid a → result ≡ ok a
trusted-eq-valid (ok a) h = cc
trusted-eq-valid (err e) h = cc

pub unless_fails-eq-valid {ℓ} :
    {A : Type ℓ} (outcome : Outcome A) (code : ErrorCode) {a : A}
    → unless_fails outcome code ≡ valid a
    → outcome ≡ Outcome.pass a
unless_fails-eq-valid (Outcome.pass a) code h = cc
unless_fails-eq-valid Outcome.fail code h = cc
unless_fails-eq-valid Outcome.fault code h = cc

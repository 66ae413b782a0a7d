-- ===== src/Prelude/Results.antt =====
-- Results of code that may throw, fail an assertion or run into undefined behaviour.
use mathlib.Core.Path.{◌≡◌, refl}
use mathlib.Core.Bool.{Bool, true, false}

-- `end_of_stream` is the exception of serializer.hpp, `assertion_failed` a BITCOIN_ASSERT that
-- does not hold, and `out_of_bounds` a read past the end of a container, which C++ leaves
-- undefined. `out_of_fuel` is no outcome of the code: a loop of the model ran out of rounds.
pub data Error : Type 0 where
  end_of_stream out_of_bounds assertion_failed out_of_fuel : Error

pub data Result {ℓ} (A : Type ℓ) : Type ℓ where
  err : Error → Result A
  ok : A → Result A

-- BITCOIN_ASSERT.
abbrev pub assert : Bool → Result (Unit {0})
assert false = err assertion_failed
assert true = ok tt

infixl 5 ◌>>=◌ ◌>>◌
abbrev pub ◌>>=◌ {ℓ κ} : {A : Type ℓ} {B : Type κ} → Result A → (A → Result B) → Result B
err e >>= next = err e
ok value >>= next = next value

abbrev pub ◌>>◌ {ℓ} : {A : Type ℓ} → Result (Unit {0}) → Result A → Result A
checked >> rest = checked >>= λ _. rest

pub >>=-eq-ok {ℓ κ} :
    {A : Type ℓ} {B : Type κ} (result : Result A) (next : A → Result B) {b : B}
    → (result >>= next) ≡ ok b
    → (a : A) × (result ≡ ok a) × (next a ≡ ok b)
>>=-eq-ok (ok a) next h = (a, refl, h)
>>=-eq-ok (err e) next h = cc

pub ok-eq {ℓ} : {A : Type ℓ} {a b : A} → ◌≡◌ {A = Result A} (ok a) (ok b) → a ≡ b
ok-eq e = cc

-- ===== src/Prelude/Tests.antt =====
-- Boolean tests on the native numbers and on lists of them.
use Prim.Native.Nat.{ℕ, ◌≤◌, ◌<◌, compare, Ordering}
use mathlib.Core.Path.{◌≡◌, refl}
use mathlib.Core.Logic.{◌⊎◌, inl, inr}
use mathlib.Core.Bool.{Bool, true, false, ◌&&◌}
use mathlib.Core.List.{List, [], ◌∷◌}
use native.Mathlib.Omega.{arith}

abbrev pub ltb : ℕ → ℕ → Bool
ltb a b = elim (compare a b) [ Ordering.lt ↦ true | _ ↦ false ]

abbrev pub leb : ℕ → ℕ → Bool
leb a b = elim (compare a b) [ Ordering.gt ↦ false | _ ↦ true ]

infix 50 ◌==◌
abbrev pub ◌==◌ : ℕ → ℕ → Bool
a == b = elim (compare a b) [ Ordering.eq ↦ true | _ ↦ false ]

infix 1 if◌then◌else◌
abbrev pub if◌then◌else◌ {ℓ} : {A : Type ℓ} → Bool → A → A → A
if true then x else y = x
if false then x else y = y

pub ltb→lt : (a b : ℕ) → ltb a b ≡ true → a < b
ltb→lt a b h = ground arith

pub lt→ltb : (a b : ℕ) → a < b → ltb a b ≡ true
lt→ltb a b h = ground arith

pub leb→le : (a b : ℕ) → leb a b ≡ true → a ≤ b
leb→le a b h = ground arith

pub le→leb : (a b : ℕ) → a ≤ b → leb a b ≡ true
le→leb a b h = ground arith

pub Bool-cases : (b : Bool) → (b ≡ true) ⊎ (b ≡ false)
Bool-cases true = inl refl
Bool-cases false = inr refl

pub ==-refl : (n : ℕ) → (n == n) ≡ true
==-refl n = ground arith

-- `operator==` of a vector or an array of bytes.
unfoldable pub chunk_eq : List ℕ → List ℕ → Bool
chunk_eq [] [] = true
chunk_eq [] (y ∷ ys) = false
chunk_eq (x ∷ xs) [] = false
chunk_eq (x ∷ xs) (y ∷ ys) = x == y && chunk_eq xs ys

pub chunk_eq_refl : (xs : List ℕ) → chunk_eq xs xs ≡ true
unfolding chunk_eq
chunk_eq_refl [] = refl
chunk_eq_refl (x ∷ xs) = ground (arith, chunk_eq_refl xs)

pub chunk_eq→eq : (xs ys : List ℕ) → chunk_eq xs ys ≡ true → xs ≡ ys
unfolding chunk_eq
chunk_eq→eq [] [] h = refl
chunk_eq→eq [] (y ∷ ys) h = ground arith
chunk_eq→eq (x ∷ xs) [] h = ground arith
chunk_eq→eq (x ∷ xs) (y ∷ ys) h = ground (arith, chunk_eq→eq xs ys)

-- ===== src/Script/Values.antt =====
-- Stack items as truth values and numbers, and the conditional stack. The head of a list is the back
-- of the vector.
use libbitcoin.Prelude.{
  ℕ, Bool, true, false, not, List, [], ◌∷◌, length, ltb, ◌==◌, if◌then◌else◌, Option, none, some,
}
use libbitcoin.Openssl.{Openssl}
use libbitcoin.BigNumber.{set_data, data_of}
use libbitcoin.Script.Outcome.{Outcome, pass, fault}

abbrev pub DataStack : Type 0
DataStack = List (List ℕ)

abbrev pub stack_true_value : List ℕ
stack_true_value = 1 ∷ []

abbrev pub stack_false_value : List ℕ
stack_false_value = []

-- The last byte is reached with no byte before it set; 0x80 there is the negative zero.
unfoldable pub cast_to_bool : List ℕ → Bool
cast_to_bool [] = false
cast_to_bool (v ∷ []) = if v == 0 then false else if v == 0x80 then false else true
cast_to_bool (v ∷ w ∷ values) = if v == 0 then cast_to_bool (w ∷ values) else true

module _ (o : Openssl) where
  -- `none` is the result false.
  unfoldable pub cast_to_big_number : List ℕ → Option o.Bignum
  cast_to_big_number raw_number =
      if ltb 4 (length raw_number)
      then none
      else some (set_data o (data_of o (set_data o raw_number)))

unfoldable pub has_failed_branches : List Bool → Bool
has_failed_branches [] = false
has_failed_branches (false ∷ values) = true
has_failed_branches (true ∷ values) = has_failed_branches values

unfoldable pub closed : List Bool → Bool
closed [] = true
closed (value ∷ values) = false

-- `else_` of the conditional stack, whose back is read.
unfoldable pub invert_top : List Bool → Outcome (List Bool)
invert_top [] = fault
invert_top (value ∷ values) = pass (not value ∷ values)

unfoldable pub close_top : List Bool → Outcome (List Bool)
close_top [] = fault
close_top (value ∷ values) = pass values

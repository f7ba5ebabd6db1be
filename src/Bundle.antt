-- ===== src/Bundle.antt =====
-- The checks of a model bundle: research/cpu-limits/phase8/model/bundle.py. Bundle/Sections has the
-- checks of each section, Bundle/Rows those of the response, Bundle/Validate the whole.
-- The messages are constructors with the name of the field that they show.
pub mod Sections
pub mod Rows
pub mod Validate
use k8labs.Base.{
  ℕ, zero, suc, ◌+◌, String, Bool, true, false, not, ◌&&◌, ◌||◌, Option, none, some, List, [], ◌∷◌,
}
use k8labs.Base.{ℤ, pos, negsuc, leb, ◌==◌, comparable_text, if◌then◌else◌, contains}
use k8labs.Base.{Floats, Value, Fields, keys, get, as_text, as_mapping, as_sequence}
use k8labs.Base.{Result, ok, raise, ◌>>=◌, ◌>>◌, require, refuse, demand}

pub data BundleError : Type 0 where
  missing : List String → BundleError
  unsupported_fields : String → List String → BundleError
  unsupported not_an_object required not_a_number not_finite invalid out_of_range repeated :
      String → BundleError
  model_hash : BundleError
  -- An error of the row of this index.
  row_error : ℕ → BundleError → BundleError

-- `isinstance(value, str) and value`: a text that is not empty.
abbrev pub named : Option String → Option String
named none = none
named (some s) = if s == "" then none else some s

-- The keys outside `allowed`; the code also sorts them.
abbrev pub outside : List String → List String → List String
outside allowed [] = []
outside allowed (k ∷ r) =
    let rest = outside allowed r in if contains allowed k then rest else k ∷ rest

abbrev pub nothing_outside : List String → Bool
nothing_outside [] = true
nothing_outside (k ∷ r) = false

abbrev pub le_int : ℤ → ℤ → Bool
le_int (pos a) (pos b) = leb a b
le_int (pos a) (negsuc b) = false
le_int (negsuc a) (pos b) = true
le_int (negsuc a) (negsuc b) = leb b a

module _ {F : Type 0} where
  -- `_require_mapping`
  abbrev pub require_mapping : Fields F → String → Result BundleError (Fields F)
  require_mapping document field = demand (as_mapping (get field document)) (not_an_object field)

  -- `_reject_unknown`
  abbrev pub reject_unknown : Fields F → List String → String → Result BundleError (Unit {0})
  reject_unknown fields allowed field =
      let unknown = outside allowed (keys fields) in
      require (nothing_outside unknown) (unsupported_fields field unknown)

  -- `for field in fields: if field not in document: raise`
  unfoldable pub check_present : Fields F → List String → Result BundleError (Unit {0})
  check_present document [] = ok tt
  check_present document (field ∷ more) = do
    found ← demand (get field document) (required field)
    check_present document more

  -- `for field in fields:` the value is a text that is not empty.
  unfoldable pub check_named : Fields F → List String → Result BundleError (Unit {0})
  check_named document [] = ok tt
  check_named document (field ∷ more) = do
    s ← demand (named (as_text (get field document))) (required field)
    check_named document more

  -- An integer that is not negative, and no boolean.
  abbrev pub as_count : Option (Value F) → Option ℕ
  as_count (some (Value.int (pos n))) = some n
  as_count _ = none

  -- `isinstance(value, int) and value >= 1`; True is the integer 1.
  abbrev pub as_positive : Option (Value F) → Option ℕ
  as_positive (some (Value.int (pos (suc n)))) = some (suc n)
  as_positive (some (Value.boolean true)) = some 1
  as_positive _ = none

module _ (R : Floats) where
  -- `float(n)`
  abbrev pub of_int : ℤ → R.Float
  of_int (pos n) = R.of_nat n
  of_int (negsuc n) = R.sub (R.of_nat 0) (R.of_nat (suc n))

  -- A number of either type, and no boolean.
  pub data Number : Type 0 where
    whole : ℤ → Number
    real : R.Float → Number

  abbrev pub as_number : Option (Value (R.Float)) → Option Number
  as_number (some (Value.int n)) = some (whole n)
  as_number (some (Value.float x)) = some (real x)
  as_number _ = none

  abbrev pub to_float : Number → R.Float
  to_float (whole n) = of_int n
  to_float (real x) = x

  -- `a <= b`. An integer is compared with a float by its own float.
  abbrev pub le_number : Number → Number → Bool
  le_number (whole a) (whole b) = le_int a b
  le_number a b = R.le (to_float a) (to_float b)

  -- `0 <= a <= 1`
  abbrev pub is_ratio : Number → Bool
  is_ratio a = le_number (whole (pos 0)) a && le_number a (whole (pos 1))

  -- `_finite_number`, which returns the number that it has tested.
  unfoldable pub finite_number : Option (Value (R.Float)) → String → Result BundleError Number
  finite_number value field = do
    number ← demand (as_number value) (not_a_number field)
    require (R.is_finite (to_float number)) (not_finite field)
    ok number

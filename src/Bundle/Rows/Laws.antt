-- ===== src/Bundle/Rows/Laws.antt =====
-- What the checks of a row of the response accept.
use k8labs.Base.{ℕ, ◌+◌, String, true, Option, some, List, [], ◌∷◌, ◌≡◌, arith, All}
use k8labs.Base.{demand, require, demand-eq-ok, require-eq-ok, >>=-eq-ok}
use k8labs.Base.{>>-eq-ok, Result, ok, raise, Floats, Value, Fields, get, as_mapping}
use k8labs.Base.{comparable_text, ap, ◌∙◌}
use mathlib.Core.Path.{subst}
use k8labs.Bundle.{BundleError, reject_unknown, check_present, as_positive, Number, as_number}
use k8labs.Bundle.{to_float, is_ratio, finite_number}
use k8labs.Bundle.Rows.{check_rows, check_row, at_row, check_finite, check_ratios, check_positive}
use k8labs.Bundle.Rows.{check_conditions, measured_fields, row_fields, is_boolean, is_dependency}

module _ (R : Floats) where
  -- The field holds a finite number.
  abbrev pub Finite : Fields (R.Float) → String → Type 0
  Finite row field =
      (x : Number R) × (as_number R (get field row) ≡ some x) × (R.is_finite (to_float R x) ≡ true)

  -- The field holds a finite number from 0 to 1.
  abbrev pub Ratio : Fields (R.Float) → String → Type 0
  Ratio row field =
      (x : Number R) × (as_number R (get field row) ≡ some x)
      × (R.is_finite (to_float R x) ≡ true)
      × (is_ratio R x ≡ true)

  -- The field holds an integer of 1 or more.
  abbrev pub Positive : Fields (R.Float) → String → Type 0
  Positive row field = (n : ℕ) × (as_positive (get field row) ≡ some n)

  pub record IsRow (v : Value (R.Float)) : Type 0 where
    pub row : Fields (R.Float)
    pub row_is : as_mapping (some v) ≡ some row
    pub samples : Positive row "samples"
    pub valid : is_boolean (get "valid" row) ≡ true
    pub dependency : is_dependency (get "dependency_bound" row) ≡ true
    pub measured : All (Finite row) measured_fields
    pub positive :
        All (Positive row) ("cpu_limit_millicores" ∷ "cpu_request_millicores" ∷ "replicas" ∷ [])
    pub ratios : All (Ratio row) ("error_ratio" ∷ "availability_ratio" ∷ [])

  finite_number-eq-ok :
      (v : Option (Value (R.Float))) (field : String) {x : Number R}
      → finite_number R v field ≡ ok x
      → (as_number R v ≡ some x) × (R.is_finite (to_float R x) ≡ true)
  unfolding finite_number
  finite_number-eq-ok v field {x} h =
      let (y, found, h1) = >>=-eq-ok (demand (as_number R v) _) _ h in
      let (finite, h2) = >>-eq-ok (require (R.is_finite (to_float R y)) _) _ h1 in
      let e : y ≡ x = ground (arith, h2) in
      subst (λ z. (as_number R v ≡ some z) × (R.is_finite (to_float R z) ≡ true)) e
        (demand-eq-ok _ _ found, require-eq-ok _ _ finite)

  check_finite-Finite :
      (row : Fields (R.Float)) (fields : List String)
      → check_finite R row fields ≡ ok tt
      → All (Finite row) fields
  unfolding check_finite
  check_finite-Finite row [] h = tt
  check_finite-Finite row (field ∷ more) h =
      let (v, found, h1) = >>=-eq-ok (demand (get field row) _) _ h in
      let (x, finite, h2) = >>=-eq-ok (finite_number R (some v) field) _ h1 in
      let (number, is_finite) = finite_number-eq-ok (some v) field finite in
      (
        (x, ap (as_number R) (demand-eq-ok _ _ found) ∙ number, is_finite),
        check_finite-Finite row more h2,
      )

  check_ratios-Ratio :
      (row : Fields (R.Float)) (fields : List String)
      → check_ratios R row fields ≡ ok tt
      → All (Ratio row) fields
  unfolding check_ratios
  check_ratios-Ratio row [] h = tt
  check_ratios-Ratio row (field ∷ more) h =
      let (x, finite, h1) = >>=-eq-ok (finite_number R (get field row) field) _ h in
      let (within, h2) = >>-eq-ok (require (is_ratio R x) _) _ h1 in
      let (number, is_finite) = finite_number-eq-ok (get field row) field finite in
      ((x, number, is_finite, require-eq-ok _ _ within), check_ratios-Ratio row more h2)

  check_positive-Positive :
      (row : Fields (R.Float)) (fields : List String)
      → check_positive row fields ≡ ok tt
      → All (Positive row) fields
  unfolding check_positive
  check_positive-Positive row [] h = tt
  check_positive-Positive row (field ∷ more) h =
      let (n, found, h1) = >>=-eq-ok (demand (as_positive (get field row)) _) _ h in
      ((n, demand-eq-ok _ _ found), check_positive-Positive row more h1)

  at_row-eq-ok : (i : ℕ) (m : Result BundleError (Unit {0})) → at_row R i m ≡ ok tt → m ≡ ok tt
  at_row-eq-ok i (raise failed) h = absurd (cc)
  at_row-eq-ok i (ok value) h = cc

  check_row-IsRow :
      (v : Value (R.Float)) (row : Fields (R.Float))
      → as_mapping (some v) ≡ some row
      → check_row R row ≡ ok tt
      → IsRow v
  unfolding check_row
  check_row-IsRow v row is_map h =
      let (_, h1) = >>-eq-ok (reject_unknown row row_fields "response") _ h in
      let (_, h2) = >>-eq-ok (check_present row ("conditions" ∷ "samples" ∷ "valid" ∷ [])) _ h1 in
      let (n, samples, h3) = >>=-eq-ok (demand (as_positive (get "samples" row)) _) _ h2 in
      let (valid, h4) = >>-eq-ok (require (is_boolean (get "valid" row)) _) _ h3 in
      let (bound, h5) = >>-eq-ok (require (is_dependency (get "dependency_bound" row)) _) _ h4 in
      let (_, h6) = >>-eq-ok (check_conditions (as_mapping (get "conditions" row))) _ h5 in
      let (finite, h7) = >>-eq-ok (check_finite R row measured_fields) _ h6 in
      let (positive, h8) =
        >>-eq-ok
          (check_positive row ("cpu_limit_millicores" ∷ "cpu_request_millicores" ∷ "replicas" ∷ []))
          _ h7 in
      record {
        row = row;
        row_is = is_map;
        samples = (n, demand-eq-ok _ _ samples);
        valid = require-eq-ok _ _ valid;
        dependency = require-eq-ok _ _ bound;
        measured = check_finite-Finite row measured_fields finite;
        positive = check_positive-Positive row _ positive;
        ratios = check_ratios-Ratio row _ h8;
      }

  pub check_rows-IsRow :
      (i : ℕ) (rows : List (Value (R.Float))) → check_rows R i rows ≡ ok tt → All IsRow rows
  unfolding check_rows
  check_rows-IsRow i [] h = tt
  check_rows-IsRow i (v ∷ more) h =
      let (row, is_map, h1) = >>=-eq-ok (demand (as_mapping (some v)) _) _ h in
      let (checked, h2) = >>-eq-ok (at_row R i (check_row R row)) _ h1 in
      (
        check_row-IsRow v row (demand-eq-ok _ _ is_map) (at_row-eq-ok i (check_row R row) checked),
        check_rows-IsRow (i + 1) more h2,
      )

-- ===== src/Bundle/Rows.antt =====
-- The rows of a bundle's response, as `validate_bundle` checks each.
pub mod Laws
use k8labs.Base.{
  ℕ, zero, suc, ◌+◌, String, Bool, true, false, not, ◌&&◌, ◌||◌, Option, none, some, List, [], ◌∷◌,
}
use k8labs.Base.{contains, comparable_text, Floats, Value, Fields, get, as_text, as_mapping}
use k8labs.Base.{Result, ok, raise, ◌>>=◌, ◌>>◌, require, demand}
use k8labs.Bundle.{
  BundleError, required, invalid, out_of_range, not_an_object, row_error, require_mapping,
  reject_unknown, check_present, check_named, as_positive, finite_number, is_ratio,
}

abbrev pub row_fields : List String
row_fields =
    "conditions" ∷ "cpu_limit_millicores" ∷ "cpu_request_millicores" ∷ "replicas"
    ∷ "request_rate_per_second" ∷ "contention" ∷ "p50_latency_ms" ∷ "p99_latency_ms"
    ∷ "p99_upper_ms" ∷ "throughput_rps" ∷ "error_ratio" ∷ "availability_ratio"
    ∷ "cpu_usage_millicores" ∷ "throttle_ratio" ∷ "throttled_ms_per_second" ∷ "dependency_bound"
    ∷ "samples" ∷ "valid" ∷ "invalid_reason" ∷ []

-- The fields of a row that are finite numbers.
abbrev pub measured_fields : List String
measured_fields =
    "cpu_limit_millicores" ∷ "cpu_request_millicores" ∷ "replicas" ∷ "request_rate_per_second"
    ∷ "p99_latency_ms" ∷ "p99_upper_ms" ∷ "throughput_rps" ∷ "error_ratio" ∷ "availability_ratio"
    ∷ []

module _ {F : Type 0} where
  abbrev pub is_boolean : Option (Value F) → Bool
  is_boolean (some (Value.boolean b)) = true
  is_boolean _ = false

  -- `row.get("dependency_bound", "no") in {...}`
  abbrev pub is_dependency : Option (Value F) → Bool
  is_dependency none = true
  is_dependency (some (Value.text s)) =
      contains ("no" ∷ "postgres" ∷ "redis" ∷ "load_generator" ∷ "unknown" ∷ []) s
  is_dependency (some _) = false

  unfoldable pub check_conditions : Option (Fields F) → Result BundleError (Unit {0})
  check_conditions found = do
    conditions ← demand found (not_an_object "conditions")
    reject_unknown conditions
        ("mix" ∷ "postgres_capacity" ∷ "redis_capacity" ∷ "node_capacity_millicores" ∷ [])
        "conditions"
    check_named conditions ("mix" ∷ "postgres_capacity" ∷ "redis_capacity" ∷ [])
    capacity ←
        demand (as_positive (get "node_capacity_millicores" conditions))
          (invalid "conditions.node_capacity_millicores")
    ok tt

  -- Each of the fields is an integer of 1 or more.
  unfoldable pub check_positive : Fields F → List String → Result BundleError (Unit {0})
  check_positive row [] = ok tt
  check_positive row (field ∷ more) = do
    n ← demand (as_positive (get field row)) (invalid field)
    check_positive row more

module _ (R : Floats) where
  -- The loop over the measured fields: each is present, and a finite number.
  unfoldable pub check_finite : Fields (R.Float) → List String → Result BundleError (Unit {0})
  check_finite row [] = ok tt
  check_finite row (field ∷ more) = do
    found ← demand (get field row) (required field)
    number ← finite_number R (some found) field
    check_finite row more

  -- `if not 0 <= row[field] <= 1`, over the fields; each is a number by now.
  unfoldable pub check_ratios : Fields (R.Float) → List String → Result BundleError (Unit {0})
  check_ratios row [] = ok tt
  check_ratios row (field ∷ more) = do
    number ← finite_number R (get field row) field
    require (is_ratio R number) (out_of_range field)
    check_ratios row more

  unfoldable pub check_row : Fields (R.Float) → Result BundleError (Unit {0})
  check_row row = do
    reject_unknown row row_fields "response"
    check_present row ("conditions" ∷ "samples" ∷ "valid" ∷ [])
    samples ← demand (as_positive (get "samples" row)) (invalid "samples")
    require (is_boolean (get "valid" row)) (invalid "valid")
    require (is_dependency (get "dependency_bound" row)) (invalid "dependency_bound")
    check_conditions (as_mapping (get "conditions" row))
    check_finite row measured_fields
    check_positive row ("cpu_limit_millicores" ∷ "cpu_request_millicores" ∷ "replicas" ∷ [])
    check_ratios row ("error_ratio" ∷ "availability_ratio" ∷ [])

  -- An error of a row, with the index that the message shows.
  abbrev pub at_row : ℕ → Result BundleError (Unit {0}) → Result BundleError (Unit {0})
  at_row i (raise failed) = raise (row_error i failed)
  at_row i (ok value) = ok value

  unfoldable pub check_rows : ℕ → List (Value (R.Float)) → Result BundleError (Unit {0})
  check_rows i [] = ok tt
  check_rows i (value ∷ more) = do
    row ← demand (as_mapping (some value)) (row_error i (not_an_object "response"))
    at_row i (check_row row)
    check_rows (i + 1) more

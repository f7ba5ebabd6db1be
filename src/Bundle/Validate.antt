-- ===== src/Bundle/Validate.antt =====
-- `validate_bundle`: the sections with numbers, and the whole.
pub mod Laws
use k8labs.Base.{ℕ, String, Bool, true, false, not, ◌&&◌, ◌||◌, Option, none, some, List, [], ◌∷◌}
use k8labs.Base.{pos, leb, ltb, ◌==◌, comparable_text, length, codes, keys}
use k8labs.Base.{Floats, Value, Fields, get, as_text, as_sequence, equals_text}
use k8labs.Base.{Result, ok, raise, ◌>>=◌, ◌>>◌, require, refuse, demand}
use k8labs.Bundle.{
  BundleError, missing, model_hash, invalid, unsupported, out_of_range, required, named,
  nothing_outside, require_mapping, reject_unknown, as_positive, whole, to_float, le_number,
  is_ratio, finite_number, outside,
}
use k8labs.Bundle.Sections.{
  required_fields, non_empty, check_provenance, check_workload, check_telemetry, check_levels,
}
use k8labs.Bundle.Rows.{check_rows}

module _ (R : Floats) where
  -- The loop over the factors that are ranges.
  unfoldable pub check_ranges : Fields (R.Float) → List String → Result BundleError (Unit {0})
  check_ranges factors [] = ok tt
  check_ranges factors (field ∷ more) = do
    range ← require_mapping factors field
    reject_unknown range ("min" ∷ "max" ∷ []) field
    low ← finite_number R (get "min" range) field
    high ← finite_number R (get "max" range) field
    require (le_number R low high) (out_of_range field)
    check_ranges factors more

  unfoldable pub check_factors : Fields (R.Float) → Result BundleError (Unit {0})
  check_factors document = do
    factors ← require_mapping document "factors"
    reject_unknown factors
        ("cpu_limit_millicores" ∷ "replicas" ∷ "request_rate_per_second" ∷ "mix" ∷ "contention"
          ∷ "cpu_request_millicores" ∷ "node_capacity_millicores" ∷ "postgres_capacity"
          ∷ "redis_capacity" ∷ [])
        "factors"
    check_ranges factors (
        "cpu_limit_millicores" ∷ "replicas" ∷ "request_rate_per_second" ∷ "cpu_request_millicores"
        ∷ "node_capacity_millicores" ∷ [])
    check_levels factors ("mix" ∷ "contention" ∷ [])

  unfoldable pub check_objectives : Fields (R.Float) → Result BundleError (Unit {0})
  check_objectives document = do
    slo ← require_mapping document "slo"
    reject_unknown slo
        ("max_p99_latency_ms" ∷ "min_throughput_rps" ∷ "max_error_ratio" ∷ "min_availability_ratio"
          ∷ [])
        "slo"
    latency ← finite_number R (get "max_p99_latency_ms" slo) "slo.max_p99_latency_ms"
    throughput ← finite_number R (get "min_throughput_rps" slo) "slo.min_throughput_rps"
    errors ← finite_number R (get "max_error_ratio" slo) "slo.max_error_ratio"
    availability ← finite_number R (get "min_availability_ratio" slo) "slo.min_availability_ratio"
    refuse (le_number R latency (whole (pos 0))) (out_of_range "slo")
    require (le_number R (whole (pos 0)) throughput) (out_of_range "slo")
    require (is_ratio R errors && is_ratio R availability) (out_of_range "slo")

  unfoldable pub check_policy : Fields (R.Float) → Result BundleError (Unit {0})
  check_policy document = do
    policy ← require_mapping document "policy_defaults"
    reject_unknown policy
        ("confidence_level" ∷ "latency_margin_ratio" ∷ "headroom_ratio" ∷ "min_replicas"
          ∷ "max_replicas" ∷ [])
        "policy_defaults"
    confidence ← finite_number R (get "confidence_level" policy) "policy_defaults.confidence_level"
    let level = to_float R confidence
    require (R.lt (R.decimal 5 1) level && R.le level (R.decimal 999 3))
        (out_of_range "policy_defaults.confidence_level")
    margin ← finite_number R (get "latency_margin_ratio" policy) "latency_margin_ratio"
    require (is_ratio R margin) (out_of_range "policy_defaults.latency_margin_ratio")
    headroom ← finite_number R (get "headroom_ratio" policy) "headroom_ratio"
    require (is_ratio R headroom) (out_of_range "policy_defaults.headroom_ratio")
    fewest ← demand (as_positive (get "min_replicas" policy)) (invalid "policy replica bounds")
    most ← demand (as_positive (get "max_replicas" policy)) (invalid "policy replica bounds")
    require (leb fewest most) (invalid "policy replica bounds")

  -- `hash` is `_expected_hash`: the SHA-256 of the canonical JSON without the hash field.
  module _ (hash : Fields (R.Float) → String) where
    -- `verify_model_hash`
    abbrev pub verify_model_hash : Fields (R.Float) → Bool
    verify_model_hash document = equals_text (get "model_hash" document) (hash document)

    unfoldable pub check_identity : Fields (R.Float) → Result BundleError (Unit {0})
    check_identity document = do
      let absent = outside (keys document) required_fields
      require (nothing_outside absent) (missing absent)
      reject_unknown document required_fields "bundle"
      require (equals_text (get "schema_version" document) "cpu-limit-model/v1")
          (unsupported "schema_version")
      model_id ← demand (named (as_text (get "model_id" document))) (invalid "model_id")
      refuse (ltb 128 (length (codes model_id))) (invalid "model_id")
      require (verify_model_hash document) model_hash

    unfoldable pub validate_bundle : Fields (R.Float) → Result BundleError (Unit {0})
    validate_bundle document = do
      check_identity document
      check_provenance document
      check_workload document
      check_telemetry document
      check_factors document
      check_objectives document
      check_policy document
      rows ← demand (non_empty (as_sequence (get "response" document))) (required "response")
      check_rows R 0 rows

-- ===== src/Bundle/Sections.antt =====
-- The sections of a model bundle, as `validate_bundle` checks them one after the other.
pub mod Laws
use k8labs.Base.{
  ℕ, String, Bool, true, false, not, ◌&&◌, ◌||◌, Option, none, some, List, [], ◌∷◌, ◌++◌,
}
use k8labs.Base.{
  pos, leb, ltb, ◌==◌, comparable_nat, comparable_text, if◌then◌else◌, contains, length,
}
use k8labs.Base.{codes, Floats, Value, Fields, get, as_text, as_mapping, as_sequence, equals_text}
use k8labs.Base.{Result, ok, raise, ◌>>=◌, ◌>>◌, require, refuse, demand}
use k8labs.Bundle.{
  BundleError, required, invalid, repeated, unsupported, out_of_range, not_an_object, named,
  require_mapping, reject_unknown, check_present, check_named, as_count,
}

abbrev pub required_fields : List String
required_fields =
    "schema_version" ∷ "model_id" ∷ "model_hash" ∷ "created_at" ∷ "provenance" ∷ "workload"
    ∷ "telemetry" ∷ "factors" ∷ "slo" ∷ "policy_defaults" ∷ "response" ∷ "exclusions" ∷ []

abbrev pub provenance_fields : List String
provenance_fields =
    "generator" ∷ "campaign_id" ∷ "protocol_version" ∷ "git_revision" ∷ "trials_total"
    ∷ "trials_usable" ∷ "cluster_baseline" ∷ []

-- A list that is not empty.
abbrev pub non_empty {ℓ} : {A : Type ℓ} → Option (List A) → Option (List A)
non_empty (some (x ∷ xs)) = some (x ∷ xs)
non_empty _ = none

-- `text.split(".", 1)[0]`, over code points.
abbrev pub before_dot : List ℕ → List ℕ
before_dot [] = []
before_dot (c ∷ s) = let rest = before_dot s in if c == b'.' then [] else c ∷ rest

abbrev pub same_codes : List ℕ → List ℕ → Bool
same_codes [] [] = true
same_codes (c ∷ s) (d ∷ t) = c == d && same_codes s t
same_codes _ _ = false

abbrev pub is_signal : Option String → Bool
is_signal none = false
is_signal (some s) =
    let kind = before_dot (codes s) in
    same_codes kind (codes "request")
    || same_codes kind (codes "dependency")
    || same_codes kind (codes "resource")
    || same_codes kind (codes "hpa")

module _ {F : Type 0} where
  abbrev pub check_baseline : Option (Fields F) → Result BundleError (Unit {0})
  check_baseline none = raise (not_an_object "cluster_baseline")
  check_baseline (some baseline) = do
    reject_unknown baseline ("kubernetes_version" ∷ "container_runtime" ∷ [])
        "provenance.cluster_baseline"
    version ← demand (as_text (get "kubernetes_version" baseline)) (required "kubernetes_version")
    runtime ← demand (as_text (get "container_runtime" baseline)) (required "container_runtime")
    ok tt

  -- `if "cluster_baseline" in provenance`
  abbrev pub optional_baseline : Option (Value F) → Result BundleError (Unit {0})
  optional_baseline none = ok tt
  optional_baseline found = check_baseline (as_mapping found)

  unfoldable pub check_provenance : Fields F → Result BundleError (Unit {0})
  check_provenance document = do
    provenance ← require_mapping document "provenance"
    reject_unknown provenance provenance_fields "provenance"
    check_named provenance ("generator" ∷ "campaign_id" ∷ "protocol_version" ∷ [])
    total ← demand (as_count (get "trials_total" provenance)) (invalid "provenance.trials_total")
    usable ← demand (as_count (get "trials_usable" provenance)) (invalid "provenance.trials_usable")
    require (leb usable total) (out_of_range "provenance.trials_usable")
    optional_baseline (get "cluster_baseline" provenance)

  abbrev pub is_role : Option (Value F) → Bool
  is_role role = equals_text role "app" || equals_text role "sidecar"

  -- The loop over the containers, with the set `names`.
  unfoldable pub check_containers : List (Value F) → List String → Result BundleError (Unit {0})
  check_containers [] names = ok tt
  check_containers (value ∷ more) names = do
    container ← demand (as_mapping (some value)) (not_an_object "workload.containers")
    reject_unknown container ("name" ∷ "role" ∷ []) "workload.containers"
    name ← demand (named (as_text (get "name" container))) (required "workload.containers.name")
    require (is_role (get "role" container)) (invalid "workload.containers.role")
    refuse (contains names name) (repeated "workload.containers")
    check_containers more (names ++ (name ∷ []))

  unfoldable pub check_workload : Fields F → Result BundleError (Unit {0})
  check_workload document = do
    workload ← require_mapping document "workload"
    reject_unknown workload ("profile" ∷ "contract_version" ∷ "containers" ∷ []) "workload"
    check_present workload ("profile" ∷ "contract_version" ∷ "containers" ∷ [])
    require (equals_text (get "contract_version" workload) "db-cache-mixed/v1")
        (unsupported "workload.contract_version")
    containers ←
        demand (non_empty (as_sequence (get "containers" workload)))
          (required "workload.containers")
    check_containers containers []

  unfoldable pub check_signals : List (Value F) → Result BundleError (Unit {0})
  check_signals [] = ok tt
  check_signals (value ∷ more) = do
    require (is_signal (as_text (some value))) (invalid "telemetry.required_signals")
    check_signals more

  unfoldable pub check_telemetry : Fields F → Result BundleError (Unit {0})
  check_telemetry document = do
    telemetry ← require_mapping document "telemetry"
    reject_unknown telemetry ("contract_version" ∷ "required_signals" ∷ []) "telemetry"
    require (equals_text (get "contract_version" telemetry) "cpu-limit-telemetry/v1")
        (unsupported "telemetry.contract_version")
    signals ←
        demand (non_empty (as_sequence (get "required_signals" telemetry)))
          (required "telemetry.required_signals")
    check_signals signals

  -- `any(not isinstance(level, str) or not level for level in levels)`, negated.
  unfoldable pub all_named : List (Value F) → Bool
  all_named [] = true
  all_named (v ∷ more) = elim (named (as_text (some v))) [ none ↦ false | some s ↦ all_named more ]

  unfoldable pub check_levels : Fields F → List String → Result BundleError (Unit {0})
  check_levels factors [] = ok tt
  check_levels factors (field ∷ more) = do
    levels ← demand (non_empty (as_sequence (get field factors))) (invalid field)
    require (all_named levels) (invalid field)
    check_levels factors more

-- ===== src/Lock/Matrix.antt =====
-- `validate_upgrade_matrix` of scripts/lock.py: the stages of the Kubernetes upgrade.
pub mod Laws
use k8labs.Base.{
  ℕ, zero, suc, ◌+◌, ◌-◌, String, Bool, true, false, not, ◌&&◌, Option, none, some, List, [], ◌∷◌,
}
use k8labs.Base.{◌==◌, comparable_nat, comparable_text}
use k8labs.Base.{Value, Fields, get, as_text, as_mapping, as_sequence, equals_text}
use k8labs.Base.{Result, ok, raise, ◌>>=◌, ◌>>◌, require, demand}
use k8labs.Base.Dict
use k8labs.Base.Dict.{Dict}
use k8labs.Lock.References.{kubernetes_version}

-- `subscript` is the KeyError, TypeError or IndexError of a subscript that finds nothing of use.
pub data MatrixError : Type 0 where
  not_a_list not_each_minor last_stage bad_target subscript : MatrixError
  not_a_mapping minors_differ : ℕ → MatrixError
  bad_version : ℕ → String → MatrixError
  bad_reference : ℕ → String → MatrixError
  wrong_reference : ℕ → String → String → String → MatrixError

-- `KUBERNETES_VERSION.fullmatch`, if the value is a text: its minor version, and the text.
abbrev pub version_of : {F : Type 0} → Option (Value F) → Option (ℕ × String)
version_of (some (Value.text s)) = elim (kubernetes_version s) [
  | none ↦ none
  | some minor ↦ some (minor, s)
]
version_of _ = none

-- `artifacts.get(artifact_id) if isinstance(artifact_id, str) else None`
abbrev pub referenced : {F : Type 0} → Dict String (Fields F) → Option String → Option (Fields F)
referenced artifacts none = none
referenced artifacts (some id) = Dict.lookup id artifacts

-- `list(range(first, first + count))`
abbrev pub range : ℕ → ℕ → List ℕ
range first zero = []
range first (suc count) = first ∷ range (suc first) count

abbrev pub same_numbers : List ℕ → List ℕ → Bool
same_numbers [] [] = true
same_numbers (x ∷ xs) (y ∷ ys) = x == y && same_numbers xs ys
same_numbers _ _ = false

abbrev pub first_of : List ℕ → Option ℕ
first_of [] = none
first_of (x ∷ xs) = some x

abbrev pub last_of {ℓ} : {A : Type ℓ} → List A → Option A
last_of [] = none
last_of (x ∷ []) = some x
last_of (x ∷ y ∷ r) = last_of (y ∷ r)

module _ {F : Type 0} where
  -- `data["kubernetes"][key]`
  abbrev pub target : Option (Value F) → String → Option (Value F)
  target (some (Value.mapping kubernetes)) key = get key kubernetes
  target _ key = none

  -- `found == value`, where `found` is a text.
  abbrev pub same_text : Option (Value F) → Option String → Bool
  same_text found none = false
  same_text found (some s) = equals_text found s

  abbrev pub has_stages : Option (List (Value F)) → Bool
  has_stages none = false
  has_stages (some []) = false
  has_stages (some (x ∷ xs)) = true

module _ {F : Type 0} (artifacts : Dict String (Fields F)) where
  -- One reference of a stage, to an artifact of a component and a version.
  unfoldable pub check_reference :
      ℕ → Fields F → String → String → String → Result MatrixError (Unit {0})
  check_reference i stage field component version = do
    artifact ← demand (referenced artifacts (as_text (get field stage))) (bad_reference i field)
    require
        (equals_text (get "component" artifact) component
          && equals_text (get "version" artifact) version)
        (wrong_reference i field component version)

  -- The body of the loop over the stages: the minor version that it appends.
  unfoldable pub check_stage : ℕ → Fields F → Result MatrixError ℕ
  check_stage i stage = do
    kubernetes ← demand (version_of (get "kubernetes" stage)) (bad_version i "kubernetes")
    crio ← demand (version_of (get "cri_o" stage)) (bad_version i "cri_o")
    require (kubernetes.0 == crio.0) (minors_differ i)
    check_reference i stage "kubelet_artifact" "kubelet" kubernetes.1
    check_reference i stage "control_plane_artifact" "kubernetes-control-plane" kubernetes.1
    check_reference i stage "cri_o_artifact" "cri-o" crio.1
    ok kubernetes.0

  unfoldable pub check_stages : ℕ → List (Value F) → Result MatrixError (List ℕ)
  check_stages i [] = ok []
  check_stages i (value ∷ more) = do
    stage ← demand (as_mapping (some value)) (not_a_mapping i)
    minor ← check_stage i stage
    minors ← check_stages (i + 1) more
    ok (minor ∷ minors)

  -- `validate_upgrade_matrix`
  unfoldable pub validate_upgrade_matrix : Fields F → Result MatrixError (Unit {0})
  validate_upgrade_matrix lock = do
    let found = as_sequence (get "kubernetes_upgrade_matrix" lock)
    require (has_stages found) not_a_list
    matrix ← demand found not_a_list
    stage_minors ← check_stages 0 matrix
    target_version ← demand (as_text (target (get "kubernetes" lock) "version")) subscript
    target_minor ← demand (kubernetes_version target_version) bad_target
    first_minor ← demand (first_of stage_minors) subscript
    require (same_numbers stage_minors (range first_minor (target_minor + 1 - first_minor)))
        not_each_minor
    last_value ← demand (last_of matrix) subscript
    final ← demand (as_mapping (some last_value)) subscript
    require (equals_text (get "kubernetes" final) target_version) last_stage
    target_crio ← demand (target (get "kubernetes" lock) "cri_o") subscript
    require (same_text (get "cri_o" final) (as_text (some target_crio))) last_stage

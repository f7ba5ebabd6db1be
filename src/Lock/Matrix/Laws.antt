-- ===== src/Lock/Matrix/Laws.antt =====
-- What `validate_upgrade_matrix` of scripts/lock.py accepts.
use k8labs.Base.{ℕ, suc, zero, ◌+◌, ◌-◌, ◌≤◌, String, true, some, List, [], ◌∷◌, ◌≡◌}
use k8labs.Base.{arith, ◌==◌, comparable_nat, and-eq_true, refl, ap, sym, ◌∙◌, ok}
use k8labs.Base.{demand, require, demand-eq-ok, require-eq-ok, >>=-eq-ok, >>-eq-ok}
use k8labs.Base.{Value, Fields, get, as_text, as_mapping, as_sequence, equals_text}
use mathlib.Core.Path.{subst}
use k8labs.Base.Dict.{Dict}
use k8labs.Lock.References.{kubernetes_version}
use k8labs.Lock.Matrix.{check_reference, check_stage, check_stages, validate_upgrade_matrix}
use k8labs.Lock.Matrix.{version_of, referenced, range, same_numbers, first_of, last_of, target}
use k8labs.Lock.Matrix.{has_stages}

module _ {F : Type 0} (artifacts : Dict String (Fields F)) where
  -- The field names a locked artifact of the component, at the version.
  pub record Refers (stage : Fields F) (field component version : String) : Type 0 where
    pub artifact : Fields F
    pub found : referenced artifacts (as_text (get field stage)) ≡ some artifact
    pub component_is : equals_text (get "component" artifact) component ≡ true
    pub version_is : equals_text (get "version" artifact) version ≡ true

  -- A stage of one minor version, whose three references hold its versions.
  pub record IsStage (stage : Fields F) (minor : ℕ) : Type 0 where
    pub kubernetes : String
    pub crio : String
    pub kubernetes_is : version_of (get "kubernetes" stage) ≡ some (minor, kubernetes)
    pub crio_is : version_of (get "cri_o" stage) ≡ some (minor, crio)
    pub kubelet : Refers stage "kubelet_artifact" "kubelet" kubernetes
    pub control_plane : Refers stage "control_plane_artifact" "kubernetes-control-plane" kubernetes
    pub runtime : Refers stage "cri_o_artifact" "cri-o" crio

  -- The values are stages of these minor versions, in this order.
  abbrev pub Stages : List (Value F) → List ℕ → Type 0
  Stages [] [] = Unit
  Stages (v ∷ vs) (m ∷ ms) =
      ((stage : Fields F) × (as_mapping (some v) ≡ some stage) × IsStage stage m) × Stages vs ms
  Stages _ _ = ⊥

  check_reference-Refers :
      (i : ℕ) (stage : Fields F) (field component version : String)
      → check_reference artifacts i stage field component version ≡ ok tt
      → Refers stage field component version
  unfolding check_reference
  check_reference-Refers i stage field component version h =
      let (artifact, found, h1) =
        >>=-eq-ok (demand (referenced artifacts (as_text (get field stage))) _) _ h in
      let both = and-eq_true _ _ (require-eq-ok _ _ h1) in
      record {
        artifact = artifact;
        found = demand-eq-ok _ _ found;
        component_is = both.0;
        version_is = both.1;
      }

  check_stage-IsStage :
      (i : ℕ) (stage : Fields F) {minor : ℕ}
      → check_stage artifacts i stage ≡ ok minor
      → IsStage stage minor
  unfolding check_stage
  check_stage-IsStage i stage {minor} h =
      let (k, is_k, h1) = >>=-eq-ok (demand (version_of (get "kubernetes" stage)) _) _ h in
      let (c, is_c, h2) = >>=-eq-ok (demand (version_of (get "cri_o" stage)) _) _ h1 in
      let (same, h3) = >>-eq-ok (require (k.0 == c.0) _) _ h2 in
      let (kubelet, h4) =
        >>-eq-ok (check_reference artifacts i stage "kubelet_artifact" "kubelet" k.1) _ h3 in
      let (plane, h5) =
        >>-eq-ok
          (check_reference artifacts i stage "control_plane_artifact" "kubernetes-control-plane"
            k.1)
          _ h4 in
      let (runtime, h6) =
        >>-eq-ok (check_reference artifacts i stage "cri_o_artifact" "cri-o" c.1) _ h5 in
      let e : k.0 ≡ minor = ground (arith, h6) in
      let e' : c.0 ≡ minor = sym (comparable_nat.same_iff.0 (require-eq-ok _ _ same)) ∙ e in
      record {
        kubernetes = k.1;
        crio = c.1;
        kubernetes_is = demand-eq-ok _ _ is_k ∙ ap (λ n. some (n, k.1)) e;
        crio_is = demand-eq-ok _ _ is_c ∙ ap (λ n. some (n, c.1)) e';
        kubelet = check_reference-Refers i stage _ _ _ kubelet;
        control_plane = check_reference-Refers i stage _ _ _ plane;
        runtime = check_reference-Refers i stage _ _ _ runtime;
      }

  check_stages-Stages :
      (i : ℕ) (values : List (Value F)) {minors : List ℕ}
      → check_stages artifacts i values ≡ ok minors
      → Stages values minors
  unfolding check_stages
  check_stages-Stages i [] {minors} h = let e : [] ≡ minors = ground arith in subst (Stages []) e tt
  check_stages-Stages i (value ∷ more) {minors = all} h =
      let (stage, is_map, h1) = >>=-eq-ok (demand (as_mapping (some value)) _) _ h in
      let (minor, checked, h2) = >>=-eq-ok (check_stage artifacts i stage) _ h1 in
      let (minors, rest, h3) = >>=-eq-ok (check_stages artifacts (i + 1) more) _ h2 in
      let e : minor ∷ minors ≡ all = ground (arith, h3) in
      subst (Stages (value ∷ more)) e (
        (stage, demand-eq-ok _ _ is_map, check_stage-IsStage i stage checked),
        check_stages-Stages (i + 1) more rest,
      )

same_numbers-eq : (xs ys : List ℕ) → same_numbers xs ys ≡ true → xs ≡ ys
same_numbers-eq [] [] h = refl
same_numbers-eq [] (y ∷ ys) h = absurd (cc)
same_numbers-eq (x ∷ xs) [] h = absurd (cc)
same_numbers-eq (x ∷ xs) (y ∷ ys) h =
    let both = and-eq_true (x == y) (same_numbers xs ys) h in
    ground (arith, comparable_nat.same_iff {x = x} {y = y}, same_numbers-eq xs ys both.1)

range-nonempty : (first count : ℕ) {x : ℕ} → first_of (range first count) ≡ some x → 1 ≤ count
range-nonempty first zero h = absurd (cc)
range-nonempty first (suc count) h = omega arith

module _ {F : Type 0} (artifacts : Dict String (Fields F)) where
  -- The stages of a matrix that passes are those of each minor version from the first to the
  -- locked target, in order and each once, and every reference of a stage is to a locked artifact
  -- of its component and version. The last stage is at the target version.
  pub validate_upgrade_matrix-Stages :
      (lock : Fields F)
      → validate_upgrade_matrix artifacts lock ≡ ok tt
      → (matrix : List (Value F)) × (version : String) × (first : ℕ) × (count : ℕ) × (as_sequence
            (get "kubernetes_upgrade_matrix" lock)
          ≡ some matrix)
        × (as_text (target (get "kubernetes" lock) "version") ≡ some version)
        × (1 ≤ count)
        × (kubernetes_version version ≡ some (first + count - 1))
        × Stages artifacts matrix (range first count)
        × (final : Fields F) × (as_mapping (last_of matrix) ≡ some final)
        × (equals_text (get "kubernetes" final) version ≡ true)
  unfolding validate_upgrade_matrix
  validate_upgrade_matrix-Stages lock h =
      let found = as_sequence (get "kubernetes_upgrade_matrix" lock) in
      let (some_stage, h1) = >>-eq-ok (require (has_stages found) _) _ h in
      let (matrix, listed, h2) = >>=-eq-ok (demand found _) _ h1 in
      let (minors, walked, h3) = >>=-eq-ok (check_stages artifacts 0 matrix) _ h2 in
      let (version, targeted, h4) =
        >>=-eq-ok (demand (as_text (target (get "kubernetes" lock) "version")) _) _ h3 in
      let (minor, parsed, h5) = >>=-eq-ok (demand (kubernetes_version version) _) _ h4 in
      let (first, starts, h6) = >>=-eq-ok (demand (first_of minors) _) _ h5 in
      let (same, h7) =
        >>-eq-ok (require (same_numbers minors (range first (minor + 1 - first))) _) _ h6 in
      let (last_value, ends, h8) = >>=-eq-ok (demand (last_of matrix) _) _ h7 in
      let (final, is_map, h9) = >>=-eq-ok (demand (as_mapping (some last_value)) _) _ h8 in
      let (at_target, h10) =
        >>-eq-ok (require (equals_text (get "kubernetes" final) version) _) _ h9 in
      let count = minor + 1 - first in
      let e : minors ≡ range first count = same_numbers-eq _ _ (require-eq-ok _ _ same) in
      let some_minor : 1 ≤ count =
        range-nonempty first count (ap first_of (sym e) ∙ demand-eq-ok _ _ starts) in
      let minor_is : minor ≡ first + count - 1 = omega arith in
      (
        matrix,
        version,
        first,
        count,
        demand-eq-ok _ _ listed,
        demand-eq-ok _ _ targeted,
        some_minor,
        demand-eq-ok _ _ parsed ∙ ap some minor_is,
        subst (Stages artifacts matrix) e (check_stages-Stages artifacts 0 matrix walked),
        final,
        ap as_mapping (demand-eq-ok _ _ ends) ∙ demand-eq-ok _ _ is_map,
        require-eq-ok _ _ at_target,
      )

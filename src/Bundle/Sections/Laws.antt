-- ===== src/Bundle/Sections/Laws.antt =====
-- What the checks of the provenance and the workload accept.
use k8labs.Base.{ℕ, ◌≤◌, String, Option, none, some, List, [], ◌∷◌, ◌++◌, ◌≡◌, map, arith}
use k8labs.Base.{demand, require, refuse, demand-eq-ok, require-eq-ok, refuse-eq-ok, >>=-eq-ok}
use k8labs.Base.{>>-eq-ok, ok, Value, Fields, get, as_text, as_mapping, as_sequence}
use k8labs.Base.{equals_text, contains, comparable_text, leb→le, ap, ◌∙◌, sym}
use mathlib.Core.Path.{subst}
use mathlib.Core.List.{append-nil}
use k8labs.Base.{leb}
use k8labs.Base.{Distinct, snoc-append, refl, Distinct-snoc}
use k8labs.Bundle.{named, require_mapping, reject_unknown, check_present, check_named, as_count}
use k8labs.Bundle.Sections.{non_empty, check_provenance, check_workload, check_containers}
use k8labs.Bundle.Sections.{provenance_fields, is_role}

module _ {F : Type 0} where
  abbrev pub name_in : Option (Fields F) → Option String
  name_in none = none
  name_in (some container) = as_text (get "name" container)

  -- `container["name"]`
  abbrev pub name_of : Value F → Option String
  name_of v = name_in (as_mapping (some v))

named-eq_some : (o : Option String) {s : String} → named o ≡ some s → o ≡ some s
named-eq_some none h = absurd (cc)
named-eq_some (some t) h = ground (arith, h)

module _ {F : Type 0} where
  check_containers-Distinct :
      (values : List (Value F)) (seen : List String)
      → check_containers values seen ≡ ok tt
      → Distinct seen
      → (names : List String) × (map name_of values ≡ map some names) × Distinct (seen ++ names)
  unfolding check_containers
  check_containers-Distinct [] seen h different =
      ([], refl, subst Distinct (sym (append-nil seen)) different)
  check_containers-Distinct (v ∷ more) seen h different =
      let (container, is_map, h1) = >>=-eq-ok (demand (as_mapping (some v)) _) _ h in
      let (_, h2) =
        >>-eq-ok (reject_unknown container ("name" ∷ "role" ∷ []) "workload.containers") _ h1 in
      let (name, found, h3) = >>=-eq-ok (demand (named (as_text (get "name" container))) _) _ h2 in
      let (_, h4) = >>-eq-ok (require (is_role (get "role" container)) _) _ h3 in
      let (new, h5) = >>-eq-ok (refuse (contains seen name) _) _ h4 in
      let (names, are, apart) =
        check_containers-Distinct more (seen ++ (name ∷ [])) h5
          (Distinct-snoc seen name different (refuse-eq-ok _ _ new)) in
      let has_name : name_of v ≡ some name =
        ap name_in (demand-eq-ok _ _ is_map)
        ∙ named-eq_some (as_text (get "name" container)) (demand-eq-ok _ _ found) in
      (
        name ∷ names,
        ap (λ o. o ∷ map name_of more) has_name ∙ ap (λ l. some name ∷ l) are,
        subst Distinct (snoc-append seen name names) apart,
      )

pub non_empty-eq_some :
    {A : Type 0} (o : Option (List A)) {l : List A} → non_empty o ≡ some l → o ≡ some l
non_empty-eq_some none h = absurd (cc)
non_empty-eq_some (some []) h = absurd (cc)
non_empty-eq_some (some (x ∷ xs)) h = h

module _ {F : Type 0} where
  -- The workload has a list of containers with different names.
  pub record IsWorkload (document : Fields F) : Type 0 where
    pub workload : Fields F
    pub workload_is : as_mapping (get "workload" document) ≡ some workload
    pub containers : List (Value F)
    pub containers_are : as_sequence (get "containers" workload) ≡ some containers
    pub names : List String
    pub names_are : map name_of containers ≡ map some names
    pub different : Distinct names

  -- The usable trials are among the trials.
  pub record IsProvenance (document : Fields F) : Type 0 where
    pub provenance : Fields F
    pub provenance_is : as_mapping (get "provenance" document) ≡ some provenance
    pub total : ℕ
    pub total_is : as_count (get "trials_total" provenance) ≡ some total
    pub usable : ℕ
    pub usable_is : as_count (get "trials_usable" provenance) ≡ some usable
    pub among : usable ≤ total

  pub check_workload-IsWorkload :
      (document : Fields F) → check_workload document ≡ ok tt → IsWorkload document
  unfolding check_workload
  check_workload-IsWorkload document h =
      let all_fields = "profile" ∷ "contract_version" ∷ "containers" ∷ [] in
      let (workload, found, h1) = >>=-eq-ok (require_mapping document "workload") _ h in
      let (_, h2) = >>-eq-ok (reject_unknown workload all_fields "workload") _ h1 in
      let (_, h3) = >>-eq-ok (check_present workload all_fields) _ h2 in
      let (_, h4) =
        >>-eq-ok (require (equals_text (get "contract_version" workload) "db-cache-mixed/v1") _) _
          h3 in
      let (containers, listed, h5) =
        >>=-eq-ok (demand (non_empty (as_sequence (get "containers" workload))) _) _ h4 in
      let (names, are, different) = check_containers-Distinct containers [] h5 tt in
      record {
        workload = workload;
        workload_is = demand-eq-ok _ _ found;
        containers = containers;
        containers_are =
            non_empty-eq_some (as_sequence (get "containers" workload)) (demand-eq-ok _ _ listed);
        names = names;
        names_are = are;
        different = different;
      }

  pub check_provenance-IsProvenance :
      (document : Fields F) → check_provenance document ≡ ok tt → IsProvenance document
  unfolding check_provenance
  check_provenance-IsProvenance document h =
      let (provenance, found, h1) = >>=-eq-ok (require_mapping document "provenance") _ h in
      let (_, h2) = >>-eq-ok (reject_unknown provenance provenance_fields "provenance") _ h1 in
      let (_, h3) =
        >>-eq-ok (check_named provenance ("generator" ∷ "campaign_id" ∷ "protocol_version" ∷ [])) _
          h2 in
      let (total, is_total, h4) =
        >>=-eq-ok (demand (as_count (get "trials_total" provenance)) _) _ h3 in
      let (usable, is_usable, h5) =
        >>=-eq-ok (demand (as_count (get "trials_usable" provenance)) _) _ h4 in
      let (among, _) = >>-eq-ok (require (leb usable total) _) _ h5 in
      record {
        provenance = provenance;
        provenance_is = demand-eq-ok _ _ found;
        total = total;
        total_is = demand-eq-ok _ _ is_total;
        usable = usable;
        usable_is = demand-eq-ok _ _ is_usable;
        among = leb→le usable total (require-eq-ok _ _ among);
      }

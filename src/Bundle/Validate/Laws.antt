-- ===== src/Bundle/Validate/Laws.antt =====
-- What `validate_bundle` of research/cpu-limits/phase8/model/bundle.py accepts.
use k8labs.Base.{String, true, some, List, ◌≡◌, All}
use k8labs.Base.{demand, require, refuse, demand-eq-ok, require-eq-ok, >>=-eq-ok}
use k8labs.Base.{>>-eq-ok, ok, Floats, Value, Fields, get, as_text, as_sequence}
use k8labs.Base.{equals_text, comparable_text, length, codes, ltb, keys}
use k8labs.Bundle.{named, nothing_outside, outside, reject_unknown}
use k8labs.Bundle.Sections.{required_fields, non_empty, check_provenance, check_workload}
use k8labs.Bundle.Sections.{check_telemetry}
use k8labs.Bundle.Validate.{validate_bundle, check_identity, check_factors, check_objectives}
use k8labs.Bundle.Validate.{check_policy}
use k8labs.Bundle.Rows.Laws.{IsRow, check_rows-IsRow}
use k8labs.Bundle.Sections.Laws.{IsWorkload, IsProvenance, check_workload-IsWorkload}
use k8labs.Bundle.Sections.Laws.{check_provenance-IsProvenance, non_empty-eq_some}

module _ (R : Floats) (hash : Fields (R.Float) → String) where
  -- A bundle whose content has not been changed, with valid rows.
  pub record IsBundle (document : Fields (R.Float)) : Type 0 where
    pub model_hash : equals_text (get "model_hash" document) (hash document) ≡ true
    pub no_unknown : nothing_outside (outside required_fields (keys document)) ≡ true
    pub provenance : IsProvenance document
    pub workload : IsWorkload document
    pub rows : List (Value (R.Float))
    pub rows_are : as_sequence (get "response" document) ≡ some rows
    pub valid_rows : All (IsRow R) rows

  -- A bundle that passes has the hash of its content and no unknown field; its usable trials are
  -- among its trials, its containers have different names, and each row of its response has the
  -- required numbers, all of them finite, with ratios from 0 to 1 and positive counts.
  pub validate_bundle-IsBundle :
      (document : Fields (R.Float)) → validate_bundle R hash document ≡ ok tt → IsBundle document
  unfolding validate_bundle check_identity
  validate_bundle-IsBundle document h =
      let (identity, h1) = >>-eq-ok (check_identity R hash document) _ h in
      let (provenance, h2) = >>-eq-ok (check_provenance document) _ h1 in
      let (workload, h3) = >>-eq-ok (check_workload document) _ h2 in
      let (_, h4) = >>-eq-ok (check_telemetry document) _ h3 in
      let (_, h5) = >>-eq-ok (check_factors R document) _ h4 in
      let (_, h6) = >>-eq-ok (check_objectives R document) _ h5 in
      let (_, h7) = >>-eq-ok (check_policy R document) _ h6 in
      let (rows, listed, h8) =
        >>=-eq-ok (demand (non_empty (as_sequence (get "response" document))) _) _ h7 in
      let (_, i1) = >>-eq-ok (require (nothing_outside _) _) _ identity in
      let (known, i2) = >>-eq-ok (reject_unknown document required_fields "bundle") _ i1 in
      let (_, i3) =
        >>-eq-ok (require (equals_text (get "schema_version" document) "cpu-limit-model/v1") _) _
          i2 in
      let (model_id, _, i4) =
        >>=-eq-ok (demand (named (as_text (get "model_id" document))) _) _ i3 in
      let (_, i5) = >>-eq-ok (refuse (ltb 128 (length (codes model_id))) _) _ i4 in
      record {
        model_hash = require-eq-ok _ _ i5;
        no_unknown = require-eq-ok _ _ known;
        provenance = check_provenance-IsProvenance document provenance;
        workload = check_workload-IsWorkload document workload;
        rows = rows;
        rows_are =
            non_empty-eq_some (as_sequence (get "response" document)) (demand-eq-ok _ _ listed);
        valid_rows = check_rows-IsRow R 0 rows h8;
      }

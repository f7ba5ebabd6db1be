-- ===== src/Lock/Artifacts/Laws.antt =====
-- What `validate_artifacts` of scripts/lock.py accepts.
use k8labs.Base.{ℕ, ◌+◌, String, true, false, Option, some, List, [], ◌∷◌, ◌++◌, map, ◌≡◌}
use k8labs.Base.{arith, ◌==◌, comparable_text, contains, All, All-append, ok, refl}
use k8labs.Base.{demand, require, refuse, ap, sym, ◌∙◌, or-eq_false, demand-eq-ok, >>-eq-ok}
use k8labs.Base.{>>=-eq-ok, refuse-eq-ok, require-eq-ok, Value, Items, Fields, get, as_text, blank}
use k8labs.Base.{as_mapping, as_sequence}
use k8labs.Base.{snoc-append}
use mathlib.Core.Path.{subst}
use k8labs.Base.Dict
use k8labs.Base.Dict.{Dict}
use k8labs.Base.{Distinct, Distinct-snoc}
use k8labs.Lock.Artifacts.{check_artifact, check_group, validate_artifacts, Seen, Url}
use k8labs.Lock.Artifacts.{leaves_cache, pinned_by, spoiled, served_by_https, group_of}

module _ (urlparse : String → Option Url) {F : Type 0} where
  -- One entry of the result: its key is the artifact's id, and its fields are well formed.
  pub record IsArtifact (e : String × Fields F) : Type 0 where
    pub id : as_text (get "id" e.1) ≡ some e.0
    pub named : blank e.0 ≡ false
    pub path : String
    pub cache_path : as_text (get "cache_path" e.1) ≡ some path
    pub inside : leaves_cache path ≡ false
    pub pinned : pinned_by (as_text (get "sha256" e.1)) ≡ true
    pub https : served_by_https urlparse (as_text (get "url" e.1)) ≡ true
    pub component : spoiled (get "component" e.1) ≡ false
    pub version : spoiled (get "version" e.1) ≡ false

abbrev pub path_of : {F : Type 0} → String × Fields F → Option String
path_of e = as_text (get "cache_path" e.1)

module _ (urlparse : String → Option Url) {F : Type 0} where
  record Kept (done : List (Value F)) (s : Seen F) : Type 0 where
    listed : map (λ e. some e.1) s.result ≡ map (λ v. as_mapping (some v)) done
    ids : map (λ e. e.0) s.result ≡ s.ids
    distinct_ids : Distinct s.ids
    paths : map path_of s.result ≡ map some s.paths
    distinct_paths : Distinct s.paths
    entries : All (IsArtifact urlparse) s.result

module _ {ℓ} {A : Type ℓ} where
  append-nil : (xs : List A) → xs ++ [] ≡ xs
  append-nil [] = refl
  append-nil (x ∷ xs) = ap (λ l. x ∷ l) (append-nil xs)

module _ {ℓ κ} {A : Type ℓ} {B : Type κ} where
  map-snoc : (f : A → B) (xs : List A) (x : A) → map f (xs ++ (x ∷ [])) ≡ map f xs ++ (f x ∷ [])
  map-snoc f [] x = refl
  map-snoc f (y ∷ xs) x = rw (map-snoc f xs x)

module _ {V : Type 0} where
  insert-new :
      (k : String) (v : V) (d : Dict String V)
      → contains (map (λ e. e.0) d) k ≡ false
      → Dict.insert k v d ≡ d ++ ((k, v) ∷ [])
  unfolding Dict.insert
  insert-new k v [] new = refl
  insert-new k v ((j, w) ∷ d) new =
      let apart = or-eq_false (k == j) (contains (map (λ e. e.0) d) k) new in
      ground (
        arith,
        comparable_text.same_iff {x = k} {y = j},
        comparable_text.same_iff {x = j} {y = k},
        insert-new k v d,
      )

module _ (urlparse : String → Option Url) {F : Type 0} where
  extended : Seen F → String → String → Fields F → Seen F
  extended seen id path artifact = record {
    ids = seen.ids ++ (id ∷ []);
    paths = seen.paths ++ (path ∷ []);
    result = Dict.insert id artifact seen.result;
  }

  extended-Kept :
      (done : List (Value F)) (value : Value F) (seen : Seen F) (id path : String)
      (artifact : Fields F)
      → as_mapping (some value) ≡ some artifact
      → Kept urlparse done seen
      → contains seen.ids id ≡ false
      → contains seen.paths path ≡ false
      → as_text (get "cache_path" artifact) ≡ some path
      → IsArtifact urlparse (id, artifact)
      → Kept urlparse (done ++ (value ∷ [])) (extended seen id path artifact)
  unfolding extended
  extended-Kept done value seen id path artifact is_map kept new_id new_path has_path entry =
      let grown : Dict.insert id artifact seen.result ≡ seen.result ++ ((id, artifact) ∷ []) =
        insert-new id artifact seen.result (ap (λ l. contains l id) kept.ids ∙ new_id) in
      record {
        listed =
            ap (map (λ x. some x.1)) grown
            ∙ map-snoc (λ x. some x.1) seen.result (id, artifact)
            ∙ ap (λ l. l ++ (some artifact ∷ [])) kept.listed
            ∙ ap (λ o. map (λ v. as_mapping (some v)) done ++ (o ∷ [])) (sym is_map)
            ∙ sym (map-snoc (λ v. as_mapping (some v)) done value);
        ids =
            ap (map (λ x. x.0)) grown
            ∙ map-snoc (λ x. x.0) seen.result (id, artifact)
            ∙ ap (λ l. l ++ (id ∷ [])) kept.ids;
        distinct_ids = Distinct-snoc seen.ids id kept.distinct_ids new_id;
        paths =
            ap (map path_of) grown
            ∙ map-snoc path_of seen.result (id, artifact)
            ∙ ap (λ o. map path_of seen.result ++ (o ∷ [])) has_path
            ∙ ap (λ l. l ++ (some path ∷ [])) kept.paths
            ∙ sym (map-snoc some seen.paths path);
        distinct_paths = Distinct-snoc seen.paths path kept.distinct_paths new_path;
        entries = rw grown (
            All-append (IsArtifact urlparse) seen.result ((id, artifact) ∷ []) kept.entries
              (entry, tt));
      }

  check_artifact-Kept :
      (group : String) (i : ℕ) (done : List (Value F)) (value : Value F) (artifact : Fields F)
      (seen : Seen F) {next : Seen F}
      → as_mapping (some value) ≡ some artifact
      → check_artifact urlparse group i artifact seen ≡ ok next
      → Kept urlparse done seen
      → Kept urlparse (done ++ (value ∷ [])) next
  unfolding check_artifact extended
  check_artifact-Kept group i done value artifact seen {next} is_map h kept =
      let (id, has_id, h1) = >>=-eq-ok (demand (as_text (get "id" artifact)) _) _ h in
      let (named, h2) = >>-eq-ok (refuse (blank id) _) _ h1 in
      let (new_id, h3) = >>-eq-ok (refuse (contains seen.ids id) _) _ h2 in
      let (path, has_path, h4) = >>=-eq-ok (demand (as_text (get "cache_path" artifact)) _) _ h3 in
      let (_, h5) = >>-eq-ok (refuse (blank path) _) _ h4 in
      let (inside, h6) = >>-eq-ok (refuse (leaves_cache path) _) _ h5 in
      let (new_path, h7) = >>-eq-ok (refuse (contains seen.paths path) _) _ h6 in
      let (digest, h8) = >>-eq-ok (require (pinned_by (as_text (get "sha256" artifact))) _) _ h7 in
      let (https, h9) =
        >>-eq-ok (require (served_by_https urlparse (as_text (get "url" artifact))) _) _ h8 in
      let (component, h10) = >>-eq-ok (refuse (spoiled (get "component" artifact)) _) _ h9 in
      let (version, h11) = >>-eq-ok (refuse (spoiled (get "version" artifact)) _) _ h10 in
      let e : extended seen id path artifact ≡ next = ground (arith, h11) in
      let extends =
        extended-Kept done value seen id path artifact is_map kept (refuse-eq-ok _ _ new_id)
          (refuse-eq-ok _ _ new_path) (demand-eq-ok _ _ has_path)
          (record {
            id = demand-eq-ok _ _ has_id;
            named = refuse-eq-ok _ _ named;
            path = path;
            cache_path = demand-eq-ok _ _ has_path;
            inside = refuse-eq-ok _ _ inside;
            pinned = require-eq-ok _ _ digest;
            https = require-eq-ok _ _ https;
            component = refuse-eq-ok _ _ component;
            version = refuse-eq-ok _ _ version;
          }) in
      subst (Kept urlparse (done ++ (value ∷ []))) e extends

  check_group-Kept :
      (group : String) (i : ℕ) (done values : List (Value F)) (seen : Seen F) {next : Seen F}
      → check_group urlparse group i values seen ≡ ok next
      → Kept urlparse done seen
      → Kept urlparse (done ++ values) next
  unfolding check_group
  check_group-Kept group i done [] seen {next} h kept =
      let e : seen ≡ next = ground arith in
      subst (λ l. Kept urlparse l next) (sym (append-nil done)) (subst (Kept urlparse done) e kept)
  check_group-Kept group i done (value ∷ more) seen {next} h kept =
      let (artifact, is_map, h1) = >>=-eq-ok (demand (as_mapping (some value)) _) _ h in
      let (middle, checked, h2) = >>=-eq-ok (check_artifact urlparse group i artifact seen) _ h1 in
      subst (λ l. Kept urlparse l next) (snoc-append done value more)
        (check_group-Kept group (i + 1) (done ++ (value ∷ [])) more middle h2 (
          check_artifact-Kept group i done value artifact seen (demand-eq-ok _ _ is_map) checked
            kept))

  -- What a lock that passes has in its groups, and what the check returns of them.
  pub record IsAccepted (lock : Fields F) (result : Dict String (Fields F)) : Type 0 where
    pub artifacts : List (Value F)
    pub artifacts_are : as_sequence (get "artifacts" lock) ≡ some artifacts
    pub upgrades : List (Value F)
    pub upgrades_are :
        group_of (get "guest_upgrade_artifacts" lock) (some (Value.sequence Items.last))
        ≡ some upgrades
    pub listed : map (λ e. some e.1) result ≡ map (λ v. as_mapping (some v)) (artifacts ++ upgrades)
    pub entries : All (IsArtifact urlparse) result
    pub distinct_ids : Distinct (map (λ e. e.0) result)
    pub paths : List String
    pub paths_are : map path_of result ≡ map some paths
    pub distinct_paths : Distinct paths

  -- A lock that passes has a list of artifacts, and one of upgrade artifacts or none. The result has
  -- every value of the two lists, in their order, under its id; each is well formed, with a path
  -- inside the cache, a digest and an HTTPS location; and no two of all have the same id or the same
  -- path.
  pub validate_artifacts-IsArtifact :
      (lock : Fields F) {result : Dict String (Fields F)}
      → validate_artifacts urlparse lock ≡ ok result
      → IsAccepted lock result
  unfolding validate_artifacts
  validate_artifacts-IsArtifact lock {result} h =
      let (artifacts, has_list, h1) =
        >>=-eq-ok (demand (as_sequence (get "artifacts" lock)) _) _ h in
      let (first, checked, h2) = >>=-eq-ok (check_group urlparse "artifacts" 0 artifacts _) _ h1 in
      let (upgrades, also, h3) =
        >>=-eq-ok
          (demand (group_of (get "guest_upgrade_artifacts" lock) (some (Value.sequence Items.last)))
            _)
          _ h2 in
      let (seen, checked', h4) = >>=-eq-ok (check_group urlparse _ 0 upgrades first) _ h3 in
      let e : seen.result ≡ result = ground arith in
      let kept = check_group-Kept _ 0 artifacts upgrades first checked' (
        check_group-Kept _ 0 [] artifacts _ checked (record {
          listed = refl;
          ids = refl;
          distinct_ids = tt;
          paths = refl;
          distinct_paths = tt;
          entries = tt;
        })) in
      subst (IsAccepted lock) e (record {
        artifacts = artifacts;
        artifacts_are = demand-eq-ok _ _ has_list;
        upgrades = upgrades;
        upgrades_are = demand-eq-ok _ _ also;
        listed = kept.listed;
        entries = kept.entries;
        distinct_ids = rw (kept.ids) (kept.distinct_ids);
        paths = seen.paths;
        paths_are = kept.paths;
        distinct_paths = kept.distinct_paths;
      })

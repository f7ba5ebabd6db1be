-- ===== src/Lock/Artifacts.antt =====
-- `validate_artifacts` of scripts/lock.py. `urlparse` is a parameter: the scheme and the network
-- location of a text, or none where it raises ValueError.
pub mod Laws
use k8labs.Base.{
  ℕ, zero, suc, ◌+◌, String, Bool, true, false, not, ◌&&◌, ◌||◌, Option, none, some, List, [], ◌∷◌,
  ◌++◌,
}
use k8labs.Base.{◌==◌, comparable_nat, comparable_text, if◌then◌else◌, contains, codes}
use k8labs.Base.Dict
use k8labs.Base.Dict.{Dict}
use k8labs.Base.{
  Value, Fields, get, as_text, as_mapping, as_sequence, blank, Result, ok, raise, ◌>>=◌, ◌>>◌,
}
use k8labs.Base.{refuse, require, demand, Items}
use k8labs.Lock.References.{is_hex_of}

-- The group and the index are the location that each message shows.
pub data ArtifactError : Type 0 where
  not_a_list : String → ArtifactError
  not_a_mapping blank_id bad_path path_outside bad_sha256 bad_url : String → ℕ → ArtifactError
  duplicate_id duplicate_path : String → ArtifactError
  blank_field : String → ℕ → String → ArtifactError

pub record Url : Type 0 where
  pub scheme : String
  pub netloc : String

-- `".." in Path(text).parts`: some part between slashes is two dots. `run` is none within a longer
-- part, and the number of dots so far otherwise.
unfoldable pub climbs : Option ℕ → List ℕ → Bool
climbs run [] = elim run [ none ↦ false | some n ↦ n == 2 ]
climbs run (c ∷ s) =
    let dotted : Option ℕ = elim run [ none ↦ none | some n ↦ some (n + 1) ] in
    let more = climbs (if c == b'.' then dotted else none) s in
    let next = climbs (some 0) s in
    if c == b'/' then elim run [ none ↦ next | some n ↦ n == 2 || next ] else more

-- `Path(text).is_absolute()`
abbrev pub absolute : List ℕ → Bool
absolute [] = false
absolute (c ∷ s) = c == b'/'

abbrev pub leaves_cache : String → Bool
leaves_cache path = absolute (codes path) || climbs (some 0) (codes path)

-- The sets `seen_ids` and `seen_paths`, and `result`.
pub record Seen (F : Type 0) : Type 0 where
  pub ids : List String
  pub paths : List String
  pub result : Dict String (Fields F)

abbrev pub pinned_by : Option String → Bool
pinned_by none = false
pinned_by (some digest) = is_hex_of 64 digest

-- `field in artifact` with a value that is no text, or a blank one.
abbrev pub spoiled : {F : Type 0} → Option (Value F) → Bool
spoiled none = false
spoiled (some (Value.text s)) = blank s
spoiled (some _) = true

-- The list of a group, with the default of `data.get` for an absent one.
abbrev pub group_of : {F : Type 0} → Option (Value F) → Option (Value F) → Option (List (Value F))
group_of none default = as_sequence default
group_of found default = as_sequence found

module _ (urlparse : String → Option Url) where
  abbrev pub served_by_https : Option String → Bool
  served_by_https none = false
  served_by_https (some url) = elim (urlparse url) [
    | none ↦ false
    | some parsed ↦ parsed.scheme == "https" && not (parsed.netloc == "")
  ]

module _ (urlparse : String → Option Url) {F : Type 0} where
  unfoldable pub check_artifact : String → ℕ → Fields F → Seen F → Result ArtifactError (Seen F)
  check_artifact group i artifact seen = do
    id ← demand (as_text (get "id" artifact)) (blank_id group i)
    refuse (blank id) (blank_id group i)
    refuse (contains seen.ids id) (duplicate_id id)
    path ← demand (as_text (get "cache_path" artifact)) (bad_path group i)
    refuse (blank path) (bad_path group i)
    refuse (leaves_cache path) (path_outside group i)
    refuse (contains seen.paths path) (duplicate_path path)
    require (pinned_by (as_text (get "sha256" artifact))) (bad_sha256 group i)
    require (served_by_https urlparse (as_text (get "url" artifact))) (bad_url group i)
    refuse (spoiled (get "component" artifact)) (blank_field group i "component")
    refuse (spoiled (get "version" artifact)) (blank_field group i "version")
    ok (record {
      ids = seen.ids ++ (id ∷ []);
      paths = seen.paths ++ (path ∷ []);
      result = Dict.insert id artifact seen.result;
    })

  unfoldable pub check_group : String → ℕ → List (Value F) → Seen F → Result ArtifactError (Seen F)
  check_group group i [] seen = ok seen
  check_group group i (value ∷ more) seen = do
    artifact ← demand (as_mapping (some value)) (not_a_mapping group i)
    next ← check_artifact group i artifact seen
    check_group group (i + 1) more next

  -- `validate_artifacts`
  unfoldable pub validate_artifacts : Fields F → Result ArtifactError (Dict String (Fields F))
  validate_artifacts lock = do
    artifacts ← demand (as_sequence (get "artifacts" lock)) (not_a_list "artifacts")
    first ← check_group "artifacts" 0 artifacts (record { ids = []; paths = []; result = [] })
    upgrades ←
        demand (group_of (get "guest_upgrade_artifacts" lock) (some (Value.sequence Items.last)))
          (not_a_list "guest_upgrade_artifacts")
    seen ← check_group "guest_upgrade_artifacts" 0 upgrades first
    ok seen.result

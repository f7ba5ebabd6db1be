-- ===== src/Lock/Load.antt =====
-- `load_lock` of scripts/lock.py, from the value that the YAML reader returns.
pub mod Laws
use k8labs.Base.{
  ℕ, ◌+◌, String, Bool, true, false, not, ◌&&◌, ◌||◌, Option, none, some, List, [], ◌∷◌,
}
use k8labs.Base.{Floats, Value, Fields, get, as_text, as_mapping, as_sequence, equals_text}
use k8labs.Base.{equals_nat, blank, Result, ok, raise, ◌>>=◌, ◌>>◌, require, refuse, demand}
use k8labs.Lock.References.{
  digest_reference, is_hex_of, walk_mutable, MutableError, mutable_at, Step,
}
use k8labs.Lock.Artifacts.{ArtifactError, validate_artifacts, Url}
use k8labs.Lock.Matrix.{MatrixError, validate_upgrade_matrix}

pub data LockError : Type 0 where
  not_a_mapping schema_version node_image : LockError
  missing_field blank_field : List String → LockError
  mutable : MutableError → LockError
  no_provider provider_mapping provider_version provider_commit : LockError
  source_mapping source_fields image_mapping image_reference image_pinned : LockError
  images_list : LockError
  entry_mapping entry_reference entry_pinned entry_platform : ℕ → LockError
  artifact : ArtifactError → LockError
  stage : MatrixError → LockError

-- `REQUIRED_PATHS`
abbrev pub required_paths : List (List String)
required_paths =
    ("fedora" ∷ "kernel" ∷ [])
    ∷ ("kubernetes" ∷ "version" ∷ [])
    ∷ ("kubernetes" ∷ "cri_o" ∷ [])
    ∷ ("kubernetes" ∷ "crun" ∷ [])
    ∷ ("cilium" ∷ "version" ∷ [])
    ∷ ("cluster_api" ∷ "version" ∷ [])
    ∷ ("kind" ∷ "version" ∷ [])
    ∷ ("kind" ∷ "node_image" ∷ [])
    ∷ ("packer" ∷ "version" ∷ [])
    ∷ ("cloud_hypervisor" ∷ "version" ∷ [])
    ∷ []

abbrev pub lock_schema_version : ℕ
lock_schema_version = 2

-- An error of a call that `load_lock` lets through.
abbrev pub lift {ℓ} : {E : Type 0} {A : Type ℓ} → (E → LockError) → Result E A → Result LockError A
lift wrap (raise failed) = raise (wrap failed)
lift wrap (ok value) = ok value

abbrev pub is_text : Option String → Bool
is_text none = false
is_text (some s) = true

module _ {F : Type 0} where
  -- `value = value[key]` along the keys, where each value is a mapping with the key.
  unfoldable pub follow : List String → Value F → Option (Value F)
  follow [] value = some value
  follow (key ∷ more) value = elim (as_mapping (some value)) [
    | none ↦ none
    | some fields ↦ elim (get key fields) [ none ↦ none | some child ↦ follow more child ]
  ]

  -- The loop over `REQUIRED_PATHS`.
  unfoldable pub check_required : List (List String) → Value F → Result LockError (Unit {0})
  check_required [] lock = ok tt
  check_required (path ∷ more) lock = do
    value ← demand (follow path lock) (missing_field path)
    s ← demand (as_text (some value)) (blank_field path)
    refuse (blank s) (blank_field path)
    check_required more lock

  abbrev pub absent : Option (Value F) → Bool
  absent none = true
  absent (some Value.null) = true
  absent (some _) = false

  -- The checks of `cluster_api_hypervisor`.
  unfoldable pub check_provider : Option (Value F) → Result LockError (Unit {0})
  check_provider found = do
    refuse (absent found) no_provider
    provider ← demand (as_mapping found) provider_mapping
    require (equals_text (get "version" provider) "v0.3.17") provider_version
    commit ← demand (as_text (get "commit" provider)) provider_commit
    require (is_hex_of 40 commit) provider_commit
    source ← demand (as_mapping (get "source" provider)) source_mapping
    require (is_text (as_text (get "url" source)) && is_text (as_text (get "sha256" source)))
        source_fields
    image ← demand (as_mapping (get "image" provider)) image_mapping
    reference ← demand (as_text (get "reference" image)) image_reference
    require (digest_reference reference) image_pinned

  -- The loop over `oci_images`.
  unfoldable pub check_images : ℕ → List (Value F) → Result LockError (Unit {0})
  check_images i [] = ok tt
  check_images i (value ∷ more) = do
    image ← demand (as_mapping (some value)) (entry_mapping i)
    reference ← demand (as_text (get "reference" image)) (entry_reference i)
    require (digest_reference reference) (entry_pinned i)
    require (equals_text (get "platform" image) "linux/amd64") (entry_platform i)
    check_images (i + 1) more

  abbrev pub node_image_of : Value F → Option String
  node_image_of lock = as_text (follow ("kind" ∷ "node_image" ∷ []) lock)

-- `load_lock`, from the value read to the mapping returned.
unfoldable pub load_lock :
    (R : Floats) → (String → Option Url) → Value (R.Float) → Result LockError (Fields (R.Float))
load_lock R urlparse value = do
  lock ← demand (as_mapping (some value)) not_a_mapping
  check_required required_paths value
  lift mutable (walk_mutable value [])
  require (equals_nat R (get "schema_version" lock) lock_schema_version) schema_version
  image ← demand (node_image_of value) node_image
  require (digest_reference image) node_image
  check_provider (get "cluster_api_hypervisor" lock)
  images ← demand (as_sequence (get "oci_images" lock)) images_list
  check_images 0 images
  artifacts ← lift artifact (validate_artifacts urlparse lock)
  lift stage (validate_upgrade_matrix artifacts lock)
  ok lock

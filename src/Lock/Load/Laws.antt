-- ===== src/Lock/Load/Laws.antt =====
-- What `load_lock` of scripts/lock.py accepts.
use k8labs.Base.{String, true, false, Option, some, List, ◌≡◌, All}
use k8labs.Base.{ok, Floats, Value, Fields, get, as_text, as_mapping}
use k8labs.Base.{as_sequence}
use k8labs.Base.{equals_text, equals_nat, blank}
use k8labs.Base.Dict.{Dict}
use k8labs.Lock.References.{digest_reference}
use k8labs.Lock.References.Laws.{texts}
use k8labs.Lock.References.Matches.{IsMutable}
use k8labs.Lock.References.{folded}
use k8labs.Base.{codes}
use k8labs.Lock.Artifacts.{validate_artifacts, Url}
use k8labs.Lock.Matrix.{validate_upgrade_matrix}
use k8labs.Lock.Load.{follow}
use k8labs.Lock.Load.{check_provider, node_image_of, required_paths, lock_schema_version}

module _ {F : Type 0} where
  -- The value holds a text that is not blank at the path.
  abbrev pub Holds : Value F → List String → Type 0
  Holds v path = (s : String) × (as_text (follow path v) ≡ some s) × (blank s ≡ false)

  -- An image of the lock: its reference ends with a digest, its platform is the one supported.
  pub record IsImage (v : Value F) : Type 0 where
    pub image : Fields F
    pub image_is : as_mapping (some v) ≡ some image
    pub reference : String
    pub reference_is : as_text (get "reference" image) ≡ some reference
    pub pinned : digest_reference reference ≡ true
    pub platform : equals_text (get "platform" image) "linux/amd64" ≡ true

module _ (R : Floats) (urlparse : String → Option Url) where
  -- A value that is a lock: what each check of `load_lock` establishes.
  pub record IsLock (value : Value (R.Float)) (lock : Fields (R.Float)) : Type 0 where
    pub lock_is : as_mapping (some value) ≡ some lock
    pub required : All (Holds value) required_paths
    pub fixed : All (λ s. ¬ IsMutable (folded (codes s))) (texts value)
    pub version : equals_nat R (get "schema_version" lock) lock_schema_version ≡ true
    pub node_image : String
    pub node_image_is : node_image_of value ≡ some node_image
    pub node_image_pinned : digest_reference node_image ≡ true
    pub provider : check_provider (get "cluster_api_hypervisor" lock) ≡ ok tt
    pub images : List (Value (R.Float))
    pub images_are : as_sequence (get "oci_images" lock) ≡ some images
    pub images_pinned : All IsImage images
    pub artifacts : Dict String (Fields (R.Float))
    pub artifacts_are : validate_artifacts urlparse lock ≡ ok artifacts
    pub stages : validate_upgrade_matrix artifacts lock ≡ ok tt

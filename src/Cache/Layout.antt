-- ===== src/Cache/Layout.antt =====
-- `validate_oci_layout` of scripts/cache.py, over the files of one image's directory. Contents, their
-- SHA-256 and the JSON reader are parameters.
pub mod Laws
use Prim.Native.Char.{code}
use k8labs.Base.{
  ℕ, ◌+◌, String, ◌<>◌, Bool, true, false, not, ◌&&◌, Option, none, some, List, [], ◌∷◌, ◌++◌, map,
}
use k8labs.Base.{◌==◌, comparable_nat, comparable_text, if◌then◌else◌, codes, Result, ok, raise}
use k8labs.Base.{Value, Items, Fields, get, keys, elements, as_text, as_mapping, as_sequence}
use k8labs.Base.{equals_text}
use k8labs.Base.Dict
use k8labs.Base.Dict.{Dict}
use k8labs.Cache.Inventory.{is_sha256}

pub record Image : Type 0 where
  pub id : String
  pub cache_path : String
  pub reference : String
  pub manifest_digest : String
  pub platform : String

-- What a blob is for.
pub data Role : Type 0 where
  manifest_blob config_blob : Role
  layer_blob : ℕ → Role

pub data LayoutProblem : Type 0 where
  invalid_json : String → LayoutProblem
  invalid_marker not_one_manifest digest_mismatch no_config platform_mismatch : LayoutProblem
  invalid_digest missing_blob blob_mismatch : Role → LayoutProblem
  invalid_layer : ℕ → LayoutProblem

-- The TypeError of a loop over layers that are no list, mapping or text, and the UnicodeDecodeError of
-- a content that is no text, which `_read_json` does not catch.
pub data LayoutError : Type 0 where
  not_iterable not_text : LayoutError

-- What reading a content as JSON gives.
pub data Json (F : Type 0) : Type 0 where
  parsed : Value F → Json F
  malformed undecodable : Json F

-- The text after a prefix, given by its code points.
abbrev pub after_prefix : List ℕ → String → Option String
after_prefix [] s = some s
after_prefix (p ∷ ps) String.[] = none
after_prefix (p ∷ ps) (String.◌∷◌ c s) = if p == code c then after_prefix ps s else none

-- The 64 digits of `sha256:...`, or none.
abbrev pub digest_of : Option String → Option String
digest_of none = none
digest_of (some s) = elim (after_prefix (codes "sha256:") s) [
  | none ↦ none
  | some hex ↦ if is_sha256 hex then some hex else none
]

module _ {F : Type 0} where
  -- `layout == {"imageLayoutVersion": "1.0.0"}`
  abbrev pub is_marker : Option (Value F) → Bool
  is_marker (some (Value.mapping (Fields.entry k v Fields.empty))) =
      k == "imageLayoutVersion" && equals_text (some v) "1.0.0"
  is_marker _ = false

  -- The one descriptor of `manifests`, if it is a mapping.
  abbrev pub only_manifest : Option (List (Value F)) → Option (Fields F)
  only_manifest (some (v ∷ [])) = as_mapping (some v)
  only_manifest _ = none

  -- What a loop over `manifest.get("layers", [])` runs over.
  abbrev pub layers_of : Option (Value F) → Option (List (Value F))
  layers_of none = some []
  layers_of (some (Value.sequence vs)) = some (elements vs)
  layers_of (some (Value.mapping fs)) = some (map (λ k. Value.text k) (keys fs))
  layers_of (some (Value.text s)) = some (map (λ c. Value.other) (codes s))
  layers_of (some _) = none

  -- A value as an f-string shows it, for a text, an absent value and null.
  abbrev pub shown : Option (Value F) → Option String
  shown none = some "None"
  shown (some Value.null) = some "None"
  shown found = as_text found

-- `f"{os}/{architecture}" == platform`. What is shown as no text differs from every platform.
abbrev pub is_platform : Option String → Option String → String → Bool
is_platform (some os) (some architecture) platform = (os <> "/" <> architecture) == platform
is_platform _ _ platform = false

module _ (C F : Type 0) (sha256 : C → String) (json : C → Json F) where
  -- `_read_json` of a file: the value, and the problem that is noted where there is none.
  abbrev pub read_json : Option C → Result LayoutError (Option (Value F))
  read_json none = ok none
  read_json (some content) = elim (json content) [
    | parsed value ↦ ok (some value)
    | malformed ↦ ok none
    | undecodable ↦ raise not_text
  ]

  abbrev pub noted : String → Option (Value F) → List LayoutProblem
  noted file none = invalid_json file ∷ []
  noted file (some value) = []

  -- The content of a blob that is there with this digest, or the problem.
  abbrev pub checked_content : Role → String → Option C → Result LayoutProblem C
  checked_content role hex none = raise (missing_blob role)
  checked_content role hex (some content) =
      if sha256 content == hex then ok content else raise (blob_mismatch role)

  abbrev pub checked_blob : Dict String C → Role → Option String → Result LayoutProblem C
  checked_blob directory role none = raise (invalid_digest role)
  checked_blob directory role (some hex) =
      checked_content role hex (Dict.lookup ("blobs/sha256/" <> hex) directory)

  -- `_validate_blob`
  unfoldable pub validate_blob : Dict String C → Option (Value F) → Role → Result LayoutProblem C
  validate_blob directory digest role = checked_blob directory role (digest_of (as_text digest))

  abbrev pub problem_of : Result LayoutProblem C → List LayoutProblem
  problem_of (ok content) = []
  problem_of (raise problem) = problem ∷ []

  unfoldable pub check_layers : Dict String C → ℕ → List (Value F) → List LayoutProblem
  check_layers directory i [] = []
  check_layers directory i (layer ∷ more) =
      let rest = check_layers directory (i + 1) more in
      elim (as_mapping (some layer)) [
        | none ↦ invalid_layer i ∷ rest
        | some fields ↦
            problem_of (validate_blob directory (get "digest" fields) (layer_blob i)) ++ rest
      ]

  -- From the content of the config on.
  abbrev pub check_config_value : Image → Option (Value F) → List LayoutProblem
  check_config_value image value = elim (as_mapping value) [
    | none ↦ []
    | some config ↦
        if is_platform (shown (get "os" config)) (shown (get "architecture" config)) image.platform
        then []
        else platform_mismatch ∷ []
  ]

  -- What follows a reading, unless it raised.
  abbrev pub after_reading :
      Result LayoutError (Option (Value F))
      → (Option (Value F) → Result LayoutError (List LayoutProblem))
      → Result LayoutError (List LayoutProblem)
  after_reading (ok value) next = next value
  after_reading (raise e) next = raise e

  abbrev pub check_config : Image → Result LayoutProblem C → Result LayoutError (List LayoutProblem)
  check_config image (raise problem) = ok []
  check_config image (ok content) =
      after_reading (read_json (some content))
        λ value. ok (noted "config" value ++ check_config_value image value)

  -- More problems, after these.
  abbrev pub after_these :
      List LayoutProblem
      → Result LayoutError (List LayoutProblem)
      → Result LayoutError (List LayoutProblem)
  after_these problems (ok more) = ok (problems ++ more)
  after_these problems (raise e) = raise e

  -- From the config descriptor of the manifest on.
  abbrev pub check_contents :
      Image → Dict String C → Fields F → Fields F → Result LayoutError (List LayoutProblem)
  check_contents image directory manifest config =
      let blob = validate_blob directory (get "digest" config) config_blob in
      elim (layers_of (get "layers" manifest)) [
        | none ↦ raise not_iterable
        | some layers ↦
            after_these (problem_of blob ++ check_layers directory 0 layers)
              (check_config image blob)
      ]

  -- From the value of the manifest on. A value that is no mapping ends the check.
  abbrev pub check_manifest :
      Image → Dict String C → Option (Value F) → Result LayoutError (List LayoutProblem)
  check_manifest image directory value = elim (as_mapping value) [
    | none ↦ ok []
    | some manifest ↦ elim (as_mapping (get "config" manifest)) [
      | none ↦ ok (no_config ∷ [])
      | some config ↦ check_contents image directory manifest config
    ]
  ]

  abbrev pub check_manifest_blob :
      Image → Dict String C → Result LayoutProblem C → Result LayoutError (List LayoutProblem)
  check_manifest_blob image directory (raise problem) = ok (problem ∷ [])
  check_manifest_blob image directory (ok content) =
      after_reading (read_json (some content))
        λ value. after_these (noted "manifest" value) (check_manifest image directory value)

  -- From the descriptor of the one manifest on.
  abbrev pub check_descriptor :
      Image → Dict String C → Option (Fields F) → Result LayoutError (List LayoutProblem)
  check_descriptor image directory none = ok (not_one_manifest ∷ [])
  check_descriptor image directory (some descriptor) =
      let digest = get "digest" descriptor in
      after_these (if equals_text digest image.manifest_digest then [] else digest_mismatch ∷ [])
        (check_manifest_blob image directory (validate_blob directory digest manifest_blob))

  -- The index, if it is a mapping. A value that is no mapping ends the check.
  abbrev pub check_index_fields :
      Image → Dict String C → Option (Fields F) → Result LayoutError (List LayoutProblem)
  check_index_fields image directory none = ok []
  check_index_fields image directory (some index) =
      check_descriptor image directory (only_manifest (as_sequence (get "manifests" index)))

  -- From the value of the index on.
  unfoldable pub check_index :
      Image → Dict String C → Option (Value F) → Result LayoutError (List LayoutProblem)
  check_index image directory value = check_index_fields image directory (as_mapping value)

  -- What the marker and the index note, and the check of the index.
  abbrev pub check_read :
      Image
      → Dict String C
      → Option (Value F)
      → Option (Value F)
      → Result LayoutError (List LayoutProblem)
  check_read image directory layout index =
      after_these
        (noted "oci-layout" layout
          ++ (if is_marker layout then [] else invalid_marker ∷ [])
          ++ noted "index.json" index)
        (check_index image directory index)

  -- From the value of the marker on.
  abbrev pub check_marker :
      Image → Dict String C → Option (Value F) → Result LayoutError (List LayoutProblem)
  check_marker image directory layout =
      after_reading (read_json (Dict.lookup "index.json" directory))
        (check_read image directory layout)

  unfoldable pub validate_oci_layout :
      Image → Dict String C → Result LayoutError (List LayoutProblem)
  validate_oci_layout image directory =
      after_reading (read_json (Dict.lookup "oci-layout" directory)) (check_marker image directory)

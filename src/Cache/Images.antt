-- ===== src/Cache/Images.antt =====
-- The OCI images of scripts/cache.py: `oci_inventory`, `populate_oci_image` and the loop of
-- `populate` over the images. The staged layout that `skopeo copy`
-- brings is a parameter, none where the command fails or the staging directory cannot be made.
pub mod Laws
use Prim.Native.Char.{code}
use k8labs.Base.{ℕ, ◌+◌, String, ◌<>◌, Bool, true, false, not, ◌||◌, Option, none, some, List, []}
use k8labs.Base.{
  ◌∷◌, ◌==◌, comparable_nat, comparable_text, if◌then◌else◌, contains, codes, is_empty,
}
use k8labs.Base.{Value, Items, Fields, get, as_text, as_mapping}
use k8labs.Base.{Result, ok, raise, ◌>>=◌, ◌>>◌, require, refuse, demand}
use k8labs.Base.Dict
use k8labs.Base.Dict.{Dict}
use k8labs.Lock.Artifacts.{group_of}
use k8labs.Cache.Inventory.{InventoryError, not_a_list, not_a_mapping, bad_id, bad_digest}
use k8labs.Cache.Inventory.{filled, lower, is_sha256, safe_cache_path}
use k8labs.Cache.Paths.{Files, parts_of, is_inside, is_file, is_directory, below_file}
use k8labs.Cache.Paths.{directory_at, without, moved_to, comparable_parts}
use k8labs.Base.{◌++◌}
use k8labs.Cache.Layout.{Json}
use k8labs.Cache.Layout.{Image, LayoutError, LayoutProblem, after_prefix, validate_oci_layout}

-- The text before the last `separator` and the text behind it.
unfoldable pub rpartition : List ℕ → String → Option (String × String)
rpartition separator String.[] = none
rpartition separator (String.◌∷◌ c s) = elim (rpartition separator s) [
  | some (front, last) ↦ some (String.◌∷◌ c front, last)
  | none ↦ elim (after_prefix separator (String.◌∷◌ c s)) [
    | some rest ↦ some ("", rest)
    | none ↦ none
  ]
]

-- `name.rsplit(":", 1)[0]` where the name has a colon.
unfoldable pub without_tag : String → String
without_tag name = elim (rpartition (codes ":") name) [ some (front, tag) ↦ front | none ↦ name ]

-- The repository without the tag of its last part.
unfoldable pub untagged : String → String
untagged repository = elim (rpartition (codes "/") repository) [
  | some (path, name) ↦ path <> "/" <> without_tag name
  | none ↦ without_tag repository
]

-- `platform.count("/")`
unfoldable pub count_slashes : List ℕ → ℕ
count_slashes [] = 0
count_slashes (c ∷ s) = let rest = count_slashes s in if c == b'/' then 1 + rest else rest

-- `reference` is not of a repository with a full digest; the platform is not OS/architecture.
pub data ImageError : Type 0 where
  bad_entry : InventoryError → ImageError
  bad_reference bad_platform : ℕ → ImageError

abbrev pub entry_error {ℓ} : {A : Type ℓ} → Result InventoryError A → Result ImageError A
entry_error (ok value) = ok value
entry_error (raise e) = raise (bad_entry e)

module _ {F : Type 0} where
  -- The body of the loop of `oci_inventory`.
  unfoldable pub image_of : ℕ → Fields F → Result ImageError Image
  image_of i fields = do
    path ← entry_error (safe_cache_path "oci_images" i (get "cache_path" fields))
    id ← demand (filled (as_text (get "id" fields))) (bad_entry (bad_id "oci_images" i))
    reference ← demand (as_text (get "reference" fields)) (bad_reference i)
    parts ← demand (rpartition (codes "@sha256:") reference) (bad_reference i)
    refuse (parts.0 == "") (bad_reference i)
    require (is_sha256 parts.1) (bad_reference i)
    platform ← demand (as_text (get "platform" fields)) (bad_platform i)
    require (count_slashes (codes platform) == 1) (bad_platform i)
    ok record {
      id = id;
      cache_path = path;
      reference = untagged parts.0 <> "@sha256:" <> lower parts.1;
      manifest_digest = "sha256:" <> lower parts.1;
      platform = platform;
    }

  unfoldable pub images_of : ℕ → List (Value F) → Result ImageError (List Image)
  images_of i [] = ok []
  images_of i (value ∷ more) = do
    fields ← demand (as_mapping (some value)) (bad_entry (not_a_mapping "oci_images" i))
    image ← image_of i fields
    rest ← images_of (i + 1) more
    ok (image ∷ rest)

  unfoldable pub oci_inventory : Fields F → Result ImageError (List Image)
  oci_inventory lock = do
    images ←
        demand (group_of (get "oci_images" lock) (some (Value.sequence Items.last)))
          (bad_entry (not_a_list "oci_images"))
    images_of 0 images

-- The errors of a copy: the command, its layout, the exceptions of the check, and an OSError where the
-- destination cannot be replaced.
pub data CopyError : Type 0 where
  command_failed : CopyError
  bad_layout : List LayoutProblem → CopyError
  check_raised : LayoutError → CopyError
  no_room : CopyError

abbrev pub destination_of : Image → List String
destination_of image = parts_of image.cache_path

module _ (C F : Type 0) (sha256 : C → String) (json : C → Json F) where
  -- A call that raises leaves a store too.
  abbrev pub AfterCopy : Type 0
  AfterCopy = Files C × Result CopyError (Unit {0})

  -- The removal of what is at the destination, and the move of the staged layout: `rmtree` fails on
  -- a file, it takes the stage away with a directory above `.staging`, and a file above the
  -- destination does not let its directory be made.
  unfoldable pub replace : List String → Files C → Files C → AfterCopy
  replace destination stage store =
      if is_inside destination (".staging" ∷ [])
      then (without destination store, raise no_room)
      else if is_file destination store || below_file destination store
      then (store, raise no_room)
      else (moved_to destination stage ++ without destination store, ok tt)

  -- The check of the staged layout, which replaces the destination if nothing is wrong.
  abbrev pub adopt : Image → Files C → Files C → Result LayoutError (List LayoutProblem) → AfterCopy
  adopt image stage store (raise e) = (store, raise (check_raised e))
  adopt image stage store (ok []) = replace (destination_of image) stage store
  adopt image stage store (ok (problem ∷ more)) = (store, raise (bad_layout (problem ∷ more)))

  -- From the copy on.
  abbrev pub fetch : Image → Option (Files C) → Files C → AfterCopy
  fetch image none store = (store, raise command_failed)
  fetch image (some stage) store =
      adopt image stage store (validate_oci_layout C F sha256 json image (directory_at [] stage))

  -- The check of the destination, if it is a directory.
  abbrev pub unless_valid :
      Files C → Result LayoutError (List LayoutProblem) → AfterCopy → AfterCopy
  unless_valid store (raise e) next = (store, raise (check_raised e))
  unless_valid store (ok []) next = (store, ok tt)
  unless_valid store (ok (problem ∷ more)) next = next

  unfoldable pub populate_oci_image : Image → Option (Files C) → Files C → AfterCopy
  populate_oci_image image copied store =
      let destination = destination_of image in
      if is_directory destination store
      then unless_valid store
          (validate_oci_layout C F sha256 json image (directory_at destination store))
          (fetch image copied store)
      else fetch image copied store

  -- What follows a call, unless it raised.
  abbrev pub and_then : AfterCopy → AfterCopy → AfterCopy
  and_then (store, ok done) next = next
  and_then (store, raise e) next = (store, raise e)

  -- The loop of `populate` over the images.
  unfoldable pub populate_images : (Image → Option (Files C)) → List Image → Files C → AfterCopy
  populate_images copy [] store = (store, ok tt)
  populate_images copy (image ∷ more) store =
      let first = populate_oci_image image (copy image) store in
      let next = populate_images copy more first.0 in and_then first next

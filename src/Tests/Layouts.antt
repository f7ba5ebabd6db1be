-- ===== src/Tests/Layouts.antt =====
-- A directory with the marker of a layout, and an index that is a JSON list; and one whose index
-- holds the locked manifest.
use k8labs.Base.{String, Option, some, [], ◌∷◌, refl, ok, ◌≡◌, ◌<>◌, ◌==◌, comparable_text}
use k8labs.Cache.Images.{populate_images, populate_oci_image, replace}
use k8labs.Cache.Paths.{Files, relative, is_directory, is_file, below_file, directory_at, without}
use k8labs.Cache.Paths.{moved_to}
use k8labs.Cache.Images.Laws.{IsValid, populate_images-IsValid}
use k8labs.Base.{All}
use k8labs.Base.{Value, Items, Fields, get, if◌then◌else◌}
use k8labs.Base.Dict
use k8labs.Base.Dict.{Dict}
use k8labs.Tests.Locks.{sha}
use k8labs.Cache.Layout.{Json, parsed, malformed}
use k8labs.Cache.Layout.{Image, validate_oci_layout, check_index, validate_blob, check_layers}
use k8labs.Cache.Layout.Laws.{IsPinned, validate_oci_layout_index_no_object}
use k8labs.Cache.Layout.Laws.{validate_oci_layout-IsPinned}

abbrev J : Type 0
J = Value String

abbrev field : String → J → Fields String
field k v = Fields.entry k v Fields.empty

abbrev locked : Image
locked = record {
  id = "node";
  cache_path = "images/node";
  reference = "registry/node";
  manifest_digest = "sha256:" <> sha;
  platform = "linux/amd64";
}

abbrev digest : String → String
digest content = sha

abbrev index_value : J
index_value = Value.mapping (
    field "manifests" (
      Value.sequence
        (Items.item (Value.mapping (field "digest" (Value.text ("sha256:" <> sha)))) Items.last)))

-- The reader: the name of a content is the value that it holds. One value serves as the manifest
-- and as the config.
abbrev json : String → Json String
json content =
    if content == "marker"
    then parsed (Value.mapping (field "imageLayoutVersion" (Value.text "1.0.0")))
    else if content == "list"
    then parsed (Value.sequence Items.last)
    else if content == "index"
    then parsed index_value
    else if content == "manifest"
    then parsed (
        Value.mapping (
          Fields.entry "config" (Value.mapping (field "digest" (Value.text ("sha256:" <> sha))))
            (Fields.entry "os" (Value.text "linux") (field "architecture" (Value.text "amd64")))))
    else malformed

abbrev broken : Dict String String
broken = ("oci-layout", "marker") ∷ ("index.json", "list") ∷ []

abbrev whole : Dict String String
whole =
    ("oci-layout", "marker") ∷ ("index.json", "index") ∷ ("blobs/sha256/" <> sha, "manifest") ∷ []

validate_oci_layout_index_no_object_example :
    validate_oci_layout String String digest json locked broken ≡ ok []
unfolding Dict.lookup
validate_oci_layout_index_no_object_example =
    validate_oci_layout_index_no_object String String digest json locked broken
      (some (Value.mapping (field "imageLayoutVersion" (Value.text "1.0.0"))))
      (Value.sequence Items.last) refl refl refl refl

passes : validate_oci_layout String String digest json locked whole ≡ ok []
unfolding validate_oci_layout check_index validate_blob check_layers Dict.lookup get
passes = refl

abbrev index_fields : Fields String
index_fields = field "manifests" (
    Value.sequence
      (Items.item (Value.mapping (field "digest" (Value.text ("sha256:" <> sha)))) Items.last))

validate_oci_layout-IsPinned_example : IsPinned String String digest json locked whole index_fields
unfolding Dict.lookup
validate_oci_layout-IsPinned_example =
    validate_oci_layout-IsPinned String String digest json locked whole index_value index_fields
      refl refl passes

abbrev copied : Image → Option (Files String)
copied image = some (
    (("oci-layout" ∷ []), "marker")
    ∷ (("index.json" ∷ []), "index")
    ∷ (("blobs" ∷ "sha256" ∷ sha ∷ []), "manifest")
    ∷ [])

populated : (populate_images String String digest json copied (locked ∷ []) []).1 ≡ ok tt
unfolding populate_images populate_oci_image replace relative is_directory is_file below_file
    directory_at without moved_to validate_oci_layout check_index validate_blob check_layers
    Dict.lookup get
populated = refl

populate_images-IsValid_example :
    All
      (IsValid String String digest json
        (populate_images String String digest json copied (locked ∷ []) []).0)
      (locked ∷ [])
populate_images-IsValid_example =
    populate_images-IsValid String String digest json copied (locked ∷ []) [] (tt, tt) populated

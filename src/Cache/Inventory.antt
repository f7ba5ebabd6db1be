-- ===== src/Cache/Inventory.antt =====
-- The inventories of scripts/cache.py: the artifacts that a lock asks for.
pub mod Laws
use Prim.Native.Char.{Char, code}
use k8labs.Base.{
  ℕ, zero, suc, ◌+◌, String, Bool, true, false, not, ◌&&◌, ◌||◌, Option, none, some, List, [], ◌∷◌,
  ◌++◌,
}
use k8labs.Base.{◌==◌, comparable_nat, comparable_text, if◌then◌else◌, length, all, contains, codes}
use k8labs.Base.{is_hex, Value, Items, Fields, get, as_text, as_mapping, as_sequence}
use k8labs.Base.{Result, ok, raise, ◌>>=◌, ◌>>◌, require, refuse, demand}
use k8labs.Base.Dict
use k8labs.Base.Dict.{Dict}
use k8labs.Lock.References.{fold}
use k8labs.Lock.Artifacts.{leaves_cache, group_of, Url}

-- The `raise` sites; the texts and the index are the location that the messages show.
pub data InventoryError : Type 0 where
  not_a_list : String → InventoryError
  not_a_mapping bad_path bad_id bad_digest bad_url : String → ℕ → InventoryError
  no_matrix : InventoryError
  bad_stage : ℕ → InventoryError
  bad_reference : ℕ → String → InventoryError

-- One entry of the list that `_artifact_inventory` returns.
pub record Item : Type 0 where
  pub id : String
  pub cache_path : String
  pub sha256 : String
  pub url : String

-- `str.lower`, over the ASCII letters from A to F.
abbrev pub lower_char : Char → Char
lower_char c =
    if code c == 65
    then "a"
    else if code c == 66
    then "b"
    else if code c == 67
    then "c"
    else if code c == 68
    then "d"
    else if code c == 69
    then "e"
    else if code c == 70
    then "f"
    else c

abbrev pub lower : String → String
lower String.[] = String.[]
lower (String.◌∷◌ c s) = String.◌∷◌ (lower_char c) (lower s)

-- `_is_sha256`, of a value that is a text.
abbrev pub is_sha256 : String → Bool
is_sha256 s = length (codes s) == 64 && all is_hex (codes (lower s))

-- A text that is not empty.
abbrev pub filled : Option String → Option String
filled none = none
filled (some s) = if s == "" then none else some s

module _ {F : Type 0} where
  -- `_safe_cache_path`
  unfoldable pub safe_cache_path : String → ℕ → Option (Value F) → Result InventoryError String
  safe_cache_path group i value = do
    path ← demand (filled (as_text value)) (bad_path group i)
    refuse (leaves_cache path) (bad_path group i)
    ok path

-- The list `selected` and the set `seen_ids`.
pub record Selection (F : Type 0) : Type 0 where
  pub selected : List (Value F)
  pub seen_ids : List String

module _ {F : Type 0} where
  -- The dict `by_id`: a later artifact of an id replaces an earlier one.
  unfoldable pub index_by_id : List (Value F) → Dict String (Value F) → Dict String (Value F)
  index_by_id [] by_id = by_id
  index_by_id (value ∷ more) by_id = elim (as_mapping (some value)) [
    | none ↦ index_by_id more by_id
    | some artifact ↦ elim (as_text (get "id" artifact)) [
      | none ↦ index_by_id more by_id
      | some id ↦ index_by_id more (Dict.insert id value by_id)
    ]
  ]

  module _ (by_id : Dict String (Value F)) where
    abbrev pub select_id : String → Value F → Selection F → Selection F
    select_id id artifact s =
        if contains s.seen_ids id
        then s
        else record { selected = s.selected ++ (artifact ∷ []); seen_ids = s.seen_ids ++ (id ∷ []) }

    unfoldable pub select_fields :
        ℕ → Fields F → List String → Selection F → Result InventoryError (Selection F)
    select_fields i stage [] s = ok s
    select_fields i stage (field ∷ more) s = do
      id ← demand (as_text (get field stage)) (bad_reference i field)
      artifact ← demand (Dict.lookup id by_id) (bad_reference i field)
      select_fields i stage more (select_id id artifact s)

    unfoldable pub select_stages :
        ℕ → List (Value F) → Selection F → Result InventoryError (Selection F)
    select_stages i [] s = ok s
    select_stages i (value ∷ more) s = do
      stage ← demand (as_mapping (some value)) (bad_stage i)
      next ←
          select_fields i stage
            ("kubelet_artifact" ∷ "control_plane_artifact" ∷ "cri_o_artifact" ∷ []) s
      select_stages (i + 1) more next

  abbrev pub some_stage : Option (List (Value F)) → Option (List (Value F))
  some_stage (some (x ∷ xs)) = some (x ∷ xs)
  some_stage _ = none

  abbrev pub as_value : List (Value F) → Items F
  as_value [] = Items.last
  as_value (v ∷ r) = Items.item v (as_value r)

-- `urlparse` is a parameter: none where it raises ValueError.
module _ (urlparse : String → Option Url) where
  abbrev pub uses_https : String → Bool
  uses_https url = elim (urlparse url) [ none ↦ false | some parsed ↦ parsed.scheme == "https" ]

module _ (urlparse : String → Option Url) {F : Type 0} where
  -- The body of the loop of `_artifact_inventory`.
  unfoldable pub item_of : String → ℕ → Fields F → Result InventoryError Item
  item_of group i artifact = do
    path ← safe_cache_path group i (get "cache_path" artifact)
    id ← demand (filled (as_text (get "id" artifact))) (bad_id group i)
    digest ← demand (as_text (get "sha256" artifact)) (bad_digest group i)
    require (is_sha256 digest) (bad_digest group i)
    url ← demand (as_text (get "url" artifact)) (bad_url group i)
    require (uses_https urlparse url) (bad_url group i)
    ok (record { id = id; cache_path = path; sha256 = lower digest; url = url })

  unfoldable pub items_of : String → ℕ → List (Value F) → Result InventoryError (List Item)
  items_of group i [] = ok []
  items_of group i (value ∷ more) = do
    artifact ← demand (as_mapping (some value)) (not_a_mapping group i)
    item ← item_of group i artifact
    rest ← items_of group (i + 1) more
    ok (item ∷ rest)

  -- `_artifact_inventory`
  unfoldable pub artifact_inventory : Fields F → String → Result InventoryError (List Item)
  artifact_inventory lock group = do
    artifacts ←
        demand (group_of (get group lock) (some (Value.sequence Items.last))) (not_a_list group)
    items_of group 0 artifacts

  abbrev pub inventory : Fields F → Result InventoryError (List Item)
  inventory lock = artifact_inventory lock "artifacts"

  abbrev pub guest_upgrade_inventory : Fields F → Result InventoryError (List Item)
  guest_upgrade_inventory lock = artifact_inventory lock "guest_upgrade_artifacts"

  -- `kubernetes_upgrade_inventory`
  unfoldable pub kubernetes_upgrade_inventory : Fields F → Result InventoryError (List Item)
  kubernetes_upgrade_inventory lock = do
    normal_items ← inventory lock
    guest_items ← guest_upgrade_inventory lock
    normal ←
        demand (group_of (get "artifacts" lock) (some (Value.sequence Items.last)))
          (not_a_list "artifacts")
    guest ←
        demand (group_of (get "guest_upgrade_artifacts" lock) (some (Value.sequence Items.last)))
          (not_a_list "guest_upgrade_artifacts")
    matrix ← demand (some_stage (as_sequence (get "kubernetes_upgrade_matrix" lock))) no_matrix
    s ←
        select_stages (index_by_id (normal ++ guest) []) 0 matrix
          (record { selected = []; seen_ids = [] })
    artifact_inventory
        (Fields.entry "matrix_artifacts" (Value.sequence (as_value s.selected)) Fields.empty)
        "matrix_artifacts"

-- ===== src/Tests/Caches.antt =====
-- The cache of the lock of Tests/Locks, over contents that are their own digests.
use k8labs.Base.{ne_of_same, comparable_text}
use k8labs.Base.{String, Bool, Option, some, List, [], ◌∷◌, refl, ok, ◌≡◌, true}
use k8labs.Base.{false}
use k8labs.Base.{Value, Items, get}
use k8labs.Base.Dict
use k8labs.Base.Dict.{Dict}
use k8labs.Tests.Locks.{V, lock, https, sha}
use k8labs.Lock.Artifacts.{climbs, group_of}
use k8labs.Cache.Inventory.{Item, item_of, items_of, artifact_inventory, safe_cache_path}
use k8labs.Cache.Inventory.Laws.{Inventory, artifact_inventory-Inventory}
use k8labs.Cache.Paths.{comparable_parts, relative, is_directory, below_file}
use k8labs.Cache.Store.{download, populate_items, validate_items, prune_entries}
use k8labs.Cache.Store.Laws.{Separate, validate_items-populate_items}
use k8labs.Cache.Store.Laws.{IsPruned, prune_entries-IsPruned}

abbrev entry_for : String → Item
entry_for name = record { id = name; cache_path = name; sha256 = sha; url = name }

abbrev same : String → String
same s = s

abbrev served : String → Option String
served url = some sha

abbrev entries : List Item
entries = entry_for "a" ∷ entry_for "b" ∷ []

abbrev listed : List Item
listed =
    record { id = "crio"; cache_path = "bin/crio"; sha256 = sha; url = "https://host/file" } ∷ []

inventoried : artifact_inventory https lock "guest_upgrade_artifacts" ≡ ok listed
unfolding artifact_inventory items_of item_of safe_cache_path get climbs
inventoried = refl

abbrev Listed : Type 0
Listed =
    (values : List V) × (group_of (get "guest_upgrade_artifacts" lock)
        (some (Value.sequence Items.last))
      ≡ some values)
    × Inventory https values listed

artifact_inventory-Inventory_example : Listed
artifact_inventory-Inventory_example =
    artifact_inventory-Inventory https lock "guest_upgrade_artifacts" inventoried

separate : Separate String same entries
separate = (
  ne_of_same (".a.tmp" ∷ []) ("a" ∷ []) refl,
  ((ne_of_same ("b" ∷ []) ("a" ∷ []) refl, ne_of_same (".b.tmp" ∷ []) ("a" ∷ []) refl), tt),
  (ne_of_same (".b.tmp" ∷ []) ("b" ∷ []) refl, tt, tt),
)

populated : (populate_items String same served entries []).1 ≡ ok tt
unfolding populate_items download relative is_directory below_file Dict.lookup Dict.insert
    Dict.erase
populated = refl

validate_items-populate_items_example :
    validate_items String same entries (populate_items String same served entries []).0 ≡ []
validate_items-populate_items_example =
    validate_items-populate_items String same served entries [] separate populated

abbrev directory : List (String × Bool)
directory = ("old", true) ∷ ("now", true) ∷ ("note", false) ∷ []

prune_entries-IsPruned_example : IsPruned "now" directory (prune_entries "now" directory)
prune_entries-IsPruned_example = prune_entries-IsPruned "now" directory

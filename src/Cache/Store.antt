-- ===== src/Cache/Store.antt =====
-- The files of the cache: `_download`, the checks and the population of the upgrade artifacts, and
-- `prune`, all of scripts/cache.py. What a URL serves and the
-- SHA-256 of a content are parameters.
pub mod Laws
use k8labs.Base.{
  ℕ, ◌+◌, String, ◌<>◌, Bool, true, false, not, ◌&&◌, Option, none, some, List, [], ◌∷◌, ◌++◌,
}
use k8labs.Base.{◌==◌, comparable_nat, comparable_text, if◌then◌else◌, contains, codes}
use k8labs.Base.{Result, ok, raise, ◌>>=◌, ◌>>◌}
use k8labs.Base.Dict
use k8labs.Base.Dict.{Dict}
use k8labs.Base.{◌||◌}
use k8labs.Cache.Inventory.{Item}
use k8labs.Cache.Paths.{Files, comparable_parts, parts_of, is_directory, below_file}

-- The two RuntimeErrors of `_download`, with the id of the item, and an OSError outside its `try`: the
-- directory of the file cannot be made, or a directory stands in the place of a file.
pub data DownloadError : Type 0 where
  failed_download wrong_checksum os_error : String → DownloadError

-- The messages of the checks.
pub data Problem : Type 0 where
  missing_artifact checksum_mismatch : String → String → Problem

-- `path.with_name(f".{path.name}.tmp")`. The one of the directory of the cache stands beside it.
abbrev pub temporary_of : List String → List String
temporary_of [] = ".." ∷ ".tmp" ∷ []
temporary_of (name ∷ []) = ("." <> name <> ".tmp") ∷ []
temporary_of (part ∷ next ∷ more) = part ∷ temporary_of (next ∷ more)

abbrev pub place_of : Item → List String
place_of item = parts_of item.cache_path

module _ (C : Type 0) (sha256 : C → String) where
  -- The files under the directory of the cache.
  abbrev pub Store : Type 0
  Store = Files C

  -- `destination.is_file() and _sha256_file(destination) == item["sha256"]`
  abbrev pub is_cached : Item → Option C → Bool
  is_cached item none = false
  is_cached item (some content) = sha256 content == item.sha256

  -- A call that raises leaves a store too.
  abbrev pub After : Type 0
  After = Store × Result DownloadError (Unit {0})

  -- The directory of the file cannot be made, or the temporary file cannot be opened or unlinked.
  abbrev pub stuck : Item → Store → Bool
  stuck item store =
      below_file (place_of item) store || is_directory (temporary_of (place_of item)) store

  -- From the last chunk of the response on.
  abbrev pub fetched : Item → C → Store → After
  fetched item content store =
      let temporary = temporary_of (place_of item) in
      let written = Dict.insert temporary content store in
      if not (sha256 content == item.sha256)
      then (Dict.erase temporary written, raise (wrong_checksum item.id))
      else if is_directory (place_of item) store
      then (written, raise (os_error item.id))
      else (Dict.insert (place_of item) content (Dict.erase temporary written), ok tt)

  -- `response` is what `urlopen` serves: none is an OSError or a URLError on the way.
  abbrev pub served : Item → Option C → Store → After
  served item none store =
      (Dict.erase (temporary_of (place_of item)) store, raise (failed_download item.id))
  served item (some content) store = fetched item content store

  unfoldable pub download : Item → Option C → Store → After
  download item response store =
      if is_cached item (Dict.lookup (place_of item) store)
      then (store, ok tt)
      else if stuck item store
      then (store, raise (os_error item.id))
      else served item response store

  -- What follows a call, unless it raised.
  abbrev pub proceed : After → After → After
  proceed (store, ok done) next = next
  proceed (store, raise failed) next = (store, raise failed)

  -- The loop of `populate_guest_upgrade_artifacts` and `populate_kubernetes_upgrade_artifacts`.
  unfoldable pub populate_items : (String → Option C) → List Item → Store → After
  populate_items serve [] store = (store, ok tt)
  populate_items serve (item ∷ more) store =
      let after = download item (serve item.url) store in
      let next = populate_items serve more after.0 in proceed after next

  -- The problem of an item, before the problems of those after it.
  abbrev pub report : Item → Option C → List Problem → List Problem
  report item none rest = missing_artifact item.id item.cache_path ∷ rest
  report item (some content) rest =
      if sha256 content == item.sha256
      then rest
      else checksum_mismatch item.id item.cache_path ∷ rest

  -- The loop of `validate_guest_upgrade_cache` and `validate_kubernetes_upgrade_cache`.
  unfoldable pub validate_items : List Item → Store → List Problem
  validate_items [] store = []
  validate_items (item ∷ more) store =
      let rest = validate_items more store in report item (Dict.lookup (place_of item) store) rest

-- One entry of the directory of locks, before those after it: what stays, and what is removed.
abbrev pub one_entry :
    String → String → Bool → List (String × Bool) × List String → List (String × Bool) × List String
one_entry active name is_dir rest =
    if is_dir && not (name == active)
    then (rest.0, name ∷ rest.1)
    else ((name, is_dir) ∷ rest.0, rest.1)

-- The loop of `prune` over the entries of the directory of locks, each with its `is_dir`: the
-- entries that stay, and the names that were removed.
unfoldable pub prune_entries : String → List (String × Bool) → List (String × Bool) × List String
prune_entries active [] = ([], [])
prune_entries active ((name, is_dir) ∷ more) =
    one_entry active name is_dir (prune_entries active more)

-- ===== src/Addons/Discover.antt =====
-- `discover_manifests` of scripts/generate_capi_addons.py, from what the file system holds.
use k8labs.Base.{ℕ, String, Bool, Option, List, [], ◌∷◌, map}
use k8labs.Base.{comparable_text, if◌then◌else◌, length, codes, sort_by}
use k8labs.Base.{Result, ok, ◌>>=◌, ◌>>◌, refuse, demand, is_empty, repeats}
use k8labs.Addons.{ManifestEntry, canonical_key, by_key}

-- The `raise` sites, those of a directory with its name, and `int` of a float that is not finite.
pub data AddonError : Type 0 where
  no_directory no_files duplicate_keys : String → AddonError
  too_large : String → ℕ → ℕ → AddonError
  no_integer : AddonError

-- What `glob` or `rglob` finds: the path below the addon's directory, `is_file`, and the bytes.
pub record Found : Type 0 where
  pub path : String
  pub is_file : Bool
  pub content : List ℕ

-- The length of a base64 text is a function of the bytes.
module _ (base64 : List ℕ → String) where
  abbrev pub entry_of : Found → ManifestEntry
  entry_of found = record {
    key = canonical_key found.path;
    path = found.path;
    content = found.content;
    encoded_size = length (codes (base64 found.content));
  }

  -- The loop over the files found.
  unfoldable pub entries_of : List Found → List ManifestEntry
  entries_of [] = []
  entries_of (found ∷ more) =
      let rest = entries_of more in if found.is_file then entry_of found ∷ rest else rest

  abbrev pub keys_of : List ManifestEntry → List String
  keys_of entries = map (λ e. e.key) entries

  -- `files` is none where the directory is missing.
  unfoldable pub discover_manifests :
      String → Option (List Found) → Result AddonError (List ManifestEntry)
  discover_manifests addon files = do
    found ← demand files (no_directory addon)
    refuse (is_empty found) (no_files addon)
    let entries = sort_by by_key (entries_of found)
    refuse (repeats (keys_of entries)) (duplicate_keys addon)
    ok entries

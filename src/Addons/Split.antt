-- ===== src/Addons/Split.antt =====
-- `split_by_size` of scripts/generate_capi_addons.py. The group that is being filled is the last
-- of the list that the code returns: `done` are the groups before it, `current` it is.
pub mod Groups
pub mod Laws
use k8labs.Base.{ℕ, suc, ◌+◌, String, Option, none, some, List, [], ◌∷◌, ◌++◌}
use k8labs.Base.{ltb, if◌then◌else◌, length, sort_by, Result, ok, raise}
use k8labs.Addons.{ManifestEntry, numbered, SecretGroup, by_key}
use k8labs.Addons.Discover.{AddonError, too_large}

module _ (base_name : String) (threshold : ℕ) where
  -- A new group, the `n`-th, with one entry.
  abbrev pub opened : ℕ → ManifestEntry → SecretGroup
  opened n e = record {
    name = numbered base_name n;
    entries = e ∷ [];
    encoded_size = e.encoded_size;
  }

  -- `current_group.entries.append(entry)`, and its size.
  abbrev pub added : SecretGroup → ManifestEntry → SecretGroup
  added g e = record g {
    entries = g.entries ++ (e ∷ []);
    encoded_size = g.encoded_size + e.encoded_size;
  }

  -- The loop over the sorted entries.
  unfoldable pub pack :
      List SecretGroup
      → Option SecretGroup
      → List ManifestEntry
      → Result AddonError (List SecretGroup)
  pack done none [] = ok done
  pack done (some current) [] = ok (done ++ (current ∷ []))
  pack done none (e ∷ more) =
      let next = pack done (some (opened (length done + 1) e)) more in
      if ltb threshold e.encoded_size
      then raise (too_large e.path e.encoded_size threshold)
      else next
  pack done (some current) (e ∷ more) =
      let full = done ++ (current ∷ []) in
      let next = pack full (some (opened (length full + 1) e)) more in
      let same = pack done (some (added current e)) more in
      if ltb threshold e.encoded_size
      then raise (too_large e.path e.encoded_size threshold)
      else if ltb threshold (current.encoded_size + e.encoded_size)
      then next
      else same

  unfoldable pub split_by_size : List ManifestEntry → Result AddonError (List SecretGroup)
  split_by_size entries = pack [] none (sort_by by_key entries)

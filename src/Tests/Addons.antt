-- ===== src/Tests/Addons.antt =====
-- Addons with short files, a base64 that counts, and a writer that writes the same text.
use k8labs.Base.{
  ℕ, String, Bool, true, false, none, some, List, [], ◌∷◌, ◌≡◌, refl, ◌↔◌, All, arith,
}
use k8labs.Base.{◌<>◌, Floats, Value, Result, ok, ◌≤◌, Option}
use k8labs.Base
use k8labs.Tests.Numbers.{thousandths}
use k8labs.Addons.{ManifestEntry, SecretGroup}
use k8labs.Addons.Discover.{AddonError, Found}
use k8labs.Addons.Split.{split_by_size}
use k8labs.Addons.Split.Laws.{IsSplit, split_by_size-IsSplit}
use k8labs.Addons.Generate.{World, Sources, Secrets, check, main, Args}
use k8labs.Addons.Generate.Laws.{fresh, generation, IsGenerated, check_iff, main-main}
use k8labs.Addons
use k8labs.Addons.Discover
use k8labs.Addons.Split
use k8labs.Addons.Generate
use k8labs.Base.Dict

abbrev entry_of_size : String → ℕ → ManifestEntry
entry_of_size key size = record { key = key; path = key; content = []; encoded_size = size }

abbrev three_entries : List ManifestEntry
three_entries = entry_of_size "c" 400 ∷ entry_of_size "a" 600 ∷ entry_of_size "b" 500 ∷ []

split_by_size-IsSplit_example :
    (groups : List SecretGroup) × (split_by_size "cilium" 1000 three_entries ≡ ok groups)
    × IsSplit "cilium" 1000 three_entries groups
split_by_size-IsSplit_example =
    split_by_size-IsSplit "cilium" 1000 three_entries
      (omega arith, (omega arith, (omega arith, tt)))

abbrev base64 : List ℕ → String
base64 [] = ""
base64 (b ∷ bytes) = "x" <> base64 bytes

abbrev dump : Value ℕ → String
dump document = "document"

abbrev file : String → Found
file path = record { path = path; is_file = true; content = 1 ∷ 2 ∷ [] }

abbrev sources : Sources
sources = record {
  rbac = some (file "role.yaml" ∷ []);
  coredns = some (file "coredns.yaml" ∷ []);
  cilium = some (file "install/crds.yaml" ∷ file "agent.yaml" ∷ []);
}

-- A directory from which a Secret is missing.
abbrev world : World
world = record { output = ("rbac-crs.yaml", "document") ∷ []; tracked = [] }

abbrev made : World
made = (fresh thousandths base64 dump sources world).0

abbrev results : Secrets
results =
    ("rbac", "rbac-manifests" ∷ [])
    ∷ ("coredns", "coredns-manifests" ∷ [])
    ∷ ("cilium", "cilium-manifests-1" ∷ [])
    ∷ []

generated : fresh thousandths base64 dump sources world ≡ (made, ok results)
unfolding Generate.generate_all Generate.with_crs Generate.generate_secrets Generate.after
    Generate.generate_one Discover.discover_manifests Base.sort_by Discover.entries_of
    Base.insert_by Generate.generate_cilium Generate.cilium_groups Addons.canonical_key
    Generate.threshold_of Generate.compute_default_threshold Generate.longest_payload split_by_size
    Split.pack Base.numeral Generate.assemble_secret Generate.data_of Generate.generate_crs_manifest
    Generate.longest Generate.resources Generate.serialize_secret Generate.texts Generate.update_crs
    Generate.write_crs Generate.write_groups Generate.write_secret Dict.insert Dict.lookup
    Base.numeral_on
generated = refl

check_iff_example :
    ((check thousandths base64 dump sources world).1 ≡ ok true
      ↔ All (IsGenerated made.output) world.output)
    × ((check thousandths base64 dump sources world).0
        ≡ record { output = world.output; tracked = made.tracked })
check_iff_example = check_iff thousandths base64 dump sources world made results generated

abbrev start : World
start = record { output = []; tracked = ("cilium-crs.yaml", "old") ∷ [] }

abbrev built : World
built = (main thousandths base64 dump generation sources start).0

exits : main thousandths base64 dump generation sources start ≡ (built, 0)
unfolding main Generate.status_of_generate Generate.generate_all Generate.with_crs
    Generate.generate_secrets Generate.after Generate.generate_one Discover.discover_manifests
    Base.sort_by Discover.entries_of Base.insert_by Generate.generate_cilium Generate.cilium_groups
    Addons.canonical_key Generate.threshold_of Generate.compute_default_threshold
    Generate.longest_payload split_by_size Split.pack Base.numeral Generate.assemble_secret
    Generate.data_of Generate.generate_crs_manifest Generate.longest Generate.resources
    Generate.serialize_secret Generate.texts Generate.update_crs Generate.write_crs
    Generate.write_groups Generate.write_secret Dict.insert Dict.lookup Base.numeral_on
exits = refl

abbrev checking : Args
checking = record {
  check = true;
  output_exists = true;
  cilium_limit = none;
  cluster_name = "k8labs";
}

main-main_example : (main thousandths base64 dump checking sources built).1 ≡ 0
main-main_example =
    main-main thousandths base64 dump sources start.tracked built checking exits refl refl

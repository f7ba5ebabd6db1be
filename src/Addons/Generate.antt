-- ===== src/Addons/Generate.antt =====
-- The writing of the addons: the Secrets, the ClusterResourceSets, and the check of an output
-- directory, of scripts/generate_capi_addons.py. A directory is a dict of texts by file name. Each
-- step gives the files as they stand, also where it raises.
pub mod Laws
use k8labs.Base.{ℕ, String, ◌<>◌, ◌==◌, comparable_text, if◌then◌else◌, ◌*◌, ◌-◌, ◌&&◌, min, max}
use k8labs.Base.{
  Bool, true, false, Option, none, some, List, [], ◌∷◌, map, ◌>>=◌, ◌||◌, length, ltb, codes,
}
use k8labs.Base.{Floats, Value, Items, Fields, Result, ok, raise, demand, sort_by, sum_by}
use k8labs.Base.{lt_text, ends_with, strip_prefix, contains, comparable_nat}
use k8labs.Base.Dict.{Dict, insert, lookup}
use k8labs.Addons.{ManifestEntry, SecretGroup}
use k8labs.Addons.Discover.{AddonError, no_integer, Found, discover_manifests}
use k8labs.Addons.Split.{split_by_size}

pub record GeneratedSecret : Type 0 where
  pub name : String
  pub payloads : Dict String String
  pub namespace : String
  pub secret_type : String

abbrev pub Files : Type 0
Files = Dict String String

-- The output directory, and the tracked files of `capi/addons`.
pub record World : Type 0 where
  pub output : Files
  pub tracked : Files

-- What the file system holds of each addon.
pub record Sources : Type 0 where
  pub rbac : Option (List Found)
  pub coredns : Option (List Found)
  pub cilium : Option (List Found)

-- The stripped lines of one Secret that exists, and the longest payload among them.
unfoldable pub longest : List (List ℕ) → ℕ → ℕ
longest [] so_far = so_far
longest (line ∷ more) so_far =
    let skipped = longest more so_far in
    let counted = longest more (max so_far (length line)) in
    elim (strip_prefix (codes "- ") line) [
      | some item ↦ skipped
      | none ↦ if ltb 200 (length line) && has_payload line then counted else skipped
    ]
  where
    -- Some character of the line is one that base64 writes.
    has_payload : List ℕ → Bool
    has_payload [] = false
    has_payload (c ∷ line) =
        contains (codes "AaBbCcDdEeFfGgHhIiJjKkLlMmNnOoPpQqRrSsTtUuVvWwXxYyZz0123456789+/=") c
        || has_payload line

unfoldable pub longest_payload : List (List (List ℕ)) → ℕ → ℕ
longest_payload [] so_far = so_far
longest_payload (secret ∷ more) so_far = longest_payload more (longest secret so_far)

-- A step's files, and its result or the error that ends the run.
abbrev pub Step : Type 0 → Type 0
Step A = Files × Result AddonError A

-- The names of the Secrets of each addon.
abbrev pub Secrets : Type 0
Secrets = Dict String (List String)

unfoldable pub after : {A B : Type 0} → Step A → (Files → A → Step B) → Step B
after (files, raise e) next = (files, raise e)
after (files, ok value) next = next files value

-- The loop over the files of the output directory, with the generated ones.
unfoldable pub compare : Files → Files → Bool
compare expected [] = true
compare expected ((name, content) ∷ more) =
    let rest = compare expected more in
    if ends_with ".yaml" name
    then (elim (lookup name expected) [
      | none ↦ false
      | some generated ↦ content == generated && rest
    ])
    else rest

-- The comparison with what was made, if it was.
unfoldable pub judged : World → World × Result AddonError Secrets → World × Result AddonError Bool
judged world (made, raise e) = (record world { tracked = made.tracked }, raise e)
judged world (made, ok results) = (
  record world { tracked = made.tracked },
  ok (compare made.output (sort_by (λ a b. lt_text a.0 b.0) world.output)),
)

module _ (F : Floats) (base64 : List ℕ → String) (dump : Value F.Float → String) where
  unfoldable pub compute_default_threshold : List (List (List ℕ)) → Result AddonError ℕ
  compute_default_threshold existing =
      let payload = longest_payload existing 0 in
      if ltb 0 payload
      then (do
        scaled ← demand (F.trunc (F.mul (F.of_nat payload) (F.decimal 110 2))) no_integer
        ok (min scaled (1024 * 1024 - 4096)))
      else ok (900 * 1024)

  unfoldable pub data_of : List ManifestEntry → Dict String String → Dict String String
  data_of [] made = made
  data_of (entry ∷ more) made = data_of more (insert entry.key (base64 entry.content) made)

  unfoldable pub assemble_secret : SecretGroup → String → GeneratedSecret
  assemble_secret group namespace = record {
    name = group.name;
    payloads = data_of group.entries [];
    namespace = namespace;
    secret_type = "addons.cluster.x-k8s.io/resource-set";
  }

  -- The texts of a dict as a mapping.
  unfoldable pub texts : Dict String String → Fields F.Float
  texts [] = Fields.empty
  texts ((key, value) ∷ more) = Fields.entry key (Value.text value) (texts more)

  unfoldable pub serialize_secret : GeneratedSecret → String
  serialize_secret secret = dump (
      Value.mapping (
        Fields.entry "apiVersion" (Value.text "v1") (
          Fields.entry "kind" (Value.text "Secret") (
            Fields.entry "metadata"
              (Value.mapping (texts (("name", secret.name) ∷ ("namespace", secret.namespace) ∷ [])))
              (Fields.entry "type" (Value.text secret.secret_type) (
                Fields.entry "data"
                  (Value.mapping (texts (sort_by (λ a b. lt_text a.0 b.0) secret.payloads)))
                  Fields.empty))))))

  -- `[{"kind": "Secret", "name": name} for name in secret_names]`
  unfoldable pub resources : List String → Items F.Float
  resources [] = Items.last
  resources (name ∷ more) =
      Items.item (Value.mapping (texts (("kind", "Secret") ∷ ("name", name) ∷ []))) (resources more)

  unfoldable pub generate_crs_manifest : String → List String → String → String → Value F.Float
  generate_crs_manifest crs_name secret_names cluster_name namespace = Value.mapping (
      Fields.entry "apiVersion" (Value.text "addons.cluster.x-k8s.io/v1beta2") (
        Fields.entry "kind" (Value.text "ClusterResourceSet") (
          Fields.entry "metadata"
            (Value.mapping (texts (("name", crs_name) ∷ ("namespace", namespace) ∷ [])))
            (Fields.entry "spec"
              (Value.mapping (
                Fields.entry "clusterSelector"
                  (Value.mapping (
                    Fields.entry "matchLabels"
                      (Value.mapping (texts (("cluster.x-k8s.io/cluster-name", cluster_name) ∷ [])))
                      Fields.empty))
                  (Fields.entry "resources" (Value.sequence (resources secret_names))
                    Fields.empty)))
              Fields.empty))))

  -- A Secret in its file.
  unfoldable pub write_secret : SecretGroup → Files → Files
  write_secret group files =
      insert (group.name <> ".yaml") (serialize_secret (assemble_secret group "default")) files

  -- An addon that is one Secret; the result is the names of its Secrets.
  unfoldable pub generate_one : String → String → Option (List Found) → Files → Step (List String)
  generate_one base_name addon found files = elim (discover_manifests base64 addon found) [
    | raise e ↦ (files, raise e)
    | ok entries ↦
        let group : SecretGroup = record {
          name = base_name;
          entries = entries;
          encoded_size = sum_by (λ e. e.encoded_size) entries;
        } in
        (write_secret group files, ok (base_name ∷ []))
  ]

  unfoldable pub write_groups : List SecretGroup → Files → Files
  write_groups [] files = files
  write_groups (group ∷ more) files = write_groups more (write_secret group files)

  unfoldable pub threshold_of : Option ℕ → List (List (List ℕ)) → Result AddonError ℕ
  threshold_of none existing = compute_default_threshold existing
  threshold_of (some cilium_limit) existing = ok cilium_limit

  unfoldable pub cilium_groups :
      Option (List Found) → Option ℕ → List (List (List ℕ)) → Result AddonError (List SecretGroup)
  cilium_groups found cilium_limit existing = do
    entries ← discover_manifests base64 "cilium" found
    threshold ← threshold_of cilium_limit existing
    split_by_size "cilium-manifests" threshold entries

  unfoldable pub generate_cilium :
      Option (List Found) → Option ℕ → List (List (List ℕ)) → Files → Step (List String)
  generate_cilium found cilium_limit existing files =
      elim (cilium_groups found cilium_limit existing) [
        | raise e ↦ (files, raise e)
        | ok groups ↦ (write_groups groups files, ok (map (λ g. g.name) groups))
      ]

  unfoldable pub generate_secrets : Sources → Option ℕ → List (List (List ℕ)) → Files → Step Secrets
  generate_secrets sources cilium_limit existing start =
      after (generate_one "rbac-manifests" "rbac" sources.rbac start) λ with_rbac rbac.
        after (generate_one "coredns-manifests" "coredns" sources.coredns with_rbac) λ both coredns.
          after (generate_cilium sources.cilium cilium_limit existing both) λ files cilium.
            (files, ok (("rbac", rbac) ∷ ("coredns", coredns) ∷ ("cilium", cilium) ∷ []))

  abbrev pub serialize_crs : String → String → List String → String
  serialize_crs cluster_name crs_name secret_names =
      dump (generate_crs_manifest crs_name secret_names cluster_name "default")

  unfoldable pub write_crs : String → Secrets → Files → Files
  write_crs cluster_name [] files = files
  write_crs cluster_name ((addon, names) ∷ more) files =
      let crs_name = addon <> "-crs" in
      write_crs cluster_name more
        (insert (crs_name <> ".yaml") (serialize_crs cluster_name crs_name names) files)

  -- `if crs_path.exists()`: only a tracked file is written again.
  unfoldable pub update_crs : String → Secrets → Files → Files
  update_crs cluster_name [] tracked = tracked
  update_crs cluster_name ((addon, names) ∷ more) tracked =
      let crs_name = addon <> "-crs" in
      let path = crs_name <> ".yaml" in
      let written = insert path (serialize_crs cluster_name crs_name names) tracked in
      update_crs cluster_name more
        (elim (lookup path tracked) [ none ↦ tracked | some old ↦ written ])

  -- The resource sets of the addons, in the output directory and, where asked, in `capi/addons`.
  unfoldable pub with_crs : String → Bool → World → Step Secrets → World × Result AddonError Secrets
  with_crs cluster_name update_tracked_crs world (files, raise e) =
      (record world { output = files }, raise e)
  with_crs cluster_name update_tracked_crs world (files, ok results) = (
    record {
      output = write_crs cluster_name results files;
      tracked =
          if update_tracked_crs
          then update_crs cluster_name results world.tracked
          else world.tracked;
    },
    ok results,
  )

  unfoldable pub generate_all :
      Sources
      → Option ℕ
      → String
      → List (List (List ℕ))
      → Bool
      → World
      → World × Result AddonError Secrets
  generate_all sources cilium_limit cluster_name existing update_tracked_crs world =
      with_crs cluster_name update_tracked_crs world
        (generate_secrets sources cilium_limit existing world.output)

  -- The temporary directory is empty, and the tracked files are those of the repository.
  unfoldable pub check : Sources → World → World × Result AddonError Bool
  check sources world =
      judged world
        (generate_all sources none "k8labs" [] true record { output = []; tracked = world.tracked })

-- What the command line gives; `output_exists` is `args.output_dir.exists()`.
pub record Args : Type 0 where
  pub check : Bool
  pub output_exists : Bool
  pub cilium_limit : Option ℕ
  pub cluster_name : String

-- `return 0 if ok else 1`, and 1 for what `check` raises.
unfoldable pub status_of_check : World × Result AddonError Bool → World × ℕ
status_of_check (made, raise e) = (made, 1)
status_of_check (made, ok valid) = (made, if valid then 0 else 1)

-- `return 0`, and 1 for what `generate_all` raises.
unfoldable pub status_of_generate : World × Result AddonError Secrets → World × ℕ
status_of_generate (made, raise e) = (made, 1)
status_of_generate (made, ok results) = (made, 0)

module _ (F : Floats) (base64 : List ℕ → String) (dump : Value F.Float → String) where
  -- The exit status.
  unfoldable pub main : Args → Sources → World → World × ℕ
  main args sources world =
      let checked = status_of_check (check F base64 dump sources world) in
      let generated =
        status_of_generate
          (generate_all F base64 dump sources args.cilium_limit args.cluster_name [] true world) in
      if args.check then (if args.output_exists then checked else (world, 1)) else generated

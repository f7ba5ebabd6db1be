-- ===== src/Cache/Inventory/Laws.antt =====
-- What the inventories of scripts/cache.py hold.
use k8labs.Base.{ℕ, ◌+◌, String, true, false, Option, some, List, [], ◌∷◌, ◌≡◌, refl, arith}
use k8labs.Base.{demand, require, refuse, demand-eq-ok, require-eq-ok, refuse-eq-ok, >>=-eq-ok}
use k8labs.Base.{>>-eq-ok, ok, Value, Items, Fields, get, as_text, as_mapping}
use mathlib.Core.Path.{subst}
use k8labs.Lock.Artifacts.{leaves_cache, group_of, Url}
use k8labs.Cache.Inventory.{Item, safe_cache_path, filled, is_sha256, lower, uses_https, item_of}
use k8labs.Cache.Inventory.{items_of, artifact_inventory}

module _ (urlparse : String → Option Url) {F : Type 0} where
  -- The entry of an artifact: its fields, with the digest in lower case.
  pub record IsItem (v : Value F) (item : Item) : Type 0 where
    pub artifact : Fields F
    pub artifact_is : as_mapping (some v) ≡ some artifact
    pub path_is : filled (as_text (get "cache_path" artifact)) ≡ some item.cache_path
    pub inside : leaves_cache item.cache_path ≡ false
    pub id_is : filled (as_text (get "id" artifact)) ≡ some item.id
    pub digest : String
    pub digest_is : as_text (get "sha256" artifact) ≡ some digest
    pub pinned : is_sha256 digest ≡ true
    pub sha256_is : item.sha256 ≡ lower digest
    pub url_is : as_text (get "url" artifact) ≡ some item.url
    pub https : uses_https urlparse item.url ≡ true

  -- The items are the entries of the values, in order.
  abbrev pub Inventory : List (Value F) → List Item → Type 0
  Inventory [] [] = Unit
  Inventory (v ∷ vs) (item ∷ items) = IsItem v item × Inventory vs items
  Inventory _ _ = ⊥

  safe_cache_path-eq-ok :
      (group : String) (i : ℕ) (v : Option (Value F)) {path : String}
      → safe_cache_path group i v ≡ ok path
      → (filled (as_text v) ≡ some path) × (leaves_cache path ≡ false)
  unfolding safe_cache_path
  safe_cache_path-eq-ok group i v {path} h =
      let (p, found, h1) = >>=-eq-ok (demand (filled (as_text v)) _) _ h in
      let (inside, h2) = >>-eq-ok (refuse (leaves_cache p) _) _ h1 in
      let e : p ≡ path = ground (arith, h2) in
      subst (λ q. (filled (as_text v) ≡ some q) × (leaves_cache q ≡ false)) e
        (demand-eq-ok _ _ found, refuse-eq-ok _ _ inside)

  item_of-IsItem :
      (group : String) (i : ℕ) (v : Value F) (artifact : Fields F) {item : Item}
      → as_mapping (some v) ≡ some artifact
      → item_of urlparse group i artifact ≡ ok item
      → IsItem v item
  unfolding item_of
  item_of-IsItem group i v artifact {item} is_map h =
      let (path, found, h1) = >>=-eq-ok (safe_cache_path group i (get "cache_path" artifact)) _ h in
      let (id, has_id, h2) = >>=-eq-ok (demand (filled (as_text (get "id" artifact))) _) _ h1 in
      let (digest, has_digest, h3) = >>=-eq-ok (demand (as_text (get "sha256" artifact)) _) _ h2 in
      let (pinned, h4) = >>-eq-ok (require (is_sha256 digest) _) _ h3 in
      let (url, has_url, h5) = >>=-eq-ok (demand (as_text (get "url" artifact)) _) _ h4 in
      let (https, h6) = >>-eq-ok (require (uses_https urlparse url) _) _ h5 in
      let made : Item = record { id = id; cache_path = path; sha256 = lower digest; url = url } in
      let e : made ≡ item = ground (arith, h6) in
      let (path_is, inside) = safe_cache_path-eq-ok group i (get "cache_path" artifact) found in
      subst (IsItem v) e (record {
        artifact = artifact;
        artifact_is = is_map;
        path_is = path_is;
        inside = inside;
        id_is = demand-eq-ok _ _ has_id;
        digest = digest;
        digest_is = demand-eq-ok _ _ has_digest;
        pinned = require-eq-ok _ _ pinned;
        sha256_is = refl;
        url_is = demand-eq-ok _ _ has_url;
        https = require-eq-ok _ _ https;
      })

  items_of-Inventory :
      (group : String) (i : ℕ) (values : List (Value F)) {items : List Item}
      → items_of urlparse group i values ≡ ok items
      → Inventory values items
  unfolding items_of
  items_of-Inventory group i [] {items} h =
      let e : [] ≡ items = ground (arith, h) in subst (Inventory []) e tt
  items_of-Inventory group i (v ∷ more) {items} h =
      let (artifact, is_map, h1) = >>=-eq-ok (demand (as_mapping (some v)) _) _ h in
      let (item, made, h2) = >>=-eq-ok (item_of urlparse group i artifact) _ h1 in
      let (rest, others, h3) = >>=-eq-ok (items_of urlparse group (i + 1) more) _ h2 in
      let e : item ∷ rest ≡ items = ground (arith, h3) in
      subst (Inventory (v ∷ more)) e (
        item_of-IsItem group i v artifact (demand-eq-ok _ _ is_map) made,
        items_of-Inventory group (i + 1) more others,
      )

  -- An inventory lists every artifact of the group, in order, each with a path inside the cache, a
  -- full digest in lower case, and an HTTPS location.
  pub artifact_inventory-Inventory :
      (lock : Fields F) (group : String) {items : List Item}
      → artifact_inventory urlparse lock group ≡ ok items
      → (values : List (Value F)) × (group_of (get group lock) (some (Value.sequence Items.last))
          ≡ some values)
        × Inventory values items
  unfolding artifact_inventory
  artifact_inventory-Inventory lock group h =
      let (values, listed, h1) =
        >>=-eq-ok (demand (group_of (get group lock) (some (Value.sequence Items.last))) _) _ h in
      (values, demand-eq-ok _ _ listed, items_of-Inventory group 0 values h1)

-- ===== src/Cache/Store/Laws.antt =====
-- Downloads of scripts/cache.py, and the check of the files.
use k8labs.Base.{ne_of_same}
use k8labs.Base.{String, Bool, true, false, Option, none, some, List, [], ◌∷◌, ◌≡◌, ◌≢◌, ◌↔◌, refl}
use k8labs.Base.{All}
use k8labs.Base.{arith, ◌==◌, comparable_text, Bool-cases, inl, inr}
use k8labs.Base.{ok, raise, sym, ap, ◌∙◌}
use mathlib.Core.Path.{subst}
use mathlib.Core.List.{Perm, perm_middle}
use mathlib.Core.List.Perm
use k8labs.Base.{map, ◌++◌}
use k8labs.Base.{◌⊎◌}
use k8labs.Base.Dict
use k8labs.Base.Dict.{Dict}
use k8labs.Cache.Inventory.{Item}
use k8labs.Cache.Paths.{Files, comparable_parts, is_directory}
use k8labs.Cache.Store.{place_of, stuck, served}
use k8labs.Cache.Store.{Problem, temporary_of, is_cached, After, download, populate_items}
use k8labs.Cache.Store.{validate_items, prune_entries, one_entry, report, proceed}

module _ (C : Type 0) (sha256 : C → String) where
  -- The file of the item is there, with the locked digest.
  abbrev pub Cached : Files C → Item → Type 0
  Cached store item =
      (content : C) × (Dict.lookup (place_of item) store ≡ some content)
      × ((sha256 content == item.sha256) ≡ true)

  -- The files of the items, and the files that a download passes through, are different.
  abbrev pub Separate : List Item → Type 0
  Separate [] = Unit
  Separate (item ∷ more) =
      (temporary_of (place_of item) ≢ place_of item)
      × All (λ j. (place_of j ≢ place_of item) × (temporary_of (place_of j) ≢ place_of item)) more
      × Separate more

  served-other :
      (item : Item) (response : Option C) (store : Files C) (q : List String)
      → place_of item ≢ q
      → temporary_of (place_of item) ≢ q
      → Dict.lookup q (served C sha256 item response store).0 ≡ Dict.lookup q store
  served-other item none store q apart apart' =
      Dict.lookup-erase_ne q (temporary_of (place_of item)) store apart'
  served-other item (some content) store q apart apart' =
      let temporary = temporary_of (place_of item) in
      let written = Dict.insert temporary content store in
      let kept = Dict.lookup-insert_ne q temporary content store apart' in
      let gone = Dict.lookup-erase_ne q temporary written apart' ∙ kept in
      let placed =
        Dict.lookup-insert_ne q (place_of item) content (Dict.erase temporary written) apart
        ∙ gone in
      elim (Bool-cases (sha256 content == item.sha256)) [
        | inl same ↦ elim (Bool-cases (is_directory (place_of item) store)) [
          | inl taken ↦ rw (same, taken) kept
          | inr free ↦ rw (same, free) placed
        ]
        | inr differ ↦ rw differ gone
      ]

  download-other :
      (item : Item) (response : Option C) (store : Files C) (q : List String)
      → place_of item ≢ q
      → temporary_of (place_of item) ≢ q
      → Dict.lookup q (download C sha256 item response store).0 ≡ Dict.lookup q store
  unfolding download
  download-other item response store q apart apart' =
      elim (Bool-cases (is_cached C sha256 item (Dict.lookup (place_of item) store))) [
        | inl there ↦ rw there refl
        | inr lacking ↦ elim (Bool-cases (stuck C sha256 item store)) [
          | inl no_room ↦ rw (lacking, no_room) refl
          | inr free ↦ rw (lacking, free) (served-other item response store q apart apart')
        ]
      ]

  placed : Item → C → Files C → Files C
  placed item content store =
      let temporary = temporary_of (place_of item) in
      Dict.insert (place_of item) content
        (Dict.erase temporary (Dict.insert temporary content store))

  served-eq-ok :
      (item : Item) (response : Option C) (store : Files C)
      → (served C sha256 item response store).1 ≡ ok tt
      → (content : C) × ((sha256 content == item.sha256) ≡ true)
        × ((served C sha256 item response store).0 ≡ placed item content store)
  unfolding placed
  served-eq-ok item none store h = absurd (cc)
  served-eq-ok item (some content) store h = elim (Bool-cases (sha256 content == item.sha256)) [
    | inl same ↦ elim (Bool-cases (is_directory (place_of item) store)) [
      | inl taken ↦ absurd (cc (rw (same, taken) at h))
      | inr free ↦ (content, same, rw (same, free) refl)
    ]
    | inr differ ↦ absurd (cc (rw differ at h))
  ]

  download-eq-ok :
      (item : Item) (response : Option C) (store : Files C)
      → (download C sha256 item response store).1 ≡ ok tt
      → (is_cached C sha256 item (Dict.lookup (place_of item) store) ≡ true)
          × ((download C sha256 item response store).0 ≡ store)
        ⊎ (content : C) × ((sha256 content == item.sha256) ≡ true)
          × ((download C sha256 item response store).0 ≡ placed item content store)
  unfolding download
  download-eq-ok item response store h =
      elim (Bool-cases (is_cached C sha256 item (Dict.lookup (place_of item) store))) [
        | inl there ↦ inl (there, rw there refl)
        | inr lacking ↦ elim (Bool-cases (stuck C sha256 item store)) [
          | inl no_room ↦ absurd (cc (rw (lacking, no_room) at h))
          | inr free ↦
              let (content, same, stored) =
                served-eq-ok item response store (rw (lacking, free) at h) in
              inr (content, same, rw (lacking, free) stored)
        ]
      ]

  is_cached-eq_true :
      (item : Item) (o : Option C)
      → is_cached C sha256 item o ≡ true
      → (content : C) × (o ≡ some content) × ((sha256 content == item.sha256) ≡ true)
  is_cached-eq_true item none h = absurd (cc)
  is_cached-eq_true item (some content) h = (content, refl, h)

  download-Cached :
      (item : Item) (response : Option C) (store : Files C)
      → (download C sha256 item response store).1 ≡ ok tt
      → Cached (download C sha256 item response store).0 item
  unfolding placed
  download-Cached item response store h = elim (download-eq-ok item response store h) [
    | inl (there, same) ↦ subst (λ s. Cached s item) (sym same) (is_cached-eq_true item _ there)
    | inr (content, digest, stored) ↦
        subst (λ s. Cached s item) (sym stored)
          (content, Dict.lookup-insert_self (place_of item) content _, digest)
  ]

  proceed-keeps :
      (P : Files C → Type 0) (after next : After C sha256)
      → P (after.0)
      → P (next.0)
      → P (proceed C sha256 after next).0
  proceed-keeps P (store, ok done) next p q = q
  proceed-keeps P (store, raise failed) next p q = p

  proceed-eq-ok :
      (after next : After C sha256)
      → (proceed C sha256 after next).1 ≡ ok tt
      → (after.1 ≡ ok tt) × (proceed C sha256 after next ≡ next)
  proceed-eq-ok (store, ok tt) next h = (refl, refl)
  proceed-eq-ok (store, raise failed) next h = absurd (cc)

  populate_items-other :
      (serve : String → Option C) (items : List Item) (store : Files C) (q : List String)
      → All (λ j. (place_of j ≢ q) × (temporary_of (place_of j) ≢ q)) items
      → Dict.lookup q (populate_items C sha256 serve items store).0 ≡ Dict.lookup q store
  unfolding populate_items
  populate_items-other serve [] store q apart = refl
  populate_items-other serve (item ∷ more) store q apart =
      let after = download C sha256 item (serve item.url) store in
      let first = download-other item (serve item.url) store q apart.0.0 apart.0.1 in
      let rest = populate_items-other serve more after.0 q apart.1 in
      proceed-keeps (λ s. Dict.lookup q s ≡ Dict.lookup q store) after
        (populate_items C sha256 serve more after.0) first (rest ∙ first)

  populate_items-Cached :
      (serve : String → Option C) (items : List Item) (store : Files C)
      → Separate items
      → (populate_items C sha256 serve items store).1 ≡ ok tt
      → All (Cached (populate_items C sha256 serve items store).0) items
  unfolding populate_items
  populate_items-Cached serve [] store apart h = tt
  populate_items-Cached serve (item ∷ more) store apart h =
      let after = download C sha256 item (serve item.url) store in
      let next = populate_items C sha256 serve more after.0 in
      let (first, same) = proceed-eq-ok after next h in
      let (content, there, digest) = download-Cached item (serve item.url) store first in
      let (self, others, apart') = apart in
      let kept = populate_items-other serve more after.0 (place_of item) others in
      let rest = populate_items-Cached serve more after.0 apart' (ap (λ a. a.1) (sym same) ∙ h) in
      subst (λ a. All (Cached (a.0)) (item ∷ more)) (sym same)
        ((content, kept ∙ there, digest), rest)

  report-nil :
      (item : Item) (o : Option C) (rest : List Problem)
      → (report C sha256 item o rest ≡ [])
        ↔ ((content : C) × (o ≡ some content) × ((sha256 content == item.sha256) ≡ true))
          × (rest ≡ [])
  report-nil item none rest = (λ h. absurd (cc), λ h. absurd (cc))
  report-nil item (some content) rest = (
    λ h. elim (Bool-cases (sha256 content == item.sha256)) [
      | inl same ↦ ((content, refl, same), ground (arith, h, same))
      | inr differ ↦ absurd (ground (arith, h, differ))
    ],
    λ h. ground (arith, h),
  )

  -- The check of the upgrade artifacts reports nothing exactly if the file of each item is there
  -- with the locked digest.
  pub validate_items_iff :
      (items : List Item) (store : Files C)
      → (validate_items C sha256 items store ≡ []) ↔ All (Cached store) items
  unfolding validate_items
  validate_items_iff [] store = (λ h. tt, λ h. refl)
  validate_items_iff (item ∷ more) store =
      let one =
        report-nil item (Dict.lookup (place_of item) store) (validate_items C sha256 more store) in
      let rest = validate_items_iff more store in
      (λ h. ((one.0 h).0, rest.0 (one.0 h).1), λ h. one.1 (h.0, rest.1 h.1))

  -- After a population that did not raise, the check reports nothing, where the files of the items
  -- and the temporary files of the downloads are different, as paths with the same parts are not.
  pub validate_items-populate_items :
      (serve : String → Option C) (items : List Item) (store : Files C)
      → Separate items
      → (populate_items C sha256 serve items store).1 ≡ ok tt
      → validate_items C sha256 items (populate_items C sha256 serve items store).0 ≡ []
  validate_items-populate_items serve items store apart h =
      (validate_items_iff items (populate_items C sha256 serve items store).0).1
        (populate_items-Cached serve items store apart h)

-- The entry of a removed directory.
abbrev pub as_entry : String → String × Bool
as_entry name = (name, true)

-- What a pruning leaves of the entries, and what it removes.
abbrev pub IsPruned : String → List (String × Bool) → List (String × Bool) × List String → Type 0
IsPruned active entries (stay, removed) =
    Perm (map as_entry removed ++ stay) entries
    × All (λ name. name ≢ active) removed
    × All (λ e. e.1 ≡ true → e.0 ≡ active) stay

one_entry-IsPruned :
    (active name : String) (is_dir : Bool) (entries : List (String × Bool))
    (rest : List (String × Bool) × List String)
    → IsPruned active entries rest
    → IsPruned active ((name, is_dir) ∷ entries) (one_entry active name is_dir rest)
one_entry-IsPruned active name false entries (stay, removed) (all, other, own) = (
  Perm.trans (perm_middle (map as_entry removed) stay) (Perm.cons (name, false) all),
  other,
  (λ h. absurd (cc), own),
)
one_entry-IsPruned active name true entries (stay, removed) (all, other, own) =
    elim (Bool-cases (name == active)) [
      | inl same ↦ rw same (
        Perm.trans (perm_middle (map as_entry removed) stay) (Perm.cons (name, true) all),
        other,
        (λ h. comparable_text.same_iff.0 same, own),
      )
      | inr differ ↦
          rw differ (Perm.cons (name, true) all, (ne_of_same name active differ, other), own)
    ]

-- Pruning splits the entries into those that it removes, which are directories that are not of the
-- active lock, and those that stay, of which each directory is that of the active lock: an entry is
-- removed or stays, never both, and none is lost or made up.
pub prune_entries-IsPruned :
    (active : String) (entries : List (String × Bool))
    → IsPruned active entries (prune_entries active entries)
unfolding prune_entries
prune_entries-IsPruned active [] = (Perm.refl [], tt, tt)
prune_entries-IsPruned active ((name, is_dir) ∷ more) =
    one_entry-IsPruned active name is_dir more (prune_entries active more)
      (prune_entries-IsPruned active more)

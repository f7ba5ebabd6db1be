-- ===== src/Addons/Split/Laws.antt =====
-- What `split_by_size` of scripts/generate_capi_addons.py returns.
use mathlib.Core.List.{Perm}
use k8labs.Base.{ℕ, suc, ◌+◌, ◌*◌, ◌≤◌, ◌<◌, String, Option, none, some, List, [], ◌∷◌, ◌++◌, ◌≡◌}
use k8labs.Base.{refl}
use k8labs.Base.{arith, ltb, ltb→lt, ltb→ge, ge→ltb, length, length-append, All, Bool-cases}
use k8labs.Base.{inl, inr, ap, ◌∙◌, snoc-append, sort_by, sort_by-perm, sort_by-All}
use k8labs.Base.{sort_by-sum_by, ok}
use k8labs.Addons.{ManifestEntry, numbered, SecretGroup, by_key}
use k8labs.Addons.Split.{opened, added, pack, split_by_size}
use k8labs.Addons.Split.Groups.{total_size, total_size-append, entries_in, first_size, first_in}
use k8labs.Addons.Split.Groups.{IsGroup, Numbered, Tight, Tight-cons, first_size-snoc}
use k8labs.Addons.Split.Groups.{few_of-Tight}

module _ (base_name : String) (threshold : ℕ) where
  -- What the loop makes of the group that it fills and the entries that are left.
  record Packed (n : ℕ) (current : SecretGroup) (more : List ManifestEntry)
      (tail : List SecretGroup) : Type 0 where
    groups : All (IsGroup threshold) tail
    entries : entries_in tail ≡ current.entries ++ more
    numbers : Numbered base_name n tail
    tight : Tight threshold tail
    first : first_in tail ≡ first_size current.entries

  opened-IsGroup :
      (n : ℕ) (e : ManifestEntry)
      → e.encoded_size ≤ threshold
      → IsGroup threshold (opened base_name threshold n e)
  opened-IsGroup n e h = record { sized = omega arith; within = h; filled = omega arith }

  added-IsGroup :
      (g : SecretGroup) (e : ManifestEntry)
      → IsGroup threshold g
      → g.encoded_size + e.encoded_size ≤ threshold
      → IsGroup threshold (added base_name threshold g e)
  added-IsGroup g e h room = record {
    sized = omega (arith, h.sized, total_size-append g.entries (e ∷ []));
    within = room;
    filled = omega (arith, h.filled, length-append g.entries (e ∷ []));
  }

  Packed-next :
      (n : ℕ) (current : SecretGroup) (e : ManifestEntry) (more : List ManifestEntry)
      (tail : List SecretGroup)
      → IsGroup threshold current
      → current.name ≡ numbered base_name n
      → threshold < current.encoded_size + e.encoded_size
      → Packed (suc n) (opened base_name threshold (suc n) e) more tail
      → Packed n current (e ∷ more) (current ∷ tail)
  Packed-next n current e more tail is_group name full h = record {
    groups = (is_group, h.groups);
    entries = ap (λ l. current.entries ++ l) h.entries;
    numbers = (name, h.numbers);
    tight = Tight-cons threshold current tail (omega (arith, full, h.first)) h.tight;
    first = refl;
  }

  Packed-same :
      (n : ℕ) (current : SecretGroup) (e : ManifestEntry) (more : List ManifestEntry)
      (tail : List SecretGroup)
      → IsGroup threshold current
      → Packed n (added base_name threshold current e) more tail
      → Packed n current (e ∷ more) tail
  Packed-same n current e more tail is_group h = record {
    groups = h.groups;
    entries = h.entries ∙ snoc-append current.entries e more;
    numbers = h.numbers;
    tight = h.tight;
    first = h.first ∙ first_size-snoc current.entries e is_group.filled;
  }

  pack-Packed :
      (done : List SecretGroup) (n : ℕ) (current : SecretGroup) (es : List ManifestEntry)
      {groups : List SecretGroup}
      → length done + 1 ≡ n
      → IsGroup threshold current
      → current.name ≡ numbered base_name n
      → pack base_name threshold done (some current) es ≡ ok groups
      → (tail : List SecretGroup) × (groups ≡ done ++ tail) × Packed n current es tail
  unfolding pack
  pack-Packed done n current [] at_n is_group name h = (
    current ∷ [],
    cc,
    record {
      groups = (is_group, tt);
      entries = refl;
      numbers = (name, tt);
      tight = tt;
      first = refl;
    },
  )
  pack-Packed done n current (e ∷ more) at_n is_group name h =
      elim (Bool-cases (ltb threshold e.encoded_size)) [
        | inl large ↦ absurd (ground (arith, h, large))
        | inr small ↦ elim (Bool-cases (ltb threshold (current.encoded_size + e.encoded_size))) [
          | inl full ↦
              let at_next : length (done ++ (current ∷ [])) + 1 ≡ suc n =
                omega (arith, at_n, length-append done (current ∷ [])) in
              let (tail, same, packed) =
                pack-Packed (done ++ (current ∷ [])) (suc n) (opened base_name threshold (suc n) e)
                  more at_next (opened-IsGroup (suc n) e (ltb→ge threshold e.encoded_size small))
                  refl (cc) in
              (
                current ∷ tail,
                same ∙ snoc-append done current tail,
                Packed-next n current e more tail is_group name
                    (ltb→lt threshold (current.encoded_size + e.encoded_size) full) packed,
              )
          | inr room ↦
              let (tail, same, packed) =
                pack-Packed done n (added base_name threshold current e) more at_n
                  (added-IsGroup current e is_group
                    (ltb→ge threshold (current.encoded_size + e.encoded_size) room))
                  name (cc) in
              (tail, same, Packed-same n current e more tail is_group packed)
        ]
      ]

  -- Each entry fits, so the loop returns.
  pack-total :
      (done : List SecretGroup) (current : Option SecretGroup) (es : List ManifestEntry)
      → All (λ e. e.encoded_size ≤ threshold) es
      → (groups : List SecretGroup) × (pack base_name threshold done current es ≡ ok groups)
  unfolding pack
  pack-total done none [] fits = (done, refl)
  pack-total done (some current) [] fits = (done ++ (current ∷ []), refl)
  pack-total done none (e ∷ more) fits =
      let (groups, same) =
        pack-total done (some (opened base_name threshold (length done + 1) e)) more fits.1 in
      (groups, rw (ge→ltb threshold e.encoded_size fits.0) same)
  pack-total done (some current) (e ∷ more) fits =
      elim (Bool-cases (ltb threshold (current.encoded_size + e.encoded_size))) [
        | inl full ↦
            let next = done ++ (current ∷ []) in
            let (groups, same) =
              pack-total next (some (opened base_name threshold (length next + 1) e)) more fits.1 in
            (groups, rw (ge→ltb threshold e.encoded_size fits.0, full) same)
        | inr room ↦
            let (groups, same) =
              pack-total done (some (added base_name threshold current e)) more fits.1 in
            (groups, rw (ge→ltb threshold e.encoded_size fits.0, room) same)
      ]

  -- The loop from its start.
  record Started (es : List ManifestEntry) (groups : List SecretGroup) : Type 0 where
    kept : entries_in groups ≡ es
    bounded : All (IsGroup threshold) groups
    numbers : Numbered base_name 1 groups
    tight : Tight threshold groups

  pack-Started :
      (es : List ManifestEntry) {groups : List SecretGroup}
      → All (λ e. e.encoded_size ≤ threshold) es
      → pack base_name threshold [] none es ≡ ok groups
      → Started es groups
  unfolding pack
  pack-Started [] {groups = groups} fits h =
      let nothing : groups ≡ [] = cc in
      rw nothing record { kept = refl; bounded = tt; numbers = tt; tight = tt }
  pack-Started (e ∷ more) {groups = groups} fits h =
      let (tail, same, packed) =
        pack-Packed [] 1 (opened base_name threshold 1 e) more {groups = groups} (omega arith)
          (opened-IsGroup 1 e fits.0) refl (cc (ge→ltb threshold e.encoded_size fits.0)) in
      rw same record {
        kept = packed.entries;
        bounded = packed.groups;
        numbers = packed.numbers;
        tight = packed.tight;
      }

  -- What the code promises of the groups.
  pub record IsSplit (entries : List ManifestEntry) (groups : List SecretGroup) : Type 0 where
    pub sorted : entries_in groups ≡ sort_by by_key entries
    pub complete : Perm (entries_in groups) entries
    pub bounded : All (IsGroup threshold) groups
    pub numbers : Numbered base_name 1 groups
    pub few : length groups * threshold ≤ threshold + 2 * total_size entries

  -- Where each entry keeps the limit, the split returns, and its groups hold every entry once, in
  -- the order of the keys. Each group holds an entry, has the size of its entries and keeps the
  -- limit; the names are numbered from 1; and the groups are so few that their number times the
  -- limit is at most the limit and twice the size of all entries.
  pub split_by_size-IsSplit :
      (entries : List ManifestEntry)
      → All (λ e. e.encoded_size ≤ threshold) entries
      → (groups : List SecretGroup) × (split_by_size base_name threshold entries ≡ ok groups)
        × IsSplit entries groups
  unfolding split_by_size
  split_by_size-IsSplit entries fits =
      let sorted = sort_by by_key entries in
      let (groups, returned) =
        pack-total [] none sorted
          (sort_by-All (λ e. e.encoded_size ≤ threshold) by_key entries fits) in
      let started =
        pack-Started sorted (sort_by-All (λ e. e.encoded_size ≤ threshold) by_key entries fits)
          returned in
      (
        groups,
        returned,
        record {
          sorted = started.kept;
          complete = rw started.kept (sort_by-perm by_key entries);
          bounded = started.bounded;
          numbers = started.numbers;
          few = omega (
            arith,
            few_of-Tight threshold groups started.bounded started.tight,
            ap total_size started.kept,
            sort_by-sum_by (λ e. e.encoded_size) by_key entries,
          );
        },
      )

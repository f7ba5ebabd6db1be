-- ===== src/Addons/Split/Groups.antt =====
-- What is asked of the groups of `split_by_size` of scripts/generate_capi_addons.py.
use k8labs.Base.{ℕ, suc, ◌+◌, ◌*◌, ◌≤◌, ◌<◌, String, List, [], ◌∷◌, ◌++◌, ◌≡◌, refl}
use k8labs.Base.{arith, length, All}
use k8labs.Base.{sum_by}
use k8labs.Addons.{ManifestEntry, numbered, SecretGroup}

abbrev pub total_size : List ManifestEntry → ℕ
total_size l = sum_by (λ e. e.encoded_size) l

pub total_size-append :
    (l k : List ManifestEntry) → total_size (l ++ k) ≡ total_size l + total_size k
total_size-append [] k = omega arith
total_size-append (d ∷ l) k = omega (arith, total_size-append l k)

-- The entries of the groups, group by group.
abbrev pub entries_in : List SecretGroup → List ManifestEntry
entries_in [] = []
entries_in (g ∷ r) = g.entries ++ entries_in r

-- The size of the first entry.
abbrev pub first_size : List ManifestEntry → ℕ
first_size [] = 0
first_size (e ∷ r) = e.encoded_size

abbrev pub first_in : List SecretGroup → ℕ
first_in [] = 0
first_in (g ∷ r) = first_size g.entries

-- The groups have the numbers from `n` on.
abbrev pub Numbered : String → ℕ → List SecretGroup → Type 0
Numbered base_name n [] = Unit
Numbered base_name n (g ∷ r) = (g.name ≡ numbered base_name n) × Numbered base_name (suc n) r

pub first_size-snoc :
    (l : List ManifestEntry) (e : ManifestEntry)
    → 1 ≤ length l
    → first_size (l ++ (e ∷ [])) ≡ first_size l
first_size-snoc [] e h = elim h [ ]
first_size-snoc (d ∷ l) e h = refl

module _ (threshold : ℕ) where
  -- A group that holds an entry, has the size of its entries, and keeps the limit.
  pub record IsGroup (g : SecretGroup) : Type 0 where
    pub sized : g.encoded_size ≡ total_size g.entries
    pub within : g.encoded_size ≤ threshold
    pub filled : 1 ≤ length g.entries

  -- No group has room for the first entry of the next one.
  abbrev pub Tight : List SecretGroup → Type 0
  Tight [] = Unit
  Tight (g ∷ []) = Unit
  Tight (g ∷ h ∷ r) = (threshold < g.encoded_size + first_size h.entries) × Tight (h ∷ r)

  pub Tight-cons :
      (g : SecretGroup) (r : List SecretGroup)
      → threshold < g.encoded_size + first_in r
      → Tight r
      → Tight (g ∷ r)
  Tight-cons g [] room h = tt
  Tight-cons g (x ∷ r) room h = (room, h)

  first_size-le : (g : SecretGroup) → IsGroup g → first_size g.entries ≤ g.encoded_size
  first_size-le g h = rw h.sized (first_le g.entries)
    where
      first_le : (l : List ManifestEntry) → first_size l ≤ total_size l
      first_le [] = omega arith
      first_le (e ∷ r) = omega arith

  -- Two neighbours hold more than the limit, so the groups are few.
  Tight-length :
      (g : SecretGroup) (r : List SecretGroup)
      → All IsGroup (g ∷ r)
      → Tight (g ∷ r)
      → length r * threshold + g.encoded_size ≤ 2 * total_size (entries_in (g ∷ r))
  Tight-length g [] h tight = omega (arith, h.0.sized, total_size-append g.entries [])
  Tight-length g (x ∷ r) h tight = omega (
    arith,
    h.0.sized,
    tight.0,
    first_size-le x h.1.0,
    Tight-length x r h.1 tight.1,
    total_size-append g.entries (entries_in (x ∷ r)),
  )

  pub few_of-Tight :
      (groups : List SecretGroup)
      → All IsGroup groups
      → Tight groups
      → length groups * threshold ≤ threshold + 2 * total_size (entries_in groups)
  few_of-Tight [] h tight = omega arith
  few_of-Tight (g ∷ r) h tight = omega (arith, Tight-length g r h tight)

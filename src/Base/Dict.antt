-- ===== src/Base/Dict.antt =====
-- Python dicts in insertion order, as association lists.
use mathlib.Core.Path.{◌≡◌, refl, ap, sym, ◌∙◌}
use mathlib.Core.Logic.{◌≢◌, inl, inr}
use mathlib.Core.Option.{Option, none, some}
use mathlib.Core.List.{List, [], ◌∷◌}
use native.Mathlib.Omega.{arith}
use k8labs.Base.Tests.{
  Comparable, ◌==◌, if◌then◌else◌, same_refl, same_of_ne, ne_of_same, Bool-cases,
}
use k8labs.Base.Lists.{All, All-map}

abbrev pub Dict {ℓ κ} : Type ℓ → Type κ → Type (ℓ ⊔ κ)
Dict K V = List (K × V)

module _ {ℓ κ} {K : Type ℓ} {V : Type κ} ⦃e : Comparable K⦄ where
  -- `d.get(k)`
  unfoldable pub lookup : K → Dict K V → Option V
  lookup k [] = none
  lookup k ((j, v) ∷ d) = if j == k then some v else lookup k d

  -- `d[k] = v`: a key keeps its place.
  unfoldable pub insert : K → V → Dict K V → Dict K V
  insert k v [] = (k, v) ∷ []
  insert k v ((j, w) ∷ d) = if j == k then (j, v) ∷ d else (j, w) ∷ insert k v d

  -- `d.pop(k, None)` as a change of `d`; a dict has a key at most once.
  unfoldable pub erase : K → Dict K V → Dict K V
  erase k [] = []
  erase k ((j, w) ∷ d) = let rest = erase k d in if j == k then rest else (j, w) ∷ rest

  pub lookup-insert :
      (j k : K) (v : V) (d : Dict K V)
      → lookup j (insert k v d) ≡ (if k == j then some v else lookup j d)
  unfolding lookup insert
  lookup-insert j k v [] = refl
  lookup-insert j k v ((i, w) ∷ d) = ground (
    arith,
    e.same_iff {x = k} {y = j},
    e.same_iff {x = i} {y = k},
    e.same_iff {x = i} {y = j},
    lookup-insert j k v d,
  )

  pub lookup-erase :
      (j k : K) (d : Dict K V) → lookup j (erase k d) ≡ (if k == j then none else lookup j d)
  unfolding lookup erase
  lookup-erase j k [] = ground arith
  lookup-erase j k ((i, w) ∷ d) = ground (
    arith,
    e.same_iff {x = k} {y = j},
    e.same_iff {x = i} {y = k},
    e.same_iff {x = i} {y = j},
    lookup-erase j k d,
  )

  pub lookup-insert_self : (k : K) (v : V) (d : Dict K V) → lookup k (insert k v d) ≡ some v
  lookup-insert_self k v d = rw (lookup-insert, same_refl k)

  pub lookup-insert_ne :
      (j k : K) (v : V) (d : Dict K V) → k ≢ j → lookup j (insert k v d) ≡ lookup j d
  lookup-insert_ne j k v d h = rw (lookup-insert, same_of_ne k j h)

  pub lookup-erase_ne : (j k : K) (d : Dict K V) → k ≢ j → lookup j (erase k d) ≡ lookup j d
  lookup-erase_ne j k d h = rw (lookup-erase, same_of_ne k j h)

  -- A dict has a key at most once.
  abbrev pub Keyed : Dict K V → Type κ
  Keyed [] = Unit
  Keyed ((k, v) ∷ d) = (lookup k d ≡ none) × Keyed d

  pub insert-Keyed : (k : K) (v : V) (d : Dict K V) → Keyed d → Keyed (insert k v d)
  unfolding insert lookup
  insert-Keyed k v [] h = (refl, tt)
  insert-Keyed k v ((j, w) ∷ d) h = elim (Bool-cases (j == k)) [
    | inl same ↦ rw same h
    | inr differ ↦
        let apart = ne_of_same j k differ in
        rw differ (lookup-insert_ne j k v d (λ e. apart (sym e)) ∙ h.0, insert-Keyed k v d h.1)
  ]

  -- Each pair of a dict is what the key finds.
  pub Keyed-lookup : (d : Dict K V) → Keyed d → All (λ f. lookup f.0 d ≡ some f.1) d
  unfolding lookup
  Keyed-lookup [] h = tt
  Keyed-lookup ((k, v) ∷ d) h = (
    rw (same_refl k) refl,
    All-map (λ f. lookup f.0 d ≡ some f.1) (λ f. lookup f.0 ((k, v) ∷ d) ≡ some f.1) d
        (λ f found. elim (Bool-cases (k == f.0)) [
          | inl same ↦
              let key : k ≡ f.0 = (e.same_iff {x = k} {y = f.0}).0 same in
              absurd (cc (h.0, ap (λ x. lookup x d) key, found))
          | inr differ ↦ rw differ found
        ])
        (Keyed-lookup d h.1),
  )

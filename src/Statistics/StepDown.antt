-- ===== src/Statistics/StepDown.antt =====
-- The Holm step-down procedure as an abstract rule, for the two loops that the scripts have of it:
-- a hypothesis is rejected if its test and every test ranked before it pass.
use k8labs.Base.{ℕ, suc, ◌+◌, ◌-◌, ◌<◌, ◌≤◌, Bool, true, false, ◌&&◌, some, List, [], ◌∷◌}
use k8labs.Base.{◌++◌, ◌≡◌, ◌≢◌, refl, sym, ◌∙◌, arith, length, All, All-map}
use k8labs.Base.{get_elem?, enumerate, sort_by, sort_by-All, sort_by-DistinctBy}
use k8labs.Base.{sort_by-perm, sort_by-InOrder, DistinctBy, InOrder}
use k8labs.Base.{get_elem?-set_elem, get_elem?-set_elem_ne, length-set_elem, replicate}
use k8labs.Base.{length-replicate, get_elem?-replicate}
use k8labs.Statistics.{mark}
use mathlib.Core.List.{Perm}

module _ {ℓ} {A : Type ℓ} where
  -- The tests from a position on.
  abbrev pub passes_all : (ℕ → ℕ × A → Bool) → ℕ → List (ℕ × A) → Bool
  passes_all passes position [] = true
  passes_all passes position (x ∷ more) = passes position x && passes_all passes (suc position) more

  -- `verdicts` are those of the procedure over hypotheses in the order of their evidence.
  abbrev pub IsStepDown : (ℕ → ℕ × A → Bool) → List (ℕ × A) → List Bool → Type ℓ
  IsStepDown passes ranked verdicts =
      (before : List (ℕ × A)) (x : ℕ × A) (later : List (ℕ × A))
      → ranked ≡ before ++ (x ∷ later)
      → get_elem? verdicts x.0 ≡ some (passes_all passes 0 (before ++ (x ∷ [])))

  -- An order of the hypotheses by `stronger`, each with its place in the input.
  pub record IsRanking (stronger : ℕ × A → ℕ × A → Bool) (values : List A) (ranked : List (ℕ × A))
      : Type ℓ where
    pub sorted : InOrder stronger ranked
    pub complete : Perm ranked (enumerate 0 values)
    pub apart : DistinctBy (λ x. x.0) ranked
    pub placed : All (λ x. get_elem? values x.0 ≡ some x.1) ranked
    pub inside : All (λ x. x.0 < length values) ranked

  pub enumerate-inside :
      (start : ℕ) (values : List A)
      → All (λ x. (start ≤ x.0) × (x.0 < start + length values)) (enumerate start values)
  enumerate-inside start [] = tt
  enumerate-inside start (v ∷ values) = (
    (omega arith, omega arith),
    All-map (λ x. (suc start ≤ x.0) × (x.0 < suc start + length values))
        (λ x. (start ≤ x.0) × (x.0 < start + length (v ∷ values))) (enumerate (suc start) values)
        (λ x h. (omega (arith, h.0), omega (arith, h.1))) (enumerate-inside (suc start) values),
  )

  pub enumerate-apart :
      (start : ℕ) (values : List A) → DistinctBy (λ x. x.0) (enumerate start values)
  enumerate-apart start [] = tt
  enumerate-apart start (v ∷ values) = (
    All-map (λ x. (suc start ≤ x.0) × (x.0 < suc start + length values)) (λ x. start ≢ x.0)
        (enumerate (suc start) values) (λ x h e. omega (arith, h.0, e))
        (enumerate-inside (suc start) values),
    enumerate-apart (suc start) values,
  )

  get_elem?-later :
      (start i : ℕ) (v : A) (values : List A) {x : A}
      → suc start ≤ i
      → get_elem? values (i - suc start) ≡ some x
      → get_elem? (v ∷ values) (i - start) ≡ some x
  get_elem?-later start i v values above h =
      let next : i - start ≡ suc (i - suc start) = omega (arith, above) in rw next h

  enumerate-placed :
      (start : ℕ) (values : List A)
      → All
          (λ x. (start ≤ x.0) × (get_elem? values (x.0 - start) ≡ some x.1))
          (enumerate start values)
  enumerate-placed start [] = tt
  enumerate-placed start (v ∷ values) = (
    (omega arith, let none_yet : start - start ≡ 0 = omega arith in rw none_yet refl),
    All-map (λ x. (suc start ≤ x.0) × (get_elem? values (x.0 - suc start) ≡ some x.1))
        (λ x. (start ≤ x.0) × (get_elem? (v ∷ values) (x.0 - start) ≡ some x.1))
        (enumerate (suc start) values)
        (λ x h. (omega (arith, h.0), get_elem?-later start x.0 v values h.0 h.1))
        (enumerate-placed (suc start) values),
  )

  placed_from_zero :
      (values : List A) → All (λ x. get_elem? values x.0 ≡ some x.1) (enumerate 0 values)
  placed_from_zero values =
      All-map (λ x. (0 ≤ x.0) × (get_elem? values (x.0 - 0) ≡ some x.1))
        (λ x. get_elem? values x.0 ≡ some x.1) (enumerate 0 values)
        (λ x h. let same : x.0 - 0 ≡ x.0 = omega arith in (rw same at h).1)
        (enumerate-placed 0 values)

  pub sort_by-IsRanking :
      (stronger : ℕ × A → ℕ × A → Bool) (values : List A)
      → ((x y : ℕ × A) → stronger x y ≡ true → stronger y x ≡ false)
      → IsRanking stronger values (sort_by stronger (enumerate 0 values))
  sort_by-IsRanking stronger values asym = record {
    sorted = sort_by-InOrder stronger asym (enumerate 0 values);
    complete = sort_by-perm stronger (enumerate 0 values);
    apart = sort_by-DistinctBy (λ x. x.0) stronger (enumerate 0 values) (enumerate-apart 0 values);
    placed = sort_by-All _ stronger (enumerate 0 values) (placed_from_zero values);
    inside = sort_by-All _ stronger (enumerate 0 values) (
        All-map (λ x. (0 ≤ x.0) × (x.0 < 0 + length values)) (λ x. x.0 < length values)
          (enumerate 0 values) (λ x h. omega (arith, h.1)) (enumerate-inside 0 values));
  }

pub mark_ne :
    (rejects : Bool) (i j : ℕ) (rejected : List Bool)
    → i ≢ j
    → get_elem? (mark rejects j rejected) i ≡ get_elem? rejected i
mark_ne true i j rejected h = get_elem?-set_elem_ne j i true rejected (λ e. h (sym e))
mark_ne false i j rejected h = refl

pub length-mark :
    (rejects : Bool) (j : ℕ) (rejected : List Bool)
    → length (mark rejects j rejected) ≡ length rejected
length-mark true j rejected = length-set_elem j true rejected
length-mark false j rejected = refl

pub mark_same :
    (rejects : Bool) (i : ℕ) (rejected : List Bool)
    → i < length rejected
    → get_elem? rejected i ≡ some false
    → get_elem? (mark rejects i rejected) i ≡ some rejects
mark_same true i rejected inside h = get_elem?-set_elem i true rejected inside
mark_same false i rejected inside h = h

module _ {ℓ} {A : Type ℓ} where
  -- What the verdicts hold for the hypotheses that a loop has before it.
  pub record Pending (rejected : List Bool) (more : List (ℕ × A)) : Type ℓ where
    pub apart : DistinctBy (λ x. x.0) more
    pub inside : All (λ x. x.0 < length rejected) more
    pub unset : All (λ x. get_elem? rejected x.0 ≡ some false) more

  pub Pending-mark :
      (rejects : Bool) (x : ℕ × A) (rejected : List Bool) (more : List (ℕ × A))
      → Pending rejected (x ∷ more)
      → Pending (mark rejects x.0 rejected) more
  Pending-mark rejects x rejected more h = record {
    apart = h.apart.1;
    inside = rw (length-mark rejects x.0 rejected) h.inside.1;
    unset = unset_of more h.apart.0 h.unset.1;
  }
    where
      unset_of :
          (more : List (ℕ × A))
          → All (λ y. x.0 ≢ y.0) more
          → All (λ y. get_elem? rejected y.0 ≡ some false) more
          → All (λ y. get_elem? (mark rejects x.0 rejected) y.0 ≡ some false) more
      unset_of [] apart unset = tt
      unset_of (y ∷ more) apart unset = (
        mark_ne rejects y.0 x.0 rejected (λ e. apart.0 (sym e)) ∙ unset.0,
        unset_of more apart.1 unset.1,
      )

  pub Pending-start :
      (n : ℕ) (order : List (ℕ × A))
      → DistinctBy (λ x. x.0) order
      → All (λ x. x.0 < n) order
      → Pending (replicate n false) order
  Pending-start n order apart inside = record {
    apart = apart;
    inside = rw (length-replicate n false) inside;
    unset =
        All-map (λ x. x.0 < n) (λ x. get_elem? (replicate n false) x.0 ≡ some false) order
          (λ x h. get_elem?-replicate n x.0 false h) inside;
  }

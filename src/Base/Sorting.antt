-- ===== src/Base/Sorting.antt =====
-- Python's `sorted` and `list.sort`: a stable sort. `before x y` says that the key of `x` is less.
use Prim.Native.Nat.{ℕ, suc, ◌+◌}
use Prim.Native.String.{String}
use mathlib.Core.Path.{◌≡◌, refl, ap, sym, ◌∙◌}
use mathlib.Core.Logic.{◌⊎◌, inl, inr, ◌≢◌}
use mathlib.Core.Bool.{Bool, true, false, ◌||◌, ◌&&◌}
use mathlib.Core.List.{List, [], ◌∷◌, Perm}
use mathlib.Core.List.Perm
use native.Mathlib.Omega.{arith}
use k8labs.Base.Tests.{ltb, ◌==◌, comparable_nat, if◌then◌else◌, Bool-cases}
use k8labs.Base.Lists.{All, Any, length}
use k8labs.Base.Text.{codes}

module _ {ℓ} {A : Type ℓ} where
  -- An element goes before those with its key, since it stood before them.
  unfoldable pub insert_by : (A → A → Bool) → A → List A → List A
  insert_by before x [] = x ∷ []
  insert_by before x (y ∷ r) =
      let later = insert_by before x r in if before y x then y ∷ later else x ∷ y ∷ r

  unfoldable pub sort_by : (A → A → Bool) → List A → List A
  sort_by before [] = []
  sort_by before (x ∷ xs) = insert_by before x (sort_by before xs)

  insert_by-perm :
      (before : A → A → Bool) (x : A) (l : List A) → Perm (insert_by before x l) (x ∷ l)
  unfolding insert_by
  insert_by-perm before x [] = Perm.refl (x ∷ [])
  insert_by-perm before x (y ∷ r) = elim (Bool-cases (before y x)) [
    | inl first ↦ rw first (Perm.trans (Perm.cons y (insert_by-perm before x r)) (Perm.swap x y r))
    | inr not_first ↦ rw not_first (Perm.refl (x ∷ y ∷ r))
  ]

  -- Sorting loses and makes up no element.
  pub sort_by-perm : (before : A → A → Bool) (l : List A) → Perm (sort_by before l) l
  unfolding sort_by
  sort_by-perm before [] = Perm.refl []
  sort_by-perm before (x ∷ xs) =
      Perm.trans (insert_by-perm before x (sort_by before xs))
        (Perm.cons x (sort_by-perm before xs))

  module _ {κ} (P : A → Type κ) (before : A → A → Bool) where
    insert_by-All : (x : A) (l : List A) → P x → All P l → All P (insert_by before x l)
    unfolding insert_by
    insert_by-All x [] p h = (p, tt)
    insert_by-All x (y ∷ r) p h = elim (Bool-cases (before y x)) [
      | inl first ↦ rw first (h.0, insert_by-All x r p h.1)
      | inr not_first ↦ rw not_first (p, h)
    ]

    insert_by-All_back : (x : A) (l : List A) → All P (insert_by before x l) → P x × All P l
    unfolding insert_by
    insert_by-All_back x [] h = h
    insert_by-All_back x (y ∷ r) h = elim (Bool-cases (before y x)) [
      | inl first ↦
          let rest = insert_by-All_back x r (rw first at h).1 in
          (rest.0, ((rw first at h).0, rest.1))
      | inr not_first ↦ rw not_first at h
    ]

    pub All-sort_by : (l : List A) → All P (sort_by before l) → All P l
    unfolding sort_by
    All-sort_by [] h = tt
    All-sort_by (x ∷ xs) h =
        let parts = insert_by-All_back x (sort_by before xs) h in (parts.0, All-sort_by xs parts.1)

    pub sort_by-All : (l : List A) → All P l → All P (sort_by before l)
    unfolding sort_by
    sort_by-All [] h = tt
    sort_by-All (x ∷ xs) h = insert_by-All x (sort_by before xs) h.0 (sort_by-All xs h.1)

  module _ (P : A → Type 0) (before : A → A → Bool) where
    insert_by-Any : (x : A) (l : List A) → Any P (insert_by before x l) → P x ⊎ Any P l
    unfolding insert_by
    insert_by-Any x [] h = elim h [ inl here ↦ inl here | inr nowhere ↦ absurd nowhere ]
    insert_by-Any x (y ∷ r) h = elim (Bool-cases (before y x)) [
      | inl first ↦ elim (rw first at h) [
        | inl here ↦ inr (inl here)
        | inr later ↦ elim (insert_by-Any x r later) [
          | inl at_x ↦ inl at_x
          | inr rest ↦ inr (inr rest)
        ]
      ]
      | inr not_first ↦ rw not_first at h
    ]

    pub sort_by-Any : (l : List A) → Any P (sort_by before l) → Any P l
    unfolding sort_by
    sort_by-Any [] h = h
    sort_by-Any (x ∷ xs) h = elim (insert_by-Any x (sort_by before xs) h) [
      | inl here ↦ inl here
      | inr later ↦ inr (sort_by-Any xs later)
    ]

  -- No two elements have the same `f`.
  abbrev pub DistinctBy {κ} : {B : Type κ} → (A → B) → List A → Type κ
  DistinctBy f [] = Unit
  DistinctBy f (x ∷ xs) = All (λ y. f x ≢ f y) xs × DistinctBy f xs

  module _ {κ} {B : Type κ} (f : A → B) (before : A → A → Bool) where
    insert_by-DistinctBy :
        (x : A) (l : List A)
        → All (λ y. f x ≢ f y) l
        → DistinctBy f l
        → DistinctBy f (insert_by before x l)
    unfolding insert_by
    insert_by-DistinctBy x [] new h = (tt, tt)
    insert_by-DistinctBy x (y ∷ r) new h = elim (Bool-cases (before y x)) [
      | inl first ↦ rw first (
        insert_by-All (λ z. f y ≢ f z) before x r (λ e. new.0 (sym e)) h.0,
        insert_by-DistinctBy x r new.1 h.1,
      )
      | inr not_first ↦ rw not_first (new, h)
    ]

    pub sort_by-DistinctBy : (l : List A) → DistinctBy f l → DistinctBy f (sort_by before l)
    unfolding sort_by
    sort_by-DistinctBy [] h = tt
    sort_by-DistinctBy (x ∷ xs) h =
        insert_by-DistinctBy x (sort_by before xs) (sort_by-All (λ y. f x ≢ f y) before xs h.0)
          (sort_by-DistinctBy xs h.1)

  insert_by-length :
      (before : A → A → Bool) (x : A) (l : List A) → length (insert_by before x l) ≡ suc (length l)
  unfolding insert_by
  insert_by-length before x [] = refl
  insert_by-length before x (y ∷ r) = elim (Bool-cases (before y x)) [
    | inl first ↦ rw first (ap suc (insert_by-length before x r))
    | inr not_first ↦ rw not_first refl
  ]

  pub length-sort_by : (before : A → A → Bool) (l : List A) → length (sort_by before l) ≡ length l
  unfolding sort_by
  length-sort_by before [] = refl
  length-sort_by before (x ∷ xs) =
      insert_by-length before x (sort_by before xs) ∙ ap suc (length-sort_by before xs)

  -- A measure of the elements has the same sum after the sorting.
  abbrev pub sum_by : (A → ℕ) → List A → ℕ
  sum_by f [] = 0
  sum_by f (x ∷ xs) = f x + sum_by f xs

  module _ (f : A → ℕ) (before : A → A → Bool) where
    insert_by-sum_by : (x : A) (l : List A) → sum_by f (insert_by before x l) ≡ f x + sum_by f l
    unfolding insert_by
    insert_by-sum_by x [] = refl
    insert_by-sum_by x (y ∷ r) = elim (Bool-cases (before y x)) [
      | inl first ↦ rw first (omega (arith, insert_by-sum_by x r))
      | inr not_first ↦ rw not_first refl
    ]

    pub sort_by-sum_by : (l : List A) → sum_by f (sort_by before l) ≡ sum_by f l
    unfolding sort_by
    sort_by-sum_by [] = refl
    sort_by-sum_by (x ∷ xs) =
        insert_by-sum_by x (sort_by before xs) ∙ ap (λ n. f x + n) (sort_by-sum_by xs)

  -- No element is before the one that it follows.
  abbrev pub InOrder : (A → A → Bool) → List A → Type 0
  InOrder before [] = Unit
  InOrder before (x ∷ []) = Unit
  InOrder before (x ∷ y ∷ r) = (before y x ≡ false) × InOrder before (y ∷ r)

  module _ (before : A → A → Bool) (asym : (x y : A) → before x y ≡ true → before y x ≡ false) where
    insert_by-InOrder :
        (x : A) (l : List A) → InOrder before l → InOrder before (insert_by before x l)
    unfolding insert_by
    insert_by-InOrder x [] h = tt
    insert_by-InOrder x (y ∷ []) h = elim (Bool-cases (before y x)) [
      | inl first ↦ rw first (asym y x first, tt)
      | inr not_first ↦ rw not_first (not_first, tt)
    ]
    insert_by-InOrder x (y ∷ z ∷ r) h = elim (Bool-cases (before y x)) [
      | inl first ↦ rw first (head_first y x z r first h (insert_by-InOrder x (z ∷ r) h.1))
      | inr not_first ↦ rw not_first (not_first, h)
    ]
      where
        head_first :
            (y x z : A) (r : List A)
            → before y x ≡ true
            → InOrder before (y ∷ z ∷ r)
            → InOrder before (insert_by before x (z ∷ r))
            → InOrder before (y ∷ insert_by before x (z ∷ r))
        head_first y x z r first h rest = elim (Bool-cases (before z x)) [
          | inl e ↦ rw e (h.0, rw e at rest)
          | inr e ↦ rw e (asym y x first, rw e at rest)
        ]

    -- A sorted list is in order.
    pub sort_by-InOrder : (l : List A) → InOrder before (sort_by before l)
    unfolding sort_by
    sort_by-InOrder [] = tt
    sort_by-InOrder (x ∷ xs) = insert_by-InOrder x (sort_by before xs) (sort_by-InOrder xs)

-- `<` of texts: by code points, the shorter of two with one beginning first.
abbrev pub lt_codes : List ℕ → List ℕ → Bool
lt_codes [] [] = false
lt_codes [] (d ∷ t) = true
lt_codes (c ∷ s) [] = false
lt_codes (c ∷ s) (d ∷ t) = ltb c d || (c == d && lt_codes s t)

abbrev pub lt_text : String → String → Bool
lt_text s t = lt_codes (codes s) (codes t)

pub lt_codes_asym : (s t : List ℕ) → lt_codes s t ≡ true → lt_codes t s ≡ false
lt_codes_asym [] [] h = refl
lt_codes_asym [] (d ∷ t) h = refl
lt_codes_asym (c ∷ s) [] h = absurd (cc)
lt_codes_asym (c ∷ s) (d ∷ t) h = ground (arith, lt_codes_asym s t)

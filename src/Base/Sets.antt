-- ===== src/Base/Sets.antt =====
-- Lists without a repeated element, for the sets that the scripts keep of what they have seen.
use Prim.Native.String.{String}
use mathlib.Core.Path.{◌≡◌}
use mathlib.Core.Logic.{◌≢◌}
use mathlib.Core.Bool.{Bool, true, false, ◌||◌}
use mathlib.Core.List.{List, [], ◌∷◌, ◌++◌}
use native.Mathlib.Omega.{arith}
use k8labs.Base.Tests.{Comparable, contains, ◌==◌, comparable_text, or-eq_false, ne_of_same}
use k8labs.Base.Lists.{All, All-append}

-- `len(values) != len(set(values))`
abbrev pub repeats {ℓ} : {V : Type ℓ} ⦃c : Comparable V⦄ → List V → Bool
repeats [] = false
repeats (v ∷ r) = contains r v || repeats r

abbrev pub is_empty {ℓ} : {A : Type ℓ} → List A → Bool
is_empty [] = true
is_empty (x ∷ xs) = false

-- No value stands in the list twice.
abbrev pub Distinct {ℓ} : {A : Type ℓ} → List A → Type ℓ
Distinct [] = Unit
Distinct (x ∷ xs) = All (λ y. x ≢ y) xs × Distinct xs

pub Distinct-snoc :
    (xs : List String) (x : String)
    → Distinct xs
    → contains xs x ≡ false
    → Distinct (xs ++ (x ∷ []))
Distinct-snoc [] x h new = (tt, tt)
Distinct-snoc (y ∷ xs) x h new =
    let apart = or-eq_false (x == y) (contains xs x) new in
    let y-x : y ≢ x = ground (arith, comparable_text.same_iff {x = x} {y = y}) in
    (All-append (λ z. y ≢ z) xs (x ∷ []) h.0 (y-x, tt), Distinct-snoc xs x h.1 apart.1)

pub Distinct-append_right : (xs ys : List String) → Distinct (xs ++ ys) → Distinct ys
Distinct-append_right [] ys h = h
Distinct-append_right (x ∷ xs) ys h = Distinct-append_right xs ys h.1

module _ {ℓ} {V : Type ℓ} ⦃c : Comparable V⦄ where
  apart-of_contains :
      (values : List V) (v : V) → contains values v ≡ false → All (λ w. v ≢ w) values
  apart-of_contains [] v h = tt
  apart-of_contains (w ∷ r) v h =
      let (differ, rest) = or-eq_false (v == w) (contains r v) h in
      (ne_of_same v w differ, apart-of_contains r v rest)

  pub Distinct-of_repeats : (values : List V) → repeats values ≡ false → Distinct values
  Distinct-of_repeats [] h = tt
  Distinct-of_repeats (v ∷ r) h =
      let (new, rest) = or-eq_false (contains r v) (repeats r) h in
      (apart-of_contains r v new, Distinct-of_repeats r rest)

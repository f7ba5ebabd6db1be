-- ===== src/Base/Lists.antt =====
-- Lists over the native numbers, and predicates on their elements, for the models of Python lists.
use Prim.Native.Nat.{ℕ, zero, suc, ◌+◌, ◌≤◌, ◌<◌}
use mathlib.Core.Path.{◌≡◌, refl, ap}
use mathlib.Core.Bool.{Bool, true, ◌&&◌}
use mathlib.Core.List.{List, [], ◌∷◌, ◌++◌, map}
use mathlib.Core.Logic.{◌⊎◌, inl, inr, ◌≢◌}
use mathlib.Core.Option.{Option, none, some}
use native.Mathlib.Omega.{arith}

module _ {ℓ} {A : Type ℓ} where
  abbrev pub length : List A → ℕ
  length [] = 0
  length (x ∷ xs) = suc (length xs)

  pub length-append : (xs ys : List A) → length (xs ++ ys) ≡ length xs + length ys
  length-append [] ys = omega arith
  length-append (x ∷ xs) ys = omega (arith, length-append xs ys)

  abbrev pub take : ℕ → List A → List A
  take zero xs = []
  take (suc n) [] = []
  take (suc n) (x ∷ xs) = x ∷ take n xs

module _ {ℓ} {A : Type ℓ} where
  pub snoc-append : (xs : List A) (x : A) (ys : List A) → (xs ++ (x ∷ [])) ++ ys ≡ xs ++ (x ∷ ys)
  snoc-append [] x ys = refl
  snoc-append (z ∷ xs) x ys = ap (λ l. z ∷ l) (snoc-append xs x ys)

  pub length-take-le : (n : ℕ) (xs : List A) → length (take n xs) ≤ n
  length-take-le zero xs = omega arith
  length-take-le (suc n) [] = omega arith
  length-take-le (suc n) (x ∷ xs) = omega (arith, length-take-le n xs)

  -- Python's `all(p(x) for x in xs)`.
  abbrev pub all : (A → Bool) → List A → Bool
  all p [] = true
  all p (x ∷ xs) = p x && all p xs

-- Every element has the property. It computes to tuples.
abbrev pub All {ℓ κ} : {A : Type ℓ} → (A → Type κ) → List A → Type κ
All P [] = Unit
All P (x ∷ xs) = P x × All P xs

pub length-map {ℓ κ} :
    {A : Type ℓ} {B : Type κ} (f : A → B) (xs : List A) → length (map f xs) ≡ length xs
length-map f [] = refl
length-map f (x ∷ xs) = ap suc (length-map f xs)

module _ {ℓ κ} {A : Type ℓ} where
  pub All-append :
      (P : A → Type κ) (left right : List A) → All P left → All P right → All P (left ++ right)
  All-append P [] right l r = r
  All-append P (first ∷ others) right l r = (l.0, All-append P others right l.1 r)

  pub All-map {μ} :
      (P : A → Type κ) (Q : A → Type μ) (xs : List A) → ((x : A) → P x → Q x) → All P xs → All Q xs
  All-map P Q [] f h = tt
  All-map P Q (x ∷ xs) f h = (f x h.0, All-map P Q xs f h.1)

-- Each element is below the next: the list is strictly ascending.
abbrev pub Ascending : List ℕ → Type 0
Ascending [] = Unit
Ascending (x ∷ []) = Unit
Ascending (x ∷ y ∷ r) = (x < y) × Ascending (y ∷ r)

-- Some element has the property. It computes to a sum.
abbrev pub Any {ℓ} : {A : Type ℓ} → (A → Type 0) → List A → Type 0
Any P [] = ⊥
Any P (x ∷ xs) = P x ⊎ Any P xs

module _ {ℓ} {A : Type ℓ} where
  pub Any-append_right : (P : A → Type 0) (xs : List A) (x : A) → P x → Any P (xs ++ (x ∷ []))
  Any-append_right P [] x h = inl h
  Any-append_right P (y ∷ xs) x h = inr (Any-append_right P xs x h)

  pub All-append_left {κ} : (P : A → Type κ) (xs ys : List A) → All P (xs ++ ys) → All P xs
  All-append_left P [] ys h = tt
  All-append_left P (x ∷ xs) ys h = (h.0, All-append_left P xs ys h.1)

pub Ascending-append_left : (xs ys : List ℕ) → Ascending (xs ++ ys) → Ascending xs
Ascending-append_left [] ys h = tt
Ascending-append_left (x ∷ []) ys h = tt
Ascending-append_left (x ∷ y ∷ r) ys h = (h.0, Ascending-append_left (y ∷ r) ys h.1)

-- The head of an ascending list is its least element.
pub Ascending-head : (n x : ℕ) (r : List ℕ) → n ≤ x → Ascending (x ∷ r) → All (λ l. n ≤ l) (x ∷ r)
Ascending-head n x [] h up = (h, tt)
Ascending-head n x (y ∷ r) h up = (h, Ascending-head n y r (omega arith) up.1)

module _ {ℓ} {A : Type ℓ} where
  -- `xs[n:]`
  abbrev pub drop : ℕ → List A → List A
  drop zero xs = xs
  drop (suc n) [] = []
  drop (suc n) (x ∷ xs) = drop n xs

  pub take-drop : (n : ℕ) (xs : List A) → take n xs ++ drop n xs ≡ xs
  take-drop zero xs = refl
  take-drop (suc n) [] = refl
  take-drop (suc n) (x ∷ xs) = ap (λ l. x ∷ l) (take-drop n xs)

  pub take-append : (n : ℕ) (xs ys : List A) → length xs ≡ n → take n (xs ++ ys) ≡ xs
  take-append zero [] ys h = refl
  take-append zero (x ∷ xs) ys h = absurd (omega (arith, h))
  take-append (suc n) [] ys h = absurd (omega (arith, h))
  take-append (suc n) (x ∷ xs) ys h = ap (λ l. x ∷ l) (take-append n xs ys (omega (arith, h)))

  pub drop-append : (n : ℕ) (xs ys : List A) → length xs ≡ n → drop n (xs ++ ys) ≡ ys
  drop-append zero [] ys h = refl
  drop-append zero (x ∷ xs) ys h = absurd (omega (arith, h))
  drop-append (suc n) [] ys h = absurd (omega (arith, h))
  drop-append (suc n) (x ∷ xs) ys h = drop-append n xs ys (omega (arith, h))

  -- `xs[i]`, none where Python raises IndexError.
  abbrev pub get_elem? : List A → ℕ → Option A
  get_elem? [] i = none
  get_elem? (x ∷ xs) zero = some x
  get_elem? (x ∷ xs) (suc i) = get_elem? xs i

  -- `xs[i] = x`
  abbrev pub set_elem : ℕ → A → List A → List A
  set_elem i x [] = []
  set_elem zero x (y ∷ xs) = x ∷ xs
  set_elem (suc i) x (y ∷ xs) = y ∷ set_elem i x xs

  pub get_elem?-set_elem :
      (i : ℕ) (x : A) (xs : List A) → i < length xs → get_elem? (set_elem i x xs) i ≡ some x
  get_elem?-set_elem i x [] h = absurd (omega (arith, h))
  get_elem?-set_elem zero x (y ∷ xs) h = refl
  get_elem?-set_elem (suc i) x (y ∷ xs) h = get_elem?-set_elem i x xs (omega (arith, h))

  pub get_elem?-set_elem_ne :
      (i j : ℕ) (x : A) (xs : List A) → i ≢ j → get_elem? (set_elem i x xs) j ≡ get_elem? xs j
  get_elem?-set_elem_ne i j x [] h = refl
  get_elem?-set_elem_ne zero zero x (y ∷ xs) h = absurd (h refl)
  get_elem?-set_elem_ne zero (suc j) x (y ∷ xs) h = refl
  get_elem?-set_elem_ne (suc i) zero x (y ∷ xs) h = refl
  get_elem?-set_elem_ne (suc i) (suc j) x (y ∷ xs) h =
      get_elem?-set_elem_ne i j x xs (λ e. h (ap suc e))

  pub length-set_elem : (i : ℕ) (x : A) (xs : List A) → length (set_elem i x xs) ≡ length xs
  length-set_elem i x [] = refl
  length-set_elem zero x (y ∷ xs) = refl
  length-set_elem (suc i) x (y ∷ xs) = ap suc (length-set_elem i x xs)

  -- `[x] * n`
  abbrev pub replicate : ℕ → A → List A
  replicate zero x = []
  replicate (suc n) x = x ∷ replicate n x

  pub length-replicate : (n : ℕ) (x : A) → length (replicate n x) ≡ n
  length-replicate zero x = refl
  length-replicate (suc n) x = ap suc (length-replicate n x)

  pub get_elem?-replicate : (n i : ℕ) (x : A) → i < n → get_elem? (replicate n x) i ≡ some x
  get_elem?-replicate zero i x h = absurd (omega (arith, h))
  get_elem?-replicate (suc n) zero x h = refl
  get_elem?-replicate (suc n) (suc i) x h = get_elem?-replicate n i x (omega (arith, h))

  -- `list(enumerate(xs, start))`
  abbrev pub enumerate : ℕ → List A → List (ℕ × A)
  enumerate start [] = []
  enumerate start (x ∷ xs) = (start, x) ∷ enumerate (suc start) xs

  pub length-enumerate : (start : ℕ) (xs : List A) → length (enumerate start xs) ≡ length xs
  length-enumerate start [] = refl
  length-enumerate start (x ∷ xs) = ap suc (length-enumerate (suc start) xs)

module _ {ℓ κ} {A : Type ℓ} (P : A → Type κ) where
  -- An element between two parts of a list.
  pub All-middle : (before : List A) (x : A) (later : List A) → All P (before ++ (x ∷ later)) → P x
  All-middle [] x later h = h.0
  All-middle (y ∷ before) x later h = All-middle before x later h.1

module _ {ℓ} {A : Type ℓ} where
  pub Any-map : (P Q : A → Type 0) (xs : List A) → ((x : A) → P x → Q x) → Any P xs → Any Q xs
  Any-map P Q [] f h = elim h [ ]
  Any-map P Q (x ∷ xs) f (inl h) = inl (f x h)
  Any-map P Q (x ∷ xs) f (inr h) = inr (Any-map P Q xs f h)

  pub Any-append : (P : A → Type 0) (xs ys : List A) → Any P (xs ++ ys) → Any P xs ⊎ Any P ys
  Any-append P [] ys h = inr h
  Any-append P (x ∷ xs) ys (inl h) = inl (inl h)
  Any-append P (x ∷ xs) ys (inr h) = elim (Any-append P xs ys h) [
    | inl left ↦ inl (inr left)
    | inr right ↦ inr right
  ]

  -- What holds of an element holds of some element of the list.
  pub each-Any {κ} :
      {B : Type κ} (P : B → A → Type 0) (xs : List A) → All (λ x. (b : B) → P b x → Any (P b) xs) xs
  each-Any P [] = tt
  each-Any {B = B} P (x ∷ xs) = (
    λ b h. inl h,
    All-map (λ y. (b : B) → P b y → Any (P b) xs) (λ y. (b : B) → P b y → Any (P b) (x ∷ xs)) xs
        (λ y f b h. inr (f b h)) (each-Any P xs),
  )

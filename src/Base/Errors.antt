-- ===== src/Base/Errors.antt =====
-- Python exceptions as values: a call returns, or raises an error of type `E`.
use mathlib.Core.Path.{◌≡◌, refl}
use mathlib.Core.Logic.{◌⊎◌, inl, inr}
use mathlib.Core.Option.{Option, none, some}
use mathlib.Core.Bool.{Bool, true, false}

pub data Result {ℓ κ} (E : Type ℓ) (A : Type κ) : Type (ℓ ⊔ κ) where
  raise : (failed : E) → Result E A
  ok : (value : A) → Result E A

-- `if not test: raise e`
abbrev pub require {ℓ} : {E : Type ℓ} → Bool → E → Result E (Unit {0})
require true e = ok tt
require false e = raise e

-- `if test: raise e`
abbrev pub refuse {ℓ} : {E : Type ℓ} → Bool → E → Result E (Unit {0})
refuse true e = raise e
refuse false e = ok tt

-- A value that a test has found, or the error where it has not.
abbrev pub demand {ℓ κ} : {E : Type ℓ} {A : Type κ} → Option A → E → Result E A
demand none e = raise e
demand (some found) e = ok found

infixl 5 ◌>>=◌ ◌>>◌
abbrev pub ◌>>=◌ {ℓ κ μ} :
    {E : Type ℓ} {A : Type κ} {B : Type μ} → (m : Result E A) (rest : A → Result E B) → Result E B
raise failed >>= rest = raise failed
ok value >>= rest = rest value

abbrev pub ◌>>◌ {ℓ κ} : {E : Type ℓ} {B : Type κ} → Result E (Unit {0}) → Result E B → Result E B
m >> k = m >>= λ _. k

module _ {ℓ κ μ} {E : Type ℓ} {A : Type κ} {B : Type μ} where
  -- A chain that returned: its first step returned, and so did the rest.
  pub >>=-eq-ok :
      (first : Result E A) (rest : A → Result E B) {last : B}
      (returned : (first >>= rest) ≡ ok last)
      → (middle : A) × (first ≡ ok middle) × (rest middle ≡ ok last)
  >>=-eq-ok (raise failed) rest returned = absurd (cc)
  >>=-eq-ok (ok middle) rest returned = (middle, refl, returned)

module _ {ℓ κ} {E : Type ℓ} {B : Type κ} where
  pub >>-eq-ok :
      (m : Result E (Unit {0})) (k : Result E B) {b : B}
      → (m >> k) ≡ ok b
      → (m ≡ ok tt) × (k ≡ ok b)
  >>-eq-ok (ok tt) k h = (refl, h)
  >>-eq-ok (raise e) k h = absurd (cc)

module _ {ℓ} {E : Type ℓ} where
  pub require-eq-ok : (b : Bool) (e : E) → require b e ≡ ok tt → b ≡ true
  require-eq-ok true e h = refl
  require-eq-ok false e h = absurd (cc)

  pub refuse-eq-ok : (b : Bool) (e : E) → refuse b e ≡ ok tt → b ≡ false
  refuse-eq-ok false e h = refl
  refuse-eq-ok true e h = absurd (cc)

module _ {ℓ κ} {E : Type ℓ} {A : Type κ} where
  pub demand-eq-ok : (o : Option A) (e : E) {a : A} → demand o e ≡ ok a → o ≡ some a
  demand-eq-ok none e h = absurd (cc)
  demand-eq-ok (some found) e h = cc

pub ok-injective {ℓ κ} :
    {E : Type ℓ} {A : Type κ} {x y : A} → ◌≡◌ {A = Result E A} (ok x) (ok y) → x ≡ y
ok-injective h = cc

pub Result-cases {ℓ κ} :
    {E : Type ℓ} {A : Type κ} (m : Result E A) → ((a : A) × (m ≡ ok a)) ⊎ ((e : E) × (m ≡ raise e))
Result-cases (ok a) = inl (a, refl)
Result-cases (raise e) = inr (e, refl)

-- ===== src/Regression/Laws.antt =====
-- What the monotone fit of research/cpu-limits/phase8/model/monotonic.py returns.
use k8labs.Base.{ℕ, zero, suc, Bool, true, false, ◌&&◌, List, [], ◌∷◌, ◌++◌, map}
use k8labs.Base.{◌≡◌, refl, ap, ◌∙◌, arith, Floats, length, length-append, All, InOrder}
use k8labs.Base.{if◌then◌else◌, Bool-cases, inl, inr, replicate, length-replicate, ok}
use k8labs.Base.{some, length-map, ◌⊎◌, Option-cases}
use k8labs.Regression.{Arithmetic, mean, pool, fitted, pav, MonotonicFit, equal, value_at}
use k8labs.Regression.{interpolate, predict, Observation, fit_ordered, fit_monotonic, last_x}
use k8labs.Regression.{bad_direction, no_observation, bad_confidence, not_finite, not_increasing}
use k8labs.Base.{all, and-eq_true, String, ok-injective, >>-eq-ok, require, refuse, require-eq-ok}
use k8labs.Base.{sort_by, ◌==◌, comparable_text}
use k8labs.Regression.Pooling.{concat, IsPooling, Filled, lower_mean, pool-IsPooling}

module _ (F : Floats) (A : Arithmetic F) where
  length-fitted :
      (blocks : List (List F.Float)) → length (fitted F A blocks) ≡ length (concat blocks)
  unfolding fitted
  length-fitted [] = refl
  length-fitted (block ∷ more) = omega (
    arith,
    length-append (replicate (length block) (mean F A block)) (fitted F A more),
    length-replicate (length block) (mean F A block),
    length-append block (concat more),
    length-fitted more,
  )

  module _ (irreflexive : (a : F.Float) → F.lt a a ≡ false) where
    -- The value of a block in front of values in order, the first of which is not below it.
    replicate-InOrder :
        (n : ℕ) (value next : F.Float) (rest : List F.Float)
        → F.lt next value ≡ false
        → InOrder F.lt (next ∷ rest)
        → InOrder F.lt (replicate n value ++ (next ∷ rest))
    replicate-InOrder zero value next rest above h = h
    replicate-InOrder (suc zero) value next rest above h = (above, h)
    replicate-InOrder (suc (suc n)) value next rest above h =
        (irreflexive value, replicate-InOrder (suc n) value next rest above h)

    replicate-InOrder_last : (n : ℕ) (value : F.Float) → InOrder F.lt (replicate n value ++ [])
    replicate-InOrder_last zero value = tt
    replicate-InOrder_last (suc zero) value = tt
    replicate-InOrder_last (suc (suc n)) value =
        (irreflexive value, replicate-InOrder_last (suc n) value)

    fitted-InOrder :
        (blocks : List (List F.Float))
        → Filled F A blocks
        → InOrder (lower_mean F A) blocks
        → InOrder F.lt (fitted F A blocks)
    unfolding fitted
    fitted-InOrder [] filled rising = tt
    fitted-InOrder (block ∷ []) filled rising =
        replicate-InOrder_last (length block) (mean F A block)
    fitted-InOrder (block ∷ [] ∷ more) filled rising = absurd (omega (arith, filled.1.0))
    fitted-InOrder (block ∷ (value ∷ next) ∷ more) filled rising =
        replicate-InOrder (length block) (mean F A block) (mean F A (value ∷ next)) _ rising.0
          (fitted-InOrder ((value ∷ next) ∷ more) filled.1 rising.1)

    -- In the direction of the fit a value is behind the one before it.
    abbrev pub behind : Bool → F.Float → F.Float → Bool
    behind decreasing a b = if decreasing then F.lt b a else F.lt a b

    -- The values as the code turns them for a falling fit, and back.
    abbrev pub turned : Bool → List F.Float → List F.Float
    turned decreasing values = if decreasing then map A.negate values else values

    module _ (flips : (a b : F.Float) → F.lt (A.negate a) (A.negate b) ≡ F.lt b a) where
      negate-InOrder : (l : List F.Float) → InOrder F.lt l → InOrder (behind true) (map A.negate l)
      negate-InOrder [] h = tt
      negate-InOrder (a ∷ []) h = tt
      negate-InOrder (a ∷ b ∷ r) h = (flips a b ∙ h.0, negate-InOrder (b ∷ r) h.1)

      -- What pooling promises: a value for each observation, in the direction of the fit, each the
      -- mean of the run of observations that it stands for.
      pub record IsPav (decreasing : Bool) (values result : List F.Float) : Type 0 where
        pub as_many : length result ≡ length values
        pub monotone : InOrder (behind decreasing) result
        pub blocks : List (List F.Float)
        pub pooling : IsPooling F A (turned decreasing values) blocks
        pub means : result ≡ turned decreasing (fitted F A blocks)

      -- Over floats none of which is less than itself, and whose negation turns their order round,
      -- the fitted values are as many as the given ones and never step back in the direction of the
      -- fit; and the given values fall into runs, in order, whose means they are.
      pub pav-IsPav :
          (decreasing : Bool) (values : List F.Float)
          → IsPav decreasing values (pav F A decreasing values)
      unfolding pav
      pav-IsPav false values =
          let pooling = pool-IsPooling F A [] values tt tt in
          record {
            as_many = length-fitted (pool F A [] values) ∙ ap length pooling.whole;
            monotone = fitted-InOrder (pool F A [] values) pooling.filled pooling.rising;
            blocks = pool F A [] values;
            pooling = pooling;
            means = refl;
          }
      pav-IsPav true values =
          let signed = map A.negate values in
          let pooling = pool-IsPooling F A [] signed tt tt in
          let blocks = pool F A [] signed in
          record {
            as_many =
                length-map A.negate (fitted F A blocks)
                ∙ length-fitted blocks
                ∙ ap length pooling.whole
                ∙ length-map A.negate values;
            monotone =
                negate-InOrder (fitted F A blocks)
                  (fitted-InOrder blocks pooling.filled pooling.rising);
            blocks = blocks;
            pooling = pooling;
            means = refl;
          }

cons_of_length {ℓ} :
    {A : Type ℓ} (l : List A) (n : ℕ) → length l ≡ suc n → (a : A) × (r : List A) × (l ≡ a ∷ r)
cons_of_length [] n h = absurd (omega (arith, h))
cons_of_length (a ∷ r) n h = (a, r, refl)

-- The last of a list that begins with an element.
abbrev pub last_of {ℓ} : {A : Type ℓ} → A → List A → A
last_of a [] = a
last_of a (b ∷ r) = last_of b r

module _ (F : Floats) where
  -- What a fit from `fit_monotonic` has.
  pub record IsFit (fit : MonotonicFit F) : Type 0 where
    pub first : F.Float
    pub later : List F.Float
    pub first_value : F.Float
    pub later_values : List F.Float
    pub abscissas : fit.xs ≡ first ∷ later
    pub ordinates : fit.values ≡ first_value ∷ later_values
    pub least : fit.x_min ≡ first
    pub greatest : fit.x_max ≡ last_of first later
    pub paired : length later_values ≡ length later
    pub finite : All (λ a. F.is_finite a ≡ true) (first ∷ later)

  all-finite :
      (items : List (Observation F))
      → all (λ item. F.is_finite item.x && F.is_finite item.value) items ≡ true
      → All (λ a. F.is_finite a ≡ true) (map (λ item. item.x) items)
  all-finite [] h = tt
  all-finite (item ∷ more) h =
      let (here, rest) =
        and-eq_true (F.is_finite item.x && F.is_finite item.value)
          (all (λ item. F.is_finite item.x && F.is_finite item.value) more) h in
      ((and-eq_true (F.is_finite item.x) (F.is_finite item.value) here).0, all-finite more rest)

module _ (F : Floats)
    (lt_or_le : (a b : F.Float)
      → F.is_finite a ≡ true
      → F.is_finite b ≡ true
      → F.lt a b ≡ false
      → F.le b a ≡ true)
    (le_or_le : (a b : F.Float)
      → F.is_finite a ≡ true
      → F.is_finite b ≡ true
      → F.le a b ≡ false
      → F.le b a ≡ true) where
  -- A number between the first and the last `x` is one of them or between two neighbours.
  found :
      (x left : F.Float) (xs : List F.Float) (left_value : F.Float) (values : List F.Float)
      → F.is_finite x ≡ true
      → All (λ a. F.is_finite a ≡ true) (left ∷ xs)
      → length values ≡ length xs
      → F.le left x ≡ true
      → F.lt (last_of left xs) x ≡ false
      → ((v : F.Float) × (value_at F x (left ∷ xs) (left_value ∷ values) ≡ some v))
        ⊎ ((v : F.Float) × (interpolate F x (left ∷ xs) (left_value ∷ values) ≡ some v))
  unfolding value_at interpolate
  found x left [] left_value values finite_x finite same above below =
      inl (left_value, rw (above, lt_or_le left x finite.0 finite_x below) refl)
  found x left (right ∷ xs) left_value [] finite_x finite same above below =
      absurd (omega (arith, same))
  found x left (right ∷ xs) left_value (value ∷ values) finite_x finite same above below =
      elim (Bool-cases (equal F left x)) [
        | inl same_x ↦ inl (left_value, rw same_x refl)
        | inr differ ↦ elim (Bool-cases (F.le x right)) [
          | inl inside ↦ inr (
            F.add left_value
                (F.mul (F.div (F.sub x left) (F.sub right left)) (F.sub value left_value)),
            rw (above, inside) refl,
          )
          | inr beyond ↦
              let rest =
                found x right xs value values finite_x finite.1 (omega (arith, same))
                  (le_or_le x right finite_x finite.1.0 beyond) below in
              elim rest [
                | inl (v, at) ↦ inl (v, rw differ at)
                | inr (v, between) ↦ inr (v, rw (above, beyond) between)
              ]
        ]
      ]

  pub predict-inside :
      (fit : MonotonicFit F) (x : F.Float)
      → IsFit F fit
      → F.is_finite x ≡ true
      → F.lt x fit.x_min ≡ false
      → F.lt fit.x_max x ≡ false
      → (v : F.Float) × (predict F fit x ≡ ok v)
  unfolding predict
  predict-inside fit x is_fit finite_x above below =
      let left = lt_or_le x is_fit.first finite_x is_fit.finite.0 (rw is_fit.least at above) in
      let place =
        found x is_fit.first is_fit.later is_fit.first_value is_fit.later_values finite_x
          is_fit.finite is_fit.paired left (rw is_fit.greatest at below) in
      elim place [
        | inl (v, at) ↦ (v, rw (above, below, is_fit.abscissas, is_fit.ordinates, at) refl)
        | inr (v, between) ↦
            elim (Option-cases (
              value_at F x (is_fit.first ∷ is_fit.later)
                (is_fit.first_value ∷ is_fit.later_values))) [
                  | inl nowhere ↦ (
                    v,
                    rw
                        (
                          above, below, is_fit.abscissas, is_fit.ordinates, nowhere,
                          is_fit.abscissas, is_fit.ordinates, between,
                        )
                        refl,
                  )
                  | inr (w, at) ↦
                      (w, rw (above, below, is_fit.abscissas, is_fit.ordinates, at) refl)
                ]
      ]

module _ (F : Floats) (A : Arithmetic F) (irreflexive : (a : F.Float) → F.lt a a ≡ false)
    (flips : (a b : F.Float) → F.lt (A.negate a) (A.negate b) ≡ F.lt b a) where
  last_x-last_of :
      (first : Observation F) (more : List (Observation F))
      → last_x F A first more ≡ last_of first.x (map (λ item. item.x) more)
  last_x-last_of first [] = refl
  last_x-last_of first (next ∷ more) = last_x-last_of next more

  fit_ordered-IsFit :
      (ordered : List (Observation F)) (direction : String) (confidence : F.Float)
      {fit : MonotonicFit F}
      → All (λ a. F.is_finite a ≡ true) (map (λ item. item.x) ordered)
      → fit_ordered F A ordered direction confidence ≡ ok fit
      → IsFit F fit
  unfolding fit_ordered
  fit_ordered-IsFit [] direction confidence finite h = absurd (cc)
  fit_ordered-IsFit (first ∷ more) direction confidence finite h =
      let raw = map (λ item. item.value) (first ∷ more) in
      let values = pav F A (direction == "lower") raw in
      let as_many = (pav-IsPav F A irreflexive flips (direction == "lower") raw).as_many in
      let (value, later, same) =
        cons_of_length values (length more)
          (as_many ∙ ap suc (length-map (λ item. item.value) more)) in
      rw⁻¹ (ok-injective h) record {
        first = first.x;
        later = map (λ item. item.x) more;
        first_value = value;
        later_values = later;
        abscissas = refl;
        ordinates = same;
        least = refl;
        greatest = last_x-last_of first more;
        paired = omega (
          arith,
          ap length same,
          as_many,
          length-map (λ item. item.value) more,
          length-map (λ item. item.x) more,
        );
        finite = finite;
      }

  pub fit_monotonic-IsFit :
      (observations : List (Observation F)) (direction : String) (confidence : F.Float)
      {fit : MonotonicFit F}
      → fit_monotonic F A observations direction confidence ≡ ok fit
      → IsFit F fit
  unfolding fit_monotonic
  fit_monotonic-IsFit observations direction confidence h =
      let ordered = sort_by (λ a b. F.lt a.x b.x) observations in
      let (known, h1) = >>-eq-ok (require _ bad_direction) _ h in
      let (some_item, h2) = >>-eq-ok (refuse _ no_observation) _ h1 in
      let (level, h3) = >>-eq-ok (require _ bad_confidence) _ h2 in
      let (finite, h4) = >>-eq-ok (require _ not_finite) _ h3 in
      let (rising, h5) = >>-eq-ok (refuse _ not_increasing) _ h4 in
      fit_ordered-IsFit ordered direction confidence
        (all-finite F ordered (require-eq-ok _ not_finite finite)) h5

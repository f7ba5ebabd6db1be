-- ===== src/Regression.antt =====
-- The monotone fit of research/cpu-limits/phase8/model/monotonic.py, over any floats. The numeric
-- built-ins `sum`, `abs`, `round`, `math.sqrt` and negation, and those of `statistics`, are parameters.
pub mod Pooling
pub mod Table
pub mod Laws
use k8labs.Base.{
  ℕ, zero, suc, Bool, true, false, not, ◌&&◌, ◌||◌, Option, none, some, List, [], ◌∷◌,
}
use k8labs.Base.{◌++◌, map, reverse, String, ◌==◌, comparable_text, if◌then◌else◌, Floats, length}
use k8labs.Base.{
  Result, ok, raise, ◌>>=◌, ◌>>◌, require, refuse, is_empty, all, sort_by, replicate, ltb,
}

pub record Arithmetic (F : Floats) : Type 0 where
  pub sum : List F.Float → F.Float
  pub fmean : List F.Float → F.Float
  pub stdev : List F.Float → F.Float
  pub square_root : F.Float → F.Float
  pub pstdev : List F.Float → F.Float
  pub negate : F.Float → F.Float
  pub absolute : F.Float → F.Float
  -- `round(x, 2)`
  pub round2 : F.Float → F.Float

pub data FitError : Type 0 where
  bad_direction no_observation bad_confidence not_finite not_increasing : FitError
  outside_range interpolation_failed few_samples few_levels no_group : FitError

module _ (F : Floats) where
  pub record Observation : Type 0 where
    pub x : F.Float
    pub value : F.Float

  pub record MonotonicFit : Type 0 where
    pub direction : String
    pub x_min : F.Float
    pub x_max : F.Float
    pub xs : List F.Float
    pub values : List F.Float
    pub lower : List F.Float
    pub upper : List F.Float
    pub sample_count : ℕ

  -- `a == b` of floats.
  abbrev pub equal : F.Float → F.Float → Bool
  equal a b = F.le a b && F.le b a

  -- `x in self.xs`, and `self.values[self.xs.index(x)]`.
  unfoldable pub value_at : F.Float → List F.Float → List F.Float → Option F.Float
  value_at x [] values = none
  value_at x (left ∷ xs) [] = none
  value_at x (left ∷ xs) (value ∷ values) =
      let rest = value_at x xs values in if equal left x then some value else rest

  -- The loop over the neighbours, as far as both lists go.
  unfoldable pub interpolate : F.Float → List F.Float → List F.Float → Option F.Float
  interpolate x (left ∷ right ∷ xs) (left_value ∷ right_value ∷ values) =
      let rest = interpolate x (right ∷ xs) (right_value ∷ values) in
      let fraction = F.div (F.sub x left) (F.sub right left) in
      if F.le left x && F.le x right
      then some (F.add left_value (F.mul fraction (F.sub right_value left_value)))
      else rest
  interpolate x _ _ = none

  unfoldable pub predict : MonotonicFit → F.Float → Result FitError F.Float
  predict fit x = do
    refuse (F.lt x fit.x_min || F.lt fit.x_max x) outside_range
    elim (value_at x fit.xs fit.values) [
      | some value ↦ ok value
      | none ↦ elim (interpolate x fit.xs fit.values) [
        | some value ↦ ok value
        | none ↦ raise interpolation_failed
      ]
    ]

  module _ (A : Arithmetic F) where
    abbrev pub mean : List F.Float → F.Float
    mean block = F.div (A.sum block) (F.of_nat (length block))

    -- The `while` loop; the blocks are last one first.
    unfoldable pub settle : List F.Float → List (List F.Float) → List (List F.Float)
    settle last [] = last ∷ []
    settle last (previous ∷ earlier) =
        let merged = settle (previous ++ last) earlier in
        if F.lt (mean last) (mean previous) then merged else last ∷ previous ∷ earlier

    unfoldable pub pool : List (List F.Float) → List F.Float → List (List F.Float)
    pool blocks [] = reverse blocks
    pool blocks (value ∷ more) = pool (settle (value ∷ []) blocks) more

    -- `[sum(block) / len(block)] * len(block)` for each block.
    unfoldable pub fitted : List (List F.Float) → List F.Float
    fitted [] = []
    fitted (block ∷ more) = replicate (length block) (mean block) ++ fitted more

    unfoldable pub pav : Bool → List F.Float → List F.Float
    pav decreasing values =
        let signed = if decreasing then map A.negate values else values in
        let result = fitted (pool [] signed) in if decreasing then map A.negate result else result

    -- `observed - fitted` of two lists.
    unfoldable pub residuals : List F.Float → List F.Float → List F.Float
    residuals (observed ∷ raw) (fit ∷ values) = F.sub observed fit ∷ residuals raw values
    residuals _ _ = []

    -- `any(right.x <= left.x for left, right in zip(ordered, ordered[1:]))`
    unfoldable pub any_step_back : List Observation → Bool
    any_step_back (left ∷ right ∷ more) = F.le right.x left.x || any_step_back (right ∷ more)
    any_step_back _ = false

    abbrev pub z_score : F.Float → F.Float
    z_score confidence =
        let level = A.round2 confidence in
        if equal level (F.decimal 90 2)
        then F.decimal 1645 3
        else if equal level (F.decimal 95 2)
        then F.decimal 1960 3
        else if equal level (F.decimal 99 2)
        then F.decimal 2576 3
        else F.decimal 1960 3

    -- `statistics.pstdev`, and a twentieth of the value where there is one only.
    unfoldable pub spread_of : List F.Float → List F.Float → F.Float
    spread_of (value ∷ []) differences = F.mul (A.absolute value) (F.decimal 5 2)
    spread_of raw differences = A.pstdev differences

    -- `max(0.0, bound)`
    abbrev pub lower_bound : F.Float → F.Float
    lower_bound bound = if F.lt (F.decimal 0 1) bound then bound else F.decimal 0 1

    abbrev pub last_x : Observation → List Observation → F.Float
    last_x observation [] = observation.x
    last_x observation (next ∷ more) = last_x next more

    -- The fit of observations in order.
    unfoldable pub fit_ordered : List Observation → String → F.Float → Result FitError MonotonicFit
    fit_ordered [] direction confidence = raise no_observation
    fit_ordered (first ∷ more) direction confidence =
        let ordered = first ∷ more in
        let raw = map (λ item. item.value) ordered in
        let values = pav (direction == "lower") raw in
        let margin = F.mul (z_score confidence) (spread_of raw (residuals raw values)) in
        ok record {
          direction = direction;
          x_min = first.x;
          x_max = last_x first more;
          xs = map (λ item. item.x) ordered;
          values = values;
          lower = map (λ value. lower_bound (F.sub value margin)) values;
          upper = map (λ value. F.add value margin) values;
          sample_count = 0;
        }

    unfoldable pub fit_monotonic :
        List Observation → String → F.Float → Result FitError MonotonicFit
    fit_monotonic observations direction confidence = do
      require (direction == "lower" || direction == "higher") bad_direction
      refuse (is_empty observations) no_observation
      require (F.lt (F.decimal 5 1) confidence && F.lt confidence (F.decimal 10 1)) bad_confidence
      let ordered = sort_by (λ a b. F.lt a.x b.x) observations
      require (all (λ item. F.is_finite item.x && F.is_finite item.value) ordered) not_finite
      refuse (any_step_back ordered) not_increasing
      fit_ordered ordered direction confidence

-- ===== src/Regression/Table/Laws.antt =====
-- What a fit of a table promises of its predictions.
use k8labs.Base.{ℕ, true, false, List, String, ◌≡◌, Floats, Fields}
use k8labs.Base.{ok, refuse, >>=-eq-ok, >>-eq-ok, ok-injective}
use mathlib.Core.Path.{subst}
use k8labs.Regression.{Arithmetic, MonotonicFit, few_samples, few_levels, predict}
use k8labs.Regression.Laws.{IsFit, fit_monotonic-IsFit, predict-inside}
use k8labs.Regression.Table.{fit_response_table, widen, count_samples, with_bounds, Groups}

module _ (F : Floats) (A : Arithmetic F) where
  with_bounds-IsFit :
      (z : F.Float) (grouped : Groups F) (inner : MonotonicFit F) {fit : MonotonicFit F}
      → IsFit F inner
      → with_bounds F A z grouped inner ≡ ok fit
      → IsFit F fit
  unfolding with_bounds
  with_bounds-IsFit z grouped inner is_fit h =
      let (bounds, widened, h1) =
        >>=-eq-ok (widen F A z grouped inner.xs inner.values inner.lower inner.upper) _ h in
      let (count, counted, h2) = >>=-eq-ok (count_samples F A grouped inner.xs) _ h1 in
      subst (IsFit F) (ok-injective h2) record {
        first = is_fit.first;
        later = is_fit.later;
        first_value = is_fit.first_value;
        later_values = is_fit.later_values;
        abscissas = is_fit.abscissas;
        ordinates = is_fit.ordinates;
        least = is_fit.least;
        greatest = is_fit.greatest;
        paired = is_fit.paired;
        finite = is_fit.finite;
      }

module _ (F : Floats) (A : Arithmetic F) (irreflexive : (a : F.Float) → F.lt a a ≡ false)
    (flips : (a b : F.Float) → F.lt (A.negate a) (A.negate b) ≡ F.lt b a) where
  fit_response_table-IsFit :
      (rows : List (Fields F.Float)) (x_key y_key direction : String) (min_samples : ℕ)
      (confidence : F.Float) {fit : MonotonicFit F}
      → fit_response_table F A rows x_key y_key direction min_samples confidence ≡ ok fit
      → IsFit F fit
  unfolding fit_response_table
  fit_response_table-IsFit rows x_key y_key direction min_samples confidence h =
      let (enough, h1) = >>-eq-ok (refuse _ few_samples) _ h in
      let (levels, h2) = >>-eq-ok (refuse _ few_levels) _ h1 in
      let (inner, fitted_ok, h3) = >>=-eq-ok _ _ h2 in
      with_bounds-IsFit F A _ _ inner
        (fit_monotonic-IsFit F A irreflexive flips _ direction confidence fitted_ok) h3

  module _
      (lt_or_le : (a b : F.Float)
        → F.is_finite a ≡ true
        → F.is_finite b ≡ true
        → F.lt a b ≡ false
        → F.le b a ≡ true)
      (le_or_le : (a b : F.Float)
        → F.is_finite a ≡ true
        → F.is_finite b ≡ true
        → F.le a b ≡ false
        → F.le b a ≡ true) where
    -- Over floats none of which is less than itself, whose finite ones are in a total order, and
    -- whose negation turns the order round, a fit of a table that was returned predicts a value at
    -- each finite number from its least to its greatest `x`: the interpolation never fails.
    pub fit_response_table-predict :
        (rows : List (Fields F.Float)) (x_key y_key direction : String) (min_samples : ℕ)
        (confidence : F.Float) (fit : MonotonicFit F) (x : F.Float)
        → fit_response_table F A rows x_key y_key direction min_samples confidence ≡ ok fit
        → F.is_finite x ≡ true
        → F.lt x fit.x_min ≡ false
        → F.lt fit.x_max x ≡ false
        → (v : F.Float) × (predict F fit x ≡ ok v)
    fit_response_table-predict rows x_key y_key direction min_samples confidence fit x h finite
          above below =
        predict-inside F lt_or_le le_or_le fit x
          (fit_response_table-IsFit rows x_key y_key direction min_samples confidence h) finite
          above below

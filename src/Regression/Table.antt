-- ===== src/Regression/Table.antt =====
-- `fit_response_table` of research/cpu-limits/phase8/model/monotonic.py: the fit of the usable rows
-- of a table. An integer is taken to have a float, which Python refuses above the largest one.
pub mod Laws
use k8labs.Base.{ℕ, suc, ◌+◌, Bool, true, false, not, ◌&&◌, ◌||◌, Option, none, some, List, [], ◌∷◌}
use k8labs.Base.{
  ◌++◌, map, String, ◌==◌, comparable_text, if◌then◌else◌, Floats, Value, Fields, get,
}
use k8labs.Base.{Result, ok, raise, ◌>>=◌, ◌>>◌, require, refuse, demand, length, ltb, leb, sort_by}
use k8labs.Base.{pos, negsuc}
use k8labs.Regression.{Arithmetic, Observation, MonotonicFit, FitError, few_samples, few_levels}
use k8labs.Regression.{no_group, equal, fit_monotonic, z_score, lower_bound}

module _ (F : Floats) where
  -- `float(x)` of an `int`, a `bool` or a `float`, and none of another value.
  unfoldable pub as_float : Option (Value F.Float) → Option F.Float
  as_float (some (Value.int (pos n))) = some (F.of_nat n)
  as_float (some (Value.int (negsuc n))) = some (F.sub (F.of_nat 0) (F.of_nat (suc n)))
  as_float (some (Value.boolean b)) = some (F.of_nat (if b then 1 else 0))
  as_float (some (Value.float x)) = some x
  as_float _ = none

  -- `row.get("valid") is True`
  unfoldable pub is_valid : Option (Value F.Float) → Bool
  is_valid (some (Value.boolean b)) = b
  is_valid _ = false

  -- `row.get("dependency_bound", "no") in (None, "no")`
  unfoldable pub is_unbound : Option (Value F.Float) → Bool
  is_unbound none = true
  is_unbound (some Value.null) = true
  is_unbound (some (Value.text s)) = s == "no"
  is_unbound _ = false

  abbrev pub Groups : Type 0
  Groups = List (F.Float × List F.Float)

  -- `grouped.setdefault(x, []).append(value)`
  unfoldable pub add_sample : F.Float → F.Float → Groups → Groups
  add_sample x value [] = (x, value ∷ []) ∷ []
  add_sample x value ((key, samples) ∷ more) =
      let rest = add_sample x value more in
      if equal F key x then (key, samples ++ (value ∷ [])) ∷ more else (key, samples) ∷ rest

  unfoldable pub samples_at : F.Float → Groups → Option (List F.Float)
  samples_at x [] = none
  samples_at x ((key, samples) ∷ more) =
      let rest = samples_at x more in if equal F key x then some samples else rest

  -- The pair of a usable row.
  unfoldable pub usable_pair : String → String → Fields F.Float → Option (F.Float × F.Float)
  usable_pair x_key y_key row =
      if is_valid (get "valid" row) && is_unbound (get "dependency_bound" row)
      then both (as_float (get x_key row)) (as_float (get y_key row))
      else none
    where
      both : Option F.Float → Option F.Float → Option (F.Float × F.Float)
      both (some x) (some value) =
          if F.is_finite x && F.is_finite value then some (x, value) else none
      both _ _ = none

  -- The loop over the rows.
  unfoldable pub group_rows : String → String → List (Fields F.Float) → Groups → Groups
  group_rows x_key y_key [] grouped = grouped
  group_rows x_key y_key (row ∷ more) grouped = elim (usable_pair x_key y_key row) [
    | none ↦ group_rows x_key y_key more grouped
    | some pair ↦ group_rows x_key y_key more (add_sample pair.0 pair.1 grouped)
  ]

  module _ (A : Arithmetic F) where
    -- The levels with enough samples; equal levels are one group, so the order is that of levels.
    unfoldable pub usable_levels : ℕ → Groups → List (Observation F)
    usable_levels min_samples [] = []
    usable_levels min_samples ((x, samples) ∷ more) =
        let rest = usable_levels min_samples more in
        if leb min_samples (length samples)
        then record { x = x; value = A.fmean samples } ∷ rest
        else rest

    -- The bounds of each level, as far as the four lists go.
    unfoldable pub widen :
        F.Float
        → Groups
        → List F.Float
        → List F.Float
        → List F.Float
        → List F.Float
        → Result FitError (List (F.Float × F.Float))
    widen z grouped (x ∷ xs) (fit ∷ values) (fit_low ∷ lower) (fit_high ∷ upper) = do
      samples ← demand (samples_at x grouped) no_group
      let standard_error = F.div (A.stdev samples) (A.square_root (F.of_nat (length samples)))
      let margin = F.mul z standard_error
      let below = F.sub fit margin
      let above = F.add fit margin
      rest ← widen z grouped xs values lower upper
      ok (
          (
            lower_bound F A (if F.lt below fit_low then below else fit_low),
            if F.lt fit_high above then above else fit_high,
          )
          ∷ rest)
    widen z grouped _ _ _ _ = ok []

    -- `sum(len(grouped[x]) for x in fit.xs)`
    unfoldable pub count_samples : Groups → List F.Float → Result FitError ℕ
    count_samples grouped [] = ok 0
    count_samples grouped (x ∷ xs) = do
      samples ← demand (samples_at x grouped) no_group
      rest ← count_samples grouped xs
      ok (length samples + rest)

    -- The fit with the bounds of its levels and the number of its samples.
    unfoldable pub with_bounds :
        F.Float → Groups → MonotonicFit F → Result FitError (MonotonicFit F)
    with_bounds z grouped fit = do
      bounds ← widen z grouped fit.xs fit.values fit.lower fit.upper
      count ← count_samples grouped fit.xs
      ok record fit {
        lower = map (λ b. b.0) bounds;
        upper = map (λ b. b.1) bounds;
        sample_count = count;
      }

    unfoldable pub fit_response_table :
        List (Fields F.Float)
        → String
        → String
        → String
        → ℕ
        → F.Float
        → Result FitError (MonotonicFit F)
    fit_response_table rows x_key y_key direction min_samples confidence = do
      refuse (ltb min_samples 2) few_samples
      let grouped = group_rows x_key y_key rows []
      let usable = usable_levels min_samples (sort_by (λ a b. F.lt a.0 b.0) grouped)
      refuse (ltb (length usable) 2) few_levels
      fit ← fit_monotonic F A usable direction confidence
      with_bounds (z_score F A confidence) grouped fit

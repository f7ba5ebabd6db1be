-- ===== src/Statistics.antt =====
-- The Holm correction of research/cpu-limits/analysis/stats.py, over any floats. The order of the
-- p-values is kept as pairs of an index and its value.
pub mod StepDown
pub mod Sched
pub mod Laws
use k8labs.Base.{ℕ, zero, suc, ◌-◌, Bool, true, false, not, ◌&&◌, ◌||◌, List, [], ◌∷◌, map}
use k8labs.Base.{Floats, Result, ok, raise, ◌>>=◌, ◌>>◌, require, refuse, ltb, if◌then◌else◌}
use k8labs.Base.{length, all, sort_by, set_elem, replicate, enumerate}

-- The four `raise` sites.
pub data StatsError : Type 0 where
  family_too_small family_empty alpha_outside p_value_outside : StatsError

-- `if …: rejected[index] = True`
abbrev pub mark : Bool → ℕ → List Bool → List Bool
mark rejects index rejected = if rejects then set_elem index true rejected else rejected

module _ (F : Floats) where
  pub record HolmDecision : Type 0 where
    pub p_value : F.Float
    pub threshold : F.Float
    pub rejected : Bool

  -- `alpha / (planned_family_size - position)`; a position is below the size of the family.
  abbrev pub threshold_at : F.Float → ℕ → ℕ → F.Float
  threshold_at alpha family position = F.div alpha (F.of_nat (family - position))

  -- `0.0 <= value <= 1.0 and math.isfinite(value)`
  abbrev pub is_p_value : F.Float → Bool
  is_p_value value = F.le (F.decimal 0 1) value && F.le value (F.decimal 10 1) && F.is_finite value

  -- The loop over the indexes in the order of their values.
  unfoldable pub step_down :
      F.Float
      → ℕ
      → ℕ
      → Bool
      → List F.Float
      → List Bool
      → List (ℕ × F.Float)
      → List F.Float × List Bool
  step_down alpha family position stopped thresholds rejected [] = (thresholds, rejected)
  step_down alpha family position stopped thresholds rejected ((index, value) ∷ more) =
      let threshold = threshold_at alpha family position in
      let rejects = not stopped && F.le value threshold in
      step_down alpha family (suc position) (not rejects) (set_elem index threshold thresholds)
        (mark rejects index rejected) more

  -- `HolmDecision(p_value=value, threshold=thresholds[index], rejected=rejected[index])`
  unfoldable pub decisions : List F.Float → List F.Float → List Bool → List HolmDecision
  decisions (value ∷ values) (threshold ∷ thresholds) (verdict ∷ rejected) =
      record { p_value = value; threshold = threshold; rejected = verdict }
      ∷ decisions values thresholds rejected
  decisions _ _ _ = []

  -- `sorted(range(len(values)), key=values.__getitem__)`, with the values.
  unfoldable pub ranked : List F.Float → List (ℕ × F.Float)
  ranked values = sort_by (λ a b. F.lt a.1 b.1) (enumerate 0 values)

  unfoldable pub holm_decisions : List F.Float → ℕ → F.Float → Result StatsError (List HolmDecision)
  holm_decisions values family alpha = do
    refuse (ltb family (length values)) family_too_small
    refuse (ltb family 1) family_empty
    require (F.lt (F.decimal 0 1) alpha && F.lt alpha (F.decimal 10 1)) alpha_outside
    require (all is_p_value values) p_value_outside
    let arrays =
        step_down alpha family 0 false (replicate (length values) (F.decimal 0 1))
          (replicate (length values) false) (ranked values)
    ok (decisions values arrays.0 arrays.1)

  unfoldable pub holm_step_down : List F.Float → ℕ → F.Float → Result StatsError (List Bool)
  holm_step_down values family alpha = do
    decided ← holm_decisions values family alpha
    ok (map (λ d. d.rejected) decided)

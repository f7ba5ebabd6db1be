-- ===== src/Statistics/Sched/Verdicts.antt =====
-- `holm_decisions` of research/linux-sched/analysis/sched_analysis.py: the verdict of each contrast
-- from the two corrected tests. A contrast is a record of the fields that the function reads.
pub mod Laws
use k8labs.Base.{
  ℕ, zero, suc, Bool, true, false, not, ◌&&◌, ◌||◌, Option, some, none, List, [], ◌∷◌,
}
use k8labs.Base.{map, Floats, Result, ok, raise, ◌>>=◌, ◌>>◌, demand, if◌then◌else◌, is_empty}
use k8labs.Base.{get_elem?, set_elem, enumerate}
use k8labs.Statistics.Sched.{SchedError, no_element, Decision, incomplete, descriptive}
use k8labs.Statistics.Sched.{inconclusive, improvement, regression, equivalent, holm_step_down}

module _ (F : Floats) where
  pub record Comparison : Type 0 where
    pub is_incomplete : Bool
    pub is_descriptive : Bool
    pub df : ℕ
    pub t_two : F.Float
    pub t_lower : F.Float
    pub t_upper : F.Float
    pub average : F.Float
    pub effect : Option F.Float

  -- The label of a contrast before the tests.
  abbrev pub label : Comparison → Decision
  label c =
      if c.is_incomplete then incomplete else if c.is_descriptive then descriptive else inconclusive

  -- `[i for i, c in enumerate(comparisons) if …]`, with the contrasts.
  unfoldable pub tested_of : List (ℕ × Comparison) → List (ℕ × Comparison)
  tested_of [] = []
  tested_of (c ∷ more) =
      let rest = tested_of more in
      if not c.1.is_descriptive && not c.1.is_incomplete then c ∷ rest else rest

  -- `min(t_lower, -t_upper)`: the first of two equal ones.
  abbrev pub tost_of : (F.Float → F.Float) → Comparison → F.Float
  tost_of negate c =
      let upper = negate c.t_upper in if F.lt upper c.t_lower then upper else c.t_lower

  module _ (log negate : F.Float → F.Float) where
    abbrev pub band_of : Comparison → F.Float
    band_of c =
        log (F.add (F.of_nat 1) (elim c.effect [ none ↦ F.decimal 5 2 | some effect ↦ effect ]))

    abbrev pub verdict_of : Comparison → Bool → Bool → Decision
    verdict_of c no_effect tost =
        if no_effect && F.le (band_of c) c.average
        then improvement
        else if no_effect && F.le c.average (negate (band_of c))
        then regression
        else if tost
        then equivalent
        else inconclusive

    -- The loop over the tested contrasts, whose positions count the verdicts of the tests.
    unfoldable pub assign :
        List Bool
        → List Bool
        → ℕ
        → List (ℕ × Comparison)
        → List Decision
        → Result SchedError (List Decision)
    assign no_effect tost position [] decisions = ok decisions
    assign no_effect tost position ((index, c) ∷ more) decisions = do
      rejects ← demand (get_elem? no_effect position) no_element
      equal ← demand (get_elem? tost position) no_element
      assign no_effect tost (suc position) more
          (set_elem index (verdict_of c rejects equal) decisions)

  module _ (inv_cdf log absolute negate : F.Float → F.Float) where
    -- The tests of all contrasts that are tested, and the verdicts.
    unfoldable pub corrected :
        F.Float → List (ℕ × Comparison) → List Decision → Result SchedError (List Decision)
    corrected alpha tested decisions = do
      let dfs = map (λ c. c.1.df) tested
      let abs_t = map (λ c. absolute c.1.t_two) tested
      let tosts = map (λ c. tost_of negate c.1) tested
      no_effect ← holm_step_down F inv_cdf abs_t dfs alpha 2 (some 10)
      equal ← holm_step_down F inv_cdf tosts dfs alpha 1 (some 10)
      assign log negate no_effect equal 0 tested decisions

    -- With no contrast at all both early returns give the empty list.
    unfoldable pub holm_decisions : List Comparison → F.Float → Result SchedError (List Decision)
    holm_decisions comparisons alpha =
        let decisions = map label comparisons in
        let tested = tested_of (enumerate 0 comparisons) in
        let verdicts = corrected alpha tested decisions in
        if is_empty comparisons then ok [] else if is_empty tested then ok decisions else verdicts

-- ===== src/Statistics/Sched.antt =====
-- The corrected verdicts of research/linux-sched/analysis/sched_analysis.py, over any floats. The
-- quantile of the normal distribution, the logarithm and the sign are parameters.
pub mod Verdicts
pub mod Laws
use k8labs.Base.{ℕ, zero, suc, ◌+◌, ◌-◌, ◌*◌, Bool, true, false, not, ◌&&◌, ◌||◌, Option, some}
use k8labs.Base.{none, List, [], ◌∷◌, map, Floats, Result, ok, raise, ◌>>=◌, ◌>>◌, require, refuse}
use k8labs.Base.{
  demand, ltb, if◌then◌else◌, length, get_elem?, set_elem, replicate, enumerate, sort_by,
}
use k8labs.Base.{is_empty}

pub data SchedError : Type 0 where
  probability_outside too_few_degrees division_by_zero no_element : SchedError

-- The texts of a verdict.
pub data Decision : Type 0 where
  incomplete descriptive inconclusive improvement regression equivalent : Decision

-- `m`: the size of the family, if one is given.
abbrev pub family_of : Option ℕ → ℕ → ℕ
family_of none size = size
family_of (some family_size) size = family_size

-- `sorted(…, reverse=True)` keeps the order of equal scores.
abbrev pub order_of : (F : Floats) → List F.Float → List (ℕ × F.Float)
order_of F scores = sort_by (λ a b. F.lt b.1 a.1) (enumerate 0 scores)

module _ (F : Floats) (inv_cdf : F.Float → F.Float) where
  -- `n` as a float literal.
  abbrev whole : ℕ → F.Float
  whole n = F.of_nat n

  unfoldable pub t_ppf : F.Float → ℕ → Result SchedError F.Float
  t_ppf probability degrees_of_freedom = do
    require (F.lt (whole 0) probability && F.lt probability (whole 1)) probability_outside
    refuse (ltb degrees_of_freedom 2) too_few_degrees
    let z = inv_cdf probability
    let d = whole degrees_of_freedom
    let z2 = F.mul z z
    let z3 = F.mul z2 z
    let z5 = F.mul z3 z2
    let z7 = F.mul z5 z2
    let first = F.div (F.add z3 z) (F.mul (whole 4) d)
    let second =
        F.div (F.add (F.add (F.mul (whole 5) z5) (F.mul (whole 16) z3)) (F.mul (whole 3) z))
          (F.mul (F.mul (whole 96) d) d)
    let third =
        F.div
          (F.sub (F.add (F.add (F.mul (whole 3) z7) (F.mul (whole 19) z5)) (F.mul (whole 17) z3))
            (F.mul (whole 15) z))
          (F.mul (F.mul (F.mul (whole 384) d) d) d)
    ok (F.add (F.add (F.add z first) second) third)

  module _ (dfs : List ℕ) (alpha : F.Float) (sided m : ℕ) where
    -- `critical` of a position, counted from 1, and an index. The divisor is zero at position
    -- `m + 1`, and the loop does not go on from there.
    unfoldable pub critical_at : ℕ → ℕ → Result SchedError F.Float
    critical_at position index = do
      refuse (ltb m position) division_by_zero
      let adjusted = F.div alpha (F.of_nat (sided * (m - position + 1)))
      df ← demand (get_elem? dfs index) no_element
      t_ppf (F.sub (whole 1) adjusted) df

    -- The loop, which ends at the first hypothesis that is not rejected.
    unfoldable pub reject : ℕ → List Bool → List (ℕ × F.Float) → Result SchedError (List Bool)
    reject position rejected [] = ok rejected
    reject position rejected ((index, score) ∷ more) =
        let rest = reject (suc position) (set_elem index true rejected) more in
        do critical ← critical_at position index; if F.le critical score then rest else ok rejected

  unfoldable pub holm_step_down :
      List F.Float → List ℕ → F.Float → ℕ → Option ℕ → Result SchedError (List Bool)
  holm_step_down scores dfs alpha sided family_size =
      reject dfs alpha sided (family_of family_size (length scores)) 1
        (replicate (length scores) false) (order_of F scores)

-- ===== src/Pilot/Limits.antt =====
-- `plan_limits` of research/cpu-limits/phase8/campaign/bracket.py, over any floats.
pub mod Laws
use k8labs.Base.{ℕ, Bool, true, false, zero, suc, ◌*◌, min, max, Option, none, some, List, [], ◌∷◌}
use k8labs.Base.{leb, ltb, if◌then◌else◌, Floats, Result, ok, raise, ◌>>=◌, ◌>>◌, refuse}

-- The four `raise ValueError` sites, and `int()` of a float that is not finite.
pub data PlanError : Type 0 where
  min_too_small max_below_min growth_too_small no_cells not_finite : PlanError

-- `limits and limit <= limits[-1]`
abbrev pub stalled : Option ℕ → ℕ → Bool
stalled none limit = false
stalled (some last) limit = leb limit last

module _ (R : Floats) (lo hi : ℕ) (growth : R.Float) where
  -- Values are rounded to 10m above 100m and to 1m below it.
  unfoldable pub rounded : R.Float → Option ℕ
  rounded current =
      if R.le (R.of_nat 100) current
      then (elim (R.trunc (R.add (R.div current (R.decimal 100 1)) (R.decimal 5 1))) [
        | none ↦ none
        | some n ↦ some (n * 10)
      ])
      else R.trunc (R.add current (R.decimal 5 1))

  -- The `while` loop. `room` is `max_cells - len(limits)`, and `last` is `limits[-1]`; the result
  -- is what the loop appends.
  unfoldable pub plan_loop : ℕ → R.Float → Option ℕ → Result PlanError (List ℕ)
  plan_loop zero current last = ok []
  plan_loop (suc room) current last = elim (rounded current) [
    | none ↦ raise not_finite
    | some raw ↦
        let limit = min (max raw lo) hi in
        let rest = plan_loop room (R.mul current growth) (some limit) in
        if stalled last limit
        then ok []
        else if leb hi limit
        then ok (limit ∷ [])
        else (rest >>= λ more. ok (limit ∷ more))
  ]

  unfoldable pub plan_limits : ℕ → Result PlanError (List ℕ)
  unfolding plan_loop
  plan_limits max_cells = do
    refuse (ltb lo 1) min_too_small
    refuse (ltb hi lo) max_below_min
    refuse (R.le growth (R.decimal 10 1)) growth_too_small
    refuse (ltb max_cells 1) no_cells
    plan_loop max_cells (R.of_nat lo) none

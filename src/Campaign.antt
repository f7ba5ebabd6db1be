-- ===== src/Campaign.antt =====
-- The planner of a measurement campaign: `plan_campaign` of
-- research/cpu-limits/phase8/campaign/campaign.py. A level is a value of any type with `==`, and a
-- cell is the list of its levels, one for each factor, in the order of the factors.
pub mod Laws
use k8labs.Base.{
  ℕ, zero, suc, ◌+◌, ◌-◌, ◌*◌, ◌/◌, String, Bool, true, false, not, ◌&&◌, ◌||◌, List, [], ◌∷◌, ◌++◌,
  map,
}
use k8labs.Base.{ltb, ◌==◌, Comparable, comparable_nat, comparable_text, if◌then◌else◌, contains}
use k8labs.Base.{repeats, is_empty, length, take, Result, ok, raise, ◌>>=◌, ◌>>◌, refuse}

-- The `raise` sites, in order.
pub data PlanError : Type 0 where
  few_repetitions small_budget bad_estimate bad_factors bad_levels tiny_budget : PlanError
  over_budget : ℕ → PlanError

pub record CampaignConfig : Type 0 where
  pub repetitions : ℕ
  pub seed : ℕ
  pub budget_cap : ℕ
  pub confirmed : Bool
  pub allow_fractional : Bool
  pub seconds_per_trial : ℕ
  pub cpu_millicores_per_trial : ℕ

pub record Preview : Type 0 where
  pub full_trials : ℕ
  pub planned_trials : ℕ
  pub estimated_seconds : ℕ
  pub estimated_cpu_millicore_seconds : ℕ

pub data Design : Type 0 where
  full fractional : Design

pub record Factor {ℓ} (V : Type ℓ) : Type ℓ where
  pub name : String
  pub levels : List V

pub record CampaignPlan {ℓ} (V : Type ℓ) : Type ℓ where
  pub design : Design
  pub full_cells : ℕ
  pub cells : List (List V)
  pub total_trials : ℕ
  pub preview : Preview
  pub seed : ℕ
  pub repetitions : ℕ

module _ {ℓ} {V : Type ℓ} where
  -- `full_cells *= len(factor.levels)` over the factors.
  unfoldable pub full_cells_of : List (Factor V) → ℕ
  full_cells_of [] = 1
  full_cells_of (factor ∷ more) = length factor.levels * full_cells_of more

  abbrev pub with_each : List V → List (List V) → List (List V)
  with_each [] tails = []
  with_each (level ∷ more) tails = map (λ cell. level ∷ cell) tails ++ with_each more tails

  -- `itertools.product` of the levels: the last factor varies fastest.
  unfoldable pub product : List (Factor V) → List (List V)
  product [] = [] ∷ []
  product (factor ∷ more) = with_each factor.levels (product more)

module _ {ℓ} {V : Type ℓ} ⦃c : Comparable V⦄ where
  abbrev pub bad_level_sets : List (Factor V) → Bool
  bad_level_sets [] = false
  bad_level_sets (factor ∷ more) =
      ltb (length factor.levels) 2 || repeats factor.levels || bad_level_sets more

  -- The checks of the arguments.
  unfoldable pub check_arguments : List (Factor V) → CampaignConfig → Result PlanError (Unit {0})
  check_arguments factors config = do
    refuse (ltb config.repetitions 1) few_repetitions
    refuse (ltb config.budget_cap 1) small_budget
    refuse (ltb config.seconds_per_trial 1 || ltb config.cpu_millicores_per_trial 1) bad_estimate
    refuse (is_empty factors || repeats (map (λ f. f.name) factors)) bad_factors
    refuse (bad_level_sets factors) bad_levels

-- `random.Random(seed).shuffle`, as the list that it leaves.
module _ {ℓ} {V : Type ℓ} (shuffle : ℕ → List (List V) → List (List V)) where
  -- `[cells[0], *shuffled(cells[1:])]`
  abbrev pub shuffle_tail : ℕ → List (List V) → List (List V)
  shuffle_tail seed [] = []
  shuffle_tail seed (baseline ∷ rest) = baseline ∷ shuffle seed rest

  -- The first choice of the cells. `max_cells` is the quotient of the budget by the repetitions.
  unfoldable pub choose_cells : Bool → ℕ → ℕ → List (List V) → Result PlanError (List (List V))
  choose_cells false seed max_cells all_cells = ok all_cells
  choose_cells true seed max_cells [] = raise tiny_budget
  choose_cells true seed max_cells (baseline ∷ rest) = do
    refuse (ltb max_cells 2) tiny_budget
    ok (baseline ∷ take (max_cells - 1) (shuffle seed rest))

  unfoldable pub plan_campaign :
      ⦃c : Comparable V⦄ → List (Factor V) → CampaignConfig → Result PlanError (CampaignPlan V)
  plan_campaign factors config = do
    check_arguments factors config
    let full_cells = full_cells_of factors
    let full_trials = full_cells * config.repetitions
    let use_fractional = ltb config.budget_cap full_trials && config.allow_fractional
    cells ←
        choose_cells use_fractional config.seed (config.budget_cap / config.repetitions)
          (product factors)
    let total_trials = length cells * config.repetitions
    refuse (ltb config.budget_cap total_trials && not config.confirmed) (over_budget total_trials)
    ok (record {
      design = if use_fractional then fractional else full;
      full_cells = full_cells;
      cells = if use_fractional then shuffle_tail config.seed cells else shuffle config.seed cells;
      total_trials = total_trials;
      preview = record {
        full_trials = full_trials;
        planned_trials = total_trials;
        estimated_seconds = total_trials * config.seconds_per_trial;
        estimated_cpu_millicore_seconds =
            total_trials * config.seconds_per_trial * config.cpu_millicores_per_trial;
      };
      seed = config.seed;
      repetitions = config.repetitions;
    })

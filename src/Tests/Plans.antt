-- ===== src/Tests/Plans.antt =====
-- A campaign of two factors with two levels each, over a shuffle that keeps the order.
use k8labs.Base.{ℕ, ◌≡◌, ok, true, false, List, [], ◌∷◌, refl, comparable_nat}
use k8labs.Campaign.{
  CampaignConfig, CampaignPlan, Factor, plan_campaign, check_arguments, choose_cells, full_cells_of,
  product, fractional,
}
use mathlib.Core.List.Perm
use k8labs.Campaign.Laws.{Permutes, IsPlan, plan_campaign-IsPlan}

abbrev factors : List (Factor ℕ)
factors =
    record { name = "cpu"; levels = 100 ∷ 200 ∷ [] }
    ∷ record { name = "rate"; levels = 5 ∷ 7 ∷ [] }
    ∷ []

abbrev config : CampaignConfig
config = record {
  repetitions = 2;
  seed = 1;
  budget_cap = 7;
  confirmed = false;
  allow_fractional = true;
  seconds_per_trial = 600;
  cpu_millicores_per_trial = 500;
}

abbrev keep : ℕ → List (List ℕ) → List (List ℕ)
keep seed l = l

abbrev plan : CampaignPlan ℕ
plan = record {
  design = fractional;
  full_cells = 4;
  cells = (100 ∷ 5 ∷ []) ∷ (100 ∷ 7 ∷ []) ∷ (200 ∷ 5 ∷ []) ∷ [];
  total_trials = 6;
  preview = record {
    full_trials = 8;
    planned_trials = 6;
    estimated_seconds = 3600;
    estimated_cpu_millicore_seconds = 1800000;
  };
  seed = 1;
  repetitions = 2;
}

keep-Permutes : Permutes keep
keep-Permutes = record {
  length_kept = λ seed l. refl;
  kept = λ P seed l h. h;
  permutes = λ seed l. Perm.refl l;
}

plans : plan_campaign keep factors config ≡ ok plan
unfolding plan_campaign check_arguments choose_cells full_cells_of product
plans = refl

plan_campaign-IsPlan_example : IsPlan keep keep-Permutes factors config plan
plan_campaign-IsPlan_example = plan_campaign-IsPlan keep keep-Permutes factors config plans

-- ===== src/Tests/Pilot.antt =====
-- The pilot of campaign/pilot.py on small inputs.
use k8labs.Base.{ℕ, ◌≡◌, refl, inl, inr, true, some, List, [], ◌∷◌, arith}
use k8labs.Base.{ok, raise, All}
use k8labs.Pilot.Bracket.{Outcome, StopReason, Trial, Bracket, evaluate_trials}
use k8labs.Pilot.Bracket.{every_trial_invalid}
use k8labs.Pilot.Bracket.Loops.{IsBracket, Increasing, Within}
use k8labs.Pilot.Bracket.Contract.{evaluate_trials-IsBracket, evaluate_trials_total}
use k8labs.Pilot.Bracket.Contract.{evaluate_trials_unsatisfiable}
use k8labs.Pilot.Limits.{plan_limits}
use k8labs.Base.{◌⊎◌}
use k8labs.Pilot.Limits.Laws.{Overflows, IsPlan, plan_limits_total}
use k8labs.Pilot.Slo.{Slo, Observation, verdict, verdict_measured, all_met}
use k8labs.Pilot.Slo.{missing_fields, default_fields}
use k8labs.Pilot.Slo.Laws.{Meets, verdict-Meets, verdict_of_Meets}
use k8labs.Tests.Numbers.{thousandths}

abbrev trial : ℕ → Outcome → Trial
trial limit o = record { limit_millicores = limit; outcome = o; reason = "" }

abbrev trials : List Trial
trials =
    trial 50 Outcome.breaches_slo ∷ trial 100 Outcome.invalid ∷ trial 200 Outcome.meets_slo ∷ []

abbrev bracket : Bracket
bracket = record {
  passing_millicores = 200;
  failing_below_millicores = some 50;
  trials = trials;
  stop = StopReason.meets_slo;
  node_capacity_millicores = 4000;
}

trials_bracket : evaluate_trials trials 4000 ≡ ok bracket
unfolding evaluate_trials
trials_bracket = refl

evaluate_trials-IsBracket_example :
    Increasing trials × Within 4000 trials × IsBracket trials 4000 bracket
evaluate_trials-IsBracket_example = evaluate_trials-IsBracket trials 4000 trials_bracket

evaluate_trials_total_example : (b : Bracket) × (evaluate_trials trials 4000 ≡ ok b)
evaluate_trials_total_example =
    evaluate_trials_total trials 4000 (omega arith) (omega arith) (inr (inr (inl refl)))

abbrev broken_trial : Trial
broken_trial = trial 50 Outcome.invalid

broken_trials : evaluate_trials (broken_trial ∷ []) 4000 ≡ raise every_trial_invalid
broken_trials =
    (evaluate_trials_unsatisfiable broken_trial [] 4000 tt (omega arith, tt) (refl, tt)).0
      (refl, tt)

evaluate_trials_unsatisfiable_example :
    (All (λ t. k8labs.Pilot.Bracket.is_invalid t.outcome ≡ true) (broken_trial ∷ [])
      → evaluate_trials (broken_trial ∷ []) 4000 ≡ raise every_trial_invalid)
    × (¬ All (λ t. k8labs.Pilot.Bracket.is_invalid t.outcome ≡ true) (broken_trial ∷ [])
        → evaluate_trials (broken_trial ∷ []) 4000
          ≡ raise (k8labs.Pilot.Bracket.unsatisfiable 50 4000))
unfolding k8labs.Pilot.Bracket.last_limit
evaluate_trials_unsatisfiable_example =
    evaluate_trials_unsatisfiable broken_trial [] 4000 tt (omega arith, tt) (refl, tt)

-- The defaults of the command: 50m, doubled up to 250m, in at most three cells.
plan_runs : plan_limits thousandths 50 250 2000 3 ≡ ok (50 ∷ 100 ∷ 200 ∷ [])
unfolding plan_limits k8labs.Pilot.Limits.rounded
plan_runs = refl

plan_limits_total_example :
    ((ls : List ℕ) × (plan_limits thousandths 50 250 2000 3 ≡ ok ls) × IsPlan 50 250 3 ls)
    ⊎ Overflows thousandths 50 250 2000 3
        (thousandths.of_nat 50)
        (plan_limits thousandths 50 250 2000 3)
plan_limits_total_example =
    plan_limits_total thousandths 50 250 2000 3 (omega arith) (omega arith) (omega arith) refl

abbrev slo : Slo thousandths
slo = record {
  max_p99_latency_ms = 100000;
  min_throughput_rps = 45000;
  max_error_ratio = 0;
  min_availability_ratio = 990;
}

abbrev observation : Observation thousandths
observation = record {
  p50_latency_ms = some 10000;
  p99_latency_ms = some 80000;
  throughput_rps = some 50000;
  error_ratio = some 0;
  availability_ratio = some 1000;
  cpu_usage_millicores = some 90000;
  throttled_ms_per_second = some 0;
  completed_requests = 500;
  loadgen_valid = true;
  loadgen_invalid_reason = "";
  target_reached = some true;
}

observation_meets :
    verdict thousandths observation slo default_fields 500 ≡ ok (Outcome.meets_slo, all_met)
unfolding verdict verdict_measured missing_fields
observation_meets = refl

verdict-Meets_example : Meets thousandths observation slo
verdict-Meets_example = verdict-Meets thousandths observation slo 500 observation_meets

verdict_of_Meets_example :
    verdict thousandths observation slo default_fields 500 ≡ ok (Outcome.meets_slo, all_met)
verdict_of_Meets_example =
    verdict_of_Meets thousandths observation slo 500 refl verdict-Meets_example

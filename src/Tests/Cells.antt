-- ===== src/Tests/Cells.antt =====
-- Cells of campaign/pilot.py, judged and run on small inputs.
use k8labs.Base.{ℕ, ◌≡◌, refl, ◌≤◌, true, false, none, some, List, [], ◌∷◌, arith, ok, raise, All}
use k8labs.Pilot.Bracket.{Outcome, evaluate_trials}
use k8labs.Pilot.Limits.{plan_limits, rounded}
use k8labs.Pilot.Slo.{Slo, Reason, verdict, verdict_measured, all_met}
use k8labs.Pilot.Slo.{missing_fields}
use k8labs.Pilot.Slo.Laws.{Good}
use k8labs.Pilot.Measure.{CgroupSample, Report, unbound_local, value_or, metrics_of}
use k8labs.Pilot.Measure.{derive_cpu_metrics, observation_from, observed, availability_of}
use k8labs.Pilot.Measure.{judge_cell}
use k8labs.Pilot.Measure.Laws.{InOrder, derived, judge_cell-meets}
use k8labs.Pilot.Measure.Laws.{judge_cell_nothing_completed, judge_cell_generator_invalid}
use k8labs.Pilot.Run.{Args, Cell, Measured, judged, Report as RunReport, prepare, run}
use k8labs.Base.{String, ℕ, All}
use k8labs.Pilot.Run.{conclude, check_request, pilot_loop, Prepared}
use k8labs.Pilot.Run.Reports.{IsReport}
use k8labs.Pilot.Run.Loop.{IsPrepared, run-IsReport, prepare-IsPrepared}
use k8labs.Tests.Numbers.{thousandths}

abbrev sample : ℕ → ℕ → CgroupSample thousandths
sample at usage = record {
  at_seconds = at;
  nr_periods = 100;
  nr_throttled = 10;
  throttled_usec = 5000;
  usage_usec = usage;
}

abbrev first : CgroupSample thousandths
first = sample 1000 40000

abbrev second : CgroupSample thousandths
second = sample 11000 940000

abbrev samples-InOrder : InOrder thousandths first second
samples-InOrder = record {
  time = refl;
  throttled = omega arith;
  usage = omega arith;
  periods = omega arith;
}

abbrev report : Report thousandths
report = record {
  p50 = some 10000;
  p99 = some 80000;
  completed = some 500;
  errors = some 0;
  achieved_rate_rps = some 50000;
  error_ratio = some 0;
  valid = some true;
  invalid_reason = none;
}

abbrev objectives : Slo thousandths
objectives = record {
  max_p99_latency_ms = 100000;
  min_throughput_rps = 45000;
  max_error_ratio = 0;
  min_availability_ratio = 990;
}

report_meets :
    judge_cell thousandths first second 200 report objectives
    ≡ ok (derived thousandths first second 200, Outcome.meets_slo, all_met)
unfolding judge_cell derive_cpu_metrics observation_from availability_of observed metrics_of verdict
    verdict_measured missing_fields
report_meets = refl

judge_cell-meets_example :
    InOrder thousandths first second
    × (report.valid ≡ some true)
    × (1 ≤ value_or report.completed 0)
    × Good thousandths report.p99 (λ x. thousandths.lt 100000 x ≡ false)
    × Good thousandths report.achieved_rate_rps (λ x. thousandths.lt x 45000 ≡ false)
    × Good thousandths report.error_ratio (λ x. thousandths.lt 0 x ≡ false)
judge_cell-meets_example =
    judge_cell-meets thousandths first second 200 report objectives report_meets

judge_cell_nothing_completed_example :
    judge_cell thousandths first second 200 (record report { completed = some 0 }) objectives
    ≡ raise unbound_local
judge_cell_nothing_completed_example =
    judge_cell_nothing_completed thousandths first second 200 (record report { completed = some 0 })
      objectives samples-InOrder refl

abbrev saturated : Report thousandths
saturated = record report {
  errors = some 300;
  valid = some false;
  invalid_reason = some "300 of 500 requests failed; the target is saturated";
}

judge_cell_generator_invalid_example :
    (r : Reason thousandths) × (judge_cell thousandths first second 200 saturated objectives
      ≡ ok (derived thousandths first second 200, Outcome.invalid, r))
judge_cell_generator_invalid_example =
    judge_cell_generator_invalid thousandths first second 200 saturated objectives refl
      samples-InOrder (omega arith) refl

abbrev args : Args thousandths
args = record {
  deadline_seconds = 60000;
  max_cells = 2;
  min_limit_millicores = 50;
  max_limit_millicores = 250;
  growth = 2000;
  cpu_request_millicores = none;
}

abbrev prepared : Prepared
prepared = record { capacity = 1800; limits = 50 ∷ 100 ∷ []; request = 50 }

prepare_runs : prepare thousandths args (("worker-1", 1800) ∷ ("worker-2", 900) ∷ []) ≡ ok prepared
unfolding prepare plan_limits rounded check_request
prepare_runs = refl

abbrev workers : List (String × ℕ)
workers = ("worker-1", 1800) ∷ ("worker-2", 900) ∷ []

prepare-IsPrepared_example :
    (name : String) × (capacity : ℕ) × (more : List (String × ℕ)) × (workers
      ≡ (name, capacity) ∷ more)
    × IsPrepared thousandths args capacity prepared
    × All (λ l. (l ≤ 250) × (l ≤ capacity)) prepared.limits
prepare-IsPrepared_example = prepare-IsPrepared thousandths args workers prepare_runs

-- A service that meets its objectives from 100m up.
abbrev measure : Cell → Measured
measure c =
    k8labs.Base.if◌then◌else◌ (k8labs.Base.ltb c.limit_millicores 100)
      (judged Outcome.breaches_slo "too slow") (judged Outcome.meets_slo "all objectives met")

abbrev on_time : ℕ → k8labs.Base.Bool
on_time index = false

the_run : RunReport
unfolding conclude evaluate_trials
the_run =
    conclude
      (record {
        cell = record { limit_millicores = 50; request_millicores = 50 };
        outcome = Outcome.breaches_slo;
        reason = "too slow";
      }
        ∷ record {
          cell = record { limit_millicores = 100; request_millicores = 50 };
          outcome = Outcome.meets_slo;
          reason = "all objectives met";
        }
        ∷ [])
      1800

run_runs : run on_time measure 1800 50 (50 ∷ 100 ∷ []) ≡ ok the_run
unfolding run pilot_loop the_run
run_runs = refl

run-IsReport_example : IsReport (50 ∷ 100 ∷ []) 1800 the_run
run-IsReport_example =
    run-IsReport on_time measure 1800 50 (50 ∷ 100 ∷ []) (omega arith) (omega arith) run_runs

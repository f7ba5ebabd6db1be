-- ===== src/Pilot/Measure.antt =====
-- From the raw readings of one cell to its verdict: `derive_cpu_metrics`, `observation_from` and the
-- tail of `measure_cell` in research/cpu-limits/phase8/campaign/pilot.py, over any floats.
pub mod Laws
use k8labs.Base.{ℕ, ◌-◌, String, Bool, true, false, Option, none, some, ltb, ◌||◌, if◌then◌else◌}
use k8labs.Base.{Floats, Result, ok, raise, ◌>>=◌, ◌>>◌, refuse}
use k8labs.Pilot.Bracket.{Outcome}
use k8labs.Pilot.Slo.{Slo, Observation, Reason, VerdictError, verdict, default_fields}

-- `unbound_local` is Python's `UnboundLocalError`.
pub data MeasureError : Type 0 where
  not_ordered counters_decreased unbound_local : MeasureError
  judging : VerdictError → MeasureError

pub record CgroupSample (R : Floats) : Type 0 where
  pub at_seconds : R.Float
  pub nr_periods : ℕ
  pub nr_throttled : ℕ
  pub throttled_usec : ℕ
  pub usage_usec : ℕ

pub record CpuMetrics (R : Floats) : Type 0 where
  pub throttle_ratio : R.Float
  pub throttled_ms_per_second : R.Float
  pub cpu_usage_millicores : R.Float
  pub cpu_limit_millicores : R.Float
  pub periods : R.Float
  pub periods_throttled : R.Float
  pub elapsed_seconds : R.Float

-- The keys of the load generator's JSON report that are read, each present or not.
pub record Report (R : Floats) : Type 0 where
  pub p50 : Option R.Float
  pub p99 : Option R.Float
  pub completed : Option ℕ
  pub errors : Option ℕ
  pub achieved_rate_rps : Option R.Float
  pub error_ratio : Option R.Float
  pub valid : Option Bool
  pub invalid_reason : Option String

abbrev pub value_or {ℓ} : {A : Type ℓ} → Option A → A → A
value_or none d = d
value_or (some a) d = a

module _ (R : Floats) where
  -- Python's `min(1.0, x)`: the first of the two unless the second is smaller.
  abbrev pub min_float : R.Float → R.Float → R.Float
  min_float a b = if R.lt b a then b else a

  -- `float(a - b)` of two counters, where `b` may be the larger.
  abbrev pub difference : ℕ → ℕ → R.Float
  difference a b = if ltb a b then R.sub (R.of_nat 0) (R.of_nat (b - a)) else R.of_nat (a - b)

  -- The result of `derive_cpu_metrics` once its checks have passed.
  unfoldable pub metrics_of : CgroupSample R → CgroupSample R → ℕ → R.Float → CpuMetrics R
  metrics_of before after limit elapsed = record {
    throttle_ratio = min_float (R.decimal 10 1) (
        R.div (R.of_nat (after.throttled_usec - before.throttled_usec))
          (R.mul elapsed (R.of_nat 1000000)));
    throttled_ms_per_second =
        R.div (R.div (R.of_nat (after.throttled_usec - before.throttled_usec)) elapsed)
          (R.decimal 10000 1);
    cpu_usage_millicores =
        R.div (R.div (R.of_nat (after.usage_usec - before.usage_usec)) elapsed) (R.decimal 10000 1);
    cpu_limit_millicores = R.of_nat limit;
    periods = R.of_nat (after.nr_periods - before.nr_periods);
    periods_throttled = difference after.nr_throttled before.nr_throttled;
    elapsed_seconds = elapsed;
  }

  unfoldable pub derive_cpu_metrics :
      CgroupSample R → CgroupSample R → ℕ → Result MeasureError (CpuMetrics R)
  derive_cpu_metrics before after limit = do
    let elapsed = R.sub after.at_seconds before.at_seconds
    refuse (R.le elapsed (R.of_nat 0)) not_ordered
    refuse
        (ltb after.throttled_usec before.throttled_usec
          || (ltb after.usage_usec before.usage_usec || ltb after.nr_periods before.nr_periods))
        counters_decreased
    ok (metrics_of before after limit elapsed)

  -- `availability` is assigned only under `if completed > 0`, and is read on every path.
  unfoldable pub availability_of : ℕ → ℕ → Result MeasureError R.Float
  availability_of completed errors =
      if ltb 0 completed
      then ok (R.sub (R.decimal 10 1) (R.quotient errors completed))
      else raise unbound_local

  -- The `Observation(...)` that `observation_from` builds. The parameter `target_reached` is not
  -- passed on to it, so the field keeps its default.
  unfoldable pub observed : Report R → CpuMetrics R → R.Float → Observation R
  observed loadgen cpu availability = record {
    p50_latency_ms = loadgen.p50;
    p99_latency_ms = loadgen.p99;
    throughput_rps = loadgen.achieved_rate_rps;
    error_ratio = loadgen.error_ratio;
    availability_ratio = some availability;
    cpu_usage_millicores = some cpu.cpu_usage_millicores;
    throttled_ms_per_second = some cpu.throttled_ms_per_second;
    completed_requests = value_or loadgen.completed 0;
    loadgen_valid = value_or loadgen.valid false;
    loadgen_invalid_reason = value_or loadgen.invalid_reason "";
    target_reached = none;
  }

  unfoldable pub observation_from :
      Report R → CpuMetrics R → Option Bool → Result MeasureError (Observation R)
  observation_from loadgen cpu target_reached = do
    let completed = value_or loadgen.completed 0
    let errors = value_or loadgen.errors 0
    availability ← availability_of completed errors
    ok (observed loadgen cpu availability)

  abbrev pub judged {ℓ} : {A : Type ℓ} → Result VerdictError A → Result MeasureError A
  judged (ok a) = ok a
  judged (raise e) = raise (judging e)

  -- The tail of `measure_cell`, from the two samples and the report.
  unfoldable pub judge_cell :
      CgroupSample R
      → CgroupSample R
      → ℕ
      → Report R
      → Slo R
      → Result MeasureError (CpuMetrics R × Outcome × Reason R)
  judge_cell before after limit report slo = do
    cpu ← derive_cpu_metrics before after limit
    observation ← observation_from report cpu (some true)
    (outcome, reason) ← judged (verdict R observation slo default_fields (R.decimal 5 1))
    ok (cpu, outcome, reason)

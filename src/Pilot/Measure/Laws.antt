-- ===== src/Pilot/Measure/Laws.antt =====
-- What a measured cell of campaign/pilot.py is judged to be.
use k8labs.Base.{ℕ, ◌≤◌, ◌≡◌, refl, ◌↔◌, inl, inr, Bool, true, false, ◌&&◌}
use k8labs.Base.{Option, some, arith, ltb, Bool-cases}
use k8labs.Base.{Floats, Result, ok, raise, >>=-eq-ok, ap, ◌∙◌}
use k8labs.Pilot.Bracket.{Outcome}
use k8labs.Pilot.Slo.{Slo, Observation, Reason, default_fields, generator_reason}
use k8labs.Pilot.Slo.{generator_invalid}
use k8labs.Pilot.Slo.{verdict, VerdictError}
use k8labs.Pilot.Slo.Laws.{Good, Meets, verdict-Meets, verdict_unreached}
use k8labs.Pilot.Measure.{CgroupSample, CpuMetrics, Report, unbound_local, value_or}
use k8labs.Pilot.Measure.{metrics_of, derive_cpu_metrics, observation_from, judge_cell}
use k8labs.Pilot.Measure.{availability_of, observed, judged}

module _ (R : Floats) where
  -- The two samples of one container, in order: time passed, and no counter decreased.
  pub record InOrder (before after : CgroupSample R) : Type 0 where
    pub time : R.le (R.sub after.at_seconds before.at_seconds) (R.of_nat 0) ≡ false
    pub throttled : before.throttled_usec ≤ after.throttled_usec
    pub usage : before.usage_usec ≤ after.usage_usec
    pub periods : before.nr_periods ≤ after.nr_periods

  abbrev pub derived : CgroupSample R → CgroupSample R → ℕ → CpuMetrics R
  derived before after limit =
      metrics_of R before after limit (R.sub after.at_seconds before.at_seconds)

  -- Rates are derived from two samples in order, and from no others.
  pub derive_cpu_metrics-InOrder :
      (before after : CgroupSample R) (limit : ℕ)
      → InOrder before after
        ↔ (derive_cpu_metrics R before after limit ≡ ok (derived before after limit))
  unfolding derive_cpu_metrics
  derive_cpu_metrics-InOrder before after limit = (λ s. ground arith, λ h. ground arith)

  derive-eq-ok :
      (before after : CgroupSample R) (limit : ℕ) {m : CpuMetrics R}
      → derive_cpu_metrics R before after limit ≡ ok m
      → (m ≡ derived before after limit) × InOrder before after
  unfolding derive_cpu_metrics
  derive-eq-ok before after limit h = ground arith

  observation_from-eq-ok :
      (report : Report R) (cpu : CpuMetrics R) (t : Option Bool) {o : Observation R}
      → observation_from R report cpu t ≡ ok o
      → (1 ≤ value_or report.completed 0) × (avail : R.Float) × (o ≡ observed R report cpu avail)
  unfolding observation_from availability_of
  observation_from-eq-ok report cpu t {o} h =
      elim (Bool-cases (ltb 0 (value_or report.completed 0))) [
        | inl done ↦ (
          ground arith,
          R.sub (R.decimal 10 1)
              (R.quotient (value_or report.errors 0) (value_or report.completed 0)),
          ground arith,
        )
        | inr nothing ↦ absurd (ground arith)
      ]

  judged-eq-ok : {A : Type 0} (v : Result VerdictError A) {a : A} → judged R v ≡ ok a → v ≡ ok a
  judged-eq-ok (ok b) h = cc
  judged-eq-ok (raise e) h = absurd (cc)

  judge_cell-eq-ok :
      (before after : CgroupSample R) (limit : ℕ) (report : Report R) (slo : Slo R)
      {m : CpuMetrics R} {out : Outcome} {r : Reason R}
      → judge_cell R before after limit report slo ≡ ok (m, out, r)
      → InOrder before after
        × (1 ≤ value_or report.completed 0)
        × (o : Observation R) × (avail : R.Float) × (o ≡ observed R report m avail)
        × (verdict R o slo default_fields (R.decimal 5 1) ≡ ok (out, r))
  unfolding judge_cell
  judge_cell-eq-ok before after limit report slo {m} {out} {r} h =
      let (cpu, derives, h1) = >>=-eq-ok (derive_cpu_metrics R before after limit) _ h in
      let (o, observes, h2) = >>=-eq-ok (observation_from R report cpu (some true)) _ h1 in
      let (v, decided, h3) =
        >>=-eq-ok (judged R (verdict R o slo default_fields (R.decimal 5 1))) _ h2 in
      let (done, avail, same) = observation_from-eq-ok report cpu (some true) observes in
      let e : cpu ≡ m = ground arith in
      let e' : v ≡ (out, r) = ground arith in
      (
        (derive-eq-ok before after limit derives).1,
        done,
        o,
        avail,
        rw (← e) same,
        judged-eq-ok _ decided ∙ ap ok e',
      )

  -- A cell that is judged to meet its objectives was measured by two samples in order, over a run
  -- that the generator calls valid and that completed a request, with a finite 99th percentile
  -- within the objective.
  pub judge_cell-meets :
      (before after : CgroupSample R) (limit : ℕ) (report : Report R) (slo : Slo R)
      {m : CpuMetrics R} {r : Reason R}
      → judge_cell R before after limit report slo ≡ ok (m, Outcome.meets_slo, r)
      → InOrder before after
        × (report.valid ≡ some true)
        × (1 ≤ value_or report.completed 0)
        × Good R report.p99 (λ x. R.lt slo.max_p99_latency_ms x ≡ false)
        × Good R report.achieved_rate_rps (λ x. R.lt x slo.min_throughput_rps ≡ false)
        × Good R report.error_ratio (λ x. R.lt slo.max_error_ratio x ≡ false)
  unfolding observed
  judge_cell-meets before after limit report slo {m} {r} h =
      let (s, done, o, avail, same, decided) = judge_cell-eq-ok before after limit report slo h in
      let good = verdict-Meets R o slo (R.decimal 5 1) decided in
      let here : Meets R (observed R report m avail) slo = rw same at good in
      (s, ground arith, done, here.latency, here.throughput, here.errors)

  -- A run that completed no request makes the judgement fail with an unbound local variable: the
  -- branch of the verdict for such runs is never reached.
  pub judge_cell_nothing_completed :
      (before after : CgroupSample R) (limit : ℕ) (report : Report R) (slo : Slo R)
      → InOrder before after
      → value_or report.completed 0 ≡ 0
      → judge_cell R before after limit report slo ≡ raise unbound_local
  unfolding judge_cell observation_from availability_of
  judge_cell_nothing_completed before after limit report slo s h =
      ground (arith, (derive_cpu_metrics-InOrder before after limit).0 s)

  -- Whatever share of its requests failed, a run that its generator calls invalid is recorded as
  -- invalid and never as a breach, although its target was reached.
  pub judge_cell_generator_invalid :
      (before after : CgroupSample R) (limit : ℕ) (report : Report R) (slo : Slo R)
      → (R.le (R.of_nat 0) (R.decimal 5 1) && R.le (R.decimal 5 1) (R.of_nat 1)) ≡ true
      → InOrder before after
      → 1 ≤ value_or report.completed 0
      → value_or report.valid false ≡ false
      → (r : Reason R) × (judge_cell R before after limit report slo
          ≡ ok (derived before after limit, Outcome.invalid, r))
  unfolding judge_cell observation_from availability_of observed
  judge_cell_generator_invalid before after limit report slo half s done broken =
      let avail =
        R.sub (R.decimal 10 1)
          (R.quotient (value_or report.errors 0) (value_or report.completed 0)) in
      let o = observed R report (derived before after limit) avail in
      (
        generator_invalid (generator_reason R o),
        ground (
          arith,
          (derive_cpu_metrics-InOrder before after limit).0 s,
          verdict_unreached R o slo (R.decimal 5 1) default_fields half broken refl,
        ),
      )

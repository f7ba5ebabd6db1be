-- ===== src/Pilot/Slo/Laws.antt =====
-- What the verdict of campaign/slo.py means.
use k8labs.Base.{◌≤◌, ◌≡◌, refl, ◌≢◌, ◌↔◌, inl, inr, true, false, ◌&&◌, Option}
use k8labs.Base.{none, some, [], ◌∷◌, arith, Bool-cases, List}
use k8labs.Base.{Floats, ok}
use k8labs.Pilot.Bracket.{Outcome}
use k8labs.Pilot.Slo.{Slo, Observation, Field, Reason, default_fields, is_none}
use k8labs.Pilot.Slo.{field_of, missing_fields, reached}
use k8labs.Pilot.Slo.{service_breach_share, verdict_generator, breaches_of, verdict_measured}
use k8labs.Pilot.Slo.{verdict, all_met, generator_reason, generator_invalid}

module _ (R : Floats) where
  -- A measurement that is present, finite, and on the right side of its objective.
  pub record Good (value : Option R.Float) (Bound : R.Float → Type 0) : Type 0 where
    pub measured : R.Float
    pub present : value ≡ some measured
    pub finite : R.is_finite measured ≡ true
    pub within : Bound measured

  -- What it takes to meet the objectives: every required value was measured by a run that its
  -- generator calls valid, and the four judged ones are finite and within their objectives.
  pub record Meets (o : Observation R) (slo : Slo R) : Type 0 where
    pub valid : o.loadgen_valid ≡ true
    pub completed : 1 ≤ o.completed_requests
    pub latency : Good o.p99_latency_ms (λ x. R.lt slo.max_p99_latency_ms x ≡ false)
    pub throughput : Good o.throughput_rps (λ x. R.lt x slo.min_throughput_rps ≡ false)
    pub errors : Good o.error_ratio (λ x. R.lt slo.max_error_ratio x ≡ false)
    pub availability : Good o.availability_ratio (λ x. R.lt x slo.min_availability_ratio ≡ false)
    pub median : is_none o.p50_latency_ms ≡ false
    pub usage : is_none o.cpu_usage_millicores ≡ false
    pub throttling : is_none o.throttled_ms_per_second ≡ false

  record Measured (slo : Slo R) (p99 rps err avail : R.Float) : Type 0 where
    finite :
        (R.is_finite p99 ≡ true)
        × (R.is_finite rps ≡ true)
        × (R.is_finite err ≡ true)
        × (R.is_finite avail ≡ true)
    within :
        (R.lt slo.max_p99_latency_ms p99 ≡ false)
        × (R.lt rps slo.min_throughput_rps ≡ false)
        × (R.lt slo.max_error_ratio err ≡ false)
        × (R.lt avail slo.min_availability_ratio ≡ false)

  breaches_of-eq-nil :
      (slo : Slo R) (p99 rps err avail : R.Float)
      → (breaches_of R slo p99 rps err avail ≡ []) ↔ (
          (R.lt slo.max_p99_latency_ms p99 ≡ false)
          × (R.lt rps slo.min_throughput_rps ≡ false)
          × (R.lt slo.max_error_ratio err ≡ false)
          × (R.lt avail slo.min_availability_ratio ≡ false))
  unfolding breaches_of
  breaches_of-eq-nil slo p99 rps err avail = ground arith

  verdict_measured-meets :
      (slo : Slo R) (p99 rps err avail : R.Float) {r : Reason R}
      → verdict_measured R slo p99 rps err avail ≡ (Outcome.meets_slo, r)
      → Measured slo p99 rps err avail
  unfolding verdict_measured
  verdict_measured-meets slo p99 rps err avail h =
      ground (arith, breaches_of-eq-nil slo p99 rps err avail)

  verdict_measured_of :
      (slo : Slo R) (p99 rps err avail : R.Float)
      → Measured slo p99 rps err avail
      → verdict_measured R slo p99 rps err avail ≡ (Outcome.meets_slo, all_met)
  unfolding verdict_measured
  verdict_measured_of slo p99 rps err avail m =
      ground (arith, breaches_of-eq-nil slo p99 rps err avail)

  missing_fields-eq-nil :
      (o : Observation R) (f : Field) (fs : List Field)
      → (missing_fields R o (f ∷ fs) ≡ [])
        ↔ ((is_none (field_of R o f) ≡ false) × (missing_fields R o fs ≡ []))
  unfolding missing_fields
  missing_fields-eq-nil o f fs = ground arith

  missing_default :
      (o : Observation R)
      → (missing_fields R o default_fields ≡ []) ↔ (
          (is_none o.p50_latency_ms ≡ false)
          × (is_none o.p99_latency_ms ≡ false)
          × (is_none o.throughput_rps ≡ false)
          × (is_none o.error_ratio ≡ false)
          × (is_none o.availability_ratio ≡ false)
          × (is_none o.cpu_usage_millicores ≡ false)
          × (is_none o.throttled_ms_per_second ≡ false))
  unfolding missing_fields
  missing_default o = ground arith

  is_none-eq-false : (o : Option R.Float) → is_none o ≡ false → (x : R.Float) × (o ≡ some x)
  is_none-eq-false none h = absurd (cc)
  is_none-eq-false (some x) h = (x, refl)

  generator_misses :
      (o : Observation R) (limit : R.Float) {r : Reason R}
      → verdict_generator R o limit ≢ ok (Outcome.meets_slo, r)
  unfolding verdict_generator
  generator_misses o limit h = ground arith

  -- A cell meets the objectives only if every required value was measured, by a run that its
  -- generator calls valid and that completed a request, and all four objectives hold.
  pub verdict-Meets :
      (o : Observation R) (slo : Slo R) (limit : R.Float) {r : Reason R}
      → verdict R o slo default_fields limit ≡ ok (Outcome.meets_slo, r)
      → Meets o slo
  unfolding verdict
  verdict-Meets o slo limit {r} h = elim (Bool-cases o.loadgen_valid) [
    | inr broken ↦ absurd (generator_misses o limit {r = r} (ground arith))
    | inl valid ↦
        let complete : missing_fields R o default_fields ≡ [] = ground arith in
        let (p50, p99, rps, err, avail, cpu, thr) = (missing_default o).0 complete in
        let (x1, e1) = is_none-eq-false o.p99_latency_ms p99 in
        let (x2, e2) = is_none-eq-false o.throughput_rps rps in
        let (x3, e3) = is_none-eq-false o.error_ratio err in
        let (x4, e4) = is_none-eq-false o.availability_ratio avail in
        let measured : verdict_measured R slo x1 x2 x3 x4 ≡ (Outcome.meets_slo, r) = ground arith in
        let m = verdict_measured-meets slo x1 x2 x3 x4 measured in
        record {
          valid = valid;
          completed = ground arith;
          latency = record {
            measured = x1;
            present = e1;
            finite = m.finite.0;
            within = m.within.0;
          };
          throughput = record {
            measured = x2;
            present = e2;
            finite = m.finite.1;
            within = m.within.1;
          };
          errors = record { measured = x3; present = e3; finite = m.finite.2; within = m.within.2 };
          availability = record {
            measured = x4;
            present = e4;
            finite = m.finite.3;
            within = m.within.3;
          };
          median = p50;
          usage = cpu;
          throttling = thr;
        }
  ]

  -- And for a share limit from 0 to 1, the verdict is that all objectives are met where the generator
  -- calls the run valid, a request completed, all seven required values were measured, and the four
  -- judged ones are finite and within their objectives.
  pub verdict_of_Meets :
      (o : Observation R) (slo : Slo R) (limit : R.Float)
      → (R.le (R.of_nat 0) limit && R.le limit (R.of_nat 1)) ≡ true
      → Meets o slo
      → verdict R o slo default_fields limit ≡ ok (Outcome.meets_slo, all_met)
  unfolding verdict
  verdict_of_Meets o slo limit share m =
      let complete : missing_fields R o default_fields ≡ [] = (missing_default o).1 (
        m.median,
        rw m.latency.present refl,
        rw m.throughput.present refl,
        rw m.errors.present refl,
        rw m.availability.present refl,
        m.usage,
        m.throttling,
      ) in
      let judged =
        verdict_measured_of slo m.latency.measured m.throughput.measured m.errors.measured
          m.availability.measured
          (record {
            finite =
                (m.latency.finite, m.throughput.finite, m.errors.finite, m.availability.finite);
            within =
                (m.latency.within, m.throughput.within, m.errors.within, m.availability.within);
          }) in
      ground (
        arith, complete, judged, m.latency.present, m.throughput.present, m.errors.present,
        m.availability.present,
      )

  -- Where the target is not known to have been reached, such a run is invalid and never a breach.
  pub verdict_unreached :
      (o : Observation R) (slo : Slo R) (limit : R.Float) (required : List Field)
      → (R.le (R.of_nat 0) limit && R.le limit (R.of_nat 1)) ≡ true
      → o.loadgen_valid ≡ false
      → reached R o.target_reached ≡ false
      → verdict R o slo required limit
        ≡ ok (Outcome.invalid, generator_invalid (generator_reason R o))
  unfolding verdict verdict_generator service_breach_share
  verdict_unreached o slo limit required share broken unknown = ground arith

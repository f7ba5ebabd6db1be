-- ===== src/Pilot/Slo.antt =====
-- The verdict on one cell: research/cpu-limits/phase8/campaign/slo.py, over any floats.
-- A reason is a constructor with the values that the message shows.
pub mod Laws
use k8labs.Base.{
  ℕ, String, Bool, true, false, not, ◌&&◌, ◌||◌, Option, none, some, List, [], ◌∷◌, ◌++◌,
}
use k8labs.Base.{
  ltb, ◌==◌, comparable_nat, comparable_text, if◌then◌else◌, codes, digits, strip_prefix,
}
use k8labs.Base.{Floats, Result, ok, raise, ◌>>=◌, ◌>>◌, refuse}
use k8labs.Pilot.Bracket.{Outcome}

pub data SloError : Type 0 where
  latency_not_positive throughput_negative error_ratio_range availability_range : SloError

pub record Slo (R : Floats) : Type 0 where
  pub max_p99_latency_ms : R.Float
  pub min_throughput_rps : R.Float
  pub max_error_ratio : R.Float
  pub min_availability_ratio : R.Float

pub record Observation (R : Floats) : Type 0 where
  pub p50_latency_ms : Option R.Float
  pub p99_latency_ms : Option R.Float
  pub throughput_rps : Option R.Float
  pub error_ratio : Option R.Float
  pub availability_ratio : Option R.Float
  pub cpu_usage_millicores : Option R.Float
  pub throttled_ms_per_second : Option R.Float
  pub completed_requests : ℕ
  pub loadgen_valid : Bool
  pub loadgen_invalid_reason : String
  pub target_reached : Option Bool

-- The attributes that `required_fields` can name.
pub data Field : Type 0 where
  p50_latency_ms p99_latency_ms throughput_rps error_ratio availability_ratio : Field
  cpu_usage_millicores throttled_ms_per_second : Field

-- The exceptions of `verdict`: its `ValueError`, the division in `failed_request_share`, and the
-- four `assert` statements.
pub data VerdictError : Type 0 where
  bad_error_share zero_division assertion : VerdictError

pub data Breach (R : Floats) : Type 0 where
  latency throughput errors availability : R.Float → R.Float → Breach R

pub data Reason (R : Floats) : Type 0 where
  generator_invalid : String → Reason R
  service_failed : R.Float → R.Float → String → Reason R
  nothing_completed : Reason R
  missing : List Field → Reason R
  not_finite : Field → R.Float → Reason R
  breaches : List (Breach R) → Reason R
  all_met : Reason R

abbrev pub is_none {ℓ} : {A : Type ℓ} → Option A → Bool
is_none none = true
is_none (some a) = false

-- `required_fields` as `verdict` defaults it.
abbrev pub default_fields : List Field
default_fields =
    Field.p50_latency_ms ∷ Field.p99_latency_ms ∷ Field.throughput_rps ∷ Field.error_ratio
    ∷ Field.availability_ratio ∷ Field.cpu_usage_millicores ∷ Field.throttled_ms_per_second ∷ []

-- The two numbers of `FAILED_REQUESTS_PATTERN`, `^(\d+) of (\d+) requests failed`.
unfoldable pub failed_requests : String → Option (ℕ × ℕ)
failed_requests reason = elim (digits (codes reason)) [
  | none ↦ none
  | some (failed, s) ↦ elim (strip_prefix (codes " of ") s) [
    | none ↦ none
    | some s' ↦ elim (digits s') [
      | none ↦ none
      | some (total, s'') ↦ elim (strip_prefix (codes " requests failed") s'') [
        | none ↦ none
        | some _ ↦ some (failed, total)
      ]
    ]
  ]
]

module _ (R : Floats) where
  -- `Slo.__post_init__`
  unfoldable pub check_slo : Slo R → Result SloError (Slo R)
  check_slo s = do
    refuse (R.le s.max_p99_latency_ms (R.of_nat 0)) latency_not_positive
    refuse (R.lt s.min_throughput_rps (R.of_nat 0)) throughput_negative
    refuse (not (R.le (R.of_nat 0) s.max_error_ratio && R.le s.max_error_ratio (R.of_nat 1)))
        error_ratio_range
    refuse
        (not (
          R.le (R.of_nat 0) s.min_availability_ratio && R.le s.min_availability_ratio (R.of_nat 1)))
        availability_range
    ok s

  -- `getattr(self, name)`
  abbrev pub field_of : Observation R → Field → Option R.Float
  field_of o Field.p50_latency_ms = o.p50_latency_ms
  field_of o Field.p99_latency_ms = o.p99_latency_ms
  field_of o Field.throughput_rps = o.throughput_rps
  field_of o Field.error_ratio = o.error_ratio
  field_of o Field.availability_ratio = o.availability_ratio
  field_of o Field.cpu_usage_millicores = o.cpu_usage_millicores
  field_of o Field.throttled_ms_per_second = o.throttled_ms_per_second

  unfoldable pub missing_fields : Observation R → List Field → List Field
  missing_fields o [] = []
  missing_fields o (name ∷ required) =
      let rest = missing_fields o required in
      if is_none (field_of o name) then name ∷ rest else rest

  unfoldable pub failed_request_share : String → Result VerdictError (Option R.Float)
  failed_request_share reason = elim (failed_requests reason) [
    | none ↦ ok none
    | some (failed, total) ↦
        if total == 0 then raise zero_division else ok (some (R.quotient failed total))
  ]

  abbrev pub reached : Option Bool → Bool
  reached none = false
  reached (some b) = b

  unfoldable pub service_breach_share : Observation R → Result VerdictError (Option R.Float)
  unfolding failed_request_share
  service_breach_share o =
      if o.loadgen_valid || not (reached o.target_reached)
      then ok none
      else failed_request_share o.loadgen_invalid_reason

  -- `observation.loadgen_invalid_reason or "load generator reported the run invalid"`
  unfoldable pub generator_reason : Observation R → String
  generator_reason o =
      if o.loadgen_invalid_reason == ""
      then "load generator reported the run invalid"
      else o.loadgen_invalid_reason

  -- The branch of `verdict` for a run that its generator declared invalid.
  unfoldable pub verdict_generator :
      Observation R → R.Float → Result VerdictError (Outcome × Reason R)
  verdict_generator o limit =
      let reason = generator_reason o in
      if ltb o.completed_requests 1
      then ok (Outcome.invalid, generator_invalid reason)
      else (service_breach_share o >>= λ share. elim share [
        | none ↦ ok (Outcome.invalid, generator_invalid reason)
        | some s ↦
            if R.le limit s
            then ok (Outcome.breaches_slo, service_failed s limit reason)
            else ok (Outcome.invalid, generator_invalid reason)
      ])

  abbrev pub breach_if : Bool → Breach R → List (Breach R)
  breach_if true b = b ∷ []
  breach_if false b = []

  unfoldable pub breaches_of : Slo R → R.Float → R.Float → R.Float → R.Float → List (Breach R)
  breaches_of slo p99 rps err avail =
      breach_if (R.lt slo.max_p99_latency_ms p99) (latency p99 slo.max_p99_latency_ms)
      ++ (breach_if (R.lt rps slo.min_throughput_rps) (throughput rps slo.min_throughput_rps)
          ++ (breach_if (R.lt slo.max_error_ratio err) (errors err slo.max_error_ratio)
              ++ breach_if (R.lt avail slo.min_availability_ratio)
                  (availability avail slo.min_availability_ratio)))

  -- The verdict on four measurements that are present.
  unfoldable pub verdict_measured :
      Slo R → R.Float → R.Float → R.Float → R.Float → Outcome × Reason R
  unfolding breaches_of
  verdict_measured slo p99 rps err avail =
      if not (R.is_finite p99)
      then (Outcome.invalid, not_finite Field.p99_latency_ms p99)
      else if not (R.is_finite rps)
      then (Outcome.invalid, not_finite Field.throughput_rps rps)
      else if not (R.is_finite err)
      then (Outcome.invalid, not_finite Field.error_ratio err)
      else if not (R.is_finite avail)
      then (Outcome.invalid, not_finite Field.availability_ratio avail)
      else (elim (breaches_of slo p99 rps err avail) [
        | [] ↦ (Outcome.meets_slo, all_met)
        | b ∷ more ↦ (Outcome.breaches_slo, breaches (b ∷ more))
      ])

  abbrev pub asserted : Option R.Float → Result VerdictError R.Float
  asserted none = raise assertion
  asserted (some x) = ok x

  unfoldable pub verdict :
      Observation R → Slo R → List Field → R.Float → Result VerdictError (Outcome × Reason R)
  verdict o slo required limit = do
    refuse (not (R.le (R.of_nat 0) limit && R.le limit (R.of_nat 1))) bad_error_share
    if not o.loadgen_valid
        then verdict_generator o limit
        else if ltb o.completed_requests 1
        then ok (Outcome.invalid, nothing_completed)
        else (elim (missing_fields o required) [
          | n ∷ names ↦ ok (Outcome.invalid, missing (n ∷ names))
          | [] ↦ do
            p99 ← asserted o.p99_latency_ms
            rps ← asserted o.throughput_rps
            err ← asserted o.error_ratio
            avail ← asserted o.availability_ratio
            ok (verdict_measured slo p99 rps err avail)
        ])

-- ===== src/Tests/Bundles.antt =====
-- A model bundle that passes every check, under a hash that is constant.
use k8labs.Base.{ℕ, String, true, refl, Value, Items, Fields, pos, ok, ◌≡◌, get}
use k8labs.Tests.Numbers.{thousandths}
use k8labs.Bundle.{check_present, check_named, finite_number}
use k8labs.Bundle.Sections.{check_provenance, check_containers, check_workload, check_signals}
use k8labs.Bundle.Sections.{check_telemetry, all_named, check_levels}
use k8labs.Bundle.Rows.{check_conditions, check_positive, check_finite, check_ratios, check_row}
use k8labs.Bundle.Rows.{check_rows}
use k8labs.Bundle.Validate.{check_ranges, check_factors, check_objectives, check_policy}
use k8labs.Bundle.Validate.{check_identity, validate_bundle}
use k8labs.Bundle.Validate.Laws.{IsBundle, validate_bundle-IsBundle}

abbrev V : Type 0
V = Value (thousandths.Float)

abbrev D : Type 0
D = Fields (thousandths.Float)

infixr 5 ◌&◌
abbrev ◌&◌ : String × V → D → D
kv & d = Fields.entry kv.0 kv.1 d

abbrev nothing : D
nothing = Fields.empty

abbrev t : String → V
t s = Value.text s

abbrev n : ℕ → V
n k = Value.int (pos k)

abbrev real : ℕ → ℕ → V
real k d = Value.float (thousandths.decimal k d)

abbrev object : D → V
object d = Value.mapping d

abbrev one : V → V
one v = Value.sequence (Items.item v Items.last)

abbrev between : ℕ → ℕ → V
between low high = object (("min", n low) & ("max", n high) & nothing)

abbrev row : V
row = object (
    (
      "conditions",
      object (
          ("mix", t "read")
          & ("postgres_capacity", t "small")
          & ("redis_capacity", t "small")
          & ("node_capacity_millicores", n 4000)
          & nothing),
    )
    & ("cpu_limit_millicores", n 200)
    & ("cpu_request_millicores", n 100)
    & ("replicas", n 1)
    & ("request_rate_per_second", n 20)
    & ("p99_latency_ms", n 30)
    & ("p99_upper_ms", n 40)
    & ("throughput_rps", n 19)
    & ("error_ratio", n 0)
    & ("availability_ratio", real 999 3)
    & ("samples", n 3)
    & ("valid", Value.boolean true)
    & nothing)

abbrev bundle : D
bundle =
    ("schema_version", t "cpu-limit-model/v1")
    & ("model_id", t "m")
    & ("model_hash", t "sha256:0")
    & ("created_at", t "now")
    & (
      "provenance",
      object (
          ("generator", t "g")
          & ("campaign_id", t "c")
          & ("protocol_version", t "p")
          & ("trials_total", n 4)
          & ("trials_usable", n 3)
          & nothing),
    )
    & (
      "workload",
      object (
          ("profile", t "db")
          & ("contract_version", t "db-cache-mixed/v1")
          & ("containers", one (object (("name", t "app") & ("role", t "app") & nothing)))
          & nothing),
    )
    & (
      "telemetry",
      object (
          ("contract_version", t "cpu-limit-telemetry/v1")
          & ("required_signals", one (t "request.latency"))
          & nothing),
    )
    & (
      "factors",
      object (
          ("cpu_limit_millicores", between 100 400)
          & ("replicas", between 1 2)
          & ("request_rate_per_second", between 10 20)
          & ("cpu_request_millicores", between 100 200)
          & ("node_capacity_millicores", between 4000 4000)
          & ("mix", one (t "read"))
          & ("contention", one (t "none"))
          & nothing),
    )
    & (
      "slo",
      object (
          ("max_p99_latency_ms", n 50)
          & ("min_throughput_rps", n 10)
          & ("max_error_ratio", n 0)
          & ("min_availability_ratio", n 1)
          & nothing),
    )
    & (
      "policy_defaults",
      object (
          ("confidence_level", real 9 1)
          & ("latency_margin_ratio", n 0)
          & ("headroom_ratio", n 0)
          & ("min_replicas", n 1)
          & ("max_replicas", n 2)
          & nothing),
    )
    & ("response", one row)
    & ("exclusions", Value.sequence Items.last)
    & nothing

abbrev constant : D → String
constant d = "sha256:0"

valid : validate_bundle thousandths constant bundle ≡ ok tt
unfolding validate_bundle check_identity check_provenance check_workload check_containers
    check_telemetry check_signals check_factors check_ranges check_levels all_named check_objectives
    check_policy check_rows check_row check_conditions check_positive check_finite check_ratios
    check_present check_named finite_number get
valid = refl

validate_bundle-IsBundle_example : IsBundle thousandths constant bundle
validate_bundle-IsBundle_example = validate_bundle-IsBundle thousandths constant bundle valid

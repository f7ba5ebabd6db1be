-- ===== src/Tests/Prunings.antt =====
-- A data root with one scenario of two blocks, the newer of which is kept.
use k8labs.Base.{List, [], ◌∷◌, String, ◌≡◌, some, ok}
use k8labs.Pruning.{Block, Scenario, Child, Plan, plan_pruning}
use k8labs.Pruning.Laws.{IsPruning, plan_pruning-IsPruning}

abbrev block : String → Block
block name = record {
  name = name;
  path = name;
  files =
      record { name = "perf.data.0"; path = name; size = 100 }
      ∷ record { name = "metadata.json"; path = "kept"; size = 1 }
      ∷ [];
}

abbrev children : List Child
children =
    record { name = "pilot"; blocks = block "block-10" ∷ block "block-9" ∷ []; grandchildren = [] }
    ∷ []

plan_pruning-IsPruning_example :
    (plan : Plan) × (scenarios : List Scenario) × (plan_pruning (some children) 1
      ≡ ok (plan, scenarios))
    × IsPruning 1 scenarios plan
plan_pruning-IsPruning_example = plan_pruning-IsPruning children 1

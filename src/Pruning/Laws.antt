-- ===== src/Pruning/Laws.antt =====
-- What a pruning of research/linux-sched/analysis/prune_data.py leaves alone.
use k8labs.Base.{ℕ, ◌+◌, Bool, true, false, List, [], ◌∷◌, ◌++◌, String, ◌≡◌}
use k8labs.Base.{refl, sym, arith, All, All-append, Any, Any-map, Any-append, each-Any}
use k8labs.Base.{sort_by-Any, All-map, sort_by, sum_by, sort_by-sum_by}
use k8labs.Base.{contains, Bool-cases, inl, inr, ◌==◌, comparable_text, ok}
use k8labs.Base.{some, lt_text}
use k8labs.Pruning.{File, Block, Scenario, Child, Plan, bulk_patterns, matching, bulk_files, older}
use k8labs.Pruning.{candidates, kept_of, plan_files, plan_blocks, plan_scenarios, plan_pruning}
use k8labs.Pruning.{never_remove, scenario_dirs, scenarios_of, scenarios_below, by_name}
use k8labs.Base.{is_empty}
use k8labs.Pruning.Newest.{IsOld, kept_of-IsOld}

-- A file of the block stands at the path, and its name is one of large evidence.
abbrev pub IsBulk : List File → String → Type 0
IsBulk files path =
    Any (λ f. (f.path ≡ path) × Any (λ pattern. pattern f.name ≡ true) bulk_patterns) files

contains-Any :
    (values : List String) (v : String) → contains values v ≡ true → Any (λ w. w ≡ v) values
contains-Any [] v h = absurd (cc)
contains-Any (w ∷ r) v h = elim (Bool-cases (v == w)) [
  | inl same ↦ inl (sym ((comparable_text.same_iff {x = v} {y = w}).0 same))
  | inr differ ↦ inr (contains-Any r v (rw differ at h))
]

matching-Any :
    (pattern : String → Bool) (files : List File) (path : String)
    → Any (λ p. p ≡ path) (matching pattern files)
    → Any (λ f. (f.path ≡ path) × (pattern f.name ≡ true)) files
unfolding matching
matching-Any pattern [] path h = h
matching-Any pattern (file ∷ more) path h = elim (Bool-cases (pattern file.name)) [
  | inl bulk ↦ elim (rw bulk at h) [
    | inl here ↦ inl (here, bulk)
    | inr later ↦ inr (matching-Any pattern more path later)
  ]
  | inr other ↦ inr (matching-Any pattern more path (rw other at h))
]

bulk_files-Any :
    (patterns : List (String → Bool)) (files : List File) (path : String)
    → Any (λ p. p ≡ path) (bulk_files patterns files)
    → Any (λ f. (f.path ≡ path) × Any (λ pattern. pattern f.name ≡ true) patterns) files
unfolding bulk_files
bulk_files-Any [] files path h = absurd h
bulk_files-Any (pattern ∷ more) files path h =
    elim (Any-append (λ p. p ≡ path) (sort_by lt_text (matching pattern files))
      (bulk_files more files) h) [
        | inl here ↦
            Any-map (λ f. (f.path ≡ path) × (pattern f.name ≡ true))
              (λ f. (f.path ≡ path) × Any (λ q. q f.name ≡ true) (pattern ∷ more)) files
              (λ f at. (at.0, inl at.1))
              (matching-Any pattern files path
                (sort_by-Any (λ p. p ≡ path) lt_text (matching pattern files) here))
        | inr later ↦
            Any-map (λ f. (f.path ≡ path) × Any (λ q. q f.name ≡ true) more)
              (λ f. (f.path ≡ path) × Any (λ q. q f.name ≡ true) (pattern ∷ more)) files
              (λ f at. (at.0, inr at.1)) (bulk_files-Any more files path later)
      ]

-- A candidate is a bulk file of a block that is not kept.
abbrev pub MayGo : List String → String → Block → Type 0
MayGo keep path block = (contains keep block.path ≡ false) × IsBulk block.files path

candidates-MayGo :
    (keep : List String) (block : Block) (path : String)
    → contains (candidates keep block) path ≡ true
    → MayGo keep path block
candidates-MayGo keep block path h = elim (Bool-cases (contains keep block.path)) [
  | inl kept ↦ absurd (cc (rw kept at h))
  | inr old ↦
      (old, bulk_files-Any bulk_patterns block.files path (contains-Any _ path (rw old at h)))
]

module _ (P : String → Type 0) where
  plan_files-All :
      (remove_here : List String) (files : List File) (plan : Plan)
      → ((p : String) → contains remove_here p ≡ true → P p)
      → All P plan.removable
      → All P (plan_files remove_here files plan).removable
  unfolding plan_files
  plan_files-All remove_here [] plan allowed h = h
  plan_files-All remove_here (file ∷ more) plan allowed h =
      elim (Bool-cases (contains remove_here file.path)) [
        | inl chosen ↦
            rw (chosen, All)
              (plan_files-All remove_here more _ allowed
                (All-append P plan.removable (file.path ∷ []) h (allowed file.path chosen, tt)))
        | inr left ↦ rw (left, All) (plan_files-All remove_here more _ allowed h)
      ]

  plan_blocks-All :
      (keep : List String) (blocks : List Block) (plan : Plan)
      → All (λ b. (p : String) → MayGo keep p b → P p) blocks
      → All P plan.removable
      → All P (plan_blocks keep blocks plan).removable
  unfolding plan_blocks
  plan_blocks-All keep [] plan allowed h = h
  plan_blocks-All keep (block ∷ more) plan allowed h = plan_blocks-All keep more _ allowed.1 (
      plan_files-All (candidates keep block) block.files plan
        (λ p chosen. allowed.0 p (candidates-MayGo keep block p chosen)) h)

  plan_scenarios-All :
      (keep_blocks : ℕ) (scenarios : List Scenario) (plan : Plan)
      → All
          (λ s.
            All
              (λ b. (p : String) → MayGo (kept_of keep_blocks (sort_by older s.blocks)) p b → P p)
              (sort_by older s.blocks))
          scenarios
      → All P plan.removable
      → All P (plan_scenarios keep_blocks scenarios plan).removable
  unfolding plan_scenarios
  plan_scenarios-All keep_blocks [] plan allowed h = h
  plan_scenarios-All keep_blocks (s ∷ more) plan allowed h =
      plan_scenarios-All keep_blocks more _ allowed.1 (
        plan_blocks-All (kept_of keep_blocks (sort_by older s.blocks)) (sort_by older s.blocks) plan
          allowed.0 h)

-- The sizes of the files of a block, of the blocks of a scenario, and of all scenarios.
abbrev pub size_of : Block → ℕ
size_of block = sum_by (λ f. f.size) block.files

abbrev pub scenario_size : Scenario → ℕ
scenario_size scenario = sum_by size_of scenario.blocks

plan_files-sum_by :
    (remove_here : List String) (files : List File) (plan : Plan)
    → let next = plan_files remove_here files plan in
      next.removable_bytes + next.kept_bytes
      ≡ plan.removable_bytes + plan.kept_bytes + sum_by (λ f. f.size) files
unfolding plan_files
plan_files-sum_by remove_here [] plan = omega arith
plan_files-sum_by remove_here (file ∷ more) plan =
    elim (Bool-cases (contains remove_here file.path)) [
      | inl chosen ↦
          let with_file : Plan = record {
            removable = plan.removable ++ (file.path ∷ []);
            removable_bytes = plan.removable_bytes + file.size;
            kept_bytes = plan.kept_bytes;
          } in
          rw chosen (omega (arith, plan_files-sum_by remove_here more with_file))
      | inr left ↦
          let with_file : Plan = record plan { kept_bytes = plan.kept_bytes + file.size } in
          rw left (omega (arith, plan_files-sum_by remove_here more with_file))
    ]

plan_blocks-sum_by :
    (keep : List String) (blocks : List Block) (plan : Plan)
    → let next = plan_blocks keep blocks plan in
      next.removable_bytes + next.kept_bytes
      ≡ plan.removable_bytes + plan.kept_bytes + sum_by size_of blocks
unfolding plan_blocks
plan_blocks-sum_by keep [] plan = omega arith
plan_blocks-sum_by keep (block ∷ more) plan = omega (
  arith,
  plan_files-sum_by (candidates keep block) block.files plan,
  plan_blocks-sum_by keep more (plan_files (candidates keep block) block.files plan),
)

plan_scenarios-sum_by :
    (keep_blocks : ℕ) (scenarios : List Scenario) (plan : Plan)
    → let next = plan_scenarios keep_blocks scenarios plan in
      next.removable_bytes + next.kept_bytes
      ≡ plan.removable_bytes + plan.kept_bytes + sum_by scenario_size scenarios
unfolding plan_scenarios
plan_scenarios-sum_by keep_blocks [] plan = omega arith
plan_scenarios-sum_by keep_blocks (s ∷ more) plan =
    let blocks = sort_by older s.blocks in
    let next = plan_blocks (kept_of keep_blocks blocks) blocks plan in
    omega (
      arith,
      plan_blocks-sum_by (kept_of keep_blocks blocks) blocks plan,
      sort_by-sum_by size_of older s.blocks,
      plan_scenarios-sum_by keep_blocks more next,
    )

-- A path that may go from a scenario: from a block that is not kept.
abbrev pub GoesFrom : ℕ → String → Scenario → Type 0
GoesFrom keep_blocks path scenario =
    let blocks = sort_by older scenario.blocks in
    Any (λ b. MayGo (kept_of keep_blocks blocks) path b) blocks

-- A path of a bulk file of a block of the scenario, where as many blocks as are kept are not older.
abbrev pub RemovedFrom : ℕ → String → Scenario → Type 0
RemovedFrom keep_blocks path scenario =
    (b : Block) × Any (λ c. c ≡ b) scenario.blocks
    × IsBulk b.files path
    × IsOld keep_blocks scenario.blocks b

find_block :
    (P : Block → Type 0) (blocks : List Block)
    → Any P blocks
    → (b : Block) × P b × Any (λ c. c ≡ b) blocks
find_block P [] h = elim h [ ]
find_block P (b ∷ blocks) (inl h) = (b, h, inl refl)
find_block P (b ∷ blocks) (inr h) = let (c, p, there) = find_block P blocks h in (c, p, inr there)

GoesFrom-RemovedFrom :
    (keep_blocks : ℕ) (path : String) (scenario : Scenario)
    → GoesFrom keep_blocks path scenario
    → RemovedFrom keep_blocks path scenario
GoesFrom-RemovedFrom keep_blocks path scenario h =
    let sorted = sort_by older scenario.blocks in
    let (b, (gone, bulk), here) = find_block (MayGo (kept_of keep_blocks sorted) path) sorted h in
    (
      b,
      sort_by-Any (λ c. c ≡ b) older scenario.blocks here,
      bulk,
      kept_of-IsOld keep_blocks scenario.blocks b here gone,
    )

-- What a plan promises.
pub record IsPruning (keep_blocks : ℕ) (scenarios : List Scenario) (plan : Plan) : Type 0 where
  pub only_bulk : All (λ p. Any (λ s. RemovedFrom keep_blocks p s) scenarios) plan.removable
  pub accounted : plan.removable_bytes + plan.kept_bytes ≡ sum_by scenario_size scenarios
  pub spared : All (λ s. contains never_remove s.name ≡ false) scenarios

scenarios_below-All :
    (grandchildren : List Scenario)
    → All (λ s. contains never_remove s.name ≡ false) (scenarios_below grandchildren)
unfolding scenarios_below
scenarios_below-All [] = tt
scenarios_below-All (s ∷ more) = elim (Bool-cases (contains never_remove s.name)) [
  | inl never ↦ rw (never, All) (scenarios_below-All more)
  | inr other ↦ elim (Bool-cases (is_empty s.blocks)) [
    | inl nothing ↦ rw (other, nothing, All) (scenarios_below-All more)
    | inr blocks ↦ rw (other, blocks, All) (other, scenarios_below-All more)
  ]
]

scenarios_of-All :
    (children : List Child)
    → All (λ s. contains never_remove s.name ≡ false) (scenarios_of children)
unfolding scenarios_of
scenarios_of-All [] = tt
scenarios_of-All (child ∷ more) = elim (Bool-cases (contains never_remove child.name)) [
  | inl never ↦ rw (never, All) (scenarios_of-All more)
  | inr other ↦ elim (Bool-cases (is_empty child.blocks)) [
    | inl nothing ↦
        rw (other, nothing)
          (All-append (λ s. contains never_remove s.name ≡ false) _ _
            (scenarios_below-All (sort_by by_name child.grandchildren)) (scenarios_of-All more))
    | inr blocks ↦ rw (other, blocks, All) (other, scenarios_of-All more)
  ]
]

scenarios-allow :
    (keep_blocks : ℕ) (scenarios : List Scenario)
    → All
        (λ s.
          All
            (λ b.
              (p : String)
              → MayGo (kept_of keep_blocks (sort_by older s.blocks)) p b
              → Any (λ t. GoesFrom keep_blocks p t) scenarios)
            (sort_by older s.blocks))
        scenarios
scenarios-allow keep_blocks scenarios =
    All-map
      (λ s. (p : String) → GoesFrom keep_blocks p s → Any (λ t. GoesFrom keep_blocks p t) scenarios)
      _ scenarios
      (λ s from_scenario.
        let blocks = sort_by older s.blocks in
        let keep = kept_of keep_blocks blocks in
        All-map (λ b. (p : String) → MayGo keep p b → Any (λ c. MayGo keep p c) blocks) _ blocks
          (λ b from_block p may_go. from_scenario p (from_block p may_go))
          (each-Any (λ p b. MayGo keep p b) blocks))
      (each-Any (λ p s. GoesFrom keep_blocks p s) scenarios)

-- A plan of a data root removes only files with a name of large evidence, of blocks of a scenario in
-- which as many other blocks as are to be kept have numbers that are not lower; the sizes to remove and to keep are those of all files of all
-- blocks; and no scenario has a name that is never removed.
pub plan_pruning-IsPruning :
    (children : List Child) (keep_blocks : ℕ)
    → (plan : Plan) × (scenarios : List Scenario) × (plan_pruning (some children) keep_blocks
        ≡ ok (plan, scenarios))
      × IsPruning keep_blocks scenarios plan
unfolding plan_pruning
plan_pruning-IsPruning children keep_blocks =
    let scenarios = scenario_dirs children in
    let nothing : Plan = record { removable = []; removable_bytes = 0; kept_bytes = 0 } in
    (
      plan_scenarios keep_blocks scenarios nothing,
      scenarios,
      refl,
      record {
        only_bulk =
            All-map _ _ _ (λ p. Any-map _ _ scenarios (λ s. GoesFrom-RemovedFrom keep_blocks p s))
              (plan_scenarios-All (λ p. Any (λ s. GoesFrom keep_blocks p s) scenarios) keep_blocks
                scenarios nothing (scenarios-allow keep_blocks scenarios) tt);
        accounted = omega (arith, plan_scenarios-sum_by keep_blocks scenarios nothing);
        spared = scenarios_of-All (sort_by (λ a b. lt_text a.name b.name) children);
      },
    )

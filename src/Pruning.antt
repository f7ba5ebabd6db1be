-- ===== src/Pruning.antt =====
-- research/linux-sched/analysis/prune_data.py: which files of the data root a run removes. A
-- directory is what the file system holds of it: its blocks are the directories `block-*`, the
-- files of a block are those at any depth below it.
pub mod Newest
pub mod Laws
use k8labs.Base.{
  ℕ, zero, suc, ◌+◌, ◌-◌, ◌*◌, Bool, true, false, not, ◌&&◌, ◌||◌, Option, none, some,
}
use k8labs.Base.{List, [], ◌∷◌, ◌++◌, map, String, codes, length, drop, ltb, ◌==◌, comparable_nat}
use k8labs.Base.{comparable_text, if◌then◌else◌, Result, ok, raise, contains, is_empty, sort_by}
use k8labs.Firmware.Bytes.{strip}
use k8labs.Base.{lt_text, strip_prefix, ℤ, pos, negsuc, is_digit, leb}

pub record File : Type 0 where
  pub name : String
  pub path : String
  pub size : ℕ

pub record Block : Type 0 where
  pub name : String
  pub path : String
  pub files : List File

-- A directory with its blocks.
pub record Scenario : Type 0 where
  pub name : String
  pub blocks : List Block

-- A directory of the data root, with its own directories.
pub record Child : Type 0 where
  pub name : String
  pub blocks : List Block
  pub grandchildren : List Scenario

abbrev pub starts_with : String → String → Bool
starts_with prefix s = elim (strip_prefix (codes prefix) (codes s)) [
  | some rest ↦ true
  | none ↦ false
]

-- `BULK_PATTERNS`, as tests on a name.
abbrev pub bulk_patterns : List (String → Bool)
bulk_patterns =
    (λ name. starts_with "perf.data" name)
    ∷ (λ name. name == "sched-trace.csv.gz")
    ∷ (λ name. starts_with "sched-trace.txt" name)
    ∷ []

abbrev pub never_remove : List String
never_remove = "blocks.csv" ∷ "analysis" ∷ []

abbrev pub by_name : Scenario → Scenario → Bool
by_name a b = lt_text a.name b.name

-- The grandchildren with blocks.
unfoldable pub scenarios_below : List Scenario → List Scenario
scenarios_below [] = []
scenarios_below (grandchild ∷ more) =
    let rest = scenarios_below more in
    if contains never_remove grandchild.name
    then rest
    else if is_empty grandchild.blocks
    then rest
    else grandchild ∷ rest

-- The loop over the directories of the data root, in order.
unfoldable pub scenarios_of : List Child → List Scenario
scenarios_of [] = []
scenarios_of (child ∷ more) =
    let rest = scenarios_of more in
    let below = scenarios_below (sort_by by_name child.grandchildren) in
    if contains never_remove child.name
    then rest
    else if is_empty child.blocks
    then below ++ rest
    else record { name = child.name; blocks = child.blocks } ∷ rest

abbrev pub scenario_dirs : List Child → List Scenario
scenario_dirs children = scenarios_of (sort_by (λ a b. lt_text a.name b.name) children)

-- The digits of `int(suffix)`, with one underscore at most between two.
unfoldable pub decimal_digits : ℕ → List ℕ → Option ℕ
decimal_digits so_far [] = none
decimal_digits so_far (c ∷ []) = if is_digit c then some (so_far * 10 + (c - b'0')) else none
decimal_digits so_far (c ∷ d ∷ text) =
    let value = so_far * 10 + (c - b'0') in
    let next = decimal_digits value (d ∷ text) in
    let behind = decimal_digits value text in
    if is_digit c then (if d == b'_' then behind else next) else none

-- An integer behind its sign.
unfoldable pub signed_int : List ℕ → Option ℤ
signed_int [] = none
signed_int (c ∷ text) =
    if c == b'-'
    then signed (decimal_digits 0 text)
    else if c == b'+'
    then unsigned (decimal_digits 0 text)
    else unsigned (decimal_digits 0 (c ∷ text))
  where
    unsigned : Option ℕ → Option ℤ
    unsigned none = none
    unsigned (some n) = some (pos n)

    signed : Option ℕ → Option ℤ
    signed none = none
    signed (some zero) = some (pos zero)
    signed (some (suc n)) = some (negsuc n)

-- `int(suffix)` of the name of a block, and 10 ** 9 where its name has none, for names whose digits
-- and white space are those of ASCII.
unfoldable pub number_of : String → ℤ
number_of name = elim (signed_int (strip (suffix (strip_prefix (codes "block-") (codes name))))) [
  | some n ↦ n
  | none ↦ pos 1000000000
]
  where
    suffix : Option (List ℕ) → List ℕ
    suffix (some text) = text
    suffix none = codes name

abbrev pub lt_int : ℤ → ℤ → Bool
lt_int (pos a) (pos b) = ltb a b
lt_int (pos a) (negsuc b) = false
lt_int (negsuc a) (pos b) = true
lt_int (negsuc a) (negsuc b) = ltb b a

-- The order of `block_sort_key`.
unfoldable pub older : Block → Block → Bool
older a b =
    lt_int (number_of a.name) (number_of b.name)
    || (not (lt_int (number_of b.name) (number_of a.name)) && lt_text a.name b.name)

-- The paths of the files that a pattern matches.
unfoldable pub matching : (String → Bool) → List File → List String
matching pattern [] = []
matching pattern (file ∷ more) =
    let rest = matching pattern more in if pattern file.name then file.path ∷ rest else rest

unfoldable pub bulk_files : List (String → Bool) → List File → List String
bulk_files [] files = []
bulk_files (pattern ∷ more) files =
    sort_by lt_text (matching pattern files) ++ bulk_files more files

-- The files to remove, and the sizes of those to remove and to keep.
pub record Plan : Type 0 where
  pub removable : List String
  pub removable_bytes : ℕ
  pub kept_bytes : ℕ

-- The loop over the files of a block.
unfoldable pub plan_files : List String → List File → Plan → Plan
plan_files remove_here [] plan = plan
plan_files remove_here (file ∷ more) plan =
    if contains remove_here file.path
    then plan_files remove_here more record {
      removable = plan.removable ++ (file.path ∷ []);
      removable_bytes = plan.removable_bytes + file.size;
      kept_bytes = plan.kept_bytes;
    }
    else plan_files remove_here more record plan { kept_bytes = plan.kept_bytes + file.size }

-- The candidates of a block: none of a kept one.
abbrev pub candidates : List String → Block → List String
candidates keep block =
    if contains keep block.path then [] else bulk_files bulk_patterns block.files

unfoldable pub plan_blocks : List String → List Block → Plan → Plan
plan_blocks keep [] plan = plan
plan_blocks keep (block ∷ more) plan =
    plan_blocks keep more (plan_files (candidates keep block) block.files plan)

-- `set(blocks[-keep_blocks:])`
abbrev pub kept_of : ℕ → List Block → List String
kept_of zero blocks = []
kept_of (suc k) blocks = map (λ b. b.path) (drop (length blocks - suc k) blocks)

unfoldable pub plan_scenarios : ℕ → List Scenario → Plan → Plan
plan_scenarios keep_blocks [] plan = plan
plan_scenarios keep_blocks (scenario ∷ more) plan =
    let blocks = sort_by older scenario.blocks in
    plan_scenarios keep_blocks more (plan_blocks (kept_of keep_blocks blocks) blocks plan)

pub data PruneError : Type 0 where
  no_data_root : PruneError

-- `plan_pruning`, for a number of blocks that is not negative.
unfoldable pub plan_pruning : Option (List Child) → ℕ → Result PruneError (Plan × List Scenario)
plan_pruning none keep_blocks = raise no_data_root
plan_pruning (some children) keep_blocks =
    let scenarios = scenario_dirs children in
    ok (
      plan_scenarios keep_blocks scenarios
          record { removable = []; removable_bytes = 0; kept_bytes = 0 },
      scenarios,
    )

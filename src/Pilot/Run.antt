-- ===== src/Pilot/Run.antt =====
-- The pilot's run: the checks, the loop over the planned limits and the conclusion of `main` in
-- research/cpu-limits/phase8/campaign/pilot.py. Measuring a cell and reading the clock are arguments.
pub mod Reports
pub mod Loop
use k8labs.Base.{
  ℕ, zero, suc, ◌+◌, min, String, Bool, true, false, not, ◌&&◌, ◌||◌, Option, none, some,
}
use k8labs.Base.{List, [], ◌∷◌, ◌++◌, map, ltb, ◌==◌, comparable_nat, if◌then◌else◌}
use k8labs.Base.{Floats, Result, ok, raise, ◌>>=◌, ◌>>◌, refuse}
use k8labs.Pilot.Bracket.{Outcome, Trial, Bracket, PilotError, is_meets, evaluate_trials}
use k8labs.Pilot.Limits.{PlanError, plan_limits}

-- The `raise SystemExit` sites, a `ValueError` of the planner, and an exception that the loop does
-- not catch.
pub data RunError : Type 0 where
  bad_deadline bad_max_cells bad_max_limit no_workers over_budget : RunError
  request_above_limit : ℕ → ℕ → RunError
  planning : PlanError → RunError
  crashed : RunError

pub record Args (R : Floats) : Type 0 where
  pub deadline_seconds : R.Float
  pub max_cells : ℕ
  pub min_limit_millicores : ℕ
  pub max_limit_millicores : ℕ
  pub growth : R.Float
  pub cpu_request_millicores : Option ℕ

pub record Cell : Type 0 where
  pub limit_millicores : ℕ
  pub request_millicores : ℕ

-- How the measurement of a cell ends: `measure_cell` returns a verdict, whose log line is written;
-- it raises one of the exceptions that the loop catches; or an exception leaves the loop, from
-- `measure_cell` or from the log line behind it, which stands outside the `try` and fails on a
-- report whose `latency_ms` is null.
pub data Measured : Type 0 where
  judged : Outcome → String → Measured
  failed : String → Measured
  escaped : Measured

pub record CellResult : Type 0 where
  pub cell : Cell
  pub outcome : Outcome
  pub reason : String

-- `pilot_error`
pub data Failure : Type 0 where
  deadline_reached : Failure
  no_bracket : PilotError → Failure

pub record Report : Type 0 where
  pub cells : List CellResult
  pub bracket : Option Bracket
  pub error : Option Failure

pub record Prepared : Type 0 where
  pub capacity : ℕ
  pub limits : List ℕ
  pub request : ℕ

abbrev pub trial_of : CellResult → Trial
trial_of r = record {
  limit_millicores = r.cell.limit_millicores;
  outcome = r.outcome;
  reason = r.reason;
}

-- `evaluate_trials` under its `try`, which keeps the error.
unfoldable pub conclude : List CellResult → ℕ → Report
conclude results capacity = elim (evaluate_trials (map trial_of results) capacity) [
  | ok b ↦ record { cells = results; bracket = some b; error = none }
  | raise e ↦ record { cells = results; bracket = none; error = some (no_bracket e) }
]

-- `args.cpu_request_millicores or limits[0]`: a request of 0 is no request.
abbrev pub request_of : Option ℕ → ℕ → ℕ
request_of none first = first
request_of (some n) first = if n == 0 then first else n

module _ (R : Floats) (args : Args R) where
  abbrev pub planned : Result PlanError (List ℕ) → Result RunError (List ℕ)
  planned (ok limits) = ok limits
  planned (raise e) = raise (planning e)

  unfoldable pub check_request : ℕ → List ℕ → Result RunError Prepared
  check_request capacity [] = raise crashed
  check_request capacity (first ∷ limits) = do
    let request = request_of args.cpu_request_millicores first
    refuse (ltb 300 request) over_budget
    refuse (ltb first request) (request_above_limit request first)
    ok (record { capacity = capacity; limits = first ∷ limits; request = request })

  -- Everything before the loop. `workers` is the result of `cluster_capacity`, largest first.
  unfoldable pub prepare : List (String × ℕ) → Result RunError Prepared
  prepare workers = do
    refuse
        (not (R.lt (R.of_nat 0) args.deadline_seconds && R.le args.deadline_seconds (R.of_nat 60)))
        bad_deadline
    refuse (ltb args.max_cells 1 || ltb 2 args.max_cells) bad_max_cells
    refuse (not (ltb 0 args.max_limit_millicores && not (ltb 250 args.max_limit_millicores)))
        bad_max_limit
    elim workers [
      | [] ↦ raise no_workers
      | (name, capacity) ∷ _ ↦
          (planned (
              plan_limits R args.min_limit_millicores (min capacity args.max_limit_millicores)
                args.growth args.max_cells)
            >>= check_request capacity)
    ]

module _ (late : ℕ → Bool) (measure : Cell → Measured) (capacity request : ℕ) where
  -- The loop. `late index` is the clock's answer before the cell of that index.
  unfoldable pub pilot_loop : ℕ → List ℕ → List CellResult → Result RunError Report
  pilot_loop index [] results = ok (conclude results capacity)
  pilot_loop index (limit ∷ limits) results =
      let cell : Cell = record {
        limit_millicores = limit;
        request_millicores = min request limit;
      } in
      let next = λ (r : CellResult). pilot_loop (index + 1) limits (results ++ (r ∷ [])) in
      if late index
      then ok (record { cells = results; bracket = none; error = some deadline_reached })
      else (elim (measure cell) [
        | escaped ↦ raise crashed
        | failed error ↦ next (record { cell = cell; outcome = Outcome.invalid; reason = error })
        | judged outcome reason ↦
            let result : CellResult = record { cell = cell; outcome = outcome; reason = reason } in
            if is_meets outcome
            then ok (conclude (results ++ (result ∷ [])) capacity)
            else next result
      ])

  unfoldable pub run : List ℕ → Result RunError Report
  run limits = pilot_loop 0 limits []

-- The exit status of `main` once the report is written.
abbrev pub exit_status : Report → ℕ
exit_status r = elim (r.bracket) [ none ↦ 4 | some _ ↦ 0 ]

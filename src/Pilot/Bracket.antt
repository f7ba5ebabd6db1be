-- ===== src/Pilot/Bracket.antt =====
-- The bracketed search: research/cpu-limits/phase8/campaign/bracket.py.
-- Millicores are natural numbers. A `raise` is a value of `PilotError`.
pub mod Loops
pub mod Contract
use k8labs.Base.{ℕ, ◌≤◌, String, Bool, true, false, Option, none, some, List, [], ◌∷◌, map}
use k8labs.Base.{leb, ltb, ◌==◌, comparable_nat, if◌then◌else◌, length, ◌&&◌, not}
use k8labs.Base.{Result, ok, raise, ◌>>=◌, ◌>>◌, refuse}

pub data Outcome : Type 0 where
  meets_slo breaches_slo invalid : Outcome

pub data StopReason : Type 0 where
  meets_slo capacity_reached invalid_only : StopReason

-- The five `raise PilotError` sites of `evaluate_trials`, with the numbers that each message shows.
pub data PilotError : Type 0 where
  no_trials : PilotError
  not_increasing : ℕ → ℕ → PilotError
  exceeds_capacity : ℕ → ℕ → PilotError
  every_trial_invalid : PilotError
  unsatisfiable : ℕ → ℕ → PilotError

pub record Trial : Type 0 where
  pub limit_millicores : ℕ
  pub outcome : Outcome
  pub reason : String

pub record Bracket : Type 0 where
  pub passing_millicores : ℕ
  pub failing_below_millicores : Option ℕ
  pub trials : List Trial
  pub stop : StopReason
  pub node_capacity_millicores : ℕ

-- `trial.outcome is Outcome.MEETS_SLO`, and so on.
abbrev pub is_meets : Outcome → Bool
is_meets Outcome.meets_slo = true
is_meets _ = false

abbrev pub is_breach : Outcome → Bool
is_breach Outcome.breaches_slo = true
is_breach _ = false

abbrev pub is_invalid : Outcome → Bool
is_invalid Outcome.invalid = true
is_invalid _ = false

-- The loop over `zip(trials, trials[1:])`.
unfoldable pub check_increasing : List Trial → Result PilotError (Unit {0})
check_increasing [] = ok tt
check_increasing (earlier ∷ []) = ok tt
check_increasing (earlier ∷ later ∷ rest) = do
  refuse (leb later.limit_millicores earlier.limit_millicores)
      (not_increasing earlier.limit_millicores later.limit_millicores)
  check_increasing (later ∷ rest)

unfoldable pub check_capacity : ℕ → List Trial → Result PilotError (Unit {0})
check_capacity capacity [] = ok tt
check_capacity capacity (trial ∷ rest) = do
  refuse (ltb capacity trial.limit_millicores) (exceeds_capacity trial.limit_millicores capacity)
  check_capacity capacity rest

-- The first trial that met the objectives.
unfoldable pub first_passing : List Trial → Option Trial
first_passing [] = none
first_passing (trial ∷ rest) = if is_meets trial.outcome then some trial else first_passing rest

unfoldable pub invalid_trials : List Trial → List Trial
invalid_trials [] = []
invalid_trials (t ∷ rest) =
    let more = invalid_trials rest in if is_invalid t.outcome then t ∷ more else more

-- `trials[-1].limit_millicores`, which the code reads of a list that is not empty.
unfoldable pub last_limit : List Trial → ℕ
last_limit [] = 0
last_limit (t ∷ []) = t.limit_millicores
last_limit (t ∷ u ∷ rest) = last_limit (u ∷ rest)

-- The loop that keeps the last breach below the passing limit, and breaks at that limit.
unfoldable pub failing_loop : ℕ → List Trial → Option ℕ → Option ℕ
failing_loop passing [] failing_below = failing_below
failing_loop passing (trial ∷ rest) failing_below =
    let next =
      failing_loop passing rest
        (if is_breach trial.outcome then some trial.limit_millicores else failing_below) in
    if leb passing trial.limit_millicores then failing_below else next

unfoldable pub no_passing : List Trial → ℕ → PilotError
no_passing trials capacity =
    let invalids = invalid_trials trials in
    if not (length invalids == 0) && length invalids == length trials
    then every_trial_invalid
    else unsatisfiable (last_limit trials) capacity

unfoldable pub evaluate_trials : List Trial → ℕ → Result PilotError Bracket
unfolding check_increasing check_capacity first_passing failing_loop no_passing invalid_trials
    last_limit
evaluate_trials [] capacity = raise no_trials
evaluate_trials (t ∷ ts) capacity = do
  check_increasing (t ∷ ts)
  check_capacity capacity (t ∷ ts)
  elim (first_passing (t ∷ ts)) [
    | none ↦ raise (no_passing (t ∷ ts) capacity)
    | some passing ↦ ok (record {
      passing_millicores = passing.limit_millicores;
      failing_below_millicores = failing_loop passing.limit_millicores (t ∷ ts) none;
      trials = t ∷ ts;
      stop =
          if leb capacity passing.limit_millicores
          then StopReason.capacity_reached
          else StopReason.meets_slo;
      node_capacity_millicores = capacity;
    })
  ]

-- ===== src/Pilot/Run/Reports.antt =====
-- What the report of campaign/pilot.py says of the cells that were measured.
use k8labs.Base.{ℕ, ◌≤◌, ◌≡◌, refl, ◌≢◌, inl, inr, true, false, none, some}
use k8labs.Base.{List, [], ◌∷◌, ◌++◌, map, arith, ap}
use k8labs.Base.{All, Any, Ascending, All-append_left, Ascending-append_left}
use k8labs.Base.{Result-cases}
use k8labs.Pilot.Bracket.{Bracket, is_meets, evaluate_trials}
use k8labs.Pilot.Bracket.Loops.{Increasing, Within, IsBracket, All-split}
use k8labs.Pilot.Bracket.Contract.{evaluate_trials-IsBracket, evaluate_trials_total}
use k8labs.Pilot.Run.{CellResult, Report, trial_of}
use k8labs.Pilot.Run.{conclude}

abbrev pub limits_of : List CellResult → List ℕ
limits_of [] = []
limits_of (r ∷ rs) = r.cell.limit_millicores ∷ limits_of rs

limits_of-append : (rs ss : List CellResult) → limits_of (rs ++ ss) ≡ limits_of rs ++ limits_of ss
limits_of-append [] ss = refl
limits_of-append (r ∷ rs) ss = ap (◌∷◌ r.cell.limit_millicores) (limits_of-append rs ss)

abbrev pub Met : CellResult → Type 0
Met r = is_meets r.outcome ≡ true

abbrev pub Missed : CellResult → Type 0
Missed r = is_meets r.outcome ≡ false

-- Only the last cell may have met the objectives.
abbrev pub StopsAtSuccess : List CellResult → Type 0
StopsAtSuccess [] = Unit
StopsAtSuccess (r ∷ []) = Unit
StopsAtSuccess (r ∷ s ∷ rest) = Missed r × StopsAtSuccess (s ∷ rest)

-- The contract of a report over a plan of limits.
pub record IsReport (limits : List ℕ) (capacity : ℕ) (rep : Report) : Type 0 where
  -- the cells are the plan's first limits, in order, each with a request that its limit admits
  pub skipped : List ℕ
  pub planned : limits ≡ limits_of rep.cells ++ skipped
  pub admitted : All (λ r. r.cell.request_millicores ≤ r.cell.limit_millicores) rep.cells
  pub stops : StopsAtSuccess rep.cells
  -- a success is never lost, and without one there is no bracket, and an error is recorded
  pub success :
      Any Met rep.cells
      → (b : Bracket) × (rep.bracket ≡ some b)
        × (rep.error ≡ none)
        × IsBracket (map trial_of rep.cells) capacity b
  pub failure : All Missed rep.cells → (rep.bracket ≡ none) × (rep.error ≢ none)

Increasing-trials : (rs : List CellResult) → Ascending (limits_of rs) → Increasing (map trial_of rs)
Increasing-trials [] h = tt
Increasing-trials (r ∷ []) h = tt
Increasing-trials (r ∷ s ∷ rs) h = (h.0, Increasing-trials (s ∷ rs) h.1)

Within-trials :
    (capacity : ℕ) (rs : List CellResult)
    → All (λ l. l ≤ capacity) (limits_of rs)
    → Within capacity (map trial_of rs)
Within-trials capacity [] h = tt
Within-trials capacity (r ∷ rs) h = (h.0, Within-trials capacity rs h.1)

Any-trials :
    (rs : List CellResult) → Any Met rs → Any (λ t. is_meets t.outcome ≡ true) (map trial_of rs)
Any-trials [] h = elim h [ ]
Any-trials (r ∷ rs) (inl h) = inl h
Any-trials (r ∷ rs) (inr h) = inr (Any-trials rs h)

All-trials :
    (rs : List CellResult) → All Missed rs → All (λ t. is_meets t.outcome ≡ false) (map trial_of rs)
All-trials [] h = tt
All-trials (r ∷ rs) h = (h.0, All-trials rs h.1)

conclude-cells : (rs : List CellResult) (capacity : ℕ) → (conclude rs capacity).cells ≡ rs
unfolding conclude
conclude-cells rs capacity = ground arith

conclude_success :
    (rs : List CellResult) (capacity : ℕ)
    → Ascending (limits_of rs)
    → All (λ l. l ≤ capacity) (limits_of rs)
    → Any Met rs
    → (b : Bracket) × ((conclude rs capacity).bracket ≡ some b)
      × ((conclude rs capacity).error ≡ none)
      × IsBracket (map trial_of rs) capacity b
unfolding conclude
conclude_success rs capacity up fits h =
    let (b, e) =
      evaluate_trials_total (map trial_of rs) capacity (Increasing-trials rs up)
        (Within-trials capacity rs fits) (Any-trials rs h) in
    (b, ground arith, ground arith, (evaluate_trials-IsBracket (map trial_of rs) capacity e).2)

conclude_failure :
    (rs : List CellResult) (capacity : ℕ)
    → All Missed rs
    → ((conclude rs capacity).bracket ≡ none) × ((conclude rs capacity).error ≢ none)
unfolding conclude
conclude_failure rs capacity h = elim (Result-cases (evaluate_trials (map trial_of rs) capacity)) [
  | inl (b, e) ↦
      let k = (evaluate_trials-IsBracket (map trial_of rs) capacity e).2 in
      let missed =
        All-split (λ t. is_meets t.outcome ≡ false) k.before k.passing k.after
          (rw k.split at (All-trials rs h)) in
      let met = k.met in absurd (cc)
  | inr (e, raised) ↦ (ground arith, ground arith)
]

pub append-StopsAtSuccess :
    (rs : List CellResult) (r : CellResult) → All Missed rs → StopsAtSuccess (rs ++ (r ∷ []))
append-StopsAtSuccess [] r h = tt
append-StopsAtSuccess (s ∷ []) r h = (h.0, tt)
append-StopsAtSuccess (s ∷ t ∷ rs) r h = (h.0, append-StopsAtSuccess (t ∷ rs) r h.1)

pub All-StopsAtSuccess : (rs : List CellResult) → All Missed rs → StopsAtSuccess rs
All-StopsAtSuccess [] h = tt
All-StopsAtSuccess (s ∷ []) h = tt
All-StopsAtSuccess (s ∷ t ∷ rs) h = (h.0, All-StopsAtSuccess (t ∷ rs) h.1)

pub not-Any_of_Missed : (rs : List CellResult) → All Missed rs → Any Met rs → ⊥
not-Any_of_Missed [] h k = k
not-Any_of_Missed (r ∷ rs) h (inl k) = cc (k, h.0)
not-Any_of_Missed (r ∷ rs) h (inr k) = not-Any_of_Missed rs h.1 k

-- One more result moves its limit from the plan to the cells.
pub shift :
    (rs : List CellResult) (r : CellResult) (ls : List ℕ)
    → limits_of rs ++ (r.cell.limit_millicores ∷ ls) ≡ limits_of (rs ++ (r ∷ [])) ++ ls
shift [] r ls = refl
shift (s ∷ rs) r ls = ap (◌∷◌ s.cell.limit_millicores) (shift rs r ls)

abbrev pub Admitted : List CellResult → Type 0
Admitted = All (λ r. r.cell.request_millicores ≤ r.cell.limit_millicores)

pub conclude-IsReport :
    (rs : List CellResult) (skipped : List ℕ) (capacity : ℕ)
    → StopsAtSuccess rs
    → Admitted rs
    → Ascending (limits_of rs ++ skipped)
    → All (λ l. l ≤ capacity) (limits_of rs ++ skipped)
    → IsReport (limits_of rs ++ skipped) capacity (conclude rs capacity)
conclude-IsReport rs skipped capacity stops admitted up fits = rw-cells (conclude-cells rs capacity)
  where
    rw-cells :
        (conclude rs capacity).cells ≡ rs
        → IsReport (limits_of rs ++ skipped) capacity (conclude rs capacity)
    rw-cells e = record {
      skipped = skipped;
      planned = rw e refl;
      admitted = rw e admitted;
      stops = rw e stops;
      success = rw e (
          conclude_success rs capacity (Ascending-append_left (limits_of rs) skipped up)
            (All-append_left _ (limits_of rs) skipped fits));
      failure = rw e (conclude_failure rs capacity);
    }

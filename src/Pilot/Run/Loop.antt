-- ===== src/Pilot/Run/Loop.antt =====
-- The run of campaign/pilot.py as a whole: its preparation, and its loop over the planned limits.
use k8labs.Base.{ℕ, ◌+◌, min, ◌≤◌, ◌≡◌, refl, ◌⊎◌, inl, inr, Bool, none, some}
use k8labs.Base.{List, [], ◌∷◌, ◌++◌, arith, Bool-cases, String, ltb}
use k8labs.Base.{All-map}
use k8labs.Base.{All, Ascending, Ascending-head, All-append, Result, ok, raise, Floats}
use k8labs.Base.{refuse, refuse-eq-ok, >>-eq-ok, >>=-eq-ok, not, ◌&&◌, ◌||◌}
use k8labs.Pilot.Bracket.{Outcome, is_meets}
use k8labs.Pilot.Limits.{PlanError, plan_limits}
use k8labs.Pilot.Limits.Laws.{IsPlan, plan_limits-IsPlan}
use k8labs.Pilot.Run.{Cell, Measured, judged, failed, escaped, CellResult, Report, RunError, Args}
use k8labs.Pilot.Run.{conclude, pilot_loop, run, deadline_reached, prepare, Prepared}
use k8labs.Pilot.Run.{check_request}
use k8labs.Pilot.Run.{planned}
use k8labs.Pilot.Run.Reports.{limits_of, Missed, IsReport, Admitted, conclude-IsReport, shift}
use k8labs.Pilot.Run.Reports.{append-StopsAtSuccess, All-StopsAtSuccess, not-Any_of_Missed}

Measured-cases :
    (m : Measured)
    → (m ≡ escaped)
      ⊎ ((o : Outcome) × (reason : String) × ((m ≡ judged o reason)
            ⊎ ((m ≡ failed reason) × (o ≡ Outcome.invalid))))
Measured-cases (judged o reason) = inr (o, reason, inl refl)
Measured-cases (failed reason) = inr (Outcome.invalid, reason, inr (refl, refl))
Measured-cases escaped = inl refl

module _ (late : ℕ → Bool) (measure : Cell → Measured) (capacity request : ℕ) where
  pilot_loop-IsReport :
      (index : ℕ) (ls : List ℕ) (rs : List CellResult) {rep : Report}
      → All Missed rs
      → Admitted rs
      → Ascending (limits_of rs ++ ls)
      → All (λ l. l ≤ capacity) (limits_of rs ++ ls)
      → pilot_loop late measure capacity request index ls rs ≡ ok rep
      → IsReport (limits_of rs ++ ls) capacity rep
  unfolding pilot_loop
  pilot_loop-IsReport index [] rs {rep} missed adm up fits h =
      let e : rep ≡ conclude rs capacity = ground arith in
      rw e (conclude-IsReport rs [] capacity (All-StopsAtSuccess rs missed) adm up fits)
  pilot_loop-IsReport index (l ∷ ls) rs {rep} missed adm up fits h =
      elim (Bool-cases (late index)) [
        | inl stop ↦
            let e : rep ≡ record { cells = rs; bracket = none; error = some deadline_reached } =
              ground arith in
            rw e (record {
              skipped = l ∷ ls;
              planned = refl;
              admitted = adm;
              stops = All-StopsAtSuccess rs missed;
              success = λ k. absurd (not-Any_of_Missed rs missed k);
              failure = λ _. (refl, λ k. cc);
            })
        | inr go ↦
            let cell : Cell = record { limit_millicores = l; request_millicores = min request l } in
            elim (Measured-cases (measure cell)) [
              | inl crash ↦ absurd (ground arith)
              | inr (o, reason, how) ↦
                  let r : CellResult = record { cell = cell; outcome = o; reason = reason } in
                  let adm' : Admitted (rs ++ (r ∷ [])) =
                    All-append _ rs (r ∷ []) adm (omega arith, tt) in
                  let up' : Ascending (limits_of (rs ++ (r ∷ [])) ++ ls) =
                    rw (shift rs r ls) at up in
                  let fits' : All (λ l. l ≤ capacity) (limits_of (rs ++ (r ∷ [])) ++ ls) =
                    rw (shift rs r ls) at fits in
                  elim (Bool-cases (is_meets o)) [
                    | inl met ↦
                        let e : rep ≡ conclude (rs ++ (r ∷ [])) capacity = ground arith in
                        rw (e, shift rs r ls)
                          (conclude-IsReport (rs ++ (r ∷ [])) ls capacity
                            (append-StopsAtSuccess rs r missed) adm' up' fits')
                    | inr miss ↦
                        let on : pilot_loop late measure capacity request (index + 1) ls
                              (rs ++ (r ∷ []))
                            ≡ ok rep =
                          ground arith in
                        rw (shift rs r ls) (
                          pilot_loop-IsReport (index + 1) ls (rs ++ (r ∷ []))
                            (All-append _ rs (r ∷ []) missed (miss, tt)) adm' up' fits' on)
                  ]
            ]
      ]

  -- Over an ascending plan that fits the node, a report covers the plan's first limits in order,
  -- stops at the first success, and has a bracket exactly where a cell met the objectives: the
  -- errors of the search that concern the order or the node cannot occur.
  pub run-IsReport :
      (limits : List ℕ) {rep : Report}
      → Ascending limits
      → All (λ l. l ≤ capacity) limits
      → run late measure capacity request limits ≡ ok rep
      → IsReport limits capacity rep
  unfolding run
  run-IsReport limits up fits h = pilot_loop-IsReport 0 limits [] tt tt up fits h

-- What the checks before the loop leave to it, for a node of some capacity: a plan of at most two
-- limits inside the bounds of the command and of that node, and a request in the pilot's budget
-- that every limit admits.
pub record IsPrepared (R : Floats) (args : Args R) (capacity : ℕ) (p : Prepared) : Type 0 where
  pub node : p.capacity ≡ capacity
  pub plan :
      IsPlan args.min_limit_millicores
        (min capacity args.max_limit_millicores)
        args.max_cells
        p.limits
  pub bounded : (args.max_limit_millicores ≤ 250) × (args.max_cells ≤ 2)
  pub budget : p.request ≤ 300
  pub admitted : All (λ l. p.request ≤ l) p.limits

module _ (R : Floats) (args : Args R) where
  check_request-eq-ok :
      (capacity : ℕ) (limits : List ℕ) {p : Prepared}
      → Ascending limits
      → check_request R args capacity limits ≡ ok p
      → (p.capacity ≡ capacity)
        × (p.limits ≡ limits)
        × (p.request ≤ 300)
        × All (λ l. p.request ≤ l) p.limits
  unfolding check_request
  check_request-eq-ok capacity [] up h = absurd (cc)
  check_request-eq-ok capacity (x ∷ r) {p} up h =
      let e : p.limits ≡ x ∷ r = ground arith in
      let small : p.request ≤ x = ground arith in
      (ground arith, e, ground arith, rw e (Ascending-head p.request x r small up))

  planned-eq-ok :
      (m : Result PlanError (List ℕ)) {ls : List ℕ} → planned R args m ≡ ok ls → m ≡ ok ls
  planned-eq-ok (ok ls') h = ground arith
  planned-eq-ok (raise e) h = absurd (cc)

  -- What passes the checks before the loop has a first worker, the one with the largest capacity; it
  -- is a plan of at most two limits, each within 250m and within that worker's capacity, which the
  -- loop is told as the node's, and a request within 300m that every planned limit admits.
  pub prepare-IsPrepared :
      (workers : List (String × ℕ)) {p : Prepared}
      → prepare R args workers ≡ ok p
      → (name : String) × (capacity : ℕ) × (more : List (String × ℕ)) × (workers
          ≡ (name, capacity) ∷ more)
        × IsPrepared R args capacity p
        × All (λ l. (l ≤ 250) × (l ≤ capacity)) p.limits
  unfolding prepare
  prepare-IsPrepared [] h = absurd (ground arith)
  prepare-IsPrepared ((name, capacity) ∷ more) {p} h =
      let hi = min capacity args.max_limit_millicores in
      let plan = plan_limits R args.min_limit_millicores hi args.growth args.max_cells in
      let (a, h1) =
        >>-eq-ok
          (refuse
            (not
              (R.lt (R.of_nat 0) args.deadline_seconds && R.le args.deadline_seconds (R.of_nat 60)))
            RunError.bad_deadline)
          _ h in
      let (b, h2) =
        >>-eq-ok (refuse (ltb args.max_cells 1 || ltb 2 args.max_cells) RunError.bad_max_cells) _
          h1 in
      let (c, h3) =
        >>-eq-ok
          (refuse (not (ltb 0 args.max_limit_millicores && not (ltb 250 args.max_limit_millicores)))
            RunError.bad_max_limit)
          _ h2 in
      let (ls, found, h4) = >>=-eq-ok (planned R args plan) _ h3 in
      let good =
        (plan_limits-IsPlan R args.min_limit_millicores hi args.growth args.max_cells
          (planned-eq-ok plan found)).4 in
      let (e1, e2, e3, e4) = check_request-eq-ok capacity ls good.ascending h4 in
      let b' = refuse-eq-ok _ _ b in
      let c' = refuse-eq-ok _ _ c in
      let cap : args.max_limit_millicores ≤ 250 = ground arith in
      (
        name,
        capacity,
        more,
        refl,
        record {
          node = e1;
          plan = rw e2 good;
          bounded = (cap, ground arith);
          budget = e3;
          admitted = e4;
        },
        rw e2 (
            All-map (λ l. (args.min_limit_millicores ≤ l) × (l ≤ hi)) _ ls
              (λ l in_range. (omega (arith, cap, in_range.1), omega (arith, in_range.1)))
              good.inside),
      )

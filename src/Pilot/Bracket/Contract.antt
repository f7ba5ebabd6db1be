-- ===== src/Pilot/Bracket/Contract.antt =====
-- What `evaluate_trials` of campaign/bracket.py promises its callers.
use k8labs.Base.{ℕ, ◌≡◌, refl, inl, inr, ◌≢◌, ◌↔◌, true, List, [], ◌∷◌, ◌++◌, arith, length}
use k8labs.Base.{comparable_nat, ◌≤◌, some, ap, ◌∙◌}
use k8labs.Base.{ok, raise, >>-eq-ok, All, Any, Option-cases}
use k8labs.Pilot.Bracket.{Trial, Bracket, every_trial_invalid, unsatisfiable, is_meets}
use k8labs.Pilot.Bracket.{is_invalid, evaluate_trials, check_increasing, check_capacity}
use k8labs.Pilot.Bracket.{no_passing}
use k8labs.Pilot.Bracket.{first_passing, invalid_trials, last_limit}
use k8labs.Pilot.Bracket.Loops.{Increasing, Within, Misses, IsBracket, Increasing-before}
use k8labs.Pilot.Bracket.Loops.{check_increasing-Increasing, check_increasing-ok, All-split}
use k8labs.Pilot.Bracket.Loops.{check_capacity-Within, check_capacity-ok, first_passing-Split}
use k8labs.Pilot.Bracket.Loops.{failing_loop-FailingBelow, Split}
use k8labs.Pilot.Bracket.Loops.{first_passing_of_Any, first_passing_of_Misses, conclude}
use k8labs.Pilot.Bracket.Loops.{bracket_of}
use k8labs.Pilot.Bracket.Loops.{evaluate_trials_steps}

conclude-eq-ok :
    (ts : List Trial) (capacity : ℕ) (b : Bracket)
    → conclude ts capacity (first_passing ts) ≡ ok b
    → (p : Trial) × (first_passing ts ≡ some p) × (b ≡ bracket_of ts capacity p)
unfolding conclude
conclude-eq-ok ts capacity b h = elim (Option-cases (first_passing ts)) [
  | inl missing ↦ absurd (ground arith)
  | inr (p, e) ↦ (p, e, ground arith)
]

bracket_of-IsBracket :
    (ts : List Trial) (capacity : ℕ) (p : Trial)
    → Increasing ts
    → Within capacity ts
    → Split ts p
    → IsBracket ts capacity (bracket_of ts capacity p)
unfolding bracket_of
bracket_of-IsBracket ts capacity p up fits s =
    let up' : Increasing (s.before ++ (p ∷ s.after)) = rw s.split at up in
    record {
      before = s.before;
      passing = p;
      after = s.after;
      split = s.split;
      missed = s.missed;
      met = s.met;
      limit = refl;
      failing = rw s.split (failing_loop-FailingBelow p s.before s.after up');
      below = Increasing-before s.before p s.after up';
      fits = All-split (λ t. t.limit_millicores ≤ capacity) s.before p s.after (rw s.split at fits);
      kept = refl;
      stopped = refl;
    }

empty_fails : (capacity : ℕ) {b : Bracket} → evaluate_trials [] capacity ≡ ok b → ⊥
unfolding evaluate_trials
empty_fails capacity h = cc

-- A bracket is returned only for trials whose limits strictly increase and fit the node.
-- It then holds the first trial that met the objectives, and the largest breach below it.
pub evaluate_trials-IsBracket :
    (ts : List Trial) (capacity : ℕ) {b : Bracket}
    → evaluate_trials ts capacity ≡ ok b
    → Increasing ts × Within capacity ts × IsBracket ts capacity b
evaluate_trials-IsBracket [] capacity h = absurd (empty_fails capacity h)
evaluate_trials-IsBracket (t ∷ r) capacity {b} h =
    let (up, h') = >>-eq-ok (check_increasing (t ∷ r)) _ (rw evaluate_trials_steps at h) in
    let (fits, h'') = >>-eq-ok (check_capacity capacity (t ∷ r)) _ h' in
    let (p, found, e) = conclude-eq-ok (t ∷ r) capacity b h'' in
    let up' = check_increasing-Increasing (t ∷ r) up in
    let fits' = check_capacity-Within capacity (t ∷ r) fits in
    (
      up',
      fits',
      rw e (bracket_of-IsBracket (t ∷ r) capacity p up' fits' (first_passing-Split (t ∷ r) found)),
    )

checked :
    (t : Trial) (r : List Trial) (capacity : ℕ)
    → Increasing (t ∷ r)
    → Within capacity (t ∷ r)
    → evaluate_trials (t ∷ r) capacity ≡ conclude (t ∷ r) capacity (first_passing (t ∷ r))
checked t r capacity up fits =
    rw (
      evaluate_trials_steps,
      check_increasing-ok (t ∷ r) up,
      check_capacity-ok capacity (t ∷ r) fits,
    )

-- The search never loses a result: where the limits strictly increase, fit the node and some trial
-- met the objectives, a bracket is returned.
pub evaluate_trials_total :
    (ts : List Trial) (capacity : ℕ)
    → Increasing ts
    → Within capacity ts
    → Any (λ t. is_meets t.outcome ≡ true) ts
    → (b : Bracket) × (evaluate_trials ts capacity ≡ ok b)
unfolding conclude
evaluate_trials_total [] capacity up fits some_met = elim some_met [ ]
evaluate_trials_total (t ∷ r) capacity up fits some_met =
    let (p, found) = first_passing_of_Any (t ∷ r) some_met in
    (bracket_of (t ∷ r) capacity p, checked t r capacity up fits ∙ rw found)

length-invalid_trials_le : (ts : List Trial) → length (invalid_trials ts) ≤ length ts
unfolding invalid_trials
length-invalid_trials_le [] = omega arith
length-invalid_trials_le (t ∷ r) = ground (arith, length-invalid_trials_le r)

length-invalid_trials :
    (ts : List Trial)
    → (length (invalid_trials ts) ≡ length ts) ↔ All (λ t. is_invalid t.outcome ≡ true) ts
unfolding invalid_trials
length-invalid_trials [] = (λ _. tt, λ _. refl)
length-invalid_trials (t ∷ r) = ground (arith, length-invalid_trials r, length-invalid_trials_le r)

no_passing_all_invalid :
    (t : Trial) (r : List Trial) (capacity : ℕ)
    → length (invalid_trials (t ∷ r)) ≡ length (t ∷ r)
    → no_passing (t ∷ r) capacity ≡ every_trial_invalid
unfolding no_passing
no_passing_all_invalid t r capacity h = ground arith

no_passing_some_valid :
    (t : Trial) (r : List Trial) (capacity : ℕ)
    → length (invalid_trials (t ∷ r)) ≢ length (t ∷ r)
    → no_passing (t ∷ r) capacity ≡ unsatisfiable (last_limit (t ∷ r)) capacity
unfolding no_passing
no_passing_some_valid t r capacity h = ground arith

-- Where no trial met the objectives the search says so and guesses nothing. The error is
-- "every trial was invalid" exactly when every trial was, and names the highest limit otherwise.
pub evaluate_trials_unsatisfiable :
    (t : Trial) (r : List Trial) (capacity : ℕ)
    → Increasing (t ∷ r)
    → Within capacity (t ∷ r)
    → Misses (t ∷ r)
    → (All (λ t. is_invalid t.outcome ≡ true) (t ∷ r)
        → evaluate_trials (t ∷ r) capacity ≡ raise every_trial_invalid)
      × (¬ All (λ t. is_invalid t.outcome ≡ true) (t ∷ r)
          → evaluate_trials (t ∷ r) capacity ≡ raise (unsatisfiable (last_limit (t ∷ r)) capacity))
unfolding conclude
evaluate_trials_unsatisfiable t r capacity up fits missed =
    let e =
      checked t r capacity up fits
      ∙ ap (conclude (t ∷ r) capacity) (first_passing_of_Misses (t ∷ r) missed) in
    let all = length-invalid_trials (t ∷ r) in
    (
      λ h. e ∙ ap raise (no_passing_all_invalid t r capacity (all.1 h)),
      λ h. e ∙ ap raise (no_passing_some_valid t r capacity (λ k. h (all.0 k))),
    )

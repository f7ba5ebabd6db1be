-- ===== src/Pilot/Bracket/Loops.antt =====
-- The loops of `evaluate_trials` in campaign/bracket.py, one by one.
use k8labs.Base.{ℕ, ◌≤◌, ◌<◌, ◌≡◌, refl, ◌⊎◌, inl, inr, true, false, Option, none, some}
use k8labs.Base.{List, [], ◌∷◌, ◌++◌, arith, leb, if◌then◌else◌, ap}
use k8labs.Base.{Result, ok, raise, ◌>>◌, All, Any, Bool-cases}
use k8labs.Pilot.Bracket.{StopReason, Trial, Bracket, PilotError, is_meets, is_breach}
use k8labs.Pilot.Bracket.{evaluate_trials, check_increasing, check_capacity, first_passing}
use k8labs.Pilot.Bracket.{failing_loop, no_passing}

-- The limits of the trials strictly increase.
abbrev pub Increasing : List Trial → Type 0
Increasing [] = Unit
Increasing (t ∷ []) = Unit
Increasing (t ∷ u ∷ r) = (t.limit_millicores < u.limit_millicores) × Increasing (u ∷ r)

abbrev pub Within : ℕ → List Trial → Type 0
Within capacity = All (λ t. t.limit_millicores ≤ capacity)

abbrev pub Misses : List Trial → Type 0
Misses = All (λ t. is_meets t.outcome ≡ false)

-- The reported failing limit is the largest one that breached, and it is absent only if none did.
abbrev pub FailingBelow : List Trial → Option ℕ → Type 0
FailingBelow before none = All (λ t. is_breach t.outcome ≡ false) before
FailingBelow before (some f) =
    Any (λ t. (is_breach t.outcome ≡ true) × (t.limit_millicores ≡ f)) before
    × All (λ t. is_breach t.outcome ≡ true → t.limit_millicores ≤ f) before

-- The contract of a bracket over the trials that it was derived from.
pub record IsBracket (trials : List Trial) (capacity : ℕ) (b : Bracket) : Type 0 where
  pub before : List Trial
  pub passing : Trial
  pub after : List Trial
  pub split : trials ≡ before ++ (passing ∷ after)
  pub missed : Misses before
  pub met : is_meets passing.outcome ≡ true
  pub limit : b.passing_millicores ≡ passing.limit_millicores
  pub failing : FailingBelow before b.failing_below_millicores
  pub below : All (λ t. t.limit_millicores < b.passing_millicores) before
  pub fits : b.passing_millicores ≤ capacity
  pub kept : b.trials ≡ trials
  pub stopped : b.stop ≡ (
      if leb capacity b.passing_millicores
      then StopReason.capacity_reached
      else StopReason.meets_slo)

Increasing-tail : (t : Trial) (r : List Trial) → Increasing (t ∷ r) → Increasing r
Increasing-tail t [] h = tt
Increasing-tail t (u ∷ r) h = h.1

Increasing-head :
    (n : ℕ) (t : Trial) (r : List Trial)
    → n ≤ t.limit_millicores
    → Increasing (t ∷ r)
    → All (λ u. n < u.limit_millicores) r
Increasing-head n t [] le h = tt
Increasing-head n t (u ∷ r) le h = (omega arith, Increasing-head n u r (omega arith) h.1)

pub Increasing-before :
    (before : List Trial) (p : Trial) (after : List Trial)
    → Increasing (before ++ (p ∷ after))
    → All (λ t. t.limit_millicores < p.limit_millicores) before
Increasing-before [] p after h = tt
Increasing-before (t ∷ []) p after h = (h.0, tt)
Increasing-before (t ∷ u ∷ r) p after h =
    let rest = Increasing-before (u ∷ r) p after h.1 in (omega arith, rest)

Increasing-prefix : (before rest : List Trial) → Increasing (before ++ rest) → Increasing before
Increasing-prefix [] rest h = tt
Increasing-prefix (t ∷ []) rest h = tt
Increasing-prefix (t ∷ u ∷ r) rest h = (h.0, Increasing-prefix (u ∷ r) rest h.1)

pub check_increasing-Increasing : (ts : List Trial) → check_increasing ts ≡ ok tt → Increasing ts
unfolding check_increasing
check_increasing-Increasing [] h = tt
check_increasing-Increasing (t ∷ []) h = tt
check_increasing-Increasing (t ∷ u ∷ r) h = ground (arith, check_increasing-Increasing (u ∷ r))

pub check_increasing-ok : (ts : List Trial) → Increasing ts → check_increasing ts ≡ ok tt
unfolding check_increasing
check_increasing-ok [] h = refl
check_increasing-ok (t ∷ []) h = refl
check_increasing-ok (t ∷ u ∷ r) h = ground (arith, check_increasing-ok (u ∷ r) h.1)

pub check_capacity-Within :
    (capacity : ℕ) (ts : List Trial) → check_capacity capacity ts ≡ ok tt → Within capacity ts
unfolding check_capacity
check_capacity-Within capacity [] h = tt
check_capacity-Within capacity (t ∷ r) h = ground (arith, check_capacity-Within capacity r)

pub check_capacity-ok :
    (capacity : ℕ) (ts : List Trial) → Within capacity ts → check_capacity capacity ts ≡ ok tt
unfolding check_capacity
check_capacity-ok capacity [] h = refl
check_capacity-ok capacity (t ∷ r) h = ground (arith, check_capacity-ok capacity r h.1)

pub record Split (ts : List Trial) (p : Trial) : Type 0 where
  pub before : List Trial
  pub after : List Trial
  pub split : ts ≡ before ++ (p ∷ after)
  pub missed : Misses before
  pub met : is_meets p.outcome ≡ true

pub first_passing-Split : (ts : List Trial) {p : Trial} → first_passing ts ≡ some p → Split ts p
unfolding first_passing
first_passing-Split [] h = absurd (cc)
first_passing-Split (t ∷ r) {p} h = elim (Bool-cases (is_meets t.outcome)) [
  | inl met ↦ record {
    before = [];
    after = r;
    split = ground arith;
    missed = tt;
    met = ground arith;
  }
  | inr missed ↦
      let s = first_passing-Split r {p = p} (ground arith) in
      record {
        before = t ∷ s.before;
        after = s.after;
        split = ap (◌∷◌ t) s.split;
        missed = (missed, s.missed);
        met = s.met;
      }
]

-- The failing-limit loop without its early exit.
last_breach : List Trial → Option ℕ → Option ℕ
last_breach [] acc = acc
last_breach (t ∷ r) acc =
    last_breach r (if is_breach t.outcome then some t.limit_millicores else acc)

failing_loop-last_breach :
    (p : Trial) (before after : List Trial) (acc : Option ℕ)
    → All (λ t. t.limit_millicores < p.limit_millicores) before
    → failing_loop p.limit_millicores (before ++ (p ∷ after)) acc ≡ last_breach before acc
unfolding failing_loop last_breach
failing_loop-last_breach p [] after acc h = ground arith
failing_loop-last_breach p (t ∷ r) after acc h = ground (
  arith,
  failing_loop-last_breach p r after (if is_breach t.outcome then some t.limit_millicores else acc)
      h.1,
)

last_breach-eq-none :
    (before : List Trial) (acc : Option ℕ)
    → last_breach before acc ≡ none
    → (acc ≡ none) × All (λ t. is_breach t.outcome ≡ false) before
unfolding last_breach
last_breach-eq-none [] acc h = (h, tt)
last_breach-eq-none (t ∷ r) acc h =
    ground
      (arith, last_breach-eq-none r (if is_breach t.outcome then some t.limit_millicores else acc))

last_breach-eq-some :
    (before : List Trial) (acc : Option ℕ) (f : ℕ)
    → last_breach before acc ≡ some f
    → (acc ≡ some f) ⊎ Any (λ t. (is_breach t.outcome ≡ true) × (t.limit_millicores ≡ f)) before
unfolding last_breach
last_breach-eq-some [] acc f h = inl h
last_breach-eq-some (t ∷ r) acc f h =
    ground (
      arith,
      last_breach-eq-some r (if is_breach t.outcome then some t.limit_millicores else acc) f,
    )

-- What the loop keeps is at least what it started from and every breach that it passed.
last_breach_ge :
    (before : List Trial) (acc : Option ℕ) (f : ℕ)
    → Increasing before
    → ((a : ℕ) → acc ≡ some a → All (λ t. a < t.limit_millicores) before)
    → last_breach before acc ≡ some f
    → ((a : ℕ) → acc ≡ some a → a ≤ f)
      × All (λ t. is_breach t.outcome ≡ true → t.limit_millicores ≤ f) before
unfolding last_breach
last_breach_ge [] acc f up lo h = (λ a e. ground arith, tt)
last_breach_ge (t ∷ r) acc f up lo h = elim (Bool-cases (is_breach t.outcome)) [
  | inl breach ↦
      let rest =
        last_breach_ge r (some t.limit_millicores) f (Increasing-tail t r up)
          (λ a e. Increasing-head a t r (ground arith) up) (ground arith) in
      let here : t.limit_millicores ≤ f = rest.0 t.limit_millicores refl in
      (λ a e. let lt = lo a e in omega arith, (λ _. here, rest.1))
  | inr other ↦
      let rest =
        last_breach_ge r acc f (Increasing-tail t r up) (λ a e. (lo a e).1) (ground arith) in
      (rest.0, (λ b. absurd (cc), rest.1))
]

pub failing_loop-FailingBelow :
    (p : Trial) (before after : List Trial)
    → Increasing (before ++ (p ∷ after))
    → FailingBelow before (failing_loop p.limit_millicores (before ++ (p ∷ after)) none)
failing_loop-FailingBelow p before after up =
    rw (failing_loop-last_breach p before after none (Increasing-before before p after up))
      (go (last_breach before none) refl)
  where
    go : (o : Option ℕ) → last_breach before none ≡ o → FailingBelow before o
    go none e = (last_breach-eq-none before none e).1
    go (some f) e = (
      ground (arith, last_breach-eq-some before none f e),
      (last_breach_ge before none f (Increasing-prefix before (p ∷ after) up) (λ a e. absurd (cc))
          e).1,
    )

pub first_passing-eq-none : (ts : List Trial) → first_passing ts ≡ none → Misses ts
unfolding first_passing
first_passing-eq-none [] h = tt
first_passing-eq-none (t ∷ r) h = ground (arith, first_passing-eq-none r)

pub first_passing_of_Any :
    (ts : List Trial)
    → Any (λ t. is_meets t.outcome ≡ true) ts
    → (p : Trial) × (first_passing ts ≡ some p)
unfolding first_passing
first_passing_of_Any [] h = elim h [ ]
first_passing_of_Any (t ∷ r) h = elim (Bool-cases (is_meets t.outcome)) [
  | inl met ↦ (t, rw met)
  | inr missed ↦ let (p, e) = first_passing_of_Any r (ground arith) in (p, rw missed e)
]

pub first_passing_of_Misses : (ts : List Trial) → Misses ts → first_passing ts ≡ none
unfolding first_passing
first_passing_of_Misses [] h = refl
first_passing_of_Misses (t ∷ r) h = rw h.0 (first_passing_of_Misses r h.1)

pub All-split {ℓ} :
    {A : Type ℓ} (P : A → Type 0) (xs : List A) (y : A) (ys : List A) → All P (xs ++ (y ∷ ys)) → P y
All-split P [] y ys h = h.0
All-split P (x ∷ xs) y ys h = All-split P xs y ys h.1

-- What `evaluate_trials` computes once its checks have passed.
unfoldable pub bracket_of : List Trial → ℕ → Trial → Bracket
bracket_of ts capacity p = record {
  passing_millicores = p.limit_millicores;
  failing_below_millicores = failing_loop p.limit_millicores ts none;
  trials = ts;
  stop =
      if leb capacity p.limit_millicores then StopReason.capacity_reached else StopReason.meets_slo;
  node_capacity_millicores = capacity;
}

unfoldable pub conclude : List Trial → ℕ → Option Trial → Result PilotError Bracket
unfolding bracket_of
conclude ts capacity none = raise (no_passing ts capacity)
conclude ts capacity (some p) = ok (bracket_of ts capacity p)

pub evaluate_trials_steps :
    (t : Trial) (r : List Trial) (capacity : ℕ)
    → evaluate_trials (t ∷ r) capacity ≡ (
        check_increasing (t ∷ r)
        >> (check_capacity capacity (t ∷ r) >> conclude (t ∷ r) capacity (first_passing (t ∷ r))))
unfolding evaluate_trials conclude bracket_of
evaluate_trials_steps t r capacity = ground arith

-- ===== src/Pilot/Limits/Laws.antt =====
-- The limits that `plan_limits` of campaign/bracket.py returns.
use k8labs.Base.{ℕ, inl, inr, zero, suc, ◌≤◌, ◌<◌, ◌≡◌, refl, ◌≢◌, false, Option, none, some}
use k8labs.Base.{List, [], ◌∷◌, arith, leb, length, All, Ascending, min, max}
use k8labs.Base.{Floats, ok, ◌>>=◌, refuse, refuse-eq-ok, >>-eq-ok, ltb→ge, ltb, ap, ◌∙◌}
use k8labs.Base.{◌⊎◌, Result, raise}
use k8labs.Base.{>>=-eq-ok, Option-cases, Bool-cases}
use k8labs.Pilot.Limits.{PlanError, stalled, rounded, plan_loop, plan_limits}

-- A list that may follow `last` in a strictly ascending one.
abbrev Follows : Option ℕ → List ℕ → Type 0
Follows last [] = Unit
Follows none (x ∷ r) = Ascending (x ∷ r)
Follows (some l) (x ∷ r) = (l < x) × Ascending (x ∷ r)

-- What a plan promises: strictly ascending limits inside the range, at most `cells` of them.
pub record IsPlan (lo hi cells : ℕ) (limits : List ℕ) : Type 0 where
  pub ascending : Ascending limits
  pub inside : All (λ l. (lo ≤ l) × (l ≤ hi)) limits
  pub short : length limits ≤ cells
  pub some_limit : limits ≢ []

module _ (R : Floats) (lo hi : ℕ) (growth : R.Float) where
  -- The value of the loop in its round of the given number, the first being 0.
  abbrev pub grown : R.Float → ℕ → R.Float
  grown current zero = current
  grown current (suc i) = grown (R.mul current growth) i

  -- In some round before `room` the value is one of which `int()` raises, and so does the planner.
  abbrev pub Overflows : ℕ → R.Float → Result PlanError (List ℕ) → Type 0
  Overflows room current planned =
      (i : ℕ) × (i < room)
      × (rounded R lo hi growth (grown current i) ≡ none)
      × (planned ≡ raise PlanError.not_finite)

module _ (R : Floats) (lo hi : ℕ) (growth : R.Float) (range : lo ≤ hi) where
  Follows-cons :
      (last : Option ℕ) (limit : ℕ) (more : List ℕ)
      → stalled last limit ≡ false
      → Follows (some limit) more
      → Follows last (limit ∷ more)
  Follows-cons none limit [] s h = tt
  Follows-cons none limit (x ∷ r) s h = h
  Follows-cons (some l) limit [] s h = (ground arith, tt)
  Follows-cons (some l) limit (x ∷ r) s h = (ground arith, h)

  abbrev Planned : Option ℕ → ℕ → List ℕ → Type 0
  Planned last room ls = Follows last ls × All (λ l. (lo ≤ l) × (l ≤ hi)) ls × (length ls ≤ room)

  Planned-cons :
      (last : Option ℕ) (limit room : ℕ) (more : List ℕ)
      → stalled last limit ≡ false
      → (lo ≤ limit) × (limit ≤ hi)
      → Planned (some limit) room more
      → Planned last (suc room) (limit ∷ more)
  Planned-cons last limit room more s inside h =
      (Follows-cons last limit more s h.0, (inside, h.1), omega arith)

  plan_loop-Planned :
      (room : ℕ) (current : R.Float) (last : Option ℕ) (ls : List ℕ)
      → plan_loop R lo hi growth room current last ≡ ok ls
      → Planned last room ls
  unfolding plan_loop
  plan_loop-Planned zero current last [] h = (tt, tt, omega arith)
  plan_loop-Planned zero current last (x ∷ r) h = absurd (ground arith)
  plan_loop-Planned (suc room) current last ls h =
      elim (Option-cases (rounded R lo hi growth current)) [
        | inl infinite ↦ absurd (ground arith)
        | inr (raw, e) ↦
            let limit : ℕ = min (max raw lo) hi in
            let inside : (lo ≤ limit) × (limit ≤ hi) = (omega arith, omega arith) in
            elim (Bool-cases (stalled last limit)) [
              | inl stop ↦ let ends : ls ≡ [] = ground arith in rw ends (tt, tt, omega arith)
              | inr new ↦ elim (Bool-cases (leb hi limit)) [
                | inl top ↦
                    let ends : ls ≡ limit ∷ [] = ground arith in
                    rw ends (Planned-cons last limit room [] new inside (tt, tt, omega arith))
                | inr below ↦
                    let grown = R.mul current growth in
                    let both : (plan_loop R lo hi growth room grown (some limit) >>= λ more.
                    ok (limit ∷ more))
                        ≡ ok ls =
                      ground arith in
                    let (more, found, same) =
                      >>=-eq-ok (plan_loop R lo hi growth room grown (some limit)) _ both in
                    let ends : ls ≡ limit ∷ more = ground arith in
                    rw ends (
                      Planned-cons last limit room more new inside
                        (plan_loop-Planned room grown (some limit) more found))
              ]
            ]
      ]

  plan_loop_ends :
      (room : ℕ) (current : R.Float) (last : Option ℕ)
      → ((ls : List ℕ) × (plan_loop R lo hi growth room current last ≡ ok ls))
        ⊎ Overflows R lo hi growth room current (plan_loop R lo hi growth room current last)
  unfolding plan_loop
  plan_loop_ends zero current last = inl ([], refl)
  plan_loop_ends (suc room) current last = elim (Option-cases (rounded R lo hi growth current)) [
    | inl infinite ↦ inr (0, omega arith, infinite, ground arith)
    | inr (raw, e) ↦
        let limit = min (max raw lo) hi in
        elim (Bool-cases (stalled last limit)) [
          | inl stop ↦ inl ([], ground arith)
          | inr new ↦ elim (Bool-cases (leb hi limit)) [
            | inl top ↦ inl (limit ∷ [], ground arith)
            | inr below ↦ elim (plan_loop_ends room (R.mul current growth) (some limit)) [
              | inl (more, m) ↦ inl (limit ∷ more, ground arith)
              | inr (i, inside, infinite, raised) ↦ inr (suc i, omega arith, infinite, ground arith)
            ]
          ]
        ]
  ]

  plan_loop-ne-nil :
      (room : ℕ) (current : R.Float) → plan_loop R lo hi growth (suc room) current none ≢ ok []
  unfolding plan_loop
  plan_loop-ne-nil room current h = elim (Option-cases (rounded R lo hi growth current)) [
    | inl infinite ↦ cc (infinite, h)
    | inr (raw, e) ↦ elim (Bool-cases (leb hi (min (max raw lo) hi))) [
      | inl top ↦ ground arith
      | inr below ↦
          let limit = min (max raw lo) hi in
          let rest = plan_loop R lo hi growth room (R.mul current growth) (some limit) in
          let both : (rest >>= λ more. ok (limit ∷ more)) ≡ ok [] = ground arith in
          let (more, found, same) = >>=-eq-ok rest _ both in cc same
    ]
  ]

module _ (R : Floats) (lo hi : ℕ) (growth : R.Float) where
  Follows-none : (ls : List ℕ) → Follows none ls → Ascending ls
  Follows-none [] h = tt
  Follows-none (x ∷ r) h = h

  plan_limits_steps :
      (cells : ℕ)
      → 1 ≤ lo
      → lo ≤ hi
      → 1 ≤ cells
      → R.le growth (R.decimal 10 1) ≡ false
      → plan_limits R lo hi growth cells ≡ plan_loop R lo hi growth cells (R.of_nat lo) none
  unfolding plan_limits
  plan_limits_steps cells a b c d = ground arith

  -- A plan is a strictly ascending list of limits inside the range, not empty and no longer than
  -- `max_cells`; and only a range from 1 up, a growth above 1 and one cell or more give a plan.
  pub plan_limits-IsPlan :
      (cells : ℕ) {ls : List ℕ}
      → plan_limits R lo hi growth cells ≡ ok ls
      → (1 ≤ lo)
        × (lo ≤ hi)
        × (1 ≤ cells)
        × (R.le growth (R.decimal 10 1) ≡ false)
        × IsPlan lo hi cells ls
  unfolding plan_limits
  plan_limits-IsPlan zero h = absurd (ground arith)
  plan_limits-IsPlan (suc room) {ls} h =
      let (a, h1) = >>-eq-ok (refuse (ltb lo 1) PlanError.min_too_small) _ h in
      let (b, h2) = >>-eq-ok (refuse (ltb hi lo) PlanError.max_below_min) _ h1 in
      let (c, h3) =
        >>-eq-ok (refuse (R.le growth (R.decimal 10 1)) PlanError.growth_too_small) _ h2 in
      let (d, h4) = >>-eq-ok (refuse (ltb (suc room) 1) PlanError.no_cells) _ h3 in
      let range : lo ≤ hi = ltb→ge hi lo (refuse-eq-ok _ _ b) in
      let (follows, inside, short) =
        plan_loop-Planned R lo hi growth range (suc room) (R.of_nat lo) none ls h4 in
      (
        ltb→ge lo 1 (refuse-eq-ok _ _ a),
        range,
        omega arith,
        refuse-eq-ok _ _ c,
        record {
          ascending = Follows-none ls follows;
          inside = inside;
          short = short;
          some_limit = λ e. plan_loop-ne-nil R lo hi growth range room (R.of_nat lo) (h4 ∙ ap ok e);
        },
      )

  -- With arguments in range, planning ends: either with a strictly ascending list of limits inside
  -- the range, not empty and no longer than `max_cells`, or with the error of `int()`, and then the
  -- minimum, multiplied by the growth fewer times than `max_cells`, gives a value of which `int()`
  -- raises.
  pub plan_limits_total :
      (cells : ℕ)
      → 1 ≤ lo
      → lo ≤ hi
      → 1 ≤ cells
      → R.le growth (R.decimal 10 1) ≡ false
      → ((ls : List ℕ) × (plan_limits R lo hi growth cells ≡ ok ls) × IsPlan lo hi cells ls)
        ⊎ Overflows R lo hi growth cells (R.of_nat lo) (plan_limits R lo hi growth cells)
  plan_limits_total cells positive range some_cells grows =
      let steps = plan_limits_steps cells positive range some_cells grows in
      elim (plan_loop_ends R lo hi growth range cells (R.of_nat lo) none) [
        | inl (ls, e) ↦ inl (ls, steps ∙ e, (plan_limits-IsPlan cells (steps ∙ e)).4)
        | inr (i, inside, infinite, raised) ↦ inr (i, inside, infinite, steps ∙ raised)
      ]

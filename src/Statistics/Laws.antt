-- ===== src/Statistics/Laws.antt =====
-- The Holm decisions of research/cpu-limits/analysis/stats.py refine the abstract step-down rule.
use k8labs.Base.{ℕ, zero, suc, ◌+◌, ◌<◌, ◌≤◌, Bool, true, false, not, ◌&&◌, some}
use k8labs.Base.{List, [], ◌∷◌, ◌++◌, ◌≡◌, ◌≢◌, refl, ap, sym, ◌∙◌, arith, length, All, all}
use k8labs.Base.{Floats, ok, ge→ltb}
use k8labs.Base.{get_elem?, set_elem, get_elem?-set_elem, get_elem?-set_elem_ne, length-set_elem}
use k8labs.Base.{replicate, length-replicate, DistinctBy}
use k8labs.Base.{All-middle}
use k8labs.Statistics.StepDown.{mark_ne, mark_same, Pending, Pending-mark, Pending-start}
use k8labs.Statistics.StepDown.{passes_all, IsRanking, sort_by-IsRanking}
use k8labs.Statistics.{HolmDecision, mark, threshold_at, is_p_value, step_down, decisions}
use k8labs.Statistics.{ranked, holm_decisions}

one_test : (stopped p : Bool) → (not stopped && p) ≡ (not stopped && (p && true))
one_test stopped p = ground arith

more_tests :
    (stopped p rest : Bool) → (not (not (not stopped && p)) && rest) ≡ (not stopped && (p && rest))
more_tests stopped p rest = ground arith

module _ (F : Floats) (alpha : F.Float) (family : ℕ) where
  -- The test of the loop.
  abbrev pub passes : ℕ → ℕ × F.Float → Bool
  passes position x = F.le x.1 (threshold_at F alpha family position)

  -- An index that is not among those to come keeps its entries.
  step_down-apart :
      (position : ℕ) (stopped : Bool) (thresholds : List F.Float) (rejected : List Bool)
      (more : List (ℕ × F.Float)) (i : ℕ)
      → All (λ x. i ≢ x.0) more
      → let arrays = step_down F alpha family position stopped thresholds rejected more in
        (get_elem? arrays.0 i ≡ get_elem? thresholds i)
        × (get_elem? arrays.1 i ≡ get_elem? rejected i)
  unfolding step_down
  step_down-apart position stopped thresholds rejected [] i h = (refl, refl)
  step_down-apart position stopped thresholds rejected ((j, value) ∷ more) i h =
      let rest =
        step_down-apart (suc position) _
          (set_elem j (threshold_at F alpha family position) thresholds) _ more i h.1 in
      (
        rest.0 ∙ get_elem?-set_elem_ne j i _ thresholds (λ e. h.0 (sym e)),
        rest.1 ∙ mark_ne _ i j rejected h.0,
      )

  -- What the arrays hold for the hypotheses that the loop has before it.
  record Open (thresholds : List F.Float) (rejected : List Bool) (more : List (ℕ × F.Float))
      : Type 0 where
    pending : Pending rejected more
    inside : All (λ x. x.0 < length thresholds) more

  Open-next :
      (rejects : Bool) (x : ℕ × F.Float) (threshold : F.Float) (thresholds : List F.Float)
      (rejected : List Bool) (more : List (ℕ × F.Float))
      → Open thresholds rejected (x ∷ more)
      → Open (set_elem x.0 threshold thresholds) (mark rejects x.0 rejected) more
  Open-next rejects x threshold thresholds rejected more h = record {
    pending = Pending-mark rejects x rejected more h.pending;
    inside = rw (length-set_elem x.0 threshold thresholds) h.inside.1;
  }

  step_down-at :
      (position : ℕ) (stopped : Bool) (thresholds : List F.Float) (rejected : List Bool)
      (before : List (ℕ × F.Float)) (x : ℕ × F.Float) (later : List (ℕ × F.Float))
      → Open thresholds rejected (before ++ (x ∷ later))
      → let arrays =
          step_down F alpha family position stopped thresholds rejected (before ++ (x ∷ later)) in
        (get_elem? arrays.0 x.0 ≡ some (threshold_at F alpha family (position + length before)))
        × (get_elem? arrays.1 x.0
            ≡ some (not stopped && passes_all passes position (before ++ (x ∷ []))))
  unfolding step_down
  step_down-at position stopped thresholds rejected [] x later h =
      let threshold = threshold_at F alpha family position in
      let rejects = not stopped && passes position x in
      let rest =
        step_down-apart (suc position) (not rejects) (set_elem x.0 threshold thresholds)
          (mark rejects x.0 rejected) later x.0 h.pending.apart.0 in
      let at : position + 0 ≡ position = omega arith in
      (
        rw at (rest.0 ∙ get_elem?-set_elem x.0 threshold thresholds h.inside.0),
        rest.1
            ∙ mark_same rejects x.0 rejected h.pending.inside.0 h.pending.unset.0
            ∙ ap some (one_test stopped (passes position x)),
      )
  step_down-at position stopped thresholds rejected (y ∷ before) x later h =
      let threshold = threshold_at F alpha family position in
      let rejects = not stopped && passes position y in
      let rest =
        step_down-at (suc position) (not rejects) (set_elem y.0 threshold thresholds)
          (mark rejects y.0 rejected) before x later
          (Open-next rejects y threshold thresholds rejected (before ++ (x ∷ later)) h) in
      let at : position + suc (length before) ≡ suc position + length before = omega arith in
      (
        rw at rest.0,
        rest.1
            ∙ ap some (
                more_tests stopped (passes position y)
                  (passes_all passes (suc position) (before ++ (x ∷ [])))),
      )

  decisions-at :
      (values thresholds : List F.Float) (rejected : List Bool) (i : ℕ) {v t : F.Float} {r : Bool}
      → get_elem? values i ≡ some v
      → get_elem? thresholds i ≡ some t
      → get_elem? rejected i ≡ some r
      → get_elem? (decisions F values thresholds rejected) i
        ≡ some record { p_value = v; threshold = t; rejected = r }
  unfolding decisions
  decisions-at [] ts rs i hv ht hr = absurd (cc)
  decisions-at (v ∷ vs) [] rs i hv ht hr = absurd (cc)
  decisions-at (v ∷ vs) (t ∷ ts) [] i hv ht hr = absurd (cc)
  decisions-at (v ∷ vs) (t ∷ ts) (r ∷ rs) zero hv ht hr = cc
  decisions-at (v ∷ vs) (t ∷ ts) (r ∷ rs) (suc i) hv ht hr = decisions-at vs ts rs i hv ht hr

  ranked-IsRanking :
      (values : List F.Float)
      → ((a b : F.Float) → F.lt a b ≡ true → F.lt b a ≡ false)
      → IsRanking (λ a b. F.lt a.1 b.1) values (ranked F values)
  unfolding ranked
  ranked-IsRanking values asym =
      sort_by-IsRanking (λ a b. F.lt a.1 b.1) values (λ x y. asym x.1 y.1)

  -- The abstract decisions.
  pub record IsHolm (values : List F.Float) (decided : List (HolmDecision F)) : Type 0 where
    pub order : List (ℕ × F.Float)
    pub ranking : IsRanking (λ a b. F.lt a.1 b.1) values order
    pub decision :
        (before : List (ℕ × F.Float)) (x : ℕ × F.Float) (later : List (ℕ × F.Float))
        → order ≡ before ++ (x ∷ later)
        → get_elem? decided x.0
          ≡ some record {
            p_value = x.1;
            threshold = threshold_at F alpha family (length before);
            rejected = passes_all passes 0 (before ++ (x ∷ []));
          }

  Open-start :
      (n : ℕ) (order : List (ℕ × F.Float))
      → DistinctBy (λ x. x.0) order
      → All (λ x. x.0 < n) order
      → Open (replicate n (F.decimal 0 1)) (replicate n false) order
  Open-start n order apart inside = record {
    pending = Pending-start n order apart inside;
    inside = rw (length-replicate n (F.decimal 0 1)) inside;
  }

  -- For finite p-values between zero and one, at most as many as the family, a level between zero
  -- and one, and a comparison of floats that is never true both ways, the decisions are returned.
  -- They have an order of all p-values, none after a greater one, in which a p-value has the
  -- threshold of its rank, and is rejected exactly if it and all before it keep their thresholds.
  pub holm_decisions-IsHolm :
      (values : List F.Float)
      → ((a b : F.Float) → F.lt a b ≡ true → F.lt b a ≡ false)
      → length values ≤ family
      → 1 ≤ family
      → (F.lt (F.decimal 0 1) alpha && F.lt alpha (F.decimal 10 1)) ≡ true
      → all (is_p_value F) values ≡ true
      → (decided : List (HolmDecision F)) × (holm_decisions F values family alpha ≡ ok decided)
        × IsHolm values decided
  unfolding holm_decisions
  holm_decisions-IsHolm values asym fits filled alpha_inside p_values =
      let n = length values in
      let order = ranked F values in
      let arrays =
        step_down F alpha family 0 false (replicate n (F.decimal 0 1)) (replicate n false) order in
      let ranking = ranked-IsRanking values asym in
      (
        decisions F values arrays.0 arrays.1,
        rw (ge→ltb family n fits, ge→ltb family 1 filled, alpha_inside, p_values) refl,
        record {
          order = order;
          ranking = ranking;
          decision = λ before x later same.
              let start = Open-start n order ranking.apart ranking.inside in
              let at = step_down-at 0 false _ _ before x later (rw same at start) in
              let from_zero : 0 + length before ≡ length before = omega arith in
              decisions-at values arrays.0 arrays.1 x.0
                (All-middle (λ y. get_elem? values y.0 ≡ some y.1) before x later
                  (rw same at ranking.placed))
                (rw same (rw from_zero at at.0)) (rw same at.1);
        },
      )

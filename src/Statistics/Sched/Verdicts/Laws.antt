-- ===== src/Statistics/Sched/Verdicts/Laws.antt =====
-- What the corrected verdicts of research/linux-sched/analysis/sched_analysis.py mean.
use k8labs.Base.{ℕ, suc, ◌+◌, ◌<◌, Bool, false, not, ◌&&◌, some, List}
use k8labs.Base.{[], ◌∷◌, ◌++◌, map, Floats, ok, ◌≡◌, ◌≢◌, refl, ap, sym, ◌∙◌, arith}
use k8labs.Base.{length, All, get_elem?, set_elem, get_elem?-set_elem, get_elem?-set_elem_ne}
use k8labs.Base.{length-set_elem, DistinctBy, enumerate, ok-injective}
use k8labs.Base.{>>=-eq-ok, demand, demand-eq-ok, is_empty, Bool-cases, inl, inr}
use k8labs.Base.{All-map, length-map, ◌≤◌}
use k8labs.Statistics.StepDown.{enumerate-inside, enumerate-apart}
use k8labs.Statistics.Sched.{no_element, Decision, holm_step_down}
use k8labs.Statistics.Sched.Verdicts.{Comparison, label, tested_of, tost_of, verdict_of, assign}
use k8labs.Statistics.Sched.Verdicts.{corrected, holm_decisions}

is_empty-middle {ℓ} :
    {A : Type ℓ} (before : List A) (x : A) (later : List A)
    → is_empty (before ++ (x ∷ later)) ≡ false
is_empty-middle [] x later = refl
is_empty-middle (y ∷ before) x later = refl

module _ (F : Floats) where
  tested_of-All :
      (P : ℕ × Comparison F → Type 0) (cs : List (ℕ × Comparison F))
      → All P cs
      → All P (tested_of F cs)
  unfolding tested_of
  tested_of-All P [] h = tt
  tested_of-All P (c ∷ more) h =
      elim (Bool-cases (not c.1.is_descriptive && not c.1.is_incomplete)) [
        | inl tested ↦ rw tested (h.0, tested_of-All P more h.1)
        | inr apart ↦ rw apart (tested_of-All P more h.1)
      ]

  tested_of-DistinctBy :
      (cs : List (ℕ × Comparison F))
      → DistinctBy (λ c. c.0) cs
      → DistinctBy (λ c. c.0) (tested_of F cs)
  unfolding tested_of
  tested_of-DistinctBy [] h = tt
  tested_of-DistinctBy (c ∷ more) h =
      elim (Bool-cases (not c.1.is_descriptive && not c.1.is_incomplete)) [
        | inl tested ↦
            rw tested (tested_of-All (λ d. c.0 ≢ d.0) more h.0, tested_of-DistinctBy more h.1)
        | inr apart ↦ rw apart (tested_of-DistinctBy more h.1)
      ]

module _ (F : Floats) (log negate : F.Float → F.Float) (no_effect tost : List Bool) where
  -- The indexes that are not to come keep their labels.
  assign-apart :
      (position : ℕ) (more : List (ℕ × Comparison F)) (decisions : List Decision)
      {told : List Decision} (i : ℕ)
      → All (λ c. i ≢ c.0) more
      → assign F log negate no_effect tost position more decisions ≡ ok told
      → get_elem? told i ≡ get_elem? decisions i
  unfolding assign
  assign-apart position [] decisions i apart h = ap (λ l. get_elem? l i) (sym (ok-injective h))
  assign-apart position (c ∷ more) decisions i apart h =
      let (rejects, _, h1) = >>=-eq-ok (demand (get_elem? no_effect position) no_element) _ h in
      let (equal, _, h2) = >>=-eq-ok (demand (get_elem? tost position) no_element) _ h1 in
      assign-apart (suc position) more _ i apart.1 h2
      ∙ get_elem?-set_elem_ne c.0 i _ decisions (λ e. apart.0 (sym e))

  assign-at :
      (position : ℕ) (before : List (ℕ × Comparison F)) (c : ℕ × Comparison F)
      (later : List (ℕ × Comparison F)) (decisions : List Decision) {told : List Decision}
      → DistinctBy (λ d. d.0) (before ++ (c ∷ later))
      → All (λ d. d.0 < length decisions) (before ++ (c ∷ later))
      → assign F log negate no_effect tost position (before ++ (c ∷ later)) decisions ≡ ok told
      → (rejects : Bool) × (equal : Bool) × (get_elem? no_effect (position + length before)
          ≡ some rejects)
        × (get_elem? tost (position + length before) ≡ some equal)
        × (get_elem? told c.0 ≡ some (verdict_of F log negate c.1 rejects equal))
  unfolding assign
  assign-at position [] c later decisions apart inside h =
      let (rejects, first, h1) = >>=-eq-ok (demand (get_elem? no_effect position) no_element) _ h in
      let (equal, second, h2) = >>=-eq-ok (demand (get_elem? tost position) no_element) _ h1 in
      let at : position + 0 ≡ position = omega arith in
      (
        rejects,
        equal,
        rw at (demand-eq-ok _ no_element first),
        rw at (demand-eq-ok _ no_element second),
        assign-apart (suc position) later _ c.0 apart.0 h2
            ∙ get_elem?-set_elem c.0 _ decisions inside.0,
      )
  assign-at position (d ∷ before) c later decisions apart inside h =
      let (rejects, _, h1) = >>=-eq-ok (demand (get_elem? no_effect position) no_element) _ h in
      let (equal, _, h2) = >>=-eq-ok (demand (get_elem? tost position) no_element) _ h1 in
      let at : position + suc (length before) ≡ suc position + length before = omega arith in
      rw at (
        assign-at (suc position) before c later
          (set_elem d.0 (verdict_of F log negate d.1 rejects equal) decisions) apart.1
          (rw (length-set_elem d.0 (verdict_of F log negate d.1 rejects equal) decisions) inside.1)
          h2)

module _ (F : Floats) (inv_cdf log absolute negate : F.Float → F.Float) where
  -- The outcome of the two corrected tests for the tested contrast at a position, and the verdict
  -- at its index.
  pub record IsVerdict (tested : List (ℕ × Comparison F)) (alpha : F.Float) (position : ℕ)
      (c : ℕ × Comparison F) (told : List Decision) : Type 0 where
    pub no_effect : List Bool
    pub tost : List Bool
    pub no_effect_tests :
        holm_step_down F inv_cdf
          (map (λ d. absolute d.1.t_two) tested)
          (map (λ d. d.1.df) tested)
          alpha
          2
          (some 10)
        ≡ ok no_effect
    pub tost_tests :
        holm_step_down F inv_cdf
          (map (λ d. tost_of F negate d.1) tested)
          (map (λ d. d.1.df) tested)
          alpha
          1
          (some 10)
        ≡ ok tost
    pub rejects : Bool
    pub equal : Bool
    pub rejected : get_elem? no_effect position ≡ some rejects
    pub equivalence : get_elem? tost position ≡ some equal
    pub verdict : get_elem? told c.0 ≡ some (verdict_of F log negate c.1 rejects equal)

  corrected-IsVerdict :
      (alpha : F.Float) (before : List (ℕ × Comparison F)) (c : ℕ × Comparison F)
      (later : List (ℕ × Comparison F)) (decisions : List Decision) {told : List Decision}
      → DistinctBy (λ d. d.0) (before ++ (c ∷ later))
      → All (λ d. d.0 < length decisions) (before ++ (c ∷ later))
      → corrected F inv_cdf log absolute negate alpha (before ++ (c ∷ later)) decisions ≡ ok told
      → IsVerdict (before ++ (c ∷ later)) alpha (length before) c told
  unfolding corrected
  corrected-IsVerdict alpha before c later decisions apart inside h =
      let (no_effect, first, h1) = >>=-eq-ok _ _ h in
      let (tost, second, h2) = >>=-eq-ok _ _ h1 in
      let (rejects, equal, at, same_at, verdict) =
        assign-at F log negate no_effect tost 0 before c later decisions apart inside h2 in
      let from_zero : 0 + length before ≡ length before = omega arith in
      record {
        no_effect = no_effect;
        tost = tost;
        no_effect_tests = first;
        tost_tests = second;
        rejects = rejects;
        equal = equal;
        rejected = rw from_zero at at;
        equivalence = rw from_zero at same_at;
        verdict = verdict;
      }

  -- Where verdicts are returned, both tests were corrected over all tested contrasts and the
  -- planned family of ten, and a contrast is told the verdict of its own numbers and of its own
  -- place in the two tests.
  pub holm_decisions-IsVerdict :
      (comparisons : List (Comparison F)) (alpha : F.Float) (before : List (ℕ × Comparison F))
      (c : ℕ × Comparison F) (later : List (ℕ × Comparison F)) (told : List Decision)
      → tested_of F (enumerate 0 comparisons) ≡ before ++ (c ∷ later)
      → holm_decisions F inv_cdf log absolute negate comparisons alpha ≡ ok told
      → IsVerdict (before ++ (c ∷ later)) alpha (length before) c told
  unfolding holm_decisions tested_of
  holm_decisions-IsVerdict [] alpha before c later told same h =
      absurd (cc (ap is_empty same, is_empty-middle before c later))
  holm_decisions-IsVerdict (first ∷ more) alpha before c later told same h =
      let comparisons = first ∷ more in
      let not_empty : is_empty (before ++ (c ∷ later)) ≡ false = is_empty-middle before c later in
      let apart =
        tested_of-DistinctBy F (enumerate 0 comparisons) (enumerate-apart 0 comparisons) in
      let inside =
        tested_of-All F (λ d. d.0 < length (map (label F) comparisons)) (enumerate 0 comparisons)
          (All-map (λ d. (0 ≤ d.0) × (d.0 < 0 + length comparisons))
            (λ d. d.0 < length (map (label F) comparisons)) (enumerate 0 comparisons)
            (λ d bound. omega (arith, bound.1, length-map (label F) comparisons))
            (enumerate-inside 0 comparisons)) in
      corrected-IsVerdict alpha before c later (map (label F) comparisons) (rw same at apart)
        (rw same at inside) (rw (same, not_empty) at h)

-- ===== src/Statistics/Sched/Laws.antt =====
-- `_holm_step_down` of research/linux-sched/analysis/sched_analysis.py refines the abstract
-- step-down rule.
use k8labs.Base.{ℕ, suc, ◌+◌, ◌<◌, Bool, true, false, Option, some}
use k8labs.Base.{List, [], ◌∷◌, ◌++◌, ◌≡◌, ◌≢◌, refl, ap, sym, ◌∙◌, arith, length, All, Floats}
use k8labs.Base.{Result, ok, raise, Result-cases, Bool-cases, inl, inr}
use k8labs.Base.{get_elem?, set_elem}
use k8labs.Base.{replicate, enumerate, ok-injective, All-middle, length-sort_by, length-enumerate}
use k8labs.Statistics.StepDown.{mark_ne, mark_same, Pending, Pending-mark, Pending-start}
use k8labs.Statistics.StepDown.{passes_all, IsStepDown, IsRanking, sort_by-IsRanking}
use k8labs.Statistics.Sched.{SchedError, critical_at, reject, order_of, family_of}
use k8labs.Statistics.Sched.{holm_step_down}

-- The test of a score against the critical value that was found for it.
abbrev pub is_above : (F : Floats) → F.Float → Result SchedError F.Float → Bool
is_above F score (raise e) = false
is_above F score (ok critical) = F.le critical score

module _ (F : Floats) (inv_cdf : F.Float → F.Float) (dfs : List ℕ) (alpha : F.Float)
    (sided m : ℕ) where
  -- The test of the loop; its positions are counted from 1.
  abbrev pub passes : ℕ → ℕ × F.Float → Bool
  passes position x = is_above F x.1 (critical_at F inv_cdf dfs alpha sided m (suc position) x.0)

  -- The first `k` positions have a critical value for each index.
  abbrev pub HasCritical : ℕ → Type 0
  HasCritical k =
      (position index : ℕ)
      → position < k
      → index < length dfs
      → (critical : F.Float) × (critical_at F inv_cdf dfs alpha sided m (suc position) index
          ≡ ok critical)

  reject-total :
      (position : ℕ) (rejected : List Bool) (more : List (ℕ × F.Float))
      → HasCritical (position + length more)
      → All (λ x. x.0 < length dfs) more
      → (verdicts : List Bool) × (reject F inv_cdf dfs alpha sided m (suc position) rejected more
          ≡ ok verdicts)
  unfolding reject
  reject-total position rejected [] has inside = (rejected, refl)
  reject-total position rejected (x ∷ more) has inside =
      let (critical, found) = has position x.0 (omega arith) inside.0 in
      let (verdicts, rest) =
        reject-total (suc position) (set_elem x.0 true rejected) more
          (λ p i below. has p i (omega (arith, below))) inside.1 in
      elim (Bool-cases (F.le critical x.1)) [
        | inl above ↦ (verdicts, rw (found, above) rest)
        | inr below ↦ (rejected, rw (found, below) refl)
      ]

  reject-apart :
      (position : ℕ) (rejected : List Bool) (more : List (ℕ × F.Float)) {verdicts : List Bool}
      (i : ℕ)
      → All (λ x. i ≢ x.0) more
      → reject F inv_cdf dfs alpha sided m position rejected more ≡ ok verdicts
      → get_elem? verdicts i ≡ get_elem? rejected i
  unfolding reject
  reject-apart position rejected [] {verdicts = verdicts} i apart h =
      ap (λ l. get_elem? l i) (sym (ok-injective h))
  reject-apart position rejected (x ∷ more) {verdicts = verdicts} i apart h =
      elim (Result-cases (critical_at F inv_cdf dfs alpha sided m position x.0)) [
        | inl (critical, found) ↦ elim (Bool-cases (F.le critical x.1)) [
          | inl above ↦
              reject-apart (suc position) (set_elem x.0 true rejected) more i apart.1
                (rw (found, above) at h)
              ∙ mark_ne true i x.0 rejected apart.0
          | inr below ↦ ap (λ l. get_elem? l i) (sym (ok-injective (rw (found, below) at h)))
        ]
        | inr (error, found) ↦ absurd (cc (rw found at h))
      ]

  reject-at :
      (position : ℕ) (rejected : List Bool) (before : List (ℕ × F.Float)) (x : ℕ × F.Float)
      (later : List (ℕ × F.Float)) {verdicts : List Bool}
      → Pending rejected (before ++ (x ∷ later))
      → reject F inv_cdf dfs alpha sided m (suc position) rejected (before ++ (x ∷ later))
        ≡ ok verdicts
      → get_elem? verdicts x.0 ≡ some (passes_all passes position (before ++ (x ∷ [])))
  unfolding reject
  reject-at position rejected [] x later pending h =
      elim (Result-cases (critical_at F inv_cdf dfs alpha sided m (suc position) x.0)) [
        | inl (critical, found) ↦ elim (Bool-cases (F.le critical x.1)) [
          | inl above ↦
              rw (found, above)
                (reject-apart (suc (suc position)) (set_elem x.0 true rejected) later x.0
                    pending.apart.0 (rw (found, above) at h)
                  ∙ mark_same true x.0 rejected pending.inside.0 pending.unset.0)
          | inr below ↦
              let kept = ok-injective (rw (found, below) at h) in
              rw (found, below) (ap (λ l. get_elem? l x.0) (sym kept) ∙ pending.unset.0)
        ]
        | inr (error, found) ↦ absurd (cc (rw found at h))
      ]
  reject-at position rejected (y ∷ before) x later pending h =
      elim (Result-cases (critical_at F inv_cdf dfs alpha sided m (suc position) y.0)) [
        | inl (critical, found) ↦ elim (Bool-cases (F.le critical y.1)) [
          | inl above ↦
              rw (found, above)
                (reject-at (suc position) (set_elem y.0 true rejected) before x later
                  (Pending-mark true y rejected (before ++ (x ∷ later)) pending)
                  (rw (found, above) at h))
          | inr below ↦
              let kept = ok-injective (rw (found, below) at h) in
              let unset =
                All-middle (λ z. get_elem? rejected z.0 ≡ some false) before x later
                  pending.unset.1 in
              rw (found, below) (ap (λ l. get_elem? l x.0) (sym kept) ∙ unset)
        ]
        | inr (error, found) ↦ absurd (cc (rw found at h))
      ]

order-IsRanking :
    (F : Floats) (scores : List F.Float)
    → ((a b : F.Float) → F.lt a b ≡ true → F.lt b a ≡ false)
    → IsRanking (λ a b. F.lt b.1 a.1) scores (order_of F scores)
order-IsRanking F scores asym = sort_by-IsRanking (λ a b. F.lt b.1 a.1) scores (λ x y. asym y.1 x.1)

module _ (F : Floats) (inv_cdf : F.Float → F.Float) where
  -- Where each rank among the scores has a critical value for each index, and no comparison of
  -- floats is true both ways, the loop with its early end returns, and its verdicts are those of
  -- the step-down rule: some order of all scores has none after a smaller one, and a hypothesis is
  -- rejected exactly if its score and all before it reach their critical values.
  pub holm_step_down-IsStepDown :
      (scores : List F.Float) (dfs : List ℕ) (alpha : F.Float) (sided : ℕ) (family_size : Option ℕ)
      → ((a b : F.Float) → F.lt a b ≡ true → F.lt b a ≡ false)
      → length dfs ≡ length scores
      → HasCritical F inv_cdf dfs alpha sided
          (family_of family_size (length scores))
          (length scores)
      → (verdicts : List Bool) × (order : List (ℕ × F.Float)) × (holm_step_down F inv_cdf scores dfs
            alpha sided family_size
          ≡ ok verdicts)
        × IsRanking (λ a b. F.lt b.1 a.1) scores order
        × IsStepDown
            (passes F inv_cdf dfs alpha sided (family_of family_size (length scores)))
            order
            verdicts
  unfolding holm_step_down
  holm_step_down-IsStepDown scores dfs alpha sided family_size asym same has =
      let m = family_of family_size (length scores) in
      let order = order_of F scores in
      let start = replicate (length scores) false in
      let ranking = order-IsRanking F scores asym in
      let all : 0 + length order ≡ length scores = omega (
        arith,
        length-sort_by (λ a b. F.lt b.1 a.1) (enumerate 0 scores),
        length-enumerate 0 scores,
      ) in
      let (verdicts, returned) =
        reject-total F inv_cdf dfs alpha sided m 0 start order (rw all has)
          (rw same ranking.inside) in
      (
        verdicts,
        order,
        returned,
        ranking,
        λ before x later e.
            let pending = Pending-start (length scores) order ranking.apart ranking.inside in
            reject-at F inv_cdf dfs alpha sided m 0 start before x later (rw e at pending)
              (rw e at returned),
      )

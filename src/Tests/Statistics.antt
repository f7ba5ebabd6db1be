-- ===== src/Tests/Statistics.antt =====
-- Holm corrections of two and of three hypotheses.
use k8labs.Base.{ℕ, zero, suc, List, [], ◌∷◌, ◌≡◌, refl, arith, ok, true, false, Bool}
use k8labs.Base.{none, ltb}
use k8labs.Tests.Numbers.{thousandths}
use k8labs.Statistics.{holm_decisions, HolmDecision}
use k8labs.Statistics.Laws.{IsHolm, holm_decisions-IsHolm}
use k8labs.Statistics.Sched.{holm_step_down, critical_at}
use k8labs.Statistics.Sched
use k8labs.Statistics.Sched.{Decision}
use k8labs.Statistics.Sched.Verdicts
use k8labs.Statistics.Sched.Verdicts.{Comparison}
use k8labs.Statistics.Sched.Verdicts.Laws.{IsVerdict, holm_decisions-IsVerdict}
use k8labs.Statistics.Sched.Laws.{passes, HasCritical, holm_step_down-IsStepDown}
use k8labs.Statistics.StepDown.{IsRanking, IsStepDown}

below_one_way : (a b : ℕ) → ltb a b ≡ true → ltb b a ≡ false
below_one_way a b h = ground arith

abbrev p_values : List ℕ
p_values = 30 ∷ 10 ∷ 40 ∷ []

holm_decisions-IsHolm_example :
    (decided : List (HolmDecision thousandths)) × (holm_decisions thousandths p_values 3 50
      ≡ ok decided)
    × IsHolm thousandths 50 3 p_values decided
holm_decisions-IsHolm_example =
    holm_decisions-IsHolm thousandths 50 3 p_values below_one_way (omega arith) (omega arith) refl
      refl

abbrev same : ℕ → ℕ
same x = x

abbrev degrees : List ℕ
degrees = 9 ∷ 8 ∷ []

has_critical : HasCritical thousandths same degrees 50 2 2 2
unfolding critical_at Sched.t_ppf
has_critical zero zero below inside = (_, refl)
has_critical zero (suc zero) below inside = (_, refl)
has_critical (suc zero) zero below inside = (_, refl)
has_critical (suc zero) (suc zero) below inside = (_, refl)
has_critical (suc (suc position)) index below inside = absurd (omega (arith, below))
has_critical position (suc (suc index)) below inside = absurd (omega (arith, inside))

abbrev scores : List ℕ
scores = 2000 ∷ 4000 ∷ []

holm_step_down-IsStepDown_example :
    (verdicts : List Bool) × (order : List (ℕ × ℕ)) × (holm_step_down thousandths same scores
        degrees 50 2 none
      ≡ ok verdicts)
    × IsRanking (λ a b. ltb b.1 a.1) scores order
    × IsStepDown (passes thousandths same degrees 50 2 2) order verdicts
holm_step_down-IsStepDown_example =
    holm_step_down-IsStepDown thousandths same scores degrees 50 2 none below_one_way refl
      has_critical

abbrev nothing : ℕ → ℕ
nothing x = 0

abbrev contrast : Bool → ℕ → Comparison thousandths
contrast is_descriptive t = record {
  is_incomplete = false;
  is_descriptive = is_descriptive;
  df = 9;
  t_two = t;
  t_lower = 0;
  t_upper = 0;
  average = 2000;
  effect = none;
}

abbrev contrasts : List (Comparison thousandths)
contrasts = contrast true 9000 ∷ contrast false 9000 ∷ []

abbrev told : List Decision
told = Decision.descriptive ∷ Decision.improvement ∷ []

verdicts : Verdicts.holm_decisions thousandths same same same nothing contrasts 50 ≡ ok told
unfolding Verdicts.holm_decisions Verdicts.tested_of Verdicts.corrected holm_step_down Sched.reject
    k8labs.Base.sort_by k8labs.Base.insert_by critical_at Sched.t_ppf Verdicts.assign
verdicts = refl

holm_decisions-IsVerdict_example :
    IsVerdict thousandths same same same nothing
      ((1, contrast false 9000) ∷ [])
      50
      0
      (1, contrast false 9000)
      told
unfolding Verdicts.tested_of
holm_decisions-IsVerdict_example =
    holm_decisions-IsVerdict thousandths same same same nothing contrasts 50 []
      (1, contrast false 9000) [] told refl verdicts

-- ===== src/Campaign/Laws.antt =====
-- What a plan of research/cpu-limits/phase8/campaign/campaign.py promises, over any shuffle that
-- permutes.
use k8labs.Base.{ok-injective}
use k8labs.Base.{ℕ, suc, zero, ◌-◌, ◌*◌, ◌/◌, ◌≤◌, Bool, true, false, not, ◌&&◌, List, [], ◌∷◌}
use k8labs.Base.{map, ◌≡◌}
use k8labs.Base.{arith, ltb, ltb→ge, All, All-append, Any, length, length-append, take}
use k8labs.Base.{length-take-le, Comparable, if◌then◌else◌, ok, refl, ap}
use k8labs.Base.{>>=-eq-ok, >>-eq-ok, refuse-eq-ok, refuse, ◌∙◌, sym, inl, inr}
use mathlib.Core.Path.{subst}
use mathlib.Core.List.{Perm}
use mathlib.Core.List.Perm
use k8labs.Base.{drop, take-drop, ◌++◌}
use native.Mathlib.Nat.{le-div_iff_mul-le}
use k8labs.Campaign.{CampaignConfig, Design, full, fractional, Factor, CampaignPlan, full_cells_of}
use k8labs.Campaign.{product, with_each, check_arguments, choose_cells, plan_campaign}
use k8labs.Campaign.{shuffle_tail}

within_budget :
    {total cap : ℕ} {confirmed : Bool}
    → confirmed ≡ false
    → (ltb cap total && not confirmed) ≡ false
    → total ≤ cap
within_budget {total} {cap} {confirmed} e h = ground arith

module _ {A : Type 0} where
  left-Any : (P : A → Type 0) (xs ys : List A) → Any P xs → Any P (xs ++ ys)
  left-Any P [] ys h = elim h [ ]
  left-Any P (x ∷ xs) ys (inl h) = inl h
  left-Any P (x ∷ xs) ys (inr h) = inr (left-Any P xs ys h)

  right-Any : (P : A → Type 0) (xs ys : List A) → Any P ys → Any P (xs ++ ys)
  right-Any P [] ys h = h
  right-Any P (x ∷ xs) ys h = inr (right-Any P xs ys h)

module _ {V : Type 0} where
  -- What the models use of `random.shuffle`: it loses and makes up no cell.
  pub record Permutes (shuffle : ℕ → List (List V) → List (List V)) : Type 1 where
    pub length_kept : (seed : ℕ) (l : List (List V)) → length (shuffle seed l) ≡ length l
    pub kept :
        (P : List V → Type 0) (seed : ℕ) (l : List (List V)) → All P l → All P (shuffle seed l)
    pub permutes : (seed : ℕ) (l : List (List V)) → Perm (shuffle seed l) l

  -- One level of each factor, in the order of the factors.
  abbrev pub OneOfEach : List (Factor V) → List V → Type 0
  OneOfEach [] [] = Unit
  OneOfEach (f ∷ fs) (level ∷ cell) = Any (λ l. l ≡ level) f.levels × OneOfEach fs cell
  OneOfEach _ _ = ⊥

  length-map_cons : (v : V) (l : List (List V)) → length (map (λ cell. v ∷ cell) l) ≡ length l
  length-map_cons v [] = refl
  length-map_cons v (cell ∷ l) = ap suc (length-map_cons v l)

  length-with_each :
      (levels : List V) (tails : List (List V))
      → length (with_each levels tails) ≡ length levels * length tails
  length-with_each [] tails = omega arith
  length-with_each (v ∷ levels) tails =
      let joined = length-append (map (λ cell. v ∷ cell) tails) (with_each levels tails) in
      let first = length-map_cons v tails in let rest = length-with_each levels tails in omega arith

  pub length-product :
      (factors : List (Factor V)) → length (product factors) ≡ full_cells_of factors
  unfolding product full_cells_of
  length-product [] = refl
  length-product (f ∷ fs) =
      length-with_each f.levels (product fs) ∙ ap (λ n. length f.levels * n) (length-product fs)

  with_each-OneOfEach :
      (fs : List (Factor V)) (f : Factor V) (levels : List V) (tails : List (List V))
      → ((v : V) → Any (λ l. l ≡ v) levels → Any (λ l. l ≡ v) f.levels)
      → All (OneOfEach fs) tails
      → All (OneOfEach (f ∷ fs)) (with_each levels tails)
  with_each-OneOfEach fs f [] tails among h = tt
  with_each-OneOfEach fs f (v ∷ levels) tails among h =
      All-append (OneOfEach (f ∷ fs)) (map (λ cell. v ∷ cell) tails) (with_each levels tails)
        (headed tails h) (with_each-OneOfEach fs f levels tails (λ w m. among w (inr m)) h)
    where
      headed :
          (l : List (List V))
          → All (OneOfEach fs) l
          → All (OneOfEach (f ∷ fs)) (map (λ cell. v ∷ cell) l)
      headed [] h' = tt
      headed (cell ∷ l) h' = ((among v (inl refl), h'.0), headed l h'.1)

  pub product-OneOfEach : (factors : List (Factor V)) → All (OneOfEach factors) (product factors)
  unfolding product
  product-OneOfEach [] = (tt, tt)
  product-OneOfEach (f ∷ fs) =
      with_each-OneOfEach fs f f.levels (product fs) (λ v m. m) (product-OneOfEach fs)

  with_each-Any :
      (cell : List V) (level : V) (levels : List V) (tails : List (List V))
      → Any (λ l. l ≡ level) levels
      → Any (λ t. t ≡ cell) tails
      → Any (λ c. c ≡ level ∷ cell) (with_each levels tails)
  with_each-Any cell level [] tails h k = elim h [ ]
  with_each-Any cell level (v ∷ levels) tails (inl h) k =
      left-Any _ (map (λ t. v ∷ t) tails) (with_each levels tails) (headed tails k)
    where
      headed :
          (ts : List (List V))
          → Any (λ t. t ≡ cell) ts
          → Any (λ c. c ≡ level ∷ cell) (map (λ t. v ∷ t) ts)
      headed [] k' = elim k' [ ]
      headed (t ∷ ts) (inl e) = inl (rw (h, e) refl)
      headed (t ∷ ts) (inr k') = inr (headed ts k')
  with_each-Any cell level (v ∷ levels) tails (inr h) k =
      right-Any _ (map (λ t. v ∷ t) tails) (with_each levels tails)
        (with_each-Any cell level levels tails h k)

  -- Every choice of one level of each factor is a cell of the product.
  pub product-Any :
      (factors : List (Factor V)) (cell : List V)
      → OneOfEach factors cell
      → Any (λ c. c ≡ cell) (product factors)
  unfolding product
  product-Any [] [] h = inl refl
  product-Any [] (level ∷ cell) h = absurd h
  product-Any (f ∷ fs) [] h = absurd h
  product-Any (f ∷ fs) (level ∷ cell) h =
      with_each-Any cell level f.levels (product fs) h.0 (product-Any fs cell h.1)

  All-take : (P : List V → Type 0) (n : ℕ) (l : List (List V)) → All P l → All P (take n l)
  All-take P zero l h = tt
  All-take P (suc n) [] h = tt
  All-take P (suc n) (x ∷ l) h = (h.0, All-take P n l h.1)

module _ {V : Type 0} (shuffle : ℕ → List (List V) → List (List V)) (perm : Permutes shuffle) where
  length-shuffle_tail :
      (seed : ℕ) (l : List (List V)) → length (shuffle_tail shuffle seed l) ≡ length l
  length-shuffle_tail seed [] = refl
  length-shuffle_tail seed (x ∷ l) = ap suc (perm.length_kept seed l)

  All-shuffle_tail :
      (P : List V → Type 0) (seed : ℕ) (l : List (List V))
      → All P l
      → All P (shuffle_tail shuffle seed l)
  All-shuffle_tail P seed [] h = tt
  All-shuffle_tail P seed (x ∷ l) h = (h.0, perm.kept P seed l h.1)

  choose_cells-All :
      (P : List V → Type 0) (b : Bool) (seed n : ℕ) (l : List (List V)) {cells : List (List V)}
      → choose_cells shuffle b seed n l ≡ ok cells
      → All P l
      → All P cells
  unfolding choose_cells
  choose_cells-All P false seed n l {cells} h each =
      let e : l ≡ cells = ground arith in subst (All P) e each
  choose_cells-All P true seed n [] h each = absurd (cc)
  choose_cells-All P true seed n (x ∷ l) {cells} h each =
      let (wide, h1) = >>-eq-ok (refuse (ltb n 2) _) _ h in
      let e : x ∷ take (n - 1) (shuffle seed l) ≡ cells = ground (arith, h1) in
      subst (All P) e (each.0, All-take P (n - 1) (shuffle seed l) (perm.kept P seed l each.1))

  choose_cells-full :
      (seed n : ℕ) (l : List (List V)) {cells : List (List V)}
      → choose_cells shuffle false seed n l ≡ ok cells
      → length cells ≡ length l
  unfolding choose_cells
  choose_cells-full seed n l {cells} h = let e : l ≡ cells = ground arith in ap length (sym e)

  choose_cells-fractional :
      (seed n : ℕ) (l : List (List V)) {cells : List (List V)}
      → choose_cells shuffle true seed n l ≡ ok cells
      → (length cells ≤ n) × (1 ≤ length cells)
  unfolding choose_cells
  choose_cells-fractional seed n [] h = absurd (cc)
  choose_cells-fractional seed n (x ∷ l) {cells} h =
      let (wide, h1) = >>-eq-ok (refuse (ltb n 2) _) _ h in
      let e : x ∷ take (n - 1) (shuffle seed l) ≡ cells = ground (arith, h1) in
      let few = length-take-le (n - 1) (shuffle seed l) in
      let two = ltb→ge n 2 (refuse-eq-ok _ _ wide) in
      subst (λ c. (length c ≤ n) × (1 ≤ length c)) e (omega arith, omega arith)

  -- What a plan promises of its design.
  abbrev pub Fits : Design → List (List V) → List (List V) → ℕ → ℕ → Type 0
  Fits full cells every total cap = Perm cells every
  Fits fractional cells every total cap =
      (total ≤ cap)
      × (baseline : List V) × (others rest left : List (List V)) × (every ≡ baseline ∷ others)
      × (cells ≡ baseline ∷ rest)
      × Perm (cells ++ left) every

  pub record IsPlan (factors : List (Factor V)) (config : CampaignConfig) (plan : CampaignPlan V)
      : Type 0 where
    pub trials : plan.total_trials ≡ length plan.cells * config.repetitions
    pub budget : config.confirmed ≡ false → plan.total_trials ≤ config.budget_cap
    pub cells_of : All (OneOfEach factors) plan.cells
    pub full_is : plan.full_cells ≡ length (product factors)
    pub complete : (cell : List V) → OneOfEach factors cell → Any (λ c. c ≡ cell) (product factors)
    pub design : Fits plan.design plan.cells (product factors) plan.total_trials config.budget_cap

  abbrev shuffled : Bool → ℕ → List (List V) → List (List V)
  shuffled b seed cells = if b then shuffle_tail shuffle seed cells else shuffle seed cells

  length-shuffled :
      (b : Bool) (seed : ℕ) (l : List (List V)) → length (shuffled b seed l) ≡ length l
  length-shuffled true seed l = length-shuffle_tail seed l
  length-shuffled false seed l = perm.length_kept seed l

  All-shuffled :
      (P : List V → Type 0) (b : Bool) (seed : ℕ) (l : List (List V))
      → All P l
      → All P (shuffled b seed l)
  All-shuffled P true seed l h = All-shuffle_tail P seed l h
  All-shuffled P false seed l h = perm.kept P seed l h

  choose_cells-Fits :
      (b : Bool) (seed reps cap : ℕ) (every : List (List V)) {cells : List (List V)}
      → 1 ≤ reps
      → choose_cells shuffle b seed (cap / reps) every ≡ ok cells
      → Fits
          (if b then fractional else full)
          (shuffled b seed cells)
          every
          (length cells * reps)
          cap
  unfolding choose_cells
  choose_cells-Fits false seed reps cap every {cells} some_rep h =
      let e : every ≡ cells = ground arith in
      subst (λ c. Perm (shuffle seed c) every) e (perm.permutes seed every)
  choose_cells-Fits true seed reps cap [] some_rep h = absurd (cc)
  choose_cells-Fits true seed reps cap (x ∷ l) {cells} some_rep h =
      let n = cap / reps in
      let (few, _) = choose_cells-fractional seed n (x ∷ l) h in
      let (_, h1) = >>-eq-ok (refuse (ltb n 2) _) _ h in
      let mixed = shuffle seed l in
      let front = take (n - 1) mixed in
      let e : x ∷ front ≡ cells = ground (arith, h1) in
      let whole : Perm (front ++ drop (n - 1) mixed) l =
        subst (λ m. Perm m l) (sym (take-drop (n - 1) mixed)) (perm.permutes seed l) in
      (
        (le-div_iff_mul-le some_rep).0 few,
        x,
        l,
        shuffle seed front,
        drop (n - 1) mixed,
        refl,
        ap (shuffle_tail shuffle seed) (sym e),
        subst (λ c. Perm (shuffle_tail shuffle seed c ++ drop (n - 1) mixed) (x ∷ l)) e
            (Perm.cons x (
              Perm.trans (Perm.append_right (drop (n - 1) mixed) (perm.permutes seed front))
                whole)),
      )

  module _ ⦃c : Comparable V⦄ where
    check_arguments-reps :
        (factors : List (Factor V)) (config : CampaignConfig)
        → check_arguments factors config ≡ ok tt
        → 1 ≤ config.repetitions
    unfolding check_arguments
    check_arguments-reps factors config h =
        let (some_rep, _) = >>-eq-ok (refuse (ltb config.repetitions 1) _) _ h in
        ltb→ge config.repetitions 1 (refuse-eq-ok _ _ some_rep)

    -- A plan runs each of its cells as often as the configuration says, spends no more than the
    -- budget unless that was confirmed, and takes one level of each factor for every cell. The cells
    -- of a full design are a permutation of the product of the levels, which has every such choice;
    -- those of a fractional one fit the budget in any case, begin with the first of the product, and
    -- are cells of the product with others left out.
    pub plan_campaign-IsPlan :
        (factors : List (Factor V)) (config : CampaignConfig) {plan : CampaignPlan V}
        → plan_campaign shuffle factors config ≡ ok plan
        → IsPlan factors config plan
    unfolding plan_campaign
    plan_campaign-IsPlan factors config {plan} h =
        let b =
          ltb config.budget_cap (full_cells_of factors * config.repetitions)
          && config.allow_fractional in
        let max_cells = config.budget_cap / config.repetitions in
        let (checked, h1) = >>-eq-ok (check_arguments factors config) _ h in
        let (cells, chosen, h2) =
          >>=-eq-ok (choose_cells shuffle b config.seed max_cells (product factors)) _ h1 in
        let total = length cells * config.repetitions in
        let (within, h3) =
          >>-eq-ok (refuse (ltb config.budget_cap total && not config.confirmed) _) _ h2 in
        let some_rep = check_arguments-reps factors config checked in
        let e = ok-injective h3 in
        let same = length-shuffled b config.seed cells in
        let each =
          choose_cells-All (OneOfEach factors) b config.seed max_cells (product factors) chosen
            (product-OneOfEach factors) in
        subst (IsPlan factors config) e (record {
          trials = ap (λ n. n * config.repetitions) (sym same);
          budget = λ not_confirmed. within_budget not_confirmed (refuse-eq-ok _ _ within);
          cells_of = All-shuffled (OneOfEach factors) b config.seed cells each;
          full_is = sym (length-product factors);
          complete = product-Any factors;
          design =
              choose_cells-Fits b config.seed config.repetitions config.budget_cap (product factors)
                some_rep chosen;
        })

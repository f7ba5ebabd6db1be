-- ===== src/Pruning/Newest.antt =====
-- The blocks that research/linux-sched/analysis/prune_data.py keeps, told by their numbers.
use k8labs.Base.{ℕ, zero, suc, ◌-◌, false, List, [], ◌∷◌, ◌++◌, map, length, drop, take}
use k8labs.Base.{◌≡◌, ◌≢◌, ◌⊎◌, inl, inr, refl, sym, ap, arith, All, All-map, Any, contains}
use k8labs.Base.{comparable_text, or-eq_false, InOrder, sort_by, sort_by-perm, sort_by-InOrder}
use k8labs.Base.{take-drop, ne_of_same, ℤ, pos, negsuc, true, Bool-cases, ltb}
use k8labs.Base.{lt_codes_asym, codes, ◌==◌}
use mathlib.Core.Path.{subst}
use mathlib.Core.List.{Perm}
use mathlib.Core.List.Perm
use k8labs.Pruning.{Block, number_of, lt_int, older, kept_of}

-- The number of the first block is not above that of the second.
abbrev pub NotNewer : Block → Block → Type 0
NotNewer b n = lt_int (number_of n.name) (number_of b.name) ≡ false

-- As many blocks as are kept, with other paths, have numbers that are not below that of the block.
abbrev pub IsOld : ℕ → List Block → Block → Type 0
IsOld keep_blocks blocks b =
    (others newest : List Block) × Perm (others ++ newest) blocks
    × (length newest ≡ keep_blocks)
    × All (λ n. (n.path ≢ b.path) × NotNewer b n) newest

lt_int_trans : (a b c : ℤ) → lt_int b a ≡ false → lt_int c b ≡ false → lt_int c a ≡ false
lt_int_trans (pos a) (pos b) (pos c) h k = ground arith
lt_int_trans (pos a) (pos b) (negsuc c) h k = absurd (cc)
lt_int_trans (pos a) (negsuc b) c h k = absurd (cc)
lt_int_trans (negsuc a) (pos b) (pos c) h k = refl
lt_int_trans (negsuc a) (pos b) (negsuc c) h k = absurd (cc)
lt_int_trans (negsuc a) (negsuc b) (pos c) h k = refl
lt_int_trans (negsuc a) (negsuc b) (negsuc c) h k = ground arith

lt_int_asym : (a b : ℤ) → lt_int a b ≡ true → lt_int b a ≡ false
lt_int_asym (pos a) (pos b) h = ground arith
lt_int_asym (pos a) (negsuc b) h = absurd (cc)
lt_int_asym (negsuc a) (pos b) h = refl
lt_int_asym (negsuc a) (negsuc b) h = ground arith

older_asym : (a b : Block) → older a b ≡ true → older b a ≡ false
unfolding older
older_asym a b h = ground (
  arith,
  lt_int_asym (number_of a.name) (number_of b.name),
  lt_codes_asym (codes a.name) (codes b.name),
)

older-NotNewer : (b n : Block) → older n b ≡ false → NotNewer b n
unfolding older
older-NotNewer b n h = (or-eq_false (lt_int (number_of n.name) (number_of b.name)) _ h).0

InOrder-tail : (b : Block) (l : List Block) → InOrder older (b ∷ l) → InOrder older l
InOrder-tail b [] h = tt
InOrder-tail b (n ∷ l) h = h.1

InOrder-NotNewer : (b : Block) (l : List Block) → InOrder older (b ∷ l) → All (NotNewer b) l
InOrder-NotNewer b [] h = tt
InOrder-NotNewer b (n ∷ l) h =
    let first = older-NotNewer b n h.0 in
    (
      first,
      All-map (NotNewer n) (NotNewer b) l
          (λ m later.
            lt_int_trans (number_of b.name) (number_of n.name) (number_of m.name) first later)
          (InOrder-NotNewer n l h.1),
    )

All-drop : (P : Block → Type 0) (n : ℕ) (l : List Block) → All P l → All P (drop n l)
All-drop P zero l h = h
All-drop P (suc n) [] h = tt
All-drop P (suc n) (b ∷ l) h = All-drop P n l h.1

-- A block of a list in order is among those from a place on, or none of these is below it.
late-or-NotNewer :
    (n : ℕ) (b : Block) (l : List Block)
    → InOrder older l
    → Any (λ c. c ≡ b) l
    → Any (λ c. c ≡ b) (drop n l) ⊎ All (NotNewer b) (drop n l)
late-or-NotNewer zero b l up h = inl h
late-or-NotNewer (suc n) b [] up h = elim h [ ]
late-or-NotNewer (suc n) b (c ∷ l) up (inl e) =
    inr (All-drop (NotNewer b) n l (subst (λ x. All (NotNewer x) l) e (InOrder-NotNewer c l up)))
late-or-NotNewer (suc n) b (c ∷ l) up (inr h) = late-or-NotNewer n b l (InOrder-tail c l up) h

other_paths :
    (b : Block) (l : List Block)
    → contains (map (λ c. c.path) l) b.path ≡ false
    → All (λ c. c.path ≢ b.path) l
other_paths b [] h = tt
other_paths b (c ∷ l) h =
    let (differ, rest) = or-eq_false (b.path == c.path) _ h in
    (λ e. ne_of_same b.path c.path differ (sym e), other_paths b l rest)

not_among : (b : Block) (l : List Block) → All (λ c. c.path ≢ b.path) l → Any (λ c. c ≡ b) l → ⊥
not_among b [] h k = elim k [ ]
not_among b (c ∷ l) h (inl e) = h.0 (ap (λ x. x.path) e)
not_among b (c ∷ l) h (inr k) = not_among b l h.1 k

both : (P Q : Block → Type 0) (l : List Block) → All P l → All Q l → All (λ b. P b × Q b) l
both P Q [] h k = tt
both P Q (b ∷ l) h k = ((h.0, k.0), both P Q l h.1 k.1)

length-drop : (n : ℕ) (l : List Block) → length (drop n l) ≡ length l - n
length-drop zero l = omega arith
length-drop (suc n) [] = omega arith
length-drop (suc n) (b ∷ l) = omega (arith, length-drop n l)

nothing-left :
    (l : List Block) (b : Block) (n : ℕ) → n ≡ 0 → Any (λ c. c ≡ b) l → Any (λ c. c ≡ b) (drop n l)
nothing-left l b zero e h = h
nothing-left l b (suc n) e h = absurd (omega (arith, e))

-- A block that is not kept is old.
pub kept_of-IsOld :
    (keep_blocks : ℕ) (blocks : List Block) (b : Block)
    → Any (λ c. c ≡ b) (sort_by older blocks)
    → contains (kept_of keep_blocks (sort_by older blocks)) b.path ≡ false
    → IsOld keep_blocks blocks b
kept_of-IsOld zero blocks b here gone =
    (blocks, [], subst (λ l. Perm l blocks) (sym (append-nil blocks)) (Perm.refl blocks), refl, tt)
  where
    append-nil : (l : List Block) → l ++ [] ≡ l
    append-nil [] = refl
    append-nil (x ∷ l) = ap (λ m. x ∷ m) (append-nil l)
kept_of-IsOld (suc k) blocks b here gone =
    let sorted = sort_by older blocks in
    let n = length sorted - suc k in
    let newest = drop n sorted in
    let paths = other_paths b newest gone in
    let not_late = not_among b newest paths in
    let size = length-drop n sorted in
    elim (late-or-NotNewer n b sorted (sort_by-InOrder older older_asym blocks) here) [
      | inl late ↦ absurd (not_late late)
      | inr below ↦ elim (Bool-cases (ltb (length sorted) (suc k))) [
        | inl few ↦ absurd (not_late (nothing-left sorted b n (ground (arith, few)) here))
        | inr enough ↦ (
          take n sorted,
          newest,
          subst (λ l. Perm l blocks) (sym (take-drop n sorted)) (sort_by-perm older blocks),
          ground (arith, size, enough),
          both (λ c. c.path ≢ b.path) (NotNewer b) newest paths below,
        )
      ]
    ]

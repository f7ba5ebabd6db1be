-- ===== src/Regression/Pooling.antt =====
-- The blocks that `_pav` of research/cpu-limits/phase8/model/monotonic.py pools.
use mathlib.Core.List.{append_assoc, append-nil, reverse-cons}
use k8labs.Base.{◌≤◌, Bool, false, List, [], ◌∷◌, ◌++◌, reverse}
use k8labs.Base.{◌≡◌, refl, ap, sym, ◌∙◌, arith, Floats, length, length-append, All, All-append}
use k8labs.Base.{InOrder}
use k8labs.Base.{Bool-cases, inl, inr, snoc-append}
use k8labs.Regression.{Arithmetic, mean, settle, pool}

-- The elements of the blocks, block by block.
abbrev pub concat {ℓ} : {A : Type ℓ} → List (List A) → List A
concat [] = []
concat (block ∷ more) = block ++ concat more

-- A stack read from its bottom.
abbrev pub unstack {ℓ} : {A : Type ℓ} → List (List A) → List A
unstack [] = []
unstack (block ∷ earlier) = unstack earlier ++ block

concat-append {ℓ} :
    {A : Type ℓ} (left right : List (List A)) → concat (left ++ right) ≡ concat left ++ concat right
concat-append [] right = refl
concat-append (block ∷ left) right =
    ap (λ l. block ++ l) (concat-append left right)
    ∙ sym (append_assoc block (concat left) (concat right))

concat-reverse {ℓ} : {A : Type ℓ} (stack : List (List A)) → concat (reverse stack) ≡ unstack stack
concat-reverse [] = refl
concat-reverse (block ∷ earlier) =
    ap concat (reverse-cons block earlier)
    ∙ concat-append (reverse earlier) (block ∷ [])
    ∙ ap (λ l. l ++ (block ++ [])) (concat-reverse earlier)
    ∙ ap (λ l. unstack earlier ++ l) (append-nil block)

InOrder-snoc {ℓ} :
    {A : Type ℓ} (before : A → A → Bool) (front : List A) (y x : A)
    → InOrder before (front ++ (y ∷ []))
    → before x y ≡ false
    → InOrder before (front ++ (y ∷ x ∷ []))
InOrder-snoc before [] y x h last = (last, tt)
InOrder-snoc before (a ∷ []) y x h last = (h.0, (last, tt))
InOrder-snoc before (a ∷ b ∷ front) y x h last = (h.0, InOrder-snoc before (b ∷ front) y x h.1 last)

module _ (F : Floats) (A : Arithmetic F) where
  -- Blocks with elements, no mean below the one before it; the last one first.
  abbrev pub Settled : List (List F.Float) → Type 0
  Settled [] = Unit
  Settled (last ∷ []) = Unit
  Settled (last ∷ previous ∷ earlier) =
      (F.lt (mean F A last) (mean F A previous) ≡ false) × Settled (previous ∷ earlier)

  abbrev pub Filled : List (List F.Float) → Type 0
  Filled blocks = All (λ block. 1 ≤ length block) blocks

  Settled-tail :
      (last : List F.Float) (earlier : List (List F.Float))
      → Settled (last ∷ earlier)
      → Settled earlier
  Settled-tail last [] h = tt
  Settled-tail last (previous ∷ earlier) h = h.1

  settle-Settled :
      (last : List F.Float) (stack : List (List F.Float))
      → Settled stack
      → 1 ≤ length last
      → Filled stack
      → Settled (settle F A last stack)
        × Filled (settle F A last stack)
        × (unstack (settle F A last stack) ≡ unstack stack ++ last)
  unfolding settle
  settle-Settled last [] settled some_last filled = (tt, (some_last, tt), refl)
  settle-Settled last (previous ∷ earlier) settled some_last filled =
      elim (Bool-cases (F.lt (mean F A last) (mean F A previous))) [
        | inl back ↦
            let (settled_rest, filled_rest, same) =
              settle-Settled (previous ++ last) earlier (Settled-tail previous earlier settled)
                (omega (arith, filled.0, length-append previous last)) filled.1 in
            rw back
              (settled_rest, filled_rest, same ∙ sym (append_assoc (unstack earlier) previous last))
        | inr forth ↦ rw forth ((forth, settled), (some_last, filled), refl)
      ]

  -- The means of the blocks from the bottom up do not fall.
  abbrev pub lower_mean : List F.Float → List F.Float → Bool
  lower_mean a b = F.lt (mean F A a) (mean F A b)

  reverse-InOrder :
      (stack : List (List F.Float)) → Settled stack → InOrder lower_mean (reverse stack)
  reverse-InOrder [] h = tt
  reverse-InOrder (last ∷ []) h = tt
  reverse-InOrder (last ∷ previous ∷ earlier) h =
      let rest = reverse-InOrder (previous ∷ earlier) h.1 in
      rw
        (
          reverse-cons last (previous ∷ earlier),
          reverse-cons previous earlier,
          snoc-append (reverse earlier) previous (last ∷ []),
        )
        (InOrder-snoc lower_mean (reverse earlier) previous last
          (rw (reverse-cons previous earlier) at rest) h.0)

  All-reverse :
      (P : List F.Float → Type 0) (stack : List (List F.Float))
      → All P stack
      → All P (reverse stack)
  All-reverse P [] h = tt
  All-reverse P (block ∷ earlier) h =
      rw (reverse-cons block earlier)
        (All-append P (reverse earlier) (block ∷ []) (All-reverse P earlier h.1) (h.0, tt))

  -- A partition of a list in runs with elements, whose means do not fall.
  pub record IsPooling (values : List F.Float) (blocks : List (List F.Float)) : Type 0 where
    pub whole : concat blocks ≡ values
    pub filled : Filled blocks
    pub rising : InOrder lower_mean blocks

  pub pool-IsPooling :
      (stack : List (List F.Float)) (values : List F.Float)
      → Settled stack
      → Filled stack
      → IsPooling (unstack stack ++ values) (pool F A stack values)
  unfolding pool
  pool-IsPooling stack [] settled filled = record {
    whole = concat-reverse stack ∙ sym (append-nil (unstack stack));
    filled = All-reverse (λ block. 1 ≤ length block) stack filled;
    rising = reverse-InOrder stack settled;
  }
  pool-IsPooling stack (value ∷ more) settled filled =
      let (next, next_filled, same) =
        settle-Settled (value ∷ []) stack settled (omega arith) filled in
      let rest = pool-IsPooling (settle F A (value ∷ []) stack) more next next_filled in
      record {
        whole = rest.whole ∙ ap (λ l. l ++ more) same ∙ snoc-append (unstack stack) value more;
        filled = rest.filled;
        rising = rest.rising;
      }

-- ===== src/Lock/References/Matches.antt =====
-- What `MUTABLE_REFERENCE` of scripts/lock.py matches, as a description of the text.
use k8labs.Base.{ℕ, String, true, false, some, List, [], ◌∷◌, ◌++◌, ◌≡◌, ◌⊎◌, ◌↔◌, inl, inr}
use k8labs.Base.{refl, ap, arith, ◌==◌, comparable_nat, codes, strip_prefix, Bool-cases, All}
use k8labs.Base.{Option-cases, All-map, or-eq_true, and-eq_true, Bool, ok, Value, ◌||◌, ◌&&◌}
use k8labs.Lock.References.{mutable_reference, mutable_after, mutable_word, word_then_close}
use k8labs.Lock.References.{closes}
use k8labs.Lock.References.{folded, separator, walk_mutable, Step}
use k8labs.Lock.References.Laws.{texts, walk_mutable_iff}

abbrev pub IsWord : List ℕ → Type 0
IsWord word = (word ≡ codes "latest") ⊎ (word ≡ codes "main") ⊎ (word ≡ codes "master")

abbrev pub IsSeparator : ℕ → Type 0
IsSeparator c = (c ≡ b'/') ⊎ (c ≡ b':') ⊎ (c ≡ b'@')

-- The end of the text, a newline that ends it, or a separator.
abbrev pub Closed : List ℕ → Type 0
Closed [] = Unit
Closed (c ∷ s) = IsSeparator c ⊎ ((c ≡ 10) × (s ≡ []))

-- A word of the pattern stands here, and is closed.
abbrev pub StartsWithWord : List ℕ → Type 0
StartsWithWord s = (word after : List ℕ) × (s ≡ word ++ after) × IsWord word × Closed after

-- A word of the pattern stands at the front of the text or behind a separator, and is closed.
abbrev pub IsMutable : List ℕ → Type 0
IsMutable s =
    StartsWithWord s
    ⊎ (before : List ℕ) × (c : ℕ) × (after : List ℕ) × (s ≡ before ++ (c ∷ after))
      × IsSeparator c
      × StartsWithWord after

strip_prefix-eq_some :
    (word s : List ℕ) {after : List ℕ} → strip_prefix word s ≡ some after → s ≡ word ++ after
strip_prefix-eq_some [] s h = ground arith
strip_prefix-eq_some (p ∷ word) [] h = absurd (cc)
strip_prefix-eq_some (p ∷ word) (c ∷ s) {after} h = elim (Bool-cases (p == c)) [
  | inl same ↦
      let rest = strip_prefix-eq_some word s {after = after} (rw (strip_prefix, same) at h) in
      let e : p ≡ c = comparable_nat.same_iff.0 same in rw (e, rest) refl
  | inr differ ↦ absurd (cc (rw (strip_prefix, differ) at h))
]

strip_prefix-append : (word after : List ℕ) → strip_prefix word (word ++ after) ≡ some after
strip_prefix-append [] after = refl
strip_prefix-append (p ∷ word) after =
    let same : (p == p) ≡ true = comparable_nat.same_iff.1 refl in
    rw (strip_prefix, same) (strip_prefix-append word after)

closes-Closed : (s : List ℕ) → closes s ≡ true → Closed s
closes-Closed [] h = tt
closes-Closed (c ∷ []) h = ground arith
closes-Closed (c ∷ d ∷ s) h = ground arith

Closed-closes : (s : List ℕ) → Closed s → closes s ≡ true
Closed-closes [] h = refl
Closed-closes (c ∷ []) h = ground arith
Closed-closes (c ∷ d ∷ s) (inl h) = ground arith
Closed-closes (c ∷ d ∷ s) (inr (e, h)) = absurd (cc)

word_then_close-eq_true :
    (word s : List ℕ)
    → word_then_close word s ≡ true
    → (after : List ℕ) × (s ≡ word ++ after) × Closed after
word_then_close-eq_true word s h = elim (Option-cases (strip_prefix word s)) [
  | inl other ↦ absurd (cc (rw (word_then_close, other) at h))
  | inr (after, found) ↦ (
    after,
    strip_prefix-eq_some word s found,
    closes-Closed after (rw (word_then_close, found) at h),
  )
]

word_then_close-append :
    (word after : List ℕ) → Closed after → word_then_close word (word ++ after) ≡ true
word_then_close-append word after h =
    rw (word_then_close, strip_prefix-append word after) (Closed-closes after h)

mutable_word_iff : (s : List ℕ) → (mutable_word s ≡ true) ↔ StartsWithWord s
mutable_word_iff s = (forth, back)
  where
    forth : mutable_word s ≡ true → StartsWithWord s
    forth h =
        elim (or-eq_true (word_then_close (codes "latest") s || word_then_close (codes "main") s) _
          h) [
            | inl front ↦ elim (or-eq_true (word_then_close (codes "latest") s) _ front) [
              | inl w ↦
                  let (after, e, closed) = word_then_close-eq_true (codes "latest") s w in
                  (codes "latest", after, e, inl refl, closed)
              | inr w ↦
                  let (after, e, closed) = word_then_close-eq_true (codes "main") s w in
                  (codes "main", after, e, inr (inl refl), closed)
            ]
            | inr w ↦
                let (after, e, closed) = word_then_close-eq_true (codes "master") s w in
                (codes "master", after, e, inr (inr refl), closed)
          ]

    back : StartsWithWord s → mutable_word s ≡ true
    back (word, after, e, inl w, closed) =
        let yes = word_then_close-append (codes "latest") after closed in
        rw (e, w) (ground (arith, yes))
    back (word, after, e, inr (inl w), closed) =
        let yes = word_then_close-append (codes "main") after closed in
        rw (e, w) (ground (arith, yes))
    back (word, after, e, inr (inr w), closed) =
        let yes = word_then_close-append (codes "master") after closed in
        rw (e, w) (ground (arith, yes))

separator-IsSeparator : (c : ℕ) → separator c ≡ true → IsSeparator c
separator-IsSeparator c h = ground arith

IsSeparator-separator : (c : ℕ) → IsSeparator c → separator c ≡ true
IsSeparator-separator c h = ground arith

-- A separator with a closed word behind it.
abbrev BehindSeparator : List ℕ → Type 0
BehindSeparator s =
    (before : List ℕ) × (c : ℕ) × (after : List ℕ) × (s ≡ before ++ (c ∷ after))
    × IsSeparator c
    × StartsWithWord after

mutable_after-eq_true : (s : List ℕ) → mutable_after s ≡ true → BehindSeparator s
unfolding mutable_after
mutable_after-eq_true [] h = absurd (cc)
mutable_after-eq_true (c ∷ s) h = elim (or-eq_true (separator c && mutable_word s) _ h) [
  | inl here ↦
      let (sep, word) = and-eq_true (separator c) (mutable_word s) here in
      ([], c, s, refl, separator-IsSeparator c sep, (mutable_word_iff s).0 word)
  | inr later ↦
      let (before, d, after, e, sep, word) = mutable_after-eq_true s later in
      (c ∷ before, d, after, ap (λ l. c ∷ l) e, sep, word)
]

or-of_right : (a b : Bool) → b ≡ true → (a || b) ≡ true
or-of_right a b h = ground arith

mutable_after_of_parts :
    (before : List ℕ) (c : ℕ) (after : List ℕ)
    → IsSeparator c
    → StartsWithWord after
    → mutable_after (before ++ (c ∷ after)) ≡ true
unfolding mutable_after
mutable_after_of_parts [] c after sep word =
    rw (IsSeparator-separator c sep, (mutable_word_iff after).1 word) refl
mutable_after_of_parts (d ∷ before) c after sep word =
    or-of_right _ _ (mutable_after_of_parts before c after sep word)

mutable_reference_iff : (s : String) → (mutable_reference s ≡ true) ↔ IsMutable (folded (codes s))
unfolding mutable_reference
mutable_reference_iff s = (
  λ h. elim (or-eq_true (mutable_word (folded (codes s))) _ h) [
    | inl front ↦ inl ((mutable_word_iff _).0 front)
    | inr behind ↦ inr (mutable_after-eq_true _ behind)
  ],
  λ h. elim h [
    | inl front ↦ let yes = (mutable_word_iff (folded (codes s))).1 front in ground (arith, yes)
    | inr (before, c, after, e, sep, word) ↦
        let yes : mutable_after (folded (codes s)) ≡ true =
          rw e (mutable_after_of_parts before c after sep word) in
        ground (arith, yes)
  ],
)

mutable_reference-eq_false :
    (s : String) → (mutable_reference s ≡ false) ↔ (¬ IsMutable (folded (codes s)))
mutable_reference-eq_false s = (
  λ h m. cc (h, (mutable_reference_iff s).1 m),
  λ h. elim (Bool-cases (mutable_reference s)) [
    | inl found ↦ absurd (h ((mutable_reference_iff s).0 found))
    | inr clean ↦ clean
  ],
)

-- The walk passes exactly the values of which no text, however deep, has one of the words latest,
-- main and master, in letters of any case, at its front or behind a separator, with the end of the
-- text, a newline that ends it, or a separator behind the word.
pub walk_mutable-IsMutable :
    {F : Type 0} (v : Value F) (place : List Step)
    → (walk_mutable v place ≡ ok tt) ↔ All (λ s. ¬ IsMutable (folded (codes s))) (texts v)
walk_mutable-IsMutable v place = (
  λ h.
      All-map _ _ (texts v) (λ s. (mutable_reference-eq_false s).0)
        ((walk_mutable_iff v place).0 h),
  λ h.
      (walk_mutable_iff v place).1
        (All-map _ _ (texts v) (λ s. (mutable_reference-eq_false s).1) h),
)

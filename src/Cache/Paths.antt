-- ===== src/Cache/Paths.antt =====
-- The files under the directory of the cache of scripts/cache.py: a path is the list of its parts, as
-- `pathlib` compares paths, and a directory is there where a file lies below it.
use Prim.Native.Char.{Char, code}
use k8labs.Base.{String, ◌<>◌, Bool, true, false, not, ◌&&◌, ◌||◌, Option, none, some, List, []}
use k8labs.Base.{◌∷◌, ◌++◌, ◌==◌, comparable_nat, comparable_text, Comparable, if◌then◌else◌}
use k8labs.Base.{is_empty, ◌≡◌, ◌↔◌, refl, sym, ap, and-eq_true, Bool-cases, inl, inr}
use k8labs.Base.{Option-cases}
use k8labs.Base.{arith, ◌∙◌, same_refl}
use k8labs.Base.Dict.{Dict}

abbrev same_parts : List String → List String → Bool
same_parts [] [] = true
same_parts [] (y ∷ q) = false
same_parts (x ∷ p) [] = false
same_parts (x ∷ p) (y ∷ q) = x == y && same_parts p q

same_parts-path : (p q : List String) → same_parts p q ≡ true → p ≡ q
same_parts-path [] [] h = refl
same_parts-path [] (y ∷ q) h = absurd (cc)
same_parts-path (x ∷ p) [] h = absurd (cc)
same_parts-path (x ∷ p) (y ∷ q) h =
    let (first, rest) = and-eq_true (x == y) (same_parts p q) h in
    let e : x ≡ y = comparable_text.same_iff.0 first in
    let e' : p ≡ q = same_parts-path p q rest in rw (e, e') refl

same_parts_refl : (p : List String) → same_parts p p ≡ true
same_parts_refl [] = refl
same_parts_refl (x ∷ p) = rw (same_refl x) (same_parts_refl p)

pub same_parts_iff : (p q : List String) → (same_parts p q ≡ true) ↔ (p ≡ q)
same_parts_iff p q = (same_parts-path p q, λ e. rw e (same_parts_refl q))

instance abbrev pub comparable_parts : Comparable (List String)
comparable_parts = record { same = same_parts; same_iff = λ {x} {y}. same_parts_iff x y }

-- The texts between the slashes.
abbrev pub segments : String → List String
segments String.[] = "" ∷ []
segments (String.◌∷◌ c s) =
    let rest = segments s in if code c == b'/' then "" ∷ rest else put c rest
  where
    put : Char → List String → List String
    put c [] = String.◌∷◌ c "" ∷ []
    put c (first ∷ more) = String.◌∷◌ c first ∷ more

-- The parts of a relative path: empty ones and single dots are dropped.
abbrev pub kept_parts : List String → List String
kept_parts [] = []
kept_parts (part ∷ more) =
    let rest = kept_parts more in if part == "" || part == "." then rest else part ∷ rest

abbrev pub parts_of : String → List String
parts_of text = kept_parts (segments text)

-- `path.relative_to(directory)`, and none where the path does not lie in the directory.
unfoldable pub relative : List String → List String → Option (List String)
relative [] path = some path
relative (x ∷ directory) [] = none
relative (x ∷ directory) (y ∷ path) =
    let rest = relative directory path in if x == y then rest else none

abbrev pub is_below : List String → List String → Bool
is_below directory path = elim (relative directory path) [
  | none ↦ false
  | some rest ↦ not (is_empty rest)
]

-- The directory itself, or a path that lies in it.
abbrev pub is_inside : List String → List String → Bool
is_inside directory path = elim (relative directory path) [ none ↦ false | some rest ↦ true ]

-- A name from its parts.
abbrev pub joined : List String → String
joined [] = ""
joined (part ∷ []) = part
joined (part ∷ next ∷ more) = part <> "/" <> joined (next ∷ more)

abbrev pub Files : Type 0 → Type 0
Files C = Dict (List String) C

module _ {C : Type 0} where
  -- Some file lies below the path; the directory of the cache is always there.
  unfoldable pub is_directory : List String → Files C → Bool
  is_directory path [] = is_empty path
  is_directory path ((file, content) ∷ more) = is_below path file || is_directory path more

  unfoldable pub is_file : List String → Files C → Bool
  is_file path [] = false
  is_file path ((file, content) ∷ more) = file == path || is_file path more

  -- A path above this one is a file, so that its directory cannot be made.
  unfoldable pub below_file : List String → Files C → Bool
  below_file path [] = false
  below_file path ((file, content) ∷ more) = is_below file path || below_file path more

  -- A file as it is seen from a directory, before those after it.
  abbrev pub seen_from : Option (List String) → C → Dict String C → Dict String C
  seen_from none content rest = rest
  seen_from (some []) content rest = rest
  seen_from (some (part ∷ more)) content rest = (joined (part ∷ more), content) ∷ rest

  -- The files below a directory, by their names from there.
  unfoldable pub directory_at : List String → Files C → Dict String C
  directory_at path [] = []
  directory_at path ((file, content) ∷ more) =
      seen_from (relative path file) content (directory_at path more)

  -- A file that does not lie in the directory, before those after it.
  abbrev pub unless_inside : Option (List String) → List String × C → Files C → Files C
  unless_inside none file rest = file ∷ rest
  unless_inside (some inside) file rest = rest

  -- `shutil.rmtree`
  unfoldable pub without : List String → Files C → Files C
  without path [] = []
  without path ((file, content) ∷ more) =
      unless_inside (relative path file) (file, content) (without path more)

  -- The files of a directory that is moved to a path.
  unfoldable pub moved_to : List String → Files C → Files C
  moved_to path [] = []
  moved_to path ((file, content) ∷ more) = (path ++ file, content) ∷ moved_to path more

relative-append : (p k : List String) → relative p (p ++ k) ≡ some k
unfolding relative
relative-append [] k = refl
relative-append (x ∷ p) k = rw (same_refl x) (relative-append p k)

relative-eq_some :
    (p path : List String) {k : List String} → relative p path ≡ some k → path ≡ p ++ k
unfolding relative
relative-eq_some [] path h = ground arith
relative-eq_some (x ∷ p) [] h = absurd (cc)
relative-eq_some (x ∷ p) (y ∷ path) {k} h = elim (Bool-cases (x == y)) [
  | inl same ↦
      let e : x ≡ y = comparable_text.same_iff.0 same in
      let rest = relative-eq_some p path {k = k} (rw same at h) in rw (e, rest) refl
  | inr differ ↦ absurd (cc (rw differ at h))
]

-- Neither path lies in the other.
abbrev pub Apart : List String → List String → Type 0
Apart p q = (relative p q ≡ none) × (relative q p ≡ none)

Apart-relative : (p q k : List String) → Apart p q → relative q (p ++ k) ≡ none
unfolding relative
Apart-relative [] q k h = absurd (cc (h.0))
Apart-relative (x ∷ p) [] k h = absurd (cc (h.1))
Apart-relative (x ∷ p) (y ∷ q) k h = elim (Bool-cases (y == x)) [
  | inl same ↦
      let e : y ≡ x = comparable_text.same_iff.0 same in
      let same' : (x == y) ≡ true = comparable_text.same_iff.1 (sym e) in
      rw same (Apart-relative p q k (rw same' at h.0, rw same at h.1))
  | inr differ ↦ rw differ refl
]

module _ {C : Type 0} where
  pub without-other :
      (p q : List String) (store : Files C)
      → Apart p q
      → directory_at q (without p store) ≡ directory_at q store
  unfolding without directory_at
  without-other p q [] h = refl
  without-other p q ((file, content) ∷ more) h = elim (Option-cases (relative p file)) [
    | inl outside ↦ rw outside (ap (seen_from (relative q file) content) (without-other p q more h))
    | inr (k, inside) ↦
        let hidden : relative q file ≡ none =
          ap (relative q) (relative-eq_some p file inside) ∙ Apart-relative p q k h in
        rw (inside, hidden) (without-other p q more h)
  ]

  moved_to-other :
      (p q : List String) (stage store : Files C)
      → Apart p q
      → directory_at q (moved_to p stage ++ store) ≡ directory_at q store
  unfolding moved_to directory_at
  moved_to-other p q [] store h = refl
  moved_to-other p q ((file, content) ∷ more) store h =
      rw (Apart-relative p q file h) (moved_to-other p q more store h)

  -- A directory that is replaced has no other effect on a directory apart from it.
  pub replaced-other :
      (p q : List String) (stage store : Files C)
      → Apart p q
      → directory_at q (moved_to p stage ++ without p store) ≡ directory_at q store
  replaced-other p q stage store h =
      moved_to-other p q stage (without p store) h ∙ without-other p q store h

  without_self : (p : List String) (store : Files C) → directory_at p (without p store) ≡ []
  unfolding without directory_at
  without_self p [] = refl
  without_self p ((file, content) ∷ more) = elim (Option-cases (relative p file)) [
    | inl outside ↦ rw (outside, directory_at, outside) (without_self p more)
    | inr (k, inside) ↦ rw inside (without_self p more)
  ]

  -- What is moved to a path is what is found there.
  pub replaced_self :
      (p : List String) (stage store : Files C)
      → directory_at p (moved_to p stage ++ without p store) ≡ directory_at [] stage
  unfolding moved_to directory_at relative
  replaced_self p [] store = without_self p store
  replaced_self p ((file, content) ∷ more) store =
      rw (relative-append p file) (ap (seen_from (some file) content) (replaced_self p more store))

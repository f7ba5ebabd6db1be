-- ===== src/Lock/References.antt =====
-- The references of scripts/lock.py: its regular expressions, over code points, and `walk_mutable`.
pub mod Laws
pub mod Matches
use k8labs.Base.{
  ℕ, zero, suc, ◌+◌, String, Bool, true, false, not, ◌&&◌, ◌||◌, Option, none, some, List, [], ◌∷◌,
}
use k8labs.Base.{
  leb, ◌==◌, comparable_nat, if◌then◌else◌, length, all, codes, digits, strip_prefix, is_hex,
}
use k8labs.Base.{Value, Items, Fields, Result, ok, raise, ◌>>=◌, ◌>>◌, refuse}

-- `[0-9a-f]{n}` as a full match.
abbrev pub is_hex_of : ℕ → String → Bool
is_hex_of n s = length (codes s) == n && all is_hex (codes s)

-- `$`, which also matches before a newline at the end.
abbrev pub at_end : List ℕ → Bool
at_end [] = true
at_end (c ∷ []) = c == 10
at_end _ = false

-- `[0-9a-f]{n}$` at the front.
unfoldable pub hex_to_end : ℕ → List ℕ → Bool
hex_to_end zero s = at_end s
hex_to_end (suc n) [] = false
hex_to_end (suc n) (c ∷ s) = is_hex c && hex_to_end n s

abbrev pinned_front : List ℕ → Bool
pinned_front s = elim (strip_prefix (codes "@sha256:") s) [
  | none ↦ false
  | some rest ↦ hex_to_end 64 rest
]

unfoldable pub pinned_in : List ℕ → Bool
pinned_in [] = false
pinned_in (c ∷ s) = pinned_front (c ∷ s) || pinned_in s

-- `DIGEST_REFERENCE.search`
abbrev pub digest_reference : String → Bool
digest_reference s = pinned_in (codes s)

-- The minor version of a full match of `KUBERNETES_VERSION`, for texts whose digits are those of ASCII.
unfoldable pub kubernetes_version : String → Option ℕ
kubernetes_version s = elim (strip_prefix (codes "v1.") (codes s)) [
  | none ↦ none
  | some rest ↦ elim (digits rest) [
    | none ↦ none
    | some (minor, rest') ↦ elim (strip_prefix (codes ".") rest') [
      | none ↦ none
      | some rest'' ↦ elim (digits rest'') [
        | none ↦ none
        | some (patch, more) ↦ if length more == 0 then some minor else none
      ]
    ]
  ]
]

-- A letter as `re.IGNORECASE` compares it, for the letters of the pattern: of a text, it also takes
-- the long s for s, and the I with a dot and the i without one for i.
abbrev pub fold : ℕ → ℕ
fold c =
    if leb 65 c && leb c 90
    then c + 32
    else if c == 383
    then b's'
    else if c == 304 || c == 305
    then b'i'
    else c

abbrev pub folded : List ℕ → List ℕ
folded [] = []
folded (c ∷ s) = fold c ∷ folded s

-- `[/:@]`
abbrev pub separator : ℕ → Bool
separator c = c == b'/' || c == b':' || c == b'@'

-- `(?:$|[/:@])`
abbrev pub closes : List ℕ → Bool
closes [] = true
closes (c ∷ s) = separator c || at_end (c ∷ s)

abbrev pub word_then_close : List ℕ → List ℕ → Bool
word_then_close word s = elim (strip_prefix word s) [ none ↦ false | some rest ↦ closes rest ]

abbrev pub mutable_word : List ℕ → Bool
mutable_word s =
    word_then_close (codes "latest") s
    || word_then_close (codes "main") s
    || word_then_close (codes "master") s

-- A match that starts at a separator of the text.
unfoldable pub mutable_after : List ℕ → Bool
mutable_after [] = false
mutable_after (c ∷ s) = (separator c && mutable_word s) || mutable_after s

-- `MUTABLE_REFERENCE.search`
unfoldable pub mutable_reference : String → Bool
mutable_reference s = let t = folded (codes s) in mutable_word t || mutable_after t

-- A step of a location: `.key` or `[index]`.
pub data Step : Type 0 where
  key : String → Step
  index : ℕ → Step

-- The location, innermost step first, and the text found there.
pub data MutableError : Type 0 where
  mutable_at : List Step → String → MutableError

unfoldable mutual
  pub walk_mutable : {F : Type 0} → Value F → List Step → Result MutableError (Unit {0})
  walk_mutable (Value.text s) place = refuse (mutable_reference s) (mutable_at place s)
  walk_mutable (Value.mapping fs) place = walk_fields fs place
  walk_mutable (Value.sequence vs) place = walk_items vs 0 place
  walk_mutable _ place = ok tt

  pub walk_items : {F : Type 0} → Items F → ℕ → List Step → Result MutableError (Unit {0})
  walk_items Items.last i place = ok tt
  walk_items (Items.item v r) i place =
      walk_mutable v (index i ∷ place) >> walk_items r (i + 1) place

  pub walk_fields : {F : Type 0} → Fields F → List Step → Result MutableError (Unit {0})
  walk_fields Fields.empty place = ok tt
  walk_fields (Fields.entry k v r) place = walk_mutable v (key k ∷ place) >> walk_fields r place

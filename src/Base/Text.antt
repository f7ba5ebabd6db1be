-- ===== src/Base/Text.antt =====
-- Texts as lists of code points, for the code that walks them.
use Prim.Native.Nat.{ℕ, zero, suc, ◌+◌, ◌-◌, ◌*◌, ◌/◌, ◌%◌}
use Prim.Native.Char.{code}
use Prim.Native.String.{String, ◌++◌ as ◌<>◌, slice}
use mathlib.Core.Bool.{Bool, true, false, ◌&&◌}
use mathlib.Core.Option.{Option, none, some}
use mathlib.Core.List.{List, [], ◌∷◌, reverse}
use k8labs.Base.Tests.{leb, ltb, ◌==◌, comparable_nat, if◌then◌else◌}

abbrev pub codes : String → List ℕ
codes String.[] = []
codes (String.◌∷◌ c s) = code c ∷ codes s

abbrev pub is_digit : ℕ → Bool
is_digit c = leb b'0' c && leb c b'9'

-- The text after a prefix, or none if it does not begin with it.
abbrev pub strip_prefix : List ℕ → List ℕ → Option (List ℕ)
strip_prefix [] s = some s
strip_prefix (p ∷ ps) [] = none
strip_prefix (p ∷ ps) (c ∷ s) = elim (p == c) [ true ↦ strip_prefix ps s | false ↦ none ]

-- The digits at the front, read on from the number that stands before them.
abbrev pub more_digits : ℕ → List ℕ → ℕ × List ℕ
more_digits acc [] = (acc, [])
more_digits acc (c ∷ s) = elim (is_digit c) [
  | true ↦ more_digits (acc * 10 + (c - b'0')) s
  | false ↦ (acc, c ∷ s)
]

-- One digit or more, as `\d+` over ASCII reads them.
abbrev pub digits : List ℕ → Option (ℕ × List ℕ)
digits [] = none
digits (c ∷ s) = elim (is_digit c) [ true ↦ some (more_digits (c - b'0') s) | false ↦ none ]

-- `str(n)`: the digits, last one first.
unfoldable pub numeral_on : ℕ → ℕ → String → String
numeral_on zero n later = later
numeral_on (suc fuel) n later =
    let text = slice "0123456789" (n % 10) (n % 10 + 1) <> later in
    let rest = numeral_on fuel (n / 10) text in if ltb n 10 then text else rest

-- A number has fewer digits than one more than itself.
unfoldable pub numeral : ℕ → String
numeral n = numeral_on (suc n) n ""

-- `s.endswith(end)`
abbrev pub ends_with : String → String → Bool
ends_with end s = elim (strip_prefix (reverse (codes end)) (reverse (codes s))) [
  | some front ↦ true
  | none ↦ false
]

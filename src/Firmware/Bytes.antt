-- ===== src/Firmware/Bytes.antt =====
-- The calls of Python that scripts/edk2_esl.py makes on texts and bytes: `struct.pack`, `int` with
-- base 16, `bytes.fromhex`, `strip` and `split`. Only ASCII digits and white space are read.
use k8labs.Base.{ℕ, zero, suc, ◌+◌, ◌-◌, ◌*◌, ◌%◌, ◌/◌, Bool, true, false, ◌&&◌, ◌||◌, Option}
use k8labs.Base.{none}
use k8labs.Base.{some, List, [], ◌∷◌, reverse, ltb, leb, ◌==◌, comparable_nat, if◌then◌else◌}
use k8labs.Base.{Result, ok, raise, is_digit}
use k8labs.Base.{ℤ, pos, negsuc}
use mathlib.Core.Option
use Prim.Native.Nat.{◌^◌}

-- The errors of the module; `too_large` is `struct.error`.
pub data EslError : Type 0 where
  invalid_guid invalid_number no_certificate unequal_sizes too_large no_body empty_list : EslError

-- The little-endian bytes of a number.
unfoldable pub le_bytes : ℕ → ℕ → List ℕ
le_bytes zero n = []
le_bytes (suc width) n = n % 256 ∷ le_bytes width (n / 256)

-- `struct.pack` of one unsigned number of `width` bytes.
unfoldable pub pack : ℕ → ℕ → Result EslError (List ℕ)
pack width n = if ltb n (256 ^ width) then ok (le_bytes width n) else raise too_large

-- The white space of ASCII that `strip` removes.
abbrev pub is_space : ℕ → Bool
is_space c = (leb 9 c && leb c 13) || (leb 28 c && leb c 32)

unfoldable pub strip_left : List ℕ → List ℕ
strip_left [] = []
strip_left (c ∷ text) = let rest = strip_left text in if is_space c then rest else c ∷ text

unfoldable pub strip : List ℕ → List ℕ
strip text = reverse (strip_left (reverse (strip_left text)))

-- `text.split("-")`: the parts before the first dash and after each.
unfoldable pub split_dashes : List ℕ → List (List ℕ)
split_dashes [] = [] ∷ []
split_dashes (c ∷ text) = put c (split_dashes text)
  where
    -- A character in front of the parts of the text behind it.
    put : ℕ → List (List ℕ) → List (List ℕ)
    put c [] = (c ∷ []) ∷ []
    put c (part ∷ parts) = if c == b'-' then [] ∷ part ∷ parts else (c ∷ part) ∷ parts

-- The value of a hexadecimal digit.
unfoldable pub hex_digit : ℕ → Option ℕ
hex_digit c =
    if is_digit c
    then some (c - b'0')
    else if leb b'a' c && leb c b'f'
    then some (c - b'a' + 10)
    else if leb b'A' c && leb c b'F'
    then some (c - b'A' + 10)
    else none

-- Digits, with one underscore at most between two.
unfoldable pub hex_number : ℕ → List ℕ → Option ℕ
hex_number so_far [] = some so_far
hex_number so_far (c ∷ []) = elim (hex_digit c) [ none ↦ none | some d ↦ some (so_far * 16 + d) ]
hex_number so_far (c ∷ e ∷ text) = elim (hex_digit c) [
  | none ↦ none
  | some d ↦
      let after_digit = hex_number (so_far * 16 + d) (e ∷ text) in
      let after_underscore = hex_number (so_far * 16 + d) text in
      if e == b'_' && not_empty text then after_underscore else after_digit
]
  where
    not_empty : List ℕ → Bool
    not_empty [] = false
    not_empty (c ∷ text) = true

-- The digits behind `0x`; `0x_1f` is read too.
unfoldable pub prefixed : List ℕ → Option ℕ
prefixed [] = none
prefixed (c ∷ []) = hex_number 0 (c ∷ [])
prefixed (c ∷ d ∷ text) = if c == b'_' then hex_number 0 (d ∷ text) else hex_number 0 (c ∷ d ∷ text)

unfoldable pub unsigned16 : List ℕ → Option ℕ
unsigned16 [] = none
unsigned16 (c ∷ []) = hex_number 0 (c ∷ [])
unsigned16 (c ∷ x ∷ text) =
    if c == b'0' && (x == b'x' || x == b'X') then prefixed text else hex_number 0 (c ∷ x ∷ text)

abbrev minus : ℕ → ℤ
minus zero = pos zero
minus (suc n) = negsuc n

-- `int(text, 16)`, none where Python raises ValueError.
unfoldable pub int16 : List ℕ → Option ℤ
int16 text = signed (strip text)
  where
    signed : List ℕ → Option ℤ
    signed [] = none
    signed (c ∷ text) =
        if c == b'-'
        then Option.map minus (unsigned16 text)
        else if c == b'+'
        then Option.map pos (unsigned16 text)
        else Option.map pos (unsigned16 (c ∷ text))

-- `struct.pack` of any integer: a negative one is refused.
unfoldable pub pack_int : ℕ → ℤ → Result EslError (List ℕ)
pack_int width (pos n) = pack width n
pack_int width (negsuc n) = raise too_large

-- `bytes.fromhex`: pairs of digits, with white space between pairs.
unfoldable pub fromhex : List ℕ → Option (List ℕ)
fromhex [] = some []
fromhex (c ∷ []) = if is_space c then some [] else none
fromhex (c ∷ d ∷ text) =
    let after_space = fromhex (d ∷ text) in
    let after_pair = fromhex text in
    if is_space c then after_space else elim (hex_digit c) [
      | none ↦ none
      | some high ↦ elim (hex_digit d) [
        | none ↦ none
        | some low ↦ Option.map (λ rest. (high * 16 + low) ∷ rest) after_pair
      ]
    ]

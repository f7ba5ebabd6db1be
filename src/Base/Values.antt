-- ===== src/Base/Values.antt =====
-- The values that `yaml.safe_load` and `json.loads` build, and the tests that the scripts make on
-- them. The keys of a mapping are texts. `F` is the type of floats; `other` is a value of a type
-- that no script tests for, such as a date.
use Prim.Native.Nat.{ℕ}
use Prim.Native.String.{String}
use mathlib.Core.Bool.{Bool, true, false, ◌&&◌, ◌||◌}
use mathlib.Core.Option.{Option, none, some}
use mathlib.Core.List.{List, [], ◌∷◌}
use k8labs.Base.Tests.{leb, ◌==◌, comparable_nat, comparable_text, if◌then◌else◌}
use k8labs.Base.Lists.{all}
use k8labs.Base.Integers.{ℤ, pos}
use k8labs.Base.FloatOps.{Floats}
use k8labs.Base.Text.{codes}

mutual
  pub data Value (F : Type 0) : Type 0 where
    null other : Value F
    boolean : Bool → Value F
    int : ℤ → Value F
    float : F → Value F
    text : String → Value F
    sequence : Items F → Value F
    mapping : Fields F → Value F

  pub data Items (F : Type 0) : Type 0 where
    last : Items F
    item : Value F → Items F → Items F

  pub data Fields (F : Type 0) : Type 0 where
    empty : Fields F
    entry : String → Value F → Fields F → Fields F

module _ {F : Type 0} where
  -- The elements of a list.
  abbrev pub elements : Items F → List (Value F)
  elements last = []
  elements (item v r) = v ∷ elements r

  -- The keys of a mapping, in order.
  abbrev pub keys : Fields F → List String
  keys empty = []
  keys (entry k v r) = k ∷ keys r

  -- `d.get(key)`
  unfoldable pub get : String → Fields F → Option (Value F)
  get key empty = none
  get key (entry k v r) = if k == key then some v else get key r

  -- The text that a field holds, if `isinstance(value, str)`.
  abbrev pub as_text : Option (Value F) → Option String
  as_text (some (text s)) = some s
  as_text _ = none

  abbrev pub as_mapping : Option (Value F) → Option (Fields F)
  as_mapping (some (mapping fs)) = some fs
  as_mapping _ = none

  abbrev pub as_sequence : Option (Value F) → Option (List (Value F))
  as_sequence (some (sequence vs)) = some (elements vs)
  as_sequence _ = none

  -- `d.get(key) == s`, for a text `s`.
  abbrev pub equals_text : Option (Value F) → String → Bool
  equals_text (some (text t)) s = t == s
  equals_text _ s = false

-- `value == n`: Python's True is 1, and a float may equal an integer.
abbrev pub equals_nat : (R : Floats) → Option (Value (R.Float)) → ℕ → Bool
equals_nat R (some (int (pos k))) n = k == n
equals_nat R (some (boolean true)) n = 1 == n
equals_nat R (some (boolean false)) n = 0 == n
equals_nat R (some (float x)) n = R.le x (R.of_nat n) && R.le (R.of_nat n) x
equals_nat R _ n = false

-- The code points that `str.strip` removes.
abbrev pub is_space : ℕ → Bool
is_space c =
    (leb 9 c && leb c 13)
    || (leb 28 c && leb c 32)
    || c == 133
    || c == 160
    || c == 5760
    || (leb 8192 c && leb c 8202)
    || c == 8232
    || c == 8233
    || c == 8239
    || c == 8287
    || c == 12288

-- `not s.strip()`
abbrev pub blank : String → Bool
blank s = all is_space (codes s)

-- `[0-9a-f]`
abbrev pub is_hex : ℕ → Bool
is_hex c = (leb b'0' c && leb c b'9') || (leb b'a' c && leb c b'f')

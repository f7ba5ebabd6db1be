-- ===== src/Kernel.antt =====
-- The names of kernel packages of scripts/kernel_build_harness.py. SHA-256 of a text
-- in UTF-8 is a parameter.
pub mod Laws
use Prim.Native.Char.{code}
use k8labs.Base.{
  ℕ, zero, suc, String, ◌<>◌, Bool, true, false, not, ◌&&◌, ◌||◌, Option, none, some, List, [],
}
use k8labs.Base.{◌∷◌, ◌++◌, ◌==◌, comparable_nat, comparable_text, if◌then◌else◌, contains, codes}
use k8labs.Base.{Result, ok, raise, ◌>>=◌, ◌>>◌, require, demand, take, reverse, map}
use mathlib.Core.Option
use k8labs.Firmware.Bytes.{is_space}

pub record Nvr : Type 0 where
  pub name : String
  pub version : String
  pub release : String

-- `NVR.__str__`
abbrev pub shown : Nvr → String
shown nvr = nvr.name <> "-" <> nvr.version <> "-" <> nvr.release

-- The text before the first dash and the text behind it.
unfoldable pub partition_dash : String → Option (String × String)
partition_dash String.[] = none
partition_dash (String.◌∷◌ c s) =
    let rest = partition_dash s in
    if code c == b'-'
    then some ("", s)
    else (elim rest [ none ↦ none | some parts ↦ some (String.◌∷◌ c parts.0, parts.1) ])

-- `value.split("-", 2)` into three, and none where Python raises ValueError.
unfoldable pub parse_nvr : String → Option Nvr
parse_nvr value = elim (partition_dash value) [
  | none ↦ none
  | some first ↦ elim (partition_dash first.1) [
    | none ↦ none
    | some second ↦ some record { name = first.0; version = second.0; release = second.1 }
  ]
]

abbrev pub pinned_source_commit : String
pinned_source_commit = "2efb7a11f1aa4d2dc285fe2680cca22cb9f72f64"

abbrev pub nvr_version_base : String
nvr_version_base = "7.3.0"

abbrev pub nvr_upstream_build : String
nvr_upstream_build = "0.0.next.20261016."

-- White space of ASCII at the end of a text, and at its beginning.
unfoldable pub strip_end : String → String
strip_end String.[] = ""
strip_end (String.◌∷◌ c s) =
    let rest = strip_end s in if is_space (code c) && rest == "" then "" else String.◌∷◌ c rest

unfoldable pub strip_start : String → String
strip_start String.[] = ""
strip_start (String.◌∷◌ c s) =
    let rest = strip_start s in if is_space (code c) then rest else String.◌∷◌ c s

-- `text[:n]`
unfoldable pub prefix : ℕ → String → String
prefix zero text = ""
prefix (suc n) String.[] = ""
prefix (suc n) (String.◌∷◌ c s) = String.◌∷◌ c (prefix n s)

-- `_short`
abbrev pub short : String → ℕ → String
short value length = prefix length (strip_end (strip_start value))

-- `value or default`
abbrev pub or_default : Option String → String → String
or_default none default = default
or_default (some value) default = if value == "" then default else value

-- `x if given is None else given`
abbrev pub given_or : Option String → String → String
given_or none x = x
given_or (some given) x = given

-- `text.replace("\r\n", "\n").replace("\r", "\n")`
unfoldable pub unix_lines : String → String
unix_lines String.[] = ""
unix_lines (String.◌∷◌ c String.[]) = if code c == 13 then "\n" else String.◌∷◌ c ""
unix_lines (String.◌∷◌ c (String.◌∷◌ d s)) =
    let after_one = unix_lines (String.◌∷◌ d s) in
    let after_two = unix_lines s in
    if code c == 13
    then "\n" <> (if code d == 10 then after_two else after_one)
    else String.◌∷◌ c after_one

-- `text.rstrip("\n")`
unfoldable pub strip_lines : String → String
strip_lines String.[] = ""
strip_lines (String.◌∷◌ c s) =
    let rest = strip_lines s in if code c == 10 && rest == "" then "" else String.◌∷◌ c rest

unfoldable pub normalize_config_fragment : String → String
normalize_config_fragment text = strip_lines (unix_lines text) <> "\n"

-- `config_fragment_hash(content=text)`, with the hex digest of the text in UTF-8.
abbrev pub config_fragment_hash : (String → String) → String → String
config_fragment_hash sha256 text = sha256 (normalize_config_fragment text)

-- The ValueError of a commit that is not the pinned one.
pub data NvrError : Type 0 where
  not_pinned : String → NvrError

-- The parts of the name before they are printed.
unfoldable pub nvr_of : String → String → Option String → Option String → Nvr
nvr_of config_hash name version release_prefix = record {
  name = name;
  version = or_default version nvr_version_base;
  release =
      or_default release_prefix nvr_upstream_build
      <> "64"
      <> ".k8."
      <> short config_hash 7
      <> ".fc"
      <> "44";
}

-- `commit`, where it is given, is taken for the source commit, and the hash of `config_fragment`
-- for the configuration hash.
unfoldable pub derive_nvr :
    (String → String)
    → String
    → String
    → String
    → Option String
    → Option String
    → Option String
    → Option String
    → Result NvrError String
derive_nvr sha256 source_commit config_hash name version release_prefix config_fragment commit = do
  let source = given_or commit source_commit
  require (source == pinned_source_commit) (not_pinned source)
  let hash = given_or (Option.map (config_fragment_hash sha256) config_fragment) config_hash
  ok (shown (nvr_of hash name version release_prefix))

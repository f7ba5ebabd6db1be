-- ===== src/Addons.antt =====
-- The generator of the addon Secrets: scripts/generate_capi_addons.py. Base64 and
-- the YAML writer are parameters.
pub mod Discover
pub mod Split
pub mod Generate
use Prim.Native.Char.{code}
use k8labs.Base.{ℕ, String, ◌<>◌, ◌==◌, comparable_nat, if◌then◌else◌, List, lt_text, Bool, numeral}

pub record ManifestEntry : Type 0 where
  pub key : String
  pub path : String
  pub content : List ℕ
  pub encoded_size : ℕ

pub record SecretGroup : Type 0 where
  pub name : String
  pub entries : List ManifestEntry
  pub encoded_size : ℕ

-- `canonical_key`: each slash becomes two dashes.
unfoldable pub canonical_key : String → String
canonical_key String.[] = ""
canonical_key (String.◌∷◌ c s) =
    let rest = canonical_key s in if code c == b'/' then "--" <> rest else String.◌∷◌ c rest

-- The order of `entries.sort(key=lambda e: e.key)`.
abbrev pub by_key : ManifestEntry → ManifestEntry → Bool
by_key e f = lt_text e.key f.key

-- `f"{base_name}-{n}"`
abbrev pub numbered : String → ℕ → String
numbered base_name n = base_name <> "-" <> numeral n

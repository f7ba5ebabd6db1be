-- ===== src/Kernel/Laws.antt =====
-- Names of kernel packages, printed and read.
use Prim.Native.Char.{code}
use k8labs.Base.{String, ◌<>◌, false, Option, none, some, ◌≡◌, refl, ap, ◌∙◌}
use k8labs.Base.{◌==◌, comparable_nat, contains, codes, or-eq_false, arith}
use text.Mathlib.TextLemmas.{cons-append, nil-append}
use k8labs.Base.{ok}
use k8labs.Kernel.{Nvr, shown, partition_dash, parse_nvr, derive_nvr, nvr_of, or_default, given_or}
use mathlib.Core.Option
use k8labs.Kernel.{pinned_source_commit, nvr_version_base, config_fragment_hash}

dash-append : (rest : String) → "-" <> rest ≡ String.◌∷◌ "-" rest
dash-append rest = cons-append "-" "" rest ∙ ap (λ t. String.◌∷◌ "-" t) (nil-append rest)

partition_dash-append :
    (name rest : String)
    → contains (codes name) b'-' ≡ false
    → partition_dash (name <> "-" <> rest) ≡ some (name, rest)
unfolding partition_dash
partition_dash-append String.[] rest h = rw (nil-append ("-" <> rest), dash-append rest) refl
partition_dash-append (String.◌∷◌ c s) rest h =
    let (differ, others) = or-eq_false (b'-' == code c) (contains (codes s) b'-') h in
    let other : (code c == b'-') ≡ false = ground (arith, differ) in
    rw (cons-append c s ("-" <> rest), other, partition_dash-append s rest others) refl

parse_nvr-shown :
    (nvr : Nvr)
    → contains (codes nvr.name) b'-' ≡ false
    → contains (codes nvr.version) b'-' ≡ false
    → parse_nvr (shown nvr) ≡ some nvr
unfolding parse_nvr
parse_nvr-shown nvr no_dash no_dash' =
    rw
      (
        parse_nvr,
        partition_dash-append nvr.name (nvr.version <> "-" <> nvr.release) no_dash,
        partition_dash-append nvr.version nvr.release no_dash',
      )
      refl

-- For the pinned commit a name is derived, and reading it gives the package name, the version and
-- the release that it was made of, with the hash of the fragment if one is given, where neither
-- the name nor the version has a dash.
pub parse_nvr-derive_nvr :
    (sha256 : String → String) (config_hash name : String)
    (version release_prefix config_fragment : Option String)
    → contains (codes name) b'-' ≡ false
    → contains (codes (or_default version nvr_version_base)) b'-' ≡ false
    → (value : String) × (derive_nvr sha256 pinned_source_commit config_hash name version
          release_prefix config_fragment none
        ≡ ok value)
      × (parse_nvr value
          ≡ some (
              nvr_of
                (given_or (Option.map (config_fragment_hash sha256) config_fragment) config_hash)
                name
                version
                release_prefix))
unfolding derive_nvr nvr_of
parse_nvr-derive_nvr sha256 config_hash name version release_prefix config_fragment no_dash
      no_dash' =
    let hash = given_or (Option.map (config_fragment_hash sha256) config_fragment) config_hash in
    (_, refl, parse_nvr-shown (nvr_of hash name version release_prefix) no_dash no_dash')

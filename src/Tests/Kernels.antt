-- ===== src/Tests/Kernels.antt =====
-- The name of a kernel package with the defaults of the build.
use k8labs.Base.{String, none, some, ◌≡◌, refl, ok}
use k8labs.Kernel.{
  derive_nvr, parse_nvr, normalize_config_fragment, unix_lines, strip_lines, nvr_of,
  pinned_source_commit,
}
use k8labs.Kernel.Laws.{parse_nvr-derive_nvr}

mixed_line_ends : normalize_config_fragment "A=y\r\nB=y\rC=n\n\n" ≡ "A=y\nB=y\nC=n\n"
unfolding normalize_config_fragment unix_lines strip_lines
mixed_line_ends = refl

abbrev hash : String → String
hash text = "0123456789abcdef"

parse_nvr-derive_nvr_example :
    (value : String) × (derive_nvr hash pinned_source_commit "" "kernel" none none
        (some "CONFIG_BPF_JIT=y")
        none
      ≡ ok value)
    × (parse_nvr value ≡ some (nvr_of "0123456789abcdef" "kernel" none none))
parse_nvr-derive_nvr_example =
    parse_nvr-derive_nvr hash "" "kernel" none none (some "CONFIG_BPF_JIT=y") refl refl

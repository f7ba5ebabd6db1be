-- ===== src/Tests/Locks.antt =====
-- A lock that passes every check of scripts/lock.py, and the theorems about it.
use k8labs.Base.{String, Option, some, List, [], ◌∷◌, refl, Value, Items, Fields, pos, ok, ◌≡◌}
use k8labs.Base.{◌<>◌}
use k8labs.Tests.Numbers.{thousandths}
use k8labs.Base.{get, All, ℕ, ◌+◌, ◌-◌, ◌≤◌, ◌↔◌, true, false, as_text, as_mapping}
use k8labs.Base.{as_sequence, equals_text}
use k8labs.Base.Dict.{Dict}
use k8labs.Lock.References.Laws.{texts}
use k8labs.Lock.References.Matches.{IsMutable, walk_mutable-IsMutable}
use k8labs.Lock.References.{folded}
use k8labs.Base.{codes}
use k8labs.Lock.Artifacts.Laws.{validate_artifacts-IsArtifact, IsAccepted}
use k8labs.Lock.Matrix.{target, range, last_of}
use k8labs.Lock.Matrix.Laws.{validate_upgrade_matrix-Stages, Stages}
use k8labs.Base.Dict
use k8labs.Lock.Artifacts.{Url, validate_artifacts, check_group, check_artifact, climbs}
use k8labs.Lock.Matrix.{validate_upgrade_matrix, check_stages, check_stage, check_reference}
use k8labs.Lock.References.{kubernetes_version, walk_mutable}
use k8labs.Lock.References.{mutable_reference, mutable_after}

abbrev pub V : Type 0
V = Value (thousandths.Float)

abbrev pub D : Type 0
D = Fields (thousandths.Float)

abbrev t : String → V
t s = Value.text s

abbrev one : String → V → D
one k v = Fields.entry k v Fields.empty

infixr 5 ◌&◌
abbrev ◌&◌ : String × V → D → D
kv & d = Fields.entry kv.0 kv.1 d

abbrev nothing : D
nothing = Fields.empty

abbrev list_of : List V → V
list_of vs = Value.sequence (go vs)
  where
    go : List V → Items (thousandths.Float)
    go [] = Items.last
    go (v ∷ r) = Items.item v (go r)

abbrev pub sha : String
sha = "0123456789abcdef0123456789abcdef0123456789abcdef0123456789abcdef"

abbrev pub artifact : String → String → String → V
artifact id component version = Value.mapping (
    ("id", t id)
    & ("cache_path", t ("bin/" <> id))
    & ("sha256", t sha)
    & ("url", t "https://host/file")
    & ("component", t component)
    & ("version", t version)
    & nothing)

abbrev stage : V
stage = Value.mapping (
    ("kubernetes", t "v1.34.2")
    & ("cri_o", t "v1.34.1")
    & ("kubelet_artifact", t "kubelet")
    & ("control_plane_artifact", t "plane")
    & ("cri_o_artifact", t "crio")
    & nothing)

abbrev version_field : String → V
version_field s = Value.mapping (one "version" (t s))

abbrev image : String
image = "registry/node:v1@sha256:" <> sha

abbrev provider : V
provider = Value.mapping (
    ("version", t "v0.3.17")
    & ("commit", t "0123456789abcdef0123456789abcdef01234567")
    & ("source", Value.mapping (("url", t "https://host/src") & ("sha256", t sha) & nothing))
    & ("image", Value.mapping (one "reference" (t image)))
    & nothing)

abbrev pub lock : D
lock =
    ("schema_version", Value.int (pos 2))
    & ("fedora", Value.mapping (one "kernel" (t "7.3.0")))
    & (
      "kubernetes",
      Value.mapping
          (("version", t "v1.34.2") & ("cri_o", t "v1.34.1") & ("crun", t "1.20") & nothing),
    )
    & ("cilium", version_field "1.18")
    & ("cluster_api", version_field "1.11")
    & ("kind", Value.mapping (("version", t "0.30") & ("node_image", t image) & nothing))
    & ("packer", version_field "1.14")
    & ("cloud_hypervisor", version_field "48")
    & ("cluster_api_hypervisor", provider)
    & (
      "oci_images",
      list_of
          (Value.mapping (("reference", t image) & ("platform", t "linux/amd64") & nothing) ∷ []),
    )
    & (
      "artifacts",
      list_of (
          artifact "kubelet" "kubelet" "v1.34.2"
          ∷ artifact "plane" "kubernetes-control-plane" "v1.34.2"
          ∷ []),
    )
    & ("guest_upgrade_artifacts", list_of (artifact "crio" "cri-o" "v1.34.1" ∷ []))
    & ("kubernetes_upgrade_matrix", list_of (stage ∷ []))
    & nothing

abbrev pub https : String → Option Url
https url = some (record { scheme = "https"; netloc = "host" })

artifacts_of_lock : List (String × D)
unfolding get
artifacts_of_lock =
    ("kubelet", fields_of (artifact "kubelet" "kubelet" "v1.34.2"))
    ∷ ("plane", fields_of (artifact "plane" "kubernetes-control-plane" "v1.34.2"))
    ∷ ("crio", fields_of (artifact "crio" "cri-o" "v1.34.1"))
    ∷ []
  where
    fields_of : V → D
    fields_of (Value.mapping d) = d
    fields_of _ = nothing

passes : validate_artifacts https lock ≡ ok artifacts_of_lock
unfolding validate_artifacts check_group check_artifact get Dict.insert climbs artifacts_of_lock
passes = refl

staged : validate_upgrade_matrix artifacts_of_lock lock ≡ ok tt
unfolding validate_upgrade_matrix check_stages check_stage check_reference get Dict.lookup
    kubernetes_version artifacts_of_lock
staged = refl

validate_artifacts-IsArtifact_example : IsAccepted https lock artifacts_of_lock
validate_artifacts-IsArtifact_example = validate_artifacts-IsArtifact https lock passes

abbrev Upgrades : Type 0
Upgrades =
    (matrix : List V) × (version : String) × (first : ℕ) × (count : ℕ) × (as_sequence
        (get "kubernetes_upgrade_matrix" lock)
      ≡ some matrix)
    × (as_text (target (get "kubernetes" lock) "version") ≡ some version)
    × (1 ≤ count)
    × (kubernetes_version version ≡ some (first + count - 1))
    × Stages artifacts_of_lock matrix (range first count)
    × (final : D) × (as_mapping (last_of matrix) ≡ some final)
    × (equals_text (get "kubernetes" final) version ≡ true)

validate_upgrade_matrix-Stages_example : Upgrades
validate_upgrade_matrix-Stages_example =
    validate_upgrade_matrix-Stages artifacts_of_lock lock staged

walk_mutable-IsMutable_example :
    (walk_mutable (Value.mapping lock) [] ≡ ok tt)
    ↔ All (λ s. ¬ IsMutable (folded (codes s))) (texts (Value.mapping lock))
walk_mutable-IsMutable_example = walk_mutable-IsMutable (Value.mapping lock) []

any_case : mutable_reference "registry/node:MaİN@sha256:" ≡ true
unfolding mutable_reference mutable_after
any_case = refl

not_closed : mutable_reference "registry/mainline:v1" ≡ false
unfolding mutable_reference mutable_after
not_closed = refl

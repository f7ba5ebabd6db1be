-- ===== src/Cache/Layout/Laws.antt =====
-- What the check of an OCI layout of scripts/cache.py lets through.
use k8labs.Base.{String, true, false, Option, none, some, List, [], ◌∷◌, ◌++◌, ◌≡◌, refl, arith}
use Prim.Native.Char.{code}
use text.Mathlib.TextEquality.{Char-path}
use text.Mathlib.TextLemmas.{cons-append, nil-append}
use k8labs.Base.{
  ap, ◌∙◌, ◌<>◌, sym, codes, comparable_nat, ◌==◌, Option-cases, Bool-cases, ok-injective,
}
use k8labs.Cache.Inventory.{is_sha256}
use k8labs.Cache.Layout.{check_marker, check_read, Json, after_reading}
use k8labs.Cache.Layout.{after_prefix, digest_of, Role}
use k8labs.Base.{Result-cases, Bool, comparable_text, as_sequence, equals_text, inl, inr, Result}
use k8labs.Base.{ok, raise, Value, Fields, get, as_mapping, if◌then◌else◌}
use k8labs.Base.Dict
use k8labs.Base.Dict.{Dict}
use k8labs.Cache.Layout.{Image, LayoutProblem, LayoutError, manifest_blob, only_manifest}
use k8labs.Cache.Layout.{validate_blob, after_these, check_descriptor, check_manifest_blob}
use k8labs.Cache.Layout.{digest_mismatch, is_marker, read_json, noted, check_index}
use k8labs.Cache.Layout.{validate_oci_layout}

after_prefix-eq_some :
    (prefix s : String) {rest : String}
    → after_prefix (codes prefix) s ≡ some rest
    → s ≡ prefix <> rest
after_prefix-eq_some String.[] s {rest} h =
    let e : s ≡ rest = ground arith in e ∙ sym (nil-append rest)
after_prefix-eq_some (String.◌∷◌ c prefix) String.[] h = absurd (cc)
after_prefix-eq_some (String.◌∷◌ c prefix) (String.◌∷◌ d s) {rest} h =
    elim (Bool-cases (code c == code d)) [
      | inl same ↦
          let char : c ≡ d = Char-path c d (comparable_nat.same_iff.0 same) in
          let tail = after_prefix-eq_some prefix s {rest = rest} (rw (after_prefix, same) at h) in
          rw (cons-append c prefix rest, char, tail) refl
      | inr differ ↦ absurd (cc (rw (after_prefix, differ) at h))
    ]

digest_of-eq_some :
    (t : String) {hex : String}
    → digest_of (some t) ≡ some hex
    → (t ≡ "sha256:" <> hex) × (is_sha256 hex ≡ true)
digest_of-eq_some t {hex} h = elim (Option-cases (after_prefix (codes "sha256:") t)) [
  | inl other ↦ absurd (cc (rw (digest_of, other) at h))
  | inr (found, e) ↦ elim (Bool-cases (is_sha256 found)) [
    | inl good ↦
        let same : found ≡ hex = ground (arith, rw (digest_of, e, good) at h) in
        (
          after_prefix-eq_some "sha256:" t e ∙ ap (λ x. "sha256:" <> x) same,
          ap is_sha256 (sym same) ∙ good,
        )
    | inr bad ↦ absurd (cc (rw (digest_of, e, bad) at h))
  ]
]

module _ (C F : Type 0) (sha256 : C → String) (json : C → Json F) where
  noted-marker :
      (file : String) (o : Option (Value F))
      → is_marker o ≡ true
      → noted C F sha256 json file o ≡ []
  noted-marker file none h = absurd (cc)
  noted-marker file (some value) h = refl

  check_index_no_object :
      (image : Image) (directory : Dict String C) (index : Option (Value F))
      → as_mapping index ≡ none
      → check_index C F sha256 json image directory index ≡ ok []
  unfolding check_index
  check_index_no_object image directory index no_object = rw no_object refl

  -- An index that is JSON but no object, beside the marker of a layout, makes the check report no
  -- problem, for any image, although no manifest, config or layer has been looked at.
  pub validate_oci_layout_index_no_object :
      (image : Image) (directory : Dict String C) (layout : Option (Value F)) (index : Value F)
      → read_json C F sha256 json (Dict.lookup "oci-layout" directory) ≡ ok layout
      → is_marker layout ≡ true
      → read_json C F sha256 json (Dict.lookup "index.json" directory) ≡ ok (some index)
      → as_mapping (some index) ≡ none
      → validate_oci_layout C F sha256 json image directory ≡ ok []
  unfolding validate_oci_layout
  validate_oci_layout_index_no_object image directory layout index marker marked read no_object =
      rw
        (
          marker,
          read,
          noted-marker "oci-layout" layout marked,
          marked,
          check_index_no_object image directory (some index) no_object,
        )
        refl

  append-eq_nil : (xs ys : List LayoutProblem) → xs ++ ys ≡ [] → (xs ≡ []) × (ys ≡ [])
  append-eq_nil [] ys h = (refl, h)
  append-eq_nil (x ∷ xs) ys h = absurd (cc)

  after_these-eq_nil :
      (ps : List LayoutProblem) (m : Result LayoutError (List LayoutProblem))
      → after_these C F sha256 json ps m ≡ ok []
      → (ps ≡ []) × (m ≡ ok [])
  after_these-eq_nil [] (ok more) h = (refl, h)
  after_these-eq_nil (p ∷ ps) (ok more) h = absurd (cc)
  after_these-eq_nil ps (raise e) h = absurd (cc)

  -- The manifest of the index has the locked digest, and its blob is there under that digest.
  pub record IsPinned (image : Image) (directory : Dict String C) (index : Fields F) : Type 0 where
    pub descriptor : Fields F
    pub descriptor_is : only_manifest (as_sequence (get "manifests" index)) ≡ some descriptor
    pub digest_is : equals_text (get "digest" descriptor) image.manifest_digest ≡ true
    pub manifest : C
    pub manifest_is :
        validate_blob C F sha256 json directory (get "digest" descriptor) manifest_blob
        ≡ ok manifest
    pub hex : String
    pub hex_is : is_sha256 hex ≡ true
    pub locked : image.manifest_digest ≡ "sha256:" <> hex
    pub stored : Dict.lookup ("blobs/sha256/" <> hex) directory ≡ some manifest
    pub hashed : sha256 manifest ≡ hex

  -- A blob that is accepted stands under the digits of its digest, which are those of its SHA-256.
  validate_blob-eq-ok :
      (directory : Dict String C) (o : Option (Value F)) (digest : String) (role : Role)
      {content : C}
      → equals_text o digest ≡ true
      → validate_blob C F sha256 json directory o role ≡ ok content
      → (hex : String) × (digest ≡ "sha256:" <> hex)
        × (is_sha256 hex ≡ true)
        × (Dict.lookup ("blobs/sha256/" <> hex) directory ≡ some content)
        × (sha256 content ≡ hex)
  unfolding validate_blob
  validate_blob-eq-ok directory (some (Value.text t)) digest role {content} same h =
      elim (Option-cases (digest_of (some t))) [
        | inl none_found ↦ absurd (cc (rw none_found at h))
        | inr (hex, found) ↦
            let h' = rw found at h in
            let (named, good) = digest_of-eq_some t found in
            let e : t ≡ digest = comparable_text.same_iff.0 same in
            elim (Option-cases (Dict.lookup ("blobs/sha256/" <> hex) directory)) [
              | inl lacking ↦ absurd (cc (rw lacking at h'))
              | inr (stored, there) ↦
                  let h'' = rw there at h' in
                  elim (Bool-cases (sha256 stored == hex)) [
                    | inl equal ↦
                        let it : stored ≡ content = ok-injective (rw equal at h'') in
                        (
                          hex,
                          sym e ∙ named,
                          good,
                          there ∙ ap some it,
                          ap sha256 (sym it) ∙ comparable_text.same_iff.0 equal,
                        )
                    | inr differ ↦ absurd (cc (rw differ at h''))
                  ]
            ]
      ]
  validate_blob-eq-ok directory none digest role same h = absurd (cc)
  validate_blob-eq-ok directory (some Value.null) digest role same h = absurd (cc)
  validate_blob-eq-ok directory (some Value.other) digest role same h = absurd (cc)
  validate_blob-eq-ok directory (some (Value.boolean b)) digest role same h = absurd (cc)
  validate_blob-eq-ok directory (some (Value.int n)) digest role same h = absurd (cc)
  validate_blob-eq-ok directory (some (Value.float x)) digest role same h = absurd (cc)
  validate_blob-eq-ok directory (some (Value.mapping fs)) digest role same h = absurd (cc)
  validate_blob-eq-ok directory (some (Value.sequence vs)) digest role same h = absurd (cc)

  check_descriptor-IsPinned :
      (image : Image) (directory : Dict String C) (index : Fields F) (o : Option (Fields F))
      → only_manifest (as_sequence (get "manifests" index)) ≡ o
      → check_descriptor C F sha256 json image directory o ≡ ok []
      → IsPinned image directory index
  check_descriptor-IsPinned image directory index none e h = absurd (cc)
  check_descriptor-IsPinned image directory index (some descriptor) e h =
      let digest = get "digest" descriptor in
      let blob = validate_blob C F sha256 json directory digest manifest_blob in
      let (same, rest) =
        after_these-eq_nil
          (if equals_text digest image.manifest_digest then [] else digest_mismatch ∷ [])
          (check_manifest_blob C F sha256 json image directory blob) h in
      elim (Result-cases blob) [
        | inl (manifest, there) ↦
            let content_of =
              validate_blob-eq-ok directory digest image.manifest_digest manifest_blob
                (test_of _ same) there in
            record {
              descriptor = descriptor;
              descriptor_is = e;
              digest_is = test_of _ same;
              manifest = manifest;
              manifest_is = there;
              hex = content_of.0;
              hex_is = content_of.2;
              locked = content_of.1;
              stored = content_of.3;
              hashed = content_of.4;
            }
        | inr (problem, failed) ↦ absurd (no_manifest problem blob failed rest)
      ]
    where
      test_of : (b : Bool) → (if b then [] else digest_mismatch ∷ []) ≡ [] → b ≡ true
      test_of true h' = refl
      test_of false h' = absurd (cc)

      no_manifest :
          (problem : LayoutProblem) (m : Result LayoutProblem C)
          → m ≡ raise problem
          → check_manifest_blob C F sha256 json image directory m ≡ ok []
          → ⊥
      no_manifest problem (ok content) e' h' = absurd (cc)
      no_manifest problem (raise p) e' h' = absurd (cc)

  check_index-IsPinned :
      (image : Image) (directory : Dict String C) (value : Option (Value F)) (index : Fields F)
      → as_mapping value ≡ some index
      → check_index C F sha256 json image directory value ≡ ok []
      → IsPinned image directory index
  unfolding check_index
  check_index-IsPinned image directory value index is_map h =
      check_descriptor-IsPinned image directory index _ refl (rw is_map at h)

  after_reading-eq_nil :
      (reading : Result LayoutError (Option (Value F)))
      (next : Option (Value F) → Result LayoutError (List LayoutProblem))
      → after_reading C F sha256 json reading next ≡ ok []
      → (value : Option (Value F)) × (reading ≡ ok value) × (next value ≡ ok [])
  after_reading-eq_nil (ok value) next h = (value, refl, h)
  after_reading-eq_nil (raise e) next h = absurd (cc)

  -- Where the index is an object, a check without a problem means that the locked digest is sha256:
  -- and 64 hexadecimal digits, that the one manifest of the index has that digest, and that its blob
  -- stands under these digits with a content of which they are the SHA-256.
  pub validate_oci_layout-IsPinned :
      (image : Image) (directory : Dict String C) (value : Value F) (index : Fields F)
      → read_json C F sha256 json (Dict.lookup "index.json" directory) ≡ ok (some value)
      → as_mapping (some value) ≡ some index
      → validate_oci_layout C F sha256 json image directory ≡ ok []
      → IsPinned image directory index
  unfolding validate_oci_layout
  validate_oci_layout-IsPinned image directory value index read is_map h =
      let (layout, _, h1) =
        after_reading-eq_nil (read_json C F sha256 json (Dict.lookup "oci-layout" directory))
          (check_marker C F sha256 json image directory) h in
      let (found, same, h2) =
        after_reading-eq_nil (read_json C F sha256 json (Dict.lookup "index.json" directory))
          (check_read C F sha256 json image directory layout) h1 in
      let e : found ≡ some value = ok-injective (sym same ∙ read) in
      let (_, h3) = after_these-eq_nil _ (check_index C F sha256 json image directory found) h2 in
      check_index-IsPinned image directory found index (ap as_mapping e ∙ is_map) h3

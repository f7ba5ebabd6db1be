-- ===== src/Cache/Images/Laws.antt =====
-- What the population of the images of scripts/cache.py leaves.
use k8labs.Base.{String, Option, none, some, List, [], ◌∷◌, ◌≡◌, refl, sym}
use k8labs.Base.{ap, ◌∙◌, All, ok, raise, Result-cases, inl, inr}
use k8labs.Base.{comparable_text}
use k8labs.Base.Dict.{Dict}
use k8labs.Cache.Layout.{Json}
use k8labs.Cache.Layout.{Image, validate_oci_layout}
use k8labs.Base.{Bool-cases, ◌||◌}
use k8labs.Cache.Paths.{Files, comparable_parts, is_inside, is_file, is_directory, below_file}
use k8labs.Cache.Paths.{directory_at, Apart}
use k8labs.Cache.Paths.{without-other, replaced-other, replaced_self}
use k8labs.Cache.Images.{AfterCopy, fetch, and_then, destination_of, replace}
use mathlib.Core.Path.{subst}
use k8labs.Cache.Images.{populate_oci_image, populate_images}

module _ (C F : Type 0) (sha256 : C → String) (json : C → Json F) where
  -- The check of the directory of the image reports nothing.
  abbrev pub IsValid : Files C → Image → Type 0
  IsValid store image =
      validate_oci_layout C F sha256 json image (directory_at (destination_of image) store) ≡ ok []

  abbrev pub seen : List String → AfterCopy C F sha256 json → Dict String C
  seen q after = directory_at q after.0

  replace-other :
      (p q : List String) (stage store : Files C)
      → Apart p q
      → seen q (replace C F sha256 json p stage store) ≡ directory_at q store
  unfolding replace
  replace-other p q stage store apart = elim (Bool-cases (is_inside p (".staging" ∷ []))) [
    | inl staging ↦ rw staging (without-other p q store apart)
    | inr safe ↦ elim (Bool-cases (is_file p store || below_file p store)) [
      | inl taken ↦ rw (safe, taken) refl
      | inr free ↦ rw (safe, free) (replaced-other p q stage store apart)
    ]
  ]

  replace_self :
      (p : List String) (stage store : Files C)
      → (replace C F sha256 json p stage store).1 ≡ ok tt
      → seen p (replace C F sha256 json p stage store) ≡ directory_at [] stage
  unfolding replace
  replace_self p stage store h = elim (Bool-cases (is_inside p (".staging" ∷ []))) [
    | inl staging ↦ absurd (cc (rw staging at h))
    | inr safe ↦ elim (Bool-cases (is_file p store || below_file p store)) [
      | inl taken ↦ absurd (cc (rw (safe, taken) at h))
      | inr free ↦ rw (safe, free) (replaced_self p stage store)
    ]
  ]

  fetch-IsValid :
      (image : Image) (copied : Option (Files C)) (store : Files C)
      → (fetch C F sha256 json image copied store).1 ≡ ok tt
      → IsValid (fetch C F sha256 json image copied store).0 image
  fetch-IsValid image none store h = absurd (cc)
  fetch-IsValid image (some stage) store h =
      let checked = validate_oci_layout C F sha256 json image (directory_at [] stage) in
      elim (Result-cases checked) [
        | inl ([], valid) ↦
            let h' = rw valid at h in
            rw valid (
              ap (validate_oci_layout C F sha256 json image)
                (replace_self (destination_of image) stage store h')
              ∙ valid)
        | inl (problem ∷ more, wrong) ↦ absurd (cc (rw wrong at h))
        | inr (e, raised) ↦ absurd (cc (rw raised at h))
      ]

  fetch-other :
      (image : Image) (copied : Option (Files C)) (store : Files C) (q : List String)
      → Apart (destination_of image) q
      → seen q (fetch C F sha256 json image copied store) ≡ directory_at q store
  fetch-other image none store q apart = refl
  fetch-other image (some stage) store q apart =
      elim (Result-cases (validate_oci_layout C F sha256 json image (directory_at [] stage))) [
        | inl ([], valid) ↦ rw valid (replace-other (destination_of image) q stage store apart)
        | inl (problem ∷ more, wrong) ↦ rw wrong refl
        | inr (e, raised) ↦ rw raised refl
      ]

  populate_oci_image-IsValid :
      (image : Image) (copied : Option (Files C)) (store : Files C)
      → (populate_oci_image C F sha256 json image copied store).1 ≡ ok tt
      → IsValid (populate_oci_image C F sha256 json image copied store).0 image
  unfolding populate_oci_image
  populate_oci_image-IsValid image copied store h =
      let p = destination_of image in
      let checked = validate_oci_layout C F sha256 json image (directory_at p store) in
      elim (Bool-cases (is_directory p store)) [
        | inr absent ↦ rw absent (fetch-IsValid image copied store (rw absent at h))
        | inl there ↦ elim (Result-cases checked) [
          | inl ([], valid) ↦ rw (there, valid) valid
          | inl (problem ∷ more, wrong) ↦
              rw (there, wrong) (fetch-IsValid image copied store (rw (there, wrong) at h))
          | inr (e, raised) ↦ absurd (cc (rw (there, raised) at h))
        ]
      ]

  populate_oci_image-other :
      (image : Image) (copied : Option (Files C)) (store : Files C) (q : List String)
      → Apart (destination_of image) q
      → seen q (populate_oci_image C F sha256 json image copied store) ≡ directory_at q store
  unfolding populate_oci_image
  populate_oci_image-other image copied store q apart =
      let p = destination_of image in
      elim (Bool-cases (is_directory p store)) [
        | inr absent ↦ rw absent (fetch-other image copied store q apart)
        | inl there ↦
            elim (Result-cases (validate_oci_layout C F sha256 json image (directory_at p store))) [
              | inl ([], valid) ↦ rw (there, valid) refl
              | inl (problem ∷ more, wrong) ↦
                  rw (there, wrong) (fetch-other image copied store q apart)
              | inr (e, raised) ↦ rw (there, raised) refl
            ]
      ]

  and_then-keeps :
      (P : Files C → Type 0) (first next : AfterCopy C F sha256 json)
      → P first.0
      → P next.0
      → P (and_then C F sha256 json first next).0
  and_then-keeps P (store, ok done) next p q = q
  and_then-keeps P (store, raise e) next p q = p

  and_then-eq-ok :
      (first next : AfterCopy C F sha256 json)
      → (and_then C F sha256 json first next).1 ≡ ok tt
      → (first.1 ≡ ok tt) × (and_then C F sha256 json first next ≡ next)
  and_then-eq-ok (store, ok tt) next h = (refl, refl)
  and_then-eq-ok (store, raise e) next h = absurd (cc)

  -- No image lies in the directory of another.
  abbrev pub AllApart : List Image → Type 0
  AllApart [] = Unit
  AllApart (image ∷ more) =
      All (λ i. Apart (destination_of i) (destination_of image)) more × AllApart more

  populate_images-other :
      (copy : Image → Option (Files C)) (images : List Image) (store : Files C) (q : List String)
      → All (λ i. Apart (destination_of i) q) images
      → seen q (populate_images C F sha256 json copy images store) ≡ directory_at q store
  unfolding populate_images
  populate_images-other copy [] store q apart = refl
  populate_images-other copy (image ∷ more) store q apart =
      let first = populate_oci_image C F sha256 json image (copy image) store in
      let kept = populate_oci_image-other image (copy image) store q apart.0 in
      and_then-keeps (λ s. directory_at q s ≡ directory_at q store) first
        (populate_images C F sha256 json copy more first.0) kept
        (populate_images-other copy more first.0 q apart.1 ∙ kept)

  -- After a population of images that did not raise, the check of the directory of each reports
  -- nothing, where no image lies in the directory of another, as paths with the same parts would.
  pub populate_images-IsValid :
      (copy : Image → Option (Files C)) (images : List Image) (store : Files C)
      → AllApart images
      → (populate_images C F sha256 json copy images store).1 ≡ ok tt
      → All (IsValid (populate_images C F sha256 json copy images store).0) images
  unfolding populate_images
  populate_images-IsValid copy [] store apart h = tt
  populate_images-IsValid copy (image ∷ more) store apart h =
      let first = populate_oci_image C F sha256 json image (copy image) store in
      let next = populate_images C F sha256 json copy more first.0 in
      let (done, same) = and_then-eq-ok first next h in
      let valid = populate_oci_image-IsValid image (copy image) store done in
      let kept = populate_images-other copy more first.0 (destination_of image) apart.0 in
      let still = ap (validate_oci_layout C F sha256 json image) kept ∙ valid in
      let rest = populate_images-IsValid copy more first.0 apart.1 (ap (λ a. a.1) (sym same) ∙ h) in
      subst (λ a. All (IsValid a.0) (image ∷ more)) (sym same) (still, rest)

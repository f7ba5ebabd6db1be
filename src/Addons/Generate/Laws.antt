-- ===== src/Addons/Generate/Laws.antt =====
-- What the check mode of scripts/generate_capi_addons.py accepts.
use k8labs.Base.{ℕ, String, ◌==◌, comparable_text, Bool, true, false, Option, none, some}
use k8labs.Base.{List, [], ◌∷◌, All, All-map, ◌≡◌, ◌↔◌, refl, sym, ap, inl, inr, Bool-cases}
use k8labs.Base.{Floats, Value, Result, Result-cases, ok, raise, sort_by, sort_by-All, All-sort_by}
use k8labs.Base.{lt_text}
use k8labs.Base.{ends_with, arith, Option-cases, and-eq_true, same_refl}
use k8labs.Base.Dict.{lookup, Keyed, insert-Keyed, Keyed-lookup}
use k8labs.Addons.{SecretGroup}
use k8labs.Addons.Discover.{AddonError, Found, discover_manifests}
use k8labs.Addons.Generate.{Files, World, Sources, Secrets, Step, after, write_secret}
use k8labs.Addons.Generate.{write_groups}
use k8labs.Addons.Generate.{generate_one, generate_cilium, cilium_groups, generate_secrets}
use k8labs.Addons.Generate.{write_crs, with_crs, generate_all, compare, judged, check, Args, main}
use k8labs.Addons.Generate.{status_of_check, status_of_generate}

-- A file of the name of a manifest is the one that was generated.
abbrev pub IsGenerated : Files → String × String → Type 0
IsGenerated expected f = ends_with ".yaml" f.0 ≡ true → lookup f.0 expected ≡ some f.1

pub compare_iff :
    (expected output : Files) → compare expected output ≡ true ↔ All (IsGenerated expected) output
unfolding compare
compare_iff expected [] = (λ h. tt, λ h. refl)
compare_iff expected ((name, content) ∷ more) =
    let rest = compare_iff expected more in
    elim (Bool-cases (ends_with ".yaml" name)) [
      | inl yaml ↦ elim (Option-cases (lookup name expected)) [
        | inl missing ↦ rw (yaml, missing) (λ h. absurd (cc h), λ h. absurd (cc (h.0 refl)))
        | inr (generated, found) ↦
            rw (yaml, found)
              (
                λ h.
                    let (same, others) =
                      and-eq_true (content == generated) (compare expected more) h in
                    (
                      λ e.
                          ap some
                            (sym ((comparable_text.same_iff {x = content} {y = generated}).0 same)),
                      rest.0 others,
                    ),
                λ h.
                    let same : content ≡ generated = cc (h.0 refl) in
                    rw same (rw (same_refl generated) (rest.1 h.1)),
              )
      ]
      | inr other ↦ rw other (λ h. (λ e. absurd (cc e), rest.0 h), λ h. rest.1 h.1)
    ]

-- Sorted or not, a directory passes for the same files.
compare-sort_by_iff :
    (expected output : Files)
    → compare expected (sort_by (λ a b. lt_text a.0 b.0) output) ≡ true
      ↔ All (IsGenerated expected) output
compare-sort_by_iff expected output =
    let by_name = λ (a b : String × String). lt_text a.0 b.0 in
    let loop = compare_iff expected (sort_by by_name output) in
    (
      λ h. All-sort_by (IsGenerated expected) by_name output (loop.0 h),
      λ h. loop.1 (sort_by-All (IsGenerated expected) by_name output h),
    )

module _ (F : Floats) (base64 : List ℕ → String) (dump : Value F.Float → String) where
  -- The generation for the check, into an empty directory.
  abbrev pub fresh : Sources → World → World × Result AddonError Secrets
  fresh sources world =
      generate_all F base64 dump sources none "k8labs" [] true
        record { output = []; tracked = world.tracked }

  -- Where the generation for the check returns, the check accepts an output directory exactly if
  -- every manifest that stands there is as generated: one that is missing is not noticed. It
  -- changes nothing there, and leaves the tracked files as the generation wrote them.
  pub check_iff :
      (sources : Sources) (world made : World) (results : Secrets)
      → fresh sources world ≡ (made, ok results)
      → ((check F base64 dump sources world).1 ≡ ok true
          ↔ All (IsGenerated made.output) world.output)
        × ((check F base64 dump sources world).0
            ≡ record { output = world.output; tracked = made.tracked })
  unfolding check judged
  check_iff sources world made results generated =
      let judgement = compare-sort_by_iff made.output world.output in
      rw generated ((λ h. judgement.0 (cc h), λ h. rw (judgement.1 h) refl), refl)

  -- The files of a step have each name once.
  write_groups-Keyed :
      (groups : List SecretGroup) (files : Files)
      → Keyed files
      → Keyed (write_groups F base64 dump groups files)
  unfolding write_groups write_secret
  write_groups-Keyed [] files h = h
  write_groups-Keyed (group ∷ more) files h =
      write_groups-Keyed more (write_secret F base64 dump group files) (insert-Keyed _ _ files h)

  write_crs-Keyed :
      (cluster_name : String) (results : Secrets) (files : Files)
      → Keyed files
      → Keyed (write_crs F base64 dump cluster_name results files)
  unfolding write_crs
  write_crs-Keyed cluster_name [] files h = h
  write_crs-Keyed cluster_name ((addon, names) ∷ more) files h =
      write_crs-Keyed cluster_name more _ (insert-Keyed _ _ files h)

  generate_one-Keyed :
      (base_name addon : String) (found : Option (List Found)) (files : Files)
      → Keyed files
      → Keyed (generate_one F base64 dump base_name addon found files).0
  unfolding generate_one write_secret
  generate_one-Keyed base_name addon found files h =
      elim (Result-cases (discover_manifests base64 addon found)) [
        | inl (entries, e) ↦ rw (e, Keyed) (insert-Keyed _ _ files h)
        | inr (error, e) ↦ rw (e, Keyed) h
      ]

  generate_cilium-Keyed :
      (found : Option (List Found)) (limit : Option ℕ) (existing : List (List (List ℕ)))
      (files : Files)
      → Keyed files
      → Keyed (generate_cilium F base64 dump found limit existing files).0
  unfolding generate_cilium
  generate_cilium-Keyed found limit existing files h =
      elim (Result-cases (cilium_groups F base64 dump found limit existing)) [
        | inl (groups, e) ↦ rw (e, Keyed) (write_groups-Keyed groups files h)
        | inr (error, e) ↦ rw (e, Keyed) h
      ]

after-Keyed :
    {A B : Type 0} (first : Step A) (next : Files → A → Step B)
    → Keyed first.0
    → ((files : Files) (value : A) → Keyed files → Keyed (next files value).0)
    → Keyed (after first next).0
unfolding after
after-Keyed (files, raise e) next h step = h
after-Keyed (files, ok value) next h step = step files value h

module _ (F : Floats) (base64 : List ℕ → String) (dump : Value F.Float → String) where
  generate_secrets-Keyed :
      (sources : Sources) (limit : Option ℕ) (existing : List (List (List ℕ))) (files : Files)
      → Keyed files
      → Keyed (generate_secrets F base64 dump sources limit existing files).0
  unfolding generate_secrets
  generate_secrets-Keyed sources limit existing files h =
      after-Keyed _ _ (generate_one-Keyed F base64 dump _ _ _ files h) λ with_rbac rbac h_rbac.
        after-Keyed _ _ (generate_one-Keyed F base64 dump _ _ _ with_rbac h_rbac)
          λ both coredns h_both.
            after-Keyed _ _ (generate_cilium-Keyed F base64 dump _ limit existing both h_both)
              λ made cilium h_made. h_made

  with_crs-Keyed :
      (cluster_name : String) (update : Bool) (world : World) (step : Step Secrets)
      → Keyed step.0
      → Keyed ((with_crs F base64 dump cluster_name update world step).0).output
  unfolding with_crs
  with_crs-Keyed cluster_name update world (files, raise e) h = h
  with_crs-Keyed cluster_name update world (files, ok results) h =
      write_crs-Keyed F base64 dump cluster_name results files h

  -- What was generated into an empty directory is accepted there.
  accepted : (world : World) → Keyed world.output → All (IsGenerated world.output) world.output
  accepted world keyed =
      (All-map (λ f. lookup f.0 world.output ≡ some f.1) (IsGenerated world.output) world.output
        (λ f found yaml. found) (Keyed-lookup world.output keyed))

  -- The files that are made do not depend on the tracked ones.
  with_crs-again :
      (first second : World) (step : Step Secrets) {made : World} {results : Secrets}
      → with_crs F base64 dump "k8labs" true first step ≡ (made, ok results)
      → (again : World) × (with_crs F base64 dump "k8labs" true second step ≡ (again, ok results))
        × (again.output ≡ made.output)
  unfolding with_crs
  with_crs-again first second (files, raise e) h = absurd (cc)
  with_crs-again first second (files, ok results) {made = made} h =
      let again : World = (with_crs F base64 dump "k8labs" true second (files, ok results)).0 in
      (again, ap (λ r. (again, r)) (ap (λ x. x.1) h), ap (λ x. (x.0).output) h)

  check-fresh :
      (sources : Sources) (world made : World) (results : Secrets)
      → fresh F base64 dump sources world ≡ (made, ok results)
      → (check F base64 dump sources made).1 ≡ ok true
  unfolding generate_all
  check-fresh sources world made results generated =
      let start : World = record { output = []; tracked = made.tracked } in
      let (again, remade, same) =
        with_crs-again record { output = []; tracked = world.tracked } start
          (generate_secrets F base64 dump sources none [] []) generated in
      let keyed : Keyed made.output = rw⁻¹ (ap (λ x. x.0) generated) (
        with_crs-Keyed "k8labs" true record { output = []; tracked = world.tracked }
          (generate_secrets F base64 dump sources none [] [])
          (generate_secrets-Keyed sources none [] [] tt)) in
      (check_iff F base64 dump sources made again results remade).0.1
        (rw same (accepted made keyed))

-- The arguments of the command that the documentation gives, and those of its check.
abbrev pub generation : Args
generation = record {
  check = false;
  output_exists = true;
  cilium_limit = none;
  cluster_name = "k8labs";
}

status_of_generate-zero :
    (x : World × Result AddonError Secrets) (made : World)
    → status_of_generate x ≡ (made, 0)
    → (results : Secrets) × (x ≡ (made, ok results))
unfolding status_of_generate
status_of_generate-zero (world, raise e) made h = absurd (omega (arith, ap (λ x. x.1) h))
status_of_generate-zero (world, ok results) made h =
    (results, ap (λ w. (w, ok results)) (ap (λ x. x.0) h))

status_of_check-true :
    (x : World × Result AddonError Bool) → x.1 ≡ ok true → (status_of_check x).1 ≡ 0
unfolding status_of_check
status_of_check-true (world, raise e) h = absurd (cc)
status_of_check-true (world, ok valid) h = let yes : valid ≡ true = cc in rw yes refl

module _ (F : Floats) (base64 : List ℕ → String) (dump : Value F.Float → String) where
  -- After a generation into an empty directory with the default limit and the default cluster name
  -- that exits with 0, the command in check mode exits with 0 on that directory, if it exists.
  pub main-main :
      (sources : Sources) (tracked : Files) (made : World) (args : Args)
      → main F base64 dump generation sources record { output = []; tracked = tracked } ≡ (made, 0)
      → args.check ≡ true
      → args.output_exists ≡ true
      → (main F base64 dump args sources made).1 ≡ 0
  unfolding main
  main-main sources tracked made args generated checks exists =
      let start : World = record { output = []; tracked = tracked } in
      let (results, fresh_made) =
        status_of_generate-zero (fresh F base64 dump sources start) made generated in
      rw (checks, exists)
        (status_of_check-true (check F base64 dump sources made)
          (check-fresh F base64 dump sources start made results fresh_made))

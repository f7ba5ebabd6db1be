-- ===== src/Firmware/Laws.antt =====
-- What the signature lists of scripts/edk2_esl.py hold.
use k8labs.Base.{ℕ, zero, suc, ◌+◌, ◌-◌, ◌*◌, ◌≤◌, ◌<◌, true, some}
use k8labs.Base.{List, [], ◌∷◌, ◌++◌, map, ◌≡◌, refl, arith, length, length-append, All, all}
use k8labs.Base.{take-append, drop-append, ltb, lt→ltb, ge→ltb, ◌==◌, comparable_nat}
use k8labs.Base.{same_refl, ok}
use k8labs.Firmware.Bytes.{EslError, le_bytes, pack}
use k8labs.Firmware.Bytes
use k8labs.Firmware.Reader.{le_number, Signature, read_signatures, read_list}
use k8labs.Firmware.{efi_cert_x509_guid, k8labs_owner_guid, guid_of, guid_bytes, entries_of}
use k8labs.Firmware.{first_length, build_signature_list}

-- The bytes of the two GUIDs of the module.
abbrev pub owner_bytes : List ℕ
owner_bytes =
    30 ∷ 60 ∷ 27 ∷ 107 ∷ 74 ∷ 111 ∷ 142 ∷ 76 ∷ 155 ∷ 45 ∷ 15 ∷ 122 ∷ 92 ∷ 62 ∷ 29 ∷ 66 ∷ []

abbrev pub x509_bytes : List ℕ
x509_bytes =
    161 ∷ 89 ∷ 192 ∷ 165 ∷ 228 ∷ 148 ∷ 167 ∷ 74 ∷ 135 ∷ 181 ∷ 171 ∷ 21 ∷ 92 ∷ 43 ∷ 240 ∷ 114 ∷ []

guid_bytes-owner : guid_bytes k8labs_owner_guid ≡ ok owner_bytes
unfolding guid_bytes guid_of Bytes.split_dashes Bytes.strip Bytes.strip_left Bytes.int16
    Bytes.unsigned16 Bytes.prefixed Bytes.hex_number Bytes.hex_digit Bytes.fromhex Bytes.pack_int
    pack le_bytes
guid_bytes-owner = refl

guid_bytes-x509 : guid_bytes efi_cert_x509_guid ≡ ok x509_bytes
unfolding guid_bytes guid_of Bytes.split_dashes Bytes.strip Bytes.strip_left Bytes.int16
    Bytes.unsigned16 Bytes.prefixed Bytes.hex_number Bytes.hex_digit Bytes.fromhex Bytes.pack_int
    pack le_bytes
guid_bytes-x509 = refl

le_number-le_bytes : (n : ℕ) → n < 4294967296 → le_number (le_bytes 4 n) ≡ n
unfolding le_bytes
le_number-le_bytes n h = omega (arith, h)

module _ (n : ℕ) where
  -- All certificates have `n` bytes.
  abbrev pub SameSize : List (List ℕ) → Type 0
  SameSize certificates = All (λ c. length c ≡ n) certificates

  length-entries_of :
      (certificates : List (List ℕ))
      → SameSize certificates
      → length (entries_of owner_bytes certificates) ≡ length certificates * (16 + n)
  unfolding entries_of
  length-entries_of [] h = omega arith
  length-entries_of (c ∷ more) h =
      omega (arith, h.0, length-entries_of more h.1, length-append c (entries_of owner_bytes more))

  -- The signatures that a list of these certificates stands for.
  abbrev pub signatures_of : List (List ℕ) → List Signature
  signatures_of certificates = map (λ c. record { owner = owner_bytes; content = c }) certificates

  read_signatures-entries_of :
      (fuel : ℕ) (certificates : List (List ℕ))
      → SameSize certificates
      → length certificates ≤ fuel
      → read_signatures fuel n (entries_of owner_bytes certificates)
        ≡ some (signatures_of certificates)
  unfolding entries_of
  read_signatures-entries_of zero [] h enough = refl
  read_signatures-entries_of (suc fuel) [] h enough = refl
  read_signatures-entries_of zero (c ∷ more) h enough = absurd (omega (arith, enough))
  read_signatures-entries_of (suc fuel) (c ∷ more) h enough =
      let rest = entries_of owner_bytes more in
      let long : n ≤ length (c ++ rest) = omega (arith, h.0, length-append c rest) in
      rw
        (
          ge→ltb (length (c ++ rest)) n long,
          take-append n c rest h.0,
          drop-append n c rest h.0,
          read_signatures-entries_of fuel more h.1 (omega (arith, enough)),
        )
        refl

  all-SameSize :
      (m : ℕ) (certificates : List (List ℕ))
      → m ≡ n
      → SameSize certificates
      → all (λ c. 16 + length c == 16 + m) certificates ≡ true
  all-SameSize m [] e h = refl
  all-SameSize m (c ∷ more) e h = rw (h.0, e, same_refl (16 + n)) (all-SameSize m more e h.1)

  -- The bytes of the list.
  abbrev pub blob_of : List (List ℕ) → List ℕ
  blob_of certificates =
      x509_bytes
      ++ le_bytes 4 (28 + length (entries_of owner_bytes certificates))
      ++ le_bytes 4 0
      ++ le_bytes 4 (16 + n)
      ++ entries_of owner_bytes certificates

  build_signature_list-eq :
      (certificates : List (List ℕ))
      → SameSize certificates
      → 1 ≤ length certificates
      → 28 + length certificates * (16 + n) < 4294967296
      → build_signature_list certificates ≡ ok (blob_of certificates)
  unfolding build_signature_list first_length pack
  build_signature_list-eq [] h some_given small = absurd (omega (arith, some_given))
  build_signature_list-eq (c ∷ more) h some_given small =
      let entries = length-entries_of (c ∷ more) h in
      let equal = all-SameSize (length c) (c ∷ more) h.0 h in
      let fits : ltb (28 + length (entries_of owner_bytes (c ∷ more))) 4294967296 ≡ true =
        lt→ltb _ _ (omega (arith, entries, small)) in
      let one_fits : ltb (16 + length c) 4294967296 ≡ true =
        lt→ltb _ _ (omega (arith, small, h.0)) in
      rw (guid_bytes-owner, guid_bytes-x509, equal, fits, one_fits, h.0) refl

  read_list-blob_of :
      (certificates : List (List ℕ))
      → SameSize certificates
      → 28 + length certificates * (16 + n) < 4294967296
      → 16 + n < 4294967296
      → read_list (blob_of certificates)
        ≡ some record {
          signature_type = x509_bytes;
          header_size = 0;
          signatures = signatures_of certificates;
        }
  unfolding le_bytes
  read_list-blob_of certificates h small one =
      let entries = length-entries_of certificates h in
      let size =
        le_number-le_bytes (28 + length (entries_of owner_bytes certificates))
          (omega (arith, entries, small)) in
      let all_there =
        read_signatures-entries_of (length (blob_of certificates)) certificates h
          (omega (arith, entries)) in
      let long : 28 + length (entries_of owner_bytes certificates) ≡ length (blob_of certificates) =
        omega arith in
      let of_data : le_number (le_bytes 4 (16 + n)) - 16 ≡ n =
        omega (arith, le_number-le_bytes (16 + n) (omega (arith, one))) in
      rw (size, long, same_refl (length (blob_of certificates)), of_data, all_there) refl

  -- One entry is below the bound of all.
  one-lt : (count : ℕ) → 1 ≤ count → 28 + count * (16 + n) < 4294967296 → 16 + n < 4294967296
  one-lt zero some_given small = absurd (omega (arith, some_given))
  one-lt (suc count) some_given small = omega (arith, small)

  -- For one certificate or more, all of one size, whose list fits a number of 32 bits, the list is
  -- built, has the length that its size field says, and a reader of the format finds the X.509
  -- type and each certificate with the owner of the lab, in order.
  pub build_signature_list-read_list :
      (certificates : List (List ℕ))
      → SameSize certificates
      → 1 ≤ length certificates
      → 28 + length certificates * (16 + n) < 4294967296
      → (blob : List ℕ) × (build_signature_list certificates ≡ ok blob)
        × (length blob ≡ 28 + length certificates * (16 + n))
        × (read_list blob
            ≡ some record {
              signature_type = x509_bytes;
              header_size = 0;
              signatures = signatures_of certificates;
            })
  unfolding le_bytes
  build_signature_list-read_list certificates h some_given small = (
    blob_of certificates,
    build_signature_list-eq certificates h some_given small,
    omega (arith, length-entries_of certificates h),
    read_list-blob_of certificates h small (one-lt (length certificates) some_given small),
  )

-- ===== src/Tests/Firmware.antt =====
-- A signature list of two certificates of three bytes.
use k8labs.Base.{ℕ, List, [], ◌∷◌, ◌≡◌, refl, arith, some, ok, length, ◌+◌, ◌*◌}
use k8labs.Firmware.{build_signature_list}
use k8labs.Firmware.Reader.{read_list}
use k8labs.Firmware.Laws.{build_signature_list-read_list, x509_bytes, signatures_of}

abbrev certificates : List (List ℕ)
certificates = (48 ∷ 130 ∷ 1 ∷ []) ∷ (48 ∷ 130 ∷ 2 ∷ []) ∷ []

build_signature_list-read_list_example :
    (blob : List ℕ) × (build_signature_list certificates ≡ ok blob)
    × (length blob ≡ 28 + length certificates * (16 + 3))
    × (read_list blob
        ≡ some record {
          signature_type = x509_bytes;
          header_size = 0;
          signatures = signatures_of 3 certificates;
        })
build_signature_list-read_list_example =
    build_signature_list-read_list 3 certificates (refl, (refl, tt)) (omega arith) (omega arith)

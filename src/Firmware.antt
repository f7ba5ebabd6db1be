-- ===== src/Firmware.antt =====
-- EFI signature lists: scripts/edk2_esl.py. Bytes are numbers below 256, texts are lists of code
-- points. Digits are the ASCII ones.
pub mod Bytes
pub mod Reader
pub mod Laws
use k8labs.Base.{ℕ, zero, suc, ◌+◌, ◌-◌, ◌*◌, ◌%◌, ◌/◌, Bool, true, false, not, ◌&&◌, ◌||◌}
use k8labs.Base.{Option, none, some, List, [], ◌∷◌, ◌++◌, map, String, codes, length, ltb, leb}
use k8labs.Base.{
  ◌==◌, comparable_nat, if◌then◌else◌, Result, ok, raise, ◌>>=◌, ◌>>◌, require, refuse,
}
use k8labs.Base.{demand, is_empty, all, strip_prefix}
use k8labs.Firmware.Bytes.{EslError, invalid_guid, invalid_number, no_certificate, unequal_sizes}
use k8labs.Firmware.Bytes.{no_body, empty_list, pack, pack_int, int16, fromhex, strip, split_dashes}

abbrev pub efi_cert_x509_guid : String
efi_cert_x509_guid = "a5c059a1-94e4-4aa7-87b5-ab155c2bf072"

abbrev pub k8labs_owner_guid : String
k8labs_owner_guid = "6b1b3c1e-6f4a-4c8e-9b2d-0f7a5c3e1d42"

-- The five parts of a GUID.
unfoldable pub guid_of : List (List ℕ) → Result EslError (List ℕ)
guid_of (first ∷ second ∷ third ∷ fourth ∷ fifth ∷ []) = do
  data1 ← demand (int16 first) invalid_number
  data2 ← demand (int16 second) invalid_number
  data3 ← demand (int16 third) invalid_number
  data4 ← demand (fromhex (fourth ++ fifth)) invalid_number
  require (length data4 == 8) invalid_guid
  one ← pack_int 4 data1
  two ← pack_int 2 data2
  three ← pack_int 2 data3
  ok (one ++ two ++ three ++ data4)
guid_of _ = raise invalid_guid

unfoldable pub guid_bytes : String → Result EslError (List ℕ)
guid_bytes value = guid_of (split_dashes (strip (codes value)))

-- `b"".join(owner + cert for cert in certificates)`
unfoldable pub entries_of : List ℕ → List (List ℕ) → List ℕ
entries_of owner [] = []
entries_of owner (certificate ∷ more) = owner ++ certificate ++ entries_of owner more

unfoldable pub first_length : List (List ℕ) → ℕ
first_length [] = 0
first_length (certificate ∷ more) = length certificate

unfoldable pub build_signature_list : List (List ℕ) → Result EslError (List ℕ)
build_signature_list certificates = do
  refuse (is_empty certificates) no_certificate
  owner ← guid_bytes k8labs_owner_guid
  let entries = entries_of owner certificates
  let signature_size = length owner + first_length certificates
  require (all (λ certificate. length owner + length certificate == signature_size) certificates)
      unequal_sizes
  header ← guid_bytes efi_cert_x509_guid
  list_size ← pack 4 (16 + 4 + 4 + 4 + length entries)
  header_size ← pack 4 0
  size ← pack 4 signature_size
  ok (header ++ list_size ++ header_size ++ size ++ entries)

-- ===== src/Firmware/Reader.antt =====
-- A reader of the EFI_SIGNATURE_LIST format, from its layout: the type of the signatures, three
-- little-endian numbers of four bytes, and entries of one size, each an owner and its data.
use k8labs.Base.{ℕ, zero, suc, ◌+◌, ◌-◌, ◌*◌, Option, none, some, List, [], ◌∷◌}
use k8labs.Base.{length, take, drop, ltb, ◌==◌, comparable_nat, if◌then◌else◌}
use mathlib.Core.Option

abbrev pub le_number : List ℕ → ℕ
le_number [] = 0
le_number (b ∷ bytes) = b + 256 * le_number bytes

pub record Signature : Type 0 where
  pub owner : List ℕ
  pub content : List ℕ

pub record SignatureList : Type 0 where
  pub signature_type : List ℕ
  pub header_size : ℕ
  pub signatures : List Signature

-- The entries; the fuel is the number of bytes, and each entry has 16 at least.
abbrev pub read_signatures : ℕ → ℕ → List ℕ → Option (List Signature)
read_signatures fuel data_size [] = some []
read_signatures zero data_size (b ∷ bytes) = none
read_signatures (suc fuel) data_size (b ∷ bytes) =
    let body = drop 16 (b ∷ bytes) in
    let rest = read_signatures fuel data_size (drop data_size body) in
    if ltb (length body) data_size
    then none
    else Option.map
        (λ more. record { owner = take 16 (b ∷ bytes); content = take data_size body } ∷ more) rest

-- One list that fills the bytes.
abbrev pub read_list : List ℕ → Option SignatureList
read_list bytes =
    let size = le_number (take 4 (drop 16 bytes)) in
    let header_size = le_number (take 4 (drop 20 bytes)) in
    let signature_size = le_number (take 4 (drop 24 bytes)) in
    let signatures =
      read_signatures (length bytes) (signature_size - 16) (drop header_size (drop 28 bytes)) in
    if size == length bytes
    then Option.map
        (λ found. record {
          signature_type = take 16 bytes;
          header_size = header_size;
          signatures = found;
        })
        signatures
    else none

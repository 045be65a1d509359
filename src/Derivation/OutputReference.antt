-- ===== src/Derivation/OutputReference.antt =====
-- zbstore/derivation.go: `OutputReference`, its text, and the paths of a derivation's outputs.
use zb.Prelude.{
  Bool, false, not, [], ◌∷◌, ◌++◌, Option, none, some, Result, ok, err, ◌==◌, if◌then◌else◌,
}
use zb.Sets.Ordered.{equal, bytes_ordered}
use zb.StorePath.Posix.{Bytes}
use zb.StorePath.Paths.{External, PathError, parse_path, path_dir, path_name, derivation_name}
use zb.StorePath.ContentAddress.{Nix, AddressError, fixed_ca_output_path, empty_references}
use zb.Derivation.Outputs.{
  DerivationOutputType, fixed_ca_output_type, is_valid_output_name, NameError, output_path_name,
}

pub record OutputReference : Type 0 where
  pub drv_path : Bytes
  pub output_name : Bytes

pub data ReferenceError : Type 0 where
  missing_separator : ReferenceError
  invalid_name : ReferenceError
  path_of_reference : PathError → ReferenceError
  not_a_derivation : ReferenceError

-- `strings.LastIndexByte` of an exclamation mark: what stands before the last one, and what behind
-- it.
unfoldable pub cut_last : Bytes → Option (Bytes × Bytes)
cut_last [] = none
cut_last (c ∷ s) = elim (cut_last s) [
  | some (before, after) ↦ some (c ∷ before, after)
  | none ↦ if c == b'!' then some ([], s) else none
]

-- `OutputReference.String`
unfoldable pub reference_string : OutputReference → Bytes
reference_string ref = ref.drv_path ++ b'!' ∷ ref.output_name

module _ (x : External) where
  unfoldable pub parse_output_reference : Bytes → Result ReferenceError OutputReference
  unfolding cut_last is_valid_output_name parse_path derivation_name
  parse_output_reference s = elim (cut_last s) [
    | none ↦ err missing_separator
    | some (before, after) ↦
        if not (is_valid_output_name after) then err invalid_name else elim (parse_path x before) [
          | err e ↦ err (path_of_reference e)
          | ok path ↦ elim (derivation_name x path) [
            | none ↦ err not_a_derivation
            | some name ↦ ok (record { drv_path = path; output_name = after })
          ]
        ]
  ]

  -- `Suffix`; of its errors only that there is one.
  unfoldable pub suffix : OutputReference → Option Bytes
  unfolding derivation_name output_path_name
  suffix ref = elim (derivation_name x ref.drv_path) [
    | none ↦ none
    | some drv_name ↦ elim (output_path_name drv_name ref.output_name) [
      | err e ↦ none
      | ok name ↦ some name
    ]
  ]

  unfoldable pub is_valid_output_path : OutputReference → Bytes → Bool
  unfolding path_dir suffix path_name
  is_valid_output_path ref path =
      if not (equal (path_dir x path) (path_dir x ref.drv_path))
      then false
      else elim (suffix ref) [ none ↦ false | some name ↦ equal (path_name x path) name ]

pub data OutputPathError : Type 0 where
  non_fixed : OutputPathError
  name_error : NameError → OutputPathError
  address_error : AddressError → OutputPathError

module _ (x : External) {ContentAddress Hash HashType : Type 0}
    (nix : Nix ContentAddress Hash HashType) where
  -- `derivationOutputPath`
  unfoldable pub derivation_output_path :
      Bytes
      → Bytes
      → Bytes
      → Option (DerivationOutputType ContentAddress HashType)
      → Result OutputPathError Bytes
  unfolding output_path_name fixed_ca_output_path
  derivation_output_path store drv_name output_name none = err non_fixed
  derivation_output_path store drv_name output_name (some t) =
      if t.typ == fixed_ca_output_type
      then elim (output_path_name drv_name output_name) [
        | err e ↦ err (name_error e)
        | ok name ↦ elim (fixed_ca_output_path x nix store name t.ca empty_references) [
          | err e ↦ err (address_error e)
          | ok path ↦ ok path
        ]
      ]
      else err non_fixed

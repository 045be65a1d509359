-- ===== src/Derivation/Export.antt =====
-- zbstore/derivation.go: `References`, `InputDerivationOutputs`, `OutputPath` and `Export`. The writer
-- of archives is a parameter; writing to memory does not fail.
use zb.Prelude.{false, List, [], ◌∷◌, ◌++◌, Option, none, some, Result, ok, err, if◌then◌else◌}
use zb.Sets.Ordered.{equal, bytes_ordered}
use zb.Sets.Sorted.{add, add_seq}
use zb.Aterm.{Bytes}
use zb.StorePath.Paths.{External, derivation_ext}
use zb.StorePath.References.{References}
use zb.StorePath.ContentAddress.{Nix, AddressError, fixed_ca_output_path}
use zb.Derivation.{InputDerivations}
use zb.Derivation.Outputs.{DerivationOutputType}
use zb.Derivation.OutputReference.{OutputReference, OutputPathError, derivation_output_path}
use zb.Derivation.Format.{Derivation, MarshalError, marshal_text}

-- The loop of `References`.
unfoldable pub add_inputs_to : List Bytes → InputDerivations → List Bytes
add_inputs_to others [] = others
add_inputs_to others ((input, names) ∷ m) = add_inputs_to (add others input) m

-- `Derivation.References`
unfoldable pub references_of :
    {ContentAddress HashType : Type 0} → Derivation ContentAddress HashType → References
unfolding add_inputs_to
references_of drv = record {
  self = false;
  others = add_inputs_to (add_seq [] drv.input_sources) drv.input_derivations;
}

-- `InputDerivationOutputs`, by the list of what it yields
unfoldable pub outputs_of_input : Bytes → List Bytes → List OutputReference
outputs_of_input drv_path [] = []
outputs_of_input drv_path (name ∷ names) =
    record { drv_path = drv_path; output_name = name } ∷ outputs_of_input drv_path names

unfoldable pub input_derivation_outputs : InputDerivations → List OutputReference
unfolding outputs_of_input
input_derivation_outputs [] = []
input_derivation_outputs ((drv_path, names) ∷ m) =
    outputs_of_input drv_path names ++ input_derivation_outputs m

-- `drv.Outputs[outputName]`
unfoldable pub lookup_output :
    {ContentAddress HashType : Type 0}
    → List (Bytes × Option (DerivationOutputType ContentAddress HashType))
    → Bytes
    → Option (Option (DerivationOutputType ContentAddress HashType))
lookup_output [] name = none
lookup_output ((n, t) ∷ outputs) name =
    let rest = lookup_output outputs name in if equal n name then some t else rest

pub data ExportError : Type 0 where
  no_name : ExportError
  no_store_directory : ExportError
  marshal_error : MarshalError → ExportError
  store_path_error : AddressError → ExportError

pub record ExportTrailer (ContentAddress : Type 0) : Type 0 where
  pub store_path : Bytes
  pub references : List Bytes
  pub deriver : Bytes
  pub content_address : ContentAddress

module _ (x : External) {ContentAddress Hash HashType : Type 0}
    (nix : Nix ContentAddress Hash HashType) where
  -- `OutputPath`; `none` is the error for a name that is no output.
  unfoldable pub output_path_of :
      Derivation ContentAddress HashType → Bytes → Option (Result OutputPathError Bytes)
  unfolding lookup_output derivation_output_path
  output_path_of drv output_name = elim (lookup_output drv.outputs output_name) [
    | none ↦ none
    | some t ↦ some (derivation_output_path x nix drv.dir drv.name output_name t)
  ]

  -- What `Export` returns with the text that it has marshalled.
  unfoldable pub export_text :
      (Bytes → Bytes)
      → Derivation ContentAddress HashType
      → HashType
      → Bytes
      → Result ExportError (Bytes × ExportTrailer ContentAddress)
  unfolding references_of fixed_ca_output_path
  export_text nar drv hash_type text =
      let ca = nix.text_address (nix.sum_hash hash_type text) in
      let refs = references_of drv in
      elim (fixed_ca_output_path x nix drv.dir (drv.name ++ derivation_ext) ca refs) [
        | err e ↦ err (store_path_error e)
        | ok path ↦ ok (
          nar text,
          record {
            store_path = path;
            references = refs.others;
            deriver = [];
            content_address = ca;
          },
        )
      ]

  -- `Export`
  unfoldable pub export :
      (Bytes → Bytes)
      → Derivation ContentAddress HashType
      → HashType
      → Result ExportError (Bytes × ExportTrailer ContentAddress)
  unfolding marshal_text export_text
  export nar drv hash_type =
      if equal drv.name []
      then err no_name
      else if equal drv.dir []
      then err no_store_directory
      else elim (marshal_text x nix drv) [
        | err e ↦ err (marshal_error e)
        | ok text ↦ export_text nar drv hash_type text
      ]

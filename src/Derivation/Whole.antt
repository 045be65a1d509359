-- ===== src/Derivation/Whole.antt =====
-- zbstore/derivation.go: a whole derivation, marshalled and parsed.
use zb.Prelude.{List, [], ◌∷◌, Option, ok, ◌≡◌, ◌≢◌}
use zb.Sets.Ordered.{bytes_ordered}
use zb.Sets.Sorted.Laws.{IsSorted}
use zb.Aterm.{Bytes}
use zb.StorePath.Paths.{External}
use zb.StorePath.ContentAddress.{Nix}
use zb.Derivation.RoundTrip.{IsAscending}
use zb.Derivation.Outputs.{DerivationOutputType}
use zb.Derivation.Format.{Derivation, marshal_text}
use zb.Derivation.Tuple.{parse_derivation}
use zb.Derivation.Printed.{AreWritten, SourcesIn}
use zb.Derivation.InputTokens.{ArePaths, AreInputs}
use zb.Derivation.WholeTrip.{IsSmall, written-parsed}
use zb.Derivation.OutputTexts.{NixLaws}
use zb.Derivation.GoodOutputs.{IsGoodOutput, good-IsWritten}

module _ (x : External) {ContentAddress Hash HashType : Type 0}
    (nix : Nix ContentAddress Hash HashType) where
  abbrev pub AreGoodOutputs :
      Bytes → Bytes → List (Bytes × Option (DerivationOutputType ContentAddress HashType)) → Type 0
  AreGoodOutputs store drv_name [] = Unit
  AreGoodOutputs store drv_name ((n, ot) ∷ outputs) =
      IsGoodOutput x nix store drv_name n ot × AreGoodOutputs store drv_name outputs

  good-AreWritten :
      (laws : NixLaws nix) (store drv_name : Bytes)
      (outputs : List (Bytes × Option (DerivationOutputType ContentAddress HashType)))
      → AreGoodOutputs store drv_name outputs
      → AreWritten x nix store drv_name outputs
  good-AreWritten laws store drv_name [] g = tt
  good-AreWritten laws store drv_name ((n, ot) ∷ outputs) (g, gs) = (
    good-IsWritten x nix laws store drv_name n ot g,
    good-AreWritten laws store drv_name outputs gs,
  )

  -- A derivation as the constructors and the parsers make it: its name and its store directory are
  -- not empty, the maps and the sets are in ascending order, and the paths of the inputs are store
  -- paths of the directory.
  pub record IsWellFormed (drv : Derivation ContentAddress HashType) : Type 0 where
    pub has_name : drv.name ≢ []
    pub has_dir : drv.dir ≢ []
    pub outputs_good : AreGoodOutputs drv.dir drv.name drv.outputs
    pub outputs_ascending : IsAscending drv.outputs
    pub inputs_good : AreInputs x drv.dir drv.input_derivations
    pub inputs_ascending : IsAscending drv.input_derivations
    pub sources_paths : ArePaths x drv.input_sources
    pub sources_in : SourcesIn x drv.dir drv.input_sources
    pub sources_sorted : IsSorted drv.input_sources
    pub env_ascending : IsAscending drv.env

  -- For a derivation that is well formed, whose texts are no longer than the scanner takes, and
  -- hash types, hashes and content addresses that behave as their package documents: `MarshalText`
  -- succeeds, and `ParseDerivation` of what it returns, with the same directory and name, returns
  -- the derivation.
  pub parse_derivation-marshal_text :
      (laws : NixLaws nix) (drv : Derivation ContentAddress HashType)
      → IsWellFormed drv
      → IsSmall x nix drv
      → (text : Bytes) × (marshal_text x nix drv ≡ ok text)
        × (parse_derivation x nix drv.dir drv.name text ≡ ok drv)
  parse_derivation-marshal_text laws drv g f =
      written-parsed x nix drv
        (record {
          outputs_written = good-AreWritten laws drv.dir drv.name drv.outputs g.outputs_good;
          outputs_ascending = g.outputs_ascending;
          inputs_good = g.inputs_good;
          inputs_ascending = g.inputs_ascending;
          sources_paths = g.sources_paths;
          sources_sorted = g.sources_sorted;
          env_ascending = g.env_ascending;
        })
        f g.has_name g.has_dir g.sources_in

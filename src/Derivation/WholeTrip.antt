-- ===== src/Derivation/WholeTrip.antt =====
-- `MarshalText` and then `ParseDerivation` of zbstore/derivation.go.
use zb.Prelude.{
  ◌≤◌, true, false, List, [], ◌∷◌, ◌++◌, append-nil, Option, some, ok, length, ◌≡◌, ◌≢◌, ◌∙◌, ap,
  arith, subst,
}
use zb.Sets.Ordered.{equal, bytes_ordered}
use zb.Aterm.{Bytes, Scanner, new_scanner, l_paren, l_bracket, r_bracket, comma, max_string_length}
use zb.Aterm.Values.{Value, print, print_values, Fits, FitsValues, read-print, tokens}
use zb.Aterm.Reads.{Reads}
use zb.Aterm.Complete.{new_scanner-IsReady}
use zb.StorePath.Paths.{External}
use zb.StorePath.Directory.{cut_prefix}
use zb.StorePath.Inside.{cut_prefix-append}
use zb.StorePath.ContentAddress.{Nix}
use zb.Derivation.{InputDerivations, append_strings, marshal_input_derivations}
use zb.Derivation.Marshal.{inputs}
use zb.Derivation.RoundTrip.{FitStrings, FitEnv, Fits-strings, Fits-entries}
use zb.Derivation.Outputs.{DerivationOutputType}
use zb.Derivation.Format.{
  Derivation, marshal_text, derive, marshal_outputs, inputs_in, marshal_sources, marshal_tail,
}
use zb.Derivation.Tuple.{parse_tuple, parse_derivation}
use zb.Derivation.OutputTexts.{equal_empty}
use zb.Derivation.Printed.{
  AreWritten, output_values, tuple_value, SourcesIn, InputsIn, marshal_outputs-eq-print,
  marshal_sources-append_strings, inputs_in-true, whole_text,
}
use zb.Derivation.InputTokens.{AreInputs}
use zb.Derivation.WholeTokens.{IsParsed, parse_tuple-tokens}

module _ (x : External) {ContentAddress Hash HashType : Type 0}
    (nix : Nix ContentAddress Hash HashType) where
  -- the derivation as a value
  abbrev value_of :
      (drv : Derivation ContentAddress HashType)
      → AreWritten x nix drv.dir drv.name drv.outputs
      → Value
  value_of drv w =
      tuple_value (output_values x nix drv.dir drv.name drv.outputs w) drv.input_derivations
        drv.input_sources drv.system drv.builder drv.args drv.env

  marshal_text-parts :
      (drv : Derivation ContentAddress HashType) (buf buf' : Bytes)
      → equal drv.name [] ≡ false
      → equal drv.dir [] ≡ false
      → marshal_outputs x nix (derive ++ l_paren ∷ l_bracket ∷ []) true drv.dir drv.name drv.outputs
        ≡ ok buf
      → inputs_in x drv.dir drv.input_derivations ≡ true
      → marshal_sources x
          (marshal_input_derivations
              (buf ++ r_bracket ∷ comma ∷ l_bracket ∷ [])
              true
              drv.input_derivations
            ++ r_bracket ∷ comma ∷ l_bracket ∷ [])
          true
          drv.dir
          drv.input_sources
        ≡ ok buf'
      → marshal_text x nix drv ≡ ok (marshal_tail drv buf')
  unfolding marshal_text
  marshal_text-parts drv buf buf' n d o i s = ground (arith, n, d, o, i, s)

  AreInputs-InputsIn :
      (store : Bytes) (m : InputDerivations) → AreInputs x store m → InputsIn x store m
  AreInputs-InputsIn store [] h = tt
  AreInputs-InputsIn store ((p, names) ∷ m) (h, hs) = (h.1, AreInputs-InputsIn store m hs)

  -- `MarshalText` writes the name of the constructor and the derivation as a value.
  marshal_text-eq-print :
      (drv : Derivation ContentAddress HashType) (g : IsParsed x nix drv)
      → drv.name ≢ []
      → drv.dir ≢ []
      → SourcesIn x drv.dir drv.input_sources
      → marshal_text x nix drv ≡ ok (derive ++ print (value_of drv g.outputs_written))
  marshal_text-eq-print drv g n d s =
      let ov = output_values x nix drv.dir drv.name drv.outputs g.outputs_written in
      let start = derive ++ l_paren ∷ l_bracket ∷ [] in
      let buf = start ++ print_values true ov in
      let before =
        marshal_input_derivations (buf ++ r_bracket ∷ comma ∷ l_bracket ∷ []) true
          drv.input_derivations
        ++ r_bracket ∷ comma ∷ l_bracket ∷ [] in
      marshal_text-parts drv buf (append_strings before true drv.input_sources)
        (equal_empty drv.name n) (equal_empty drv.dir d)
        (marshal_outputs-eq-print x nix drv.dir drv.name start true drv.outputs g.outputs_written)
        (inputs_in-true x drv.dir drv.input_derivations
          (AreInputs-InputsIn drv.dir drv.input_derivations g.inputs_good))
        (marshal_sources-append_strings x before true drv.dir drv.input_sources s)
      ∙ ap ok (whole_text drv ov)

  -- No text of the derivation is longer than the scanner takes.
  abbrev FitInputs : InputDerivations → Type 0
  FitInputs [] = Unit
  FitInputs ((p, names) ∷ m) = ((length p ≤ max_string_length) × FitStrings names) × FitInputs m

  pub record IsSmall (drv : Derivation ContentAddress HashType) : Type 0 where
    pub inputs_fit : FitInputs drv.input_derivations
    pub sources_fit : FitStrings drv.input_sources
    pub system_fits : length drv.system ≤ max_string_length
    pub builder_fits : length drv.builder ≤ max_string_length
    pub args_fit : FitStrings drv.args
    pub env_fits : FitEnv drv.env

  Fits-inputs : (m : InputDerivations) → FitInputs m → FitsValues (inputs m)
  unfolding Fits FitsValues
  Fits-inputs [] f = tt
  Fits-inputs ((p, names) ∷ m) ((a, b), f) = ((a, (Fits-strings names b, tt)), Fits-inputs m f)

  Fits-outputs :
      (store name : Bytes)
      (outputs : List (Bytes × Option (DerivationOutputType ContentAddress HashType)))
      (w : AreWritten x nix store name outputs)
      → FitsValues (output_values x nix store name outputs w)
  unfolding Fits FitsValues
  Fits-outputs store name [] w = tt
  Fits-outputs store name ((n, ot) ∷ outputs) (w, ws) = (
    (w.name_fits, (w.path_fits, (w.info_fits, (w.hex_fits, tt)))),
    Fits-outputs store name outputs ws,
  )

  Fits-value :
      (drv : Derivation ContentAddress HashType) (w : AreWritten x nix drv.dir drv.name drv.outputs)
      → IsSmall drv
      → Fits (value_of drv w)
  unfolding Fits FitsValues
  Fits-value drv w f = (
    Fits-outputs drv.dir drv.name drv.outputs w,
    (
      Fits-inputs drv.input_derivations f.inputs_fit,
      (
        Fits-strings drv.input_sources f.sources_fit,
        (
          f.system_fits,
          (
            f.builder_fits,
            (Fits-strings drv.args f.args_fit, (Fits-entries drv.env f.env_fits, tt)),
          ),
        ),
      ),
    ),
  )

  parse_derivation-parts :
      (drv : Derivation ContentAddress HashType) (text rest : Bytes) (s : Scanner)
      → cut_prefix text derive ≡ some rest
      → parse_tuple x nix drv.dir drv.name (new_scanner rest) ≡ (ok drv, s)
      → s.input ≡ []
      → parse_derivation x nix drv.dir drv.name text ≡ ok drv
  unfolding parse_derivation
  parse_derivation-parts drv text rest s c p e = ground (arith, c, p, e)

  -- A derivation that is written is read again.
  pub written-parsed :
      (drv : Derivation ContentAddress HashType) (g : IsParsed x nix drv)
      → IsSmall drv
      → drv.name ≢ []
      → drv.dir ≢ []
      → SourcesIn x drv.dir drv.input_sources
      → (text : Bytes) × (marshal_text x nix drv ≡ ok text)
        × (parse_derivation x nix drv.dir drv.name text ≡ ok drv)
  written-parsed drv g f n d i =
      let v = value_of drv g.outputs_written in
      let (t, r, _, e) = read-print v [] (Fits-value drv g.outputs_written f) in
      let r' = subst (λ z. Reads (new_scanner z) (tokens v) t) (append-nil (print v)) r in
      (
        derive ++ print v,
        marshal_text-eq-print drv g n d i,
        parse_derivation-parts drv (derive ++ print v) (print v) t
            (cut_prefix-append derive (print v))
            (parse_tuple-tokens x nix drv g (new_scanner (print v)) (new_scanner-IsReady (print v))
              r')
            e,
      )

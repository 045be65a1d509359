-- ===== src/Derivation/Printed.antt =====
-- `MarshalText` of zbstore/derivation.go against the print of a value of the format.
use zb.Prelude.{
  ◌≤◌, Bool, true, false, List, [], ◌∷◌, ◌++◌, append_assoc, append-nil, Option, some, ok, length,
  ◌≡◌, refl, sym, ◌∙◌, ap,
}
use zb.Sets.Ordered.{bytes_ordered}
use zb.Aterm.{Bytes, append_string, comma, l_paren, l_bracket, r_bracket, max_string_length}
use zb.Aterm.Strings.{append_string-eq-escapes}
use zb.Aterm.Values.{Value, Values, str, tuple, items, nil, cons, print, print_values}
use zb.StorePath.Paths.{External, path_dir}
use zb.StorePath.ContentAddress.{Nix}
use zb.StorePath.References.{equal_self}
use zb.Derivation.{append_comma, append_strings, marshal_input_derivations, InputDerivations, Env}
use zb.Derivation.Marshal.{
  strings, entries, inputs, grow, append_strings-eq-print, append_env-eq-print,
  marshal_input_derivations-eq-print,
}
use zb.Derivation.Outputs.{DerivationOutputType, is_valid_output_name}
use zb.Derivation.Format.{
  Derivation, marshal_output, marshal_outputs, inputs_in, marshal_sources, marshal_tail, derive,
}
use zb.Derivation.Tuple.{read_output_type}

-- an output as a value: its name, its path, its algorithm and its hash
abbrev pub output_value : Bytes → Bytes → Bytes → Bytes → Value
output_value n p info hex =
    tuple (cons (str n) (cons (str p) (cons (str info) (cons (str hex) nil))))

-- a derivation as a value
abbrev pub tuple_value :
    Values → InputDerivations → List Bytes → Bytes → Bytes → List Bytes → Env → Value
tuple_value outputs drvs sources system builder args env = tuple (
    cons (items outputs) (
      cons (items (inputs drvs)) (
        cons (items (strings sources)) (
          cons (str system)
            (cons (str builder) (cons (items (strings args)) (cons (items (entries env)) nil)))))))

module _ (x : External) {ContentAddress Hash HashType : Type 0}
    (nix : Nix ContentAddress Hash HashType) (store drv_name : Bytes) where
  -- An output that is written as three texts behind its name, which are read as that output.
  pub record IsWritten (n : Bytes) (ot : Option (DerivationOutputType ContentAddress HashType))
      : Type 0 where
    pub typ : DerivationOutputType ContentAddress HashType
    pub path : Bytes
    pub info : Bytes
    pub hex : Bytes
    pub present : ot ≡ some typ
    pub valid : is_valid_output_name n ≡ true
    pub written :
        (dst : Bytes)
        → marshal_output x nix dst store drv_name n ot
          ≡ ok (dst ++ print (output_value n path info hex))
    pub reads : read_output_type x nix path info hex ≡ ok typ
    pub name_fits : length n ≤ max_string_length
    pub path_fits : length path ≤ max_string_length
    pub info_fits : length info ≤ max_string_length
    pub hex_fits : length hex ≤ max_string_length

  abbrev pub AreWritten :
      List (Bytes × Option (DerivationOutputType ContentAddress HashType)) → Type 0
  AreWritten [] = Unit
  AreWritten ((n, ot) ∷ outputs) = IsWritten n ot × AreWritten outputs

  abbrev pub output_values :
      (outputs : List (Bytes × Option (DerivationOutputType ContentAddress HashType)))
      → AreWritten outputs
      → Values
  output_values [] w = nil
  output_values ((n, ot) ∷ outputs) (w, ws) =
      cons (output_value n w.path w.info w.hex) (output_values outputs ws)

  pub marshal_outputs-eq-print :
      (buf : Bytes) (first : Bool)
      (outputs : List (Bytes × Option (DerivationOutputType ContentAddress HashType)))
      (w : AreWritten outputs)
      → marshal_outputs x nix buf first store drv_name outputs
        ≡ ok (buf ++ print_values first (output_values outputs w))
  unfolding marshal_outputs
  marshal_outputs-eq-print buf first [] w = unfold print_values in ap ok (sym (append-nil buf))
  marshal_outputs-eq-print buf first ((n, ot) ∷ outputs) (w, ws) =
      let v = output_value n w.path w.info w.hex in
      let buf' = append_comma buf first ++ print v in
      rw (w.valid, w.written (append_comma buf first))
        (marshal_outputs-eq-print buf' false outputs ws
          ∙ ap ok (grow buf buf' first v (output_values outputs ws) refl))

module _ (x : External) where
  abbrev pub SourcesIn : Bytes → List Bytes → Type 0
  SourcesIn store [] = Unit
  SourcesIn store (src ∷ sources) = (path_dir x src ≡ store) × SourcesIn store sources

  pub marshal_sources-append_strings :
      (buf : Bytes) (first : Bool) (store : Bytes) (sources : List Bytes)
      → SourcesIn store sources
      → marshal_sources x buf first store sources ≡ ok (append_strings buf first sources)
  unfolding marshal_sources append_strings
  marshal_sources-append_strings buf first store [] h = refl
  marshal_sources-append_strings buf first store (src ∷ sources) (e, h) =
      let i = equal_self store in
      rw (e, i)
        (marshal_sources-append_strings (append_string (append_comma buf first) src) false store
          sources h)

  abbrev pub InputsIn : Bytes → InputDerivations → Type 0
  InputsIn store [] = Unit
  InputsIn store ((p, names) ∷ m) = (path_dir x p ≡ store) × InputsIn store m

  pub inputs_in-true :
      (store : Bytes) (m : InputDerivations) → InputsIn store m → inputs_in x store m ≡ true
  unfolding inputs_in
  inputs_in-true store [] h = refl
  inputs_in-true store ((p, names) ∷ m) (e, h) =
      let i = equal_self store in let ih = inputs_in-true store m h in rw (e, i, ih) refl

-- What `MarshalText` writes: the constructor and the derivation as a value.
pub whole_text :
    {ContentAddress HashType : Type 0} (drv : Derivation ContentAddress HashType) (vs : Values)
    → marshal_tail drv (
        append_strings
          (marshal_input_derivations
              (((derive ++ l_paren ∷ l_bracket ∷ []) ++ print_values true vs)
                ++ r_bracket ∷ comma ∷ l_bracket ∷ [])
              true
              drv.input_derivations
            ++ r_bracket ∷ comma ∷ l_bracket ∷ [])
          true
          drv.input_sources)
      ≡ derive
        ++ print (
            tuple_value vs drv.input_derivations drv.input_sources drv.system drv.builder drv.args
              drv.env)
unfolding marshal_tail print print_values
whole_text drv vs = simp (
  append_env-eq-print, append_strings-eq-print, marshal_input_derivations-eq-print,
  append_string-eq-escapes, append_assoc,
)

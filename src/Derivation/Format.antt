-- ===== src/Derivation/Format.antt =====
-- zbstore/derivation.go: `Derivation` and `MarshalText`. The maps of outputs, of input derivations
-- and of the environment are the lists of their entries in ascending order of the keys. A nil
-- output type is `none`.
use zb.Prelude.{
  ℕ, Bool, true, false, not, List, [], ◌∷◌, ◌++◌, Option, none, some, Result, ok, err, ◌>>=◌, ◌==◌,
  if◌then◌else◌,
}
use zb.Sets.Ordered.{equal, bytes_ordered}
use zb.Aterm.{Bytes, append_string, comma, l_paren, r_paren, l_bracket, r_bracket, string_kind}
use zb.StorePath.Paths.{External, path_dir}
use zb.StorePath.ContentAddress.{Nix}
use zb.Derivation.{
  Env, InputDerivations, append_comma, append_strings, append_env, marshal_input_derivations,
}
use zb.Derivation.Outputs.{
  DerivationOutputType, fixed_ca_output_type, floating_ca_output_type, is_valid_output_name,
  method_of_content_address, method_prefix,
}
use zb.Derivation.OutputReference.{OutputPathError, derivation_output_path}

pub record Derivation (ContentAddress HashType : Type 0) : Type 0 where
  pub dir : Bytes
  pub name : Bytes
  pub system : Bytes
  pub builder : Bytes
  pub args : List Bytes
  pub env : Env
  pub input_sources : List Bytes
  pub input_derivations : InputDerivations
  pub outputs : List (Bytes × Option (DerivationOutputType ContentAddress HashType))

pub data MarshalError : Type 0 where
  missing_name : MarshalError
  missing_store_directory : MarshalError
  invalid_name : Bytes → MarshalError
  output_path : OutputPathError → MarshalError
  -- the panic of `prefix`
  unknown_method : MarshalError
  invalid_type : MarshalError
  unexpected_store_directory : MarshalError

abbrev pub quotes : Bytes
quotes = string_kind ∷ string_kind ∷ []

abbrev pub derive : Bytes
derive = b'D' ∷ b'e' ∷ b'r' ∷ b'i' ∷ b'v' ∷ b'e' ∷ []

-- `aterm.AppendString(dst, method.prefix()+h)`
unfoldable pub append_algorithm : Bytes → ℕ → Bytes → Result MarshalError Bytes
unfolding method_prefix
append_algorithm dst method h = elim (method_prefix method) [
  | none ↦ err unknown_method
  | some prefix ↦ ok (append_string dst (prefix ++ h))
]

module _ (x : External) where
  -- The loop of `MarshalText` that checks the input derivations.
  unfoldable pub inputs_in : Bytes → InputDerivations → Bool
  unfolding path_dir
  inputs_in store [] = true
  inputs_in store ((drv_path, names) ∷ m) =
      let rest = inputs_in store m in
      if not (equal (path_dir x drv_path) store) then false else rest

  -- The loop of `MarshalText` on the input sources.
  unfoldable pub marshal_sources : Bytes → Bool → Bytes → List Bytes → Result MarshalError Bytes
  unfolding path_dir
  marshal_sources buf first store [] = ok buf
  marshal_sources buf first store (src ∷ sources) =
      (if not (equal (path_dir x src) store)
        then err unexpected_store_directory
        else ok (append_string (append_comma buf first) src))
      >>= λ buf'. marshal_sources buf' false store sources

unfoldable pub marshal_tail :
    {ContentAddress HashType : Type 0} → Derivation ContentAddress HashType → Bytes → Bytes
unfolding append_strings append_env
marshal_tail drv buf =
    let buf1 = append_string (buf ++ r_bracket ∷ comma ∷ []) drv.system in
    let buf2 = append_string (buf1 ++ comma ∷ []) drv.builder in
    let buf3 = append_strings (buf2 ++ comma ∷ l_bracket ∷ []) true drv.args in
    append_env (buf3 ++ r_bracket ∷ comma ∷ l_bracket ∷ []) true drv.env ++ r_bracket ∷ r_paren ∷ []

module _ (x : External) {ContentAddress Hash HashType : Type 0}
    (nix : Nix ContentAddress Hash HashType) where
  -- `marshalText` of a fixed output, behind its name and a comma, with its path
  unfoldable pub marshal_fixed : Bytes → ContentAddress → Bytes → Result MarshalError Bytes
  unfolding append_algorithm method_of_content_address
  marshal_fixed dst ca p =
      let h = nix.hash_of ca in
      append_algorithm (append_string dst p ++ comma ∷ [])
        (method_of_content_address nix.ca_is_text nix.ca_is_recursive_file ca)
        (nix.type_string (nix.hash_type h))
      >>= λ buf. ok (append_string (buf ++ comma ∷ []) (nix.raw_base16 h) ++ r_paren ∷ [])

  -- `marshalText` of a floating output, behind its name
  unfoldable pub marshal_floating : Bytes → ℕ → HashType → Result MarshalError Bytes
  unfolding append_algorithm
  marshal_floating dst method hash_algo =
      append_algorithm (dst ++ comma ∷ (quotes ++ comma ∷ [])) method (nix.type_string hash_algo)
      >>= λ buf. ok ((buf ++ comma ∷ quotes) ++ r_paren ∷ [])

  -- `marshalText` of an output type
  unfoldable pub marshal_output :
      Bytes
      → Bytes
      → Bytes
      → Bytes
      → Option (DerivationOutputType ContentAddress HashType)
      → Result MarshalError Bytes
  unfolding derivation_output_path marshal_fixed marshal_floating
  marshal_output dst store drv_name out_name none = ok (
      append_string (dst ++ l_paren ∷ []) out_name
      ++ (comma ∷ (quotes ++ comma ∷ (quotes ++ comma ∷ (quotes ++ r_paren ∷ [])))))
  marshal_output dst store drv_name out_name (some t) =
      let named = append_string (dst ++ l_paren ∷ []) out_name in
      if t.typ == fixed_ca_output_type
      then elim (derivation_output_path x nix store drv_name out_name (some t)) [
        | err e ↦ err (output_path e)
        | ok p ↦ marshal_fixed (named ++ comma ∷ []) t.ca p
      ]
      else if t.typ == floating_ca_output_type
      then marshal_floating named t.method t.hash_algo
      else err invalid_type

  -- The loop of `MarshalText` on the outputs.
  unfoldable pub marshal_outputs :
      Bytes
      → Bool
      → Bytes
      → Bytes
      → List (Bytes × Option (DerivationOutputType ContentAddress HashType))
      → Result MarshalError Bytes
  unfolding is_valid_output_name marshal_output
  marshal_outputs buf first store drv_name [] = ok buf
  marshal_outputs buf first store drv_name ((out_name, t) ∷ outputs) =
      (if not (is_valid_output_name out_name)
        then err (invalid_name out_name)
        else marshal_output (append_comma buf first) store drv_name out_name t)
      >>= λ buf'. marshal_outputs buf' false store drv_name outputs

  unfoldable pub marshal_text : Derivation ContentAddress HashType → Result MarshalError Bytes
  unfolding marshal_outputs inputs_in marshal_input_derivations marshal_sources marshal_tail
  marshal_text drv =
      if equal drv.name []
      then err missing_name
      else if equal drv.dir []
      then err missing_store_directory
      else marshal_outputs (derive ++ l_paren ∷ l_bracket ∷ []) true drv.dir drv.name drv.outputs
        >>= λ buf.
            if not (inputs_in x drv.dir drv.input_derivations)
            then err unexpected_store_directory
            else marshal_sources x
                (marshal_input_derivations (buf ++ r_bracket ∷ comma ∷ l_bracket ∷ []) true
                    drv.input_derivations
                  ++ r_bracket ∷ comma ∷ l_bracket ∷ [])
                true drv.dir drv.input_sources
              >>= λ buf'. ok (marshal_tail drv buf')

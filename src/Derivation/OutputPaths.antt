-- ===== src/Derivation/OutputPaths.antt =====
-- zbstore/derivation.go: references to outputs as text, and the paths of fixed outputs.
use zb.Prelude.{
  true, false, [], ◌∷◌, ◌++◌, none, some, ok, Result-cases, inl, inr, ◌≡◌, refl, arith,
}
use zb.Sets.Ordered.{bytes_ordered}
use zb.StorePath.Posix.{Bytes, is_abs, clean}
use zb.StorePath.Paths.{External, parse_path, path_dir, path_name, derivation_name}
use zb.StorePath.References.{equal_self}
use zb.StorePath.ContentAddress.{
  Nix, validate_content_address, fixed_ca_output_path, empty_references,
}
use zb.StorePath.Made.{IsDigest, IsObjectName, fixed-Makes}
use zb.Derivation.Outputs.{
  DerivationOutputType, fixed_ca_output_type, contains_special, is_valid_output_name,
  output_path_name,
}
use zb.Derivation.OutputReference.{
  OutputReference, cut_last, reference_string, parse_output_reference, suffix, is_valid_output_path,
  derivation_output_path,
}

cut_last-none : (s : Bytes) → contains_special s ≡ false → cut_last s ≡ none
unfolding cut_last contains_special
cut_last-none [] h = refl
cut_last-none (c ∷ s) h = let ih = cut_last-none s in ground (arith, h, ih)

-- A text with no special character behind an exclamation mark.
cut_last-append :
    (a s : Bytes) → contains_special s ≡ false → cut_last (a ++ b'!' ∷ s) ≡ some (a, s)
unfolding cut_last
cut_last-append [] s h = let n = cut_last-none s h in ground (arith, n)
cut_last-append (c ∷ a) s h = let ih = cut_last-append a s h in ground (arith, ih)

valid-not_special : (s : Bytes) → is_valid_output_name s ≡ true → contains_special s ≡ false
unfolding is_valid_output_name contains_special
valid-not_special [] h = refl
valid-not_special (c ∷ s) h = ground (arith, h)

module _ (x : External) where
  -- The text of a reference to an output is parsed as that reference, where its path is one that
  -- `ParsePath` returns unchanged, the path is a derivation's, and the name of the output is valid.
  pub parse_output_reference-reference_string :
      (ref : OutputReference) (drv_name : Bytes)
      → parse_path x ref.drv_path ≡ ok ref.drv_path
      → derivation_name x ref.drv_path ≡ some drv_name
      → is_valid_output_name ref.output_name ≡ true
      → parse_output_reference x (reference_string ref) ≡ ok ref
  unfolding parse_output_reference reference_string
  parse_output_reference-reference_string ref drv_name p d v =
      let c = cut_last-append ref.drv_path ref.output_name (valid-not_special ref.output_name v) in
      ground (arith, c, p, d, v)

  suffix-name :
      (ref : OutputReference) (drv_name name : Bytes)
      → derivation_name x ref.drv_path ≡ some drv_name
      → suffix x ref ≡ some name
      → output_path_name drv_name ref.output_name ≡ ok name
  unfolding suffix
  suffix-name ref drv_name name d s =
      elim (Result-cases (output_path_name drv_name ref.output_name)) [
        | inl (n, e) ↦ ground (arith, d, s, e)
        | inr (w, e) ↦ absurd (ground (arith, d, s, e))
      ]

  valid-path :
      (ref : OutputReference) (name p : Bytes)
      → suffix x ref ≡ some name
      → path_dir x p ≡ path_dir x ref.drv_path
      → path_name x p ≡ name
      → is_valid_output_path x ref p ≡ true
  unfolding is_valid_output_path
  valid-path ref name p s d n =
      let i = equal_self (path_dir x ref.drv_path) in
      let j = equal_self name in rw (d, i, s, n, j) refl

module _ (x : External) {ContentAddress Hash HashType : Type 0}
    (nix : Nix ContentAddress Hash HashType) where
  output_path_ok :
      (store drv_name output_name name p : Bytes) (t : DerivationOutputType ContentAddress HashType)
      → t.typ ≡ fixed_ca_output_type
      → output_path_name drv_name output_name ≡ ok name
      → fixed_ca_output_path x nix store name t.ca empty_references ≡ ok p
      → derivation_output_path x nix store drv_name output_name (some t) ≡ ok p
  unfolding derivation_output_path
  output_path_ok store drv_name output_name name p t k e f = ground (arith, k, e, f)

  -- For a reference to an output of a derivation in a store directory that begins with a slash and
  -- is clean, where the packages' digests are 32 valid characters of base 32, the name of the
  -- output's object is no longer than names may be and has their characters, and the output is
  -- fixed with a content address that is valid: the derivation's output path is a store path, which
  -- `ParsePath` returns unchanged, and `IsValidOutputPath` accepts it for the reference.
  pub derivation_output_path-is_valid :
      ((text : Bytes) → IsDigest x (nix.digest text))
      → (ref : OutputReference) (drv_name name : Bytes)
      → (t : DerivationOutputType ContentAddress HashType) → is_abs (path_dir x ref.drv_path) ≡ true
      → clean (path_dir x ref.drv_path) ≡ path_dir x ref.drv_path
      → derivation_name x ref.drv_path ≡ some drv_name
      → suffix x ref ≡ some name
      → IsObjectName name
      → t.typ ≡ fixed_ca_output_type
      → validate_content_address x nix t.ca empty_references ≡ none
      → (p : Bytes) × (derivation_output_path x nix
            (path_dir x ref.drv_path)
            drv_name
            ref.output_name
            (some t)
          ≡ ok p)
        × (parse_path x p ≡ ok p)
        × (is_valid_output_path x ref p ≡ true)
  derivation_output_path-is_valid law ref drv_name name t abs c d s good k v =
      let store = path_dir x ref.drv_path in
      let (p, e, _, parsed, dir_eq, name_eq) =
        fixed-Makes x nix law store name t.ca empty_references abs c good v in
      (
        p,
        output_path_ok store drv_name ref.output_name name p t k
            (suffix-name x ref drv_name name d s) e,
        parsed,
        valid-path x ref name p s dir_eq name_eq,
      )

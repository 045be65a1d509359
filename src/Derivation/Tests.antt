-- ===== src/Derivation/Tests.antt =====
-- The theorems on whole derivations and on references to outputs, at a concrete derivation.
use zb.Prelude.{
  ℕ, Bool, true, false, [], ◌∷◌, ◌++◌, none, some, ok, err, ◌≡◌, ◌≢◌, ◌||◌, refl, inl, inr, arith,
  if◌then◌else◌,
}
use zb.Sets.Ordered.{bytes_ordered}
use zb.Aterm.{Bytes}
use zb.StorePath.Posix.{
  is_abs, clean, dir, base, split_slash, elements, render, render_elements, is_empty, is_dot,
  is_dot_dot, split_base, join, join_elements, last_nonempty,
}
use zb.StorePath.Paths.{
  derivation_ext, parse_path, path_dir, path_base, path_name, derivation_name, cut_suffix,
  is_name_char, illegal_char, detect_path_style, checked, check_base,
}
use zb.StorePath.Directory.{object, directory_join, cut_prefix, contains_separator}
use zb.StorePath.References.{refs_is_empty}
use zb.StorePath.ContentAddress.{
  empty_references, validate_content_address, is_source_content_address, fixed_ca_output_path,
  make_store_path, make_digest, write_refs,
}
use zb.StorePath.Made.{IsObjectName}
use zb.StorePath.Sample.{
  base32_chars, ext, store, object_path, object_parsed, abs_yes, Address, sample_nix, sample_digest,
  store-clean, bit_text, bit_of,
}
use zb.Derivation.{out_of_rounds}
use zb.Derivation.Outputs.{
  DerivationOutputType, is_valid_output_name, contains_special, output_path_name,
  default_derivation_output_name, method_of_content_address,
}
use zb.Derivation.OutputReference.{
  OutputReference, parse_output_reference, reference_string, suffix, is_valid_output_path,
  derivation_output_path,
}
use zb.Derivation.OutputPaths.{
  parse_output_reference-reference_string, derivation_output_path-is_valid,
}
use zb.Derivation.Format.{Derivation, marshal_text, derive}
use zb.Derivation.Tuple.{parse_derivation, hex_decode, hex_digit, address_of}
use zb.Derivation.TupleRounds.{parse_derivation-rounds}
use zb.Derivation.OutputTexts.{NixLaws}
use zb.Derivation.WholeTrip.{IsSmall}
use zb.Derivation.Whole.{IsWellFormed, parse_derivation-marshal_text}
use zb.Sets.Sorted.{has}
use zb.Sets.Sorted.Laws.{IsSorted, among}
use zb.Derivation.Export.{references_of, ExportTrailer, export}
use zb.Derivation.Exported.{among_inputs, TextLaws, references_of_lem, export_lem}

-- the path of a derivation named b
abbrev drv_path : Bytes
drv_path = object_path ++ b'.' ∷ b'd' ∷ b'r' ∷ b'v' ∷ []

abbrev out : Bytes
out = b'o' ∷ b'u' ∷ b't' ∷ []

abbrev ref : OutputReference
ref = record { drv_path = drv_path; output_name = out }

drv_path_parsed : parse_path ext drv_path ≡ ok drv_path
unfolding parse_path detect_path_style is_abs clean split_slash elements render render_elements
    is_empty is_dot is_dot_dot split_base checked check_base illegal_char is_name_char base32_chars
drv_path_parsed = refl

drv_path_name : derivation_name ext drv_path ≡ some (b'b' ∷ [])
unfolding derivation_name path_name path_base detect_path_style is_abs base split_slash
    last_nonempty is_empty cut_suffix
drv_path_name = refl

out_valid : is_valid_output_name out ≡ true
unfolding is_valid_output_name contains_special
out_valid = refl

parse_output_reference-reference_string_example :
    parse_output_reference ext (reference_string ref) ≡ ok ref
parse_output_reference-reference_string_example =
    parse_output_reference-reference_string ext ref (b'b' ∷ []) drv_path_parsed drv_path_name
      out_valid

drv_path_dir : path_dir ext drv_path ≡ store
unfolding path_dir detect_path_style is_abs dir split_slash elements render render_elements is_empty
    is_dot is_dot_dot
drv_path_dir = refl

ref-suffix : suffix ext ref ≡ some (b'b' ∷ [])
unfolding suffix derivation_name path_name path_base detect_path_style is_abs base split_slash
    last_nonempty is_empty cut_suffix output_path_name is_valid_output_name contains_special
    default_derivation_output_name
ref-suffix = refl

-- a fixed output
abbrev fixed : DerivationOutputType Address ℕ
fixed = record { typ = 1; ca = (false, true); method = 0; hash_algo = 0 }

fixed_valid : validate_content_address ext sample_nix (false, true) empty_references ≡ none
unfolding validate_content_address is_source_content_address refs_is_empty
fixed_valid = refl

b_name : IsObjectName (b'b' ∷ [])
unfolding illegal_char is_name_char
b_name = (omega arith, omega arith, refl)

drv_dir_abs : is_abs (path_dir ext drv_path) ≡ true
drv_dir_abs = rw drv_path_dir (abs_yes _)

drv_dir_clean : clean (path_dir ext drv_path) ≡ path_dir ext drv_path
drv_dir_clean = rw drv_path_dir store-clean

derivation_output_path-is_valid_example :
    (p : Bytes) × (derivation_output_path ext sample_nix
        (path_dir ext drv_path)
        (b'b' ∷ [])
        out
        (some fixed)
      ≡ ok p)
    × (parse_path ext p ≡ ok p)
    × (is_valid_output_path ext ref p ≡ true)
derivation_output_path-is_valid_example =
    derivation_output_path-is_valid ext sample_nix sample_digest ref (b'b' ∷ []) (b'b' ∷ []) fixed
      drv_dir_abs drv_dir_clean drv_path_name ref-suffix b_name refl fixed_valid

parse_derivation-rounds_example :
    parse_derivation ext sample_nix store (b'b' ∷ []) (derive ++ b'(' ∷ []) ≢ err out_of_rounds
parse_derivation-rounds_example =
    parse_derivation-rounds ext sample_nix store (b'b' ∷ []) (derive ++ b'(' ∷ [])

abbrev sample_bits : Bool → Bytes
sample_bits h = (if h then 1 else 0) ∷ []

sample_hex : (h : Bool) → hex_decode (bit_text h) ≡ some (sample_bits h)
unfolding hex_decode hex_digit
sample_hex true = refl
sample_hex false = refl

sample_again : (h : Bool) → bit_of (sample_bits h) ≡ h
sample_again true = refl
sample_again false = refl

sample_laws : NixLaws sample_nix
unfolding cut_prefix
sample_laws = record {
  name_plain = λ h. refl;
  name_no_text = λ h. refl;
  name_short = λ h. omega arith;
  bits = sample_bits;
  hex_bits = λ h k. sample_hex h;
  bits_size = λ h k. refl;
  hash_again = λ h k. sample_again h;
  hex_some = λ h k. cc;
  hex_short = λ h. omega arith;
}

-- An output whose hash is not known, of NARs by the hash type "sha".
abbrev floating : DerivationOutputType Address ℕ
floating = record { typ = 2; ca = (false, false); method = 3; hash_algo = 1 }

abbrev dev : Bytes
dev = b'd' ∷ b'e' ∷ b'v' ∷ []

-- a derivation with two outputs, an input derivation, a source, an argument and a variable
abbrev drv : Derivation Address ℕ
drv = record {
  dir = store;
  name = b'b' ∷ [];
  system = b's' ∷ [];
  builder = b'/' ∷ b's' ∷ b'h' ∷ [];
  args = (b'-' ∷ b'c' ∷ []) ∷ [];
  env = (b'A' ∷ [], b'"' ∷ []) ∷ [];
  input_sources = object_path ∷ [];
  input_derivations = (drv_path, out ∷ []) ∷ [];
  outputs = (dev, some floating) ∷ (out, some fixed) ∷ [];
}

dev_valid : is_valid_output_name dev ≡ true
unfolding is_valid_output_name contains_special
dev_valid = refl

fixed_path :
    derivation_output_path ext sample_nix store (b'b' ∷ []) out (some fixed) ≡ ok object_path
unfolding derivation_output_path output_path_name is_valid_output_name contains_special
    default_derivation_output_name fixed_ca_output_path validate_content_address
    is_source_content_address refs_is_empty make_store_path make_digest write_refs object
    directory_join join join_elements contains_separator parse_path detect_path_style is_abs clean
    split_slash elements render render_elements is_empty is_dot is_dot_dot split_base checked
    check_base illegal_char is_name_char base32_chars
fixed_path = refl

object_path_dir : path_dir ext object_path ≡ store
unfolding path_dir detect_path_style is_abs dir split_slash elements render render_elements is_empty
    is_dot is_dot_dot
object_path_dir = refl

fixed_again :
    address_of ext sample_nix
      (method_of_content_address sample_nix.ca_is_text sample_nix.ca_is_recursive_file
        (false, true))
      true
    ≡ some (false, true)
unfolding address_of method_of_content_address
fixed_again = refl

drv_IsWellFormed : IsWellFormed ext sample_nix drv
drv_IsWellFormed = record {
  has_name = cc;
  has_dir = cc;
  outputs_good = (
    record {
      typ = floating;
      present = refl;
      valid = dev_valid;
      name_short = omega arith;
      way = inl (record {
        typ_eq = refl;
        ca_eq = refl;
        method_least = omega arith;
        method_most = omega arith;
        known = refl;
      });
    },
    (
      record {
        typ = fixed;
        present = refl;
        valid = out_valid;
        name_short = omega arith;
        way = inr (record {
          typ_eq = refl;
          method_eq = refl;
          algo_eq = refl;
          known = refl;
          again = fixed_again;
          path = object_path;
          path_eq = fixed_path;
          path_short = omega arith;
        });
      },
      tt,
    ),
  );
  outputs_ascending = ((refl, tt), (tt, tt));
  inputs_good = ((drv_path_parsed, drv_path_dir, (tt, tt)), tt);
  inputs_ascending = (tt, tt);
  sources_paths = (object_parsed, tt);
  sources_in = (object_path_dir, tt);
  sources_sorted = (tt, tt);
  env_ascending = (tt, tt);
}

drv_IsSmall : IsSmall ext sample_nix drv
drv_IsSmall = record {
  inputs_fit = ((omega arith, (omega arith, tt)), tt);
  sources_fit = (omega arith, tt);
  system_fits = omega arith;
  builder_fits = omega arith;
  args_fit = (omega arith, tt);
  env_fits = (omega arith, omega arith, tt);
}

parse_derivation-marshal_text_example :
    (text : Bytes) × (marshal_text ext sample_nix drv ≡ ok text)
    × (parse_derivation ext sample_nix store (b'b' ∷ []) text ≡ ok drv)
parse_derivation-marshal_text_example =
    parse_derivation-marshal_text ext sample_nix sample_laws drv drv_IsWellFormed drv_IsSmall

references_of_lem_example :
    ((references_of drv).self ≡ false)
    × IsSorted (references_of drv).others
    × ((z : Bytes)
        → has (references_of drv).others z
          ≡ among drv.input_sources z || among_inputs drv.input_derivations z)
references_of_lem_example = references_of_lem drv

sample_text_laws : TextLaws ext sample_nix 1
sample_text_laws = record {
  not_zero = λ h. refl;
  not_fixed = λ h. refl;
  hash_kept = λ h. refl;
  type_kept = λ text. refl;
}

drv_name : IsObjectName (drv.name ++ derivation_ext)
unfolding illegal_char is_name_char
drv_name = (omega arith, omega arith, refl)

export_lem_example :
    (text : Bytes) × (trailer : ExportTrailer Address) × (export ext sample_nix (λ t. t) drv 1
      ≡ ok (text, trailer))
    × (trailer.references ≡ (references_of drv).others)
    × (parse_path ext trailer.store_path ≡ ok trailer.store_path)
    × (derivation_name ext trailer.store_path ≡ some drv.name)
    × (parse_derivation ext sample_nix (path_dir ext trailer.store_path) drv.name text ≡ ok drv)
export_lem_example =
    export_lem ext sample_nix (λ t. t) sample_laws sample_digest 1 refl sample_text_laws drv
      drv_IsWellFormed drv_IsSmall (abs_yes _) store-clean drv_name

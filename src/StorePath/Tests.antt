-- ===== src/StorePath/Tests.antt =====
-- The theorems on store paths at concrete paths.
use zb.Prelude.{
  true, false, List, [], ◌∷◌, ◌++◌, ok, err, ◌≤◌, ◌⊎◌, ◌≡◌, ◌≢◌, refl, length, arith, ◌==◌,
}
use zb.Sets.Ordered.{bytes_ordered}
use zb.Sets.Sorted.{has}
use zb.Sets.Sorted.Laws.{IsSorted}
use zb.StorePath.Posix.{
  Bytes, slash, is_abs, clean, split_slash, are_elements, is_element, elements, render,
  render_elements, is_empty, is_dot, is_dot_dot, no_slash, split_base, dir,
}
use zb.StorePath.Sample.{
  base32_chars, ext, store, object_name, object_path, object_parsed, abs_yes, sample_nix,
  sample_digest, store-clean,
}
use zb.StorePath.Paths.{
  outside, parse_path, path_dir, path_base, path_name, digest, is_name_char, illegal_char,
  detect_path_style, checked, check_base,
}
use zb.StorePath.Directory.{parse_in, object, parse_inside, cut_prefix, cut}
use zb.StorePath.Objects.{parse_path_lem}
use zb.StorePath.Within.{parse_in_lem, parse_in-ok, parse_in-root}
use zb.StorePath.References.{make_references, refs_is_empty, to_set, make_references-to_set}
use zb.StorePath.ContentAddress.{empty_references, validate_content_address, fixed_ca_output_path}
use zb.StorePath.Made.{IsObjectName, Follows, fixed_ca_output_path_lem}

-- /a/./ and the name of the object
abbrev unclean_path : Bytes
unclean_path = store ++ slash ∷ b'.' ∷ slash ∷ object_name

unclean_parsed : parse_path ext unclean_path ≡ ok object_path
unfolding parse_path detect_path_style is_abs clean split_slash elements render render_elements
    is_empty is_dot is_dot_dot split_base checked check_base illegal_char is_name_char base32_chars
unclean_parsed = refl

parse_path_lem_example :
    (object_path ≡ clean unclean_path)
    × (parse_path ext object_path ≡ ok object_path)
    × (object ext (path_dir ext object_path) (path_base ext object_path) ≡ ok object_path)
    × (digest ext object_path ++ b'-' ∷ path_name ext object_path ≡ path_base ext object_path)
    × (length (digest ext object_path) ≡ 32)
    × (ext.valid_base32 (digest ext object_path) ≡ true)
    × (1 ≤ length (path_name ext object_path))
parse_path_lem_example = parse_path_lem ext unclean_path object_path (abs_yes _) unclean_parsed

abbrev sub : Bytes
sub = b'c' ∷ []

-- the object and c inside it
abbrev inner_path : Bytes
inner_path = object_path ++ slash ∷ sub

inner_in_store : parse_in ext store inner_path ≡ ok (object_path, sub)
unfolding parse_in parse_inside cut_prefix cut parse_path detect_path_style is_abs clean split_slash
    elements render render_elements is_empty is_dot is_dot_dot split_base checked check_base
    illegal_char is_name_char base32_chars
inner_in_store = refl

parse_in_lem_example :
    (parse_path ext object_path ≡ ok object_path)
    × (path_dir ext object_path ≡ clean store)
    × (((clean inner_path ≡ object_path) × (sub ≡ []))
        ⊎ (clean inner_path ≡ object_path ++ slash ∷ sub))
parse_in_lem_example =
    parse_in_lem ext store inner_path object_path sub (abs_yes _) (abs_yes _) inner_in_store

store_not_root : path_dir ext object_path ≢ slash ∷ []
unfolding path_dir detect_path_style is_abs dir split_slash elements render render_elements is_empty
    is_dot is_dot_dot
store_not_root = λ e. cc

element_c : are_elements (split_slash sub) ≡ true
unfolding are_elements split_slash is_element no_slash is_empty is_dot is_dot_dot
element_c = refl

parse_in-ok_example :
    (parse_in ext (path_dir ext object_path) object_path ≡ ok (object_path, []))
    × (parse_in ext (path_dir ext object_path) (object_path ++ slash ∷ sub) ≡ ok (object_path, sub))
parse_in-ok_example =
    parse_in-ok ext object_path sub (abs_yes _) object_parsed store_not_root element_c

root_clean : clean (slash ∷ []) ≡ slash ∷ []
unfolding clean is_abs split_slash elements render is_empty is_dot is_dot_dot
root_clean = refl

parse_in-root_example : parse_in ext (slash ∷ []) (slash ∷ object_name) ≡ err outside
parse_in-root_example =
    parse_in-root ext (slash ∷ []) (slash ∷ object_name) (abs_yes _) root_clean (abs_yes _)

-- two paths, of which the first is the object's own
abbrev two_paths : List Bytes
two_paths = (slash ∷ b'a' ∷ []) ∷ (slash ∷ b'b' ∷ []) ∷ []

make_references-to_set_example :
    let refs = make_references (slash ∷ b'a' ∷ []) two_paths in
    IsSorted refs.others
    × (has refs.others (slash ∷ b'a' ∷ []) ≡ false)
    × (refs.self ≡ has two_paths (slash ∷ b'a' ∷ []))
    × (refs_is_empty refs ≡ (length two_paths == 0))
    × (to_set refs (slash ∷ b'a' ∷ []) ≡ two_paths)
make_references-to_set_example =
    make_references-to_set (slash ∷ b'a' ∷ []) two_paths ((refl, tt), (tt, tt))

b_IsObjectName : IsObjectName (b'b' ∷ [])
unfolding illegal_char is_name_char
b_IsObjectName = (omega arith, omega arith, refl)

fixed_ca_output_path_lem_example :
    Follows ext sample_nix store
      (b'b' ∷ [])
      (validate_content_address ext sample_nix (false, true) empty_references)
      (fixed_ca_output_path ext sample_nix store (b'b' ∷ []) (false, true) empty_references)
fixed_ca_output_path_lem_example =
    fixed_ca_output_path_lem ext sample_nix sample_digest store (b'b' ∷ []) (false, true)
      empty_references (abs_yes _) store-clean b_IsObjectName

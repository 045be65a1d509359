-- ===== src/StorePath/Sample.antt =====
-- A store directory, a store path and functions for the code that is not this repository's, for the
-- tests on store paths.
use zb.Prelude.{
  ℕ, Bool, true, false, not, ◌&&◌, ◌||◌, [], ◌∷◌, ◌++◌, none, some, ok, ◌≡◌, refl, replicate, leb,
  ◌==◌, if◌then◌else◌,
}
use zb.Sets.Ordered.{equal, bytes_ordered}
use zb.StorePath.Posix.{
  Bytes, slash, is_abs, clean, split_slash, elements, render, render_elements, is_empty, is_dot,
  is_dot_dot, split_base,
}
use zb.StorePath.Paths.{
  External, parse_path, is_name_char, illegal_char, detect_path_style, checked, check_base,
}
use zb.StorePath.ContentAddress.{Nix}
use zb.StorePath.Made.{IsDigest}

-- the alphabet of base 32: digits and lower case, but for e, o, t and u
unfoldable pub base32_chars : Bytes → Bool
base32_chars [] = true
base32_chars (c ∷ s) =
    ((leb b'0' c && leb c b'9')
      || (leb b'a' c && leb c b'z' && not (c == b'e' || c == b'o' || c == b't' || c == b'u')))
    && base32_chars s

-- No path is one of Windows.
abbrev pub ext : External
ext = record {
  win_is_abs = λ p. false;
  win_clean = λ p. p;
  win_split_base = λ p. p;
  win_dir = λ p. p;
  win_base = λ p. p;
  win_join = λ ps. [];
  win_to_slash = λ p. p;
  valid_base32 = base32_chars;
}

abbrev pub object_name : Bytes
object_name = replicate 32 b'0' ++ b'-' ∷ b'b' ∷ []

-- /a
abbrev pub store : Bytes
store = slash ∷ b'a' ∷ []

abbrev pub object_path : Bytes
object_path = store ++ slash ∷ object_name

pub object_parsed : parse_path ext object_path ≡ ok object_path
unfolding parse_path detect_path_style is_abs clean split_slash elements render render_elements
    is_empty is_dot is_dot_dot split_base checked check_base illegal_char is_name_char base32_chars
object_parsed = refl

pub abs_yes : (c : Bytes) → is_abs (slash ∷ c) ≡ true
unfolding is_abs
abs_yes c = refl

-- A package of one hash type, "sha", whose hashes are single bits. A content address says whether
-- it is of a text, and else it is of a NAR, and has the hash; the hash 0 of a NAR is the zero address.
abbrev pub Address : Type 0
Address = Bool × Bool

abbrev pub sha : Bytes
sha = b's' ∷ b'h' ∷ b'a' ∷ []

abbrev pub bit_text : Bool → Bytes
bit_text h = b'0' ∷ (if h then b'1' else b'0') ∷ []

abbrev pub bit_of : Bytes → Bool
bit_of [] = false
bit_of (b ∷ bits) = b == 1

abbrev pub sample_nix : Nix Address Bool ℕ
sample_nix = record {
  zero_address = (false, false);
  zero_type = 0;
  hash_of = λ ca. ca.1;
  ca_is_zero = λ ca. not (ca.0 || ca.1);
  ca_is_text = λ ca. ca.0;
  ca_is_fixed = λ ca. not ca.0;
  ca_is_recursive_file = λ ca. not ca.0;
  hash_type = λ h. 1;
  is_sha256 = λ t. true;
  type_string = λ t. sha;
  parse_hash_type = λ s. if equal s sha then some 1 else none;
  size = λ t. 1;
  base16 = bit_text;
  raw_base16 = bit_text;
  new_hash = λ t bits. bit_of bits;
  text_address = λ h. (true, h);
  flat_file_address = λ h. (false, h);
  recursive_file_address = λ h. (false, h);
  digest = λ text. replicate 32 b'0';
  sha256_hash = λ text. true;
  sum_hash = λ t text. true;
}

pub sample_digest : (text : Bytes) → IsDigest ext (sample_nix.digest text)
unfolding illegal_char is_name_char base32_chars
sample_digest text = (refl, refl, refl)

pub store-clean : clean store ≡ store
unfolding clean is_abs split_slash elements render render_elements is_empty is_dot is_dot_dot
store-clean = refl

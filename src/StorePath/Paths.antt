-- ===== src/StorePath/Paths.antt =====
-- zbstore/path.go: `ParsePath` and the methods of `Path`. The functions of internal/windowspath,
-- which are Go's own for paths of Windows, and the validation of nixbase32 are parameters. Of an
-- error the cause is kept.
use zb.Prelude.{
  ℕ, ◌+◌, Bool, true, false, not, ◌&&◌, ◌||◌, List, [], ◌∷◌, Option, none, some, Result, ok, err,
  ltb, leb, ◌==◌, if◌then◌else◌, length, take, drop, get_or,
}
use zb.Sets.Ordered.{equal, bytes_ordered}
use zb.StorePath.Posix.{Bytes, is_abs, clean, split_base, dir, base, is_empty}

-- Code that is not this package's: internal/windowspath, and `nixbase32.ValidateString`.
pub record External : Type 0 where
  pub win_is_abs : Bytes → Bool
  pub win_clean : Bytes → Bytes
  pub win_split_base : Bytes → Bytes
  pub win_dir : Bytes → Bytes
  pub win_base : Bytes → Bytes
  pub win_join : List Bytes → Bytes
  pub win_to_slash : Bytes → Bytes
  pub valid_base32 : Bytes → Bool

-- The order of these is that of the checks.
pub data PathError : Type 0 where
  not_absolute : PathError
  too_short : PathError
  too_long : PathError
  illegal_character : ℕ → PathError
  invalid_digest : PathError
  no_dash : PathError
  invalid_object_name : PathError
  directory_not_absolute : PathError
  outside : PathError

-- `unknown` is the zero of the source.
pub data PathStyle : Type 0 where
  posix : PathStyle
  windows : PathStyle
  unknown : PathStyle

abbrev pub object_name_digest_length : ℕ
object_name_digest_length = 32

abbrev pub max_object_name_length : ℕ
max_object_name_length = object_name_digest_length + 1 + 211

unfoldable pub is_name_char : ℕ → Bool
is_name_char c =
    (leb b'a' c && leb c b'z')
    || (leb b'A' c && leb c b'Z')
    || (leb b'0' c && leb c b'9')
    || c == b'+'
    || c == b'-'
    || c == b'.'
    || c == b'_'
    || c == b'='

-- the first byte that is no character of a name
unfoldable pub illegal_char : Bytes → Option ℕ
unfolding is_name_char
illegal_char [] = none
illegal_char (c ∷ name) = if is_name_char c then illegal_char name else some c

-- `strings.CutSuffix`, and nothing where the suffix is not there
unfoldable pub cut_suffix : Bytes → Bytes → Option Bytes
cut_suffix [] suffix = if equal [] suffix then some [] else none
cut_suffix (c ∷ s) suffix =
    let rest = cut_suffix s suffix in
    if equal (c ∷ s) suffix then some [] else elim rest [ none ↦ none | some t ↦ some (c ∷ t) ]

-- `DerivationExt`
abbrev pub derivation_ext : Bytes
derivation_ext = b'.' ∷ b'd' ∷ b'r' ∷ b'v' ∷ []

module _ (x : External) where
  unfoldable pub detect_path_style : Bytes → PathStyle
  unfolding is_abs
  detect_path_style path =
      if is_abs path then posix else if x.win_is_abs path then windows else unknown

  -- What `ParsePath` checks of the last element, in its order.
  unfoldable pub check_base : Bytes → Option PathError
  unfolding illegal_char
  check_base name =
      if ltb (length name) (object_name_digest_length + 1 + 1)
      then some too_short
      else if ltb max_object_name_length (length name)
      then some too_long
      else elim (illegal_char name) [
        | some c ↦ some (illegal_character c)
        | none ↦
            if not (x.valid_base32 (take object_name_digest_length name))
            then some invalid_digest
            else if not (get_or name object_name_digest_length 0 == b'-')
            then some no_dash
            else none
      ]

  unfoldable pub checked : Bytes → Bytes → Result PathError Bytes
  unfolding check_base
  checked cleaned name = elim (check_base name) [ some e ↦ err e | none ↦ ok cleaned ]

  unfoldable pub parse_path : Bytes → Result PathError Bytes
  unfolding detect_path_style clean split_base checked
  parse_path path = elim (detect_path_style path) [
    | posix ↦ checked (clean path) (split_base (clean path))
    | windows ↦ checked (x.win_clean path) (x.win_split_base (x.win_clean path))
    | unknown ↦ err not_absolute
  ]

  -- `Path.Dir`
  unfoldable pub path_dir : Bytes → Bytes
  unfolding detect_path_style dir
  path_dir path = elim (detect_path_style path) [
    | posix ↦ dir path
    | windows ↦ x.win_dir path
    | unknown ↦ []
  ]

  -- `Path.Base`
  unfoldable pub path_base : Bytes → Bytes
  unfolding detect_path_style base is_empty
  path_base path = if is_empty path then [] else elim (detect_path_style path) [
    | posix ↦ base path
    | windows ↦ x.win_base path
    | unknown ↦ []
  ]

  unfoldable pub digest : Bytes → Bytes
  unfolding path_base
  digest path =
      let name = path_base path in
      if ltb (length name) object_name_digest_length
      then []
      else take object_name_digest_length name

  unfoldable pub path_name : Bytes → Bytes
  unfolding path_base
  path_name path =
      let name = path_base path in
      if leb (length name) (object_name_digest_length + 1)
      then []
      else drop (object_name_digest_length + 1) name

  -- `none` is the false of the source.
  unfoldable pub derivation_name : Bytes → Option Bytes
  unfolding path_name cut_suffix
  derivation_name path = cut_suffix (path_name path) derivation_ext

  unfoldable pub is_derivation : Bytes → Bool
  unfolding derivation_name
  is_derivation path = elim (derivation_name path) [ none ↦ false | some name ↦ true ]

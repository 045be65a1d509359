-- ===== src/StorePath/Directory.antt =====
-- zbstore/path.go: `Directory`, its `Join`, `Object` and `ParsePath`, and `CleanDirectory`.
use zb.Prelude.{
  ℕ, ◌+◌, Bool, false, not, ◌||◌, List, [], ◌∷◌, ◌++◌, Option, none, some, Result, ok, err, ◌==◌,
  if◌then◌else◌, length, take,
}
use zb.StorePath.Posix.{Bytes, slash, is_abs, clean, join, is_empty, is_dot, is_dot_dot}
use zb.StorePath.Paths.{
  External, PathError, not_absolute, invalid_object_name, directory_not_absolute, outside, posix,
  windows, unknown, detect_path_style, parse_path, path_dir, path_base,
}

abbrev pub backslash : ℕ
backslash = 92

-- `strings.CutPrefix`, and nothing where the prefix is not there
unfoldable pub cut_prefix : Bytes → Bytes → Option Bytes
cut_prefix s [] = some s
cut_prefix [] (p ∷ prefix) = none
cut_prefix (c ∷ s) (p ∷ prefix) = if c == p then cut_prefix s prefix else none

-- `strings.Cut` at a byte: what stands before the first one, and what behind it
unfoldable pub cut : Bytes → ℕ → Bytes × Bytes
cut [] sep = ([], [])
cut (c ∷ s) sep =
    let (before, after) = cut s sep in if c == sep then ([], s) else (c ∷ before, after)

-- `strings.ContainsAny` of a slash and a backslash
unfoldable pub contains_separator : Bytes → Bool
contains_separator [] = false
contains_separator (c ∷ name) = c == slash || c == backslash || contains_separator name

module _ (x : External) where
  unfoldable pub clean_directory : Bytes → Result PathError Bytes
  unfolding detect_path_style clean is_abs
  clean_directory path = elim (detect_path_style x path) [
    | posix ↦ if not (is_abs path) then err not_absolute else ok (clean path)
    | windows ↦ if not (x.win_is_abs path) then err not_absolute else ok (x.win_clean path)
    | unknown ↦ err not_absolute
  ]

  -- `Directory.Join`
  unfoldable pub directory_join : Bytes → List Bytes → Bytes
  unfolding detect_path_style join
  directory_join store elems = elim (detect_path_style x store) [
    | windows ↦ x.win_join (store ∷ elems)
    | posix ↦ join (store ∷ elems)
    | unknown ↦ join (store ∷ elems)
  ]

  unfoldable pub object : Bytes → Bytes → Result PathError Bytes
  unfolding directory_join is_empty is_dot is_dot_dot contains_separator parse_path
  object store name =
      let joined = directory_join store (name ∷ []) in
      if is_empty name || is_dot name || is_dot_dot name || contains_separator name
      then err invalid_object_name
      else parse_path x joined

  -- `Path.Join`
  unfoldable pub path_join : Bytes → List Bytes → Bytes
  unfolding directory_join path_base path_dir
  path_join path elem = directory_join (path_dir x path) (path_base x path ∷ elem)

  -- What `Directory.ParsePath` does with the path behind its checks, in either style.
  unfoldable pub parse_inside : ℕ → Bytes → Bytes → Result PathError (Bytes × Bytes)
  unfolding cut_prefix cut parse_path
  parse_inside sep cleaned dir_prefix = elim (cut_prefix cleaned dir_prefix) [
    | none ↦ err outside
    | some tail ↦
        let (child_name, sub) = cut tail sep in
        elim (parse_path x (take (length dir_prefix + length child_name) cleaned)) [
          | err e ↦ err e
          | ok store_path ↦ ok (store_path, sub)
        ]
  ]

  -- `Directory.ParsePath`
  unfoldable pub parse_in : Bytes → Bytes → Result PathError (Bytes × Bytes)
  unfolding detect_path_style is_abs clean parse_inside
  parse_in store path = elim (detect_path_style x store) [
    | posix ↦
        if not (is_abs path)
        then err not_absolute
        else parse_inside slash (clean path) (clean store ++ slash ∷ [])
    | windows ↦
        if not (x.win_is_abs path)
        then err not_absolute
        else elim (parse_inside backslash (x.win_clean path)
            (x.win_clean store ++ backslash ∷ [])) [
              | err e ↦ err e
              | ok (store_path, sub) ↦ ok (store_path, x.win_to_slash sub)
            ]
    | unknown ↦ err directory_not_absolute
  ]

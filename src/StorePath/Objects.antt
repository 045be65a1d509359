-- ===== src/StorePath/Objects.antt =====
-- zbstore/path.go: what the methods of a store path that begins with a slash return, and that
-- `Object` makes the path again of the two parts that `Dir` and `Base` return.
use zb.Prelude.{
  ℕ, zero, suc, ◌+◌, ◌≤◌, true, List, [], ◌∷◌, ◌++◌, none, ok, length, take, drop, get_or, ◌≡◌,
  refl, sym, ◌∙◌, ap, arith, subst, length-take, length-drop,
}
use zb.StorePath.Posix.{Bytes, is_abs, is_empty, render, clean, dir, base, is_element, are_elements}
use zb.StorePath.Clean.{base_append, dir_append, join-render}
use zb.StorePath.Elements.{render-is_abs}
use zb.StorePath.Paths.{External, check_base, parse_path, path_dir, path_base, digest, path_name}
use zb.StorePath.Directory.{directory_join, object}
use zb.StorePath.Parsed.{
  illegal_char-contains_separator, check_base-parts, check_base-is_element, style_posix,
  parse_path_ok, parsed_parts,
}

-- The element at a position stands between those before it and those behind it.
take-get_or-drop :
    (n : ℕ) (name : Bytes)
    → n + 1 ≤ length name
    → take n name ++ get_or name n 0 ∷ drop (suc n) name ≡ name
take-get_or-drop n [] h = absurd (omega arith)
take-get_or-drop zero (c ∷ name) h = refl
take-get_or-drop (suc n) (c ∷ name) h = ap (λ t. c ∷ t) (take-get_or-drop n name (omega arith))

are_elements_one : (e : Bytes) → are_elements (e ∷ []) ≡ is_element e
unfolding are_elements
are_elements_one e = ground arith

module _ (x : External) where
  pub path_dir_posix : (path : Bytes) → is_abs path ≡ true → path_dir x path ≡ dir path
  unfolding path_dir
  path_dir_posix path h = rw (style_posix x path h, path_dir) refl

  pub path_base_posix : (path : Bytes) → is_abs path ≡ true → path_base x path ≡ base path
  unfolding path_base is_empty is_abs
  path_base_posix [] h = cc
  path_base_posix (c ∷ path) h = rw (style_posix x (c ∷ path) h, path_base) refl

  -- Joining an element to a store directory.
  directory_join_posix :
      (es : List Bytes) (b : Bytes)
      → are_elements (es ++ b ∷ []) ≡ true
      → directory_join x (render true es) (b ∷ []) ≡ render true (es ++ b ∷ [])
  unfolding directory_join
  directory_join_posix es b h =
      rw (style_posix x (render true es) (render-is_abs es), directory_join) (join-render es b h)

  -- an object of a store directory
  pub object_ok :
      (es : List Bytes) (b : Bytes)
      → are_elements (es ++ b ∷ []) ≡ true
      → check_base x b ≡ none
      → object x (render true es) b ≡ ok (render true (es ++ b ∷ []))
  unfolding object
  object_ok es b h k =
      let (long, _, legal, _, _) = check_base-parts x b k in
      let sep = illegal_char-contains_separator b legal in
      let good = check_base-is_element x b k in
      let j = directory_join_posix es b h in
      let r = parse_path_ok x es b h k in ground (arith, sep, good, j, r)

  -- What the name of a path consists of.
  pub base_parts :
      (name path : Bytes)
      → path_base x path ≡ name
      → check_base x name ≡ none
      → (digest x path ≡ take 32 name) × (path_name x path ≡ drop 33 name)
  unfolding digest path_name
  base_parts name path e k =
      let (long, _, _, _, _) = check_base-parts x name k in
      (rw e (ground (arith, long)), rw e (ground (arith, long)))

  -- For a path that begins with a slash: what `ParsePath` returns is the cleaned path, and a fixed
  -- point of `ParsePath`; `Object` of its directory and its last element returns it again; and its
  -- last element is its digest, which is 32 bytes of valid base 32, a dash, and its name, which is
  -- not empty.
  pub parse_path_lem :
      (path q : Bytes)
      → is_abs path ≡ true
      → parse_path x path ≡ ok q
      → (q ≡ clean path)
        × (parse_path x q ≡ ok q)
        × (object x (path_dir x q) (path_base x q) ≡ ok q)
        × (digest x q ++ b'-' ∷ path_name x q ≡ path_base x q)
        × (length (digest x q) ≡ 32)
        × (x.valid_base32 (digest x q) ≡ true)
        × (1 ≤ length (path_name x q))
  parse_path_lem path q h k =
      let (es, b, good, c, e, pass) = parsed_parts x path q h k in
      let q' = e ∙ c in
      let abs = subst (λ t. is_abs t ≡ true) (sym q') (render-is_abs (es ++ b ∷ [])) in
      let base_eq = path_base_posix q abs ∙ ap base q' ∙ base_append es b good in
      let dir_eq = path_dir_posix q abs ∙ ap dir q' ∙ dir_append es b good in
      let (digest_eq, name_eq) = base_parts b q base_eq pass in
      let (long, _, _, base32, dash) = check_base-parts x b pass in
      (
        e,
        subst (λ t. parse_path x t ≡ ok t) (sym q') (parse_path_ok x es b good pass),
        rw (dir_eq, base_eq) (rw q' (object_ok es b good pass)),
        rw (digest_eq, name_eq, base_eq)
            (subst (λ t. take 32 b ++ t ∷ drop 33 b ≡ b) dash
              (take-get_or-drop 32 b (omega arith))),
        rw digest_eq (omega (arith, length-take 32 b)),
        rw digest_eq base32,
        rw name_eq (omega (arith, length-drop 33 b)),
      )

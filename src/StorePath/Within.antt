-- ===== src/StorePath/Within.antt =====
-- zbstore/path.go: which paths `Directory.ParsePath` takes to be in a directory, and what it
-- returns for them.
use zb.Prelude.{
  ◌+◌, true, List, [], ◌∷◌, ◌++◌, append_assoc, append-nil, none, ok, err, Option-cases, length,
  take, ◌≡◌, ◌≢◌, ◌⊎◌, sym, ◌∙◌, ap, arith, subst, inl, inr,
}
use zb.StorePath.Posix.{Bytes, slash, is_abs, split_slash, render, clean, dir, are_elements}
use zb.StorePath.Clean.{render_append, dir_append}
use zb.StorePath.Elements.{clean-render, render-is_abs, are_elements-append, is_element-no_slash}
use zb.StorePath.Paths.{External, outside, check_base, parse_path, path_dir}
use zb.StorePath.Directory.{cut_prefix, cut, parse_in}
use zb.StorePath.Parsed.{check_base-is_element, parsed_parts}
use zb.StorePath.Objects.{path_dir_posix, parse_path_lem}
use zb.StorePath.Inside.{
  cut_prefix-some, cut-slash, cut_none, cut-append, take_two, parse_inside_parts, parse_in_posix,
  parse_in_behind,
}
use zb.StorePath.Behind.{
  first_part, first_element, render_root, not_root, render_behind, outside_of,
}

module _ (x : External) where
  -- The path up to the end of the first part behind the store directory is the store path.
  parsed_front :
      (store path tail store_path : Bytes)
      → is_abs store ≡ true
      → is_abs path ≡ true
      → clean path ≡ clean store ++ slash ∷ tail
      → parse_path x
          (take (length (clean store ++ slash ∷ []) + length (cut tail slash).0) (clean path))
        ≡ ok store_path
      → (parse_path x store_path ≡ ok store_path)
        × (path_dir x store_path ≡ clean store)
        × (clean store ++ slash ∷ (cut tail slash).0 ≡ store_path)
  parsed_front store path tail store_path h k at parsed =
      let (e, es, good, c) = first_element store path tail h k at in
      let (parts, split, rest, tail_eq) = first_part tail in
      let a = (cut tail slash).0 in
      let front = clean store ++ slash ∷ [] in
      let whole : clean path ≡ front ++ (a ++ rest) =
        at ∙ sym (append_assoc (clean store) (slash ∷ []) tail) ∙ ap (λ t. front ++ t) tail_eq in
      let q = render true (e ∷ es ++ a ∷ []) in
      let q_eq : clean store ++ slash ∷ a ≡ q = ap (λ t. t ++ slash ∷ a) c ∙ render_append e es a in
      let cut_at : take (length front + length a) (clean path) ≡ q =
        ap (take (length front + length a)) whole
        ∙ take_two front a rest
        ∙ append_assoc (clean store) (slash ∷ []) a
        ∙ q_eq in
      let q_abs = render-is_abs (e ∷ es ++ a ∷ []) in
      let (is_clean, again, _, _, _, _, _) =
        parse_path_lem x q store_path q_abs
          (subst (λ t. parse_path x t ≡ ok store_path) cut_at parsed) in
      let sp_eq : store_path ≡ q = is_clean ∙ clean-render (e ∷ es ++ a ∷ []) good in
      (
        again,
        ap (path_dir x) sp_eq ∙ path_dir_posix x q q_abs ∙ dir_append (e ∷ es) a good ∙ sym c,
        q_eq ∙ sym sp_eq,
      )

  -- For a store directory and a path that begin with a slash: when `Directory.ParsePath` returns a
  -- store path, then this is one that `ParsePath` returns unchanged, its directory is the store's,
  -- cleaned, and the cleaned path is the store path alone, with no path inside it, or it is the
  -- store path, a slash, and the path inside it.
  pub parse_in_lem :
      (store path store_path sub : Bytes)
      → is_abs store ≡ true
      → is_abs path ≡ true
      → parse_in x store path ≡ ok (store_path, sub)
      → (parse_path x store_path ≡ ok store_path)
        × (path_dir x store_path ≡ clean store)
        × (((clean path ≡ store_path) × (sub ≡ [])) ⊎ (clean path ≡ store_path ++ slash ∷ sub))
  parse_in_lem store path store_path sub h k r =
      let (tail, front, sub_eq, parsed) =
        parse_inside_parts x slash (clean path) (clean store ++ slash ∷ []) store_path sub
          (sym (parse_in_posix x store path h k) ∙ r) in
      let at : clean path ≡ clean store ++ slash ∷ tail =
        cut_prefix-some (clean path) (clean store ++ slash ∷ []) tail front
        ∙ append_assoc (clean store) (slash ∷ []) tail in
      let (again, dir_eq, sp_eq) = parsed_front store path tail store_path h k at parsed in
      let a = (cut tail slash).0 in
      let (free, way) = cut-slash tail in
      (
        again,
        dir_eq,
        elim way [
          | inl w ↦ inl (at ∙ ap (λ t. clean store ++ slash ∷ t) w.0 ∙ sp_eq, sym sub_eq ∙ w.1)
          | inr w ↦ inr (
              at
              ∙ ap (λ t. clean store ++ slash ∷ t) (w ∙ ap (λ t. a ++ slash ∷ t) sub_eq)
              ∙ sym (append_assoc (clean store) (slash ∷ a) (slash ∷ sub))
              ∙ ap (λ t. t ++ slash ∷ sub) sp_eq)
        ],
      )

  -- A store path of a directory that is not the root, alone and with a path inside it.
  in_directory :
      (d : Bytes) (ds : List Bytes) (b : Bytes)
      → are_elements (d ∷ ds ++ b ∷ []) ≡ true
      → check_base x b ≡ none
      → (parse_in x (render true (d ∷ ds)) (render true (d ∷ ds ++ b ∷ []))
          ≡ ok (render true (d ∷ ds ++ b ∷ []), []))
        × ((sub : Bytes)
            → are_elements (split_slash sub) ≡ true
            → parse_in x (render true (d ∷ ds)) (render true (d ∷ ds ++ b ∷ []) ++ slash ∷ sub)
              ≡ ok (render true (d ∷ ds ++ b ∷ []), sub))
  in_directory d ds b good pass =
      let free = is_element-no_slash b (check_base-is_element x b pass) in
      let q = render true (d ∷ ds ++ b ∷ []) in
      let alone = cut_none b free in
      (
        subst
            (λ t.
              cut t slash ≡ (b, [])
              → clean q ≡ render true (d ∷ ds) ++ slash ∷ t
              → parse_in x (render true (d ∷ ds)) q ≡ ok (q, []))
            (append-nil b)
            (λ c e.
              parse_in_behind x d ds b [] good pass (ap (λ t. t.0) c) q
                (render-is_abs (d ∷ ds ++ b ∷ [])) e
              ∙ ap (λ t. ok (q, t)) (ap (λ t. t.1) c))
            alone (clean-render (d ∷ ds ++ b ∷ []) good ∙ sym (render_append d ds b)),
        λ sub g.
            let path = q ++ slash ∷ sub in
            let path_eq = render_behind d (ds ++ b ∷ []) sub in
            let good' : are_elements ((d ∷ ds ++ b ∷ []) ++ split_slash sub) ≡ true =
              let l = are_elements-append (d ∷ ds ++ b ∷ []) (split_slash sub) in
              ground (arith, l, good, g) in
            let c = cut-append b sub free in
            let abs = ap is_abs path_eq ∙ render-is_abs ((d ∷ ds ++ b ∷ []) ++ split_slash sub) in
            let is_clean =
              ap clean path_eq
              ∙ clean-render ((d ∷ ds ++ b ∷ []) ++ split_slash sub) good'
              ∙ sym path_eq in
            let behind =
              ap (λ t. t ++ slash ∷ sub) (sym (render_append d ds b))
              ∙ append_assoc (render true (d ∷ ds)) (slash ∷ b) (slash ∷ sub) in
            parse_in_behind x d ds b (slash ∷ sub) good pass (ap (λ t. t.0) c) path abs
              (is_clean ∙ behind)
            ∙ ap (λ t. ok (q, t)) (ap (λ t. t.1) c),
      )

  -- For a store path that begins with a slash and whose directory is not the root, and a path made
  -- of elements: in the store path's directory, `Directory.ParsePath` returns the store path, with
  -- no path inside it, and for the path behind the store path and a slash it returns both.
  pub parse_in-ok :
      (q sub : Bytes)
      → is_abs q ≡ true
      → parse_path x q ≡ ok q
      → path_dir x q ≢ slash ∷ []
      → are_elements (split_slash sub) ≡ true
      → (parse_in x (path_dir x q) q ≡ ok (q, []))
        × (parse_in x (path_dir x q) (q ++ slash ∷ sub) ≡ ok (q, sub))
  parse_in-ok q sub h k nonroot g =
      let (es, b, good, c, e, pass) = parsed_parts x q q h k in
      let q_eq = e ∙ c in
      let dir_eq = path_dir_posix x q h ∙ ap dir q_eq ∙ dir_append es b good in
      go es b q (path_dir x q) q_eq dir_eq good pass nonroot
    where
      go :
          (es : List Bytes) (b q store : Bytes)
          → q ≡ render true (es ++ b ∷ [])
          → store ≡ render true es
          → are_elements (es ++ b ∷ []) ≡ true
          → check_base x b ≡ none
          → store ≢ slash ∷ []
          → (parse_in x store q ≡ ok (q, [])) × (parse_in x store (q ++ slash ∷ sub) ≡ ok (q, sub))
      go [] b q store q_eq dir_eq good pass nonroot = absurd (nonroot (dir_eq ∙ render_root))
      go (d ∷ ds) b q store q_eq dir_eq good pass nonroot =
          let (alone, inner) = in_directory d ds b good pass in
          rw (q_eq, dir_eq) (alone, inner sub g)

  -- In the root no path is a store path: for a store directory that is cleaned to the root, and
  -- any path that begins with a slash, `Directory.ParsePath` fails, as for a path that lies outside.
  pub parse_in-root :
      (store path : Bytes)
      → is_abs store ≡ true
      → clean store ≡ slash ∷ []
      → is_abs path ≡ true
      → parse_in x store path ≡ err outside
  parse_in-root store path h e k =
      elim (Option-cases (cut_prefix (clean path) (clean store ++ slash ∷ []))) [
        | inl n ↦
            parse_in_posix x store path h k
            ∙ outside_of x (clean path) (clean store ++ slash ∷ []) n
        | inr (tail, n) ↦
            let (d, ds, good, c) = first_element store path tail h k (
              cut_prefix-some (clean path) (clean store ++ slash ∷ []) tail n
              ∙ append_assoc (clean store) (slash ∷ []) tail) in
            absurd (not_root d ds (cut tail slash).0 good (sym c ∙ e))
      ]

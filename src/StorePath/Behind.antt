-- ===== src/StorePath/Behind.antt =====
-- zbstore/path.go: what stands behind the store directory in a path, for `Directory.ParsePath`.
use zb.Prelude.{
  true, List, [], ◌∷◌, ◌++◌, append_assoc, append-nil, none, err, ◌≡◌, ◌≢◌, refl, sym, ◌∙◌, ap,
  arith, subst, inl, inr,
}
use zb.StorePath.Posix.{
  Bytes, slash, is_abs, split_slash, render_elements, render, clean, is_element, are_elements,
  is_empty,
}
use zb.StorePath.Clean.{clean_elements}
use zb.StorePath.Elements.{are_elements-append, split_slash_one, split_slash-append}
use zb.StorePath.Paths.{External, outside}
use zb.StorePath.Directory.{cut_prefix, cut, parse_inside}
use zb.StorePath.Inside.{cut-slash, render_elements-split_slash, inside_elements}

-- The first part of a text up to a slash.
pub first_part :
    (t : Bytes)
    → (es : List Bytes) × (split_slash t ≡ (cut t slash).0 ∷ es)
      × (rest : Bytes) × (t ≡ (cut t slash).0 ++ rest)
first_part t =
    let (free, way) = cut-slash t in
    elim way [
      | inl w ↦ (
        [],
        ap split_slash w.0 ∙ split_slash_one (cut t slash).0 free,
        [],
        w.0 ∙ sym (append-nil (cut t slash).0),
      )
      | inr w ↦ (
        split_slash (cut t slash).1,
        ap split_slash w ∙ split_slash-append (cut t slash).0 (cut t slash).1 free,
        slash ∷ (cut t slash).1,
        w,
      )
    ]

-- A path behind a store directory, up to the end of the first part behind it.
pub first_element :
    (store path tail : Bytes)
    → is_abs store ≡ true
    → is_abs path ≡ true
    → clean path ≡ clean store ++ slash ∷ tail
    → (e : Bytes) × (es : List Bytes) × (are_elements (e ∷ es ++ (cut tail slash).0 ∷ []) ≡ true)
      × (clean store ≡ render true (e ∷ es))
first_element store path tail h k at =
    let (es, good, c) = clean_elements store h in
    let (ds, good', c') = clean_elements path k in
    let (f, fs, es_eq, ds_eq) =
      inside_elements es ds tail good good' (sym c' ∙ at ∙ ap (λ t. t ++ slash ∷ tail) c) in
    let (parts, split, rest, tail_eq) = first_part tail in
    let a = (cut tail slash).0 in
    let good_ds : are_elements ((f ∷ fs) ++ a ∷ parts) ≡ true =
      subst (λ t. are_elements t ≡ true)
        (ds_eq ∙ ap (λ t. t ++ split_slash tail) es_eq ∙ ap (λ t. (f ∷ fs) ++ t) split) good' in
    (f, fs, front (f ∷ fs) a parts good_ds, c ∙ ap (render true) es_eq)
  where
    front :
        (es : List Bytes) (a : Bytes) (parts : List Bytes)
        → are_elements (es ++ a ∷ parts) ≡ true
        → are_elements (es ++ a ∷ []) ≡ true
    front es a parts g =
        let l = are_elements-append es (a ∷ parts) in
        let l' = are_elements-append es (a ∷ []) in
        let q = are_elements-append (a ∷ []) parts in ground (arith, g, l, l', q)

pub render_root : render true [] ≡ slash ∷ []
unfolding render
render_root = refl

pub not_root :
    (e : Bytes) (es : List Bytes) (b : Bytes)
    → are_elements (e ∷ es ++ b ∷ []) ≡ true
    → render true (e ∷ es) ≢ slash ∷ []
unfolding render render_elements are_elements is_element is_empty
not_root [] es b good r = ground (arith, good)
not_root (c ∷ e) es b good r = cc

render_elements-two :
    (es fs : List Bytes) → render_elements (es ++ fs) ≡ render_elements es ++ render_elements fs
unfolding render_elements
render_elements-two [] fs = refl
render_elements-two (e ∷ es) fs = rw (render_elements-two es fs, append_assoc) refl

-- A path behind a path of elements, as elements.
pub render_behind :
    (e : Bytes) (es : List Bytes) (sub : Bytes)
    → render true (e ∷ es) ++ slash ∷ sub ≡ render true (e ∷ es ++ split_slash sub)
unfolding render
render_behind e es sub =
    rw (sym (render_elements-split_slash sub))
      (sym (render_elements-two (e ∷ es) (split_slash sub)))

module _ (x : External) where
  pub outside_of :
      (cleaned p : Bytes)
      → cut_prefix cleaned p ≡ none
      → parse_inside x slash cleaned p ≡ err outside
  unfolding parse_inside
  outside_of cleaned p n = rw (n, parse_inside) refl

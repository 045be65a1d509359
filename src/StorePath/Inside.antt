-- ===== src/StorePath/Inside.antt =====
-- zbstore/path.go: `Directory.ParsePath` on paths that begin with a slash.
use zb.Prelude.{
  ℕ, ◌+◌, true, List, [], ◌∷◌, ◌++◌, append_assoc, none, some, ok, length, take, ◌≡◌, ◌≢◌, ◌⊎◌,
  refl, sym, ◌∙◌, ap, arith, length-append, Option-cases, Result-cases, inl, inr,
}
use zb.StorePath.Posix.{
  Bytes, slash, is_abs, split_slash, is_empty, render_elements, render, clean, no_slash, is_element,
  are_elements,
}
use zb.StorePath.Clean.{render_append}
use zb.StorePath.Elements.{
  split_slash-cases, split_slash-render, clean-render, render-is_abs, are_elements-append,
}
use zb.StorePath.Paths.{External, check_base, parse_path}
use zb.StorePath.Directory.{cut_prefix, cut, parse_inside, parse_in}
use zb.StorePath.Parsed.{style_posix, parse_path_ok}

pub cut_prefix-some : (s p t : Bytes) → cut_prefix s p ≡ some t → s ≡ p ++ t
unfolding cut_prefix
cut_prefix-some s [] t h = ground (arith, h)
cut_prefix-some [] (c ∷ p) t h = cc
cut_prefix-some (c ∷ s) (d ∷ p) t h = let ih = cut_prefix-some s p t in ground (arith, h, ih)

pub cut_prefix-append : (p t : Bytes) → cut_prefix (p ++ t) p ≡ some t
unfolding cut_prefix
cut_prefix-append [] t = refl
cut_prefix-append (c ∷ p) t = let ih = cut_prefix-append p t in ground (arith, ih)

-- A text is cut at its first slash, or holds none.
pub cut-slash :
    (t : Bytes)
    → (no_slash (cut t slash).0 ≡ true)
      × (((t ≡ (cut t slash).0) × ((cut t slash).1 ≡ []))
          ⊎ (t ≡ (cut t slash).0 ++ slash ∷ (cut t slash).1))
unfolding cut no_slash
cut-slash [] = (refl, inl (refl, refl))
cut-slash (c ∷ t) = let ih = cut-slash t in ground (arith, ih)

pub cut_none : (t : Bytes) → no_slash t ≡ true → cut t slash ≡ (t, [])
unfolding cut no_slash
cut_none [] h = refl
cut_none (c ∷ t) h = let ih = cut_none t in ground (arith, h, ih)

pub cut-append : (t s : Bytes) → no_slash t ≡ true → cut (t ++ slash ∷ s) slash ≡ (t, s)
unfolding cut no_slash
cut-append [] s h = refl
cut-append (c ∷ t) s h = let ih = cut-append t s in ground (arith, h, ih)

take-length : (a r : Bytes) → take (length a) (a ++ r) ≡ a
take-length [] r = refl
take-length (c ∷ a) r = ap (λ t. c ∷ t) (take-length a r)

pub take_two : (p a r : Bytes) → take (length p + length a) (p ++ (a ++ r)) ≡ p ++ a
take_two p a r = rw (sym (length-append p a), sym (append_assoc p a r)) (take-length (p ++ a) r)

-- the parts on both sides of a slash
split_slash_two : (u v : Bytes) → split_slash (u ++ slash ∷ v) ≡ split_slash u ++ split_slash v
unfolding split_slash
split_slash_two [] v = refl
split_slash_two (c ∷ u) v =
    let ih = split_slash_two u v in let (e, es, q) = split_slash-cases u in ground (arith, ih, q)

pub render_elements-split_slash : (s : Bytes) → render_elements (split_slash s) ≡ slash ∷ s
unfolding render_elements split_slash
render_elements-split_slash [] = refl
render_elements-split_slash (c ∷ s) =
    let ih = render_elements-split_slash s in
    let (e, es, q) = split_slash-cases s in ground (arith, ih, q)

module _ (x : External) where
  pub parse_inside_ok :
      (sep : ℕ) (cleaned p tail store_path : Bytes)
      → cut_prefix cleaned p ≡ some tail
      → parse_path x (take (length p + length (cut tail sep).0) cleaned) ≡ ok store_path
      → parse_inside x sep cleaned p ≡ ok (store_path, (cut tail sep).1)
  unfolding parse_inside
  parse_inside_ok sep cleaned p tail store_path h g = ground (arith, h, g)

  pub parse_inside_parts :
      (sep : ℕ) (cleaned p store_path sub : Bytes)
      → parse_inside x sep cleaned p ≡ ok (store_path, sub)
      → (tail : Bytes) × (cut_prefix cleaned p ≡ some tail)
        × ((cut tail sep).1 ≡ sub)
        × (parse_path x (take (length p + length (cut tail sep).0) cleaned) ≡ ok store_path)
  unfolding parse_inside
  parse_inside_parts sep cleaned p store_path sub h = elim (Option-cases (cut_prefix cleaned p)) [
    | inl e ↦ absurd (ground (arith, h, e))
    | inr (tail, e) ↦
        elim (Result-cases (parse_path x (take (length p + length (cut tail sep).0) cleaned))) [
          | inl (q, g) ↦ (tail, e, ground (arith, h, e, g), ground (arith, h, e, g))
          | inr (w, g) ↦ absurd (ground (arith, h, e, g))
        ]
  ]

  pub parse_in_posix :
      (store path : Bytes)
      → is_abs store ≡ true
      → is_abs path ≡ true
      → parse_in x store path ≡ parse_inside x slash (clean path) (clean store ++ slash ∷ [])
  unfolding parse_in
  parse_in_posix store path h k = rw (style_posix x store h, k, parse_in) refl

  -- `Directory.ParsePath` on a path in a directory of at least one element, by what follows the
  -- directory.
  pub parse_in_behind :
      (d : Bytes) (ds : List Bytes) (b rest : Bytes)
      → are_elements (d ∷ ds ++ b ∷ []) ≡ true
      → check_base x b ≡ none
      → (cut (b ++ rest) slash).0 ≡ b
      → (path : Bytes) → is_abs path ≡ true
      → clean path ≡ render true (d ∷ ds) ++ slash ∷ (b ++ rest)
      → parse_in x (render true (d ∷ ds)) path
        ≡ ok (render true (d ∷ ds ++ b ∷ []), (cut (b ++ rest) slash).1)
  parse_in_behind d ds b rest h k c path abs e =
      let store = render true (d ∷ ds) in
      let q = render true (d ∷ ds ++ b ∷ []) in
      let good : are_elements (d ∷ ds) ≡ true =
        let a = are_elements-append (d ∷ ds) (b ∷ []) in ground (arith, a, h) in
      let e' : clean path ≡ (store ++ slash ∷ []) ++ (b ++ rest) =
        e ∙ sym (append_assoc store (slash ∷ []) (b ++ rest)) in
      let front : (store ++ slash ∷ []) ++ b ≡ q =
        append_assoc store (slash ∷ []) b ∙ render_append d ds b in
      let stands : parse_path x (
            take (length (store ++ slash ∷ []) + length (cut (b ++ rest) slash).0)
              ((store ++ slash ∷ []) ++ (b ++ rest)))
          ≡ ok q =
        rw (c, take_two (store ++ slash ∷ []) b rest, front) (parse_path_ok x (d ∷ ds) b h k) in
      parse_in_posix store path (render-is_abs (d ∷ ds)) abs
      ∙ rw (clean-render (d ∷ ds) good, e')
          (parse_inside_ok slash ((store ++ slash ∷ []) ++ (b ++ rest)) (store ++ slash ∷ [])
            (b ++ rest) q (cut_prefix-append (store ++ slash ∷ []) (b ++ rest)) stands)

not_nil : (u v : Bytes) → u ++ slash ∷ v ≢ []
not_nil [] v h = cc
not_nil (c ∷ u) v h = cc

-- Where the elements of one path are followed by a slash in another, they are elements of it, and
-- not none.
pub inside_elements :
    (es ds : List Bytes) (tail : Bytes)
    → are_elements es ≡ true
    → are_elements ds ≡ true
    → render true ds ≡ render true es ++ slash ∷ tail
    → (e : Bytes) × (es' : List Bytes) × (es ≡ e ∷ es') × (ds ≡ es ++ split_slash tail)
inside_elements [] [] tail h k e = absurd (unfold render in ground (arith, e))
inside_elements [] (d ∷ ds) tail h k e =
    let s = sym (split_slash-render d ds k) ∙ ap split_slash e in absurd (nothing s)
  where
    nothing : [] ∷ d ∷ ds ≡ split_slash (render true [] ++ slash ∷ tail) → ⊥
    nothing s = unfold render split_slash are_elements is_element is_empty in ground (arith, s, k)
inside_elements (f ∷ fs) [] tail h k e = absurd (rootless e)
  where
    rootless : render true [] ≡ render true (f ∷ fs) ++ slash ∷ tail → ⊥
    rootless r =
        let n = not_nil (f ++ render_elements fs) tail in
        unfold render render_elements in ground (arith, r, n)
inside_elements (f ∷ fs) (d ∷ ds) tail h k e =
    let s =
      sym (split_slash-render d ds k)
      ∙ ap split_slash e
      ∙ split_slash_two (render true (f ∷ fs)) tail
      ∙ ap (λ t. t ++ split_slash tail) (split_slash-render f fs h) in
    (f, fs, refl, cc)

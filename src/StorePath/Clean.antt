-- ===== src/StorePath/Clean.antt =====
-- Laws of the functions of StorePath/Posix on clean paths that begin with a slash.
use zb.Prelude.{
  true, List, [], ◌∷◌, ◌++◌, append_assoc, append-nil, some, ◌≡◌, refl, sym, ◌∙◌, ap, arith,
}
use zb.StorePath.Posix.{
  Bytes, slash, is_abs, split_slash, is_dot, is_dot_dot, is_empty, drop_last, last, go_up, elements,
  render_elements, render, clean, split_base, dir, last_nonempty, base, join_elements, join,
  is_element, are_elements,
}
use zb.StorePath.Elements.{
  split_slash-no_slashes, split_slash_one, is_element-no_slash, split_slash-render,
  elements-are_elements, elements_skip, render-is_abs, clean-render, are_elements-drop_last,
  elements-are_good,
}

-- The elements of a path that begins with a slash.
pub clean_elements :
    (path : Bytes)
    → is_abs path ≡ true
    → (es : List Bytes) × (are_elements es ≡ true) × (clean path ≡ render true es)
unfolding clean
clean_elements path h = (
  elements true [] (split_slash path),
  elements-are_good (split_slash path) [] (unfold are_elements in refl)
      (split_slash-no_slashes path),
  rw h refl,
)

pub split_base-render :
    (e : Bytes) (es : List Bytes)
    → are_elements (e ∷ es) ≡ true
    → split_base (render true (e ∷ es)) ≡ last (e ∷ es)
unfolding split_base
split_base-render e es h = rw (split_slash-render e es h) refl

pub split_base-root : split_base (render true []) ≡ []
unfolding split_base render split_slash
split_base-root = refl

pub dir-render :
    (e : Bytes) (es : List Bytes)
    → are_elements (e ∷ es) ≡ true
    → dir (render true (e ∷ es)) ≡ render true (drop_last (e ∷ es))
unfolding dir
dir-render e es h =
    rw (split_slash-render e es h, elements_skip)
      (ap (render true)
        (elements-are_elements [] (drop_last (e ∷ es)) (are_elements-drop_last (e ∷ es) h)))

last_nonempty-last :
    (e : Bytes) (es : List Bytes)
    → are_elements (e ∷ es) ≡ true
    → last_nonempty (e ∷ es) ≡ some (last (e ∷ es))
unfolding last_nonempty are_elements is_element
last_nonempty-last e [] h = ground (arith, h)
last_nonempty-last e (f ∷ es) h = let ih = last_nonempty-last f es in ground (arith, h, ih)

pub base-render :
    (e : Bytes) (es : List Bytes)
    → are_elements (e ∷ es) ≡ true
    → base (render true (e ∷ es)) ≡ last (e ∷ es)
unfolding base
base-render e es h =
    let q = last_nonempty-last e es h in
    rw (split_slash-render e es h, base) (unfold last_nonempty in ground (arith, q))

-- The elements are those before the last, and the last.
pub drop_last-last :
    (e : Bytes) (es : List Bytes) → drop_last (e ∷ es) ++ last (e ∷ es) ∷ [] ≡ e ∷ es
drop_last-last e [] = refl
drop_last-last e (f ∷ es) = ap (λ t. e ∷ t) (drop_last-last f es)

render_elements-append :
    (es : List Bytes) (e : Bytes) → render_elements es ++ slash ∷ e ≡ render_elements (es ++ e ∷ [])
unfolding render_elements
render_elements-append [] e = rw append-nil refl
render_elements-append (f ∷ es) e = rw (append_assoc, render_elements-append es e) refl

pub render_append :
    (f : Bytes) (es : List Bytes) (e : Bytes)
    → render true (f ∷ es) ++ slash ∷ e ≡ render true (f ∷ es ++ e ∷ [])
unfolding render
render_append f es e = render_elements-append (f ∷ es) e

clean_under_root :
    (e : Bytes)
    → are_elements (e ∷ []) ≡ true
    → clean (render true [] ++ slash ∷ e) ≡ render true (e ∷ [])
unfolding clean render split_slash is_abs
clean_under_root e h =
    let k = is_element-no_slash e (unfold are_elements in ground (arith, h)) in
    rw (split_slash_one e k) (
      unfold elements is_empty is_dot is_dot_dot go_up in
      ap (render true) (elements-are_elements [] (e ∷ []) h))

-- A clean path with one more element.
pub clean_append :
    (es : List Bytes) (e : Bytes)
    → are_elements (es ++ e ∷ []) ≡ true
    → clean (render true es ++ slash ∷ e) ≡ render true (es ++ e ∷ [])
clean_append [] e h = clean_under_root e h
clean_append (f ∷ es) e h = rw (render_append f es e) (clean-render (f ∷ es ++ e ∷ []) h)

join_two : (path e : Bytes) → is_abs path ≡ true → join (path ∷ e ∷ []) ≡ clean (path ++ slash ∷ e)
unfolding join join_elements is_empty is_abs
join_two [] e h = cc
join_two (c ∷ path) e h = refl

pub join-render :
    (es : List Bytes) (e : Bytes)
    → are_elements (es ++ e ∷ []) ≡ true
    → join (render true es ∷ e ∷ []) ≡ render true (es ++ e ∷ [])
join-render es e h = join_two (render true es) e (render-is_abs es) ∙ clean_append es e h

last_append : (es : List Bytes) (e : Bytes) → last (es ++ e ∷ []) ≡ e
last_append [] e = refl
last_append (f ∷ []) e = refl
last_append (f ∷ g ∷ es) e = last_append (g ∷ es) e

drop_last_append : (es : List Bytes) (e : Bytes) → drop_last (es ++ e ∷ []) ≡ es
drop_last_append [] e = refl
drop_last_append (f ∷ []) e = refl
drop_last_append (f ∷ g ∷ es) e = ap (λ t. f ∷ t) (drop_last_append (g ∷ es) e)

-- What the functions make of a clean path, by its last element.
module _ (es : List Bytes) (e : Bytes) (h : are_elements (es ++ e ∷ []) ≡ true) where
  pub split_base_append : split_base (render true (es ++ e ∷ [])) ≡ e
  split_base_append = go es h
    where
      go :
          (es : List Bytes)
          → are_elements (es ++ e ∷ []) ≡ true
          → split_base (render true (es ++ e ∷ [])) ≡ e
      go [] k = split_base-render e [] k
      go (f ∷ es) k = split_base-render f (es ++ e ∷ []) k ∙ last_append (f ∷ es) e

  pub base_append : base (render true (es ++ e ∷ [])) ≡ e
  base_append = go es h
    where
      go :
          (es : List Bytes)
          → are_elements (es ++ e ∷ []) ≡ true
          → base (render true (es ++ e ∷ [])) ≡ e
      go [] k = base-render e [] k
      go (f ∷ es) k = base-render f (es ++ e ∷ []) k ∙ last_append (f ∷ es) e

  pub dir_append : dir (render true (es ++ e ∷ [])) ≡ render true es
  dir_append = go es h
    where
      go :
          (es : List Bytes)
          → are_elements (es ++ e ∷ []) ≡ true
          → dir (render true (es ++ e ∷ [])) ≡ render true es
      go [] k = dir-render e [] k
      go (f ∷ es) k = dir-render f (es ++ e ∷ []) k ∙ ap (render true) (drop_last_append (f ∷ es) e)

-- A path with elements has a last one.
pub elements_append :
    (e : Bytes) (es : List Bytes) → (fs : List Bytes) × (f : Bytes) × (e ∷ es ≡ fs ++ f ∷ [])
elements_append e es = (drop_last (e ∷ es), last (e ∷ es), sym (drop_last-last e es))

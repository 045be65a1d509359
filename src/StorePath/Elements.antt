-- ===== src/StorePath/Elements.antt =====
-- Laws of the functions of StorePath/Posix on the parts of a path and on its elements.
use zb.Prelude.{
  true, ◌&&◌, ◌||◌, if◌then◌else◌, List, [], ◌∷◌, ◌++◌, append_assoc, append-nil, ◌==◌, ◌≡◌, refl,
  sym, ◌∙◌, ap, arith, Bool-cases, inl, inr,
}
use zb.StorePath.Posix.{
  Bytes, slash, is_abs, split_slash, is_dot, is_dot_dot, is_empty, drop_last, go_up, elements,
  render_elements, render, clean, no_slash, is_element, are_elements, no_slashes,
}

pub split_slash-cases :
    (path : Bytes) → (e : Bytes) × (es : List Bytes) × (split_slash path ≡ e ∷ es)
unfolding split_slash
split_slash-cases [] = ([], [], refl)
split_slash-cases (c ∷ path) =
    let (e, es, q) = split_slash-cases path in
    elim (Bool-cases (c == 47)) [
      | inl h ↦ ([], split_slash path, ground (arith, h))
      | inr h ↦ (c ∷ e, es, ground (arith, h, q))
    ]

pub split_slash-no_slashes : (path : Bytes) → no_slashes (split_slash path) ≡ true
unfolding split_slash no_slash
split_slash-no_slashes [] = refl
split_slash-no_slashes (c ∷ path) =
    let (e, es, q) = split_slash-cases path in
    let ih = split_slash-no_slashes path in ground (arith, q, ih)

-- splitting at a slash in the middle
pub split_slash-append :
    (e path : Bytes) → no_slash e ≡ true → split_slash (e ++ slash ∷ path) ≡ e ∷ split_slash path
unfolding split_slash no_slash
split_slash-append [] path h = refl
split_slash-append (c ∷ e) path h = let q = split_slash-append e path in ground (arith, h, q)

pub split_slash_one : (e : Bytes) → no_slash e ≡ true → split_slash e ≡ e ∷ []
unfolding split_slash no_slash
split_slash_one [] h = refl
split_slash_one (c ∷ e) h = let q = split_slash_one e in ground (arith, h, q)

pub is_element-no_slash : (e : Bytes) → is_element e ≡ true → no_slash e ≡ true
unfolding is_element
is_element-no_slash e h = ground (arith, h)

pub split_slash-render_elements :
    (e : Bytes) (es : List Bytes)
    → are_elements (e ∷ es) ≡ true
    → split_slash (e ++ render_elements es) ≡ e ∷ es
unfolding render_elements are_elements
split_slash-render_elements e [] h =
    rw append-nil (split_slash_one e (is_element-no_slash e (ground (arith, h))))
split_slash-render_elements e (f ∷ es) h =
    split_slash-append e (f ++ render_elements es) (is_element-no_slash e (ground (arith, h)))
    ∙ ap (λ t. e ∷ t) (split_slash-render_elements f es (ground (arith, h)))

-- The parts of a clean path are its elements, but for an empty one in front.
pub split_slash-render :
    (e : Bytes) (es : List Bytes)
    → are_elements (e ∷ es) ≡ true
    → split_slash (render true (e ∷ es)) ≡ [] ∷ e ∷ es
unfolding render render_elements split_slash
split_slash-render e es h = ap (λ t. [] ∷ t) (split_slash-render_elements e es h)

pub elements-are_elements :
    (acc es : List Bytes) → are_elements es ≡ true → elements true acc es ≡ acc ++ es
unfolding elements are_elements is_element
elements-are_elements acc [] h = sym (append-nil acc)
elements-are_elements acc (e ∷ es) h =
    let ih = elements-are_elements (acc ++ e ∷ []) es in
    let a = append_assoc acc (e ∷ []) es in ground (arith, h, ih, a)

pub elements_skip : (es : List Bytes) → elements true [] ([] ∷ es) ≡ elements true [] es
unfolding elements is_empty
elements_skip es = refl

pub render-is_abs : (es : List Bytes) → is_abs (render true es) ≡ true
unfolding render render_elements is_abs
render-is_abs [] = refl
render-is_abs (e ∷ es) = refl

pub clean-render :
    (es : List Bytes) → are_elements es ≡ true → clean (render true es) ≡ render true es
unfolding clean
clean-render [] h = unfold render elements split_slash is_abs is_empty is_dot in refl
clean-render (e ∷ es) h =
    rw (render-is_abs (e ∷ es), split_slash-render e es h, elements_skip)
      (ap (render true) (elements-are_elements [] (e ∷ es) h))

pub are_elements-drop_last :
    (es : List Bytes) → are_elements es ≡ true → are_elements (drop_last es) ≡ true
unfolding are_elements
are_elements-drop_last [] h = refl
are_elements-drop_last (e ∷ []) h = refl
are_elements-drop_last (e ∷ f ∷ es) h =
    let ih = are_elements-drop_last (f ∷ es) in ground (arith, h, ih)

pub are_elements-append :
    (es fs : List Bytes) → are_elements (es ++ fs) ≡ are_elements es && are_elements fs
unfolding are_elements
are_elements-append [] fs = refl
are_elements-append (e ∷ es) fs = let ih = are_elements-append es fs in ground (arith, ih)

pub are_elements-go_up :
    (es : List Bytes) → are_elements es ≡ true → are_elements (go_up true es) ≡ true
unfolding go_up
are_elements-go_up [] h = h
are_elements-go_up (e ∷ es) h = are_elements-drop_last (e ∷ es) h

-- a part that is put behind elements, or takes one away
pub elements_step :
    (acc : List Bytes) (e : Bytes)
    → are_elements acc ≡ true
    → no_slash e ≡ true
    → are_elements (
        if is_empty e || is_dot e
        then acc
        else if is_dot_dot e
        then go_up true acc
        else acc ++ e ∷ [])
      ≡ true
unfolding are_elements is_element
elements_step acc e h k =
    let up = are_elements-go_up acc h in
    let more = are_elements-append acc (e ∷ []) in ground (arith, h, k, up, more)

pub elements-are_good :
    (es acc : List Bytes)
    → are_elements acc ≡ true
    → no_slashes es ≡ true
    → are_elements (elements true acc es) ≡ true
unfolding elements
elements-are_good [] acc h k = h
elements-are_good (e ∷ es) acc h k =
    elements-are_good es _ (elements_step acc e h (ground (arith, k))) (ground (arith, k))

pub no_slashes-drop_last :
    (es : List Bytes) → no_slashes es ≡ true → no_slashes (drop_last es) ≡ true
no_slashes-drop_last [] h = refl
no_slashes-drop_last (e ∷ []) h = refl
no_slashes-drop_last (e ∷ f ∷ es) h =
    let ih = no_slashes-drop_last (f ∷ es) in ground (arith, h, ih)

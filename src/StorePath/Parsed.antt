-- ===== src/StorePath/Parsed.antt =====
-- Laws of zbstore/path.go: store paths that begin with a slash.
use zb.Prelude.{
  ℕ, ◌≤◌, Bool, true, false, not, List, [], ◌∷◌, ◌++◌, Option, none, some, ok, ltb, ◌==◌,
  if◌then◌else◌, length, take, get_or, ◌≡◌, refl, sym, ◌∙◌, ap, arith, Option-cases, List-cases,
  inl, inr, subst,
}
use zb.StorePath.Posix.{
  Bytes, is_abs, is_dot, is_dot_dot, is_empty, render, clean, split_base, no_slash, is_element,
  are_elements,
}
use zb.StorePath.Clean.{clean_elements, split_base_append, split_base-root, elements_append}
use zb.StorePath.Elements.{clean-render, render-is_abs}
use zb.StorePath.Paths.{
  External, too_short, too_long, illegal_character, invalid_digest, no_dash, posix, is_name_char,
  illegal_char, detect_path_style, check_base, checked, parse_path,
}
use zb.StorePath.Directory.{contains_separator}

illegal_char-no_slash : (name : Bytes) → illegal_char name ≡ none → no_slash name ≡ true
unfolding illegal_char no_slash is_name_char
illegal_char-no_slash [] h = refl
illegal_char-no_slash (c ∷ name) h = let ih = illegal_char-no_slash name in ground (arith, h, ih)

pub illegal_char-contains_separator :
    (name : Bytes) → illegal_char name ≡ none → contains_separator name ≡ false
unfolding illegal_char contains_separator is_name_char
illegal_char-contains_separator [] h = refl
illegal_char-contains_separator (c ∷ name) h =
    let ih = illegal_char-contains_separator name in ground (arith, h, ih)

long-is_element : (name : Bytes) → no_slash name ≡ true → 3 ≤ length name → is_element name ≡ true
unfolding is_element is_empty is_dot is_dot_dot
long-is_element [] h k = absurd (omega arith)
long-is_element (a ∷ []) h k = absurd (omega arith)
long-is_element (a ∷ b ∷ []) h k = absurd (omega arith)
long-is_element (a ∷ b ∷ c ∷ name) h k = ground (arith, h)

-- the checks of `check_base` are passed one by one
gates :
    (short long : Bool) (illegal : Option ℕ) (base32 dash : Bool)
    → (if short then some too_short else if long then some too_long else elim illegal [
      | some c ↦ some (illegal_character c)
      | none ↦ if not base32 then some invalid_digest else if not dash then some no_dash else none
    ])
      ≡ none
    → (short ≡ false) × (long ≡ false) × (illegal ≡ none) × (base32 ≡ true) × (dash ≡ true)
gates false false none true true h = (refl, refl, refl, refl, refl)
gates true long illegal base32 dash h = cc
gates false true illegal base32 dash h = cc
gates false false (some c) base32 dash h = cc
gates false false none false dash h = cc
gates false false none true false h = cc

not_ltb→le : (a b : ℕ) → ltb a b ≡ false → b ≤ a
not_ltb→le a b h = ground (arith, h)

==→≡ : (a b : ℕ) → (a == b) ≡ true → a ≡ b
==→≡ a b h = ground (arith, h)

module _ (x : External) where
  -- what a name that passes the checks is like
  pub check_base-parts :
      (name : Bytes)
      → check_base x name ≡ none
      → (34 ≤ length name)
        × (length name ≤ 244)
        × (illegal_char name ≡ none)
        × (x.valid_base32 (take 32 name) ≡ true)
        × (get_or name 32 0 ≡ b'-')
  unfolding check_base
  check_base-parts name h =
      let (short, long, legal, base32, dash) =
        gates (ltb (length name) 34) (ltb 244 (length name)) (illegal_char name)
          (x.valid_base32 (take 32 name)) (get_or name 32 0 == b'-') h in
      (
        not_ltb→le (length name) 34 short,
        not_ltb→le 244 (length name) long,
        legal,
        base32,
        ==→≡ (get_or name 32 0) b'-' dash,
      )

  pub check_base-is_element : (name : Bytes) → check_base x name ≡ none → is_element name ≡ true
  check_base-is_element name h =
      let (long, _, legal, _, _) = check_base-parts name h in
      long-is_element name (illegal_char-no_slash name legal) (omega arith)

  pub style_posix : (path : Bytes) → is_abs path ≡ true → detect_path_style x path ≡ posix
  unfolding detect_path_style
  style_posix path h = rw h refl

  pub parse_path_posix :
      (path : Bytes)
      → is_abs path ≡ true
      → parse_path x path ≡ checked x (clean path) (split_base (clean path))
  unfolding parse_path
  parse_path_posix path h = rw (style_posix path h, parse_path) refl

  checked-none : (cleaned b : Bytes) → check_base x b ≡ none → checked x cleaned b ≡ ok cleaned
  unfolding checked
  checked-none cleaned b k = rw (k, checked) refl

  -- A path of elements is a store path if the last one passes the checks.
  pub parse_path_ok :
      (es : List Bytes) (b : Bytes)
      → are_elements (es ++ b ∷ []) ≡ true
      → check_base x b ≡ none
      → parse_path x (render true (es ++ b ∷ [])) ≡ ok (render true (es ++ b ∷ []))
  parse_path_ok es b h k =
      let q = render true (es ++ b ∷ []) in
      parse_path_posix q (render-is_abs (es ++ b ∷ []))
      ∙ rw (clean-render (es ++ b ∷ []) h, split_base_append es b h) (checked-none q b k)

  checked_ok :
      (cleaned q b : Bytes) → checked x cleaned b ≡ ok q → (q ≡ cleaned) × (check_base x b ≡ none)
  unfolding checked
  checked_ok cleaned q b r = elim (Option-cases (check_base x b)) [
    | inl e ↦ (ground (arith, r, e), e)
    | inr (c, e) ↦ absurd (ground (arith, r, e))
  ]

  rootless : (cleaned q : Bytes) → checked x cleaned (split_base (render true [])) ≡ ok q → ⊥
  rootless cleaned q r =
      let (q', c) =
        checked_ok cleaned q [] (subst (λ t. checked x cleaned t ≡ ok q) split_base-root r) in
      let (long, _, _, _, _) = check_base-parts [] c in omega arith

  -- What `ParsePath` returns is made of elements, of which the last has passed the checks.
  pub parsed_parts :
      (path q : Bytes)
      → is_abs path ≡ true
      → parse_path x path ≡ ok q
      → (es : List Bytes) × (b : Bytes) × (are_elements (es ++ b ∷ []) ≡ true)
        × (clean path ≡ render true (es ++ b ∷ []))
        × (q ≡ clean path)
        × (check_base x b ≡ none)
  parsed_parts path q h k =
      let (ds, good, c) = clean_elements path h in
      let k' = sym (parse_path_posix path h) ∙ k in
      elim (List-cases ds) [
        | inl e ↦ absurd (
            rootless (clean path) q (
              subst (λ t. checked x (clean path) (split_base t) ≡ ok q) (c ∙ ap (render true) e)
                k'))
        | inr (d, es, e) ↦
            let (fs, b, e') = elements_append d es in
            let good' = subst (λ t. are_elements t ≡ true) (e ∙ e') good in
            let c' = c ∙ ap (render true) (e ∙ e') in
            let (k1, k2) = checked_ok (clean path) q b (
              subst (λ t. checked x (clean path) t ≡ ok q)
                (ap split_base c' ∙ split_base_append fs b good') k') in
            (fs, b, good', c', k1, k2)
      ]

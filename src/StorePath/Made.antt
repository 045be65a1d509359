-- ===== src/StorePath/Made.antt =====
-- zbstore/path.go and zbstore/ca.go: the store paths that are computed from content addresses.
use zb.Prelude.{
  ℕ, suc, ◌≤◌, Bool, true, false, [], ◌∷◌, ◌++◌, Option, none, some, Result, ok, err, if◌then◌else◌,
  length, take, drop, get_or, length-append, ltb, ◌≡◌, refl, sym, ◌∙◌, ap, arith, subst, map_err,
  Option-cases, Bool-cases, inl, inr,
}
use zb.StorePath.Posix.{Bytes, is_abs, clean, render, are_elements}
use zb.StorePath.Clean.{clean_elements, dir_append, base_append}
use zb.StorePath.Elements.{are_elements-append, render-is_abs}
use zb.StorePath.Paths.{
  External, illegal_char, is_name_char, check_base, parse_path, path_dir, digest, path_name,
}
use zb.StorePath.Parsed.{parse_path_ok, check_base-is_element}
use zb.StorePath.Directory.{object}
use zb.StorePath.Objects.{object_ok, path_dir_posix, path_base_posix, base_parts}
use zb.StorePath.References.{References}
use zb.StorePath.ContentAddress.{
  Nix, AddressError, path_error, make_digest, make_store_path, validate_content_address,
  fixed_ca_output_path, text_type, source_type, output_type, fixed_output_hash, empty_references,
  is_source_content_address,
}
use zb.Derivation.Outputs.{method_of_content_address, method_prefix}

-- What the packages document of a digest: 20 bytes in base 32 are 32 characters of names, which
-- are valid.
abbrev pub IsDigest : External → Bytes → Type 0
IsDigest x d = (length d ≡ 32) × (illegal_char d ≡ none) × (x.valid_base32 d ≡ true)

-- The name of an object: not too long, and of the characters of names.
abbrev pub IsObjectName : Bytes → Type 0
IsObjectName name = (1 ≤ length name) × (length name ≤ 211) × (illegal_char name ≡ none)

illegal_char-append :
    (a b : Bytes)
    → illegal_char a ≡ none
    → illegal_char b ≡ none
    → illegal_char (a ++ b'-' ∷ b) ≡ none
unfolding illegal_char
illegal_char-append [] b h k = unfold is_name_char in ground (arith, k)
illegal_char-append (c ∷ a) b h k = let ih = illegal_char-append a b in ground (arith, h, k, ih)

take_front : (n : ℕ) (d r : Bytes) → length d ≡ n → take n (d ++ r) ≡ d
take_front n [] r h = subst (λ t. take t r ≡ []) h refl
take_front n (c ∷ d) r h =
    subst (λ t. take t (c ∷ d ++ r) ≡ c ∷ d) h (ap (λ t. c ∷ t) (take_front (length d) d r refl))

drop_front :
    (n : ℕ) (d : Bytes) (e : ℕ) (r : Bytes)
    → length d ≡ n
    → (get_or (d ++ e ∷ r) n 0 ≡ e) × (drop (suc n) (d ++ e ∷ r) ≡ r)
drop_front n [] e r h =
    subst (λ t. (get_or (e ∷ r) t 0 ≡ e) × (drop (suc t) (e ∷ r) ≡ r)) h (refl, refl)
drop_front n (c ∷ d) e r h =
    subst (λ t. (get_or (c ∷ d ++ e ∷ r) t 0 ≡ e) × (drop (suc t) (c ∷ d ++ e ∷ r) ≡ r)) h
      (drop_front (length d) d e r refl)

module _ (x : External) where
  -- A digest, a dash and a name are the last element of a store path.
  digest_name-passes :
      (d name : Bytes) → IsDigest x d → IsObjectName name → check_base x (d ++ b'-' ∷ name) ≡ none
  unfolding check_base
  digest_name-passes d name (len, legal, valid) (least, most, legal') =
      let l = length-append d (b'-' ∷ name) in
      let i = illegal_char-append d name legal legal' in
      let t = take_front 32 d (b'-' ∷ name) len in
      let g = (drop_front 32 d b'-' name len).0 in
      let short = short_no (length (d ++ b'-' ∷ name)) (omega arith) in
      let long = long_no (length (d ++ b'-' ∷ name)) (omega arith) in
      rw (short, long, i, t, valid, g) refl
    where
      short_no : (n : ℕ) → 34 ≤ n → ltb n 34 ≡ false
      short_no n h = ground (arith, h)

      long_no : (n : ℕ) → n ≤ 244 → ltb 244 n ≡ false
      long_no n h = ground (arith, h)

  -- The object that a digest and a name make in a store directory.
  object_made :
      (store d name : Bytes)
      → is_abs store ≡ true
      → clean store ≡ store
      → IsDigest x d
      → IsObjectName name
      → (q : Bytes) × (object x store (d ++ b'-' ∷ name) ≡ ok q)
        × (is_abs q ≡ true)
        × (parse_path x q ≡ ok q)
        × (path_dir x q ≡ store)
        × (digest x q ≡ d)
        × (path_name x q ≡ name)
  object_made store d name h c good_d good_name =
      let (es, good, e) = clean_elements store h in
      let store_eq = sym c ∙ e in
      let b = d ++ b'-' ∷ name in
      let pass = digest_name-passes d name good_d good_name in
      let good_b : are_elements (es ++ b ∷ []) ≡ true =
        let l = are_elements-append es (b ∷ []) in
        let i = check_base-is_element x b pass in
        unfold are_elements in ground (arith, l, good, i) in
      let q = render true (es ++ b ∷ []) in
      let abs = render-is_abs (es ++ b ∷ []) in
      let base_eq = path_base_posix x q abs ∙ base_append es b good_b in
      let (digest_eq, name_eq) = base_parts x b q base_eq pass in
      (
        q,
        ap (λ t. object x t b) store_eq ∙ object_ok x es b good_b pass,
        abs,
        parse_path_ok x es b good_b pass,
        path_dir_posix x q abs ∙ dir_append es b good_b ∙ sym store_eq,
        digest_eq ∙ take_front 32 d (b'-' ∷ name) good_d.0,
        name_eq ∙ (drop_front 32 d b'-' name good_d.0).1,
      )

module _ (x : External) {ContentAddress Hash HashType : Type 0}
    (nix : Nix ContentAddress Hash HashType) where
  -- What a function that computes a store path promises: a store path in the directory, with the
  -- name, and a digest of the package's.
  abbrev pub Makes : {E : Type 0} → Bytes → Bytes → Result E Bytes → Type 0
  Makes store name r =
      (q : Bytes) × (r ≡ ok q)
      × (is_abs q ≡ true)
      × (parse_path x q ≡ ok q)
      × (path_dir x q ≡ store)
      × (path_name x q ≡ name)

  make_store_path-Makes :
      ((text : Bytes) → IsDigest x (nix.digest text))
      → (store typ : Bytes) (hash : Hash) (name : Bytes) (refs : References) → is_abs store ≡ true
      → clean store ≡ store
      → IsObjectName name
      → Makes store name (make_store_path x nix store typ hash name refs)
  unfolding make_store_path make_digest
  make_store_path-Makes law store typ hash name refs h c good =
      let (q, e, abs, parsed, dir_eq, _, name_eq) = object_made x store _ name h c (law _) good in
      (q, e, abs, parsed, dir_eq, name_eq)

  map_err-Makes :
      {E F : Type 0} (f : E → F) (store name : Bytes) (r : Result E Bytes)
      → Makes store name r
      → Makes store name (map_err f r)
  map_err-Makes f store name r (q, e, abs, parsed, dir_eq, name_eq) =
      (q, ap (map_err f) e, abs, parsed, dir_eq, name_eq)

  if-Makes :
      {E : Type 0} (store name : Bytes) (t : Bool) (a b : Result E Bytes)
      → Makes store name a
      → Makes store name b
      → Makes store name (if t then a else b)
  if-Makes store name true a b p q = p
  if-Makes store name false a b p q = q

  -- the method of a content address has a prefix
  method_prefix-some :
      (ca : ContentAddress)
      → (prefix : Bytes) × (method_prefix
            (method_of_content_address nix.ca_is_text nix.ca_is_recursive_file ca)
          ≡ some prefix)
  unfolding method_prefix method_of_content_address
  method_prefix-some ca = elim (Bool-cases (nix.ca_is_text ca)) [
    | inl e ↦ (b't' ∷ b'e' ∷ b'x' ∷ b't' ∷ b':' ∷ [], rw e refl)
    | inr e ↦ elim (Bool-cases (nix.ca_is_recursive_file ca)) [
      | inl e' ↦ (b'r' ∷ b':' ∷ [], rw (e, e') refl)
      | inr e' ↦ ([], rw (e, e') refl)
    ]
  ]

  fixed-err :
      (store name : Bytes) (ca : ContentAddress) (refs : References) (e : AddressError)
      → validate_content_address x nix ca refs ≡ some e
      → fixed_ca_output_path x nix store name ca refs ≡ err e
  unfolding fixed_ca_output_path
  fixed-err store name ca refs e v = ground (arith, v)

  pub fixed-Makes :
      ((text : Bytes) → IsDigest x (nix.digest text))
      → (store name : Bytes) (ca : ContentAddress) (refs : References) → is_abs store ≡ true
      → clean store ≡ store
      → IsObjectName name
      → validate_content_address x nix ca refs ≡ none
      → Makes store name (fixed_ca_output_path x nix store name ca refs)
  unfolding fixed_ca_output_path
  fixed-Makes law store name ca refs h c good v =
      let (prefix, p) = method_prefix-some ca in
      let made = λ (typ : Bytes) (hash : Hash) (refs : References).
        map_err path_error (make_store_path x nix store typ hash name refs) in
      let makes = λ (typ : Bytes) (hash : Hash) (refs : References).
        map_err-Makes path_error store name (make_store_path x nix store typ hash name refs)
          (make_store_path-Makes law store typ hash name refs h c good) in
      let e : fixed_ca_output_path x nix store name ca refs ≡ (
          if nix.ca_is_text ca
          then made text_type (nix.hash_of ca) refs
          else if is_source_content_address x nix ca
          then made source_type (nix.hash_of ca) refs
          else made output_type (fixed_output_hash x nix prefix ca) empty_references) =
        ground (arith, v, p) in
      subst (Makes store name) (sym e) (
        if-Makes store name (nix.ca_is_text ca) _ _ (makes text_type (nix.hash_of ca) refs) (
          if-Makes store name (is_source_content_address x nix ca) _ _
            (makes source_type (nix.hash_of ca) refs)
            (makes output_type (fixed_output_hash x nix prefix ca) empty_references)))

  -- What follows from the outcome of `ValidateContentAddress`.
  abbrev pub Follows : Bytes → Bytes → Option AddressError → Result AddressError Bytes → Type 0
  Follows store name (some e) r = r ≡ err e
  Follows store name none r = Makes store name r

  -- In a store directory that begins with a slash and is clean, where the packages' digests are 32
  -- valid characters of base 32: `FixedCAOutputPath` of a name of 1 to 211 characters that names may
  -- have fails as `ValidateContentAddress` does, and where that returns no error it returns a store
  -- path, which `ParsePath` returns unchanged, in that directory and of that name.
  pub fixed_ca_output_path_lem :
      ((text : Bytes) → IsDigest x (nix.digest text))
      → (store name : Bytes) (ca : ContentAddress) (refs : References) → is_abs store ≡ true
      → clean store ≡ store
      → IsObjectName name
      → Follows store name
          (validate_content_address x nix ca refs)
          (fixed_ca_output_path x nix store name ca refs)
  fixed_ca_output_path_lem law store name ca refs h c good =
      elim (Option-cases (validate_content_address x nix ca refs)) [
        | inl v ↦ rw v (fixed-Makes law store name ca refs h c good v)
        | inr (e, v) ↦ rw v (fixed-err store name ca refs e v)
      ]

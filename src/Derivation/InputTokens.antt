-- ===== src/Derivation/InputTokens.antt =====
-- The parsers of a derivation's input derivations and input sources of zbstore/derivation.go, on
-- the tokens of what is written for them.
use zb.Prelude.{
  ℕ, zero, suc, ◌<◌, true, false, List, [], ◌∷◌, ◌++◌, append_assoc, append-nil, Result, ok, length,
  ◌≡◌, refl, sym, ◌∙◌, ap, arith, subst,
}
use zb.Sets.Ordered.{equal, lt_bytes, bytes_ordered}
use zb.Sets.Sorted.{add, binary_search}
use zb.Sets.Sorted.Laws.{IsSorted, add-cons}
use zb.Sets.Sorted.Laws as Sets
use zb.Aterm.{Bytes, Scanner, read_token, string_kind, l_paren, r_paren, r_bracket}
use zb.Aterm.Reads.{Reads, done, more}
use zb.Aterm.Values.{items, tokens, tokens_values, delimiter}
use zb.Aterm.Balance.{IsReady}
use zb.StorePath.Paths.{External, parse_path, path_dir}
use zb.StorePath.References.{equal_self}
use zb.Derivation.{ParseError, next_token, parse_string_list, exists, put, InputDerivations}
use zb.Derivation.Marshal.{strings, input, inputs}
use zb.Derivation.RoundTrip.{
  expect_token-ok, next_token-ok, IsAscending, put-last, parse_string_list-tokens, Folds,
}
use zb.Derivation.Tuple.{give_back, parse_input, parse_inputs, add_name, add_source}
use zb.Derivation.TupleTokens.{Reads-IsReady, Reads-again, Reads-split}

below-at :
    (y : Bytes) (ys : List Bytes) (v : Bytes) (vs : List Bytes)
    → Sets.Above y (ys ++ v ∷ vs)
    → lt_bytes y v ≡ true
below-at y [] v vs h = h.0
below-at y (z ∷ ys) v vs h = below-at y ys v vs h.1

-- An element above all the others is added at the end.
add-last :
    (acc : List Bytes) (v : Bytes) (vs : List Bytes)
    → IsSorted (acc ++ v ∷ vs)
    → add acc v ≡ acc ++ v ∷ []
add-last [] v vs h = unfold add binary_search in refl
add-last (y ∷ ys) v vs h =
    let below = below-at y ys v vs h.0 in
    let ih = add-last ys v vs h.1 in rw (add-cons y ys v, below) (ap (λ t. y ∷ t) ih)

-- A function that adds each of the strings to a set.
abbrev Adds : (List Bytes → Bytes → Result ParseError (List Bytes)) → List Bytes → Type 0
Adds f [] = Unit
Adds f (v ∷ vs) = ((acc : List Bytes) → f acc v ≡ ok (add acc v)) × Adds f vs

-- Adding the elements of a sorted set in order makes the set.
Folds-Adds :
    (f : List Bytes → Bytes → Result ParseError (List Bytes)) (acc vs : List Bytes)
    → Adds f vs
    → IsSorted (acc ++ vs)
    → Folds f acc vs (acc ++ vs)
Folds-Adds f acc [] a h = sym (append-nil acc)
Folds-Adds f acc (v ∷ vs) (a, as') h =
    let assoc = append_assoc acc (v ∷ []) vs in
    (
      acc ++ v ∷ [],
      a acc ∙ ap ok (add-last acc v vs h),
      subst (λ (l : List Bytes). Folds f (acc ++ v ∷ []) vs l) assoc
          (Folds-Adds f (acc ++ v ∷ []) vs as'
            (subst (λ (l : List Bytes). IsSorted l) (sym assoc) h)),
    )

Adds-add_name : (vs : List Bytes) → Adds add_name vs
Adds-add_name [] = tt
Adds-add_name (v ∷ vs) = (λ acc. refl, Adds-add_name vs)

tokens_input :
    (p : Bytes) (names : List Bytes)
    → tokens (input p names)
      ≡ delimiter l_paren
        ∷ record { kind = string_kind; value = p }
        ∷ (tokens (items (strings names)) ++ delimiter r_paren ∷ [])
unfolding tokens tokens_values
tokens_input p names = simp append_assoc

module _ (x : External) where
  -- store paths, each as `ParsePath` returns it
  abbrev pub ArePaths : List Bytes → Type 0
  ArePaths [] = Unit
  ArePaths (p ∷ ps) = (parse_path x p ≡ ok p) × ArePaths ps

  Adds-add_source : (vs : List Bytes) → ArePaths vs → Adds (add_source x) vs
  unfolding add_source
  Adds-add_source [] h = tt
  Adds-add_source (v ∷ vs) (p, h) = (λ acc. (ground (arith, p)), Adds-add_source vs h)

  -- `parseTuple` on the list of the input sources
  pub parse_sources-tokens :
      (sources : List Bytes) (s : Scanner) {t : Scanner}
      → ArePaths sources
      → IsSorted sources
      → Reads s (tokens (items (strings sources))) t
      → parse_string_list (add_source x) [] s ≡ (ok sources, t)
  parse_sources-tokens sources s h v p =
      parse_string_list-tokens (add_source x) [] sources sources s
        (Folds-Adds (add_source x) [] sources (Adds-add_source sources h) v) p

  -- Input derivations of a store directory: their paths are as `ParsePath` returns them, and the
  -- names of their outputs are sorted.
  abbrev pub AreInputs : Bytes → InputDerivations → Type 0
  AreInputs store [] = Unit
  AreInputs store ((p, names) ∷ m) =
      ((parse_path x p ≡ ok p) × (path_dir x p ≡ store) × IsSorted names) × AreInputs store m

  parse_input-parts :
      (p : Bytes) (names : List Bytes) (s s1 s2 s3 s4 : Scanner)
      → parse_path x p ≡ ok p
      → read_token s ≡ (ok (delimiter l_paren), s1)
      → read_token s1 ≡ (ok (record { kind = string_kind; value = p }), s2)
      → parse_string_list add_name [] s2 ≡ (ok names, s3)
      → read_token s3 ≡ (ok (delimiter r_paren), s4)
      → parse_input x s ≡ (ok (p, names), s4)
  unfolding parse_input
  parse_input-parts p names s s1 s2 s3 s4 k e1 e2 q e3 =
      let q1 = expect_token-ok s l_paren [] e1 in
      let q2 = expect_token-ok s1 string_kind p e2 in
      let q3 = expect_token-ok s3 r_paren [] e3 in ground (arith, q1, q2, q, q3, k)

  parse_input-tokens :
      (p : Bytes) (names : List Bytes) (s : Scanner) {u : Scanner}
      → parse_path x p ≡ ok p
      → IsSorted names
      → Reads s (tokens (input p names)) u
      → parse_input x s ≡ (ok (p, names), u)
  parse_input-tokens p names s {u = u} k v r =
      go (subst (λ l. Reads s l u) (tokens_input p names) r)
    where
      last :
          (s1 s2 s3 : Scanner)
          → read_token s ≡ (ok (delimiter l_paren), s1)
          → read_token s1 ≡ (ok (record { kind = string_kind; value = p }), s2)
          → parse_string_list add_name [] s2 ≡ (ok names, s3)
          → Reads s3 (delimiter r_paren ∷ []) u
          → parse_input x s ≡ (ok (p, names), u)
      last s1 s2 s3 e1 e2 q (more e3 done) = parse_input-parts p names s s1 s2 s3 u k e1 e2 q e3

      go :
          Reads s
            (delimiter l_paren
              ∷ record { kind = string_kind; value = p }
              ∷ (tokens (items (strings names)) ++ delimiter r_paren ∷ []))
            u
          → parse_input x s ≡ (ok (p, names), u)
      go (more {u = s1} e1 (more {u = s2} e2 r')) =
          let (s3, list, end) =
            Reads-split (tokens (items (strings names))) (delimiter r_paren ∷ []) r' in
          let q =
            parse_string_list-tokens add_name [] names names s2
              (Folds-Adds add_name [] names (Adds-add_name names) v) list in
          last s1 s2 s3 e1 e2 q end

  parse_inputs-step :
      (store : Bytes) (n : ℕ) (acc acc' : InputDerivations) (p : Bytes) (names : List Bytes)
      (s u s2 : Scanner)
      → next_token s ≡ (ok (delimiter l_paren), u)
      → parse_input x (give_back u) ≡ (ok (p, names), s2)
      → equal (path_dir x p) store ≡ true
      → exists acc p ≡ false
      → put acc p names ≡ acc'
      → parse_inputs x store (suc n) acc s ≡ parse_inputs x store n acc' s2
  unfolding parse_inputs
  parse_inputs-step store n acc acc' p names s u s2 e q d f g = ground (arith, e, q, d, f, g)

  parse_inputs_end :
      (store : Bytes) (n : ℕ) (acc : InputDerivations) (s u : Scanner)
      → next_token s ≡ (ok (delimiter r_bracket), u)
      → parse_inputs x store (suc n) acc s ≡ (ok acc, u)
  unfolding parse_inputs
  parse_inputs_end store n acc s u e = ground (arith, e)

  pub parse_inputs-tokens :
      (store : Bytes) (n : ℕ) (acc m : InputDerivations) {s t : Scanner}
      → AreInputs store m
      → length m < n
      → IsAscending (acc ++ m)
      → IsReady s
      → Reads s (tokens_values (inputs m) ++ delimiter r_bracket ∷ []) t
      → parse_inputs x store n acc s ≡ (ok (acc ++ m), t)
  unfolding tokens_values
  parse_inputs-tokens store zero acc m w h a v p = elim h [ ]
  parse_inputs-tokens store (suc n) acc [] {s = s} {t = t} w h a v (more e done) =
      parse_inputs_end store n acc s t (next_token-ok s e)
      ∙ ap (λ l. (ok l, t)) (sym (append-nil acc))
  parse_inputs-tokens store (suc n) acc ((k, names) ∷ m) {s = s} {t = t} ((path, in_dir, sorted), w)
        h a v p =
      let ts = tokens (input k names) in
      let us = tokens_values (inputs m) in
      let p' = subst (λ l. Reads s l t) (append_assoc ts us (delimiter r_bracket ∷ [])) p in
      let (s2, one, others) = Reads-split ts (us ++ delimiter r_bracket ∷ []) p' in
      let (u, e, again) = Reads-again v (unfold tokens in one) in
      let q = parse_input-tokens k names (give_back u) path sorted (unfold tokens in again) in
      let (new, last) = put-last acc m k names a in
      let assoc = append_assoc acc ((k, names) ∷ []) m in
      let d = ap (λ t. equal t store) in_dir ∙ equal_self store in
      parse_inputs-step store n acc (acc ++ (k, names) ∷ []) k names s u s2 e q d new last
      ∙ parse_inputs-tokens store n (acc ++ (k, names) ∷ []) m w (omega arith)
          (subst (λ l. IsAscending l) (sym assoc) a) (Reads-IsReady one v) others
      ∙ ap (λ l. (ok l, t)) assoc

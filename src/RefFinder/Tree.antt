-- ===== src/RefFinder/Tree.antt =====
-- The tree of a `RefFinder` as a map from encoded strings.
use zb.Prelude.{
  ℕ, Bool, true, false, ◌&&◌, List, [], ◌∷◌, Option, none, some, ◌==◌, if◌then◌else◌, ◌≡◌, refl,
  sym, ◌∙◌, ap, arith, Bool-cases, Option-cases, inl, inr,
}
use zb.RefFinder.Encode.{Bytes, encode_utf8, encode_utf16le}
use zb.RefFinder.{
  Node, Nodes, node, nil, cons, byte, match_of, children, find, update_child, add_encoded,
  build_tree,
}

-- equality of strings
abbrev pub same : Bytes → Bytes → Bool
same [] [] = true
same [] (b ∷ w) = false
same (a ∷ v) [] = false
same (a ∷ v) (b ∷ w) = a == b && same v w

-- the node that a string leads to
unfoldable pub walk : Node → Bytes → Option Node
walk n [] = some n
walk n (b ∷ w) = elim (find (children n) b) [ none ↦ none | some m ↦ walk m w ]

-- its `match`, empty where there is none
unfoldable pub match_at : Node → Bytes → Bytes
unfolding walk
match_at n w = elim (walk n w) [ none ↦ [] | some m ↦ match_of m ]

-- the child with a byte, or a new one
or_new : Option Node → ℕ → Node
or_new none b = node b [] nil
or_new (some n) b = n

find-update_child :
    (cs : Nodes) (b c : ℕ) (f : Node → Node)
    → ((n : Node) → byte (f n) ≡ byte n)
    → find (update_child cs b f) c ≡ (if b == c then some (f (or_new (find cs b) b)) else find cs c)
unfolding find update_child or_new
find-update_child nil b c f h = ground (arith, h (node b [] nil))
find-update_child (cons n ns) b c f h =
    ground (arith, h (node b [] nil), h n, find-update_child ns b c f h)

add_encoded-byte : (w s : Bytes) (n : Node) → byte (add_encoded w s n) ≡ byte n
unfolding add_encoded
add_encoded-byte [] s (node b m cs) = refl
add_encoded-byte (c ∷ w) s (node b m cs) = refl

pub match_at-none : (b : ℕ) (w : Bytes) → match_at (node b [] nil) w ≡ []
unfolding match_at find
match_at-none b [] = refl
match_at-none b (c ∷ w) = refl

abbrev at_option : Option Node → Bytes → Bytes
at_option none w = []
at_option (some n) w = match_at n w

match_at-cons :
    (b c : ℕ) (m w : Bytes) (cs : Nodes) → match_at (node b m cs) (c ∷ w) ≡ at_option (find cs c) w
unfolding match_at walk
match_at-cons b c m w cs = elim (Option-cases (find cs c)) [
  | inl e ↦ ground (arith, e)
  | inr (n, e) ↦ ground (arith, e)
]

match_at-or_new : (o : Option Node) (b : ℕ) (w : Bytes) → match_at (or_new o b) w ≡ at_option o w
unfolding or_new
match_at-or_new none b w = match_at-none b w
match_at-or_new (some n) b w = refl

-- After `add`, the string added is the match at its bytes, and no other match has changed.
pub match_at-add_encoded :
    (v s : Bytes) (n : Node) (w : Bytes)
    → match_at (add_encoded v s n) w ≡ (if same v w then s else match_at n w)
match_at-add_encoded [] s (node b m cs) [] = unfold match_at add_encoded in refl
match_at-add_encoded [] s (node b m cs) (c ∷ w) = unfold match_at add_encoded in refl
match_at-add_encoded (c ∷ v) s (node b m cs) [] = unfold match_at add_encoded in refl
match_at-add_encoded (c ∷ v) s (node b m cs) (d ∷ w) =
    step (λ (n : Node). match_at-add_encoded v s n w)
  where
    step :
        ((n : Node) → match_at (add_encoded v s n) w ≡ (if same v w then s else match_at n w))
        → match_at (add_encoded (c ∷ v) s (node b m cs)) (d ∷ w)
          ≡ (if same (c ∷ v) (d ∷ w) then s else match_at (node b m cs) (d ∷ w))
    step ih =
        let f = λ (n : Node). add_encoded v s n in
        let e = find-update_child cs c d f (λ n. add_encoded-byte v s n) in
        let p = match_at-cons b d m w (update_child cs c f) in
        let q = match_at-cons b d m w cs in
        let h = ih (or_new (find cs c) c) in
        let o = match_at-or_new (find cs c) c w in
        unfold add_encoded in
        p ∙ ap (λ (x : Option Node). at_option x w) e ∙ elim (Bool-cases (c == d)) [
          | inl t ↦
              let same_byte : c ≡ d = ground arith in
              let q' = q ∙ ap (λ (x : ℕ). at_option (find cs x) w) (sym same_byte) in
              ground (arith, t, h, o, q')
          | inr t ↦ ground (arith, t, q)
        ]

-- The last of the strings whose encoding, in UTF-8 or in UTF-16, is given.
abbrev pub last_match : List Bytes → Bytes → Bytes → Bytes
last_match [] w found = found
last_match ([] ∷ search) w found = last_match search w found
last_match ((c ∷ s) ∷ search) w found = last_match search w (
    if same (encode_utf16le (c ∷ s)) w
    then c ∷ s
    else if same (encode_utf8 (c ∷ s)) w
    then c ∷ s
    else found)

pub match_at-build_tree :
    (search : List Bytes) (root : Node) (w : Bytes)
    → match_at (build_tree search root) w ≡ last_match search w (match_at root w)
unfolding build_tree
match_at-build_tree [] root w = refl
match_at-build_tree ([] ∷ search) root w = match_at-build_tree search root w
match_at-build_tree ((c ∷ s) ∷ search) root w =
    let utf8 = add_encoded (encode_utf8 (c ∷ s)) (c ∷ s) root in
    match_at-build_tree search (add_encoded (encode_utf16le (c ∷ s)) (c ∷ s) utf8) w
    ∙ ap (λ (m : Bytes). last_match search w m)
        (match_at-add_encoded (encode_utf16le (c ∷ s)) (c ∷ s) utf8 w
          ∙ ap (λ (m : Bytes). if same (encode_utf16le (c ∷ s)) w then c ∷ s else m)
              (match_at-add_encoded (encode_utf8 (c ∷ s)) (c ∷ s) root w))

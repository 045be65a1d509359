-- ===== src/RefFinder/Report.antt =====
-- The strings that a `RefFinder` made for a sequence of strings reports after a write.
use zb.Prelude.{
  Bool, true, false, ◌&&◌, ◌||◌, List, [], ◌∷◌, ◌++◌, if◌then◌else◌, ◌≡◌, ◌≢◌, ◌⊎◌, ◌↔◌, refl, sym,
  ◌∙◌, ap, subst, arith, Bool-cases, inl, inr,
}
use zb.Sets.Ordered.{bytes_ordered, equal}
use zb.Sets.Sorted.{has, add, binary_search}
use zb.Sets.Sorted.Laws.{IsSorted, add-IsSorted, has-add}
use zb.RefFinder.Encode.{Bytes, encode_utf8, encode_utf16le, encode_utf16le-nonempty}
use zb.RefFinder.{build_tree, has_empty, new_node, new_ref_finder, write}
use zb.RefFinder.Tree.{same, match_at, match_at-none, last_match, match_at-build_tree}
use zb.RefFinder.Found.{any_hits, occurs, has-write}
use zb.RefFinder.Search.{equal-eq, occurs_sound, occurs_complete, occurs_empty}

abbrev pub Among : Bytes → List Bytes → Type 0
Among s [] = ⊥
Among s (r ∷ search) = (s ≡ r) ⊎ Among s search

-- one of the two forms of a string
abbrev pub Encodes : Bytes → Bytes → Type 0
Encodes s w = (encode_utf8 s ≡ w) ⊎ (encode_utf16le s ≡ w)

abbrev pub Infix : Bytes → Bytes → Type 0
Infix w text = (pre : Bytes) × (post : Bytes) × (text ≡ pre ++ (w ++ post))

-- at some place of the text stands a form of the string, and of no string later in `search`
abbrev pub Reported : List Bytes → Bytes → Bytes → Type 0
Reported search text s = (w : Bytes) × Infix w text × (last_match search w [] ≡ s)

same-eq : (v w : Bytes) → same v w ≡ true → v ≡ w
same-eq [] [] h = refl
same-eq [] (b ∷ w) h = ground (arith)
same-eq (a ∷ v) [] h = ground (arith)
same-eq (a ∷ v) (b ∷ w) h = let e = same-eq v w (ground arith) in ground (arith, e)

same_self : (v : Bytes) → same v v ≡ true
same_self [] = refl
same_self (a ∷ v) = let e = same_self v in ground (arith, e)

same_nil : (v : Bytes) → v ≢ [] → same v [] ≡ false
same_nil [] h = absurd (h refl)
same_nil (a ∷ v) h = refl

last_match-nil : (search : List Bytes) (m : Bytes) → last_match search [] m ≡ m
last_match-nil [] m = refl
last_match-nil ([] ∷ search) m = last_match-nil search m
last_match-nil ((c ∷ s) ∷ search) m =
    let e = same_nil (encode_utf16le (c ∷ s)) (encode_utf16le-nonempty c s) in
    let f : same (encode_utf8 (c ∷ s)) [] ≡ false = unfold encode_utf8 in refl in
    let r = last_match-nil search m in ground (arith, e, f, r)

empty_root :
    (search : List Bytes) (w : Bytes)
    → match_at (build_tree search new_node) w ≡ last_match search w []
empty_root search w =
    match_at-build_tree search new_node w
    ∙ ap (λ (m : Bytes). last_match search w m) (match_at-none 0 w)

has_none : (z : Bytes) → has {A = Bytes} [] z ≡ false
unfolding has binary_search
has_none z = refl

new_found :
    (search : List Bytes)
    → IsSorted (new_ref_finder search).found
      × ((z : Bytes) → has (new_ref_finder search).found z ≡ (has_empty search && equal [] z))
unfolding new_ref_finder
new_found search = elim (Bool-cases (has_empty search)) [
  | inl e ↦
      subst InitialFound (sym e)
        (add-IsSorted [] [] tt, λ z. has-add [] [] z tt ∙ ground (arith, has_none z))
  | inr e ↦ subst InitialFound (sym e) (tt, λ z. has_none z)
]
  where
    InitialFound : Bool → Type 0
    InitialFound e =
        IsSorted {A = Bytes} (if e then add [] [] else [])
        × ((z : Bytes) → has {A = Bytes} (if e then add [] [] else []) z ≡ (e && equal [] z))

no_threads : (p z : Bytes) → any_hits [] p z ≡ false
unfolding any_hits
no_threads p z = refl

has-report :
    (search : List Bytes) (text z : Bytes)
    → has (write (new_ref_finder search) text).found z
      ≡ ((has_empty search && equal [] z) || occurs (build_tree search new_node) text z)
has-report search text z =
    let (v, h) = new_found search in
    let e = has-write (new_ref_finder search) text z v in
    let f = no_threads text z in unfold new_ref_finder in ground (arith, e, f, h z)

-- The empty string is reported where it was looked for, whatever has been written.
pub report_empty :
    (search : List Bytes) (text : Bytes)
    → has (write (new_ref_finder search) text).found [] ≡ has_empty search
report_empty search text =
    let e = has-report search text [] in
    ground (arith, e, occurs_empty (build_tree search new_node) text)

Reported-occurs :
    (search : List Bytes) (text z : Bytes)
    → z ≢ []
    → Reported search text z
    → occurs (build_tree search new_node) text z ≡ true
Reported-occurs search text z h ([], i, e) = absurd (h (sym e ∙ last_match-nil search []))
Reported-occurs search text z h (b ∷ w, (pre, post, q), e) =
    ap (λ (t : Bytes). occurs (build_tree search new_node) t z) q
    ∙ occurs_complete pre (build_tree search new_node) b w post z (empty_root search (b ∷ w) ∙ e) h

-- Whatever has been written to a new `RefFinder`, a string that is not empty is reported exactly
-- where the text has at some place bytes that are the UTF-8 or the UTF-16 form of that string and
-- of no string that comes later in `search`.
pub report-Reported :
    (search : List Bytes) (text z : Bytes)
    → z ≢ []
    → (has (write (new_ref_finder search) text).found z ≡ true) ↔ Reported search text z
report-Reported search text z h = (to, from)
  where
    to : has (write (new_ref_finder search) text).found z ≡ true → Reported search text z
    to k = elim (Bool-cases (equal [] z)) [
      | inl e ↦ absurd (h (sym (equal-eq [] z e)))
      | inr e ↦
          let o : occurs (build_tree search new_node) text z ≡ true =
            (let r = has-report search text z in ground (arith, r, k, e)) in
          let (pre, w, post, q, m) = occurs_sound (build_tree search new_node) text z o in
          (w, (pre, post, q), sym (empty_root search w) ∙ m)
    ]

    from : Reported search text z → has (write (new_ref_finder search) text).found z ≡ true
    from r =
        let e = Reported-occurs search text z h r in
        let k = has-report search text z in ground (arith, e, k)

-- what a round of `last_match` makes of the match so far
abbrev better : Bytes → Bytes → Bytes → Bytes
better s w m = if same (encode_utf16le s) w then s else if same (encode_utf8 s) w then s else m

better-cases : (s w m : Bytes) → (better s w m ≡ m) ⊎ (better s w m ≡ s) × Encodes s w
better-cases s w m = elim (Bool-cases (same (encode_utf16le s) w)) [
  | inl e ↦ inr (ground (arith, e), inr (same-eq (encode_utf16le s) w e))
  | inr e ↦ elim (Bool-cases (same (encode_utf8 s) w)) [
    | inl f ↦ inr (ground (arith, e, f), inl (same-eq (encode_utf8 s) w f))
    | inr f ↦ inl (ground (arith, e, f))
  ]
]

better-Encodes : (s w m : Bytes) → Encodes s w → better s w m ≡ s
better-Encodes s w m (inl e) =
    let f : same (encode_utf8 s) w ≡ true =
      subst (λ (x : Bytes). same (encode_utf8 s) x ≡ true) e (same_self (encode_utf8 s)) in
    ground (arith, f)
better-Encodes s w m (inr e) =
    let f : same (encode_utf16le s) w ≡ true =
      subst (λ (x : Bytes). same (encode_utf16le s) x ≡ true) e (same_self (encode_utf16le s)) in
    ground (arith, f)

last_match_sound :
    (search : List Bytes) (w m : Bytes)
    → (last_match search w m ≡ m)
      ⊎ Among (last_match search w m) search × Encodes (last_match search w m) w
last_match_sound [] w m = inl refl
last_match_sound ([] ∷ search) w m = elim (last_match_sound search w m) [
  | inl e ↦ inl e
  | inr (i, e) ↦ inr (inr i, e)
]
last_match_sound ((c ∷ s) ∷ search) w m = elim (last_match_sound search w (better (c ∷ s) w m)) [
  | inl e ↦ elim (better-cases (c ∷ s) w m) [
    | inl f ↦ inl (e ∙ f)
    | inr (f, g) ↦ inr (inl (e ∙ f), subst (λ (x : Bytes). Encodes x w) (sym (e ∙ f)) g)
  ]
  | inr (i, e) ↦ inr (inr i, e)
]

-- What is reported was looked for, and is empty or has one of its forms somewhere in the text.
pub report_sound :
    (search : List Bytes) (text z : Bytes)
    → z ≢ []
    → has (write (new_ref_finder search) text).found z ≡ true
    → Among z search × ((w : Bytes) × Encodes z w × Infix w text)
report_sound search text z h k =
    let (w, i, e) = (report-Reported search text z h).0 k in
    elim (last_match_sound search w []) [
      | inl n ↦ absurd (h (sym e ∙ n))
      | inr (a, f) ↦ (
        subst (λ (x : Bytes). Among x search) e a,
        (w, subst (λ (x : Bytes). Encodes x w) e f, i),
      )
    ]

last_match_complete :
    (search : List Bytes) (w m z : Bytes)
    → ((s : Bytes) → Among s search → s ≢ [] → Encodes s w → s ≡ z)
    → (m ≡ z) ⊎ Among z search × Encodes z w
    → z ≢ []
    → last_match search w m ≡ z
last_match_complete [] w m z only (inl e) k = e
last_match_complete [] w m z only (inr (i, f)) k = absurd i
last_match_complete ([] ∷ search) w m z only h k =
    last_match_complete search w m z (λ s i. only s (inr i)) (skip h) k
  where
    skip : (m ≡ z) ⊎ Among z ([] ∷ search) × Encodes z w → (m ≡ z) ⊎ Among z search × Encodes z w
    skip (inl e) = inl e
    skip (inr (inl e, f)) = absurd (k e)
    skip (inr (inr i, f)) = inr (i, f)
last_match_complete ((c ∷ s) ∷ search) w m z only h k =
    last_match_complete search w (better (c ∷ s) w m) z (λ r i. only r (inr i)) (next h) k
  where
    next :
        (m ≡ z) ⊎ Among z ((c ∷ s) ∷ search) × Encodes z w
        → (better (c ∷ s) w m ≡ z) ⊎ Among z search × Encodes z w
    next (inl e) = elim (better-cases (c ∷ s) w m) [
      | inl f ↦ inl (f ∙ e)
      | inr (f, g) ↦ inl (f ∙ only (c ∷ s) (inl refl) (λ n. ground (arith)) g)
    ]
    next (inr (inl e, f)) =
        inl (better-Encodes (c ∷ s) w m (subst (λ (x : Bytes). Encodes x w) e f) ∙ sym e)
    next (inr (inr i, f)) = inr (i, f)

-- A string that is looked for and that has one of its forms in the text is reported, where no other
-- string that is looked for has the same bytes as one of its forms.
pub report_complete :
    (search : List Bytes) (text z w : Bytes)
    → z ≢ []
    → Among z search
    → Encodes z w
    → Infix w text
    → ((s : Bytes) → Among s search → s ≢ [] → Encodes s w → s ≡ z)
    → has (write (new_ref_finder search) text).found z ≡ true
report_complete search text z w h a e i only =
    (report-Reported search text z h).1
      (w, i, last_match_complete search w [] z only (inr (a, e)) h)

-- ===== src/RefFinder/Found.antt =====
-- What a `RefFinder` has found in the bytes written to it.
use zb.Prelude.{
  ℕ, Bool, true, false, ◌||◌, List, [], ◌∷◌, ◌++◌, none, some, ◌≡◌, refl, arith, Option-cases, inl,
  inr,
}
use zb.Sets.Ordered.{bytes_ordered, equal}
use zb.Sets.Sorted.{has}
use zb.Sets.Sorted.Laws.{IsSorted, add-IsSorted, has-add}
use zb.RefFinder.Encode.{Bytes}
use zb.RefFinder.{
  Node, node, nil, cons, match_of, children, is_leaf, find, RefFinder, add_match, advance,
  write_byte, write,
}

-- whether a match is a string that is looked for, which is not empty
abbrev pub matches : Bytes → Bytes → Bool
matches [] z = false
matches (c ∷ s) z = equal (c ∷ s) z

-- Whether a path from a node along the first bytes of a text, of one byte at least, ends in a node
-- whose `match` is `z`.
unfoldable pub hits : Node → Bytes → Bytes → Bool
hits n [] z = false
hits n (b ∷ p) z = elim (find (children n) b) [
  | none ↦ false
  | some m ↦ matches (match_of m) z || hits m p z
]

-- the same of any node of a list
unfoldable pub any_hits : List Node → Bytes → Bytes → Bool
any_hits [] p z = false
any_hits (n ∷ ns) p z = hits n p z || any_hits ns p z

-- the same at any place of the text
unfoldable pub occurs : Node → Bytes → Bytes → Bool
unfolding hits
occurs n [] z = false
occurs n (b ∷ p) z = hits n (b ∷ p) z || occurs n p z

add_match-IsSorted :
    (m : Bytes) (found : List Bytes) → IsSorted found → IsSorted (add_match m found)
unfolding add_match
add_match-IsSorted [] found v = v
add_match-IsSorted (c ∷ s) found v = add-IsSorted found (c ∷ s) v

has-add_match :
    (m z : Bytes) (found : List Bytes)
    → IsSorted found
    → has (add_match m found) z ≡ (has found z || matches m z)
unfolding add_match
has-add_match [] z found v = ground (arith)
has-add_match (c ∷ s) z found v = let e = has-add found (c ∷ s) z v in ground (arith, e)

hits_leaf : (n : Node) (p z : Bytes) → is_leaf n ≡ true → hits n p z ≡ false
unfolding hits find
hits_leaf (node b m nil) [] z l = refl
hits_leaf (node b m nil) (c ∷ p) z l = refl
hits_leaf (node b m (cons c cs)) p z l = ground (arith)

-- What the set and the threads that are kept hold of the text to come.
abbrev holds : List Node × List Bytes → Bytes → Bytes → Bool
holds (kept, found) p z = has found z || any_hits kept p z

abbrev SoundAdvance : List Node → ℕ → List Bytes → Bytes → Bytes → Type 0
SoundAdvance threads b found p z =
    IsSorted (advance threads b found).1
    × (holds (advance threads b found) p z ≡ (has found z || any_hits threads (b ∷ p) z))

advance-cons :
    (curr : Node) (threads : List Node) (b : ℕ) (found : List Bytes) (p z : Bytes)
    → IsSorted found
    → ((f : List Bytes) → IsSorted f → SoundAdvance threads b f p z)
    → SoundAdvance (curr ∷ threads) b found p z
unfolding advance any_hits hits
advance-cons curr threads b found p z v ih = elim (Option-cases (find (children curr) b)) [
  | inl e ↦ let (w, h) = ih found v in ground (arith, e, w, h)
  | inr (m, e) ↦
      let (w, h) = ih (add_match (match_of m) found) (add_match-IsSorted (match_of m) found v) in
      ground (arith, e, w, h, hits_leaf m p z, has-add_match (match_of m) z found v)
]

advance-lem :
    (threads : List Node) (b : ℕ) (found : List Bytes) (p z : Bytes)
    → IsSorted found
    → SoundAdvance threads b found p z
advance-lem [] b found p z v = unfold advance any_hits in (v, refl)
advance-lem (curr ∷ threads) b found p z v =
    advance-cons curr threads b found p z v (λ f w. advance-lem threads b f p z w)

any_hits-append :
    (ns ms : List Node) (p z : Bytes)
    → any_hits (ns ++ ms) p z ≡ (any_hits ns p z || any_hits ms p z)
unfolding any_hits
any_hits-append [] ms p z = refl
any_hits-append (n ∷ ns) ms p z = let e = any_hits-append ns ms p z in ground (arith, e)

write_byte-lem :
    (rf : RefFinder) (b : ℕ) (p z : Bytes)
    → IsSorted rf.found
    → IsSorted (write_byte rf b).found
      × (holds ((write_byte rf b).threads, (write_byte rf b).found) p z
          ≡ (has rf.found z || any_hits rf.threads (b ∷ p) z || hits rf.root (b ∷ p) z))
unfolding write_byte any_hits
write_byte-lem rf b p z v =
    let (w, h) = advance-lem (rf.threads ++ rf.root ∷ []) b rf.found p z v in
    let a = any_hits-append rf.threads (rf.root ∷ []) (b ∷ p) z in (w, ground (arith, h, a))

any_hits-nil : (ns : List Node) (z : Bytes) → any_hits ns [] z ≡ false
unfolding any_hits hits
any_hits-nil [] z = refl
any_hits-nil (n ∷ ns) z = any_hits-nil ns z

write_nil :
    (rf : RefFinder) (z : Bytes)
    → has (write rf []).found z
      ≡ (has rf.found z || any_hits rf.threads [] z || occurs rf.root [] z)
unfolding write occurs
write_nil rf z = let e = any_hits-nil rf.threads z in ground (arith, e)

write_cons :
    (rf : RefFinder) (b : ℕ) (p z : Bytes)
    → holds ((write_byte rf b).threads, (write_byte rf b).found) p z
      ≡ (has rf.found z || any_hits rf.threads (b ∷ p) z || hits rf.root (b ∷ p) z)
    → has (write (write_byte rf b) p).found z ≡ (
        has (write_byte rf b).found z
        || any_hits (write_byte rf b).threads p z
        || occurs (write_byte rf b).root p z)
    → has (write rf (b ∷ p)).found z
      ≡ (has rf.found z || any_hits rf.threads (b ∷ p) z || occurs rf.root (b ∷ p) z)
unfolding write write_byte occurs
write_cons rf b p z h e = ground (arith, h, e)

-- What is found is what was found, what the threads lead to and what occurs in the new bytes.
pub has-write :
    (rf : RefFinder) (p z : Bytes)
    → IsSorted rf.found
    → has (write rf p).found z ≡ (has rf.found z || any_hits rf.threads p z || occurs rf.root p z)
has-write rf [] z v = write_nil rf z
has-write rf (b ∷ p) z v =
    let (w, h) = write_byte-lem rf b p z v in
    let e = has-write (write_byte rf b) p z w in write_cons rf b p z h e

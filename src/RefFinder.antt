-- ===== src/RefFinder.antt =====
-- internal/detect/ref_finder.go: `RefFinder`, which records which of a set of strings occur in a
-- stream of bytes. The nodes never change once the tree is built, so a pointer to a node is the
-- node.
pub mod Encode
pub mod Tree
pub mod Found
pub mod Search
pub mod Report
mod Tests
use zb.Prelude.{
  ℕ, Bool, true, false, not, ◌||◌, List, [], ◌∷◌, ◌++◌, Option, none, some, ltb, ◌==◌,
  if◌then◌else◌,
}
use zb.Sets.Sorted
use zb.Sets.Ordered.{bytes_ordered}
use zb.RefFinder.Encode.{Bytes, encode_utf8, encode_utf16le}

-- `refFinderNode`: its byte, its `match`, and its children.
mutual
  pub data Node : Type 0 where
    node : ℕ → Bytes → Nodes → Node

  pub data Nodes : Type 0 where
    nil : Nodes
    cons : Node → Nodes → Nodes

abbrev pub byte : Node → ℕ
byte (node b m cs) = b

abbrev pub match_of : Node → Bytes
match_of (node b m cs) = m

abbrev pub children : Node → Nodes
children (node b m cs) = cs

abbrev pub is_leaf : Node → Bool
is_leaf (node b m nil) = true
is_leaf (node b m (cons c cs)) = false

-- `find`: `slices.BinarySearchFunc` by the byte on children in ascending order. The result is the
-- child at the first position whose byte is not below `b`, if its byte is `b`.
unfoldable pub find : Nodes → ℕ → Option Node
find nil b = none
find (cons n ns) b = if ltb (byte n) b then find ns b else if byte n == b then some n else none

-- The round of `add` for one byte: the child with that byte, or a new one in its place, goes on.
unfoldable pub update_child : Nodes → ℕ → (Node → Node) → Nodes
update_child nil b f = cons (f (node b [] nil)) nil
update_child (cons n ns) b f =
    if ltb (byte n) b
    then cons n (update_child ns b f)
    else if byte n == b
    then cons (f n) ns
    else cons (f (node b [] nil)) (cons n ns)

-- `add` of a string by its encoded bytes
unfoldable pub add_encoded : Bytes → Bytes → Node → Node
unfolding update_child
add_encoded [] s (node b m cs) = node b s cs
add_encoded (c ∷ encoded) s (node b m cs) =
    node b m (update_child cs c (λ (n : Node). add_encoded encoded s n))

unfoldable pub build_tree : List Bytes → Node → Node
unfolding add_encoded
build_tree [] root = root
build_tree ([] ∷ search) root = build_tree search root
build_tree ((c ∷ s) ∷ search) root =
    build_tree search (
      add_encoded (encode_utf16le (c ∷ s)) (c ∷ s) (add_encoded (encode_utf8 (c ∷ s)) (c ∷ s) root))

pub has_empty : List Bytes → Bool
has_empty [] = false
has_empty ([] ∷ search) = true
has_empty ((c ∷ s) ∷ search) = has_empty search

pub record RefFinder : Type 0 where
  pub root : Node
  pub threads : List Node
  pub found : List Bytes

abbrev pub new_node : Node
new_node = node 0 [] nil

unfoldable pub new_ref_finder : List Bytes → RefFinder
unfolding build_tree
new_ref_finder search = record {
  root = build_tree search new_node;
  threads = [];
  found = if has_empty search then Sorted.add [] [] else [];
}

-- `if next.match != "" { rf.found.Add(next.match) }`
unfoldable pub add_match : Bytes → List Bytes → List Bytes
add_match [] found = found
add_match (c ∷ s) found = Sorted.add found (c ∷ s)

-- The loop of `write` over the threads: those that are kept, and what is found.
unfoldable pub advance : List Node → ℕ → List Bytes → List Node × List Bytes
unfolding find add_match
advance [] b found = ([], found)
advance (curr ∷ threads) b found =
    let skip = advance threads b found in
    elim (find (children curr) b) [
      | none ↦ skip
      | some next ↦
          let (kept, found') = advance threads b (add_match (match_of next) found) in
          if is_leaf next then (kept, found') else (next ∷ kept, found')
    ]

unfoldable pub write_byte : RefFinder → ℕ → RefFinder
unfolding advance
write_byte rf b =
    let (threads, found) = advance (rf.threads ++ rf.root ∷ []) b rf.found in
    record { root = rf.root; threads = threads; found = found }

-- `Write` and `WriteString`
unfoldable pub write : RefFinder → Bytes → RefFinder
unfolding write_byte
write rf [] = rf
write rf (b ∷ p) = write (write_byte rf b) p

-- ===== src/Backend/Graph/Count.antt =====
-- How often a path occurs on the stack, among those worked on and in the map `finished`, and when
-- a derivation is ready.
use zb.Prelude.{
  ℕ, ◌+◌, Bool, true, false, not, ◌&&◌, List, [], ◌∷◌, none, some, ◌≡◌, refl, ◌==◌, if◌then◌else◌,
  arith, Bool-cases, Option-cases, inl, inr,
}
use zb.Backend.Graph.{
  Node, DependencyGraph, lookup_node, is_finished, has_key, all_finished, among, remove,
}

abbrev pub count : ℕ → List ℕ → ℕ
count x [] = 0
count x (y ∷ ys) = (if y == x then 1 else 0) + count x ys

abbrev pub count_keys : ℕ → List (ℕ × Bool) → ℕ
count_keys x [] = 0
count_keys x ((p, b) ∷ finished) = (if p == x then 1 else 0) + count_keys x finished

unfoldable pub inputs_of : DependencyGraph → ℕ → List ℕ
inputs_of g x = elim (lookup_node g.nodes x) [ none ↦ [] | some node ↦ node.inputs ]

unfoldable pub is_node : DependencyGraph → ℕ → Bool
is_node g x = elim (lookup_node g.nodes x) [ none ↦ false | some node ↦ true ]

-- All the inputs of a derivation are finished and let it go on.
unfoldable pub ready : DependencyGraph → List (ℕ × Bool) → ℕ → Bool
unfolding is_node inputs_of
ready g finished x = is_node g x && all_finished finished (inputs_of g x)

unfoldable pub is_nil : List ℕ → Bool
is_nil [] = true
is_nil (x ∷ xs) = false

-- The roots are the derivations with no inputs, each once; the inputs of a derivation are in the
-- graph; and the dependents of a derivation are those that have it as an input, each once.
pub record IsConsistent (g : DependencyGraph) : Type 0 where
  pub roots : (x : ℕ) → count x g.roots ≡ (if is_node g x && is_nil (inputs_of g x) then 1 else 0)
  pub inputs : (p x : ℕ) → among p (inputs_of g x) ≡ true → is_node g p ≡ true
  pub dependents :
      (p x : ℕ) (a : Node)
      → lookup_node g.nodes p ≡ some a
      → count x a.dependents ≡ (if among p (inputs_of g x) then 1 else 0)

pub has_key-count :
    (finished : List (ℕ × Bool)) (x : ℕ) → has_key finished x ≡ not (count_keys x finished == 0)
unfolding has_key
has_key-count [] x = refl
has_key-count ((p, b) ∷ finished) x = ground (arith, has_key-count finished x)

pub is_finished-none :
    (finished : List (ℕ × Bool)) (x : ℕ)
    → count_keys x finished ≡ 0
    → is_finished finished x ≡ false
unfolding is_finished
is_finished-none [] x h = refl
is_finished-none ((p, b) ∷ finished) x h = ground (arith, is_finished-none finished x)

-- finishing a path without its dependents, or one that is no input, makes nothing ready
pub all_finished-false :
    (finished : List (ℕ × Bool)) (p : ℕ) (inputs : List ℕ)
    → is_finished finished p ≡ false
    → all_finished ((p, false) ∷ finished) inputs ≡ all_finished finished inputs
unfolding all_finished
all_finished-false finished p [] h = refl
all_finished-false finished p (x ∷ inputs) h = elim (Bool-cases (p == x)) [
  | inl e ↦ ground (arith, all_finished-false finished p inputs, h, e)
  | inr e ↦ ground (arith, all_finished-false finished p inputs, h, e)
]

pub all_finished-other :
    (finished : List (ℕ × Bool)) (p : ℕ) (b : Bool) (inputs : List ℕ)
    → among p inputs ≡ false
    → all_finished ((p, b) ∷ finished) inputs ≡ all_finished finished inputs
unfolding all_finished
all_finished-other finished p b [] h = refl
all_finished-other finished p b (x ∷ inputs) h =
    ground (arith, all_finished-other finished p b inputs, h)

pub all_finished-among :
    (finished : List (ℕ × Bool)) (p : ℕ) (inputs : List ℕ)
    → is_finished finished p ≡ false
    → among p inputs ≡ true
    → all_finished finished inputs ≡ false
unfolding all_finished
all_finished-among finished p [] h m = cc
all_finished-among finished p (x ∷ inputs) h m = elim (Bool-cases (x == p)) [
  | inl e ↦ ground (arith, h, e)
  | inr e ↦ ground (arith, all_finished-among finished p inputs, h, m, e)
]

pub count-remove :
    (p x : ℕ) (xs : List ℕ)
    → among p xs ≡ true
    → count x (remove p xs) + (if p == x then 1 else 0) ≡ count x xs
count-remove p x [] h = cc
count-remove p x (y ∷ ys) h = ground (arith, count-remove p x ys)

pub among-count : (p : ℕ) (xs : List ℕ) → among p xs ≡ not (count p xs == 0)
among-count p [] = refl
among-count p (y ∷ ys) = ground (arith, among-count p ys)

pub ready-lookup_node :
    (g : DependencyGraph) (finished : List (ℕ × Bool)) (p : ℕ) {node : Node}
    → lookup_node g.nodes p ≡ some node
    → ready g finished p ≡ all_finished finished node.inputs
unfolding ready is_node inputs_of
ready-lookup_node g finished p e = ground (arith, e)

pub is_node-cases :
    (g : DependencyGraph) (p : ℕ)
    → is_node g p ≡ true
    → (node : Node) × (lookup_node g.nodes p ≡ some node)
unfolding is_node
is_node-cases g p h = elim (Option-cases (lookup_node g.nodes p)) [
  | inl e ↦ ground (arith, e, h)
  | inr f ↦ f
]

pub inputs_of-is_node :
    (g : DependencyGraph) (p x : ℕ) → among p (inputs_of g x) ≡ true → is_node g x ≡ true
unfolding is_node inputs_of
inputs_of-is_node g p x h = elim (Option-cases (lookup_node g.nodes x)) [
  | inl e ↦ ground (arith, e, h)
  | inr (node, e) ↦ ground (arith, e)
]

-- ===== src/Backend/Graph/Effect.antt =====
-- What `finish` does to an iterator.
use zb.Prelude.{
  ℕ, ◌+◌, ◌<◌, Bool, true, false, ◌&&◌, List, [], ◌∷◌, some, ◌≡◌, refl, ◌∙◌, subst, ◌==◌,
  if◌then◌else◌, arith, Bool-cases, List-cases, inl, inr,
}
use zb.Backend.Graph.{
  Node, DependencyGraph, lookup_node, has_key, all_finished, among, Iterator, push_ready,
  close_if_done, finish, decrement, is_idle,
}
use zb.Backend.Graph.Count.{
  count, inputs_of, is_node, ready, IsConsistent, ready-lookup_node, is_node-cases,
  inputs_of-is_node,
}

-- the dependents that are ready are pushed, and nothing else is
pub record Pushed (g : DependencyGraph) (deps : List ℕ) (it it' : Iterator) : Type 0 where
  pub finished : it'.finished ≡ it.finished
  pub pending : it'.pending ≡ it.pending
  pub counts :
      (x : ℕ)
      → count x it'.stack ≡ count x it.stack + (if ready g it.finished x then count x deps else 0)
  pub waits : it'.waiting ≡ true → (it.waiting ≡ true) × (it'.stack ≡ it.stack)

-- one round of the loop
push_one : DependencyGraph → ℕ → Node → Iterator → Iterator
push_one g p node it =
    if all_finished it.finished node.inputs
    then record it { stack = p ∷ it.stack; waiting = false }
    else it

push_one-Pushed :
    (g : DependencyGraph) (p : ℕ) (rest : List ℕ) (node : Node) (it it' : Iterator)
    → lookup_node g.nodes p ≡ some node
    → Pushed g rest (push_one g p node it) it'
    → Pushed g (p ∷ rest) it it'
unfolding push_one
push_one-Pushed g p rest node it it' e r =
    let q = ready-lookup_node g it.finished p e in
    record {
      finished = ground (arith, r.finished);
      pending = ground (arith, r.pending);
      counts = λ x. elim (Bool-cases (p == x)) [
        | inl same ↦
            let eq : p ≡ x = ground arith in
            let q' =
              subst (λ (y : ℕ). ready g it.finished y ≡ all_finished it.finished node.inputs) eq
                q in
            ground (arith, r.counts x, q')
        | inr other ↦ ground (arith, r.counts x)
      ];
      waits = λ w. ground (arith, r.waits);
    }

push_ready-suc :
    (g : DependencyGraph) (p : ℕ) (rest : List ℕ) (node : Node) (it it' : Iterator)
    → lookup_node g.nodes p ≡ some node
    → push_ready g rest (push_one g p node it) ≡ some it'
    → push_ready g (p ∷ rest) it ≡ some it'
unfolding push_ready push_one
push_ready-suc g p rest node it it' e q = ground (arith, e, q)

push_ready-Pushed :
    (g : DependencyGraph) (deps : List ℕ) (it : Iterator)
    → ((x : ℕ) → 0 < count x deps → is_node g x ≡ true)
    → (it' : Iterator) × (push_ready g deps it ≡ some it') × Pushed g deps it it'
push_ready-Pushed g [] it h = (
  it,
  unfold push_ready in refl,
  record { finished = refl; pending = refl; counts = λ x. ground arith; waits = λ w. (w, refl) },
)
push_ready-Pushed g (p ∷ rest) it h =
    let (node, e) = is_node-cases g p (h p (ground arith)) in
    let (it', q, r) =
      push_ready-Pushed g rest (push_one g p node it) (λ x l. h x (ground (arith, l))) in
    (it', push_ready-suc g p rest node it it' e q, push_one-Pushed g p rest node it it' e r)

-- `finish` of a path of the graph that has no entry yet
pub record Finished (g : DependencyGraph) (p : ℕ) (b : Bool) (it it' : Iterator) : Type 0 where
  pub finished : it'.finished ≡ (p, b) ∷ it.finished
  pub pending : it'.pending ≡ decrement it.pending
  pub counts :
      (x : ℕ)
      → count x it'.stack
        ≡ count x it.stack
          + (if b && (among p (inputs_of g x) && ready g ((p, b) ∷ it.finished) x) then 1 else 0)
  pub waits : it'.waiting ≡ true → (it.waiting ≡ true) × (it'.stack ≡ it.stack)
  pub busy : it'.waiting ≡ true → it'.stack ≡ [] → is_idle it'.pending ≡ false

close_if_done-same :
    (it : Iterator)
    → let it' = close_if_done it in
      (it'.finished ≡ it.finished)
      × (it'.pending ≡ it.pending)
      × (it'.stack ≡ it.stack)
      × (it'.waiting ≡ true → it.waiting ≡ true)
      × (it'.waiting ≡ true → it'.stack ≡ [] → is_idle it'.pending ≡ false)
unfolding close_if_done
close_if_done-same it = elim (List-cases it.stack) [
  | inl e ↦ ground (arith, e)
  | inr (q, stack, e) ↦ ground (arith, e)
]

module _ (g : DependencyGraph) (p : ℕ) (it : Iterator) (node : Node)
    (e : lookup_node g.nodes p ≡ some node) (k : has_key it.finished p ≡ false) where
  -- the iterator before the dependents are looked at
  marked : Bool → Iterator
  marked b = record it { finished = (p, b) ∷ it.finished; pending = decrement it.pending }

  finish-true :
      (it2 : Iterator)
      → push_ready g node.dependents (marked true) ≡ some it2
      → finish g p true it ≡ some (close_if_done it2)
  unfolding finish marked
  finish-true it2 q = ground (arith, e, k, q)

  finish-false : finish g p false it ≡ some (close_if_done (marked false))
  unfolding finish marked
  finish-false = ground (arith, e, k)

  Finished-false : Finished g p false it (close_if_done (marked false))
  unfolding marked
  Finished-false =
      let (f, n, s, w, i) = close_if_done-same (marked false) in
      record {
        finished = f;
        pending = n;
        counts = λ x. ground (arith, s);
        waits = λ l. (w l, s);
        busy = i;
      }

  Finished-true :
      (it2 : Iterator)
      → IsConsistent g
      → Pushed g node.dependents (marked true) it2
      → Finished g p true it (close_if_done it2)
  unfolding marked
  Finished-true it2 v r =
      let (f, n, s, w, i) = close_if_done-same it2 in
      record {
        finished = f ∙ r.finished;
        pending = n ∙ r.pending;
        counts = λ x. ground (arith, s, r.counts x, v.dependents p x node e);
        waits = λ l. (let (w', s') = r.waits (w l) in (w', s ∙ s'));
        busy = i;
      }

  dependents-is_node : IsConsistent g → (x : ℕ) → 0 < count x node.dependents → is_node g x ≡ true
  dependents-is_node v x l = inputs_of-is_node g p x (ground (arith, v.dependents p x node e, l))

pub finish-Finished :
    (g : DependencyGraph) (p : ℕ) (b : Bool) (it : Iterator)
    → IsConsistent g
    → is_node g p ≡ true
    → has_key it.finished p ≡ false
    → (it' : Iterator) × (finish g p b it ≡ some it') × Finished g p b it it'
finish-Finished g p false it v h k =
    let (node, e) = is_node-cases g p h in
    (_, finish-false g p it node e k, Finished-false g p it node e k)
finish-Finished g p true it v h k =
    let (node, e) = is_node-cases g p h in
    let (it2, q, r) =
      push_ready-Pushed g node.dependents (marked g p it node e k true)
        (dependents-is_node g p it node e k v) in
    (_, finish-true g p it node e k it2 q, Finished-true g p it node e k it2 v r)

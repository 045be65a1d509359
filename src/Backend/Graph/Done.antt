-- ===== src/Backend/Graph/Done.antt =====
-- Which derivations are finished when the iteration ends.
use zb.Prelude.{
  ℕ, zero, suc, ◌<◌, Bool, true, List, [], ◌∷◌, ◌≡◌, refl, arith, List-cases, inl, inr, length,
}
use zb.Backend.Graph.{
  DependencyGraph, is_finished, has_key, all_finished, among, Iterator, is_idle, next, ended,
  System, Reach,
}
use zb.Backend.Graph.Count.{count, inputs_of, is_node, ready, IsConsistent, has_key-count}
use zb.Backend.Graph.Order.{IsOrdered, Reach-IsOrdered}

-- every finished path lets its dependents go on
abbrev pub AllProcessed : List (ℕ × Bool) → Type 0
AllProcessed [] = Unit
AllProcessed ((p, b) ∷ finished) = (b ≡ true) × AllProcessed finished

next-ended : (it : Iterator) → next it ≡ ended → (it.stack ≡ []) × (is_idle it.pending ≡ true)
unfolding next
next-ended it e = elim (List-cases it.stack) [
  | inl q ↦ ground (arith, e, q)
  | inr (y, stack, q) ↦ ground (arith, e, q)
]

is_finished-has_key :
    (finished : List (ℕ × Bool)) (x : ℕ)
    → AllProcessed finished
    → is_finished finished x ≡ has_key finished x
unfolding is_finished has_key
is_finished-has_key [] x a = refl
is_finished-has_key ((p, b) ∷ finished) x a = ground (arith, is_finished-has_key finished x, a)

all_finished-each :
    (finished : List (ℕ × Bool)) (inputs : List ℕ)
    → ((q : ℕ) → among q inputs ≡ true → is_finished finished q ≡ true)
    → all_finished finished inputs ≡ true
unfolding all_finished
all_finished-each finished [] h = refl
all_finished-each finished (x ∷ inputs) h =
    let here : is_finished finished x ≡ true = h x (ground arith) in
    let rest = all_finished-each finished inputs (λ q m. h q (ground (arith, m))) in
    ground (arith, here, rest)

finished_below :
    (g : DependencyGraph) (rank : ℕ → ℕ) (s : System)
    → ((p x : ℕ) → among p (inputs_of g x) ≡ true → rank p < rank x)
    → IsConsistent g
    → IsOrdered g s
    → AllProcessed s.it.finished
    → s.it.stack ≡ []
    → length s.working ≡ 0
    → (n x : ℕ) → rank x < n
    → is_node g x ≡ true
    → is_finished s.it.finished x ≡ true
finished_below g rank s acyclic c v a st w zero x l nd = elim l [ ]
finished_below g rank s acyclic c v a st w (suc n) x l nd =
    let inputs = all_finished-each s.it.finished (inputs_of g x) (λ q m.
      finished_below g rank s acyclic c v a st w n q (omega (arith, acyclic q x m, l))
        (c.inputs q x m)) in
    conclude inputs
  where
    conclude :
        all_finished s.it.finished (inputs_of g x) ≡ true → is_finished s.it.finished x ≡ true
    conclude all =
        let rd : ready g s.it.finished x ≡ true = (unfold ready in ground (arith, nd, all)) in
        let none_working : count x s.working ≡ 0 = elim (List-cases s.working) [
          | inl e ↦ ground (arith, e)
          | inr (y, ys, e) ↦ ground (arith, e, w)
        ] in
        let k = has_key-count s.it.finished x in
        let f = is_finished-has_key s.it.finished x a in
        ground (arith, v.exact x, rd, none_working, st, k, f)

-- The inputs of derivations have no cycle, as some rank of the paths says, and every `finish` so
-- far has let the dependents go on: when `next` reports the end in a state that the goroutines
-- reach with a consistent graph, every derivation of the graph is finished.
pub next-ended_all :
    (g : DependencyGraph) (rank : ℕ → ℕ)
    → IsConsistent g
    → ((p x : ℕ) → among p (inputs_of g x) ≡ true → rank p < rank x)
    → {s : System} → Reach g s
    → AllProcessed s.it.finished
    → next s.it ≡ ended
    → (x : ℕ) → is_node g x ≡ true
    → is_finished s.it.finished x ≡ true
next-ended_all g rank c acyclic {s = s} r a e x nd =
    let v = Reach-IsOrdered g c r in
    let (st, i) = next-ended s.it e in
    let w : length s.working ≡ 0 = ground (arith, i, v.pending) in
    finished_below g rank s acyclic c v a st w (suc (rank x)) x (omega arith) nd

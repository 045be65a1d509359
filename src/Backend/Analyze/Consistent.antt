-- ===== src/Backend/Analyze/Consistent.antt =====
-- The graph that `analyze` makes.
use zb.Prelude.{
  ℕ, ◌<◌, true, false, ◌&&◌, ◌||◌, List, [], ◌∷◌, Option, some, ◌≡◌, refl, ◌∙◌, ap, subst,
  if◌then◌else◌, arith, Option-cases, List-cases, inl, inr,
}
use zb.Backend.Graph.{Node, lookup_node, among}
use zb.Backend.Graph.Count.{count, is_node, is_nil, inputs_of, IsConsistent}
use zb.Backend.Analyze.{
  Drv, lookup_drv, keys, inputs_of_drv, set_add, get, Analysis, is_hashed, visit, goes_on, graph,
}
use zb.Backend.Analyze.Rounds.{RoundOf, skips, visits}
use zb.Backend.Analyze.Lookup.{
  has_node, dependents_of, on_stack, all_named, count-set_add, inputs_at, HasInputs, get-HasInputs,
  get-has_node, get-dependents_of, add_inputs-Linked, add_inputs-stack,
}

module _ (derivations : List (ℕ × Drv)) where
  -- every input of a derivation is named with one output at least
  abbrev pub AllNamed : Type 0
  AllNamed = (p : ℕ) (drv : Drv) → lookup_drv derivations p ≡ some drv → all_named drv.inputs ≡ true

  -- What holds between the rounds of `analyze`.
  pub record IsAnalysis (a : Analysis) : Type 0 where
    pub inputs : HasInputs derivations a.nodes
    pub roots :
        (x : ℕ)
        → count x a.roots
          ≡ (if is_hashed a.drv_hashes x && is_nil (inputs_at derivations x) then 1 else 0)
    pub visited : (x : ℕ) → is_hashed a.drv_hashes x ≡ true → has_node a.nodes x ≡ true
    pub to_visit :
        (x : ℕ)
        → has_node a.nodes x ≡ true
        → (is_hashed a.drv_hashes x || on_stack a.stack x) ≡ true
    pub dependents :
        (p x : ℕ)
        → count x (dependents_of a.nodes p)
          ≡ (if is_hashed a.drv_hashes x && among p (inputs_at derivations x) then 1 else 0)

  pub start-IsAnalysis :
      (want : List (ℕ × ℕ))
      → IsAnalysis (record { nodes = []; roots = []; drv_hashes = []; used = []; stack = want })
  unfolding HasInputs is_hashed has_node dependents_of lookup_node
  start-IsAnalysis want = record {
    inputs = λ x n e. ground (arith);
    roots = λ x. refl;
    visited = λ x e. ground (arith);
    to_visit = λ x e. ground (arith);
    dependents = λ p x. refl;
  }

  skip-IsAnalysis :
      (a : Analysis) (p name : ℕ) (stack : List (ℕ × ℕ))
      → a.stack ≡ (p, name) ∷ stack
      → is_hashed a.drv_hashes p ≡ true
      → IsAnalysis a
      → IsAnalysis (record a { stack = stack })
  unfolding on_stack
  skip-IsAnalysis a p name stack e h v = record {
    inputs = v.inputs;
    roots = v.roots;
    visited = v.visited;
    to_visit = λ x n. ground (arith, v.to_visit x n, e, h);
    dependents = v.dependents;
  }

  visit_roots :
      (a : Analysis) (path name : ℕ) (drv : Drv) (h : ℕ) (x : ℕ)
      → count x (visit derivations path name drv h a).roots
        ≡ (if is_nil (keys drv.inputs) then count x (set_add a.roots path) else count x a.roots)
  unfolding visit is_nil keys
  visit_roots a path name drv h x = elim (List-cases drv.inputs) [
    | inl e ↦ ground (arith, e)
    | inr (i, rest, e) ↦ ground (arith, e)
  ]

  visit-IsAnalysis :
      (a : Analysis) (p name : ℕ) (stack : List (ℕ × ℕ)) (drv : Drv) (h : ℕ)
      → AllNamed
      → a.stack ≡ (p, name) ∷ stack
      → is_hashed a.drv_hashes p ≡ false
      → lookup_drv derivations p ≡ some drv
      → IsAnalysis a
      → IsAnalysis (visit derivations p name drv h (record a { stack = stack }))
  unfolding visit is_hashed on_stack inputs_of_drv
  visit-IsAnalysis a p name stack drv h n e f d v =
      let opened = get a.nodes p (some drv) in
      let w = add_inputs-Linked derivations drv.inputs p opened stack in
      let g : get a.nodes p (lookup_drv derivations p) ≡ opened = ap (get a.nodes p) d in
      record {
        inputs =
            w.inputs
              (subst (HasInputs derivations) g (get-HasInputs derivations a.nodes p v.inputs));
        roots = λ x.
            (let r = count-set_add a.roots p x in
              ground (
                arith,
                visit_roots (record a { stack = stack }) p name drv h x,
                r,
                v.roots x,
                f,
                d,
              ));
        visited = λ x k.
            ground (arith, w.node x, get-has_node derivations a.nodes p (some drv) x, v.visited x);
        to_visit = λ x k.
            (let s = add_inputs-stack derivations drv.inputs p opened stack x (n p drv d) in
              ground (
                arith,
                w.node x,
                get-has_node derivations a.nodes p (some drv) x,
                v.to_visit x,
                s,
                e,
              ));
        dependents = λ q x. ground (
          arith,
          w.dependents q x,
          get-dependents_of derivations a.nodes p (some drv) q,
          v.dependents q x,
          d,
          f,
        );
      }

  module _ (pseudo_hash_drv : Drv → Option ℕ) (named : AllNamed) where
    pub round-IsAnalysis :
        (a b : Analysis)
        → IsAnalysis a
        → RoundOf pseudo_hash_drv derivations a (goes_on b)
        → IsAnalysis b
    round-IsAnalysis a b v (skips p name stack e f) = skip-IsAnalysis a p name stack e f v
    round-IsAnalysis a b v (visits p name stack drv h e f d q) =
        visit-IsAnalysis a p name stack drv h named e f d v

    has_node-is_node : (a : Analysis) (x : ℕ) → is_node (graph a) x ≡ has_node a.nodes x
    unfolding is_node has_node
    has_node-is_node a x = refl

    has_node-hashed :
        (a : Analysis)
        → IsAnalysis a
        → a.stack ≡ []
        → (x : ℕ) → has_node a.nodes x ≡ is_hashed a.drv_hashes x
    unfolding on_stack
    has_node-hashed a v e x = ground (arith, v.visited x, v.to_visit x, e)

    -- In the end a node is what has been visited.
    pub is_node-hashed :
        (a : Analysis)
        → IsAnalysis a
        → a.stack ≡ []
        → (x : ℕ) → is_node (graph a) x ≡ is_hashed a.drv_hashes x
    is_node-hashed a v e x = has_node-is_node a x ∙ has_node-hashed a v e x

    pub inputs_of-graph :
        (a : Analysis)
        → IsAnalysis a
        → (x : ℕ)
        → inputs_of (graph a) x ≡ (if is_node (graph a) x then inputs_at derivations x else [])
    unfolding is_node inputs_of HasInputs
    inputs_of-graph a v x = elim (Option-cases (lookup_node a.nodes x)) [
      | inl e ↦ rw (e, inputs_of, is_node) refl
      | inr (node, e) ↦ rw (e, inputs_of, is_node) (v.inputs x node e)
    ]

    dependents_of_node :
        (nodes : List (ℕ × Node)) (p : ℕ) (n : Node)
        → lookup_node nodes p ≡ some n
        → dependents_of nodes p ≡ n.dependents
    unfolding dependents_of
    dependents_of_node nodes p n e = rw (e, dependents_of) refl

    dependents-node :
        (nodes : List (ℕ × Node)) (p x : ℕ)
        → 0 < count x (dependents_of nodes p)
        → has_node nodes p ≡ true
    unfolding dependents_of has_node
    dependents-node nodes p x h = elim (Option-cases (lookup_node nodes p)) [
      | inl e ↦ ground (arith, e, h)
      | inr (node, e) ↦ rw (e, has_node) refl
    ]

    graph-inputs :
        (a : Analysis)
        → IsAnalysis a
        → a.stack ≡ []
        → (p x : ℕ) → among p (inputs_of (graph a) x) ≡ true
        → is_node (graph a) p ≡ true
    graph-inputs a v e p x m =
        let i = inputs_of-graph a v x in
        let h = is_node-hashed a v e x in
        let c : 0 < count x (dependents_of a.nodes p) = ground (arith, v.dependents p x, m, i, h) in
        has_node-is_node a p ∙ dependents-node a.nodes p x c

    pub graph-IsConsistent : (a : Analysis) → IsAnalysis a → a.stack ≡ [] → IsConsistent (graph a)
    graph-IsConsistent a v e = record {
      roots = λ x. ground (arith, v.roots x, is_node-hashed a v e x, inputs_of-graph a v x);
      inputs = λ p x m. graph-inputs a v e p x m;
      dependents = λ p x n f. ground (
        arith,
        v.dependents p x,
        dependents_of_node a.nodes p n f,
        is_node-hashed a v e x,
        inputs_of-graph a v x,
      );
    }

-- ===== src/Backend/Analyze/Lookup.antt =====
-- What the maps and the stack of `analyze` hold after each of its operations.
use zb.Prelude.{
  ℕ, Bool, true, false, not, ◌&&◌, ◌||◌, List, [], ◌∷◌, Option, none, some, ◌≡◌, refl, ◌==◌,
  if◌then◌else◌, arith, Option-cases, inl, inr,
}
use zb.Backend.Graph.{Node, lookup_node, among}
use zb.Backend.Graph.Count.{count, among-count}
use zb.Backend.Analyze.{
  Drv, lookup_drv, keys, inputs_of_drv, set_add, put_node, get_node, get, push_refs, add_dependent,
  add_inputs,
}

unfoldable pub has_node : List (ℕ × Node) → ℕ → Bool
has_node nodes x = elim (lookup_node nodes x) [ none ↦ false | some node ↦ true ]

unfoldable pub dependents_of : List (ℕ × Node) → ℕ → List ℕ
dependents_of nodes x = elim (lookup_node nodes x) [ none ↦ [] | some node ↦ node.dependents ]

unfoldable pub on_stack : List (ℕ × ℕ) → ℕ → Bool
on_stack [] x = false
on_stack ((p, name) ∷ stack) x = p == x || on_stack stack x

abbrev at_least_one : ℕ → ℕ
at_least_one n = if n == 0 then 1 else n

abbrev is_nil : List ℕ → Bool
is_nil [] = true
is_nil (x ∷ xs) = false

-- every input is named with one output at least
abbrev pub all_named : List (ℕ × List ℕ) → Bool
all_named [] = true
all_named ((p, names) ∷ inputs) = not (is_nil names) && all_named inputs

pub count-set_add :
    (xs : List ℕ) (y x : ℕ)
    → count x (set_add xs y) ≡ (if y == x then at_least_one (count x xs) else count x xs)
unfolding set_add
count-set_add xs y x = ground (arith, among-count y xs, among-count x xs)

lookup_node-put_node :
    (nodes : List (ℕ × Node)) (p : ℕ) (node : Node) (x : ℕ)
    → lookup_node (put_node nodes p node) x ≡ (if p == x then some node else lookup_node nodes x)
unfolding lookup_node put_node
lookup_node-put_node [] p node x = refl
lookup_node-put_node ((q, n) ∷ nodes) p node x =
    let e = lookup_node-put_node nodes p node x in ground (arith, e)

on_stack-push_refs :
    (p : ℕ) (names : List ℕ) (stack : List (ℕ × ℕ)) (x : ℕ)
    → on_stack (push_refs p names stack) x ≡ (not (is_nil names) && p == x || on_stack stack x)
unfolding on_stack push_refs
on_stack-push_refs p [] stack x = refl
on_stack-push_refs p (name ∷ names) stack x =
    let e = on_stack-push_refs p names ((p, name) ∷ stack) x in ground (arith, e)

module _ (derivations : List (ℕ × Drv)) where
  abbrev pub inputs_at : ℕ → List ℕ
  inputs_at x = inputs_of_drv (lookup_drv derivations x)

  -- every node has the inputs of the derivation at its path
  unfoldable pub HasInputs : List (ℕ × Node) → Type 0
  HasInputs nodes =
      (x : ℕ) (node : Node) → lookup_node nodes x ≡ some node → node.inputs ≡ inputs_at x

  -- `path` is made a dependent of each of `ps`
  pub record Linked (nodes nodes' : List (ℕ × Node)) (ps : List ℕ) (path : ℕ) : Type 0 where
    pub inputs : HasInputs nodes → HasInputs nodes'
    pub node : (x : ℕ) → has_node nodes' x ≡ (among x ps || has_node nodes x)
    pub dependents :
        (p x : ℕ)
        → count x (dependents_of nodes' p) ≡ (
            if among p ps && path == x
            then at_least_one (count x (dependents_of nodes p))
            else count x (dependents_of nodes p))

  pub get-HasInputs :
      (nodes : List (ℕ × Node)) (p : ℕ)
      → HasInputs nodes
      → HasInputs (get nodes p (lookup_drv derivations p))
  unfolding HasInputs get get_node
  get-HasInputs nodes p h x node e =
      let l = lookup_node-put_node nodes p (get_node nodes p (lookup_drv derivations p)) x in
      elim (Option-cases (lookup_node nodes p)) [
        | inl f ↦ ground (arith, e, f, l, h x node)
        | inr (n, f) ↦ ground (arith, e, f, l, h x node, h p n f)
      ]

  pub get-has_node :
      (nodes : List (ℕ × Node)) (p : ℕ) (d : Option Drv) (x : ℕ)
      → has_node (get nodes p d) x ≡ (p == x || has_node nodes x)
  unfolding get has_node
  get-has_node nodes p d x =
      let l = lookup_node-put_node nodes p (get_node nodes p d) x in ground (arith, l)

  pub get-dependents_of :
      (nodes : List (ℕ × Node)) (p : ℕ) (d : Option Drv) (x : ℕ)
      → dependents_of (get nodes p d) x ≡ dependents_of nodes x
  unfolding get get_node dependents_of
  get-dependents_of nodes p d x =
      let l = lookup_node-put_node nodes p (get_node nodes p d) x in
      elim (Option-cases (lookup_node nodes p)) [
        | inl f ↦ ground (arith, f, l)
        | inr (n, f) ↦ ground (arith, f, l)
      ]

  add_dependent-Linked :
      (nodes : List (ℕ × Node)) (p path : ℕ)
      → Linked nodes (add_dependent derivations nodes p path) (p ∷ []) path
  unfolding HasInputs add_dependent get_node has_node dependents_of
  add_dependent-Linked nodes p path =
      let node = get_node nodes p (lookup_drv derivations p) in
      let linked : Node = record node { dependents = set_add node.dependents path } in
      record {
        inputs = λ h x n e.
            (let l = lookup_node-put_node nodes p linked x in
              elim (Option-cases (lookup_node nodes p)) [
                | inl f ↦ ground (arith, e, f, l, h x n)
                | inr (m, f) ↦ ground (arith, e, f, l, h x n, h p m f)
              ]);
        node = λ x. (let l = lookup_node-put_node nodes p linked x in ground (arith, l));
        dependents = λ q x.
            (let l = lookup_node-put_node nodes p linked q in
              elim (Option-cases (lookup_node nodes p)) [
                | inl f ↦ ground (arith, f, l, count-set_add [] path x)
                | inr (m, f) ↦ ground (arith, f, l, count-set_add m.dependents path x)
              ]);
      }

  -- The loop over the inputs of a derivation.
  pub add_inputs-Linked :
      (inputs : List (ℕ × List ℕ)) (path : ℕ) (nodes : List (ℕ × Node)) (stack : List (ℕ × ℕ))
      → Linked nodes (add_inputs derivations inputs path nodes stack).0 (keys inputs) path
  add_inputs-Linked [] path nodes stack =
      unfold add_inputs keys in
      record { inputs = λ h. h; node = λ x. refl; dependents = λ p x. refl }
  add_inputs-Linked ((p, names) ∷ inputs) path nodes stack =
      both (add_dependent-Linked nodes p path) (
        add_inputs-Linked inputs path (add_dependent derivations nodes p path)
          (push_refs p names stack))
    where
      both :
          Linked nodes (add_dependent derivations nodes p path) (p ∷ []) path
          → Linked
              (add_dependent derivations nodes p path)
              (add_inputs derivations inputs path
                (add_dependent derivations nodes p path)
                (push_refs p names stack)).0
              (keys inputs)
              path
          → Linked nodes
              (add_inputs derivations ((p, names) ∷ inputs) path nodes stack).0
              (keys ((p, names) ∷ inputs))
              path
      both v w =
          unfold add_inputs keys in
          record {
            inputs = λ h. w.inputs (v.inputs h);
            node = λ x. ground (arith, v.node x, w.node x);
            dependents = λ q x. ground (arith, v.dependents q x, w.dependents q x);
          }

  pub add_inputs-stack :
      (inputs : List (ℕ × List ℕ)) (path : ℕ) (nodes : List (ℕ × Node)) (stack : List (ℕ × ℕ))
      (x : ℕ)
      → all_named inputs ≡ true
      → on_stack (add_inputs derivations inputs path nodes stack).1 x
        ≡ (among x (keys inputs) || on_stack stack x)
  unfolding add_inputs keys
  add_inputs-stack [] path nodes stack x h = refl
  add_inputs-stack ((p, names) ∷ inputs) path nodes stack x h =
      let e =
        add_inputs-stack inputs path (add_dependent derivations nodes p path)
          (push_refs p names stack) x in
      let f = on_stack-push_refs p names stack x in ground (arith, e, f, h)

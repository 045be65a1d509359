-- ===== src/Backend/Graph/Dependents.antt =====
-- `transitiveDependents`, whose `yield` asks for all paths: the list of what it yields, `none`
-- where the fuel does not do.
use zb.Prelude.{
  ℕ, zero, suc, ◌<◌, true, ◌||◌, List, [], ◌∷◌, ◌++◌, Option, none, some, ◌≡◌, refl, ◌∙◌, ap, arith,
  ◌==◌, ◌↔◌, Bool-cases, Option-cases, inl, inr,
}
use zb.Backend.Graph.{DependencyGraph, lookup_node, among}

module _ (g : DependencyGraph) where
  -- `next = node.dependents` where there is a node
  unfoldable pub dependents_at : ℕ → List ℕ
  unfolding lookup_node
  dependents_at path = elim (lookup_node g.nodes path) [ none ↦ [] | some node ↦ node.dependents ]

  unfoldable pub transitive_dependents : ℕ → List ℕ → Option (List ℕ)
  unfolding dependents_at
  transitive_dependents fuel [] = some []
  transitive_dependents zero (curr ∷ paths) = none
  transitive_dependents (suc fuel) (curr ∷ paths) =
      elim (transitive_dependents fuel (dependents_at curr ++ paths)) [
        | none ↦ none
        | some yielded ↦ some (curr ∷ yielded)
      ]

  -- some fuel is enough
  abbrev pub Ends : List ℕ → Type 0
  Ends paths = (fuel : ℕ) × (yielded : List ℕ) × (transitive_dependents fuel paths ≡ some yielded)

  Ends-cons : (path : ℕ) (paths : List ℕ) → Ends (dependents_at path ++ paths) → Ends (path ∷ paths)
  unfolding transitive_dependents
  Ends-cons path paths (fuel, yielded, e) = (suc fuel, path ∷ yielded, ground (arith, e))

  module _ (rank : ℕ → ℕ)
      (acyclic : (p d : ℕ) → among d (dependents_at p) ≡ true → rank d < rank p) where
    all-Ends :
        (n : ℕ)
        → ((path : ℕ) (paths : List ℕ) → rank path < n → Ends paths → Ends (path ∷ paths))
        → (ds paths : List ℕ) → ((d : ℕ) → among d ds ≡ true → rank d < n)
        → Ends paths
        → Ends (ds ++ paths)
    all-Ends n step [] paths h v = v
    all-Ends n step (d ∷ ds) paths h v =
        step d (ds ++ paths) (h d (ground (arith)))
          (all-Ends n step ds paths (λ x m. h x (ground (arith, m))) v)

    path-Ends : (n path : ℕ) (paths : List ℕ) → rank path < n → Ends paths → Ends (path ∷ paths)
    path-Ends zero path paths h v = elim h [ ]
    path-Ends (suc n) path paths h v = Ends-cons path paths (
        all-Ends n (path-Ends n) (dependents_at path) paths
          (λ d m. omega (arith, acyclic path d m, h)) v)

    pub transitive_dependents-Ends : (paths : List ℕ) → Ends paths
    transitive_dependents-Ends [] = (0, [], unfold transitive_dependents in refl)
    transitive_dependents-Ends (path ∷ paths) =
        path-Ends (suc (rank path)) path paths (omega arith) (transitive_dependents-Ends paths)

  -- a path given, or a dependent of one that is reached
  pub data Dependent (paths : List ℕ) : ℕ → Type 0 where
    given : (p : ℕ) → among p paths ≡ true → Dependent paths p
    dependent : (p d : ℕ) → Dependent paths p → among d (dependents_at p) ≡ true → Dependent paths d

  unroll :
      (fuel curr : ℕ) (paths ys : List ℕ)
      → transitive_dependents (suc fuel) (curr ∷ paths) ≡ some ys
      → (yielded : List ℕ) × (transitive_dependents fuel (dependents_at curr ++ paths)
          ≡ some yielded)
        × (ys ≡ curr ∷ yielded)
  unfolding transitive_dependents
  unroll fuel curr paths ys e =
      elim (Option-cases (transitive_dependents fuel (dependents_at curr ++ paths))) [
        | inl f ↦ absurd (ground (arith, e, f))
        | inr (yielded, f) ↦ (yielded, f, ground (arith, e, f))
      ]

  among-append : (x : ℕ) (xs ys : List ℕ) → among x (xs ++ ys) ≡ (among x xs || among x ys)
  among-append x [] ys = refl
  among-append x (y ∷ xs) ys = let e = among-append x xs ys in ground (arith, e)

  no_paths : (fuel : ℕ) (ys : List ℕ) → transitive_dependents fuel [] ≡ some ys → ys ≡ []
  unfolding transitive_dependents
  no_paths fuel ys e = ground (arith, e)

  no_fuel : (curr : ℕ) (paths ys : List ℕ) → transitive_dependents zero (curr ∷ paths) ≡ some ys → ⊥
  unfolding transitive_dependents
  no_fuel curr paths ys e = ground (arith, e)

  yields_given :
      (fuel : ℕ) (paths ys : List ℕ)
      → transitive_dependents fuel paths ≡ some ys
      → (p : ℕ) → among p paths ≡ true
      → among p ys ≡ true
  yields_given fuel [] ys e p m = ground (arith)
  yields_given zero (curr ∷ paths) ys e p m = absurd (no_fuel curr paths ys e)
  yields_given (suc fuel) (curr ∷ paths) ys e p m =
      let (yielded, f, g) = unroll fuel curr paths ys e in
      let ih = yields_given fuel (dependents_at curr ++ paths) yielded f p in
      let a = among-append p (dependents_at curr) paths in ground (arith, g, ih, a, m)

  yields_closed :
      (fuel : ℕ) (paths ys : List ℕ)
      → transitive_dependents fuel paths ≡ some ys
      → (p d : ℕ) → among p ys ≡ true
      → among d (dependents_at p) ≡ true
      → among d ys ≡ true
  yields_closed fuel [] ys e p d m k = let f = no_paths fuel ys e in ground (arith, f, m)
  yields_closed zero (curr ∷ paths) ys e p d m k = absurd (no_fuel curr paths ys e)
  yields_closed (suc fuel) (curr ∷ paths) ys e p d m k =
      let (yielded, f, g) = unroll fuel curr paths ys e in
      let ih = yields_closed fuel (dependents_at curr ++ paths) yielded f p d in
      let b = yields_given fuel (dependents_at curr ++ paths) yielded f d in
      let a = among-append d (dependents_at curr) paths in
      elim (Bool-cases (curr == p)) [
        | inl q ↦
            let r : among d (dependents_at curr) ≡ true =
              ap (λ (x : ℕ). among d (dependents_at x)) (ground (arith, q)) ∙ k in
            ground (arith, g, a, b, r)
        | inr q ↦ ground (arith, g, ih, m, k, q)
      ]

  Dependent-cons :
      (curr : ℕ) (paths : List ℕ) {x : ℕ}
      → Dependent (dependents_at curr ++ paths) x
      → Dependent (curr ∷ paths) x
  Dependent-cons curr paths (given p m) = elim (Bool-cases (among p (dependents_at curr))) [
    | inl h ↦ dependent curr p (given curr (ground (arith))) h
    | inr h ↦ let a = among-append p (dependents_at curr) paths in given p (ground (arith, a, h, m))
  ]
  Dependent-cons curr paths (dependent p d h m) = dependent p d (Dependent-cons curr paths h) m

  yields_sound :
      (fuel : ℕ) (paths ys : List ℕ)
      → transitive_dependents fuel paths ≡ some ys
      → (x : ℕ) → among x ys ≡ true
      → Dependent paths x
  yields_sound fuel [] ys e x m = let f = no_paths fuel ys e in absurd (ground (arith, f, m))
  yields_sound zero (curr ∷ paths) ys e x m = absurd (no_fuel curr paths ys e)
  yields_sound (suc fuel) (curr ∷ paths) ys e x m =
      let (yielded, f, g) = unroll fuel curr paths ys e in
      elim (Bool-cases (curr == x)) [
        | inl q ↦ given x (ground (arith, q))
        | inr q ↦
            Dependent-cons curr paths (
              yields_sound fuel (dependents_at curr ++ paths) yielded f x (ground (arith, g, m, q)))
      ]

  yields_all :
      (paths ys : List ℕ)
      → ((p : ℕ) → among p paths ≡ true → among p ys ≡ true)
      → ((p d : ℕ) → among p ys ≡ true → among d (dependents_at p) ≡ true → among d ys ≡ true)
      → {x : ℕ} → Dependent paths x
      → among x ys ≡ true
  yields_all paths ys h k (given p m) = h p m
  yields_all paths ys h k (dependent p d r m) = k p d (yields_all paths ys h k r) m

  -- Where the dependents have no cycle, as some rank of the paths says: the loop of
  -- `transitiveDependents` ends, and what it yields are the paths given and, again and again, their
  -- dependents.
  pub transitive_dependents-Dependent :
      (rank : ℕ → ℕ)
      → ((p d : ℕ) → among d (dependents_at p) ≡ true → rank d < rank p)
      → (paths : List ℕ)
      → (fuel : ℕ) × (ys : List ℕ) × (transitive_dependents fuel paths ≡ some ys)
        × ((x : ℕ) → (among x ys ≡ true) ↔ Dependent paths x)
  transitive_dependents-Dependent rank acyclic paths =
      let (fuel, ys, e) = transitive_dependents-Ends rank acyclic paths in
      (
        fuel,
        ys,
        e,
        λ x. (
          λ m. yields_sound fuel paths ys e x m,
          λ r. yields_all paths ys (yields_given fuel paths ys e) (yields_closed fuel paths ys e) r,
        ),
      )

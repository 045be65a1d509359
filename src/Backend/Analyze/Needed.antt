-- ===== src/Backend/Analyze/Needed.antt =====
-- `analyze` against the derivations that the wanted outputs need, as a relation.
use zb.Prelude.{
  ℕ, ◌+◌, ◌<◌, Bool, true, ◌||◌, List, [], ◌∷◌, Option, none, some, ◌≡◌, ◌≢◌, refl, sym, ◌∙◌, subst,
  ◌==◌, if◌then◌else◌, arith, Bool-cases, inl, inr, length, ◌↔◌,
}
use zb.Backend.Graph.{among, is_finished, next, ended, System, Reach}
use zb.Backend.Graph.Count.{is_node, inputs_of, IsConsistent}
use zb.Backend.Graph.Done.{AllProcessed, next-ended_all}
use zb.Backend.Analyze.{
  Drv, lookup_drv, inputs_of_drv, get, Analysis, is_hashed, visit, goes_on, Analyzed, analyzed,
  unknown, failed, out_of_fuel, analyze, count_refs, graph,
}
use zb.Backend.Analyze.Rounds.{RoundOf, skips, visits, Ends, rounds-Ends}
use zb.Backend.Analyze.Fuel.{analyze_terminates}
use zb.Backend.Analyze.Lookup.{on_stack, inputs_at, add_inputs-stack}
use zb.Backend.Analyze.Consistent.{
  AllNamed, IsAnalysis, start-IsAnalysis, round-IsAnalysis, is_node-hashed, graph-IsConsistent,
  inputs_of-graph,
}

module _ (pseudo_hash_drv : Drv → Option ℕ) (derivations : List (ℕ × Drv))
    (want : List (ℕ × ℕ)) where
  -- A derivation with a wanted output, and an input of a derivation that is needed.
  pub data Needed : ℕ → Type 0 where
    wanted : (p : ℕ) → on_stack want p ≡ true → Needed p
    input_of : (p x : ℕ) → Needed x → among p (inputs_at derivations x) ≡ true → Needed p

  -- what the caller of `analyze` may rely on
  abbrev pub Explained : Analyzed → Type 0
  Explained (analyzed a) =
      IsConsistent (graph a) × ((x : ℕ) → (is_node (graph a) x ≡ true) ↔ Needed x)
  Explained (unknown p) = Needed p × (lookup_drv derivations p ≡ none)
  Explained (failed p) =
      Needed p
      × ((drv : Drv) × (lookup_drv derivations p ≡ some drv) × (pseudo_hash_drv drv ≡ none))
  Explained out_of_fuel = ⊥

  abbrev seen : Analysis → ℕ → Bool
  seen a x = is_hashed a.drv_hashes x || on_stack a.stack x

  record IsSearch (a : Analysis) : Type 0 where
    analysis : IsAnalysis derivations a
    needed : (x : ℕ) → seen a x ≡ true → Needed x
    wanted : (x : ℕ) → on_stack want x ≡ true → seen a x ≡ true
    closed :
        (p x : ℕ)
        → is_hashed a.drv_hashes x ≡ true
        → among p (inputs_at derivations x) ≡ true
        → seen a p ≡ true

  start-IsSearch :
      IsSearch (record { nodes = []; roots = []; drv_hashes = []; used = []; stack = want })
  unfolding is_hashed
  start-IsSearch = record {
    analysis = start-IsAnalysis derivations want;
    needed = λ x e. wanted x e;
    wanted = λ x e. e;
    closed = λ p x e m. ground (arith);
  }

  module _ (named : AllNamed derivations) where
    skip_seen :
        (a : Analysis) (p name : ℕ) (stack : List (ℕ × ℕ)) (x : ℕ)
        → a.stack ≡ (p, name) ∷ stack
        → is_hashed a.drv_hashes p ≡ true
        → seen (record a { stack = stack }) x ≡ seen a x
    unfolding on_stack
    skip_seen a p name stack x e h = ground (arith, e, h)

    seen-visit :
        (a : Analysis) (p name : ℕ) (stack : List (ℕ × ℕ)) (drv : Drv) (h : ℕ) (x : ℕ)
        → a.stack ≡ (p, name) ∷ stack
        → lookup_drv derivations p ≡ some drv
        → seen (visit derivations p name drv h (record a { stack = stack })) x
          ≡ (among x (inputs_at derivations p) || seen a x)
    unfolding visit is_hashed on_stack inputs_of_drv
    seen-visit a p name stack drv h x e d =
        let s =
          add_inputs-stack derivations drv.inputs p (get a.nodes p (some drv)) stack x
            (named p drv d) in
        ground (arith, s, e, d)

    visit_hashed :
        (a : Analysis) (p name : ℕ) (drv : Drv) (h : ℕ) (x : ℕ)
        → is_hashed (visit derivations p name drv h a).drv_hashes x
          ≡ (p == x || is_hashed a.drv_hashes x)
    unfolding visit is_hashed
    visit_hashed a p name drv h x = refl

    top_seen :
        (a : Analysis) (p name : ℕ) (stack : List (ℕ × ℕ))
        → a.stack ≡ (p, name) ∷ stack
        → seen a p ≡ true
    unfolding on_stack
    top_seen a p name stack e = ground (arith, e)

    round-IsSearch :
        (a b : Analysis)
        → IsSearch a
        → RoundOf pseudo_hash_drv derivations a (goes_on b)
        → IsSearch b
    round-IsSearch a b v (skips p name stack e f) = record {
      analysis =
          round-IsAnalysis derivations pseudo_hash_drv named a b v.analysis
            (skips p name stack e f);
      needed = λ x s. v.needed x (sym (skip_seen a p name stack x e f) ∙ s);
      wanted = λ x s. skip_seen a p name stack x e f ∙ v.wanted x s;
      closed = λ q x h m. skip_seen a p name stack q e f ∙ v.closed q x h m;
    }
    round-IsSearch a b v (visits p name stack drv h e f d q) =
        let a' : Analysis = record a { stack = stack } in
        let top = v.needed p (top_seen a p name stack e) in
        record {
          analysis =
              round-IsAnalysis derivations pseudo_hash_drv named a b v.analysis
                (visits p name stack drv h e f d q);
          needed = λ x s. elim (Bool-cases (among x (inputs_at derivations p))) [
            | inl m ↦ input_of x p top m
            | inr m ↦ v.needed x (ground (arith, seen-visit a p name stack drv h x e d, s, m))
          ];
          wanted = λ x s. ground (arith, seen-visit a p name stack drv h x e d, v.wanted x s);
          closed = λ r x k m. ground (
            arith,
            seen-visit a p name stack drv h r e d,
            visit_hashed a' p name drv h x,
            v.closed r x,
            k,
            m,
          );
        }

    analyze-Ends :
        Ends pseudo_hash_drv derivations IsSearch (analyze pseudo_hash_drv derivations want)
    unfolding analyze
    analyze-Ends =
        rounds-Ends pseudo_hash_drv derivations IsSearch round-IsSearch
          (length want + count_refs derivations)
          (record { nodes = []; roots = []; drv_hashes = []; used = []; stack = want })
          start-IsSearch

    seen_hashed :
        (a : Analysis) (x : ℕ) → a.stack ≡ [] → seen a x ≡ true → is_hashed a.drv_hashes x ≡ true
    unfolding on_stack
    seen_hashed a x e s = ground (arith, e, s)

    stack_seen : (a : Analysis) (x : ℕ) → on_stack a.stack x ≡ true → seen a x ≡ true
    stack_seen a x s = ground (arith, s)

    inputs_among :
        (a : Analysis) (q y : ℕ)
        → inputs_of (graph a) y ≡ (if is_node (graph a) y then inputs_at derivations y else [])
        → among q (inputs_of (graph a) y) ≡ true
        → among q (inputs_at derivations y) ≡ true
    inputs_among a q y e m = elim (Bool-cases (is_node (graph a) y)) [
      | inl n ↦ ground (arith, e, m, n)
      | inr n ↦ ground (arith, e, m, n)
    ]

    Needed-hashed :
        (a : Analysis)
        → IsSearch a
        → a.stack ≡ []
        → (x : ℕ) → Needed x
        → is_hashed a.drv_hashes x ≡ true
    unfolding on_stack
    Needed-hashed a v e x (wanted p w) = ground (arith, v.wanted x w, e)
    Needed-hashed a v e x (input_of p y n m) =
        seen_hashed a x e (v.closed x y (Needed-hashed a v e y n) m)

    search-Explained : (a : Analysis) → IsSearch a × (a.stack ≡ []) → Explained (analyzed a)
    search-Explained a (v, s) =
        let node = is_node-hashed derivations pseudo_hash_drv named a v.analysis s in
        (
          graph-IsConsistent derivations pseudo_hash_drv named a v.analysis s,
          λ x. (λ n. v.needed x (ground (arith, node x, n)), λ n. node x ∙ Needed-hashed a v s x n),
        )

    -- Where every input derivation is named with one output at least: `analyze` returns a graph that
    -- is consistent and whose nodes are the derivations that the wanted outputs need, or it reports
    -- a derivation that is needed and that is not there, or one that is needed and has no hash.
    pub analyze-Explained : Explained (analyze pseudo_hash_drv derivations want)
    analyze-Explained =
        explain (analyze pseudo_hash_drv derivations want) analyze-Ends
          (analyze_terminates pseudo_hash_drv derivations want)
      where
        explain :
            (r : Analyzed)
            → Ends pseudo_hash_drv derivations IsSearch r
            → r ≢ out_of_fuel
            → Explained r
        explain (analyzed a) v n = search-Explained a v
        explain (unknown p) (a, v, s, d) n = (v.needed p (stack_seen a p s), d)
        explain (failed p) (a, v, s, d) n = (v.needed p (stack_seen a p s), d)
        explain out_of_fuel v n = absurd (n refl)

    -- Where every input derivation is named with one output at least, and derivations are not
    -- inputs of each other in a cycle, as some rank of the paths says: when goroutines have gone
    -- through the graph that `analyze` returns, every `finish` letting the dependents go on, and
    -- `next` reports the end, every derivation that the wanted outputs need is finished.
    pub analyze-next_all :
        (a : Analysis)
        → analyze pseudo_hash_drv derivations want ≡ analyzed a
        → (rank : ℕ → ℕ) → ((p x : ℕ) → among p (inputs_at derivations x) ≡ true → rank p < rank x)
        → {s : System} → Reach (graph a) s
        → AllProcessed s.it.finished
        → next s.it ≡ ended
        → (x : ℕ) → Needed x
        → is_finished s.it.finished x ≡ true
    analyze-next_all a e rank acyclic r p d x n =
        let (v, s) = subst (Ends pseudo_hash_drv derivations IsSearch) e analyze-Ends in
        let inputs = inputs_of-graph derivations pseudo_hash_drv named a v.analysis in
        let (c, node) = search-Explained a (v, s) in
        next-ended_all (graph a) rank c (λ q y m. acyclic q y (inputs_among a q y (inputs y) m)) r p
          d x ((node x).1 n)

-- ===== src/Backend/Analyze/Rounds.antt =====
-- The rounds of the loop of `analyze`, as a relation, and how many there are.
use zb.Prelude.{
  ℕ, zero, suc, true, false, List, [], ◌∷◌, Option, none, some, ◌≡◌, subst, arith, Bool-cases,
  Option-cases, List-cases, inl, inr,
}
use zb.Backend.Analyze.Lookup.{on_stack}
use zb.Backend.Analyze.{
  Drv, lookup_drv, Analysis, is_hashed, visit, Round, finished, goes_on, after_round,
  unknown_derivation, hash_failed, analyze_round, analyze_rounds, Analyzed, analyzed, unknown,
  failed, out_of_fuel,
}

module _ (pseudo_hash_drv : Drv → Option ℕ) (derivations : List (ℕ × Drv)) where
  -- How a round ends, and when.
  pub data RoundOf (a : Analysis) : Round → Type 0 where
    ends : a.stack ≡ [] → RoundOf a finished
    skips :
        (p name : ℕ) (stack : List (ℕ × ℕ))
        → a.stack ≡ (p, name) ∷ stack
        → is_hashed a.drv_hashes p ≡ true
        → RoundOf a (goes_on (record a { stack = stack }))
    misses :
        (p name : ℕ) (stack : List (ℕ × ℕ))
        → a.stack ≡ (p, name) ∷ stack
        → lookup_drv derivations p ≡ none
        → RoundOf a (unknown_derivation p)
    fails :
        (p name : ℕ) (stack : List (ℕ × ℕ)) (drv : Drv)
        → a.stack ≡ (p, name) ∷ stack
        → lookup_drv derivations p ≡ some drv
        → pseudo_hash_drv drv ≡ none
        → RoundOf a (hash_failed p)
    visits :
        (p name : ℕ) (stack : List (ℕ × ℕ)) (drv : Drv) (h : ℕ)
        → a.stack ≡ (p, name) ∷ stack
        → is_hashed a.drv_hashes p ≡ false
        → lookup_drv derivations p ≡ some drv
        → pseudo_hash_drv drv ≡ some h
        → RoundOf a (goes_on (visit derivations p name drv h (record a { stack = stack })))

  top_round :
      (a : Analysis) (p name : ℕ) (stack : List (ℕ × ℕ))
      → a.stack ≡ (p, name) ∷ stack
      → RoundOf a (analyze_round pseudo_hash_drv derivations a)
  unfolding analyze_round
  top_round a p name stack e = elim (Bool-cases (is_hashed a.drv_hashes p)) [
    | inl f ↦ subst (RoundOf a) (ground (arith, e, f)) (skips p name stack e f)
    | inr f ↦ elim (Option-cases (lookup_drv derivations p)) [
      | inl d ↦ subst (RoundOf a) (ground (arith, e, f, d)) (misses p name stack e d)
      | inr (drv, d) ↦ elim (Option-cases (pseudo_hash_drv drv)) [
        | inl h ↦ subst (RoundOf a) (ground (arith, e, f, d, h)) (fails p name stack drv e d h)
        | inr (h, q) ↦
            subst (RoundOf a) (ground (arith, e, f, d, q)) (visits p name stack drv h e f d q)
      ]
    ]
  ]

  pub analyze_round-RoundOf :
      (a : Analysis) → RoundOf a (analyze_round pseudo_hash_drv derivations a)
  analyze_round-RoundOf a = elim (List-cases a.stack) [
    | inl e ↦ unfold analyze_round in subst (RoundOf a) (ground (arith, e)) (ends e)
    | inr ((p, name), stack, e) ↦ top_round a p name stack e
  ]

  -- What `P` of the variables in the end, or in the round that fails, says of a result.
  abbrev pub Ends : (Analysis → Type 0) → Analyzed → Type 0
  Ends P (analyzed a) = P a × (a.stack ≡ [])
  Ends P (unknown p) =
      (a : Analysis) × P a × (on_stack a.stack p ≡ true) × (lookup_drv derivations p ≡ none)
  Ends P (failed p) =
      (a : Analysis) × P a
      × (on_stack a.stack p ≡ true)
      × ((drv : Drv) × (lookup_drv derivations p ≡ some drv) × (pseudo_hash_drv drv ≡ none))
  Ends P out_of_fuel = Unit

  top-on_stack :
      (a : Analysis) (p name : ℕ) (stack : List (ℕ × ℕ))
      → a.stack ≡ (p, name) ∷ stack
      → on_stack a.stack p ≡ true
  unfolding on_stack
  top-on_stack a p name stack e = ground (arith, e)

  after_round-Ends :
      (P : Analysis → Type 0) (a : Analysis) (r : Round) (more : Analysis → Analyzed)
      → RoundOf a r
      → P a
      → ((b : Analysis) → RoundOf a (goes_on b) → Ends P (more b))
      → Ends P (after_round r a more)
  unfolding after_round
  after_round-Ends P a finished more (ends e) v w = (v, e)
  after_round-Ends P a (unknown_derivation q) more (misses p name stack e d) v w =
      (a, v, top-on_stack a p name stack e, d)
  after_round-Ends P a (hash_failed q) more (fails p name stack drv e d h) v w =
      (a, v, top-on_stack a p name stack e, (drv, d, h))
  after_round-Ends P a (goes_on b) more o v w = w b o

  -- What every round keeps holds in the end.
  pub rounds-Ends :
      (P : Analysis → Type 0)
      → ((a b : Analysis) → P a → RoundOf a (goes_on b) → P b)
      → (fuel : ℕ) (a : Analysis) → P a
      → Ends P (analyze_rounds pseudo_hash_drv derivations fuel a)
  unfolding analyze_rounds
  rounds-Ends P keeps zero a v =
      after_round-Ends P a (analyze_round pseudo_hash_drv derivations a) (λ b. out_of_fuel)
        (analyze_round-RoundOf a) v (λ b o. tt)
  rounds-Ends P keeps (suc fuel) a v =
      after_round-Ends P a (analyze_round pseudo_hash_drv derivations a)
        (λ b. analyze_rounds pseudo_hash_drv derivations fuel b) (analyze_round-RoundOf a) v
        (λ b o. rounds-Ends P keeps fuel b (keeps a b v o))

-- ===== src/Backend/Analyze/Fuel.antt =====
-- How many rounds the loop of `analyze` has.
use zb.Prelude.{
  ℕ, zero, suc, ◌+◌, ◌<◌, ◌≤◌, false, List, [], ◌∷◌, Option, some, ◌≡◌, ◌≢◌, refl, ap, ◌==◌,
  if◌then◌else◌, arith, Bool-cases, inl, inr, length,
}
use zb.Backend.Graph.{Node}
use zb.Backend.Analyze.{
  get, add_dependent, Drv, lookup_drv, Analysis, is_hashed, visit, add_inputs, push_refs,
  count_names, count_refs, Round, finished, goes_on, after_round, unknown_derivation, hash_failed,
  analyze_round, analyze_rounds, Analyzed, out_of_fuel, analyze,
}
use zb.Backend.Analyze.Rounds.{RoundOf, skips, visits, analyze_round-RoundOf}

module _ (pseudo_hash_drv : Drv → Option ℕ) (derivations : List (ℕ × Drv)) where
  after_round-fuel :
      (a : Analysis) (r : Round) (more : Analysis → Analyzed)
      → RoundOf pseudo_hash_drv derivations a r
      → ((b : Analysis) → RoundOf pseudo_hash_drv derivations a (goes_on b) → more b ≢ out_of_fuel)
      → after_round r a more ≢ out_of_fuel
  unfolding after_round
  after_round-fuel a finished more o w = λ e. ground (arith)
  after_round-fuel a (unknown_derivation p) more o w = λ e. ground (arith)
  after_round-fuel a (hash_failed p) more o w = λ e. ground (arith)
  after_round-fuel a (goes_on b) more o w = w b o

  -- the references that the derivations not visited are still to put on the stack
  abbrev pub to_push : List (ℕ × ℕ) → List (ℕ × Drv) → ℕ
  to_push hashes [] = 0
  to_push hashes ((p, drv) ∷ drvs) =
      (if is_hashed hashes p then 0 else count_names drv.inputs) + to_push hashes drvs

  to_push_more :
      (hashes : List (ℕ × ℕ)) (p h : ℕ) (drvs : List (ℕ × Drv))
      → to_push ((p, h) ∷ hashes) drvs ≤ to_push hashes drvs
  unfolding is_hashed
  to_push_more hashes p h [] = omega arith
  to_push_more hashes p h ((q, drv) ∷ drvs) =
      let i = to_push_more hashes p h drvs in ground (arith, i)

  to_push_visit :
      (hashes : List (ℕ × ℕ)) (p h : ℕ) (drv : Drv) (drvs : List (ℕ × Drv))
      → is_hashed hashes p ≡ false
      → lookup_drv drvs p ≡ some drv
      → to_push ((p, h) ∷ hashes) drvs + count_names drv.inputs ≤ to_push hashes drvs
  unfolding is_hashed lookup_drv
  to_push_visit hashes p h drv [] f e = ground (arith)
  to_push_visit hashes p h drv ((q, d) ∷ drvs) f e =
      let i = to_push_more hashes p h drvs in
      let j = to_push_visit hashes p h drv drvs f in
      elim (Bool-cases (q == p)) [
        | inl g ↦ ground (arith, i, e, f, g)
        | inr g ↦ ground (arith, j, e, f, g)
      ]

  length-push_refs :
      (input : ℕ) (names : List ℕ) (stack : List (ℕ × ℕ))
      → length (push_refs input names stack) ≡ length names + length stack
  unfolding push_refs
  length-push_refs input [] stack = omega arith
  length-push_refs input (name ∷ names) stack =
      let e = length-push_refs input names ((input, name) ∷ stack) in omega (arith, e)

  length-add_inputs :
      (inputs : List (ℕ × List ℕ)) (path : ℕ) (nodes : List (ℕ × Node)) (stack : List (ℕ × ℕ))
      → length (add_inputs derivations inputs path nodes stack).1
        ≡ count_names inputs + length stack
  unfolding add_inputs
  length-add_inputs [] path nodes stack = omega arith
  length-add_inputs ((p, names) ∷ inputs) path nodes stack =
      let e =
        length-add_inputs inputs path (add_dependent derivations nodes p path)
          (push_refs p names stack) in
      let f = length-push_refs p names stack in ground (arith, e, f)

  abbrev pub measure : Analysis → ℕ
  measure a = length a.stack + to_push a.drv_hashes derivations

  measure_goes_on :
      (a b : Analysis) → RoundOf pseudo_hash_drv derivations a (goes_on b) → measure b < measure a
  unfolding visit
  measure_goes_on a b (skips p name stack e f) = ground (arith, e)
  measure_goes_on a b (visits p name stack drv h e f d q) =
      let i = to_push_visit a.drv_hashes p h drv derivations f d in
      let j = length-add_inputs drv.inputs p (get a.nodes p (some drv)) stack in
      ground (arith, e, i, j)

  rounds_fuel :
      (fuel : ℕ) (a : Analysis)
      → measure a ≤ fuel
      → analyze_rounds pseudo_hash_drv derivations fuel a ≢ out_of_fuel
  unfolding analyze_rounds
  rounds_fuel zero a l =
      after_round-fuel a (analyze_round pseudo_hash_drv derivations a) (λ b. out_of_fuel)
        (analyze_round-RoundOf pseudo_hash_drv derivations a)
        (λ b o. absurd (omega (arith, measure_goes_on a b o, l)))
  rounds_fuel (suc fuel) a l =
      after_round-fuel a (analyze_round pseudo_hash_drv derivations a)
        (λ b. analyze_rounds pseudo_hash_drv derivations fuel b)
        (analyze_round-RoundOf pseudo_hash_drv derivations a)
        (λ b o. rounds_fuel fuel b (omega (arith, measure_goes_on a b o, l)))

  to_push-start : (drvs : List (ℕ × Drv)) → to_push [] drvs ≡ count_refs drvs
  unfolding is_hashed
  to_push-start [] = refl
  to_push-start ((p, drv) ∷ drvs) = ap (λ (n : ℕ). count_names drv.inputs + n) (to_push-start drvs)

  -- The loop of `analyze` ends, whatever the derivations and the wanted outputs are, also where
  -- derivations are inputs of each other: the rounds that the model gives it are enough.
  pub analyze_terminates :
      (want : List (ℕ × ℕ)) → analyze pseudo_hash_drv derivations want ≢ out_of_fuel
  unfolding analyze
  analyze_terminates want =
      let s : Analysis = record {
        nodes = [];
        roots = [];
        drv_hashes = [];
        used = [];
        stack = want;
      } in
      rounds_fuel (length want + count_refs derivations) s
        (omega (arith, to_push-start derivations))

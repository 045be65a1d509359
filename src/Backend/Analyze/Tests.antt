-- ===== src/Backend/Analyze/Tests.antt =====
-- The theorems on `analyze` at two derivations, 1 and 2, of which 1 is an input of 2, and with an
-- output of 2 wanted.
use zb.Prelude.{ℕ, ◌<◌, true, List, [], ◌∷◌, Option, some, ◌≡◌, ◌≢◌, refl, arith}
use zb.Backend.Graph.{among, is_finished, next}
use zb.Backend.Graph.Tests.{two, all_done, all_done-Reach, all_processed}
use zb.Backend.Analyze.{
  Drv, lookup_drv, keys, inputs_of_drv, analyze, Analysis, analyzed, out_of_fuel,
}
use zb.Backend.Analyze.Lookup.{on_stack, inputs_at}
use zb.Backend.Analyze.Consistent.{AllNamed}
use zb.Backend.Analyze.Fuel.{analyze_terminates}
use zb.Backend.Analyze.Needed.{Needed, wanted, Explained, analyze-Explained, analyze-next_all}

abbrev derivations : List (ℕ × Drv)
derivations =
    (1, record { inputs = []; rest = 0 }) ∷ (2, record { inputs = (1, 0 ∷ []) ∷ []; rest = 1 }) ∷ []

abbrev want : List (ℕ × ℕ)
want = (2, 0) ∷ []

-- what is not the inputs
abbrev hash : Drv → Option ℕ
hash drv = some drv.rest

derivations-AllNamed : AllNamed derivations
unfolding lookup_drv
derivations-AllNamed p drv e = ground (arith)

abbrev result : Analysis
result = record {
  nodes = two.nodes;
  roots = 1 ∷ [];
  drv_hashes = (1, 0) ∷ (2, 1) ∷ [];
  used = (1, 0 ∷ []) ∷ (0, 0 ∷ []) ∷ [];
  stack = [];
}

analyze-result : analyze hash derivations want ≡ analyzed result
unfolding analyze
analyze-result = refl

result-acyclic : (p x : ℕ) → among p (inputs_at derivations x) ≡ true → p < x
unfolding inputs_of_drv lookup_drv keys
result-acyclic p x h = ground (arith)

two-Needed : Needed hash derivations want 2
unfolding on_stack
two-Needed = wanted 2 refl

analyze_terminates_example : analyze hash derivations want ≢ out_of_fuel
analyze_terminates_example = analyze_terminates hash derivations want

analyze-Explained_example : Explained hash derivations want (analyze hash derivations want)
analyze-Explained_example = analyze-Explained hash derivations want derivations-AllNamed

analyze-next_all_example : is_finished all_done.it.finished 2 ≡ true
unfolding next
analyze-next_all_example =
    analyze-next_all hash derivations want derivations-AllNamed result analyze-result (λ x. x)
      result-acyclic all_done-Reach all_processed refl 2 two-Needed

-- Outputs 0 and 1 of the derivation 1 are wanted, and one is in `used`.
abbrev result_two : Analysis
result_two = record {
  nodes = (1, record { inputs = []; dependents = [] }) ∷ [];
  roots = 1 ∷ [];
  drv_hashes = (1, 0) ∷ [];
  used = (0, 0 ∷ []) ∷ [];
  stack = [];
}

-- ===== src/Backend/Planner/Commit.antt =====
-- `commit`, which moves what is planned to what is committed.
use zb.Prelude.{ℕ, List, [], ◌∷◌, ◌++◌, none, some, ◌≡◌, refl, arith, Option-cases, inl, inr}
use zb.Backend.Planner.{Realization, Planner, lookup_realization, get, commit}

lookup_realization-append :
    (xs ys : List (ℕ × Realization)) (class : ℕ)
    → lookup_realization (xs ++ ys) class
      ≡ elim (lookup_realization xs class) [ some r ↦ some r | none ↦ lookup_realization ys class ]
unfolding lookup_realization
lookup_realization-append [] ys class = refl
lookup_realization-append ((c, r) ∷ xs) ys class =
    let e = lookup_realization-append xs ys class in ground (arith, e)

-- After `commit` each class has the realization that it had before.
pub get-commit : (p : Planner) (class : ℕ) → get (commit p) class ≡ get p class
unfolding get commit
get-commit p class = elim (Option-cases p.error) [
  | inr (e, f) ↦ ground (arith, f)
  | inl f ↦
      let a = lookup_realization-append p.planned p.committed class in
      let b : lookup_realization [] class ≡ none = (unfold lookup_realization in refl) in
      ground (arith, f, a, b)
]

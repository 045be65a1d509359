-- ===== src/Backend/Planner/Pick.antt =====
-- Which realization `pick` selects.
use zb.Prelude.{
  ℕ, true, false, List, [], ◌∷◌, ◌++◌, ◌≡◌, refl, ◌∙◌, ap, subst, ◌⊎◌, Result, ok, err, ◌>>=◌,
  arith, Bool-cases, Option-cases, inl, inr,
}
use zb.Backend.Planner.{
  Closure, Planner, PlanError, realization_not_found, multiple_realizations, database_error,
  DerivationClass, Database, sort_by, check, select, refuse_other, pick,
}
use zb.Backend.Planner.Usable.{
  Usable, NotUsable, NoneUsable, find_other-NoneUsable, NoneUsable-sort_by, HasUsable-sort_by,
  HasUsable-split, find_other-HasUsable, find_other-cases,
}

module _ (db : Database) (p : Planner) (dpe : DerivationClass) where
  -- every path is not valid or not usable
  abbrev pub Skipped : List ℕ → Type 0
  Skipped [] = Unit
  Skipped (path ∷ paths) =
      ((db.is_valid_output_path dpe path ≡ false) ⊎ NotUsable db p dpe path) × Skipped paths

  -- what `select` says of the paths it is given
  abbrev Selected : List ℕ → Result PlanError (ℕ × Closure × List ℕ) → Type 0
  Selected existing (ok (path, closure, remaining)) =
      (skipped : List ℕ) × (existing ≡ skipped ++ (path ∷ remaining))
      × Skipped skipped
      × (db.is_valid_output_path dpe path ≡ true)
      × Usable db p dpe path closure
  Selected existing (err realization_not_found) = Skipped existing
  Selected existing (err multiple_realizations) = ⊥
  Selected existing (err database_error) = Unit

  Selected-skip :
      (path : ℕ) (existing : List ℕ) (r : Result PlanError (ℕ × Closure × List ℕ))
      → (db.is_valid_output_path dpe path ≡ false) ⊎ NotUsable db p dpe path
      → Selected existing r
      → Selected (path ∷ existing) r
  Selected-skip path existing (ok (q, closure, remaining)) h (skipped, e, s, v, u) =
      (path ∷ skipped, ap (λ (l : List ℕ). path ∷ l) e, (h, s), v, u)
  Selected-skip path existing (err realization_not_found) h s = (h, s)
  Selected-skip path existing (err multiple_realizations) h s = s
  Selected-skip path existing (err database_error) h s = tt

  select-cons :
      (path : ℕ) (existing : List ℕ)
      → Selected existing (select db p dpe existing)
      → Selected (path ∷ existing) (select db p dpe (path ∷ existing))
  unfolding select
  select-cons path existing ih = elim (Bool-cases (db.is_valid_output_path dpe path)) [
    | inr v ↦
        subst (Selected (path ∷ existing)) (ground (arith, v))
          (Selected-skip path existing (select db p dpe existing) (inl v) ih)
    | inl v ↦ elim (Option-cases (check db p path dpe.class)) [
      | inl f ↦
          subst (Selected (path ∷ existing)) {x = err database_error} (ground (arith, v, f)) tt
      | inr ((true, closure), f) ↦
          subst (Selected (path ∷ existing)) {x = ok (path, closure, existing)}
            (ground (arith, v, f)) ([], refl, tt, v, f)
      | inr ((false, closure), f) ↦
          subst (Selected (path ∷ existing)) (ground (arith, v, f))
            (Selected-skip path existing (select db p dpe existing) (inr (closure, f)) ih)
    ]
  ]

  select-Selected : (existing : List ℕ) → Selected existing (select db p dpe existing)
  select-Selected [] = unfold select in tt
  select-Selected (path ∷ existing) = select-cons path existing (select-Selected existing)

  -- What `pick` says of the paths that it is given.
  abbrev pub Picked : List ℕ → Result PlanError (ℕ × Closure) → Type 0
  Picked existing (ok (path, closure)) =
      (skipped : List ℕ) × (remaining : List ℕ) × (existing ≡ skipped ++ (path ∷ remaining))
      × Skipped skipped
      × (db.is_valid_output_path dpe path ≡ true)
      × Usable db p dpe path closure
      × NoneUsable db p dpe remaining
  Picked existing (err realization_not_found) = Skipped existing
  Picked existing (err multiple_realizations) =
      (skipped : List ℕ) × (path : ℕ) × (between : List ℕ) × (other : ℕ) × (after : List ℕ)
      × (closure : Closure) × (closure' : Closure) × (existing
          ≡ skipped ++ (path ∷ (between ++ (other ∷ after))))
      × (db.is_valid_output_path dpe path ≡ true)
      × Usable db p dpe path closure
      × Usable db p dpe other closure'
  Picked existing (err database_error) = Unit

  refuse_other-Picked :
      (existing : List ℕ) (path : ℕ) (closure : Closure) (remaining : List ℕ)
      → Selected existing (ok (path, closure, remaining))
      → Picked existing (refuse_other db p dpe (path, closure, remaining))
  unfolding refuse_other
  refuse_other-Picked existing path closure remaining (skipped, e, s, v, u) =
      elim (find_other-cases db p dpe (sort_by db.rank remaining)) [
        | inl f ↦ subst (Picked existing) {x = ok (path, closure)} (ground (arith, f)) (
          skipped,
          remaining,
          e,
          s,
          v,
          u,
          NoneUsable-sort_by db p dpe remaining
              (find_other-NoneUsable db p dpe (sort_by db.rank remaining) f),
        )
        | inr (inl f) ↦
            let (between, other, after, closure', g, u') = HasUsable-split db p dpe remaining (
              HasUsable-sort_by db p dpe remaining
                (find_other-HasUsable db p dpe (sort_by db.rank remaining) f)) in
            subst (Picked existing) {x = err multiple_realizations} (ground (arith, f)) (
              skipped,
              path,
              between,
              other,
              after,
              closure,
              closure',
              e ∙ ap (λ (l : List ℕ). skipped ++ (path ∷ l)) g,
              v,
              u,
              u',
            )
        | inr (inr f) ↦ subst (Picked existing) {x = err database_error} (ground (arith, f)) tt
      ]

  Selected-Picked :
      (existing : List ℕ) (r : Result PlanError (ℕ × Closure × List ℕ))
      → Selected existing r
      → Picked existing (r >>= λ (x : ℕ × Closure × List ℕ). refuse_other db p dpe x)
  Selected-Picked existing (ok (path, closure, remaining)) s =
      refuse_other-Picked existing path closure remaining s
  Selected-Picked existing (err realization_not_found) s = s
  Selected-Picked existing (err multiple_realizations) s = absurd s
  Selected-Picked existing (err database_error) s = tt

  -- The path that `pick` selects is valid, can be used with the closure returned, and stands behind
  -- paths that are not valid or cannot be used and before paths that cannot be used. Where it
  -- finds none, every path is not valid or cannot be used. Where it reports several, a path that
  -- is valid can be used, and so can a path behind it.
  pub pick-Picked : (existing : List ℕ) → Picked existing (pick db p dpe existing)
  unfolding pick
  pick-Picked existing = elim (Bool-cases db.savepoint) [
    | inl s ↦
        subst (Picked existing) (ground (arith, s))
          (Selected-Picked existing (select db p dpe existing) (select-Selected existing))
    | inr s ↦ subst (Picked existing) {x = err database_error} (ground (arith, s)) tt
  ]

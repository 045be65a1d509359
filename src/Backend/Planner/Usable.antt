-- ===== src/Backend/Planner/Usable.antt =====
-- Which paths `pick` can use, and what its second loop finds of them, whatever the order in which it
-- goes through them.
use zb.Prelude.{
  ℕ, true, false, List, [], ◌∷◌, ◌++◌, none, some, ◌≡◌, refl, ap, ◌⊎◌, arith, leb, Bool-cases,
  Option-cases, inl, inr,
}
use zb.Backend.Planner.{
  Closure, Planner, multiple_realizations, database_error, DerivationClass, Database, insert_by,
  sort_by, check, find_other,
}

module _ (db : Database) (p : Planner) (dpe : DerivationClass) where
  -- a path that can be used, with its closure
  abbrev pub Usable : ℕ → Closure → Type 0
  Usable path closure = check db p path dpe.class ≡ some (true, closure)

  abbrev pub NotUsable : ℕ → Type 0
  NotUsable path = (closure : Closure) × (check db p path dpe.class ≡ some (false, closure))

  -- every path is not usable
  abbrev pub NoneUsable : List ℕ → Type 0
  NoneUsable [] = Unit
  NoneUsable (path ∷ paths) = NotUsable path × NoneUsable paths

  pub find_other-NoneUsable : (paths : List ℕ) → find_other db p dpe paths ≡ none → NoneUsable paths
  unfolding find_other
  find_other-NoneUsable [] e = tt
  find_other-NoneUsable (path ∷ paths) e =
      let rest = find_other-NoneUsable paths in
      elim (Option-cases (check db p path dpe.class)) [
        | inl f ↦ ground (arith, e, f)
        | inr ((true, closure), f) ↦ ground (arith, e, f)
        | inr ((false, closure), f) ↦ ((closure, f), rest (ground (arith, e, f)))
      ]

  -- some path can be used
  abbrev pub HasUsable : List ℕ → Type 0
  HasUsable [] = ⊥
  HasUsable (path ∷ paths) = ((closure : Closure) × Usable path closure) ⊎ HasUsable paths

  pub find_other-HasUsable :
      (paths : List ℕ) → find_other db p dpe paths ≡ some multiple_realizations → HasUsable paths
  unfolding find_other
  find_other-HasUsable [] e = absurd (ground (arith, e))
  find_other-HasUsable (path ∷ paths) e =
      let rest = find_other-HasUsable paths in
      elim (Option-cases (check db p path dpe.class)) [
        | inl f ↦ absurd (ground (arith, e, f))
        | inr ((true, closure), f) ↦ inl (closure, f)
        | inr ((false, closure), f) ↦ inr (rest (ground (arith, e, f)))
      ]

  pub HasUsable-split :
      (paths : List ℕ)
      → HasUsable paths
      → (before : List ℕ) × (path : ℕ) × (after : List ℕ) × (closure : Closure) × (paths
          ≡ before ++ (path ∷ after))
        × Usable path closure
  HasUsable-split [] h = absurd h
  HasUsable-split (path ∷ paths) (inl (closure, u)) = ([], path, paths, closure, refl, u)
  HasUsable-split (path ∷ paths) (inr h) =
      let (before, q, after, closure, g, u) = HasUsable-split paths h in
      (path ∷ before, q, after, closure, ap (λ (l : List ℕ). path ∷ l) g, u)

  HasUsable-insert_by :
      (path : ℕ) (paths : List ℕ)
      → HasUsable (insert_by db.rank path paths)
      → HasUsable (path ∷ paths)
  unfolding insert_by
  HasUsable-insert_by path [] h = h
  HasUsable-insert_by path (other ∷ paths) h =
      elim (Bool-cases (leb (db.rank path) (db.rank other))) [
        | inl l ↦ rw l at h
        | inr l ↦ elim (first l) [
          | inl u ↦ inr (inl u)
          | inr k ↦ elim (HasUsable-insert_by path paths k) [ inl u ↦ inl u | inr v ↦ inr (inr v) ]
        ]
      ]
    where
      first :
          leb (db.rank path) (db.rank other) ≡ false
          → HasUsable (other ∷ insert_by db.rank path paths)
      first l = rw l at h

  pub HasUsable-sort_by : (paths : List ℕ) → HasUsable (sort_by db.rank paths) → HasUsable paths
  unfolding sort_by
  HasUsable-sort_by [] h = h
  HasUsable-sort_by (path ∷ paths) h = elim (HasUsable-insert_by path (sort_by db.rank paths) h) [
    | inl u ↦ inl u
    | inr k ↦ inr (HasUsable-sort_by paths k)
  ]

  NoneUsable-insert_by :
      (path : ℕ) (paths : List ℕ)
      → NoneUsable (insert_by db.rank path paths)
      → NoneUsable (path ∷ paths)
  unfolding insert_by
  NoneUsable-insert_by path [] h = h
  NoneUsable-insert_by path (other ∷ paths) h =
      elim (Bool-cases (leb (db.rank path) (db.rank other))) [
        | inl l ↦ rw l at h
        | inr l ↦
            let (n, ns) = first l in
            let (m, ms) = NoneUsable-insert_by path paths ns in (m, (n, ms))
      ]
    where
      first :
          leb (db.rank path) (db.rank other) ≡ false
          → NoneUsable (other ∷ insert_by db.rank path paths)
      first l = rw l at h

  pub NoneUsable-sort_by : (paths : List ℕ) → NoneUsable (sort_by db.rank paths) → NoneUsable paths
  unfolding sort_by
  NoneUsable-sort_by [] h = tt
  NoneUsable-sort_by (path ∷ paths) h =
      let (n, ns) = NoneUsable-insert_by path (sort_by db.rank paths) h in
      (n, NoneUsable-sort_by paths ns)

  pub find_other-cases :
      (paths : List ℕ)
      → (find_other db p dpe paths ≡ none)
        ⊎ (find_other db p dpe paths ≡ some multiple_realizations)
        ⊎ (find_other db p dpe paths ≡ some database_error)
  unfolding find_other
  find_other-cases [] = inl refl
  find_other-cases (path ∷ paths) =
      let rest = find_other-cases paths in
      elim (Option-cases (check db p path dpe.class)) [
        | inl f ↦ ground (arith, f)
        | inr ((true, closure), f) ↦ ground (arith, f)
        | inr ((false, closure), f) ↦ ground (arith, rest, f)
      ]

-- ===== src/Backend/Planner.antt =====
-- internal/backend/realization_planner.go: `realizationPlanner`, which collects realizations that
-- are compatible with each other. Paths and equivalence classes are only compared, so they are
-- numbers, and 0 is the zero class. The functions that ask the database are a parameter, and what
-- they give does not change while a planner runs, which a savepoint sees to.
pub mod Usable
pub mod Pick
pub mod Keeps
pub mod Plan
pub mod Order
pub mod Commit
mod Tests
use zb.Prelude.{
  ℕ, Bool, true, false, not, ◌&&◌, ◌||◌, List, [], ◌∷◌, ◌++◌, Option, none, some, ◌≡◌, ◌==◌, leb,
  if◌then◌else◌, Result, ok, err, ◌>>=◌,
}
use zb.Backend.Analyze.{add_to_multi_map, set_add}

-- `map[zbstore.Path]sets.Set[equivalenceClass]`
abbrev pub Closure : Type 0
Closure = List (ℕ × List ℕ)

-- `cachedRealization`
pub record Realization : Type 0 where
  pub path : ℕ
  pub closure : Closure

pub data PlanError : Type 0 where
  realization_not_found : PlanError
  multiple_realizations : PlanError
  database_error : PlanError

pub record Planner : Type 0 where
  pub committed : List (ℕ × Realization)
  pub planned : List (ℕ × Realization)
  pub absent : Option (List ℕ)
  pub error : Option PlanError

-- `derivationPathAndEquivalenceClass`
pub record DerivationClass : Type 0 where
  pub drv_path : ℕ
  pub class : ℕ

-- `IsValidOutputPath`; `readonlySavepoint`, whether it gives no error; `closurePaths`, the pairs of
-- a path and a class that it passes to `yield`, and whether it ends in an error after them;
-- `objectExists`; and `findPossibleRealizations`. An error is `none`. The rank is the order in which
-- a loop goes through the clone of a set, which for a map of Go is any order.
pub record Database : Type 0 where
  pub is_valid_output_path : DerivationClass → ℕ → Bool
  pub savepoint : Bool
  pub closure_paths : ℕ → ℕ → List (ℕ × ℕ) × Bool
  pub object_exists : ℕ → Option Bool
  pub possible_realizations : ℕ → Option (List ℕ × List ℕ)
  pub rank : ℕ → ℕ

-- `remaining.All`: the paths by their rank
unfoldable pub insert_by : (ℕ → ℕ) → ℕ → List ℕ → List ℕ
insert_by rank path [] = path ∷ []
insert_by rank path (other ∷ paths) =
    if leb (rank path) (rank other) then path ∷ other ∷ paths else other ∷ insert_by rank path paths

unfoldable pub sort_by : (ℕ → ℕ) → List ℕ → List ℕ
unfolding insert_by
sort_by rank [] = []
sort_by rank (path ∷ paths) = insert_by rank path (sort_by rank paths)

unfoldable pub lookup_realization : List (ℕ × Realization) → ℕ → Option Realization
lookup_realization [] class = none
lookup_realization ((c, r) ∷ m) class = if c == class then some r else lookup_realization m class

unfoldable pub get : Planner → ℕ → Option Realization
unfolding lookup_realization
get p class = elim (lookup_realization p.planned class) [
  | some r ↦ some r
  | none ↦ lookup_realization p.committed class
]

unfoldable pub commit : Planner → Planner
commit p = elim p.error [
  | some e ↦ p
  | none ↦ record {
    committed = p.planned ++ p.committed;
    planned = [];
    absent = elim p.absent [ none ↦ none | some classes ↦ some [] ];
    error = none;
  }
]

unfoldable pub is_compatible : Planner → ℕ × ℕ → Bool
unfolding get
is_compatible p (path, class) =
    class == 0 || elim (get p class) [ none ↦ true | some used ↦ path == used.path ]

-- The function that `pick` gives to `closurePaths`, on all that it yields: `canUse` and `closure`.
unfoldable pub check_refs : Planner → List (ℕ × ℕ) → Closure → Bool × Closure
unfolding is_compatible add_to_multi_map
check_refs p [] closure = (true, closure)
check_refs p ((path, class) ∷ refs) closure =
    if is_compatible p (path, class)
    then check_refs p refs (add_to_multi_map closure path class)
    else (false, closure)

module _ (db : Database) where
  -- `closurePaths` with this function; where it stops, no error comes.
  unfoldable pub check : Planner → ℕ → ℕ → Option (Bool × Closure)
  unfolding check_refs
  check p path class =
      let (refs, failed) = db.closure_paths path class in
      let (can_use, closure) = check_refs p refs [] in
      if can_use && failed then none else some (can_use, closure)

  -- The first loop of `pick`: the path selected, its closure and the paths that remain.
  unfoldable pub select :
      Planner → DerivationClass → List ℕ → Result PlanError (ℕ × Closure × List ℕ)
  unfolding check
  select p dpe [] = err realization_not_found
  select p dpe (path ∷ existing) =
      let rest = select p dpe existing in
      if not (db.is_valid_output_path dpe path) then rest else elim (check p path dpe.class) [
        | none ↦ err database_error
        | some (can_use, closure) ↦ if can_use then ok (path, closure, existing) else rest
      ]

  -- The second loop, on the paths in the order in which it goes through them.
  unfoldable pub find_other : Planner → DerivationClass → List ℕ → Option PlanError
  unfolding check
  find_other p dpe [] = none
  find_other p dpe (path ∷ remaining) =
      let rest = find_other p dpe remaining in
      elim (check p path dpe.class) [
        | none ↦ some database_error
        | some (can_use, closure) ↦ if can_use then some multiple_realizations else rest
      ]

  -- What `pick` returns after the loops.
  unfoldable pub refuse_other :
      Planner → DerivationClass → ℕ × Closure × List ℕ → Result PlanError (ℕ × Closure)
  unfolding find_other sort_by
  refuse_other p dpe (path, closure, remaining) =
      elim (find_other p dpe (sort_by db.rank remaining)) [
        | some e ↦ err e
        | none ↦ ok (path, closure)
      ]

  unfoldable pub pick : Planner → DerivationClass → List ℕ → Result PlanError (ℕ × Closure)
  unfolding select refuse_other
  pick p dpe existing =
      if not db.savepoint
      then err database_error
      else (select p dpe existing >>= λ (x : ℕ × Closure × List ℕ). refuse_other p dpe x)

  -- `closurePaths` with `addToMultiMap`
  unfoldable pub to_closure : List (ℕ × ℕ) → Closure → Closure
  unfolding add_to_multi_map
  to_closure [] closure = closure
  to_closure ((path, class) ∷ refs) closure = to_closure refs (add_to_multi_map closure path class)

  unfoldable pub collect : ℕ → ℕ → Option Closure
  unfolding to_closure
  collect path class =
      let (refs, failed) = db.closure_paths path class in
      if failed then none else some (to_closure refs [])

  abbrev pub fail : Planner → PlanError → Planner
  fail p e = record p { error = some e }

  -- `p.planned[eqClass] = …`, and `p.absent.Add`, which is not reached where `absent` is nil
  unfoldable pub add_planned : Planner → ℕ → Realization → Bool → Planner
  unfolding set_add
  add_planned p class r path_exists = record p {
    planned = (class, r) ∷ p.planned;
    absent =
        if path_exists
        then p.absent
        else elim p.absent [ none ↦ none | some classes ↦ some (set_add classes class) ];
  }

  -- The inner loop of `plan`: the planner after it, and whether it goes on behind the loop.
  unfoldable pub add_classes : ℕ → Bool → List ℕ → Planner → Planner × Bool
  unfolding get collect add_planned
  add_classes path path_exists [] p = (p, true)
  add_classes path path_exists (class ∷ classes) p =
      let skip = add_classes path path_exists classes p in
      if class == 0 then skip else elim (get p class) [
        | some r ↦ skip
        | none ↦ elim (collect path class) [
          | none ↦ (fail p database_error, false)
          | some closure ↦
              add_classes path path_exists classes
                (add_planned p class (record { path = path; closure = closure }) path_exists)
        ]
      ]

  -- The loop of `plan` over the closure.
  unfoldable pub add_closure : Bool → Closure → Planner → Planner × Bool
  unfolding add_classes
  add_closure present [] p = (p, true)
  add_closure present ((path, classes) ∷ closure) p =
      elim (if present then some true else db.object_exists path) [
        | none ↦ (p, false)
        | some path_exists ↦
            let (p', goes_on) = add_classes path path_exists classes p in
            if goes_on then add_closure present closure p' else (p', false)
      ]

  -- The paths that are absent, after `errRealizationNotFound` for those that are present.
  unfoldable pub plan_absent : Planner → Result PlanError (ℕ × Closure) → Planner
  unfolding add_closure
  plan_absent p (ok (path, closure)) = (add_closure false closure p).0
  plan_absent p (err realization_not_found) = fail p realization_not_found
  plan_absent p (err multiple_realizations) = fail p realization_not_found
  plan_absent p (err database_error) = fail p database_error

  unfoldable pub plan_present :
      Planner → DerivationClass → List ℕ → Result PlanError (ℕ × Closure) → Planner
  unfolding add_closure plan_absent pick
  plan_present p dpe absent (ok (path, closure)) = (add_closure true closure p).0
  plan_present p dpe absent (err realization_not_found) = elim p.absent [
    | none ↦ fail p realization_not_found
    | some classes ↦ plan_absent p (pick p dpe absent)
  ]
  plan_present p dpe absent (err multiple_realizations) = fail p multiple_realizations
  plan_present p dpe absent (err database_error) = fail p database_error

  unfoldable pub plan : Planner → DerivationClass → Planner
  unfolding get plan_present pick
  plan p dpe = elim p.error [
    | some e ↦ p
    | none ↦ elim (get p dpe.class) [
      | some r ↦ p
      | none ↦
          if not db.savepoint
          then fail p database_error
          else elim (db.possible_realizations dpe.class) [
            | none ↦ fail p database_error
            | some (present, absent) ↦ plan_present p dpe absent (pick p dpe present)
          ]
    ]
  ]

  -- The loop of `planSeq`.
  unfoldable pub plan_each : Planner → List DerivationClass → Planner
  unfolding plan
  plan_each p [] = p
  plan_each p (dpe ∷ dpes) = elim (plan p dpe).error [
    | some e ↦ plan p dpe
    | none ↦ plan_each (plan p dpe) dpes
  ]

  unfoldable pub plan_seq : Planner → List DerivationClass → Planner
  unfolding plan_each
  plan_seq p dpes = elim p.error [
    | some e ↦ p
    | none ↦ if not db.savepoint then fail p database_error else plan_each p dpes
  ]

-- ===== src/Backend/Planner/Plan.antt =====
-- What `plan` and `planSeq` promise their callers.
use zb.Prelude.{
  ℕ, Bool, true, false, ◌&&◌, ◌||◌, List, [], ◌∷◌, none, some, ◌≡◌, ◌≢◌, ◌∙◌, subst, ◌⊎◌, ◌==◌,
  if◌then◌else◌, Result, ok, err, arith, Bool-cases, Option-cases, inl, inr,
}
use zb.Backend.Analyze.{add_to_multi_map, set_add}
use zb.Backend.Planner.{
  Closure, Planner, PlanError, realization_not_found, multiple_realizations, database_error,
  DerivationClass, Database, get, fail, is_compatible, check_refs, check, add_closure, plan_absent,
  plan_present, pick, plan, plan_each, plan_seq,
}
use zb.Backend.Planner.Pick.{Picked, pick-Picked}
use zb.Backend.Planner.Keeps.{
  Extends, has, has-Extends, has-some, get-fail, in_closure, add_closure-Filled,
}

-- whether the pair of a path and a class is among those
abbrev pub mem_ref : ℕ → ℕ → List (ℕ × ℕ) → Bool
mem_ref path class [] = false
mem_ref path class ((q, c) ∷ refs) = q == path && c == class || mem_ref path class refs

in_closure-add_to_multi_map :
    (m : Closure) (k v path class : ℕ)
    → in_closure path class (add_to_multi_map m k v)
      ≡ (k == path && v == class || in_closure path class m)
unfolding add_to_multi_map set_add
in_closure-add_to_multi_map [] k v path class = ground (arith)
in_closure-add_to_multi_map ((j, vs) ∷ m) k v path class =
    let e = in_closure-add_to_multi_map m k v path class in ground (arith, e)

check_refs-in_closure :
    (p : Planner) (refs : List (ℕ × ℕ)) (closure closure' : Closure) (path class : ℕ)
    → check_refs p refs closure ≡ (true, closure')
    → (mem_ref path class refs || in_closure path class closure) ≡ true
    → in_closure path class closure' ≡ true
unfolding check_refs
check_refs-in_closure p [] closure closure' path class e m = ground (arith)
check_refs-in_closure p ((q, c) ∷ refs) closure closure' path class e m =
    let ih = check_refs-in_closure p refs (add_to_multi_map closure q c) closure' path class in
    let a = in_closure-add_to_multi_map closure q c path class in
    elim (Bool-cases (is_compatible p (q, c))) [
      | inl k ↦ ih (ground (arith, e, k)) (ground (arith, a, m))
      | inr k ↦ ground (arith, e, k)
    ]

finish_check :
    (q : Bool × Closure) (failed : Bool) (closure : Closure)
    → (if q.0 && failed then none else some q) ≡ some (true, closure)
    → (q ≡ (true, closure)) × (failed ≡ false)
finish_check (true, c) true closure e = ground (arith, e)
finish_check (true, c) false closure e = ground (arith, e)
finish_check (false, c) failed closure e = ground (arith, e)

-- Where `closurePaths` ends without an error, it has yielded the path and the class that it is asked
-- about.
abbrev pub YieldsOwn : Database → Type 0
YieldsOwn db =
    (path class : ℕ)
    → (db.closure_paths path class).1 ≡ false
    → mem_ref path class (db.closure_paths path class).0 ≡ true

module _ (db : Database) (dpe : DerivationClass) where
  check-in_closure :
      (p : Planner) (path class : ℕ) (closure : Closure)
      → check db p path class ≡ some (true, closure)
      → YieldsOwn db
      → in_closure path class closure ≡ true
  unfolding check
  check-in_closure p path class closure e own =
      let (q, no_error) =
        finish_check (check_refs p (db.closure_paths path class).0 [])
          (db.closure_paths path class).1 closure e in
      let m = own path class no_error in
      check_refs-in_closure p (db.closure_paths path class).0 [] closure path class q
        (ground (arith, m))

  -- a closure returned by `pick` has the path with the class
  abbrev HasOwn : Result PlanError (ℕ × Closure) → Type 0
  HasOwn (ok (path, closure)) = YieldsOwn db → in_closure path dpe.class closure ≡ true
  HasOwn (err e) = Unit

  -- what the plan for a class gives back
  record Planned (p p' : Planner) : Type 0 where
    keeps : Extends p p'
    all :
        YieldsOwn db
        → p'.error ≡ none
        → ((path : ℕ) → db.object_exists path ≢ none)
        → (dpe.class == 0) ≡ false
        → has p' dpe.class ≡ true

  fail-Planned : (p : Planner) (e : PlanError) → Planned p (fail db p e)
  fail-Planned p e = record {
    keeps = λ c r h. get-fail db p e c ∙ h;
    all = λ own k o n. ground (arith);
  }

  add_closure-Planned :
      (p : Planner) (present : Bool) (path : ℕ) (closure : Closure)
      → (YieldsOwn db → in_closure path dpe.class closure ≡ true)
      → Planned p (add_closure db present closure p).0
  add_closure-Planned p present path closure i =
      let v = add_closure-Filled db present closure p in
      record { keeps = v.keeps; all = λ own k o n. v.all k (inr o) path dpe.class (i own) n }

  plan_absent-Planned :
      (p : Planner) (r : Result PlanError (ℕ × Closure)) → HasOwn r → Planned p (plan_absent db p r)
  unfolding plan_absent
  plan_absent-Planned p (ok (path, closure)) i = add_closure-Planned p false path closure i
  plan_absent-Planned p (err realization_not_found) i = fail-Planned p realization_not_found
  plan_absent-Planned p (err multiple_realizations) i = fail-Planned p realization_not_found
  plan_absent-Planned p (err database_error) i = fail-Planned p database_error

  pick-HasOwn : (p : Planner) (existing : List ℕ) → HasOwn (pick db p dpe existing)
  pick-HasOwn p existing = picked (pick db p dpe existing) (pick-Picked db p dpe existing)
    where
      picked : (r : Result PlanError (ℕ × Closure)) → Picked db p dpe existing r → HasOwn r
      picked (ok (path, closure)) (skipped, remaining, e, s, v, u, n) =
          λ own. check-in_closure p path dpe.class closure u own
      picked (err e) h = tt

  plan_present-Planned :
      (p : Planner) (absent : List ℕ) (r : Result PlanError (ℕ × Closure))
      → HasOwn r
      → Planned p (plan_present db p dpe absent r)
  unfolding plan_present
  plan_present-Planned p absent (ok (path, closure)) i = add_closure-Planned p true path closure i
  plan_present-Planned p absent (err realization_not_found) i = elim (Option-cases p.absent) [
    | inl e ↦
        subst (Planned p) {x = fail db p realization_not_found} (ground (arith, e))
          (fail-Planned p realization_not_found)
    | inr (classes, e) ↦
        subst (Planned p) {x = plan_absent db p (pick db p dpe absent)} (ground (arith, e))
          (plan_absent-Planned p (pick db p dpe absent) (pick-HasOwn p absent))
  ]
  plan_present-Planned p absent (err multiple_realizations) i = fail-Planned p multiple_realizations
  plan_present-Planned p absent (err database_error) i = fail-Planned p database_error

  unchanged-Planned : (p : Planner) → (p.error ≢ none) ⊎ (has p dpe.class ≡ true) → Planned p p
  unchanged-Planned p h = record {
    keeps = λ c r e. e;
    all = λ own k o n. elim h [ inl f ↦ absurd (f k) | inr f ↦ f ];
  }

  plan-Planned : (p : Planner) → Planned p (plan db p dpe)
  unfolding plan
  plan-Planned p = elim (Option-cases p.error) [
    | inr (e, f) ↦
        subst (Planned p) {x = p} (ground (arith, f))
          (unchanged-Planned p (inl (λ g. ground (arith, f, g))))
    | inl f ↦ elim (Option-cases (get p dpe.class)) [
      | inr (r, g) ↦
          subst (Planned p) {x = p} (ground (arith, f, g))
            (unchanged-Planned p (inr (has-some p dpe.class r g)))
      | inl g ↦ elim (Bool-cases db.savepoint) [
        | inr s ↦
            subst (Planned p) {x = fail db p database_error} (ground (arith, f, g, s))
              (fail-Planned p database_error)
        | inl s ↦ elim (Option-cases (db.possible_realizations dpe.class)) [
          | inl k ↦
              subst (Planned p) {x = fail db p database_error} (ground (arith, f, g, s, k))
                (fail-Planned p database_error)
          | inr ((present, absent), k) ↦
              subst (Planned p) {x = plan_present db p dpe absent (pick db p dpe present)}
                (ground (arith, f, g, s, k))
                (plan_present-Planned p absent (pick db p dpe present) (pick-HasOwn p present))
        ]
      ]
    ]
  ]

-- every class but the zero class has a realization
abbrev pub AllHave : List DerivationClass → Planner → Type 0
AllHave [] p = Unit
AllHave (dpe ∷ dpes) p = ((dpe.class ≡ 0) ⊎ (has p dpe.class ≡ true)) × AllHave dpes p

module _ (db : Database) where
  -- what `planSeq` gives back
  abbrev PlannedAll : List DerivationClass → Planner → Planner → Type 0
  PlannedAll dpes p p' =
      Extends p p'
      × (YieldsOwn db
          → p'.error ≡ none
          → ((path : ℕ) → db.object_exists path ≢ none)
          → AllHave dpes p')

  plan_each-cons :
      (dpe : DerivationClass) (dpes : List DerivationClass) (p : Planner)
      → PlannedAll dpes (plan db p dpe) (plan_each db (plan db p dpe) dpes)
      → PlannedAll (dpe ∷ dpes) p (plan_each db p (dpe ∷ dpes))
  unfolding plan_each
  plan_each-cons dpe dpes p (keeps, all) =
      let v = plan-Planned db dpe p in
      elim (Option-cases (plan db p dpe).error) [
        | inr (e, f) ↦
            subst (PlannedAll (dpe ∷ dpes) p) {x = plan db p dpe} (ground (arith, f))
              (v.keeps, λ own k o. absurd (ground (arith, f, k)))
        | inl f ↦
            subst (PlannedAll (dpe ∷ dpes) p) {x = plan_each db (plan db p dpe) dpes}
              (ground (arith, f))
              (
                λ c r h. keeps c r (v.keeps c r h),
                λ own k o. (
                  elim (Bool-cases (dpe.class == 0)) [
                    | inl z ↦ inl (ground (arith, z))
                    | inr z ↦ inr (
                        has-Extends (plan db p dpe) (plan_each db (plan db p dpe) dpes) dpe.class
                          keeps (v.all own f o z))
                  ],
                  all own k o,
                ),
              )
      ]

  plan_each-PlannedAll :
      (dpes : List DerivationClass) (p : Planner) → PlannedAll dpes p (plan_each db p dpes)
  plan_each-PlannedAll [] p = unfold plan_each in (λ c r e. e, λ own k o. tt)
  plan_each-PlannedAll (dpe ∷ dpes) p =
      plan_each-cons dpe dpes p (plan_each-PlannedAll dpes (plan db p dpe))

  plan_seq-PlannedAll :
      (dpes : List DerivationClass) (p : Planner) → PlannedAll dpes p (plan_seq db p dpes)
  unfolding plan_seq
  plan_seq-PlannedAll dpes p = elim (Option-cases p.error) [
    | inr (e, f) ↦
        subst (PlannedAll dpes p) {x = p} (ground (arith, f))
          (λ c r h. h, λ own k o. absurd (ground (arith, f, k)))
    | inl f ↦ elim (Bool-cases db.savepoint) [
      | inr s ↦
          subst (PlannedAll dpes p) {x = fail db p database_error} (ground (arith, f, s))
            (λ c r h. get-fail db p database_error c ∙ h, λ own k o. absurd (ground (arith, k)))
      | inl s ↦
          subst (PlannedAll dpes p) {x = plan_each db p dpes} (ground (arith, f, s))
            (plan_each-PlannedAll dpes p)
    ]
  ]

  -- Whatever `planSeq` plans, whatever the database answers, and whether it ends in an error or not, no class loses or changes the realization that the planner
  -- has for it.
  pub plan_seq-Extends :
      (dpes : List DerivationClass) (p : Planner) → Extends p (plan_seq db p dpes)
  plan_seq-Extends dpes p = (plan_seq-PlannedAll dpes p).0

  -- Where `closurePaths` has yielded the path and the class that it is asked about whenever it ends
  -- without an error, and `objectExists` gives no error: after `planSeq` without an error the planner has a realization for each class that it was
  -- given, but for the zero class.
  pub plan_seq-AllHave :
      YieldsOwn db
      → (dpes : List DerivationClass) (p : Planner) → (plan_seq db p dpes).error ≡ none
      → ((path : ℕ) → db.object_exists path ≢ none)
      → AllHave dpes (plan_seq db p dpes)
  plan_seq-AllHave own dpes p e o = (plan_seq-PlannedAll dpes p).1 own e o

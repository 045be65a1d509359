-- ===== src/Backend/Planner/Keeps.antt =====
-- The realizations that a planner holds before and after a plan.
use zb.Prelude.{
  ℕ, Bool, true, false, ◌&&◌, ◌||◌, List, [], ◌∷◌, none, some, ◌≡◌, ◌≢◌, refl, sym, ◌∙◌, ap, subst,
  ◌⊎◌, ◌==◌, if◌then◌else◌, arith, Bool-cases, Option-cases, inl, inr,
}
use zb.Backend.Graph.{among}
use zb.Backend.Planner.{
  Closure, Realization, Planner, PlanError, database_error, Database, lookup_realization, get, fail,
  collect, add_planned, add_classes, add_closure,
}

-- What the one planner holds the other holds.
abbrev pub Extends : Planner → Planner → Type 0
Extends p p' = (class : ℕ) (r : Realization) → get p class ≡ some r → get p' class ≡ some r

-- whether there is a realization for a class
unfoldable pub has : Planner → ℕ → Bool
unfolding get
has p class = elim (get p class) [ none ↦ false | some r ↦ true ]

pub has-Extends :
    (p p' : Planner) (class : ℕ) → Extends p p' → has p class ≡ true → has p' class ≡ true
unfolding has
has-Extends p p' class k h = elim (Option-cases (get p class)) [
  | inl e ↦ ground (arith, e, h)
  | inr (r, e) ↦ let f = k class r e in ground (arith, f)
]

pub has-some :
    (p : Planner) (class : ℕ) (r : Realization) → get p class ≡ some r → has p class ≡ true
unfolding has
has-some p class r e = ground (arith, e)

pub get-fail :
    (db : Database) (p : Planner) (e : PlanError) (class : ℕ)
    → get (fail db p e) class ≡ get p class
unfolding get
get-fail db p e class = refl

-- whether a closure has a path with a class
abbrev pub in_closure : ℕ → ℕ → Closure → Bool
in_closure path class [] = false
in_closure path class ((q, classes) ∷ closure) =
    q == path && among class classes || in_closure path class closure

module _ (db : Database) where
  get-add_planned :
      (p : Planner) (class : ℕ) (r : Realization) (b : Bool) (x : ℕ)
      → get (add_planned db p class r b) x ≡ (if class == x then some r else get p x)
  unfolding get add_planned lookup_realization
  get-add_planned p class r b x = ground (arith)

  add_planned-error :
      (p : Planner) (class : ℕ) (r : Realization) (b : Bool)
      → (add_planned db p class r b).error ≡ p.error
  unfolding add_planned
  add_planned-error p class r b = refl

  -- what `add_classes` gives back
  record Added (classes : List ℕ) (p : Planner) (q : Planner × Bool) : Type 0 where
    keeps : Extends p q.0
    stops : q.1 ≡ false → q.0.error ≡ some database_error
    goes_on : q.1 ≡ true → q.0.error ≡ p.error
    all : q.1 ≡ true → (c : ℕ) → among c classes ≡ true → (c == 0) ≡ false → has q.0 c ≡ true

  add_classes-cons :
      (path : ℕ) (b : Bool) (class : ℕ) (classes : List ℕ) (p : Planner)
      → ((p' : Planner) → Added classes p' (add_classes db path b classes p'))
      → Added (class ∷ classes) p (add_classes db path b (class ∷ classes) p)
  unfolding add_classes
  add_classes-cons path b class classes p ih = elim (Bool-cases (class == 0)) [
    | inl z ↦
        let v = ih p in
        subst (Added (class ∷ classes) p) {x = add_classes db path b classes p} (ground (arith, z))
          (record {
            keeps = v.keeps;
            stops = v.stops;
            goes_on = v.goes_on;
            all = λ e c m n. v.all e c (ground (arith, m, n, z)) n;
          })
    | inr z ↦ elim (Option-cases (get p class)) [
      | inr (r, g) ↦
          let v = ih p in
          subst (Added (class ∷ classes) p) {x = add_classes db path b classes p}
            (ground (arith, z, g))
            (record {
              keeps = v.keeps;
              stops = v.stops;
              goes_on = v.goes_on;
              all = λ e c m n. elim (Bool-cases (class == c)) [
                | inl y ↦
                    let q : class ≡ c = ground (arith, y) in
                    has-Extends p (add_classes db path b classes p).0 c v.keeps
                      (has-some p c r (ap (get p) (sym q) ∙ g))
                | inr y ↦ v.all e c (ground (arith, m, y)) n
              ];
            })
      | inl g ↦ elim (Option-cases (collect db path class)) [
        | inl f ↦
            subst (Added (class ∷ classes) p) {x = (fail db p database_error, false)}
              (ground (arith, z, g, f))
              (record {
                keeps = λ c r e. get-fail db p database_error c ∙ e;
                stops = λ e. refl;
                goes_on = λ e. ground (arith);
                all = λ e c m n. ground (arith);
              })
        | inr (closure, f) ↦
            let r : Realization = record { path = path; closure = closure } in
            let v = ih (add_planned db p class r b) in
            subst (Added (class ∷ classes) p)
              {x = add_classes db path b classes (add_planned db p class r b)}
              (ground (arith, z, g, f))
              (record {
                keeps = λ c s e.
                    v.keeps c s (let a = get-add_planned p class r b c in ground (arith, a, e, g));
                stops = v.stops;
                goes_on = λ e. (v.goes_on e ∙ add_planned-error p class r b);
                all = λ e c m n. elim (Bool-cases (class == c)) [
                  | inl y ↦
                      has-Extends (add_planned db p class r b)
                        (add_classes db path b classes (add_planned db p class r b)).0 c v.keeps
                        (has-some (add_planned db p class r b) c r
                          (let a = get-add_planned p class r b c in ground (arith, a, y)))
                  | inr y ↦ v.all e c (ground (arith, m, y)) n
                ];
              })
      ]
    ]
  ]

  add_classes-Added :
      (path : ℕ) (b : Bool) (classes : List ℕ) (p : Planner)
      → Added classes p (add_classes db path b classes p)
  add_classes-Added path b [] p =
      unfold add_classes in
      record {
        keeps = λ c r e. e;
        stops = λ e. ground (arith);
        goes_on = λ e. refl;
        all = λ e c m n. ground (arith);
      }
  add_classes-Added path b (class ∷ classes) p =
      add_classes-cons path b class classes p (λ p'. add_classes-Added path b classes p')

  -- what `add_closure` gives back
  pub record Filled (present : Bool) (closure : Closure) (p : Planner) (q : Planner × Bool)
      : Type 0 where
    pub keeps : Extends p q.0
    pub all :
        q.0.error ≡ none
        → (present ≡ true) ⊎ ((path : ℕ) → db.object_exists path ≢ none)
        → (path c : ℕ) → in_closure path c closure ≡ true
        → (c == 0) ≡ false
        → has q.0 c ≡ true

  add_closure-cons :
      (present : Bool) (path : ℕ) (classes : List ℕ) (closure : Closure) (p : Planner)
      → ((p' : Planner) → Filled present closure p' (add_closure db present closure p'))
      → Filled present
          ((path, classes) ∷ closure)
          p
          (add_closure db present ((path, classes) ∷ closure) p)
  unfolding add_closure
  add_closure-cons present path classes closure p ih =
      elim (Option-cases (if present then some true else db.object_exists path)) [
        | inl e ↦
            subst (Filled present ((path, classes) ∷ closure) p) {x = (p, false)}
              (ground (arith, e))
              (record {
                keeps = λ c r h. h;
                all = λ k o q c m n.
                    absurd (elim o [
                      | inl t ↦ ground (arith, e, t)
                      | inr t ↦ t path (ground (arith, e))
                    ]);
              })
        | inr (b, e) ↦
            let q = add_classes db path b classes p in
            let v = add_classes-Added path b classes p in
            elim (Bool-cases q.1) [
              | inl g ↦
                  let w = ih q.0 in
                  subst (Filled present ((path, classes) ∷ closure) p)
                    {x = add_closure db present closure q.0} (ground (arith, e, g))
                    (record {
                      keeps = λ c r h. w.keeps c r (v.keeps c r h);
                      all = λ k o x c m n. elim (Bool-cases (among c classes)) [
                        | inl a ↦
                            has-Extends q.0 (add_closure db present closure q.0).0 c w.keeps
                              (v.all g c a n)
                        | inr a ↦ w.all k o x c (ground (arith, m, a)) n
                      ];
                    })
              | inr g ↦
                  subst (Filled present ((path, classes) ∷ closure) p) {x = (q.0, false)}
                    (ground (arith, e, g))
                    (record {
                      keeps = v.keeps;
                      all = λ k o x c m n. (let y = v.stops g in ground (arith, y, k));
                    })
            ]
      ]

  pub add_closure-Filled :
      (present : Bool) (closure : Closure) (p : Planner)
      → Filled present closure p (add_closure db present closure p)
  add_closure-Filled present [] p =
      unfold add_closure in record { keeps = λ c r e. e; all = λ k o q c m n. ground (arith) }
  add_closure-Filled present ((path, classes) ∷ closure) p =
      add_closure-cons present path classes closure p (λ p'. add_closure-Filled present closure p')

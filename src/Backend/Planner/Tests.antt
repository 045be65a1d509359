-- ===== src/Backend/Planner/Tests.antt =====
-- The theorems on `realizationPlanner` at a database that knows the paths below 10, each of which is
-- its own closure.
use zb.Prelude.{
  true, false, not, ◌==◌, ltb, if◌then◌else◌, [], ◌∷◌, none, some, ◌≡◌, refl, arith, ok, err,
}
use zb.Backend.Planner.{
  Planner, multiple_realizations, DerivationClass, Database, check_refs, check, get, is_compatible,
  pick, plan_seq,
}
use zb.Backend.Planner.Pick.{Picked, pick-Picked}
use zb.Backend.Planner.Plan.{YieldsOwn, AllHave, plan_seq-Extends, plan_seq-AllHave}
use zb.Backend.Planner.Keeps.{Extends}
use zb.Backend.Planner.Order.{pick_order}

-- 9 is no valid path
abbrev db : Database
db = record {
  is_valid_output_path = λ dpe path. not (path == 9);
  savepoint = true;
  closure_paths = λ path class. if ltb path 10 then ((path, class) ∷ [], false) else ([], true);
  object_exists = λ path. some true;
  possible_realizations = λ class. some (5 ∷ [], []);
  rank = λ path. path;
}

abbrev planner : Planner
planner = record { committed = []; planned = []; absent = some []; error = none }

abbrev dpe : DerivationClass
dpe = record { drv_path = 1; class = 2 }

db_own : YieldsOwn db
db_own path class e = ground (arith, e)

pick-Picked_example : Picked db planner dpe (5 ∷ 9 ∷ []) (pick db planner dpe (5 ∷ 9 ∷ []))
pick-Picked_example = pick-Picked db planner dpe (5 ∷ 9 ∷ [])

plan_seq-Extends_example : Extends planner (plan_seq db planner (dpe ∷ []))
plan_seq-Extends_example = plan_seq-Extends db (dpe ∷ []) planner

plan_no_error : (plan_seq db planner (dpe ∷ [])).error ≡ none
unfolding plan_seq
plan_no_error = refl

plan_seq-AllHave_example : AllHave (dpe ∷ []) (plan_seq db planner (dpe ∷ []))
plan_seq-AllHave_example =
    plan_seq-AllHave db db_own (dpe ∷ []) planner plan_no_error (λ path e. ground (arith))

usable :
    (check db planner 5 2 ≡ some (true, (5, 2 ∷ []) ∷ []))
    × (check db planner 9 2 ≡ some (true, (9, 2 ∷ []) ∷ []))
unfolding check check_refs is_compatible get
usable = (refl, refl)

pick_order_example :
    (pick db planner dpe (9 ∷ 5 ∷ []) ≡ ok (5, (5, 2 ∷ []) ∷ []))
    × (pick db planner dpe (5 ∷ 9 ∷ []) ≡ err multiple_realizations)
pick_order_example =
    pick_order db planner dpe 5 9 ((5, 2 ∷ []) ∷ []) ((9, 2 ∷ []) ∷ []) refl refl refl usable.0
      usable.1

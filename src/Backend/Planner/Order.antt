-- ===== src/Backend/Planner/Order.antt =====
-- The order in which `pick` goes through the paths, which for a map of Go is any.
use zb.Prelude.{ℕ, true, false, [], ◌∷◌, some, ◌≡◌, arith, ok, err}
use zb.Backend.Planner.{
  Closure, Planner, multiple_realizations, DerivationClass, Database, check, select, find_other,
  refuse_other, pick, sort_by, insert_by,
}

-- Of two paths that can both be used, one is not valid: `pick` selects the other where the one
-- that is not valid comes first, and reports several realizations where it comes last.
pub pick_order :
    (db : Database) (p : Planner) (dpe : DerivationClass) (path other : ℕ)
    (closure closure' : Closure)
    → db.savepoint ≡ true
    → db.is_valid_output_path dpe path ≡ true
    → db.is_valid_output_path dpe other ≡ false
    → check db p path dpe.class ≡ some (true, closure)
    → check db p other dpe.class ≡ some (true, closure')
    → (pick db p dpe (other ∷ path ∷ []) ≡ ok (path, closure))
      × (pick db p dpe (path ∷ other ∷ []) ≡ err multiple_realizations)
unfolding pick select refuse_other find_other sort_by insert_by
pick_order db p dpe path other closure closure' s v w u u' =
    (ground (arith, s, v, w, u), ground (arith, s, v, u, u'))

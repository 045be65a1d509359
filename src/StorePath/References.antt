-- ===== src/StorePath/References.antt =====
-- zbstore/path.go: `References`, the store paths that an object refers to, itself apart from the
-- others, as a sorted set.
use zb.Prelude.{
  Bool, true, false, not, ◌&&◌, ◌||◌, List, [], ◌∷◌, length, ◌==◌, ◌≡◌, refl, sym, ◌∙◌, ap,
  if◌then◌else◌, arith, Bool-cases, inl, inr,
}
use zb.Sets.Ordered.{equal, bytes_ordered}
use zb.Sets.Sorted.{add, has, delete}
use zb.Sets.Sorted.Laws.{IsSorted, Sorted_ext, add_lem, delete_lem, has-nil}
use zb.StorePath.Posix.{Bytes}

pub record References : Type 0 where
  pub self : Bool
  pub others : List Bytes

unfoldable pub make_references : Bytes → List Bytes → References
make_references self ref_set =
    let present = has ref_set self in
    record { self = present; others = if present then delete ref_set self else ref_set }

unfoldable pub refs_is_empty : References → Bool
refs_is_empty refs = not refs.self && length refs.others == 0

unfoldable pub to_set : References → Bytes → List Bytes
to_set refs self = if refs.self then add refs.others self else refs.others

pub equal_self : (a : Bytes) → equal a a ≡ true
equal_self a = let i = bytes_ordered.lt_irrefl a in ground (arith, i)

pub equal_same : (a b : Bytes) → equal a b ≡ true → a ≡ b
equal_same a b h = bytes_ordered.lt_total a b (ground (arith, h)) (ground (arith, h))

-- An element of a sorted set that is deleted and added again.
add-delete :
    (set : List Bytes) (x : Bytes) → IsSorted set → has set x ≡ true → add (delete set x) x ≡ set
add-delete set x v h =
    let (v', d) = delete_lem set x v in
    let (w, a) = add_lem (delete set x) x v' in
    Sorted_ext (add (delete set x) x) set w v λ z. same z (a z ∙ ap (λ t. equal x z || t) (d z))
  where
    same :
        (z : Bytes)
        → has (add (delete set x) x) z ≡ equal x z || (not (equal x z) && has set z)
        → has (add (delete set x) x) z ≡ has set z
    same z e = elim (Bool-cases (equal x z)) [
      | inl q ↦ e ∙ ap (λ t. t || (not t && has set z)) q ∙ sym h ∙ ap (has set) (equal_same x z q)
      | inr q ↦ e ∙ ap (λ t. t || (not t && has set z)) q
    ]

not_empty : (set : List Bytes) (x : Bytes) → has set x ≡ true → (length set == 0) ≡ false
not_empty [] x h = absurd (let e = has-nil x in cc)
not_empty (y ∷ set) x h = ground arith

-- For a sorted set of paths and an object's own path: the others among its references are sorted
-- and do not hold that path, the self-reference is set exactly when the set holds it, the
-- references are empty exactly when the set is, and `ToSet` makes the set again.
pub make_references-to_set :
    (self : Bytes) (set : List Bytes)
    → IsSorted set
    → let refs = make_references self set in
      IsSorted refs.others
      × (has refs.others self ≡ false)
      × (refs.self ≡ has set self)
      × (refs_is_empty refs ≡ (length set == 0))
      × (to_set refs self ≡ set)
unfolding make_references refs_is_empty to_set
make_references-to_set self set v = elim (Bool-cases (has set self)) [
  | inl e ↦
      let (w, d) = delete_lem set self v in
      rw e (
        w,
        d self ∙ ap (λ t. not t && has set self) (equal_self self),
        refl,
        sym (not_empty set self e),
        add-delete set self v e,
      )
  | inr e ↦ rw e (v, e, refl, refl, refl)
]

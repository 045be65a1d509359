-- ===== src/Sets/Sorted.antt =====
-- sets/sortedset.go: `Sorted`, a sorted slice of unique elements. A nil set is an empty one here;
-- only the methods that panic on nil tell them apart.
pub mod Laws
use zb.Prelude.{
  ℕ, zero, suc, ◌+◌, Bool, true, false, not, List, [], ◌∷◌, ◌++◌, Option, get_elem?, if◌then◌else◌,
  length,
}
use zb.Sets.Ordered.{Ordered}

module _ {A : Type 0} where
  -- `slices.Insert` of one element
  pub insert_at : List A → ℕ → A → List A
  insert_at xs zero x = x ∷ xs
  insert_at [] (suc i) x = x ∷ []
  insert_at (y ∷ ys) (suc i) x = y ∷ insert_at ys i x

  -- `slices.Delete` of one element
  pub delete_at : List A → ℕ → List A
  delete_at [] i = []
  delete_at (y ∷ ys) zero = ys
  delete_at (y ∷ ys) (suc i) = y ∷ delete_at ys i

module _ {A : Type 0} ⦃o : Ordered A⦄ where
  -- `slices.BinarySearch` on a sorted slice: the first position whose element is not below `x`,
  -- and whether that element is `x`.
  unfoldable pub binary_search : List A → A → ℕ × Bool
  binary_search [] x = (0, false)
  binary_search (y ∷ ys) x =
      let (i, present) = binary_search ys x in
      if o.lt y x then (suc i, present) else (0, not (o.lt x y))

  -- One round of `AddSeq`.
  unfoldable pub add : List A → A → List A
  unfolding insert_at
  add elems x =
      let (i, present) = binary_search elems x in if not present then insert_at elems i x else elems

  -- `Add` and `AddSeq`, by the elements that they add.
  unfoldable pub add_seq : List A → List A → List A
  add_seq elems [] = elems
  add_seq elems (x ∷ xs) = add_seq (add elems x) xs

  unfoldable pub new_sorted : List A → List A
  new_sorted xs = add_seq [] xs

  pub collect_sorted : List A → List A
  collect_sorted xs = add_seq [] xs

  pub add_set : List A → List A → List A
  add_set elems other = add_seq elems other

  unfoldable pub has : List A → A → Bool
  has elems x = (binary_search elems x).1

  unfoldable pub delete : List A → A → List A
  unfolding delete_at
  delete elems x =
      let (i, present) = binary_search elems x in if not present then elems else delete_at elems i

-- `At`; `none` is the panic.
pub at : {A : Type 0} → List A → ℕ → Option A
at elems i = get_elem? elems i

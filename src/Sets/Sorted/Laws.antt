-- ===== src/Sets/Sorted/Laws.antt =====
-- Laws of the sorted slice of sets/sortedset.go: order, lookup, and equality by elements.
use zb.Prelude.{
  Bool, true, false, not, ◌&&◌, ◌||◌, List, [], ◌∷◌, ◌≡◌, refl, sym, ap, ap₂, if◌then◌else◌, arith,
  Bool-cases, inl, inr,
}
use zb.Sets.Ordered.{Ordered, equal}
use zb.Sets.Sorted.{binary_search, add, add_seq, new_sorted, has, delete}

module _ {A : Type 0} ⦃o : Ordered A⦄ where
  -- every element is above `x`
  abbrev pub Above : A → List A → Type 0
  Above x [] = Unit
  Above x (y ∷ ys) = (o.lt x y ≡ true) × Above x ys

  abbrev pub IsSorted : List A → Type 0
  IsSorted [] = Unit
  IsSorted (x ∷ xs) = Above x xs × IsSorted xs

  Above-trans : (x y : A) (ys : List A) → o.lt x y ≡ true → Above y ys → Above x ys
  Above-trans x y [] p q = tt
  Above-trans x y (z ∷ zs) p q = (o.lt_trans x y z p q.0, Above-trans x y zs p q.1)

  Above-add : (x z : A) (ys : List A) → o.lt x z ≡ true → Above x ys → Above x (add ys z)
  unfolding add binary_search
  Above-add x z [] p q = (p, tt)
  Above-add x z (y ∷ ys) p q = ground (arith, Above-add x z ys p)

  -- `add` on a slice that begins with `y`
  pub add-cons :
      (y : A) (ys : List A) (x : A)
      → add (y ∷ ys) x
        ≡ (if o.lt y x then y ∷ add ys x else if o.lt x y then x ∷ y ∷ ys else y ∷ ys)
  unfolding add binary_search
  add-cons y ys x = ground arith

  has-cons :
      (y : A) (ys : List A) (x : A)
      → has (y ∷ ys) x ≡ (if o.lt y x then has ys x else not (o.lt x y))
  unfolding has binary_search
  has-cons y ys x = ground arith

  delete-cons :
      (y : A) (ys : List A) (x : A)
      → delete (y ∷ ys) x ≡ (if o.lt y x then y ∷ delete ys x else if o.lt x y then y ∷ ys else ys)
  unfolding delete binary_search
  delete-cons y ys x = ground arith

  pub has-nil : (x : A) → has [] x ≡ false
  unfolding has binary_search
  has-nil x = refl

  -- Adding an element keeps the slice sorted, with no element twice.
  pub add-IsSorted : (s : List A) (x : A) → IsSorted s → IsSorted (add s x)
  add-IsSorted [] x v = unfold add binary_search in (tt, tt)
  add-IsSorted (y ∷ ys) x v = elim (Bool-cases (o.lt y x)) [
    | inl below ↦ rw (add-cons y ys x, below) (Above-add y x ys below v.0, add-IsSorted ys x v.1)
    | inr other ↦ elim (Bool-cases (o.lt x y)) [
      | inl above ↦ rw (add-cons y ys x, other, above) ((above, Above-trans x y ys above v.0), v)
      | inr same ↦ rw (add-cons y ys x, other, same) v
    ]
  ]

  Above-delete : (x z : A) (ys : List A) → Above x ys → Above x (delete ys z)
  Above-delete x z [] p = unfold delete binary_search in tt
  Above-delete x z (y ∷ ys) p = elim (Bool-cases (o.lt y z)) [
    | inl below ↦ rw (delete-cons y ys z, below) (p.0, Above-delete x z ys p.1)
    | inr other ↦ elim (Bool-cases (o.lt z y)) [
      | inl above ↦ rw (delete-cons y ys z, other, above) p
      | inr same ↦ rw (delete-cons y ys z, other, same) p.1
    ]
  ]

  -- Deleting an element keeps the slice sorted.
  pub delete-IsSorted : (s : List A) (x : A) → IsSorted s → IsSorted (delete s x)
  delete-IsSorted [] x v = unfold delete binary_search in tt
  delete-IsSorted (y ∷ ys) x v = elim (Bool-cases (o.lt y x)) [
    | inl below ↦ rw (delete-cons y ys x, below) (Above-delete y x ys v.0, delete-IsSorted ys x v.1)
    | inr other ↦ elim (Bool-cases (o.lt x y)) [
      | inl above ↦ rw (delete-cons y ys x, other, above) v
      | inr same ↦ rw (delete-cons y ys x, other, same) v.1
    ]
  ]

  -- what lies below every element is not in the slice
  has-Above : (x z : A) (ys : List A) → Above x ys → o.lt x z ≡ false → has ys z ≡ false
  has-Above x z [] p q = has-nil z
  has-Above x z (y ∷ ys) p q =
      ground (arith, has-cons y ys z, o.lt_trans x y z p.0, o.lt_total x z, o.lt_trans z x y, p.0)

  -- elements that are equal by the order lie on the same side of any other
  equal-lt : (x z y : A) → equal x z ≡ true → o.lt y x ≡ o.lt y z
  equal-lt x z y e = ap (o.lt y) (o.lt_total x z (ground arith) (ground arith))

  equal-has : (x z : A) (ys : List A) → Above x ys → equal x z ≡ true → has ys z ≡ false
  equal-has x z ys p e = has-Above x z ys p (ground arith)

  -- Looking up after `Add`: the element added is there, and nothing else has changed.
  pub has-add : (s : List A) (x z : A) → IsSorted s → has (add s x) z ≡ equal x z || has s z
  has-add [] x z v =
      unfold add in unfold binary_search in ground (arith, has-cons x [] z, has-nil z)
  has-add (y ∷ ys) x z v = elim (Bool-cases (o.lt y x)) [
    | inl below ↦
        rw (add-cons y ys x, below)
          (ground
            (arith, has-cons y (add ys x) z, has-cons y ys z, has-add ys x z v.1, equal-lt x z y))
    | inr other ↦ elim (Bool-cases (o.lt x y)) [
      | inl above ↦
          rw (add-cons y ys x, other, above)
            (ground (
              arith,
              has-cons x (y ∷ ys) z,
              has-cons y ys z,
              o.lt_trans z x y,
              o.lt_trans y z y,
              o.lt_irrefl y,
            ))
      | inr same ↦
          rw (add-cons y ys x, other, same)
            (ground (arith, has-cons y ys z, o.lt_total x y same other, o.lt_irrefl y))
    ]
  ]

  -- Looking up after `Delete`: the element deleted is not there, and nothing else has changed.
  pub has-delete :
      (s : List A) (x z : A) → IsSorted s → has (delete s x) z ≡ not (equal x z) && has s z
  has-delete [] x z v = unfold delete in unfold binary_search in ground (arith, has-nil z)
  has-delete (y ∷ ys) x z v = elim (Bool-cases (o.lt y x)) [
    | inl below ↦
        rw (delete-cons y ys x, below)
          (ground (
            arith,
            has-cons y (delete ys x) z,
            has-cons y ys z,
            has-delete ys x z v.1,
            equal-lt x z y,
          ))
    | inr other ↦ elim (Bool-cases (o.lt x y)) [
      | inl above ↦
          rw (delete-cons y ys x, other, above)
            (ground (
              arith,
              has-cons y ys z,
              equal-has x z (y ∷ ys) (above, Above-trans x y ys above v.0),
            ))
      | inr same ↦
          rw (delete-cons y ys x, other, same)
            (ground (arith, has-cons y ys z, has-Above y z ys v.0, o.lt_total x y same other))
    ]
  ]

  has_self : (x : A) (xs : List A) → has (x ∷ xs) x ≡ true
  has_self x xs = ground (arith, has-cons x xs x, o.lt_irrefl x)

  not_below :
      (x y : A) (xs ys : List A) → Above y ys → has (x ∷ xs) x ≡ has (y ∷ ys) x → o.lt x y ≡ false
  not_below x y xs ys p e =
      ground (arith, has_self x xs, has-cons y ys x, o.lt_trans y x y, o.lt_irrefl y)

  -- Two sorted slices that hold the same elements are the same slice.
  pub Sorted_ext : (s t : List A) → IsSorted s → IsSorted t → ((z : A) → has s z ≡ has t z) → s ≡ t
  Sorted_ext [] [] v w h = refl
  Sorted_ext [] (y ∷ ys) v w h = ground (arith, h y, has_self y ys, has-nil y)
  Sorted_ext (x ∷ xs) [] v w h = ground (arith, h x, has_self x xs, has-nil x)
  Sorted_ext (x ∷ xs) (y ∷ ys) v w h = ap₂ ◌∷◌ heads (Sorted_ext xs ys v.1 w.1 λ z. tails z)
    where
      heads : x ≡ y
      heads = o.lt_total x y (not_below x y xs ys w.0 (h x)) (not_below y x ys xs v.0 (sym (h y)))

      tails : (z : A) → has xs z ≡ has ys z
      tails z = ground (
        arith,
        h z,
        heads,
        has-cons x xs z,
        has-cons y ys z,
        has-Above x z xs v.0,
        has-Above y z ys w.0,
      )

  -- whether `z` is among the elements given
  abbrev pub among : List A → A → Bool
  among [] z = false
  among (x ∷ xs) z = equal x z || among xs z

  pub add_seq-has :
      (s xs : List A)
      → IsSorted s
      → IsSorted (add_seq s xs) × ((z : A) → has (add_seq s xs) z ≡ among xs z || has s z)
  unfolding add_seq
  add_seq-has s [] v = (v, λ z. refl)
  add_seq-has s (x ∷ xs) v =
      let (w, h) = add_seq-has (add s x) xs (add-IsSorted s x v) in
      (w, λ z. ground (arith, h z, has-add s x z v))

  -- `Add` keeps the slice sorted, and afterwards the set holds the element added and what it held
  -- before.
  pub add_lem :
      (s : List A) (x : A)
      → IsSorted s
      → IsSorted (add s x) × ((z : A) → has (add s x) z ≡ equal x z || has s z)
  add_lem s x v = (add-IsSorted s x v, λ z. has-add s x z v)

  -- `Delete` keeps the slice sorted, and afterwards the set holds what it held before but for the
  -- element deleted.
  pub delete_lem :
      (s : List A) (x : A)
      → IsSorted s
      → IsSorted (delete s x) × ((z : A) → has (delete s x) z ≡ not (equal x z) && has s z)
  delete_lem s x v = (delete-IsSorted s x v, λ z. has-delete s x z v)

  -- `NewSorted` of any elements in any order, with repetitions: the set is sorted, it holds
  -- exactly the elements given, and two calls that are given the same elements return the same.
  pub new_sorted_lem :
      (xs : List A)
      → IsSorted (new_sorted xs)
        × ((z : A) → has (new_sorted xs) z ≡ among xs z)
        × ((ys : List A) → ((z : A) → among xs z ≡ among ys z) → new_sorted xs ≡ new_sorted ys)
  unfolding new_sorted
  new_sorted_lem xs =
      let (v, h) = add_seq-has [] xs tt in
      (
        v,
        λ z. ground (arith, h z, has-nil z),
        λ ys e.
            let (w, k) = add_seq-has [] ys tt in
            Sorted_ext _ _ v w λ z. ground (arith, h z, k z, e z),
      )

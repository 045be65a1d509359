-- ===== src/Deque.antt =====
-- internal/deque/deque.go: a double-ended queue in a slice that is used as a ring. A nil deque is
-- an empty one. What `slices.Grow` gives beyond the request is a parameter, and so is the zero
-- value of the elements. A panic is `none`.
pub mod Push
pub mod Grow
mod Tests
use zb.Prelude.{
  ℕ, zero, suc, ◌+◌, ◌-◌, Bool, true, false, List, [], ◌∷◌, ◌++◌, Option, none, some, leb, ltb,
  ◌==◌, if◌then◌else◌, length, get_elem?, set, take, drop, replicate,
}
use zb.Prelude.Int.{ℤ, pos, negsuc}

pub record Deque (A : Type 0) : Type 0 where
  pub slice : List A
  pub start : ℕ
  pub n : ℕ

module _ {A : Type 0} where
  abbrev pub empty : Deque A
  empty = record { slice = []; start = 0; n = 0 }

  pub len : Deque A → ℕ
  len d = d.n

  pub cap : Deque A → ℕ
  cap d = length d.slice

  unfoldable pub index : Deque A → ℕ → ℕ
  index d i = let i' = i + d.start in if leb (length d.slice) i' then i' - length d.slice else i'

  -- A slice expression, from one index up to another.
  pub subslice : List A → ℕ → ℕ → Option (List A)
  subslice xs i j =
      if leb i j then (if leb j (length xs) then some (drop i (take j xs)) else none) else none

  -- The two parts of the slice as pairs of indices.
  unfoldable pub logical_slice : Deque A → ℕ → ℕ → (ℕ × ℕ) × (ℕ × ℕ)
  unfolding index
  logical_slice d i j =
      let i' = index d i in
      let j0 = j + d.start in
      let j' = if ltb (length d.slice) j0 then j0 - length d.slice else j0 in
      if leb i' j' then ((i', j'), (0, 0)) else ((i', length d.slice), (0, j'))

  -- The loop of `All` and `Values`: `m` rounds from the element `i` on.
  unfoldable pub values_from : ℕ → ℕ → Deque A → Option (List A)
  unfolding index
  values_from zero i d = some []
  values_from (suc m) i d = elim (get_elem? d.slice (index d i)) [
    | none ↦ none
    | some x ↦ elim (values_from m (suc i) d) [ none ↦ none | some xs ↦ some (x ∷ xs) ]
  ]

  unfoldable pub values : Deque A → Option (List A)
  unfolding values_from
  values d = values_from d.n 0 d

  -- `Front`, `Back`: the element if there is one; the outer `none` is the panic.
  pub front : Deque A → Option (Option A)
  front d =
      if d.n == 0
      then some none
      else elim (get_elem? d.slice d.start) [ none ↦ none | some x ↦ some (some x) ]

  pub back : Deque A → Option (Option A)
  unfolding index
  back d =
      if d.n == 0
      then some none
      else elim (get_elem? d.slice (index d (d.n - 1))) [ none ↦ none | some x ↦ some (some x) ]

  -- `clear` of the part of a slice between two indices
  pub clear_range : A → List A → ℕ → ℕ → List A
  clear_range zero_value xs i j = take i xs ++ replicate (j - i) zero_value ++ drop j xs

  module _ (zero_value : A) (spare : ℕ → ℕ → ℕ) where
    -- The end of `PopFront` and `PopBack`: both parts are cleared; `none` where a part lies
    -- outside the slice.
    pub clear_parts : Deque A → ℕ → ℕ → Option (List A)
    unfolding logical_slice subslice clear_range
    clear_parts d i j =
        let ((a, b), (c, e)) = logical_slice d i j in
        elim (subslice d.slice a b) [
          | none ↦ none
          | some s1 ↦ elim (subslice d.slice c e) [
            | none ↦ none
            | some s2 ↦ some (clear_range zero_value (clear_range zero_value d.slice a b) c e)
          ]
        ]

    unfoldable pub grow : Deque A → ℤ → Option (Deque A)
    unfolding logical_slice subslice
    grow d (negsuc k) = none
    grow d (pos k) =
        let ((a, b), (c, e)) = logical_slice d 0 d.n in
        if leb (d.n + k) (length d.slice) then some d else elim (subslice d.slice a b) [
          | none ↦ none
          | some s1 ↦ elim (subslice d.slice c e) [
            | none ↦ none
            | some s2 ↦
                let s = s1 ++ s2 in
                some (record d { slice = s ++ replicate (k + spare (length s) k) zero_value })
          ]
        ]

    -- The loop of `PushBack`.
    unfoldable pub append_back : List A → Deque A → Option (Deque A)
    unfolding index
    append_back [] d = some d
    append_back (x ∷ elems) d =
        if ltb (index d d.n) (length d.slice)
        then append_back elems (record d { slice = set d.slice (index d d.n) x; n = d.n + 1 })
        else none

    unfoldable pub push_back : List A → Deque A → Option (Deque A)
    unfolding grow append_back
    push_back elems d = elim (grow d (pos (length elems))) [
      | none ↦ none
      | some d' ↦ append_back elems d'
    ]

    -- `d.start--`, and back to the end of the slice below 0
    pub step_back : Deque A → ℕ
    step_back d = if d.start == 0 then length d.slice - 1 else d.start - 1

    -- The loop of `PushFront`, on the elements from the last to the first.
    unfoldable pub prepend_front : List A → Deque A → Option (Deque A)
    unfolding step_back
    prepend_front [] d = some d
    prepend_front (x ∷ rest) d =
        let start = step_back d in
        if ltb start (length d.slice)
        then prepend_front rest (record { slice = set d.slice start x; start = start; n = d.n + 1 })
        else none

    pub reverse : List A → List A
    reverse [] = []
    reverse (x ∷ xs) = reverse xs ++ x ∷ []

    unfoldable pub push_front : List A → Deque A → Option (Deque A)
    unfolding grow prepend_front reverse
    push_front elems d = elim (grow d (pos (length elems))) [
      | none ↦ none
      | some d' ↦
          if d'.n == 0
          then some (record {
            slice = elems ++ drop (length elems) d'.slice;
            start = 0;
            n = length elems;
          })
          else prepend_front (reverse elems) d'
    ]

    unfoldable pub pop_front : ℤ → Deque A → Option (Deque A)
    unfolding clear_parts
    pop_front (negsuc k) d = none
    pop_front (pos k) d =
        if k == 0 then some d else if ltb d.n k then none else elim (clear_parts d 0 k) [
          | none ↦ none
          | some s ↦
              some
                (record { slice = s; start = if d.n - k == 0 then 0 else d.start + k; n = d.n - k })
        ]

    unfoldable pub pop_back : ℤ → Deque A → Option (Deque A)
    unfolding clear_parts
    pop_back (negsuc k) d = none
    pop_back (pos k) d =
        if k == 0 then some d else if ltb d.n k then none else elim (clear_parts d (d.n - k) d.n) [
          | none ↦ none
          | some s ↦
              some (record { slice = s; start = if d.n - k == 0 then 0 else d.start; n = d.n - k })
        ]

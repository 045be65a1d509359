-- ===== src/Deque/Push.antt =====
-- `PushBack` where the slice has room.
use zb.Prelude.{
  ℕ, zero, suc, ◌+◌, ◌≤◌, ◌<◌, List, [], ◌∷◌, ◌++◌, append_assoc, append-nil, Option, none, some,
  length, get_elem?, set, length-set, get_elem?-set_self, get_elem?-set_ne, ◌≡◌, ◌≢◌, refl, sym,
  ◌∙◌, ap, subst, arith,
}
use zb.Deque.{Deque, index, values_from, values, grow, append_back, push_back}

-- The ring stands inside the slice, and there is a slice.
pub record IsRing {A : Type 0} (d : Deque A) : Type 0 where
  pub start_lt : d.start < length d.slice
  pub n_le : d.n ≤ length d.slice

module _ {A : Type 0} where
  get_elem?-some : (xs : List A) (i : ℕ) → i < length xs → (x : A) × (get_elem? xs i ≡ some x)
  get_elem?-some [] i h = elim h [ ]
  get_elem?-some (x ∷ xs) zero h = (x, refl)
  get_elem?-some (x ∷ xs) (suc i) h = get_elem?-some xs i (omega arith)

  index-lt : (d : Deque A) (i : ℕ) → IsRing d → i < length d.slice → index d i < length d.slice
  unfolding index
  index-lt d i r h = let s = r.start_lt in ground (arith, s)

  index-ne : (d : Deque A) (i j : ℕ) → IsRing d → i < j → j < length d.slice → index d j ≢ index d i
  unfolding index
  index-ne d i j r h k = let s = r.start_lt in ground (arith, s)

  -- what one round of `PushBack` makes of the deque
  abbrev pushed : Deque A → A → Deque A
  pushed d x = record d { slice = set d.slice (index d d.n) x; n = d.n + 1 }

  pushed-IsRing : (d : Deque A) (x : A) → IsRing d → d.n < length d.slice → IsRing (pushed d x)
  pushed-IsRing d x r h =
      let l = length-set d.slice (index d d.n) x in
      let s = r.start_lt in record { start_lt = ground (arith, l, s); n_le = ground (arith, l) }

  index-pushed : (d : Deque A) (x : A) (i : ℕ) → index (pushed d x) i ≡ index d i
  unfolding index
  index-pushed d x i = let l = length-set d.slice (index d d.n) x in rw l refl

  values_from-suc :
      (m i : ℕ) (d : Deque A) (x : A) (xs : List A)
      → get_elem? d.slice (index d i) ≡ some x
      → values_from m (suc i) d ≡ some xs
      → values_from (suc m) i d ≡ some (x ∷ xs)
  unfolding values_from
  values_from-suc m i d x xs e e' = ground (arith, e, e')

  values_from-pushed :
      (m i : ℕ) (d : Deque A) (x : A)
      → IsRing d
      → i + m ≡ d.n
      → d.n < length d.slice
      → (xs : List A) × (values_from m i d ≡ some xs)
        × (values_from (suc m) i (pushed d x) ≡ some (xs ++ x ∷ []))
  values_from-pushed zero i d x r e h =
      let q : d.n ≡ i = omega arith in
      let g = get_elem?-set_self d.slice (index d d.n) x (index-lt d d.n r h) in
      let g' =
        ap (λ (k : ℕ). get_elem? (set d.slice (index d d.n) x) k)
          (index-pushed d x i ∙ ap (λ (k : ℕ). index d k) (sym q))
        ∙ g in
      (
        [],
        unfold values_from in refl,
        values_from-suc 0 i (pushed d x) x [] g' (unfold values_from in refl),
      )
  values_from-pushed (suc m) i d x r e h =
      let (y, g) = get_elem?-some d.slice (index d i) (index-lt d i r (omega arith)) in
      let (xs, v, v') = values_from-pushed m (suc i) d x r (omega arith) h in
      let g' =
        ap (λ (k : ℕ). get_elem? (set d.slice (index d d.n) x) k) (index-pushed d x i)
        ∙ get_elem?-set_ne d.slice x (index-ne d i d.n r (omega arith) h)
        ∙ g in
      (
        y ∷ xs,
        values_from-suc m i d y xs g v,
        values_from-suc (suc m) i (pushed d x) y (xs ++ x ∷ []) g' v',
      )

  values-pushed :
      (d : Deque A) (x : A)
      → IsRing d
      → d.n < length d.slice
      → (xs : List A) × (values d ≡ some xs) × (values (pushed d x) ≡ some (xs ++ x ∷ []))
  unfolding values
  values-pushed d x r h =
      let (xs, v, v') = values_from-pushed d.n 0 d x r (omega arith) h in
      let e : suc d.n ≡ d.n + 1 = omega arith in
      (xs, v, subst (λ (k : ℕ). values_from k 0 (pushed d x) ≡ some (xs ++ x ∷ [])) e v')

  append_back-suc :
      (zero_value : A) (spare : ℕ → ℕ → ℕ) (x : A) (elems : List A) (d : Deque A)
      → IsRing d
      → d.n < length d.slice
      → append_back zero_value spare (x ∷ elems) d ≡ append_back zero_value spare elems (pushed d x)
  unfolding append_back
  append_back-suc zero_value spare x elems d r h = let l = index-lt d d.n r h in ground (arith, l)

  values-total : (d : Deque A) → IsRing d → (xs : List A) × (values d ≡ some xs)
  unfolding values
  values-total d r = go d.n 0 (ground (arith, r.n_le))
    where
      go : (m i : ℕ) → i + m ≤ length d.slice → (xs : List A) × (values_from m i d ≡ some xs)
      go zero i h = ([], unfold values_from in refl)
      go (suc m) i h =
          let (x, g) = get_elem?-some d.slice (index d i) (index-lt d i r (omega arith)) in
          let (xs, v) = go m (suc i) (omega arith) in (x ∷ xs, values_from-suc m i d x xs g v)

  append_back-values :
      (zero_value : A) (spare : ℕ → ℕ → ℕ) (elems : List A) (d : Deque A) (xs : List A)
      → IsRing d
      → d.n + length elems ≤ length d.slice
      → values d ≡ some xs
      → (d' : Deque A) × (append_back zero_value spare elems d ≡ some d')
        × (values d' ≡ some (xs ++ elems))
        × IsRing d'
  append_back-values zero_value spare [] d xs r h v =
      (d, unfold append_back in refl, v ∙ ap (λ (ys : List A). some ys) (sym (append-nil xs)), r)
  append_back-values zero_value spare (x ∷ elems) d xs r h v =
      let k : d.n < length d.slice = omega arith in
      let (ys, v', w) = values-pushed d x r k in
      let same : some (ys ++ x ∷ []) ≡ some (xs ++ x ∷ []) =
        ap (λ (o : Option (List A)). elim o [ none ↦ none | some zs ↦ some (zs ++ x ∷ []) ])
          (sym v' ∙ v) in
      let l = length-set d.slice (index d d.n) x in
      let (d', p, q, r') =
        append_back-values zero_value spare elems (pushed d x) (xs ++ x ∷ [])
          (pushed-IsRing d x r k) (omega (arith, l, h)) (w ∙ same) in
      (
        d',
        append_back-suc zero_value spare x elems d r k ∙ p,
        q ∙ ap (λ (zs : List A). some zs) (append_assoc xs (x ∷ []) elems),
        r',
      )

  -- In a deque whose start is inside its slice, whose elements are no more than the slice is long,
  -- and whose slice has room for the new elements: `PushBack` does not panic, `Values` gives the old
  -- elements and then the new ones, and the start and the elements still stand inside the slice.
  pub push_back-values :
      (zero_value : A) (spare : ℕ → ℕ → ℕ) (elems : List A) (d : Deque A)
      → IsRing d
      → d.n + length elems ≤ length d.slice
      → (xs : List A) × (d' : Deque A) × (values d ≡ some xs)
        × (push_back zero_value spare elems d ≡ some d')
        × (values d' ≡ some (xs ++ elems))
        × IsRing d'
  push_back-values zero_value spare elems d r h =
      let (xs, v) = values-total d r in
      let (d', p, q, r') = append_back-values zero_value spare elems d xs r h v in
      (xs, d', v, unfold push_back grow in ground (arith, h, p), q, r')

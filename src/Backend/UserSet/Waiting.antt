-- ===== src/Backend/UserSet/Waiting.antt =====
-- When `acquire` of internal/backend/user_set.go is told to wait.
use zb.Prelude.{
  ℕ, zero, suc, ◌+◌, ◌<◌, ◌≤◌, true, List, [], ◌∷◌, none, ◌≡◌, sym, ◌∙◌, length, arith,
  Option-cases, inl, inr,
}
use native.Mathlib.Decide.{dec_lt}
use zb.Sets.Bit.{Bit, has, len, all}
use zb.Sets.Bit.Elements.{among, Ascending, all_lem, length-all}
use zb.Backend.UserSet.{BuildUser, System, try_acquire, first_free, uids_unique, Reach, start, mem}
use zb.Backend.UserSet.Exclusion.{IsExclusive, Reach-IsExclusive}

-- all the elements are below `hi`
abbrev Below : ℕ → List ℕ → Type 0
Below hi [] = Unit
Below hi (x ∷ xs) = (x < hi) × Below hi xs

Below-of_among : (hi : ℕ) (xs : List ℕ) → ((y : ℕ) → among xs y ≡ true → y < hi) → Below hi xs
Below-of_among hi [] h = tt
Below-of_among hi (x ∷ xs) h = (h x (ground arith), Below-of_among hi xs λ y m. h y (ground arith))

length_bound :
    (lo hi : ℕ) (xs : List ℕ) → Ascending lo xs → Below hi xs → lo ≤ hi → lo + length xs ≤ hi
length_bound lo hi [] a b h = omega arith
length_bound lo hi (x ∷ xs) a b h = omega (arith, length_bound (x + 1) hi xs a.1 b.1 (omega arith))

-- an ascending list of as many numbers as there are has them all
pigeonhole :
    (lo hi : ℕ) (xs : List ℕ)
    → Ascending lo xs
    → Below hi xs
    → hi ≤ lo + length xs
    → (y : ℕ) → lo ≤ y
    → y < hi
    → among xs y ≡ true
pigeonhole lo hi [] a b h y p q = absurd (omega arith)
pigeonhole lo hi (x ∷ xs) a b h y p q =
    let bound = length_bound (x + 1) hi xs a.1 b.1 (omega arith) in
    let first : x ≡ lo = omega arith in
    elim (dec_lt lo y) [
      | yes later ↦ ground (arith, pigeonhole (x + 1) hi xs a.1 b.1 (omega arith) y (omega arith) q)
      | no now ↦ ground arith
    ]

first_free-none :
    (n i : ℕ) (b : Bit) → first_free n i b ≡ none → (k : ℕ) → i ≤ k → k < i + n → has b k ≡ true
unfolding first_free
first_free-none zero i b e k p q = absurd (omega arith)
first_free-none (suc n) i b e k p q = elim (dec_lt i k) [
  | yes later ↦ first_free-none n (suc i) b (ground arith) k (omega arith) (omega arith)
  | no now ↦ let same : i ≡ k = omega arith in ground (arith, same)
]

-- In every state that the goroutines reach from the start, a call of `acquire` is told to wait
-- only if every user is held.
pub wait-full :
    (spare : ℕ → ℕ → ℕ) (users : List BuildUser)
    → uids_unique users ≡ true
    → {s : System} → Reach spare users start s
    → try_acquire spare users s.set.in_use ≡ none
    → (i : ℕ) → i < length users
    → mem i s.held ≡ true
wait-full spare users unique {s} r e i h = sym (v.tracked i) ∙ in_use
  where
    b : Bit
    b = s.set.in_use

    v : IsExclusive users s
    v = Reach-IsExclusive spare users unique r

    below : Below (length users) (all b)
    below =
        Below-of_among (length users) (all b)
          λ y m. v.in_range y (sym (v.tracked y) ∙ sym ((all_lem b).0 y) ∙ m)

    in_use : has b i ≡ true
    in_use = elim (dec_lt (len b) (length users)) [
      | yes room ↦ elim (Option-cases (first_free (length users) 0 b)) [
        | inl p ↦ first_free-none (length users) 0 b p i (omega arith) (omega arith)
        | inr (k, p) ↦ absurd (let free : ⊥ = unfold try_acquire in ground (arith, p) in free)
      ]
      | no full ↦
          sym ((all_lem b).0 i)
          ∙ pigeonhole 0 (length users) (all b) (all_lem b).1 below (omega (arith, length-all b)) i
              (omega arith) h
    ]

-- ===== src/Deque/Grow.antt =====
-- `Grow` of a deque whose elements fill the slice and wrap around its end.
use zb.Prelude.{
  ℕ, zero, suc, ◌+◌, ◌<◌, List, [], ◌∷◌, some, length, take, drop, replicate, ◌≡◌, refl, arith,
}
use zb.Prelude.Int.{pos}
use zb.Deque.{Deque, grow}

module _ {A : Type 0} where
  drop-take : (n : ℕ) (xs : List A) → drop n (take n xs) ≡ []
  drop-take zero xs = refl
  drop-take (suc n) [] = refl
  drop-take (suc n) (x ∷ xs) = drop-take n xs

  -- Where the elements fill the slice and do not begin at its first position, `Grow` for at least
  -- one more element gives a slice that has only zero values, though the count of the elements
  -- stays: every element is lost.
  pub grow-full :
      (zero_value : A) (spare : ℕ → ℕ → ℕ) (d : Deque A) (k : ℕ)
      → d.n ≡ length d.slice
      → 0 < d.start
      → d.start < length d.slice
      → 0 < k
      → grow zero_value spare d (pos k)
        ≡ some (record d { slice = replicate (k + spare 0 k) zero_value })
  unfolding grow
  grow-full zero_value spare d k full s h p =
      let e = drop-take d.start d.slice in ground (arith, e, full, s, h, p)

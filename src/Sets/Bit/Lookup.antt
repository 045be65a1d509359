-- ===== src/Sets/Bit/Lookup.antt =====
-- Looking up an element after an operation of `Bit`.
use zb.Prelude.{
  ℕ, zero, suc, ◌+◌, ◌-◌, ◌/◌, ◌%◌, ◌^◌, ◌≤◌, ◌<◌, bit_or, not, ◌&&◌, ◌||◌, List, [], ◌∷◌, ◌++◌,
  ◌≡◌, refl, leb, ◌==◌, if◌then◌else◌, arith, length, length-append, get_or, set, replicate,
  length-replicate,
}
use native.Mathlib.Decide.{dec_lt}
use zb.Prelude.Bits.{
  bit_at, and_not, bit_at-zero, bit_at-bit_or, bit_at-pow, bit_at-and_not, pow_two_lt,
}
use zb.Sets.Bit.{Bit, bit_word_size, add, grow, has, delete}

get_or-replicate : (n i : ℕ) → ◌≡◌ {A = ℕ} (get_or (replicate n 0) i 0) 0
get_or-replicate zero i = refl
get_or-replicate (suc n) zero = refl
get_or-replicate (suc n) (suc i) = get_or-replicate n i

get_or-grow : (ws : List ℕ) (n i : ℕ) → get_or (ws ++ replicate n 0) i 0 ≡ get_or ws i 0
get_or-grow [] n i = get_or-replicate n i
get_or-grow (w ∷ ws) n zero = refl
get_or-grow (w ∷ ws) n (suc i) = get_or-grow ws n i

get_or-set :
    (ws : List ℕ) (i j v : ℕ)
    → i < length ws
    → get_or (set ws i v) j 0 ≡ (if i == j then v else get_or ws j 0)
get_or-set [] i j v h = absurd (omega arith)
get_or-set (w ∷ ws) zero zero v h = refl
get_or-set (w ∷ ws) zero (suc j) v h = ground arith
get_or-set (w ∷ ws) (suc i) zero v h = ground arith
get_or-set (w ∷ ws) (suc i) (suc j) v h = ground (arith, get_or-set ws i j v)

get_or_out : (ws : List ℕ) (i : ℕ) → length ws ≤ i → get_or ws i 0 ≡ 0
get_or_out [] i h = refl
get_or_out (w ∷ ws) zero h = absurd (omega arith)
get_or_out (w ∷ ws) (suc i) h = get_or_out ws i (omega arith)

-- a word out of range reads as zero
pub has-word :
    (s : Bit) (x : ℕ) → has s x ≡ bit_at (get_or s.words (x / bit_word_size) 0) (x % bit_word_size)
unfolding has
has-word s x = ground (arith, get_or_out s.words (x / 64), bit_at-zero (x % 64))

module _ (spare : ℕ → ℕ → ℕ) where
  -- the words that `add` writes to
  grown : Bit → ℕ → List ℕ
  grown s x =
      let i = x / bit_word_size in
      if leb (length s.words) i then grow spare s.words (i - length s.words + 1) else s.words

  length-grown : (s : Bit) (x : ℕ) → x / 64 < length (grown s x)
  unfolding grown grow
  length-grown s x =
      let n = x / 64 - length s.words + 1 in
      let k = n + spare (length s.words) n in
      ground (arith, length-append s.words (replicate k 0), length-replicate {A = ℕ} k 0)

  get_or-grown : (s : Bit) (x j : ℕ) → get_or (grown s x) j 0 ≡ get_or s.words j 0
  unfolding grown grow
  get_or-grown s x j =
      let n = x / 64 - length s.words + 1 in
      ground (arith, get_or-grow s.words (n + spare (length s.words) n) j)

  words-add :
      (s : Bit) (x : ℕ)
      → (add spare s x).words
        ≡ set (grown s x) (x / 64) (bit_or (get_or (grown s x) (x / 64) 0) (2 ^ (x % 64)))
  unfolding add grown
  words-add s x = refl

  -- After `add`, exactly the element added is new.
  pub has-add_bit : (s : Bit) (x y : ℕ) → has (add spare s x) y ≡ (x == y) || has s y
  has-add_bit s x y =
      let v = bit_or (get_or (grown s x) (x / 64) 0) (2 ^ (x % 64)) in
      ground (
        arith,
        has-word (add spare s x) y,
        has-word s y,
        words-add s x,
        get_or-set (grown s x) (x / 64) (y / 64) v (length-grown s x),
        get_or-grown s x (y / 64),
        bit_at-bit_or (get_or (grown s x) (x / 64) 0) (2 ^ (x % 64)) (y % 64),
        bit_at-pow (x % 64) (y % 64),
      )

-- After `Delete`, exactly the element deleted is gone.
pub has-delete_bit : (s : Bit) (x y : ℕ) → has (delete s x) y ≡ not (x == y) && has s y
has-delete_bit s x y = elim (dec_lt (x / 64) (length s.words)) [
  | yes inside ↦
      let w = get_or s.words (x / 64) 0 in
      let e : (delete s x).words ≡ set s.words (x / 64) (and_not 64 w (2 ^ (x % 64))) =
        unfold delete in ground arith in
      ground (
        arith,
        has-word (delete s x) y,
        has-word s y,
        e,
        get_or-set s.words (x / 64) (y / 64) (and_not 64 w (2 ^ (x % 64))) inside,
        bit_at-and_not 64 w (2 ^ (x % 64)) (y % 64) (pow_two_lt (x % 64) 64 (omega arith))
            (omega arith),
        bit_at-pow (x % 64) (y % 64),
      )
  | no outside ↦
      let e : delete s x ≡ s = unfold delete in ground arith in
      ground (arith, e, has-word s y, get_or_out s.words (x / 64), bit_at-zero (y % 64))
]

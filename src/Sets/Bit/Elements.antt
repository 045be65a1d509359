-- ===== src/Sets/Bit/Elements.antt =====
-- The elements that `All` of sets/bit.go yields, and their number.
use zb.Prelude.{
  ℕ, zero, suc, ◌+◌, ◌-◌, ◌/◌, ◌%◌, ◌≤◌, ◌<◌, Bool, false, ◌&&◌, ◌||◌, List, [], ◌∷◌, ◌++◌, ◌≡◌,
  refl, ◌∙◌, ap, leb, ltb, ◌==◌, arith, length, length-append, get_or, Bool-cases, inl, inr,
}
use native.Mathlib.Decide.{dec_lt, ℕ_discrete}
use zb.Prelude.Bits.{bit_at, bit_at-zero}
use zb.Sets.Bit.{Bit, has, len, len_words, ones_count, all, all_words, all_bits}
use zb.Sets.Bit.Lookup.{has-word}

-- whether a number is among those yielded
abbrev pub among : List ℕ → ℕ → Bool
among [] y = false
among (x ∷ xs) y = (x == y) || among xs y

among-append : (xs ys : List ℕ) (y : ℕ) → among (xs ++ ys) y ≡ among xs y || among ys y
among-append [] ys y = refl
among-append (x ∷ xs) ys y = ground (arith, among-append xs ys y)

-- all the elements are above `x`, in ascending order
abbrev pub Ascending : ℕ → List ℕ → Type 0
Ascending lo [] = Unit
Ascending lo (x ∷ xs) = (lo ≤ x) × Ascending (x + 1) xs

Ascending-weaken : (lo lo' : ℕ) (xs : List ℕ) → lo ≤ lo' → Ascending lo' xs → Ascending lo xs
Ascending-weaken lo lo' [] h a = tt
Ascending-weaken lo lo' (x ∷ xs) h a = (omega arith, a.1)

all_bits-among :
    (n j w curr y : ℕ)
    → among (all_bits n j w curr) y ≡ leb curr y && (ltb y (curr + n) && bit_at w (j + (y - curr)))
unfolding all_bits
all_bits-among zero j w curr y = ground arith
all_bits-among (suc n) j w curr y = elim (ℕ_discrete curr y) [
  | yes e ↦
      let p : j + (y - curr) ≡ j = omega arith in
      ground (arith, all_bits-among n (suc j) w (curr + 1) y, ap (bit_at w) p)
  | no ne ↦ elim (dec_lt curr y) [
    | yes above ↦
        let p : suc j + (y - (curr + 1)) ≡ j + (y - curr) = omega arith in
        ground (arith, all_bits-among n (suc j) w (curr + 1) y, ap (bit_at w) p)
    | no below ↦ ground (arith, all_bits-among n (suc j) w (curr + 1) y)
  ]
]

all_bits-Ascending :
    (n j w curr : ℕ) (ys : List ℕ)
    → Ascending (curr + n) ys
    → Ascending curr (all_bits n j w curr ++ ys)
unfolding all_bits
all_bits-Ascending zero j w curr ys a = Ascending-weaken curr (curr + 0) ys (omega arith) a
all_bits-Ascending (suc n) j w curr ys a =
    let later =
      all_bits-Ascending n (suc j) w (curr + 1) ys (Ascending-weaken _ _ ys (omega arith) a) in
    elim (Bool-cases (bit_at w j)) [
      | inl p ↦ rw p (omega arith, later)
      | inr p ↦ rw p (Ascending-weaken curr (curr + 1) _ (omega arith) later)
    ]

all_bits-length : (n j w curr : ℕ) → length (all_bits n j w curr) ≡ ones_count n j w
unfolding all_bits ones_count
all_bits-length zero j w curr = refl
all_bits-length (suc n) j w curr = ground (arith, all_bits-length n (suc j) w (curr + 1))

-- looking up in the words from the number `curr` on
abbrev in_words : ℕ → List ℕ → ℕ → Bool
in_words curr ws y = leb curr y && bit_at (get_or ws ((y - curr) / 64) 0) ((y - curr) % 64)

zero_bits : (n j curr : ℕ) → all_bits n j 0 curr ≡ []
unfolding all_bits
zero_bits zero j curr = refl
zero_bits (suc n) j curr = ground (arith, bit_at-zero j, zero_bits n (suc j) (curr + 1))

-- skipping a zero word is no more than a shortcut
all_words-cons :
    (curr w : ℕ) (ws : List ℕ)
    → all_words curr (w ∷ ws) ≡ all_bits 64 0 w curr ++ all_words (curr + 64) ws
all_words-cons curr zero ws = unfold all_words in rw (zero_bits 64 0 curr)
all_words-cons curr (suc w) ws = unfold all_words in ground arith

word_beyond :
    (w : ℕ) (ws : List ℕ) (curr y : ℕ)
    → curr + 64 ≤ y
    → (get_or (w ∷ ws) ((y - curr) / 64) 0 ≡ get_or ws ((y - (curr + 64)) / 64) 0)
      × ((y - curr) % 64 ≡ (y - (curr + 64)) % 64)
word_beyond w ws curr y h =
    let e : (y - curr) / 64 ≡ suc ((y - (curr + 64)) / 64) = omega arith in
    (ap (λ k. get_or (w ∷ ws) k 0) e, omega arith)

word_inside :
    (w : ℕ) (ws : List ℕ) (curr y : ℕ)
    → y < curr + 64
    → (get_or (w ∷ ws) ((y - curr) / 64) 0 ≡ w) × ((y - curr) % 64 ≡ 0 + (y - curr))
word_inside w ws curr y h =
    let e : (y - curr) / 64 ≡ 0 = omega arith in (ap (λ k. get_or (w ∷ ws) k 0) e, omega arith)

all_words-among :
    (curr : ℕ) (ws : List ℕ) (y : ℕ) → among (all_words curr ws) y ≡ in_words curr ws y
all_words-among curr [] y = unfold all_words in ground (arith, bit_at-zero ((y - curr) % 64))
all_words-among curr (w ∷ ws) y =
    ap (λ l. among l y) (all_words-cons curr w ws)
    ∙ among-append (all_bits 64 0 w curr) (all_words (curr + 64) ws) y
    ∙ elim (dec_lt y (curr + 64)) [
      | yes inside ↦ ground (
        arith,
        all_bits-among 64 0 w curr y,
        all_words-among (curr + 64) ws y,
        word_inside w ws curr y inside,
      )
      | no beyond ↦ ground (
        arith,
        all_bits-among 64 0 w curr y,
        all_words-among (curr + 64) ws y,
        word_beyond w ws curr y (omega arith),
      )
    ]

all_words-Ascending : (curr : ℕ) (ws : List ℕ) → Ascending curr (all_words curr ws)
all_words-Ascending curr [] = unfold all_words in tt
all_words-Ascending curr (w ∷ ws) =
    rw all_words-cons (all_bits-Ascending 64 0 w curr _ (all_words-Ascending (curr + 64) ws))

-- `All` yields exactly the elements of the set, in ascending order, each once.
pub all_lem : (s : Bit) → ((y : ℕ) → among (all s) y ≡ has s y) × Ascending 0 (all s)
unfolding all
all_lem s =
    (λ y. all_words-among 0 s.words y ∙ ground (arith, has-word s y), all_words-Ascending 0 s.words)

length-all_words : (curr : ℕ) (ws : List ℕ) → length (all_words curr ws) ≡ len_words ws
unfolding len_words
length-all_words curr [] = unfold all_words in refl
length-all_words curr (w ∷ ws) =
    ap length (all_words-cons curr w ws)
    ∙ omega (
      arith,
      length-append {0} (all_bits 64 0 w curr) (all_words (curr + 64) ws),
      all_bits-length 64 0 w curr,
      length-all_words (curr + 64) ws,
    )

-- `Len` counts the elements that `All` yields.
pub length-all : (s : Bit) → length (all s) ≡ len s
unfolding all len
length-all s = length-all_words 0 s.words

-- ===== src/Sets/Bit.antt =====
-- sets/bit.go: `Bit`, a bitmap over 64-bit words. A nil set is an empty one here. `slices.Grow` may
-- add more room than requested, all of which `add` takes into use: `spare` is the number of words
-- that the runtime adds, for the length and the growth requested.
pub mod Lookup
pub mod Elements
pub mod Equality
use zb.Prelude.{
  ℕ, zero, suc, ◌+◌, ◌-◌, ◌*◌, ◌/◌, ◌%◌, ◌^◌, min, bit_or, Bool, true, false, not, ◌&&◌, List, [],
  ◌∷◌, ◌++◌, Option, none, some, leb, ltb, ◌==◌, if◌then◌else◌, length, get_or, set, replicate, map,
}
use zb.Prelude.Bits.{bit_at, and_not}

abbrev pub bit_word_size : ℕ
bit_word_size = 64

pub record Bit : Type 0 where
  pub words : List ℕ

abbrev pub empty : Bit
empty = record { words = [] }

module _ (spare : ℕ → ℕ → ℕ) where
  -- `slices.Grow(words, n)[:cap]`: the new words are zero.
  pub grow : List ℕ → ℕ → List ℕ
  grow words n = words ++ replicate (n + spare (length words) n) 0

  unfoldable pub add : Bit → ℕ → Bit
  unfolding grow
  add s x =
      let i = x / bit_word_size in
      let words =
        if leb (length s.words) i then grow s.words (i - length s.words + 1) else s.words in
      record { words = set words i (bit_or (get_or words i 0) (2 ^ (x % bit_word_size))) }

  -- `Add` and `AddSeq`, by the elements that they add.
  pub add_seq : Bit → List ℕ → Bit
  add_seq s [] = s
  add_seq s (x ∷ xs) = add_seq (add s x) xs

  pub new_bit : List ℕ → Bit
  new_bit elem = add_seq empty elem

  pub collect_bit : List ℕ → Bit
  collect_bit elem = add_seq empty elem

unfoldable pub has : Bit → ℕ → Bool
has s x =
    let i = x / bit_word_size in
    if leb (length s.words) i then false else bit_at (get_or s.words i 0) (x % bit_word_size)

unfoldable pub delete : Bit → ℕ → Bit
delete s x =
    let i = x / bit_word_size in
    if leb (length s.words) i then s else record {
      words = set s.words i (and_not 64 (get_or s.words i 0) (2 ^ (x % bit_word_size)));
    }

-- `bits.OnesCount64`: the ones among the `n` digits from `j` on.
pub ones_count : ℕ → ℕ → ℕ → ℕ
ones_count zero j w = 0
ones_count (suc n) j w = (if bit_at w j then 1 else 0) + ones_count n (suc j) w

pub len_words : List ℕ → ℕ
len_words [] = 0
len_words (w ∷ ws) = ones_count bit_word_size 0 w + len_words ws

unfoldable pub len : Bit → ℕ
unfolding len_words ones_count
len s = len_words s.words

-- The inner loop of `All`: `n` rounds from the digit `j` on, where the element is `curr`.
pub all_bits : ℕ → ℕ → ℕ → ℕ → List ℕ
all_bits zero j w curr = []
all_bits (suc n) j w curr =
    let rest = all_bits n (suc j) w (curr + 1) in if bit_at w j then curr ∷ rest else rest

pub all_words : ℕ → List ℕ → List ℕ
all_words curr [] = []
all_words curr (w ∷ ws) =
    let rest = all_words (curr + bit_word_size) ws in
    if w == 0 then rest else all_bits bit_word_size 0 w curr ++ rest

-- The elements that `All` yields.
unfoldable pub all : Bit → List ℕ
unfolding all_words all_bits
all s = all_words 0 s.words

-- `Min`: the first element that `All` yields.
pub min_elem : Bit → Option ℕ
min_elem s = elim (all s) [ [] ↦ none | x ∷ xs ↦ some x ]

-- The inner loop of `Reversed`, from the digit below `j` down; the element above is `curr`.
pub reversed_bits : ℕ → ℕ → ℕ → List ℕ
reversed_bits zero w curr = []
reversed_bits (suc j) w curr =
    let rest = reversed_bits j w (curr - 1) in if bit_at w j then (curr - 1) ∷ rest else rest

-- Its outer loop, on the words from the last to the first.
pub reversed_words : ℕ → List ℕ → List ℕ
unfolding reversed_bits
reversed_words curr [] = []
reversed_words curr (w ∷ ws) =
    let rest = reversed_words (curr - bit_word_size) ws in
    if w == 0 then rest else reversed_bits bit_word_size w curr ++ rest

reverse_words : List ℕ → List ℕ
reverse_words [] = []
reverse_words (w ∷ ws) = reverse_words ws ++ w ∷ []

-- The elements that `Reversed` yields.
unfoldable pub reversed : Bit → List ℕ
unfolding reversed_words reverse_words
reversed s = reversed_words (length s.words * bit_word_size) (reverse_words s.words)

-- `Max`: the first element that `Reversed` yields.
pub max_elem : Bit → Option ℕ
max_elem s = elim (reversed s) [ [] ↦ none | x ∷ xs ↦ some x ]

pub clear : Bit → Bit
clear s = record { words = map (λ w. 0) s.words }

pub all_zero : List ℕ → Bool
all_zero [] = true
all_zero (w ∷ ws) = (w == 0) && all_zero ws

-- `Equal`: the common words are compared, and what either set has beyond them must be zero.
pub equal_words : List ℕ → List ℕ → Bool
unfolding all_zero
equal_words [] ws = all_zero ws
equal_words (w ∷ ws) [] = all_zero (w ∷ ws)
equal_words (w ∷ ws) (w' ∷ ws') = (w == w') && equal_words ws ws'

unfoldable pub equal : Bit → Bit → Bool
unfolding equal_words
equal s s2 = equal_words s.words s2.words

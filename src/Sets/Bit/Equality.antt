-- ===== src/Sets/Bit/Equality.antt =====
-- `Equal` of two bitmaps.
use zb.Prelude.{
  ℕ, zero, suc, ◌+◌, ◌*◌, ◌/◌, ◌%◌, ◌^◌, ◌<◌, true, List, [], ◌∷◌, ◌≡◌, refl, sym, ◌∙◌, ap, arith,
  get_or, ◌↔◌,
}
use zb.Prelude.Bits.{bit_at, bit_at_ext}
use zb.Sets.Bit.{Bit, has, equal, equal_words, all_zero}
use zb.Sets.Bit.Lookup.{has-word}

-- every word fits its 64 bits
abbrev pub Words64 : List ℕ → Type 0
Words64 [] = Unit
Words64 (w ∷ ws) = (w < 2 ^ 64) × Words64 ws

-- the same digits in every word
abbrev SameDigits : List ℕ → List ℕ → Type 0
SameDigits ws vs = (i j : ℕ) → j < 64 → bit_at (get_or ws i 0) j ≡ bit_at (get_or vs i 0) j

tail_digits : (w v : ℕ) (ws vs : List ℕ) → SameDigits (w ∷ ws) (v ∷ vs) → SameDigits ws vs
tail_digits w v ws vs h i j lt = h (suc i) j lt

all_zero_iff : (ws : List ℕ) → Words64 ws → (all_zero ws ≡ true) ↔ SameDigits ws []
unfolding all_zero
all_zero_iff [] v = (λ e i j lt. refl, λ h. refl)
all_zero_iff (w ∷ ws) v =
    let ih = all_zero_iff ws v.1 in
    (
      λ e. digits (ground arith) (ih.0 (ground arith)),
      λ h.
          let z : w ≡ 0 = bit_at_ext 64 w 0 v.0 (omega arith) λ j lt. h 0 j lt in
          let t : all_zero ws ≡ true = ih.1 λ i j lt. h (suc i) j lt in
          unfold all_zero in ground arith,
    )
  where
    digits : w ≡ 0 → SameDigits ws [] → SameDigits (w ∷ ws) []
    digits z h zero j lt = ap (λ t. bit_at t j) z
    digits z h (suc i) j lt = h i j lt

equal_words_iff :
    (ws vs : List ℕ) → Words64 ws → Words64 vs → (equal_words ws vs ≡ true) ↔ SameDigits ws vs
equal_words_iff [] vs v u =
    let z = all_zero_iff vs u in
    unfold equal_words in (λ e i j lt. sym (z.0 e i j lt), λ h. z.1 λ i j lt. sym (h i j lt))
equal_words_iff (w ∷ ws) [] v u = unfold equal_words in all_zero_iff (w ∷ ws) v
equal_words_iff (w ∷ ws) (x ∷ vs) v u =
    (forth (equal_words_iff ws vs v.1 u.1).0, back (equal_words_iff ws vs v.1 u.1).1)
  where
    digits : w ≡ x → SameDigits ws vs → SameDigits (w ∷ ws) (x ∷ vs)
    digits e h zero j lt = ap (λ t. bit_at t j) e
    digits e h (suc i) j lt = h i j lt

    forth :
        (equal_words ws vs ≡ true → SameDigits ws vs)
        → equal_words (w ∷ ws) (x ∷ vs) ≡ true
        → SameDigits (w ∷ ws) (x ∷ vs)
    forth ih e =
        digits (unfold equal_words in ground arith) (ih (unfold equal_words in ground arith))

    back :
        (SameDigits ws vs → equal_words ws vs ≡ true)
        → SameDigits (w ∷ ws) (x ∷ vs)
        → equal_words (w ∷ ws) (x ∷ vs) ≡ true
    back ih h =
        let e : w ≡ x = bit_at_ext 64 w x v.0 u.0 λ j lt. h 0 j lt in
        let t : equal_words ws vs ≡ true = ih λ i j lt. h (suc i) j lt in
        unfold equal_words in ground arith

-- Of two sets whose words have 64 bits, `Equal` holds exactly if they have the same elements,
-- whatever room each has beyond them.
pub equal_iff :
    (s t : Bit)
    → Words64 s.words
    → Words64 t.words
    → (equal s t ≡ true) ↔ ((y : ℕ) → has s y ≡ has t y)
unfolding equal
equal_iff s t v u =
    let words = equal_words_iff s.words t.words v u in
    (
      λ e y. has-word s y ∙ words.0 e (y / 64) (y % 64) (omega arith) ∙ sym (has-word t y),
      λ h. words.1 (digits h),
    )
  where
    digits : ((y : ℕ) → has s y ≡ has t y) → SameDigits s.words t.words
    digits h i j lt =
        let y = i * 64 + j in
        let q : y / 64 ≡ i = omega arith in
        let r : y % 64 ≡ j = omega arith in ground (arith, h y, has-word s y, has-word t y, q, r)

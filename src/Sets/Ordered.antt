-- ===== src/Sets/Ordered.antt =====
-- `cmp.Ordered` of Go's standard library: what the sorted sets rely on of an element type.
use zb.Prelude.{ℕ, Bool, true, false, not, ◌&&◌, ◌||◌, List, [], ◌∷◌, ◌≡◌, refl, ltb, ◌==◌, arith}

pub record Ordered (A : Type 0) : Type 0 where
  pub lt : A → A → Bool
  pub lt_irrefl : (a : A) → lt a a ≡ false
  pub lt_trans : (a b c : A) → lt a b ≡ true → lt b c ≡ true → lt a c ≡ true
  pub lt_total : (a b : A) → lt a b ≡ false → lt b a ≡ false → a ≡ b

-- `==` by the order
abbrev pub equal : {A : Type 0} ⦃o : Ordered A⦄ → A → A → Bool
equal ⦃o⦄ a b = not (o.lt a b) && not (o.lt b a)

pub ltb_irrefl : (a : ℕ) → ltb a a ≡ false
ltb_irrefl a = ground arith

pub ltb_trans : (a b c : ℕ) → ltb a b ≡ true → ltb b c ≡ true → ltb a c ≡ true
ltb_trans a b c p q = ground arith

pub ltb_total : (a b : ℕ) → ltb a b ≡ false → ltb b a ≡ false → a ≡ b
ltb_total a b p q = ground arith

instance abbrev pub nat_ordered : Ordered ℕ
nat_ordered = record {
  lt = ltb;
  lt_irrefl = ltb_irrefl;
  lt_trans = ltb_trans;
  lt_total = ltb_total;
}

-- The order of strings: lexicographic on their bytes.
abbrev pub lt_bytes : List ℕ → List ℕ → Bool
lt_bytes [] [] = false
lt_bytes [] (b ∷ bs) = true
lt_bytes (a ∷ as') [] = false
lt_bytes (a ∷ as') (b ∷ bs) = ltb a b || (a == b && lt_bytes as' bs)

pub lt_bytes_irrefl : (a : List ℕ) → lt_bytes a a ≡ false
lt_bytes_irrefl [] = refl
lt_bytes_irrefl (x ∷ xs) = ground (arith, lt_bytes_irrefl xs)

pub lt_bytes_trans :
    (a b c : List ℕ) → lt_bytes a b ≡ true → lt_bytes b c ≡ true → lt_bytes a c ≡ true
lt_bytes_trans [] [] c p q = q
lt_bytes_trans [] (y ∷ ys) [] p q = q
lt_bytes_trans [] (y ∷ ys) (z ∷ zs) p q = refl
lt_bytes_trans (x ∷ xs) [] c p q = cc
lt_bytes_trans (x ∷ xs) (y ∷ ys) [] p q = q
lt_bytes_trans (x ∷ xs) (y ∷ ys) (z ∷ zs) p q = ground (arith, lt_bytes_trans xs ys zs)

pub lt_bytes_total : (a b : List ℕ) → lt_bytes a b ≡ false → lt_bytes b a ≡ false → a ≡ b
lt_bytes_total [] [] p q = refl
lt_bytes_total [] (y ∷ ys) p q = cc
lt_bytes_total (x ∷ xs) [] p q = cc
lt_bytes_total (x ∷ xs) (y ∷ ys) p q = ground (arith, lt_bytes_total xs ys)

instance abbrev pub bytes_ordered : Ordered (List ℕ)
bytes_ordered = record {
  lt = lt_bytes;
  lt_irrefl = lt_bytes_irrefl;
  lt_trans = lt_bytes_trans;
  lt_total = lt_bytes_total;
}

-- ===== src/RangeSpec/RoundTrip.antt =====
-- `ParseRange` of what `String` writes.
use zb.Prelude.{
  ℕ, zero, suc, ◌+◌, ◌-◌, ◌*◌, ◌/◌, ◌%◌, ◌^◌, ◌<◌, ◌≤◌, Bool, true, false, ◌&&◌, ◌||◌, List, [],
  ◌∷◌, ◌++◌, some, ltb, ◌==◌, ◌≡◌, ◌≢◌, refl, sym, ◌∙◌, ap, subst, ◌⊎◌, arith, Bool-cases, inl, inr,
}
use zb.Prelude.Int.{ℤ, pos, negsuc}
use zb.RangeSpec.{RangeSpec}
use zb.RangeSpec.Bounds.{Fits}
use zb.RangeSpec.Parse.{
  Bytes, is_digit, all_digits, is_digits, digits_value, parse_digits, parse_int, cut, split,
  is_blank, trim_left, trim_right, trim, cut_prefix, is_empty, parse_spec, parse_specs, parse_range,
  append_digits, format_int, to_string,
}

digits_value-append :
    (s : Bytes) (n c : ℕ) → digits_value n (s ++ c ∷ []) ≡ 10 * digits_value n s + (c - 48)
unfolding digits_value
digits_value-append [] n c = refl
digits_value-append (d ∷ s) n c = digits_value-append s (10 * n + (d - 48)) c

all_digits-append : (s t : Bytes) → all_digits (s ++ t) ≡ (all_digits s && all_digits t)
unfolding all_digits
all_digits-append [] t = refl
all_digits-append (c ∷ s) t = let e = all_digits-append s t in ground (arith, e)

-- what is written of a number: it has digits alone, one at least, and they write the number
record Written (s : Bytes) (n : ℕ) : Type 0 where
  digits : is_digits s ≡ true
  value : digits_value 0 s ≡ n

is_digits-append :
    (s : Bytes) (c : ℕ) → is_digits s ≡ true → is_digit c ≡ true → is_digits (s ++ c ∷ []) ≡ true
unfolding is_digits all_digits
is_digits-append [] c h k = ground (arith)
is_digits-append (d ∷ s) c h k =
    let e = all_digits-append s (c ∷ []) in unfold all_digits in ground (arith, e, h, k)

last_digit : (fuel n : ℕ) → ltb n 10 ≡ true → Written (append_digits (suc fuel) n) n
unfolding append_digits is_digits all_digits is_digit digits_value
last_digit fuel n e = record { digits = ground (arith, e); value = ground (arith, e) }

more_digits :
    (fuel n : ℕ)
    → ltb n 10 ≡ false
    → Written (append_digits fuel (n / 10)) (n / 10)
    → Written (append_digits (suc fuel) n) n
unfolding append_digits
more_digits fuel n e v =
    let s = append_digits fuel (n / 10) in
    let d : is_digit (48 + n % 10) ≡ true = (unfold is_digit in ground (arith)) in
    let a = is_digits-append s (48 + n % 10) v.digits d in
    let b = digits_value-append s 0 (48 + n % 10) in
    record { digits = ground (arith, e, a); value = ground (arith, e, b, v.value) }

append_digits-Written : (fuel n : ℕ) → n < fuel → Written (append_digits fuel n) n
append_digits-Written zero n h = elim h [ ]
append_digits-Written (suc fuel) n h = elim (Bool-cases (ltb n 10)) [
  | inl e ↦ last_digit fuel n e
  | inr e ↦ more_digits fuel n e (append_digits-Written fuel (n / 10) (ground (arith, h, e)))
]

-- digits and dashes
abbrev plain : Bytes → Bool
plain [] = true
plain (c ∷ s) = (is_digit c || c == 45) && plain s

plain-append : (s t : Bytes) → plain (s ++ t) ≡ (plain s && plain t)
plain-append [] t = refl
plain-append (c ∷ s) t = let e = plain-append s t in ground (arith, e)

all_digits-plain : (s : Bytes) → all_digits s ≡ true → plain s ≡ true
unfolding all_digits
all_digits-plain [] h = refl
all_digits-plain (c ∷ s) h = let e = all_digits-plain s in ground (arith, e)

trim_left-plain : (s : Bytes) → plain s ≡ true → trim_left s ≡ s
unfolding trim_left is_blank is_digit
trim_left-plain [] h = refl
trim_left-plain (c ∷ s) h = ground (arith, h)

trim_right-plain : (s : Bytes) → plain s ≡ true → trim_right s ≡ s
unfolding trim_right is_blank is_digit
trim_right-plain [] h = refl
trim_right-plain (c ∷ []) h = ground (arith, h)
trim_right-plain (c ∷ d ∷ s) h = let e = trim_right-plain (d ∷ s) in ground (arith, h, e)

split-plain : (s : Bytes) → plain s ≡ true → split 44 s ≡ s ∷ []
unfolding split is_digit
split-plain [] h = refl
split-plain (c ∷ s) h = let e = split-plain s in ground (arith, h, e)

cut-digits : (s t : Bytes) → all_digits s ≡ true → cut 45 (s ++ 45 ∷ t) ≡ (s, t, true)
unfolding cut all_digits is_digit
cut-digits [] t h = refl
cut-digits (c ∷ s) t h = let e = cut-digits s t in ground (arith, h, e)

is_digits-all_digits : (s : Bytes) → is_digits s ≡ true → all_digits s ≡ true
unfolding is_digits
is_digits-all_digits [] h = ground (arith)
is_digits-all_digits (c ∷ s) h = h

parse_int-Written : (s : Bytes) (n : ℕ) → Written s n → n < 2 ^ 63 → parse_int s ≡ some (pos n)
unfolding parse_int
parse_int-Written [] n v h = unfold is_digits in ground (arith, v.digits)
parse_int-Written (c ∷ s) n v h =
    unfold parse_digits in
    let d = first_digit c s v.digits in ground (arith, d, v.digits, v.value, h)
  where
    first_digit : (c : ℕ) (s : Bytes) → is_digits (c ∷ s) ≡ true → (c ≢ 45) × (c ≢ 43)
    first_digit c s h =
        unfold is_digits in
        unfold all_digits in unfold is_digit in (ground (arith, h), ground (arith, h))

parse_int-negative :
    (s : Bytes) (n : ℕ) → Written s (suc n) → n < 2 ^ 63 → parse_int (45 ∷ s) ≡ some (negsuc n)
unfolding parse_int parse_digits
parse_int-negative s n v h = ground (arith, v.digits, v.value, h)

plain-trim : (s : Bytes) → plain s ≡ true → trim s ≡ s
unfolding trim
plain-trim s h = ap (λ (x : Bytes). trim_right x) (trim_left-plain s h) ∙ trim_right-plain s h

-- what `String` writes of each kind of range
parse_suffix :
    (s : Bytes) (n : ℕ)
    → Written s (suc n)
    → n < 2 ^ 63
    → parse_spec (45 ∷ s) ≡ some (record { start = negsuc n; end = negsuc 0 })
unfolding parse_spec
parse_suffix s n v h =
    let p = all_digits-plain s (is_digits-all_digits s v.digits) in
    let t = plain-trim (45 ∷ s) (ground (arith, p)) in
    let c = cut-digits [] s (unfold all_digits in refl) in
    let i = parse_int-negative s n v h in ground (arith, t, c, i, v.digits)

parse_open :
    (s : Bytes) (n : ℕ)
    → Written s n
    → n < 2 ^ 63
    → parse_spec (s ++ 45 ∷ []) ≡ some (record { start = pos n; end = negsuc 0 })
unfolding parse_spec
parse_open s n v h =
    let d = is_digits-all_digits s v.digits in
    let p = all_digits-plain s d in
    let a = plain-append s (45 ∷ []) in
    let t = plain-trim (s ++ 45 ∷ []) (ground (arith, p, a)) in
    let c = cut-digits s [] d in
    let i = parse_int-Written s n v h in ground (arith, t, c, i, v.digits)

is_digits-nonempty : (s : Bytes) → is_digits s ≡ true → is_empty s ≡ false
unfolding is_digits
is_digits-nonempty [] h = ground (arith)
is_digits-nonempty (c ∷ s) h = refl

parse_closed :
    (s t : Bytes) (m n : ℕ)
    → Written s m
    → Written t n
    → m ≤ n
    → n < 2 ^ 63
    → parse_spec (s ++ 45 ∷ t) ≡ some (record { start = pos m; end = pos n })
unfolding parse_spec
parse_closed s t m n v w l h =
    let d = is_digits-all_digits s v.digits in
    let d' = is_digits-all_digits t w.digits in
    let p = all_digits-plain s d in
    let p' = all_digits-plain t d' in
    let a = plain-append s (45 ∷ t) in
    let e = plain-trim (s ++ 45 ∷ t) (ground (arith, p, p', a)) in
    let c = cut-digits s t d in
    let i = parse_int-Written s m v (omega (arith, l, h)) in
    let j = parse_int-Written t n w h in
    ground (
      arith,
      e,
      c,
      i,
      j,
      v.digits,
      w.digits,
      is_digits-nonempty s v.digits,
      is_digits-nonempty t w.digits,
      l,
    )

-- a range as its constructors make it: from the end, from an offset on, or between two offsets
abbrev pub IsSpec : RangeSpec → Type 0
IsSpec spec =
    Fits spec.start
    × Fits spec.end
    × ((spec.end ≡ negsuc 0)
        ⊎ ((a : ℕ) × (b : ℕ) × (spec.start ≡ pos a) × (spec.end ≡ pos b) × (a ≤ b)))

plain-Written : (s : Bytes) (n : ℕ) → Written s n → plain s ≡ true
plain-Written s n v = all_digits-plain s (is_digits-all_digits s v.digits)

-- what `String` writes is read as the one range, in one part
Reads : RangeSpec → Type 0
Reads spec = (plain (to_string spec) ≡ true) × (parse_spec (to_string spec) ≡ some spec)

written : (n : ℕ) → Written (append_digits (suc n) n) n
written n = append_digits-Written (suc n) n (omega arith)

suffix-Reads : (n : ℕ) → n < 2 ^ 63 → Reads (record { start = negsuc n; end = negsuc 0 })
unfolding Reads to_string format_int
suffix-Reads n h =
    let w = written (suc n) in
    let q = parse_suffix (append_digits (suc (suc n)) (suc n)) n w h in
    (
      ground (arith, plain-Written (append_digits (suc (suc n)) (suc n)) (suc n) w),
      ground (arith, q),
    )

open-Reads : (n : ℕ) → n < 2 ^ 63 → Reads (record { start = pos n; end = negsuc 0 })
unfolding Reads to_string format_int
open-Reads n h =
    let s = append_digits (suc n) n in
    let w = written n in
    let a = plain-append s (45 ∷ []) in
    let p = plain-Written s n w in
    let q = parse_open s n w h in (ground (arith, a, p), ground (arith, q))

closed-Reads : (m n : ℕ) → m ≤ n → n < 2 ^ 63 → Reads (record { start = pos m; end = pos n })
unfolding Reads to_string format_int
closed-Reads m n l h =
    let s = append_digits (suc m) m in
    let t = append_digits (suc n) n in
    let a = plain-append s (45 ∷ t) in
    let p = plain-Written s m (written m) in
    let p' = plain-Written t n (written n) in
    let q = parse_closed s t m n (written m) (written n) l h in
    (ground (arith, a, p, p'), ground (arith, q))

unbounded-Reads : (start : ℤ) → Fits start → Reads (record { start = start; end = negsuc 0 })
unbounded-Reads (pos n) h = open-Reads n h
unbounded-Reads (negsuc n) h = suffix-Reads n h

IsSpec-Reads :
    (start end : ℤ)
    → IsSpec (record { start = start; end = end })
    → Reads (record { start = start; end = end })
IsSpec-Reads start end (f, g, inl e) =
    subst (λ (x : ℤ). Reads (record { start = start; end = x })) (sym e) (unbounded-Reads start f)
IsSpec-Reads start end (f, g, inr (a, b, e, e', l)) =
    subst (λ (x : ℤ). Reads (record { start = x; end = end })) (sym e)
      (subst (λ (x : ℤ). Reads (record { start = pos a; end = x })) (sym e')
        (closed-Reads a b l (subst Fits e' g)))

parse_range-plain :
    (s : Bytes)
    → plain s ≡ true
    → parse_range (b'b' ∷ b'y' ∷ b't' ∷ b'e' ∷ b's' ∷ b'=' ∷ s) ≡ parse_specs (s ∷ [])
unfolding parse_range cut_prefix
parse_range-plain s h = ap (λ (parts : List Bytes). parse_specs parts) (split-plain s h)

parse_specs-one :
    (s : Bytes) (spec : RangeSpec)
    → parse_spec s ≡ some spec
    → parse_specs (s ∷ []) ≡ some (spec ∷ [])
unfolding parse_specs
parse_specs-one s spec e = ground (arith, e)

-- `ParseRange` of `bytes=` and what `String` writes of a range gives that range alone: of a range
-- from the end or from an offset on, or between two offsets in order, in the bounds of int64.
pub parse_range-to_string :
    (start end : ℤ)
    → IsSpec (record { start = start; end = end })
    → parse_range
        (b'b' ∷ b'y' ∷ b't' ∷ b'e' ∷ b's' ∷ b'=' ∷ to_string (record { start = start; end = end }))
      ≡ some (record { start = start; end = end } ∷ [])
unfolding Reads
parse_range-to_string start end h =
    let spec : RangeSpec = record { start = start; end = end } in
    let (p, e) = IsSpec-Reads start end h in
    parse_range-plain (to_string spec) p ∙ parse_specs-one (to_string spec) spec e

-- ===== src/RangeSpec/Parse.antt =====
-- internal/xhttp/range_header.go: `ParseRange`, on the bytes of a header. An error is `none`.
use zb.Prelude.{
  ℕ, zero, suc, ◌/◌, ◌%◌, ◌+◌, ◌-◌, ◌*◌, ◌^◌, Bool, true, false, not, ◌&&◌, ◌||◌, List, [], ◌∷◌,
  ◌++◌, Option, none, some, leb, ltb, ◌==◌, if◌then◌else◌,
}
use zb.Prelude.Int.{ℤ, pos, negsuc, ltb_ℤ}
use zb.RangeSpec.{RangeSpec}

abbrev pub Bytes : Type 0
Bytes = List ℕ

unfoldable pub is_digit : ℕ → Bool
is_digit c = leb b'0' c && leb c b'9'

unfoldable pub all_digits : Bytes → Bool
unfolding is_digit
all_digits [] = true
all_digits (c ∷ s) = is_digit c && all_digits s

unfoldable pub is_digits : Bytes → Bool
unfolding all_digits is_digit
is_digits [] = false
is_digits (c ∷ s) = all_digits (c ∷ s)

-- the number that digits write, after those before it
unfoldable pub digits_value : ℕ → Bytes → ℕ
digits_value n [] = n
digits_value n (c ∷ s) = digits_value (10 * n + (c - b'0')) s

-- `strconv.ParseInt` in base 10 with 64 bits
unfoldable pub parse_digits : Bytes → Bool → Option ℤ
unfolding is_digits digits_value
parse_digits s negative =
    let n = digits_value 0 s in
    if not (is_digits s)
    then none
    else if negative
    then (if leb n (2 ^ 63) then some (if n == 0 then pos 0 else negsuc (n - 1)) else none)
    else if ltb n (2 ^ 63)
    then some (pos n)
    else none

unfoldable pub parse_int : Bytes → Option ℤ
unfolding parse_digits
parse_int [] = none
parse_int (c ∷ s) =
    if c == b'-'
    then parse_digits s true
    else if c == b'+'
    then parse_digits s false
    else parse_digits (c ∷ s) false

-- `strings.Cut` at one byte: what stands before it and behind it, and whether it is there
unfoldable pub cut : ℕ → Bytes → Bytes × Bytes × Bool
cut b [] = ([], [], false)
cut b (c ∷ s) =
    let (before, after, found) = cut b s in
    if c == b
    then ([], s, true)
    else if found
    then (c ∷ before, after, true)
    else (c ∷ s, [], false)

-- `strings.SplitSeq` at one byte
unfoldable pub split : ℕ → Bytes → List Bytes
split b [] = [] ∷ []
split b (c ∷ s) =
    let rest = split b s in
    if c == b
    then [] ∷ rest
    else elim rest [ [] ↦ (c ∷ []) ∷ [] | part ∷ parts ↦ (c ∷ part) ∷ parts ]

unfoldable pub is_blank : ℕ → Bool
is_blank c = c == b' ' || c == 9

unfoldable pub trim_left : Bytes → Bytes
unfolding is_blank
trim_left [] = []
trim_left (c ∷ s) = let rest = trim_left s in if is_blank c then rest else c ∷ s

unfoldable pub trim_right : Bytes → Bytes
unfolding is_blank
trim_right [] = []
trim_right (c ∷ s) = elim (trim_right s) [
  | [] ↦ if is_blank c then [] else c ∷ []
  | d ∷ rest ↦ c ∷ d ∷ rest
]

-- `strings.Trim(spec, " \t")`
unfoldable pub trim : Bytes → Bytes
unfolding trim_left trim_right
trim s = trim_right (trim_left s)

unfoldable pub cut_prefix : Bytes → Bytes → Option Bytes
cut_prefix [] s = some s
cut_prefix (c ∷ prefix) [] = none
cut_prefix (c ∷ prefix) (d ∷ s) = let rest = cut_prefix prefix s in if c == d then rest else none

abbrev pub is_empty : Bytes → Bool
is_empty [] = true
is_empty (c ∷ s) = false

abbrev pub open_range : Option ℤ → Option RangeSpec
open_range none = none
open_range (some i) = some (record { start = i; end = negsuc 0 })

abbrev pub closed_range : Option ℤ → Option ℤ → Option RangeSpec
closed_range none j = none
closed_range (some i) none = none
closed_range (some i) (some j) = if ltb_ℤ j i then none else some (record { start = i; end = j })

-- The body of the loop, on the part between two commas.
unfoldable pub parse_spec : Bytes → Option RangeSpec
unfolding is_digits parse_int cut trim
parse_spec part =
    let spec = trim part in
    let (start, end, has_dash) = cut b'-' spec in
    if has_dash && is_empty start && is_digits end
    then open_range (parse_int spec)
    else if has_dash && is_digits start && is_empty end
    then open_range (parse_int start)
    else if has_dash && is_digits start && is_digits end
    then closed_range (parse_int start) (parse_int end)
    else none

unfoldable pub parse_specs : List Bytes → Option (List RangeSpec)
unfolding parse_spec
parse_specs [] = some []
parse_specs (part ∷ parts) =
    let rest = parse_specs parts in
    elim (parse_spec part) [
      | none ↦ none
      | some spec ↦ elim rest [ none ↦ none | some specs ↦ some (spec ∷ specs) ]
    ]

unfoldable pub parse_range : Bytes → Option (List RangeSpec)
unfolding parse_specs split cut_prefix
parse_range [] = some []
parse_range (c ∷ header) =
    elim (cut_prefix (b'b' ∷ b'y' ∷ b't' ∷ b'e' ∷ b's' ∷ b'=' ∷ []) (c ∷ header)) [
      | none ↦ none
      | some ranges ↦ parse_specs (split b',' ranges)
    ]

-- `strconv.AppendInt` of a number that is not negative; a number has at most as many digits as it
-- counts, and one for 0.
unfoldable pub append_digits : ℕ → ℕ → Bytes
append_digits zero n = []
append_digits (suc fuel) n =
    let rest = append_digits fuel (n / 10) in
    if ltb n 10 then (b'0' + n) ∷ [] else rest ++ (b'0' + n % 10) ∷ []

unfoldable pub format_int : ℤ → Bytes
unfolding append_digits
format_int (pos n) = append_digits (suc n) n
format_int (negsuc n) = b'-' ∷ append_digits (suc (suc n)) (suc n)

-- `RangeSpec.String`
unfoldable pub to_string : RangeSpec → Bytes
unfolding format_int
to_string spec =
    if ltb_ℤ spec.start (pos 0)
    then format_int spec.start
    else format_int spec.start
      ++ b'-' ∷ (if ltb_ℤ spec.end (pos 0) then [] else format_int spec.end)

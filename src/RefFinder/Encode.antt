-- ===== src/RefFinder/Encode.antt =====
-- internal/detect/ref_finder.go: `encodeUTF16LE` of a string, whose runes are those that Go's
-- `range` yields, and `encodeUTF8`, which yields the bytes of the string.
use zb.Prelude.{
  ℕ, ◌+◌, ◌-◌, ◌*◌, ◌/◌, ◌%◌, ◌^◌, Bool, ◌&&◌, ◌||◌, List, [], ◌∷◌, ◌++◌, ltb, leb, ◌==◌,
  if◌then◌else◌, ◌≢◌, refl, arith,
}

abbrev pub Bytes : Type 0
Bytes = List ℕ

-- utf8.RuneError
abbrev pub replacement_char : ℕ
replacement_char = 0xfffd

abbrev between : ℕ → ℕ → ℕ → Bool
between lo hi c = leb lo c && leb c hi

-- a continuation byte
abbrev is_continuation : ℕ → Bool
is_continuation c = between 0x80 0xbf c

-- What the second byte of a sequence of three may be, which leaves out surrogates and encodings
-- that are too long.
is_second_of_three : ℕ → ℕ → Bool
is_second_of_three b c =
    if b == 0xe0
    then between 0xa0 0xbf c
    else if b == 0xed
    then between 0x80 0x9f c
    else is_continuation c

-- The same for a sequence of four, which ends at 0x10ffff.
is_second_of_four : ℕ → ℕ → Bool
is_second_of_four b c =
    if b == 0xf0
    then between 0x90 0xbf c
    else if b == 0xf4
    then between 0x80 0x8f c
    else is_continuation c

-- The runes of a string. A byte that begins no valid sequence is a rune of its own.
pub runes : Bytes → List ℕ
unfolding is_second_of_three is_second_of_four
runes [] = []
runes (b ∷ []) = (if ltb b 0x80 then b else replacement_char) ∷ []
runes (b ∷ c ∷ []) =
    let rest = runes (c ∷ []) in
    if between 0xc2 0xdf b && is_continuation c
    then ((b - 0xc0) * 0x40 + (c - 0x80)) ∷ []
    else (if ltb b 0x80 then b else replacement_char) ∷ rest
runes (b ∷ c ∷ d ∷ []) =
    let rest = runes (c ∷ d ∷ []) in
    let rest2 = runes (d ∷ []) in
    if between 0xc2 0xdf b && is_continuation c
    then ((b - 0xc0) * 0x40 + (c - 0x80)) ∷ rest2
    else if between 0xe0 0xef b && is_second_of_three b c && is_continuation d
    then ((b - 0xe0) * 0x1000 + (c - 0x80) * 0x40 + (d - 0x80)) ∷ []
    else (if ltb b 0x80 then b else replacement_char) ∷ rest
runes (b ∷ c ∷ d ∷ e ∷ s) =
    let rest = runes (c ∷ d ∷ e ∷ s) in
    let rest2 = runes (d ∷ e ∷ s) in
    let rest3 = runes (e ∷ s) in
    let rest4 = runes s in
    if between 0xc2 0xdf b && is_continuation c
    then ((b - 0xc0) * 0x40 + (c - 0x80)) ∷ rest2
    else if between 0xe0 0xef b && is_second_of_three b c && is_continuation d
    then ((b - 0xe0) * 0x1000 + (c - 0x80) * 0x40 + (d - 0x80)) ∷ rest3
    else if between 0xf0 0xf4 b && is_second_of_four b c && is_continuation d && is_continuation e
    then ((b - 0xf0) * 0x40000 + (c - 0x80) * 0x1000 + (d - 0x80) * 0x40 + (e - 0x80)) ∷ rest4
    else (if ltb b 0x80 then b else replacement_char) ∷ rest

-- a 16-bit unit with its low byte first
little_endian : ℕ → Bytes
little_endian r = r % 256 ∷ r / 256 % 256 ∷ []

-- The body of the loop of `encodeUTF16LE`: `utf16.RuneLen` is 1 below 0x10000 but for surrogates,
-- 2 up to 0x10ffff, and -1 otherwise.
encode_rune : ℕ → Bytes
unfolding little_endian
encode_rune r =
    if ltb r 0xd800 || between 0xe000 0xffff r
    then little_endian r
    else if between 0x10000 0x10ffff r
    then little_endian (0xd800 + (r - 0x10000) / 2 ^ 10 % 2 ^ 10)
      ++ little_endian (0xdc00 + (r - 0x10000) % 2 ^ 10)
    else little_endian replacement_char

encode_runes : List ℕ → Bytes
encode_runes [] = []
encode_runes (r ∷ rs) = encode_rune r ++ encode_runes rs

unfoldable pub encode_utf16le : Bytes → Bytes
unfolding runes encode_runes encode_rune
encode_utf16le s = encode_runes (runes s)

unfoldable pub encode_utf8 : Bytes → Bytes
encode_utf8 s = s

runes-nonempty : (b : ℕ) (s : Bytes) → runes (b ∷ s) ≢ []
unfolding runes
runes-nonempty b [] = ground (arith)
runes-nonempty b (c ∷ []) = ground (arith)
runes-nonempty b (c ∷ d ∷ []) = ground (arith)
runes-nonempty b (c ∷ d ∷ e ∷ s) = ground (arith)

encode_rune-cases : (r : ℕ) (rest : Bytes) → encode_rune r ++ rest ≢ []
unfolding encode_rune little_endian
encode_rune-cases r rest = ground (arith)

encode_runes-cases : (rs : List ℕ) → rs ≢ [] → encode_runes rs ≢ []
unfolding encode_runes
encode_runes-cases [] h = absurd (h refl)
encode_runes-cases (r ∷ rs) h = encode_rune-cases r (encode_runes rs)

pub encode_utf16le-nonempty : (b : ℕ) (s : Bytes) → encode_utf16le (b ∷ s) ≢ []
unfolding encode_utf16le
encode_utf16le-nonempty b s = encode_runes-cases (runes (b ∷ s)) (runes-nonempty b s)

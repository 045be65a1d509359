-- ===== src/Aterm/Strings.antt =====
-- Quoted strings of internal/aterm/aterm.go: `AppendString`, `parseString` and its length limit.
use native.Mathlib.Decide.{dec_lt}
use zb.Prelude.{
  ℕ, ◌+◌, ◌≤◌, ◌<◌, [], ◌∷◌, ◌++◌, append_assoc, append-nil, ok, err, ◌≡◌, refl, sym, ◌∙◌, ap,
  arith, length, length-append,
}
use zb.Aterm.{
  Bytes, string_too_large, max_string_length, parse_string, escape_value, escape_byte,
  append_escaped, append_string,
}

-- one byte, written and read
parse-escape_byte :
    (c : ℕ) (rest sb : Bytes)
    → length sb < max_string_length
    → parse_string (escape_byte c ++ rest) sb ≡ parse_string rest (sb ++ c ∷ [])
unfolding escape_byte parse_string escape_value
parse-escape_byte c [] sb h = ground arith
parse-escape_byte c (d ∷ rest) sb h = ground arith

-- the escapes of a text, in order
pub escapes : Bytes → Bytes
escapes [] = []
escapes (c ∷ s) = escape_byte c ++ escapes s

append_escaped-eq-escapes : (dst s : Bytes) → append_escaped dst s ≡ dst ++ escapes s
unfolding append_escaped escapes
append_escaped-eq-escapes dst [] = sym (append-nil dst)
append_escaped-eq-escapes dst (c ∷ s) =
    append_escaped-eq-escapes (dst ++ escape_byte c) s
    ∙ append_assoc dst (escape_byte c) (escapes s)

pub append_string-eq-escapes :
    (dst s : Bytes) → append_string dst s ≡ dst ++ b'"' ∷ (escapes s ++ b'"' ∷ [])
unfolding append_string
append_string-eq-escapes dst s = simp (append_escaped-eq-escapes, append_assoc)

parse-escapes :
    (s rest sb : Bytes)
    → length sb + length s ≤ max_string_length
    → parse_string (escapes s ++ b'"' ∷ rest) sb ≡ (ok (sb ++ s), rest)
unfolding escapes
parse-escapes [] rest sb h = quote rest ∙ ap (λ t. (ok t, rest)) (sym (append-nil sb))
  where
    quote : (rest : Bytes) → parse_string (b'"' ∷ rest) sb ≡ (ok sb, rest)
    quote [] = unfold parse_string in refl
    quote (d ∷ rest) = unfold parse_string in refl
parse-escapes (c ∷ s) rest sb h =
    ap (λ t. parse_string t sb) (append_assoc (escape_byte c) (escapes s) (b'"' ∷ rest))
    ∙ parse-escape_byte c (escapes s ++ b'"' ∷ rest) sb (omega arith)
    ∙ parse-escapes s rest (sb ++ c ∷ []) (omega (arith, length-append {0} sb (c ∷ [])))
    ∙ ap (λ t. (ok t, rest)) (append_assoc sb (c ∷ []) s)

-- A text of at most 4096 bytes is read back as it was written: behind the opening quote the
-- parser returns the text and leaves exactly what follows the closing quote.
pub parse_string-append_string :
    (dst s rest : Bytes)
    → length s ≤ max_string_length
    → (r : Bytes) × (append_string dst s ++ rest ≡ dst ++ b'"' ∷ r)
      × (parse_string r [] ≡ (ok s, rest))
parse_string-append_string dst s rest h = (
  escapes s ++ b'"' ∷ rest,
  simp (append_string-eq-escapes, append_assoc),
  parse-escapes s rest [] (omega arith),
)

-- a byte of an escape behind a full text
parse-escape_byte_full :
    (c : ℕ) (rest sb : Bytes)
    → length sb ≡ max_string_length
    → (parse_string (escape_byte c ++ rest) sb).0 ≡ err string_too_large
unfolding escape_byte parse_string
parse-escape_byte_full c [] sb h = ground arith
parse-escape_byte_full c (d ∷ rest) sb h = ground arith

parse-escapes_full :
    (s rest sb : Bytes)
    → length sb ≤ max_string_length
    → max_string_length < length sb + length s
    → (parse_string (escapes s ++ b'"' ∷ rest) sb).0 ≡ err string_too_large
unfolding escapes
parse-escapes_full [] rest sb hb h = absurd (omega arith)
parse-escapes_full (c ∷ s) rest sb hb h =
    ap (λ t. (parse_string t sb).0) (append_assoc (escape_byte c) (escapes s) (b'"' ∷ rest))
    ∙ elim (dec_lt (length sb) max_string_length) [
      | yes room ↦
          ap (λ t. t.0) (parse-escape_byte c (escapes s ++ b'"' ∷ rest) sb room)
          ∙ parse-escapes_full s rest (sb ++ c ∷ []) (omega (arith, length-append {0} sb (c ∷ [])))
              (omega (arith, length-append {0} sb (c ∷ [])))
      | no full ↦ parse-escape_byte_full c (escapes s ++ b'"' ∷ rest) sb (omega arith)
    ]

-- `AppendString` has no limit: a text of more than 4096 bytes is written without an error, and the
-- parser refuses what was written as too large.
pub parse_string-too_large :
    (dst s rest : Bytes)
    → max_string_length < length s
    → (r : Bytes) × (append_string dst s ++ rest ≡ dst ++ b'"' ∷ r)
      × ((parse_string r []).0 ≡ err string_too_large)
parse_string-too_large dst s rest h = (
  escapes s ++ b'"' ∷ rest,
  simp (append_string-eq-escapes, append_assoc),
  parse-escapes_full s rest [] (omega arith) (omega arith),
)

pub escapes_nil : escapes [] ≡ []
unfolding escapes
escapes_nil = refl

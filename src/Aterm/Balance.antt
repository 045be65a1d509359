-- ===== src/Aterm/Balance.antt =====
-- `ReadToken` of internal/aterm/aterm.go from an empty scanner: what its tokens do to the stack
-- of closing bytes that are due.
use zb.Prelude.{
  ℕ, Bool, true, false, ◌||◌, List, [], ◌∷◌, ◌++◌, Option, none, some, Result, ok, err, ◌≡◌, refl,
  ◌≢◌, ◌⊎◌, inl, inr, ◌==◌, if◌then◌else◌, arith, Bool-cases, Result-cases,
}
use zb.Aterm.{
  Bytes, Token, zero_token, Scanner, ScanError, eof, closing_token, l_paren, r_paren, l_bracket,
  r_bracket, string_kind, comma, parse_string, escape_value, open_value, string_value, close_token,
  close_value, read_value, read_separator, read_token,
}

abbrev pub is_open : ℕ → Bool
is_open kind = kind == l_bracket || kind == l_paren

-- What a token does to the closing bytes that are due, the next one in front; `none` for a token
-- that may not stand there.
unfoldable pub effect : Token → List ℕ → Option (List ℕ)
effect tok due =
    if is_open tok.kind
    then some (closing_token tok.kind ∷ due)
    else if tok.kind == string_kind
    then some due
    else elim due [ [] ↦ none | term ∷ rest ↦ if tok.kind == term then some rest else none ]

unfoldable pub effects : List Token → List ℕ → Option (List ℕ)
effects [] due = some due
effects (tok ∷ ts) due = elim (effect tok due) [ none ↦ none | some due' ↦ effects ts due' ]

-- The tokens of one whole value.
abbrev pub IsComplete : List Token → Type 0
IsComplete ts = (ts ≢ []) × (effects ts [] ≡ some [])

-- What one call has done.
abbrev pub Post : Scanner → Result ScanError Token → Scanner → Type 0
Post s (ok tok) s' =
    (s'.curr ≡ tok)
    × (tok.kind ≢ 0)
    × (s'.unread ≡ s.unread)
    × (s'.failed ≡ s.failed)
    × (effect tok s.stack ≡ some s'.stack)
    × (s'.first ≡ is_open tok.kind)
Post s (err e) s' = (e ≢ eof) × (s'.unread ≡ s.unread)

escape_value-ne-eof : (c : ℕ) → escape_value c ≢ err eof
unfolding escape_value
escape_value-ne-eof c = ground arith

parse_string-ne-eof : (r sb : Bytes) → (parse_string r sb).0 ≢ err eof
unfolding parse_string
parse_string-ne-eof [] sb = cc
parse_string-ne-eof (c ∷ []) sb = ground arith
parse_string-ne-eof (c ∷ d ∷ r) sb = elim (Result-cases (escape_value d)) [
  | inl (v, e) ↦
      ground
        (arith, e, parse_string-ne-eof (d ∷ r) (sb ++ c ∷ []), parse_string-ne-eof r (sb ++ v ∷ []))
  | inr (x, e) ↦
      ground (arith, e, parse_string-ne-eof (d ∷ r) (sb ++ c ∷ []), escape_value-ne-eof d)
]

open_value-Post :
    (b : ℕ) (s : Scanner) → is_open b ≡ true → let (r, s') = open_value b s in Post s r s'
unfolding open_value effect
open_value-Post b s h = ground arith

close_token-Post :
    (b : ℕ) (rest : List ℕ) (s : Scanner)
    → is_open b ≡ false
    → b ≢ 0
    → b ≢ string_kind
    → s.stack ≡ b ∷ rest
    → let (r, s') = close_token b rest s in Post s r s'
unfolding close_token effect
close_token-Post b rest s h n q e = ground arith

string_value-Post : (s : Scanner) → let (r, s') = string_value s in Post s r s'
unfolding string_value effect
string_value-Post s = elim (Result-cases (parse_string s.input []).0) [
  | inl (v, e) ↦ ground (arith, e)
  | inr (x, e) ↦ ground (arith, e, parse_string-ne-eof s.input [])
]

pub Stack-cases : (l : List ℕ) → (l ≡ []) ⊎ ((term : ℕ) × (rest : List ℕ) × (l ≡ term ∷ rest))
Stack-cases [] = inl refl
Stack-cases (term ∷ rest) = inr (term, rest, refl)

is_open_closing : (b : ℕ) → (b ≡ r_bracket) ⊎ (b ≡ r_paren) → is_open b ≡ false
is_open_closing b h = ground arith

close_value-Post :
    (b : ℕ) (after_comma : Bool) (s : Scanner)
    → (b ≡ r_bracket) ⊎ (b ≡ r_paren)
    → let (r, s') = close_value b after_comma s in Post s r s'
close_value-Post b after_comma s h = elim (Stack-cases s.stack) [
  | inl e ↦ unfold close_value in ground (arith, e)
  | inr (term, rest, e) ↦
      unfold close_value in
      ground (arith, e, close_token-Post b rest s (is_open_closing b h) (omega arith) (omega arith))
]

read_value-Post :
    (after_comma : Bool) (b : ℕ) (s : Scanner)
    → let (r, s') = read_value after_comma b s in Post s r s'
unfolding read_value
read_value-Post after_comma b s =
    ground (arith, open_value-Post b s, string_value-Post s, close_value-Post b after_comma s)

abbrev pub IsClosing : ℕ → Type 0
IsClosing b = (b ≡ r_bracket) ⊎ (b ≡ r_paren)

abbrev pub Closings : List ℕ → Type 0
Closings [] = Unit
Closings (b ∷ due) = IsClosing b × Closings due

pub effect-Closings :
    (tok : Token) (due : List ℕ) {due' : List ℕ}
    → effect tok due ≡ some due'
    → Closings due
    → Closings due'
unfolding effect
effect-Closings tok [] e c = ground arith
effect-Closings tok (term ∷ rest) e c = ground arith

read_separator-Post :
    (term : ℕ) (rest : List ℕ) (b : ℕ) (s : Scanner)
    → s.stack ≡ term ∷ rest
    → IsClosing term
    → let (r, s') = read_separator term rest b s in Post s r s'
read_separator-Post term rest b s e c = elim (Bool-cases (b == comma)) [
  | inl sep ↦ elim (Stack-cases s.input) [
    | inl p ↦ unfold read_separator in ground (arith, p)
    | inr (d, r, p) ↦
        unfold read_separator in ground (arith, p, read_value-Post true d (record s { input = r }))
  ]
  | inr other ↦ elim (Bool-cases (b == term)) [
    | inl same ↦
        let eq : b ≡ term = ground arith in
        let top : IsClosing b = ground arith in
        unfold read_separator in
        ground (
          arith,
          close_token-Post b rest s (is_open_closing b top) (ground arith) (ground arith)
              (ground arith),
        )
    | inr differ ↦ unfold read_separator in ground arith
  ]
]

-- What holds between two calls of `ReadToken` where no error is kept.
pub record IsReady (s : Scanner) : Type 0 where
  pub no_unread : s.unread ≡ false
  pub no_error : s.failed ≡ none
  pub closings : Closings s.stack

-- The end of the text is reported behind a whole value only; any other call does what `Post` says.
pub read_token-Post :
    (s : Scanner)
    → IsReady s
    → let (r, s') = read_token s in
      ((s.stack ≡ []) × (s.first ≡ false) × (r ≡ err eof))
      ⊎ ((s.stack ≢ []) ⊎ (s.first ≡ true)) × Post s r s'
read_token-Post s v = elim (Bool-cases s.first) [
  | inl fresh ↦ elim (Stack-cases s.input) [
    | inl p ↦ unfold read_token in ground (arith, v, p)
    | inr (d, r, p) ↦
        unfold read_token in
        ground (arith, v, p, read_value-Post false d (record s { input = r; curr = zero_token }))
  ]
  | inr value ↦ elim (Stack-cases s.stack) [
    | inl p ↦ unfold read_token in ground (arith, v, p)
    | inr (term, rest, q) ↦ elim (Stack-cases s.input) [
      | inl p ↦ unfold read_token in ground (arith, v, p, q)
      | inr (d, r, p) ↦
          unfold read_token in
          ground (
            arith,
            v,
            p,
            q,
            read_separator-Post term rest d (record s { input = r; curr = zero_token }),
          )
    ]
  ]
]

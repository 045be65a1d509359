-- ===== src/Aterm/Consumes.antt =====
-- How much of the stream each call of `ReadToken` of internal/aterm/aterm.go takes.
use zb.Prelude.{
  ℕ, suc, ◌+◌, ◌≤◌, ◌<◌, Bool, true, false, List, [], ◌∷◌, ◌++◌, Result, ok, err, Result-cases,
  if◌then◌else◌, length, ◌≡◌, arith, inl, inr, Option-cases,
}
use zb.Aterm.{
  Bytes, Token, Scanner, ScanError, read_token, parse_string, escape_value, read_value,
  string_value, close_value, read_separator, read_next, open_value, zero_token,
}
use zb.Aterm.Balance.{Stack-cases}

-- the bytes left, and a token that was pushed back
abbrev pub left : Scanner → ℕ
left s = length s.input + (if s.unread then 1 else 0)

parse_string-length : (s sb : Bytes) → length (parse_string s sb).1 ≤ length s
unfolding parse_string
parse_string-length [] sb = ground arith
parse_string-length (c ∷ []) sb = ground arith
parse_string-length (c ∷ d ∷ r) sb =
    let ih = parse_string-length (d ∷ r) (sb ++ c ∷ []) in
    elim (Result-cases (escape_value d)) [
      | inl (v, e) ↦ let ih' = parse_string-length r (sb ++ v ∷ []) in ground (arith, e, ih, ih')
      | inr (x, e) ↦ ground (arith, e, ih)
    ]

-- A call that returns a token leaves less than `n`.
abbrev LeavesLess : ℕ → Result ScanError Token → Scanner → Type 0
LeavesLess n (ok tok) s' = left s' < n
LeavesLess n (err e) s' = Unit

string_value-LeavesLess :
    (s : Scanner)
    → s.unread ≡ false
    → let (r, s') = string_value s in LeavesLess (suc (length s.input)) r s'
unfolding string_value
string_value-LeavesLess s u =
    let l = parse_string-length s.input [] in
    elim (Result-cases (parse_string s.input []).0) [
      | inl (v, e) ↦ ground (arith, e, l, u)
      | inr (x, e) ↦ ground (arith, e)
    ]

close_value-LeavesLess :
    (b : ℕ) (after_comma : Bool) (s : Scanner)
    → s.unread ≡ false
    → let (r, s') = close_value b after_comma s in LeavesLess (suc (length s.input)) r s'
close_value-LeavesLess b after_comma s u = elim (Stack-cases s.stack) [
  | inl e ↦ unfold close_value in ground (arith, e, u)
  | inr (term, rest, e) ↦ unfold close_value in ground (arith, e, u)
]

read_value-LeavesLess :
    (after_comma : Bool) (b : ℕ) (s : Scanner)
    → s.unread ≡ false
    → let (r, s') = read_value after_comma b s in LeavesLess (suc (length s.input)) r s'
unfolding read_value open_value
read_value-LeavesLess after_comma b s u =
    let p = string_value-LeavesLess s u in
    let q = close_value-LeavesLess b after_comma s u in ground (arith, p, q, u)

read_separator-LeavesLess :
    (term : ℕ) (rest : List ℕ) (b : ℕ) (s : Scanner)
    → s.unread ≡ false
    → let (r, s') = read_separator term rest b s in LeavesLess (suc (length s.input)) r s'
read_separator-LeavesLess term rest b s u = elim (Stack-cases s.input) [
  | inl p ↦ unfold read_separator in ground (arith, p, u)
  | inr (d, r, p) ↦
      unfold read_separator in
      ground (arith, p, u, read_value-LeavesLess true d (record s { input = r }) u)
]

read_next-LeavesLess :
    (s : Scanner) → s.unread ≡ false → let (r, s') = read_next s in LeavesLess (length s.input) r s'
read_next-LeavesLess s u = elim (Stack-cases s.input) [
  | inl p ↦ elim (Stack-cases s.stack) [
    | inl q ↦ unfold read_next in ground (arith, p, q, u)
    | inr (term, rest, q) ↦ unfold read_next in ground (arith, p, q, u)
  ]
  | inr (d, r, p) ↦ elim (Stack-cases s.stack) [
    | inl q ↦
        unfold read_next in
        ground (arith, p, q, u, read_value-LeavesLess false d (record s { input = r }) u)
    | inr (term, rest, q) ↦
        unfold read_next in
        ground (
          arith,
          p,
          q,
          u,
          read_value-LeavesLess false d (record s { input = r }) u,
          read_separator-LeavesLess term rest d (record s { input = r }) u,
        )
  ]
]

read_token-LeavesLess : (s : Scanner) → let (r, s') = read_token s in LeavesLess (left s) r s'
unfolding read_token
read_token-LeavesLess s = elim (Option-cases s.failed) [
  | inl e ↦ ground (arith, e, read_next-LeavesLess (record s { curr = zero_token }))
  | inr (x, e) ↦ ground (arith, e)
]

-- A token that is returned leaves fewer bytes in the stream than there were, where one pushed back counts as one.
pub read_token-left :
    (s : Scanner) {tok : Token} {s' : Scanner} → read_token s ≡ (ok tok, s') → left s' < left s
read_token-left s e = rw e at (read_token-LeavesLess s)

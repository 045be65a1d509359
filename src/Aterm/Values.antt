-- ===== src/Aterm/Values.antt =====
-- The values of the format of internal/aterm/aterm.go: their print and their tokens.
use zb.Prelude.{
  ℕ, ◌≤◌, Bool, true, false, List, [], ◌∷◌, ◌++◌, append_assoc, none, ok, err, ◌≡◌, refl, sym, ◌∙◌,
  ap, inl, inr, arith, length, subst,
}
use zb.Aterm.{
  Bytes, Token, zero_token, Scanner, new_scanner, eof, l_paren, r_paren, l_bracket, r_bracket,
  string_kind, comma, closing_token, max_string_length, parse_string, append_string, read_token,
}
use zb.Aterm.Strings.{parse_string-append_string}
use zb.Aterm.Reads.{Reads, done, more, Reads-append}
use zb.Aterm.Balance.{is_open, IsClosing}

-- The values of the format: strings, tuples and lists.
mutual
  pub data Value : Type 0 where
    str : Bytes → Value
    tuple : Values → Value
    items : Values → Value

  pub data Values : Type 0 where
    nil : Values
    cons : Value → Values → Values

-- a value in its place: the first in its brackets, or behind a comma
abbrev pub lead : Bool → Bytes → Bytes
lead true x = x
lead false x = comma ∷ x

unfoldable mutual
  pub print : Value → Bytes
  print (str s) = append_string [] s
  print (tuple vs) = l_paren ∷ (print_values true vs ++ r_paren ∷ [])
  print (items vs) = l_bracket ∷ (print_values true vs ++ r_bracket ∷ [])

  pub print_values : Bool → Values → Bytes
  print_values first nil = []
  print_values first (cons v vs) = lead first (print v) ++ print_values false vs

abbrev pub delimiter : ℕ → Token
delimiter b = record { kind = b; value = [] }

unfoldable mutual
  pub tokens : Value → List Token
  tokens (str s) = record { kind = string_kind; value = s } ∷ []
  tokens (tuple vs) = delimiter l_paren ∷ (tokens_values vs ++ delimiter r_paren ∷ [])
  tokens (items vs) = delimiter l_bracket ∷ (tokens_values vs ++ delimiter r_bracket ∷ [])

  pub tokens_values : Values → List Token
  tokens_values nil = []
  tokens_values (cons v vs) = tokens v ++ tokens_values vs

-- No string is longer than the scanner takes.
unfoldable mutual
  pub Fits : Value → Type 0
  Fits (str s) = length s ≤ max_string_length
  Fits (tuple vs) = FitsValues vs
  Fits (items vs) = FitsValues vs

  pub FitsValues : Values → Type 0
  FitsValues nil = Unit
  FitsValues (cons v vs) = Fits v × FitsValues vs

-- a scanner with no error and no token pushed back
abbrev at : Bytes → Token → List ℕ → Bool → Scanner
at input curr stack first = record {
  input = input;
  failed = none;
  curr = curr;
  stack = stack;
  first = first;
  unread = false;
}

-- where a value may stand
abbrev CanStart : Bool → List ℕ → Type 0
CanStart true stack = Unit
CanStart false [] = ⊥
CanStart false (d ∷ stack) = Unit

read_open :
    (first : Bool) (b : ℕ) (x : Bytes) (c : Token) (stack : List ℕ)
    → is_open b ≡ true
    → CanStart first stack
    → read_token (at (lead first (b ∷ x)) c stack first)
      ≡ (ok (delimiter b), at x (delimiter b) (closing_token b ∷ stack) true)
unfolding read_token
read_open true b x c stack h s = ground arith
read_open false b x c [] h s = absurd s
read_open false b x c (d ∷ stack) h s = ground arith

read_string :
    (first : Bool) (s rest : Bytes) (c : Token) (stack : List ℕ)
    → length s ≤ max_string_length
    → CanStart first stack
    → let tok : Token = record { kind = string_kind; value = s } in
      read_token (at (lead first (append_string [] s ++ rest)) c stack first)
      ≡ (ok tok, at rest tok stack false)
unfolding read_token
read_string first s rest c stack h st =
    let (r, e, p) = parse_string-append_string [] s rest h in
    ap (λ x. read_token (at (lead first x) c stack first)) e ∙ go first stack r p st
  where
    go :
        (first : Bool) (stack : List ℕ) (r : Bytes)
        → parse_string r [] ≡ (ok s, rest)
        → CanStart first stack
        → let tok : Token = record { kind = string_kind; value = s } in
          read_token (at (lead first (string_kind ∷ r)) c stack first)
          ≡ (ok tok, at rest tok stack false)
    go true stack r p st = ground arith
    go false [] r p st = absurd st
    go false (d ∷ stack) r p st = ground arith

read_close :
    (first : Bool) (b : ℕ) (rest : Bytes) (c : Token) (stack : List ℕ)
    → IsClosing b
    → read_token (at (b ∷ rest) c (b ∷ stack) first)
      ≡ (ok (delimiter b), at rest (delimiter b) stack false)
unfolding read_token
read_close true b rest c stack h = ground arith
read_close false b rest c stack h = ground arith

Reads_from :
    {x y : Bytes} {c : Token} {stack : List ℕ} {first : Bool} {ts : List Token} {t : Scanner}
    → x ≡ y
    → Reads (at x c stack first) ts t
    → Reads (at y c stack first) ts t
Reads_from {c = c} {stack = stack} {first = first} {ts = ts} {t = t} e p =
    subst (λ z. Reads (at z c stack first) ts t) e p

brackets :
    (first : Bool) (b d : ℕ) (vs : Values) (rest : Bytes) (c : Token) (stack : List ℕ)
    → closing_token b ≡ d
    → is_open b ≡ true
    → CanStart first stack
    → read_token (at (lead first (b ∷ (print_values true vs ++ d ∷ []) ++ rest)) c stack first)
      ≡ (ok (delimiter b), at (print_values true vs ++ d ∷ rest) (delimiter b) (d ∷ stack) true)
brackets first b d vs rest c stack e h st =
    ap (λ x. read_token (at (lead first (b ∷ x)) c stack first))
      (append_assoc (print_values true vs) (d ∷ []) rest)
    ∙ read_open first b (print_values true vs ++ d ∷ rest) c stack h st
    ∙ ap
        (λ k.
          (ok (delimiter b), at (print_values true vs ++ d ∷ rest) (delimiter b) (k ∷ stack) true))
        e

regroup :
    (first : Bool) (v : Value) (vs : Values) (rest : Bytes)
    → lead first (print v ++ (print_values false vs ++ rest))
      ≡ (lead first (print v) ++ print_values false vs) ++ rest
regroup true v vs rest = sym (append_assoc (print v) (print_values false vs) rest)
regroup false v vs rest =
    ap (λ x. comma ∷ x) (sym (append_assoc (print v) (print_values false vs) rest))

mutual
  unfolding print print_values tokens tokens_values Fits FitsValues

  read_value :
      (v : Value) (first : Bool) (rest : Bytes) (c : Token) (stack : List ℕ)
      → Fits v
      → CanStart first stack
      → (c' : Token) × Reads
          (at (lead first (print v ++ rest)) c stack first)
          (tokens v)
          (at rest c' stack false)
  read_value (str s) first rest c stack f st =
      (_, more (read_string first s rest c stack f st) done)
  read_value (tuple vs) first rest c stack f st =
      let inner = read_values vs true (r_paren ∷ rest) (delimiter l_paren) r_paren stack f tt in
      (
        delimiter r_paren,
        more (brackets first l_paren r_paren vs rest c stack refl refl st) (
            Reads-append inner.2
              (more (read_close inner.1 r_paren rest inner.0 stack (inr refl)) done)),
      )
  read_value (items vs) first rest c stack f st =
      let inner =
        read_values vs true (r_bracket ∷ rest) (delimiter l_bracket) r_bracket stack f tt in
      (
        delimiter r_bracket,
        more (brackets first l_bracket r_bracket vs rest c stack refl refl st) (
            Reads-append inner.2
              (more (read_close inner.1 r_bracket rest inner.0 stack (inl refl)) done)),
      )

  read_values :
      (vs : Values) (first : Bool) (rest : Bytes) (c : Token) (d : ℕ) (stack : List ℕ)
      → FitsValues vs
      → CanStart first (d ∷ stack)
      → (c' : Token) × (first' : Bool) × Reads
          (at (print_values first vs ++ rest) c (d ∷ stack) first)
          (tokens_values vs)
          (at rest c' (d ∷ stack) first')
  read_values nil first rest c d stack f st = (c, first, done)
  read_values (cons v vs) first rest c d stack f st =
      let one = read_value v first (print_values false vs ++ rest) c (d ∷ stack) f.0 st in
      let others = read_values vs false rest one.0 d stack f.1 tt in
      (others.0, others.1, Reads_from (regroup first v vs rest) (Reads-append one.1 others.2))

-- The print of a value whose strings fit is read from a new scanner as the tokens of the value;
-- then the next call reports the end of the text, and the stream holds exactly the bytes that
-- stood behind the print.
pub read-print :
    (v : Value) (rest : Bytes)
    → Fits v
    → (t : Scanner) × Reads (new_scanner (print v ++ rest)) (tokens v) t
      × ((read_token t).0 ≡ err eof)
      × (t.input ≡ rest)
unfolding new_scanner
read-print v rest f =
    let (c, p) = read_value v true rest zero_token [] f tt in
    (at rest c [] false, p, unfold read_token in refl, refl)

-- ===== src/Aterm/Tests.antt =====
-- The theorems on the scanner and the printer at concrete texts.
use zb.Prelude.{
  ℕ, true, false, [], ◌∷◌, ◌++◌, err, none, ◌≡◌, refl, ◌↔◌, replicate, length-replicate, arith,
}
use zb.Aterm.{
  Bytes, Scanner, new_scanner, read_token, parse_string, append_string, eof, string_too_large,
  l_bracket, r_bracket,
}
use zb.Aterm.Strings.{parse_string-too_large}
use zb.Aterm.Values.{
  Value, str, tuple, items, nil, cons, print, tokens, read-print, delimiter, Fits, FitsValues,
}
use zb.Aterm.Reads.{Reads, done, more}
use zb.Aterm.Balance.{IsComplete}
use zb.Aterm.Complete.{read_token-eof_iff}

-- ["a\"",("b")]
abbrev sample : Value
sample = items (cons (str (b'a' ∷ b'"' ∷ [])) (cons (tuple (cons (str (b'b' ∷ [])) nil)) nil))

read-print_example :
    (t : Scanner) × Reads (new_scanner (print sample ++ b'x' ∷ [])) (tokens sample) t
    × ((read_token t).0 ≡ err eof)
    × (t.input ≡ b'x' ∷ [])
read-print_example =
    read-print sample (b'x' ∷ []) (unfold Fits FitsValues in (omega arith, ((omega arith, tt), tt)))

-- the scanner behind `[]`
abbrev finished : Scanner
finished = record {
  input = [];
  failed = none;
  curr = delimiter r_bracket;
  stack = [];
  first = false;
  unread = false;
}

-- the scanner behind the `[` of `[]`
abbrev opened : Scanner
opened = record {
  input = r_bracket ∷ [];
  failed = none;
  curr = delimiter l_bracket;
  stack = r_bracket ∷ [];
  first = true;
  unread = false;
}

empty_list :
    Reads
      (new_scanner (l_bracket ∷ r_bracket ∷ []))
      (delimiter l_bracket ∷ delimiter r_bracket ∷ [])
      finished
unfolding read_token new_scanner
empty_list = more refl (more refl done)

read_token-eof_iff_example :
    ((read_token finished).0 ≡ err eof)
    ↔ IsComplete (delimiter l_bracket ∷ delimiter r_bracket ∷ [])
read_token-eof_iff_example = read_token-eof_iff (l_bracket ∷ r_bracket ∷ []) empty_list

parse_string-too_large_example :
    (r : Bytes) × (append_string [] (replicate 4097 b'a') ++ [] ≡ [] ++ b'"' ∷ r)
    × ((parse_string r []).0 ≡ err string_too_large)
parse_string-too_large_example =
    parse_string-too_large [] (replicate 4097 b'a') []
      (rw (length-replicate {A = ℕ} 4097 b'a') (omega arith))

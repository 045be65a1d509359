-- ===== src/Aterm.antt =====
-- internal/aterm/aterm.go: tokens, the `Scanner` that reads them from a stream of bytes, and
-- `AppendString`. A byte is a number below 256 and a `TokenKind` is a byte; the kind 0 is the zero
-- value. The stream `r` is a `bytes.Reader`, the list of the bytes that are left: its only error
-- is the end of the stream. The stack is kept with its top in front.
pub mod Strings
pub mod Unread
pub mod Values
pub mod Balance
pub mod Reads
mod Tests
pub mod Consumes
pub mod Complete
use zb.Prelude.{
  ℕ, ◌+◌, ◌≤◌, ◌<◌, Bool, true, false, not, ◌&&◌, ◌||◌, List, [], ◌∷◌, ◌++◌, Option, none, some,
  Result, ok, err, ltb, leb, ◌==◌, if◌then◌else◌, length,
}

abbrev pub Bytes : Type 0
Bytes = List ℕ

-- The named `TokenKind` values.
abbrev pub string_kind : ℕ
string_kind = b'"'

abbrev pub l_paren : ℕ
l_paren = b'('

abbrev pub r_paren : ℕ
r_paren = b')'

abbrev pub l_bracket : ℕ
l_bracket = b'['

abbrev pub r_bracket : ℕ
r_bracket = b']'

abbrev pub comma : ℕ
comma = b','

pub record Token : Type 0 where
  pub kind : ℕ
  pub value : Bytes

abbrev pub zero_token : Token
zero_token = record { kind = 0; value = [] }

-- The map `closingTokens`, zero on a missing key.
abbrev pub closing_token : ℕ → ℕ
closing_token kind = if kind == l_paren then r_paren else if kind == l_bracket then r_bracket else 0

pub data ScanError : Type 0 where
  eof unexpected_eof : ScanError
  unexpected_separator : ℕ → ℕ → ScanError
  expected_value : ℕ → ScanError
  does_not_match : ℕ → ScanError
  expected_closing : ℕ → ℕ → ScanError
  unexpected_character : ℕ → ScanError
  string_eof string_too_large : ScanError
  non_text_escape unknown_escape : ℕ → ScanError

pub record Scanner : Type 0 where
  pub input : Bytes
  pub failed : Option ScanError
  pub curr : Token
  pub stack : List ℕ
  pub first : Bool
  pub unread : Bool

pub new_scanner : Bytes → Scanner
new_scanner r = record {
  input = r;
  failed = none;
  curr = zero_token;
  stack = [];
  first = true;
  unread = false;
}

abbrev pub max_string_length : ℕ
max_string_length = 4096

-- What the byte behind a backslash stands for.
pub escape_value : ℕ → Result ScanError ℕ
escape_value c =
    if c == b'"' || c == b'\\'
    then ok c
    else if c == b'n'
    then ok b'\n'
    else if c == b'r'
    then ok b'\r'
    else if c == b't'
    then ok b'\t'
    else if ltb c b' ' || leb 127 c
    then err (non_text_escape c)
    else err (unknown_escape c)

-- `parseString`: the text so far is `sb`; the result is the text, and what is left of the stream.
unfoldable pub parse_string : Bytes → Bytes → Result ScanError Bytes × Bytes
parse_string [] sb = (err string_eof, [])
parse_string (c ∷ []) sb =
    if c == b'"'
    then (ok sb, [])
    else if leb max_string_length (length sb)
    then (err string_too_large, [])
    else (err string_eof, [])
parse_string (c ∷ d ∷ r) sb =
    let escaped : Result ScanError Bytes × Bytes = elim (escape_value d) [
      | ok v ↦ parse_string r (sb ++ v ∷ [])
      | err e ↦ (err e, r)
    ] in
    let plain = parse_string (d ∷ r) (sb ++ c ∷ []) in
    if c == b'"'
    then (ok sb, d ∷ r)
    else if leb max_string_length (length sb)
    then (err string_too_large, d ∷ r)
    else if c == b'\\'
    then escaped
    else plain

-- What every call of `ReadToken` returns: a token or an error, and the new state.
abbrev pub Read : Type 0
Read = Result ScanError Token × Scanner

-- `s.err = e; return Token{}, s.err`
abbrev pub fail : Scanner → ScanError → Read
fail s e = (err e, record s { failed = some e })

-- `s.r.ReadByte()` with the end of the stream reported as unexpected, and not kept in `s.err`.
abbrev pub read_byte : Scanner → (ℕ → Scanner → Read) → Read
read_byte s k = elim s.input [ [] ↦ (err unexpected_eof, s) | b ∷ r ↦ k b (record s { input = r }) ]

-- The cases of `ReadToken`'s second switch.
pub open_value : ℕ → Scanner → Read
open_value b s =
    let tok : Token = record { kind = b; value = [] } in
    (ok tok, record s { stack = closing_token b ∷ s.stack; curr = tok; first = true })

pub string_value : Scanner → Read
string_value s =
    let (parsed, r) = parse_string s.input [] in
    elim parsed [
      | ok value ↦
          let tok : Token = record { kind = string_kind; value = value } in
          (ok tok, record s { input = r; curr = tok; first = false })
      | err e ↦ (err e, record s { input = r; failed = some e })
    ]

pub close_token : ℕ → List ℕ → Scanner → Read
close_token b rest s =
    let tok : Token = record { kind = b; value = [] } in
    (ok tok, record s { stack = rest; curr = tok; first = false })

pub close_value : ℕ → Bool → Scanner → Read
unfolding close_token
close_value b after_comma s = if after_comma then fail s (expected_value b) else elim s.stack [
  | [] ↦ fail s (does_not_match b)
  | term ∷ rest ↦ if not (b == term) then fail s (expected_closing b term) else close_token b rest s
]

pub read_value : Bool → ℕ → Scanner → Read
unfolding open_value string_value close_value
read_value after_comma b s =
    if b == l_bracket || b == l_paren
    then open_value b s
    else if b == string_kind
    then string_value s
    else if b == r_bracket || b == r_paren
    then close_value b after_comma s
    else fail s (unexpected_character b)

-- Behind a value inside brackets: a comma, or the closing byte `term`.
pub read_separator : ℕ → List ℕ → ℕ → Scanner → Read
unfolding close_token read_value
read_separator term rest b s =
    if b == comma
    then read_byte s (read_value true)
    else if b == term
    then close_token b rest s
    else fail s (unexpected_separator b term)

-- `ReadToken` where no token was pushed back and no error is kept, and `curr` is cleared.
pub read_next : Scanner → Read
unfolding read_value read_separator
read_next s =
    if s.first
    then read_byte s (read_value false)
    else elim s.stack [ [] ↦ fail s eof | term ∷ rest ↦ read_byte s (read_separator term rest) ]

unfoldable pub read_token : Scanner → Read
unfolding read_next
read_token s =
    if s.unread
    then (ok s.curr, record s { unread = false })
    else elim s.failed [ some e ↦ (err e, s) | none ↦ read_next (record s { curr = zero_token }) ]

-- `UnreadToken`; `none` is its error.
unfoldable pub unread_token : Scanner → Option Scanner
unread_token s = if s.unread || s.curr.kind == 0 then none else some (record s { unread = true })

-- What one round of `AppendString` appends.
pub escape_byte : ℕ → Bytes
escape_byte c =
    if c == b'"' || c == b'\\'
    then b'\\' ∷ c ∷ []
    else if c == b'\n'
    then b'\\' ∷ b'n' ∷ []
    else if c == b'\r'
    then b'\\' ∷ b'r' ∷ []
    else if c == b'\t'
    then b'\\' ∷ b't' ∷ []
    else c ∷ []

pub append_escaped : Bytes → Bytes → Bytes
append_escaped dst [] = dst
append_escaped dst (c ∷ s) = append_escaped (dst ++ escape_byte c) s

unfoldable pub append_string : Bytes → Bytes → Bytes
unfolding append_escaped escape_byte
append_string dst s = append_escaped (dst ++ b'"' ∷ []) s ++ b'"' ∷ []

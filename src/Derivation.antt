-- ===== src/Derivation.antt =====
-- zbstore/derivation.go: the parts of a derivation's text form, written by `MarshalText` and read
-- by `parseTuple` with the scanner of ATerm. A map is the list of its entries in ascending order
-- of the keys, the order in which xmaps.SortedKeys goes through it. Of an error the cause is kept,
-- and the words that its callers put before it are left out.
pub mod Marshal
pub mod Outputs
pub mod OutputReference
pub mod OutputPaths
pub mod Format
pub mod Tuple
pub mod Printed
pub mod TupleTokens
pub mod InputTokens
pub mod WholeTokens
pub mod WholeTrip
pub mod OutputTexts
pub mod GoodOutputs
pub mod Whole
pub mod Export
pub mod Exported
pub mod Rounds
pub mod RoundTrip
pub mod StepRounds
pub mod TupleRounds
mod Tests
use zb.Prelude.{
  ℕ, zero, suc, ◌+◌, Bool, true, false, not, ◌||◌, List, [], ◌∷◌, ◌++◌, Result, ok, err, ◌==◌,
  if◌then◌else◌, length,
}
use zb.Sets.Ordered.{equal, lt_bytes, bytes_ordered}
use zb.StorePath.Paths.{PathError}
use zb.Aterm.{
  Bytes, Token, Scanner, ScanError, read_token, append_string, string_kind, l_paren, r_paren,
  l_bracket, r_bracket, comma,
}

pub data ParseError : Type 0 where
  scan : ScanError → ParseError
  -- `expected 'c', found tok`, or `expected string, found tok`
  expected : ℕ → Token → ParseError
  -- `expected string or ']', found tok`
  expected_string : Token → ParseError
  -- `expected ']' or '(', found tok`
  expected_entry : Token → ParseError
  multiple_entries : Bytes → ParseError
  invalid_output : Bytes → ParseError
  hash_algorithm : ParseError
  hash_encoding : ParseError
  hash_size : ParseError
  unhandled_algorithm : ParseError
  unknown_output_type : ParseError
  multiple_outputs : Bytes → ParseError
  not_in_directory : Bytes → ParseError
  multiple_inputs : Bytes → ParseError
  bad_path : PathError → ParseError
  no_constructor : ParseError
  trailing_data : ParseError
  out_of_rounds : ParseError

-- A result with the scanner that is left, as a function that is given a scanner leaves it.
abbrev pub Step : Type 0 → Type 0
Step A = Result ParseError A × Scanner

-- `if err != nil { return err }`
infixl 5 ◌>>◌
abbrev pub ◌>>◌ : {A B : Type 0} → Step A → (A → Scanner → Step B) → Step B
(ok a, s) >> k = k a s
(err e, s) >> k = (err e, s)

-- `s.ReadToken()`
unfoldable pub next_token : Scanner → Step Token
next_token s =
    let (r, s') = read_token s in elim r [ ok tok ↦ (ok tok, s') | err e ↦ (err (scan e), s') ]

unfoldable pub expect_token : Scanner → ℕ → Step Token
unfolding next_token
expect_token s kind = next_token s >> λ tok s'.
    if not (tok.kind == kind) then (err (expected kind tok), s') else (ok tok, s')

-- More rounds than a loop needs that reads a token in each: a token is at least one byte, but for
-- one that was pushed back.
abbrev pub rounds : Scanner → ℕ
rounds s = suc (suc (length s.input))

-- The loop of `parseStringList`, on rounds; `f` takes what it has made of the strings before.
unfoldable pub parse_strings :
    {S : Type 0} → (S → Bytes → Result ParseError S) → ℕ → S → Scanner → Step S
unfolding next_token
parse_strings f zero acc s = (err out_of_rounds, s)
parse_strings f (suc n) acc s = next_token s >> λ tok s'. elim (tok.kind == string_kind) [
  | true ↦ elim (f acc tok.value) [ err e ↦ (err e, s') | ok acc' ↦ parse_strings f n acc' s' ]
  | false ↦ if tok.kind == r_bracket then (ok acc, s') else (err (expected_string tok), s')
]

unfoldable pub parse_string_list :
    {S : Type 0} → (S → Bytes → Result ParseError S) → S → Scanner → Step S
unfolding expect_token
parse_string_list f acc s = expect_token s l_bracket >> λ tok s'. parse_strings f (rounds s') acc s'

-- `func(arg string) error` of the builder's arguments
abbrev pub append_arg : List Bytes → Bytes → Result ParseError (List Bytes)
append_arg args arg = ok (args ++ arg ∷ [])

unfoldable pub parse_args : Scanner → Step (List Bytes)
unfolding parse_string_list
parse_args s = parse_string_list append_arg [] s

abbrev pub Env : Type 0
Env = List (Bytes × Bytes)

-- `_, exists := drv.Env[k]`
unfoldable pub exists : {V : Type 0} → List (Bytes × V) → Bytes → Bool
exists [] k = false
exists ((k', v) ∷ env) k = equal k' k || exists env k

-- `drv.Env[k] = v` where no entry has the key
unfoldable pub put : {V : Type 0} → List (Bytes × V) → Bytes → V → List (Bytes × V)
put [] k v = (k, v) ∷ []
put ((k', v') ∷ env) k v = if lt_bytes k k' then (k, v) ∷ (k', v') ∷ env else (k', v') ∷ put env k v

-- A round of the loop of `parseEnv` behind the opening parenthesis.
unfoldable pub parse_entry : Env → Scanner → Step Env
unfolding expect_token exists put
parse_entry env s = expect_token s string_kind >> λ tok s1.
    let k = tok.value in
    if exists env k
    then (err (multiple_entries k), s1)
    else expect_token s1 string_kind >> λ tok2 s2.
        expect_token s2 r_paren >> λ tok3 s3. (ok (put env k tok2.value), s3)

-- The loop of `parseEnv`, on rounds.
unfoldable pub parse_entries : ℕ → Env → Scanner → Step Env
unfolding next_token parse_entry
parse_entries zero env s = (err out_of_rounds, s)
parse_entries (suc n) env s = next_token s >> λ tok s'. elim (tok.kind == r_bracket) [
  | true ↦ (ok env, s')
  | false ↦ elim (tok.kind == l_paren) [
    | false ↦ (err (expected_entry tok), s')
    | true ↦ parse_entry env s' >> λ env' s2. parse_entries n env' s2
  ]
]

unfoldable pub parse_env : Scanner → Step Env
unfolding expect_token parse_entries
parse_env s = expect_token s l_bracket >> λ tok s'. parse_entries (rounds s') [] s'

-- `if i > 0 { buf = append(buf, ',') }`
abbrev pub append_comma : Bytes → Bool → Bytes
append_comma buf first = if first then buf else buf ++ comma ∷ []

-- The loops of `MarshalText` and `marshalInputDerivations` on a list of strings.
unfoldable pub append_strings : Bytes → Bool → List Bytes → Bytes
append_strings buf first [] = buf
append_strings buf first (s ∷ rest) =
    append_strings (append_string (append_comma buf first) s) false rest

-- The loop of `MarshalText` on the environment.
unfoldable pub append_env : Bytes → Bool → Env → Bytes
append_env buf first [] = buf
append_env buf first ((k, v) ∷ env) =
    append_env
      (append_string (append_string (append_comma buf first ++ l_paren ∷ []) k ++ comma ∷ []) v
        ++ r_paren ∷ [])
      false env

-- The map of `marshalInputDerivations`: a path, and the sorted set of its outputs' names.
abbrev pub InputDerivations : Type 0
InputDerivations = List (Bytes × List Bytes)

unfoldable pub marshal_input_derivations : Bytes → Bool → InputDerivations → Bytes
unfolding append_strings
marshal_input_derivations buf first [] = buf
marshal_input_derivations buf first ((k, outputs) ∷ m) =
    marshal_input_derivations
      (append_strings
          (append_string (append_comma buf first ++ l_paren ∷ []) k ++ comma ∷ l_bracket ∷ []) true
          outputs
        ++ r_bracket ∷ r_paren ∷ [])
      false m

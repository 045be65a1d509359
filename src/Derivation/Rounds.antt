-- ===== src/Derivation/Rounds.antt =====
-- The bounds on the loops of the parsers of zbstore/derivation.go.
use zb.Prelude.{ℕ, zero, suc, ◌<◌, [], Result, ok, err, Result-cases, ◌≢◌, arith, inl, inr}
use zb.Aterm.{Bytes, Scanner, read_token, string_kind, l_bracket, r_paren}
use zb.Aterm.Consumes.{left, read_token-left}
use zb.Derivation.{
  ParseError, out_of_rounds, next_token, expect_token, rounds, parse_strings, parse_string_list,
  Env, parse_entry, parse_entries, parse_env,
}

-- A step that does not fail for the bound on a loop, and leaves less than `n` on success.
abbrev pub Leaves : {A : Type 0} → ℕ → Result ParseError A → Scanner → Type 0
Leaves n (ok a) s' = left s' < n
Leaves n (err e) s' = e ≢ out_of_rounds

pub next_token-Leaves : (s : Scanner) → let (r, s') = next_token s in Leaves (left s) r s'
unfolding next_token
next_token-Leaves s = elim (Result-cases (read_token s).0) [
  | inl (tok, e) ↦ ground (arith, e, read_token-left s {tok = tok} {s' = (read_token s).1})
  | inr (x, e) ↦ ground (arith, e)
]

pub expect_token-Leaves :
    (s : Scanner) (kind : ℕ) → let (r, s') = expect_token s kind in Leaves (left s) r s'
unfolding expect_token
expect_token-Leaves s kind =
    let p = next_token-Leaves s in
    elim (Result-cases (next_token s).0) [
      | inl (tok, e) ↦ ground (arith, e, p)
      | inr (x, e) ↦ ground (arith, e, p)
    ]

parse_entry-Leaves :
    (env : Env) (s : Scanner) → let (r, s') = parse_entry env s in Leaves (left s) r s'
unfolding parse_entry
parse_entry-Leaves env s =
    let p = expect_token-Leaves s string_kind in
    let s1 = (expect_token s string_kind).1 in
    let q = expect_token-Leaves s1 string_kind in
    let s2 = (expect_token s1 string_kind).1 in
    let r = expect_token-Leaves s2 r_paren in
    elim (Result-cases (expect_token s string_kind).0) [
      | inl (tok, e) ↦ elim (Result-cases (expect_token s1 string_kind).0) [
        | inl (tok2, e2) ↦ elim (Result-cases (expect_token s2 r_paren).0) [
          | inl (tok3, e3) ↦ ground (arith, e, e2, e3, p, q, r)
          | inr (x, e3) ↦ ground (arith, e, e2, e3, p, q, r)
        ]
        | inr (x, e2) ↦ ground (arith, e, e2, p, q)
      ]
      | inr (x, e) ↦ ground (arith, e, p)
    ]

parse_entries-rounds :
    (n : ℕ) (env : Env) (s : Scanner) → left s < n → (parse_entries n env s).0 ≢ err out_of_rounds
unfolding parse_entries
parse_entries-rounds zero env s h = elim h [ ]
parse_entries-rounds (suc n) env s h =
    let p = next_token-Leaves s in
    elim (Result-cases (next_token s).0) [
      | inl (tok, e) ↦
          let s1 = (next_token s).1 in
          let q = parse_entry-Leaves env s1 in
          elim (Result-cases (parse_entry env s1).0) [
            | inl (env', e') ↦
                ground (arith, e, e', p, q, parse_entries-rounds n env' (parse_entry env s1).1)
            | inr (x, e') ↦ ground (arith, e, e', p, q)
          ]
      | inr (x, e) ↦ ground (arith, e, p)
    ]

-- The parser of an environment ends on every input before the rounds of its loop are used up.
pub parse_env-rounds : (s : Scanner) → (parse_env s).0 ≢ err out_of_rounds
unfolding parse_env
parse_env-rounds s =
    let p = expect_token-Leaves s l_bracket in
    let s1 = (expect_token s l_bracket).1 in
    elim (Result-cases (expect_token s l_bracket).0) [
      | inl (tok, e) ↦ ground (arith, e, p, parse_entries-rounds (rounds s1) [] s1)
      | inr (x, e) ↦ ground (arith, e, p)
    ]

parse_strings-rounds :
    {S : Type 0} (f : S → Bytes → Result ParseError S) (n : ℕ) (acc : S) (s : Scanner)
    → ((a : S) (v : Bytes) → f a v ≢ err out_of_rounds)
    → left s < n
    → (parse_strings f n acc s).0 ≢ err out_of_rounds
unfolding parse_strings
parse_strings-rounds f zero acc s g h = elim h [ ]
parse_strings-rounds f (suc n) acc s g h =
    let p = next_token-Leaves s in
    elim (Result-cases (next_token s).0) [
      | inl (tok, e) ↦
          let q = g acc tok.value in
          elim (Result-cases (f acc tok.value)) [
            | inl (acc', e') ↦
                ground (arith, e, e', p, q, parse_strings-rounds f n acc' (next_token s).1 g)
            | inr (x, e') ↦ ground (arith, e, e', p, q)
          ]
      | inr (x, e) ↦ ground (arith, e, p)
    ]

-- The parser of a list of strings ends on every input before the rounds of its loop are used up,
-- where the function that it gives the strings to never fails for that bound.
pub parse_string_list-rounds :
    {S : Type 0} (f : S → Bytes → Result ParseError S) (acc : S) (s : Scanner)
    → ((a : S) (v : Bytes) → f a v ≢ err out_of_rounds)
    → (parse_string_list f acc s).0 ≢ err out_of_rounds
unfolding parse_string_list
parse_string_list-rounds f acc s g =
    let p = expect_token-Leaves s l_bracket in
    let s1 = (expect_token s l_bracket).1 in
    elim (Result-cases (expect_token s l_bracket).0) [
      | inl (tok, e) ↦ ground (arith, e, p, parse_strings-rounds f (rounds s1) acc s1 g)
      | inr (x, e) ↦ ground (arith, e, p)
    ]

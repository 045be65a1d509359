-- ===== src/Derivation/RoundTrip.antt =====
-- The parsers of lists of strings and of the environment of zbstore/derivation.go, on the tokens of
-- what is written for them.
use zb.Prelude.{
  ℕ, zero, suc, ◌+◌, ◌≤◌, ◌<◌, true, false, List, [], ◌∷◌, ◌++◌, length-append, append_assoc,
  append-nil, Result, ok, length, ◌≡◌, refl, sym, ap, arith, Bool-cases, inl, inr, subst,
}
use zb.Sets.Ordered.{lt_bytes, bytes_ordered, lt_bytes_trans, lt_bytes_irrefl}
use zb.Aterm.{
  Bytes, Token, Scanner, read_token, r_bracket, string_kind, l_bracket, r_paren, max_string_length,
}
use zb.Aterm.Reads.{Reads, done, more}
use zb.Aterm.Values.{items, tokens, tokens_values, delimiter, Fits, FitsValues}
use zb.Aterm.Consumes.{left, read_token-left}
use zb.Derivation.{
  ParseError, next_token, expect_token, rounds, parse_strings, parse_string_list, append_arg, Env,
  exists, put, parse_entry, parse_entries, parse_env,
}
use zb.Derivation.Marshal.{strings, entries}

-- Every token that is read takes at least a byte.
pub Reads-left : {s t : Scanner} {ts : List Token} → Reads s ts t → length ts + left t ≤ left s
Reads-left done = omega arith
Reads-left {s = s} (more e p) = omega (arith, read_token-left s e, Reads-left p)

pub next_token-ok :
    (s : Scanner) {tok : Token} {u : Scanner}
    → read_token s ≡ (ok tok, u)
    → next_token s ≡ (ok tok, u)
unfolding next_token
next_token-ok s e = ground (arith, e)

pub expect_token-ok :
    (s : Scanner) (kind : ℕ) (value : Bytes) {u : Scanner}
    → let tok : Token = record { kind = kind; value = value } in
      read_token s ≡ (ok tok, u) → expect_token s kind ≡ (ok tok, u)
unfolding expect_token
expect_token-ok s kind value e = rw (next_token-ok s e) (ground arith)

-- The strings are given to `f` in order, and none of them makes it fail.
abbrev pub Folds : {S : Type 0} → (S → Bytes → Result ParseError S) → S → List Bytes → S → Type 0
Folds f acc [] acc' = acc ≡ acc'
Folds {S} f acc (v ∷ vs) acc' = (a : S) × (f acc v ≡ ok a) × Folds f a vs acc'

parse_strings-tokens :
    {S : Type 0} (f : S → Bytes → Result ParseError S) (n : ℕ) (acc acc' : S) (vs : List Bytes)
    {s t : Scanner}
    → length vs < n
    → Folds f acc vs acc'
    → Reads s (tokens_values (strings vs) ++ delimiter r_bracket ∷ []) t
    → parse_strings f n acc s ≡ (ok acc', t)
unfolding parse_strings tokens tokens_values
parse_strings-tokens f zero acc acc' vs h g p = elim h [ ]
parse_strings-tokens f (suc n) acc acc' [] {s = s} h g (more e done) = ground (arith, e, g)
parse_strings-tokens f (suc n) acc acc' (v ∷ vs) {s = s} h (a, q, g) (more e p) =
    let ih = parse_strings-tokens f n a acc' vs (omega arith) g p in ground (arith, e, q, ih)

length-tokens_strings : (vs : List Bytes) → length (tokens_values (strings vs)) ≡ length vs
unfolding tokens tokens_values
length-tokens_strings [] = refl
length-tokens_strings (v ∷ vs) = ap suc (length-tokens_strings vs)

-- `parse_string_list` from where the tokens of a list of strings begin.
pub parse_string_list-tokens :
    {S : Type 0} (f : S → Bytes → Result ParseError S) (acc acc' : S) (vs : List Bytes)
    (s : Scanner) {t : Scanner}
    → Folds f acc vs acc'
    → Reads s (tokens (items (strings vs))) t
    → parse_string_list f acc s ≡ (ok acc', t)
unfolding parse_string_list tokens
parse_string_list-tokens f acc acc' vs s g (more {u = u} e p) =
    let q = expect_token-ok s l_bracket [] e in
    let h : length vs < rounds u =
      (let l = Reads-left p in
        let m = length-append (tokens_values (strings vs)) (delimiter r_bracket ∷ []) in
        let o = length-tokens_strings vs in ground (arith, l, m, o)) in
    rw q (parse_strings-tokens f (rounds u) acc acc' vs h g p)

pub Folds-append_arg : (args vs : List Bytes) → Folds append_arg args vs (args ++ vs)
Folds-append_arg args [] = sym (append-nil args)
Folds-append_arg args (v ∷ vs) = (
  args ++ v ∷ [],
  refl,
  subst (λ (x : List Bytes). Folds append_arg (args ++ v ∷ []) vs x) (append_assoc args (v ∷ []) vs)
      (Folds-append_arg (args ++ v ∷ []) vs),
)

-- no string is longer than the scanner takes
abbrev pub FitStrings : List Bytes → Type 0
FitStrings [] = Unit
FitStrings (v ∷ vs) = (length v ≤ max_string_length) × FitStrings vs

pub Fits-strings : (vs : List Bytes) → FitStrings vs → FitsValues (strings vs)
unfolding FitsValues
Fits-strings [] f = tt
Fits-strings (v ∷ vs) f = (f.0, Fits-strings vs f.1)

-- every key of an environment is above `k`
abbrev pub Above : {V : Type 0} → Bytes → List (Bytes × V) → Type 0
Above k [] = Unit
Above k ((k', v) ∷ env) = (lt_bytes k k' ≡ true) × Above k env

-- The entries are in ascending order of their keys, which no two of them share.
abbrev pub IsAscending : {V : Type 0} → List (Bytes × V) → Type 0
IsAscending [] = Unit
IsAscending ((k, v) ∷ env) = Above k env × IsAscending env

Above-at :
    {V : Type 0} (k k' : Bytes) (v : V) (acc env : List (Bytes × V))
    → Above k (acc ++ (k', v) ∷ env)
    → lt_bytes k k' ≡ true
Above-at k k' v [] env a = a.0
Above-at k k' v (e ∷ acc) env a = Above-at k k' v acc env a.1

-- A key above all the others is new, and its entry is put at the end.
pub put-last :
    {V : Type 0} (acc env : List (Bytes × V)) (k : Bytes) (v : V)
    → IsAscending (acc ++ (k, v) ∷ env)
    → (exists acc k ≡ false) × (put acc k v ≡ acc ++ (k, v) ∷ [])
unfolding exists put
put-last [] env k v h = (refl, refl)
put-last ((k', v') ∷ acc) env k v h =
    let below = Above-at k' k v acc env h.0 in
    let (p, q) = put-last acc env k v h.1 in
    elim (Bool-cases (lt_bytes k k')) [
      | inl above ↦
          let loop = lt_bytes_trans k k' k above below in let same = lt_bytes_irrefl k in cc
      | inr other ↦ ground (arith, below, p, q, other)
    ]

parse_entry-tokens :
    (acc : Env) (k v : Bytes) (s : Scanner) {s1 s2 s3 : Scanner}
    → exists acc k ≡ false
    → put acc k v ≡ acc ++ (k, v) ∷ []
    → read_token s ≡ (ok (record { kind = string_kind; value = k }), s1)
    → read_token s1 ≡ (ok (record { kind = string_kind; value = v }), s2)
    → read_token s2 ≡ (ok (delimiter r_paren), s3)
    → parse_entry acc s ≡ (ok (acc ++ (k, v) ∷ []), s3)
unfolding parse_entry
parse_entry-tokens acc k v s {s1 = s1} {s2 = s2} x p e1 e2 e3 =
    let q1 = expect_token-ok s string_kind k e1 in
    let q2 = expect_token-ok s1 string_kind v e2 in
    let q3 = expect_token-ok s2 r_paren [] e3 in ground (arith, x, p, q1, q2, q3)

parse_entries-tokens :
    (n : ℕ) (acc env : Env) {s t : Scanner}
    → length env < n
    → IsAscending (acc ++ env)
    → Reads s (tokens_values (entries env) ++ delimiter r_bracket ∷ []) t
    → parse_entries n acc s ≡ (ok (acc ++ env), t)
unfolding parse_entries tokens tokens_values
parse_entries-tokens zero acc env h a p = elim h [ ]
parse_entries-tokens (suc n) acc [] {s = s} h a (more e done) =
    let q = append-nil acc in ground (arith, e, q)
parse_entries-tokens (suc n) acc ((k, v) ∷ env) {s = s} h a
      (more {u = s0} e (more {u = s1} e1 (more {u = s2} e2 (more {u = s3} e3 p)))) =
    let (new, last) = put-last acc env k v a in
    let q = parse_entry-tokens acc k v s0 new last e1 e2 e3 in
    let assoc = append_assoc acc ((k, v) ∷ []) env in
    let ih =
      parse_entries-tokens n (acc ++ (k, v) ∷ []) env (omega arith)
        (subst (λ (x : Env). IsAscending x) (sym assoc) a) p in
    ground (arith, e, q, ih, assoc)

length-tokens_entries : (env : Env) → length env ≤ length (tokens_values (entries env))
unfolding tokens tokens_values
length-tokens_entries [] = omega arith
length-tokens_entries ((k, v) ∷ env) = omega (arith, length-tokens_entries env)

pub parse_env-tokens :
    (env : Env) (s : Scanner) {t : Scanner}
    → IsAscending env
    → Reads s (tokens (items (entries env))) t
    → parse_env s ≡ (ok env, t)
unfolding parse_env tokens
parse_env-tokens env s a (more {u = u} e p) =
    let q = expect_token-ok s l_bracket [] e in
    let h : length env < rounds u =
      (let l = Reads-left p in
        let m = length-append (tokens_values (entries env)) (delimiter r_bracket ∷ []) in
        let o = length-tokens_entries env in ground (arith, l, m, o)) in
    rw q (parse_entries-tokens (rounds u) [] env h a p)

-- no key and no value is longer than the scanner takes
abbrev pub FitEnv : Env → Type 0
FitEnv [] = Unit
FitEnv ((k, v) ∷ env) = (length k ≤ max_string_length) × (length v ≤ max_string_length) × FitEnv env

pub Fits-entries : (env : Env) → FitEnv env → FitsValues (entries env)
unfolding Fits FitsValues
Fits-entries [] f = tt
Fits-entries ((k, v) ∷ env) (p, q, f) = ((p, (q, tt)), Fits-entries env f)

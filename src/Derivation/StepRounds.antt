-- ===== src/Derivation/StepRounds.antt =====
-- Steps of the parsers of zbstore/derivation.go: what they leave of the stream, and the bounds on
-- the loop on a list of strings.
use zb.Prelude.{
  ℕ, zero, suc, ◌≤◌, ◌<◌, Bool, true, false, List, [], Result, ok, err, Result-cases, ◌≢◌, arith,
  inl, inr, ap,
}
use zb.Sets.Ordered.{bytes_ordered}
use zb.Aterm.{Bytes, Scanner, unread_token, l_bracket}
use zb.Aterm.Consumes.{left}
use zb.Derivation.{
  ParseError, out_of_rounds, Step, ◌>>◌, next_token, expect_token, rounds, parse_strings,
  parse_string_list, parse_args, append_arg,
}
use zb.Derivation.Rounds.{Leaves, next_token-Leaves, expect_token-Leaves}
use zb.Derivation.Tuple.{give_back, add_name}

-- A step that leaves less than `n` on success, and does not fail for the bound on a loop.
abbrev pub LeavesStep : {A : Type 0} → ℕ → Step A → Type 0
LeavesStep n (r, s) = Leaves n r s

abbrev pub Ends : {A : Type 0} → Step A → Type 0
Ends (ok a, s) = Unit
Ends (err e, s) = e ≢ out_of_rounds

pub Leaves-mono : {A : Type 0} (m n : ℕ) (x : Step A) → m ≤ n → LeavesStep m x → LeavesStep n x
Leaves-mono m n (ok a, s) h l = omega arith
Leaves-mono m n (err e, s) h l = l

pub Leaves-Ends : {A : Type 0} (n : ℕ) (x : Step A) → LeavesStep n x → Ends x
Leaves-Ends n (ok a, s) l = tt
Leaves-Ends n (err e, s) l = l

pub bind-Leaves :
    {A B : Type 0} (n : ℕ) (x : Step A) (k : A → Scanner → Step B)
    → LeavesStep n x
    → ((a : A) (s : Scanner) → left s < n → LeavesStep n (k a s))
    → LeavesStep n (x >> k)
bind-Leaves n (ok a, s) k l f = f a s l
bind-Leaves n (err e, s) k l f = l

pub bind-Ends :
    {A B : Type 0} (x : Step A) (k : A → Scanner → Step B)
    → Ends x
    → ((a : A) (s : Scanner) → Ends (k a s))
    → Ends (x >> k)
bind-Ends (ok a, s) k l f = f a s
bind-Ends (err e, s) k l f = l

pub then-Ends :
    {A B : Type 0} (n : ℕ) (x : Step A) (k : A → Scanner → Step B)
    → LeavesStep n x
    → ((a : A) (s : Scanner) → left s < n → Ends (k a s))
    → Ends (x >> k)
then-Ends n (ok a, s) k l f = f a s l
then-Ends n (err e, s) k l f = l

pub cond-Ends :
    {A : Type 0} (b : Bool) (x y : Step A)
    → Ends x
    → Ends y
    → Ends (elim b [ true ↦ x | false ↦ y ])
cond-Ends true x y p q = p
cond-Ends false x y p q = q

pub cond-Leaves :
    {A : Type 0} (n : ℕ) (b : Bool) (x y : Step A)
    → LeavesStep n x
    → LeavesStep n y
    → LeavesStep n (elim b [ true ↦ x | false ↦ y ])
cond-Leaves n true x y p q = p
cond-Leaves n false x y p q = q

pub expect_token-below :
    (n : ℕ) (s : Scanner) (kind : ℕ) → left s ≤ n → LeavesStep n (expect_token s kind)
expect_token-below n s kind h =
    Leaves-mono (left s) n (expect_token s kind) h (expect_token-Leaves s kind)

pub expect_token-Ends : (s : Scanner) (kind : ℕ) → Ends (expect_token s kind)
expect_token-Ends s kind = Leaves-Ends (left s) (expect_token s kind) (expect_token-Leaves s kind)

-- A token that is pushed back is one more that is left.
pub left-give_back : (s : Scanner) → left (give_back s) ≤ suc (left s)
unfolding give_back unread_token
left-give_back s = ground arith

-- A list of strings takes a token at least.
pub parse_strings-Leaves :
    {S : Type 0} (f : S → Bytes → Result ParseError S) (n : ℕ) (acc : S) (s : Scanner)
    → ((a : S) (v : Bytes) → f a v ≢ err out_of_rounds)
    → left s < n
    → LeavesStep (left s) (parse_strings f n acc s)
unfolding parse_strings
parse_strings-Leaves f zero acc s g h = elim h [ ]
parse_strings-Leaves f (suc n) acc s g h =
    let p = next_token-Leaves s in
    let s1 = (next_token s).1 in
    elim (Result-cases (next_token s).0) [
      | inl (tok, e) ↦
          let q = g acc tok.value in
          elim (Result-cases (f acc tok.value)) [
            | inl (acc', e') ↦
                let ih = parse_strings-Leaves f n acc' s1 g in
                elim (Result-cases (parse_strings f n acc' s1).0) [
                  | inl (b, e3) ↦ ground (arith, e, e', e3, p, q, ih)
                  | inr (b, e3) ↦ ground (arith, e, e', e3, p, q, ih)
                ]
            | inr (x, e') ↦ ground (arith, e, e', p, q)
          ]
      | inr (x, e) ↦ ground (arith, e, p)
    ]

pub parse_string_list-Leaves :
    {S : Type 0} (f : S → Bytes → Result ParseError S) (acc : S) (s : Scanner)
    → ((a : S) (v : Bytes) → f a v ≢ err out_of_rounds)
    → LeavesStep (left s) (parse_string_list f acc s)
unfolding parse_string_list
parse_string_list-Leaves f acc s g =
    bind-Leaves (left s) (expect_token s l_bracket) (λ tok s'. parse_strings f (rounds s') acc s')
      (expect_token-Leaves s l_bracket)
      λ tok s' l.
        Leaves-mono (left s') (left s) (parse_strings f (rounds s') acc s') (omega arith)
          (parse_strings-Leaves f (rounds s') acc s' g (enough s'))
  where
    enough : (s' : Scanner) → left s' < rounds s'
    enough s' = ground arith

pub add_name-ends : (a : List Bytes) (v : Bytes) → add_name a v ≢ err out_of_rounds
add_name-ends a v = cc

pub not_rounds-Ends : {A : Type 0} (x : Step A) → x.0 ≢ err out_of_rounds → Ends x
not_rounds-Ends (ok a, s) h = tt
not_rounds-Ends (err e, s) h = λ q. h (ap err q)

pub parse_args-Ends : (s : Scanner) → Ends (parse_args s)
unfolding parse_args
parse_args-Ends s =
    Leaves-Ends (left s) (parse_string_list append_arg [] s)
      (parse_string_list-Leaves append_arg [] s λ a v. no_rounds a v)
  where
    no_rounds : (a : List Bytes) (v : Bytes) → append_arg a v ≢ err out_of_rounds
    no_rounds a v = cc

pub enough_rounds : (s : Scanner) → left s < rounds s
enough_rounds s = ground arith

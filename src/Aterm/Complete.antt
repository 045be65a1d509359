-- ===== src/Aterm/Complete.antt =====
-- Where `ReadToken` of internal/aterm/aterm.go reports the end of the text.
use zb.Prelude.{
  ℕ, false, List, [], ◌∷◌, some, ok, err, ◌≡◌, refl, ◌∙◌, ap, subst, ◌≢◌, ◌↔◌, inl, inr, arith,
}
use zb.Aterm.{Bytes, Token, Scanner, new_scanner, eof, read_token}
use zb.Aterm.Reads.{Reads, done, more}
use zb.Aterm.Balance.{
  is_open, effect, effects, IsComplete, Post, IsReady, effect-Closings, read_token-Post,
}

-- one token: the scanner stays ready, and its stack takes the token's effect
pub step :
    {s u : Scanner} {tok : Token}
    → IsReady s
    → read_token s ≡ (ok tok, u)
    → IsReady u × (effect tok s.stack ≡ some u.stack) × (u.first ≡ is_open tok.kind)
step {s} {u} {tok} v e = elim (read_token-Post s v) [
  | inl (p, q, r) ↦ ground (arith, e)
  | inr (p, post) ↦ finish (rw e at post)
]
  where
    finish :
        Post s (ok tok) u
        → IsReady u × (effect tok s.stack ≡ some u.stack) × (u.first ≡ is_open tok.kind)
    finish (c, k, un, fl, ef, fi) = (
      record {
        no_unread = un ∙ v.no_unread;
        no_error = fl ∙ v.no_error;
        closings = effect-Closings tok s.stack ef v.closings;
      },
      ef,
      fi,
    )

-- a token in front of an empty stack is no opening
first_of_last : (tok : Token) (due : List ℕ) → effect tok due ≡ some [] → is_open tok.kind ≡ false
unfolding effect
first_of_last tok [] e = ground arith
first_of_last tok (d ∷ due) e = ground arith

effects-cons :
    (tok : Token) (ts : List Token) (due : List ℕ) {due' : List ℕ}
    → effect tok due ≡ some due'
    → effects (tok ∷ ts) due ≡ effects ts due'
unfolding effects
effects-cons tok ts due e = ground (arith, e)

none_read : {s t : Scanner} → Reads s [] t → t ≡ s
none_read done = refl

run :
    {s t : Scanner} {ts : List Token}
    → Reads s ts t
    → IsReady s
    → IsReady t × (effects ts s.stack ≡ some t.stack) × (ts ≢ [] → t.stack ≡ [] → t.first ≡ false)
unfolding effects
run done v = (v, refl, λ n e. absurd (n refl))
run (more {tok = tok} e done) v =
    let (w, ef, fi) = step v e in
    (w, ground (arith, ef), λ n p. ground (arith, fi, first_of_last tok _ (ef ∙ ap some p)))
run (more {tok = tok} e (more {tok = tok'} {ts = ts'} e' r)) v =
    let (w, ef, fi) = step v e in
    let (x, efs, last) = run (more e' r) w in
    (x, effects-cons tok (tok' ∷ ts') _ ef ∙ efs, λ n p. last (cc) p)

pub new_scanner-IsReady : (r : Bytes) → IsReady (new_scanner r)
unfolding new_scanner
new_scanner-IsReady r = record { no_unread = refl; no_error = refl; closings = tt }

-- The tokens read so far are balanced: with the closing bytes that are on the scanner's stack
-- they make up a whole value.
pub read_token-balanced :
    (r : Bytes) {ts : List Token} {t : Scanner}
    → Reads (new_scanner r) ts t
    → effects ts [] ≡ some t.stack
unfolding new_scanner
read_token-balanced r p = (run p (new_scanner-IsReady r)).1

-- After any number of successful calls from a new scanner, the next call reports the end of the
-- text exactly if the tokens read so far are one whole value.
pub read_token-eof_iff :
    (r : Bytes) {ts : List Token} {t : Scanner}
    → Reads (new_scanner r) ts t
    → ((read_token t).0 ≡ err eof) ↔ IsComplete ts
read_token-eof_iff r {ts} {t} p = (only_complete, complete)
  where
    ready : IsReady t
    ready = (run p (new_scanner-IsReady r)).0

    last : ts ≢ [] → t.stack ≡ [] → t.first ≡ false
    last = (run p (new_scanner-IsReady r)).2

    balanced : effects ts [] ≡ some t.stack
    balanced = read_token-balanced r p

    complete : IsComplete ts → (read_token t).0 ≡ err eof
    complete (n, e) = elim (read_token-Post t ready) [
      | inl (a, b, c) ↦ c
      | inr (inl a, post) ↦ absurd (a (cc balanced))
      | inr (inr a, post) ↦ let f : t.first ≡ false = last n (cc balanced) in cc
    ]

    some_read : t.first ≡ false → ts ≢ []
    some_read f n =
        let same : t ≡ new_scanner r = none_read (subst (λ l. Reads (new_scanner r) l t) n p) in
        unfold new_scanner in cc

    only_complete : (read_token t).0 ≡ err eof → IsComplete ts
    only_complete e = elim (read_token-Post t ready) [
      | inl (a, b, c) ↦ (some_read b, balanced ∙ ap some a)
      | inr (a, post) ↦ absurd ((subst (λ x. Post t x (read_token t).1) e post).0 refl)
    ]

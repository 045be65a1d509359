-- ===== src/Aterm/Unread.antt =====
-- `UnreadToken` against `ReadToken`.
use zb.Prelude.{true, some, none, ok, ◌≡◌, refl, inl, inr, arith}
use zb.Aterm.{Token, Scanner, read_token, unread_token}
use zb.Aterm.Balance.{IsReady, Post, read_token-Post}

-- After a successful call of `ReadToken`, pushing the token back and reading again gives the same
-- token and the same state of the scanner; pushing back a second time is an error.
pub read-unread :
    (s : Scanner) {s' : Scanner} {tok : Token}
    → IsReady s
    → read_token s ≡ (ok tok, s')
    → (u : Scanner) × (unread_token s' ≡ some u)
      × (read_token u ≡ (ok tok, s'))
      × (unread_token u ≡ none)
read-unread s {s'} {tok} v e = elim (read_token-Post s v) [
  | inl (p, q, r) ↦ absurd (let no_token : ⊥ = cc in no_token)
  | inr (p, post) ↦ again (rw e at post)
]
  where
    again :
        Post s (ok tok) s'
        → (u : Scanner) × (unread_token s' ≡ some u)
          × (read_token u ≡ (ok tok, s'))
          × (unread_token u ≡ none)
    again (c, k, un, fl, ef, fi) = (
      record s' { unread = true },
      unfold unread_token in ground (arith, un, v.no_unread),
      unfold read_token in ground (arith, un, v.no_unread),
      unfold unread_token in refl,
    )

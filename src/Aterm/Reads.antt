-- ===== src/Aterm/Reads.antt =====
-- Sequences of successful calls of `ReadToken`.
use zb.Prelude.{List, [], ◌∷◌, ◌++◌, ok, ◌≡◌}
use zb.Aterm.{Token, Scanner, read_token}

-- The calls from `s` on return the tokens `ts`, in order, and leave the scanner in `t`.
pub data Reads : Scanner → List Token → Scanner → Type 0 where
  done : {s : Scanner} → Reads s [] s
  more :
      {s u t : Scanner} {tok : Token} {ts : List Token}
      → read_token s ≡ (ok tok, u)
      → Reads u ts t
      → Reads s (tok ∷ ts) t

pub Reads-append :
    {s t u : Scanner} {ts us : List Token} → Reads s ts t → Reads t us u → Reads s (ts ++ us) u
Reads-append done q = q
Reads-append (more e p) q = more e (Reads-append p q)

-- ===== src/Derivation/TupleTokens.antt =====
-- The parsers of a derivation's outputs and inputs of zbstore/derivation.go, on the tokens of what
-- is written for them.
use zb.Prelude.{
  ℕ, zero, suc, ◌<◌, true, false, List, [], ◌∷◌, ◌++◌, append_assoc, append-nil, Option, some, ok,
  length, ◌≡◌, sym, ◌∙◌, ap, arith, subst,
}
use zb.Sets.Ordered.{bytes_ordered}
use zb.Aterm.{Bytes, Token, Scanner, read_token, string_kind, l_paren, r_paren, r_bracket}
use zb.Aterm.Reads.{Reads, done, more}
use zb.Aterm.Values.{tokens, tokens_values, delimiter}
use zb.Aterm.Balance.{IsReady}
use zb.Aterm.Complete.{step}
use zb.Aterm.Unread.{read-unread}
use zb.StorePath.Paths.{External}
use zb.StorePath.ContentAddress.{Nix}
use zb.Derivation.{next_token, exists, put}
use zb.Derivation.RoundTrip.{next_token-ok, expect_token-ok, IsAscending, put-last}
use zb.Derivation.Outputs.{DerivationOutputType, is_valid_output_name}
use zb.Derivation.Tuple.{give_back, parse_output, parse_outputs, read_output_type}
use zb.Derivation.Printed.{AreWritten, output_values, output_value}

pub Reads-IsReady : {s t : Scanner} {ts : List Token} → Reads s ts t → IsReady s → IsReady t
Reads-IsReady done v = v
Reads-IsReady (more e p) v = Reads-IsReady p (step v e).0

-- A token that was read and pushed back is read again.
give_back-reads :
    (s : Scanner) {u : Scanner} {tok : Token}
    → IsReady s
    → read_token s ≡ (ok tok, u)
    → read_token (give_back u) ≡ (ok tok, u)
unfolding give_back
give_back-reads s {u = u} v e = let (w, p, q, _) = read-unread s v e in ground (arith, p, q)

-- A sequence of reads, from where its first token was read and pushed back.
pub Reads-again :
    {s t : Scanner} {tok : Token} {ts : List Token}
    → IsReady s
    → Reads s (tok ∷ ts) t
    → (u : Scanner) × (next_token s ≡ (ok tok, u)) × Reads (give_back u) (tok ∷ ts) t
Reads-again {s = s} v (more {u = u} e p) = (u, next_token-ok s e, more (give_back-reads s v e) p)

pub Reads-split :
    {s t : Scanner} (ts us : List Token)
    → Reads s (ts ++ us) t
    → (u : Scanner) × Reads s ts u × Reads u us t
Reads-split {s = s} [] us p = (s, done, p)
Reads-split (tok ∷ ts) us (more e p) = let (u, a, b) = Reads-split ts us p in (u, more e a, b)

module _ (x : External) {ContentAddress Hash HashType : Type 0}
    (nix : Nix ContentAddress Hash HashType) where
  parse_output-tokens :
      (n path info hex : Bytes) (t : DerivationOutputType ContentAddress HashType) (s : Scanner)
      {u : Scanner}
      → is_valid_output_name n ≡ true
      → read_output_type x nix path info hex ≡ ok t
      → Reads s (tokens (output_value n path info hex)) u
      → parse_output x nix s ≡ (ok (n, some t), u)
  unfolding parse_output tokens tokens_values
  parse_output-tokens n path info hex t s v r
        (more {u = s1} e1 (
          more {u = s2} e2
            (more {u = s3} e3 (more {u = s4} e4 (more {u = s5} e5 (more e6 done)))))) =
      let q1 = expect_token-ok s l_paren [] e1 in
      let q2 = expect_token-ok s1 string_kind n e2 in
      let q3 = expect_token-ok s2 string_kind path e3 in
      let q4 = expect_token-ok s3 string_kind info e4 in
      let q5 = expect_token-ok s4 string_kind hex e5 in
      let q6 = expect_token-ok s5 r_paren [] e6 in ground (arith, q1, q2, q3, q4, q5, q6, v, r)

  parse_outputs-step :
      (n : ℕ) (acc acc' : List (Bytes × Option (DerivationOutputType ContentAddress HashType)))
      (k : Bytes) (ot : Option (DerivationOutputType ContentAddress HashType)) (s u s2 : Scanner)
      → next_token s ≡ (ok (delimiter l_paren), u)
      → parse_output x nix (give_back u) ≡ (ok (k, ot), s2)
      → exists acc k ≡ false
      → put acc k ot ≡ acc'
      → parse_outputs x nix (suc n) acc s ≡ parse_outputs x nix n acc' s2
  unfolding parse_outputs
  parse_outputs-step n acc acc' k ot s u s2 e q f g = ground (arith, e, q, f, g)

  parse_outputs_end :
      (n : ℕ) (acc : List (Bytes × Option (DerivationOutputType ContentAddress HashType)))
      (s u : Scanner)
      → next_token s ≡ (ok (delimiter r_bracket), u)
      → parse_outputs x nix (suc n) acc s ≡ (ok acc, u)
  unfolding parse_outputs
  parse_outputs_end n acc s u e = ground (arith, e)

  pub parse_outputs-tokens :
      (store name : Bytes) (n : ℕ)
      (acc outputs : List (Bytes × Option (DerivationOutputType ContentAddress HashType)))
      (w : AreWritten x nix store name outputs) {s t : Scanner}
      → length outputs < n
      → IsAscending (acc ++ outputs)
      → IsReady s
      → Reads s
          (tokens_values (output_values x nix store name outputs w) ++ delimiter r_bracket ∷ [])
          t
      → parse_outputs x nix n acc s ≡ (ok (acc ++ outputs), t)
  unfolding tokens_values
  parse_outputs-tokens store name zero acc outputs w h a v p = elim h [ ]
  parse_outputs-tokens store name (suc n) acc [] w {s = s} {t = t} h a v (more e done) =
      parse_outputs_end n acc s t (next_token-ok s e) ∙ ap (λ l. (ok l, t)) (sym (append-nil acc))
  parse_outputs-tokens store name (suc n) acc ((k, ot) ∷ outputs) (w, ws) {s = s} {t = t} h a v p =
      let ts = tokens (output_value k w.path w.info w.hex) in
      let us = tokens_values (output_values x nix store name outputs ws) in
      let p' = subst (λ l. Reads s l t) (append_assoc ts us (delimiter r_bracket ∷ [])) p in
      let (s2, one, others) = Reads-split ts (us ++ delimiter r_bracket ∷ []) p' in
      let (u, e, again) = Reads-again v (unfold tokens in one) in
      let q =
        parse_output-tokens k w.path w.info w.hex w.typ (give_back u) w.valid w.reads
          (unfold tokens in again) in
      let q' = subst (λ o. parse_output x nix (give_back u) ≡ (ok (k, o), s2)) (sym w.present) q in
      let (new, last) = put-last acc outputs k ot a in
      let assoc = append_assoc acc ((k, ot) ∷ []) outputs in
      parse_outputs-step n acc (acc ++ (k, ot) ∷ []) k ot s u s2 e q' new last
      ∙ parse_outputs-tokens store name n (acc ++ (k, ot) ∷ []) outputs ws (omega arith)
          (subst (λ l. IsAscending l) (sym assoc) a) (Reads-IsReady one v) others
      ∙ ap (λ l. (ok l, t)) assoc

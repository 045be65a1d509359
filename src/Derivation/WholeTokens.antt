-- ===== src/Derivation/WholeTokens.antt =====
-- `parseTuple` of zbstore/derivation.go on the tokens of a whole derivation.
use zb.Prelude.{
  ◌≤◌, ◌<◌, List, [], ◌∷◌, ◌++◌, append_assoc, Option, ok, length, length-append, ◌≡◌, refl, arith,
  subst,
}
use zb.Sets.Ordered.{bytes_ordered}
use zb.Sets.Sorted.Laws.{IsSorted}
use zb.Aterm.{
  Bytes, Token, Scanner, read_token, string_kind, l_paren, r_paren, l_bracket, r_bracket,
}
use zb.Aterm.Reads.{Reads, done, more}
use zb.Aterm.Values.{Values, items, tokens, tokens_values, delimiter}
use zb.Aterm.Balance.{IsReady}
use zb.Aterm.Complete.{step}
use zb.StorePath.Paths.{External}
use zb.StorePath.ContentAddress.{Nix}
use zb.Derivation.{
  Env, expect_token, rounds, parse_string_list, parse_args, parse_env, append_arg, InputDerivations,
}
use zb.Derivation.Marshal.{strings, input, inputs, entries}
use zb.Derivation.RoundTrip.{
  expect_token-ok, IsAscending, Reads-left, parse_string_list-tokens, parse_env-tokens,
  Folds-append_arg,
}
use zb.Derivation.Outputs.{DerivationOutputType}
use zb.Derivation.Format.{Derivation}
use zb.Derivation.Tuple.{parse_outputs, parse_inputs, parse_tuple, add_source}
use zb.Derivation.Printed.{AreWritten, output_values, tuple_value}
use zb.Derivation.TupleTokens.{Reads-IsReady, Reads-split, parse_outputs-tokens}
use zb.Derivation.InputTokens.{ArePaths, AreInputs, parse_sources-tokens, parse_inputs-tokens}

length-tokens_input : (k : Bytes) (v : List Bytes) → 1 ≤ length (tokens (input k v))
unfolding tokens
length-tokens_input k v = omega arith

length-tokens_inputs : (m : InputDerivations) → length m ≤ length (tokens_values (inputs m))
unfolding tokens_values
length-tokens_inputs [] = omega arith
length-tokens_inputs ((k, v) ∷ m) =
    let l = length-append (tokens (input k v)) (tokens_values (inputs m)) in
    omega (arith, l, length-tokens_input k v, length-tokens_inputs m)

Reads-next :
    {s t : Scanner} {tok : Token} {ts : List Token}
    → Reads s (tok ∷ ts) t
    → (u : Scanner) × (read_token s ≡ (ok tok, u)) × Reads u ts t
Reads-next (more {u = u} e p) = (u, e, p)

Reads-one : {s t : Scanner} {tok : Token} → Reads s (tok ∷ []) t → read_token s ≡ (ok tok, t)
Reads-one (more e done) = e

parse_args-tokens :
    (args : List Bytes) (s : Scanner) {t : Scanner}
    → Reads s (tokens (items (strings args))) t
    → parse_args s ≡ (ok args, t)
unfolding parse_args
parse_args-tokens args s r =
    parse_string_list-tokens append_arg [] args args s (Folds-append_arg [] args) r

-- the tokens of a derivation, by its parts
tokens_tuple :
    (outputs : Values) (m : InputDerivations) (sources : List Bytes) (system builder : Bytes)
    (args : List Bytes) (env : Env)
    → tokens (tuple_value outputs m sources system builder args env)
      ≡ delimiter l_paren
        ∷ (tokens (items outputs)
            ++ (tokens (items (inputs m))
                ++ (tokens (items (strings sources))
                    ++ (record { kind = string_kind; value = system }
                        ∷ record { kind = string_kind; value = builder }
                        ∷ (tokens (items (strings args))
                            ++ (tokens (items (entries env)) ++ delimiter r_paren ∷ []))))))
unfolding tokens tokens_values
tokens_tuple outputs m sources system builder args env = simp append_assoc

module _ (x : External) {ContentAddress Hash HashType : Type 0}
    (nix : Nix ContentAddress Hash HashType) where
  length-tokens_outputs :
      (store name : Bytes)
      (outputs : List (Bytes × Option (DerivationOutputType ContentAddress HashType)))
      (w : AreWritten x nix store name outputs)
      → length outputs ≤ length (tokens_values (output_values x nix store name outputs w))
  unfolding tokens tokens_values
  length-tokens_outputs store name [] w = omega arith
  length-tokens_outputs store name ((n, ot) ∷ outputs) (w, ws) =
      omega (arith, length-tokens_outputs store name outputs ws)

  -- the outputs with their brackets
  outputs_stage :
      (store name : Bytes)
      (outputs : List (Bytes × Option (DerivationOutputType ContentAddress HashType)))
      (w : AreWritten x nix store name outputs) (s : Scanner) {t : Scanner}
      → IsAscending outputs
      → IsReady s
      → Reads s (tokens (items (output_values x nix store name outputs w))) t
      → (u : Scanner) × (expect_token s l_bracket ≡ (ok (delimiter l_bracket), u))
        × (parse_outputs x nix (rounds u) [] u ≡ (ok outputs, t))
  unfolding tokens
  outputs_stage store name outputs w s a v (more {u = u} e p) =
      let vs = tokens_values (output_values x nix store name outputs w) in
      let h : length outputs < rounds u =
        (let l = Reads-left p in
          let m = length-append vs (delimiter r_bracket ∷ []) in
          let o = length-tokens_outputs store name outputs w in ground (arith, l, m, o)) in
      (
        u,
        expect_token-ok s l_bracket [] e,
        parse_outputs-tokens x nix store name (rounds u) [] outputs w h a (step v e).0 p,
      )

  -- the input derivations with their brackets
  inputs_stage :
      (store : Bytes) (m : InputDerivations) (s : Scanner) {t : Scanner}
      → AreInputs x store m
      → IsAscending m
      → IsReady s
      → Reads s (tokens (items (inputs m))) t
      → (u : Scanner) × (expect_token s l_bracket ≡ (ok (delimiter l_bracket), u))
        × (parse_inputs x store (rounds u) [] u ≡ (ok m, t))
  unfolding tokens
  inputs_stage store m s w a v (more {u = u} e p) =
      let vs = tokens_values (inputs m) in
      let h : length m < rounds u =
        (let l = Reads-left p in
          let k = length-append vs (delimiter r_bracket ∷ []) in
          let o = length-tokens_inputs m in ground (arith, l, k, o)) in
      (
        u,
        expect_token-ok s l_bracket [] e,
        parse_inputs-tokens x store (rounds u) [] m w h a (step v e).0 p,
      )

  parse_tuple-parts :
      (drv : Derivation ContentAddress HashType) (s s1 s2 s3 s4 s5 s6 s7 s8 s9 s10 s11 : Scanner)
      → expect_token s l_paren ≡ (ok (delimiter l_paren), s1)
      → expect_token s1 l_bracket ≡ (ok (delimiter l_bracket), s2)
      → parse_outputs x nix (rounds s2) [] s2 ≡ (ok drv.outputs, s3)
      → expect_token s3 l_bracket ≡ (ok (delimiter l_bracket), s4)
      → parse_inputs x drv.dir (rounds s4) [] s4 ≡ (ok drv.input_derivations, s5)
      → parse_string_list (add_source x) [] s5 ≡ (ok drv.input_sources, s6)
      → expect_token s6 string_kind ≡ (ok (record { kind = string_kind; value = drv.system }), s7)
      → expect_token s7 string_kind ≡ (ok (record { kind = string_kind; value = drv.builder }), s8)
      → parse_args s8 ≡ (ok drv.args, s9)
      → parse_env s9 ≡ (ok drv.env, s10)
      → expect_token s10 r_paren ≡ (ok (delimiter r_paren), s11)
      → parse_tuple x nix drv.dir drv.name s ≡ (ok drv, s11)
  unfolding parse_tuple
  parse_tuple-parts drv s s1 s2 s3 s4 s5 s6 s7 s8 s9 s10 s11 q1 q2 q3 q4 q5 q6 q7 q8 q9 q10 q11 =
      rw (q1, q2, q3, q4, q5, q6, q7, q8, q9, q10, q11) refl

  -- What the parser takes: the outputs are written as texts that it reads, in ascending order of
  -- their names; the input derivations are as `AreInputs` says, in ascending order of their paths;
  -- the input sources are a sorted set of store paths; and the environment is in ascending order.
  pub record IsParsed (drv : Derivation ContentAddress HashType) : Type 0 where
    pub outputs_written : AreWritten x nix drv.dir drv.name drv.outputs
    pub outputs_ascending : IsAscending drv.outputs
    pub inputs_good : AreInputs x drv.dir drv.input_derivations
    pub inputs_ascending : IsAscending drv.input_derivations
    pub sources_paths : ArePaths x drv.input_sources
    pub sources_sorted : IsSorted drv.input_sources
    pub env_ascending : IsAscending drv.env

  pub parse_tuple-tokens :
      (drv : Derivation ContentAddress HashType) (g : IsParsed drv) (s : Scanner) {t : Scanner}
      → IsReady s
      → Reads s
          (tokens (
            tuple_value
              (output_values x nix drv.dir drv.name drv.outputs g.outputs_written)
              drv.input_derivations
              drv.input_sources
              drv.system
              drv.builder
              drv.args
              drv.env))
          t
      → parse_tuple x nix drv.dir drv.name s ≡ (ok drv, t)
  parse_tuple-tokens drv g s {t = t} v p =
      let ov = output_values x nix drv.dir drv.name drv.outputs g.outputs_written in
      let p0 =
        subst (λ l. Reads s l t)
          (tokens_tuple ov drv.input_derivations drv.input_sources drv.system drv.builder drv.args
            drv.env)
          p in
      let (s1, e1, p1) = Reads-next p0 in
      let v1 = (step v e1).0 in
      let (s3, r3, p3) = Reads-split (tokens (items ov)) _ p1 in
      let (s2, q2, q3) =
        outputs_stage drv.dir drv.name drv.outputs g.outputs_written s1 g.outputs_ascending v1 r3 in
      let v3 = Reads-IsReady r3 v1 in
      let (s5, r5, p5) = Reads-split (tokens (items (inputs drv.input_derivations))) _ p3 in
      let (s4, q4, q5) =
        inputs_stage drv.dir drv.input_derivations s3 g.inputs_good g.inputs_ascending v3 r5 in
      let (s6, r6, p6) = Reads-split (tokens (items (strings drv.input_sources))) _ p5 in
      let q6 = parse_sources-tokens x drv.input_sources s5 g.sources_paths g.sources_sorted r6 in
      let (s7, e7, p7) = Reads-next p6 in
      let (s8, e8, p8) = Reads-next p7 in
      let (s9, r9, p9) = Reads-split (tokens (items (strings drv.args))) _ p8 in
      let q9 = parse_args-tokens drv.args s8 r9 in
      let (s10, r10, p10) = Reads-split (tokens (items (entries drv.env))) _ p9 in
      let q10 = parse_env-tokens drv.env s9 g.env_ascending r10 in
      parse_tuple-parts drv s s1 s2 s3 s4 s5 s6 s7 s8 s9 s10 t (expect_token-ok s l_paren [] e1) q2
        q3 q4 q5 q6 (expect_token-ok s6 string_kind drv.system e7)
        (expect_token-ok s7 string_kind drv.builder e8) q9 q10
        (expect_token-ok s10 r_paren [] (Reads-one p10))

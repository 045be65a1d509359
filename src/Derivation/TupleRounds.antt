-- ===== src/Derivation/TupleRounds.antt =====
-- The bounds on the loops of `parseTuple` of zbstore/derivation.go.
use zb.Prelude.{
  ℕ, zero, suc, ◌<◌, List, [], Option, some, ok, err, Result-cases, Option-cases, ◌≢◌, arith, inl,
  inr, ◌==◌,
}
use zb.Sets.Ordered.{equal, bytes_ordered}
use zb.Aterm.{Bytes, Scanner, new_scanner, string_kind, l_bracket, r_bracket, l_paren, r_paren}
use zb.Aterm.Consumes.{left}
use zb.StorePath.Paths.{External, parse_path, path_dir}
use zb.StorePath.Directory.{cut_prefix}
use zb.StorePath.ContentAddress.{Nix}
use zb.Derivation.{
  out_of_rounds, bad_path, next_token, expect_token, rounds, parse_string_list, parse_args,
  parse_env, exists, put, InputDerivations,
}
use zb.Derivation.Outputs.{DerivationOutputType, is_valid_output_name}
use zb.Derivation.Rounds.{next_token-Leaves, expect_token-Leaves, parse_env-rounds}
use zb.Derivation.Format.{derive}
use zb.Derivation.Tuple.{
  give_back, cut_method, parse_hash_algorithm, hex_decode, address_of, output_type_of,
  read_output_type, parse_output, parse_outputs, parse_input, parse_inputs, add_name, add_source,
  parse_tuple, parse_derivation,
}
use zb.Derivation.StepRounds.{
  Leaves-mono, Leaves-Ends, LeavesStep, Ends, bind-Leaves, bind-Ends, then-Ends, cond-Ends,
  cond-Leaves, expect_token-below, expect_token-Ends, left-give_back, parse_string_list-Leaves,
  add_name-ends, not_rounds-Ends, parse_args-Ends, enough_rounds,
}

module _ (x : External) where
  add_source-ends : (a : List Bytes) (v : Bytes) → add_source x a v ≢ err out_of_rounds
  unfolding add_source
  add_source-ends a v = elim (Result-cases (parse_path x v)) [
    | inl (p, e) ↦ ground (arith, e)
    | inr (w, e) ↦ ground (arith, e)
  ]

  -- the last part of `parseInputDerivation`
  path_read :
      (n : ℕ) (s : Scanner) (path : Bytes) (names : List Bytes)
      → left s < n
      → LeavesStep {A = Bytes × List Bytes} n (elim (parse_path x path) [
        | err e ↦ (err (bad_path e), s)
        | ok drv_path ↦ (ok (drv_path, names), s)
      ])
  path_read n s path names l = elim (Result-cases (parse_path x path)) [
    | inl (p, e) ↦ rw e l
    | inr (w, e) ↦ rw e (cc)
  ]

  parse_input-Leaves : (s : Scanner) → LeavesStep (left s) (parse_input x s)
  unfolding parse_input
  parse_input-Leaves s =
      bind-Leaves (left s) (expect_token s l_paren) _ (expect_token-Leaves s l_paren) λ t1 s1 l1.
        bind-Leaves (left s) (expect_token s1 string_kind) _
          (expect_token-below (left s) s1 string_kind (omega arith))
          λ path s2 l2.
            bind-Leaves (left s) (parse_string_list add_name [] s2) _
              (Leaves-mono (left s2) (left s) (parse_string_list add_name [] s2) (omega arith)
                (parse_string_list-Leaves add_name [] s2 add_name-ends))
              λ names s3 l3.
                bind-Leaves (left s) (expect_token s3 r_paren) _
                  (expect_token-below (left s) s3 r_paren (omega arith))
                  λ t2 s4 l4. path_read (left s) s4 path.value names l4

  parse_inputs-Ends :
      (store : Bytes) (n : ℕ) (m : InputDerivations) (s : Scanner)
      → left s < n
      → Ends (parse_inputs x store n m s)
  unfolding parse_inputs
  parse_inputs-Ends store zero m s h = elim h [ ]
  parse_inputs-Ends store (suc n) m s h =
      then-Ends (left s) (next_token s) _ (next_token-Leaves s) λ tok s1 l1.
        cond-Ends (tok.kind == r_bracket) _ _ tt (
          then-Ends (left s) (parse_input x (give_back s1)) _
            (Leaves-mono (left (give_back s1)) (left s) (parse_input x (give_back s1))
              (omega (arith, left-give_back s1)) (parse_input-Leaves (give_back s1)))
            λ named s2 l2.
              cond-Ends (equal (path_dir x named.0) store) _ _
                (cond-Ends (exists m named.0) _ _ (cc)
                  (parse_inputs-Ends store n (put m named.0 named.1) s2 (omega arith)))
                (cc))

module _ (x : External) {ContentAddress Hash HashType : Type 0}
    (nix : Nix ContentAddress Hash HashType) where
  output_type_of-ends :
      (path hex : Bytes) (m : ℕ) (h : HashType) (bits : Bytes)
      → output_type_of x nix path hex m h bits ≢ err out_of_rounds
  unfolding output_type_of
  output_type_of-ends path hex m h bits =
      elim (Option-cases (address_of x nix m (nix.new_hash h bits))) [
        | inl e ↦ ground (arith, e)
        | inr (ca, e) ↦ ground (arith, e)
      ]

  read_output_type-ends :
      (path info hex : Bytes) → read_output_type x nix path info hex ≢ err out_of_rounds
  unfolding read_output_type parse_hash_algorithm
  read_output_type-ends path info hex =
      elim (Option-cases (nix.parse_hash_type (cut_method info).1)) [
        | inl e ↦ ground (arith, e)
        | inr (h, e) ↦ elim (Option-cases (hex_decode hex)) [
          | inl e2 ↦ ground (arith, e, e2)
          | inr (bits, e2) ↦
              let r = output_type_of-ends path hex (cut_method info).0 h bits in
              ground (arith, e, e2, r)
        ]
      ]

  -- the last part of `parseDerivationOutputType`
  type_read :
      (n : ℕ) (s : Scanner) (name path info hex : Bytes)
      → left s < n
      → LeavesStep {A = Bytes × Option (DerivationOutputType ContentAddress HashType)} n
          (elim (read_output_type x nix path info hex) [
            | err e ↦ (err e, s)
            | ok t ↦ (ok (name, some t), s)
          ])
  type_read n s name path info hex l = elim (Result-cases (read_output_type x nix path info hex)) [
    | inl (p, e) ↦ rw e l
    | inr (w, e) ↦ rw e (let r = read_output_type-ends path info hex in ground (arith, r, e))
  ]

  parse_output-Leaves : (s : Scanner) → LeavesStep (left s) (parse_output x nix s)
  unfolding parse_output
  parse_output-Leaves s =
      bind-Leaves (left s) (expect_token s l_paren) _ (expect_token-Leaves s l_paren) λ t1 s1 l1.
        bind-Leaves (left s) (expect_token s1 string_kind) _
          (expect_token-below (left s) s1 string_kind (omega arith))
          λ name s2 l2.
            cond-Leaves (left s) (is_valid_output_name name.value) _ _
              (bind-Leaves (left s) (expect_token s2 string_kind) _
                (expect_token-below (left s) s2 string_kind (omega arith))
                λ path s3 l3.
                  bind-Leaves (left s) (expect_token s3 string_kind) _
                    (expect_token-below (left s) s3 string_kind (omega arith))
                    λ info s4 l4.
                      bind-Leaves (left s) (expect_token s4 string_kind) _
                        (expect_token-below (left s) s4 string_kind (omega arith))
                        λ hex s5 l5.
                          bind-Leaves (left s) (expect_token s5 r_paren) _
                            (expect_token-below (left s) s5 r_paren (omega arith))
                            λ t2 s6 l6.
                              type_read (left s) s6 name.value path.value info.value hex.value l6)
              (cc)

  parse_outputs-Ends :
      (n : ℕ) (outputs : List (Bytes × Option (DerivationOutputType ContentAddress HashType)))
      (s : Scanner)
      → left s < n
      → Ends (parse_outputs x nix n outputs s)
  unfolding parse_outputs
  parse_outputs-Ends zero outputs s h = elim h [ ]
  parse_outputs-Ends (suc n) outputs s h =
      then-Ends (left s) (next_token s) _ (next_token-Leaves s) λ tok s1 l1.
        cond-Ends (tok.kind == r_bracket) _ _ tt (
          then-Ends (left s) (parse_output x nix (give_back s1)) _
            (Leaves-mono (left (give_back s1)) (left s) (parse_output x nix (give_back s1))
              (omega (arith, left-give_back s1)) (parse_output-Leaves (give_back s1)))
            λ named s2 l2.
              cond-Ends (exists outputs named.0) _ _ (cc)
                (parse_outputs-Ends n (put outputs named.0 named.1) s2 (omega arith)))

  parse_tuple-Ends : (store name : Bytes) (s : Scanner) → Ends (parse_tuple x nix store name s)
  unfolding parse_tuple
  parse_tuple-Ends store name s =
      bind-Ends (expect_token s l_paren) _ (expect_token-Ends s l_paren) λ t1 s1.
        bind-Ends (expect_token s1 l_bracket) _ (expect_token-Ends s1 l_bracket) λ t2 s2.
          bind-Ends (parse_outputs x nix (rounds s2) [] s2) _
            (parse_outputs-Ends (rounds s2) [] s2 (enough_rounds s2))
            λ outputs s3.
              bind-Ends (expect_token s3 l_bracket) _ (expect_token-Ends s3 l_bracket) λ t3 s4.
                bind-Ends (parse_inputs x store (rounds s4) [] s4) _
                  (parse_inputs-Ends x store (rounds s4) [] s4 (enough_rounds s4))
                  λ inputs s5.
                    bind-Ends (parse_string_list (add_source x) [] s5) _
                      (Leaves-Ends (left s5) (parse_string_list (add_source x) [] s5)
                        (parse_string_list-Leaves (add_source x) [] s5 (add_source-ends x)))
                      λ sources s6.
                        bind-Ends (expect_token s6 string_kind) _ (expect_token-Ends s6 string_kind)
                          λ system s7.
                            bind-Ends (expect_token s7 string_kind) _
                              (expect_token-Ends s7 string_kind)
                              λ builder s8.
                                bind-Ends (parse_args s8) _ (parse_args-Ends s8) λ args s9.
                                  bind-Ends (parse_env s9) _
                                    (not_rounds-Ends (parse_env s9) (parse_env-rounds s9))
                                    λ env s10.
                                      bind-Ends (expect_token s10 r_paren) _
                                        (expect_token-Ends s10 r_paren) λ t4 s11. tt

  -- `ParseDerivation` ends on every text before the rounds of its loops are used up: on outputs, on
  -- input derivations, on lists of strings and on the environment.
  pub parse_derivation-rounds :
      (store name text : Bytes) → parse_derivation x nix store name text ≢ err out_of_rounds
  unfolding parse_derivation
  parse_derivation-rounds store name text = elim (Option-cases (cut_prefix text derive)) [
    | inl e ↦ ground (arith, e)
    | inr (rest, e) ↦
        let p = parse_tuple-Ends store name (new_scanner rest) in
        elim (Result-cases (parse_tuple x nix store name (new_scanner rest)).0) [
          | inl (drv, q) ↦ ground (arith, e, q)
          | inr (w, q) ↦ ground (arith, e, q, p)
        ]
  ]

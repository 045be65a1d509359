-- ===== src/Derivation/GoodOutputs.antt =====
-- zbstore/derivation.go: the outputs that are written as texts which are read as the same outputs.
use zb.Prelude.{
  ℕ, zero, suc, ◌≤◌, true, [], ◌∷◌, ◌++◌, length-append, Option, some, ok, length, ◌≡◌, ◌⊎◌, inl,
  inr, Bool-cases, refl, sym, ◌∙◌, ap, arith, subst,
}
use zb.Sets.Ordered.{bytes_ordered}
use zb.Aterm.{Bytes, max_string_length}
use zb.Aterm.Values.{print}
use zb.StorePath.Paths.{External}
use zb.StorePath.ContentAddress.{Nix}
use zb.Derivation.Outputs.{
  DerivationOutputType, is_valid_output_name, method_prefix, method_of_content_address,
  fixed_ca_output_type, floating_ca_output_type,
}
use zb.Derivation.OutputReference.{derivation_output_path}
use zb.Derivation.Format.{marshal_output}
use zb.Derivation.Tuple.{address_of}
use zb.Derivation.Printed.{IsWritten, output_value}
use zb.Derivation.OutputTexts.{
  NixLaws, IsKnown, method_of, marshal_floating-print, marshal_fixed-print, read-floating,
  read-fixed,
}

-- each of the three methods has a prefix
prefix_of :
    (m : ℕ)
    → 1 ≤ m
    → m ≤ 3
    → (prefix : Bytes) × (method_prefix m ≡ some prefix) × (length prefix ≤ 5)
unfolding method_prefix
prefix_of zero h k = absurd (omega arith)
prefix_of (suc zero) h k = (b't' ∷ b'e' ∷ b'x' ∷ b't' ∷ b':' ∷ [], refl, omega arith)
prefix_of (suc (suc zero)) h k = ([], refl, omega arith)
prefix_of (suc (suc (suc zero))) h k = (b'r' ∷ b':' ∷ [], refl, omega arith)
prefix_of (suc (suc (suc (suc m)))) h k = absurd (omega arith)

module _ (x : External) {ContentAddress Hash HashType : Type 0}
    (nix : Nix ContentAddress Hash HashType) where
  -- An output that `FlatFileFloatingCAOutput` or `RecursiveFileFloatingCAOutput` makes, or
  -- the parser, of a hash type that is known.
  pub record IsFloatingOutput (t : DerivationOutputType ContentAddress HashType) : Type 0 where
    pub typ_eq : t.typ ≡ floating_ca_output_type
    pub ca_eq : t.ca ≡ nix.zero_address
    pub method_least : 1 ≤ t.method
    pub method_most : t.method ≤ 3
    pub known : IsKnown nix t.hash_algo

  -- An output that `FixedCAOutput` makes of a content address whose hash type is known, and which
  -- is that of its hash by its method; its path can be computed, and is not too long.
  pub record IsFixedOutput (store drv_name n : Bytes)
      (t : DerivationOutputType ContentAddress HashType) : Type 0 where
    pub typ_eq : t.typ ≡ fixed_ca_output_type
    pub method_eq : t.method ≡ 0
    pub algo_eq : t.hash_algo ≡ nix.zero_type
    pub known : IsKnown nix (nix.hash_type (nix.hash_of t.ca))
    pub again : address_of x nix (method_of nix t.ca) (nix.hash_of t.ca) ≡ some t.ca
    pub path : Bytes
    pub path_eq : derivation_output_path x nix store drv_name n (some t) ≡ ok path
    pub path_short : length path ≤ max_string_length

  pub record IsGoodOutput (store drv_name n : Bytes)
      (ot : Option (DerivationOutputType ContentAddress HashType)) : Type 0 where
    pub typ : DerivationOutputType ContentAddress HashType
    pub present : ot ≡ some typ
    pub valid : is_valid_output_name n ≡ true
    pub name_short : length n ≤ max_string_length
    pub way : IsFloatingOutput typ ⊎ IsFixedOutput store drv_name n typ

  marshal_output_floating :
      (dst store drv_name n : Bytes) (t : DerivationOutputType ContentAddress HashType)
      (prefix : Bytes)
      → IsFloatingOutput t
      → method_prefix t.method ≡ some prefix
      → marshal_output x nix dst store drv_name n (some t)
        ≡ ok (dst ++ print (output_value n [] (prefix ++ nix.type_string t.hash_algo) []))
  unfolding marshal_output
  marshal_output_floating dst store drv_name n t prefix f p =
      let w = marshal_floating-print nix x dst n t.method prefix t.hash_algo p in
      let e = f.typ_eq in ground (arith, e, w)

  marshal_output_fixed :
      (dst store drv_name n : Bytes) (t : DerivationOutputType ContentAddress HashType)
      (prefix : Bytes) (f : IsFixedOutput store drv_name n t)
      → method_prefix (method_of nix t.ca) ≡ some prefix
      → marshal_output x nix dst store drv_name n (some t)
        ≡ ok (
            dst
            ++ print (
                output_value n f.path
                  (prefix ++ nix.type_string (nix.hash_type (nix.hash_of t.ca)))
                  (nix.raw_base16 (nix.hash_of t.ca))))
  unfolding marshal_output
  marshal_output_fixed dst store drv_name n t prefix f p =
      let w = marshal_fixed-print nix x dst n f.path t.ca prefix p in
      let e = f.typ_eq in let q = f.path_eq in ground (arith, e, q, w)

  -- the method that a content address is written with has a prefix
  method_of-prefix :
      (ca : ContentAddress)
      → (prefix : Bytes) × (method_prefix (method_of nix ca) ≡ some prefix) × (length prefix ≤ 5)
  unfolding method_of_content_address
  method_of-prefix ca = elim (Bool-cases (nix.ca_is_text ca)) [
    | inl e ↦ rw e (prefix_of 1 (omega arith) (omega arith))
    | inr e ↦ elim (Bool-cases (nix.ca_is_recursive_file ca)) [
      | inl e2 ↦ rw (e, e2) (prefix_of 3 (omega arith) (omega arith))
      | inr e2 ↦ rw (e, e2) (prefix_of 2 (omega arith) (omega arith))
    ]
  ]

  floating-IsWritten :
      (laws : NixLaws nix) (store drv_name n : Bytes)
      (t : DerivationOutputType ContentAddress HashType)
      → is_valid_output_name n ≡ true
      → length n ≤ max_string_length
      → IsFloatingOutput t
      → IsWritten x nix store drv_name n (some t)
  floating-IsWritten laws store drv_name n t v l f =
      let (prefix, p, short) = prefix_of t.method f.method_least f.method_most in
      let same : record {
        typ = floating_ca_output_type;
        ca = nix.zero_address;
        method = t.method;
        hash_algo = t.hash_algo;
      }
          ≡ t =
        λ i. record {
          typ = sym f.typ_eq i;
          ca = sym f.ca_eq i;
          method = t.method;
          hash_algo = t.hash_algo;
        } in
      let k = length-append prefix (nix.type_string t.hash_algo) in
      let s = laws.name_short t.hash_algo in
      record {
        typ = t;
        path = [];
        info = prefix ++ nix.type_string t.hash_algo;
        hex = [];
        present = refl;
        valid = v;
        written = λ dst. marshal_output_floating dst store drv_name n t prefix f p;
        reads = read-floating nix x laws t.method prefix t.hash_algo p f.known ∙ ap ok same;
        name_fits = l;
        path_fits = omega arith;
        info_fits = omega arith;
        hex_fits = omega arith;
      }

  fixed-IsWritten :
      (laws : NixLaws nix) (store drv_name n : Bytes)
      (t : DerivationOutputType ContentAddress HashType)
      → is_valid_output_name n ≡ true
      → length n ≤ max_string_length
      → IsFixedOutput store drv_name n t
      → IsWritten x nix store drv_name n (some t)
  fixed-IsWritten laws store drv_name n t v l f =
      let (prefix, p, short) = method_of-prefix t.ca in
      let same : record {
        typ = fixed_ca_output_type;
        ca = t.ca;
        method = 0;
        hash_algo = nix.zero_type;
      }
          ≡ t =
        λ i. record {
          typ = sym f.typ_eq i;
          ca = t.ca;
          method = sym f.method_eq i;
          hash_algo = sym f.algo_eq i;
        } in
      let h = nix.hash_of t.ca in
      let k = length-append prefix (nix.type_string (nix.hash_type h)) in
      let s = laws.name_short (nix.hash_type h) in
      let r = laws.hex_short h in
      record {
        typ = t;
        path = f.path;
        info = prefix ++ nix.type_string (nix.hash_type h);
        hex = nix.raw_base16 h;
        present = refl;
        valid = v;
        written = λ dst. marshal_output_fixed dst store drv_name n t prefix f p;
        reads = read-fixed nix x laws f.path t.ca prefix p f.known f.again ∙ ap ok same;
        name_fits = l;
        path_fits = f.path_short;
        info_fits = omega arith;
        hex_fits = omega arith;
      }

  pub good-IsWritten :
      (laws : NixLaws nix) (store drv_name n : Bytes)
      (ot : Option (DerivationOutputType ContentAddress HashType))
      → IsGoodOutput store drv_name n ot
      → IsWritten x nix store drv_name n ot
  good-IsWritten laws store drv_name n ot g =
      subst (IsWritten x nix store drv_name n) (sym g.present) (elim g.way [
        | inl f ↦ floating-IsWritten laws store drv_name n g.typ g.valid g.name_short f
        | inr f ↦ fixed-IsWritten laws store drv_name n g.typ g.valid g.name_short f
      ])

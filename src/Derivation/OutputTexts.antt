-- ===== src/Derivation/OutputTexts.antt =====
-- zbstore/derivation.go: what is written for an output is read as that output, by what the package
-- nix documents of hashes and content addresses.
use zb.Prelude.{
  ℕ, ◌≤◌, false, [], ◌∷◌, ◌++◌, append_assoc, none, some, ok, length, ◌≡◌, ◌≢◌, ◌⊎◌, inl, inr, refl,
  ap, arith,
}
use zb.Sets.Ordered.{equal, bytes_ordered}
use zb.Aterm.{Bytes, append_string, comma, l_paren}
use zb.Aterm.Strings.{append_string-eq-escapes, escapes_nil}
use zb.Aterm.Values.{print, print_values}
use zb.StorePath.Paths.{External}
use zb.StorePath.Directory.{cut_prefix}
use zb.StorePath.ContentAddress.{Nix}
use zb.Derivation.Outputs.{
  fixed_ca_output, method_prefix, method_of_content_address, fixed_ca_output_type,
  floating_ca_output_type, text_ingestion_method, flat_file_ingestion_method,
  recursive_file_ingestion_method,
}
use zb.Derivation.Format.{append_algorithm, marshal_fixed, marshal_floating}
use zb.Derivation.Tuple.{
  cut_method, recursive_prefix, text_prefix, hex_decode, parse_hash_algorithm, address_of,
  output_type_of, read_output_type,
}
use zb.Derivation.Printed.{output_value}

pub method_prefix-cases :
    (m : ℕ) (prefix : Bytes)
    → method_prefix m ≡ some prefix
    → ((m ≡ text_ingestion_method) × (prefix ≡ text_prefix))
      ⊎ (((m ≡ flat_file_ingestion_method) × (prefix ≡ []))
          ⊎ ((m ≡ recursive_file_ingestion_method) × (prefix ≡ recursive_prefix)))
unfolding method_prefix
method_prefix-cases m prefix h = ground (arith, h)

cut_method_plain :
    (s : Bytes)
    → cut_prefix s recursive_prefix ≡ none
    → cut_prefix s text_prefix ≡ none
    → cut_method s ≡ (flat_file_ingestion_method, s)
unfolding cut_method
cut_method_plain s r t = ground (arith, r, t)

cut_method_text : (s : Bytes) → cut_method (text_prefix ++ s) ≡ (text_ingestion_method, s)
unfolding cut_method cut_prefix
cut_method_text s = refl

cut_method_recursive :
    (s : Bytes) → cut_method (recursive_prefix ++ s) ≡ (recursive_file_ingestion_method, s)
unfolding cut_method cut_prefix
cut_method_recursive s = refl

-- The prefix of a method is read as the method.
pub cut_method-method_prefix :
    (m : ℕ) (prefix s : Bytes)
    → method_prefix m ≡ some prefix
    → cut_prefix s recursive_prefix ≡ none
    → cut_prefix s text_prefix ≡ none
    → (cut_method (prefix ++ s) ≡ (m, s)) × (length prefix ≤ 5)
cut_method-method_prefix m prefix s h r t = elim (method_prefix-cases m prefix h) [
  | inl (e, p) ↦ rw (p, e) (cut_method_text s, omega arith)
  | inr (inl (e, p)) ↦ rw (p, e) (cut_method_plain s r t, omega arith)
  | inr (inr (e, p)) ↦ rw (p, e) (cut_method_recursive s, omega arith)
]

append_algorithm_ok :
    (dst : Bytes) (m : ℕ) (prefix h : Bytes)
    → method_prefix m ≡ some prefix
    → append_algorithm dst m h ≡ ok (append_string dst (prefix ++ h))
unfolding append_algorithm
append_algorithm_ok dst m prefix h p = rw (p, append_algorithm) refl

pub equal_empty : (s : Bytes) → s ≢ [] → equal s [] ≡ false
equal_empty [] h = absurd (h refl)
equal_empty (c ∷ s) h = refl

module _ {ContentAddress Hash HashType : Type 0} (nix : Nix ContentAddress Hash HashType) where
  -- a hash type whose name is parsed as that type
  abbrev pub IsKnown : HashType → Type 0
  IsKnown h = nix.parse_hash_type (nix.type_string h) ≡ some h

  -- What the package documents: the names of the hash types are short and do not begin like those
  -- of methods; a hash in base 16 is decoded to its bits, of which it is made again; and a content
  -- address that is not zero is that of its hash by its method.
  pub record NixLaws : Type 0 where
    pub name_plain : (h : HashType) → cut_prefix (nix.type_string h) recursive_prefix ≡ none
    pub name_no_text : (h : HashType) → cut_prefix (nix.type_string h) text_prefix ≡ none
    pub name_short : (h : HashType) → length (nix.type_string h) ≤ 100
    pub bits : Hash → Bytes
    pub hex_bits :
        (h : Hash) → IsKnown (nix.hash_type h) → hex_decode (nix.raw_base16 h) ≡ some (bits h)
    pub bits_size :
        (h : Hash) → IsKnown (nix.hash_type h) → length (bits h) ≡ nix.size (nix.hash_type h)
    pub hash_again :
        (h : Hash) → IsKnown (nix.hash_type h) → nix.new_hash (nix.hash_type h) (bits h) ≡ h
    pub hex_some : (h : Hash) → IsKnown (nix.hash_type h) → nix.raw_base16 h ≢ []
    pub hex_short : (h : Hash) → length (nix.raw_base16 h) ≤ 1000

  -- the method that a content address is written with
  abbrev pub method_of : ContentAddress → ℕ
  method_of ca = method_of_content_address nix.ca_is_text nix.ca_is_recursive_file ca

  parse_hash_algorithm_ok :
      (x : External) (laws : NixLaws) (m : ℕ) (prefix : Bytes) (h : HashType)
      → method_prefix m ≡ some prefix
      → IsKnown h
      → parse_hash_algorithm x nix (prefix ++ nix.type_string h) ≡ ok (m, h)
  unfolding parse_hash_algorithm
  parse_hash_algorithm_ok x laws m prefix h p k =
      let (c, _) =
        cut_method-method_prefix m prefix (nix.type_string h) p (laws.name_plain h)
          (laws.name_no_text h) in
      ground (arith, c, k)

  -- A floating output, written behind its name.
  pub marshal_floating-print :
      (x : External) (dst n : Bytes) (m : ℕ) (prefix : Bytes) (h : HashType)
      → method_prefix m ≡ some prefix
      → marshal_floating x nix (append_string (dst ++ l_paren ∷ []) n) m h
        ≡ ok (dst ++ print (output_value n [] (prefix ++ nix.type_string h) []))
  unfolding marshal_floating print print_values
  marshal_floating-print x dst n m prefix h p =
      rw (append_algorithm_ok _ m prefix (nix.type_string h) p)
        (ap ok (simp (append_string-eq-escapes, escapes_nil, append_assoc)))

  -- A fixed output, written behind its name.
  pub marshal_fixed-print :
      (x : External) (dst n path : Bytes) (ca : ContentAddress) (prefix : Bytes)
      → method_prefix (method_of ca) ≡ some prefix
      → marshal_fixed x nix (append_string (dst ++ l_paren ∷ []) n ++ comma ∷ []) ca path
        ≡ ok (
            dst
            ++ print (
                output_value n path
                  (prefix ++ nix.type_string (nix.hash_type (nix.hash_of ca)))
                  (nix.raw_base16 (nix.hash_of ca))))
  unfolding marshal_fixed print print_values
  marshal_fixed-print x dst n path ca prefix p =
      rw
        (append_algorithm_ok _ (method_of ca) prefix
          (nix.type_string (nix.hash_type (nix.hash_of ca))) p)
        (ap ok (simp (append_string-eq-escapes, append_assoc)))

  -- What the parser makes of the texts of a floating output.
  pub read-floating :
      (x : External) (laws : NixLaws) (m : ℕ) (prefix : Bytes) (h : HashType)
      → method_prefix m ≡ some prefix
      → IsKnown h
      → read_output_type x nix [] (prefix ++ nix.type_string h) []
        ≡ ok (record {
          typ = floating_ca_output_type;
          ca = nix.zero_address;
          method = m;
          hash_algo = h;
        })
  unfolding read_output_type output_type_of hex_decode
  read-floating x laws m prefix h p k =
      let q = parse_hash_algorithm_ok x laws m prefix h p k in ground (arith, q)

  -- What the parser makes of the texts of a fixed output.
  pub read-fixed :
      (x : External) (laws : NixLaws) (path : Bytes) (ca : ContentAddress) (prefix : Bytes)
      → method_prefix (method_of ca) ≡ some prefix
      → IsKnown (nix.hash_type (nix.hash_of ca))
      → address_of x nix (method_of ca) (nix.hash_of ca) ≡ some ca
      → read_output_type x nix path
          (prefix ++ nix.type_string (nix.hash_type (nix.hash_of ca)))
          (nix.raw_base16 (nix.hash_of ca))
        ≡ ok (record { typ = fixed_ca_output_type; ca = ca; method = 0; hash_algo = nix.zero_type })
  unfolding read_output_type output_type_of fixed_ca_output
  read-fixed x laws path ca prefix p k a =
      let h = nix.hash_of ca in
      let q = parse_hash_algorithm_ok x laws (method_of ca) prefix (nix.hash_type h) p k in
      let b = laws.hex_bits h k in
      let z = laws.bits_size h k in
      let again = laws.hash_again h k in
      let e = equal_empty (nix.raw_base16 h) (laws.hex_some h k) in
      ground (arith, q, b, z, again, e, a)

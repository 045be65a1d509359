-- ===== src/Derivation/Tuple.antt =====
-- zbstore/derivation.go: `ParseDerivation`, `parseTuple` and the parsers of its parts. A loop that
-- pushes back the token it has read runs on rounds, of which there are more than tokens.
use zb.Prelude.{
  ℕ, zero, suc, ◌+◌, true, false, not, ◌&&◌, List, [], ◌∷◌, Option, none, some, Result, ok, err,
  ltb, leb, ◌-◌, ◌*◌, ◌==◌, if◌then◌else◌, length,
}
use zb.Sets.Ordered.{equal, bytes_ordered}
use zb.Sets.Sorted.{add}
use zb.Aterm.{
  Bytes, Scanner, new_scanner, unread_token, string_kind, l_paren, r_paren, l_bracket, r_bracket,
}
use zb.StorePath.Paths.{External, parse_path, path_dir}
use zb.StorePath.Directory.{cut_prefix}
use zb.StorePath.ContentAddress.{Nix}
use zb.Derivation.{
  ParseError, invalid_output, hash_algorithm, hash_encoding, hash_size, unhandled_algorithm,
  unknown_output_type, multiple_outputs, not_in_directory, multiple_inputs, bad_path,
  no_constructor, trailing_data, out_of_rounds, Step, ◌>>◌, next_token, expect_token, rounds,
  parse_string_list, parse_args, exists, put, parse_env, InputDerivations,
}
use zb.Derivation.Outputs.{
  DerivationOutputType, fixed_ca_output, floating_ca_output_type, is_valid_output_name,
  text_ingestion_method, flat_file_ingestion_method, recursive_file_ingestion_method,
}
use zb.Derivation.Format.{Derivation, derive}

-- `s.UnreadToken()`, whose error the source does not look at
unfoldable pub give_back : Scanner → Scanner
unfolding unread_token
give_back s = elim (unread_token s) [ none ↦ s | some s' ↦ s' ]

-- `encoding/hex.DecodeString`; `none` is its error.
unfoldable pub hex_digit : ℕ → Option ℕ
hex_digit c =
    if leb b'0' c && leb c b'9'
    then some (c - b'0')
    else if leb b'a' c && leb c b'f'
    then some (c - b'a' + 10)
    else if leb b'A' c && leb c b'F'
    then some (c - b'A' + 10)
    else none

unfoldable pub hex_decode : Bytes → Option Bytes
unfolding hex_digit
hex_decode [] = some []
hex_decode (a ∷ []) = none
hex_decode (a ∷ b ∷ s) =
    let rest = hex_decode s in
    elim (hex_digit a) [
      | none ↦ none
      | some hi ↦ elim (hex_digit b) [
        | none ↦ none
        | some lo ↦ elim rest [ none ↦ none | some bits ↦ some ((hi * 16 + lo) ∷ bits) ]
      ]
    ]

abbrev pub text_prefix : Bytes
text_prefix = b't' ∷ b'e' ∷ b'x' ∷ b't' ∷ b':' ∷ []

abbrev pub recursive_prefix : Bytes
recursive_prefix = b'r' ∷ b':' ∷ []

-- The method that `parseHashAlgorithm` reads, and what is left.
unfoldable pub cut_method : Bytes → ℕ × Bytes
unfolding cut_prefix
cut_method s = elim (cut_prefix s recursive_prefix) [
  | some rest ↦ (recursive_file_ingestion_method, rest)
  | none ↦ elim (cut_prefix s text_prefix) [
    | some rest ↦ (text_ingestion_method, rest)
    | none ↦ (flat_file_ingestion_method, s)
  ]
]

-- `outputNames.Add(val)`
abbrev pub add_name : List Bytes → Bytes → Result ParseError (List Bytes)
add_name names val = ok (add names val)

module _ (x : External) where
  -- `parseInputDerivation`
  unfoldable pub parse_input : Scanner → Step (Bytes × List Bytes)
  unfolding expect_token parse_string_list parse_path
  parse_input s = expect_token s l_paren >> λ t1 s1. expect_token s1 string_kind >> λ path s2.
      parse_string_list add_name [] s2 >> λ names s3. expect_token s3 r_paren >> λ t2 s4.
      elim (parse_path x path.value) [
        | err e ↦ (err (bad_path e), s4)
        | ok drv_path ↦ (ok (drv_path, names), s4)
      ]

  -- The loop of `parseTuple` on input derivations, on rounds.
  unfoldable pub parse_inputs : Bytes → ℕ → InputDerivations → Scanner → Step InputDerivations
  unfolding next_token give_back parse_input path_dir exists put
  parse_inputs store zero inputs s = (err out_of_rounds, s)
  parse_inputs store (suc n) inputs s = next_token s >> λ tok s1. elim (tok.kind == r_bracket) [
    | true ↦ (ok inputs, s1)
    | false ↦ parse_input (give_back s1) >> λ named s2. elim (equal (path_dir x named.0) store) [
      | false ↦ (err (not_in_directory named.0), s2)
      | true ↦ elim (exists inputs named.0) [
        | true ↦ (err (multiple_inputs named.0), s2)
        | false ↦ parse_inputs store n (put inputs named.0 named.1) s2
      ]
    ]
  ]

  -- The function that `parseTuple` gives the input sources to.
  unfoldable pub add_source : List Bytes → Bytes → Result ParseError (List Bytes)
  unfolding parse_path
  add_source sources val = elim (parse_path x val) [
    | err e ↦ err (bad_path e)
    | ok p ↦ ok (add sources p)
  ]

module _ (x : External) {ContentAddress Hash HashType : Type 0}
    (nix : Nix ContentAddress Hash HashType) where
  unfoldable pub parse_hash_algorithm : Bytes → Result ParseError (ℕ × HashType)
  unfolding cut_method
  parse_hash_algorithm s =
      let (method, rest) = cut_method s in
      elim (nix.parse_hash_type rest) [ none ↦ err hash_algorithm | some typ ↦ ok (method, typ) ]

  -- the content address of a hash by a method
  unfoldable pub address_of : ℕ → Hash → Option ContentAddress
  address_of method h =
      if method == flat_file_ingestion_method
      then some (nix.flat_file_address h)
      else if method == recursive_file_ingestion_method
      then some (nix.recursive_file_address h)
      else if method == text_ingestion_method
      then some (nix.text_address h)
      else none

  -- The switch of `parseDerivationOutputType`.
  unfoldable pub output_type_of :
      Bytes
      → Bytes
      → ℕ
      → HashType
      → Bytes
      → Result ParseError (DerivationOutputType ContentAddress HashType)
  unfolding address_of fixed_ca_output
  output_type_of path hash_hex method hash_algo bits =
      if equal path [] && equal hash_hex []
      then ok (record {
        typ = floating_ca_output_type;
        ca = nix.zero_address;
        method = method;
        hash_algo = hash_algo;
      })
      else if not (equal hash_hex [])
      then (if not (length bits == nix.size hash_algo)
          then err hash_size
          else elim (address_of method (nix.new_hash hash_algo bits)) [
            | none ↦ err unhandled_algorithm
            | some ca ↦ ok (
                fixed_ca_output nix.zero_address nix.zero_type (λ c. nix.hash_type (nix.hash_of c))
                  nix.ca_is_recursive_file ca)
          ])
      else err unknown_output_type

  -- What `parseDerivationOutputType` makes of the texts behind the name.
  unfoldable pub read_output_type :
      Bytes → Bytes → Bytes → Result ParseError (DerivationOutputType ContentAddress HashType)
  unfolding parse_hash_algorithm hex_decode output_type_of
  read_output_type path ca_info hash_hex = elim (parse_hash_algorithm ca_info) [
    | err e ↦ err e
    | ok (method, hash_algo) ↦ elim (hex_decode hash_hex) [
      | none ↦ err hash_encoding
      | some bits ↦ output_type_of path hash_hex method hash_algo bits
    ]
  ]

  -- `parseDerivationOutputType`; the type is never nil.
  unfoldable pub parse_output :
      Scanner → Step (Bytes × Option (DerivationOutputType ContentAddress HashType))
  unfolding expect_token is_valid_output_name read_output_type
  parse_output s = expect_token s l_paren >> λ t1 s1. expect_token s1 string_kind >> λ name s2.
      elim (is_valid_output_name name.value) [
        | false ↦ (err (invalid_output name.value), s2)
        | true ↦ expect_token s2 string_kind >> λ path s3. expect_token s3 string_kind >> λ info s4.
            expect_token s4 string_kind >> λ hex s5. expect_token s5 r_paren >> λ t2 s6.
            elim (read_output_type path.value info.value hex.value) [
              | err e ↦ (err e, s6)
              | ok t ↦ (ok (name.value, some t), s6)
            ]
      ]

  -- The loop of `parseTuple` on outputs, on rounds.
  unfoldable pub parse_outputs :
      ℕ
      → List (Bytes × Option (DerivationOutputType ContentAddress HashType))
      → Scanner
      → Step (List (Bytes × Option (DerivationOutputType ContentAddress HashType)))
  unfolding next_token give_back parse_output exists put
  parse_outputs zero outputs s = (err out_of_rounds, s)
  parse_outputs (suc n) outputs s = next_token s >> λ tok s1. elim (tok.kind == r_bracket) [
    | true ↦ (ok outputs, s1)
    | false ↦ parse_output (give_back s1) >> λ named s2. elim (exists outputs named.0) [
      | true ↦ (err (multiple_outputs named.0), s2)
      | false ↦ parse_outputs n (put outputs named.0 named.1) s2
    ]
  ]

  unfoldable pub parse_tuple : Bytes → Bytes → Scanner → Step (Derivation ContentAddress HashType)
  unfolding expect_token parse_outputs parse_inputs parse_string_list add_source parse_args
      parse_env
  parse_tuple store name s = expect_token s l_paren >> λ t1 s1.
      expect_token s1 l_bracket >> λ t2 s2. parse_outputs (rounds s2) [] s2 >> λ outputs s3.
      expect_token s3 l_bracket >> λ t3 s4. parse_inputs x store (rounds s4) [] s4 >> λ inputs s5.
      parse_string_list (add_source x) [] s5 >> λ sources s6.
      expect_token s6 string_kind >> λ system s7. expect_token s7 string_kind >> λ builder s8.
      parse_args s8 >> λ args s9. parse_env s9 >> λ env s10. expect_token s10 r_paren >> λ t4 s11. (
        ok (record {
          dir = store;
          name = name;
          system = system.value;
          builder = builder.value;
          args = args;
          env = env;
          input_sources = sources;
          input_derivations = inputs;
          outputs = outputs;
        }),
        s11,
      )

  unfoldable pub parse_derivation :
      Bytes → Bytes → Bytes → Result ParseError (Derivation ContentAddress HashType)
  unfolding cut_prefix parse_tuple
  parse_derivation store name text = elim (cut_prefix text derive) [
    | none ↦ err no_constructor
    | some rest ↦
        let (r, s) = parse_tuple store name (new_scanner rest) in
        elim r [
          | err e ↦ err e
          | ok drv ↦ if ltb 0 (length s.input) then err trailing_data else ok drv
        ]
  ]

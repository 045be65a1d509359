-- ===== src/Derivation/Outputs.antt =====
-- zbstore/derivation.go: the types of a derivation's outputs, and their names. Content addresses
-- and hash types are those of the nix package, and their zero values and methods are parameters. A
-- nil pointer is `none`.
use zb.Prelude.{
  ℕ, Bool, false, not, ◌||◌, [], ◌∷◌, ◌++◌, Option, none, some, Result, ok, err, ◌==◌,
  if◌then◌else◌,
}
use zb.Sets.Ordered.{equal, bytes_ordered}
use zb.Aterm.{Bytes}

-- `contentAddressMethod` of zbstore/ca.go
abbrev pub text_ingestion_method : ℕ
text_ingestion_method = 1

abbrev pub flat_file_ingestion_method : ℕ
flat_file_ingestion_method = 2

abbrev pub recursive_file_ingestion_method : ℕ
recursive_file_ingestion_method = 3

unfoldable pub method_of_content_address :
    {ContentAddress : Type 0} → (is_text is_recursive : ContentAddress → Bool) → ContentAddress → ℕ
method_of_content_address is_text is_recursive ca =
    if is_text ca
    then text_ingestion_method
    else if is_recursive ca
    then recursive_file_ingestion_method
    else flat_file_ingestion_method

-- `none` is the panic.
unfoldable pub method_prefix : ℕ → Option Bytes
method_prefix m =
    if m == text_ingestion_method
    then some (b't' ∷ b'e' ∷ b'x' ∷ b't' ∷ b':' ∷ [])
    else if m == flat_file_ingestion_method
    then some []
    else if m == recursive_file_ingestion_method
    then some (b'r' ∷ b':' ∷ [])
    else none

abbrev pub fixed_ca_output_type : ℕ
fixed_ca_output_type = 1

abbrev pub floating_ca_output_type : ℕ
floating_ca_output_type = 2

pub record DerivationOutputType (ContentAddress HashType : Type 0) : Type 0 where
  pub typ : ℕ
  pub ca : ContentAddress
  pub method : ℕ
  pub hash_algo : HashType

module _ {ContentAddress HashType : Type 0} (zero_address : ContentAddress) (zero_type : HashType)
    (hash_type_of : ContentAddress → HashType) (is_recursive : ContentAddress → Bool) where
  unfoldable pub fixed_ca_output : ContentAddress → DerivationOutputType ContentAddress HashType
  fixed_ca_output ca = record {
    typ = fixed_ca_output_type;
    ca = ca;
    method = 0;
    hash_algo = zero_type;
  }

  unfoldable pub flat_file_floating_ca_output :
      HashType → DerivationOutputType ContentAddress HashType
  flat_file_floating_ca_output hash_algo = record {
    typ = floating_ca_output_type;
    ca = zero_address;
    method = flat_file_ingestion_method;
    hash_algo = hash_algo;
  }

  unfoldable pub recursive_file_floating_ca_output :
      HashType → DerivationOutputType ContentAddress HashType
  recursive_file_floating_ca_output hash_algo = record {
    typ = floating_ca_output_type;
    ca = zero_address;
    method = recursive_file_ingestion_method;
    hash_algo = hash_algo;
  }

  unfoldable pub is_fixed : Option (DerivationOutputType ContentAddress HashType) → Bool
  is_fixed none = false
  is_fixed (some t) = t.typ == fixed_ca_output_type

  unfoldable pub is_floating : Option (DerivationOutputType ContentAddress HashType) → Bool
  is_floating none = false
  is_floating (some t) = t.typ == floating_ca_output_type

  -- `HashType`
  unfoldable pub output_hash_type :
      Option (DerivationOutputType ContentAddress HashType) → Option HashType
  output_hash_type none = none
  output_hash_type (some t) =
      if t.typ == fixed_ca_output_type
      then some (hash_type_of t.ca)
      else if t.typ == floating_ca_output_type
      then some t.hash_algo
      else none

  unfoldable pub fixed_ca :
      Option (DerivationOutputType ContentAddress HashType) → Option ContentAddress
  fixed_ca none = none
  fixed_ca (some t) = if t.typ == fixed_ca_output_type then some t.ca else none

  unfoldable pub is_recursive_file : Option (DerivationOutputType ContentAddress HashType) → Bool
  is_recursive_file none = false
  is_recursive_file (some t) =
      if t.typ == fixed_ca_output_type
      then is_recursive t.ca
      else if t.typ == floating_ca_output_type
      then t.method == recursive_file_ingestion_method
      else false

unfoldable pub default_derivation_output_name : Bytes
default_derivation_output_name = b'o' ∷ b'u' ∷ b't' ∷ []

-- `strings.ContainsAny(name, "^!")`
unfoldable pub contains_special : Bytes → Bool
contains_special [] = false
contains_special (c ∷ name) = c == b'^' || c == b'!' || contains_special name

unfoldable pub is_valid_output_name : Bytes → Bool
unfolding contains_special
is_valid_output_name [] = false
is_valid_output_name (c ∷ name) = not (contains_special (c ∷ name))

pub data NameError : Type 0 where
  empty_derivation_name : NameError
  invalid_output_name : Bytes → NameError

unfoldable pub output_path_name : Bytes → Bytes → Result NameError Bytes
unfolding is_valid_output_name default_derivation_output_name
output_path_name [] output_name = err empty_derivation_name
output_path_name (c ∷ name) output_name =
    if not (is_valid_output_name output_name)
    then err (invalid_output_name output_name)
    else if equal output_name default_derivation_output_name
    then ok (c ∷ name)
    else ok ((c ∷ name) ++ b'-' ∷ output_name)

-- ===== src/StorePath/ContentAddress.antt =====
-- zbstore/path.go, zbstore/ca.go and internal/storepath: how a store path is computed from a
-- content address. The types and functions of the packages nix, nixbase32 and crypto/sha256 are
-- parameters.
use zb.Prelude.{
  ℕ, Bool, false, not, ◌&&◌, List, [], ◌∷◌, ◌++◌, Option, none, some, Result, err, if◌then◌else◌,
  map_err,
}
use zb.StorePath.Posix.{Bytes}
use zb.StorePath.Paths.{External, PathError}
use zb.StorePath.Directory.{object}
use zb.StorePath.References.{References, refs_is_empty}
use zb.Derivation.Outputs.{method_of_content_address, method_prefix}

-- What the sources call of the package nix and of the hash functions. `digest` is the compression
-- of the SHA-256 sum of a text to 20 bytes, written in base 32; `sha256_hash` is a text's hash by
-- `nix.NewHasher`, and `sum_hash` that by a hasher of another type.
pub record Nix (ContentAddress Hash HashType : Type 0) : Type 0 where
  pub zero_address : ContentAddress
  pub zero_type : HashType
  pub hash_of : ContentAddress → Hash
  pub ca_is_zero : ContentAddress → Bool
  pub ca_is_text : ContentAddress → Bool
  pub ca_is_fixed : ContentAddress → Bool
  pub ca_is_recursive_file : ContentAddress → Bool
  pub hash_type : Hash → HashType
  pub is_sha256 : HashType → Bool
  pub type_string : HashType → Bytes
  pub parse_hash_type : Bytes → Option HashType
  pub size : HashType → ℕ
  pub base16 : Hash → Bytes
  pub raw_base16 : Hash → Bytes
  pub new_hash : HashType → Bytes → Hash
  pub text_address : Hash → ContentAddress
  pub flat_file_address : Hash → ContentAddress
  pub recursive_file_address : Hash → ContentAddress
  pub digest : Bytes → Bytes
  pub sha256_hash : Bytes → Hash
  pub sum_hash : HashType → Bytes → Hash

pub data AddressError : Type 0 where
  null_address : AddressError
  text_hash_type : AddressError
  self_reference_in_text : AddressError
  references_in_fixed_output : AddressError
  unknown_method : AddressError
  path_error : PathError → AddressError

abbrev pub empty_references : References
empty_references = record { self = false; others = [] }

-- What `makeStorePath` writes of the references.
unfoldable pub write_refs : List Bytes → Bytes
write_refs [] = []
write_refs (ref ∷ refs) = b':' ∷ (ref ++ write_refs refs)

abbrev pub self_suffix : Bytes
self_suffix = b':' ∷ b's' ∷ b'e' ∷ b'l' ∷ b'f' ∷ []

abbrev pub text_type : Bytes
text_type = b't' ∷ b'e' ∷ b'x' ∷ b't' ∷ []

abbrev pub source_type : Bytes
source_type = b's' ∷ b'o' ∷ b'u' ∷ b'r' ∷ b'c' ∷ b'e' ∷ []

abbrev pub output_type : Bytes
output_type = b'o' ∷ b'u' ∷ b't' ∷ b'p' ∷ b'u' ∷ b't' ∷ b':' ∷ b'o' ∷ b'u' ∷ b't' ∷ []

abbrev pub fixed_out : Bytes
fixed_out = b'f' ∷ b'i' ∷ b'x' ∷ b'e' ∷ b'd' ∷ b':' ∷ b'o' ∷ b'u' ∷ b't' ∷ b':' ∷ []

module _ (x : External) {ContentAddress Hash HashType : Type 0}
    (nix : Nix ContentAddress Hash HashType) where
  -- `MakeDigest` of internal/storepath, where `written` is what `h` was given before.
  unfoldable pub make_digest : Bytes → Bytes → Hash → Bytes → Bytes
  make_digest written store hash name =
      nix.digest (written ++ (b':' ∷ (nix.base16 hash ++ (b':' ∷ (store ++ (b':' ∷ name))))))

  unfoldable pub make_store_path :
      Bytes → Bytes → Hash → Bytes → References → Result PathError Bytes
  unfolding make_digest write_refs object
  make_store_path store typ hash name refs =
      let written = typ ++ (write_refs refs.others ++ (if refs.self then self_suffix else [])) in
      object x store (make_digest written store hash name ++ b'-' ∷ name)

  unfoldable pub is_source_content_address : ContentAddress → Bool
  is_source_content_address ca =
      nix.ca_is_recursive_file ca && nix.is_sha256 (nix.hash_type (nix.hash_of ca))

  -- `none` where the source returns no error.
  unfoldable pub validate_content_address : ContentAddress → References → Option AddressError
  unfolding is_source_content_address refs_is_empty
  validate_content_address ca refs =
      if nix.ca_is_zero ca
      then some null_address
      else if nix.ca_is_text ca && not (nix.is_sha256 (nix.hash_type (nix.hash_of ca)))
      then some text_hash_type
      else if refs.self && nix.ca_is_text ca
      then some self_reference_in_text
      else if not (refs_is_empty refs) && (nix.ca_is_fixed ca && not (is_source_content_address ca))
      then some references_in_fixed_output
      else none

  -- The text whose hash is that of a fixed output.
  unfoldable pub fixed_output_hash : Bytes → ContentAddress → Hash
  fixed_output_hash prefix ca =
      nix.sha256_hash (fixed_out ++ (prefix ++ (nix.base16 (nix.hash_of ca) ++ b':' ∷ [])))

  -- `FixedCAOutputPath`; `unknown_method` is the panic of `prefix`.
  unfoldable pub fixed_ca_output_path :
      Bytes → Bytes → ContentAddress → References → Result AddressError Bytes
  unfolding validate_content_address is_source_content_address make_store_path fixed_output_hash
      method_of_content_address method_prefix
  fixed_ca_output_path store name ca refs = elim (validate_content_address ca refs) [
    | some e ↦ err e
    | none ↦
        if nix.ca_is_text ca
        then map_err path_error (make_store_path store text_type (nix.hash_of ca) name refs)
        else if is_source_content_address ca
        then map_err path_error (make_store_path store source_type (nix.hash_of ca) name refs)
        else elim (method_prefix
            (method_of_content_address nix.ca_is_text nix.ca_is_recursive_file ca)) [
              | none ↦ err unknown_method
              | some prefix ↦ map_err path_error (
                  make_store_path store output_type (fixed_output_hash prefix ca) name
                    empty_references)
            ]
  ]

-- ===== src/Derivation/Exported.antt =====
-- zbstore/derivation.go: what `References` holds, and that an exported derivation can be found and
-- read again.
use zb.Prelude.{
  suc, Bool, true, false, ◌||◌, List, [], ◌∷◌, ◌++◌, length-append, none, some, ok, length,
  Bool-cases, inl, inr, ◌≡◌, ◌≢◌, refl, ◌∙◌, ap, arith,
}
use zb.Sets.Ordered.{equal, bytes_ordered}
use zb.Sets.Sorted.{add, add_seq, has}
use zb.Sets.Sorted.Laws.{IsSorted, among, add_lem, add_seq-has, has-nil}
use zb.Aterm.{Bytes}
use zb.StorePath.Posix.{is_abs, clean}
use zb.StorePath.Paths.{
  External, parse_path, path_dir, path_name, derivation_name, cut_suffix, derivation_ext,
}
use zb.StorePath.References.{equal_self, equal_same}
use zb.StorePath.ContentAddress.{Nix, validate_content_address, fixed_ca_output_path}
use zb.StorePath.Made.{IsDigest, IsObjectName, fixed-Makes}
use zb.Derivation.{InputDerivations}
use zb.Derivation.Format.{Derivation, marshal_text}
use zb.Derivation.Tuple.{parse_derivation}
use zb.Derivation.OutputTexts.{NixLaws, equal_empty}
use zb.Derivation.WholeTrip.{IsSmall}
use zb.Derivation.Whole.{IsWellFormed, parse_derivation-marshal_text}
use zb.Derivation.Export.{add_inputs_to, references_of, ExportTrailer, export_text, export}

-- whether a path is that of an input derivation
abbrev pub among_inputs : InputDerivations → Bytes → Bool
among_inputs [] z = false
among_inputs ((input, names) ∷ m) z = equal input z || among_inputs m z

add_inputs_to-has :
    (s : List Bytes) (m : InputDerivations)
    → IsSorted s
    → IsSorted (add_inputs_to s m)
      × ((z : Bytes) → has (add_inputs_to s m) z ≡ among_inputs m z || has s z)
unfolding add_inputs_to
add_inputs_to-has s [] v = (v, λ z. refl)
add_inputs_to-has s ((input, names) ∷ m) v =
    let (v', a) = add_lem s input v in
    let (w, h) = add_inputs_to-has (add s input) m v' in (w, λ z. ground (arith, h z, a z))

-- The references of a derivation: it never refers to itself, and the others are a sorted set that
-- holds a path exactly when the path is an input source or that of an input derivation.
pub references_of_lem :
    {ContentAddress HashType : Type 0} (drv : Derivation ContentAddress HashType)
    → let refs = references_of drv in
      (refs.self ≡ false)
      × IsSorted refs.others
      × ((z : Bytes)
          → has refs.others z ≡ among drv.input_sources z || among_inputs drv.input_derivations z)
unfolding references_of
references_of_lem drv =
    let (v, a) = add_seq-has [] drv.input_sources tt in
    let (w, h) = add_inputs_to-has (add_seq [] drv.input_sources) drv.input_derivations v in
    (refl, w, λ z. ground (arith, h z, a z, has-nil z))

cut_suffix-append : (s suffix : Bytes) → cut_suffix (s ++ suffix) suffix ≡ some s
unfolding cut_suffix
cut_suffix-append [] [] = refl
cut_suffix-append [] (c ∷ suffix) = rw (equal_self (c ∷ suffix)) refl
cut_suffix-append (c ∷ s) suffix =
    let ih = cut_suffix-append s suffix in
    elim (Bool-cases (equal (c ∷ s ++ suffix) suffix)) [
      | inl e ↦ absurd (longer (ap length (equal_same (c ∷ s ++ suffix) suffix e)))
      | inr e ↦ ground (arith, e, ih)
    ]
  where
    longer : suc (length (s ++ suffix)) ≡ length suffix → ⊥
    longer e = omega (arith, length-append s suffix)

module _ (x : External) {ContentAddress Hash HashType : Type 0}
    (nix : Nix ContentAddress Hash HashType) where
  -- What the package documents of the content addresses of texts: none is zero or fixed, they keep
  -- their hash, and a hash made by a type is of that type.
  pub record TextLaws (hash_type : HashType) : Type 0 where
    pub not_zero : (h : Hash) → nix.ca_is_zero (nix.text_address h) ≡ false
    pub not_fixed : (h : Hash) → nix.ca_is_fixed (nix.text_address h) ≡ false
    pub hash_kept : (h : Hash) → nix.hash_of (nix.text_address h) ≡ h
    pub type_kept : (text : Bytes) → nix.hash_type (nix.sum_hash hash_type text) ≡ hash_type

  text_valid :
      (hash_type : HashType) (sha256 : nix.is_sha256 hash_type ≡ true) (laws : TextLaws hash_type)
      (drv : Derivation ContentAddress HashType) (text : Bytes)
      → validate_content_address x nix
          (nix.text_address (nix.sum_hash hash_type text))
          (references_of drv)
        ≡ none
  unfolding validate_content_address references_of
  text_valid hash_type sha256 laws drv text =
      let h = nix.sum_hash hash_type text in
      let a = laws.not_zero h in
      let b = laws.not_fixed h in
      let c =
        ap nix.is_sha256 (ap nix.hash_type (laws.hash_kept h) ∙ laws.type_kept text) ∙ sha256 in
      ground (arith, a, b, c)

  derivation_name-ext :
      (path name : Bytes)
      → path_name x path ≡ name ++ derivation_ext
      → derivation_name x path ≡ some name
  unfolding derivation_name
  derivation_name-ext path name e = rw e (cut_suffix-append name derivation_ext)

  export-parts :
      (nar : Bytes → Bytes) (drv : Derivation ContentAddress HashType) (hash_type : HashType)
      (text path : Bytes)
      → drv.name ≢ []
      → drv.dir ≢ []
      → marshal_text x nix drv ≡ ok text
      → fixed_ca_output_path x nix drv.dir
          (drv.name ++ derivation_ext)
          (nix.text_address (nix.sum_hash hash_type text))
          (references_of drv)
        ≡ ok path
      → export x nix nar drv hash_type
        ≡ ok (
          nar text,
          record {
            store_path = path;
            references = (references_of drv).others;
            deriver = [];
            content_address = nix.text_address (nix.sum_hash hash_type text);
          },
        )
  unfolding export export_text
  export-parts nar drv hash_type text path n d m f =
      let n' = equal_empty drv.name n in
      let d' = equal_empty drv.dir d in ground (arith, n', d', m, f)

  -- Where the hash type is SHA-256: for a derivation that is well formed, whose texts are no longer
  -- than the scanner takes, in a store directory that begins with a slash and is clean, whose name
  -- with its extension is a name of objects, and hashes, content addresses and digests that behave
  -- as their packages document: `Export` succeeds with the archive of the text, the references of the derivation, and a store
  -- path that is in the directory and is that of a derivation of this name; and `ParseDerivation` of
  -- the text, with the directory and the name that this path gives, returns the derivation.
  pub export_lem :
      (nar : Bytes → Bytes) (laws : NixLaws nix)
      → ((text : Bytes) → IsDigest x (nix.digest text))
      → (hash_type : HashType) (sha256 : nix.is_sha256 hash_type ≡ true)
        (text_laws : TextLaws hash_type)
      → (drv : Derivation ContentAddress HashType) → IsWellFormed x nix drv
      → IsSmall x nix drv
      → is_abs drv.dir ≡ true
      → clean drv.dir ≡ drv.dir
      → IsObjectName (drv.name ++ derivation_ext)
      → (text : Bytes) × (trailer : ExportTrailer ContentAddress) × (export x nix nar drv hash_type
          ≡ ok (nar text, trailer))
        × (trailer.references ≡ (references_of drv).others)
        × (parse_path x trailer.store_path ≡ ok trailer.store_path)
        × (derivation_name x trailer.store_path ≡ some drv.name)
        × (parse_derivation x nix (path_dir x trailer.store_path) drv.name text ≡ ok drv)
  export_lem nar laws digests hash_type sha256 text_laws drv g f abs c good =
      let (text, m, again) = parse_derivation-marshal_text x nix laws drv g f in
      let ca = nix.text_address (nix.sum_hash hash_type text) in
      let (p, e, _, parsed, dir_eq, name_eq) =
        fixed-Makes x nix digests drv.dir (drv.name ++ derivation_ext) ca (references_of drv) abs c
          good (text_valid hash_type sha256 text_laws drv text) in
      (
        text,
        record {
          store_path = p;
          references = (references_of drv).others;
          deriver = [];
          content_address = ca;
        },
        export-parts nar drv hash_type text p g.has_name g.has_dir m e,
        refl,
        parsed,
        derivation_name-ext p drv.name name_eq,
        ap (λ d. parse_derivation x nix d drv.name text) dir_eq ∙ again,
      )

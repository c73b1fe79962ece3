-- ===== src/Secrets/Validate.antt =====
-- internal/secrets/store.go: the checks of a new secret; internal/secrets/age.go: decodeAgeField.
use flick_drop.Base.{
  ℕ, ◌+◌, ◌-◌, ◌*◌, ◌/◌, Bool, true, false, not, ◌&&◌, ◌||◌, Option, none, some, [], ◌∷◌, ◌++◌,
  String, ◌==◌, string_eq, nat_eq, ltb, leb, nat_beq, if◌then◌else◌, length,
}
use flick_drop.Secrets.Age.{
  max_ciphertext_bytes, age_header_allowance_bytes, max_wrapped_identity_bytes,
  max_encrypted_filename_bytes, max_content_type_bytes,
}
use flick_drop.Base.Text.{str_length, codes, is_printable}
use flick_drop.Secrets.Tables.{is_some}
use flick_drop.Secrets.Types.{
  Bytes, Error, invalid_input, payload_too_large, unsupported_kind, unsupported_views, KdfParams,
  CreateInput, Store, Library,
}

abbrev pub age_magic : Bytes
age_magic = codes "age-encryption.org/v1" ++ 10 ∷ []

-- bytes.HasPrefix(b, p)
abbrev pub has_prefix : Bytes → Bytes → Bool
has_prefix b [] = true
has_prefix [] (q ∷ p) = false
has_prefix (x ∷ b) (q ∷ p) = nat_beq x q && has_prefix b p

-- base64.StdEncoding.DecodedLen
abbrev pub decoded_len : ℕ → ℕ
decoded_len n = n / 4 * 3

abbrev pub is_age_file : ℕ → Option Bytes → Bool
is_age_file limit none = false
is_age_file limit (some raw) = leb (length raw) limit && has_prefix raw age_magic

unfoldable pub valid_content_type : String → Bool
unfolding is_printable
valid_content_type v = leb (str_length v) max_content_type_bytes && is_printable v

abbrev pub valid_kdf : KdfParams → Bool
valid_kdf k =
    k.algorithm == "PBKDF2-SHA-256"
    && not (k.salt == "")
    && leb 600000 k.iterations
    && leb k.iterations 6000000
    && nat_beq k.key_length_bits 256

abbrev pub same_bool : Bool → Bool → Bool
same_bool true b = b
same_bool false b = not b

-- A test of an optional field, passed where the field is absent.
abbrev pub absent_or {ℓ} : {A : Type ℓ} → (A → Bool) → Option A → Bool
absent_or p none = true
absent_or p (some a) = p a

abbrev pub has_proof : CreateInput → Bool
has_proof i = not (i.access_proof_hash == "")

module _ (lib : Library) where
  -- Whether decodeAgeField returns no error.
  unfoldable pub decode_age_field : ℕ → String → Bool
  decode_age_field limit v =
      leb (decoded_len (str_length v)) (limit + 3) && is_age_file limit (lib.decode_base64 v)

  -- A secret has all of the three fields of an access proof, or none of them.
  unfoldable pub valid_access : CreateInput → Bool
  unfolding decode_age_field
  valid_access i =
      same_bool (has_proof i) (not (i.access_kdf.algorithm == ""))
      && same_bool (has_proof i) (is_some i.wrapped_identity)
      && (not (has_proof i)
          || valid_kdf i.access_kdf
            && absent_or (decode_age_field max_wrapped_identity_bytes) i.wrapped_identity)

  -- A file has an encrypted name, and a text has none.
  unfoldable pub valid_names : CreateInput → Bool
  unfolding decode_age_field valid_content_type
  valid_names i =
      not (i.kind == "file" && not (is_some i.encrypted_filename))
      && not (i.kind == "text" && is_some i.encrypted_filename)
      && absent_or (decode_age_field max_encrypted_filename_bytes) i.encrypted_filename
      && absent_or valid_content_type i.content_type

  module _ (store : Store) where
    unfoldable pub validate_common : CreateInput → Option Error
    unfolding valid_access valid_names
    validate_common i =
        if not (i.kind == "text") && not (i.kind == "file")
        then some unsupported_kind
        else if ltb i.ttl_seconds store.min_ttl || ltb store.max_ttl i.ttl_seconds
        then some invalid_input
        else if not (nat_beq i.max_views 1)
        then some unsupported_views
        else if not (valid_access i) || not (valid_names i)
        then some invalid_input
        else none

    unfoldable pub validate_create : CreateInput → Option Error
    unfolding validate_common
    validate_create i =
        if ltb store.payload_inline_max_bytes (length i.ciphertext)
        then some payload_too_large
        else if not (has_prefix i.ciphertext age_magic)
            || not (nat_beq (length i.ciphertext) i.size_bytes)
        then some invalid_input
        else validate_common i

    unfoldable pub validate_create_large : CreateInput → Option Error
    unfolding validate_common max_ciphertext_bytes
    validate_create_large i =
        if i.kind == "text"
        then some invalid_input
        else if ltb store.max_object_bytes i.size_bytes
        then some payload_too_large
        else if ltb i.size_bytes (max_ciphertext_bytes 0 - age_header_allowance_bytes)
        then some invalid_input
        else validate_common i

-- ===== src/Secrets/Load.antt =====
-- internal/secrets/store.go: load, Get, Metadata, CountPendingUploads and Cleanup.
use flick_drop.Base.{
  ℕ, suc, String, Bool, not, ◌&&◌, ◌||◌, Option, none, some, List, [], ◌∷◌, ◌==◌, string_eq, ltb,
  nat_beq, if◌then◌else◌, find, length,
}
use flick_drop.Sql.{
  Result, ok, err, Faults, Tx, ◌>>=◌, ◌>>◌, pure, transact, exec, commit, when, update_row,
}
use flick_drop.Secrets.Tables.{
  SecretRow, Db, is_some, is_s3, is_pending, update_secret, delete_payload,
}
use flick_drop.Secrets.Types.{
  Bytes, Error, invalid_input, not_found, consumed, expired, failure, Stmt, begin_tx, commit_tx,
  read_affected, delete_body, touch_row, KdfParams, Secret, Library,
}
use flick_drop.Secrets.Validate.{same_bool}

-- An absent payload and an empty one read alike.
abbrev pub or_empty : Option Bytes → Bytes
or_empty none = []
or_empty (some b) = b

abbrev pub or_blank : Option String → String
or_blank none = ""
or_blank (some s) = s

abbrev pub is_mixed : SecretRow → Bool
is_mixed r =
    not (same_bool (is_some r.access_kdf_params_json) (is_some r.access_proof_hash))
    || not (same_bool (is_some r.access_proof_hash) (is_some r.wrapped_identity))

-- An inline secret with no body, that is not consumed.
abbrev pub lacks_body : SecretRow → Option Bytes → Bool
lacks_body r payload =
    not (is_s3 r.storage_backend)
    && nat_beq (length (or_empty payload)) 0
    && not (is_some r.consumed_at)

unfoldable pub touched : ℕ → SecretRow → SecretRow
touched now r = record r { updated_at = now }

-- Metadata
pub record Metadata : Type 0 where
  pub id : String
  pub kind : String
  pub access_kdf : Option KdfParams
  pub size_bytes : ℕ
  pub expires_at : ℕ

unfoldable pub count_pending : List (String × SecretRow) → ℕ
count_pending [] = 0
count_pending ((id, r) ∷ rows) =
    if is_pending r.state then suc (count_pending rows) else count_pending rows

module _ (lib : Library) where
  abbrev pub secret_of : String → SecretRow → Option Bytes → Option KdfParams → Secret
  secret_of id r payload kdf = record {
    management_token = "";
    id = id;
    kind = r.kind;
    storage_backend = r.storage_backend;
    storage_key = r.storage_key;
    ciphertext = or_empty payload;
    body = none;
    access_kdf = kdf;
    wrapped_identity = if is_some r.access_kdf_params_json then r.wrapped_identity else none;
    encrypted_filename = r.encrypted_filename;
    content_type = r.content_type;
    size_bytes = r.size_bytes;
    expires_at = r.expires_at;
    access_proof_hash =
        if is_some r.access_kdf_params_json then or_blank r.access_proof_hash else "";
  }

  -- The decoded parameters of the access key, if the row has any.
  abbrev pub decode_kdf : Option String → Result Error (Option KdfParams)
  decode_kdf none = ok none
  decode_kdf (some json) = elim (lib.unmarshal_kdf json) [
    | none ↦ err failure
    | some k ↦ ok (some k)
  ]

  abbrev pub with_kdf :
      String
      → SecretRow
      → Option Bytes
      → Result Error (Option KdfParams)
      → Result Error (Secret × Option ℕ)
  with_kdf id r payload (err e) = err e
  with_kdf id r payload (ok kdf) = ok (secret_of id r payload kdf, r.consumed_at)

  -- What load reads of an active row and its payload, with the time when it was consumed.
  unfoldable pub load_row :
      String → Option SecretRow → Option Bytes → Result Error (Secret × Option ℕ)
  load_row id none payload = err not_found
  load_row id (some r) payload =
      if is_pending r.state
      then err not_found
      else if lacks_body r payload
      then err not_found
      else if is_mixed r
      then err invalid_input
      else with_kdf id r payload (decode_kdf r.access_kdf_params_json)

  unfoldable pub load : String → Db → Result Error (Secret × Option ℕ)
  unfolding load_row
  load id d =
      if id == "" then err not_found else load_row id (find id d.secrets) (find id d.payloads)

  -- A loaded secret at a time, if it can still be opened.
  abbrev pub openable : ℕ → Result Error (Secret × Option ℕ) → Result Error Secret
  openable now (err e) = err e
  openable now (ok (s, some t)) = err consumed
  openable now (ok (s, none)) = if ltb now s.expires_at then ok s else err expired

  unfoldable pub get : String → ℕ → Db → Result Error Secret
  unfolding load
  get id now d = openable now (load id d)

  abbrev pub metadata_with :
      String → ℕ → SecretRow → Result Error (Option KdfParams) → Result Error Metadata
  metadata_with id now r (err e) = err e
  metadata_with id now r (ok kdf) =
      if ltb now r.expires_at
      then ok (record {
        id = id;
        kind = r.kind;
        access_kdf = kdf;
        size_bytes = r.size_bytes;
        expires_at = r.expires_at;
      })
      else err expired

  abbrev pub metadata_row : String → ℕ → Option SecretRow → Option Bytes → Result Error Metadata
  metadata_row id now none payload = err not_found
  metadata_row id now (some r) payload =
      if not (is_s3 r.storage_backend) && not (is_some payload)
      then err not_found
      else if is_some r.consumed_at
      then err consumed
      else metadata_with id now r (decode_kdf r.access_kdf_params_json)

  unfoldable pub metadata : String → ℕ → Db → Result Error Metadata
  metadata id now d =
      if id == ""
      then err not_found
      else metadata_row id now (find id d.secrets) (find id d.payloads)

module _ (fails : Faults Stmt) where
  unfoldable pub cleanup_tx : String → ℕ → Tx Error Db Bool
  unfolding touched
  cleanup_tx id now = do
    found ←
        update_row (fails delete_body) failure (λ d. is_some (find id d.payloads))
          (delete_payload id)
    exec (fails read_affected) failure (λ d. d)
    when found (exec (fails touch_row) failure (update_secret id (touched now)))
    commit (fails commit_tx) failure
    pure found

  unfoldable pub cleanup : String → ℕ → Db → Result Error Bool × Db
  unfolding cleanup_tx
  cleanup id now d =
      if id == ""
      then (err not_found, d)
      else transact (fails begin_tx) failure (cleanup_tx id now) d

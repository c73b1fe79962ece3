-- ===== src/Secrets/Create.antt =====
-- internal/secrets/store.go: Create and CreateLarge, with createManagementTx of management.go. The random
-- id and the 32 random bytes of a token are arguments, none where the random source fails.
use Prim.Native.String.{◌++◌}
use flick_drop.Base.{
  ℕ, ◌+◌, ◌*◌, String, not, Option, none, some, ◌==◌, string_eq, nat_beq, if◌then◌else◌, find,
}
use flick_drop.Sql.{Result, err, Faults, Tx, ◌>>=◌, ◌>>◌, pure, throw, transact, commit, insert_new}
use flick_drop.Secrets.Tables.{
  StorageBackend, sqlite_blob, s3_object, State, active, pending_upload, SecretRow, ManagementRow,
  Db, is_some, insert_secret, insert_payload, insert_management,
}
use flick_drop.Secrets.Types.{
  Bytes, Error, payload_too_large, failure, Stmt, begin_tx, commit_tx, insert_secret_row,
  insert_payload_row, insert_capability, KdfParams, CreateInput, Secret, Store, Library, second,
}
use flick_drop.Secrets.Validate.{validate_create, validate_create_large}

-- A MaxViews of 0 means 1.
unfoldable pub normalize : CreateInput → CreateInput
normalize i = record i { max_views = if nat_beq i.max_views 0 then 1 else i.max_views }

unfoldable pub expiry : CreateInput → ℕ → ℕ
expiry i now = now + i.ttl_seconds * second

unfoldable pub managed_object_prefix : String
managed_object_prefix = "managed/secrets/"

-- What CreateLarge answers with.
pub record CreateLargeResult : Type 0 where
  pub management_token : String
  pub id : String
  pub expires_at : ℕ
  pub upload : String

-- What Create returns.
unfoldable pub created_secret : CreateInput → String → String → ℕ → Secret
unfolding expiry
created_secret i id token now = record {
  management_token = token;
  id = id;
  kind = i.kind;
  storage_backend = sqlite_blob;
  storage_key = id;
  ciphertext = i.ciphertext;
  body = none;
  access_kdf = some i.access_kdf;
  wrapped_identity = i.wrapped_identity;
  encrypted_filename = i.encrypted_filename;
  content_type = i.content_type;
  size_bytes = i.size_bytes;
  expires_at = expiry i now;
  access_proof_hash = "";
}

module _ (lib : Library) where
  -- modelAColumns
  unfoldable pub model_a_columns : KdfParams → String → Option String × Option String
  model_a_columns kdf proof_hash =
      if proof_hash == "" then (none, none) else (some (lib.marshal_kdf kdf), some proof_hash)

  -- The row that the two operations insert.
  unfoldable pub new_row : CreateInput → StorageBackend → State → String → ℕ → SecretRow
  unfolding model_a_columns expiry
  new_row i backend state key now = record {
    kind = i.kind;
    storage_backend = backend;
    storage_key = key;
    access_kdf_params_json = (model_a_columns i.access_kdf i.access_proof_hash).0;
    access_proof_hash = (model_a_columns i.access_kdf i.access_proof_hash).1;
    wrapped_identity = i.wrapped_identity;
    encrypted_filename = i.encrypted_filename;
    content_type = i.content_type;
    size_bytes = i.size_bytes;
    max_views = i.max_views;
    view_count = 0;
    failed_access_count = 0;
    state = state;
    expires_at = expiry i now;
    consumed_at = none;
    created_at = now;
    updated_at = now;
    reclaim_enqueued_at = none;
  }

  unfoldable pub new_management : Bytes → ℕ → ManagementRow
  new_management raw expires = record {
    token_hash = lib.sha256 raw;
    expires_at = expires;
    outcome = none;
  }

  module _ (fails : Faults Stmt) where
    -- createManagementTx
    unfoldable pub create_management : String → Option Bytes → ℕ → Tx Error Db String
    unfolding new_management
    create_management id none expires = throw failure
    create_management id (some raw) expires = do
      insert_new (fails insert_capability) failure (λ d. is_some (find id d.managements))
          (insert_management id (new_management raw expires))
      pure (lib.encode_token raw)

    unfoldable pub create_tx : CreateInput → String → Option Bytes → ℕ → Tx Error Db Secret
    unfolding create_management new_row created_secret
    create_tx i id raw now = do
      insert_new (fails insert_secret_row) failure (λ d. is_some (find id d.secrets))
          (insert_secret id (new_row i sqlite_blob active id now))
      insert_new (fails insert_payload_row) failure (λ d. is_some (find id d.payloads))
          (insert_payload id i.ciphertext)
      token ← create_management id raw (expiry i now)
      commit (fails commit_tx) failure
      pure (created_secret i id token now)

    unfoldable pub create_large_tx :
        CreateInput → String → Option Bytes → String → ℕ → Tx Error Db CreateLargeResult
    unfolding create_management new_row
    create_large_tx i id raw upload now = do
      insert_new (fails insert_secret_row) failure (λ d. is_some (find id d.secrets))
          (insert_secret id (new_row i s3_object pending_upload (managed_object_prefix ++ id) now))
      token ← create_management id raw (expiry i now)
      commit (fails commit_tx) failure
      pure
          (record { management_token = token; id = id; expires_at = expiry i now; upload = upload })

    module _ (store : Store) where
      abbrev pub create_checked :
          CreateInput
          → Option Error
          → Option String
          → Option Bytes
          → ℕ
          → Db
          → Result Error Secret × Db
      create_checked i (some e) id raw now d = (err e, d)
      create_checked i none none raw now d = (err failure, d)
      create_checked i none (some id) raw now d =
          transact (fails begin_tx) failure (create_tx i id raw now) d

      unfoldable pub create :
          CreateInput → Option String → Option Bytes → ℕ → Db → Result Error Secret × Db
      unfolding normalize create_tx validate_create
      create i id raw now d =
          create_checked (normalize i) (validate_create lib store (normalize i)) id raw now d

      abbrev pub create_large_checked :
          CreateInput
          → Option Error
          → Option String
          → Option String
          → Option Bytes
          → ℕ
          → Db
          → Result Error CreateLargeResult × Db
      create_large_checked i (some e) id upload raw now d = (err e, d)
      create_large_checked i none none upload raw now d = (err failure, d)
      create_large_checked i none (some id) none raw now d = (err failure, d)
      create_large_checked i none (some id) (some upload) raw now d =
          transact (fails begin_tx) failure (create_large_tx i id raw upload now) d

      -- The object store's presigned upload is the fourth argument.
      unfoldable pub create_large :
          CreateInput
          → Option String
          → Option String
          → Option Bytes
          → ℕ
          → Db
          → Result Error CreateLargeResult × Db
      unfolding normalize create_large_tx validate_create_large
      create_large i id upload raw now d =
          if not store.has_objects
          then (err payload_too_large, d)
          else create_large_checked (normalize i) (validate_create_large lib store (normalize i)) id
              upload raw now d

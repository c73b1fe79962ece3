-- ===== src/Secrets/Types.antt =====
-- The types of internal/secrets/store.go, management.go and errors.go, and what the store takes from
-- the libraries. A byte is a number. A negative TTL, size or number of iterations is refused like 0,
-- and a negative number of views like 2.
use flick_drop.Base.{ℕ, String, Bool, false, Option, List}
use flick_drop.Jobs.{JobEvent}
use flick_drop.Secrets.Tables.{StorageBackend, Outcome}

abbrev pub Bytes : Type 0
Bytes = List ℕ

-- The errors that callers tell apart; `failure` is any other one.
pub data Error : Type 0 where
  invalid_input not_found consumed expired invalid_access payload_too_large : Error
  unsupported_kind unsupported_views not_pending object_missing : Error
  management_unavailable failure : Error

-- The statements of the operations.
pub data Stmt : Type 0 where
  begin_tx commit_tx read_affected insert_secret_row insert_payload_row insert_capability : Stmt
  load_pending activate_row load_secret mark_row count_failure load_count record_outcome : Stmt
  delete_body touch_row delete_row read_capability read_storage insert_event : Stmt
  claim_rows purge_rows purge_capabilities : Stmt
  read_cursor reset_cursor advance_cursor load_live claim_object clear_claim : Stmt

pub record KdfParams : Type 0 where
  pub algorithm : String
  pub salt : String
  pub iterations : ℕ
  pub key_length_bits : ℕ

-- CreateInput, and CreateLargeInput with no ciphertext.
pub record CreateInput : Type 0 where
  pub kind : String
  pub ciphertext : Bytes
  pub access_kdf : KdfParams
  pub access_proof_hash : String
  pub wrapped_identity : Option String
  pub encrypted_filename : Option String
  pub content_type : Option String
  pub size_bytes : ℕ
  pub ttl_seconds : ℕ
  pub max_views : ℕ

-- `access_proof_hash` is empty for a secret without one, and `access_kdf` none where AccessKDF is left
-- at its zero value.
pub record Secret : Type 0 where
  pub management_token : String
  pub id : String
  pub kind : String
  pub storage_backend : StorageBackend
  pub storage_key : String
  pub ciphertext : Bytes
  pub body : Option Bytes
  pub access_kdf : Option KdfParams
  pub wrapped_identity : Option String
  pub encrypted_filename : Option String
  pub content_type : Option String
  pub size_bytes : ℕ
  pub expires_at : ℕ
  pub access_proof_hash : String

pub data Status : Type 0 where
  active pending_upload : Status
  ended : Outcome → Status

pub record ManagementStatus : Type 0 where
  pub id : String
  pub status : Status
  pub expires_at : ℕ
  pub can_cancel : Bool

-- The fields of Store. Object storage and outbox may be absent.
pub record Store : Type 0 where
  pub payload_inline_max_bytes : ℕ
  pub max_object_bytes : ℕ
  pub presign_ttl : ℕ
  pub pending_ttl : ℕ
  pub min_ttl : ℕ
  pub max_ttl : ℕ
  pub has_objects : Bool
  pub has_outbox : Bool
  pub subject : String

-- encoding/json, encoding/base64 (standard, and raw URL for tokens) and crypto/sha256.
pub record Library : Type 0 where
  pub marshal_kdf : KdfParams → String
  pub unmarshal_kdf : String → Option KdfParams
  pub marshal_event : JobEvent → String
  pub decode_base64 : String → Option Bytes
  pub encode_token : Bytes → String
  pub decode_token : String → Option Bytes
  pub sha256 : Bytes → Bytes

-- What NewJobID returns, and the readings of the caller's clock and of the outbox's when the job is
-- enqueued.
pub record NewJob : Type 0 where
  pub id : Option String
  pub requested_at : ℕ
  pub enqueued_at : ℕ

abbrev pub second : ℕ
second = 1000000000

-- What Revoke returns with no error or with ErrNotCancellable.
pub data Revocation : Type 0 where
  revoked refused : ManagementStatus → Revocation

-- storage.ErrInvalidCursor, and any other error of a listing.
pub data ListError : Type 0 where
  invalid_cursor list_failed : ListError

pub record ObjectPage : Type 0 where
  pub keys : List String
  pub next_cursor : String

-- A driver that fails no statement.
abbrev pub no_faults : Stmt → Bool
no_faults s = false

-- ===== src/Secrets/Tables.antt =====
-- internal/db/migrations.go: the tables that internal/secrets reads and writes, and the writes of its SQL
-- statements. A time is stored as text that parses back to the same time, in an order of texts
-- that is the order of times, and is a number here. The worker's tables stand in Worker.Tables.
use flick_drop.Base.{
  ℕ, String, Bool, true, false, not, Option, none, some, List, [], string_eq, find, insert, erase,
}
use flick_drop.Outbox.{OutboxRecord}

pub data StorageBackend : Type 0 where
  sqlite_blob s3_object : StorageBackend

pub data State : Type 0 where
  active pending_upload : State

pub data Outcome : Type 0 where
  opened locked cancelled unavailable : Outcome

-- A row of `secrets`, but its id.
pub record SecretRow : Type 0 where
  pub kind : String
  pub storage_backend : StorageBackend
  pub storage_key : String
  pub access_kdf_params_json : Option String
  pub access_proof_hash : Option String
  pub wrapped_identity : Option String
  pub encrypted_filename : Option String
  pub content_type : Option String
  pub size_bytes : ℕ
  pub max_views : ℕ
  pub view_count : ℕ
  pub failed_access_count : ℕ
  pub state : State
  pub expires_at : ℕ
  pub consumed_at : Option ℕ
  pub created_at : ℕ
  pub updated_at : ℕ
  pub reclaim_enqueued_at : Option ℕ

-- A row of `secret_management`.
pub record ManagementRow : Type 0 where
  pub token_hash : List ℕ
  pub expires_at : ℕ
  pub outcome : Option Outcome

-- The row of `object_reconciliation_cursor`.
pub record Cursor : Type 0 where
  pub continuation_token : String
  pub generation : ℕ

-- The tables under their primary keys; a payload is a ciphertext.
pub record Db : Type 0 where
  pub secrets : List (String × SecretRow)
  pub payloads : List (String × List ℕ)
  pub managements : List (String × ManagementRow)
  pub outbox : List (String × OutboxRecord)
  pub pending : List (String × String)
  pub cursor : Cursor

abbrev pub is_some {ℓ} : {A : Type ℓ} → Option A → Bool
is_some none = false
is_some (some a) = true

abbrev pub is_s3 : StorageBackend → Bool
is_s3 sqlite_blob = false
is_s3 s3_object = true

abbrev pub is_pending : State → Bool
is_pending active = false
is_pending pending_upload = true

-- The rows that the statements' conditions pick: `consumed_at is null`, `state='pending_upload'`.
abbrev pub is_unconsumed : Option SecretRow → Bool
is_unconsumed none = false
is_unconsumed (some r) = not (is_some r.consumed_at)

abbrev pub is_awaiting : Option SecretRow → Bool
is_awaiting none = false
is_awaiting (some r) = is_pending r.state

-- An update of the row of an id, if there is one.
unfoldable pub update_secret : String → (SecretRow → SecretRow) → Db → Db
update_secret id f d = elim (find id d.secrets) [
  | none ↦ d
  | some r ↦ record d { secrets = insert id (f r) d.secrets }
]

unfoldable pub insert_secret : String → SecretRow → Db → Db
insert_secret id r d = record d { secrets = insert id r d.secrets }

unfoldable pub insert_payload : String → List ℕ → Db → Db
insert_payload id ciphertext d = record d { payloads = insert id ciphertext d.payloads }

unfoldable pub delete_payload : String → Db → Db
delete_payload id d = record d { payloads = erase id d.payloads }

-- The foreign key of `secret_payloads` deletes the payload with its secret.
unfoldable pub delete_secret_row : String → Db → Db
delete_secret_row id d = record d { secrets = erase id d.secrets; payloads = erase id d.payloads }

unfoldable pub insert_management : String → ManagementRow → Db → Db
insert_management id m d = record d { managements = insert id m d.managements }

-- `set outcome = ? where secret_id = ? and outcome is null`
abbrev pub first_outcome : Outcome → Option Outcome → Option Outcome
first_outcome o none = some o
first_outcome o (some p) = some p

unfoldable pub set_outcome : String → Outcome → Db → Db
set_outcome id o d = elim (find id d.managements) [
  | none ↦ d
  | some m ↦ record d {
    managements = insert id (record m { outcome = first_outcome o m.outcome }) d.managements;
  }
]

unfoldable pub insert_job : String → OutboxRecord → Db → Db
insert_job job_id r d = record d { outbox = insert job_id r d.outbox }

-- The tables that the migrations create.
unfoldable pub empty_db : Db
empty_db = record {
  secrets = [];
  payloads = [];
  managements = [];
  outbox = [];
  pending = [];
  cursor = record { continuation_token = ""; generation = 0 };
}

-- ===== src/Secrets/Access.antt =====
-- internal/secrets/store.go: recordFailedAccessTx, with recordManagementOutcomeTx of management.go and
-- EnqueueTx of internal/events/outbox.go.
use flick_drop.Base.{ℕ, suc, String, ◌&&◌, Option, none, some, string_eq, leb, if◌then◌else◌, find}
use flick_drop.Sql.{
  Result, ok, err, Faults, Tx, ◌>>=◌, ◌>>◌, pure, throw, lift, query, exec, require, when,
  insert_new, update_row,
}
use flick_drop.Jobs.{JobEvent, InvalidEvent, job_json, delete_oci_object}
use flick_drop.Outbox.{new_record}
use flick_drop.Secrets.Tables.{
  StorageBackend, sqlite_blob, s3_object, Outcome, locked, SecretRow, Db, is_some, is_unconsumed,
  update_secret, delete_payload, set_outcome, insert_job,
}
use flick_drop.Secrets.Types.{
  Error, consumed, failure, Stmt, read_affected, count_failure, load_count, record_outcome,
  delete_body, insert_event, Store, Library, NewJob,
}

abbrev pub max_failed_access_attempts : ℕ
max_failed_access_attempts = 5

-- The row after a wrong proof: at the limit it is consumed.
unfoldable pub failed_access : ℕ → SecretRow → SecretRow
failed_access now r = record r {
  failed_access_count = suc r.failed_access_count;
  consumed_at =
      if leb max_failed_access_attempts (suc r.failed_access_count)
      then some now
      else r.consumed_at;
  updated_at = now;
}

abbrev pub require_row : Option SecretRow → Tx Error Db SecretRow
require_row none = throw failure
require_row (some r) = pure r

-- The errors of an event are none of the store's.
abbrev pub of_event : Result InvalidEvent String → Result Error String
of_event (ok payload) = ok payload
of_event (err e) = err failure

module _ (lib : Library) (fails : Faults Stmt) (store : Store) where
  -- recordManagementOutcomeTx
  abbrev pub record_management_outcome : String → Outcome → Tx Error Db (Unit {0})
  record_management_outcome id o = exec (fails record_outcome) failure (set_outcome id o)

  -- EnqueueTx
  unfoldable pub enqueue_event : JobEvent → ℕ → Tx Error Db (Unit {0})
  unfolding job_json new_record
  enqueue_event e now = do
    payload ← lift (of_event (job_json lib.marshal_event e))
    insert_new (fails insert_event) failure (λ d. is_some (find e.job_id d.outbox))
        (insert_job e.job_id (new_record store.subject payload now))

  -- A job for the deletion of an object.
  unfoldable pub enqueue_object_delete : String → String → ℕ → NewJob → Tx Error Db (Unit {0})
  unfolding enqueue_event
  enqueue_object_delete key reason now job = elim job.id [
    | none ↦ throw failure
    | some job_id ↦
        enqueue_event
          (record {
            job_id = job_id;
            kind = delete_oci_object;
            secret_id = "";
            object_key = key;
            reason = reason;
            requested_at = some now;
          })
          job.enqueued_at
  ]

  -- What becomes of a locked secret's body. With no outbox the object is deleted at once, and whether
  -- that worked is ignored.
  unfoldable pub purge_locked :
      String → StorageBackend → String → ℕ → NewJob → Tx Error Db (Unit {0})
  unfolding enqueue_object_delete
  purge_locked id sqlite_blob key now job = exec (fails delete_body) failure (delete_payload id)
  purge_locked id s3_object key now job =
      when store.has_outbox (enqueue_object_delete key "consumed" now job)

  -- recordFailedAccessTx
  unfoldable pub record_failed_access :
      String → StorageBackend → String → ℕ → NewJob → Tx Error Db (Unit {0})
  unfolding failed_access purge_locked
  record_failed_access id backend key now job = do
    matched ←
        update_row (fails count_failure) failure (λ d. is_unconsumed (find id d.secrets))
          (update_secret id (failed_access now))
    exec (fails read_affected) failure (λ d. d)
    require matched consumed
    row ← query (fails load_count) failure (λ d. find id d.secrets)
    r ← require_row row
    when (leb max_failed_access_attempts r.failed_access_count && is_some r.consumed_at)
        (do record_management_outcome id locked; purge_locked id backend key now job)

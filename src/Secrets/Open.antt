-- ===== src/Secrets/Open.antt =====
-- internal/secrets/store.go: OpenTx and openBody; internal/httpapi/secrets.go: openAndEnqueueCleanup and
-- enqueueOpenedObjectCleanup. An object that the store's Open answers with is its body and its
-- length.
use flick_drop.Base.{
  ℕ, suc, String, Bool, true, false, not, ◌&&◌, Option, none, some, ◌==◌, string_eq, ltb, nat_beq,
  if◌then◌else◌, find,
}
use flick_drop.Sql.{
  Result, ok, err, Faults, Tx, ◌>>=◌, ◌>>◌, pure, throw, lift, query, transact, exec, commit,
  require, when, update_row,
}
use flick_drop.Jobs.{delete_secret}
use flick_drop.Secrets.Tables.{opened, SecretRow, Db, is_some, is_s3, is_unconsumed, update_secret}
use flick_drop.Secrets.Types.{
  Bytes, Error, not_found, consumed, expired, invalid_access, failure, Stmt, begin_tx, commit_tx,
  read_affected, load_secret, mark_row, Secret, Store, Library, NewJob,
}
use flick_drop.Secrets.Load.{load_row}
use flick_drop.Secrets.Access.{
  enqueue_event, enqueue_object_delete, record_failed_access, record_management_outcome,
}

-- The row after an opening.
unfoldable pub viewed : ℕ → SecretRow → SecretRow
viewed now r = record r { view_count = suc r.view_count; consumed_at = some now; updated_at = now }

abbrev pub is_invalid_access : Error → Bool
is_invalid_access invalid_access = true
is_invalid_access _ = false

module _ (lib : Library) (fails : Faults Stmt) (store : Store) where
  -- A secret with an access proof asks for the same one.
  unfoldable pub check_access : String → String → ℕ → NewJob → Secret → Tx Error Db (Unit {0})
  unfolding record_failed_access
  check_access id proof now job s =
      when (not (s.access_proof_hash == "") && not (s.access_proof_hash == proof)) (do
        record_failed_access lib fails store id s.storage_backend s.storage_key now job
        throw invalid_access)

  abbrev pub object_body : ℕ → Option (Bytes × ℕ) → Result Error (Option Bytes)
  object_body n none = err failure
  object_body n (some (body, size)) = if nat_beq size n then ok (some body) else err failure

  -- openBody
  unfoldable pub open_body : Option (Bytes × ℕ) → Secret → Result Error (Option Bytes)
  open_body object s =
      if not (is_s3 s.storage_backend)
      then ok none
      else if not store.has_objects
      then err not_found
      else object_body s.size_bytes object

  -- The last part: the secret is consumed.
  unfoldable pub mark_opened : String → ℕ → Secret → Tx Error Db Secret
  unfolding viewed
  mark_opened id now s = do
    matched ←
        update_row (fails mark_row) failure (λ d. is_unconsumed (find id d.secrets))
          (update_secret id (viewed now))
    exec (fails read_affected) failure (λ d. d)
    require matched consumed
    record_management_outcome lib fails store id opened
    pure s

  unfoldable pub open_live :
      String → String → ℕ → Option (Bytes × ℕ) → ℕ → NewJob → Secret → Tx Error Db Secret
  unfolding check_access open_body mark_opened
  open_live id proof now object now_after job s = do
    check_access id proof now job s
    body ← lift (open_body object s)
    require (ltb now_after s.expires_at) expired
    mark_opened id now_after (record s { body = body })

  -- OpenTx: `object` is what the object store answers, between two readings of the clock.
  unfoldable pub open_tx :
      String → String → ℕ → Option (Bytes × ℕ) → ℕ → NewJob → Tx Error Db Secret
  unfolding open_live load_row
  open_tx id proof now object now_after job = do
    require (not (id == "")) not_found
    loaded ←
        query (fails load_secret) failure
          (λ d. load_row lib id (find id d.secrets) (find id d.payloads))
    p ← lift loaded
    require (not (is_some p.1)) consumed
    require (ltb now p.0.expires_at) expired
    open_live id proof now object now_after job p.0

  -- A wrong proof is counted, and any other error undone.
  abbrev pub after_failure : Error → Tx Error Db Secret
  after_failure e = do when (is_invalid_access e) (commit (fails commit_tx) failure); throw e

  abbrev pub after_open : String → String → NewJob → Secret → Tx Error Db Secret
  after_open id job_id job s = do
    enqueue_event lib fails store
        (record {
          job_id = job_id;
          kind = delete_secret;
          secret_id = id;
          object_key = "";
          reason = "consumed";
          requested_at = some job.requested_at;
        })
        job.enqueued_at
    commit (fails commit_tx) failure
    pure s

  abbrev pub conclude : String → String → NewJob → Result Error Secret → Tx Error Db Secret
  conclude id job_id job (err e) = after_failure e
  conclude id job_id job (ok s) = after_open id job_id job s

  unfoldable pub open_cleanup_tx :
      String → String → ℕ → Option (Bytes × ℕ) → ℕ → NewJob → String → NewJob → Tx Error Db Secret
  unfolding open_tx enqueue_event
  open_cleanup_tx id proof now object now_after lock_job job_id job t =
      let (r, u) = open_tx id proof now object now_after lock_job t in conclude id job_id job r u

  abbrev pub open_with :
      String
      → String
      → ℕ
      → Option (Bytes × ℕ)
      → ℕ
      → NewJob
      → Option String
      → NewJob
      → Db
      → Result Error Secret × Db
  open_with id proof now object now_after lock_job none job d = (err failure, d)
  open_with id proof now object now_after lock_job (some job_id) job d =
      transact (fails begin_tx) failure
        (open_cleanup_tx id proof now object now_after lock_job job_id job) d

  -- openAndEnqueueCleanup: `lock_job` is for the object of a secret that is locked, `job` for the body of
  -- one that is opened.
  unfoldable pub open_and_enqueue_cleanup :
      String → String → ℕ → Option (Bytes × ℕ) → ℕ → NewJob → NewJob → Db → Result Error Secret × Db
  unfolding open_cleanup_tx
  open_and_enqueue_cleanup id proof now object now_after lock_job job d =
      if not store.has_outbox
      then (err failure, d)
      else open_with id proof now object now_after lock_job job.id job d

  unfoldable pub opened_cleanup_tx : String → NewJob → Tx Error Db (Unit {0})
  unfolding enqueue_object_delete
  opened_cleanup_tx key job = do
    enqueue_object_delete lib fails store key "consumed" job.requested_at job
    commit (fails commit_tx) failure

  -- enqueueOpenedObjectCleanup
  unfoldable pub enqueue_opened_object_cleanup : String → NewJob → Db → Result Error (Unit {0}) × Db
  unfolding opened_cleanup_tx
  enqueue_opened_object_cleanup key job d =
      transact (fails begin_tx) failure (opened_cleanup_tx key job) d

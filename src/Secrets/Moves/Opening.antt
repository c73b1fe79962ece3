-- ===== src/Secrets/Moves/Opening.antt =====
-- The operations that open, revoke, reap and reconcile secrets make only moves.
use flick_drop.Base.{ℕ, String, Bool, Option, none, some, string_eq, not}
use flick_drop.Sql.{Faults, TxState, Result, ok, err}
use flick_drop.Sql.Keeps.{Keeps, Holds, keeps_rules, transact-Keeps, if-keeps}
use flick_drop.Jobs.{JobEvent}
use flick_drop.Outbox.{OutboxRecord}
use flick_drop.Secrets.Tables.{SecretRow, Db, StorageBackend, sqlite_blob, s3_object, insert_job}
use flick_drop.Secrets.Types.{Bytes, Error, Stmt, Secret, Store, Library, NewJob, failure}
use flick_drop.Secrets.Access.{
  enqueue_event, enqueue_object_delete, purge_locked, record_failed_access, require_row,
}
use flick_drop.Secrets.Open.{
  check_access, mark_opened, open_live, open_tx, open_cleanup_tx, open_and_enqueue_cleanup,
  enqueue_opened_object_cleanup, after_failure, after_open, conclude, open_with, opened_cleanup_tx,
}
use flick_drop.Secrets.Moves.{Move, IsClosed}

module _ (may_create : String → Bool) (P : Db → Type 0) (closed : IsClosed may_create P)
    (fails : Faults Stmt) (lib : Library) (store : Store) where
  insert_job-closed : (id : String) (r : OutboxRecord) (d : Db) → P d → P (insert_job id r d)
  unfolding insert_job
  insert_job-closed id r d p = closed d _ (Move.queues _ d) p

  enqueue_event-Keeps : (e : JobEvent) (now : ℕ) → Keeps P (enqueue_event lib fails store e now)
  unfolding enqueue_event
  enqueue_event-Keeps e now = search (keeps_rules, insert_job-closed)

  pub enqueue_object_delete-Keeps :
      (key reason : String) (now : ℕ) (job : NewJob)
      → Keeps P (enqueue_object_delete lib fails store key reason now job)
  unfolding enqueue_object_delete
  enqueue_object_delete-Keeps key reason now job = go job.id
    where
      go :
          (o : Option String)
          → Keeps P (enqueue_object_delete lib fails store key reason now (record job { id = o }))
      go none = search keeps_rules
      go (some id) = search (keeps_rules, enqueue_event-Keeps)

  pub require_row-Keeps : (o : Option SecretRow) → Keeps P (require_row o)
  require_row-Keeps none = search keeps_rules
  require_row-Keeps (some r) = search keeps_rules

  purge_locked-Keeps :
      (id : String) (b : StorageBackend) (key : String) (now : ℕ) (job : NewJob)
      → Keeps P (purge_locked lib fails store id b key now job)
  unfolding purge_locked
  purge_locked-Keeps id sqlite_blob key now job = search (keeps_rules, closed, Move.deletes_body)
  purge_locked-Keeps id s3_object key now job = search (keeps_rules, enqueue_object_delete-Keeps)

  record_failed_access-Keeps :
      (id : String) (b : StorageBackend) (key : String) (now : ℕ) (job : NewJob)
      → Keeps P (record_failed_access lib fails store id b key now job)
  unfolding record_failed_access
  record_failed_access-Keeps id b key now job =
      search (keeps_rules, closed, Move.counts, Move.settles, require_row-Keeps, purge_locked-Keeps)
        depth 12

  check_access-Keeps :
      (id proof : String) (now : ℕ) (job : NewJob) (s : Secret)
      → Keeps P (check_access lib fails store id proof now job s)
  unfolding check_access
  check_access-Keeps id proof now job s = search (keeps_rules, record_failed_access-Keeps)

  mark_opened-Keeps :
      (id : String) (now : ℕ) (s : Secret) → Keeps P (mark_opened lib fails store id now s)
  unfolding mark_opened
  mark_opened-Keeps id now s = search (keeps_rules, closed, Move.views, Move.settles) depth 9

  open_live-Keeps :
      (id proof : String) (now : ℕ) (object : Option (Bytes × ℕ)) (after : ℕ) (job : NewJob)
      (s : Secret)
      → Keeps P (open_live lib fails store id proof now object after job s)
  unfolding open_live
  open_live-Keeps id proof now object after job s =
      search (keeps_rules, mark_opened-Keeps, check_access-Keeps) depth 9

  open_tx-Keeps :
      (id proof : String) (now : ℕ) (object : Option (Bytes × ℕ)) (after : ℕ) (job : NewJob)
      → Keeps P (open_tx lib fails store id proof now object after job)
  unfolding open_tx
  open_tx-Keeps id proof now object after job = search (keeps_rules, open_live-Keeps) depth 9

  open_cleanup_tx-Keeps :
      (id proof : String) (now : ℕ) (object : Option (Bytes × ℕ)) (after : ℕ) (lock : NewJob)
      (job_id : String) (job : NewJob)
      → Keeps P (open_cleanup_tx lib fails store id proof now object after lock job_id job)
  unfolding open_cleanup_tx
  open_cleanup_tx-Keeps id proof now object after lock job_id job = record {
    at = λ s h.
        go (open_tx lib fails store id proof now object after lock s)
          ((open_tx-Keeps id proof now object after lock).at s h);
  }
    where
      failed : (e : Error) → Keeps P (after_failure lib fails store e)
      failed e = search keeps_rules

      opened : (s : Secret) → Keeps P (after_open lib fails store id job_id job s)
      opened s = search (keeps_rules, enqueue_event-Keeps)

      go :
          (p : Result Error Secret × TxState Db)
          → Holds P p.1
          → Holds P (conclude lib fails store id job_id job p.0 p.1).1
      go (ok s, t) h = (opened s).at t h
      go (err e, t) h = (failed e).at t h

  pub open-keeps :
      (id proof : String) (now : ℕ) (object : Option (Bytes × ℕ)) (after : ℕ) (lock job : NewJob)
      (d : Db)
      → P d
      → P (open_and_enqueue_cleanup lib fails store id proof now object after lock job d).1
  unfolding open_and_enqueue_cleanup
  open-keeps id proof now object after lock job d p =
      if-keeps P (not store.has_outbox) (err failure, d)
        (open_with lib fails store id proof now object after lock job.id job d) p (go job.id)
    where
      go :
          (o : Option String)
          → P (open_with lib fails store id proof now object after lock o job d).1
      go none = p
      go (some job_id) =
          transact-Keeps _ _ _ d (open_cleanup_tx-Keeps id proof now object after lock job_id job) p

  opened_cleanup_tx-Keeps :
      (key : String) (job : NewJob) → Keeps P (opened_cleanup_tx lib fails store key job)
  unfolding opened_cleanup_tx
  opened_cleanup_tx-Keeps key job = search (keeps_rules, enqueue_object_delete-Keeps)

  pub enqueue_opened-keeps :
      (key : String) (job : NewJob) (d : Db)
      → P d
      → P (enqueue_opened_object_cleanup lib fails store key job d).1
  unfolding enqueue_opened_object_cleanup
  enqueue_opened-keeps key job d p = transact-Keeps _ _ _ d (opened_cleanup_tx-Keeps key job) p

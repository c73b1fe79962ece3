-- ===== src/Secrets/Undone/Opening.antt =====
-- OpenTx, Revoke, the reaper's claim and the reconciliation commit nothing when they fail.
use flick_drop.Base.{
  ℕ, ◌+◌, refl, String, Bool, true, false, Option, none, some, List, [], ◌∷◌, string_eq,
}
use flick_drop.Sql.{Faults, Result}
use flick_drop.Sql.Atomic.{
  Quiet, Quiet-bind, Quiet-then, Quiet-pure, Atomic, quiet_rules, atomic_rules,
}
use flick_drop.Jobs.{JobEvent}
use flick_drop.Outbox.{OutboxRecord}
use flick_drop.Secrets.Tables.{SecretRow, StorageBackend, sqlite_blob, s3_object}
use flick_drop.Secrets.Types.{
  Bytes, Error, Stmt, Store, Library, NewJob, Secret, ManagementStatus, ObjectPage,
}
use flick_drop.Secrets.Access.{
  enqueue_event, enqueue_object_delete, purge_locked, record_failed_access, require_row,
}
use flick_drop.Secrets.Open.{
  check_access, mark_opened, open_live, open_tx, opened_cleanup_tx, after_open,
}
use flick_drop.Secrets.Manage.{
  token_bytes, management_with, management_tx, revoke_object, revoke_claimed, revoke_if,
  revoke_live, revoke_with, revoke_tx, purge_management,
}
use flick_drop.Secrets.Reaper.{reclaim, reclaim_row, reclaim_rows, claim_chosen, claim_tx}
use flick_drop.Secrets.Reconcile.{
  protect_object, claim_new, claim_with, claim_unless, reconcile_key, reconcile_keys,
  reconcile_page, reconcile_tx,
}

module _ (lib : Library) (fails : Faults Stmt) (store : Store) where
  enqueue_event-Quiet : (e : JobEvent) (now : ℕ) → Quiet (enqueue_event lib fails store e now)
  unfolding enqueue_event
  enqueue_event-Quiet e now = search quiet_rules

  enqueue_object_delete-Quiet :
      (key reason : String) (now : ℕ) (job : NewJob)
      → Quiet (enqueue_object_delete lib fails store key reason now job)
  unfolding enqueue_object_delete
  enqueue_object_delete-Quiet key reason now job = go job.id
    where
      go :
          (o : Option String)
          → Quiet (enqueue_object_delete lib fails store key reason now (record job { id = o }))
      go none = search quiet_rules
      go (some id) = search (quiet_rules, enqueue_event-Quiet)

  require_row-Quiet : (o : Option SecretRow) → Quiet (require_row o)
  require_row-Quiet none = search quiet_rules
  require_row-Quiet (some r) = search quiet_rules

  purge_locked-Quiet :
      (id : String) (b : StorageBackend) (key : String) (now : ℕ) (job : NewJob)
      → Quiet (purge_locked lib fails store id b key now job)
  unfolding purge_locked
  purge_locked-Quiet id sqlite_blob key now job = search quiet_rules
  purge_locked-Quiet id s3_object key now job = search (quiet_rules, enqueue_object_delete-Quiet)

  record_failed_access-Quiet :
      (id : String) (b : StorageBackend) (key : String) (now : ℕ) (job : NewJob)
      → Quiet (record_failed_access lib fails store id b key now job)
  unfolding record_failed_access
  record_failed_access-Quiet id b key now job =
      search (quiet_rules, require_row-Quiet, purge_locked-Quiet) depth 12

  check_access-Quiet :
      (id proof : String) (now : ℕ) (job : NewJob) (s : Secret)
      → Quiet (check_access lib fails store id proof now job s)
  unfolding check_access
  check_access-Quiet id proof now job s = search (quiet_rules, record_failed_access-Quiet)

  mark_opened-Quiet :
      (id : String) (now : ℕ) (s : Secret) → Quiet (mark_opened lib fails store id now s)
  unfolding mark_opened
  mark_opened-Quiet id now s = search quiet_rules depth 9

  open_live-Quiet :
      (id proof : String) (now : ℕ) (object : Option (Bytes × ℕ)) (after : ℕ) (job : NewJob)
      (s : Secret)
      → Quiet (open_live lib fails store id proof now object after job s)
  unfolding open_live
  open_live-Quiet id proof now object after job s =
      search (quiet_rules, mark_opened-Quiet, check_access-Quiet) depth 9

  pub open_tx-Quiet :
      (id proof : String) (now : ℕ) (object : Option (Bytes × ℕ)) (after : ℕ) (job : NewJob)
      → Quiet (open_tx lib fails store id proof now object after job)
  unfolding open_tx
  open_tx-Quiet id proof now object after job = search (quiet_rules, open_live-Quiet) depth 9

  pub after_open-Atomic :
      (id job_id : String) (job : NewJob) (s : Secret)
      → Atomic (after_open lib fails store id job_id job s)
  after_open-Atomic id job_id job s = search (atomic_rules, enqueue_event-Quiet)

  pub opened_cleanup_tx-Atomic :
      (key : String) (job : NewJob) → Atomic (opened_cleanup_tx lib fails store key job)
  unfolding opened_cleanup_tx
  opened_cleanup_tx-Atomic key job = search (atomic_rules, enqueue_object_delete-Quiet)

  management_tx-Quiet :
      (id token : String) (now : ℕ) → Quiet (management_tx lib fails store id token now)
  unfolding management_tx
  management_tx-Quiet id token now = go (token_bytes lib token)
    where
      go : (o : Option Bytes) → Quiet (management_with lib fails store id now o)
      go none = search quiet_rules
      go (some raw) = search quiet_rules

  revoke_object-Quiet : (r : SecretRow) (job : NewJob) → Quiet (revoke_object lib fails store r job)
  unfolding revoke_object
  revoke_object-Quiet r job = search (quiet_rules, enqueue_object_delete-Quiet)

  revoke_claimed-Atomic :
      (id : String) (r : SecretRow) (job : NewJob) (st : ManagementStatus)
      → Atomic (revoke_claimed lib fails store id r job st)
  unfolding revoke_claimed
  revoke_claimed-Atomic id r job st = search (atomic_rules, revoke_object-Quiet) depth 9 fits 5000

  revoke_if-Atomic :
      (b : Bool) (id : String) (r : SecretRow) (job : NewJob) (st : ManagementStatus)
      → Atomic (revoke_if lib fails store b id r job st)
  revoke_if-Atomic true id r job st = revoke_claimed-Atomic id r job st
  revoke_if-Atomic false id r job st = record { at = λ s. tt }

  revoke_live-Atomic :
      (id token : String) (now : ℕ) (job : NewJob)
      → Atomic (revoke_live lib fails store id token now job)
  unfolding revoke_live
  revoke_live-Atomic id token now job =
      search (atomic_rules, require_row-Quiet, management_tx-Quiet, revoke_if-Atomic) depth 9

  revoke_with-Atomic :
      (b c : Bool) (id token : String) (now : ℕ) (job : NewJob) (st : ManagementStatus)
      → Atomic (revoke_with lib fails store b c id token now job st)
  revoke_with-Atomic true c id token now job st = record { at = λ s. tt }
  revoke_with-Atomic false false id token now job st = record { at = λ s. tt }
  revoke_with-Atomic false true id token now job st = revoke_live-Atomic id token now job

  pub revoke_tx-Atomic :
      (id token : String) (now again : ℕ) (job : NewJob)
      → Atomic (revoke_tx lib fails store id token now again job)
  unfolding revoke_tx
  revoke_tx-Atomic id token now again job =
      search (atomic_rules, management_tx-Quiet, revoke_with-Atomic)

  purge_management-Quiet : (now limit : ℕ) → Quiet (purge_management fails now limit)
  unfolding purge_management
  purge_management-Quiet now limit = search quiet_rules

  reclaim_row-Quiet :
      (now : ℕ) (job : NewJob) (id : String) (r : SecretRow)
      → Quiet (reclaim_row lib fails store now job id r)
  unfolding reclaim_row reclaim
  reclaim_row-Quiet now job id r = search (quiet_rules, enqueue_object_delete-Quiet) depth 12

  reclaim_rows-Quiet :
      (now : ℕ) (jobs : String → NewJob) (rows : List (String × SecretRow))
      → Quiet (reclaim_rows lib fails store now jobs rows)
  unfolding reclaim_rows
  reclaim_rows-Quiet now jobs [] = search quiet_rules
  reclaim_rows-Quiet now jobs ((id, r) ∷ rows) =
      Quiet-then (reclaim_row lib fails store now (jobs id) id r)
        (reclaim_rows lib fails store now jobs rows) (reclaim_row-Quiet now (jobs id) id r)
        (reclaim_rows-Quiet now jobs rows)

  pub claim_tx-Atomic :
      (purge : List (String × OutboxRecord) → Result Error (List (String × OutboxRecord)))
      (now batch : ℕ) (jobs : String → NewJob)
      → Atomic (claim_tx lib fails store purge now batch jobs)
  unfolding claim_tx claim_chosen
  claim_tx-Atomic purge now batch jobs =
      search (atomic_rules, reclaim_rows-Quiet, purge_management-Quiet) depth 14

  claim_unless-Quiet :
      (b : Bool) (key : String) (now : ℕ) (job : NewJob)
      → Quiet (claim_unless lib fails store b key now job)
  claim_unless-Quiet true key now job = record { at = λ s. refl }
  claim_unless-Quiet false key now job = go job.id
    where
      new : (b : Bool) → Quiet (claim_new lib fails store key now job b)
      new false = record { at = λ s. refl }
      new true = search (quiet_rules, enqueue_object_delete-Quiet)

      go : (o : Option String) → Quiet (claim_with lib fails store key now job o)
      go none = record { at = λ s. refl }
      go (some id) = search (quiet_rules, new) depth 9

  reconcile_key-Quiet :
      (key : String) (now : ℕ) (job : NewJob) → Quiet (reconcile_key lib fails store key now job)
  unfolding reconcile_key protect_object
  reconcile_key-Quiet key now job = search (quiet_rules, claim_unless-Quiet)

  reconcile_keys-Quiet :
      (keys : List String) (now : ℕ) (jobs : String → NewJob)
      → Quiet (reconcile_keys lib fails store keys now jobs)
  unfolding reconcile_keys
  reconcile_keys-Quiet [] now jobs = search quiet_rules
  reconcile_keys-Quiet (key ∷ keys) now jobs =
      Quiet-bind (reconcile_key lib fails store key now (jobs key)) _
        (reconcile_key-Quiet key now (jobs key))
        λ n.
          Quiet-bind (reconcile_keys lib fails store keys now jobs) _
            (reconcile_keys-Quiet keys now jobs) λ m. Quiet-pure (n + m)

  reconcile_page-Atomic :
      (b : Bool) (page : ObjectPage) (now : ℕ) (jobs : String → NewJob)
      → Atomic (reconcile_page lib fails store b page now jobs)
  reconcile_page-Atomic false page now jobs = record { at = λ s. tt }
  reconcile_page-Atomic true page now jobs = search (atomic_rules, reconcile_keys-Quiet)

  pub reconcile_tx-Atomic :
      (page : ObjectPage) (generation now : ℕ) (jobs : String → NewJob)
      → Atomic (reconcile_tx lib fails store page generation now jobs)
  unfolding reconcile_tx
  reconcile_tx-Atomic page generation now jobs =
      search (atomic_rules, reconcile_page-Atomic) depth 9

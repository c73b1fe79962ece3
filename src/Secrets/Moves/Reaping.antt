-- ===== src/Secrets/Moves/Reaping.antt =====
-- Revoke and the reaper's claim make only moves.
use flick_drop.Base.{
  ℕ, String, Bool, true, false, Option, none, some, List, [], ◌∷◌, if◌then◌else◌, string_eq, find,
}
use flick_drop.Sql.{Faults, Result}
use flick_drop.Sql.Keeps.{Keeps, keeps_rules, Keeps-then, transact-Keeps}
use flick_drop.Outbox.{OutboxRecord}
use flick_drop.Secrets.Tables.{SecretRow, ManagementRow, Db, delete_secret_row}
use flick_drop.Secrets.Types.{Bytes, Error, Stmt, Store, Library, NewJob, ManagementStatus}
use flick_drop.Secrets.Access.{enqueue_object_delete, require_row}
use flick_drop.Secrets.Manage.{
  token_bytes, management_with, management_tx, revoke_object, revoke_claimed, revoke_if,
  revoke_live, revoke_with, revoke_tx, revoke, delete_consumed, delete_managements,
  purge_management, is_consumed_row,
}
use flick_drop.Secrets.Reaper.{
  claim_all, reclaim, reclaim_row, reclaim_rows, claim_chosen, claim_tx, claim_expired,
}
use flick_drop.Secrets.Moves.{Move, IsClosed}
use flick_drop.Secrets.Moves.Opening.{enqueue_object_delete-Keeps, require_row-Keeps}

module _ (may_create : String → Bool) (P : Db → Type 0) (closed : IsClosed may_create P)
    (fails : Faults Stmt) (lib : Library) (store : Store) where
  enqueues :
      (key reason : String) (now : ℕ) (job : NewJob)
      → Keeps P (enqueue_object_delete lib fails store key reason now job)
  enqueues = enqueue_object_delete-Keeps may_create P closed fails lib store

  management_tx-Keeps :
      (id token : String) (now : ℕ) → Keeps P (management_tx lib fails store id token now)
  unfolding management_tx
  management_tx-Keeps id token now = go (token_bytes lib token)
    where
      go : (o : Option Bytes) → Keeps P (management_with lib fails store id now o)
      go none = search keeps_rules
      go (some raw) = search keeps_rules

  reads_row : (o : Option SecretRow) → Keeps P (require_row o)
  reads_row = require_row-Keeps may_create P closed fails lib store

  revoke_claimed-Keeps :
      (id : String) (r : SecretRow) (job : NewJob) (st : ManagementStatus)
      → Keeps P (revoke_claimed lib fails store id r job st)
  unfolding revoke_claimed revoke_object
  revoke_claimed-Keeps id r job st =
      search (keeps_rules, closed, Move.deletes, Move.settles, enqueues) depth 14

  revoke_if-Keeps :
      (b : Bool) (id : String) (r : SecretRow) (job : NewJob) (st : ManagementStatus)
      → Keeps P (revoke_if lib fails store b id r job st)
  revoke_if-Keeps true id r job st = revoke_claimed-Keeps id r job st
  revoke_if-Keeps false id r job st = record { at = λ s h. h }

  revoke_live-Keeps :
      (id token : String) (now : ℕ) (job : NewJob)
      → Keeps P (revoke_live lib fails store id token now job)
  unfolding revoke_live
  revoke_live-Keeps id token now job =
      search (keeps_rules, reads_row, management_tx-Keeps, revoke_if-Keeps) depth 9

  revoke_with-Keeps :
      (b c : Bool) (id token : String) (now : ℕ) (job : NewJob) (st : ManagementStatus)
      → Keeps P (revoke_with lib fails store b c id token now job st)
  revoke_with-Keeps true c id token now job st = search keeps_rules
  revoke_with-Keeps false false id token now job st = search keeps_rules
  revoke_with-Keeps false true id token now job st = revoke_live-Keeps id token now job

  revoke_tx-Keeps :
      (id token : String) (now again : ℕ) (job : NewJob)
      → Keeps P (revoke_tx lib fails store id token now again job)
  unfolding revoke_tx
  revoke_tx-Keeps id token now again job =
      search (keeps_rules, management_tx-Keeps, revoke_with-Keeps)

  pub revoke-keeps :
      (id token : String) (now again : ℕ) (job : NewJob) (d : Db)
      → P d
      → P (revoke lib fails store id token now again job d).1
  unfolding revoke
  revoke-keeps id token now again job d p =
      transact-Keeps _ _ _ d (revoke_tx-Keeps id token now again job) p

  delete_consumed-closed :
      (rows : List (String × ManagementRow)) (d : Db) → P d → P (delete_consumed rows d)
  unfolding delete_consumed
  delete_consumed-closed [] d p = p
  delete_consumed-closed ((id, m) ∷ rows) d p =
      delete_consumed-closed rows _ (go (is_consumed_row (find id d.secrets)))
    where
      go : (b : Bool) → P (if b then delete_secret_row id d else d)
      go true = closed d _ (Move.deletes id d) p
      go false = p

  delete_managements-closed :
      (rows : List (String × ManagementRow)) (d : Db) → P d → P (delete_managements rows d)
  unfolding delete_managements
  delete_managements-closed [] d p = p
  delete_managements-closed ((id, m) ∷ rows) d p =
      delete_managements-closed rows _ (closed d _ (Move.deletes_management id d) p)

  purge_management-Keeps : (now limit : ℕ) → Keeps P (purge_management fails now limit)
  unfolding purge_management
  purge_management-Keeps now limit =
      search (keeps_rules, delete_consumed-closed, delete_managements-closed)

  claim_all-closed :
      (now : ℕ) (rows : List (String × SecretRow)) (d : Db) → P d → P (claim_all now rows d)
  unfolding claim_all
  claim_all-closed now [] d p = p
  claim_all-closed now ((id, r) ∷ rows) d p =
      claim_all-closed now rows _ (closed d _ (Move.claims id now d) p)

  reclaim-Keeps : (id : String) → Keeps P (reclaim fails id)
  unfolding reclaim
  reclaim-Keeps id = search (keeps_rules, closed, Move.deletes, Move.deletes_body) depth 9

  reclaim_row-Keeps :
      (now : ℕ) (job : NewJob) (id : String) (r : SecretRow)
      → Keeps P (reclaim_row lib fails store now job id r)
  unfolding reclaim_row
  reclaim_row-Keeps now job id r =
      search (keeps_rules, closed, Move.settles, reclaim-Keeps, enqueues) depth 9

  reclaim_rows-Keeps :
      (now : ℕ) (jobs : String → NewJob) (rows : List (String × SecretRow))
      → Keeps P (reclaim_rows lib fails store now jobs rows)
  unfolding reclaim_rows
  reclaim_rows-Keeps now jobs [] = search keeps_rules
  reclaim_rows-Keeps now jobs ((id, r) ∷ rows) =
      Keeps-then (reclaim_row lib fails store now (jobs id) id r)
        (reclaim_rows lib fails store now jobs rows) (reclaim_row-Keeps now (jobs id) id r)
        (reclaim_rows-Keeps now jobs rows)

  module _
      (purge : List (String × OutboxRecord) → Result Error (List (String × OutboxRecord))) where
    claim_tx-Keeps :
        (now batch : ℕ) (jobs : String → NewJob)
        → Keeps P (claim_tx lib fails store purge now batch jobs)
    unfolding claim_tx claim_chosen
    claim_tx-Keeps now batch jobs =
        search
          (
            keeps_rules, closed, Move.queues, claim_all-closed, reclaim_rows-Keeps,
            purge_management-Keeps,
          )
          depth 14

    pub claim_expired-keeps :
        (now batch : ℕ) (jobs : String → NewJob) (d : Db)
        → P d
        → P (claim_expired lib fails store purge now batch jobs d).1
    unfolding claim_expired
    claim_expired-keeps now batch jobs d p =
        transact-Keeps _ _ _ d (claim_tx-Keeps now batch jobs) p

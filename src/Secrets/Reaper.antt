-- ===== src/Secrets/Reaper.antt =====
-- internal/secrets/reaper.go: claimExpired and reclaimRow, with ReclaimTx of store.go. The ids of the
-- new jobs are a function of the row's id. The part that deletes expired requests is an argument: what
-- it does to the outbox, the only one of these tables that it writes to.
use flick_drop.Base.{
  ℕ, ◌+◌, ◌/◌, String, Bool, false, not, ◌&&◌, ◌||◌, Option, none, some, List, [], ◌∷◌, ◌==◌,
  string_eq, leb, if◌then◌else◌, find, length,
}
use flick_drop.Sql.{
  Result, Faults, Tx, ◌>>=◌, ◌>>◌, pure, lift, query, transact, exec, commit, require, when,
  update_row,
}
use flick_drop.Outbox.{OutboxRecord}
use flick_drop.Secrets.Tables.{
  State, active, pending_upload, unavailable, SecretRow, Db, is_some, is_s3, is_pending,
  update_secret, delete_payload, delete_secret_row,
}
use flick_drop.Secrets.Types.{
  Error, not_found, failure, Stmt, begin_tx, commit_tx, delete_body, delete_row, claim_rows, Store,
  Library, NewJob, second,
}
use flick_drop.Secrets.Access.{record_management_outcome, enqueue_object_delete}
use flick_drop.Sql.Order.{sort_rows, take}
use flick_drop.Secrets.Manage.{purge_management}

-- Neither consumed nor claimed, and expired or waiting too long for its upload.
unfoldable pub is_reclaimable : ℕ → ℕ → SecretRow → Bool
is_reclaimable now pending_ttl r =
    not (is_some r.reclaim_enqueued_at)
    && not (is_some r.consumed_at)
    && (leb r.expires_at now || is_pending r.state && leb (r.created_at + pending_ttl) now)

-- The second since when a row could be reclaimed.
abbrev pub reclaimable_since : ℕ → SecretRow → ℕ
reclaimable_since pending_ttl r = elim r.state [
  | active ↦ r.expires_at / second
  | pending_upload ↦
      (if leb (r.expires_at / second) (r.created_at / second + pending_ttl / second)
        then r.expires_at / second
        else r.created_at / second + pending_ttl / second)
]

abbrev pub since_no_later : ℕ → String × SecretRow → String × SecretRow → Bool
since_no_later pending_ttl (i, r) (j, q) =
    leb (reclaimable_since pending_ttl r) (reclaimable_since pending_ttl q)

unfoldable pub reclaimable_rows : ℕ → ℕ → List (String × SecretRow) → List (String × SecretRow)
unfolding is_reclaimable
reclaimable_rows now pending_ttl [] = []
reclaimable_rows now pending_ttl ((id, r) ∷ rows) =
    if is_reclaimable now pending_ttl r
    then (id, r) ∷ reclaimable_rows now pending_ttl rows
    else reclaimable_rows now pending_ttl rows

-- The rows that the statement claims.
unfoldable pub claimable : ℕ → ℕ → ℕ → Db → List (String × SecretRow)
unfolding reclaimable_rows sort_rows take
claimable now pending_ttl batch d =
    take batch (sort_rows (since_no_later pending_ttl) (reclaimable_rows now pending_ttl d.secrets))

unfoldable pub claimed : ℕ → SecretRow → SecretRow
claimed now r = record r { reclaim_enqueued_at = some now; updated_at = now }

unfoldable pub claim_all : ℕ → List (String × SecretRow) → Db → Db
unfolding claimed
claim_all now [] d = d
claim_all now ((id, r) ∷ rows) d = claim_all now rows (update_secret id (claimed now) d)

abbrev pub is_claimed : Option SecretRow → Bool
is_claimed none = false
is_claimed (some r) = is_some r.reclaim_enqueued_at

abbrev pub reclaim_reason : State → String
reclaim_reason active = "expired"
reclaim_reason pending_upload = "orphan"

module _ (fails : Faults Stmt) where
  -- ReclaimTx
  unfoldable pub reclaim : String → Tx Error Db (Unit {0})
  reclaim id = do
    require (not (id == "")) not_found
    exec (fails delete_body) failure (delete_payload id)
    _ ←
        update_row (fails delete_row) failure (λ d. is_claimed (find id d.secrets))
          (delete_secret_row id)
    pure tt

module _ (lib : Library) (fails : Faults Stmt) (store : Store) where
  -- reclaimRow
  unfoldable pub reclaim_row : ℕ → NewJob → String → SecretRow → Tx Error Db (Unit {0})
  unfolding reclaim enqueue_object_delete
  reclaim_row now job id r = do
    when (is_pending r.state) (record_management_outcome lib fails store id unavailable)
    reclaim fails id
    when (is_s3 r.storage_backend)
        (enqueue_object_delete lib fails store r.storage_key (reclaim_reason r.state) now job)

  unfoldable pub reclaim_rows :
      ℕ → (String → NewJob) → List (String × SecretRow) → Tx Error Db (Unit {0})
  unfolding reclaim_row
  reclaim_rows now jobs [] = pure tt
  reclaim_rows now jobs ((id, r) ∷ rows) = do
    reclaim_row now (jobs id) id r
    reclaim_rows now jobs rows

  module _
      (purge_requests : List (String × OutboxRecord)
        → Result Error (List (String × OutboxRecord))) where
    -- What follows the choice of the rows.
    unfoldable pub claim_chosen :
        ℕ → ℕ → (String → NewJob) → List (String × SecretRow) → Tx Error Db ℕ
    unfolding claim_all reclaim_rows purge_management
    claim_chosen now batch jobs rows = do
      exec (fails claim_rows) failure (claim_all now rows)
      reclaim_rows now jobs rows
      purge_management fails now batch
      purged ← query false failure (λ d. purge_requests d.outbox)
      outbox ← lift purged
      exec false failure (λ d. record d { outbox = outbox })
      commit (fails commit_tx) failure
      pure (length rows)

    unfoldable pub claim_tx : ℕ → ℕ → (String → NewJob) → Tx Error Db ℕ
    unfolding claimable claim_chosen
    claim_tx now batch jobs = do
      rows ← query false failure (claimable now store.pending_ttl batch)
      claim_chosen now batch jobs rows

    -- claimExpired
    unfoldable pub claim_expired : ℕ → ℕ → (String → NewJob) → Db → Result Error ℕ × Db
    unfolding claim_tx
    claim_expired now batch jobs d = transact (fails begin_tx) failure (claim_tx now batch jobs) d

-- ===== src/Secrets/Reconcile.antt =====
-- internal/secrets/reconciliation.go: ReconcileOnce, protectObjectTx and AcknowledgeObjectCleanup. The
-- listing of the bucket and the new jobs' ids are arguments, and so is what other calls do to the
-- tables between the reading of the cursor and the transaction.
use text.Mathlib.Text.{starts_with}
use flick_drop.Base.{
  ℕ, suc, ◌+◌, String, Bool, true, false, not, ◌&&◌, ◌||◌, Option, none, some, List, [], ◌∷◌, ◌==◌,
  string_eq, ltb, nat_beq, if◌then◌else◌, find, insert, erase, length,
}
use flick_drop.Sql.{
  Result, ok, err, Faults, Tx, ◌>>=◌, ◌>>◌, pure, throw, query, transact, exec, commit, update_row,
}
use flick_drop.Jobs.{is_blank}
use flick_drop.Secrets.Tables.{State, active, pending_upload, SecretRow, Db, is_some, is_s3}
use flick_drop.Secrets.Types.{
  Error, invalid_input, failure, Stmt, begin_tx, commit_tx, read_affected, read_cursor,
  reset_cursor, advance_cursor, load_live, claim_object, clear_claim, Store, Library, NewJob,
  ListError, invalid_cursor, list_failed, ObjectPage,
}
use flick_drop.Secrets.Create.{managed_object_prefix}
use flick_drop.Secrets.Access.{enqueue_object_delete}
use flick_drop.Secrets.Manage.{open_object_grace}

unfoldable pub set_cursor : String → Db → Db
set_cursor token d = record d {
  cursor = record { continuation_token = token; generation = suc d.cursor.generation };
}

-- The row of an object that is not claimed by the reaper.
abbrev pub holds_object : String → SecretRow → Bool
holds_object key r =
    is_s3 r.storage_backend && r.storage_key == key && not (is_some r.reclaim_enqueued_at)

unfoldable pub find_object : String → List (String × SecretRow) → Option SecretRow
find_object key [] = none
find_object key ((id, r) ∷ rows) = if holds_object key r then some r else find_object key rows

-- Whether a row keeps its object.
abbrev pub is_kept : ℕ → ℕ → State → ℕ → Bool
is_kept now pending_ttl active created = true
is_kept now pending_ttl pending_upload created = ltb now (created + pending_ttl)

abbrev pub protects_until : ℕ → ℕ → SecretRow → Option ℕ → Bool
protects_until now pending_ttl r (some consumed) = ltb now (consumed + open_object_grace)
protects_until now pending_ttl r none =
    ltb now r.expires_at && is_kept now pending_ttl r.state r.created_at

unfoldable pub protects : ℕ → ℕ → Option SecretRow → Bool
protects now pending_ttl none = false
protects now pending_ttl (some r) = protects_until now pending_ttl r r.consumed_at

abbrev pub is_managed_key : String → Bool
is_managed_key key = starts_with key managed_object_prefix && not (key == managed_object_prefix)

-- A claim with the id of another claim's job.
unfoldable pub has_job : String → List (String × String) → Bool
has_job job_id [] = false
has_job job_id ((key, j) ∷ claims) = j == job_id || has_job job_id claims

unfoldable pub claim_key : String → String → Db → Db
claim_key key job_id d = record d { pending = insert key job_id d.pending }

abbrev pub is_unclaimed : String → String → Db → Bool
is_unclaimed key job_id d = not (is_some (find key d.pending)) && not (has_job job_id d.pending)

abbrev pub is_too_long : ℕ → ObjectPage → Bool
is_too_long limit page = ltb limit (length page.keys)

abbrev pub smaller : ℕ → ℕ → ℕ
smaller a b = if ltb b a then b else a

module _ (fails : Faults Stmt) (store : Store) where
  -- protectObjectTx
  unfoldable pub protect_object : String → ℕ → Tx Error Db Bool
  unfolding find_object protects
  protect_object key now =
      query (fails load_live) failure
        (λ d. protects now store.pending_ttl (find_object key d.secrets))

module _ (fails : Faults Stmt) where
  abbrev pub reset_listing : Bool → ℕ → Db → Db
  reset_listing false generation d = d
  reset_listing true generation d =
      if nat_beq d.cursor.generation generation && not (fails reset_cursor)
      then set_cursor "" d
      else d

module _ (lib : Library) (fails : Faults Stmt) (store : Store) where
  abbrev pub claim_new : String → ℕ → NewJob → Bool → Tx Error Db ℕ
  claim_new key now job false = pure 0
  claim_new key now job true = do enqueue_object_delete lib fails store key "orphan" now job; pure 1

  abbrev pub claim_with : String → ℕ → NewJob → Option String → Tx Error Db ℕ
  claim_with key now job none = throw failure
  claim_with key now job (some job_id) = do
    is_new ←
        update_row (fails claim_object) failure (is_unclaimed key job_id) (claim_key key job_id)
    exec (fails read_affected) failure (λ d. d)
    claim_new key now job is_new

  abbrev pub claim_unless : Bool → String → ℕ → NewJob → Tx Error Db ℕ
  claim_unless true key now job = pure 0
  claim_unless false key now job = claim_with key now job job.id

  -- One key of the page, and whether a job was enqueued for it.
  unfoldable pub reconcile_key : String → ℕ → NewJob → Tx Error Db ℕ
  unfolding protect_object has_job claim_key enqueue_object_delete managed_object_prefix
  reconcile_key key now job =
      if is_managed_key key
      then (do live ← protect_object fails store key now; claim_unless live key now job)
      else pure 0

  unfoldable pub reconcile_keys : List String → ℕ → (String → NewJob) → Tx Error Db ℕ
  unfolding reconcile_key
  reconcile_keys [] now jobs = pure 0
  reconcile_keys (key ∷ keys) now jobs = do
    n ← reconcile_key key now (jobs key)
    m ← reconcile_keys keys now jobs
    pure (n + m)

  -- A page whose cursor another scan has advanced is dropped.
  abbrev pub reconcile_page : Bool → ObjectPage → ℕ → (String → NewJob) → Tx Error Db ℕ
  reconcile_page false page now jobs = pure 0
  reconcile_page true page now jobs = do
    n ← reconcile_keys page.keys now jobs
    commit (fails commit_tx) failure
    pure n

  unfoldable pub reconcile_tx : ObjectPage → ℕ → ℕ → (String → NewJob) → Tx Error Db ℕ
  unfolding set_cursor reconcile_keys
  reconcile_tx page generation now jobs = do
    matched ←
        update_row (fails advance_cursor) failure (λ d. nat_beq d.cursor.generation generation)
          (set_cursor page.next_cursor)
    exec (fails read_affected) failure (λ d. d)
    reconcile_page matched page now jobs

  -- What follows the listing. `d` are the tables then, and `cursor` and `generation` were read before.
  unfoldable pub after_listing :
      Result ListError ObjectPage
      → ℕ
      → String
      → ℕ
      → ℕ
      → (String → NewJob)
      → Db
      → Result Error ℕ × Db
  unfolding set_cursor reconcile_tx
  after_listing (err invalid_cursor) limit cursor generation now jobs d =
      (err failure, reset_listing fails (not (cursor == "")) generation d)
  after_listing (err list_failed) limit cursor generation now jobs d = (err failure, d)
  after_listing (ok page) limit cursor generation now jobs d =
      if is_too_long limit page || not (page.next_cursor == "") && page.next_cursor == cursor
      then (err failure, d)
      else transact (fails begin_tx) failure (reconcile_tx page generation now jobs) d

  -- ReconcileOnce: `list` answers for a cursor and a limit, while `others` happens.
  unfoldable pub reconcile_once :
      ℕ
      → (String → ℕ → Result ListError ObjectPage)
      → (Db → Db)
      → ℕ
      → (String → NewJob)
      → Db
      → Result Error ℕ × Db
  unfolding after_listing
  reconcile_once batch list others now jobs d =
      let limit = smaller batch 1000 in
      let token = d.cursor.continuation_token in
      if not store.has_objects
      then (ok 0, d)
      else if fails read_cursor
      then (err failure, d)
      else after_listing (list token limit) limit token d.cursor.generation now jobs (others d)

abbrev pub has_claim : String → Option String → Bool
has_claim job_id none = false
has_claim job_id (some j) = j == job_id

module _ (fails : Faults Stmt) where
  unfoldable pub acknowledge_object_cleanup : String → String → Db → Result Error (Unit {0}) × Db
  unfolding is_blank managed_object_prefix
  acknowledge_object_cleanup job_id key d =
      if is_blank job_id || not (is_managed_key key)
      then (err invalid_input, d)
      else if fails clear_claim
      then (err failure, d)
      else if has_claim job_id (find key d.pending)
      then (ok tt, record d { pending = erase key d.pending })
      else (ok tt, d)

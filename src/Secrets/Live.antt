-- ===== src/Secrets/Live.antt =====
-- The reaper's claim and a secret that is live.
use flick_drop.Base.{
  ℕ, ◌≡◌, refl, String, Bool, true, false, Option, none, some, List, [], ◌∷◌, ◌==◌, string_eq,
  arith, if◌then◌else◌, find, find-erase, Bool-cases, ◌⊎◌, inl, inr,
}
use flick_drop.Sql.{Faults, Result, transact}
use flick_drop.Sql.Keeps.{Keeps, Keeps-then, keeps_rules}
use flick_drop.Jobs.{JobEvent}
use flick_drop.Outbox.{OutboxRecord}
use flick_drop.Secrets.Tables.{
  Db, Outcome, SecretRow, ManagementRow, update_secret, delete_payload, delete_secret_row,
  set_outcome, insert_job,
}
use flick_drop.Secrets.Types.{Bytes, Error, Stmt, failure, begin_tx, Store, Library, NewJob}
use flick_drop.Secrets.Access.{enqueue_event, enqueue_object_delete}
use flick_drop.Secrets.Manage.{
  is_consumed_row, delete_consumed, delete_managements, purge_management,
}
use flick_drop.Secrets.Reaper.{
  claimable, claimed, claim_all, reclaim, reclaim_row, reclaim_rows, claim_chosen, claim_tx,
  claim_expired,
}
use flick_drop.Secrets.Chosen.{has_id, all_live, claimable-others}
use flick_drop.Secrets.Rows.{
  find-update_secret, secrets-set_outcome, payloads-update_secret, payloads-set_outcome,
}

module _ (id : String) (r : SecretRow) (body : Option Bytes)
    (unconsumed : r.consumed_at ≡ none) where
  -- The row and the body are still there.
  abbrev IsUntouched : Db → Type 0
  IsUntouched d = (find id d.secrets ≡ some r) × (find id d.payloads ≡ body)

  update_secret-IsUntouched :
      (j : String) (f : SecretRow → SecretRow) (d : Db)
      → (j == id) ≡ false
      → IsUntouched d
      → IsUntouched (update_secret j f d)
  update_secret-IsUntouched j f d n h =
      rw (find-update_secret j id f d, payloads-update_secret j f d, n) h

  set_outcome-IsUntouched :
      (j : String) (o : Outcome) (d : Db) → IsUntouched d → IsUntouched (set_outcome j o d)
  set_outcome-IsUntouched j o d h = rw (secrets-set_outcome j o d, payloads-set_outcome j o d) h

  delete_payload-IsUntouched :
      (j : String) (d : Db) → (j == id) ≡ false → IsUntouched d → IsUntouched (delete_payload j d)
  unfolding delete_payload
  delete_payload-IsUntouched j d n h = rw (find-erase j id d.payloads, n) h

  delete_secret_row-IsUntouched :
      (j : String) (d : Db)
      → (j == id) ≡ false
      → IsUntouched d
      → IsUntouched (delete_secret_row j d)
  unfolding delete_secret_row
  delete_secret_row-IsUntouched j d n h =
      rw (find-erase j id d.secrets, find-erase j id d.payloads, n) h

  still_unconsumed :
      (j : String) (d : Db)
      → (j == id) ≡ true
      → IsUntouched d
      → is_consumed_row (find j d.secrets) ≡ false
  still_unconsumed j d y h = ground (arith, y, h.0, unconsumed, string_eq.same_iff j id)

  delete_consumed-IsUntouched :
      (rows : List (String × ManagementRow)) (d : Db)
      → IsUntouched d
      → IsUntouched (delete_consumed rows d)
  unfolding delete_consumed
  delete_consumed-IsUntouched [] d h = h
  delete_consumed-IsUntouched ((j, m) ∷ rows) d h =
      delete_consumed-IsUntouched rows _ (one (Bool-cases (j == id)))
    where
      one :
          ((j == id) ≡ true) ⊎ ((j == id) ≡ false)
          → IsUntouched (if is_consumed_row (find j d.secrets) then delete_secret_row j d else d)
      one (inl y) = rw (still_unconsumed j d y h) h
      one (inr n) = elim (Bool-cases (is_consumed_row (find j d.secrets))) [
        | inl c ↦ rw c (delete_secret_row-IsUntouched j d n h)
        | inr k ↦ rw k h
      ]

  delete_managements-IsUntouched :
      (rows : List (String × ManagementRow)) (d : Db)
      → IsUntouched d
      → IsUntouched (delete_managements rows d)
  unfolding delete_managements
  delete_managements-IsUntouched [] d h = h
  delete_managements-IsUntouched ((j, m) ∷ rows) d h = delete_managements-IsUntouched rows _ h

  claim_all-IsUntouched :
      (now : ℕ) (rows : List (String × SecretRow)) (d : Db)
      → has_id id rows ≡ false
      → IsUntouched d
      → IsUntouched (claim_all now rows d)
  unfolding claim_all has_id
  claim_all-IsUntouched now [] d n h = h
  claim_all-IsUntouched now ((j, q) ∷ rows) d n h =
      claim_all-IsUntouched now rows _ (ground (arith, n))
        (update_secret-IsUntouched j (claimed now) d (ground (arith, n)) h)

  insert_job-IsUntouched :
      (j : String) (x : OutboxRecord) (d : Db) → IsUntouched d → IsUntouched (insert_job j x d)
  unfolding insert_job
  insert_job-IsUntouched j x d h = h

  module _ (lib : Library) (fails : Faults Stmt) (store : Store) where
    enqueues : (e : JobEvent) (now : ℕ) → Keeps IsUntouched (enqueue_event lib fails store e now)
    unfolding enqueue_event
    enqueues e now = search (keeps_rules, insert_job-IsUntouched)

    enqueues_delete :
        (key reason : String) (now : ℕ) (job : NewJob)
        → Keeps IsUntouched (enqueue_object_delete lib fails store key reason now job)
    unfolding enqueue_object_delete
    enqueues_delete key reason now job = go job.id
      where
        go :
            (o : Option String)
            → Keeps IsUntouched
                (enqueue_object_delete lib fails store key reason now (record job { id = o }))
        go none = search keeps_rules
        go (some i) = search (keeps_rules, enqueues)

    reclaims_other : (j : String) → (j == id) ≡ false → Keeps IsUntouched (reclaim fails j)
    unfolding reclaim
    reclaims_other j n =
        search (keeps_rules, delete_payload-IsUntouched, delete_secret_row-IsUntouched, n) depth 9

    reclaims_row :
        (now : ℕ) (job : NewJob) (j : String) (q : SecretRow)
        → (j == id) ≡ false
        → Keeps IsUntouched (reclaim_row lib fails store now job j q)
    unfolding reclaim_row
    reclaims_row now job j q n =
        search (keeps_rules, set_outcome-IsUntouched, reclaims_other, enqueues_delete, n) depth 9

    reclaims_rows :
        (now : ℕ) (jobs : String → NewJob) (rows : List (String × SecretRow))
        → has_id id rows ≡ false
        → Keeps IsUntouched (reclaim_rows lib fails store now jobs rows)
    unfolding reclaim_rows has_id
    reclaims_rows now jobs [] n = search keeps_rules
    reclaims_rows now jobs ((j, q) ∷ rows) n =
        Keeps-then (reclaim_row lib fails store now (jobs j) j q)
          (reclaim_rows lib fails store now jobs rows)
          (reclaims_row now (jobs j) j q (ground (arith, n)))
          (reclaims_rows now jobs rows (ground (arith, n)))

    purges : (now limit : ℕ) → Keeps IsUntouched (purge_management fails now limit)
    unfolding purge_management
    purges now limit =
        search (keeps_rules, delete_consumed-IsUntouched, delete_managements-IsUntouched)

    claims :
        (purge : List (String × OutboxRecord) → Result Error (List (String × OutboxRecord)))
        (now batch : ℕ) (jobs : String → NewJob) (rows : List (String × SecretRow))
        → has_id id rows ≡ false
        → Keeps IsUntouched (claim_chosen lib fails store purge now batch jobs rows)
    unfolding claim_chosen
    claims purge now batch jobs rows n =
        search (keeps_rules, claim_all-IsUntouched, reclaims_rows, purges, n) depth 14

-- A live secret survives the reaper: a row that is not consumed, has not expired and does not wait too
-- long for its upload is the same after a run of the reaper, with its body, whichever statements
-- the driver failed.
pub claim_expired-live :
    (lib : Library) (fails : Faults Stmt) (store : Store)
    (purge : List (String × OutboxRecord) → Result Error (List (String × OutboxRecord)))
    (now batch : ℕ) (jobs : String → NewJob) (d : Db) (id : String) (r : SecretRow)
    → find id d.secrets ≡ some r
    → r.consumed_at ≡ none
    → all_live now store.pending_ttl id d.secrets ≡ true
    → let e = (claim_expired lib fails store purge now batch jobs d).1 in
      (find id e.secrets ≡ some r) × (find id e.payloads ≡ find id d.payloads)
unfolding claim_expired claim_tx
claim_expired-live lib fails store purge now batch jobs d id r f u n = ran (fails begin_tx)
  where
    rows : List (String × SecretRow)
    rows = claimable now store.pending_ttl batch d

    others : has_id id rows ≡ false
    others = claimable-others now store.pending_ttl batch id d n

    ran :
        (b : Bool)
        → IsUntouched id r
            (find id d.payloads)
            u
            (transact b failure (claim_tx lib fails store purge now batch jobs) d).1
    ran true = (f, refl)
    ran false =
        ((claims id r (find id d.payloads) u lib fails store purge now batch jobs rows others).at
          (record { committed = d; working = d })
          (record { committed = (f, refl); working = (f, refl) })).committed

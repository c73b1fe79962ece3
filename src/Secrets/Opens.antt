-- ===== src/Secrets/Opens.antt =====
-- Opening a secret, where the driver fails no statement.
use flick_drop.Base.{
  ℕ, ◌≡◌, String, true, false, ◌||◌, Option, none, some, ◌==◌, string_eq, arith, ltb, find,
  Bool-cases, inl, inr, ap,
}
use flick_drop.Sql.{ok, err, TxState}
use flick_drop.Jobs.{JobEvent, delete_secret, job_json, validate, valid_reason, is_blank}
use flick_drop.Outbox.{new_record}
use flick_drop.Secrets.Tables.{
  sqlite_blob, opened, Db, SecretRow, update_secret, set_outcome, insert_job,
}
use flick_drop.Secrets.Types.{consumed, Bytes, NewJob, Secret, Store, Library, no_faults}
use flick_drop.Secrets.Load.{load_row}
use flick_drop.Secrets.Access.{enqueue_event}
use flick_drop.Secrets.Open.{
  viewed, mark_opened, open_body, check_access, open_live, open_tx, open_cleanup_tx,
  open_and_enqueue_cleanup,
}
use flick_drop.Secrets.Reopened.{reopened}
use flick_drop.Secrets.After.{after_opening, opening-written}
use flick_drop.Secrets.Rows.{outbox-set_outcome, outbox-update_secret}
use flick_drop.Secrets.Loaded.{load_row-IsLoaded}

-- The job that deletes an opened secret's body.
abbrev pub cleanup_event : String → String → NewJob → JobEvent
cleanup_event id job_id job = record {
  job_id = job_id;
  kind = delete_secret;
  secret_id = id;
  object_key = "";
  reason = "consumed";
  requested_at = some job.requested_at;
}

not_empty : (id : String) → is_blank id ≡ false → (id == "") ≡ false
unfolding is_blank
not_empty id h = elim (Bool-cases (id == "")) [
  | inl y ↦ absurd (cc (h, ap is_blank ((string_eq.same_iff id "").0 y)))
  | inr n ↦ n
]

module _ (lib : Library) (store : Store) where
  mark_opened-views :
      (id : String) (now : ℕ) (x : Secret) (s : TxState Db) (r : SecretRow)
      → find id s.working.secrets ≡ some r
      → r.consumed_at ≡ none
      → mark_opened lib no_faults store id now x s ≡ (
        ok x,
        record s { working = set_outcome id opened (update_secret id (viewed now) s.working) },
      )
  unfolding mark_opened
  mark_opened-views id now x s r f c = ground (arith, f, c)

  open_tx-views :
      (id proof : String) (now : ℕ) (object : Option (Bytes × ℕ)) (after : ℕ) (job : NewJob)
      (s : TxState Db) (r : SecretRow) (p : Secret × Option ℕ)
      → (id == "") ≡ false
      → find id s.working.secrets ≡ some r
      → load_row lib id (some r) (find id s.working.payloads) ≡ ok p
      → r.consumed_at ≡ none
      → r.storage_backend ≡ sqlite_blob
      → ltb now r.expires_at ≡ true
      → ltb after r.expires_at ≡ true
      → (p.0.access_proof_hash == "" || p.0.access_proof_hash == proof) ≡ true
      → open_tx lib no_faults store id proof now object after job s ≡ (
        ok p.0,
        record s { working = set_outcome id opened (update_secret id (viewed after) s.working) },
      )
  unfolding open_tx open_live open_body check_access
  open_tx-views id proof now object after job s r p i f l c b t u h =
      let x = load_row-IsLoaded lib id r (find id s.working.payloads) p l in
      ground (arith, i, f, l, c, b, t, u, h, x.secret, mark_opened-views id after p.0 s r f c)

  cleanup_event-json :
      (id job_id : String) (job : NewJob)
      → is_blank id ≡ false
      → is_blank job_id ≡ false
      → job_json lib.marshal_event (cleanup_event id job_id job)
        ≡ ok (lib.marshal_event (cleanup_event id job_id job))
  unfolding job_json validate valid_reason
  cleanup_event-json id job_id job b c = ground (arith, b, c)

  enqueue_event-inserts :
      (id job_id : String) (job : NewJob) (s : TxState Db)
      → is_blank id ≡ false
      → is_blank job_id ≡ false
      → find job_id s.working.outbox ≡ none
      → enqueue_event lib no_faults store (cleanup_event id job_id job) job.enqueued_at s ≡ (
        ok tt,
        record s {
          working =
              insert_job job_id
                (new_record store.subject
                  (lib.marshal_event (cleanup_event id job_id job))
                  job.enqueued_at)
                s.working;
        },
      )
  unfolding enqueue_event
  enqueue_event-inserts id job_id job s b c f =
      ground (arith, f, cleanup_event-json id job_id job b c)

  outbox-unused :
      (id : String) (now : ℕ) (job_id : String) (d : Db)
      → find job_id d.outbox ≡ none
      → find job_id (set_outcome id opened (update_secret id (viewed now) d)).outbox ≡ none
  outbox-unused id now job_id d f =
      rw
        (
          outbox-set_outcome id opened (update_secret id (viewed now) d),
          outbox-update_secret id (viewed now) d,
        )
        f

  -- What such an opening answers and writes.
  pub open-writes :
      (id proof : String) (now : ℕ) (object : Option (Bytes × ℕ)) (after : ℕ) (lock job : NewJob)
      (job_id : String) (d : Db) (r : SecretRow) (p : Secret × Option ℕ)
      → store.has_outbox ≡ true
      → job.id ≡ some job_id
      → is_blank job_id ≡ false
      → find job_id d.outbox ≡ none
      → is_blank id ≡ false
      → find id d.secrets ≡ some r
      → load_row lib id (some r) (find id d.payloads) ≡ ok p
      → r.consumed_at ≡ none
      → r.storage_backend ≡ sqlite_blob
      → ltb now r.expires_at ≡ true
      → ltb after r.expires_at ≡ true
      → (p.0.access_proof_hash == "" || p.0.access_proof_hash == proof) ≡ true
      → open_and_enqueue_cleanup lib no_faults store id proof now object after lock job d ≡ (
        ok p.0,
        after_opening id after r job_id store.subject
            (lib.marshal_event (cleanup_event id job_id job))
            job.enqueued_at
            d,
      )
  unfolding open_and_enqueue_cleanup open_cleanup_tx
  open-writes id proof now object after lock job job_id d r p o j jb fresh ib f l c b t u h =
      let w = set_outcome id opened (update_secret id (viewed after) d) in
      ground (
        arith,
        o,
        j,
        opening-written id after r job_id store.subject
            (lib.marshal_event (cleanup_event id job_id job)) job.enqueued_at d f,
        open_tx-views id proof now object after lock (record { committed = d; working = d }) r p
            (not_empty id ib) f l c b t u h,
        enqueue_event-inserts id job_id job (record { committed = d; working = w }) ib jb
            (outbox-unused id after job_id d fresh),
      )

  -- An opening of an inline secret that is live at both readings of the clock, with the proof that it
  -- asks for, answers with what load reads of it, and consumes it: it is viewed once more and consumed
  -- at the second reading, its outcome is opened unless it has one, and the job that deletes its body
  -- is enqueued, pending and due at once. Nothing else changes. A
  -- second opening, with whatever proof at whatever time, is told that the secret is consumed. The driver fails no statement, there is an outbox, no id is blank, and no job has the new job's id.
  pub open-views :
      (id proof : String) (now : ℕ) (object : Option (Bytes × ℕ)) (after : ℕ) (lock job : NewJob)
      (job_id : String) (d : Db) (r : SecretRow) (p : Secret × Option ℕ) (proof' : String)
      (now' : ℕ) (object' : Option (Bytes × ℕ)) (after' : ℕ) (lock' job' : NewJob)
      (job_id' : String)
      → store.has_outbox ≡ true
      → job.id ≡ some job_id
      → job'.id ≡ some job_id'
      → is_blank job_id ≡ false
      → find job_id d.outbox ≡ none
      → is_blank id ≡ false
      → find id d.secrets ≡ some r
      → load_row lib id (some r) (find id d.payloads) ≡ ok p
      → r.consumed_at ≡ none
      → r.storage_backend ≡ sqlite_blob
      → ltb now r.expires_at ≡ true
      → ltb after r.expires_at ≡ true
      → (p.0.access_proof_hash == "" || p.0.access_proof_hash == proof) ≡ true
      → let o = open_and_enqueue_cleanup lib no_faults store id proof now object after lock job d in
        (o ≡ (
          ok p.0,
          after_opening id after r job_id store.subject
              (lib.marshal_event (cleanup_event id job_id job))
              job.enqueued_at
              d,
        ))
        × ((open_and_enqueue_cleanup lib no_faults store id proof' now' object' after' lock' job'
              o.1).0
            ≡ err consumed)
  open-views id proof now object after lock job job_id d r p proof' now' object' after' lock' job'
        job_id' o j j' jb fresh ib f l c b t u h =
      let w =
        open-writes id proof now object after lock job job_id d r p o j jb fresh ib f l c b t u h in
      (
        w,
        rw w (
            reopened lib store id proof' after now' object' after' lock' job' job_id job_id'
              store.subject (lib.marshal_event (cleanup_event id job_id job)) job.enqueued_at d r p
              o j' (not_empty id ib) l),
      )

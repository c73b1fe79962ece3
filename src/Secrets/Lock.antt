-- ===== src/Secrets/Lock.antt =====
-- Wrong access proofs, where the driver fails no statement and the body is stored inline.
use flick_drop.Base.{
  ℕ, suc, ◌≡◌, refl, String, true, false, not, ◌&&◌, Option, none, some, ◌==◌, string_eq, arith,
  ltb, leb, if◌then◌else◌, find,
}
use flick_drop.Sql.{ok, err, TxState}
use flick_drop.Secrets.Tables.{
  sqlite_blob, locked, Db, SecretRow, update_secret, set_outcome, delete_payload,
}
use flick_drop.Secrets.Types.{invalid_access, Bytes, NewJob, Secret, Store, Library, no_faults}
use flick_drop.Secrets.Load.{load_row}
use flick_drop.Secrets.Access.{failed_access, purge_locked, record_failed_access}
use flick_drop.Secrets.Open.{
  check_access, open_live, open_tx, open_cleanup_tx, open_and_enqueue_cleanup,
}
use flick_drop.Secrets.After.{after_wrong_proof, wrong_proof-written}
use flick_drop.Secrets.Rows.{find-update_secret}
use flick_drop.Secrets.Loaded.{load_row-IsLoaded}

-- The writes of a wrong proof for an inline secret that has had some number of wrong proofs.
unfoldable counted_tables : String → ℕ → ℕ → Db → Db
counted_tables id now failed d =
    let counted = update_secret id (failed_access now) d in
    if leb 5 (suc failed) then delete_payload id (set_outcome id locked counted) else counted

module _ (lib : Library) (store : Store) where
  counted-row :
      (id : String) (now : ℕ) (d : Db) (r : SecretRow)
      → find id d.secrets ≡ some r
      → find id (update_secret id (failed_access now) d).secrets ≡ some (failed_access now r)
  counted-row id now d r f =
      rw (find-update_secret id id (failed_access now) d)
        (ground (arith, f, string_eq.same_iff id id))

  record_failed_access-counts :
      (id key : String) (now : ℕ) (job : NewJob) (s : TxState Db) (r : SecretRow)
      → find id s.working.secrets ≡ some r
      → r.consumed_at ≡ none
      → record_failed_access lib no_faults store id sqlite_blob key now job s
        ≡ (ok tt, record s { working = counted_tables id now r.failed_access_count s.working })
  unfolding record_failed_access counted_tables failed_access purge_locked
  record_failed_access-counts id key now job s r f c =
      ground (arith, f, c, counted-row id now s.working r f)

  check_access-counts :
      (id proof : String) (now : ℕ) (job : NewJob) (x : Secret) (s : TxState Db) (r : SecretRow)
      → find id s.working.secrets ≡ some r
      → r.consumed_at ≡ none
      → x.storage_backend ≡ sqlite_blob
      → not (x.access_proof_hash == "") && not (x.access_proof_hash == proof) ≡ true
      → check_access lib no_faults store id proof now job x s ≡ (
        err invalid_access,
        record s { working = counted_tables id now r.failed_access_count s.working },
      )
  unfolding check_access
  check_access-counts id proof now job x s r f c b h =
      rw (h, b, record_failed_access-counts id x.storage_key now job s r f c) refl

  open_tx-counts :
      (id proof : String) (now : ℕ) (object : Option (Bytes × ℕ)) (after : ℕ) (job : NewJob)
      (s : TxState Db) (r : SecretRow) (p : Secret × Option ℕ)
      → (id == "") ≡ false
      → find id s.working.secrets ≡ some r
      → load_row lib id (some r) (find id s.working.payloads) ≡ ok p
      → r.consumed_at ≡ none
      → r.storage_backend ≡ sqlite_blob
      → ltb now r.expires_at ≡ true
      → not (p.0.access_proof_hash == "") && not (p.0.access_proof_hash == proof) ≡ true
      → open_tx lib no_faults store id proof now object after job s ≡ (
        err invalid_access,
        record s { working = counted_tables id now r.failed_access_count s.working },
      )
  unfolding open_tx open_live
  open_tx-counts id proof now object after job s r p i f l c b t h =
      let x = load_row-IsLoaded lib id r (find id s.working.payloads) p l in
      ground (
        arith,
        i,
        f,
        l,
        c,
        b,
        t,
        x.secret,
        check_access-counts id proof now job p.0 s r f c (rw (x.secret) b) h,
      )

  -- A wrong access proof for an inline secret that could be opened is refused and counted, and the fifth
  -- one consumes the secret, deletes its body and records that it is locked unless an outcome is
  -- recorded, where the driver fails no statement, there is an outbox, a job id is drawn and the
  -- secret's id is not empty. Nothing else changes.
  pub wrong_proof-counts :
      (id proof : String) (now : ℕ) (object : Option (Bytes × ℕ)) (after : ℕ) (lock job : NewJob)
      (job_id : String) (d : Db) (r : SecretRow) (p : Secret × Option ℕ)
      → store.has_outbox ≡ true
      → job.id ≡ some job_id
      → (id == "") ≡ false
      → find id d.secrets ≡ some r
      → load_row lib id (some r) (find id d.payloads) ≡ ok p
      → r.consumed_at ≡ none
      → r.storage_backend ≡ sqlite_blob
      → ltb now r.expires_at ≡ true
      → not (p.0.access_proof_hash == "") && not (p.0.access_proof_hash == proof) ≡ true
      → open_and_enqueue_cleanup lib no_faults store id proof now object after lock job d
        ≡ (err invalid_access, after_wrong_proof id now r d)
  unfolding open_and_enqueue_cleanup open_cleanup_tx counted_tables
  wrong_proof-counts id proof now object after lock job job_id d r p o j i f l c b t h = ground (
    arith,
    o,
    j,
    wrong_proof-written id now r d f c,
    open_tx-counts id proof now object after lock (record { committed = d; working = d }) r p i f l
        c b t h,
  )

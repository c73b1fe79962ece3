-- ===== src/Secrets/Once.antt =====
-- OpenTx and openAndEnqueueCleanup: what an opening that succeeds asks of the row and does to it.
use flick_drop.Base.{
  ℕ, ◌≡◌, refl, String, Bool, true, false, not, Option, none, some, string_eq, arith, ltb,
  if◌then◌else◌, find, Option-cases, inl, inr,
}
use flick_drop.Sql.{
  Faults, Result, Result-cases, ok, err, is_ok, TxState, Tx, continue, transact, require, lift,
}
use flick_drop.Secrets.Tables.{
  opened, Db, SecretRow, is_some, is_unconsumed, update_secret, insert_job,
}
use flick_drop.Secrets.Types.{
  Error, Bytes, NewJob, Secret, Stmt, expired, failure, begin_tx, Store, Library,
}
use flick_drop.Secrets.Load.{load_row}
use flick_drop.Secrets.Access.{enqueue_event}
use flick_drop.Secrets.Open.{
  viewed, check_access, open_body, mark_opened, open_live, open_tx, conclude, after_failure,
  after_open, open_cleanup_tx, open_with, open_and_enqueue_cleanup,
}
use flick_drop.Secrets.Loaded.{load_row-IsLoaded}
use flick_drop.Secrets.Rows.{find-update_secret, secrets-set_outcome}
use flick_drop.Secrets.Shut.{IsShut}

module _ (lib : Library) (fails : Faults Stmt) (store : Store) where
  load_row-consumed :
      (id : String) (o : Option SecretRow) (payload : Option Bytes) (p : Secret × Option ℕ)
      → is_unconsumed o ≡ false
      → load_row lib id o payload ≡ ok p
      → is_some p.1 ≡ true
  unfolding load_row
  load_row-consumed id none payload p h e = absurd (cc e)
  load_row-consumed id (some r) payload p h e =
      rw (load_row-IsLoaded lib id r payload p e).secret (ground (arith, h))

  open_tx-shut :
      (id proof : String) (now : ℕ) (object : Option (Bytes × ℕ)) (after : ℕ) (job : NewJob)
      (s : TxState Db)
      → IsShut id s.working
      → is_ok (open_tx lib fails store id proof now object after job s).0 ≡ false
  unfolding open_tx
  open_tx-shut id proof now object after job s h =
      elim (Result-cases
        (load_row lib id (find id s.working.secrets) (find id s.working.payloads))) [
          | inl (x, e) ↦ ground (arith, e)
          | inr (p, e) ↦ ground (arith, e, load_row-consumed id _ _ p h e)
        ]

  -- An opening that succeeds leaves the row consumed.
  abbrev ShutIfOk : {A : Type 0} → String → Result Error A × TxState Db → Type 0
  ShutIfOk id (ok a, t) = IsShut id t.working
  ShutIfOk id (err e, t) = Unit {0}

  bind-ShutIfOk :
      {A B : Type 0} (id : String) (p : Result Error A × TxState Db) (f : A → Tx Error Db B)
      → ((a : A) (t : TxState Db) → ShutIfOk id (f a t))
      → ShutIfOk id (continue p.0 f p.1)
  bind-ShutIfOk id (ok a, t) f k = k a t
  bind-ShutIfOk id (err e, t) f k = tt

  viewed-IsShut : (id : String) (now : ℕ) (d : Db) → IsShut id (update_secret id (viewed now) d)
  unfolding viewed
  viewed-IsShut id now d =
      rw (find-update_secret id id (viewed now) d) (elim (Option-cases (find id d.secrets)) [
        | inl n ↦ ground (arith, n, string_eq.same_iff id id)
        | inr (r, e) ↦ ground (arith, e, string_eq.same_iff id id)
      ])

  mark_opened-shut :
      (id : String) (now : ℕ) (x : Secret) (s : TxState Db)
      → ShutIfOk id (mark_opened lib fails store id now x s)
  unfolding mark_opened
  mark_opened-shut id now x s = ground (
    arith,
    viewed-IsShut id now s.working,
    secrets-set_outcome id opened (update_secret id (viewed now) s.working),
  )

  open_live-shut :
      (id proof : String) (now : ℕ) (object : Option (Bytes × ℕ)) (after : ℕ) (job : NewJob)
      (x : Secret) (s : TxState Db)
      → ShutIfOk id (open_live lib fails store id proof now object after job x s)
  unfolding open_live
  open_live-shut id proof now object after job x s =
      bind-ShutIfOk id (check_access lib fails store id proof now job x s) _ λ _ t.
        bind-ShutIfOk id (lift (open_body lib fails store object x) t) _ λ body u.
          bind-ShutIfOk id (require (ltb after x.expires_at) expired u) _
            λ _ v. mark_opened-shut id after (record x { body = body }) v

  open_tx-viewed :
      (id proof : String) (now : ℕ) (object : Option (Bytes × ℕ)) (after : ℕ) (job : NewJob)
      (s : TxState Db)
      → ShutIfOk id (open_tx lib fails store id proof now object after job s)
  unfolding open_tx
  open_tx-viewed id proof now object after job s =
      elim (Result-cases
        (load_row lib id (find id s.working.secrets) (find id s.working.payloads))) [
          | inl (x, e) ↦ ground (arith, e)
          | inr (p, e) ↦ ground (arith, e, open_live-shut id proof now object after job p.0 s)
        ]

  -- The secret's row is consumed in the committed tables too.
  abbrev CommitsShut : {A : Type 0} → String → Result Error A × TxState Db → Type 0
  CommitsShut id (ok a, t) = IsShut id t.committed
  CommitsShut id (err e, t) = Unit {0}

  after_open-shut :
      (id job_id : String) (job : NewJob) (x : Secret) (s : TxState Db)
      → IsShut id s.working
      → CommitsShut id (after_open lib fails store id job_id job x s)
  unfolding enqueue_event insert_job
  after_open-shut id job_id job x s h = ground (arith, h)

  after_failure-fails :
      (e : Error) (s : TxState Db) → is_ok (after_failure lib fails store e s).0 ≡ false
  after_failure-fails e s = ground arith

  conclude-shut :
      (id job_id : String) (job : NewJob) (p : Result Error Secret × TxState Db)
      → ShutIfOk id p
      → CommitsShut id (conclude lib fails store id job_id job p.0 p.1)
  conclude-shut id job_id job (ok x, s) h = after_open-shut id job_id job x s h
  conclude-shut id job_id job (err e, s) h = ground (arith, after_failure-fails e s)

  pub conclude-fails :
      (id job_id : String) (job : NewJob) (p : Result Error Secret × TxState Db)
      → is_ok p.0 ≡ false
      → is_ok (conclude lib fails store id job_id job p.0 p.1).0 ≡ false
  conclude-fails id job_id job (ok x, s) h = absurd (cc h)
  conclude-fails id job_id job (err e, s) h = after_failure-fails e s

  transact-CommitsShut :
      {A : Type 0} (id : String) (b : Bool) (e : Error) (m : Tx Error Db A) (d : Db)
      → CommitsShut id (m (record { committed = d; working = d }))
      → is_ok (transact b e m d).0 ≡ true
      → IsShut id (transact b e m d).1
  transact-CommitsShut id true e m d h k = absurd (cc k)
  transact-CommitsShut id false e m d h k = ran (m (record { committed = d; working = d })) h k
    where
      ran :
          {A : Type 0} (p : Result Error A × TxState Db)
          → CommitsShut id p
          → is_ok p.0 ≡ true
          → IsShut id p.1.committed
      ran (ok a, t) h k = h
      ran (err x, t) h k = absurd (cc k)

  pub transact-fails :
      {A : Type 0} (b : Bool) (e : Error) (m : Tx Error Db A) (d : Db)
      → is_ok (m (record { committed = d; working = d })).0 ≡ false
      → is_ok (transact b e m d).0 ≡ false
  transact-fails true e m d h = refl
  transact-fails false e m d h = h

  -- An opening that succeeds leaves its secret shut.
  pub open-shuts :
      (id proof : String) (now : ℕ) (object : Option (Bytes × ℕ)) (after : ℕ) (lock job : NewJob)
      (d : Db)
      → is_ok (open_and_enqueue_cleanup lib fails store id proof now object after lock job d).0
        ≡ true
      → IsShut id (open_and_enqueue_cleanup lib fails store id proof now object after lock job d).1
  unfolding open_and_enqueue_cleanup open_cleanup_tx
  open-shuts id proof now object after lock job d = guarded store.has_outbox job.id
    where
      guarded :
          (b : Bool) (o : Option String)
          → is_ok
              (if not b
                then (err failure, d)
                else open_with lib fails store id proof now object after lock o job d).0
            ≡ true
          → IsShut id
              (if not b
                then (err failure, d)
                else open_with lib fails store id proof now object after lock o job d).1
      guarded false o k = absurd (cc k)
      guarded true none k = absurd (cc k)
      guarded true (some job_id) k =
          transact-CommitsShut id (fails begin_tx) failure
            (open_cleanup_tx lib fails store id proof now object after lock job_id job) d
            (conclude-shut id job_id job _ (open_tx-viewed id proof now object after lock _)) k

  -- A secret that is shut is not opened.
  pub open-IsShut :
      (id proof : String) (now : ℕ) (object : Option (Bytes × ℕ)) (after : ℕ) (lock job : NewJob)
      (d : Db)
      → IsShut id d
      → is_ok (open_and_enqueue_cleanup lib fails store id proof now object after lock job d).0
        ≡ false
  unfolding open_and_enqueue_cleanup open_cleanup_tx
  open-IsShut id proof now object after lock job d h = guarded store.has_outbox job.id
    where
      guarded :
          (b : Bool) (o : Option String)
          → is_ok
              (if not b
                then (err failure, d)
                else open_with lib fails store id proof now object after lock o job d).0
            ≡ false
      guarded false o = refl
      guarded true none = refl
      guarded true (some job_id) =
          transact-fails (fails begin_tx) failure
            (open_cleanup_tx lib fails store id proof now object after lock job_id job) d
            (conclude-fails id job_id job _ (open_tx-shut id proof now object after lock _ h))

-- ===== src/Secrets/Undone.antt =====
-- The tables after a call of internal/secrets that returns an error.
mod Creating
mod Opening
use flick_drop.Base.{
  ℕ, ◌≡◌, ◌≢◌, refl, String, Bool, true, false, Option, none, some, ◌⊎◌, inl, inr, if◌then◌else◌,
  string_eq, not, arith, List, subst,
}
use flick_drop.Sql.{Faults, Result, ok, err, TxState, transact}
use flick_drop.Sql.Atomic.{UndoneIfErr, transact-Atomic}
use flick_drop.Outbox.{OutboxRecord}
use flick_drop.Secrets.Tables.{Db}
use flick_drop.Secrets.Types.{
  Bytes, Error, invalid_access, failure, Stmt, begin_tx, CreateInput, Store, Library, NewJob,
  Secret,
}
use flick_drop.Secrets.Create.{create, create_checked, normalize}
use flick_drop.Secrets.Validate.{validate_create}
use flick_drop.Secrets.Open.{
  conclude, after_failure, after_open, open_cleanup_tx, open_with, open_and_enqueue_cleanup,
}
use flick_drop.Secrets.Manage.{revoke}
use flick_drop.Secrets.Reaper.{claim_expired}
use flick_drop.Secrets.Undone.Creating.{create_tx-Atomic}
use flick_drop.Secrets.Undone.Opening.{
  open_tx-Quiet, after_open-Atomic, revoke_tx-Atomic, claim_tx-Atomic,
}

module _ (lib : Library) (fails : Faults Stmt) (store : Store) where
  -- A failed opening has committed nothing, or a wrong proof.
  abbrev UndoneOrCounted : {A : Type 0} → Db → Result Error A × TxState Db → Type 0
  UndoneOrCounted d (ok a, t) = Unit {0}
  UndoneOrCounted d (err e, t) = (t.committed ≡ d) ⊎ (e ≡ invalid_access)

  weaken :
      {A : Type 0} (d : Db) (p : Result Error A × TxState Db)
      → UndoneIfErr d p
      → UndoneOrCounted d p
  weaken d (ok a, t) h = tt
  weaken d (err e, t) h = inl h

  after_failure-UndoneOrCounted :
      (e : Error) (s : TxState Db) (d : Db)
      → s.committed ≡ d
      → UndoneOrCounted d (after_failure lib fails store e s)
  after_failure-UndoneOrCounted e s d h = ground (arith, h)

  conclude-UndoneOrCounted :
      (d : Db) (id job_id : String) (job : NewJob) (p : Result Error Secret × TxState Db)
      → p.1.committed ≡ d
      → UndoneOrCounted d (conclude lib fails store id job_id job p.0 p.1)
  conclude-UndoneOrCounted d id job_id job (err e, t) h = after_failure-UndoneOrCounted e t d h
  conclude-UndoneOrCounted d id job_id job (ok s, t) h =
      weaken d (after_open lib fails store id job_id job s t) (
        subst (λ x. UndoneIfErr x (after_open lib fails store id job_id job s t)) h
          ((after_open-Atomic lib fails store id job_id job s).at t))

  transact-UndoneOrCounted :
      {A : Type 0} (b : Bool) (m : Result Error A × TxState Db) (d : Db) (x : Error)
      → UndoneOrCounted d m
      → m.0 ≡ err x
      → x ≢ invalid_access
      → m.1.committed ≡ d
  transact-UndoneOrCounted b (ok a, t) d x h e n = absurd (cc e)
  transact-UndoneOrCounted b (err y, t) d x (inl h) e n = h
  transact-UndoneOrCounted b (err y, t) d x (inr h) e n = absurd (n (cc (h, e)))

  -- An opening that returns an error other than a wrong proof leaves the tables as they were, whichever
  -- statement the driver failed.
  pub open_atomic :
      (id proof : String) (now : ℕ) (object : Option (Bytes × ℕ)) (after : ℕ) (lock job : NewJob)
      (d : Db) (x : Error)
      → (open_and_enqueue_cleanup lib fails store id proof now object after lock job d).0 ≡ err x
      → x ≢ invalid_access
      → (open_and_enqueue_cleanup lib fails store id proof now object after lock job d).1 ≡ d
  unfolding open_and_enqueue_cleanup open_cleanup_tx
  open_atomic id proof now object after lock job d x =
      guarded store.has_outbox job.id (fails begin_tx)
    where
      run : String → TxState Db → Result Error Secret × TxState Db
      run job_id = open_cleanup_tx lib fails store id proof now object after lock job_id job

      begun :
          (b : Bool) (job_id : String)
          → (transact b failure (run job_id) d).0 ≡ err x
          → x ≢ invalid_access
          → (transact b failure (run job_id) d).1 ≡ d
      begun true job_id e n = refl
      begun false job_id e n =
          transact-UndoneOrCounted false (run job_id (record { committed = d; working = d })) d x
            (conclude-UndoneOrCounted d id job_id job _
              ((open_tx-Quiet lib fails store id proof now object after lock).at _))
            e n

      guarded :
          (h : Bool) (o : Option String) (b : Bool)
          → (if not h
              then (err failure, d)
              else open_with lib fails store id proof now object after lock o job d).0
            ≡ err x
          → x ≢ invalid_access
          → (if not h
              then (err failure, d)
              else open_with lib fails store id proof now object after lock o job d).1
            ≡ d
      guarded false o b e n = refl
      guarded true none b e n = refl
      guarded true (some job_id) b e n = begun (fails begin_tx) job_id e n

  -- A Revoke that returns an error leaves the tables as they were, whichever statement the driver failed.
  pub revoke_atomic :
      (id token : String) (now again : ℕ) (job : NewJob) (d : Db) (x : Error)
      → (revoke lib fails store id token now again job d).0 ≡ err x
      → (revoke lib fails store id token now again job d).1 ≡ d
  unfolding revoke
  revoke_atomic id token now again job d x =
      transact-Atomic (fails begin_tx) failure _ d x
        (revoke_tx-Atomic lib fails store id token now again job)

  -- A run of the reaper that returns an error leaves the tables as they were, whichever statement the
  -- driver failed and wherever the deletion of expired requests failed.
  pub claim_expired_atomic :
      (purge : List (String × OutboxRecord) → Result Error (List (String × OutboxRecord)))
      (now batch : ℕ) (jobs : String → NewJob) (d : Db) (x : Error)
      → (claim_expired lib fails store purge now batch jobs d).0 ≡ err x
      → (claim_expired lib fails store purge now batch jobs d).1 ≡ d
  unfolding claim_expired
  claim_expired_atomic purge now batch jobs d x =
      transact-Atomic (fails begin_tx) failure _ d x
        (claim_tx-Atomic lib fails store purge now batch jobs)

  -- A Create that returns an error leaves the tables as they were, whichever statement the driver failed.
  pub create_atomic :
      (i : CreateInput) (id : Option String) (raw : Option Bytes) (now : ℕ) (d : Db) (x : Error)
      → (create lib fails store i id raw now d).0 ≡ err x
      → (create lib fails store i id raw now d).1 ≡ d
  unfolding create
  create_atomic i id raw now d x = checked (validate_create lib store (normalize i)) id
    where
      checked :
          (o : Option Error) (j : Option String)
          → (create_checked lib fails store (normalize i) o j raw now d).0 ≡ err x
          → (create_checked lib fails store (normalize i) o j raw now d).1 ≡ d
      checked (some y) j e = refl
      checked none none e = refl
      checked none (some j) e =
          transact-Atomic (fails begin_tx) failure _ d x
            (create_tx-Atomic fails lib (normalize i) j raw now) e

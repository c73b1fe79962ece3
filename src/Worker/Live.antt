-- ===== src/Worker/Live.antt =====
-- The attempts that Start of internal/worker/store.go returns.
use flick_drop.Base.{
  ℕ, ◌+◌, ◌≡◌, refl, subst, inl, inr, String, Bool, true, false, not, ◌&&◌, ◌||◌, Option, none,
  some, arith, ◌==◌, string_eq, if◌then◌else◌, find, find-insert, beq_self, ltb, Option-cases,
}
use flick_drop.Sql.{
  Faults, TxState, Tx, Result, ok, err, transact, continue, ◌>>=◌, ◌>>◌, require, query, when,
}
use flick_drop.Worker.Tables.{
  State, processing, succeeded, failed, dead, running, Receipt, Attempt, Db, is_running,
  load_receipt, recover_interrupted, attempt_failed, is_none, claim_receipt, insert_attempt,
  insert_receipt, update_receipt,
}
use flick_drop.Worker.Counts.{IdsBelow, update_where-IdsBelow, find_attempt-append}
use flick_drop.Worker.Invariant.{IsValidDb}
use flick_drop.Worker.Moves.{claimed}
use flick_drop.Worker.Store.{
  ensure_receipt, Stmt, Error, StartResult, started, already_succeeded, start, start_tx, start_in,
  reclaim, settle_exhausted, claim, invalid_job, load_job, begin_tx, driver_error, is_empty,
}
use flick_drop.Worker.Finish.{IsLive}

-- A run that has started an attempt has committed it live.
abbrev Starts : Result Error StartResult × TxState Db → Type 0
Starts (ok (started a), t) = IsLive a t.committed
Starts (ok already_succeeded, t) = Unit {0}
Starts (err e, t) = Unit {0}

-- A part of Start that goes on leaves the next id above the rows' ids.
abbrev Fresh : {A : Type 0} → Result Error A × TxState Db → Type 0
Fresh (ok a, t) = IdsBelow t.working.next_id t.working.attempts
Fresh (err e, t) = Unit {0}

bind-Starts :
    {A : Type 0} (p : Result Error A × TxState Db) (f : A → Tx Error Db StartResult)
    → Fresh p
    → ((a : A) (t : TxState Db) → IdsBelow t.working.next_id t.working.attempts → Starts (f a t))
    → Starts (continue p.0 f p.1)
bind-Starts (ok a, t) f h k = k a t h
bind-Starts (err e, t) f h k = tt

module _ (faults : Faults Stmt) where
  abbrev Claimed : String → Receipt → ℕ → Db → Result Error StartResult × TxState Db → Type 0
  Claimed job r now w (ok (started a), t) =
      (a ≡ record {
        id = w.next_id;
        job_id = job;
        attempt = r.attempts + 1;
        started_at = now;
        finished_at = none;
        result = running;
        error = none;
      })
      × (t.committed ≡ claimed job (r.attempts + 1) now w)
      × (is_none (find job w.receipts) ≡ false)
  Claimed job r now w (ok already_succeeded, t) = Unit {0}
  Claimed job r now w (err e, t) = Unit {0}

  claim-Claimed :
      (job : String) (r : Receipt) (now : ℕ) (s : TxState Db)
      → Claimed job r now s.working (claim faults job r now s)
  unfolding claim claimed claim_receipt
  claim-Claimed job r now s = ground arith

claimed-IsLive :
    (job : String) (n now : ℕ) (w : Db) (q : Receipt)
    → find job w.receipts ≡ some q
    → IdsBelow w.next_id w.attempts
    → IsLive
        (record {
          id = w.next_id;
          job_id = job;
          attempt = n;
          started_at = now;
          finished_at = none;
          result = running;
          error = none;
        })
        (claimed job n now w)
unfolding claimed claim_receipt insert_attempt
claimed-IsLive job n now w q f b =
    rw (claimed, insert_attempt, claim_receipt, update_receipt, f)
      (record {
        row = find_attempt-append w.next_id w.attempts _ b refl;
        runs = refl;
        receipt = record q {
          state = processing;
          attempts = n;
          updated_at = now;
          last_error = none;
        };
        found = rw (find-insert job job _ w.receipts, beq_self job) refl;
        state = refl;
        attempt = refl;
      })

module _ (faults : Faults Stmt) where
  claim-Starts :
      (job : String) (r : Receipt) (now : ℕ) (s : TxState Db)
      → IdsBelow s.working.next_id s.working.attempts
      → Starts (claim faults job r now s)
  claim-Starts job r now s b = live (claim faults job r now s) (claim-Claimed faults job r now s)
    where
      live :
          (p : Result Error StartResult × TxState Db)
          → Claimed faults job r now s.working p
          → Starts p
      live (err e, t) c = tt
      live (ok already_succeeded, t) c = tt
      live (ok (started a), t) (same, moved, known) =
          elim (Option-cases (find job s.working.receipts)) [
            | inl f ↦ absurd (cc (f, known))
            | inr (q, f) ↦
                rw (same, moved) (claimed-IsLive job (r.attempts + 1) now s.working q f b)
          ]

  reclaim-Fresh :
      (job : String) (created : Bool) (r : Receipt) (now : ℕ) (s : TxState Db)
      → IdsBelow s.working.next_id s.working.attempts
      → Fresh (when (not created) (reclaim faults job r now) s)
  unfolding reclaim recover_interrupted
  reclaim-Fresh job created r now s b = ground (
    arith,
    update_where-IdsBelow s.working.next_id (λ a. a.job_id == job && is_running a.result)
        attempt_failed now none s.working.attempts b,
  )

  settle_exhausted-Fresh :
      (job : String) (created : Bool) (r : Receipt) (payload : String) (max now : ℕ)
      (s : TxState Db)
      → IdsBelow s.working.next_id s.working.attempts
      → Fresh (when (not created) (settle_exhausted faults job r payload max now) s)
  unfolding settle_exhausted
  settle_exhausted-Fresh job created r payload max now s b = ground arith

  start_in-Starts :
      (job : String) (st : State) (created : Bool) (r : Receipt) (payload : String) (max now : ℕ)
      (s : TxState Db)
      → IdsBelow s.working.next_id s.working.attempts
      → Starts (start_in faults job st created r payload max now s)
  unfolding start_in
  start_in-Starts job succeeded created r payload max now s b = ground arith
  start_in-Starts job dead created r payload max now s b = tt
  start_in-Starts job failed created r payload max now s b =
      bind-Starts (when (not created) (settle_exhausted faults job r payload max now) s) _
        (settle_exhausted-Fresh job created r payload max now s b)
        (λ _ t c. claim-Starts job r now t c)
  start_in-Starts job processing created r payload max now s b =
      bind-Starts (when (not created) (reclaim faults job r now) s) _
        (reclaim-Fresh job created r now s b)
        (λ _ t c.
          bind-Starts (when (not created) (settle_exhausted faults job r payload max now) t) _
            (settle_exhausted-Fresh job created r payload max now t c)
            (λ _ u e. claim-Starts job r now u e))

  query-Fresh :
      {A : Type 0} (x : Bool) (e : Error) (f : Db → A) (s : TxState Db)
      → IdsBelow s.working.next_id s.working.attempts
      → Fresh (query x e f s)
  query-Fresh true e f s b = tt
  query-Fresh false e f s b = b

  require-Fresh :
      (x : Bool) (e : Error) (s : TxState Db)
      → IdsBelow s.working.next_id s.working.attempts
      → Fresh (require x e s)
  require-Fresh true e s b = b
  require-Fresh false e s b = tt

  ensure_receipt-Fresh :
      (job kind : String) (now : ℕ) (o : Option Receipt) (s : TxState Db)
      → IdsBelow s.working.next_id s.working.attempts
      → Fresh (ensure_receipt faults job kind now o s)
  unfolding insert_receipt
  ensure_receipt-Fresh job kind now none s b = ground arith
  ensure_receipt-Fresh job kind now (some r) s b = b

  start_tx-Starts :
      (job kind payload : String) (max created_at now : ℕ) (s : TxState Db)
      → IdsBelow s.working.next_id s.working.attempts
      → Starts (start_tx faults job kind payload max created_at now s)
  unfolding start_tx
  start_tx-Starts job kind payload max created_at now s b =
      bind-Starts (query (faults load_job) driver_error (load_receipt job) s)
        (λ loaded. ensure_receipt faults job kind created_at loaded >>= λ r.
          require (r.kind == kind) invalid_job
          >> start_in faults job r.state (is_none loaded) r payload max now)
        (query-Fresh (faults load_job) driver_error (load_receipt job) s b)
        λ loaded t c.
          bind-Starts (ensure_receipt faults job kind created_at loaded t)
            (λ r.
              require (r.kind == kind) invalid_job
              >> start_in faults job r.state (is_none loaded) r payload max now)
            (ensure_receipt-Fresh job kind created_at loaded t c)
            λ r u e.
              bind-Starts (require (r.kind == kind) invalid_job u)
                (λ _. start_in faults job r.state (is_none loaded) r payload max now)
                (require-Fresh (r.kind == kind) invalid_job u e)
                λ _ v g. start_in-Starts job r.state (is_none loaded) r payload max now v g

  -- An attempt that Start returns on valid tables is live in the tables that it leaves, whichever
  -- statement the driver failed.
  pub start-IsLive :
      (job_id kind payload : String) (max created_at now : ℕ) (d : Db) (a : Attempt)
      → IsValidDb d
      → (start faults job_id kind payload max created_at now d).0 ≡ ok (started a)
      → IsLive a (start faults job_id kind payload max created_at now d).1
  unfolding start
  start-IsLive job kind payload max created_at now d a v =
      guarded (is_empty job || is_empty kind || is_empty payload || ltb max 1)
    where
      begun :
          (x : Bool) (m : Tx Error Db StartResult)
          → Starts (m (record { committed = d; working = d }))
          → (transact x driver_error m d).0 ≡ ok (started a)
          → IsLive a (transact x driver_error m d).1
      begun true m h e = absurd (cc e)
      begun false m h e = committed_run (m (record { committed = d; working = d })) h e
        where
          committed_run :
              (p : Result Error StartResult × TxState Db)
              → Starts p
              → p.0 ≡ ok (started a)
              → IsLive a p.1.committed
          committed_run (err x, t) h e = absurd (cc e)
          committed_run (ok already_succeeded, t) h e = absurd (cc e)
          committed_run (ok (started b), t) h e = subst (λ c. IsLive c t.committed) (cc e) h

      run : Result Error StartResult × Db
      run =
          transact (faults begin_tx) driver_error
            (start_tx faults job kind payload max created_at now) d

      guarded :
          (x : Bool)
          → (if x then (err invalid_job, d) else run).0 ≡ ok (started a)
          → IsLive a (if x then (err invalid_job, d) else run).1
      guarded true e = absurd (cc e)
      guarded false e =
          begun (faults begin_tx) (start_tx faults job kind payload max created_at now)
            (start_tx-Starts job kind payload max created_at now _ v.ids) e

-- ===== src/Worker/Atomic.antt =====
-- The tables after an operation of internal/worker/store.go that fails.
use flick_drop.Base.{
  ℕ, ◌≡◌, ◌≢◌, refl, String, Bool, true, false, Option, none, some, arith, ltb, ◌||◌, if◌then◌else◌,
  ◌⊎◌, inl, inr, not, subst, ◌==◌, string_eq,
}
use flick_drop.Sql.{
  Result, ok, err, Faults, Tx, TxState, transact, continue, ◌>>◌, when, query, require,
}
use flick_drop.Worker.Tables.{
  load_receipt, insert_receipt, is_none, Db, Receipt, State, processing, succeeded, failed, dead,
}
use flick_drop.Worker.Store.{
  mark_succeeded, mark_failed, ensure_receipt, invalid_job, driver_error, load_job, begin_tx,
  is_empty, Error, Stmt, StartResult, job_dead, start, start_tx, start_in, finish_attempt,
  finish_tx, settle, reclaim, settle_exhausted, claim,
}

-- A failed run has committed nothing.
abbrev Kept : {A : Type 0} → Db → Result Error A × TxState Db → Type 0
Kept d (ok a, s) = Unit {0}
Kept d (err e, s) = s.committed ≡ d

module _ (fails : Faults Stmt) where
  settle-Kept :
      (job_id : String) (o : Option String) (r : Receipt) (payload : String) (max now : ℕ)
      (s : TxState Db)
      → Kept s.committed (settle fails job_id o r payload max now s)
  unfolding settle
  settle-Kept job_id none r payload max now s = ground arith
  settle-Kept job_id (some text) r payload max now s = ground arith

  finish_tx-Kept :
      (id : ℕ) (o : Option String) (payload : String) (max now : ℕ) (s : TxState Db)
      → Kept s.committed (finish_tx fails id o payload max now s)
  unfolding finish_tx
  finish_tx-Kept id o payload max now s = ground arith

  -- A failed Start has committed nothing, or a dead letter.
  abbrev KeptOrDead : {A : Type 0} → Db → Result Error A × TxState Db → Type 0
  KeptOrDead d (ok a, s) = Unit {0}
  KeptOrDead d (err e, s) = (s.committed ≡ d) ⊎ (e ≡ job_dead)

  -- A part of Start that has committed nothing if it goes on.
  abbrev GoesOn : {A : Type 0} → Db → Result Error A × TxState Db → Type 0
  GoesOn d (ok a, s) = s.committed ≡ d
  GoesOn d (err e, s) = (s.committed ≡ d) ⊎ (e ≡ job_dead)

  bind-KeptOrDead :
      {A B : Type 0} (d : Db) (p : Result Error A × TxState Db) (f : A → Tx Error Db B)
      → GoesOn d p
      → ((a : A) (t : TxState Db) → t.committed ≡ d → KeptOrDead d (f a t))
      → KeptOrDead d (continue p.0 f p.1)
  bind-KeptOrDead d (ok a, t) f h k = k a t h
  bind-KeptOrDead d (err e, t) f h k = h

  reclaim-GoesOn :
      (job_id : String) (created : Bool) (r : Receipt) (now : ℕ) (s : TxState Db)
      → GoesOn s.committed (when (not created) (reclaim fails job_id r now) s)
  unfolding reclaim
  reclaim-GoesOn job_id created r now s = ground arith

  settle_exhausted-GoesOn :
      (job_id : String) (created : Bool) (r : Receipt) (payload : String) (max now : ℕ) (d : Db)
      (s : TxState Db)
      → s.committed ≡ d
      → GoesOn d (when (not created) (settle_exhausted fails job_id r payload max now) s)
  unfolding settle_exhausted
  settle_exhausted-GoesOn job_id created r payload max now d s h = ground arith

  claim-KeptOrDead :
      (job_id : String) (r : Receipt) (now : ℕ) (d : Db) (s : TxState Db)
      → s.committed ≡ d
      → KeptOrDead d (claim fails job_id r now s)
  unfolding claim
  claim-KeptOrDead job_id r now d s h = ground arith

  start_in-KeptOrDead :
      (job_id : String) (st : State) (created : Bool) (r : Receipt) (payload : String) (max now : ℕ)
      (d : Db) (s : TxState Db)
      → s.committed ≡ d
      → KeptOrDead d (start_in fails job_id st created r payload max now s)
  unfolding start_in
  start_in-KeptOrDead job_id succeeded created r payload max now d s h = ground arith
  start_in-KeptOrDead job_id dead created r payload max now d s h = ground arith
  start_in-KeptOrDead job_id failed created r payload max now d s h =
      bind-KeptOrDead d (when (not created) (settle_exhausted fails job_id r payload max now) s)
        (λ _. claim fails job_id r now)
        (settle_exhausted-GoesOn job_id created r payload max now d s h)
        (λ _ t k. claim-KeptOrDead job_id r now d t k)
  start_in-KeptOrDead job_id processing created r payload max now d s h =
      bind-KeptOrDead d (when (not created) (reclaim fails job_id r now) s)
        (λ _.
          when (not created) (settle_exhausted fails job_id r payload max now)
          >> claim fails job_id r now)
        (subst (λ x. GoesOn x (when (not created) (reclaim fails job_id r now) s)) h
          (reclaim-GoesOn job_id created r now s))
        (λ _ t k.
          bind-KeptOrDead d (when (not created) (settle_exhausted fails job_id r payload max now) t)
            (λ _. claim fails job_id r now)
            (settle_exhausted-GoesOn job_id created r payload max now d t k)
            (λ _ u l. claim-KeptOrDead job_id r now d u l))

  ensure_receipt-GoesOn :
      (job_id kind : String) (now : ℕ) (o : Option Receipt) (d : Db) (s : TxState Db)
      → s.committed ≡ d
      → GoesOn d (ensure_receipt fails job_id kind now o s)
  unfolding insert_receipt
  ensure_receipt-GoesOn job_id kind now none d s h = ground (arith, h)
  ensure_receipt-GoesOn job_id kind now (some r) d s h = h

  query-GoesOn :
      {A : Type 0} (b : Bool) (e : Error) (f : Db → A) (d : Db) (s : TxState Db)
      → s.committed ≡ d
      → GoesOn d (query b e f s)
  query-GoesOn true e f d s h = inl h
  query-GoesOn false e f d s h = h

  require-GoesOn :
      (b : Bool) (e : Error) (d : Db) (s : TxState Db) → s.committed ≡ d → GoesOn d (require b e s)
  require-GoesOn true e d s h = h
  require-GoesOn false e d s h = inl h

  start_tx-KeptOrDead :
      (job_id kind payload : String) (max created_at now : ℕ) (d : Db) (s : TxState Db)
      → s.committed ≡ d
      → KeptOrDead d (start_tx fails job_id kind payload max created_at now s)
  unfolding start_tx
  start_tx-KeptOrDead job_id kind payload max created_at now d s h =
      bind-KeptOrDead d _ _ (query-GoesOn (fails load_job) driver_error (load_receipt job_id) d s h)
        λ loaded t k.
          bind-KeptOrDead d _ _ (ensure_receipt-GoesOn job_id kind created_at loaded d t k) λ r u l.
            bind-KeptOrDead d _ _ (require-GoesOn (r.kind == kind) invalid_job d u l)
              λ _ v m. start_in-KeptOrDead job_id r.state (is_none loaded) r payload max now d v m

  transact-Kept :
      {A : Type 0} (b : Bool) (e : Error) (m : Tx Error Db A) (d : Db) (x : Error)
      → Kept d (m (record { committed = d; working = d }))
      → (transact b e m d).0 ≡ err x
      → (transact b e m d).1 ≡ d
  transact-Kept true e m d x h k = refl
  transact-Kept false e m d x h k = failed_run (m (record { committed = d; working = d })) h k
    where
      failed_run :
          {A : Type 0} (p : Result Error A × TxState Db)
          → Kept d p
          → p.0 ≡ err x
          → p.1.committed ≡ d
      failed_run (ok a, t) h k = absurd (cc k)
      failed_run (err y, t) h k = h

  transact-KeptOrDead :
      {A : Type 0} (b : Bool) (e : Error) (m : Tx Error Db A) (d : Db) (x : Error)
      → KeptOrDead d (m (record { committed = d; working = d }))
      → (transact b e m d).0 ≡ err x
      → x ≢ job_dead
      → (transact b e m d).1 ≡ d
  transact-KeptOrDead true e m d x h k n = refl
  transact-KeptOrDead false e m d x h k n =
      failed_run (m (record { committed = d; working = d })) h k
    where
      failed_run :
          {A : Type 0} (p : Result Error A × TxState Db)
          → KeptOrDead d p
          → p.0 ≡ err x
          → p.1.committed ≡ d
      failed_run (ok a, t) h k = absurd (cc k)
      failed_run (err y, t) (inl h) k = h
      failed_run (err y, t) (inr h) k = absurd (n (cc (h, k)))

  -- A MarkSucceeded that returns an error leaves the tables as they were, whichever statement the
  -- driver failed.
  pub mark_succeeded_atomic :
      (id now : ℕ) (d : Db) (x : Error)
      → (mark_succeeded fails id now d).0 ≡ err x
      → (mark_succeeded fails id now d).1 ≡ d
  unfolding mark_succeeded finish_attempt
  mark_succeeded_atomic id now d x =
      transact-Kept (fails begin_tx) driver_error _ d x (finish_tx-Kept id none "" 0 now _)

  -- A MarkFailed that returns an error leaves the tables as they were, whichever statement the driver
  -- failed.
  pub mark_failed_atomic :
      (id : ℕ) (o : Option String) (payload : String) (max now : ℕ) (d : Db) (x : Error)
      → (mark_failed fails id o payload max now d).0 ≡ err x
      → (mark_failed fails id o payload max now d).1 ≡ d
  unfolding finish_attempt mark_failed
  mark_failed_atomic id none payload max now d x _ = refl
  mark_failed_atomic id (some text) payload max now d x k =
      guarded (is_empty payload || ltb max 1) k
    where
      guarded :
          (b : Bool)
          → (if b
              then (err invalid_job, d)
              else finish_attempt fails id (some text) payload max now d).0
            ≡ err x
          → (if b
              then (err invalid_job, d)
              else finish_attempt fails id (some text) payload max now d).1
            ≡ d
      guarded true k = refl
      guarded false k =
          transact-Kept (fails begin_tx) driver_error _ d x
            (finish_tx-Kept id (some text) payload max now _) k

  -- A Start that returns an error other than that the job is dead leaves the tables as they were,
  -- whichever statement the driver failed.
  pub start_atomic :
      (job_id kind payload : String) (max created_at now : ℕ) (d : Db) (x : Error)
      → (start fails job_id kind payload max created_at now d).0 ≡ err x
      → x ≢ job_dead
      → (start fails job_id kind payload max created_at now d).1 ≡ d
  unfolding start
  start_atomic job_id kind payload max created_at now d x =
      guarded (is_empty job_id || is_empty kind || is_empty payload || ltb max 1)
    where
      run : Result Error StartResult × Db
      run =
          transact (fails begin_tx) driver_error
            (start_tx fails job_id kind payload max created_at now) d

      guarded :
          (b : Bool)
          → (if b then (err invalid_job, d) else run).0 ≡ err x
          → x ≢ job_dead
          → (if b then (err invalid_job, d) else run).1 ≡ d
      guarded true k n = refl
      guarded false k n =
          transact-KeptOrDead (fails begin_tx) driver_error _ d x
            (start_tx-KeptOrDead job_id kind payload max created_at now d _ refl) k n

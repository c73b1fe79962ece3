-- ===== src/Worker/Begins.antt =====
-- What Start does to the tables, whichever statements the driver fails.
use flick_drop.Base.{
  ℕ, ◌+◌, ◌≤◌, ◌<◌, ◌≡◌, refl, sym, inl, inr, String, Bool, true, false, ◌||◌, Option, none, some,
  arith, find, string_eq, ltb, ◌==◌, Bool-cases, subst, ap,
}
use flick_drop.Sql.{
  is_ok, Result, ok, err, Faults, Tx, TxState, transact, continue, ◌>>=◌, ◌>>◌, query, require,
}
use flick_drop.Worker.Tables.{
  State, processing, succeeded, failed, dead, Receipt, Db, is_none, load_receipt, failure_count,
  last_failure, insert_receipt, recover_interrupted,
}
use flick_drop.Worker.Store.{
  Error, Stmt, insert_job, begin_tx, load_job, driver_error, invalid_job, new_receipt,
  processing_lease, ensure_receipt, reclaim, settle_exhausted, claim, start_in, start_tx, start,
  is_empty,
}
use flick_drop.Worker.Moves.{claimed, buried}
use flick_drop.Worker.Parts.{
  opened, claim-outcome, Exhausted, settle_exhausted-Exhausted, settle_exhausted-below,
  reclaim-held,
}

-- Start of a job on tables `d`: it leaves them, or claims an attempt of a job that is new, failed or
-- past its lease and whose failures are below the limit, or buries a job whose failures have reached it.
pub data Begin (job_id kind payload : String) (max created_at now : ℕ) (d d' : Db) : Type 0 where
  leaves : d' ≡ d → Begin job_id kind payload max created_at now d d'
  takes_new :
      find job_id d.receipts ≡ none
      → d' ≡ claimed job_id 1 now (insert_receipt (new_receipt job_id kind created_at) d)
      → Begin job_id kind payload max created_at now d d'
  takes_failed :
      (r : Receipt)
      → find job_id d.receipts ≡ some r
      → (r.kind == kind) ≡ true
      → r.state ≡ failed
      → failure_count job_id d < max
      → d' ≡ claimed job_id (r.attempts + 1) now d
      → Begin job_id kind payload max created_at now d d'
  takes_expired :
      (r : Receipt)
      → find job_id d.receipts ≡ some r
      → (r.kind == kind) ≡ true
      → r.state ≡ processing
      → r.updated_at + processing_lease ≤ now
      → failure_count job_id (recover_interrupted job_id now d) < max
      → d' ≡ claimed job_id (r.attempts + 1) now (recover_interrupted job_id now d)
      → Begin job_id kind payload max created_at now d d'
  ends_failed :
      (r : Receipt) (e : String)
      → find job_id d.receipts ≡ some r
      → (r.kind == kind) ≡ true
      → r.state ≡ failed
      → max ≤ failure_count job_id d
      → last_failure job_id d ≡ some e
      → d' ≡ buried r payload e now d
      → Begin job_id kind payload max created_at now d d'
  ends_expired :
      (r : Receipt) (e : String)
      → find job_id d.receipts ≡ some r
      → (r.kind == kind) ≡ true
      → r.state ≡ processing
      → r.updated_at + processing_lease ≤ now
      → max ≤ failure_count job_id (recover_interrupted job_id now d)
      → last_failure job_id (recover_interrupted job_id now d) ≡ some e
      → d' ≡ buried r payload e now (recover_interrupted job_id now d)
      → Begin job_id kind payload max created_at now d d'

module _ (faults : Faults Stmt) (job_id kind payload : String) (max created_at now : ℕ)
    (d : Db) where
  abbrev Begun : Db → Type 0
  Begun d' = Begin job_id kind payload max created_at now d d'

  -- A part of Start: if it goes on, nothing is committed and it sees `w`.
  abbrev GoesTo : {A : Type 0} → Db → Result Error A × TxState Db → Type 0
  GoesTo w (ok a, t) = t ≡ opened d w
  GoesTo w (err e, t) = Begun t.committed

  abbrev Begins : {A : Type 0} → Result Error A × TxState Db → Type 0
  Begins p = Begun p.1.committed

  bind-Begins :
      {A B : Type 0} (w : Db) (p : Result Error A × TxState Db) (f : A → Tx Error Db B)
      → GoesTo w p
      → ((a : A) → p ≡ (ok a, opened d w) → Begins (f a (opened d w)))
      → Begins (continue p.0 f p.1)
  bind-Begins w (ok a, t) f h k = subst (λ u. Begins (f a u)) (sym h) (k a (ap (λ u. (ok a, u)) h))
  bind-Begins w (err e, t) f h k = h

  transact-Begins :
      {A : Type 0} (b : Bool) (e : Error) (m : Tx Error Db A)
      → Begins (m (opened d d))
      → Begun (transact b e m d).1
  transact-Begins true e m h = leaves refl
  transact-Begins false e m h = h

  claim-Begins :
      (r : Receipt) (w : Db)
      → ((d' : Db) → d' ≡ claimed job_id (r.attempts + 1) now w → Begun d')
      → Begins (claim faults job_id r now (opened d w))
  claim-Begins r w k = elim (claim-outcome faults job_id r now (opened d w)) [
    | inl e ↦ leaves e
    | inr e ↦ k _ e
  ]

  exhausted-GoesTo :
      (r : Receipt) (w : Db)
      → ((e : String) (d' : Db)
          → max ≤ failure_count job_id w
          → last_failure job_id w ≡ some e
          → d' ≡ buried r payload e now w
          → Begun d')
      → GoesTo w (settle_exhausted faults job_id r payload max now (opened d w))
  unfolding Exhausted
  exhausted-GoesTo r w k =
      goes (settle_exhausted faults job_id r payload max now (opened d w))
        (settle_exhausted-Exhausted faults job_id r payload max now (opened d w))
    where
      goes :
          (p : Result Error (Unit {0}) × TxState Db)
          → Exhausted faults job_id r payload max now (opened d w) p
          → GoesTo w p
      goes (ok a, t) q = cc (q.0, q.1)
      goes (err x, t) (inl e) = leaves e
      goes (err x, t) (inr q) = k _ _ q.0 q.1 q.2

  reclaim-GoesTo :
      (r : Receipt)
      → r.updated_at + processing_lease ≤ now
      → GoesTo (recover_interrupted job_id now d) (reclaim faults job_id r now (opened d d))
  unfolding reclaim
  reclaim-GoesTo r h = ground (arith, h)

  -- The count of failures and the claim, on the tables that Start sees there.
  rest-Begins :
      (r : Receipt) (w : Db)
      → ((e : String) (d' : Db)
          → max ≤ failure_count job_id w
          → last_failure job_id w ≡ some e
          → d' ≡ buried r payload e now w
          → Begun d')
      → ((d' : Db)
          → failure_count job_id w < max
          → d' ≡ claimed job_id (r.attempts + 1) now w
          → Begun d')
      → Begins (
          (settle_exhausted faults job_id r payload max now >> claim faults job_id r now)
            (opened d w))
  rest-Begins r w ended taken =
      bind-Begins w (settle_exhausted faults job_id r payload max now (opened d w))
        (λ _. claim faults job_id r now) (exhausted-GoesTo r w ended)
        (λ _ k. claim-Begins r w (λ d' c.
          taken d'
            (settle_exhausted-below faults job_id r payload max now (opened d w)
              (ap (λ p. is_ok p.0) k))
            c))

  known-Begins :
      (r : Receipt) (st : State)
      → find job_id d.receipts ≡ some r
      → (r.kind == kind) ≡ true
      → r.state ≡ st
      → Begins (start_in faults job_id st false r payload max now (opened d d))
  unfolding start_in
  known-Begins r succeeded f s e = ground (arith)
  known-Begins r dead f s e = leaves refl
  known-Begins r failed f s e =
      rest-Begins r d (λ x d' c l k. ends_failed r x f s e c l k)
        (λ d' c k. takes_failed r f s e c k)
  known-Begins r processing f s e = elim (Bool-cases (ltb now (r.updated_at + processing_lease))) [
    | inl held ↦ rw (reclaim-held faults job_id r now (opened d d) held) (leaves refl)
    | inr past ↦
        bind-Begins w (reclaim faults job_id r now (opened d d))
          (λ _. settle_exhausted faults job_id r payload max now >> claim faults job_id r now)
          (reclaim-GoesTo r (ground (arith, past)))
          (λ _ _.
            rest-Begins r w (λ x d' c l k. ends_expired r x f s e (ground (arith, past)) c l k)
              (λ d' c k. takes_expired r f s e (ground (arith, past)) c k))
  ]
    where
      w : Db
      w = recover_interrupted job_id now d

  new-Begins :
      find job_id d.receipts ≡ none
      → Begins (
          start_in faults job_id processing true
            (new_receipt job_id kind created_at)
            payload
            max
            now
            (opened d (insert_receipt (new_receipt job_id kind created_at) d)))
  unfolding start_in
  new-Begins f = claim-Begins (new_receipt job_id kind created_at) _ (λ d' k. takes_new f k)

  require-GoesTo : (b : Bool) (e : Error) (w : Db) → GoesTo w (require b e (opened d w))
  require-GoesTo true e w = refl
  require-GoesTo false e w = leaves refl

  loaded-Begins :
      (o : Option Receipt)
      → find job_id d.receipts ≡ o
      → Begins (
          (ensure_receipt faults job_id kind created_at o >>= λ r.
          require (r.kind == kind) invalid_job
          >> start_in faults job_id r.state (is_none o) r payload max now)
            (opened d d))
  loaded-Begins (some r) f = elim (Bool-cases (r.kind == kind)) [
    | inl same ↦ rw same (known-Begins r r.state f same refl)
    | inr other ↦ rw other (leaves refl)
  ]
  loaded-Begins none f = elim (Bool-cases (faults insert_job)) [
    | inl broken ↦ rw broken (leaves refl)
    | inr works ↦ rw works (
        bind-Begins w (require (kind == kind) invalid_job (opened d w))
          (λ _.
            start_in faults job_id processing true (new_receipt job_id kind created_at) payload max
              now)
          (require-GoesTo (kind == kind) invalid_job w) (λ _ _. new-Begins f))
  ]
    where
      w : Db
      w = insert_receipt (new_receipt job_id kind created_at) d

  query-GoesTo :
      {A : Type 0} (b : Bool) (e : Error) (f : Db → A) → GoesTo d (query b e f (opened d d))
  query-GoesTo true e f = leaves refl
  query-GoesTo false e f = refl

  query-ok :
      {A : Type 0} (b : Bool) (e : Error) (f : Db → A) (a : A)
      → query b e f (opened d d) ≡ (ok a, opened d d)
      → f d ≡ a
  query-ok true e f a h = absurd (cc h)
  query-ok false e f a h = cc h

  pub start-Begin :
      Begin job_id kind payload max created_at now d
        (start faults job_id kind payload max created_at now d).1
  unfolding start start_tx load_receipt
  start-Begin =
      elim (Bool-cases (is_empty job_id || is_empty kind || is_empty payload || ltb max 1)) [
        | inl refused ↦ rw refused (leaves refl)
        | inr admitted ↦ rw admitted (
            transact-Begins (faults begin_tx) driver_error
              (start_tx faults job_id kind payload max created_at now)
              (bind-Begins d
                (query (faults load_job) driver_error (load_receipt job_id) (opened d d)) _
                (query-GoesTo (faults load_job) driver_error (load_receipt job_id))
                (λ o k.
                  loaded-Begins o
                    (query-ok (faults load_job) driver_error (load_receipt job_id) o k))))
      ]

-- ===== src/Worker/Fails.antt =====
-- What MarkFailed may do, whichever statements the driver fails.
use flick_drop.Base.{
  ℕ, suc, ◌≡◌, refl, sym, ap, ◌∙◌, subst, inl, inr, String, Bool, true, false, ◌||◌, Option, none,
  some, arith, find, string_eq, ltb, leb, Bool-cases, Option-cases, if◌then◌else◌,
}
use flick_drop.Sql.{Faults, Result, ok, is_ok, TxState, Tx, transact}
use flick_drop.Worker.Tables.{
  processing, failed, running, Receipt, Attempt, Db, find_attempt, failure_count, load_attempt,
  load_receipt,
}
use flick_drop.Worker.Store.{
  Error, Stmt, begin_tx, driver_error, finish_tx, finish_attempt, mark_failed, is_empty,
}
use flick_drop.Worker.Invariant.{IsValidDb}
use flick_drop.Worker.Moves.{finished, buried}
use flick_drop.Worker.Keeps.{known_key, one_running}
use flick_drop.Worker.Failures.{HasFailed, finished-HasFailed, buried-HasFailed, find_attempt-id}
use flick_drop.Worker.Parts.{opened}
use flick_drop.Worker.Settles.{failure-outcome, unknown-stays, orphan-stays}

-- An error that leaves the tables, or an answer with a failure of the live attempt `id`: its error is
-- the given one, and the answer and the job's death follow the limit.
pub data Failure (id : ℕ) (o : Option String) (payload : String) (max now : ℕ) (d : Db)
    (p : Result Error Bool × Db) : Type 0 where
  refuses : is_ok p.0 ≡ false → p.1 ≡ d → Failure id o payload max now d p
  records :
      (a : Attempt) (r : Receipt) (text : String)
      → o ≡ some text
      → find_attempt id d.attempts ≡ some a
      → a.result ≡ running
      → find a.job_id d.receipts ≡ some r
      → r.state ≡ processing
      → r.attempts ≡ a.attempt
      → p.0 ≡ ok (leb max (suc (failure_count a.job_id d)))
      → ((row : ℕ) (job : String)
          → HasFailed a r text payload now (leb max (suc (failure_count a.job_id d))) row job d p.1)
      → Failure id o payload max now d p

abbrev view : Result Error Bool × TxState Db → Result Error Bool × Db
view p = (p.0, p.1.committed)

-- The tables after a failure by the limit, on valid tables.
settled-HasFailed :
    (a : Attempt) (r : Receipt) (text payload : String) (max now row : ℕ) (job : String) (d : Db)
    → find_attempt a.id d.attempts ≡ some a
    → a.result ≡ running
    → find a.job_id d.receipts ≡ some r
    → r.state ≡ processing
    → IsValidDb d
    → let w = finished a a.id (some text) now d in
      let last = leb max (suc (failure_count a.job_id d)) in
      HasFailed a r text payload now last row job d
        (if last then buried (record r { state = failed }) payload text now w else w)
settled-HasFailed a r text payload max now row job d f u g s v =
    elim (Bool-cases (leb max (suc (failure_count a.job_id d)))) [
      | inl l ↦ rw l (
          buried-HasFailed a r text payload now d f u g (one_running a.job_id r d g s v) row job
            (sym (known_key a.job_id r d g v)))
      | inr l ↦
          rw l (
            finished-HasFailed a r text payload now d f u g (one_running a.job_id r d g s v) row
              job)
    ]

counted :
    (a : Attempt) (r : Receipt) (text : String) (now : ℕ) (d : Db)
    → find_attempt a.id d.attempts ≡ some a
    → a.result ≡ running
    → find a.job_id d.receipts ≡ some r
    → r.state ≡ processing
    → IsValidDb d
    → failure_count a.job_id (finished a a.id (some text) now d) ≡ suc (failure_count a.job_id d)
counted a r text now d f u g s v =
    (finished-HasFailed a r text text now d f u g (one_running a.job_id r d g s v) 0 text).1

module _ (faults : Faults Stmt) (text payload : String) (max now : ℕ) (d : Db)
    (v : IsValidDb d) where
  abbrev run : ℕ → Result Error Bool × TxState Db
  run id = finish_tx faults id (some text) payload max now (opened d d)

  known-Failure :
      (a : Attempt) (r : Receipt)
      → find_attempt a.id d.attempts ≡ some a
      → find a.job_id d.receipts ≡ some r
      → Failure a.id (some text) payload max now d (view (run a.id))
  known-Failure a r f g = elim (failure-outcome faults a.id text payload max now d a r f g) [
    | inl e ↦ refuses e.0 e.1
    | inr (u, s, n, b, c) ↦
        records a r text refl f u g s n
          (b ∙ ap (λ x. ok (leb max x)) (counted a r text now d f u g s v))
          (λ row job.
            subst (HasFailed a r text payload now _ row job d)
              (sym (
                c
                ∙ ap
                    (λ x.
                      if leb max x
                      then buried (record r { state = failed }) payload text now
                          (finished a a.id (some text) now d)
                      else finished a a.id (some text) now d)
                    (counted a r text now d f u g s v)))
              (settled-HasFailed a r text payload max now row job d f u g s v))
  ]

  unknown-refused : (id : ℕ) → find_attempt id d.attempts ≡ none → is_ok (run id).0 ≡ false
  unfolding finish_tx load_attempt
  unknown-refused id e = ground (arith, e)

  orphan-refused :
      (id : ℕ) (a : Attempt)
      → find_attempt id d.attempts ≡ some a
      → find a.job_id d.receipts ≡ none
      → is_ok (run id).0 ≡ false
  unfolding finish_tx load_attempt load_receipt
  orphan-refused id a f e = ground (arith, f, e)

  finish_tx-Failure : (id : ℕ) → Failure id (some text) payload max now d (view (run id))
  finish_tx-Failure id = elim (Option-cases (find_attempt id d.attempts)) [
    | inl e ↦
        refuses (unknown-refused id e) (unknown-stays faults id (some text) payload max now d e)
    | inr (a, f) ↦ elim (Option-cases (find a.job_id d.receipts)) [
      | inl e ↦
          refuses (orphan-refused id a f e)
            (orphan-stays faults id (some text) payload max now d a f e)
      | inr (r, g) ↦
          subst (λ i. Failure i (some text) payload max now d (view (run i)))
            (find_attempt-id id d.attempts a f)
            (known-Failure a r
              (subst (λ i. find_attempt i d.attempts ≡ some a)
                (sym (find_attempt-id id d.attempts a f)) f)
              g)
    ]
  ]

transact-Failure :
    (b : Bool) (id : ℕ) (o : Option String) (payload : String) (max now : ℕ) (d : Db)
    (m : Tx Error Db Bool)
    → Failure id o payload max now d (view (m (opened d d)))
    → Failure id o payload max now d (transact b driver_error m d)
transact-Failure true id o payload max now d m h = refuses refl refl
transact-Failure false id o payload max now d m h = h

-- Whatever statement the driver fails, MarkFailed on valid tables either answers an error and leaves
-- the tables as they were, or records a failure of the attempt with its id, which runs under a receipt
-- that is processing it: the row has the given error and the time, the job has one failure more, its
-- receipt is failed, or dead with a letter of the payload just when the failures have reached the given
-- limit, which is also the answer, and no other row, receipt or letter is changed.
pub mark_failed-Failure :
    (faults : Faults Stmt) (id : ℕ) (o : Option String) (payload : String) (max now : ℕ) (d : Db)
    → IsValidDb d
    → Failure id o payload max now d (mark_failed faults id o payload max now d)
unfolding mark_failed finish_attempt
mark_failed-Failure faults id none payload max now d v = refuses refl refl
mark_failed-Failure faults id (some text) payload max now d v =
    elim (Bool-cases (is_empty payload || ltb max 1)) [
      | inl refused ↦ rw refused (refuses refl refl)
      | inr admitted ↦ rw admitted (
          transact-Failure (faults begin_tx) id (some text) payload max now d
            (finish_tx faults id (some text) payload max now)
            (finish_tx-Failure faults text payload max now d v id))
    ]

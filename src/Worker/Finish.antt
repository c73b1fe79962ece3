-- ===== src/Worker/Finish.antt =====
-- What MarkSucceeded and MarkFailed do with an attempt that is live.
use flick_drop.Base.{
  ℕ, suc, ◌≤◌, ◌≡◌, refl, sym, subst, inl, inr, String, true, false, ◌||◌, none, some, arith,
  string_eq, if◌then◌else◌, find, Bool-cases, ltb, leb,
}
use flick_drop.Sql.{TxState, ok}
use flick_drop.Worker.Tables.{
  processing, failed, running, Receipt, Attempt, Db, find_attempt, load_attempt, load_receipt,
  failure_count,
}
use flick_drop.Worker.Counts.{count_running}
use flick_drop.Worker.Invariant.{IsValidDb}
use flick_drop.Worker.Keeps.{find-finished, settled_receipt, known_key, one_running}
use flick_drop.Worker.Failures.{HasFailed, finished-HasFailed, buried-HasFailed}
use flick_drop.Worker.Moves.{finished, buried}
use flick_drop.Worker.Store.{
  dead_letter, is_empty, mark_succeeded, mark_failed, finish_attempt, finish_tx, settle,
  settle_failure,
}
use flick_drop.Worker.Verdict.{no_faults}

-- The attempt's row is there and runs, and the job's receipt is processing it.
pub record IsLive (a : Attempt) (d : Db) : Type 0 where
  pub row : find_attempt a.id d.attempts ≡ some a
  pub runs : a.result ≡ running
  pub receipt : Receipt
  pub found : find a.job_id d.receipts ≡ some receipt
  pub state : receipt.state ≡ processing
  pub attempt : receipt.attempts ≡ a.attempt

-- When the driver fails no statement, MarkSucceeded of a live attempt succeeds, and the attempt's row and the job's receipt have
-- the success.
pub mark_succeeded-IsLive :
    (a : Attempt) (now : ℕ) (d : Db)
    → IsLive a d
    → mark_succeeded no_faults a.id now d ≡ (ok false, finished a a.id none now d)
unfolding mark_succeeded finish_attempt finish_tx load_attempt load_receipt settle finished
mark_succeeded-IsLive a now d l = ground (arith, l.row, l.runs, l.found, l.state, l.attempt)

finish_tx-IsLive :
    (a : Attempt) (text payload : String) (max now : ℕ) (d : Db) (l : IsLive a d)
    → finish_tx no_faults a.id (some text) payload max now (record { committed = d; working = d })
      ≡ settle_failure no_faults a.job_id l.receipt text payload max now
          (record { committed = d; working = finished a a.id (some text) now d })
unfolding finish_tx load_attempt load_receipt settle finished
finish_tx-IsLive a text payload max now d l =
    ground (arith, l.row, l.runs, l.found, l.state, l.attempt)

settle_failure-below :
    (job : String) (r : Receipt) (text payload : String) (max now : ℕ) (s : TxState Db)
    → leb max (failure_count job s.working) ≡ false
    → settle_failure no_faults job r text payload max now s
      ≡ (ok false, record s { committed = s.working })
unfolding settle_failure
settle_failure-below job r text payload max now s h = ground (arith, h)

settle_failure-reached :
    (job : String) (r q : Receipt) (text payload : String) (max now : ℕ) (s : TxState Db)
    → leb max (failure_count job s.working) ≡ true
    → find r.job_id s.working.receipts ≡ some q
    → q.state ≡ failed
    → q.attempts ≡ r.attempts
    → let p = settle_failure no_faults job r text payload max now s in
      (p.0 ≡ ok true)
      × (p.1.committed ≡ buried (record r { state = failed }) payload text now s.working)
unfolding settle_failure dead_letter buried
settle_failure-reached job r q text payload max now s h f k n = ground (arith, h, f, k, n)

mark_failed-writes :
    (a : Attempt) (text payload : String) (max now : ℕ) (d : Db) (l : IsLive a d)
    → (is_empty payload || ltb max 1) ≡ false
    → l.receipt.job_id ≡ a.job_id
    → let w = finished a a.id (some text) now d in
      mark_failed no_faults a.id (some text) payload max now d ≡ (
        if leb max (failure_count a.job_id w)
        then (ok true, buried (record l.receipt { state = failed }) payload text now w)
        else (ok false, w))
unfolding mark_failed finish_attempt
mark_failed-writes a text payload max now d l h k =
    elim (Bool-cases (leb max (failure_count a.job_id (finished a a.id (some text) now d)))) [
      | inl reached ↦
          rw (h, reached, finish_tx-IsLive a text payload max now d l)
            (cc ((died reached).0, (died reached).1))
      | inr below ↦
          rw
            (
              h,
              below,
              finish_tx-IsLive a text payload max now d l,
              settle_failure-below a.job_id l.receipt text payload max now
                  (record { committed = d; working = finished a a.id (some text) now d }) below,
            )
            refl
    ]
  where
    w : Db
    w = finished a a.id (some text) now d

    q : Receipt
    q = settled_receipt l.receipt (some text) now

    died :
        leb max (failure_count a.job_id w) ≡ true
        → let p =
            settle_failure no_faults a.job_id l.receipt text payload max now
              (record { committed = d; working = w }) in
          (p.0 ≡ ok true)
          × (p.1.committed ≡ buried (record l.receipt { state = failed }) payload text now w)
    died reached =
        settle_failure-reached a.job_id l.receipt q text payload max now
          (record { committed = d; working = w }) reached
          (subst (λ i. find i w.receipts ≡ some q) (sym k)
            (find-finished a.id a l.receipt (some text) now d l.found))
          refl refl

-- When the driver fails no statement, MarkFailed of a live attempt on valid tables, with a payload and
-- a positive limit, answers whether the job's failures and one more have reached the limit, and
-- records the failure: the attempt's row is failed with its time and error, the job has one failure
-- more, its receipt is failed, or dead if the limit is reached, with the error, and its letter is
-- there just then; the rows of other ids and the receipts and letters of other jobs are as they were.
pub mark_failed-IsLive :
    (a : Attempt) (text payload : String) (max now id : ℕ) (job : String) (d : Db) (l : IsLive a d)
    → (is_empty payload || ltb max 1) ≡ false
    → IsValidDb d
    → let reached = leb max (suc (failure_count a.job_id d)) in
      let p = mark_failed no_faults a.id (some text) payload max now d in
      (p.0 ≡ ok reached) × HasFailed a l.receipt text payload now reached id job d p.1
mark_failed-IsLive a text payload max now id job d l h v =
    rw (mark_failed-writes a text payload max now d l h key, counted)
      (elim (Bool-cases (leb max (suc (failure_count a.job_id d)))) [
        | inl reached ↦ rw reached (
          refl,
          buried-HasFailed a l.receipt text payload now d l.row l.runs l.found one id job key,
        )
        | inr below ↦ rw below (
          refl,
          finished-HasFailed a l.receipt text payload now d l.row l.runs l.found one id job,
        )
      ])
  where
    key : l.receipt.job_id ≡ a.job_id
    key = sym (known_key a.job_id l.receipt d l.found v)

    one : count_running a.job_id d.attempts ≤ 1
    one = one_running a.job_id l.receipt d l.found l.state v

    counted :
        failure_count a.job_id (finished a a.id (some text) now d) ≡ suc (failure_count a.job_id d)
    counted = (finished-HasFailed a l.receipt text payload now d l.row l.runs l.found one id job).1

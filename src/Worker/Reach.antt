-- ===== src/Worker/Reach.antt =====
-- Sequences of operations on the receipt store, each with the driver's faults, and what holds after them.
use flick_drop.Base.{
  ℕ, ◌+◌, ◌<◌, ◌≡◌, refl, String, false, ◌&&◌, Option, some, List, [], ◌∷◌, arith, nat_beq,
  string_eq, find,
}
use flick_drop.Sql.{Faults, is_ok}
use flick_drop.Worker.Tables.{
  processing, Receipt, Attempt, Db, find_attempt, is_running, state_eq, load_attempt, load_receipt,
}
use flick_drop.Worker.Store.{
  Stmt, start, start_tx, start_in, reclaim, mark_succeeded, mark_failed, finish_attempt, finish_tx,
  processing_lease,
}
use flick_drop.Worker.Refines.{start-Move}
use flick_drop.Worker.Settles.{mark_succeeded-Move, mark_failed-Move}
use flick_drop.Worker.Invariant.{IsValidDb}
use flick_drop.Worker.Keeps.{Move-IsValid}

-- One operation of a worker.
pub data Call : Type 0 where
  start_job : (job_id kind payload : String) (max_failures created_at now : ℕ) → Call
  succeed : (id now : ℕ) → Call
  fail : (id : ℕ) (job_error : Option String) (payload : String) (max_failures now : ℕ) → Call

abbrev pub apply : Faults Stmt → Call → Db → Db
apply faults (start_job job kind payload max created now) d =
    (start faults job kind payload max created now d).1
apply faults (succeed id now) d = (mark_succeeded faults id now d).1
apply faults (fail id o payload max now) d = (mark_failed faults id o payload max now d).1

abbrev pub run_calls : List (Faults Stmt × Call) → Db → Db
run_calls [] d = d
run_calls ((faults, call) ∷ calls) d = run_calls calls (apply faults call d)

abbrev pub no_rows : Db
no_rows = record { receipts = []; attempts = []; dead_letters = []; next_id = 1 }

pub apply-IsValid :
    (faults : Faults Stmt) (call : Call) (d : Db) → IsValidDb d → IsValidDb (apply faults call d)
apply-IsValid faults (start_job job kind payload max created now) d =
    Move-IsValid d _ (start-Move faults job kind payload max created now d)
apply-IsValid faults (succeed id now) d = Move-IsValid d _ (mark_succeeded-Move faults id now d)
apply-IsValid faults (fail id o payload max now) d =
    Move-IsValid d _ (mark_failed-Move faults id o payload max now d)

run_calls-IsValid :
    (calls : List (Faults Stmt × Call)) (d : Db) → IsValidDb d → IsValidDb (run_calls calls d)
run_calls-IsValid [] d v = v
run_calls-IsValid ((faults, call) ∷ calls) d v =
    run_calls-IsValid calls _ (apply-IsValid faults call d v)

no_rows-IsValid : IsValidDb no_rows
unfolding find
no_rows-IsValid = record { jobs = λ j. (refl, refl); ids = tt }

-- From empty tables, whatever the workers call in whatever order, and whichever statements the driver
-- fails on the way: a job has as many attempt rows as its receipt counts, it has a running one only
-- if it is processing and then at most one, every row's id is below the next, and a dead job has a
-- dead letter with the error of its receipt.
pub run_calls-IsValidDb : (calls : List (Faults Stmt × Call)) → IsValidDb (run_calls calls no_rows)
run_calls-IsValidDb calls = run_calls-IsValid calls no_rows no_rows-IsValid

module _ (faults : Faults Stmt) where
  -- A Start of a job whose receipt is processing and within its lease changes nothing and claims
  -- nothing, whichever statement the driver fails.
  pub start-held :
      (job_id kind payload : String) (max created_at now : ℕ) (d : Db) (r : Receipt)
      → find job_id d.receipts ≡ some r
      → r.state ≡ processing
      → now < r.updated_at + processing_lease
      → ((start faults job_id kind payload max created_at now d).1 ≡ d)
        × (is_ok (start faults job_id kind payload max created_at now d).0 ≡ false)
  unfolding start start_tx start_in reclaim load_receipt
  start-held job_id kind payload max created_at now d r f s l = ground (arith, f, s)

  -- MarkSucceeded and MarkFailed of an attempt that is finished, or that is no longer the one that its
  -- job's receipt is processing, change nothing and report an error, whichever statement the driver
  -- fails.
  pub finish-stale :
      (id : ℕ) (o : Option String) (payload : String) (max now : ℕ) (d : Db) (a : Attempt)
      (r : Receipt)
      → find_attempt id d.attempts ≡ some a
      → find a.job_id d.receipts ≡ some r
      → (is_running a.result && (state_eq r.state processing && nat_beq r.attempts a.attempt))
        ≡ false
      → ((finish_attempt faults id o payload max now d).1 ≡ d)
        × (is_ok (finish_attempt faults id o payload max now d).0 ≡ false)
  unfolding finish_attempt finish_tx load_attempt load_receipt
  finish-stale id o payload max now d a r f g h = ground (arith, f, g, h)

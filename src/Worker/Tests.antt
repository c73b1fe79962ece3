-- ===== src/Worker/Tests.antt =====
-- The receipt store on concrete inputs: two workers, and a driver that fails at the commit.
use flick_drop.Base.{suc, ◌≡◌, refl, true, false, none, some, [], ◌∷◌, string_eq, find, insert, leb}
use flick_drop.Sql.{Faults, ok, is_ok}
use flick_drop.Worker.Tables.{
  processing, succeeded, running, attempt_succeeded, Receipt, Attempt, Db, failure_count,
  finish_running, claim_receipt, settle_receipt, insert_attempt, upsert_dead_letter,
}
use flick_drop.Worker.Store.{
  Stmt, commit_tx, driver_error, start, finish_attempt, mark_succeeded, mark_failed,
}
use flick_drop.Worker.Atomic.{mark_failed_atomic}
use flick_drop.Worker.Starts.{Starts, start-Starts}
use flick_drop.Worker.Fails.{Failure, mark_failed-Failure}
use flick_drop.Worker.Failures.{HasFailed}
use flick_drop.Worker.Invariant.{IsValidDb}
use flick_drop.Worker.Reach.{
  Call, start_job, succeed, fail, no_rows, run_calls, run_calls-IsValidDb, finish-stale,
}
use flick_drop.Worker.Verdict.{no_faults, answer, verdict, start-verdict}
use flick_drop.Worker.Finish.{IsLive, mark_failed-IsLive}
use flick_drop.Worker.Final.{run_calls-final}

abbrev at_commit : Faults Stmt
at_commit commit_tx = true
at_commit _ = false

abbrev begun : Call
begun = start_job "job" "delete" "{}" 2 5 5

-- The tables after one Start, after the success of its attempt, and after a failure of it.
abbrev one : Db
one = run_calls ((no_faults, begun) ∷ []) no_rows

abbrev succeeded_once : Db
succeeded_once = run_calls ((no_faults, begun) ∷ (no_faults, succeed 1 7) ∷ []) no_rows

abbrev failed_once : Db
failed_once =
    run_calls ((no_faults, begun) ∷ (no_faults, fail 1 (some "boom") "{}" 2 7) ∷ []) no_rows

one-IsValid : IsValidDb one
one-IsValid = run_calls-IsValidDb ((no_faults, begun) ∷ [])

failed_once-IsValid : IsValidDb failed_once
failed_once-IsValid =
    run_calls-IsValidDb ((no_faults, begun) ∷ (no_faults, fail 1 (some "boom") "{}" 2 7) ∷ [])

abbrev first : Attempt
first = record {
  id = 1;
  job_id = "job";
  attempt = 1;
  started_at = 5;
  finished_at = none;
  result = running;
  error = none;
}

abbrev claimed_receipt : Receipt
claimed_receipt = record {
  job_id = "job";
  kind = "delete";
  state = processing;
  attempts = 1;
  last_error = none;
  first_seen_at = 5;
  updated_at = 5;
  completed_at = none;
}

abbrev succeeded_receipt : Receipt
succeeded_receipt = record claimed_receipt {
  state = succeeded;
  updated_at = 7;
  completed_at = some 7;
}

first-IsLive : IsLive first one
unfolding start mark_succeeded mark_failed finish_attempt find insert claim_receipt insert_attempt
    finish_running settle_receipt upsert_dead_letter failure_count
first-IsLive = record {
  row = refl;
  runs = refl;
  receipt = claimed_receipt;
  found = refl;
  state = refl;
  attempt = refl;
}

mark_failed_atomic_example : (mark_failed at_commit 1 (some "boom") "{}" 2 7 one).1 ≡ one
unfolding start mark_succeeded mark_failed finish_attempt find insert claim_receipt insert_attempt
    finish_running settle_receipt upsert_dead_letter failure_count
mark_failed_atomic_example =
    mark_failed_atomic at_commit 1 (some "boom") "{}" 2 7 one driver_error refl

start-Starts_example :
    Starts "job" "delete" "{}" 2 9 9 failed_once
      (start no_faults "job" "delete" "{}" 2 9 9 failed_once).1
start-Starts_example =
    start-Starts no_faults "job" "delete" "{}" 2 9 9 failed_once failed_once-IsValid

mark_failed-Failure_example :
    Failure 1 (some "boom") "{}" 1 7 one (mark_failed no_faults 1 (some "boom") "{}" 1 7 one)
mark_failed-Failure_example = mark_failed-Failure no_faults 1 (some "boom") "{}" 1 7 one one-IsValid

run_calls-IsValidDb_example : IsValidDb (
    run_calls
      ((no_faults, begun)
        ∷ (at_commit, succeed 1 7)
        ∷ (no_faults, fail 1 (some "boom") "{}" 1 8)
        ∷ [])
      no_rows)
run_calls-IsValidDb_example = run_calls-IsValidDb (
    (no_faults, begun) ∷ (at_commit, succeed 1 7) ∷ (no_faults, fail 1 (some "boom") "{}" 1 8) ∷ [])

finish-stale_example :
    ((finish_attempt no_faults 1 none "" 0 9 succeeded_once).1 ≡ succeeded_once)
    × (is_ok (finish_attempt no_faults 1 none "" 0 9 succeeded_once).0 ≡ false)
unfolding start mark_succeeded mark_failed finish_attempt find insert claim_receipt insert_attempt
    finish_running settle_receipt upsert_dead_letter failure_count
finish-stale_example =
    finish-stale no_faults 1 none "" 0 9 succeeded_once
      (record first { finished_at = some 7; result = attempt_succeeded }) succeeded_receipt refl
      refl refl

start-verdict_example :
    answer (start no_faults "job" "delete" "{}" 2 9 9 failed_once).0
    ≡ verdict (find "job" failed_once.receipts) "delete" (failure_count "job" failed_once) 2 9
start-verdict_example =
    start-verdict "job" "delete" "{}" 2 9 9 failed_once refl
      (run_calls-IsValidDb ((no_faults, begun) ∷ (no_faults, fail 1 (some "boom") "{}" 2 7) ∷ []))

mark_failed-IsLive_example :
    let p = mark_failed no_faults 1 (some "boom") "{}" 1 7 one in
    (p.0 ≡ ok (leb 1 (suc (failure_count "job" one))))
    × HasFailed first first-IsLive.receipt "boom" "{}" 7
        (leb 1 (suc (failure_count "job" one)))
        1
        "job"
        one
        p.1
mark_failed-IsLive_example =
    mark_failed-IsLive first "boom" "{}" 1 7 1 "job" one first-IsLive refl one-IsValid

run_calls-final_example :
    find "job"
      (run_calls ((no_faults, start_job "job" "delete" "{}" 2 9 9) ∷ []) succeeded_once).receipts
    ≡ some succeeded_receipt
unfolding start mark_succeeded mark_failed finish_attempt find insert claim_receipt insert_attempt
    finish_running settle_receipt upsert_dead_letter failure_count
run_calls-final_example =
    run_calls-final ((no_faults, start_job "job" "delete" "{}" 2 9 9) ∷ []) succeeded_once "job"
      succeeded_receipt (run_calls-IsValidDb ((no_faults, begun) ∷ (no_faults, succeed 1 7) ∷ []))
      refl refl

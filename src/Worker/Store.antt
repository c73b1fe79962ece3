-- ===== src/Worker/Store.antt =====
-- internal/worker/store.go: Start, MarkSucceeded and MarkFailed of ReceiptStore, each one transaction.
-- The clock's readings are arguments. `created_at` is read only for a receipt that is new.
use flick_drop.Base.{
  ℕ, ◌+◌, String, Bool, false, not, ◌&&◌, ◌||◌, Option, none, some, ltb, leb, nat_beq, ◌==◌,
  string_eq, if◌then◌else◌, find,
}
use flick_drop.Sql.{
  Result, err, Faults, Tx, ◌>>=◌, ◌>>◌, pure, throw, query, transact, exec, commit, require, when,
}
use flick_drop.Worker.Tables.{
  State, processing, succeeded, failed, dead, AttemptResult, running, attempt_succeeded,
  attempt_failed, Receipt, Attempt, Db, state_eq, is_running, is_none, is_at, load_receipt,
  load_attempt, find_attempt, is_running_row, failure_count, last_failure, insert_receipt,
  recover_interrupted, finish_running, claim_receipt, settle_receipt, insert_attempt,
  upsert_dead_letter,
}

pub data Error : Type 0 where
  invalid_job not_found job_dead job_processing stale_attempt : Error
  job_error_required no_final_failure driver_error : Error

-- The statements of the three operations.
pub data Stmt : Type 0 where
  begin_tx load_job insert_job recover_job count_rows load_error update_dead insert_letter : Stmt
  claim_job insert_row read_id load_row finish_row update_job read_affected : Stmt
  read_settled read_buried commit_tx : Stmt

pub data StartResult : Type 0 where
  started : Attempt → StartResult
  already_succeeded : StartResult

-- One minute.
abbrev pub processing_lease : ℕ
processing_lease = 60000000000

abbrev pub is_empty : String → Bool
is_empty s = s == ""

-- The receipt that Start inserts for a job it has not seen.
abbrev pub new_receipt : String → String → ℕ → Receipt
new_receipt job_id kind now = record {
  job_id = job_id;
  kind = kind;
  state = processing;
  attempts = 0;
  last_error = none;
  first_seen_at = now;
  updated_at = now;
  completed_at = none;
}

-- A handler's outcome: none is a success, some text is a failure with its error text.
abbrev pub result_of : Option String → AttemptResult
result_of none = attempt_succeeded
result_of (some text) = attempt_failed

abbrev pub state_of : Option String → State
state_of none = succeeded
state_of (some text) = failed

abbrev pub completed_of : Option String → ℕ → Option ℕ
completed_of none now = some now
completed_of (some text) now = none

module _ (fails : Faults Stmt) where
  abbrev require_text : Option String → Tx Error Db String
  require_text none = throw no_final_failure
  require_text (some e) = pure e

  -- deadLetter: the receipt must still be in the state and at the attempt that it was loaded in.
  unfoldable pub dead_letter : Receipt → String → String → ℕ → Tx Error Db (Unit {0})
  dead_letter r payload e now = do
    matched ←
        query (fails update_dead) driver_error
          (λ d. is_at r.state r.attempts (find r.job_id d.receipts))
    when matched (exec false driver_error (settle_receipt r.job_id dead (some e) now (some now)))
    exec (fails read_buried) driver_error (λ d. d)
    require matched not_found
    exec (fails insert_letter) driver_error (
        upsert_dead_letter (record {
          job_id = r.job_id;
          kind = r.kind;
          payload_json = payload;
          error = e;
          created_at = now;
        }))

  abbrev pub ensure_receipt : String → String → ℕ → Option Receipt → Tx Error Db Receipt
  ensure_receipt job_id kind now (some r) = pure r
  ensure_receipt job_id kind now none = do
    exec (fails insert_job) driver_error (insert_receipt (new_receipt job_id kind now))
    pure (new_receipt job_id kind now)

  -- A processing receipt within its lease is refused, and one past it gives up its running attempt.
  unfoldable pub reclaim : String → Receipt → ℕ → Tx Error Db (Unit {0})
  reclaim job_id r now =
      if ltb now (r.updated_at + processing_lease)
      then throw job_processing
      else exec (fails recover_job) driver_error (recover_interrupted job_id now)

  -- The transition that an older worker may have left out.
  unfoldable pub settle_exhausted : String → Receipt → String → ℕ → ℕ → Tx Error Db (Unit {0})
  unfolding dead_letter
  settle_exhausted job_id r payload max_failures now = do
    failures ← query (fails count_rows) driver_error (failure_count job_id)
    when (leb max_failures failures) (do
      text ← query (fails load_error) driver_error (last_failure job_id)
      e ← require_text text
      dead_letter r payload e now
      commit (fails commit_tx) driver_error
      throw job_dead)

  unfoldable pub claim : String → Receipt → ℕ → Tx Error Db StartResult
  claim job_id r now = do
    let n = r.attempts + 1
    present ← query (fails claim_job) driver_error (λ d. not (is_none (find job_id d.receipts)))
    exec false driver_error (claim_receipt job_id n now)
    exec (fails read_affected) driver_error (λ d. d)
    require present not_found
    id ← query (fails insert_row) driver_error (λ d. d.next_id)
    exec (fails read_id) driver_error (insert_attempt job_id n now)
    commit (fails commit_tx) driver_error
    pure (
        started (record {
          id = id;
          job_id = job_id;
          attempt = n;
          started_at = now;
          finished_at = none;
          result = running;
          error = none;
        }))

  -- What Start does with a receipt whose kind is right.
  unfoldable pub start_in :
      String → State → Bool → Receipt → String → ℕ → ℕ → Tx Error Db StartResult
  unfolding reclaim settle_exhausted claim
  start_in job_id succeeded created r payload max_failures now = do
    commit (fails commit_tx) driver_error
    pure already_succeeded
  start_in job_id dead created r payload max_failures now = throw job_dead
  start_in job_id processing created r payload max_failures now = do
    when (not created) (reclaim job_id r now)
    when (not created) (settle_exhausted job_id r payload max_failures now)
    claim job_id r now
  start_in job_id failed created r payload max_failures now = do
    when (not created) (settle_exhausted job_id r payload max_failures now)
    claim job_id r now

  unfoldable pub start_tx : String → String → String → ℕ → ℕ → ℕ → Tx Error Db StartResult
  unfolding start_in load_receipt insert_receipt
  start_tx job_id kind payload max_failures created_at now = do
    loaded ← query (fails load_job) driver_error (load_receipt job_id)
    r ← ensure_receipt job_id kind created_at loaded
    require (r.kind == kind) invalid_job
    start_in job_id r.state (is_none loaded) r payload max_failures now

  unfoldable pub start : String → String → String → ℕ → ℕ → ℕ → Db → Result Error StartResult × Db
  unfolding start_tx
  start job_id kind payload max_failures created_at now d =
      if is_empty job_id || is_empty kind || is_empty payload || ltb max_failures 1
      then (err invalid_job, d)
      else transact (fails begin_tx) driver_error
          (start_tx job_id kind payload max_failures created_at now) d

  abbrev require_attempt : Option Attempt → Tx Error Db Attempt
  require_attempt none = throw not_found
  require_attempt (some a) = pure a

  abbrev require_receipt : Option Receipt → Tx Error Db Receipt
  require_receipt none = throw not_found
  require_receipt (some r) = pure r

  -- The last part of a failed attempt: at the limit the job is dead.
  unfoldable pub settle_failure : String → Receipt → String → String → ℕ → ℕ → Tx Error Db Bool
  unfolding dead_letter
  settle_failure job_id r text payload max_failures now = do
    failures ← query (fails count_rows) driver_error (failure_count job_id)
    when (leb max_failures failures) (dead_letter (record r { state = failed }) payload text now)
    commit (fails commit_tx) driver_error
    pure (leb max_failures failures)

  abbrev pub settle_success : Tx Error Db Bool
  settle_success = do commit (fails commit_tx) driver_error; pure false

  unfoldable pub settle : String → Option String → Receipt → String → ℕ → ℕ → Tx Error Db Bool
  unfolding settle_failure
  settle job_id none r payload max_failures now = settle_success
  settle job_id (some text) r payload max_failures now =
      settle_failure job_id r text payload max_failures now

  unfoldable pub finish_tx : ℕ → Option String → String → ℕ → ℕ → Tx Error Db Bool
  unfolding settle load_attempt load_receipt finish_running settle_receipt
  finish_tx id outcome payload max_failures now = do
    row ← query (fails load_row) driver_error (load_attempt id)
    a ← require_attempt row
    require (is_running a.result) stale_attempt
    job ← query (fails load_job) driver_error (load_receipt a.job_id)
    r ← require_receipt job
    require (state_eq r.state processing && nat_beq r.attempts a.attempt) stale_attempt
    found ← query (fails finish_row) driver_error (λ d. is_running_row (find_attempt id d.attempts))
    when found (exec false driver_error (finish_running id (result_of outcome) now outcome))
    exec (fails read_affected) driver_error (λ d. d)
    require found not_found
    matched ←
        query (fails update_job) driver_error
          (λ d. is_at processing a.attempt (find a.job_id d.receipts))
    when matched (
        exec false driver_error
          (settle_receipt a.job_id (state_of outcome) outcome now (completed_of outcome now)))
    exec (fails read_settled) driver_error (λ d. d)
    require matched stale_attempt
    settle a.job_id outcome r payload max_failures now

  unfoldable pub finish_attempt : ℕ → Option String → String → ℕ → ℕ → Db → Result Error Bool × Db
  unfolding finish_tx
  finish_attempt id outcome payload max_failures now d =
      transact (fails begin_tx) driver_error (finish_tx id outcome payload max_failures now) d

  unfoldable pub mark_succeeded : ℕ → ℕ → Db → Result Error Bool × Db
  unfolding finish_attempt
  mark_succeeded id now d = finish_attempt id none "" 0 now d

  unfoldable pub mark_failed : ℕ → Option String → String → ℕ → ℕ → Db → Result Error Bool × Db
  unfolding finish_attempt
  mark_failed id none payload max_failures now d = (err job_error_required, d)
  mark_failed id (some text) payload max_failures now d =
      if is_empty payload || ltb max_failures 1
      then (err invalid_job, d)
      else finish_attempt id (some text) payload max_failures now d

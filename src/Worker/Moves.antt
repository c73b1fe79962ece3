-- ===== src/Worker/Moves.antt =====
-- What one operation of the receipt store may do to the tables: an abstract view with no statements,
-- no transactions and no driver faults.
use flick_drop.Base.{ℕ, ◌+◌, ◌≤◌, ◌≡◌, String, Option, none, some, find, string_eq}
use flick_drop.Worker.Tables.{
  processing, failed, dead, running, Receipt, Attempt, Db, failure_count, last_failure,
  insert_receipt, recover_interrupted, finish_running, claim_receipt, settle_receipt,
  insert_attempt, upsert_dead_letter, find_attempt,
}
use flick_drop.Worker.Store.{new_receipt, processing_lease, result_of, state_of, completed_of}

-- A new attempt of the job: its receipt is processing at attempt `n`, with a running row.
unfoldable pub claimed : String → ℕ → ℕ → Db → Db
claimed job_id n now d = insert_attempt job_id n now (claim_receipt job_id n now d)

-- The job is dead, and its letter is there.
unfoldable pub buried : Receipt → String → String → ℕ → Db → Db
buried r payload e now d =
    upsert_dead_letter
      (record {
        job_id = r.job_id;
        kind = r.kind;
        payload_json = payload;
        error = e;
        created_at = now;
      })
      (settle_receipt r.job_id dead (some e) now (some now) d)

-- The attempt's row and the job's receipt have the handler's outcome.
unfoldable pub finished : Attempt → ℕ → Option String → ℕ → Db → Db
finished a id o now d =
    settle_receipt a.job_id (state_of o) o now (completed_of o now)
      (finish_running id (result_of o) now o d)

pub data Move (d d' : Db) : Type 0 where
  stays : d' ≡ d → Move d d'
  claims_new :
      (job_id kind : String) (created_at now : ℕ)
      → find job_id d.receipts ≡ none
      → d' ≡ claimed job_id (0 + 1) now (insert_receipt (new_receipt job_id kind created_at) d)
      → Move d d'
  claims_failed :
      (job_id : String) (r : Receipt) (now : ℕ)
      → find job_id d.receipts ≡ some r
      → r.state ≡ failed
      → d' ≡ claimed job_id (r.attempts + 1) now d
      → Move d d'
  reclaims :
      (job_id : String) (r : Receipt) (now : ℕ)
      → find job_id d.receipts ≡ some r
      → r.state ≡ processing
      → r.updated_at + processing_lease ≤ now
      → d' ≡ claimed job_id (r.attempts + 1) now (recover_interrupted job_id now d)
      → Move d d'
  buries_failed :
      (job_id : String) (r : Receipt) (payload e : String) (max now : ℕ)
      → find job_id d.receipts ≡ some r
      → r.state ≡ failed
      → max ≤ failure_count job_id d
      → last_failure job_id d ≡ some e
      → d' ≡ buried r payload e now d
      → Move d d'
  buries_interrupted :
      (job_id : String) (r : Receipt) (payload e : String) (max now : ℕ)
      → find job_id d.receipts ≡ some r
      → r.state ≡ processing
      → r.updated_at + processing_lease ≤ now
      → max ≤ failure_count job_id (recover_interrupted job_id now d)
      → last_failure job_id (recover_interrupted job_id now d) ≡ some e
      → d' ≡ buried r payload e now (recover_interrupted job_id now d)
      → Move d d'
  succeeds :
      (id : ℕ) (a : Attempt) (r : Receipt) (now : ℕ)
      → find_attempt id d.attempts ≡ some a
      → a.result ≡ running
      → find a.job_id d.receipts ≡ some r
      → r.state ≡ processing
      → r.attempts ≡ a.attempt
      → d' ≡ finished a id none now d
      → Move d d'
  fails :
      (id : ℕ) (a : Attempt) (r : Receipt) (text : String) (now : ℕ)
      → find_attempt id d.attempts ≡ some a
      → a.result ≡ running
      → find a.job_id d.receipts ≡ some r
      → r.state ≡ processing
      → r.attempts ≡ a.attempt
      → d' ≡ finished a id (some text) now d
      → Move d d'
  dies :
      (id : ℕ) (a : Attempt) (r : Receipt) (text payload : String) (max now : ℕ)
      → find_attempt id d.attempts ≡ some a
      → a.result ≡ running
      → find a.job_id d.receipts ≡ some r
      → r.state ≡ processing
      → r.attempts ≡ a.attempt
      → max ≤ failure_count a.job_id (finished a id (some text) now d)
      → d' ≡ buried (record r { state = failed }) payload text now (finished a id (some text) now d)
      → Move d d'

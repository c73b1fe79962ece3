-- ===== src/Worker/Claims.antt =====
-- A claim and a burial of a job (internal/worker/store.go), row by row.
use flick_drop.Base.{
  ℕ, ◌+◌, ◌≡◌, refl, sym, subst, String, ◌&&◌, none, some, List, [], ◌∷◌, ◌++◌, arith, ◌==◌,
  string_eq, if◌then◌else◌, find, find-insert, beq_self,
}
use flick_drop.Worker.Tables.{
  processing, dead, running, attempt_failed, Receipt, Attempt, Db, is_running, find_attempt,
  count_failures, failure_count, last_failure_in, last_failure, update_where, finish_row,
  recover_interrupted, claim_receipt, insert_attempt, update_receipt, settle_receipt,
  upsert_dead_letter,
}
use flick_drop.Worker.Counts.{count_running, count_running-append, find_attempt-append}
use flick_drop.Worker.Invariant.{IsValidDb}
use flick_drop.Worker.Moves.{claimed, buried}

abbrev pub running_row : ℕ → String → ℕ → ℕ → Attempt
running_row id job n now = record {
  id = id;
  job_id = job;
  attempt = n;
  started_at = now;
  finished_at = none;
  result = running;
  error = none;
}

-- The receipt with its next attempt.
abbrev pub next_receipt : Receipt → ℕ → Receipt
next_receipt r now = record {
  job_id = r.job_id;
  kind = r.kind;
  state = processing;
  attempts = r.attempts + 1;
  last_error = none;
  first_seen_at = r.first_seen_at;
  updated_at = now;
  completed_at = r.completed_at;
}

abbrev pub dead_receipt : Receipt → String → ℕ → Receipt
dead_receipt r e now = record {
  job_id = r.job_id;
  kind = r.kind;
  state = dead;
  attempts = r.attempts;
  last_error = some e;
  first_seen_at = r.first_seen_at;
  updated_at = now;
  completed_at = some now;
}

-- The job's receipt has its next attempt, whose row is the only one of the job that runs; the failures
-- of every job, every letter and every other receipt are as they were.
abbrev pub HasClaimed : String → Receipt → ℕ → String → Db → Db → Type 0
HasClaimed job_id r now job d d' =
    (find job d'.receipts
      ≡ (if job_id == job then some (next_receipt r now) else find job d.receipts))
    × (find_attempt d.next_id d'.attempts
        ≡ some (running_row d.next_id job_id (r.attempts + 1) now))
    × (count_running job_id d'.attempts ≡ 1)
    × (failure_count job d' ≡ failure_count job d)
    × (find job d'.dead_letters ≡ find job d.dead_letters)

-- The job is dead with an error and has a letter, and no row of it runs; the failures of every job and
-- every other receipt and letter are as they were.
abbrev pub HasBuried : String → Receipt → String → String → ℕ → String → Db → Db → Type 0
HasBuried job_id r payload e now job d d' =
    (find job d'.receipts
      ≡ (if job_id == job then some (dead_receipt r e now) else find job d.receipts))
    × (count_running job_id d'.attempts ≡ 0)
    × (failure_count job d' ≡ failure_count job d)
    × (find job d'.dead_letters ≡ (
        if job_id == job
        then some (record {
          job_id = job_id;
          kind = r.kind;
          payload_json = payload;
          error = e;
          created_at = now;
        })
        else find job d.dead_letters))

count_failures-append :
    (job : String) (rows : List Attempt) (a : Attempt)
    → a.result ≡ running
    → count_failures job (rows ++ a ∷ []) ≡ count_failures job rows
count_failures-append job [] a u = rw u (ground arith)
count_failures-append job (b ∷ rows) a u = ground (arith, count_failures-append job rows a u)

count_failures-recover :
    (job j : String) (now : ℕ) (rows : List Attempt)
    → count_failures j (
        update_where
          (λ a. a.job_id == job && is_running a.result)
          (finish_row attempt_failed now none)
          rows)
      ≡ count_failures j rows
count_failures-recover job j now [] = refl
count_failures-recover job j now (a ∷ rows) = ground (arith, count_failures-recover job j now rows)

last_failure_in-recover :
    (job : String) (now : ℕ) (rows : List Attempt)
    → last_failure_in job (
        update_where
          (λ a. a.job_id == job && is_running a.result)
          (finish_row attempt_failed now none)
          rows)
      ≡ last_failure_in job rows
last_failure_in-recover job now [] = refl
last_failure_in-recover job now (a ∷ rows) = ground (arith, last_failure_in-recover job now rows)

pub failure_count-recovered :
    (job j : String) (now : ℕ) (d : Db)
    → failure_count j (recover_interrupted job now d) ≡ failure_count j d
unfolding failure_count recover_interrupted
failure_count-recovered job j now d = count_failures-recover job j now d.attempts

pub last_failure-recovered :
    (job : String) (now : ℕ) (d : Db)
    → last_failure job (recover_interrupted job now d) ≡ last_failure job d
unfolding last_failure recover_interrupted
last_failure-recovered job now d =
    rw (last_failure, last_failure_in-recover job now d.attempts) refl

-- A claim on tables whose job has no running row.
pub claimed-HasClaimed :
    (job_id : String) (r : Receipt) (now : ℕ) (job : String) (d : Db)
    → find job_id d.receipts ≡ some r
    → count_running job_id d.attempts ≡ 0
    → IsValidDb d
    → HasClaimed job_id r now job d (claimed job_id (r.attempts + 1) now d)
unfolding claimed claim_receipt insert_attempt failure_count
claimed-HasClaimed job_id r now job d f z v =
    rw (claimed, insert_attempt, claim_receipt, update_receipt, f)
      (
        find-insert job_id job (next_receipt r now) d.receipts,
        find_attempt-append d.next_id d.attempts (running_row d.next_id job_id (r.attempts + 1) now)
            v.ids refl,
        rw
            (
              count_running-append job_id d.attempts
                  (running_row d.next_id job_id (r.attempts + 1) now),
              z,
              beq_self job_id,
            )
            refl,
        count_failures-append job d.attempts (running_row d.next_id job_id (r.attempts + 1) now)
            refl,
        refl,
      )

buried_row :
    (r : Receipt) (payload e : String) (now : ℕ) (job : String) (d : Db)
    → find r.job_id d.receipts ≡ some r
    → count_running r.job_id d.attempts ≡ 0
    → HasBuried r.job_id r payload e now job d (buried r payload e now d)
unfolding buried settle_receipt upsert_dead_letter failure_count
buried_row r payload e now job d f z =
    rw (buried, settle_receipt, upsert_dead_letter, update_receipt, f)
      (
        find-insert r.job_id job (dead_receipt r e now) d.receipts,
        z,
        refl,
        find-insert r.job_id job _ d.dead_letters,
      )

pub buried-HasBuried :
    (job_id : String) (r : Receipt) (payload e : String) (now : ℕ) (job : String) (d : Db)
    → find job_id d.receipts ≡ some r
    → job_id ≡ r.job_id
    → count_running job_id d.attempts ≡ 0
    → HasBuried job_id r payload e now job d (buried r payload e now d)
buried-HasBuried job_id r payload e now job d f k z =
    subst (λ i. HasBuried i r payload e now job d (buried r payload e now d)) (sym k)
      (buried_row r payload e now job d (subst (λ i. find i d.receipts ≡ some r) k f)
        (subst (λ i. count_running i d.attempts ≡ 0) k z))

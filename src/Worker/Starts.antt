-- ===== src/Worker/Starts.antt =====
-- What Start does to the tables, row by row.
use flick_drop.Base.{
  ℕ, ◌+◌, ◌≤◌, ◌<◌, ◌≡◌, refl, sym, ◌∙◌, subst, ◌⊎◌, inl, inr, String, true, none, some, arith,
  ◌==◌, string_eq, find, find-insert, beq_self,
}
use flick_drop.Sql.{Faults}
use flick_drop.Worker.Tables.{
  processing, failed, Receipt, Db, failure_count, last_failure, insert_receipt, recover_interrupted,
}
use flick_drop.Worker.Store.{Stmt, start, new_receipt, processing_lease}
use flick_drop.Worker.Counts.{count_running-recover}
use flick_drop.Worker.Invariant.{IsValidDb, insert_receipt-IsValid, recover-IsValid}
use flick_drop.Worker.Moves.{claimed, buried}
use flick_drop.Worker.Keeps.{idle, unknown_idle, known_key}
use flick_drop.Worker.Begins.{
  Begin, leaves, takes_new, takes_failed, takes_expired, ends_failed, ends_expired, start-Begin,
}
use flick_drop.Worker.Claims.{
  HasClaimed, HasBuried, claimed-HasClaimed, buried-HasBuried, failure_count-recovered,
  last_failure-recovered,
}

-- The job failed, or its last attempt is past its lease.
abbrev pub MayRetry : Receipt → ℕ → Type 0
MayRetry r now =
    (r.state ≡ failed) ⊎ ((r.state ≡ processing) × (r.updated_at + processing_lease ≤ now))

pub data Starts (job_id kind payload : String) (max created_at now : ℕ) (d d' : Db) : Type 0 where
  unchanged : d' ≡ d → Starts job_id kind payload max created_at now d d'
  first_claim :
      find job_id d.receipts ≡ none
      → ((job : String) → HasClaimed job_id (new_receipt job_id kind created_at) now job d d')
      → Starts job_id kind payload max created_at now d d'
  claim_again :
      (r : Receipt)
      → find job_id d.receipts ≡ some r
      → (r.kind == kind) ≡ true
      → MayRetry r now
      → failure_count job_id d < max
      → ((job : String) → HasClaimed job_id r now job d d')
      → Starts job_id kind payload max created_at now d d'
  burial :
      (r : Receipt) (e : String)
      → find job_id d.receipts ≡ some r
      → (r.kind == kind) ≡ true
      → MayRetry r now
      → max ≤ failure_count job_id d
      → last_failure job_id d ≡ some e
      → ((job : String) → HasBuried job_id r payload e now job d d')
      → Starts job_id kind payload max created_at now d d'

module _ (job_id : String) (now : ℕ) (d : Db) (v : IsValidDb d) where
  first-HasClaimed :
      (kind : String) (created_at : ℕ) (job : String)
      → find job_id d.receipts ≡ none
      → HasClaimed job_id
          (new_receipt job_id kind created_at)
          now
          job
          d
          (claimed job_id 1 now (insert_receipt (new_receipt job_id kind created_at) d))
  unfolding insert_receipt failure_count
  first-HasClaimed kind created_at job f = ground (
    arith,
    claimed-HasClaimed job_id (new_receipt job_id kind created_at) now job
        (insert_receipt (new_receipt job_id kind created_at) d)
        (rw
          (
            find-insert job_id job_id (new_receipt job_id kind created_at) d.receipts,
            beq_self job_id,
          )
          refl)
        (unknown_idle job_id (find job_id d.receipts) _ _ _ (v.jobs job_id) f)
        (insert_receipt-IsValid (new_receipt job_id kind created_at) d f refl refl v),
    find-insert job_id job (new_receipt job_id kind created_at) d.receipts,
  )

  expired-HasClaimed :
      (r : Receipt) (job : String)
      → find job_id d.receipts ≡ some r
      → HasClaimed job_id r now job d
          (claimed job_id (r.attempts + 1) now (recover_interrupted job_id now d))
  unfolding recover_interrupted
  expired-HasClaimed r job f = (h.0, h.1, h.2, h.3 ∙ failure_count-recovered job_id job now d, h.4)
    where
      h :
          HasClaimed job_id r now job
            (recover_interrupted job_id now d)
            (claimed job_id (r.attempts + 1) now (recover_interrupted job_id now d))
      h =
          claimed-HasClaimed job_id r now job (recover_interrupted job_id now d) f
            (count_running-recover job_id now d.attempts) (recover-IsValid job_id now d v)

  expired-HasBuried :
      (r : Receipt) (payload e job : String)
      → find job_id d.receipts ≡ some r
      → HasBuried job_id r payload e now job d
          (buried r payload e now (recover_interrupted job_id now d))
  unfolding recover_interrupted
  expired-HasBuried r payload e job f =
      (h.0, h.1, h.2 ∙ failure_count-recovered job_id job now d, h.3)
    where
      h :
          HasBuried job_id r payload e now job
            (recover_interrupted job_id now d)
            (buried r payload e now (recover_interrupted job_id now d))
      h =
          buried-HasBuried job_id r payload e now job (recover_interrupted job_id now d) f
            (known_key job_id r d f v) (count_running-recover job_id now d.attempts)

  Begin-Starts :
      (kind payload : String) (max created_at : ℕ) (d' : Db)
      → Begin job_id kind payload max created_at now d d'
      → Starts job_id kind payload max created_at now d d'
  Begin-Starts kind payload max created_at d' (leaves e) = unchanged e
  Begin-Starts kind payload max created_at d' (takes_new f e) = first_claim f (λ job.
      subst (HasClaimed job_id (new_receipt job_id kind created_at) now job d) (sym e)
        (first-HasClaimed kind created_at job f))
  Begin-Starts kind payload max created_at d' (takes_failed r f k s l e) =
      claim_again r f k (inl s) l (λ job.
        subst (HasClaimed job_id r now job d) (sym e)
          (claimed-HasClaimed job_id r now job d f (idle job_id r failed d f s refl v) v))
  Begin-Starts kind payload max created_at d' (takes_expired r f k s p l e) =
      claim_again r f k (inr (s, p))
        (subst (λ n. n < max) (failure_count-recovered job_id job_id now d) l)
        (λ job. subst (HasClaimed job_id r now job d) (sym e) (expired-HasClaimed r job f))
  Begin-Starts kind payload max created_at d' (ends_failed r x f k s c l e) =
      burial r x f k (inl s) c l (λ job. subst (HasBuried job_id r payload x now job d) (sym e) (
        buried-HasBuried job_id r payload x now job d f (known_key job_id r d f v)
          (idle job_id r failed d f s refl v)))
  Begin-Starts kind payload max created_at d' (ends_expired r x f k s p c l e) =
      burial r x f k (inr (s, p))
        (subst (λ n. max ≤ n) (failure_count-recovered job_id job_id now d) c)
        (sym (last_failure-recovered job_id now d) ∙ l)
        (λ job.
          subst (HasBuried job_id r payload x now job d) (sym e)
            (expired-HasBuried r payload x job f))

-- Whatever statement the driver fails, Start of a job on valid tables leaves the tables as they were,
-- or claims the job or buries it. It claims a job that is new, or one of the given kind that failed or
-- is past its lease and whose failures are below the given limit: its receipt has the next attempt,
-- whose row is the only one that runs. It buries a job of the given kind that failed or is past its
-- lease and whose failures have reached the limit: the receipt is dead with the error of the last
-- failure, and the letter has it and the payload. The failures of every job and every other receipt
-- and letter are as they were.
pub start-Starts :
    (faults : Faults Stmt) (job_id kind payload : String) (max created_at now : ℕ) (d : Db)
    → IsValidDb d
    → Starts job_id kind payload max created_at now d
        (start faults job_id kind payload max created_at now d).1
start-Starts faults job_id kind payload max created_at now d v =
    Begin-Starts job_id now d v kind payload max created_at _
      (start-Begin faults job_id kind payload max created_at now d)

-- ===== src/Worker/Verdict.antt =====
-- What Start answers when the driver fails no statement, as one table.
use flick_drop.Base.{
  ℕ, ◌+◌, ◌≤◌, ◌≡◌, refl, sym, ap, ◌∙◌, subst, inl, inr, String, true, false, ◌&&◌, ◌||◌, Option,
  none, some, List, [], ◌∷◌, arith, nat_beq, ◌==◌, string_eq, if◌then◌else◌, find, find-insert,
  beq_self, Bool-cases, ltb, leb, Option-cases,
}
use flick_drop.Sql.{require, Faults, TxState, Result, ok, err, continue, ◌>>=◌, ◌>>◌}
use flick_drop.Worker.Tables.{
  State, processing, succeeded, failed, dead, Receipt, Attempt, Db, is_running, load_receipt,
  count_failures, last_failure_in, failure_count, last_failure, recover_interrupted, update_where,
  finish_row, attempt_failed, is_none, insert_receipt,
}
use flick_drop.Worker.Invariant.{IsValidDb}
use flick_drop.Worker.Keeps.{known_key}
use flick_drop.Worker.Store.{
  new_receipt, ensure_receipt, Stmt, Error, StartResult, started, already_succeeded, start,
  start_tx, start_in, reclaim, settle_exhausted, claim, dead_letter, invalid_job, job_dead,
  job_processing, processing_lease, is_empty,
}

abbrev pub no_faults : Faults Stmt
no_faults s = false

-- The answers of Start: a claim of the attempt with a number, the old success, or an error.
pub data Verdict : Type 0 where
  claims : ℕ → Verdict
  done : Verdict
  refused : Error → Verdict

abbrev pub answer : Result Error StartResult → Verdict
answer (ok (started a)) = claims a.attempt
answer (ok already_succeeded) = done
answer (err e) = refused e

abbrev next_attempt : Receipt → ℕ → ℕ → Verdict
next_attempt r failures max = if leb max failures then refused job_dead else claims (r.attempts + 1)

abbrev by_state : State → Receipt → ℕ → ℕ → ℕ → Verdict
by_state succeeded r failures max now = done
by_state dead r failures max now = refused job_dead
by_state failed r failures max now = next_attempt r failures max
by_state processing r failures max now =
    if ltb now (r.updated_at + processing_lease)
    then refused job_processing
    else next_attempt r failures max

-- The table: by the job's receipt, the count of its failures, the limit and the time.
unfoldable pub verdict : Option Receipt → String → ℕ → ℕ → ℕ → Verdict
verdict none kind failures max now = claims 1
verdict (some r) kind failures max now =
    if r.kind == kind then by_state r.state r failures max now else refused invalid_job

-- Interrupted attempts do not count as failures.
failure_count-recover :
    (job : String) (now : ℕ) (rows : List Attempt)
    → count_failures job (
        update_where
          (λ a. a.job_id == job && is_running a.result)
          (finish_row attempt_failed now none)
          rows)
      ≡ count_failures job rows
failure_count-recover job now [] = refl
failure_count-recover job now (a ∷ rows) = ground (arith, failure_count-recover job now rows)

-- A job that has failures has a last one.
last_failure_in-exists :
    (job : String) (rows : List Attempt)
    → is_none (last_failure_in job rows) ≡ nat_beq (count_failures job rows) 0
last_failure_in-exists job [] = refl
last_failure_in-exists job (a ∷ rows) = ground (arith, last_failure_in-exists job rows)

last_failure-exists :
    (job : String) (max : ℕ) (d : Db)
    → 1 ≤ max
    → max ≤ failure_count job d
    → is_none (last_failure job d) ≡ false
unfolding last_failure failure_count
last_failure-exists job max d h l = ground (arith, last_failure_in-exists job d.attempts)

settle_exhausted-dead :
    (job : String) (r : Receipt) (payload : String) (max now : ℕ) (s : TxState Db) (e : String)
    → leb max (failure_count job s.working) ≡ true
    → last_failure job s.working ≡ some e
    → find r.job_id s.working.receipts ≡ some r
    → (settle_exhausted no_faults job r payload max now s).0 ≡ err job_dead
unfolding settle_exhausted dead_letter
settle_exhausted-dead job r payload max now s e l h f = ground (arith, l, h, f)

settle_exhausted-goes_on :
    (job : String) (r : Receipt) (payload : String) (max now : ℕ) (s : TxState Db)
    → leb max (failure_count job s.working) ≡ false
    → settle_exhausted no_faults job r payload max now s ≡ (ok tt, s)
unfolding settle_exhausted
settle_exhausted-goes_on job r payload max now s l = ground (arith, l)

claim-answer :
    (job : String) (r : Receipt) (now : ℕ) (s : TxState Db) (q : Receipt)
    → find job s.working.receipts ≡ some q
    → answer (claim no_faults job r now s).0 ≡ claims (r.attempts + 1)
unfolding claim
claim-answer job r now s q f = ground (arith, f)

-- The part of Start after the lease, on the tables that it sees there.
rest-answer :
    (job : String) (r : Receipt) (payload : String) (max now : ℕ) (s : TxState Db)
    → 1 ≤ max
    → find job s.working.receipts ≡ some r
    → r.job_id ≡ job
    → answer ((settle_exhausted no_faults job r payload max now >> claim no_faults job r now) s).0
      ≡ next_attempt r (failure_count job s.working) max
rest-answer job r payload max now s h f k =
    elim (Bool-cases (leb max (failure_count job s.working))) [
      | inl l ↦ elim (Option-cases (last_failure job s.working)) [
        | inl e ↦ absurd (cc (e, last_failure-exists job max s.working h (ground (arith, l))))
        | inr (x, e) ↦ rw (l) (
            stopped (settle_exhausted no_faults job r payload max now s) (
              settle_exhausted-dead job r payload max now s x l e
                (subst (λ i. find i s.working.receipts ≡ some r) (sym k) f)))
      ]
      | inr l ↦
          rw (settle_exhausted-goes_on job r payload max now s l, l) (claim-answer job r now s r f)
    ]
  where
    stopped :
        (p : Result Error (Unit {0}) × TxState Db)
        → p.0 ≡ err job_dead
        → answer (continue p.0 (λ _. claim no_faults job r now) p.1).0 ≡ refused job_dead
    stopped (ok a, t) e = absurd (cc e)
    stopped (err x, t) e = cc e

unrecovered_find :
    (job : String) (r : Receipt) (now : ℕ) (d : Db)
    → find job d.receipts ≡ some r
    → find job (recover_interrupted job now d).receipts ≡ some r
unfolding recover_interrupted
unrecovered_find job r now d f = f

unrecovered_count :
    (job : String) (now : ℕ) (d : Db)
    → failure_count job (recover_interrupted job now d) ≡ failure_count job d
unfolding recover_interrupted failure_count
unrecovered_count job now d = failure_count-recover job now d.attempts

known-answer :
    (job : String) (st : State) (r : Receipt) (payload : String) (max now : ℕ) (d : Db)
    → 1 ≤ max
    → find job d.receipts ≡ some r
    → r.job_id ≡ job
    → answer
        (start_in no_faults job st false r payload max now
          (record { committed = d; working = d })).0
      ≡ by_state st r (failure_count job d) max now
unfolding start_in
known-answer job succeeded r payload max now d h f k = refl
known-answer job dead r payload max now d h f k = refl
known-answer job failed r payload max now d h f k = rest-answer job r payload max now _ h f k
known-answer job processing r payload max now d h f k =
    elim (Bool-cases (ltb now (r.updated_at + processing_lease))) [
      | inl held ↦ rw (reclaim, held) refl
      | inr past ↦
          rw (reclaim, past)
            (rest-answer job r payload max now _ h (unrecovered_find job r now d f) k
              ∙ ap (λ n. next_attempt r n max) (unrecovered_count job now d))
    ]

new-answer :
    (job kind payload : String) (max created_at now : ℕ) (d : Db)
    → answer
        (start_in no_faults job processing true
          (new_receipt job kind created_at)
          payload
          max
          now
          (record {
            committed = d;
            working = insert_receipt (new_receipt job kind created_at) d;
          })).0
      ≡ claims 1
unfolding start_in insert_receipt
new-answer job kind payload max created_at now d =
    claim-answer job (new_receipt job kind created_at) now _ (new_receipt job kind created_at)
      (rw (find-insert job job (new_receipt job kind created_at) d.receipts, beq_self job) refl)

loaded-answer :
    (job kind payload : String) (max created_at now : ℕ) (d : Db) (o : Option Receipt)
    → find job d.receipts ≡ o
    → 1 ≤ max
    → IsValidDb d
    → answer
        ((ensure_receipt no_faults job kind created_at o >>= λ r.
            require (r.kind == kind) invalid_job
            >> start_in no_faults job r.state (is_none o) r payload max now)
          (record { committed = d; working = d })).0
      ≡ verdict o kind (failure_count job d) max now
unfolding verdict
loaded-answer job kind payload max created_at now d none f h v =
    rw (beq_self kind) (new-answer job kind payload max created_at now d)
loaded-answer job kind payload max created_at now d (some r) f h v =
    elim (Bool-cases (r.kind == kind)) [
      | inl same ↦
          rw same (known-answer job r.state r payload max now d h f (sym (known_key job r d f v)))
      | inr other ↦ rw other refl
    ]

-- When the driver fails no statement, Start of a job on valid tables, with arguments that it accepts,
-- answers what the table says: attempt 1 for a new job, the old success or death again, a refusal for
-- another kind or within the lease, and else the next attempt, unless the job's failures have reached
-- the limit; an interrupted attempt is none of them.
pub start-verdict :
    (job_id kind payload : String) (max created_at now : ℕ) (d : Db)
    → (is_empty job_id || is_empty kind || is_empty payload || ltb max 1) ≡ false
    → IsValidDb d
    → answer (start no_faults job_id kind payload max created_at now d).0
      ≡ verdict (find job_id d.receipts) kind (failure_count job_id d) max now
unfolding start start_tx load_receipt verdict
start-verdict job kind payload max created_at now d a v = rw a (
    loaded-answer job kind payload max created_at now d (find job d.receipts) refl
      (ground (arith, a)) v)

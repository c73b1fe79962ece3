-- ===== src/Worker/Rows.antt =====
-- The job of a row of job_attempts, through the moves.
use flick_drop.Base.{
  ℕ, ◌+◌, ◌≡◌, refl, ◌∙◌, String, Bool, Option, none, some, List, [], ◌∷◌, ◌++◌, arith, string_eq,
}
use flick_drop.Sql.{Faults}
use flick_drop.Worker.Tables.{
  State, AttemptResult, attempt_failed, Receipt, Attempt, Db, update_where, finish_row,
  find_attempt, insert_receipt, recover_interrupted, finish_running, update_receipt, claim_receipt,
  settle_receipt, insert_attempt, upsert_dead_letter,
}
use flick_drop.Worker.Store.{new_receipt, Stmt, result_of}
use flick_drop.Worker.Moves.{
  Move, stays, claims_new, claims_failed, reclaims, buries_failed, buries_interrupted, succeeds,
  fails, dies, claimed, buried, finished,
}
use flick_drop.Worker.Reach.{Call, apply, run_calls}
use flick_drop.Worker.Final.{apply-Move}

abbrev pub job_of : Option Attempt → Option String
job_of none = none
job_of (some a) = some a.job_id

find_attempt-update :
    (id : ℕ) (p : Attempt → Bool) (r : AttemptResult) (now : ℕ) (e : Option String)
    (rows : List Attempt)
    → job_of (find_attempt id (update_where p (finish_row r now e) rows))
      ≡ job_of (find_attempt id rows)
find_attempt-update id p r now e [] = refl
find_attempt-update id p r now e (a ∷ rows) = ground (arith, find_attempt-update id p r now e rows)

find_attempt-append :
    (id : ℕ) (rows : List Attempt) (a : Attempt) (j : String)
    → job_of (find_attempt id rows) ≡ some j
    → job_of (find_attempt id (rows ++ a ∷ [])) ≡ some j
find_attempt-append id [] a j h = absurd (cc h)
find_attempt-append id (b ∷ rows) a j h = ground (arith, h, find_attempt-append id rows a j)

abbrev pub HasRow : ℕ → String → Db → Type 0
HasRow id j d = job_of (find_attempt id d.attempts) ≡ some j

update_receipt-HasRow :
    (id : ℕ) (j job : String) (f : Receipt → Receipt) (d : Db)
    → HasRow id j d
    → HasRow id j (update_receipt job f d)
update_receipt-HasRow id j job f d h = ground (arith, h)

claimed-HasRow :
    (id : ℕ) (j job : String) (n now : ℕ) (d : Db)
    → HasRow id j d
    → HasRow id j (claimed job n now d)
unfolding claimed claim_receipt insert_attempt
claimed-HasRow id j job n now d h =
    find_attempt-append id _ _ j (update_receipt-HasRow id j job _ d h)

recover-HasRow :
    (id : ℕ) (j job : String) (now : ℕ) (d : Db)
    → HasRow id j d
    → HasRow id j (recover_interrupted job now d)
unfolding recover_interrupted
recover-HasRow id j job now d h = find_attempt-update id _ attempt_failed now none d.attempts ∙ h

buried-HasRow :
    (id : ℕ) (j : String) (q : Receipt) (payload e : String) (now : ℕ) (d : Db)
    → HasRow id j d
    → HasRow id j (buried q payload e now d)
unfolding buried settle_receipt upsert_dead_letter
buried-HasRow id j q payload e now d h = update_receipt-HasRow id j q.job_id _ d h

finished-HasRow :
    (id : ℕ) (j : String) (a : Attempt) (i : ℕ) (o : Option String) (now : ℕ) (d : Db)
    → HasRow id j d
    → HasRow id j (finished a i o now d)
unfolding finished settle_receipt finish_running
finished-HasRow id j a i o now d h =
    update_receipt-HasRow id j a.job_id _ (finish_running i (result_of o) now o d)
      (find_attempt-update id _ (result_of o) now o d.attempts ∙ h)

Move-HasRow : (id : ℕ) (j : String) (d d' : Db) → Move d d' → HasRow id j d → HasRow id j d'
unfolding insert_receipt
Move-HasRow id j d d' (stays e) h = rw e h
Move-HasRow id j d d' (claims_new job kind created now g e) h =
    rw e (claimed-HasRow id j job (0 + 1) now (insert_receipt (new_receipt job kind created) d) h)
Move-HasRow id j d d' (claims_failed job q now g s e) h =
    rw e (claimed-HasRow id j job (q.attempts + 1) now d h)
Move-HasRow id j d d' (reclaims job q now g s l e) h = rw e (
    claimed-HasRow id j job (q.attempts + 1) now (recover_interrupted job now d)
      (recover-HasRow id j job now d h))
Move-HasRow id j d d' (buries_failed job q payload x max now g s c l e) h =
    rw e (buried-HasRow id j q payload x now d h)
Move-HasRow id j d d' (buries_interrupted job q payload x max now g s l c k e) h = rw e (
    buried-HasRow id j q payload x now (recover_interrupted job now d)
      (recover-HasRow id j job now d h))
Move-HasRow id j d d' (succeeds i a q now u x g s n e) h =
    rw e (finished-HasRow id j a i none now d h)
Move-HasRow id j d d' (fails i a q text now u x g s n e) h =
    rw e (finished-HasRow id j a i (some text) now d h)
Move-HasRow id j d d' (dies i a q text payload max now u x g s n c e) h = rw e (
    buried-HasRow id j (record q { state = State.failed }) payload text now
      (finished a i (some text) now d) (finished-HasRow id j a i (some text) now d h))

pub run_calls-HasRow :
    (id : ℕ) (j : String) (calls : List (Faults Stmt × Call)) (d : Db)
    → HasRow id j d
    → HasRow id j (run_calls calls d)
run_calls-HasRow id j [] d h = h
run_calls-HasRow id j ((faults, call) ∷ calls) d h =
    run_calls-HasRow id j calls (apply faults call d)
      (Move-HasRow id j d (apply faults call d) (apply-Move faults call d) h)

-- ===== src/Worker/Keeps.antt =====
-- The moves of the receipt store against its tables' invariant.
use flick_drop.Base.{
  ℕ, ◌≤◌, ◌≡◌, refl, sym, subst, String, Option, none, some, arith, string_eq, find, find-insert,
  beq_self,
}
use flick_drop.Worker.Tables.{
  State, processing, failed, Receipt, Attempt, DeadLetter, Db, insert_receipt, recover_interrupted,
  finish_running, update_receipt, settle_receipt, coalesce,
}
use flick_drop.Worker.Store.{new_receipt, state_of, completed_of}
use flick_drop.Worker.Moves.{
  Move, stays, claims_new, claims_failed, reclaims, buries_failed, buries_interrupted, succeeds,
  fails, dies, buried, finished,
}
use flick_drop.Worker.Counts.{count_running, count_running-recover}
use flick_drop.Worker.Invariant.{
  IsValidDb, IsValidJob, slots, insert_receipt-IsValid, recover-IsValid,
}
use flick_drop.Worker.Changes.{claimed-IsValid, buried-IsValid, finished-IsValid, slots_of, key_of}

pub idle :
    (job : String) (r : Receipt) (st : State) (d : Db)
    → find job d.receipts ≡ some r
    → r.state ≡ st
    → slots st ≡ 0
    → IsValidDb d
    → count_running job d.attempts ≡ 0
idle job r st d f e z v = omega (
  arith,
  subst (λ x. count_running job d.attempts ≤ slots x) e
      (slots_of job (find job d.receipts) r _ _ _ (v.jobs job) f),
  z,
)

pub known_key :
    (job : String) (r : Receipt) (d : Db)
    → find job d.receipts ≡ some r
    → IsValidDb d
    → job ≡ r.job_id
known_key job r d f v = sym (key_of job (find job d.receipts) r _ _ _ (v.jobs job) f)

-- A job that is processing has at most one running attempt.
pub one_running :
    (job : String) (r : Receipt) (d : Db)
    → find job d.receipts ≡ some r
    → r.state ≡ processing
    → IsValidDb d
    → count_running job d.attempts ≤ 1
one_running job r d f e v =
    subst (λ x. count_running job d.attempts ≤ slots x) e
      (slots_of job (find job d.receipts) r _ _ _ (v.jobs job) f)

-- A job that is buried from tables where it has no running attempt.
bury :
    (job : String) (r q : Receipt) (payload e : String) (now : ℕ) (d : Db)
    → find job d.receipts ≡ some r
    → job ≡ q.job_id
    → count_running job d.attempts ≡ 0
    → IsValidDb d
    → IsValidDb (buried q payload e now d)
bury job r q payload e now d f k z =
    buried-IsValid r q payload e now d (subst (λ i. find i d.receipts ≡ some r) k f)
      (subst (λ i. count_running i d.attempts ≡ 0) k z)

pub unknown_idle :
    (job : String) (o : Option Receipt) (active rows : ℕ) (l : Option DeadLetter)
    → IsValidJob job o active rows l
    → o ≡ none
    → active ≡ 0
unknown_idle job none a b l v e = v.0
unknown_idle job (some q) a b l v e = absurd (cc e)

-- The receipt that a handler's outcome leaves.
abbrev pub settled_receipt : Receipt → Option String → ℕ → Receipt
settled_receipt r o now = record r {
  state = state_of o;
  last_error = o;
  updated_at = now;
  completed_at = coalesce (completed_of o now) r.completed_at;
}

pub find-finished :
    (id : ℕ) (a : Attempt) (r : Receipt) (o : Option String) (now : ℕ) (d : Db)
    → find a.job_id d.receipts ≡ some r
    → find a.job_id (finished a id o now d).receipts ≡ some (settled_receipt r o now)
unfolding finished settle_receipt finish_running
find-finished id a r o now d g =
    rw
      (
        finished,
        settle_receipt,
        update_receipt,
        finish_running,
        g,
        find-insert a.job_id a.job_id (settled_receipt r o now) d.receipts,
        beq_self a.job_id,
      )
      refl

-- Every move keeps the tables valid.
pub Move-IsValid : (d d' : Db) → Move d d' → IsValidDb d → IsValidDb d'
unfolding insert_receipt recover_interrupted
Move-IsValid d d' (stays e) v = subst IsValidDb (sym e) v
Move-IsValid d d' (claims_new job kind created now f e) v = subst IsValidDb (sym e) (
    claimed-IsValid job (new_receipt job kind created) now _
      (rw (find-insert job job (new_receipt job kind created) d.receipts, beq_self job) refl)
      (unknown_idle job (find job d.receipts) _ _ _ (v.jobs job) f)
      (insert_receipt-IsValid (new_receipt job kind created) d f refl refl v))
Move-IsValid d d' (claims_failed job r now f s e) v =
    subst IsValidDb (sym e) (claimed-IsValid job r now d f (idle job r failed d f s refl v) v)
Move-IsValid d d' (reclaims job r now f s l e) v = subst IsValidDb (sym e) (
    claimed-IsValid job r now (recover_interrupted job now d) f
      (count_running-recover job now d.attempts) (recover-IsValid job now d v))
Move-IsValid d d' (buries_failed job r payload x max now f s c l e) v =
    subst IsValidDb (sym e)
      (bury job r r payload x now d f (known_key job r d f v) (idle job r failed d f s refl v) v)
Move-IsValid d d' (buries_interrupted job r payload x max now f s l c g e) v =
    subst IsValidDb (sym e) (
      bury job r r payload x now (recover_interrupted job now d) f (known_key job r d f v)
        (count_running-recover job now d.attempts) (recover-IsValid job now d v))
Move-IsValid d d' (succeeds id a r now f u g p n e) v =
    subst IsValidDb (sym e) (finished-IsValid id a r none now d f u g p v)
Move-IsValid d d' (fails id a r text now f u g p n e) v =
    subst IsValidDb (sym e) (finished-IsValid id a r (some text) now d f u g p v)
Move-IsValid d d' (dies id a r text payload max now f u g p n c e) v = subst IsValidDb (sym e) (
    bury a.job_id (settled_receipt r (some text) now) (record r { state = failed }) payload text now
      (finished a id (some text) now d) (find-finished id a r (some text) now d g)
      (known_key a.job_id r d g v)
      (idle a.job_id (settled_receipt r (some text) now) failed (finished a id (some text) now d)
        (find-finished id a r (some text) now d g) refl refl
        (finished-IsValid id a r (some text) now d f u g p v))
      (finished-IsValid id a r (some text) now d f u g p v))

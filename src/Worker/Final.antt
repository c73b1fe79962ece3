-- ===== src/Worker/Final.antt =====
-- Jobs that have succeeded or are dead, under the operations of internal/worker/store.go.
use flick_drop.Base.{
  ℕ, ◌+◌, ◌≡◌, refl, ◌∙◌, subst, String, Bool, true, false, ◌||◌, Option, none, some, List, [], ◌∷◌,
  Option-cases, ◌==◌, string_eq, find, find-insert, beq_self, Bool-cases, ltb, inl, inr,
}
use flick_drop.Sql.{Faults}
use flick_drop.Worker.Tables.{
  State, processing, succeeded, failed, dead, Receipt, Attempt, Db, insert_receipt,
  recover_interrupted, finish_running, claim_receipt, settle_receipt, update_receipt,
  insert_attempt, upsert_dead_letter, failure_count,
}
use flick_drop.Worker.Invariant.{IsValidDb}
use flick_drop.Worker.Keeps.{known_key, find-finished}
use flick_drop.Worker.Moves.{
  Move, stays, claims_new, claims_failed, reclaims, buries_failed, buries_interrupted, succeeds,
  fails, dies, claimed, buried, finished,
}
use flick_drop.Worker.Refines.{start-Move}
use flick_drop.Worker.Settles.{mark_succeeded-Move, mark_failed-Move}
use flick_drop.Worker.Reach.{Call, start_job, succeed, fail, apply, run_calls, apply-IsValid}
use flick_drop.Worker.Store.{new_receipt, Stmt, start, mark_succeeded, is_empty, result_of}
use flick_drop.Worker.Finish.{IsLive, mark_succeeded-IsLive}
use flick_drop.Worker.Verdict.{no_faults, answer, verdict, done, start-verdict}

abbrev pub is_final : State → Bool
is_final processing = false
is_final succeeded = true
is_final failed = false
is_final dead = true

-- Nothing happens to the receipts of other jobs.
abbrev SameElsewhere : String → Db → Db → Type 0
SameElsewhere job d d' = (j : String) → (job == j) ≡ false → find j d'.receipts ≡ find j d.receipts

update_elsewhere :
    (job : String) (f : Receipt → Receipt) (d : Db) → SameElsewhere job d (update_receipt job f d)
update_elsewhere job f d j e = elim (Option-cases (find job d.receipts)) [
  | inl h ↦ rw (update_receipt, h) refl
  | inr (r, h) ↦ rw (update_receipt, h) (rw (find-insert job j (f r) d.receipts, e) refl)
]

claimed_elsewhere : (job : String) (n now : ℕ) (d : Db) → SameElsewhere job d (claimed job n now d)
unfolding claimed claim_receipt insert_attempt
claimed_elsewhere job n now d = update_elsewhere job _ d

buried_elsewhere :
    (q : Receipt) (payload e : String) (now : ℕ) (d : Db)
    → SameElsewhere q.job_id d (buried q payload e now d)
unfolding buried settle_receipt upsert_dead_letter
buried_elsewhere q payload e now d = update_elsewhere q.job_id _ d

finished_elsewhere :
    (a : Attempt) (id : ℕ) (o : Option String) (now : ℕ) (d : Db)
    → SameElsewhere a.job_id d (finished a id o now d)
unfolding finished settle_receipt finish_running
finished_elsewhere a id o now d =
    update_elsewhere a.job_id _ (finish_running id (result_of o) now o d)

module _ (j : String) (r : Receipt) (d : Db) (f : find j d.receipts ≡ some r)
    (z : is_final r.state ≡ true) where
  -- A job whose receipt is not final is another.
  another :
      (job : String) (q : Receipt) (s : State)
      → find job d.receipts ≡ some q
      → q.state ≡ s
      → is_final s ≡ false
      → (job == j) ≡ false
  another job q s g e n = elim (Bool-cases (job == j)) [
    | inl same ↦ absurd (
        cc (
          subst (λ i. find i d.receipts ≡ some q) ((string_eq.same_iff job j).0 same) g,
          f,
          e,
          z,
          n,
        ))
    | inr other ↦ other
  ]

  another_key : (job : String) → find job d.receipts ≡ none → (job == j) ≡ false
  another_key job g = elim (Bool-cases (job == j)) [
    | inl same ↦
        absurd (cc (subst (λ i. find i d.receipts ≡ none) ((string_eq.same_iff job j).0 same) g, f))
    | inr other ↦ other
  ]

  -- A move leaves a final receipt as it is.
  Move-final : (d' : Db) → IsValidDb d → Move d d' → find j d'.receipts ≡ some r
  unfolding insert_receipt recover_interrupted
  Move-final d' v (stays e) = rw (e) f
  Move-final d' v (claims_new job kind created now g e) =
      rw
        (
          e,
          claimed_elsewhere job 1 now (insert_receipt (new_receipt job kind created) d) j
              (another_key job g),
          find-insert job j (new_receipt job kind created) d.receipts,
          another_key job g,
        )
        f
  Move-final d' v (claims_failed job q now g s e) =
      rw (e) (claimed_elsewhere job (q.attempts + 1) now d j (another job q failed g s refl) ∙ f)
  Move-final d' v (reclaims job q now g s l e) = rw (e) (
      claimed_elsewhere job (q.attempts + 1) now (recover_interrupted job now d) j
        (another job q processing g s refl)
      ∙ f)
  Move-final d' v (buries_failed job q payload x max now g s c l e) = rw (e) (
      buried_elsewhere q payload x now d j
        (subst (λ i. (i == j) ≡ false) (known_key job q d g v) (another job q failed g s refl))
      ∙ f)
  Move-final d' v (buries_interrupted job q payload x max now g s l c h e) = rw (e) (
      buried_elsewhere q payload x now (recover_interrupted job now d) j
        (subst (λ i. (i == j) ≡ false) (known_key job q d g v) (another job q processing g s refl))
      ∙ f)
  Move-final d' v (succeeds id a q now u x g s n e) =
      rw (e) (finished_elsewhere a id none now d j (another a.job_id q processing g s refl) ∙ f)
  Move-final d' v (fails id a q text now u x g s n e) =
      rw (e)
        (finished_elsewhere a id (some text) now d j (another a.job_id q processing g s refl) ∙ f)
  Move-final d' v (dies id a q text payload max now u x g s n c e) = rw (e) (
      buried_elsewhere (record q { state = failed }) payload text now
        (finished a id (some text) now d) j
        (subst (λ i. (i == j) ≡ false) (known_key a.job_id q d g v)
          (another a.job_id q processing g s refl))
      ∙ finished_elsewhere a id (some text) now d j (another a.job_id q processing g s refl)
      ∙ f)

pub apply-Move : (faults : Faults Stmt) (call : Call) (d : Db) → Move d (apply faults call d)
apply-Move faults (start_job job kind payload max created now) d =
    start-Move faults job kind payload max created now d
apply-Move faults (succeed id now) d = mark_succeeded-Move faults id now d
apply-Move faults (fail id o payload max now) d = mark_failed-Move faults id o payload max now d

-- On valid tables, the receipt of a job that has succeeded or is dead stays as it is, whatever the
-- workers call afterwards, and whichever statements the driver fails.
pub run_calls-final :
    (calls : List (Faults Stmt × Call)) (d : Db) (j : String) (r : Receipt)
    → IsValidDb d
    → find j d.receipts ≡ some r
    → is_final r.state ≡ true
    → find j (run_calls calls d).receipts ≡ some r
run_calls-final [] d j r v f z = f
run_calls-final ((faults, call) ∷ calls) d j r v f z =
    run_calls-final calls (apply faults call d) j r (apply-IsValid faults call d v)
      (Move-final j r d f z (apply faults call d) v (apply-Move faults call d)) z

-- After MarkSucceeded of a live attempt, on valid tables and with no fault of the driver, Start of the
-- same job under its kind, with arguments that it accepts, answers that it had succeeded.
pub mark_succeeded-start :
    (a : Attempt) (payload : String) (max finished_at created_at now : ℕ) (d : Db) (l : IsLive a d)
    → IsValidDb d
    → (is_empty a.job_id || is_empty l.receipt.kind || is_empty payload || ltb max 1) ≡ false
    → answer
        (start no_faults a.job_id l.receipt.kind payload max created_at now
          (mark_succeeded no_faults a.id finished_at d).1).0
      ≡ done
unfolding verdict
mark_succeeded-start a payload max finished_at created_at now d l v h =
    start-verdict a.job_id l.receipt.kind payload max created_at now
      (mark_succeeded no_faults a.id finished_at d).1 h
      (apply-IsValid no_faults (succeed a.id finished_at) d v)
    ∙ tail
  where
    tail :
        verdict
          (find a.job_id (mark_succeeded no_faults a.id finished_at d).1.receipts)
          l.receipt.kind
          (failure_count a.job_id (mark_succeeded no_faults a.id finished_at d).1)
          max
          now
        ≡ done
    tail =
        rw
          (
            mark_succeeded-IsLive a finished_at d l,
            find-finished a.id a l.receipt none finished_at d l.found,
          )
          (rw (verdict, beq_self l.receipt.kind) refl)

-- ===== src/Worker/Delivery.antt =====
-- What a delivered message's acknowledgement says of the tables.
use flick_drop.Base.{
  ℕ, ◌≡◌, refl, sym, ap, ◌∙◌, subst, inl, inr, String, Bool, true, false, ◌||◌, none, some, arith,
  string_eq, Bool-cases, Option-cases,
}
use flick_drop.Sql.{Result, ok, err, Result-cases}
use flick_drop.Jobs.{InvalidEvent, JobEvent, decode_job_event, job_json}
use flick_drop.Worker.Tables.{Attempt, Db}
use flick_drop.Worker.Store.{
  Error, job_dead, job_processing, invalid_job, not_found, stale_attempt, job_error_required,
  no_final_failure, StartResult, started, already_succeeded, start, driver_error, mark_succeeded,
}
use flick_drop.Worker.Invariant.{IsValidDb}
use flick_drop.Worker.Finish.{IsLive}
use flick_drop.Worker.Live.{start-IsLive}
use flick_drop.Worker.Reach.{run_calls}
use flick_drop.Worker.Rows.{job_of, HasRow, run_calls-HasRow}
use flick_drop.Worker.Cleanup.{JobError}
use flick_drop.Worker.Processor.{
  Surroundings, Outcome, Problem, ProcessResult, finish_succeeded, finish_failed, run_handler,
  after_start, refused_start, no_result, bad_event, process_event, acknowledge, process, deliver,
  message_action, resolve_message_action, message_ack, MessageAction,
}
use flick_drop.Worker.Answers.{
  HasSucceeded, AnswersFor, start-AnswersFor, mark_succeeded-HasSucceeded,
}

abbrev Unless : Bool → Type 0 → Type 0
Unless true P = Unit {0}
Unless false P = P

unless : {P : Type 0} (b : Bool) → P → Unless b P
unless true p = tt
unless false p = p

-- The outcome of a message that is acknowledged.
abbrev Acknowledged : String → Outcome × Db → Type 0
Acknowledged job ((r, some x), d) = Unit {0}
Acknowledged job ((r, none), d) =
    Unless (r.dead_lettered || r.already_processing) (HasSucceeded job d)

module _ (w : Surroundings) (max : ℕ) where
  finish_succeeded-Acknowledged :
      (job : String) (a : Attempt) (r : ProcessResult) (d : Db)
      → HasRow a.id job d
      → Acknowledged job (finish_succeeded w max a r d)
  unfolding finish_succeeded
  finish_succeeded-Acknowledged job a r d h =
      elim (Result-cases (mark_succeeded w.finish_faults a.id w.finished_at d).0) [
        | inl (x, e) ↦ rw e tt
        | inr (b, e) ↦ rw e (
            unless (r.dead_lettered || r.already_processing)
              (mark_succeeded-HasSucceeded w.finish_faults a.id w.finished_at d job b h e))
      ]

  finish_failed-Acknowledged :
      (job payload : String) (a : Attempt) (r : ProcessResult) (x : JobError) (d : Db)
      → Acknowledged job (finish_failed w max payload a r x d)
  unfolding finish_failed
  finish_failed-Acknowledged job payload a r x d = ground arith

  run_handler-Acknowledged :
      (e : JobEvent) (payload : String) (a : Attempt) (d : Db)
      → HasRow a.id e.job_id d
      → Acknowledged e.job_id (run_handler w max e payload a d)
  unfolding run_handler
  run_handler-Acknowledged e payload a d h = elim (Bool-cases w.cancelled) [
    | inl stopped ↦ rw stopped tt
    | inr running ↦ elim (Option-cases (w.handler e)) [
      | inl f ↦
          rw (running, f)
            (finish_succeeded-Acknowledged e.job_id a _ (run_calls w.meanwhile d)
              (run_calls-HasRow a.id e.job_id w.meanwhile d h))
      | inr (x, f) ↦
          rw (running, f)
            (finish_failed-Acknowledged e.job_id payload a _ x (run_calls w.meanwhile d))
    ]
  ]

  refused-Acknowledged :
      (job : String) (x : Error) (d : Db) → Acknowledged job (refused_start w max x, d)
  refused-Acknowledged job job_processing d = tt
  refused-Acknowledged job job_dead d = tt
  refused-Acknowledged job invalid_job d = tt
  refused-Acknowledged job not_found d = tt
  refused-Acknowledged job stale_attempt d = tt
  refused-Acknowledged job job_error_required d = tt
  refused-Acknowledged job no_final_failure d = tt
  refused-Acknowledged job driver_error d = tt

  after_start-Acknowledged :
      (e : JobEvent) (payload : String) (p : Result Error StartResult × Db)
      → AnswersFor e.job_id p
      → ((a : Attempt) → p.0 ≡ ok (started a) → IsLive a p.1)
      → Acknowledged e.job_id (after_start w max e payload p.0 p.1)
  unfolding after_start
  after_start-Acknowledged e payload (err x, d) h l = refused-Acknowledged e.job_id x d
  after_start-Acknowledged e payload (ok already_succeeded, d) h l = h
  after_start-Acknowledged e payload (ok (started a), d) h l =
      run_handler-Acknowledged e payload a d (ap job_of (l a refl).row ∙ ap some h)

  process_event-ok :
      (e : JobEvent) (payload : String) (d : Db)
      → job_json w.marshal e ≡ ok payload
      → let p = start w.start_faults e.job_id e.kind payload max w.created_at w.started_at d in
        process_event w max e d ≡ after_start w max e payload p.0 p.1
  unfolding process_event
  process_event-ok e payload d f = rw (process_event, f) refl

  process_event-err :
      (e : JobEvent) (x : InvalidEvent) (d : Db)
      → job_json w.marshal e ≡ err x
      → process_event w max e d ≡ ((no_result, some (bad_event x)), d)
  unfolding process_event
  process_event-err e x d f = rw (process_event, f) refl

  process_event-Acknowledged :
      (e : JobEvent) (d : Db) → IsValidDb d → Acknowledged e.job_id (process_event w max e d)
  process_event-Acknowledged e d v = elim (Result-cases (job_json w.marshal e)) [
    | inl (x, f) ↦ rw (process_event-err e x d f) tt
    | inr (payload, f) ↦ rw (process_event-ok e payload d f) (
        after_start-Acknowledged e payload
          (start w.start_faults e.job_id e.kind payload max w.created_at w.started_at d)
          (start-AnswersFor w.start_faults e.job_id e.kind payload max w.created_at w.started_at d)
          (λ a k.
            start-IsLive w.start_faults e.job_id e.kind payload max w.created_at w.started_at d a v
              k))
  ]

  -- The deferred acknowledgement changes no flag, and hides no error.
  acknowledge-Acknowledged :
      (e : JobEvent) (job : String) (p : Outcome × Db)
      → Acknowledged job p
      → message_action (acknowledge w max e p.0) ≡ ok message_ack
      → HasSucceeded job p.1
  unfolding acknowledge message_action
  acknowledge-Acknowledged e job ((r, some x), d) h k = ground (arith, h, k)
  acknowledge-Acknowledged e job ((r, none), d) h k = ground (arith, h, k)

  process-ok :
      (raw : String) (e : JobEvent) (d : Db)
      → decode_job_event w.parse raw ≡ ok e
      → let p = process_event w max e d in process w max raw d ≡ (acknowledge w max e p.0, p.1)
  unfolding process
  process-ok raw e d f = rw (process, f) refl

  resolve_message_action-ack :
      (m : Result Problem MessageAction)
      → resolve_message_action m ≡ message_ack
      → m ≡ ok message_ack
  unfolding resolve_message_action
  resolve_message_action-ack m h = ground (arith, h)

  -- Where a message that carries a job is acknowledged, on tables that were valid when it came, the
  -- job's receipt says that it succeeded: whatever the handler and the acknowledger answer, whichever
  -- statements the driver fails, and whatever other workers do while the handler runs.
  pub deliver-HasSucceeded :
      (raw : String) (e : JobEvent) (d : Db)
      → IsValidDb d
      → decode_job_event w.parse raw ≡ ok e
      → (deliver w max raw d).0 ≡ message_ack
      → HasSucceeded e.job_id (deliver w max raw d).1
  unfolding deliver
  deliver-HasSucceeded raw e d v f k =
      subst (λ p. HasSucceeded e.job_id p.1) (sym (process-ok raw e d f))
        (acknowledge-Acknowledged e e.job_id (process_event w max e d)
          (process_event-Acknowledged e d v)
          (subst (λ p. message_action p.0 ≡ ok message_ack) (process-ok raw e d f)
            (resolve_message_action-ack (message_action (process w max raw d).0) k)))

-- ===== src/Worker/Processor.antt =====
-- internal/worker/processor.go, with resolveMessageAction of internal/events/consumer.go: what becomes
-- of one delivered message. JSON, the handler and the acknowledger are parameters, and so is what other
-- workers do to the tables while the handler runs. Spans and counters are left out.
use flick_drop.Base.{
  ℕ, String, Bool, true, false, ◌&&◌, ◌||◌, Option, none, some, List, ◌==◌, string_eq,
  if◌then◌else◌,
}
use flick_drop.Sql.{Result, ok, err, Faults}
use flick_drop.Jobs.{JobEvent, InvalidEvent, delete_oci_object, decode_job_event, job_json}
use flick_drop.Worker.Tables.{Attempt, Db}
use flick_drop.Worker.Store.{
  Error, invalid_job, job_dead, job_processing, Stmt, StartResult, started, already_succeeded,
  start, mark_succeeded, mark_failed,
}
use flick_drop.Worker.Reach.{Call, run_calls}
use flick_drop.Worker.Cleanup.{JobError, invalid, requires_object_acknowledgement}

pub data Problem : Type 0 where
  bad_event : InvalidEvent → Problem
  from_store : Error → Problem
  from_handler from_acknowledger : JobError → Problem
  interrupted acknowledger_required : Problem

pub record ProcessResult : Type 0 where
  pub attempt : ℕ
  pub has_started : Bool
  pub has_succeeded : Bool
  pub has_failed : Bool
  pub dead_lettered : Bool
  pub had_succeeded : Bool
  pub already_processing : Bool
  pub already_dead : Bool

abbrev pub no_result : ProcessResult
no_result = record {
  attempt = 0;
  has_started = false;
  has_succeeded = false;
  has_failed = false;
  dead_lettered = false;
  had_succeeded = false;
  already_processing = false;
  already_dead = false;
}

-- What a run meets outside: `cancelled` is ctx.Err() after the handler, and `meanwhile` is what other
-- workers do while it runs.
pub record Surroundings : Type 0 where
  pub parse : String → Option (JobEvent × Bool)
  pub marshal : JobEvent → String
  pub handler : JobEvent → Option JobError
  pub error_text : JobError → String
  pub acknowledger : Option (JobEvent → Option JobError)
  pub cancelled : Bool
  pub meanwhile : List (Faults Stmt × Call)
  pub start_faults : Faults Stmt
  pub finish_faults : Faults Stmt
  pub created_at : ℕ
  pub started_at : ℕ
  pub finished_at : ℕ

-- Go returns the result and the error together.
abbrev pub Outcome : Type 0
Outcome = ProcessResult × Option Problem

module _ (w : Surroundings) (max_attempts : ℕ) where
  abbrev pub finished_failed : ProcessResult → JobError → Result Error Bool → Outcome
  finished_failed result x (err y) = (result, some (from_store y))
  finished_failed result x (ok false) = (record result { has_failed = true }, some (from_handler x))
  finished_failed result x (ok true) =
      (record result { has_failed = true; dead_lettered = true }, none)

  unfoldable pub finish_failed : String → Attempt → ProcessResult → JobError → Db → Outcome × Db
  finish_failed payload a result x d =
      let (r, d') =
        mark_failed w.finish_faults a.id (some (w.error_text x)) payload max_attempts w.finished_at
          d in
      (finished_failed result x r, d')

  abbrev pub finished_succeeded : ProcessResult → Result Error Bool → Outcome
  finished_succeeded result (err y) = (result, some (from_store y))
  finished_succeeded result (ok b) = (record result { has_succeeded = true }, none)

  unfoldable pub finish_succeeded : Attempt → ProcessResult → Db → Outcome × Db
  finish_succeeded a result d =
      let (r, d') = mark_succeeded w.finish_faults a.id w.finished_at d in
      (finished_succeeded result r, d')

  -- The handler, and the end of the attempt.
  unfoldable pub run_handler : JobEvent → String → Attempt → Db → Outcome × Db
  unfolding finish_failed finish_succeeded
  run_handler e payload a d =
      let result = record no_result { attempt = a.attempt; has_started = true } in
      if w.cancelled
      then ((result, some interrupted), run_calls w.meanwhile d)
      else elim (w.handler e) [
        | some x ↦ finish_failed payload a result x (run_calls w.meanwhile d)
        | none ↦ finish_succeeded a result (run_calls w.meanwhile d)
      ]

  abbrev pub refused_start : Error → Outcome
  refused_start job_processing = (record no_result { already_processing = true }, none)
  refused_start job_dead = (record no_result { already_dead = true; dead_lettered = true }, none)
  refused_start x = (no_result, some (from_store x))

  unfoldable pub after_start : JobEvent → String → Result Error StartResult → Db → Outcome × Db
  unfolding run_handler
  after_start e payload (err x) d = (refused_start x, d)
  after_start e payload (ok already_succeeded) d =
      ((record no_result { had_succeeded = true; has_succeeded = true }, none), d)
  after_start e payload (ok (started a)) d = run_handler e payload a d

  unfoldable pub process_event : JobEvent → Db → Outcome × Db
  unfolding after_start job_json
  process_event e d = elim (job_json w.marshal e) [
    | err x ↦ ((no_result, some (bad_event x)), d)
    | ok payload ↦
        let (r, d') =
          start w.start_faults e.job_id e.kind payload max_attempts w.created_at w.started_at d in
        after_start e payload r d'
  ]

  abbrev pub wants_acknowledgement : JobEvent → ProcessResult → Bool
  wants_acknowledgement e r =
      (r.has_succeeded || r.dead_lettered)
      && (e.kind == delete_oci_object)
      && requires_object_acknowledgement e.object_key

  abbrev pub ask : Option (JobEvent → Option JobError) → JobEvent → Option Problem
  ask none e = some acknowledger_required
  ask (some f) e = elim (f e) [ none ↦ none | some x ↦ some (from_acknowledger x) ]

  -- The deferred acknowledgement of a terminal receipt.
  unfoldable pub acknowledge : JobEvent → Outcome → Outcome
  acknowledge e (r, some x) = (r, some x)
  acknowledge e (r, none) =
      if wants_acknowledgement e r then (r, ask w.acknowledger e) else (r, none)

  unfoldable pub process : String → Db → Outcome × Db
  unfolding acknowledge process_event decode_job_event
  process raw d = elim (decode_job_event w.parse raw) [
    | err x ↦ ((no_result, some (bad_event x)), d)
    | ok e ↦ let (o, d') = process_event e d in (acknowledge e o, d')
  ]

pub data MessageAction : Type 0 where
  message_ack message_retry message_terminate : MessageAction

-- errors.Is(err, ErrInvalidJob)
abbrev pub is_invalid_job : Problem → Bool
is_invalid_job (from_store invalid_job) = true
is_invalid_job (from_handler invalid) = true
is_invalid_job (from_acknowledger invalid) = true
is_invalid_job _ = false

unfoldable pub message_action : Outcome → Result Problem MessageAction
message_action (r, some x) = if is_invalid_job x then ok message_terminate else err x
message_action (r, none) =
    if r.dead_lettered
    then ok message_terminate
    else if r.already_processing
    then ok message_retry
    else ok message_ack

-- resolveMessageAction
unfoldable pub resolve_message_action : Result Problem MessageAction → MessageAction
resolve_message_action (ok a) = a
resolve_message_action (err (bad_event x)) = message_terminate
resolve_message_action (err _) = message_retry

-- ProcessMessage, and what the consumer does with the message.
unfoldable pub deliver : Surroundings → ℕ → String → Db → MessageAction × Db
unfolding process message_action resolve_message_action
deliver w max_attempts raw d =
    let (o, d') = process w max_attempts raw d in (resolve_message_action (message_action o), d')

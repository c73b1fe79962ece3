-- ===== src/Worker/MessageTests.antt =====
-- The processor and the cleanup handler on concrete messages.
use flick_drop.Base.{
  ◌≡◌, ◌≢◌, ◌<◌, ◌⊎◌, refl, true, false, Option, none, some, List, [], ◌∷◌, find, insert, length,
  string_eq,
}
use flick_drop.Relay.Code.{is_space}
use flick_drop.Jobs.{JobEvent, validate, is_blank, valid_reason, decode_job_event, job_json}
use flick_drop.Worker.Tables.{claim_receipt, insert_attempt}
use flick_drop.Worker.Store.{start, mark_succeeded}
use flick_drop.Worker.Cleanup.{
  Reply, CleanupRequest, invalid, handle_job, handle_job-valid, cleanup_secret, cleanup_reason,
  requires_object_acknowledgement, valid_cleanup_reason,
}
use flick_drop.Worker.Processor.{
  Surroundings, deliver, message_ack, message_retry, message_terminate,
}
use flick_drop.Worker.Answers.{HasSucceeded}
use flick_drop.Worker.Consumer.{
  Message, consume_messages, settled, calls, none_fails, made, consume_messages-settled,
}
use flick_drop.Worker.Delivery.{deliver-HasSucceeded}
use flick_drop.Worker.Reach.{no_rows, run_calls-IsValidDb}
use flick_drop.Worker.Verdict.{no_faults}

abbrev consumed_secret : JobEvent
consumed_secret = record {
  job_id = "job";
  kind = "delete_secret";
  secret_id = "secret";
  object_key = "";
  reason = "consumed";
  requested_at = some 1;
}

abbrev answers : CleanupRequest → Option Reply
answers req = some (record { status = 200; body = some (req.secret_id, true); trailing = false })

abbrev quiet : Surroundings
quiet = record {
  parse = λ raw. some (consumed_secret, false);
  marshal = λ e. "{}";
  handler = handle_job answers none;
  error_text = λ x. "failed";
  acknowledger = none;
  cancelled = false;
  meanwhile = [];
  start_faults = no_faults;
  finish_faults = no_faults;
  created_at = 5;
  started_at = 5;
  finished_at = 7;
}

handle_job-valid_example : handle_job answers none consumed_secret ≢ some invalid
unfolding validate is_blank valid_reason is_space
handle_job-valid_example = handle_job-valid answers none consumed_secret refl

deliver-HasSucceeded_example : HasSucceeded "job" (deliver quiet 3 "{}" no_rows).1
unfolding deliver decode_job_event job_json validate is_blank valid_reason is_space start handle_job
    cleanup_reason valid_cleanup_reason cleanup_secret requires_object_acknowledgement
    mark_succeeded find insert insert_attempt claim_receipt
deliver-HasSucceeded_example =
    deliver-HasSucceeded quiet 3 "{}" consumed_secret no_rows (run_calls-IsValidDb []) refl refl

abbrev two_messages : List Message
two_messages =
    (record { data_json = "{}"; surroundings = quiet; call_fails = λ a. false })
    ∷ (record { data_json = "{}"; surroundings = quiet; call_fails = λ a. true })
    ∷ []

consume_messages-settled_example :
    let p = consume_messages 3 two_messages no_rows in
    let t = calls 3 two_messages no_rows in
    (p.1 ≡ none_fails t)
    × (p.0.acked ≡ made message_ack t)
    × (p.0.naked ≡ made message_retry t)
    × (p.0.terminated ≡ made message_terminate t)
    × (((p.1 ≡ true) × (settled p.0 ≡ length two_messages))
        ⊎ ((p.1 ≡ false) × (settled p.0 < length two_messages)))
consume_messages-settled_example = consume_messages-settled 3 two_messages no_rows

-- ===== src/Outbox/Tests.antt =====
-- The outbox on two events: a due one and one that is published.
use flick_drop.Relay.Code.{is_space}
use flick_drop.Base.{
  insert, ℕ, ◌+◌, ◌≡◌, refl, String, Bool, true, false, ◌||◌, Option, none, some, List, [], ◌∷◌,
  string_eq, leb, find,
}
use flick_drop.Jobs.{is_blank, valid_reason, validate, JobEvent}
use flick_drop.Outbox.{OutboxRecord, published, failed, new_record}
use flick_drop.Outbox.Publisher.{Rows, list_due, publish_due}
use flick_drop.Outbox.Kept.{Call, enqueues, publishes, Follows, run, run-Follows}
use flick_drop.Outbox.Accepted.{published_at, accepts_any, run-accepted}
use flick_drop.Outbox.Settled.{no_faults, answered_if, publish_due-settles}
use flick_drop.Outbox.Listed.{distinct, is_in}

abbrev due_event : OutboxRecord
due_event = record {
  subject = "jobs";
  payload_json = "{}";
  state = failed;
  attempts = 2;
  next_attempt_at = 5;
  published_at = none;
  last_error = some "timeout";
  created_at = 1;
  updated_at = 4;
}

abbrev sent_event : OutboxRecord
sent_event = record {
  subject = "jobs";
  payload_json = "{}";
  state = published;
  attempts = 0;
  next_attempt_at = 1;
  published_at = some 2;
  last_error = none;
  created_at = 1;
  updated_at = 2;
}

abbrev rows : Rows
rows = ("a", due_event) ∷ ("b", sent_event) ∷ []

abbrev toy_parse : String → Option (JobEvent × Bool)
toy_parse s = some (
  (record {
    job_id = "j";
    kind = "delete_secret";
    secret_id = "s";
    object_key = "";
    reason = "retry";
    requested_at = some 1;
  }),
  false,
)

abbrev accepts_all : String → Option String
accepts_all id = none

abbrev at_seven : String → ℕ
at_seven id = 7

abbrev calls : List Call
calls = enqueues "c" "jobs" "{}" 6 ∷ publishes no_faults accepts_all at_seven 30 6 10 ∷ []

run-Follows_example :
    (q : OutboxRecord) × (find "b" (run leb toy_parse calls rows) ≡ some q) × Follows sent_event q
unfolding find
run-Follows_example = run-Follows leb toy_parse calls "b" sent_event rows refl

run-accepted_example : (published_at (find "a" rows) || accepts_any "a" calls) ≡ true
unfolding find run publish_due insert new_record validate is_blank is_space valid_reason
run-accepted_example = run-accepted leb toy_parse calls "a" rows refl

publish_due-settles_example :
    let p = publish_due no_faults accepts_all at_seven leb toy_parse 30 6 10 rows in
    (p.0.error ≡ none)
    × (p.0.result.published_count + p.0.result.failed_count ≡ 1)
    × ((id : String)
        → find id p.1
          ≡ answered_if accepts_all at_seven 36
              (is_in id (("a", due_event) ∷ []))
              id
              (find id rows))
unfolding distinct list_due validate is_blank is_space valid_reason
publish_due-settles_example =
    publish_due-settles accepts_all at_seven leb toy_parse 30 6 10 rows (("a", due_event) ∷ []) refl
      refl

-- ===== src/Outbox/Publisher.antt =====
-- internal/events/outbox.go: ListDue, MarkPublished and MarkFailed; internal/events/publisher.go:
-- PublishDue. SQLite compares the texts of times, so that the order of these texts is a parameter. The
-- broker's answers, none for an acceptance, and the outbox's clock are functions of the event's id.
use flick_drop.Base.{
  ℕ, suc, ◌+◌, String, Bool, true, false, not, ◌&&◌, Option, none, some, List, [], ◌∷◌, string_eq,
  nat_beq, if◌then◌else◌, find, insert,
}
use flick_drop.Sql.{Result, ok, err, Faults}
use flick_drop.Sql.Order.{sort_rows, take}
use flick_drop.Jobs.{JobEvent, InvalidEvent, decode_job_event}
use flick_drop.Outbox.{OutboxState, pending, published, failed, OutboxRecord}

abbrev pub Rows : Type 0
Rows = List (String × OutboxRecord)

pub data Error : Type 0 where
  invalid_limit publish_error_required next_attempt_required not_found driver_error : Error
  invalid_event : InvalidEvent → Error

-- The statements, those that mark a row with its id.
pub data Stmt : Type 0 where
  list_rows : Stmt
  mark_row read_affected : String → Stmt

abbrev pub is_published : OutboxState → Bool
is_published pending = false
is_published published = true
is_published failed = false

abbrev pub is_unpublished : Option OutboxRecord → Bool
is_unpublished none = false
is_unpublished (some r) = not (is_published r.state)

unfoldable pub published_row : ℕ → OutboxRecord → OutboxRecord
published_row now r = record r {
  state = published;
  published_at = some now;
  last_error = none;
  updated_at = now;
}

unfoldable pub failed_row : String → ℕ → ℕ → OutboxRecord → OutboxRecord
failed_row message next now r = record r {
  state = failed;
  attempts = suc r.attempts;
  next_attempt_at = next;
  last_error = some message;
  updated_at = now;
}

abbrev pub update_found : String → (OutboxRecord → OutboxRecord) → Option OutboxRecord → Rows → Rows
update_found id f none rows = rows
update_found id f (some r) rows = insert id (f r) rows

abbrev pub affected : Bool → Bool → Result Error (Unit {0})
affected true matched = err driver_error
affected false true = ok tt
affected false false = err not_found

module _ (fails : Faults Stmt) where
  -- An update of a row that is not published, with requireAffected.
  unfoldable pub mark :
      String → (OutboxRecord → OutboxRecord) → Rows → Result Error (Unit {0}) × Rows
  mark id f rows =
      if fails (mark_row id)
      then (err driver_error, rows)
      else if is_unpublished (find id rows)
      then (affected (fails (read_affected id)) true, update_found id f (find id rows) rows)
      else (affected (fails (read_affected id)) false, rows)

  unfoldable pub mark_published : String → ℕ → Rows → Result Error (Unit {0}) × Rows
  unfolding mark published_row
  mark_published id now rows = mark id (published_row now) rows

  unfoldable pub mark_failed :
      String → Option String → Option ℕ → ℕ → Rows → Result Error (Unit {0}) × Rows
  unfolding mark failed_row
  mark_failed id none next now rows = (err publish_error_required, rows)
  mark_failed id (some message) none now rows = (err next_attempt_required, rows)
  mark_failed id (some message) (some next) now rows = mark id (failed_row message next now) rows

module _ (no_later : ℕ → ℕ → Bool) where
  unfoldable pub is_due : ℕ → OutboxRecord → Bool
  is_due due r = not (is_published r.state) && no_later r.next_attempt_at due

  -- `order by next_attempt_at, created_at`
  abbrev pub comes_first : String × OutboxRecord → String × OutboxRecord → Bool
  comes_first (i, r) (j, q) =
      if no_later q.next_attempt_at r.next_attempt_at
      then no_later r.next_attempt_at q.next_attempt_at && no_later r.created_at q.created_at
      else true

  unfoldable pub due_rows : ℕ → Rows → Rows
  unfolding is_due
  due_rows due [] = []
  due_rows due ((id, r) ∷ rows) =
      if is_due due r then (id, r) ∷ due_rows due rows else due_rows due rows

  unfoldable pub listed : ℕ → ℕ → Rows → Rows
  unfolding due_rows sort_rows take
  listed due limit rows = take limit (sort_rows comes_first (due_rows due rows))

module _ (parse : String → Option (JobEvent × Bool)) where
  -- A payload that does not decode fails the whole listing.
  unfoldable pub scan : Rows → Result Error Rows
  unfolding decode_job_event
  scan [] = ok []
  scan ((id, r) ∷ rows) =
      let rest = scan rows in
      elim (decode_job_event parse r.payload_json) [
        | err e ↦ err (invalid_event e)
        | ok event ↦ elim rest [ err e ↦ err e | ok records ↦ ok ((id, r) ∷ records) ]
      ]

  unfoldable pub list_due : Faults Stmt → (ℕ → ℕ → Bool) → ℕ → ℕ → Rows → Result Error Rows
  unfolding listed scan
  list_due fails no_later due limit rows =
      if nat_beq limit 0
      then err invalid_limit
      else if fails list_rows
      then err driver_error
      else scan (listed no_later due limit rows)

pub record PublishResult : Type 0 where
  pub published_count : ℕ
  pub failed_count : ℕ

-- What PublishDue returns, which counts what was done before an error.
pub record Published : Type 0 where
  pub result : PublishResult
  pub error : Option Error

module _ (fails : Faults Stmt) (publish : String → Option String) (clock : String → ℕ) where
  -- The mark of a record by the broker's answer.
  unfoldable pub settle : ℕ → String → Option String → Rows → Result Error (Unit {0}) × Rows
  unfolding mark_published mark_failed
  settle next id none rows = mark_published fails id (clock id) rows
  settle next id (some message) rows =
      mark_failed fails id (some message) (some next) (clock id) rows

  abbrev pub count : Option String → PublishResult → PublishResult
  count none c = record c { published_count = suc c.published_count }
  count (some message) c = record c { failed_count = suc c.failed_count }

  -- The loop ends at the first record that is not marked.
  abbrev pub after_mark :
      Result Error (Unit {0}) → PublishResult → Rows → Published × Rows → Published × Rows
  after_mark (err e) c rows rest = (record { result = c; error = some e }, rows)
  after_mark (ok u) c rows rest = rest

  unfoldable pub publish_records : ℕ → Rows → PublishResult → Rows → Published × Rows
  unfolding settle
  publish_records next [] c rows = (record { result = c; error = none }, rows)
  publish_records next ((id, r) ∷ records) c rows =
      let (answer, after) = settle next id (publish id) rows in
      let rest = publish_records next records (count (publish id) c) after in
      after_mark answer c after rest

  abbrev pub publish_listed : ℕ → Result Error Rows → Rows → Published × Rows
  publish_listed next (err e) rows =
      (record { result = record { published_count = 0; failed_count = 0 }; error = some e }, rows)
  publish_listed next (ok records) rows =
      publish_records next records (record { published_count = 0; failed_count = 0 }) rows

  unfoldable pub publish_due :
      (ℕ → ℕ → Bool) → (String → Option (JobEvent × Bool)) → ℕ → ℕ → ℕ → Rows → Published × Rows
  unfolding list_due publish_records
  publish_due no_later parse retry_delay now limit rows =
      publish_listed (now + retry_delay) (list_due parse fails no_later now limit rows) rows

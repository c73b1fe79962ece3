-- ===== src/Outbox/Kept.antt =====
-- What becomes of an event in the outbox, over histories of EnqueueTx and PublishDue.
use flick_drop.Base.{
  ℕ, ◌+◌, ◌≡◌, refl, ◌∙◌, subst, String, Bool, true, false, Option, none, some, List, [], ◌∷◌, ◌==◌,
  string_eq, arith, find, insert, find-insert, Bool-cases, inl, inr, eq_iff,
}
use flick_drop.Sql.{Result, ok, err, Faults}
use flick_drop.Jobs.{JobEvent}
use flick_drop.Outbox.{OutboxRecord, new_record}
use flick_drop.Outbox.Publisher.{
  Rows, Error, Stmt, mark_row, is_published, is_unpublished, update_found, mark, mark_published,
  mark_failed, published_row, failed_row, settle, publish_records, publish_listed, publish_due,
  list_due, PublishResult, Published, count, after_mark,
}

-- A later row of an event: the same event, and the same row once it was published.
pub record Follows (r q : OutboxRecord) : Type 0 where
  pub subject : q.subject ≡ r.subject
  pub payload_json : q.payload_json ≡ r.payload_json
  pub final : is_published r.state ≡ true → q ≡ r

pub record IsKept (id : String) (r : OutboxRecord) (rows : Rows) : Type 0 where
  pub row : OutboxRecord
  pub found : find id rows ≡ some row
  pub follows : Follows r row

Follows-refl : (r : OutboxRecord) → Follows r r
Follows-refl r = record { subject = refl; payload_json = refl; final = λ p. refl }

-- An update that keeps the event.
record KeepsEvent (f : OutboxRecord → OutboxRecord) : Type 0 where
  subject : (r : OutboxRecord) → (f r).subject ≡ r.subject
  payload_json : (r : OutboxRecord) → (f r).payload_json ≡ r.payload_json

published_row-KeepsEvent : (now : ℕ) → KeepsEvent (published_row now)
unfolding published_row
published_row-KeepsEvent now = record { subject = λ r. refl; payload_json = λ r. refl }

failed_row-KeepsEvent : (m : String) (next now : ℕ) → KeepsEvent (failed_row m next now)
unfolding failed_row
failed_row-KeepsEvent m next now = record { subject = λ r. refl; payload_json = λ r. refl }

Follows-update :
    (f : OutboxRecord → OutboxRecord) (r q : OutboxRecord)
    → KeepsEvent f
    → is_published q.state ≡ false
    → Follows r q
    → Follows r (f q)
Follows-update f r q k u w = record {
  subject = k.subject q ∙ w.subject;
  payload_json = k.payload_json q ∙ w.payload_json;
  final = λ p. absurd (cc (w.final p, p, u));
}

update_found-IsKept :
    (id : String) (f : OutboxRecord → OutboxRecord) (j : String) (r : OutboxRecord) (rows : Rows)
    → KeepsEvent f
    → is_unpublished (find id rows) ≡ true
    → IsKept j r rows
    → IsKept j r (update_found id f (find id rows) rows)
update_found-IsKept id f j r rows k = updated (find id rows) refl
  where
    same_row :
        (q : OutboxRecord)
        → find id rows ≡ some q
        → (id == j) ≡ true
        → (w : IsKept j r rows) → w.row ≡ q
    same_row q e y w = cc (w.found, e, (eq_iff id j).0 y)

    updated :
        (o : Option OutboxRecord)
        → find id rows ≡ o
        → is_unpublished o ≡ true
        → IsKept j r rows
        → IsKept j r (update_found id f o rows)
    updated none e u w = w
    updated (some q) e u w = elim (Bool-cases (id == j)) [
      | inl y ↦ record {
        row = f q;
        found = find-insert id j (f q) rows ∙ rw y refl;
        follows =
            Follows-update f r q k (ground (arith, u))
              (subst (Follows r) (same_row q e y w) w.follows);
      }
      | inr n ↦ record {
        row = w.row;
        found = find-insert id j (f q) rows ∙ rw n w.found;
        follows = w.follows;
      }
    ]

mark-IsKept :
    (fails : Faults Stmt) (id : String) (f : OutboxRecord → OutboxRecord) (j : String)
    (r : OutboxRecord) (rows : Rows)
    → KeepsEvent f
    → IsKept j r rows
    → IsKept j r (mark fails id f rows).1
unfolding mark
mark-IsKept fails id f j r rows k w = elim (Bool-cases (fails (mark_row id))) [
  | inl y ↦ rw y w
  | inr n ↦ elim (Bool-cases (is_unpublished (find id rows))) [
    | inl u ↦ rw (n, u) (update_found-IsKept id f j r rows k u w)
    | inr p ↦ rw (n, p) w
  ]
]

settle-IsKept :
    (fails : Faults Stmt) (clock : String → ℕ) (publish : String → Option String) (next : ℕ)
    (id : String) (a : Option String) (j : String) (r : OutboxRecord) (rows : Rows)
    → IsKept j r rows
    → IsKept j r (settle fails publish clock next id a rows).1
unfolding settle mark_published mark_failed
settle-IsKept fails clock publish next id none j r rows =
    mark-IsKept fails id (published_row (clock id)) j r rows (published_row-KeepsEvent (clock id))
settle-IsKept fails clock publish next id (some m) j r rows =
    mark-IsKept fails id (failed_row m next (clock id)) j r rows
      (failed_row-KeepsEvent m next (clock id))

module _ (fails : Faults Stmt) (publish : String → Option String) (clock : String → ℕ) (j : String)
    (r : OutboxRecord) where
  after_mark-IsKept :
      (a : Result Error (Unit {0})) (c : PublishResult) (rows : Rows) (rest : Published × Rows)
      → IsKept j r rows
      → IsKept j r rest.1
      → IsKept j r (after_mark fails publish clock a c rows rest).1
  after_mark-IsKept (err e) c rows rest w k = w
  after_mark-IsKept (ok u) c rows rest w k = k

  publish_records-IsKept :
      (next : ℕ) (records : Rows) (c : PublishResult) (rows : Rows)
      → IsKept j r rows
      → IsKept j r (publish_records fails publish clock next records c rows).1
  unfolding publish_records
  publish_records-IsKept next [] c rows w = w
  publish_records-IsKept next ((id, q) ∷ records) c rows w =
      let kept = settle-IsKept fails clock publish next id (publish id) j r rows w in
      after_mark-IsKept (settle fails publish clock next id (publish id) rows).0 c _ _ kept
        (publish_records-IsKept next records (count fails publish clock (publish id) c) _ kept)

  publish_listed-IsKept :
      (next : ℕ) (l : Result Error Rows) (rows : Rows)
      → IsKept j r rows
      → IsKept j r (publish_listed fails publish clock next l rows).1
  publish_listed-IsKept next (err e) rows w = w
  publish_listed-IsKept next (ok records) rows w =
      publish_records-IsKept next records (record { published_count = 0; failed_count = 0 }) rows w

-- A call on the outbox. Other transactions insert events under ids that are free.
pub data Call : Type 0 where
  enqueues : (id subject payload_json : String) (now : ℕ) → Call
  publishes :
      (fails : Faults Stmt) (publish : String → Option String) (clock : String → ℕ)
      (retry_delay now limit : ℕ)
      → Call

module _ (no_later : ℕ → ℕ → Bool) (parse : String → Option (JobEvent × Bool)) where
  unfoldable pub perform : Call → Rows → Rows
  perform (enqueues id subject payload_json now) rows = elim (find id rows) [
    | none ↦ insert id (new_record subject payload_json now) rows
    | some q ↦ rows
  ]
  perform (publishes fails publish clock retry_delay now limit) rows =
      (publish_due fails publish clock no_later parse retry_delay now limit rows).1

  unfoldable pub run : List Call → Rows → Rows
  unfolding perform
  run [] rows = rows
  run (c ∷ calls) rows = run calls (perform c rows)

  perform-IsKept :
      (c : Call) (j : String) (r : OutboxRecord) (rows : Rows)
      → IsKept j r rows
      → IsKept j r (perform c rows)
  unfolding perform publish_due
  perform-IsKept (publishes fails publish clock retry_delay now limit) j r rows w =
      publish_listed-IsKept fails publish clock j r (now + retry_delay)
        (list_due parse fails no_later now limit rows) rows w
  perform-IsKept (enqueues id subject payload_json now) j r rows w = inserted (find id rows) refl
    where
      q : OutboxRecord
      q = new_record subject payload_json now

      inserted :
          (o : Option OutboxRecord)
          → find id rows ≡ o
          → IsKept j r (elim o [ none ↦ insert id q rows | some q' ↦ rows ])
      inserted (some q') e = w
      inserted none e = record {
        row = w.row;
        found = find-insert id j q rows ∙ ground (arith, w.found, e, eq_iff id j);
        follows = w.follows;
      }

  run-IsKept :
      (calls : List Call) (j : String) (r : OutboxRecord) (rows : Rows)
      → IsKept j r rows
      → IsKept j r (run calls rows)
  unfolding run
  run-IsKept [] j r rows w = w
  run-IsKept (c ∷ calls) j r rows w =
      run-IsKept calls j r (perform c rows) (perform-IsKept c j r rows w)

  -- The outbox loses no event: after any history of enqueued events and runs of the publisher, whichever
  -- statements the driver fails and whatever the broker answers, an event's row is there with its
  -- subject and its payload, and it is the same row if it was published before.
  pub run-Follows :
      (calls : List Call) (id : String) (r : OutboxRecord) (rows : Rows)
      → find id rows ≡ some r
      → (q : OutboxRecord) × (find id (run calls rows) ≡ some q) × Follows r q
  run-Follows calls id r rows e =
      let k =
        run-IsKept calls id r rows (record { row = r; found = e; follows = Follows-refl r }) in
      (k.row, k.found, k.follows)

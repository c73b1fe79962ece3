-- ===== src/Outbox/Accepted.antt =====
-- The events that are marked as published are those that the broker has accepted.
use flick_drop.Base.{
  ℕ, ◌+◌, ◌≡◌, refl, sym, String, Bool, true, false, ◌&&◌, ◌||◌, Option, none, some, List, [], ◌∷◌,
  ◌==◌, string_eq, arith, find, insert, find-insert, eq_iff, Bool-cases, inl, inr,
}
use flick_drop.Sql.{Result, ok, err, Faults}
use flick_drop.Jobs.{JobEvent}
use flick_drop.Outbox.{OutboxRecord, new_record}
use flick_drop.Outbox.Publisher.{
  Rows, Stmt, mark_row, is_published, is_unpublished, update_found, mark, mark_published,
  mark_failed, published_row, failed_row, settle, publish_records, publish_listed, publish_due,
  list_due, PublishResult, Published, count, after_mark,
}
use flick_drop.Outbox.Kept.{Call, enqueues, publishes, perform, run}

abbrev pub published_at : Option OutboxRecord → Bool
published_at none = false
published_at (some r) = is_published r.state

-- Whether the broker's answer is that it has the message.
abbrev pub is_accepted : Option String → Bool
is_accepted none = true
is_accepted (some message) = false

insert-published :
    (id j : String) (r : OutboxRecord) (rows : Rows)
    → published_at (find j (insert id r rows)) ≡ true
    → (published_at (find j rows) || id == j && is_published r.state) ≡ true
insert-published id j r rows = rw (find-insert id j r rows) (λ p. ground (arith, p))

update_found-published :
    (id : String) (f : OutboxRecord → OutboxRecord) (j : String) (b : Bool)
    (o : Option OutboxRecord) (rows : Rows)
    → ((r : OutboxRecord) → id ≡ j → is_published (f r).state ≡ true → b ≡ true)
    → published_at (find j (update_found id f o rows)) ≡ true
    → (published_at (find j rows) || b) ≡ true
update_found-published id f j b none rows h p = ground (arith, p)
update_found-published id f j b (some r) rows h p =
    ground (arith, insert-published id j (f r) rows p, h r, eq_iff id j)

module _ (fails : Faults Stmt) where
  mark-published :
      (id : String) (f : OutboxRecord → OutboxRecord) (j : String) (b : Bool) (rows : Rows)
      → ((r : OutboxRecord) → id ≡ j → is_published (f r).state ≡ true → b ≡ true)
      → published_at (find j (mark fails id f rows).1) ≡ true
      → (published_at (find j rows) || b) ≡ true
  unfolding mark
  mark-published id f j b rows h = elim (Bool-cases (fails (mark_row id))) [
    | inl y ↦ rw y (λ p. ground (arith, p))
    | inr n ↦ elim (Bool-cases (is_unpublished (find id rows))) [
      | inl u ↦ rw (n, u) (update_found-published id f j b (find id rows) rows h)
      | inr k ↦ rw (n, k) (λ p. ground (arith, p))
    ]
  ]

module _ (fails : Faults Stmt) (publish : String → Option String) (clock : String → ℕ)
    (j : String) where
  -- What is published after a step was published before, or is accepted by the broker.
  abbrev OnlyIf : Rows → Rows → Type 0
  OnlyIf rows after =
      published_at (find j after) ≡ true
      → (published_at (find j rows) || is_accepted (publish j)) ≡ true

  settle-OnlyIf :
      (next : ℕ) (id : String) (a : Option String) (rows : Rows)
      → publish id ≡ a
      → OnlyIf rows (settle fails publish clock next id a rows).1
  unfolding settle mark_published mark_failed failed_row
  settle-OnlyIf next id none rows e =
      mark-published fails id (published_row (clock id)) j (is_accepted (publish j)) rows
        (λ r i p. accepted i)
    where
      accepted : id ≡ j → is_accepted (publish j) ≡ true
      accepted i = rw (sym i, e) refl
  settle-OnlyIf next id (some m) rows e =
      mark-published fails id (failed_row m next (clock id)) j (is_accepted (publish j)) rows
        (λ r i p. absurd (cc p))

  OnlyIf-trans : (a b c : Rows) → OnlyIf a b → OnlyIf b c → OnlyIf a c
  OnlyIf-trans a b c h k p = ground (arith, k p, h)

  after_mark-OnlyIf :
      (a : Result _ (Unit {0})) (c : PublishResult) (start rows : Rows) (rest : Published × Rows)
      → OnlyIf start rows
      → OnlyIf rows rest.1
      → OnlyIf start (after_mark fails publish clock a c rows rest).1
  after_mark-OnlyIf (err e) c start rows rest h k = h
  after_mark-OnlyIf (ok u) c start rows rest h k = OnlyIf-trans start rows rest.1 h k

  publish_records-OnlyIf :
      (next : ℕ) (records : Rows) (c : PublishResult) (rows : Rows)
      → OnlyIf rows (publish_records fails publish clock next records c rows).1
  unfolding publish_records
  publish_records-OnlyIf next [] c rows = λ p. ground (arith, p)
  publish_records-OnlyIf next ((id, q) ∷ records) c rows =
      let marked = settle fails publish clock next id (publish id) rows in
      after_mark-OnlyIf marked.0 c rows marked.1 _ (settle-OnlyIf next id (publish id) rows refl)
        (publish_records-OnlyIf next records (count fails publish clock (publish id) c) marked.1)

  publish_listed-OnlyIf :
      (next : ℕ) (l : Result _ Rows) (rows : Rows)
      → OnlyIf rows (publish_listed fails publish clock next l rows).1
  publish_listed-OnlyIf next (err e) rows = λ p. ground (arith, p)
  publish_listed-OnlyIf next (ok records) rows =
      publish_records-OnlyIf next records (record { published_count = 0; failed_count = 0 }) rows

-- Whether the broker accepts an event in a run of the publisher that may give it to the broker.
unfoldable pub accepts : String → Call → Bool
accepts id (enqueues j subject payload_json now) = false
accepts id (publishes fails publish clock retry_delay now limit) = is_accepted (publish id)

unfoldable pub accepts_any : String → List Call → Bool
unfolding accepts
accepts_any id [] = false
accepts_any id (c ∷ calls) = accepts id c || accepts_any id calls

module _ (no_later : ℕ → ℕ → Bool) (parse : String → Option (JobEvent × Bool)) where
  perform-published :
      (c : Call) (id : String) (rows : Rows)
      → published_at (find id (perform no_later parse c rows)) ≡ true
      → (published_at (find id rows) || accepts id c) ≡ true
  unfolding perform publish_due accepts new_record
  perform-published (publishes fails publish clock retry_delay now limit) id rows =
      publish_listed-OnlyIf fails publish clock id (now + retry_delay)
        (list_due parse fails no_later now limit rows) rows
  perform-published (enqueues j subject payload_json now) id rows = inserted (find j rows) refl
    where
      inserted :
          (o : Option OutboxRecord)
          → find j rows ≡ o
          → published_at (
              find id (elim o [
                | none ↦ insert j (new_record subject payload_json now) rows
                | some q ↦ rows
              ]))
            ≡ true
          → (published_at (find id rows) || false) ≡ true
      inserted (some q) e p = ground (arith, p)
      inserted none e p =
          ground (arith, insert-published j id (new_record subject payload_json now) rows p)

  -- What the outbox marks as published, the broker has accepted: an event that is published after a
  -- history of enqueued events and runs of the publisher was so before, or is accepted in one of
  -- these runs, whichever statements the driver fails.
  pub run-accepted :
      (calls : List Call) (id : String) (rows : Rows)
      → published_at (find id (run no_later parse calls rows)) ≡ true
      → (published_at (find id rows) || accepts_any id calls) ≡ true
  unfolding run accepts_any
  run-accepted [] id rows p = ground (arith, p)
  run-accepted (c ∷ calls) id rows p =
      ground (
        arith,
        run-accepted calls id (perform no_later parse c rows) p,
        perform-published c id rows,
      )

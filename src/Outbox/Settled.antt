-- ===== src/Outbox/Settled.antt =====
-- What one run of PublishDue does when the driver fails no statement.
use flick_drop.Base.{
  ℕ, suc, ◌+◌, ◌≡◌, refl, sym, subst, String, Bool, true, false, ◌||◌, ◌∙◌, beq_self, Option, none,
  some, [], ◌∷◌, ◌==◌, string_eq, arith, find, insert, find-insert, eq_iff, length, Bool-cases, inl,
  inr, nat_beq,
}
use flick_drop.Sql.{Result, ok, err}
use flick_drop.Jobs.{JobEvent, InvalidEvent, decode_job_event}
use flick_drop.Outbox.{OutboxRecord, published, failed}
use flick_drop.Outbox.Publisher.{
  Rows, Error, Stmt, is_published, is_unpublished, mark, mark_published, mark_failed, published_row,
  failed_row, scan, listed, list_due, PublishResult, Published, count, settle, publish_records,
  publish_due,
}
use flick_drop.Outbox.Listed.{
  is_in, distinct, all_open, all_open-insert, listed-distinct, listed-open,
}

abbrev pub no_faults : Stmt → Bool
no_faults s = false

scan-ok :
    (parse : String → Option (JobEvent × Bool)) (rows records : Rows)
    → scan parse rows ≡ ok records
    → records ≡ rows
unfolding scan
scan-ok parse [] records = λ e. cc e
scan-ok parse ((id, r) ∷ rows) records =
    decoded (decode_job_event parse r.payload_json) (scan parse rows) (scan-ok parse rows)
  where
    decoded :
        (d : Result InvalidEvent JobEvent) (rest : Result Error Rows)
        → ((q : Rows) → rest ≡ ok q → q ≡ rows)
        → (elim d [
          | err e ↦ err (Error.invalid_event e)
          | ok event ↦ elim rest [ err e ↦ err e | ok q ↦ ok ((id, r) ∷ q) ]
        ])
          ≡ ok records
        → records ≡ (id, r) ∷ rows
    decoded (err x) rest s e = absurd (cc e)
    decoded (ok event) (err x) s e = absurd (cc e)
    decoded (ok event) (ok q) s e = cc (e, s q refl)

list_due-listed :
    (parse : String → Option (JobEvent × Bool)) (no_later : ℕ → ℕ → Bool) (due limit : ℕ)
    (rows records : Rows)
    → list_due parse no_faults no_later due limit rows ≡ ok records
    → records ≡ listed no_later due limit rows
unfolding list_due
list_due-listed parse no_later due limit rows records = elim (Bool-cases (nat_beq limit 0)) [
  | inl y ↦ rw y (λ e. absurd (cc e))
  | inr n ↦ rw n (scan-ok parse (listed no_later due limit rows) records)
]

module _ (publish : String → Option String) (clock : String → ℕ) (next : ℕ) where
  -- The row after the broker's answer.
  abbrev pub answered : String → Option String → OutboxRecord → OutboxRecord
  answered id none r = record r {
    state = published;
    published_at = some (clock id);
    last_error = none;
    updated_at = clock id;
  }
  answered id (some message) r = record r {
    state = failed;
    attempts = suc r.attempts;
    next_attempt_at = next;
    last_error = some message;
    updated_at = clock id;
  }

  abbrev pub answered_if : Bool → String → Option OutboxRecord → Option OutboxRecord
  answered_if b id none = none
  answered_if true id (some r) = some (answered id (publish id) r)
  answered_if false id (some r) = some r

  settle-open :
      (id : String) (a : Option String) (r : OutboxRecord) (rows : Rows)
      → find id rows ≡ some r
      → is_published r.state ≡ false
      → settle no_faults publish clock next id a rows ≡ (ok tt, insert id (answered id a r) rows)
  unfolding settle mark_published mark_failed mark published_row failed_row
  settle-open id none r rows e u = rw (e, u) refl
  settle-open id (some m) r rows e u = rw (e, u) refl

  record IsSettled (records rows : Rows) (c : PublishResult) (p : Published × Rows) : Type 0 where
    error : p.0.error ≡ none
    counts :
        p.0.result.published_count + p.0.result.failed_count
        ≡ length records + c.published_count + c.failed_count
    found : (id : String) → find id p.1 ≡ answered_if (is_in id records) id (find id rows)

  count-suc :
      (a : Option String) (c : PublishResult)
      → (count no_faults publish clock a c).published_count
          + (count no_faults publish clock a c).failed_count
        ≡ suc (c.published_count + c.failed_count)
  count-suc none c = omega arith
  count-suc (some m) c = omega arith

  unpublished_row :
      (o : Option OutboxRecord)
      → is_unpublished o ≡ true
      → (r : OutboxRecord) × (o ≡ some r) × (is_published r.state ≡ false)
  unpublished_row none u = absurd (cc u)
  unpublished_row (some r) u = (r, refl, ground (arith, u))

  -- The first record and the others, which are not it.
  found-cons :
      (id j : String) (r : OutboxRecord) (records rows : Rows)
      → find id rows ≡ some r
      → is_in id records ≡ false
      → answered_if (is_in j records) j (find j (insert id (answered id (publish id) r) rows))
        ≡ answered_if (j == id || is_in j records) j (find j rows)
  found-cons id j r records rows e n = elim (Bool-cases (j == id)) [
    | inl y ↦
        subst
          (λ k.
            answered_if (is_in k records) k (find k (insert id (answered id (publish id) r) rows))
            ≡ answered_if (k == id || is_in k records) k (find k rows))
          (sym ((eq_iff j id).0 y))
          (rw (n, find-insert id id (answered id (publish id) r) rows, beq_self id, e) refl)
    | inr k ↦
        let m : (id == j) ≡ false = ground (arith, k, eq_iff j id, eq_iff id j) in
        rw (find-insert id j (answered id (publish id) r) rows, m, k) refl
  ]

  publish_cons-IsSettled :
      (id : String) (q : OutboxRecord) (records : Rows) (c : PublishResult) (rows : Rows)
      (r : OutboxRecord)
      → find id rows ≡ some r
      → is_published r.state ≡ false
      → is_in id records ≡ false
      → (let c' = count no_faults publish clock (publish id) c in
          let after = insert id (answered id (publish id) r) rows in
          IsSettled records after c'
            (publish_records no_faults publish clock next records c' after))
      → IsSettled
          ((id, q) ∷ records)
          rows
          c
          (publish_records no_faults publish clock next ((id, q) ∷ records) c rows)
  unfolding publish_records
  publish_cons-IsSettled id q records c rows r e u n rest =
      rw (settle-open id (publish id) r rows e u) (record {
        error = rest.error;
        counts = ground (arith, rest.counts, count-suc (publish id) c);
        found = λ j. rest.found j ∙ found-cons id j r records rows e n;
      })

  publish_records-IsSettled :
      (records : Rows) (c : PublishResult) (rows : Rows)
      → distinct records ≡ true
      → all_open records rows ≡ true
      → IsSettled records rows c (publish_records no_faults publish clock next records c rows)
  unfolding publish_records distinct all_open
  publish_records-IsSettled [] c rows d a = record {
    error = refl;
    counts = omega arith;
    found = λ id. kept id (find id rows);
  }
    where
      kept : (id : String) (o : Option OutboxRecord) → o ≡ answered_if false id o
      kept id none = refl
      kept id (some r) = refl
  publish_records-IsSettled ((id, q) ∷ records) c rows d a =
      let u = unpublished_row (find id rows) (ground (arith, a)) in
      let n : is_in id records ≡ false = ground (arith, d) in
      publish_cons-IsSettled id q records c rows u.0 u.1 u.2 n (
        publish_records-IsSettled records (count no_faults publish clock (publish id) c)
          (insert id (answered id (publish id) u.0) rows) (ground (arith, d))
          (all_open-insert id (answered id (publish id) u.0) records rows n (ground (arith, a))))

-- A run of the publisher, when the driver fails no statement, settles every event that it lists, and
-- touches no other: the events that the broker accepts are published, the others have failed once
-- more and are due again after the delay. It returns no error and counts them all. The ids of the
-- table are distinct.
pub publish_due-settles :
    (publish : String → Option String) (clock : String → ℕ) (no_later : ℕ → ℕ → Bool)
    (parse : String → Option (JobEvent × Bool)) (retry_delay now limit : ℕ) (rows records : Rows)
    → distinct rows ≡ true
    → list_due parse no_faults no_later now limit rows ≡ ok records
    → let p = publish_due no_faults publish clock no_later parse retry_delay now limit rows in
      (p.0.error ≡ none)
      × (p.0.result.published_count + p.0.result.failed_count ≡ length records)
      × ((id : String)
          → find id p.1
            ≡ answered_if publish clock (now + retry_delay) (is_in id records) id (find id rows))
unfolding publish_due
publish_due-settles publish clock no_later parse retry_delay now limit rows records d e =
    let l = list_due-listed parse no_later now limit rows records e in
    let s =
      publish_records-IsSettled publish clock (now + retry_delay) records
        (record { published_count = 0; failed_count = 0 }) rows
        (rw l (listed-distinct no_later now limit rows d))
        (rw l (listed-open no_later now limit rows d)) in
    rw e (s.error, ground (arith, s.counts), s.found)

-- ===== src/Worker/Failures.antt =====
-- A recorded failure of internal/worker/store.go, row by row.
use flick_drop.Base.{
  ℕ, suc, ◌≤◌, ◌≡◌, refl, subst, inl, inr, String, Bool, true, false, ◌&&◌, some, List, [], ◌∷◌,
  arith, nat_beq, ◌==◌, string_eq, if◌then◌else◌, find, find-insert, ap, beq_self, Bool-cases,
}
use flick_drop.Worker.Tables.{
  dead, failed, running, attempt_failed, Receipt, Attempt, DeadLetter, Db, is_running, find_attempt,
  failure_count, count_failures, update_where, finish_row, finish_running, settle_receipt,
  update_receipt, upsert_dead_letter,
}
use flick_drop.Worker.Counts.{count_running}
use flick_drop.Worker.Moves.{finished, buried}

abbrev pub failed_attempt : Attempt → String → ℕ → Attempt
failed_attempt a text now = record {
  id = a.id;
  job_id = a.job_id;
  attempt = a.attempt;
  started_at = a.started_at;
  finished_at = some now;
  result = attempt_failed;
  error = some text;
}

-- The receipt after a failure, which is the job's last one or not.
abbrev pub failed_receipt : Receipt → String → ℕ → Bool → Receipt
failed_receipt r text now last = record {
  job_id = r.job_id;
  kind = r.kind;
  state = if last then dead else failed;
  attempts = r.attempts;
  last_error = some text;
  first_seen_at = r.first_seen_at;
  updated_at = now;
  completed_at = if last then some now else r.completed_at;
}

abbrev pub letter : Receipt → String → String → ℕ → DeadLetter
letter r text payload now = record {
  job_id = r.job_id;
  kind = r.kind;
  payload_json = payload;
  error = text;
  created_at = now;
}

-- The attempt's row, the count of failures, the receipt and the letter of the job have the failure, and
-- every other row and job is as it was.
abbrev pub HasFailed :
    Attempt → Receipt → String → String → ℕ → Bool → ℕ → String → Db → Db → Type 0
HasFailed a r text payload now last id job d d' =
    (find_attempt id d'.attempts
      ≡ (if nat_beq a.id id then some (failed_attempt a text now) else find_attempt id d.attempts))
    × (failure_count a.job_id d' ≡ suc (failure_count a.job_id d))
    × (find job d'.receipts
        ≡ (if a.job_id == job then some (failed_receipt r text now last) else find job d.receipts))
    × (find job d'.dead_letters ≡ (
        if last && a.job_id == job
        then some (letter r text payload now)
        else find job d.dead_letters))

pub find_attempt-id :
    (id : ℕ) (rows : List Attempt) (a : Attempt) → find_attempt id rows ≡ some a → a.id ≡ id
find_attempt-id id [] a f = absurd (cc f)
find_attempt-id id (b ∷ rows) a f = ground (arith, f, find_attempt-id id rows a)

find_attempt-finish_other :
    (id other now : ℕ) (text : String) (rows : List Attempt)
    → nat_beq id other ≡ false
    → find_attempt other (
        update_where
          (λ b. nat_beq b.id id && is_running b.result)
          (finish_row attempt_failed now (some text))
          rows)
      ≡ find_attempt other rows
find_attempt-finish_other id other now text [] n = refl
find_attempt-finish_other id other now text (b ∷ rows) n =
    elim (Bool-cases (nat_beq b.id id && is_running b.result)) [
      | inl e ↦ rw e (ground (arith, n, e, find_attempt-finish_other id other now text rows n))
      | inr e ↦ rw (e, find_attempt-finish_other id other now text rows n) refl
    ]

find_attempt-finish_self :
    (id now : ℕ) (text : String) (rows : List Attempt) (a : Attempt)
    → find_attempt id rows ≡ some a
    → a.result ≡ running
    → find_attempt id (
        update_where
          (λ b. nat_beq b.id id && is_running b.result)
          (finish_row attempt_failed now (some text))
          rows)
      ≡ some (failed_attempt a text now)
find_attempt-finish_self id now text [] a f u = absurd (cc f)
find_attempt-finish_self id now text (b ∷ rows) a f u = elim (Bool-cases (nat_beq b.id id)) [
  | inl i ↦ found (ground (arith, f, i)) i
  | inr n ↦ rw (n, n) (find_attempt-finish_self id now text rows a (ground (arith, f, n)) u)
]
  where
    found :
        b ≡ a
        → nat_beq b.id id ≡ true
        → find_attempt id (
            update_where
              (λ b. nat_beq b.id id && is_running b.result)
              (finish_row attempt_failed now (some text))
              (b ∷ rows))
          ≡ some (failed_attempt a text now)
    found same i = rw (i, ap Attempt.result same, u, i, same) refl

find_attempt-finish :
    (id other now : ℕ) (text : String) (rows : List Attempt) (a : Attempt)
    → find_attempt id rows ≡ some a
    → a.result ≡ running
    → find_attempt other (
        update_where
          (λ b. nat_beq b.id id && is_running b.result)
          (finish_row attempt_failed now (some text))
          rows)
      ≡ (if nat_beq id other then some (failed_attempt a text now) else find_attempt other rows)
find_attempt-finish id other now text rows a f u = elim (Bool-cases (nat_beq id other)) [
  | inl e ↦ same e (ground (arith, e))
  | inr n ↦ rw (n, find_attempt-finish_other id other now text rows n) refl
]
  where
    same :
        nat_beq id other ≡ true
        → id ≡ other
        → find_attempt other (
            update_where
              (λ b. nat_beq b.id id && is_running b.result)
              (finish_row attempt_failed now (some text))
              rows)
          ≡ (if nat_beq id other then some (failed_attempt a text now) else find_attempt other rows)
    same e k = rw e (
        subst
          (λ i.
            find_attempt i (
              update_where (λ b. nat_beq b.id id && is_running b.result)
                (finish_row attempt_failed now (some text)) rows)
            ≡ some (failed_attempt a text now))
          k (find_attempt-finish_self id now text rows a f u))

-- The failures of a job do not change by the end of an attempt, when none of its attempts runs.
count_failures-idle :
    (id now : ℕ) (text job : String) (rows : List Attempt)
    → count_running job rows ≡ 0
    → count_failures job (
        update_where
          (λ b. nat_beq b.id id && is_running b.result)
          (finish_row attempt_failed now (some text))
          rows)
      ≡ count_failures job rows
count_failures-idle id now text job [] z = refl
count_failures-idle id now text job (b ∷ rows) z =
    ground (arith, z, count_failures-idle id now text job rows)

count_failures-finish :
    (id now : ℕ) (text : String) (rows : List Attempt) (a : Attempt)
    → find_attempt id rows ≡ some a
    → a.result ≡ running
    → count_running a.job_id rows ≤ 1
    → count_failures a.job_id (
        update_where
          (λ b. nat_beq b.id id && is_running b.result)
          (finish_row attempt_failed now (some text))
          rows)
      ≡ suc (count_failures a.job_id rows)
count_failures-finish id now text [] a f u l = absurd (cc f)
count_failures-finish id now text (b ∷ rows) a f u l = ground (
  arith,
  f,
  u,
  l,
  beq_self a.job_id,
  count_failures-idle id now text a.job_id rows,
  count_failures-finish id now text rows a,
)

-- A burial after a failure makes it the last one.
died-HasFailed :
    (a : Attempt) (r : Receipt) (text payload : String) (now id : ℕ) (job : String) (d w : Db)
    → HasFailed a r text payload now false id job d w
    → find a.job_id w.receipts ≡ some (failed_receipt r text now false)
    → r.job_id ≡ a.job_id
    → HasFailed a r text payload now true id job d
        (buried (record r { state = failed }) payload text now w)
unfolding buried settle_receipt upsert_dead_letter failure_count
died-HasFailed a r text payload now id job d w h f key =
    rw (buried, settle_receipt, update_receipt, upsert_dead_letter, key, f)
      (
        h.0,
        h.1,
        ground (arith, h.2, find-insert a.job_id job (failed_receipt r text now true) w.receipts),
        ground (arith, h.2, find-insert a.job_id job (letter r text payload now) w.dead_letters),
      )

module _ (a : Attempt) (r : Receipt) (text payload : String) (now : ℕ) (d : Db)
    (row : find_attempt a.id d.attempts ≡ some a) (runs : a.result ≡ running)
    (found : find a.job_id d.receipts ≡ some r) (one : count_running a.job_id d.attempts ≤ 1) where
  pub finished-HasFailed :
      (id : ℕ) (job : String)
      → HasFailed a r text payload now false id job d (finished a a.id (some text) now d)
  unfolding finished settle_receipt finish_running failure_count
  finished-HasFailed id job =
      rw (finished, settle_receipt, update_receipt, finish_running, found)
        (
          find_attempt-finish a.id id now text d.attempts a row runs,
          count_failures-finish a.id now text d.attempts a row runs one,
          find-insert a.job_id job _ d.receipts,
          refl,
        )

  pub buried-HasFailed :
      (id : ℕ) (job : String)
      → r.job_id ≡ a.job_id
      → HasFailed a r text payload now true id job d (
          buried (record r { state = failed }) payload text now (finished a a.id (some text) now d))
  buried-HasFailed id job key =
      died-HasFailed a r text payload now id job d _ (finished-HasFailed id job)
        (ground (arith, (finished-HasFailed id a.job_id).2, beq_self a.job_id)) key

-- ===== src/Worker/Invariant.antt =====
-- What holds of the worker's tables between the operations of internal/worker/store.go.
use flick_drop.Base.{
  ℕ, ◌≤◌, ◌≡◌, refl, subst, inl, inr, String, false, Option, none, some, List, arith, ◌==◌,
  string_eq, find, insert, find-insert, Bool-cases,
}
use flick_drop.Worker.Tables.{
  State, processing, succeeded, failed, dead, attempt_failed, Receipt, Attempt, DeadLetter, Db,
  is_none, insert_receipt, recover_interrupted,
}
use flick_drop.Worker.Counts.{
  count_running, count_rows_of, IdsBelow, count_running-finish, count_rows_of-update,
  update_where-IdsBelow,
}

-- How many running attempts a job may have.
abbrev pub slots : State → ℕ
slots processing = 1
slots succeeded = 0
slots failed = 0
slots dead = 0

abbrev pub letter_error : Option DeadLetter → Option String
letter_error none = none
letter_error (some l) = some l.error

-- A dead job has a letter, with the receipt's error.
abbrev pub Lettered : State → Option String → Option DeadLetter → Type 0
Lettered processing e l = Unit {0}
Lettered succeeded e l = Unit {0}
Lettered failed e l = Unit {0}
Lettered dead e l = (letter_error l ≡ e) × (is_none l ≡ false)

abbrev pub IsValidJob : String → Option Receipt → ℕ → ℕ → Option DeadLetter → Type 0
IsValidJob j none active rows l = (active ≡ 0) × (rows ≡ 0)
IsValidJob j (some r) active rows l =
    (r.job_id ≡ j)
    × (active ≤ slots r.state)
    × (rows ≡ r.attempts)
    × Lettered r.state r.last_error l

pub record IsValidDb (d : Db) : Type 0 where
  pub jobs :
      (j : String)
      → IsValidJob j
          (find j d.receipts)
          (count_running j d.attempts)
          (count_rows_of j d.attempts)
          (find j d.dead_letters)
  pub ids : IdsBelow d.next_id d.attempts

-- With fewer running rows, a job is still valid.
pub fewer :
    (j : String) (o : Option Receipt) (n m n' m' : ℕ) (l : Option DeadLetter)
    → IsValidJob j o n m l
    → n' ≤ n
    → m' ≡ m
    → IsValidJob j o n' m' l
fewer j none n m n' m' l (a, b) h e = (omega arith, omega arith)
fewer j (some r) n m n' m' l (k, a, b, w) h e = (k, omega arith, omega arith, w)

new_job :
    (j : String) (r : Receipt) (o : Option Receipt) (n m : ℕ) (l : Option DeadLetter)
    → IsValidJob j o n m l
    → o ≡ none
    → r.job_id ≡ j
    → r.state ≡ processing
    → r.attempts ≡ 0
    → IsValidJob j (some r) n m l
new_job j r none n m l (a, b) e k s z = (k, omega arith, omega arith, rw s tt)
new_job j r (some q) n m l v e k s z = absurd (cc e)

pub recover-IsValid :
    (job : String) (now : ℕ) (d : Db) → IsValidDb d → IsValidDb (recover_interrupted job now d)
unfolding recover_interrupted
recover-IsValid job now d v = record {
  jobs = λ j.
      fewer j (find j d.receipts) _ _ _ _ (find j d.dead_letters) (v.jobs j)
        (count_running-finish j _ attempt_failed now none d.attempts refl)
        (count_rows_of-update j _ attempt_failed now none d.attempts);
  ids = update_where-IdsBelow d.next_id _ attempt_failed now none d.attempts v.ids;
}

-- A change to one job's receipt, with what it does to the other tables.
pub one_job-IsValid :
    (job : String) (r : Receipt) (rows : List Attempt) (letters : List (String × DeadLetter))
    (n : ℕ) (d : Db)
    → IsValidJob job (some r) (count_running job rows) (count_rows_of job rows) (find job letters)
    → ((j : String)
        → (job == j) ≡ false
        → (count_running j rows ≤ count_running j d.attempts)
          × (count_rows_of j rows ≡ count_rows_of j d.attempts)
          × (find j letters ≡ find j d.dead_letters))
    → IdsBelow n rows
    → IsValidDb d
    → IsValidDb (record {
      receipts = insert job r d.receipts;
      attempts = rows;
      dead_letters = letters;
      next_id = n;
    })
one_job-IsValid job r rows letters n d w k b v = record {
  jobs = λ j. elim (Bool-cases (job == j)) [
    | inl e ↦
        rw (find-insert job j r d.receipts, e)
          (subst
            (λ i.
              IsValidJob i (some r) (count_running i rows) (count_rows_of i rows) (find i letters))
            ((string_eq.same_iff job j).0 e) w)
    | inr e ↦
        rw (find-insert job j r d.receipts, e, (k j e).2)
          (fewer j (find j d.receipts) _ _ _ _ (find j d.dead_letters) (v.jobs j) (k j e).0
            (k j e).1)
  ];
  ids = b;
}

pub insert_receipt-IsValid :
    (r : Receipt) (d : Db)
    → find r.job_id d.receipts ≡ none
    → r.state ≡ processing
    → r.attempts ≡ 0
    → IsValidDb d
    → IsValidDb (insert_receipt r d)
unfolding insert_receipt
insert_receipt-IsValid r d f s n v =
    one_job-IsValid r.job_id r d.attempts d.dead_letters d.next_id d
      (new_job r.job_id r (find r.job_id d.receipts) _ _ _ (v.jobs r.job_id) f refl s n)
      (λ j e. (omega arith, refl, refl)) v.ids v

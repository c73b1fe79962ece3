-- ===== src/Worker/Tables.antt =====
-- internal/worker/store.go and the worker tables of internal/db/migrations.go: rows, and what each
-- statement reads and writes. Times are numbers of nanoseconds.
use flick_drop.Base.{
  ℕ, suc, String, Bool, true, false, not, ◌&&◌, Option, none, some, List, [], ◌∷◌, ◌++◌, ltb,
  nat_beq, ◌==◌, string_eq, if◌then◌else◌, find, insert,
}

pub data State : Type 0 where
  processing succeeded failed dead : State

pub data AttemptResult : Type 0 where
  running attempt_succeeded attempt_failed : AttemptResult

pub record Receipt : Type 0 where
  pub job_id : String
  pub kind : String
  pub state : State
  pub attempts : ℕ
  pub last_error : Option String
  pub first_seen_at : ℕ
  pub updated_at : ℕ
  pub completed_at : Option ℕ

pub record Attempt : Type 0 where
  pub id : ℕ
  pub job_id : String
  pub attempt : ℕ
  pub started_at : ℕ
  pub finished_at : Option ℕ
  pub result : AttemptResult
  pub error : Option String

pub record DeadLetter : Type 0 where
  pub job_id : String
  pub kind : String
  pub payload_json : String
  pub error : String
  pub created_at : ℕ

-- `next_id` is SQLite's counter for the autoincrement key of job_attempts.
pub record Db : Type 0 where
  pub receipts : List (String × Receipt)
  pub attempts : List Attempt
  pub dead_letters : List (String × DeadLetter)
  pub next_id : ℕ

abbrev pub state_eq : State → State → Bool
state_eq processing processing = true
state_eq succeeded succeeded = true
state_eq failed failed = true
state_eq dead dead = true
state_eq _ _ = false

abbrev pub is_running : AttemptResult → Bool
is_running running = true
is_running attempt_succeeded = false
is_running attempt_failed = false

abbrev pub is_failed : AttemptResult → Bool
is_failed running = false
is_failed attempt_succeeded = false
is_failed attempt_failed = true

abbrev pub is_none {ℓ} : {A : Type ℓ} → Option A → Bool
is_none none = true
is_none (some a) = false

-- loadReceipt
unfoldable pub load_receipt : String → Db → Option Receipt
load_receipt job_id d = find job_id d.receipts

-- loadAttempt
abbrev pub find_attempt : ℕ → List Attempt → Option Attempt
find_attempt id [] = none
find_attempt id (a ∷ rows) = if nat_beq a.id id then some a else find_attempt id rows

-- Whether an update of a running attempt finds its row.
abbrev pub is_running_row : Option Attempt → Bool
is_running_row none = false
is_running_row (some a) = is_running a.result

unfoldable pub load_attempt : ℕ → Db → Option Attempt
load_attempt id d = find_attempt id d.attempts

-- A row of failureCount: failed, with an error text.
abbrev pub is_failure : String → Attempt → Bool
is_failure job_id a = a.job_id == job_id && is_failed a.result && not (is_none a.error)

abbrev pub count_failures : String → List Attempt → ℕ
count_failures job_id [] = 0
count_failures job_id (a ∷ rows) =
    if is_failure job_id a then suc (count_failures job_id rows) else count_failures job_id rows

unfoldable pub failure_count : String → Db → ℕ
failure_count job_id d = count_failures job_id d.attempts

-- The failure with the greatest attempt number, and its error text.
abbrev pub later : Option (ℕ × String) → ℕ → Option String → Option (ℕ × String)
later best n none = best
later none n (some e) = some (n, e)
later (some (m, f)) n (some e) = if ltb m n then some (n, e) else some (m, f)

abbrev pub last_failure_in : String → List Attempt → Option (ℕ × String)
last_failure_in job_id [] = none
last_failure_in job_id (a ∷ rows) =
    if is_failure job_id a
    then later (last_failure_in job_id rows) a.attempt a.error
    else last_failure_in job_id rows

unfoldable pub last_failure : String → Db → Option String
last_failure job_id d = elim (last_failure_in job_id d.attempts) [
  | none ↦ none
  | some (n, e) ↦ some e
]

unfoldable pub insert_receipt : Receipt → Db → Db
insert_receipt r d = record d { receipts = insert r.job_id r d.receipts }

-- An update of the attempt rows that a test picks.
abbrev pub update_where : (Attempt → Bool) → (Attempt → Attempt) → List Attempt → List Attempt
update_where p f [] = []
update_where p f (a ∷ rows) = (if p a then f a else a) ∷ update_where p f rows

abbrev pub finish_row : AttemptResult → ℕ → Option String → Attempt → Attempt
finish_row r now e a = record a { result = r; finished_at = some now; error = e }

-- The running attempts of a job become failed with no error.
unfoldable pub recover_interrupted : String → ℕ → Db → Db
recover_interrupted job_id now d = record d {
  attempts =
      update_where (λ a. a.job_id == job_id && is_running a.result)
        (finish_row attempt_failed now none) d.attempts;
}

unfoldable pub finish_running : ℕ → AttemptResult → ℕ → Option String → Db → Db
finish_running id r now e d = record d {
  attempts =
      update_where (λ a. nat_beq a.id id && is_running a.result) (finish_row r now e) d.attempts;
}

abbrev pub update_receipt : String → (Receipt → Receipt) → Db → Db
update_receipt job_id f d = elim (find job_id d.receipts) [
  | none ↦ d
  | some r ↦ record d { receipts = insert job_id (f r) d.receipts }
]

unfoldable pub claim_receipt : String → ℕ → ℕ → Db → Db
claim_receipt job_id n now =
    update_receipt job_id
      (λ r. record r { state = processing; attempts = n; updated_at = now; last_error = none })

-- The row that an update of a receipt in a given state and attempt would change.
abbrev pub is_at : State → ℕ → Option Receipt → Bool
is_at s n none = false
is_at s n (some r) = state_eq r.state s && nat_beq r.attempts n

abbrev pub coalesce : Option ℕ → Option ℕ → Option ℕ
coalesce none old = old
coalesce (some t) old = some t

unfoldable pub settle_receipt : String → State → Option String → ℕ → Option ℕ → Db → Db
settle_receipt job_id s e now completed = update_receipt job_id (λ r. record r {
  state = s;
  last_error = e;
  updated_at = now;
  completed_at = coalesce completed r.completed_at;
})

unfoldable pub insert_attempt : String → ℕ → ℕ → Db → Db
insert_attempt job_id n now d = record d {
  attempts =
      d.attempts
      ++ (record {
        id = d.next_id;
        job_id = job_id;
        attempt = n;
        started_at = now;
        finished_at = none;
        result = running;
        error = none;
      })
        ∷ [];
  next_id = suc d.next_id;
}

unfoldable pub upsert_dead_letter : DeadLetter → Db → Db
upsert_dead_letter l d = record d { dead_letters = insert l.job_id l d.dead_letters }

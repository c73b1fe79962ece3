-- ===== src/Worker/Counts.antt =====
-- Counting the rows of job_attempts (internal/worker/store.go).
use flick_drop.Base.{
  ℕ, suc, ◌+◌, ◌≤◌, ◌<◌, ◌≡◌, refl, String, Bool, true, false, ◌&&◌, Option, none, some, List, [],
  ◌∷◌, ◌++◌, arith, nat_beq, ◌==◌, Bool-cases, inl, inr, beq_self, ap, string_eq, if◌then◌else◌,
}
use flick_drop.Worker.Tables.{
  AttemptResult, running, attempt_failed, Attempt, is_running, update_where, finish_row,
  find_attempt,
}

-- The attempts of a job that are running, and all of its attempts.
abbrev pub count_running : String → List Attempt → ℕ
count_running j [] = 0
count_running j (a ∷ rows) =
    if a.job_id == j && is_running a.result
    then suc (count_running j rows)
    else count_running j rows

abbrev pub count_rows_of : String → List Attempt → ℕ
count_rows_of j [] = 0
count_rows_of j (a ∷ rows) =
    if a.job_id == j then suc (count_rows_of j rows) else count_rows_of j rows

abbrev pub IdsBelow : ℕ → List Attempt → Type 0
IdsBelow n [] = Unit {0}
IdsBelow n (a ∷ rows) = (a.id < n) × IdsBelow n rows

pub count_running-append :
    (j : String) (rows : List Attempt) (a : Attempt)
    → count_running j (rows ++ a ∷ []) ≡ count_running j rows + count_running j (a ∷ [])
count_running-append j [] a = ground arith
count_running-append j (b ∷ rows) a = ground (arith, count_running-append j rows a)

pub count_rows_of-append :
    (j : String) (rows : List Attempt) (a : Attempt)
    → count_rows_of j (rows ++ a ∷ []) ≡ count_rows_of j rows + count_rows_of j (a ∷ [])
count_rows_of-append j [] a = ground arith
count_rows_of-append j (b ∷ rows) a = ground (arith, count_rows_of-append j rows a)

pub count_running-recover :
    (j : String) (now : ℕ) (rows : List Attempt)
    → count_running j (
        update_where
          (λ a. a.job_id == j && is_running a.result)
          (finish_row attempt_failed now none)
          rows)
      ≡ 0
count_running-recover j now [] = refl
count_running-recover j now (b ∷ rows) = ground (arith, count_running-recover j now rows)

pub count_running-finish :
    (j : String) (p : Attempt → Bool) (r : AttemptResult) (now : ℕ) (e : Option String)
    (rows : List Attempt)
    → is_running r ≡ false
    → count_running j (update_where p (finish_row r now e) rows) ≤ count_running j rows
count_running-finish j p r now e [] h = ground arith
count_running-finish j p r now e (b ∷ rows) h =
    ground (arith, count_running-finish j p r now e rows h)

pub count_running-finish_one :
    (id : ℕ) (r : AttemptResult) (now : ℕ) (e : Option String) (rows : List Attempt) (a : Attempt)
    → is_running r ≡ false
    → find_attempt id rows ≡ some a
    → a.result ≡ running
    → count_running a.job_id
        (update_where (λ b. nat_beq b.id id && is_running b.result) (finish_row r now e) rows)
      < count_running a.job_id rows
count_running-finish_one id r now e [] a h f u = absurd (cc f)
count_running-finish_one id r now e (b ∷ rows) a h f u = elim (Bool-cases (nat_beq b.id id)) [
  | inl i ↦ found (ground (arith, f, i)) i
  | inr n ↦ ground (arith, count_running-finish_one id r now e rows a h (ground (arith, f, n)) u)
]
  where
    rest :
        count_running a.job_id
          (update_where (λ b. nat_beq b.id id && is_running b.result) (finish_row r now e) rows)
        ≤ count_running a.job_id rows
    rest = count_running-finish a.job_id _ r now e rows h

    found :
        b ≡ a
        → nat_beq b.id id ≡ true
        → count_running a.job_id (
            update_where
              (λ b. nat_beq b.id id && is_running b.result)
              (finish_row r now e)
              (b ∷ rows))
          < count_running a.job_id (b ∷ rows)
    found same i =
        ground (arith, rest, beq_self a.job_id, ap Attempt.job_id same, ap Attempt.result same)

pub count_rows_of-update :
    (j : String) (p : Attempt → Bool) (r : AttemptResult) (now : ℕ) (e : Option String)
    (rows : List Attempt)
    → count_rows_of j (update_where p (finish_row r now e) rows) ≡ count_rows_of j rows
count_rows_of-update j p r now e [] = refl
count_rows_of-update j p r now e (b ∷ rows) = ground (arith, count_rows_of-update j p r now e rows)

pub update_where-IdsBelow :
    (n : ℕ) (p : Attempt → Bool) (r : AttemptResult) (now : ℕ) (e : Option String)
    (rows : List Attempt)
    → IdsBelow n rows
    → IdsBelow n (update_where p (finish_row r now e) rows)
update_where-IdsBelow n p r now e [] h = tt
update_where-IdsBelow n p r now e (b ∷ rows) (l, h) =
    ground (arith, update_where-IdsBelow n p r now e rows h)

pub append-IdsBelow :
    (n : ℕ) (rows : List Attempt) (a : Attempt)
    → IdsBelow n rows
    → a.id ≡ n
    → IdsBelow (suc n) (rows ++ a ∷ [])
append-IdsBelow n [] a h e = ground arith
append-IdsBelow n (b ∷ rows) a (l, h) e = (ground arith, append-IdsBelow n rows a h e)

pub find_attempt-append :
    (n : ℕ) (rows : List Attempt) (a : Attempt)
    → IdsBelow n rows
    → a.id ≡ n
    → find_attempt n (rows ++ a ∷ []) ≡ some a
find_attempt-append n [] a h e = ground arith
find_attempt-append n (b ∷ rows) a (l, h) e = ground (arith, find_attempt-append n rows a h e)

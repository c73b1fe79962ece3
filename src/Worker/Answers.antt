-- ===== src/Worker/Answers.antt =====
-- What the answers of Start and MarkSucceeded say of a job's receipt.
use flick_drop.Base.{
  ℕ, ◌≡◌, ◌≢◌, refl, ap, subst, inl, inr, String, Bool, true, false, not, ◌||◌, Option, none, some,
  arith, ◌==◌, string_eq, find, ltb, Bool-cases, Option-cases, some-injective,
}
use flick_drop.Sql.{
  Result, ok, err, Faults, Tx, TxState, continue, ◌>>=◌, ◌>>◌, require, transact, when,
}
use flick_drop.Worker.Tables.{
  State, processing, succeeded, failed, dead, Attempt, Receipt, Db, find_attempt, load_receipt,
  load_attempt, is_none,
}
use flick_drop.Worker.Store.{
  Error, invalid_job, Stmt, StartResult, started, already_succeeded, start, start_tx, start_in,
  claim, reclaim, settle_exhausted, ensure_receipt, new_receipt, insert_job, load_job, begin_tx,
  driver_error, is_empty, mark_succeeded, finish_attempt, finish_tx, settle,
}
use flick_drop.Worker.Moves.{finished}
use flick_drop.Worker.Keeps.{find-finished}
use flick_drop.Worker.Rows.{HasRow}

abbrev pub state_in : Option Receipt → Option State
state_in none = none
state_in (some r) = some r.state

-- The job's receipt says that it succeeded.
abbrev pub HasSucceeded : String → Db → Type 0
HasSucceeded job d = state_in (find job d.receipts) ≡ some succeeded

abbrev StartsFor : String → Result Error StartResult × TxState Db → Type 0
StartsFor job (ok (started a), t) = a.job_id ≡ job
StartsFor job (ok already_succeeded, t) = HasSucceeded job t.committed
StartsFor job (err e, t) = Unit {0}

bind-StartsFor :
    {A : Type 0} (job : String) (p : Result Error A × TxState Db) (f : A → Tx Error Db StartResult)
    → ((a : A) (t : TxState Db) → StartsFor job (f a t))
    → StartsFor job (continue p.0 f p.1)
bind-StartsFor job (ok a, t) f k = k a t
bind-StartsFor job (err e, t) f k = tt

abbrev pub AnswersFor : String → Result Error StartResult × Db → Type 0
AnswersFor job (ok (started a), d) = a.job_id ≡ job
AnswersFor job (ok already_succeeded, d) = HasSucceeded job d
AnswersFor job (err e, d) = Unit {0}

module _ (faults : Faults Stmt) where
  claim-StartsFor :
      (job : String) (r : Receipt) (now : ℕ) (s : TxState Db)
      → StartsFor job (claim faults job r now s)
  unfolding claim
  claim-StartsFor job r now s = ground arith

  start_in-StartsFor :
      (job : String) (st : State) (created : Bool) (r : Receipt) (payload : String) (max now : ℕ)
      (s : TxState Db)
      → (st ≡ succeeded → HasSucceeded job s.working)
      → StartsFor job (start_in faults job st created r payload max now s)
  unfolding start_in
  start_in-StartsFor job succeeded created r payload max now s h = ground (arith, h refl)
  start_in-StartsFor job dead created r payload max now s h = tt
  start_in-StartsFor job failed created r payload max now s h =
      bind-StartsFor job (when (not created) (settle_exhausted faults job r payload max now) s)
        (λ _. claim faults job r now) (λ _ t. claim-StartsFor job r now t)
  start_in-StartsFor job processing created r payload max now s h =
      bind-StartsFor job (when (not created) (reclaim faults job r now) s)
        (λ _.
          when (not created) (settle_exhausted faults job r payload max now)
          >> claim faults job r now)
        (λ _ t.
          bind-StartsFor job (when (not created) (settle_exhausted faults job r payload max now) t)
            (λ _. claim faults job r now) (λ _ u. claim-StartsFor job r now u))

  loaded-StartsFor :
      (job kind payload : String) (max created_at now : ℕ) (s : TxState Db) (o : Option Receipt)
      → find job s.working.receipts ≡ o
      → StartsFor job (
          (ensure_receipt faults job kind created_at o >>= λ r.
          require (r.kind == kind) invalid_job
          >> start_in faults job r.state (is_none o) r payload max now)
            s)
  loaded-StartsFor job kind payload max created_at now s none f =
      elim (Bool-cases (faults insert_job)) [
        | inl broken ↦ rw broken tt
        | inr works ↦ elim (Bool-cases (kind == kind)) [
          | inl same ↦
              rw (works, same)
                (start_in-StartsFor job processing true (new_receipt job kind created_at) payload
                  max now _ (λ e. absurd (cc e)))
          | inr other ↦ rw (works, other) tt
        ]
      ]
  loaded-StartsFor job kind payload max created_at now s (some r) f =
      elim (Bool-cases (r.kind == kind)) [
        | inl same ↦
            rw same (start_in-StartsFor job r.state false r payload max now s (λ e. cc (f, e)))
        | inr other ↦ rw other tt
      ]

  start_tx-StartsFor :
      (job kind payload : String) (max created_at now : ℕ) (s : TxState Db)
      → StartsFor job (start_tx faults job kind payload max created_at now s)
  unfolding start_tx load_receipt
  start_tx-StartsFor job kind payload max created_at now s = elim (Bool-cases (faults load_job)) [
    | inl broken ↦ rw broken tt
    | inr works ↦
        rw works (
          loaded-StartsFor job kind payload max created_at now s (find job s.working.receipts) refl)
  ]

  transact-AnswersFor :
      (b : Bool) (job : String) (m : Tx Error Db StartResult) (d : Db)
      → StartsFor job (m (record { committed = d; working = d }))
      → AnswersFor job (transact b driver_error m d)
  transact-AnswersFor true job m d h = tt
  transact-AnswersFor false job m d h = answers (m (record { committed = d; working = d })) h
    where
      answers :
          (p : Result Error StartResult × TxState Db)
          → StartsFor job p
          → AnswersFor job (p.0, p.1.committed)
      answers (ok (started a), t) h = h
      answers (ok already_succeeded, t) h = h
      answers (err e, t) h = tt

  pub start-AnswersFor :
      (job kind payload : String) (max created_at now : ℕ) (d : Db)
      → AnswersFor job (start faults job kind payload max created_at now d)
  unfolding start
  start-AnswersFor job kind payload max created_at now d =
      elim (Bool-cases (is_empty job || is_empty kind || is_empty payload || ltb max 1)) [
        | inl refused ↦ rw refused tt
        | inr admitted ↦ rw admitted (
            transact-AnswersFor (faults begin_tx) job
              (start_tx faults job kind payload max created_at now) d
              (start_tx-StartsFor job kind payload max created_at now _))
      ]

  finish_tx-ok :
      (id now : ℕ) (d : Db) (b : Bool) (a : Attempt) (r : Receipt)
      → find_attempt id d.attempts ≡ some a
      → find a.job_id d.receipts ≡ some r
      → (finish_tx faults id none "" 0 now (record { committed = d; working = d })).0 ≡ ok b
      → (finish_tx faults id none "" 0 now (record { committed = d; working = d })).1.committed
        ≡ finished a id none now d
  unfolding finish_tx load_attempt load_receipt settle finished
  finish_tx-ok id now d b a r f g h = ground (arith, f, g, h)

  finish_tx-no_row :
      (id now : ℕ) (d : Db) (b : Bool)
      → find_attempt id d.attempts ≡ none
      → (finish_tx faults id none "" 0 now (record { committed = d; working = d })).0 ≢ ok b
  unfolding finish_tx load_attempt
  finish_tx-no_row id now d b f = ground (arith, f)

  finish_tx-no_receipt :
      (id now : ℕ) (d : Db) (b : Bool) (a : Attempt)
      → find_attempt id d.attempts ≡ some a
      → find a.job_id d.receipts ≡ none
      → (finish_tx faults id none "" 0 now (record { committed = d; working = d })).0 ≢ ok b
  unfolding finish_tx load_attempt load_receipt
  finish_tx-no_receipt id now d b a f g = ground (arith, f, g)

  finish_tx-HasSucceeded :
      (id now : ℕ) (d : Db) (job : String) (b : Bool)
      → HasRow id job d
      → (finish_tx faults id none "" 0 now (record { committed = d; working = d })).0 ≡ ok b
      → HasSucceeded job
          (finish_tx faults id none "" 0 now (record { committed = d; working = d })).1.committed
  finish_tx-HasSucceeded id now d job b h e = elim (Option-cases (find_attempt id d.attempts)) [
    | inl f ↦ absurd (finish_tx-no_row id now d b f e)
    | inr (a, f) ↦ elim (Option-cases (find a.job_id d.receipts)) [
      | inl g ↦ absurd (finish_tx-no_receipt id now d b a f g e)
      | inr (r, g) ↦ rw (finish_tx-ok id now d b a r f g e) (
          subst (λ j. HasSucceeded j (finished a id none now d))
            (some-injective a.job_id job (cc (h, f)))
            (ap state_in (find-finished id a r none now d g)))
    ]
  ]

  -- A MarkSucceeded that reports no error has set the receipt of the attempt's job.
  pub mark_succeeded-HasSucceeded :
      (id now : ℕ) (d : Db) (job : String) (b : Bool)
      → HasRow id job d
      → (mark_succeeded faults id now d).0 ≡ ok b
      → HasSucceeded job (mark_succeeded faults id now d).1
  unfolding mark_succeeded finish_attempt
  mark_succeeded-HasSucceeded id now d job b h e = elim (Bool-cases (faults begin_tx)) [
    | inl broken ↦ absurd (broken_begin broken e)
    | inr works ↦ rw works (
        finish_tx-HasSucceeded id now d job b h (
          subst (λ x. (transact x driver_error (finish_tx faults id none "" 0 now) d).0 ≡ ok b)
            works e))
  ]
    where
      broken_begin :
          faults begin_tx ≡ true
          → (transact (faults begin_tx) driver_error (finish_tx faults id none "" 0 now) d).0 ≢ ok b
      broken_begin broken = rw broken (λ k. cc k)

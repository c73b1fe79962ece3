-- ===== src/Worker/Settles.antt =====
-- MarkSucceeded and MarkFailed against the moves, whichever statements the driver fails.
use flick_drop.Base.{
  ℕ, ◌≡◌, refl, ◌⊎◌, inl, inr, String, Bool, true, false, ◌||◌, leb, if◌then◌else◌, ◌∙◌, Option,
  none, some, arith, find, string_eq, ltb, Bool-cases, Option-cases,
}
use flick_drop.Sql.{Faults, Result, Tx, TxState, transact, is_ok, ok}
use flick_drop.Worker.Tables.{
  processing, failed, running, Receipt, Attempt, Db, load_receipt, load_attempt, find_attempt,
  failure_count,
}
use flick_drop.Worker.Store.{
  Error, Stmt, begin_tx, driver_error, settle, finish_tx, finish_attempt, mark_succeeded,
  mark_failed, is_empty, dead_letter, settle_failure,
}
use flick_drop.Worker.Moves.{Move, stays, succeeds, fails, dies, buried, finished}
use flick_drop.Worker.Parts.{opened}

abbrev Moves : {A : Type 0} → Db → Result Error A × TxState Db → Type 0
Moves d p = Move d p.1.committed

transact-Move :
    {A : Type 0} (b : Bool) (e : Error) (m : Tx Error Db A) (d : Db)
    → Moves d (m (opened d d))
    → Move d (transact b e m d).1
transact-Move true e m d h = stays refl
transact-Move false e m d h = h

module _ (faults : Faults Stmt) where
  pub unknown-stays :
      (id : ℕ) (o : Option String) (payload : String) (max now : ℕ) (d : Db)
      → find_attempt id d.attempts ≡ none
      → (finish_tx faults id o payload max now (opened d d)).1.committed ≡ d
  unfolding finish_tx load_attempt
  unknown-stays id o payload max now d f = ground (arith, f)

  pub orphan-stays :
      (id : ℕ) (o : Option String) (payload : String) (max now : ℕ) (d : Db) (a : Attempt)
      → find_attempt id d.attempts ≡ some a
      → find a.job_id d.receipts ≡ none
      → (finish_tx faults id o payload max now (opened d d)).1.committed ≡ d
  unfolding finish_tx load_attempt load_receipt
  orphan-stays id o payload max now d a f g = ground (arith, f, g)

  success-outcome :
      (id : ℕ) (payload : String) (max now : ℕ) (d : Db) (a : Attempt) (r : Receipt)
      → find_attempt id d.attempts ≡ some a
      → find a.job_id d.receipts ≡ some r
      → let c = (finish_tx faults id none payload max now (opened d d)).1.committed in
        (c ≡ d)
        ⊎ ((a.result ≡ running)
            × (r.state ≡ processing)
            × (r.attempts ≡ a.attempt)
            × (c ≡ finished a id none now d))
  unfolding finish_tx load_attempt load_receipt settle finished
  success-outcome id payload max now d a r f g = ground (arith, f, g)

  pub failure-outcome :
      (id : ℕ) (text payload : String) (max now : ℕ) (d : Db) (a : Attempt) (r : Receipt)
      → find_attempt id d.attempts ≡ some a
      → find a.job_id d.receipts ≡ some r
      → let t = finish_tx faults id (some text) payload max now (opened d d) in
        let w = finished a id (some text) now d in
        ((is_ok t.0 ≡ false) × (t.1.committed ≡ d))
        ⊎ ((a.result ≡ running)
            × (r.state ≡ processing)
            × (r.attempts ≡ a.attempt)
            × (t.0 ≡ ok (leb max (failure_count a.job_id w)))
            × (t.1.committed ≡ (
                if leb max (failure_count a.job_id w)
                then buried (record r { state = failed }) payload text now w
                else w)))
  unfolding finish_tx load_attempt load_receipt settle settle_failure dead_letter finished buried
  failure-outcome id text payload max now d a r f g = ground (arith, f, g)

  finish_tx-Moves :
      (id : ℕ) (o : Option String) (payload : String) (max now : ℕ) (d : Db)
      → Moves d (finish_tx faults id o payload max now (opened d d))
  finish_tx-Moves id o payload max now d = elim (Option-cases (find_attempt id d.attempts)) [
    | inl e ↦ stays (unknown-stays id o payload max now d e)
    | inr (a, f) ↦ elim (Option-cases (find a.job_id d.receipts)) [
      | inl e ↦ stays (orphan-stays id o payload max now d a f e)
      | inr (r, g) ↦ of_outcome o a r f g
    ]
  ]
    where
      of_outcome :
          (o : Option String) (a : Attempt) (r : Receipt)
          → find_attempt id d.attempts ≡ some a
          → find a.job_id d.receipts ≡ some r
          → Moves d (finish_tx faults id o payload max now (opened d d))
      of_outcome none a r f g = elim (success-outcome id payload max now d a r f g) [
        | inl e ↦ stays e
        | inr (u, p, n, e) ↦ succeeds id a r now f u g p n e
      ]
      of_outcome (some text) a r f g = elim (failure-outcome id text payload max now d a r f g) [
        | inl e ↦ stays e.1
        | inr (u, p, n, b, e) ↦
            elim (Bool-cases (leb max (failure_count a.job_id (finished a id (some text) now d)))) [
              | inl l ↦
                  dies id a r text payload max now f u g p n (ground (arith, l)) (e ∙ rw l refl)
              | inr l ↦ fails id a r text now f u g p n (e ∙ rw l refl)
            ]
      ]

  -- Whatever statement the driver fails, MarkSucceeded leaves the tables as they were or makes one
  -- move.
  pub mark_succeeded-Move : (id now : ℕ) (d : Db) → Move d (mark_succeeded faults id now d).1
  unfolding mark_succeeded finish_attempt
  mark_succeeded-Move id now d =
      transact-Move (faults begin_tx) driver_error (finish_tx faults id none "" 0 now) d
        (finish_tx-Moves id none "" 0 now d)

  -- Whatever statement the driver fails, MarkFailed leaves the tables as they were or makes one move.
  pub mark_failed-Move :
      (id : ℕ) (o : Option String) (payload : String) (max now : ℕ) (d : Db)
      → Move d (mark_failed faults id o payload max now d).1
  unfolding mark_failed finish_attempt
  mark_failed-Move id none payload max now d = stays refl
  mark_failed-Move id (some text) payload max now d =
      elim (Bool-cases (is_empty payload || ltb max 1)) [
        | inl refused ↦ rw refused (stays refl)
        | inr admitted ↦ rw admitted (
            transact-Move (faults begin_tx) driver_error
              (finish_tx faults id (some text) payload max now) d
              (finish_tx-Moves id (some text) payload max now d))
      ]

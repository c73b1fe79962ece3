-- ===== src/Worker/Parts.antt =====
-- The parts of Start (internal/worker/store.go), whichever statements the driver fails.
use flick_drop.Base.{
  ℕ, ◌+◌, ◌≤◌, ◌<◌, ◌≡◌, ◌⊎◌, String, true, Option, none, some, arith, string_eq, ltb,
}
use flick_drop.Sql.{is_ok, Result, ok, err, Faults, TxState}
use flick_drop.Worker.Tables.{Receipt, Db, failure_count, last_failure}
use flick_drop.Worker.Store.{
  Error, job_processing, Stmt, processing_lease, reclaim, settle_exhausted, claim,
}
use flick_drop.Worker.Moves.{claimed, buried}

abbrev pub opened : Db → Db → TxState Db
opened d w = record { committed = d; working = w }

module _ (faults : Faults Stmt) where
  pub claim-outcome :
      (job_id : String) (r : Receipt) (now : ℕ) (s : TxState Db)
      → let t = (claim faults job_id r now s).1 in
        (t.committed ≡ s.committed) ⊎ (t.committed ≡ claimed job_id (r.attempts + 1) now s.working)
  unfolding claim claimed
  claim-outcome job_id r now s = ground arith

  -- The error text of the last failure, if there is one.
  abbrev text_or : Option String → String
  text_or none = ""
  text_or (some e) = e

  unfoldable pub Exhausted :
      String → Receipt → String → ℕ → ℕ → TxState Db → Result Error (Unit {0}) × TxState Db → Type 0
  Exhausted job_id r payload max now s (ok a, t) =
      (t.committed ≡ s.committed) × (t.working ≡ s.working)
  Exhausted job_id r payload max now s (err x, t) =
      (t.committed ≡ s.committed)
      ⊎ ((max ≤ failure_count job_id s.working)
          × (last_failure job_id s.working ≡ some (text_or (last_failure job_id s.working)))
          × (t.committed
              ≡ buried r payload (text_or (last_failure job_id s.working)) now s.working))

  pub settle_exhausted-Exhausted :
      (job_id : String) (r : Receipt) (payload : String) (max now : ℕ) (s : TxState Db)
      → Exhausted job_id r payload max now s (settle_exhausted faults job_id r payload max now s)
  unfolding settle_exhausted buried Exhausted
  settle_exhausted-Exhausted job_id r payload max now s = ground arith

  pub settle_exhausted-below :
      (job_id : String) (r : Receipt) (payload : String) (max now : ℕ) (s : TxState Db)
      → is_ok (settle_exhausted faults job_id r payload max now s).0 ≡ true
      → failure_count job_id s.working < max
  unfolding settle_exhausted
  settle_exhausted-below job_id r payload max now s h = ground (arith, h)

  pub reclaim-held :
      (job_id : String) (r : Receipt) (now : ℕ) (s : TxState Db)
      → ltb now (r.updated_at + processing_lease) ≡ true
      → reclaim faults job_id r now s ≡ (err job_processing, s)
  unfolding reclaim
  reclaim-held job_id r now s h = ground (arith, h)

-- ===== src/Worker/Refines.antt =====
-- Start against the moves, whichever statements the driver fails.
use flick_drop.Base.{ℕ, String}
use flick_drop.Sql.{Faults}
use flick_drop.Worker.Tables.{Db}
use flick_drop.Worker.Store.{Stmt, start}
use flick_drop.Worker.Moves.{
  Move, stays, claims_new, claims_failed, reclaims, buries_failed, buries_interrupted,
}
use flick_drop.Worker.Begins.{
  Begin, leaves, takes_new, takes_failed, takes_expired, ends_failed, ends_expired, start-Begin,
}

Begin-Move :
    (job_id kind payload : String) (max created_at now : ℕ) (d d' : Db)
    → Begin job_id kind payload max created_at now d d'
    → Move d d'
Begin-Move job_id kind payload max created_at now d d' (leaves e) = stays e
Begin-Move job_id kind payload max created_at now d d' (takes_new f e) =
    claims_new job_id kind created_at now f e
Begin-Move job_id kind payload max created_at now d d' (takes_failed r f k s l e) =
    claims_failed job_id r now f s e
Begin-Move job_id kind payload max created_at now d d' (takes_expired r f k s p l e) =
    reclaims job_id r now f s p e
Begin-Move job_id kind payload max created_at now d d' (ends_failed r x f k s c l e) =
    buries_failed job_id r payload x max now f s c l e
Begin-Move job_id kind payload max created_at now d d' (ends_expired r x f k s p c l e) =
    buries_interrupted job_id r payload x max now f s p c l e

-- Whatever statement the driver fails, Start leaves the tables as they were or makes one move.
pub start-Move :
    (faults : Faults Stmt) (job_id kind payload : String) (max created_at now : ℕ) (d : Db)
    → Move d (start faults job_id kind payload max created_at now d).1
start-Move faults job_id kind payload max created_at now d =
    Begin-Move job_id kind payload max created_at now d _
      (start-Begin faults job_id kind payload max created_at now d)

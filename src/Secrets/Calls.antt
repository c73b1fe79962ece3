-- ===== src/Secrets/Calls.antt =====
-- Histories of the calls of internal/secrets that write, each with its arguments, its readings of the
-- clock and the statements that the driver fails. A reconciliation takes the cursor as some
-- earlier call read it.
use flick_drop.Base.{
  ℕ, ◌+◌, String, Bool, true, false, ◌&&◌, ◌||◌, Option, none, some, List, [], ◌∷◌, ◌==◌, string_eq,
}
use flick_drop.Sql.{Result, Faults, is_ok}
use flick_drop.Outbox.{OutboxRecord}
use flick_drop.Secrets.Tables.{Db}
use flick_drop.Secrets.Types.{
  Bytes, Error, Stmt, CreateInput, Store, Library, NewJob, ListError, ObjectPage,
}
use flick_drop.Secrets.Create.{create, create_large}
use flick_drop.Secrets.Finalize.{ObjectInfo, finalize}
use flick_drop.Secrets.Load.{cleanup}
use flick_drop.Secrets.Open.{open_and_enqueue_cleanup, enqueue_opened_object_cleanup}
use flick_drop.Secrets.Manage.{revoke}
use flick_drop.Secrets.Reaper.{claim_expired}
use flick_drop.Secrets.Reconcile.{after_listing, acknowledge_object_cleanup}

pub data Call : Type 0 where
  creates : (i : CreateInput) (id : Option String) (raw : Option Bytes) (now : ℕ) → Call
  creates_large :
      (i : CreateInput) (id upload : Option String) (raw : Option Bytes) (now : ℕ) → Call
  finalizes : (id : String) (now : ℕ) (head : Option ObjectInfo) (now_after : ℕ) → Call
  opens :
      (id proof : String) (now : ℕ) (object : Option (Bytes × ℕ)) (now_after : ℕ)
      (lock_job job : NewJob)
      → Call
  ends_stream : (key : String) (job : NewJob) → Call
  cleans : (id : String) (now : ℕ) → Call
  revokes : (id token : String) (now now_again : ℕ) (job : NewJob) → Call
  reaps :
      (purge : List (String × OutboxRecord) → Result Error (List (String × OutboxRecord)))
      (now batch : ℕ) (jobs : String → NewJob)
      → Call
  reconciles :
      (page : Result ListError ObjectPage) (limit : ℕ) (cursor : String) (generation now : ℕ)
      (jobs : String → NewJob)
      → Call
  acknowledges : (job_id key : String) → Call

module _ (lib : Library) (store : Store) where
  -- The tables after a call.
  unfoldable pub perform : Faults Stmt → Call → Db → Db
  perform fails (creates i id raw now) d = (create lib fails store i id raw now d).1
  perform fails (creates_large i id upload raw now) d =
      (create_large lib fails store i id upload raw now d).1
  perform fails (finalizes id now head now_after) d =
      (finalize fails store id now head now_after d).1
  perform fails (opens id proof now object now_after lock_job job) d =
      (open_and_enqueue_cleanup lib fails store id proof now object now_after lock_job job d).1
  perform fails (ends_stream key job) d =
      (enqueue_opened_object_cleanup lib fails store key job d).1
  perform fails (cleans id now) d = (cleanup fails id now d).1
  perform fails (revokes id token now now_again job) d =
      (revoke lib fails store id token now now_again job d).1
  perform fails (reaps purge now batch jobs) d =
      (claim_expired lib fails store purge now batch jobs d).1
  perform fails (reconciles page limit cursor generation now jobs) d =
      (after_listing lib fails store page limit cursor generation now jobs d).1
  perform fails (acknowledges job_id key) d = (acknowledge_object_cleanup fails job_id key d).1

  unfoldable pub run : List (Faults Stmt × Call) → Db → Db
  unfolding perform
  run [] d = d
  run ((fails, c) ∷ calls) d = run calls (perform fails c d)

  -- Whether a call opens a secret and gets its body.
  unfoldable pub delivers : String → Faults Stmt → Call → Db → Bool
  delivers id fails (opens j proof now object now_after lock_job job) d =
      j == id
      && is_ok
          (open_and_enqueue_cleanup lib fails store j proof now object now_after lock_job job d).0
  delivers id fails _ d = false

  -- How often a history delivers a secret.
  abbrev pub one_if : Bool → ℕ
  one_if true = 1
  one_if false = 0

  unfoldable pub deliveries : String → List (Faults Stmt × Call) → Db → ℕ
  unfolding delivers perform
  deliveries id [] d = 0
  deliveries id ((fails, c) ∷ calls) d =
      one_if (delivers id fails c d) + deliveries id calls (perform fails c d)

abbrev pub is_id : String → Option String → Bool
is_id id none = false
is_id id (some j) = j == id

-- Whether a call or a history tries to create a secret with an id.
unfoldable pub may_create : String → Call → Bool
may_create id (creates i j raw now) = is_id id j
may_create id (creates_large i j upload raw now) = is_id id j
may_create id _ = false

unfoldable pub may_create_any : String → List (Faults Stmt × Call) → Bool
unfolding may_create
may_create_any id [] = false
may_create_any id ((fails, c) ∷ calls) = may_create id c || may_create_any id calls

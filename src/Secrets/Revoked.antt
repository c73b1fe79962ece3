-- ===== src/Secrets/Revoked.antt =====
-- Revoke of internal/secrets/management.go.
use flick_drop.Base.{
  ℕ, ◌≡◌, String, Bool, true, false, Option, none, some, List, string_eq, arith, find, subst,
}
use flick_drop.Sql.{Faults, Result, ok, err, TxState, Tx, transact, query}
use flick_drop.Secrets.Tables.{Db, SecretRow, ManagementRow}
use flick_drop.Secrets.Types.{
  Error, Bytes, NewJob, ended, ManagementStatus, Revocation, revoked, refused, Stmt, Store, Library,
  failure, begin_tx, read_storage,
}
use flick_drop.Secrets.Access.{require_row}
use flick_drop.Secrets.Manage.{
  read_status, token_bytes, management_with, management_tx, revoke_if, revoke_live, revoke_with,
  revoke_tx, revoke, is_cancelled,
}
use flick_drop.Secrets.Calls.{Call, deliveries, may_create_any}
use flick_drop.Secrets.Shut.{IsShut}
use flick_drop.Secrets.Deliveries.{deliveries-shut}
use flick_drop.Secrets.Cancelled.{ShutIfRevoked, bind-ShutIfRevoked, revoke_claimed-shut}

abbrev pub was_cancelled : Option ManagementRow → Bool
was_cancelled none = false
was_cancelled (some m) = elim m.outcome [ none ↦ false | some o ↦ is_cancelled (ended o) ]

module _ (lib : Library) (fails : Faults Stmt) (store : Store) where
  revoke_if-shut :
      (b : Bool) (id : String) (r : SecretRow) (job : NewJob) (st : ManagementStatus)
      (s : TxState Db)
      → ShutIfRevoked lib fails store id (revoke_if lib fails store b id r job st s)
  revoke_if-shut true id r job st s = revoke_claimed-shut lib fails store id r job st s
  revoke_if-shut false id r job st s = tt

  revoke_live-shut :
      (id token : String) (now : ℕ) (job : NewJob) (s : TxState Db)
      → ShutIfRevoked lib fails store id (revoke_live lib fails store id token now job s)
  unfolding revoke_live
  revoke_live-shut id token now job s =
      bind-ShutIfRevoked lib fails store id
        (query (fails read_storage) failure (λ d. find id d.secrets) s) _
        λ row _. bind-ShutIfRevoked lib fails store id (require_row row _) _ λ r _.
          bind-ShutIfRevoked lib fails store id (management_tx lib fails store id token now _) _
            λ st _. revoke_if-shut st.can_cancel id r job st _

  abbrev NotCancelled : Result Error ManagementStatus → Type 0
  NotCancelled (ok st) = is_cancelled st.status ≡ false
  NotCancelled (err e) = Unit {0}

  read_status-NotCancelled :
      (id : String) (raw : Bytes) (now ttl : ℕ) (m : Option ManagementRow) (r : Option SecretRow)
      → was_cancelled m ≡ false
      → NotCancelled (read_status lib id raw now ttl m r)
  read_status-NotCancelled id raw now ttl none r h = tt
  read_status-NotCancelled id raw now ttl (some m) none h = ground (arith, h)
  read_status-NotCancelled id raw now ttl (some m) (some r) h = ground (arith, h)

  management_with-NotCancelled :
      (id : String) (now : ℕ) (o : Option Bytes) (s : TxState Db)
      → was_cancelled (find id s.working.managements) ≡ false
      → NotCancelled (management_with lib fails store id now o s).0
  management_with-NotCancelled id now none s h = tt
  management_with-NotCancelled id now (some raw) s h = ground (
    arith,
    read_status-NotCancelled id raw now store.pending_ttl (find id s.working.managements)
        (find id s.working.secrets) h,
  )

  revoke_with-shut :
      (b c : Bool) (id token : String) (now : ℕ) (job : NewJob) (st : ManagementStatus)
      (s : TxState Db)
      → b ≡ false
      → ShutIfRevoked lib fails store id (revoke_with lib fails store b c id token now job st s)
  revoke_with-shut true c id token now job st s h = absurd (cc h)
  revoke_with-shut false false id token now job st s h = tt
  revoke_with-shut false true id token now job st s h = revoke_live-shut id token now job s

  revoke_tx-shut :
      (id token : String) (now again : ℕ) (job : NewJob) (s : TxState Db)
      → was_cancelled (find id s.working.managements) ≡ false
      → ShutIfRevoked lib fails store id (revoke_tx lib fails store id token now again job s)
  unfolding revoke_tx management_tx
  revoke_tx-shut id token now again job s h =
      bind-ShutIfRevoked lib fails store id
        (management_with lib fails store id now (token_bytes lib token) s) _
        λ st e.
          revoke_with-shut (is_cancelled st.status) st.can_cancel id token again job st _
            (subst NotCancelled e (management_with-NotCancelled id now (token_bytes lib token) s h))

  revoke-shuts :
      (id token : String) (now again : ℕ) (job : NewJob) (d : Db) (st : ManagementStatus)
      → was_cancelled (find id d.managements) ≡ false
      → (revoke lib fails store id token now again job d).0 ≡ ok (revoked st)
      → IsShut id (revoke lib fails store id token now again job d).1
  unfolding revoke
  revoke-shuts id token now again job d st h =
      ran (fails begin_tx) (revoke_tx-shut id token now again job _ h)
    where
      m : Tx Error Db Revocation
      m = revoke_tx lib fails store id token now again job

      opened : TxState Db
      opened = record { committed = d; working = d }

      finished :
          (p : Result Error Revocation × TxState Db)
          → ShutIfRevoked lib fails store id p
          → p.0 ≡ ok (revoked st)
          → IsShut id p.1.committed
      finished (ok (revoked x), t) k e = k
      finished (ok (refused x), t) k e = absurd (cc e)
      finished (err x, t) k e = absurd (cc e)

      ran :
          (b : Bool)
          → ShutIfRevoked lib fails store id (m opened)
          → (transact b failure m d).0 ≡ ok (revoked st)
          → IsShut id (transact b failure m d).1
      ran true k e = absurd (cc e)
      ran false k e = finished (m opened) k e

  -- A Revoke that answers that it has cancelled a delivery, which was not cancelled before, has the
  -- last word: no later history of calls that creates no secret with its id delivers it.
  pub revoke-final :
      (id token : String) (now again : ℕ) (job : NewJob) (d : Db) (st : ManagementStatus)
      (calls : List (Faults Stmt × Call))
      → was_cancelled (find id d.managements) ≡ false
      → (revoke lib fails store id token now again job d).0 ≡ ok (revoked st)
      → may_create_any id calls ≡ false
      → deliveries lib store id calls (revoke lib fails store id token now again job d).1 ≡ 0
  revoke-final id token now again job d st calls h e n =
      deliveries-shut lib store id calls (revoke lib fails store id token now again job d).1 n
        (revoke-shuts id token now again job d st h e)

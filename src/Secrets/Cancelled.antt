-- ===== src/Secrets/Cancelled.antt =====
-- The last part of Revoke, which deletes the row.
use flick_drop.Base.{
  ◌≡◌, refl, String, Bool, true, false, string_eq, arith, find, Bool-cases, inl, inr, ◌⊎◌,
}
use flick_drop.Sql.{
  Faults, Result, ok, err, TxState, Tx, continue, require, update_row, exec, commit, pure, ◌>>◌,
}
use flick_drop.Secrets.Tables.{cancelled, Db, SecretRow, delete_secret_row, set_outcome, insert_job}
use flick_drop.Secrets.Types.{
  Error, NewJob, ended, ManagementStatus, Revocation, revoked, refused, Stmt, Store, Library,
  failure, commit_tx, record_outcome, delete_row, read_affected,
}
use flick_drop.Secrets.Access.{enqueue_event, enqueue_object_delete}
use flick_drop.Secrets.Manage.{revoke_object, revoke_claimed, is_cancellable}
use flick_drop.Secrets.Rows.{find-delete_secret_row, secrets-set_outcome}
use flick_drop.Secrets.Shut.{IsShut}

module _ (lib : Library) (fails : Faults Stmt) (store : Store) where
  -- A run that answers that the delivery is revoked has deleted the secret's row.
  abbrev pub ShutIfRevoked : String → Result Error Revocation × TxState Db → Type 0
  ShutIfRevoked id (ok (revoked st), t) = IsShut id t.committed
  ShutIfRevoked id (ok (refused st), t) = Unit {0}
  ShutIfRevoked id (err e, t) = Unit {0}

  pub bind-ShutIfRevoked :
      {A : Type 0} (id : String) (p : Result Error A × TxState Db) (f : A → Tx Error Db Revocation)
      → ((a : A) → p.0 ≡ ok a → ShutIfRevoked id (f a p.1))
      → ShutIfRevoked id (continue p.0 f p.1)
  bind-ShutIfRevoked id (ok a, t) f k = k a refl
  bind-ShutIfRevoked id (err e, t) f k = tt

  -- Parts of a run that leave the row deleted.
  abbrev StaysShut : {A : Type 0} → String → Result Error A × TxState Db → Type 0
  StaysShut id (ok a, t) = IsShut id t.working
  StaysShut id (err e, t) = Unit {0}

  stay-ShutIfRevoked :
      {A : Type 0} (id : String) (p : Result Error A × TxState Db) (f : A → Tx Error Db Revocation)
      → StaysShut id p
      → ((a : A) (t : TxState Db) → IsShut id t.working → ShutIfRevoked id (f a t))
      → ShutIfRevoked id (continue p.0 f p.1)
  stay-ShutIfRevoked id (ok a, t) f h k = k a t h
  stay-ShutIfRevoked id (err e, t) f h k = tt

  revoke_object-StaysShut :
      (id : String) (r : SecretRow) (job : NewJob) (s : TxState Db)
      → IsShut id s.working
      → StaysShut id (revoke_object lib fails store r job s)
  unfolding revoke_object enqueue_object_delete enqueue_event insert_job
  revoke_object-StaysShut id r job s h = ground (arith, h)

  commit-ShutIfRevoked :
      (id : String) (st : ManagementStatus) (s : TxState Db)
      → IsShut id s.working
      → ShutIfRevoked id ((commit (fails commit_tx) failure >> pure (revoked st)) s)
  commit-ShutIfRevoked id st s h = ground (arith, h)

  settle-ShutIfRevoked :
      (id : String) (r : SecretRow) (job : NewJob) (st : ManagementStatus) (s : TxState Db)
      → IsShut id s.working
      → ShutIfRevoked id (
          (exec (fails record_outcome) failure (set_outcome id cancelled)
              >> (revoke_object lib fails store r job
                  >> (commit (fails commit_tx) failure >> pure (revoked st))))
            s)
  settle-ShutIfRevoked id r job st s h = stay-ShutIfRevoked id _ _ settled λ _ t i.
      stay-ShutIfRevoked id (revoke_object lib fails store r job t) _
        (revoke_object-StaysShut id r job t i) λ _ u j. commit-ShutIfRevoked id st u j
    where
      settled : StaysShut id (exec (fails record_outcome) failure (set_outcome id cancelled) s)
      settled = ground (arith, h, secrets-set_outcome id cancelled s.working)

  deleted-IsShut : (id : String) (d : Db) → IsShut id (delete_secret_row id d)
  deleted-IsShut id d =
      rw (find-delete_secret_row id id d) (ground (arith, string_eq.same_iff id id))

  require-ShutIfRevoked :
      (id : String) (b : Bool) (m : Tx Error Db Revocation) (s : TxState Db)
      → (b ≡ true → ShutIfRevoked id (m s))
      → ShutIfRevoked id ((require b failure >> m) s)
  require-ShutIfRevoked id true m s h = h refl
  require-ShutIfRevoked id false m s h = tt

  pub revoke_claimed-shut :
      (id : String) (r : SecretRow) (job : NewJob) (st : ManagementStatus) (s : TxState Db)
      → ShutIfRevoked id (revoke_claimed lib fails store id r job st s)
  unfolding revoke_claimed
  revoke_claimed-shut id r job st s =
      go (fails delete_row) (Bool-cases (is_cancellable (find id s.working.secrets)))
    where
      rest : Bool → Bool → Tx Error Db Revocation
      rest x b =
          exec x failure (λ d. d)
          >> (require b failure
              >> (exec (fails record_outcome) failure (set_outcome id cancelled)
                  >> (revoke_object lib fails store r job
                      >> (commit (fails commit_tx) failure
                          >> pure (
                              revoked
                                (record st { status = ended cancelled; can_cancel = false }))))))

      after :
          (x b : Bool) (t : TxState Db)
          → (b ≡ true → IsShut id t.working)
          → ShutIfRevoked id (rest x b t)
      after true b t h = tt
      after false b t h = require-ShutIfRevoked id b _ t λ e.
          settle-ShutIfRevoked id r job (record st { status = ended cancelled; can_cancel = false })
            t (h e)

      go :
          (b : Bool)
          → (is_cancellable (find id s.working.secrets) ≡ true)
            ⊎ (is_cancellable (find id s.working.secrets) ≡ false)
          → ShutIfRevoked id (
              continue
                (update_row b failure
                  (λ d. is_cancellable (find id d.secrets))
                  (delete_secret_row id)
                  s).0
                (rest (fails read_affected))
                (update_row b failure
                  (λ d. is_cancellable (find id d.secrets))
                  (delete_secret_row id)
                  s).1)
      go true c = tt
      go false (inl y) =
          rw (update_row, y) (after (fails read_affected) true _ (λ _. deleted-IsShut id s.working))
      go false (inr n) =
          rw (update_row, n) (after (fails read_affected) false s (λ e. absurd (cc e)))

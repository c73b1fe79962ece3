-- ===== src/Secrets/Undone/Creating.antt =====
-- Create, CreateLarge, Finalize, Cleanup and Revoke commit nothing when they fail.
use flick_drop.Base.{ℕ, String, Option, none, some, string_eq}
use flick_drop.Sql.{Faults}
use flick_drop.Sql.Atomic.{Quiet, Atomic, quiet_rules, atomic_rules}
use flick_drop.Secrets.Tables.{SecretRow, State, active, pending_upload}
use flick_drop.Secrets.Types.{Bytes, Stmt, CreateInput, Store, Library}
use flick_drop.Secrets.Create.{create_management, create_tx, create_large_tx}
use flick_drop.Secrets.Finalize.{
  ObjectInfo, activate_secret, finalize_pending, finalize_row, finalize_state, finalize_tx,
}
use flick_drop.Secrets.Load.{cleanup_tx}

module _ (fails : Faults Stmt) where
  activate-Quiet : (id : String) (now : ℕ) → Quiet (activate_secret fails id now)
  unfolding activate_secret
  activate-Quiet id now = search quiet_rules

  finalize_pending-Atomic :
      (store : Store) (id : String) (now : ℕ) (head : Option ObjectInfo) (after : ℕ) (r : SecretRow)
      → Atomic (finalize_pending fails store id now head after r)
  unfolding finalize_pending
  finalize_pending-Atomic store id now none after r = search atomic_rules
  finalize_pending-Atomic store id now (some info) after r =
      search (atomic_rules, activate-Quiet) depth 9

  finalize_row-Atomic :
      (store : Store) (id : String) (now : ℕ) (head : Option ObjectInfo) (after : ℕ)
      (o : Option SecretRow)
      → Atomic (finalize_row fails store id now head after o)
  finalize_row-Atomic store id now head after none = search atomic_rules
  finalize_row-Atomic store id now head after (some r) = go r.state
    where
      go : (x : State) → Atomic (finalize_state fails store id now head after x r)
      go active = search atomic_rules
      go pending_upload = finalize_pending-Atomic store id now head after r

  pub finalize_tx-Atomic :
      (store : Store) (id : String) (now : ℕ) (head : Option ObjectInfo) (after : ℕ)
      → Atomic (finalize_tx fails store id now head after)
  unfolding finalize_tx
  finalize_tx-Atomic store id now head after = search (atomic_rules, finalize_row-Atomic)

  pub cleanup_tx-Atomic : (id : String) (now : ℕ) → Atomic (cleanup_tx fails id now)
  unfolding cleanup_tx
  cleanup_tx-Atomic id now = search atomic_rules depth 9

  module _ (lib : Library) where
    create_management-Quiet :
        (id : String) (raw : Option Bytes) (expires : ℕ)
        → Quiet (create_management lib fails id raw expires)
    unfolding create_management
    create_management-Quiet id none expires = search quiet_rules
    create_management-Quiet id (some raw) expires = search quiet_rules

    pub create_tx-Atomic :
        (i : CreateInput) (id : String) (raw : Option Bytes) (now : ℕ)
        → Atomic (create_tx lib fails i id raw now)
    unfolding create_tx
    create_tx-Atomic i id raw now = search (atomic_rules, create_management-Quiet) depth 9

    pub create_large_tx-Atomic :
        (i : CreateInput) (id : String) (raw : Option Bytes) (upload : String) (now : ℕ)
        → Atomic (create_large_tx lib fails i id raw upload now)
    unfolding create_large_tx
    create_large_tx-Atomic i id raw upload now =
        search (atomic_rules, create_management-Quiet) depth 9

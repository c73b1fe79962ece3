-- ===== src/Secrets/Moves/Creating.antt =====
-- The operations that create, complete and clean secrets make only moves.
use flick_drop.Base.{
  ℕ, ◌≡◌, String, Bool, true, Option, none, some, Bool-cases, inl, inr, ◌==◌, string_eq,
}
use flick_drop.Sql.{Faults}
use flick_drop.Sql.Keeps.{Keeps, keeps_rules, transact-Keeps}
use flick_drop.Secrets.Tables.{SecretRow, Db, State, active, pending_upload}
use flick_drop.Secrets.Types.{Bytes, Error, Stmt, CreateInput, Store, Library}
use flick_drop.Secrets.Create.{
  create_management, create_tx, create, create_large_tx, create_large, create_checked,
  create_large_checked, normalize,
}
use flick_drop.Secrets.Validate.{validate_create, validate_create_large}
use flick_drop.Secrets.Finalize.{
  ObjectInfo, activate_secret, finalize_pending, finalize_row, finalize_state, finalize_tx,
  finalize,
}
use flick_drop.Secrets.Load.{cleanup_tx, cleanup}
use flick_drop.Secrets.Moves.{Move, IsClosed}

-- The id that a creation is given, if the random source gives one.
abbrev pub MayCreate : (String → Bool) → Option String → Type 0
MayCreate may_create none = Unit {0}
MayCreate may_create (some id) = may_create id ≡ true

module _ (may_create : String → Bool) (P : Db → Type 0) (closed : IsClosed may_create P)
    (fails : Faults Stmt) where
  activate-Keeps : (id : String) (now : ℕ) → Keeps P (activate_secret fails id now)
  unfolding activate_secret
  activate-Keeps id now = search (keeps_rules, closed, Move.activates)

  finalize_pending-Keeps :
      (store : Store) (id : String) (now : ℕ) (head : Option ObjectInfo) (after : ℕ) (r : SecretRow)
      → Keeps P (finalize_pending fails store id now head after r)
  unfolding finalize_pending
  finalize_pending-Keeps store id now none after r = search keeps_rules
  finalize_pending-Keeps store id now (some info) after r =
      search (keeps_rules, activate-Keeps) depth 8

  finalize_row-Keeps :
      (store : Store) (id : String) (now : ℕ) (head : Option ObjectInfo) (after : ℕ)
      (o : Option SecretRow)
      → Keeps P (finalize_row fails store id now head after o)
  finalize_row-Keeps store id now head after none = search keeps_rules
  finalize_row-Keeps store id now head after (some r) = go r.state
    where
      go : (x : State) → Keeps P (finalize_state fails store id now head after x r)
      go active = search keeps_rules
      go pending_upload = finalize_pending-Keeps store id now head after r

  finalize_tx-Keeps :
      (store : Store) (id : String) (now : ℕ) (head : Option ObjectInfo) (after : ℕ)
      → Keeps P (finalize_tx fails store id now head after)
  unfolding finalize_tx
  finalize_tx-Keeps store id now head after = search (keeps_rules, finalize_row-Keeps)

  pub finalize-keeps :
      (store : Store) (id : String) (now : ℕ) (head : Option ObjectInfo) (after : ℕ) (d : Db)
      → P d
      → P (finalize fails store id now head after d).1
  unfolding finalize
  finalize-keeps store id now head after d p = elim (Bool-cases store.has_objects) [
    | inl y ↦ rw y (transact-Keeps _ _ _ d (finalize_tx-Keeps store id now head after) p)
    | inr n ↦ rw n p
  ]

  cleanup_tx-Keeps : (id : String) (now : ℕ) → Keeps P (cleanup_tx fails id now)
  unfolding cleanup_tx
  cleanup_tx-Keeps id now = search (keeps_rules, closed, Move.deletes_body, Move.touches) depth 9

  pub cleanup-keeps : (id : String) (now : ℕ) (d : Db) → P d → P (cleanup fails id now d).1
  unfolding cleanup
  cleanup-keeps id now d p = elim (Bool-cases (id == "")) [
    | inl y ↦ rw y p
    | inr n ↦ rw n (transact-Keeps _ _ _ d (cleanup_tx-Keeps id now) p)
  ]

  -- A creation, where the test lets its id be created.
  module _ (lib : Library) (id : String) (may : may_create id ≡ true) where
    create_management-Keeps :
        (raw : Option Bytes) (expires : ℕ) → Keeps P (create_management lib fails id raw expires)
    unfolding create_management
    create_management-Keeps none expires = search keeps_rules
    create_management-Keeps (some raw) expires =
        search (keeps_rules, closed, Move.inserts_management, may)

    create_tx-Keeps :
        (i : CreateInput) (raw : Option Bytes) (now : ℕ)
        → Keeps P (create_tx lib fails i id raw now)
    unfolding create_tx
    create_tx-Keeps i raw now =
        search (keeps_rules, closed, Move.inserts, Move.inserts_body, may, create_management-Keeps)
          depth 9

    create_large_tx-Keeps :
        (i : CreateInput) (raw : Option Bytes) (upload : String) (now : ℕ)
        → Keeps P (create_large_tx lib fails i id raw upload now)
    unfolding create_large_tx
    create_large_tx-Keeps i raw upload now =
        search (keeps_rules, closed, Move.inserts, may, create_management-Keeps) depth 9

  pub create-keeps :
      (lib : Library) (store : Store) (i : CreateInput) (id : Option String) (raw : Option Bytes)
      (now : ℕ) (d : Db)
      → MayCreate may_create id
      → P d
      → P (create lib fails store i id raw now d).1
  unfolding create
  create-keeps lib store i id raw now d may p = go id may (validate_create lib store (normalize i))
    where
      go :
          (o : Option String)
          → MayCreate may_create o
          → (e : Option Error) → P (create_checked lib fails store (normalize i) e o raw now d).1
      go o m (some e) = p
      go none m none = p
      go (some x) m none = transact-Keeps _ _ _ d (create_tx-Keeps lib x m (normalize i) raw now) p

  pub create_large-keeps :
      (lib : Library) (store : Store) (i : CreateInput) (id upload : Option String)
      (raw : Option Bytes) (now : ℕ) (d : Db)
      → MayCreate may_create id
      → P d
      → P (create_large lib fails store i id upload raw now d).1
  unfolding create_large
  create_large-keeps lib store i id upload raw now d may p = elim (Bool-cases store.has_objects) [
    | inl y ↦ rw y (go id upload may (validate_create_large lib store (normalize i)))
    | inr n ↦ rw n p
  ]
    where
      go :
          (o u : Option String)
          → MayCreate may_create o
          → (e : Option Error)
          → P (create_large_checked lib fails store (normalize i) e o u raw now d).1
      go o u m (some e) = p
      go none u m none = p
      go (some x) none m none = p
      go (some x) (some u) m none =
          transact-Keeps _ _ _ d (create_large_tx-Keeps lib x m (normalize i) raw u now) p

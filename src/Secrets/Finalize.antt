-- ===== src/Secrets/Finalize.antt =====
-- internal/secrets/store.go: Finalize and activateSecretTx. What the object store's Head answers is an
-- argument, none where it fails.
use flick_drop.Base.{
  ℕ, ◌+◌, String, Bool, not, ◌&&◌, Option, none, some, ltb, nat_beq, string_eq, if◌then◌else◌, find,
}
use flick_drop.Sql.{
  Result, err, Faults, Tx, ◌>>=◌, ◌>>◌, pure, throw, query, transact, exec, commit, require,
  update_row,
}
use flick_drop.Secrets.Tables.{
  State, active, pending_upload, SecretRow, Db, is_awaiting, update_secret,
}
use flick_drop.Secrets.Types.{
  Error, not_found, expired, payload_too_large, object_missing, failure, Stmt, begin_tx, commit_tx,
  read_affected, load_pending, activate_row, Store,
}

-- storage.ObjectInfo
pub record ObjectInfo : Type 0 where
  pub exists : Bool
  pub size : ℕ

unfoldable pub activated : ℕ → SecretRow → SecretRow
activated now r = record r { state = active; updated_at = now }

abbrev pub is_uploaded : ℕ → ObjectInfo → Bool
is_uploaded n info = info.exists && nat_beq info.size n

abbrev pub earlier : ℕ → ℕ → ℕ
earlier a b = if ltb b a then b else a

-- The earlier of the secret's expiry and the end of its time for an upload.
unfoldable pub deadline : ℕ → SecretRow → ℕ
deadline pending_ttl r = earlier r.expires_at (r.created_at + pending_ttl)

module _ (fails : Faults Stmt) where
  -- activateSecretTx
  unfoldable pub activate_secret : String → ℕ → Tx Error Db (Unit {0})
  unfolding activated
  activate_secret id now = do
    matched ←
        update_row (fails activate_row) failure (λ d. is_awaiting (find id d.secrets))
          (update_secret id (activated now))
    exec (fails read_affected) failure (λ d. d)
    require matched not_found

  module _ (store : Store) where
    -- `head` is what Head answers, between two readings of the clock.
    unfoldable pub finalize_pending :
        String → ℕ → Option ObjectInfo → ℕ → SecretRow → Tx Error Db (Unit {0})
    unfolding activate_secret deadline
    finalize_pending id now none now_after r = do
      require (ltb now (deadline store.pending_ttl r)) expired
      throw failure
    finalize_pending id now (some info) now_after r = do
      require (ltb now (deadline store.pending_ttl r)) expired
      require (is_uploaded r.size_bytes info) object_missing
      require (ltb now_after (deadline store.pending_ttl r)) expired
      activate_secret id now_after
      commit (fails commit_tx) failure

    abbrev pub finalize_state :
        String → ℕ → Option ObjectInfo → ℕ → State → SecretRow → Tx Error Db (Unit {0})
    finalize_state id now head now_after active r = pure tt
    finalize_state id now head now_after pending_upload r = finalize_pending id now head now_after r

    abbrev pub finalize_row :
        String → ℕ → Option ObjectInfo → ℕ → Option SecretRow → Tx Error Db (Unit {0})
    finalize_row id now head now_after none = throw not_found
    finalize_row id now head now_after (some r) = finalize_state id now head now_after r.state r

    unfoldable pub finalize_tx : String → ℕ → Option ObjectInfo → ℕ → Tx Error Db (Unit {0})
    unfolding finalize_pending
    finalize_tx id now head now_after = do
      row ← query (fails load_pending) failure (λ d. find id d.secrets)
      finalize_row id now head now_after row

    unfoldable pub finalize : String → ℕ → Option ObjectInfo → ℕ → Db → Result Error (Unit {0}) × Db
    unfolding finalize_tx
    finalize id now head now_after d =
        if not store.has_objects
        then (err payload_too_large, d)
        else transact (fails begin_tx) failure (finalize_tx id now head now_after) d

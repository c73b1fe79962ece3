-- ===== src/Secrets/Manage.antt =====
-- internal/secrets/management.go: Management, Revoke and purgeManagementTx.
use Prim.Native.String.{compare}
use Prim.Native.Nat.{Ordering}
use flick_drop.Base.{
  ℕ, ◌+◌, ◌*◌, String, Bool, true, false, not, ◌&&◌, ◌||◌, Option, none, some, List, [], ◌∷◌, ◌==◌,
  string_eq, ltb, leb, nat_beq, if◌then◌else◌, find, erase, length,
}
use flick_drop.Base.Text.{str_length}
use flick_drop.Sql.{
  Result, ok, err, Faults, Tx, ◌>>=◌, ◌>>◌, pure, throw, lift, query, transact, exec, commit,
  require, when, update_row,
}
use flick_drop.Sql.Order.{sort_rows, take}
use flick_drop.Secrets.Tables.{
  State, Outcome, cancelled, unavailable, SecretRow, ManagementRow, Db, is_some, is_s3,
  delete_secret_row,
}
use flick_drop.Secrets.Types.{
  Bytes, Error, management_unavailable, failure, Stmt, begin_tx, commit_tx, read_affected,
  delete_row, read_capability, read_storage, purge_rows, purge_capabilities, Status, ended,
  ManagementStatus, Store, Library, NewJob, Revocation, revoked, refused, second,
}
use flick_drop.Secrets.Access.{record_management_outcome, enqueue_object_delete, require_row}

abbrev pub same_bytes : Bytes → Bytes → Bool
same_bytes [] [] = true
same_bytes [] (y ∷ ys) = false
same_bytes (x ∷ xs) [] = false
same_bytes (x ∷ xs) (y ∷ ys) = nat_beq x y && same_bytes xs ys

abbrev pub can_cancel_status : Status → Bool
can_cancel_status Status.active = true
can_cancel_status Status.pending_upload = true
can_cancel_status (ended o) = false

-- The status of a delivery with no outcome, from the secret's row.
abbrev pub row_status : ℕ → ℕ → State → ℕ → Status
row_status now pending_ttl State.active created = Status.active
row_status now pending_ttl State.pending_upload created =
    if ltb now (created + pending_ttl) then Status.pending_upload else ended unavailable

abbrev pub status_of : ℕ → ℕ → Option Outcome → Option SecretRow → Result Error Status
status_of now pending_ttl (some o) row = ok (ended o)
status_of now pending_ttl none none = err failure
status_of now pending_ttl none (some r) = ok (row_status now pending_ttl r.state r.created_at)

abbrev pub management_status : String → ℕ → Result Error Status → Result Error ManagementStatus
management_status id expires (err e) = err e
management_status id expires (ok s) =
    ok (record { id = id; status = s; expires_at = expires; can_cancel = can_cancel_status s })

-- The row that Revoke deletes: not consumed, and not claimed by the reaper.
abbrev pub is_cancellable : Option SecretRow → Bool
is_cancellable none = false
is_cancellable (some r) = not (is_some r.consumed_at) && not (is_some r.reclaim_enqueued_at)

abbrev pub is_cancelled : Status → Bool
is_cancelled (ended cancelled) = true
is_cancelled _ = false

module _ (lib : Library) where
  -- The bytes of a token that is written in the one accepted way.
  unfoldable pub token_bytes : String → Option Bytes
  token_bytes token =
      if not (nat_beq (str_length token) 43) then none else elim (lib.decode_token token) [
        | none ↦ none
        | some raw ↦
            if nat_beq (length raw) 32 && lib.encode_token raw == token then some raw else none
      ]

  abbrev pub read_status :
      String
      → Bytes
      → ℕ
      → ℕ
      → Option ManagementRow
      → Option SecretRow
      → Result Error ManagementStatus
  read_status id raw now pending_ttl none row = err management_unavailable
  read_status id raw now pending_ttl (some m) row =
      if not (same_bytes (lib.sha256 raw) m.token_hash) || not (ltb now m.expires_at)
      then err management_unavailable
      else management_status id m.expires_at (status_of now pending_ttl m.outcome row)

  module _ (fails : Faults Stmt) (store : Store) where
    abbrev pub management_with : String → ℕ → Option Bytes → Tx Error Db ManagementStatus
    management_with id now none = throw management_unavailable
    management_with id now (some raw) = do
      st ← query (fails read_capability) failure (λ d.
          read_status id raw now store.pending_ttl (find id d.managements) (find id d.secrets))
      lift st

    unfoldable pub management_tx : String → String → ℕ → Tx Error Db ManagementStatus
    unfolding token_bytes
    management_tx id token now = management_with id now (token_bytes token)

    -- Management
    unfoldable pub management : String → String → ℕ → Db → Result Error ManagementStatus
    unfolding management_tx
    management id token now d =
        (management_tx id token now (record { committed = d; working = d })).0

    -- The object of a cancelled delivery is deleted by a job.
    unfoldable pub revoke_object : SecretRow → NewJob → Tx Error Db (Unit {0})
    unfolding enqueue_object_delete
    revoke_object r job = when (is_s3 r.storage_backend) (do
      require store.has_outbox failure
      enqueue_object_delete lib fails store r.storage_key "manual" job.requested_at job)

    unfoldable pub revoke_claimed :
        String → SecretRow → NewJob → ManagementStatus → Tx Error Db Revocation
    unfolding revoke_object
    revoke_claimed id r job st = do
      matched ←
          update_row (fails delete_row) failure (λ d. is_cancellable (find id d.secrets))
            (delete_secret_row id)
      exec (fails read_affected) failure (λ d. d)
      require matched failure
      record_management_outcome lib fails store id cancelled
      revoke_object r job
      commit (fails commit_tx) failure
      pure (revoked (record st { status = ended cancelled; can_cancel = false }))

    abbrev pub revoke_if :
        Bool → String → SecretRow → NewJob → ManagementStatus → Tx Error Db Revocation
    revoke_if true id r job st = revoke_claimed id r job st
    revoke_if false id r job st = pure (refused st)

    unfoldable pub revoke_live : String → String → ℕ → NewJob → Tx Error Db Revocation
    unfolding management_tx revoke_claimed
    revoke_live id token now job = do
      row ← query (fails read_storage) failure (λ d. find id d.secrets)
      r ← require_row row
      st ← management_tx id token now
      revoke_if st.can_cancel id r job st

    abbrev pub revoke_with :
        Bool → Bool → String → String → ℕ → NewJob → ManagementStatus → Tx Error Db Revocation
    revoke_with true can_cancel id token now job st = pure (revoked st)
    revoke_with false false id token now job st = pure (refused st)
    revoke_with false true id token now job st = revoke_live id token now job

    unfoldable pub revoke_tx : String → String → ℕ → ℕ → NewJob → Tx Error Db Revocation
    unfolding management_tx revoke_live
    revoke_tx id token now now_again job = do
      st ← management_tx id token now
      revoke_with (is_cancelled st.status) st.can_cancel id token now_again job st

    unfoldable pub revoke : String → String → ℕ → ℕ → NewJob → Db → Result Error Revocation × Db
    unfolding revoke_tx
    revoke id token now now_again job d =
        transact (fails begin_tx) failure (revoke_tx id token now now_again job) d

-- OpenStreamTimeout and five minutes.
abbrev pub open_object_grace : ℕ
open_object_grace = 35 * 60 * second

abbrev pub text_le : String → String → Bool
text_le a b = elim (compare a b) [ Ordering.gt ↦ false | _ ↦ true ]

abbrev pub expires_no_later : String × ManagementRow → String × ManagementRow → Bool
expires_no_later (i, m) (j, n) =
    ltb m.expires_at n.expires_at || nat_beq m.expires_at n.expires_at && text_le i j

-- Whether a body may still be streaming.
abbrev pub is_recent : ℕ → Option ℕ → Bool
is_recent now none = false
is_recent now (some c) = ltb now (c + open_object_grace)

abbrev pub is_streaming : ℕ → Option SecretRow → Bool
is_streaming now none = false
is_streaming now (some r) = is_s3 r.storage_backend && is_recent now r.consumed_at

abbrev pub expired_rows : ℕ → Db → List (String × ManagementRow) → List (String × ManagementRow)
expired_rows now d [] = []
expired_rows now d ((id, m) ∷ rows) =
    if leb m.expires_at now && not (is_streaming now (find id d.secrets))
    then (id, m) ∷ expired_rows now d rows
    else expired_rows now d rows

unfoldable pub expired_managements : ℕ → ℕ → Db → List (String × ManagementRow)
unfolding sort_rows take
expired_managements now limit d =
    take limit (sort_rows expires_no_later (expired_rows now d d.managements))

abbrev pub is_consumed_row : Option SecretRow → Bool
is_consumed_row none = false
is_consumed_row (some r) = is_some r.consumed_at

unfoldable pub delete_consumed : List (String × ManagementRow) → Db → Db
delete_consumed [] d = d
delete_consumed ((id, m) ∷ rows) d =
    delete_consumed rows (if is_consumed_row (find id d.secrets) then delete_secret_row id d else d)

unfoldable pub delete_managements : List (String × ManagementRow) → Db → Db
delete_managements [] d = d
delete_managements ((id, m) ∷ rows) d =
    delete_managements rows (record d { managements = erase id d.managements })

-- purgeManagementTx
unfoldable pub purge_management : Faults Stmt → ℕ → ℕ → Tx Error Db (Unit {0})
unfolding expired_managements delete_consumed delete_managements
purge_management fails now limit = do
  exec (fails purge_rows) failure (λ d. delete_consumed (expired_managements now limit d) d)
  exec (fails purge_capabilities) failure
      (λ d. delete_managements (expired_managements now limit d) d)

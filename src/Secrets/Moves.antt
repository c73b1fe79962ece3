-- ===== src/Secrets/Moves.antt =====
-- What the statements of internal/secrets may do to its tables, as an abstract step relation.
pub mod Creating
pub mod Opening
pub mod Reaping
pub mod Listing
use flick_drop.Base.{
  ℕ, ◌≡◌, String, Bool, true, false, List, string_eq, nat_beq, not, ◌&&◌, find, erase,
}
use flick_drop.Outbox.{OutboxRecord}
use flick_drop.Secrets.Tables.{
  Outcome, SecretRow, ManagementRow, Cursor, Db, is_some, is_unconsumed, is_awaiting, update_secret,
  insert_secret, insert_payload, delete_payload, delete_secret_row, insert_management, set_outcome,
}
use flick_drop.Secrets.Finalize.{activated}
use flick_drop.Secrets.Load.{touched}
use flick_drop.Secrets.Access.{failed_access}
use flick_drop.Secrets.Open.{viewed}
use flick_drop.Secrets.Reaper.{claimed}

-- A row that was never opened nor tried.
abbrev pub is_unused : SecretRow → Bool
is_unused r =
    not (is_some r.consumed_at) && nat_beq r.view_count 0 && nat_beq r.failed_access_count 0

-- One write. A test says for which ids a secret may be created.
pub data Move (may_create : String → Bool) : Db → Db → Type 0 where
  inserts :
      (id : String) (r : SecretRow) (d : Db)
      → may_create id ≡ true
      → is_some (find id d.secrets) ≡ false
      → is_unused r ≡ true
      → Move may_create d (insert_secret id r d)
  inserts_body : (id : String) (c : List ℕ) (d : Db) → Move may_create d (insert_payload id c d)
  inserts_management :
      (id : String) (m : ManagementRow) (d : Db)
      → may_create id ≡ true
      → is_some (find id d.managements) ≡ false
      → Move may_create d (insert_management id m d)
  activates :
      (id : String) (now : ℕ) (d : Db)
      → is_awaiting (find id d.secrets) ≡ true
      → Move may_create d (update_secret id (activated now) d)
  counts :
      (id : String) (now : ℕ) (d : Db)
      → is_unconsumed (find id d.secrets) ≡ true
      → Move may_create d (update_secret id (failed_access now) d)
  views :
      (id : String) (now : ℕ) (d : Db)
      → is_unconsumed (find id d.secrets) ≡ true
      → Move may_create d (update_secret id (viewed now) d)
  touches : (id : String) (now : ℕ) (d : Db) → Move may_create d (update_secret id (touched now) d)
  claims : (id : String) (now : ℕ) (d : Db) → Move may_create d (update_secret id (claimed now) d)
  settles : (id : String) (o : Outcome) (d : Db) → Move may_create d (set_outcome id o d)
  deletes_body : (id : String) (d : Db) → Move may_create d (delete_payload id d)
  deletes : (id : String) (d : Db) → Move may_create d (delete_secret_row id d)
  deletes_management :
      (id : String) (d : Db) → Move may_create d (record d { managements = erase id d.managements })
  queues : (o : List (String × OutboxRecord)) (d : Db) → Move may_create d (record d { outbox = o })
  marks : (p : List (String × String)) (d : Db) → Move may_create d (record d { pending = p })
  lists : (c : Cursor) (d : Db) → Move may_create d (record d { cursor = c })

-- A predicate that every write keeps.
abbrev pub IsClosed : (String → Bool) → (Db → Type 0) → Type 0
IsClosed may_create P = (d e : Db) → Move may_create d e → P d → P e

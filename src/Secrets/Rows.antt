-- ===== src/Secrets/Rows.antt =====
-- What each write of Secrets.Tables does to the row of an id.
use flick_drop.Base.{
  ◌≡◌, String, Option, none, some, ◌==◌, string_eq, arith, if◌then◌else◌, find, find-insert,
  find-erase, Option-cases, inl, inr,
}
use flick_drop.Secrets.Tables.{
  Db, SecretRow, Outcome, ManagementRow, update_secret, insert_secret, delete_secret_row,
  set_outcome, first_outcome,
}

abbrev pub map_row {ℓ} : {A : Type ℓ} → (A → A) → Option A → Option A
map_row f none = none
map_row f (some r) = some (f r)

pub find-update_secret :
    (id j : String) (f : SecretRow → SecretRow) (d : Db)
    → find j (update_secret id f d).secrets
      ≡ (if id == j then map_row f (find id d.secrets) else find j d.secrets)
unfolding update_secret
find-update_secret id j f d = elim (Option-cases (find id d.secrets)) [
  | inl n ↦ ground (arith, n, string_eq.same_iff id j)
  | inr (r, e) ↦ ground (arith, e, find-insert id j (f r) d.secrets)
]

pub find-insert_secret :
    (id j : String) (r : SecretRow) (d : Db)
    → find j (insert_secret id r d).secrets ≡ (if id == j then some r else find j d.secrets)
unfolding insert_secret
find-insert_secret id j r d = find-insert id j r d.secrets

pub find-delete_secret_row :
    (id j : String) (d : Db)
    → find j (delete_secret_row id d).secrets ≡ (if id == j then none else find j d.secrets)
unfolding delete_secret_row
find-delete_secret_row id j d = find-erase id j d.secrets

abbrev pub settled : Outcome → ManagementRow → ManagementRow
settled o m = record m { outcome = first_outcome o m.outcome }

pub find-set_outcome :
    (id j : String) (o : Outcome) (d : Db)
    → find j (set_outcome id o d).managements
      ≡ (if id == j then map_row (settled o) (find id d.managements) else find j d.managements)
unfolding set_outcome
find-set_outcome id j o d = elim (Option-cases (find id d.managements)) [
  | inl n ↦ ground (arith, n, string_eq.same_iff id j)
  | inr (m, e) ↦ ground (arith, e, find-insert id j (settled o m) d.managements)
]

pub secrets-set_outcome :
    (id : String) (o : Outcome) (d : Db) → (set_outcome id o d).secrets ≡ d.secrets
unfolding set_outcome
secrets-set_outcome id o d = elim (Option-cases (find id d.managements)) [
  | inl n ↦ ground (arith, n)
  | inr (m, e) ↦ ground (arith, e)
]

pub managements-update_secret :
    (id : String) (f : SecretRow → SecretRow) (d : Db)
    → (update_secret id f d).managements ≡ d.managements
unfolding update_secret
managements-update_secret id f d = elim (Option-cases (find id d.secrets)) [
  | inl n ↦ ground (arith, n)
  | inr (m, e) ↦ ground (arith, e)
]

pub outbox-set_outcome :
    (id : String) (o : Outcome) (d : Db) → (set_outcome id o d).outbox ≡ d.outbox
unfolding set_outcome
outbox-set_outcome id o d = elim (Option-cases (find id d.managements)) [
  | inl n ↦ ground (arith, n)
  | inr (m, e) ↦ ground (arith, e)
]

pub outbox-update_secret :
    (id : String) (f : SecretRow → SecretRow) (d : Db) → (update_secret id f d).outbox ≡ d.outbox
unfolding update_secret
outbox-update_secret id f d = elim (Option-cases (find id d.secrets)) [
  | inl n ↦ ground (arith, n)
  | inr (m, e) ↦ ground (arith, e)
]

pub payloads-update_secret :
    (id : String) (f : SecretRow → SecretRow) (d : Db)
    → (update_secret id f d).payloads ≡ d.payloads
unfolding update_secret
payloads-update_secret id f d = elim (Option-cases (find id d.secrets)) [
  | inl n ↦ ground (arith, n)
  | inr (m, e) ↦ ground (arith, e)
]

pub payloads-set_outcome :
    (id : String) (o : Outcome) (d : Db) → (set_outcome id o d).payloads ≡ d.payloads
unfolding set_outcome
payloads-set_outcome id o d = elim (Option-cases (find id d.managements)) [
  | inl n ↦ ground (arith, n)
  | inr (m, e) ↦ ground (arith, e)
]

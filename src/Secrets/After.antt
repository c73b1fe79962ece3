-- ===== src/Secrets/After.antt =====
-- The tables after a wrong proof and after an opening, written out.
use flick_drop.Base.{
  ℕ, suc, ◌≡◌, refl, String, Option, none, some, List, string_eq, leb, if◌then◌else◌, find, insert,
  erase, Bool-cases, inl, inr,
}
use flick_drop.Outbox.{OutboxState, new_record}
use flick_drop.Secrets.Tables.{
  Outcome, first_outcome, opened, locked, SecretRow, ManagementRow, Db, update_secret,
  delete_payload, set_outcome, insert_job,
}
use flick_drop.Secrets.Access.{failed_access}
use flick_drop.Secrets.Open.{viewed}

-- A delivery keeps the outcome that it has.
abbrev pub settled_outcome : Outcome → Option Outcome → Outcome
settled_outcome o none = o
settled_outcome o (some p) = p

abbrev pub settled_row : Outcome → ManagementRow → ManagementRow
settled_row o m = record {
  token_hash = m.token_hash;
  expires_at = m.expires_at;
  outcome = some (settled_outcome o m.outcome);
}

abbrev pub with_outcome :
    String → Outcome → List (String × ManagementRow) → List (String × ManagementRow)
with_outcome id o rows = elim (find id rows) [
  | none ↦ rows
  | some m ↦ insert id (settled_row o m) rows
]

-- The row of a secret that has had one wrong proof more: the fifth consumes it.
abbrev pub wrong_proof_row : ℕ → SecretRow → SecretRow
wrong_proof_row now r = record r {
  failed_access_count = suc r.failed_access_count;
  consumed_at = if leb 5 (suc r.failed_access_count) then some now else none;
  updated_at = now;
}

-- The tables after a wrong proof for the inline secret of a row: the fifth one takes the body away and
-- records that the delivery is locked.
unfoldable pub after_wrong_proof : String → ℕ → SecretRow → Db → Db
after_wrong_proof id now r d =
    if leb 5 (suc r.failed_access_count)
    then record d {
      secrets = insert id (wrong_proof_row now r) d.secrets;
      payloads = erase id d.payloads;
      managements = with_outcome id locked d.managements;
    }
    else record d { secrets = insert id (wrong_proof_row now r) d.secrets }

-- The tables after an opening of the secret of a row, with a job in the outbox.
unfoldable pub after_opening : String → ℕ → SecretRow → String → String → String → ℕ → Db → Db
after_opening id now r job_id subject payload enqueued_at d = record d {
  secrets =
      insert id
        (record r { view_count = suc r.view_count; consumed_at = some now; updated_at = now })
        d.secrets;
  managements = with_outcome id opened d.managements;
  outbox =
      insert job_id
        (record {
          subject = subject;
          payload_json = payload;
          state = OutboxState.pending;
          attempts = 0;
          next_attempt_at = enqueued_at;
          published_at = none;
          last_error = none;
          created_at = enqueued_at;
          updated_at = enqueued_at;
        })
        d.outbox;
}

first_outcome-settled :
    (o : Outcome) (p : Option Outcome) → first_outcome o p ≡ some (settled_outcome o p)
first_outcome-settled o none = refl
first_outcome-settled o (some q) = refl

set_outcome-written :
    (id : String) (o : Outcome) (d : Db)
    → set_outcome id o d ≡ record d { managements = with_outcome id o d.managements }
unfolding set_outcome
set_outcome-written id o d = written (find id d.managements)
  where
    written :
        (x : Option ManagementRow)
        → (elim x [
          | none ↦ d
          | some m ↦ record d {
            managements =
                insert id (record m { outcome = first_outcome o m.outcome }) d.managements;
          }
        ])
          ≡ record d {
            managements = elim x [
              | none ↦ d.managements
              | some m ↦ insert id (settled_row o m) d.managements
            ];
          }
    written none = refl
    written (some m) = rw (first_outcome-settled o m.outcome) refl

update_secret-written :
    (id : String) (f : SecretRow → SecretRow) (r : SecretRow) (d : Db)
    → find id d.secrets ≡ some r
    → update_secret id f d ≡ record d { secrets = insert id (f r) d.secrets }
unfolding update_secret
update_secret-written id f r d e = rw (e, update_secret) refl

-- The writes of a wrong proof and of an opening make these tables.
pub wrong_proof-written :
    (id : String) (now : ℕ) (r : SecretRow) (d : Db)
    → find id d.secrets ≡ some r
    → r.consumed_at ≡ none
    → (let counted = update_secret id (failed_access now) d in
        if leb 5 (suc r.failed_access_count)
        then delete_payload id (set_outcome id locked counted)
        else counted)
      ≡ after_wrong_proof id now r d
unfolding failed_access delete_payload after_wrong_proof
wrong_proof-written id now r d e c =
    rw (update_secret-written id (failed_access now) r d e, set_outcome-written id locked)
      (elim (Bool-cases (leb 5 (suc r.failed_access_count))) [
        | inl y ↦ rw y refl
        | inr n ↦ rw (n, c) refl
      ])

pub opening-written :
    (id : String) (now : ℕ) (r : SecretRow) (job_id subject payload : String) (enqueued_at : ℕ)
    (d : Db)
    → find id d.secrets ≡ some r
    → insert_job job_id
        (new_record subject payload enqueued_at)
        (set_outcome id opened (update_secret id (viewed now) d))
      ≡ after_opening id now r job_id subject payload enqueued_at d
unfolding viewed insert_job new_record after_opening
opening-written id now r job_id subject payload enqueued_at d e =
    rw (update_secret-written id (viewed now) r d e, set_outcome-written id opened) refl

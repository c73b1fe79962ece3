-- ===== src/Secrets/Tests.antt =====
-- Runs of internal/secrets at concrete inputs.
use flick_drop.Secrets.Chosen.{all_live}
use flick_drop.Relay.Code.{is_space}
use flick_drop.Jobs.{is_blank, validate, valid_reason}
use flick_drop.Base.{
  ℕ, ◌≤◌, ◌≡◌, ◌↔◌, refl, String, true, false, none, some, List, [], ◌∷◌, string_eq, find, insert,
  erase, arith,
}
use flick_drop.Sql.{Result, ok, err, Faults, is_ok}
use flick_drop.Secrets.Age.{max_ciphertext_bytes, step_up, plaintext_estimate, max_plaintext_bytes}
use flick_drop.Secrets.Tables.{
  insert_job, set_outcome, insert_payload, insert_secret, insert_management, update_secret,
  sqlite_blob, s3_object, State, Outcome, SecretRow, Db, empty_db,
}
use flick_drop.Secrets.Types.{
  consumed, Bytes, Error, Stmt, commit_tx, invalid_access, failure, CreateInput, KdfParams, Secret,
  Store, Library, NewJob, no_faults, ListError, ObjectPage, ended,
}
use flick_drop.Secrets.Validate.{age_magic}
use flick_drop.Secrets.Load.{load_row, secret_of}
use flick_drop.Secrets.Create.{create}
use flick_drop.Secrets.Open.{open_and_enqueue_cleanup}
use flick_drop.Secrets.Manage.{revoke}
use flick_drop.Secrets.Reaper.{claim_expired}
use flick_drop.Secrets.Reconcile.{after_listing, find_object}
use flick_drop.Secrets.Calls.{Call, creates, opens, run, deliveries, may_create_any}
use flick_drop.Secrets.Sizes.{max_plaintext_bytes-inverse, max_plaintext_bytes-terminates}
use flick_drop.Secrets.Sound.{run-is_sound, is_sound}
use flick_drop.Secrets.Deliveries.{deliveries-le_one}
use flick_drop.Secrets.Revoked.{revoke-final}
use flick_drop.Secrets.Proofs.{wrong_proof-fails}
use flick_drop.Secrets.Lock.{wrong_proof-counts}
use flick_drop.Secrets.After.{after_wrong_proof, after_opening}
use flick_drop.Secrets.Opens.{open-views, cleanup_event}
use flick_drop.Secrets.Roundtrip.{create-open, delivered_by, delivery}
use flick_drop.Secrets.Live.{claim_expired-live}
use flick_drop.Secrets.Protected.{after_listing-protects}
use flick_drop.Secrets.Outcomes.{run-settled, settled_or_gone}
use flick_drop.Secrets.Undone.{open_atomic, revoke_atomic}

abbrev kdf : KdfParams
kdf = record {
  algorithm = "PBKDF2-SHA-256";
  salt = "c2FsdA==";
  iterations = 600000;
  key_length_bits = 256;
}

abbrev token : String
token = "AAAAAAAAAAAAAAAAAAAAAAAAAAAAAAAAAAAAAAAAAAA"

abbrev raw : Bytes
raw =
    0 ∷ 0 ∷ 0 ∷ 0 ∷ 0 ∷ 0 ∷ 0 ∷ 0 ∷ 0 ∷ 0 ∷ 0 ∷ 0 ∷ 0 ∷ 0 ∷ 0 ∷ 0 ∷ 0 ∷ 0 ∷ 0 ∷ 0 ∷ 0 ∷ 0 ∷ 0 ∷ 0
    ∷ 0 ∷ 0 ∷ 0 ∷ 0 ∷ 0 ∷ 0 ∷ 0 ∷ 0 ∷ []

-- Libraries that know one text, one token and one set of parameters.
abbrev lib : Library
lib = record {
  marshal_kdf = λ k. "{}";
  unmarshal_kdf = λ s. some kdf;
  marshal_event = λ e. "event";
  decode_base64 = λ s. some age_magic;
  encode_token = λ b. token;
  decode_token = λ s. some raw;
  sha256 = λ b. b;
}

abbrev store : Store
store = record {
  payload_inline_max_bytes = 1048576;
  max_object_bytes = 268435456;
  presign_ttl = 300;
  pending_ttl = 900;
  min_ttl = 60;
  max_ttl = 604800;
  has_objects = true;
  has_outbox = true;
  subject = "jobs";
}

abbrev input : CreateInput
input = record {
  kind = "text";
  ciphertext = age_magic;
  access_kdf = kdf;
  access_proof_hash = "proof";
  wrapped_identity = some "wrapped";
  encrypted_filename = none;
  content_type = none;
  size_bytes = 22;
  ttl_seconds = 60;
  max_views = 0;
}

abbrev job : NewJob
job = record { id = some "job"; requested_at = 5; enqueued_at = 5 }

-- A secret that is live until 100, with some number of wrong proofs.
abbrev row : ℕ → SecretRow
row failed = record {
  kind = "text";
  storage_backend = sqlite_blob;
  storage_key = "s";
  access_kdf_params_json = some "{}";
  access_proof_hash = some "proof";
  wrapped_identity = some "wrapped";
  encrypted_filename = none;
  content_type = none;
  size_bytes = 22;
  max_views = 1;
  view_count = 0;
  failed_access_count = failed;
  state = State.active;
  expires_at = 100;
  consumed_at = none;
  created_at = 1;
  updated_at = 1;
  reclaim_enqueued_at = none;
}

abbrev tables : ℕ → Db
tables failed = record empty_db {
  secrets = ("s", row failed) ∷ [];
  payloads = ("s", age_magic) ∷ [];
  managements = ("s", record { token_hash = raw; expires_at = 100; outcome = none }) ∷ [];
}

abbrev opens_at : ℕ → String → Faults Stmt × Call
opens_at now proof = (no_faults, opens "s" proof now none now job job)

abbrev history : List (Faults Stmt × Call)
history = opens_at 3 "wrong" ∷ opens_at 4 "proof" ∷ opens_at 5 "proof" ∷ []

-- The driver fails each commit.
abbrev no_commit : Faults Stmt
no_commit commit_tx = true
no_commit _ = false

deliveries_of_history : deliveries lib store "s" history (tables 0) ≡ 1
unfolding deliveries open_and_enqueue_cleanup find update_secret insert validate is_blank is_space
    valid_reason set_outcome empty_db insert_job
deliveries_of_history = refl

deliveries-le_one_example : deliveries lib store "s" history (tables 0) ≤ 1
unfolding may_create_any
deliveries-le_one_example = deliveries-le_one lib store "s" history (tables 0) refl

max_plaintext_bytes-inverse_example :
    (1044336 ≤ max_plaintext_bytes 1048576) ↔ (max_ciphertext_bytes 1044336 ≤ 1048576)
unfolding max_ciphertext_bytes
max_plaintext_bytes-inverse_example = max_plaintext_bytes-inverse 1048576 1044336 (omega arith)

max_plaintext_bytes-terminates_example :
    step_up 40 1048576 (plaintext_estimate 1048576) ≡ max_plaintext_bytes 1048576
unfolding max_ciphertext_bytes
max_plaintext_bytes-terminates_example =
    max_plaintext_bytes-terminates 40 1048576 (omega arith) (omega arith) (omega arith)

-- The row that the creation of the input leaves.
abbrev made_row : SecretRow
made_row = record (row 0) { storage_key = "s"; expires_at = 60000000001 }

run-is_sound_example : is_sound made_row ≡ true
unfolding find run create empty_db insert_secret insert_payload insert_management insert
run-is_sound_example =
    run-is_sound lib store ((no_faults, creates input (some "s") (some raw) 1) ∷ []) "s" made_row
      refl

revoke-final_example :
    deliveries lib store "s" history (revoke lib no_faults store "s" token 2 2 job (tables 0)).1 ≡ 0
unfolding find revoke may_create_any
revoke-final_example =
    revoke-final lib no_faults store "s" token 2 2 job (tables 0)
      (record { id = "s"; status = ended Outcome.cancelled; expires_at = 100; can_cancel = false })
      history refl refl refl

wrong_proof-fails_example :
    is_ok (open_and_enqueue_cleanup lib no_commit store "s" "wrong" 3 none 3 job job (tables 0)).0
    ≡ false
unfolding find
wrong_proof-fails_example =
    wrong_proof-fails lib no_commit store "s" "wrong" 3 none 3 job job (tables 0) (row 0) "proof"
      refl refl refl refl

wrong_proof-counts_example :
    open_and_enqueue_cleanup lib no_faults store "s" "wrong" 3 none 3 job job (tables 4)
    ≡ (err invalid_access, after_wrong_proof "s" 3 (row 4) (tables 4))
unfolding find load_row
wrong_proof-counts_example =
    wrong_proof-counts lib store "s" "wrong" 3 none 3 job job "job" (tables 4) (row 4)
      (secret_of lib "s" (row 4) (some age_magic) (some kdf), none) refl refl refl refl refl refl
      refl refl refl

-- The fifth wrong proof consumes the secret and deletes its body.
after_fifth_wrong_proof :
    (find "s" (after_wrong_proof "s" 3 (row 4) (tables 4)).payloads ≡ none)
    × (find "s" (after_wrong_proof "s" 3 (row 4) (tables 4)).secrets
        ≡ some (record (row 4) { failed_access_count = 5; consumed_at = some 3; updated_at = 3 }))
unfolding find after_wrong_proof erase insert
after_fifth_wrong_proof = (refl, refl)

open-views_example :
    let o = open_and_enqueue_cleanup lib no_faults store "s" "proof" 3 none 3 job job (tables 4) in
    (o ≡ (
      ok (secret_of lib "s" (row 4) (some age_magic) (some kdf)),
      after_opening "s" 3
          (row 4)
          "job"
          store.subject
          (lib.marshal_event (cleanup_event "s" "job" job))
          job.enqueued_at
          (tables 4),
    ))
    × ((open_and_enqueue_cleanup lib no_faults store "s" "proof" 4 none 4 job job o.1).0
        ≡ err consumed)
unfolding is_blank is_space find empty_db load_row
open-views_example =
    open-views lib store "s" "proof" 3 none 3 job job "job" (tables 4) (row 4)
      (secret_of lib "s" (row 4) (some age_magic) (some kdf), none) "proof" 4 none 4 job job "job"
      refl refl refl refl refl refl refl refl refl refl refl refl refl

abbrev created : Result Error Secret × Db
created = create lib no_faults store input (some "s") (some raw) 1 empty_db

abbrev made_secret : Secret
made_secret = record {
  management_token = token;
  id = "s";
  kind = "text";
  storage_backend = sqlite_blob;
  storage_key = "s";
  ciphertext = age_magic;
  body = none;
  access_kdf = some kdf;
  wrapped_identity = some "wrapped";
  encrypted_filename = none;
  content_type = none;
  size_bytes = 22;
  expires_at = 60000000001;
  access_proof_hash = "";
}

create-open_example :
    delivered_by
      (open_and_enqueue_cleanup lib no_faults store "s" "proof" 3 none 3 job job created.1).0
    ≡ ok (delivery made_secret)
unfolding create find empty_db insert_secret insert_payload is_blank is_space insert_management
create-open_example =
    create-open lib store no_faults input "s" (some raw) 1 3 none 3 job job "job" empty_db
      made_secret refl refl refl refl refl refl refl refl refl

claim_expired-live_example :
    let e = (claim_expired lib no_faults store (λ o. ok o) 50 10 (λ i. job) (tables 0)).1 in
    (find "s" e.secrets ≡ some (row 0)) × (find "s" e.payloads ≡ find "s" (tables 0).payloads)
unfolding find all_live
claim_expired-live_example =
    claim_expired-live lib no_faults store (λ o. ok o) 50 10 (λ i. job) (tables 0) "s" (row 0) refl
      refl refl

-- An object that an upload has completed.
abbrev large : SecretRow
large = record (row 0) {
  kind = "file";
  storage_backend = s3_object;
  storage_key = "managed/secrets/s";
}

abbrev large_tables : Db
large_tables = record (tables 0) { secrets = ("s", large) ∷ []; payloads = [] }

abbrev page : Result ListError ObjectPage
page = ok (record { keys = "managed/secrets/s" ∷ "managed/secrets/t" ∷ []; next_cursor = "" })

after_listing-protects_example :
    let e = (after_listing lib no_faults store page 10 "" 0 50 (λ k. job) large_tables).1 in
    (e.secrets ≡ large_tables.secrets)
    × (find "managed/secrets/s" e.pending ≡ find "managed/secrets/s" large_tables.pending)
unfolding find_object
after_listing-protects_example =
    after_listing-protects lib no_faults store page 10 "" 0 50 (λ k. job) large_tables
      "managed/secrets/s" large refl refl

abbrev locked_tables : Db
locked_tables = record (tables 0) {
  managements =
      ("s", record { token_hash = raw; expires_at = 100; outcome = some Outcome.locked }) ∷ [];
}

run-settled_example :
    settled_or_gone Outcome.locked (find "s" (run lib store history locked_tables).managements)
    ≡ true
unfolding may_create_any find
run-settled_example = run-settled lib store "s" Outcome.locked history locked_tables refl refl

open_atomic_example :
    (open_and_enqueue_cleanup lib no_commit store "s" "proof" 3 none 3 job job (tables 0)).1
    ≡ tables 0
unfolding open_and_enqueue_cleanup find validate is_blank is_space valid_reason set_outcome
    update_secret empty_db
open_atomic_example =
    open_atomic lib no_commit store "s" "proof" 3 none 3 job job (tables 0) failure refl (λ e. cc e)

revoke_atomic_example : (revoke lib no_commit store "s" token 2 2 job (tables 0)).1 ≡ tables 0
unfolding revoke find
revoke_atomic_example = revoke_atomic lib no_commit store "s" token 2 2 job (tables 0) failure refl

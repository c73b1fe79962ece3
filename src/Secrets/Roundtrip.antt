-- ===== src/Secrets/Roundtrip.antt =====
-- From Create to openAndEnqueueCleanup.
use flick_drop.Base.{
  ℕ, ◌≡◌, refl, String, Bool, true, false, ◌||◌, Option, none, some, ◌==◌, string_eq, arith, ltb,
  if◌then◌else◌, find, Bool-cases, inl, inr, subst,
}
use flick_drop.Sql.{Faults, Result, ok, err, TxState, transact}
use flick_drop.Jobs.{is_blank}
use flick_drop.Secrets.Tables.{sqlite_blob, active, Db, is_some}
use flick_drop.Secrets.Types.{
  Error, failure, begin_tx, Bytes, NewJob, Secret, Stmt, Store, Library, CreateInput, KdfParams,
  no_faults,
}
use flick_drop.Secrets.Validate.{validate_create}
use flick_drop.Secrets.Load.{secret_of}
use flick_drop.Secrets.Create.{
  normalize, expiry, new_row, model_a_columns, created_secret, create_tx, create_checked, create,
}
use flick_drop.Secrets.Open.{open_and_enqueue_cleanup}
use flick_drop.Secrets.Created.{
  CreatedIfOk, create_tx-Created, load_row-created, valid-same, valid-access,
}
use flick_drop.Secrets.Opens.{open-writes}

-- What the recipient gets of a secret, the parameters of the access key where its identity is wrapped.
pub record Delivery : Type 0 where
  pub id : String
  pub kind : String
  pub ciphertext : Bytes
  pub body : Option Bytes
  pub access_kdf : Option KdfParams
  pub wrapped_identity : Option String
  pub encrypted_filename : Option String
  pub content_type : Option String
  pub size_bytes : ℕ
  pub expires_at : ℕ

abbrev pub delivery : Secret → Delivery
delivery s = record {
  id = s.id;
  kind = s.kind;
  ciphertext = s.ciphertext;
  body = s.body;
  access_kdf = if is_some s.wrapped_identity then s.access_kdf else none;
  wrapped_identity = s.wrapped_identity;
  encrypted_filename = s.encrypted_filename;
  content_type = s.content_type;
  size_bytes = s.size_bytes;
  expires_at = s.expires_at;
}

abbrev pub delivered_by : Result Error Secret → Result Error Delivery
delivered_by (ok s) = ok (delivery s)
delivered_by (err e) = err e

module _ (lib : Library) (store : Store) where
  -- The rows of a creation that has succeeded.
  pub record IsStored (i : CreateInput) (id : String) (now : ℕ) (d : Db) (x : Secret) : Type 0 where
    pub valid : validate_create lib store i ≡ none
    pub row : find id d.secrets ≡ some (new_row lib i sqlite_blob active id now)
    pub payload : find id d.payloads ≡ some i.ciphertext
    pub secret : created_secret i id x.management_token now ≡ x

  create-IsStored :
      (fails : Faults Stmt) (i : CreateInput) (id : String) (raw : Option Bytes) (now : ℕ) (d : Db)
      (x : Secret)
      → (create lib fails store i (some id) raw now d).0 ≡ ok x
      → IsStored (normalize i) id now (create lib fails store i (some id) raw now d).1 x
  unfolding create
  create-IsStored fails i id raw now d x = checked (validate_create lib store (normalize i)) refl
    where
      ran :
          validate_create lib store (normalize i) ≡ none
          → (p : Result Error Secret × TxState Db) → CreatedIfOk lib fails (normalize i) id now p
          → p.0 ≡ ok x
          → IsStored (normalize i) id now p.1.committed x
      ran v (ok y, t) c e = record {
        valid = v;
        row = c.0;
        payload = c.1;
        secret = subst (λ z. created_secret (normalize i) id z.management_token now ≡ z) (cc e) c.2;
      }
      ran v (err y, t) c e = absurd (cc e)

      begun :
          (b : Bool)
          → validate_create lib store (normalize i) ≡ none
          → (transact b failure (create_tx lib fails (normalize i) id raw now) d).0 ≡ ok x
          → IsStored
              (normalize i)
              id
              now
              (transact b failure (create_tx lib fails (normalize i) id raw now) d).1
              x
      begun true v e = absurd (cc e)
      begun false v e = ran v _ (create_tx-Created lib fails (normalize i) id raw now _) e

      checked :
          (o : Option Error)
          → validate_create lib store (normalize i) ≡ o
          → (create_checked lib fails store (normalize i) o (some id) raw now d).0 ≡ ok x
          → IsStored
              (normalize i)
              id
              now
              (create_checked lib fails store (normalize i) o (some id) raw now d).1
              x
      checked (some y) v e = absurd (cc e)
      checked none v e = begun (fails begin_tx) v e

  -- The row and the payload of a new secret hold what Create returns.
  delivery-created :
      (i : CreateInput) (id token : String) (now : ℕ)
      → validate_create lib store i ≡ none
      → delivery (
          secret_of lib id
            (new_row lib i sqlite_blob active id now)
            (some i.ciphertext)
            (if i.access_proof_hash == "" then none else some i.access_kdf))
        ≡ delivery (created_secret i id token now)
  unfolding new_row created_secret model_a_columns expiry
  delivery-created i id token now v =
      ground (arith, valid-same lib store i (valid-access lib store i v))

  proof_of_created :
      (i : CreateInput) (id : String) (now : ℕ) (kdf : Option KdfParams)
      → (let s =
            secret_of lib id (new_row lib i sqlite_blob active id now) (some i.ciphertext) kdf in
          s.access_proof_hash == "" || s.access_proof_hash == i.access_proof_hash)
        ≡ true
  unfolding new_row model_a_columns
  proof_of_created i id now kdf = elim (Bool-cases (i.access_proof_hash == "")) [
    | inl y ↦ rw y refl
    | inr n ↦ rw (n, (string_eq.same_iff i.access_proof_hash i.access_proof_hash).1 refl, n) refl
  ]

  stored-opens :
      (i : CreateInput) (id : String) (now t : ℕ) (object : Option (Bytes × ℕ)) (after : ℕ)
      (lock job : NewJob) (job_id : String) (d : Db) (x : Secret)
      → lib.unmarshal_kdf (lib.marshal_kdf i.access_kdf) ≡ some i.access_kdf
      → IsStored i id now d x
      → store.has_outbox ≡ true
      → job.id ≡ some job_id
      → is_blank job_id ≡ false
      → find job_id d.outbox ≡ none
      → is_blank id ≡ false
      → ltb t (expiry i now) ≡ true
      → ltb after (expiry i now) ≡ true
      → delivered_by
          (open_and_enqueue_cleanup lib no_faults store id i.access_proof_hash t object after lock
            job d).0
        ≡ ok (delivery (created_secret i id x.management_token now))
  unfolding new_row
  stored-opens i id now t object after lock job job_id d x json s o j jb unused ib live still =
      let row = new_row lib i sqlite_blob active id now in
      let kdf = if i.access_proof_hash == "" then none else some i.access_kdf in
      let loaded = load_row-created lib store i id now json s.valid in
      rw
        (
          open-writes lib store id i.access_proof_hash t object after lock job job_id d row
              (secret_of lib id row (some i.ciphertext) kdf, none) o j jb unused ib s.row
              (rw (s.payload) loaded) refl refl live still (proof_of_created i id now kdf),
          delivery-created i id x.management_token now s.valid,
        )
        refl

  -- What a sender creates, a recipient who knows the access proof gets, while the secret has not
  -- expired: the ciphertext, the wrapped identity, the encrypted filename, the content type, the
  -- parameters of the access key and the sizes are those that Create returned. The driver fails
  -- no statement of the opening, there is an outbox, JSON reads back the parameters that it wrote, no id
  -- is blank, and no job has the new job's id. The parameters are compared where there is a
  -- wrapped identity.
  pub create-open :
      (fails : Faults Stmt) (i : CreateInput) (id : String) (raw : Option Bytes) (now t : ℕ)
      (object : Option (Bytes × ℕ)) (after : ℕ) (lock job : NewJob) (job_id : String) (d : Db)
      (x : Secret)
      → lib.unmarshal_kdf (lib.marshal_kdf i.access_kdf) ≡ some i.access_kdf
      → (create lib fails store i (some id) raw now d).0 ≡ ok x
      → store.has_outbox ≡ true
      → job.id ≡ some job_id
      → is_blank job_id ≡ false
      → find job_id (create lib fails store i (some id) raw now d).1.outbox ≡ none
      → is_blank id ≡ false
      → ltb t (expiry i now) ≡ true
      → ltb after (expiry i now) ≡ true
      → delivered_by
          (open_and_enqueue_cleanup lib no_faults store id i.access_proof_hash t object after lock
            job
            (create lib fails store i (some id) raw now d).1).0
        ≡ ok (delivery x)
  unfolding normalize expiry
  create-open fails i id raw now t object after lock job job_id d x json e o j jb unused ib live
        still =
      let d1 = (create lib fails store i (some id) raw now d).1 in
      let s = create-IsStored fails i id raw now d x e in
      subst
        (λ y.
          delivered_by
            (open_and_enqueue_cleanup lib no_faults store id i.access_proof_hash t object after lock
              job d1).0
          ≡ ok (delivery y))
        s.secret
        (stored-opens (normalize i) id now t object after lock job job_id d1 x json s o j jb unused
          ib live still)

-- ===== src/Secrets/Created.antt =====
-- What Create of internal/secrets/store.go leaves in the tables.
use flick_drop.Base.{
  ℕ, ◌≡◌, refl, String, Bool, true, false, not, ◌||◌, Option, none, some, ◌==◌, string_eq, arith,
  [], ◌∷◌, nat_beq, if◌then◌else◌, find, find-insert, length,
}
use flick_drop.Sql.{Faults, Result, ok, err, TxState}
use flick_drop.Secrets.Tables.{
  sqlite_blob, active, Db, is_some, insert_secret, insert_payload, insert_management,
}
use flick_drop.Secrets.Types.{
  Error, unsupported_kind, invalid_input, unsupported_views, payload_too_large, Bytes, Secret, Stmt,
  Store, Library, CreateInput,
}
use flick_drop.Secrets.Load.{load_row, secret_of}
use flick_drop.Secrets.Validate.{
  validate_create, validate_common, valid_access, valid_names, has_prefix, age_magic, same_bool,
  has_proof,
}
use flick_drop.Secrets.Create.{
  new_row, model_a_columns, created_secret, create_management, create_tx,
}

module _ (lib : Library) (fails : Faults Stmt) where
  -- A creation that has committed its rows.
  abbrev pub CreatedIfOk : CreateInput → String → ℕ → Result Error Secret × TxState Db → Type 0
  CreatedIfOk i id now (ok x, t) =
      (find id t.committed.secrets ≡ some (new_row lib i sqlite_blob active id now))
      × (find id t.committed.payloads ≡ some i.ciphertext)
      × (created_secret i id x.management_token now ≡ x)
  CreatedIfOk i id now (err e, t) = Unit {0}

  pub create_tx-Created :
      (i : CreateInput) (id : String) (raw : Option Bytes) (now : ℕ) (s : TxState Db)
      → CreatedIfOk i id now (create_tx lib fails i id raw now s)
  unfolding create_tx create_management insert_secret insert_payload insert_management
      created_secret
  create_tx-Created i id none now s = ground arith
  create_tx-Created i id (some raw) now s = ground (
    arith,
    string_eq.same_iff id id,
    find-insert id id (new_row lib i sqlite_blob active id now) s.working.secrets,
    find-insert id id i.ciphertext s.working.payloads,
  )

module _ (lib : Library) (store : Store) where
  passed :
      (b : Bool) (e : Error) (x : Option Error)
      → (if b then some e else x) ≡ none
      → (b ≡ false) × (x ≡ none)
  passed true e x h = absurd (cc h)
  passed false e x h = (refl, h)

  common-access : (i : CreateInput) → validate_common lib store i ≡ none → valid_access lib i ≡ true
  unfolding validate_common
  common-access i h =
      let kinds = passed _ unsupported_kind _ h in
      let ttl = passed _ invalid_input _ kinds.1 in
      let views = passed _ unsupported_views _ ttl.1 in
      both (valid_access lib i) (valid_names lib i) (passed _ invalid_input _ views.1).0
    where
      both : (a b : Bool) → (not a || not b) ≡ false → a ≡ true
      both true b h = refl
      both false b h = absurd (cc h)

  pub valid-access :
      (i : CreateInput) → validate_create lib store i ≡ none → valid_access lib i ≡ true
  unfolding validate_create
  valid-access i h =
      let size = passed _ payload_too_large _ h in
      common-access i (passed _ invalid_input _ size.1).1

  valid-prefix :
      (i : CreateInput)
      → validate_create lib store i ≡ none
      → has_prefix i.ciphertext age_magic ≡ true
  unfolding validate_create validate_common
  valid-prefix i h = ground (arith, h)

  prefix-length : (b : Bytes) → has_prefix b age_magic ≡ true → nat_beq (length b) 0 ≡ false
  prefix-length [] h = absurd (cc h)
  prefix-length (x ∷ b) h = ground arith

  pub valid-same :
      (i : CreateInput)
      → valid_access lib i ≡ true
      → same_bool (has_proof i) (is_some i.wrapped_identity) ≡ true
  unfolding valid_access
  valid-same i h = ground (arith, h)

  -- What load reads of a secret that Create has stored.
  pub load_row-created :
      (i : CreateInput) (id : String) (now : ℕ)
      → lib.unmarshal_kdf (lib.marshal_kdf i.access_kdf) ≡ some i.access_kdf
      → validate_create lib store i ≡ none
      → load_row lib id (some (new_row lib i sqlite_blob active id now)) (some i.ciphertext)
        ≡ ok (
          secret_of lib id
              (new_row lib i sqlite_blob active id now)
              (some i.ciphertext)
              (if i.access_proof_hash == "" then none else some i.access_kdf),
          none,
        )
  unfolding load_row new_row model_a_columns
  load_row-created i id now json h =
      ground (
        arith,
        prefix-length i.ciphertext (valid-prefix i h),
        valid-same i (valid-access i h),
        json,
      )

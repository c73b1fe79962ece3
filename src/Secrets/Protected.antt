-- ===== src/Secrets/Protected.antt =====
-- The reconciliation of stored objects and an object that a live row holds.
use flick_drop.Base.{
  ℕ, ◌+◌, ◌≡◌, refl, String, Bool, true, false, not, ◌&&◌, ◌||◌, Option, none, some, List, [], ◌∷◌,
  ◌==◌, string_eq, arith, if◌then◌else◌, find, find-insert, nat_beq, ltb, Bool-cases, inl, inr,
}
use flick_drop.Sql.{Faults, Result, ok, err, TxState, transact, continue, query, pure, ◌>>=◌}
use flick_drop.Sql.Keeps.{
  Keeps, Holds, Keeps-bind, Keeps-if, Keeps-pure, keeps_rules, transact-Keeps, if-keeps,
}
use flick_drop.Jobs.{JobEvent}
use flick_drop.Outbox.{OutboxRecord}
use flick_drop.Secrets.Tables.{Db, SecretRow, is_pending, insert_job}
use flick_drop.Secrets.Types.{
  Stmt, failure, begin_tx, load_live, reset_cursor, Store, Library, NewJob, ListError,
  invalid_cursor, list_failed, ObjectPage,
}
use flick_drop.Secrets.Access.{enqueue_event, enqueue_object_delete}
use flick_drop.Secrets.Reconcile.{
  set_cursor, claim_key, find_object, protects, protect_object, claim_new, claim_with, claim_unless,
  reconcile_key, reconcile_keys, reconcile_page, reconcile_tx, reset_listing, after_listing,
  is_managed_key, is_too_long,
}

-- A row that needs its object: its secret can be opened, or its upload completed, or its body may still
-- be streaming, for 35 minutes after the opening.
abbrev pub needs_object : ℕ → ℕ → SecretRow → Bool
needs_object now ttl r = elim r.consumed_at [
  | none ↦ ltb now r.expires_at && (not (is_pending r.state) || ltb now (r.created_at + ttl))
  | some opened ↦ ltb now (opened + 2100000000000)
]

protects-needed :
    (now ttl : ℕ) (o : Option SecretRow) (r : SecretRow)
    → o ≡ some r
    → needs_object now ttl r ≡ true
    → protects now ttl o ≡ true
unfolding protects
protects-needed now ttl o r e h = ground (arith, e, h)

module _ (rows : List (String × SecretRow)) (key : String) (claim : Option String) where
  -- The secrets are the same, and so is the claim on the object.
  abbrev IsUnclaimed : Db → Type 0
  IsUnclaimed d = (d.secrets ≡ rows) × (find key d.pending ≡ claim)

  claim_key-IsUnclaimed :
      (k job_id : String) (d : Db)
      → (k == key) ≡ false
      → IsUnclaimed d
      → IsUnclaimed (claim_key k job_id d)
  unfolding claim_key
  claim_key-IsUnclaimed k job_id d n h = rw (find-insert k key job_id d.pending, n) h

  set_cursor-IsUnclaimed :
      (token : String) (d : Db) → IsUnclaimed d → IsUnclaimed (set_cursor token d)
  unfolding set_cursor
  set_cursor-IsUnclaimed token d h = h

  insert_job-IsUnclaimed :
      (j : String) (x : OutboxRecord) (d : Db) → IsUnclaimed d → IsUnclaimed (insert_job j x d)
  unfolding insert_job
  insert_job-IsUnclaimed j x d h = h

  module _ (lib : Library) (fails : Faults Stmt) (store : Store) where
    enqueues : (e : JobEvent) (now : ℕ) → Keeps IsUnclaimed (enqueue_event lib fails store e now)
    unfolding enqueue_event
    enqueues e now = search (keeps_rules, insert_job-IsUnclaimed)

    enqueues_delete :
        (k reason : String) (now : ℕ) (job : NewJob)
        → Keeps IsUnclaimed (enqueue_object_delete lib fails store k reason now job)
    unfolding enqueue_object_delete
    enqueues_delete k reason now job = go job.id
      where
        go :
            (o : Option String)
            → Keeps IsUnclaimed
                (enqueue_object_delete lib fails store k reason now (record job { id = o }))
        go none = search keeps_rules
        go (some i) = search (keeps_rules, enqueues)

    claims_new :
        (k : String) (now : ℕ) (job : NewJob) (b : Bool)
        → Keeps IsUnclaimed (claim_new lib fails store k now job b)
    claims_new k now job false = record { at = λ s h. h }
    claims_new k now job true = search (keeps_rules, enqueues_delete)

    claims_other :
        (k : String) (now : ℕ) (job : NewJob) (o : Option String)
        → (k == key) ≡ false
        → Keeps IsUnclaimed (claim_with lib fails store k now job o)
    claims_other k now job none n = record { at = λ s h. h }
    claims_other k now job (some id) n =
        search (keeps_rules, claim_key-IsUnclaimed, claims_new, n) depth 9

    claims_unless :
        (b : Bool) (k : String) (now : ℕ) (job : NewJob)
        → (k == key) ≡ false
        → Keeps IsUnclaimed (claim_unless lib fails store b k now job)
    claims_unless true k now job n = record { at = λ s h. h }
    claims_unless false k now job n = claims_other k now job job.id n

    protects_key : (k : String) (now : ℕ) → Keeps IsUnclaimed (protect_object fails store k now)
    unfolding protect_object
    protects_key k now = search keeps_rules

    module _ (now : ℕ) (live : protects now store.pending_ttl (find_object key rows) ≡ true) where
      -- The object itself is found to be live.
      spares :
          (job : NewJob) (s : TxState Db)
          → Holds IsUnclaimed s
          → Holds IsUnclaimed
              (continue
                (protect_object fails store key now s).0
                (λ b. claim_unless lib fails store b key now job)
                (protect_object fails store key now s).1).1
      unfolding protect_object
      spares job s h = go (fails load_live) h
        where
          found :
              s.working.secrets ≡ rows
              → protects now store.pending_ttl (find_object key s.working.secrets) ≡ true
          found e = rw e live

          go :
              (b : Bool)
              → Holds IsUnclaimed s
              → Holds IsUnclaimed
                  (continue
                    (query b failure
                      (λ d. protects now store.pending_ttl (find_object key d.secrets))
                      s).0
                    (λ b. claim_unless lib fails store b key now job)
                    (query b failure
                      (λ d. protects now store.pending_ttl (find_object key d.secrets))
                      s).1).1
          go true h = h
          go false h = rw (found (h.working.0)) h

      reconciles_key :
          (k : String) (job : NewJob) → Keeps IsUnclaimed (reconcile_key lib fails store k now job)
      unfolding reconcile_key
      reconciles_key k job = elim (Bool-cases (k == key)) [
        | inl y ↦ rw ((string_eq.same_iff k key).0 y) (if_managed key (record { at = spares job }))
        | inr n ↦ if_managed k (
            Keeps-bind (protect_object fails store k now)
              (λ b. claim_unless lib fails store b k now job) protects_any
              (λ b. claims_unless b k now job n))
      ]
        where
          protects_any : Keeps IsUnclaimed (protect_object fails store k now)
          protects_any = protects_key k now

          if_managed :
              (j : String)
              → Keeps IsUnclaimed (
                  protect_object fails store j now >>= λ b.
                  claim_unless lib fails store b j now job)
              → Keeps IsUnclaimed (
                  if is_managed_key j
                  then (protect_object fails store j now >>= λ b.
                      claim_unless lib fails store b j now job)
                  else pure 0)
          if_managed j h = Keeps-if (is_managed_key j) _ _ h (Keeps-pure 0)

      reconciles_keys :
          (keys : List String) (jobs : String → NewJob)
          → Keeps IsUnclaimed (reconcile_keys lib fails store keys now jobs)
      unfolding reconcile_keys
      reconciles_keys [] jobs = search keeps_rules
      reconciles_keys (k ∷ keys) jobs =
          Keeps-bind (reconcile_key lib fails store k now (jobs k)) _ (reconciles_key k (jobs k))
            λ n.
              Keeps-bind (reconcile_keys lib fails store keys now jobs) _
                (reconciles_keys keys jobs) λ m. Keeps-pure (n + m)

      reconciles_page :
          (b : Bool) (page : ObjectPage) (jobs : String → NewJob)
          → Keeps IsUnclaimed (reconcile_page lib fails store b page now jobs)
      reconciles_page false page jobs = record { at = λ s h. h }
      reconciles_page true page jobs = search (keeps_rules, reconciles_keys)

      reconciles :
          (page : ObjectPage) (generation : ℕ) (jobs : String → NewJob)
          → Keeps IsUnclaimed (reconcile_tx lib fails store page generation now jobs)
      unfolding reconcile_tx
      reconciles page generation jobs = search (keeps_rules, reconciles_page) depth 9

after_listing-protected :
    (lib : Library) (fails : Faults Stmt) (store : Store) (page : Result ListError ObjectPage)
    (limit : ℕ) (cursor : String) (generation now : ℕ) (jobs : String → NewJob) (d : Db)
    (key : String)
    → protects now store.pending_ttl (find_object key d.secrets) ≡ true
    → let e = (after_listing lib fails store page limit cursor generation now jobs d).1 in
      (e.secrets ≡ d.secrets) × (find key e.pending ≡ find key d.pending)
unfolding after_listing
after_listing-protected lib fails store (err list_failed) limit cursor generation now jobs d key h =
    (refl, refl)
after_listing-protected lib fails store (err invalid_cursor) limit cursor generation now jobs d key
      h =
    reset (not (cursor == ""))
  where
    reset :
        (b : Bool)
        → IsUnclaimed d.secrets key (find key d.pending) (reset_listing fails b generation d)
    reset false = (refl, refl)
    reset true = go (nat_beq d.cursor.generation generation && not (fails reset_cursor))
      where
        go :
            (b : Bool)
            → IsUnclaimed d.secrets key (find key d.pending) (if b then set_cursor "" d else d)
        go false = (refl, refl)
        go true = set_cursor-IsUnclaimed d.secrets key (find key d.pending) "" d (refl, refl)
after_listing-protected lib fails store (ok page) limit cursor generation now jobs d key h =
    if-keeps (IsUnclaimed d.secrets key (find key d.pending))
      (is_too_long limit page || not (page.next_cursor == "") && page.next_cursor == cursor)
      (err failure, d)
      (transact (fails begin_tx) failure (reconcile_tx lib fails store page generation now jobs) d)
      (refl, refl)
      (transact-Keeps _ _ _ d
        (reconciles d.secrets key (find key d.pending) lib fails store now h page generation jobs)
        (refl, refl))

-- Reconciliation spares the object of a row that needs it: where the row is live, or was consumed within
-- the time that a body may stream, the object is not claimed for deletion and no row changes, whatever
-- page of the bucket was listed and whichever statements the driver failed.
pub after_listing-protects :
    (lib : Library) (fails : Faults Stmt) (store : Store) (page : Result ListError ObjectPage)
    (limit : ℕ) (cursor : String) (generation now : ℕ) (jobs : String → NewJob) (d : Db)
    (key : String) (r : SecretRow)
    → find_object key d.secrets ≡ some r
    → needs_object now store.pending_ttl r ≡ true
    → let e = (after_listing lib fails store page limit cursor generation now jobs d).1 in
      (e.secrets ≡ d.secrets) × (find key e.pending ≡ find key d.pending)
after_listing-protects lib fails store page limit cursor generation now jobs d key r f h =
    after_listing-protected lib fails store page limit cursor generation now jobs d key
      (protects-needed now store.pending_ttl (find_object key d.secrets) r f h)

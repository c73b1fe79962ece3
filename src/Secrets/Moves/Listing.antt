-- ===== src/Secrets/Moves/Listing.antt =====
-- The reconciliation of objects makes only moves.
use flick_drop.Base.{
  ℕ, String, Bool, true, false, Option, none, some, List, [], ◌∷◌, if◌then◌else◌, ◌==◌, string_eq,
  not, ◌&&◌, ◌||◌, nat_beq, find, ◌+◌, erase,
}
use flick_drop.Sql.{Faults, transact, Result, ok, err}
use flick_drop.Sql.Keeps.{Keeps, keeps_rules, Keeps-bind, Keeps-pure, transact-Keeps, if-keeps}
use flick_drop.Jobs.{is_blank}
use flick_drop.Secrets.Tables.{Db}
use flick_drop.Secrets.Types.{
  Stmt, Store, Library, NewJob, ListError, ObjectPage, invalid_cursor, list_failed, failure,
  invalid_input, clear_claim, read_cursor, reset_cursor, begin_tx,
}
use flick_drop.Secrets.Access.{enqueue_object_delete}
use flick_drop.Secrets.Reconcile.{
  set_cursor, claim_key, claim_new, claim_with, claim_unless, reconcile_key, reconcile_keys,
  reconcile_page, reconcile_tx, reset_listing, after_listing, reconcile_once,
  acknowledge_object_cleanup, has_claim, smaller, is_managed_key, is_too_long,
}
use flick_drop.Secrets.Moves.{Move, IsClosed}
use flick_drop.Secrets.Moves.Opening.{enqueue_object_delete-Keeps}

module _ (may_create : String → Bool) (P : Db → Type 0) (closed : IsClosed may_create P)
    (fails : Faults Stmt) (lib : Library) (store : Store) where
  enqueues :
      (key reason : String) (now : ℕ) (job : NewJob)
      → Keeps P (enqueue_object_delete lib fails store key reason now job)
  enqueues = enqueue_object_delete-Keeps may_create P closed fails lib store

  set_cursor-closed : (token : String) (d : Db) → P d → P (set_cursor token d)
  unfolding set_cursor
  set_cursor-closed token d p = closed d _ (Move.lists _ d) p

  claim_key-closed : (key job_id : String) (d : Db) → P d → P (claim_key key job_id d)
  unfolding claim_key
  claim_key-closed key job_id d p = closed d _ (Move.marks _ d) p

  claim_new-Keeps :
      (key : String) (now : ℕ) (job : NewJob) (b : Bool)
      → Keeps P (claim_new lib fails store key now job b)
  claim_new-Keeps key now job false = search keeps_rules
  claim_new-Keeps key now job true = search (keeps_rules, enqueues)

  claim_with-Keeps :
      (key : String) (now : ℕ) (job : NewJob) (o : Option String)
      → Keeps P (claim_with lib fails store key now job o)
  claim_with-Keeps key now job none = search keeps_rules
  claim_with-Keeps key now job (some id) =
      search (keeps_rules, claim_key-closed, claim_new-Keeps) depth 9

  claim_unless-Keeps :
      (b : Bool) (key : String) (now : ℕ) (job : NewJob)
      → Keeps P (claim_unless lib fails store b key now job)
  claim_unless-Keeps true key now job = search keeps_rules
  claim_unless-Keeps false key now job = claim_with-Keeps key now job job.id

  reconcile_key-Keeps :
      (key : String) (now : ℕ) (job : NewJob) → Keeps P (reconcile_key lib fails store key now job)
  unfolding reconcile_key
  reconcile_key-Keeps key now job = search (keeps_rules, claim_unless-Keeps)

  reconcile_keys-Keeps :
      (keys : List String) (now : ℕ) (jobs : String → NewJob)
      → Keeps P (reconcile_keys lib fails store keys now jobs)
  unfolding reconcile_keys
  reconcile_keys-Keeps [] now jobs = search keeps_rules
  reconcile_keys-Keeps (key ∷ keys) now jobs =
      Keeps-bind (reconcile_key lib fails store key now (jobs key)) _
        (reconcile_key-Keeps key now (jobs key))
        λ n.
          Keeps-bind (reconcile_keys lib fails store keys now jobs) _
            (reconcile_keys-Keeps keys now jobs) λ m. Keeps-pure (n + m)

  reconcile_page-Keeps :
      (b : Bool) (page : ObjectPage) (now : ℕ) (jobs : String → NewJob)
      → Keeps P (reconcile_page lib fails store b page now jobs)
  reconcile_page-Keeps false page now jobs = search keeps_rules
  reconcile_page-Keeps true page now jobs = search (keeps_rules, reconcile_keys-Keeps)

  reconcile_tx-Keeps :
      (page : ObjectPage) (generation now : ℕ) (jobs : String → NewJob)
      → Keeps P (reconcile_tx lib fails store page generation now jobs)
  unfolding reconcile_tx
  reconcile_tx-Keeps page generation now jobs =
      search (keeps_rules, set_cursor-closed, reconcile_page-Keeps) depth 9

  reset_listing-closed :
      (b : Bool) (generation : ℕ) (d : Db) → P d → P (reset_listing fails b generation d)
  reset_listing-closed false generation d p = p
  reset_listing-closed true generation d p =
      go (nat_beq d.cursor.generation generation && not (fails reset_cursor))
    where
      go : (b : Bool) → P (if b then set_cursor "" d else d)
      go true = set_cursor-closed "" d p
      go false = p

  pub after_listing-keeps :
      (r : Result ListError ObjectPage) (limit : ℕ) (cursor : String) (generation now : ℕ)
      (jobs : String → NewJob) (d : Db)
      → P d
      → P (after_listing lib fails store r limit cursor generation now jobs d).1
  unfolding after_listing
  after_listing-keeps (err invalid_cursor) limit cursor generation now jobs d p =
      reset_listing-closed _ generation d p
  after_listing-keeps (err list_failed) limit cursor generation now jobs d p = p
  after_listing-keeps (ok page) limit cursor generation now jobs d p =
      if-keeps P
        (is_too_long limit page || not (page.next_cursor == "") && page.next_cursor == cursor)
        (err failure, d)
        (transact (fails begin_tx) failure (reconcile_tx lib fails store page generation now jobs)
          d)
        p (transact-Keeps _ _ _ d (reconcile_tx-Keeps page generation now jobs) p)

  pub reconcile_once-keeps :
      (batch : ℕ) (list : String → ℕ → Result ListError ObjectPage) (others : Db → Db) (now : ℕ)
      (jobs : String → NewJob) (d : Db)
      → P d
      → P (others d)
      → P (reconcile_once lib fails store batch list others now jobs d).1
  unfolding reconcile_once
  reconcile_once-keeps batch list others now jobs d p q =
      let limit = smaller batch 1000 in
      let token = d.cursor.continuation_token in
      let rest =
        after_listing lib fails store (list token limit) limit token d.cursor.generation now jobs
          (others d) in
      if-keeps P (not store.has_objects) (ok 0, d)
        (if fails read_cursor then (err failure, d) else rest) p
        (if-keeps P (fails read_cursor) (err failure, d) rest p
          (after_listing-keeps (list token limit) limit token d.cursor.generation now jobs
            (others d) q))

  pub acknowledge-keeps :
      (job_id key : String) (d : Db) → P d → P (acknowledge_object_cleanup fails job_id key d).1
  unfolding acknowledge_object_cleanup
  acknowledge-keeps job_id key d p =
      let held = has_claim job_id (find key d.pending) in
      let cleared = record d { pending = erase key d.pending } in
      let after = if held then (ok tt, cleared) else (ok tt, d) in
      if-keeps P (is_blank job_id || not (is_managed_key key)) (err invalid_input, d)
        (if fails clear_claim then (err failure, d) else after) p
        (if-keeps P (fails clear_claim) (err failure, d) after p
          (if-keeps P held (ok tt, cleared) (ok tt, d) (closed d _ (Move.marks _ d) p) p))

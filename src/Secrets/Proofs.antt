-- ===== src/Secrets/Proofs.antt =====
-- Opening a secret that asks for an access proof.
use flick_drop.Base.{
  ℕ, ◌≡◌, refl, String, Bool, true, false, not, ◌&&◌, Option, none, some, ◌==◌, string_eq, arith,
  if◌then◌else◌, find, inl, inr,
}
use flick_drop.Sql.{Faults, Result, Result-cases, ok, err, is_ok, TxState, Tx, continue, throw}
use flick_drop.Secrets.Tables.{Db, SecretRow}
use flick_drop.Secrets.Types.{
  Error, invalid_access, failure, begin_tx, Bytes, NewJob, Secret, Stmt, Store, Library,
}
use flick_drop.Secrets.Load.{load_row}
use flick_drop.Secrets.Access.{record_failed_access}
use flick_drop.Secrets.Open.{
  check_access, open_live, open_tx, open_cleanup_tx, open_with, open_and_enqueue_cleanup,
}
use flick_drop.Secrets.Loaded.{IsLoaded, load_row-IsLoaded}
use flick_drop.Secrets.Once.{conclude-fails, transact-fails}

module _ (lib : Library) (fails : Faults Stmt) (store : Store) where
  bind-fails :
      {A B : Type 0} (p : Result Error A × TxState Db) (f : A → Tx Error Db B)
      → is_ok p.0 ≡ false
      → is_ok (continue p.0 f p.1).0 ≡ false
  bind-fails (ok a, t) f h = absurd (cc h)
  bind-fails (err e, t) f h = refl

  throw-fails :
      {A : Type 0} (p : Result Error A × TxState Db) (e : Error)
      → is_ok (continue p.0 (λ _. throw {A = Unit {0}} e) p.1).0 ≡ false
  throw-fails (ok a, t) e = refl
  throw-fails (err x, t) e = refl

  check_access-fails :
      (id proof : String) (now : ℕ) (job : NewJob) (x : Secret) (s : TxState Db)
      → not (x.access_proof_hash == "") && not (x.access_proof_hash == proof) ≡ true
      → is_ok (check_access lib fails store id proof now job x s).0 ≡ false
  unfolding check_access
  check_access-fails id proof now job x s h = rw h (
      throw-fails
        (record_failed_access lib fails store id x.storage_backend x.storage_key now job s)
        invalid_access)

  open_live-fails :
      (id proof : String) (now : ℕ) (object : Option (Bytes × ℕ)) (after : ℕ) (job : NewJob)
      (x : Secret) (s : TxState Db)
      → not (x.access_proof_hash == "") && not (x.access_proof_hash == proof) ≡ true
      → is_ok (open_live lib fails store id proof now object after job x s).0 ≡ false
  unfolding open_live
  open_live-fails id proof now object after job x s h =
      bind-fails (check_access lib fails store id proof now job x s) _
        (check_access-fails id proof now job x s h)

  -- The proof that a loaded secret asks for is its row's.
  loaded-proof :
      (id : String) (r : SecretRow) (payload : Option Bytes) (p : Secret × Option ℕ) (h : String)
      → IsLoaded lib id r payload p
      → r.access_proof_hash ≡ some h
      → p.0.access_proof_hash ≡ h
  loaded-proof id r payload p h l e = rw (l.secret) (ground (arith, e, l.unmixed))

  open_tx-wrong :
      (id proof : String) (now : ℕ) (object : Option (Bytes × ℕ)) (after : ℕ) (job : NewJob)
      (s : TxState Db) (r : SecretRow) (h : String)
      → find id s.working.secrets ≡ some r
      → r.access_proof_hash ≡ some h
      → (h == "") ≡ false
      → (h == proof) ≡ false
      → is_ok (open_tx lib fails store id proof now object after job s).0 ≡ false
  unfolding open_tx
  open_tx-wrong id proof now object after job s r h f e b n =
      elim (Result-cases (load_row lib id (some r) (find id s.working.payloads))) [
        | inl (x, l) ↦ ground (arith, f, l)
        | inr (p, l) ↦ ground (
          arith,
          f,
          l,
          open_live-fails id proof now object after job p.0 s
              (wrong p (load_row-IsLoaded lib id r _ p l)),
        )
      ]
    where
      wrong :
          (p : Secret × Option ℕ)
          → IsLoaded lib id r (find id s.working.payloads) p
          → not (p.0.access_proof_hash == "") && not (p.0.access_proof_hash == proof) ≡ true
      wrong p l = rw (loaded-proof id r _ p h l e) (ground (arith, b, n))

  -- A wrong access proof never opens a secret, whichever statements the driver fails.
  pub wrong_proof-fails :
      (id proof : String) (now : ℕ) (object : Option (Bytes × ℕ)) (after : ℕ) (lock job : NewJob)
      (d : Db) (r : SecretRow) (h : String)
      → find id d.secrets ≡ some r
      → r.access_proof_hash ≡ some h
      → (h == "") ≡ false
      → (h == proof) ≡ false
      → is_ok (open_and_enqueue_cleanup lib fails store id proof now object after lock job d).0
        ≡ false
  unfolding open_and_enqueue_cleanup open_cleanup_tx
  wrong_proof-fails id proof now object after lock job d r h f e b n =
      guarded store.has_outbox job.id
    where
      guarded :
          (x : Bool) (o : Option String)
          → is_ok
              (if not x
                then (err failure, d)
                else open_with lib fails store id proof now object after lock o job d).0
            ≡ false
      guarded false o = refl
      guarded true none = refl
      guarded true (some job_id) =
          transact-fails lib fails store (fails begin_tx) failure
            (open_cleanup_tx lib fails store id proof now object after lock job_id job) d
            (conclude-fails lib fails store id job_id job _
              (open_tx-wrong id proof now object after lock _ r h f e b n))

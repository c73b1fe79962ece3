-- ===== src/Secrets/Reopened.antt =====
-- Opening a secret that was opened before.
use flick_drop.Base.{
  ℕ, suc, ◌≡◌, String, true, false, Option, some, ◌==◌, string_eq, arith, find, find-insert,
}
use flick_drop.Sql.{Result, ok, err}
use flick_drop.Secrets.Tables.{Db, SecretRow}
use flick_drop.Secrets.Types.{
  Error, consumed, Bytes, KdfParams, NewJob, Secret, Store, Library, no_faults,
}
use flick_drop.Secrets.Load.{load_row, decode_kdf, with_kdf}
use flick_drop.Secrets.Open.{open_tx, open_cleanup_tx, open_and_enqueue_cleanup}
use flick_drop.Secrets.After.{after_opening}

module _ (lib : Library) where
  abbrev opened_row : ℕ → SecretRow → SecretRow
  opened_row t r = record r { view_count = suc r.view_count; consumed_at = some t; updated_at = t }

  with_kdf-opened :
      (id : String) (t : ℕ) (r : SecretRow) (payload : Option Bytes)
      (k : Result Error (Option KdfParams)) (p : Secret × Option ℕ)
      → with_kdf lib id r payload k ≡ ok p
      → with_kdf lib id (opened_row t r) payload k ≡ ok (p.0, some t)
  with_kdf-opened id t r payload (err e) p h = absurd (cc h)
  with_kdf-opened id t r payload (ok kdf) p h = ground (arith, h)

  load_row-opened :
      (id : String) (t : ℕ) (r : SecretRow) (payload : Option Bytes) (p : Secret × Option ℕ)
      → load_row lib id (some r) payload ≡ ok p
      → load_row lib id (some (opened_row t r)) payload ≡ ok (p.0, some t)
  unfolding load_row
  load_row-opened id t r payload p h =
      ground (arith, h, with_kdf-opened id t r payload (decode_kdf lib r.access_kdf_params_json) p)

  -- After an opening of the secret of a row that could be loaded, any other opening is told that the
  -- secret is consumed.
  pub reopened :
      (store : Store) (id proof : String) (t now : ℕ) (object : Option (Bytes × ℕ)) (after : ℕ)
      (lock job : NewJob) (job_id next_id subject payload : String) (enqueued_at : ℕ) (d : Db)
      (r : SecretRow) (p : Secret × Option ℕ)
      → store.has_outbox ≡ true
      → job.id ≡ some next_id
      → (id == "") ≡ false
      → load_row lib id (some r) (find id d.payloads) ≡ ok p
      → (open_and_enqueue_cleanup lib no_faults store id proof now object after lock job
          (after_opening id t r job_id subject payload enqueued_at d)).0
        ≡ err consumed
  unfolding open_and_enqueue_cleanup open_cleanup_tx open_tx after_opening
  reopened store id proof t now object after lock job job_id next_id subject payload enqueued_at d r
        p o j i l =
      ground (
        arith,
        o,
        j,
        i,
        load_row-opened id t r (find id d.payloads) p l,
        find-insert id id (opened_row t r) d.secrets,
        string_eq.same_iff id id,
      )

-- ===== src/Secrets/Shut.antt =====
-- A secret whose row is consumed or gone is never opened again.
use flick_drop.Base.{◌≡◌, refl, String, false, some, string_eq, arith, find, Option-cases, inl, inr}
use flick_drop.Secrets.Tables.{
  Db, SecretRow, is_unconsumed, update_secret, insert_payload, delete_payload, insert_management,
}
use flick_drop.Secrets.Finalize.{activated}
use flick_drop.Secrets.Load.{touched}
use flick_drop.Secrets.Access.{failed_access}
use flick_drop.Secrets.Open.{viewed}
use flick_drop.Secrets.Reaper.{claimed}
use flick_drop.Secrets.Moves.{Move, IsClosed}
use flick_drop.Secrets.Rows.{
  find-update_secret, find-insert_secret, find-delete_secret_row, secrets-set_outcome,
}
use flick_drop.Secrets.Histories.{but}

abbrev pub IsShut : String → Db → Type 0
IsShut id d = is_unconsumed (find id d.secrets) ≡ false

updated-IsShut :
    (id j : String) (f : SecretRow → SecretRow) (d : Db)
    → IsShut j d
    → ((r : SecretRow) → is_unconsumed (some r) ≡ false → is_unconsumed (some (f r)) ≡ false)
    → IsShut j (update_secret id f d)
updated-IsShut id j f d h k =
    rw (find-update_secret id j f d) (elim (Option-cases (find id d.secrets)) [
      | inl n ↦ ground (arith, n, h)
      | inr (r, e) ↦ ground (arith, e, h, k r, string_eq.same_iff id j)
    ])

pub Move-IsShut : (j : String) → IsClosed (but j) (IsShut j)
unfolding insert_payload insert_management delete_payload activated touched claimed viewed
    failed_access
Move-IsShut j d e (Move.inserts id r d' m n u) h =
    rw (find-insert_secret id j r d) (ground (arith, h, m))
Move-IsShut j d e (Move.inserts_body id c d') h = h
Move-IsShut j d e (Move.inserts_management id m d' a b) h = h
Move-IsShut j d e (Move.activates id now d' a) h =
    updated-IsShut id j (activated now) d h (λ r k. k)
Move-IsShut j d e (Move.counts id now d' a) h =
    updated-IsShut id j (failed_access now) d h (λ r k. ground (arith, k))
Move-IsShut j d e (Move.views id now d' a) h = updated-IsShut id j (viewed now) d h (λ r k. refl)
Move-IsShut j d e (Move.touches id now d') h = updated-IsShut id j (touched now) d h (λ r k. k)
Move-IsShut j d e (Move.claims id now d') h = updated-IsShut id j (claimed now) d h (λ r k. k)
Move-IsShut j d e (Move.settles id o d') h = rw (secrets-set_outcome id o d) h
Move-IsShut j d e (Move.deletes_body id d') h = h
Move-IsShut j d e (Move.deletes id d') h = rw (find-delete_secret_row id j d) (ground (arith, h))
Move-IsShut j d e (Move.deletes_management id d') h = h
Move-IsShut j d e (Move.queues o d') h = h
Move-IsShut j d e (Move.marks p d') h = h
Move-IsShut j d e (Move.lists c d') h = h

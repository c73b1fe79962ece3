-- ===== src/Secrets/Sound.antt =====
-- Each row of `secrets` through every history: it is consumed by one opening or by five wrong proofs.
use flick_drop.Base.{
  ◌≡◌, refl, String, Bool, true, ◌&&◌, ◌||◌, Option, none, some, List, string_eq, arith, nat_beq,
  ltb, if◌then◌else◌, find, Option-cases, inl, inr, subst,
}
use flick_drop.Sql.{Faults}
use flick_drop.Secrets.Tables.{
  Db, SecretRow, is_some, update_secret, insert_payload, delete_payload, insert_management,
  empty_db,
}
use flick_drop.Secrets.Types.{Stmt, Store, Library}
use flick_drop.Secrets.Finalize.{activated}
use flick_drop.Secrets.Load.{touched}
use flick_drop.Secrets.Access.{failed_access}
use flick_drop.Secrets.Open.{viewed}
use flick_drop.Secrets.Reaper.{claimed}
use flick_drop.Secrets.Moves.{Move, IsClosed}
use flick_drop.Secrets.Rows.{
  find-update_secret, find-insert_secret, find-delete_secret_row, secrets-set_outcome,
}
use flick_drop.Secrets.Calls.{Call, run}
use flick_drop.Secrets.Histories.{any_id, run-keeps}

-- Viewed once and not locked, or locked and never viewed, if it is consumed; else neither.
abbrev pub is_sound : SecretRow → Bool
is_sound r =
    if is_some r.consumed_at
    then nat_beq r.view_count 1 && ltb r.failed_access_count 5
      || nat_beq r.view_count 0 && nat_beq r.failed_access_count 5
    else nat_beq r.view_count 0 && ltb r.failed_access_count 5

abbrev pub sound_or_absent : Option SecretRow → Bool
sound_or_absent none = true
sound_or_absent (some r) = is_sound r

abbrev pub AllSound : Db → Type 0
AllSound d = (id : String) → sound_or_absent (find id d.secrets) ≡ true

updated_sound :
    (id : String) (f : SecretRow → SecretRow) (d : Db)
    → AllSound d
    → ((r : SecretRow) → find id d.secrets ≡ some r → is_sound r ≡ true → is_sound (f r) ≡ true)
    → AllSound (update_secret id f d)
updated_sound id f d h k j =
    rw (find-update_secret id j f d) (elim (Option-cases (find id d.secrets)) [
      | inl n ↦ ground (arith, n, h j)
      | inr (r, e) ↦ ground (arith, e, h j, h id, k r e)
    ])

Move-AllSound : IsClosed any_id AllSound
unfolding insert_payload insert_management delete_payload activated touched claimed viewed
    failed_access
Move-AllSound d e (Move.inserts id r d' m n u) h j =
    rw (find-insert_secret id j r d) (ground (arith, h j, u))
Move-AllSound d e (Move.inserts_body id c d') h j = h j
Move-AllSound d e (Move.inserts_management id m d' a b) h j = h j
Move-AllSound d e (Move.activates id now d' a) h j =
    updated_sound id (activated now) d h (λ r e k. k) j
Move-AllSound d e (Move.counts id now d' a) h j =
    updated_sound id (failed_access now) d h (λ r e k. ground (arith, e, k, a)) j
Move-AllSound d e (Move.views id now d' a) h j =
    updated_sound id (viewed now) d h (λ r e k. ground (arith, e, k, a)) j
Move-AllSound d e (Move.touches id now d') h j = updated_sound id (touched now) d h (λ r e k. k) j
Move-AllSound d e (Move.claims id now d') h j = updated_sound id (claimed now) d h (λ r e k. k) j
Move-AllSound d e (Move.settles id o d') h j = rw (secrets-set_outcome id o d) (h j)
Move-AllSound d e (Move.deletes_body id d') h j = h j
Move-AllSound d e (Move.deletes id d') h j =
    rw (find-delete_secret_row id j d) (ground (arith, h j))
Move-AllSound d e (Move.deletes_management id d') h j = h j
Move-AllSound d e (Move.queues o d') h j = h j
Move-AllSound d e (Move.marks p d') h j = h j
Move-AllSound d e (Move.lists c d') h j = h j

empty-AllSound : AllSound empty_db
unfolding empty_db find
empty-AllSound id = refl

-- After any history of calls from the empty tables, whichever statements the driver failed, each row
-- of a secret is consumed in one of two ways, viewed once after fewer than five wrong proofs or
-- never viewed and locked by five, or it is not consumed, never viewed and has fewer than five.
pub run-is_sound :
    (lib : Library) (store : Store) (calls : List (Faults Stmt × Call)) (id : String)
    (r : SecretRow)
    → find id (run lib store calls empty_db).secrets ≡ some r
    → is_sound r ≡ true
run-is_sound lib store calls id r e =
    subst (λ o. sound_or_absent o ≡ true) e
      (run-keeps lib store AllSound Move-AllSound calls empty_db empty-AllSound id)

-- ===== src/Secrets/Outcomes.antt =====
-- The outcome of a delivery in `secret_management`, through every history.
use flick_drop.Base.{
  ◌≡◌, String, Bool, true, false, Option, none, some, List, [], ◌∷◌, string_eq, arith, find,
  find-insert, find-erase, Option-cases, inl, inr,
}
use flick_drop.Sql.{Faults}
use flick_drop.Secrets.Tables.{
  Outcome, opened, locked, cancelled, unavailable, Db, ManagementRow, insert_secret, insert_payload,
  delete_payload, delete_secret_row, insert_management,
}
use flick_drop.Secrets.Types.{Stmt, Store, Library}
use flick_drop.Secrets.Moves.{Move, IsClosed}
use flick_drop.Secrets.Rows.{settled, find-set_outcome, managements-update_secret}
use flick_drop.Secrets.Calls.{Call, perform, run, may_create_any}
use flick_drop.Secrets.Histories.{but, perform-keeps, Passes-but}

abbrev pub same_outcome : Outcome → Outcome → Bool
same_outcome opened opened = true
same_outcome locked locked = true
same_outcome cancelled cancelled = true
same_outcome unavailable unavailable = true
same_outcome _ _ = false

abbrev pub has_outcome : Outcome → Option Outcome → Bool
has_outcome o none = false
has_outcome o (some p) = same_outcome o p

-- The delivery's record has an outcome, or is deleted.
abbrev pub settled_or_gone : Outcome → Option ManagementRow → Bool
settled_or_gone o none = true
settled_or_gone o (some m) = has_outcome o m.outcome

abbrev IsSettled : String → Outcome → Db → Type 0
IsSettled id o d = settled_or_gone o (find id d.managements) ≡ true

settled-keeps :
    (o p : Outcome) (m : ManagementRow)
    → has_outcome o m.outcome ≡ true
    → has_outcome o (settled p m).outcome ≡ true
settled-keeps o p m h = ground (arith, h)

Move-IsSettled : (j : String) (o : Outcome) → IsClosed (but j) (IsSettled j o)
unfolding insert_payload insert_management delete_payload insert_secret delete_secret_row
Move-IsSettled j o d e (Move.inserts id r d' m n u) h = h
Move-IsSettled j o d e (Move.inserts_body id c d') h = h
Move-IsSettled j o d e (Move.inserts_management id m d' a b) h =
    rw (find-insert id j m d.managements) (ground (arith, h, a))
Move-IsSettled j o d e (Move.activates id now d' a) h = rw (managements-update_secret id _ d) h
Move-IsSettled j o d e (Move.counts id now d' a) h = rw (managements-update_secret id _ d) h
Move-IsSettled j o d e (Move.views id now d' a) h = rw (managements-update_secret id _ d) h
Move-IsSettled j o d e (Move.touches id now d') h = rw (managements-update_secret id _ d) h
Move-IsSettled j o d e (Move.claims id now d') h = rw (managements-update_secret id _ d) h
Move-IsSettled j o d e (Move.settles id p d') h =
    rw (find-set_outcome id j p d) (elim (Option-cases (find id d.managements)) [
      | inl n ↦ ground (arith, n, h)
      | inr (m, f) ↦ ground (arith, f, h, settled-keeps o p m, string_eq.same_iff id j)
    ])
Move-IsSettled j o d e (Move.deletes_body id d') h = h
Move-IsSettled j o d e (Move.deletes id d') h = h
Move-IsSettled j o d e (Move.deletes_management id d') h =
    rw (find-erase id j d.managements) (ground (arith, h))
Move-IsSettled j o d e (Move.queues q d') h = h
Move-IsSettled j o d e (Move.marks p d') h = h
Move-IsSettled j o d e (Move.lists c d') h = h

-- A delivery's outcome is written once: in every history of calls that does not create a secret with
-- its id, whichever statements the driver fails, the record keeps its outcome until it is deleted.
pub run-settled :
    (lib : Library) (store : Store) (id : String) (o : Outcome) (calls : List (Faults Stmt × Call))
    (d : Db)
    → may_create_any id calls ≡ false
    → settled_or_gone o (find id d.managements) ≡ true
    → settled_or_gone o (find id (run lib store calls d).managements) ≡ true
unfolding run may_create_any
run-settled lib store id o [] d n h = h
run-settled lib store id o ((fails, c) ∷ calls) d n h =
    run-settled lib store id o calls (perform lib store fails c d) (ground (arith, n)) (
      perform-keeps lib store (IsSettled id o) (but id) (Move-IsSettled id o) fails c d
        (Passes-but id c (ground (arith, n))) h)

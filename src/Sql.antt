-- ===== src/Sql.antt =====
-- Transactions of database/sql over SQLite, as the worker's store uses them. A statement sees the
-- transaction's own writes, and nothing is kept that is not committed. The driver may fail at any
-- statement: a `Faults` says at which.
pub mod Atomic
pub mod Keeps
pub mod Order
use flick_drop.Base.{Bool, true, false, ◌≡◌, refl, ◌⊎◌, inl, inr}

pub data Result {ℓ κ} (E : Type ℓ) (A : Type κ) : Type (ℓ ⊔ κ) where
  ok : A → Result E A
  err : E → Result E A

pub Result-cases {ℓ κ} :
    {E : Type ℓ} {A : Type κ} (r : Result E A) → ((e : E) × (r ≡ err e)) ⊎ ((a : A) × (r ≡ ok a))
Result-cases (ok a) = inr (a, refl)
Result-cases (err e) = inl (e, refl)

abbrev pub is_ok {ℓ κ} : {E : Type ℓ} {A : Type κ} → Result E A → Bool
is_ok (ok a) = true
is_ok (err e) = false

-- Which statements of an operation the driver fails.
abbrev pub Faults : Type 0 → Type 0
Faults S = S → Bool

-- The tables as they were last committed, and as the open transaction sees them.
pub record TxState (D : Type 0) : Type 0 where
  pub committed : D
  pub working : D

abbrev pub Tx : Type 0 → Type 0 → Type 0 → Type 0
Tx E D A = TxState D → Result E A × TxState D

module _ {E D A B : Type 0} where
  abbrev pub continue : Result E A → (A → Tx E D B) → Tx E D B
  continue (ok a) f s = f a s
  continue (err e) f s = (err e, s)

  infixl 5 ◌>>=◌ ◌>>◌
  abbrev pub ◌>>=◌ : Tx E D A → (A → Tx E D B) → Tx E D B
  ◌>>=◌ m f s = let (r, t) = m s in continue r f t

  abbrev pub ◌>>◌ : Tx E D A → Tx E D B → Tx E D B
  m >> k = m >>= λ _. k

module _ {E D A : Type 0} where
  abbrev pub pure : A → Tx E D A
  pure a s = (ok a, s)

  abbrev pub throw : E → Tx E D A
  throw e s = (err e, s)

  abbrev pub lift : Result E A → Tx E D A
  lift r s = (r, s)

  -- A query, and the error that a failed statement is reported as.
  abbrev pub query : Bool → E → (D → A) → Tx E D A
  query true e f s = (err e, s)
  query false e f s = (ok (f s.working), s)

  -- Begin, run, and roll back what was not committed.
  abbrev pub transact : Bool → E → Tx E D A → D → Result E A × D
  transact true e m d = (err e, d)
  transact false e m d = let (r, s) = m (record { committed = d; working = d }) in (r, s.committed)

module _ {E D : Type 0} where
  -- A statement that writes.
  abbrev pub exec : Bool → E → (D → D) → Tx E D (Unit {0})
  exec true e f s = (err e, s)
  exec false e f s = (ok tt, record s { working = f s.working })

  abbrev pub commit : Bool → E → Tx E D (Unit {0})
  commit true e s = (err e, s)
  commit false e s = (ok tt, record s { committed = s.working })

  abbrev pub require : Bool → E → Tx E D (Unit {0})
  require true e s = (ok tt, s)
  require false e s = (err e, s)

  -- An insert, which is refused where the key is taken.
  abbrev pub insert_new : Bool → E → (D → Bool) → (D → D) → Tx E D (Unit {0})
  insert_new true e taken f s = (err e, s)
  insert_new false e taken f s = elim (taken s.working) [
    | true ↦ (err e, s)
    | false ↦ (ok tt, record s { working = f s.working })
  ]

  -- An update or a deletion of the row that fulfils a condition, and whether there was one.
  abbrev pub update_row : Bool → E → (D → Bool) → (D → D) → Tx E D Bool
  update_row true e matches f s = (err e, s)
  update_row false e matches f s = elim (matches s.working) [
    | true ↦ (ok true, record s { working = f s.working })
    | false ↦ (ok false, s)
  ]

  -- What a part of an operation does under a test.
  abbrev pub when : Bool → Tx E D (Unit {0}) → Tx E D (Unit {0})
  when true m s = m s
  when false m s = (ok tt, s)

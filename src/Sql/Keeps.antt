-- ===== src/Sql/Keeps.antt =====
-- What a transaction keeps of the tables, part by part, whichever statements the driver fails.
use flick_drop.Base.{Bool, true, false, ◌≡◌, Bool-cases, inl, inr, if◌then◌else◌}
use flick_drop.Sql.{
  Result, ok, err, TxState, Tx, continue, ◌>>=◌, ◌>>◌, pure, throw, lift, query, transact, exec,
  commit, require, insert_new, update_row, when,
}

-- Both the committed tables and those of the open transaction.
pub record Holds {D : Type 0} (P : D → Type 0) (s : TxState D) : Type 0 where
  pub committed : P s.committed
  pub working : P s.working

-- `m` keeps `P`, whether it returns an error or not.
pub record Keeps {E D A : Type 0} (P : D → Type 0) (m : Tx E D A) : Type 0 where
  pub at : (s : TxState D) → Holds P s → Holds P (m s).1

module _ {E D A : Type 0} {P : D → Type 0} where
  pub Keeps-pure : (a : A) → Keeps {E = E} P (pure a)
  Keeps-pure a = record { at = λ s h. h }

  pub Keeps-throw : (e : E) → Keeps {A = A} P (throw e)
  Keeps-throw e = record { at = λ s h. h }

  pub Keeps-lift : (r : Result E A) → Keeps P (lift r)
  Keeps-lift r = record { at = λ s h. h }

  pub Keeps-query : (b : Bool) (e : E) (f : D → A) → Keeps P (query b e f)
  Keeps-query true e f = record { at = λ s h. h }
  Keeps-query false e f = record { at = λ s h. h }

module _ {E D : Type 0} {P : D → Type 0} where
  pub Keeps-exec : (b : Bool) (e : E) (f : D → D) → ((d : D) → P d → P (f d)) → Keeps P (exec b e f)
  Keeps-exec true e f k = record { at = λ s h. h }
  Keeps-exec false e f k = record {
    at = λ s h. record { committed = h.committed; working = k s.working h.working };
  }

  pub Keeps-read : (b : Bool) (e : E) → Keeps P (exec b e (λ (d : D). d))
  Keeps-read b e = Keeps-exec b e (λ d. d) (λ d h. h)

  pub Keeps-commit : (b : Bool) (e : E) → Keeps P (commit b e)
  Keeps-commit true e = record { at = λ s h. h }
  Keeps-commit false e = record {
    at = λ s h. record { committed = h.working; working = h.working };
  }

  pub Keeps-require : (b : Bool) (e : E) → Keeps P (require b e)
  Keeps-require true e = record { at = λ s h. h }
  Keeps-require false e = record { at = λ s h. h }

  pub Keeps-when : (b : Bool) (m : Tx E D (Unit {0})) → Keeps P m → Keeps P (when b m)
  Keeps-when true m k = record { at = k.at }
  Keeps-when false m k = record { at = λ s h. h }

  pub Keeps-insert_new :
      (b : Bool) (e : E) (taken : D → Bool) (f : D → D)
      → ((d : D) → taken d ≡ false → P d → P (f d))
      → Keeps P (insert_new b e taken f)
  Keeps-insert_new true e taken f k = record { at = λ s h. h }
  Keeps-insert_new false e taken f k = record {
    at = λ s h. elim (Bool-cases (taken s.working)) [
      | inl y ↦ rw (insert_new, y) h
      | inr n ↦
          rw (insert_new, n) (record { committed = h.committed; working = k s.working n h.working })
    ];
  }

  pub Keeps-update_row :
      (b : Bool) (e : E) (matches : D → Bool) (f : D → D)
      → ((d : D) → matches d ≡ true → P d → P (f d))
      → Keeps P (update_row b e matches f)
  Keeps-update_row true e matches f k = record { at = λ s h. h }
  Keeps-update_row false e matches f k = record {
    at = λ s h. elim (Bool-cases (matches s.working)) [
      | inl y ↦
          rw (update_row, y) (record { committed = h.committed; working = k s.working y h.working })
      | inr n ↦ rw (update_row, n) h
    ];
  }

module _ {E D A : Type 0} {P : D → Type 0} where
  pub Keeps-if : (b : Bool) (m n : Tx E D A) → Keeps P m → Keeps P n → Keeps P (if b then m else n)
  Keeps-if true m n k l = k
  Keeps-if false m n k l = l

  -- A transaction keeps what its statements keep.
  pub transact-Keeps :
      (b : Bool) (e : E) (m : Tx E D A) (d : D) → Keeps P m → P d → P (transact b e m d).1
  transact-Keeps true e m d k p = p
  transact-Keeps false e m d k p =
      (k.at (record { committed = d; working = d })
        (record { committed = p; working = p })).committed

-- The two branches of an operation that starts with a test.
pub if-keeps :
    {E D A : Type 0} (P : D → Type 0) (b : Bool) (x y : Result E A × D)
    → P x.1
    → P y.1
    → P (if b then x else y).1
if-keeps P true x y p q = p
if-keeps P false x y p q = q

module _ {E D A B : Type 0} {P : D → Type 0} where
  pub continue-Holds :
      (p : Result E A × TxState D) (f : A → Tx E D B)
      → Holds P p.1
      → ((a : A) → Keeps P (f a))
      → Holds P (continue p.0 f p.1).1
  continue-Holds (ok a, t) f h k = (k a).at t h
  continue-Holds (err e, t) f h k = h

  pub Keeps-bind :
      (m : Tx E D A) (f : A → Tx E D B) → Keeps P m → ((a : A) → Keeps P (f a)) → Keeps P (m >>= f)
  Keeps-bind m f km kf = record { at = λ s h. continue-Holds (m s) f (km.at s h) kf }

  pub Keeps-then : (m : Tx E D A) (k : Tx E D B) → Keeps P m → Keeps P k → Keeps P (m >> k)
  Keeps-then m k km kk = Keeps-bind m (λ _. k) km (λ _. kk)

pub ruleset keeps_rules = (
  Keeps-pure, Keeps-throw, Keeps-lift, Keeps-query, Keeps-read, Keeps-exec, Keeps-commit,
  Keeps-require, Keeps-when, Keeps-insert_new, Keeps-update_row, Keeps-if, Keeps-bind, Keeps-then,
)

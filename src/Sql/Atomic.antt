-- ===== src/Sql/Atomic.antt =====
-- Which transactions commit nothing when they fail, part by part.
use flick_drop.Base.{Bool, true, false, ◌≡◌, ◌∙◌, refl, Bool-cases, inl, inr, if◌then◌else◌, subst}
use flick_drop.Sql.{
  Result, ok, err, TxState, Tx, continue, ◌>>=◌, ◌>>◌, pure, throw, lift, query, transact, exec,
  commit, require, insert_new, update_row, when,
}

-- `m` commits nothing.
pub record Quiet {E D A : Type 0} (m : Tx E D A) : Type 0 where
  pub at : (s : TxState D) → (m s).1.committed ≡ s.committed

-- A run that has committed nothing if it has failed.
abbrev pub UndoneIfErr : {E D A : Type 0} → D → Result E A × TxState D → Type 0
UndoneIfErr d (ok a, t) = Unit {0}
UndoneIfErr d (err e, t) = t.committed ≡ d

-- `m` commits nothing if it fails.
pub record Atomic {E D A : Type 0} (m : Tx E D A) : Type 0 where
  pub at : (s : TxState D) → UndoneIfErr s.committed (m s)

module _ {E D A : Type 0} where
  pub Quiet-pure : (a : A) → Quiet {E = E} {D = D} (pure a)
  Quiet-pure a = record { at = λ s. refl }

  pub Quiet-throw : (e : E) → Quiet {D = D} {A = A} (throw e)
  Quiet-throw e = record { at = λ s. refl }

  pub Quiet-lift : (r : Result E A) → Quiet {D = D} (lift r)
  Quiet-lift r = record { at = λ s. refl }

  pub Quiet-query : (b : Bool) (e : E) (f : D → A) → Quiet (query b e f)
  Quiet-query true e f = record { at = λ s. refl }
  Quiet-query false e f = record { at = λ s. refl }

  pub Quiet-if : (b : Bool) (m n : Tx E D A) → Quiet m → Quiet n → Quiet (if b then m else n)
  Quiet-if true m n k l = k
  Quiet-if false m n k l = l

  pub Atomic-Quiet : (m : Tx E D A) → Quiet m → Atomic m
  Atomic-Quiet m k = record { at = λ s. undone (m s) (k.at s) }
    where
      undone : {d : D} (p : Result E A × TxState D) → p.1.committed ≡ d → UndoneIfErr d p
      undone (ok a, t) h = tt
      undone (err e, t) h = h

module _ {E D : Type 0} where
  pub Quiet-exec : (b : Bool) (e : E) (f : D → D) → Quiet (exec b e f)
  Quiet-exec true e f = record { at = λ s. refl }
  Quiet-exec false e f = record { at = λ s. refl }

  pub Quiet-require : (b : Bool) (e : E) → Quiet {D = D} (require b e)
  Quiet-require true e = record { at = λ s. refl }
  Quiet-require false e = record { at = λ s. refl }

  pub Quiet-when : (b : Bool) (m : Tx E D (Unit {0})) → Quiet m → Quiet (when b m)
  Quiet-when true m k = record { at = k.at }
  Quiet-when false m k = record { at = λ s. refl }

  pub Quiet-insert_new :
      (b : Bool) (e : E) (taken : D → Bool) (f : D → D) → Quiet (insert_new b e taken f)
  Quiet-insert_new true e taken f = record { at = λ s. refl }
  Quiet-insert_new false e taken f = record {
    at = λ s. elim (Bool-cases (taken s.working)) [
      | inl y ↦ rw (insert_new, y) refl
      | inr n ↦ rw (insert_new, n) refl
    ];
  }

  pub Quiet-update_row :
      (b : Bool) (e : E) (matches : D → Bool) (f : D → D) → Quiet (update_row b e matches f)
  Quiet-update_row true e matches f = record { at = λ s. refl }
  Quiet-update_row false e matches f = record {
    at = λ s. elim (Bool-cases (matches s.working)) [
      | inl y ↦ rw (update_row, y) refl
      | inr n ↦ rw (update_row, n) refl
    ];
  }

  pub Atomic-commit : (b : Bool) (e : E) → Atomic {D = D} (commit b e)
  Atomic-commit true e = record { at = λ s. refl }
  Atomic-commit false e = record { at = λ s. tt }

  -- A commit is the last step but for the answer.
  pub Atomic-commit-pure :
      {A : Type 0} (b : Bool) (e : E) (a : A) → Atomic {D = D} (commit b e >> pure a)
  Atomic-commit-pure true e a = record { at = λ s. refl }
  Atomic-commit-pure false e a = record { at = λ s. tt }

module _ {E D A B : Type 0} where
  continue-Quiet :
      (p : Result E A × TxState D) (f : A → Tx E D B)
      → ((a : A) → Quiet (f a))
      → (continue p.0 f p.1).1.committed ≡ p.1.committed
  continue-Quiet (ok a, t) f k = (k a).at t
  continue-Quiet (err e, t) f k = refl

  pub Quiet-bind :
      (m : Tx E D A) (f : A → Tx E D B) → Quiet m → ((a : A) → Quiet (f a)) → Quiet (m >>= f)
  Quiet-bind m f km kf = record { at = λ s. continue-Quiet (m s) f kf ∙ km.at s }

  pub Quiet-then : (m : Tx E D A) (k : Tx E D B) → Quiet m → Quiet k → Quiet (m >> k)
  Quiet-then m k km kk = Quiet-bind m (λ _. k) km (λ _. kk)

  continue-undone :
      (d : D) (p : Result E A × TxState D) (f : A → Tx E D B)
      → p.1.committed ≡ d
      → ((a : A) → Atomic (f a))
      → UndoneIfErr d (continue p.0 f p.1)
  continue-undone d (ok a, t) f h k = subst (λ x. UndoneIfErr x (f a t)) h ((k a).at t)
  continue-undone d (err e, t) f h k = h

  pub Atomic-bind :
      (m : Tx E D A) (f : A → Tx E D B) → Quiet m → ((a : A) → Atomic (f a)) → Atomic (m >>= f)
  Atomic-bind m f km kf = record { at = λ s. continue-undone s.committed (m s) f (km.at s) kf }

  pub Atomic-then : (m : Tx E D A) (k : Tx E D B) → Quiet m → Atomic k → Atomic (m >> k)
  Atomic-then m k km kk = Atomic-bind m (λ _. k) km (λ _. kk)

pub transact-Atomic :
    {E D A : Type 0} (b : Bool) (e : E) (m : Tx E D A) (d : D) (x : E)
    → Atomic m
    → (transact b e m d).0 ≡ err x
    → (transact b e m d).1 ≡ d
transact-Atomic true e m d x k h = refl
transact-Atomic false e m d x k h =
    undone (m (record { committed = d; working = d }))
      (k.at (record { committed = d; working = d })) h
  where
    undone :
        {E D A : Type 0} {d : D} {x : E} (p : Result E A × TxState D)
        → UndoneIfErr d p
        → p.0 ≡ err x
        → p.1.committed ≡ d
    undone (ok a, t) h e = absurd (cc e)
    undone (err y, t) h e = h

pub ruleset quiet_rules = (
  Quiet-pure, Quiet-throw, Quiet-lift, Quiet-query, Quiet-if, Quiet-exec, Quiet-require, Quiet-when,
  Quiet-insert_new, Quiet-update_row, Quiet-bind, Quiet-then,
)

pub ruleset atomic_rules =
    (quiet_rules, Atomic-commit-pure, Atomic-commit, Atomic-bind, Atomic-then, Atomic-Quiet)

-- ===== src/Secrets/Deliveries.antt =====
-- How often a history of calls delivers a secret.
use flick_drop.Base.{
  ◌≤◌, ◌≡◌, refl, String, true, false, List, [], ◌∷◌, ◌==◌, string_eq, arith, Bool-cases, inl, inr,
  subst, sym,
}
use flick_drop.Sql.{Faults}
use flick_drop.Secrets.Tables.{Db}
use flick_drop.Secrets.Types.{Stmt, Store, Library}
use flick_drop.Secrets.Open.{open_and_enqueue_cleanup}
use flick_drop.Secrets.Calls.{
  Call, creates, creates_large, finalizes, opens, ends_stream, cleans, revokes, reaps, reconciles,
  acknowledges, perform, delivers, deliveries, may_create_any,
}
use flick_drop.Secrets.Histories.{but, perform-keeps, Passes-but}
use flick_drop.Secrets.Shut.{IsShut, Move-IsShut}
use flick_drop.Secrets.Once.{open-shuts, open-IsShut}

module _ (lib : Library) (store : Store) where
  delivers-shut :
      (id : String) (fails : Faults Stmt) (c : Call) (d : Db)
      → IsShut id d
      → delivers lib store id fails c d ≡ false
  unfolding delivers
  delivers-shut id fails (opens j proof now object after lock job) d h =
      elim (Bool-cases (j == id)) [
        | inl y ↦ ground (
          arith,
          y,
          open-IsShut lib fails store j proof now object after lock job d
              (subst (λ x. IsShut x d) (sym ((string_eq.same_iff j id).0 y)) h),
        )
        | inr n ↦ ground (arith, n)
      ]
  delivers-shut id fails (creates _ _ _ _) d h = refl
  delivers-shut id fails (creates_large _ _ _ _ _) d h = refl
  delivers-shut id fails (finalizes _ _ _ _) d h = refl
  delivers-shut id fails (ends_stream _ _) d h = refl
  delivers-shut id fails (cleans _ _) d h = refl
  delivers-shut id fails (revokes _ _ _ _ _) d h = refl
  delivers-shut id fails (reaps _ _ _ _) d h = refl
  delivers-shut id fails (reconciles _ _ _ _ _ _) d h = refl
  delivers-shut id fails (acknowledges _ _) d h = refl

  delivers-shuts :
      (id : String) (fails : Faults Stmt) (c : Call) (d : Db)
      → delivers lib store id fails c d ≡ true
      → IsShut id (perform lib store fails c d)
  unfolding delivers perform
  delivers-shuts id fails (opens j proof now object after lock job) d h =
      subst
        (λ x.
          IsShut x (open_and_enqueue_cleanup lib fails store j proof now object after lock job d).1)
        ((string_eq.same_iff j id).0 (ground (arith, h)))
        (open-shuts lib fails store j proof now object after lock job d (ground (arith, h)))
  delivers-shuts id fails (creates _ _ _ _) d h = absurd (cc h)
  delivers-shuts id fails (creates_large _ _ _ _ _) d h = absurd (cc h)
  delivers-shuts id fails (finalizes _ _ _ _) d h = absurd (cc h)
  delivers-shuts id fails (ends_stream _ _) d h = absurd (cc h)
  delivers-shuts id fails (cleans _ _) d h = absurd (cc h)
  delivers-shuts id fails (revokes _ _ _ _ _) d h = absurd (cc h)
  delivers-shuts id fails (reaps _ _ _ _) d h = absurd (cc h)
  delivers-shuts id fails (reconciles _ _ _ _ _ _) d h = absurd (cc h)
  delivers-shuts id fails (acknowledges _ _) d h = absurd (cc h)

  -- From tables in which a secret's row is consumed or gone, a history that does not create a secret
  -- with its id never delivers it.
  pub deliveries-shut :
      (id : String) (calls : List (Faults Stmt × Call)) (d : Db)
      → may_create_any id calls ≡ false
      → IsShut id d
      → deliveries lib store id calls d ≡ 0
  unfolding deliveries may_create_any
  deliveries-shut id [] d n h = refl
  deliveries-shut id ((fails, c) ∷ calls) d n h = ground (
    arith,
    delivers-shut id fails c d h,
    deliveries-shut id calls (perform lib store fails c d) (ground (arith, n)) (
        perform-keeps lib store (IsShut id) (but id) (Move-IsShut id) fails c d
          (Passes-but id c (ground (arith, n))) h),
  )

  -- A secret is delivered at most once: in every history of calls that creates no secret with its id
  -- again, whatever tables it starts from and whichever statements the driver fails, at most one
  -- opening answers with the secret.
  pub deliveries-le_one :
      (id : String) (calls : List (Faults Stmt × Call)) (d : Db)
      → may_create_any id calls ≡ false
      → deliveries lib store id calls d ≤ 1
  unfolding deliveries may_create_any
  deliveries-le_one id [] d n = omega arith
  deliveries-le_one id ((fails, c) ∷ calls) d n =
      elim (Bool-cases (delivers lib store id fails c d)) [
        | inl y ↦ ground (
          arith,
          y,
          deliveries-shut id calls (perform lib store fails c d) (ground (arith, n))
              (delivers-shuts id fails c d y),
        )
        | inr k ↦
            ground (
              arith,
              k,
              deliveries-le_one id calls (perform lib store fails c d) (ground (arith, n)),
            )
      ]

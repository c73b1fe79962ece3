-- ===== src/Secrets/Histories.antt =====
-- What every write keeps, every history of calls keeps.
use flick_drop.Base.{
  ◌≡◌, refl, String, Bool, true, false, not, Option, none, some, List, [], ◌∷◌, ◌==◌, string_eq,
  arith,
}
use flick_drop.Sql.{Faults}
use flick_drop.Secrets.Tables.{Db}
use flick_drop.Secrets.Types.{Stmt, Store, Library}
use flick_drop.Secrets.Moves.{IsClosed}
use flick_drop.Secrets.Moves.Creating.{
  create-keeps, create_large-keeps, finalize-keeps, cleanup-keeps, MayCreate,
}
use flick_drop.Secrets.Moves.Opening.{open-keeps, enqueue_opened-keeps}
use flick_drop.Secrets.Moves.Reaping.{revoke-keeps, claim_expired-keeps}
use flick_drop.Secrets.Moves.Listing.{after_listing-keeps, acknowledge-keeps}
use flick_drop.Secrets.Calls.{
  Call, creates, creates_large, finalizes, opens, ends_stream, cleans, revokes, reaps, reconciles,
  acknowledges, perform, run, may_create, is_id,
}

-- Any id but one.
abbrev pub but : String → String → Bool
but id j = not (j == id)

-- Any id.
abbrev pub any_id : String → Bool
any_id j = true

-- The ids of the secrets that a call creates pass a test.
abbrev pub Passes : (String → Bool) → Call → Type 0
Passes may (creates i j raw now) = MayCreate may j
Passes may (creates_large i j upload raw now) = MayCreate may j
Passes may _ = Unit {0}

other_id : (id : String) (j : Option String) → is_id id j ≡ false → MayCreate (but id) j
other_id id none h = tt
other_id id (some j) h = ground (arith, h)

pub Passes-but : (id : String) (c : Call) → may_create id c ≡ false → Passes (but id) c
unfolding may_create
Passes-but id (creates i j raw now) h = other_id id j h
Passes-but id (creates_large i j upload raw now) h = other_id id j h
Passes-but id (finalizes _ _ _ _) h = tt
Passes-but id (opens _ _ _ _ _ _ _) h = tt
Passes-but id (ends_stream _ _) h = tt
Passes-but id (cleans _ _) h = tt
Passes-but id (revokes _ _ _ _ _) h = tt
Passes-but id (reaps _ _ _ _) h = tt
Passes-but id (reconciles _ _ _ _ _ _) h = tt
Passes-but id (acknowledges _ _) h = tt

any_id-MayCreate : (j : Option String) → MayCreate any_id j
any_id-MayCreate none = tt
any_id-MayCreate (some j) = refl

Passes-any : (c : Call) → Passes any_id c
Passes-any (creates i j raw now) = any_id-MayCreate j
Passes-any (creates_large i j upload raw now) = any_id-MayCreate j
Passes-any (finalizes _ _ _ _) = tt
Passes-any (opens _ _ _ _ _ _ _) = tt
Passes-any (ends_stream _ _) = tt
Passes-any (cleans _ _) = tt
Passes-any (revokes _ _ _ _ _) = tt
Passes-any (reaps _ _ _ _) = tt
Passes-any (reconciles _ _ _ _ _ _) = tt
Passes-any (acknowledges _ _) = tt

module _ (lib : Library) (store : Store) (P : Db → Type 0) where
  -- A call keeps what every write keeps, where it creates only what may be created.
  pub perform-keeps :
      (may : String → Bool) (closed : IsClosed may P) (fails : Faults Stmt) (c : Call) (d : Db)
      → Passes may c
      → P d
      → P (perform lib store fails c d)
  unfolding perform
  perform-keeps may closed fails (creates i j raw now) d h p =
      create-keeps may P closed fails lib store i j raw now d h p
  perform-keeps may closed fails (creates_large i j upload raw now) d h p =
      create_large-keeps may P closed fails lib store i j upload raw now d h p
  perform-keeps may closed fails (finalizes j now head after) d h p =
      finalize-keeps may P closed fails store j now head after d p
  perform-keeps may closed fails (opens j proof now object after lock job) d h p =
      open-keeps may P closed fails lib store j proof now object after lock job d p
  perform-keeps may closed fails (ends_stream key job) d h p =
      enqueue_opened-keeps may P closed fails lib store key job d p
  perform-keeps may closed fails (cleans j now) d h p = cleanup-keeps may P closed fails j now d p
  perform-keeps may closed fails (revokes j token now again job) d h p =
      revoke-keeps may P closed fails lib store j token now again job d p
  perform-keeps may closed fails (reaps purge now batch jobs) d h p =
      claim_expired-keeps may P closed fails lib store purge now batch jobs d p
  perform-keeps may closed fails (reconciles page limit cursor generation now jobs) d h p =
      after_listing-keeps may P closed fails lib store page limit cursor generation now jobs d p
  perform-keeps may closed fails (acknowledges job_id key) d h p =
      acknowledge-keeps may P closed fails lib store job_id key d p

  pub run-keeps :
      (closed : IsClosed any_id P) (calls : List (Faults Stmt × Call)) (d : Db)
      → P d
      → P (run lib store calls d)
  unfolding run
  run-keeps closed [] d p = p
  run-keeps closed ((fails, c) ∷ calls) d p =
      run-keeps closed calls (perform lib store fails c d)
        (perform-keeps any_id closed fails c d (Passes-any c) p)

-- ===== src/Relay/Worlds.antt =====
-- Histories of calls, selects and transfers, from a new coordinator on.
use flick_drop.Base.{ℕ, ◌≤◌, ◌≡◌, ◌≢◌, refl, Bool, List, [], ◌∷◌, arith, find}
use flick_drop.Base.Int.{positive_or}
use flick_drop.Relay.Rendezvous.{SessionMetadata, session_burned}
use flick_drop.Relay.Resolve.{receive_cases, send_cases}
use flick_drop.Relay.Handlers.{World, Call, step, run}
use flick_drop.Relay.Exclusive.{run-Grows}
use flick_drop.Relay.Invariant.{IsValid}
use flick_drop.Relay.Safety.{IsValidWorld, is_burning, Found-IsOpen}
use flick_drop.Relay.{
  Coordinator, CoordinatorOptions, err, new_coordinator, active_sessions, receive, send,
}
use flick_drop.Relay.Steps.{step-IsValidWorld}

-- A coordinator with no goroutine inside it, as NewCoordinator returns it.
abbrev pub start : CoordinatorOptions → World
start opts = record { relay = new_coordinator opts; frames = [] }

start-IsValidWorld : (opts : CoordinatorOptions) → IsValidWorld (start opts)
unfolding new_coordinator
start-IsValidWorld opts = record {
  relay_valid = record {
    sound = λ sid s e. absurd (cc e);
    entry = λ hash sid e. absurd (unfold find in cc e);
    bounded = omega arith;
  };
  held = λ i f e. absurd (cc e);
}

module _ (sha256 : List ℕ → ℕ) where
  run-IsValidWorld : (w : World) (ks : List Call) → IsValidWorld w → IsValidWorld (run sha256 w ks)
  unfolding run
  run-IsValidWorld w [] v = v
  run-IsValidWorld w (k ∷ ks) v =
      run-IsValidWorld (step sha256 w k) ks (step-IsValidWorld w v sha256 k)

  -- After any history from a new coordinator, the coordinator is well formed: in every session the
  -- channels are closed exactly when their `sync.Once` has run, so that none was closed twice; every
  -- entry of the map leads to an unburned session of its hash with at most two failed attempts, which
  -- is open unless a goroutine is about to burn the hash; and every goroutine's pointer leads to a
  -- session of the hash that it holds.
  pub run-start-IsValidWorld :
      (opts : CoordinatorOptions) (ks : List Call) → IsValidWorld (run sha256 (start opts) ks)
  run-start-IsValidWorld opts ks = run-IsValidWorld (start opts) ks (start-IsValidWorld opts)

  -- After any history, the number of sessions is at most the configured limit, or 100 where the option
  -- is not positive.
  pub active_sessions-le :
      (opts : CoordinatorOptions) (ks : List Call)
      → active_sessions (run sha256 (start opts) ks).relay ≤ positive_or opts.max_concurrent 100
  unfolding active_sessions
  active_sessions-le opts ks = omega (
    arith,
    (run-start-IsValidWorld opts ks).relay_valid.bounded,
    (run-Grows sha256 (start opts) ks).same_capacity,
    capacity,
  )
    where
      capacity : (start opts).max_concurrent ≡ positive_or opts.max_concurrent 100
      capacity = unfold new_coordinator in refl

  -- After any history, neither Receive nor Send answers that a session is burned: a burned session is
  -- no longer in the map when the two look for it.
  pub session_burned_unreachable :
      (opts : CoordinatorOptions) (ks : List Call) (raw : List ℕ) (meta : SessionMetadata)
      → let c = (run sha256 (start opts) ks).relay in
        ((receive sha256 c raw).1 ≢ err session_burned)
        × ((send sha256 c raw meta).1 ≢ err session_burned)
  session_burned_unreachable opts ks raw meta = (
    receive_cases sha256 c raw (λ r. r.1 ≢ err session_burned) (λ _ ne e. ne (cc e))
        (λ hash sid s f b _.
          absurd (cc (b, (Found-IsOpen sha256 busy_after c v raw hash sid s f).not_burned)))
        (λ _ _ _ _ _ _ e. cc e),
    send_cases sha256 c raw meta (λ r. r.1 ≢ err session_burned) (λ _ ne e. ne (cc e))
        (λ hash sid s f b _.
          absurd (cc (b, (Found-IsOpen sha256 busy_after c v raw hash sid s f).not_burned)))
        (λ _ _ _ _ _ _ e. cc e) (λ _ _ _ _ _ _ e. cc e),
  )
    where
      c : Coordinator
      c = (run sha256 (start opts) ks).relay

      busy_after : ℕ → Bool
      busy_after = is_burning (run sha256 (start opts) ks).frames

      v : IsValid busy_after c
      v = (run-start-IsValidWorld opts ks).relay_valid

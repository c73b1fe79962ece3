-- ===== src/Relay/Steps.antt =====
-- Every step of a history keeps the coordinator and its goroutines well formed.
use flick_drop.Base.{
  ℕ, ◌≡◌, refl, sym, subst, ◌∙◌, inl, inr, Bool, true, false, Option, none, some, List, [], ◌∷◌,
  ◌++◌, arith, get_elem?, nat_beq, if◌then◌else◌, set, get_elem?-append_one,
}
use mathlib.Core.Option.{some-injective}
use flick_drop.Relay.Rendezvous.{Session, SessionMetadata, Error, by, eof, session_closed}
use flick_drop.Relay.Pointers.{get_elem?-set, map_option}
use flick_drop.Relay.Growth.{
  Grows, Grows-refl, burn_session-Grows, clean_expired-Grows, close-Grows,
}
use flick_drop.Relay.Resolve.{receive_cases, send_cases}
use flick_drop.Relay.Handlers.{
  Frame, polling, receiving, draining, sending, copying, burning, gone, Wake, peer, session_done,
  context_ended, time_up, World, Call, inits, waits, receives, sends, fails, cleans, closes, wakes,
  finishes, close_received, receive_woken, fail_send, send_woken, copied, wake_ready, finish_frame,
  enter, entered, polled, step,
}
use flick_drop.Relay.Exclusive.{
  wake_cases, finish_cases, close_received-Grows, fail_send-Grows, copied-Grows, receive-Grows,
  send-Grows, record_failed_attempt-Grows, init-Grows,
}
use flick_drop.Relay.Invariant.{IsValid}
use flick_drop.Relay.Removal.{
  IsValidBut-weaken, burned-IsValid, clean_expired-IsValid, close-IsValid,
}
use flick_drop.Relay.Safety.{
  IsHeld, IsValidWorld, IsHeld-Grows, NamedAt, burns, is_burning, is_burning-set,
  is_burning-set_same, is_burning-append, close_received-IsValid, close_writer-IsValid,
  Found-NamedAt, receive-IsValid, send-IsValid, record_failed_attempt-IsValid,
}
use flick_drop.Relay.Admission.{init-IsValid}
use flick_drop.Relay.{Coordinator, Result, ok, err, receive, send, burn_session}

-- A frame after one of the frames was replaced.
IsHeld-set :
    (c : Coordinator) (fs : List Frame) (i : ℕ) (g : Frame)
    → IsHeld c g
    → ((j : ℕ) (f : Frame) → get_elem? fs j ≡ some f → IsHeld c f)
    → (j : ℕ) (f : Frame) → get_elem? (set fs i g) j ≡ some f
    → IsHeld c f
IsHeld-set c fs i g hg h j f e =
    split (nat_beq i j) (get_elem? fs j) refl (sym (get_elem?-set fs i j g) ∙ e)
  where
    split :
        (b : Bool) (o : Option Frame)
        → get_elem? fs j ≡ o
        → (if b then map_option (λ _. g) o else o) ≡ some f
        → IsHeld c f
    split true none p k = absurd (cc k)
    split true (some x) p k = subst (IsHeld c) (some-injective _ _ k) hg
    split false o p k = h j f (p ∙ k)

IsHeld-append :
    (c : Coordinator) (fs : List Frame) (g : Frame)
    → IsHeld c g
    → ((j : ℕ) (f : Frame) → get_elem? fs j ≡ some f → IsHeld c f)
    → (j : ℕ) (f : Frame) → get_elem? (fs ++ g ∷ []) j ≡ some f
    → IsHeld c f
IsHeld-append c fs g hg h j f e = elim (get_elem?-append_one fs g j f e) [
  | inl p ↦ h j f p
  | inr (_, p) ↦ subst (IsHeld c) p hg
]

module _ (w : World) (v : IsValidWorld w) where
  busy : ℕ → Bool
  busy = is_burning w.frames

  -- The frames of `w` hold in every coordinator that `w.relay` grows into.
  still-IsHeld :
      (c : Coordinator)
      → Grows w.relay c
      → (j : ℕ) (f : Frame) → get_elem? w.frames j ≡ some f
      → IsHeld c f
  still-IsHeld c g j f e = IsHeld-Grows w.relay c f g (v.held j f e)

  -- A frame is replaced by one that burns what it burned.
  weakened :
      (c : Coordinator) (i : ℕ) (f g : Frame)
      → get_elem? w.frames i ≡ some f
      → ((h : ℕ) → burns h g ≡ false → burns h f ≡ false)
      → IsValid busy c
      → IsValid (is_burning (set w.frames i g)) c
  unfolding busy
  weakened c i f g e k =
      IsValidBut-weaken none busy (is_burning (set w.frames i g)) c
        (λ h _. is_burning-set h w.frames i f g e (k h))

  replaced :
      (c : Coordinator) (i : ℕ) (f : Frame)
      → IsValid (is_burning (set w.frames i f)) c
      → Grows w.relay c
      → IsHeld c f
      → IsValidWorld (record { relay = c; frames = set w.frames i f })
  replaced c i f vc g h = record {
    relay_valid = vc;
    held = IsHeld-set c w.frames i f h (still-IsHeld c g);
  }

  moved :
      (c : Coordinator) → IsValid busy c → Grows w.relay c → IsValidWorld (record w { relay = c })
  unfolding busy
  moved c vc g = record { relay_valid = vc; held = still-IsHeld c g }

  entered-IsValidWorld :
      (c : Coordinator) (o : Option Frame)
      → IsValid busy c
      → Grows w.relay c
      → ((f : Frame) → o ≡ some f → IsHeld c f)
      → IsValidWorld (enter w c o)
  unfolding busy
  entered-IsValidWorld c none vc g h = moved c vc g
  entered-IsValidWorld c (some f) vc g h = record {
    relay_valid =
        IsValidBut-weaken none busy (is_burning (w.frames ++ f ∷ [])) c
          (λ k _. is_burning-append k w.frames f) vc;
    held = IsHeld-append c w.frames f (h f refl) (still-IsHeld c g);
  }

  -- A goroutine that changes nothing and burned nothing goes on.
  passed :
      (i : ℕ) (f g : Frame)
      → get_elem? w.frames i ≡ some f
      → ((h : ℕ) → burns h f ≡ false)
      → IsHeld w.relay g
      → IsValidWorld (record w { frames = set w.frames i g })
  unfolding busy
  passed i f g e k =
      replaced w.relay i g (weakened w.relay i f g e (λ h _. k h) v.relay_valid)
        (Grows-refl w.relay)

  -- A receiver closes the session, and burns its hash next.
  received :
      (i hash sid : ℕ) (f : Frame)
      → get_elem? w.frames i ≡ some f
      → ((h : ℕ) → burns h f ≡ false)
      → NamedAt w.relay hash sid
      → IsValidWorld
          (record { relay = close_received w.relay sid; frames = set w.frames i (burning hash) })
  unfolding busy
  received i hash sid f e k n =
      replaced (close_received w.relay sid) i (burning hash)
        (close_received-IsValid (is_burning (set w.frames i (burning hash))) w.relay hash sid
          (weakened w.relay i f (burning hash) e (λ h _. k h) v.relay_valid) n
          (is_burning-set_same hash w.frames i f (burning hash) e (ground arith)))
        (close_received-Grows w.relay sid) tt

  -- A sender ends, or burns its hash next.
  sent :
      (i : ℕ) (c : Coordinator) (f g : Frame)
      → get_elem? w.frames i ≡ some f
      → ((h : ℕ) → burns h f ≡ false)
      → IsValid busy c
      → Grows w.relay c
      → IsHeld c g
      → IsValidWorld (record { relay = c; frames = set w.frames i g })
  sent i c f g e k vc grows = replaced c i g (weakened c i f g e (λ h _. k h) vc) grows

  failed_send :
      (i hash sid : ℕ) (f : Frame) (x : Error)
      → get_elem? w.frames i ≡ some f
      → ((h : ℕ) → burns h f ≡ false)
      → IsValidWorld
          (record { relay = fail_send w.relay sid x; frames = set w.frames i (burning hash) })
  unfolding busy
  failed_send i hash sid f x e k =
      sent i (fail_send w.relay sid x) f (burning hash) e k
        (close_writer-IsValid busy w.relay sid (by x) v.relay_valid) (fail_send-Grows w.relay sid x)
        tt

  woken-IsValidWorld :
      (i : ℕ) (f : Frame) (s : Session) (k : Wake)
      → get_elem? w.frames i ≡ some f
      → IsHeld w.relay f
      → IsValidWorld (wake_ready w i f s k)
  unfolding wake_ready receive_woken send_woken
  woken-IsValidWorld i (receiving hash sid) s peer e h =
      passed i (receiving hash sid) (draining hash sid) e (λ _. refl) h
  woken-IsValidWorld i (receiving hash sid) s session_done e h =
      passed i (receiving hash sid) gone e (λ _. refl) tt
  woken-IsValidWorld i (receiving hash sid) s context_ended e h =
      received i hash sid (receiving hash sid) e (λ _. refl) h
  woken-IsValidWorld i (receiving hash sid) s time_up e h =
      received i hash sid (receiving hash sid) e (λ _. refl) h
  woken-IsValidWorld i (sending hash sid) s peer e h =
      passed i (sending hash sid) (copying hash sid) e (λ _. refl) h
  woken-IsValidWorld i (sending hash sid) s session_done e h =
      passed i (sending hash sid) gone e (λ _. refl) tt
  woken-IsValidWorld i (sending hash sid) s context_ended e h =
      failed_send i hash sid (sending hash sid) _ e (λ _. refl)
  woken-IsValidWorld i (sending hash sid) s time_up e h =
      failed_send i hash sid (sending hash sid) _ e (λ _. refl)
  woken-IsValidWorld i (polling sid) s k e h = passed i (polling sid) gone e (λ _. refl) tt
  woken-IsValidWorld i (draining hash sid) s k e h = v
  woken-IsValidWorld i (copying hash sid) s k e h = v
  woken-IsValidWorld i (burning hash) s k e h = v
  woken-IsValidWorld i gone s k e h = v

  copied-IsValidWorld :
      (i hash sid : ℕ) (x : Option Error)
      → get_elem? w.frames i ≡ some (copying hash sid)
      → IsValidWorld (finish_frame w i x (copying hash sid))
  unfolding copied busy
  copied-IsValidWorld i hash sid none e =
      sent i _ (copying hash sid) gone e (λ _. refl)
        (close_writer-IsValid busy w.relay sid eof v.relay_valid) (copied-Grows w.relay sid none) tt
  copied-IsValidWorld i hash sid (some x) e =
      failed_send i hash sid (copying hash sid) x e (λ _. refl)

  -- A hash is burned, by the last goroutine or by one of several that come to it.
  burned-IsValidWorld :
      (i hash : ℕ)
      → get_elem? w.frames i ≡ some (burning hash)
      → IsValidWorld (finish_frame w i none (burning hash))
  unfolding burn_session busy
  burned-IsValidWorld i hash e =
      replaced (burn_session w.relay hash) i gone
        (burned-IsValid busy (is_burning (set w.frames i gone)) w.relay hash (by session_closed)
          (λ h ne. is_burning-set h w.frames i (burning hash) gone e (λ _. ground (arith, ne)))
          v.relay_valid)
        (burn_session-Grows w.relay hash) tt

  finished-IsValidWorld :
      (i : ℕ) (x : Option Error) (f : Frame)
      → get_elem? w.frames i ≡ some f
      → IsHeld w.relay f
      → IsValidWorld (finish_frame w i x f)
  finished-IsValidWorld i x (draining hash sid) e h =
      received i hash sid (draining hash sid) e (λ _. refl) h
  finished-IsValidWorld i x (copying hash sid) e h = copied-IsValidWorld i hash sid x e
  finished-IsValidWorld i x (burning hash) e h = burned-IsValidWorld i hash e
  finished-IsValidWorld i x (polling sid) e h = v
  finished-IsValidWorld i x (receiving hash sid) e h = v
  finished-IsValidWorld i x (sending hash sid) e h = v
  finished-IsValidWorld i x gone e h = v

  module _ (sha256 : List ℕ → ℕ) where
    receiving-IsHeld :
        (raw : List ℕ) (f : Frame)
        → entered receiving (receive sha256 w.relay raw).1 ≡ some f
        → IsHeld w.relay f
    unfolding busy
    receiving-IsHeld raw f =
        receive_cases sha256 w.relay raw (λ r. entered receiving r.1 ≡ some f → IsHeld w.relay f)
          (λ _ _ e. absurd (cc e)) (λ _ _ _ _ _ e. absurd (cc e))
          λ hash sid s x _ _ e.
            subst (IsHeld w.relay) (some-injective _ _ e)
              (Found-NamedAt sha256 busy w.relay v.relay_valid raw hash sid s x)

    sending-IsHeld :
        (raw : List ℕ) (meta : SessionMetadata) (f : Frame)
        → entered sending (send sha256 w.relay raw meta).1 ≡ some f
        → IsHeld w.relay f
    unfolding busy
    sending-IsHeld raw meta f =
        send_cases sha256 w.relay raw meta (λ r. entered sending r.1 ≡ some f → IsHeld w.relay f)
          (λ _ _ e. absurd (cc e)) (λ _ _ _ _ _ e. absurd (cc e)) (λ _ _ _ _ _ _ e. absurd (cc e))
          λ hash sid s x _ _ e.
            subst (IsHeld w.relay) (some-injective _ _ e)
              (Found-NamedAt sha256 busy w.relay v.relay_valid raw hash sid s x)

    polling-IsHeld : (r : Result ℕ) (f : Frame) → polled r ≡ some f → IsHeld w.relay f
    polling-IsHeld (ok sid) f e = subst (IsHeld w.relay) (some-injective _ _ e) tt
    polling-IsHeld (err x) f e = absurd (cc e)

    pub step-IsValidWorld : (k : Call) → IsValidWorld (step sha256 w k)
    unfolding step busy
    step-IsValidWorld (inits rand now) =
        moved _ (init-IsValid sha256 w.relay rand now busy v.relay_valid)
          (init-Grows sha256 w.relay rand now)
    step-IsValidWorld (waits raw) =
        entered-IsValidWorld w.relay _ v.relay_valid (Grows-refl w.relay) (polling-IsHeld _)
    step-IsValidWorld (receives raw) =
        entered-IsValidWorld _ _ (receive-IsValid sha256 busy w.relay v.relay_valid raw)
          (receive-Grows sha256 w.relay raw)
          λ f e.
            IsHeld-Grows w.relay _ f (receive-Grows sha256 w.relay raw) (receiving-IsHeld raw f e)
    step-IsValidWorld (sends raw meta) =
        entered-IsValidWorld _ _ (send-IsValid sha256 busy w.relay v.relay_valid raw meta)
          (send-Grows sha256 w.relay raw meta)
          λ f e.
            IsHeld-Grows w.relay _ f (send-Grows sha256 w.relay raw meta)
              (sending-IsHeld raw meta f e)
    step-IsValidWorld (fails raw) =
        moved _ (record_failed_attempt-IsValid sha256 busy w.relay v.relay_valid raw)
          (record_failed_attempt-Grows sha256 w.relay raw)
    step-IsValidWorld (cleans now) =
        moved _ (clean_expired-IsValid busy w.relay now v.relay_valid)
          (clean_expired-Grows w.relay now)
    step-IsValidWorld closes =
        moved _ (close-IsValid busy w.relay v.relay_valid) (close-Grows w.relay)
    step-IsValidWorld (wakes i k now) =
        wake_cases w i k now IsValidWorld v
          (λ f s e _ _. woken-IsValidWorld i f s k e (v.held i f e))
    step-IsValidWorld (finishes i e) =
        finish_cases w i e IsValidWorld v (λ f p. finished-IsValidWorld i e f p (v.held i f p))

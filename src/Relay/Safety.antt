-- ===== src/Relay/Safety.antt =====
-- The well-formed coordinator in histories of calls, selects and transfers.
use flick_drop.Base.{
  ℕ, ◌+◌, ◌≡◌, refl, sym, ap, subst, ◌∙◌, zero, suc, Bool, true, false, ◌||◌, Option, none, some,
  some-injective, List, [], ◌∷◌, ◌++◌, set, arith, get_elem?, leb, nat_beq, nat_eq,
}
use flick_drop.Relay.Rendezvous.{
  Session, SessionMetadata, Error, Cause, eof, by, connect_receiver, connect_sender, set_metadata,
  fail_attempt, close_session, close_writer, session_burned,
}
use flick_drop.Relay.Growth.{Later, Grows}
use flick_drop.Relay.Resolve.{Found, receive_cases, send_cases, record_failed_attempt_cases}
use flick_drop.Relay.Handlers.{
  Frame, polling, receiving, draining, sending, copying, burning, gone, World, close_received,
  copied,
}
use flick_drop.Relay.Invariant.{
  IsOpen, IsEntry, IsValid, update-IsValid, update-IsValidBut, close_session-IsSound,
}
use flick_drop.Relay.Removal.{remove_locked-IsValid}
use flick_drop.Relay.{Coordinator, update, receive, send, record_failed_attempt, remove_locked}

-- A goroutine that holds a hash holds a pointer to a session of that hash.
abbrev pub NamedAt : Coordinator → ℕ → ℕ → Type 0
NamedAt c hash sid = (s : Session) × (get_elem? c.heap sid ≡ some s) × (s.code_hash ≡ hash)

abbrev pub IsHeld : Coordinator → Frame → Type 0
IsHeld c (polling sid) = Unit {0}
IsHeld c (receiving hash sid) = NamedAt c hash sid
IsHeld c (draining hash sid) = NamedAt c hash sid
IsHeld c (sending hash sid) = NamedAt c hash sid
IsHeld c (copying hash sid) = NamedAt c hash sid
IsHeld c (burning hash) = Unit {0}
IsHeld c gone = Unit {0}

abbrev pub burns : ℕ → Frame → Bool
burns h (burning hash) = nat_beq hash h
burns h _ = false

-- Whether some goroutine comes to burnSession of a hash next.
unfoldable pub is_burning : List Frame → ℕ → Bool
is_burning [] h = false
is_burning (f ∷ fs) h = burns h f || is_burning fs h

pub record IsValidWorld (w : World) : Type 0 where
  pub relay_valid : IsValid (is_burning w.frames) w.relay
  pub held : (i : ℕ) (f : Frame) → get_elem? w.frames i ≡ some f → IsHeld w.relay f

pub is_burning-set :
    (h : ℕ) (fs : List Frame) (i : ℕ) (f g : Frame)
    → get_elem? fs i ≡ some f
    → (burns h g ≡ false → burns h f ≡ false)
    → is_burning (set fs i g) h ≡ false
    → is_burning fs h ≡ false
unfolding is_burning
is_burning-set h [] i f g e k n = refl
is_burning-set h (x ∷ fs) zero f g e k n =
    let same : burns h x ≡ burns h f = ap (burns h) (some-injective x f e) in
    ground (arith, same, k, n)
is_burning-set h (x ∷ fs) (suc i) f g e k n = ground (arith, n, is_burning-set h fs i f g e k)

pub is_burning-set_same :
    (h : ℕ) (fs : List Frame) (i : ℕ) (f g : Frame)
    → get_elem? fs i ≡ some f
    → burns h g ≡ true
    → is_burning (set fs i g) h ≡ true
unfolding is_burning
is_burning-set_same h [] i f g e k = absurd (cc e)
is_burning-set_same h (x ∷ fs) zero f g e k = ground (arith, k)
is_burning-set_same h (x ∷ fs) (suc i) f g e k = ground (arith, is_burning-set_same h fs i f g e k)

pub is_burning-append :
    (h : ℕ) (fs : List Frame) (g : Frame)
    → is_burning (fs ++ g ∷ []) h ≡ false
    → is_burning fs h ≡ false
unfolding is_burning
is_burning-append h [] g n = refl
is_burning-append h (x ∷ fs) g n = ground (arith, n, is_burning-append h fs g)

NamedAt-Grows :
    (c d : Coordinator) (hash sid : ℕ) → Grows c d → NamedAt c hash sid → NamedAt d hash sid
NamedAt-Grows c d hash sid g (s, e, n) =
    later (get_elem? d.heap sid) refl (subst (λ o. Later o (get_elem? d.heap sid)) e (g.at sid))
  where
    later : (o : Option Session) → get_elem? d.heap sid ≡ o → Later (some s) o → NamedAt d hash sid
    later none _ l = absurd l
    later (some t) p l = (t, p, l.same_hash ∙ n)

pub IsHeld-Grows : (c d : Coordinator) (f : Frame) → Grows c d → IsHeld c f → IsHeld d f
IsHeld-Grows c d (polling sid) g h = tt
IsHeld-Grows c d (receiving hash sid) g h = NamedAt-Grows c d hash sid g h
IsHeld-Grows c d (draining hash sid) g h = NamedAt-Grows c d hash sid g h
IsHeld-Grows c d (sending hash sid) g h = NamedAt-Grows c d hash sid g h
IsHeld-Grows c d (copying hash sid) g h = NamedAt-Grows c d hash sid g h
IsHeld-Grows c d (burning hash) g h = tt
IsHeld-Grows c d gone g h = tt

module _ (busy : ℕ → Bool) (c : Coordinator) (hash sid : ℕ) (v : IsValid busy c)
    (n : NamedAt c hash sid) where
  held_session : (s : Session) → get_elem? c.heap sid ≡ some s → s.code_hash ≡ hash
  held_session s e =
      let same : n.0 ≡ s = cc (n.1, e) in sym (ap (λ (t : Session). t.code_hash) same) ∙ n.2

  -- The third failed attempt, and the removal that follows it under the same lock.
  third_failure-IsValid :
      IsValid busy (remove_locked (update c sid fail_attempt) hash (by session_burned))
  third_failure-IsValid =
      remove_locked-IsValid busy (update c sid fail_attempt) hash (by session_burned) (
        update-IsValidBut busy c sid fail_attempt (some hash)
          (λ s h. unfold fail_attempt in ground arith) (λ s. unfold fail_attempt in refl)
          (λ s b e other _ _. absurd (other (ap some (sym (held_session s e))))) v)

  -- A session may be closed while it is in the map only by a goroutine that is about to burn its hash.
  pub close_received-IsValid : busy hash ≡ true → IsValid busy (close_received c sid)
  unfolding close_received
  close_received-IsValid y =
      update-IsValid busy c sid (close_session eof) (close_session-IsSound eof)
        (λ s. unfold close_session in ground arith)
        (λ s b e z o. record {
          still_open = λ m. absurd (cc (y, z, m, ap busy (held_session s e)));
          not_burned = unfold close_session in ground (arith, o.not_burned);
          few_failures = unfold close_session in ground (arith, o.few_failures);
        })
        v

pub close_writer-IsValid :
    (busy : ℕ → Bool) (c : Coordinator) (sid : ℕ) (cause : Cause)
    → IsValid busy c
    → IsValid busy (update c sid (close_writer cause))
unfolding close_writer
close_writer-IsValid busy c sid cause v =
    update-IsValid busy c sid _ (λ s h. ground arith) (λ s. refl) (λ s b _ _ h. ground arith) v

pub copied-IsValid :
    (busy : ℕ → Bool) (c : Coordinator) (sid : ℕ) (e : Option Error)
    → IsValid busy c
    → IsValid busy (copied c sid e)
unfolding copied
copied-IsValid busy c sid none v = close_writer-IsValid busy c sid eof v
copied-IsValid busy c sid (some e) v = close_writer-IsValid busy c sid (by e) v

module _ (sha256 : List ℕ → ℕ) (busy : ℕ → Bool) (c : Coordinator) (v : IsValid busy c) where
  pub Found-NamedAt :
      (raw : List ℕ) (hash sid : ℕ) (s : Session)
      → Found sha256 c raw hash sid s
      → NamedAt c hash sid
  Found-NamedAt raw hash sid s f =
      let n : IsEntry none busy c hash sid = v.entry hash sid f.mapped in
      (n.target, n.stored, n.named)

  pub Found-IsOpen :
      (raw : List ℕ) (hash sid : ℕ) (s : Session)
      → Found sha256 c raw hash sid s
      → IsOpen (busy hash) s
  Found-IsOpen raw hash sid s f =
      let n : IsEntry none busy c hash sid = v.entry hash sid f.mapped in
      let same : n.target ≡ s = cc (n.stored, f.stored) in
      subst (IsOpen (busy hash)) same (n.open_target (λ x. cc))

  pub receive-IsValid : (raw : List ℕ) → IsValid busy (receive sha256 c raw).0
  unfolding connect_receiver
  receive-IsValid raw =
      receive_cases sha256 c raw (λ r. IsValid busy r.0) (λ _ _. v) (λ _ _ _ _ _. v)
        λ hash sid s f b o.
          update-IsValid busy c sid _ (λ s h. ground arith) (λ s. ground arith)
            (λ s b _ _ h. ground arith) v

  pub send-IsValid :
      (raw : List ℕ) (meta : SessionMetadata) → IsValid busy (send sha256 c raw meta).0
  unfolding connect_sender set_metadata
  send-IsValid raw meta =
      send_cases sha256 c raw meta (λ r. IsValid busy r.0) (λ _ _. v) (λ _ _ _ _ _. v)
        (λ hash sid s f b o.
          update-IsValid busy c sid _ (λ s h. ground arith) (λ s. ground arith)
            (λ s b _ _ h. ground arith) v)
        λ hash sid s f b o.
          update-IsValid busy c sid _ (λ s h. ground arith) (λ s. ground arith)
            (λ s b _ _ h. ground arith) v

  pub record_failed_attempt-IsValid :
      (raw : List ℕ) → IsValid busy (record_failed_attempt sha256 c raw).0
  unfolding fail_attempt
  record_failed_attempt-IsValid raw =
      record_failed_attempt_cases sha256 c raw (λ r. IsValid busy r.0) (λ _. v)
        (λ hash sid s f b. third_failure-IsValid busy c hash sid v (Found-NamedAt raw hash sid s f))
        λ hash sid s f b.
          update-IsValid busy c sid _ (λ s h. ground arith) (λ s. refl)
            (λ t y e _ h. few {s = s} t y (cc (e, f.stored)) b h) v
    where
      few :
          {s : Session} (t : Session) (y : Bool)
          → s ≡ t
          → leb 3 (s.failed_attempts + 1) ≡ false
          → IsOpen y t
          → IsOpen y (fail_attempt t)
      few {s} t y e b h =
          subst (λ u. IsOpen y u → IsOpen y (fail_attempt u)) e (λ k. ground (arith, b)) h

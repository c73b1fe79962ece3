-- ===== src/Relay/Once.antt =====
-- Receive and Send in a history: `receiverOnce` and `senderOnce` over any interleaving.
use flick_drop.Base.{
  ℕ, ◌≡◌, ◌≢◌, subst, Bool, true, false, Option, none, some, List, arith, get_elem?,
}
use flick_drop.Relay.Rendezvous.{
  Session, SessionMetadata, connect_receiver, connect_sender, set_metadata,
}
use flick_drop.Relay.Pointers.{heap-update}
use flick_drop.Relay.Growth.{Evolves, Later}
use flick_drop.Relay.Resolve.{receive_cases, send_cases}
use flick_drop.Relay.Handlers.{World, Call, receives, sends, step, run}
use flick_drop.Relay.Exclusive.{run-Grows, relay-enter}
use flick_drop.Relay.{Coordinator, update, ok, receive, send}

-- The session under the pointer has the flag.
abbrev Flagged : (Session → Bool) → Option Session → Type 0
Flagged flag none = ⊥
Flagged flag (some s) = flag s ≡ true

Flagged-Later :
    (flag : Session → Bool) (o p : Option Session)
    → ((s t : Session) → Evolves s t → flag s ≡ true → flag t ≡ true)
    → Later o p
    → Flagged flag o
    → Flagged flag p
Flagged-Later flag none p keeps l h = absurd h
Flagged-Later flag (some s) none keeps l h = absurd l
Flagged-Later flag (some s) (some t) keeps l h = keeps s t l h

Flagged-update :
    (flag : Session → Bool) (c : Coordinator) (sid : ℕ) (f : Session → Session) (s : Session)
    → get_elem? c.heap sid ≡ some s
    → flag (f s) ≡ true
    → Flagged flag (get_elem? (update c sid f).heap sid)
Flagged-update flag c sid f s e h = rw (heap-update c sid f sid) (ground (arith, e, h))

not-Flagged :
    (flag : Session → Bool) (o : Option Session) (s : Session)
    → o ≡ some s
    → flag s ≡ false
    → Flagged flag o
    → ⊥
not-Flagged flag none s e h k = k
not-Flagged flag (some t) s e h k = ground (arith, e, h, k)

module _ (sha256 : List ℕ → ℕ) where
  relay-step-receives :
      (w : World) (raw : List ℕ)
      → (step sha256 w (receives raw)).relay ≡ (receive sha256 w.relay raw).0
  unfolding step
  relay-step-receives w raw = relay-enter w _ _

  relay-step-sends :
      (w : World) (raw : List ℕ) (meta : SessionMetadata)
      → (step sha256 w (sends raw meta)).relay ≡ (send sha256 w.relay raw meta).0
  unfolding step
  relay-step-sends w raw meta = relay-enter w _ _

  received :
      (c : Coordinator) (raw : List ℕ) (hash sid : ℕ)
      → (receive sha256 c raw).1 ≡ ok (hash, sid)
      → Flagged (λ s. s.receiver_once) (get_elem? (receive sha256 c raw).0.heap sid)
  unfolding connect_receiver
  received c raw hash sid =
      receive_cases sha256 c raw
        (λ r. r.1 ≡ ok (hash, sid) → Flagged (λ s. s.receiver_once) (get_elem? r.0.heap sid))
        (λ _ _ e. absurd (cc e)) (λ _ _ _ _ _ e. absurd (cc e))
        λ hash' sid' s f _ o e.
          subst
            (λ n.
              Flagged (λ s. s.receiver_once) (get_elem? (update c sid' connect_receiver).heap n))
            (cc e)
            (Flagged-update (λ s. s.receiver_once) c sid' connect_receiver s f.stored
              (ground (arith, o)))

  taken :
      (c : Coordinator) (raw : List ℕ) (hash sid : ℕ)
      → Flagged (λ s. s.receiver_once) (get_elem? c.heap sid)
      → (receive sha256 c raw).1 ≢ ok (hash, sid)
  taken c raw hash sid h =
      receive_cases sha256 c raw (λ r. r.1 ≢ ok (hash, sid)) (λ _ _ e. cc e) (λ _ _ _ _ _ e. cc e)
        λ hash' sid' s f _ o e.
          not-Flagged (λ s. s.receiver_once) (get_elem? c.heap sid) s (cc (e, f.stored)) o h

  sent :
      (c : Coordinator) (raw : List ℕ) (meta : SessionMetadata) (hash sid : ℕ)
      → (send sha256 c raw meta).1 ≡ ok (hash, sid)
      → Flagged (λ s. s.sender_once) (get_elem? (send sha256 c raw meta).0.heap sid)
  unfolding connect_sender set_metadata
  sent c raw meta hash sid =
      send_cases sha256 c raw meta
        (λ r. r.1 ≡ ok (hash, sid) → Flagged (λ s. s.sender_once) (get_elem? r.0.heap sid))
        (λ _ _ e. absurd (cc e)) (λ _ _ _ _ _ e. absurd (cc e)) (λ _ _ _ _ _ _ e. absurd (cc e))
        λ hash' sid' s f _ o e.
          subst
            (λ n.
              Flagged (λ s. s.sender_once)
                (get_elem? (update c sid' (λ t. connect_sender (set_metadata meta t))).heap n))
            (cc e) (Flagged-update (λ s. s.sender_once) c sid' _ s f.stored (ground (arith, o)))

  sender_taken :
      (c : Coordinator) (raw : List ℕ) (meta : SessionMetadata) (hash sid : ℕ)
      → Flagged (λ s. s.sender_once) (get_elem? c.heap sid)
      → (send sha256 c raw meta).1 ≢ ok (hash, sid)
  sender_taken c raw meta hash sid h =
      send_cases sha256 c raw meta (λ r. r.1 ≢ ok (hash, sid)) (λ _ _ e. cc e) (λ _ _ _ _ _ e. cc e)
        (λ _ _ _ _ _ _ e. cc e)
        λ hash' sid' s f _ o e.
          not-Flagged (λ s. s.sender_once) (get_elem? c.heap sid) s (cc (e, f.stored)) o h

  -- Once a Receive has been given a session, no later Receive is given that session, whatever code it
  -- names and whatever calls, selects and transfers come between the two.
  pub receive_once :
      (w : World) (ks : List Call) (raw raw' : List ℕ) (hash sid hash' : ℕ)
      → (receive sha256 w.relay raw).1 ≡ ok (hash, sid)
      → (receive sha256 (run sha256 (step sha256 w (receives raw)) ks).relay raw').1
        ≢ ok (hash', sid)
  receive_once w ks raw raw' hash sid hash' e = taken _ raw' hash' sid (
      Flagged-Later (λ s. s.receiver_once) _ _ (λ s t v. v.still_received)
        ((run-Grows sha256 (step sha256 w (receives raw)) ks).at sid)
        (rw (relay-step-receives w raw) (received w.relay raw hash sid e)))

  -- Once a Send has been given a session, no later Send is given that session, whatever code and
  -- metadata it names and whatever calls, selects and transfers come between the two.
  pub send_once :
      (w : World) (ks : List Call) (raw raw' : List ℕ) (meta meta' : SessionMetadata)
      (hash sid hash' : ℕ)
      → (send sha256 w.relay raw meta).1 ≡ ok (hash, sid)
      → (send sha256 (run sha256 (step sha256 w (sends raw meta)) ks).relay raw' meta').1
        ≢ ok (hash', sid)
  send_once w ks raw raw' meta meta' hash sid hash' e = sender_taken _ raw' meta' hash' sid (
      Flagged-Later (λ s. s.sender_once) _ _ (λ s t v. v.still_sent)
        ((run-Grows sha256 (step sha256 w (sends raw meta)) ks).at sid)
        (rw (relay-step-sends w raw meta) (sent w.relay raw meta hash sid e)))

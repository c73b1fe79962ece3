-- ===== src/Relay/Meeting.antt =====
-- A receiver and a sender that name one fresh session.
use flick_drop.Base.{ℕ, Bool, ◌≡◌, refl, ◌∙◌, true, false, some, List, arith, get_elem?, nat_eq}
use flick_drop.Relay.Rendezvous.{
  Session, SessionMetadata, connect_receiver, connect_sender, set_metadata,
}
use flick_drop.Relay.Pointers.{heap-update, sessions-update}
use flick_drop.Relay.Resolve.{Found, resolve_cases}
use flick_drop.Relay.Invariant.{IsSound, IsValid}
use flick_drop.Relay.Safety.{Found-IsOpen}
use flick_drop.Relay.Handlers.{peer, is_ready, receive_woken, send_woken}
use flick_drop.Relay.{Coordinator, ok, update, lookup_session, resolve, receive, send}

module _ (sha256 : List ℕ → ℕ) (c : Coordinator) (raw : List ℕ) (hash sid : ℕ) (s : Session)
    (found : resolve sha256 c raw ≡ ok (hash, sid, s)) where
  entry : Found sha256 c raw hash sid s
  entry =
      resolve_cases sha256 c raw (λ r. r ≡ ok (hash, sid, s) → Found sha256 c raw hash sid s)
        (λ _ e. absurd (cc e)) (λ _ _ _ e. absurd (cc e))
        (λ hash' sid' s' f e. record {
          code = f.code;
          spelled = f.spelled;
          hashed = ground (arith, f.hashed, e);
          mapped = ground (arith, f.mapped, e);
          stored = ground (arith, f.stored, e);
        })
        found

  -- A text leads to the session as a write through the pointer left it.
  resolve-update :
      (f : Session → Session) → resolve sha256 (update c sid f) raw ≡ ok (hash, sid, f s)
  unfolding resolve lookup_session
  resolve-update f = ground (
    arith,
    entry.spelled,
    entry.hashed,
    entry.mapped,
    entry.stored,
    sessions-update c sid f,
    heap-update c sid f sid,
  )

  stored-update : (f : Session → Session) → get_elem? (update c sid f).heap sid ≡ some (f s)
  stored-update f = heap-update c sid f sid ∙ ground (arith, entry.stored)

  receive_fresh :
      s.burned ≡ false
      → s.receiver_once ≡ false
      → receive sha256 c raw ≡ (update c sid connect_receiver, ok (hash, sid))
  unfolding receive
  receive_fresh b o = rw (found, receive, b, o)

  send_fresh :
      (meta : SessionMetadata)
      → s.burned ≡ false
      → s.sender_once ≡ false
      → send sha256 c raw meta
        ≡ (update c sid (λ t. connect_sender (set_metadata meta t)), ok (hash, sid))
  unfolding send
  send_fresh meta b o = rw (found, send, b, o)

-- Both selects have their ready case, the receiver's gives the salt and the metadata, and the
-- sender's lets the copy begin.
abbrev pub Meets : Coordinator → ℕ → ℕ → List ℕ → SessionMetadata → Type 0
Meets d hash sid salt meta =
    (t : Session) × (get_elem? d.heap sid ≡ some t)
    × ((now : ℕ) → is_ready t.sender_ready now t peer ≡ true)
    × ((now : ℕ) → is_ready t.receiver_ready now t peer ≡ true)
    × ((receive_woken d sid t peer).1 ≡ ok (salt, meta))
    × ((send_woken d sid peer).1 ≡ ok tt)

module _ (sha256 : List ℕ → ℕ) (c : Coordinator) (raw : List ℕ) (hash sid : ℕ) (s : Session)
    (meta : SessionMetadata) (busy : ℕ → Bool) (v : IsValid busy c)
    (found : resolve sha256 c raw ≡ ok (hash, sid, s)) (no_receiver : s.receiver_once ≡ false)
    (no_sender : s.sender_once ≡ false) where
  unburned : s.burned ≡ false
  unburned =
      (Found-IsOpen sha256 busy c v raw hash sid s (entry sha256 c raw hash sid s found)).not_burned

  is_sound : IsSound s
  is_sound = v.sound sid s (entry sha256 c raw hash sid s found).stored

  abbrev receiver_joined : Coordinator
  receiver_joined = update c sid connect_receiver

  abbrev sender_joined : Coordinator
  sender_joined = update c sid (λ t. connect_sender (set_metadata meta t))

  receiver_first :
      let (d, r) = receive sha256 c raw in
      let (e, q) = send sha256 d raw meta in
      (r ≡ ok (hash, sid)) × (q ≡ ok (hash, sid)) × Meets e hash sid s.salt meta
  unfolding connect_receiver connect_sender set_metadata receive_woken send_woken
  receiver_first = rw (receive_fresh sha256 c raw hash sid s found unburned no_receiver) (
      rw
        (send_fresh sha256 receiver_joined raw hash sid (connect_receiver s) joined meta
          (ground (arith, unburned)) (ground (arith, no_sender)))
        (
          refl,
          refl,
          (
            connect_sender (set_metadata meta (connect_receiver s)),
            stored-update sha256 receiver_joined raw hash sid (connect_receiver s) joined _,
            (λ _. ground (arith, is_sound, no_receiver, no_sender)),
            (λ _. ground (arith, is_sound, no_receiver, no_sender)),
            ground arith,
            refl,
          ),
        ))
    where
      joined : resolve sha256 receiver_joined raw ≡ ok (hash, sid, connect_receiver s)
      joined = resolve-update sha256 c raw hash sid s found connect_receiver

  sender_first :
      let (d, q) = send sha256 c raw meta in
      let (e, r) = receive sha256 d raw in
      (r ≡ ok (hash, sid)) × (q ≡ ok (hash, sid)) × Meets e hash sid s.salt meta
  unfolding connect_receiver connect_sender set_metadata receive_woken send_woken
  sender_first = rw (send_fresh sha256 c raw hash sid s found meta unburned no_sender) (
      rw
        (receive_fresh sha256 sender_joined raw hash sid (connect_sender (set_metadata meta s))
          joined (ground (arith, unburned)) (ground (arith, no_receiver)))
        (
          refl,
          refl,
          (
            connect_receiver (connect_sender (set_metadata meta s)),
            stored-update sha256 sender_joined raw hash sid (connect_sender (set_metadata meta s))
                joined _,
            (λ _. ground (arith, is_sound, no_receiver, no_sender)),
            (λ _. ground (arith, is_sound, no_receiver, no_sender)),
            ground arith,
            refl,
          ),
        ))
    where
      joined :
          resolve sha256 sender_joined raw ≡ ok (hash, sid, connect_sender (set_metadata meta s))
      joined =
          resolve-update sha256 c raw hash sid s found (λ t. connect_sender (set_metadata meta t))

  -- Where a code leads to a session of a well-formed coordinator that has no receiver and no sender,
  -- one Receive and one Send of that code are both given the session, in either order, and then
  -- neither has to wait: the receiver gets the session's salt and the sender's metadata.
  pub rendezvous :
      let (d, r) = receive sha256 c raw in
      let (e, q) = send sha256 d raw meta in
      let (d', q') = send sha256 c raw meta in
      let (e', r') = receive sha256 d' raw in
      ((r ≡ ok (hash, sid)) × (q ≡ ok (hash, sid)) × Meets e hash sid s.salt meta)
      × ((r' ≡ ok (hash, sid)) × (q' ≡ ok (hash, sid)) × Meets e' hash sid s.salt meta)
  rendezvous = (receiver_first, sender_first)

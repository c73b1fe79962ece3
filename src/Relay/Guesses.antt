-- ===== src/Relay/Guesses.antt =====
-- What a third failed attempt, a second sender and a late receiver do to a session.
use flick_drop.Base.{
  ℕ, ◌≡◌, ◌≢◌, refl, ◌∙◌, true, false, none, some, List, arith, get_elem?, find, nat_eq,
}
use flick_drop.Relay.Rendezvous.{
  Session, SessionMetadata, by, eof, already_connected, session_burned, session_closed,
  set_metadata, fail_attempt, close_session,
}
use flick_drop.Relay.Pointers.{
  heap-update, sessions-update, heap-remove_locked, sessions-remove_locked,
}
use flick_drop.Relay.Resolve.{resolve_cases}
use flick_drop.Relay.Handlers.{close_received}
use flick_drop.Relay.{
  Coordinator, ok, err, update, remove_locked, burn_session, resolve, send, record_failed_attempt,
}

module _ (sha256 : List ℕ → ℕ) (c : Coordinator) (raw : List ℕ) (hash sid : ℕ) (s : Session)
    (found : resolve sha256 c raw ≡ ok (hash, sid, s)) where
  stored : get_elem? c.heap sid ≡ some s
  stored =
      resolve_cases sha256 c raw (λ r. r ≡ ok (hash, sid, s) → get_elem? c.heap sid ≡ some s)
        (λ _ e. absurd (cc e)) (λ _ _ _ e. absurd (cc e)) (λ _ _ _ f e. ground (arith, f.stored, e))
        found

  mapped : find hash c.sessions ≡ some sid
  mapped =
      resolve_cases sha256 c raw (λ r. r ≡ ok (hash, sid, s) → find hash c.sessions ≡ some sid)
        (λ _ e. absurd (cc e)) (λ _ _ _ e. absurd (cc e)) (λ _ _ _ f e. ground (arith, f.mapped, e))
        found

  -- A Send to a session that has its sender fails, and still the session then has the metadata of the
  -- failed Send.
  pub second_send-metadata :
      (meta : SessionMetadata)
      → s.burned ≡ false
      → s.sender_once ≡ true
      → ((send sha256 c raw meta).1 ≡ err already_connected)
        × (get_elem? (send sha256 c raw meta).0.heap sid ≡ some (record s { metadata = meta }))
  unfolding send set_metadata
  second_send-metadata meta b o = (
    ground (arith, found, b, o),
    rw (found, send, b, o) (heap-update c sid (set_metadata meta) sid ∙ ground (arith, stored)),
  )

  counted : Coordinator
  counted = update c sid fail_attempt

  burned : Coordinator
  burned = remove_locked counted hash (by session_burned)

  burned_session :
      get_elem? burned.heap sid ≡ some (close_session (by session_burned) (fail_attempt s))
  unfolding burned counted
  burned_session =
      heap-remove_locked counted hash (by session_burned) sid
      ∙ ground (
        arith,
        sessions-update c sid fail_attempt,
        mapped,
        heap-update c sid fail_attempt sid,
        stored,
      )

  third :
      s.failed_attempts ≡ 2
      → record_failed_attempt sha256 c raw ≡ (burned, true, some session_burned)
  unfolding record_failed_attempt burned counted
  third three = rw (found, record_failed_attempt) (ground (arith, three))

  -- The third failed attempt on an open session takes its hash out of the map and closes both ends of
  -- its pipe with the burn as the cause, also while a transfer runs.
  pub third_attempt_burns :
      s.failed_attempts ≡ 2
      → s.close_once ≡ false
      → s.pipe_reader ≡ none
      → s.pipe_writer ≡ none
      → let r = record_failed_attempt sha256 c raw in
        (r.1 ≡ true)
        × (r.2 ≡ some session_burned)
        × (find hash r.0.sessions ≡ none)
        × ((t : Session) × (get_elem? r.0.heap sid ≡ some t)
            × (t.close_once ≡ true)
            × (t.pipe_reader ≡ some (by session_burned))
            × (t.pipe_writer ≡ some (by session_burned)))
  unfolding close_session fail_attempt burned
  third_attempt_burns three closed reader writer = rw (third three) (
    refl,
    refl,
    sessions-remove_locked counted hash (by session_burned) hash ∙ ground arith,
    (
      close_session (by session_burned) (fail_attempt s),
      burned_session,
      ground (arith, closed),
      ground (arith, closed, reader),
      ground (arith, closed, writer),
    ),
  )

module _ (c : Coordinator) (hash sid other : ℕ) (s : Session) where
  -- The deferred cleanup of a receiver whose session is no longer in the map, with nothing between its
  -- two parts, at a time when another session has the same hash, takes the other session out of the map and closes it.
  pub cleanup_closes_other :
      find hash c.sessions ≡ some other
      → sid ≢ other
      → get_elem? c.heap other ≡ some s
      → s.close_once ≡ false
      → (find hash (burn_session (close_received c sid) hash).sessions ≡ none)
        × ((t : Session) × (get_elem? (burn_session (close_received c sid) hash).heap other
              ≡ some t)
            × (t.close_once ≡ true))
  unfolding close_received burn_session
  cleanup_closes_other m ne e open_other = (
    sessions-remove_locked d hash (by session_closed) hash ∙ ground arith,
    (
      close_session (by session_closed) s,
      heap-remove_locked d hash (by session_closed) other
          ∙ ground (
            arith,
            sessions-update c sid (close_session eof),
            m,
            heap-update c sid (close_session eof) other,
            e,
            ne,
          ),
      unfold close_session in ground (arith, open_other),
    ),
  )
    where
      d : Coordinator
      d = update c sid (close_session eof)

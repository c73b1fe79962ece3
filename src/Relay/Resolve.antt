-- ===== src/Relay/Resolve.antt =====
-- What a successful lookup, Receive and Send have found, and how each operation lets sessions evolve.
use flick_drop.Base.{
  ℕ, zero, suc, ◌+◌, ◌/◌, ◌≡◌, ◌≢◌, refl, inl, inr, Bool, true, false, Option, none, some, List,
  arith, length, get_elem?, if◌then◌else◌, leb, find, Option-cases, Bool-cases, nat_eq,
}
use flick_drop.Relay.Code.{normalize_code, generate_code}
use flick_drop.Relay.Rendezvous.{
  Session, SessionMetadata, Error, by, session_burned, connect_receiver, connect_sender,
  set_metadata, fail_attempt, invalid_code, not_found, already_connected, capacity_exceeded,
  random_source,
}
use flick_drop.Relay.{
  Coordinator, Random, Result, ok, err, Result-cases, update, remove_locked, lookup_session,
  pick_code, admit, second, init, resolve, receive, send, record_failed_attempt,
}

-- A map entry under the hash of the code that the text spells, and the session that it points to.
pub record Found (sha256 : List ℕ → ℕ) (c : Coordinator) (raw : List ℕ) (hash sid : ℕ) (s : Session)
    : Type 0 where
  pub code : List ℕ
  pub spelled : normalize_code raw ≡ some code
  pub hashed : hash ≡ sha256 code
  pub mapped : find hash c.sessions ≡ some sid
  pub stored : get_elem? c.heap sid ≡ some s

lookup_session-some :
    (c : Coordinator) (hash sid : ℕ) (s : Session)
    → lookup_session c hash ≡ some (sid, s)
    → (find hash c.sessions ≡ some sid) × (get_elem? c.heap sid ≡ some s)
unfolding lookup_session
lookup_session-some c hash sid s h = ground arith

-- One rule for each operation: a property of its outcome follows from the property on each branch.
module _ (sha256 : List ℕ → ℕ) (c : Coordinator) (raw : List ℕ) where
  pub resolve_cases {ℓ} :
      (P : Result (ℕ × ℕ × Session) → Type ℓ)
      → (normalize_code raw ≡ none → P (err invalid_code))
      → ((code : List ℕ)
          → normalize_code raw ≡ some code
          → lookup_session c (sha256 code) ≡ none
          → P (err not_found))
      → ((hash sid : ℕ) (s : Session) → Found sha256 c raw hash sid s → P (ok (hash, sid, s)))
      → P (resolve sha256 c raw)
  unfolding resolve
  resolve_cases P invalid missing found = elim (Option-cases (normalize_code raw)) [
    | inl e ↦ rw (e, resolve) (invalid e)
    | inr (code, e) ↦ elim (Option-cases (lookup_session c (sha256 code))) [
      | inl f ↦ rw (e, f, resolve) (missing code e f)
      | inr ((sid, s), f) ↦
          let m : (find (sha256 code) c.sessions ≡ some sid) × (get_elem? c.heap sid ≡ some s) =
            lookup_session-some c (sha256 code) sid s f in
          rw (e, f, resolve)
            (found (sha256 code) sid s
              (record { code = code; spelled = e; hashed = refl; mapped = m.0; stored = m.1 }))
    ]
  ]

  pub receive_cases {ℓ} :
      (P : Coordinator × Result (ℕ × ℕ) → Type ℓ)
      → ((e : Error) → e ≢ session_burned → P (c, err e))
      → ((hash sid : ℕ) (s : Session)
          → Found sha256 c raw hash sid s
          → s.burned ≡ true
          → P (c, err session_burned))
      → ((hash sid : ℕ) (s : Session)
          → Found sha256 c raw hash sid s
          → s.burned ≡ false
          → s.receiver_once ≡ false
          → P (update c sid connect_receiver, ok (hash, sid)))
      → P (receive sha256 c raw)
  unfolding receive
  receive_cases P failed burnt fresh =
      resolve_cases (λ r. resolve sha256 c raw ≡ r → P (receive sha256 c raw))
        (λ _ e. rw (e, receive) (failed invalid_code (λ x. cc)))
        (λ code _ _ e. rw (e, receive) (failed not_found (λ x. cc)))
        (λ hash sid s f e.
          rw (e, receive) (found hash sid s f (s.burned) (s.receiver_once) refl refl))
        refl
    where
      found :
          (hash sid : ℕ) (s : Session)
          → Found sha256 c raw hash sid s
          → (b o : Bool) → s.burned ≡ b
          → s.receiver_once ≡ o
          → P (
              if b
              then (c, err session_burned)
              else if o
              then (c, err already_connected)
              else (update c sid connect_receiver, ok (hash, sid)))
      found hash sid s f true o e g = burnt hash sid s f e
      found hash sid s f false true e g = failed already_connected (λ x. cc)
      found hash sid s f false false e g = fresh hash sid s f e g

  pub send_cases {ℓ} :
      (meta : SessionMetadata) (P : Coordinator × Result (ℕ × ℕ) → Type ℓ)
      → ((e : Error) → e ≢ session_burned → P (c, err e))
      → ((hash sid : ℕ) (s : Session)
          → Found sha256 c raw hash sid s
          → s.burned ≡ true
          → P (c, err session_burned))
      → ((hash sid : ℕ) (s : Session)
          → Found sha256 c raw hash sid s
          → s.burned ≡ false
          → s.sender_once ≡ true
          → P (update c sid (set_metadata meta), err already_connected))
      → ((hash sid : ℕ) (s : Session)
          → Found sha256 c raw hash sid s
          → s.burned ≡ false
          → s.sender_once ≡ false
          → P (update c sid (λ t. connect_sender (set_metadata meta t)), ok (hash, sid)))
      → P (send sha256 c raw meta)
  unfolding send
  send_cases meta P failed burnt second fresh =
      resolve_cases (λ r. resolve sha256 c raw ≡ r → P (send sha256 c raw meta))
        (λ _ e. rw (e, send) (failed invalid_code (λ x. cc)))
        (λ code _ _ e. rw (e, send) (failed not_found (λ x. cc)))
        (λ hash sid s f e. rw (e, send) (found hash sid s f (s.burned) (s.sender_once) refl refl))
        refl
    where
      found :
          (hash sid : ℕ) (s : Session)
          → Found sha256 c raw hash sid s
          → (b o : Bool) → s.burned ≡ b
          → s.sender_once ≡ o
          → P (
              if b
              then (c, err session_burned)
              else if o
              then (update c sid (set_metadata meta), err already_connected)
              else (update c sid (λ t. connect_sender (set_metadata meta t)), ok (hash, sid)))
      found hash sid s f true o e g = burnt hash sid s f e
      found hash sid s f false true e g = second hash sid s f e g
      found hash sid s f false false e g = fresh hash sid s f e g

  pub record_failed_attempt_cases {ℓ} :
      (P : Coordinator × Bool × Option Error → Type ℓ)
      → ((e : Error) → P (c, false, some e))
      → ((hash sid : ℕ) (s : Session)
          → Found sha256 c raw hash sid s
          → leb 3 (s.failed_attempts + 1) ≡ true
          → P (
            remove_locked (update c sid fail_attempt) hash (by session_burned),
            true,
            some session_burned,
          ))
      → ((hash sid : ℕ) (s : Session)
          → Found sha256 c raw hash sid s
          → leb 3 (s.failed_attempts + 1) ≡ false
          → P (update c sid fail_attempt, false, none))
      → P (record_failed_attempt sha256 c raw)
  unfolding record_failed_attempt
  record_failed_attempt_cases P failed third counted =
      resolve_cases (λ r. resolve sha256 c raw ≡ r → P (record_failed_attempt sha256 c raw))
        (λ _ e. rw (e, record_failed_attempt) (failed invalid_code))
        (λ code _ _ e. rw (e, record_failed_attempt) (failed not_found))
        (λ hash sid s f e.
          rw (e, record_failed_attempt) (found hash sid s f (leb 3 (s.failed_attempts + 1)) refl))
        refl
    where
      found :
          (hash sid : ℕ) (s : Session)
          → Found sha256 c raw hash sid s
          → (b : Bool) → leb 3 (s.failed_attempts + 1) ≡ b
          → P (
              if b
              then (
                remove_locked (update c sid fail_attempt) hash (by session_burned),
                true,
                some session_burned,
              )
              else (update c sid fail_attempt, false, none))
      found hash sid s f true e = third hash sid s f e
      found hash sid s f false e = counted hash sid s f e

pub ok-injective {ℓ} : {A : Type ℓ} (a b : A) → ok a ≡ ok b → a ≡ b
ok-injective a b h = cc

-- What a picked code is: printed for a number that was drawn, with a hash that was not taken.
pub record Picked (sha256 : List ℕ → ℕ) (taken : List (ℕ × ℕ)) (draw : ℕ → Option ℕ) (code : List ℕ)
    : Type 0 where
  pub attempt : ℕ
  pub printed : generate_code (draw attempt) ≡ some code
  pub untaken : find (sha256 code) taken ≡ none

module _ (sha256 : List ℕ → ℕ) where
  pick_code-Picked :
      (taken : List (ℕ × ℕ)) (draw : ℕ → Option ℕ) (left i : ℕ) (code : List ℕ)
      → pick_code sha256 taken draw left i ≡ ok code
      → Picked sha256 taken draw code
  unfolding pick_code
  pick_code-Picked taken draw zero i code h = absurd (cc h)
  pick_code-Picked taken draw (suc left) i code h = elim (Option-cases (generate_code (draw i))) [
    | inl e ↦ absurd (cc (rw (e, pick_code) at h))
    | inr (picked, e) ↦ elim (Option-cases (find (sha256 picked) taken)) [
      | inl f ↦
          let same : ok picked ≡ ok code = rw (e, f, pick_code) at h in
          rw (← ok-injective picked code same) (record { attempt = i; printed = e; untaken = f })
      | inr (sid, f) ↦ pick_code-Picked taken draw left (i + 1) code (rw (e, f, pick_code) at h)
    ]
  ]

  pub init_cases {ℓ} :
      (c : Coordinator) (rand : Random) (now : ℕ)
      → (P : Coordinator × Result (List ℕ × List ℕ × ℕ) → Type ℓ) → ((e : Error) → P (c, err e))
      → ((code salt : List ℕ)
          → leb c.max_concurrent (length c.sessions) ≡ false
          → Picked sha256 c.sessions rand.draw code
          → rand.salt ≡ some salt
          → P (admit sha256 c code salt now, ok (code, salt, c.ttl / second)))
      → P (init sha256 c rand now)
  unfolding init
  init_cases c rand now P failed admitted =
      elim (Bool-cases (leb c.max_concurrent (length c.sessions))) [
        | inl full ↦ rw (full, init) (failed capacity_exceeded)
        | inr room ↦ elim (Result-cases (pick_code sha256 c.sessions rand.draw 10 0)) [
          | inl (x, e) ↦ rw (room, e, init) (failed x)
          | inr (code, e) ↦ elim (Option-cases rand.salt) [
            | inl g ↦ rw (room, e, g, init) (failed random_source)
            | inr (salt, g) ↦
                rw (room, e, g, init)
                  (admitted code salt room (pick_code-Picked c.sessions rand.draw 10 0 code e) g)
          ]
        ]
      ]

-- ===== src/Relay/Exclusive.antt =====
-- The receiver and the sender of a session between two calls.
use flick_drop.Base.{
  ℕ, ◌≡◌, refl, inl, inr, true, Option, none, some, List, [], ◌∷◌, get_elem?, Option-cases,
  Bool-cases, nat_eq,
}
use flick_drop.Relay.Rendezvous.{Session, SessionMetadata, Error, eof, by, session_burned}
use flick_drop.Relay.Growth.{
  Grows, Grows-refl, Grows-trans, update-Grows, remove_locked-Grows, burn_session-Grows,
  clean_expired-Grows, close-Grows, admit-Grows, connect_receiver-Evolves, set_metadata-Evolves,
  connect_sender-Evolves, fail_attempt-Evolves, close_session-Evolves, close_writer-Evolves,
}
use flick_drop.Relay.Resolve.{receive_cases, send_cases, record_failed_attempt_cases, init_cases}
use flick_drop.Relay.Handlers.{
  Frame, polling, receiving, draining, sending, copying, burning, gone, Wake, peer, session_done,
  context_ended, time_up, World, Call, inits, waits, receives, sends, fails, cleans, closes, wakes,
  finishes, close_received, receive_woken, fail_send, send_woken, copied, wake_ready, wake_frame,
  wake, finish_frame, finish, enter, step, run, awaits, pointee, is_ready, peer_channel,
}
use flick_drop.Relay.{Coordinator, Random, init, receive, send, record_failed_attempt}

pub close_received-Grows : (c : Coordinator) (sid : ℕ) → Grows c (close_received c sid)
unfolding close_received
close_received-Grows c sid = update-Grows c sid _ (close_session-Evolves eof)

pub fail_send-Grows : (c : Coordinator) (sid : ℕ) (e : Error) → Grows c (fail_send c sid e)
fail_send-Grows c sid e = update-Grows c sid _ (close_writer-Evolves (by e))

pub receive_woken-Grows :
    (c : Coordinator) (sid : ℕ) (s : Session) (k : Wake) → Grows c (receive_woken c sid s k).0
unfolding receive_woken
receive_woken-Grows c sid s peer = Grows-refl c
receive_woken-Grows c sid s session_done = Grows-refl c
receive_woken-Grows c sid s context_ended = close_received-Grows c sid
receive_woken-Grows c sid s time_up = close_received-Grows c sid

pub send_woken-Grows : (c : Coordinator) (sid : ℕ) (k : Wake) → Grows c (send_woken c sid k).0
unfolding send_woken
send_woken-Grows c sid peer = Grows-refl c
send_woken-Grows c sid session_done = Grows-refl c
send_woken-Grows c sid context_ended = fail_send-Grows c sid _
send_woken-Grows c sid time_up = fail_send-Grows c sid _

pub copied-Grows : (c : Coordinator) (sid : ℕ) (e : Option Error) → Grows c (copied c sid e)
unfolding copied
copied-Grows c sid none = update-Grows c sid _ (close_writer-Evolves eof)
copied-Grows c sid (some e) = fail_send-Grows c sid e

pub wake_ready-Grows :
    (w : World) (i : ℕ) (f : Frame) (s : Session) (k : Wake)
    → Grows w.relay (wake_ready w i f s k).relay
unfolding wake_ready
wake_ready-Grows w i (receiving hash sid) s k = receive_woken-Grows w.relay sid s k
wake_ready-Grows w i (sending hash sid) s k = send_woken-Grows w.relay sid k
wake_ready-Grows w i (polling sid) s k = Grows-refl w.relay
wake_ready-Grows w i (draining hash sid) s k = Grows-refl w.relay
wake_ready-Grows w i (copying hash sid) s k = Grows-refl w.relay
wake_ready-Grows w i (burning hash) s k = Grows-refl w.relay
wake_ready-Grows w i gone s k = Grows-refl w.relay

-- A rule for `wake`: the world as it was, or one that a ready case leads to.
pub wake_cases {ℓ} :
    (w : World) (i : ℕ) (k : Wake) (now : ℕ) (P : World → Type ℓ)
    → P w
    → ((f : Frame) (s : Session)
        → get_elem? w.frames i ≡ some f
        → pointee w (awaits f) ≡ some s
        → is_ready (peer_channel f s) now s k ≡ true
        → P (wake_ready w i f s k))
    → P (wake w i k now)
unfolding wake
wake_cases w i k now P same woken = elim (Option-cases (get_elem? w.frames i)) [
  | inl e ↦ rw (e, wake) same
  | inr (f, e) ↦ elim (Option-cases (pointee w (awaits f))) [
    | inl g ↦ rw (e, wake, wake_frame, g) same
    | inr (s, g) ↦ elim (Bool-cases (is_ready (peer_channel f s) now s k)) [
      | inl r ↦ rw (e, wake, wake_frame, g, r) (woken f s e g r)
      | inr r ↦ rw (e, wake, wake_frame, g, r) same
    ]
  ]
]

pub finish_cases {ℓ} :
    (w : World) (i : ℕ) (e : Option Error) (P : World → Type ℓ)
    → P w
    → ((f : Frame) → get_elem? w.frames i ≡ some f → P (finish_frame w i e f))
    → P (finish w i e)
unfolding finish
finish_cases w i e P same done = elim (Option-cases (get_elem? w.frames i)) [
  | inl g ↦ rw (g, finish) same
  | inr (f, g) ↦ rw (g, finish) (done f g)
]

pub finish_frame-Grows :
    (w : World) (i : ℕ) (e : Option Error) (f : Frame) → Grows w.relay (finish_frame w i e f).relay
finish_frame-Grows w i e (draining hash sid) = close_received-Grows w.relay sid
finish_frame-Grows w i e (copying hash sid) = copied-Grows w.relay sid e
finish_frame-Grows w i e (polling sid) = Grows-refl w.relay
finish_frame-Grows w i e (receiving hash sid) = Grows-refl w.relay
finish_frame-Grows w i e (sending hash sid) = Grows-refl w.relay
finish_frame-Grows w i e (burning hash) = burn_session-Grows w.relay hash
finish_frame-Grows w i e gone = Grows-refl w.relay

pub relay-enter : (w : World) (c : Coordinator) (f : Option Frame) → (enter w c f).relay ≡ c
relay-enter w c none = refl
relay-enter w c (some f) = refl

module _ (sha256 : List ℕ → ℕ) where
  pub receive-Grows : (c : Coordinator) (raw : List ℕ) → Grows c (receive sha256 c raw).0
  receive-Grows c raw =
      receive_cases sha256 c raw (λ r. Grows c r.0) (λ _ _. Grows-refl c)
        (λ _ _ _ _ _. Grows-refl c) (λ _ sid _ _ _ _. update-Grows c sid _ connect_receiver-Evolves)

  pub send-Grows :
      (c : Coordinator) (raw : List ℕ) (meta : SessionMetadata) → Grows c (send sha256 c raw meta).0
  send-Grows c raw meta =
      send_cases sha256 c raw meta (λ r. Grows c r.0) (λ _ _. Grows-refl c)
        (λ _ _ _ _ _. Grows-refl c)
        (λ _ sid _ _ _ _. update-Grows c sid _ (set_metadata-Evolves meta))
        (λ _ sid _ _ _ _. update-Grows c sid _ (connect_sender-Evolves meta))

  pub record_failed_attempt-Grows :
      (c : Coordinator) (raw : List ℕ) → Grows c (record_failed_attempt sha256 c raw).0
  record_failed_attempt-Grows c raw =
      record_failed_attempt_cases sha256 c raw (λ r. Grows c r.0) (λ _. Grows-refl c)
        (λ hash sid _ _ _.
          Grows-trans c _ _ (update-Grows c sid _ fail_attempt-Evolves)
            (remove_locked-Grows _ hash (by session_burned)))
        (λ _ sid _ _ _. update-Grows c sid _ fail_attempt-Evolves)

  pub init-Grows : (c : Coordinator) (rand : Random) (now : ℕ) → Grows c (init sha256 c rand now).0
  init-Grows c rand now =
      init_cases sha256 c rand now (λ r. Grows c r.0) (λ _. Grows-refl c)
        (λ code salt _ _ _. admit-Grows sha256 c code salt now)

  pub step-Grows : (w : World) (k : Call) → Grows w.relay (step sha256 w k).relay
  unfolding step
  step-Grows w (inits rand now) = init-Grows w.relay rand now
  step-Grows w (waits raw) = rw (relay-enter w w.relay) (Grows-refl w.relay)
  step-Grows w (receives raw) = rw (relay-enter w) (receive-Grows w.relay raw)
  step-Grows w (sends raw meta) = rw (relay-enter w) (send-Grows w.relay raw meta)
  step-Grows w (fails raw) = record_failed_attempt-Grows w.relay raw
  step-Grows w (cleans now) = clean_expired-Grows w.relay now
  step-Grows w closes = close-Grows w.relay
  step-Grows w (wakes i k now) =
      wake_cases w i k now (λ v. Grows w.relay v.relay) (Grows-refl w.relay)
        (λ f s _ _ _. wake_ready-Grows w i f s k)
  step-Grows w (finishes i e) =
      finish_cases w i e (λ v. Grows w.relay v.relay) (Grows-refl w.relay)
        (λ f _. finish_frame-Grows w i e f)

  pub run-Grows : (w : World) (ks : List Call) → Grows w.relay (run sha256 w ks).relay
  unfolding run
  run-Grows w [] = Grows-refl w.relay
  run-Grows w (k ∷ ks) = Grows-trans w.relay _ _ (step-Grows w k) (run-Grows (step sha256 w k) ks)

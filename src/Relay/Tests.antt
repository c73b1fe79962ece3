-- ===== src/Relay/Tests.antt =====
-- The relay on concrete inputs.
use flick_drop.Base.{
  ℕ, ◌+◌, ◌*◌, ◌≤◌, ◌≡◌, ◌≢◌, ◌↔◌, refl, true, none, some, List, [], ◌∷◌, arith, get_elem?, find,
  insert, erase, nat_eq,
}
use flick_drop.Base.Int.{pos, negsuc}
use flick_drop.Relay.Code.{normalize_code, generate_code, format_code}
use flick_drop.Relay.Spelling.{Spelled, normalize_code-Spelled, generate_code-normalize_code}
use flick_drop.Relay.Rendezvous.{
  connect_receiver, connect_sender, set_metadata, fail_attempt, Session, SessionMetadata, by,
  already_connected, session_burned, new_session, Chan,
}
use flick_drop.Relay.Handlers.{
  World, Call, inits, receives, sends, fails, cleans, closes, wakes, finishes, peer, step, run,
  close_received,
}
use flick_drop.Relay.Once.{receive_once}
use flick_drop.Relay.Safety.{IsValidWorld, is_burning}
use flick_drop.Relay.WrongCodes.{all_miss, guess_all, wrong_codes_uncounted}
use flick_drop.Relay.Worlds.{
  start, run-start-IsValidWorld, active_sessions-le, session_burned_unreachable,
}
use flick_drop.Relay.Admission.{Admitted, init-Admitted}
use flick_drop.Relay.Guesses.{second_send-metadata, third_attempt_burns, cleanup_closes_other}
use flick_drop.Relay.Meeting.{Meets, rendezvous}
use flick_drop.Relay.{
  CoordinatorOptions, Random, ok, err, init, receive, send, resolve, record_failed_attempt,
  clean_expired, active_sessions, new_coordinator, update, remove_locked, burn_session,
}

-- A hash for the tests, in place of SHA-256.
abbrev toy_hash : List ℕ → ℕ
toy_hash [] = 0
toy_hash (c ∷ cs) = c + 1000 * toy_hash cs

abbrev shown : List ℕ
shown = b' ' ∷ b'1' ∷ b'2' ∷ b'3' ∷ b'-' ∷ b'4' ∷ b'5' ∷ b'6' ∷ b' ' ∷ []

abbrev code : List ℕ
code = b'1' ∷ b'2' ∷ b'3' ∷ b'4' ∷ b'5' ∷ b'6' ∷ []

shown-Spelled : Spelled shown code
shown-Spelled = Spelled.blank refl (
    Spelled.digit refl (
      Spelled.digit refl (
        Spelled.digit refl (
          Spelled.dash refl (
            Spelled.digit refl
              (Spelled.digit refl (Spelled.digit refl (Spelled.blank refl Spelled.done))))))))

shown_accepted : normalize_code shown ≡ some code
shown_accepted = normalize_code-Spelled shown code shown-Spelled refl

letters_refused : normalize_code (b'1' ∷ b'2' ∷ b'3' ∷ b'4' ∷ b'5' ∷ b'a' ∷ []) ≡ none
unfolding normalize_code
letters_refused = refl

generate_code-normalize_code_example :
    (c : List ℕ) × (generate_code (some 23456) ≡ some c)
    × (normalize_code c ≡ some c)
    × ((generate_code (some 899999) ≡ some c) ↔ (◌≡◌ {A = ℕ} 23456 899999))
generate_code-normalize_code_example =
    generate_code-normalize_code 23456 899999 (omega arith) (omega arith)

abbrev opts : CoordinatorOptions
opts = record {
  max_concurrent = pos 2;
  ttl = pos 60000000000;
  clean_interval = negsuc 0;
  max_transfer_duration = pos 0;
}

abbrev rand : Random
rand = record { draw = λ n. some (23456 + n); salt = some (1 ∷ 2 ∷ []) }

abbrev text_meta : SessionMetadata
text_meta = record { kind = "text"; encrypted_filename = "" }

abbrev file_meta : SessionMetadata
file_meta = record { kind = "file"; encrypted_filename = "bmFtZQ==" }

abbrev history : List Call
history =
    inits rand 0
    ∷ receives shown
    ∷ sends code text_meta
    ∷ wakes 0 peer 5
    ∷ wakes 1 peer 5
    ∷ finishes 1 none
    ∷ finishes 0 none
    ∷ inits rand 9
    ∷ cleans 70000000000
    ∷ closes
    ∷ []

run-start-IsValidWorld_example : IsValidWorld (run toy_hash (start opts) history)
run-start-IsValidWorld_example = run-start-IsValidWorld toy_hash opts history

active_sessions-le_example :
    active_sessions
      (run toy_hash (start opts) (inits rand 0 ∷ inits rand 1 ∷ inits rand 2 ∷ [])).relay
    ≤ 2
active_sessions-le_example =
    active_sessions-le toy_hash opts (inits rand 0 ∷ inits rand 1 ∷ inits rand 2 ∷ [])

-- One session under the code 123456, with no party in it.
one : World
unfolding run step init new_coordinator generate_code insert find erase resolve receive send update
    connect_receiver connect_sender set_metadata fail_attempt record_failed_attempt clean_expired
    remove_locked new_session normalize_code format_code
one = run toy_hash (start opts) (inits rand 0 ∷ [])

session_burned_unreachable_example :
    ((receive toy_hash one.relay code).1 ≢ err session_burned)
    × ((send toy_hash one.relay code text_meta).1 ≢ err session_burned)
unfolding one
session_burned_unreachable_example =
    session_burned_unreachable toy_hash opts (inits rand 0 ∷ []) code text_meta

one_found :
    resolve toy_hash one.relay shown
    ≡ ok (toy_hash code, 0, new_session (toy_hash code) (1 ∷ 2 ∷ []) 0 60000000000)
unfolding one
one_found = refl

receive_once_example :
    (receive toy_hash
      (run toy_hash
        (step toy_hash one (receives shown))
        (sends code text_meta ∷ cleans 5 ∷ [])).relay
      code).1
    ≢ ok (toy_hash code, 0)
unfolding one
receive_once_example =
    receive_once toy_hash one (sends code text_meta ∷ cleans 5 ∷ []) shown code (toy_hash code) 0
      (toy_hash code) refl

init-Admitted_example :
    Admitted toy_hash
      (new_coordinator opts)
      (init toy_hash (new_coordinator opts) rand 4).0
      4
      (code, 1 ∷ 2 ∷ [], 60)
unfolding one
init-Admitted_example =
    init-Admitted toy_hash (new_coordinator opts) rand 4 code (1 ∷ 2 ∷ []) 60 refl

-- The session once it has its sender.
sent : World
unfolding one
sent = step toy_hash one (sends code text_meta)

fresh : Session
unfolding one
fresh = new_session (toy_hash code) (1 ∷ 2 ∷ []) 0 60000000000

-- Four guesses, of which one is no code, at the code of the session.
guesses : List (List ℕ)
guesses = format_code 999999 ∷ format_code 999999 ∷ (b'x' ∷ []) ∷ format_code 1 ∷ []

wrong_codes_uncounted_example :
    (find (toy_hash code) (guess_all toy_hash one.relay guesses).sessions ≡ some 0)
    × (get_elem? (guess_all toy_hash one.relay guesses).heap 0 ≡ some fresh)
unfolding fresh guesses all_miss
wrong_codes_uncounted_example =
    wrong_codes_uncounted toy_hash (is_burning one.frames) (toy_hash code) 0 fresh guesses one.relay
      (run-start-IsValidWorld toy_hash opts (inits rand 0 ∷ [])).relay_valid refl refl refl

sent_session : Session
unfolding fresh
sent_session = record fresh { metadata = text_meta; sender_once = true; sender_ready = Chan.closed }

second_send-metadata_example :
    ((send toy_hash sent.relay code file_meta).1 ≡ err already_connected)
    × (get_elem? (send toy_hash sent.relay code file_meta).0.heap 0
        ≡ some (record sent_session { metadata = file_meta }))
unfolding sent sent_session
second_send-metadata_example =
    second_send-metadata toy_hash sent.relay code (toy_hash code) 0 sent_session refl file_meta refl
      refl

-- The session after two failed attempts.
tried : World
unfolding one
tried = run toy_hash (start opts) (inits rand 0 ∷ fails code ∷ fails shown ∷ [])

third_attempt_burns_example :
    let r = record_failed_attempt toy_hash tried.relay code in
    (r.1 ≡ true)
    × (r.2 ≡ some session_burned)
    × (find (toy_hash code) r.0.sessions ≡ none)
    × ((t : Session) × (get_elem? r.0.heap 0 ≡ some t)
        × (t.close_once ≡ true)
        × (t.pipe_reader ≡ some (by session_burned))
        × (t.pipe_writer ≡ some (by session_burned)))
unfolding tried fresh
third_attempt_burns_example =
    third_attempt_burns toy_hash tried.relay code (toy_hash code) 0
      (record fresh { failed_attempts = 2 }) refl refl refl refl refl

-- A receiver of session 0 gives up on a session that expired, after the code was drawn again for
-- session 1.
redrawn : World
unfolding one
redrawn =
    run toy_hash (start opts)
      (inits rand 0 ∷ receives code ∷ cleans 60000000001 ∷ inits rand 60000000002 ∷ [])

cleanup_closes_other_example :
    (find (toy_hash code) (burn_session (close_received redrawn.relay 0) (toy_hash code)).sessions
      ≡ none)
    × ((t : Session) × (get_elem?
            (burn_session (close_received redrawn.relay 0) (toy_hash code)).heap
            1
          ≡ some t)
        × (t.close_once ≡ true))
unfolding redrawn
cleanup_closes_other_example =
    cleanup_closes_other redrawn.relay (toy_hash code) 0 1
      (new_session (toy_hash code) (1 ∷ 2 ∷ []) 60000000002 60000000000) refl (λ e. cc e) refl refl

rendezvous_example :
    let (d, r) = receive toy_hash one.relay shown in
    let (e, q) = send toy_hash d shown file_meta in
    let (d', q') = send toy_hash one.relay shown file_meta in
    let (e', r') = receive toy_hash d' shown in
    ((r ≡ ok (toy_hash code, 0))
      × (q ≡ ok (toy_hash code, 0))
      × Meets e (toy_hash code) 0 (1 ∷ 2 ∷ []) file_meta)
    × ((r' ≡ ok (toy_hash code, 0))
        × (q' ≡ ok (toy_hash code, 0))
        × Meets e' (toy_hash code) 0 (1 ∷ 2 ∷ []) file_meta)
unfolding fresh
rendezvous_example =
    rendezvous toy_hash one.relay shown (toy_hash code) 0 fresh file_meta (is_burning one.frames)
      (run-start-IsValidWorld toy_hash opts (inits rand 0 ∷ [])).relay_valid one_found refl refl

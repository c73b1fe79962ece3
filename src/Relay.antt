-- ===== src/Relay.antt =====
-- internal/piperelay/coordinator.go: the coordinator's map over a heap of sessions, which the
-- goroutines of a receiver and a sender share by pointer. An index into `heap` is a pointer.
pub mod Code
pub mod Rendezvous
pub mod Handlers
mod Tests
pub mod Meeting
pub mod Guesses
pub mod WrongCodes
pub mod Expiry
pub mod Steps
pub mod Worlds
pub mod Admission
pub mod Safety
pub mod Removal
pub mod Invariant
pub mod Once
pub mod Exclusive
pub mod Resolve
pub mod Growth
pub mod Pointers
pub mod Spelling
use flick_drop.Base.{
  ℕ, zero, suc, ◌+◌, ◌/◌, ◌≡◌, refl, ◌⊎◌, inl, inr, Bool, true, false, Option, none, some, List, [],
  ◌∷◌, ◌++◌, ltb, leb, if◌then◌else◌, length, get_elem?, set, find, insert, erase, nat_eq,
}
use flick_drop.Base.Int.{ℤ, positive_or}
use Code.{normalize_code, generate_code}
use Rendezvous.{
  Session, SessionMetadata, Error, Cause, Chan, eof, by, waiting, closed, close_chan, is_closed,
  capacity_exceeded, not_found, session_closed, session_burned, already_connected, invalid_code,
  expired, no_unique_code, random_source, context_done, new_session, connect_receiver,
  connect_sender, set_metadata, close_session, close_writer, fail_attempt,
}

pub data Result {ℓ} (A : Type ℓ) : Type ℓ where
  ok : A → Result A
  err : Error → Result A

pub Result-cases {ℓ} :
    {A : Type ℓ} (r : Result A) → ((e : Error) × (r ≡ err e)) ⊎ ((a : A) × (r ≡ ok a))
Result-cases (ok a) = inr (a, refl)
Result-cases (err e) = inl (e, refl)

-- Durations and times are in nanoseconds.
pub record CoordinatorOptions : Type 0 where
  pub max_concurrent : ℤ
  pub ttl : ℤ
  pub clean_interval : ℤ
  pub max_transfer_duration : ℤ

pub record Coordinator : Type 0 where
  pub heap : List Session
  pub sessions : List (ℕ × ℕ)
  pub max_concurrent : ℕ
  pub ttl : ℕ
  pub clean_interval : ℕ
  pub max_transfer_duration : ℕ
  pub stop_clean : Chan

abbrev pub second : ℕ
second = 1000000000

unfoldable pub new_coordinator : CoordinatorOptions → Coordinator
new_coordinator opts = record {
  heap = [];
  sessions = [];
  max_concurrent = positive_or opts.max_concurrent 100;
  ttl = positive_or opts.ttl 180000000000;
  clean_interval = positive_or opts.clean_interval 30000000000;
  max_transfer_duration = positive_or opts.max_transfer_duration 600000000000;
  stop_clean = waiting;
}

unfoldable pub active_sessions : Coordinator → ℕ
active_sessions c = length c.sessions

-- A write through a pointer.
unfoldable pub update : Coordinator → ℕ → (Session → Session) → Coordinator
update c sid f = elim (get_elem? c.heap sid) [
  | none ↦ c
  | some s ↦ record c { heap = set c.heap sid (f s) }
]

abbrev pub session_of : List Session → Option ℕ → Option (ℕ × Session)
session_of heap none = none
session_of heap (some sid) = elim (get_elem? heap sid) [ none ↦ none | some s ↦ some (sid, s) ]

-- `s, ok := c.sessions[hash]`
unfoldable pub lookup_session : Coordinator → ℕ → Option (ℕ × Session)
unfolding find
lookup_session c hash = session_of c.heap (find hash c.sessions)

unfoldable pub remove_locked : Coordinator → ℕ → Cause → Coordinator
unfolding update close_session
remove_locked c hash cause = elim (find hash c.sessions) [
  | none ↦ c
  | some sid ↦ update (record c { sessions = erase hash c.sessions }) sid (close_session cause)
]

unfoldable pub burn_session : Coordinator → ℕ → Coordinator
unfolding remove_locked
burn_session c hash = remove_locked c hash (by session_closed)

abbrev pub is_expired : ℕ → Option Session → Bool
is_expired now none = false
is_expired now (some s) = ltb s.expires_at now

-- The session that the map has under a hash.
abbrev pub target : Coordinator → ℕ → Option Session
target c hash = elim (find hash c.sessions) [ none ↦ none | some sid ↦ get_elem? c.heap sid ]

abbrev pub keys : List (ℕ × ℕ) → List ℕ
keys [] = []
keys ((hash, sid) ∷ m) = hash ∷ keys m

-- The loop of cleanExpired over the keys of the map. Go lets the body delete entries, and passes over
-- those that are gone.
unfoldable pub clean_entries : ℕ → List ℕ → Coordinator → Coordinator
clean_entries now [] c = c
clean_entries now (hash ∷ rest) c =
    clean_entries now rest
      (if is_expired now (target c hash) then remove_locked c hash (by expired) else c)

unfoldable pub clean_expired : Coordinator → ℕ → Coordinator
unfolding clean_entries
clean_expired c now = clean_entries now (keys c.sessions) c

unfoldable pub close_entries : List ℕ → Coordinator → Coordinator
close_entries [] c = c
close_entries (hash ∷ rest) c = close_entries rest (remove_locked c hash (by session_closed))

-- Close, up to the wait for the cleaner to end.
unfoldable pub close : Coordinator → Coordinator
unfolding close_entries
close c =
    if is_closed c.stop_clean
    then c
    else close_entries (keys c.sessions) (record c { stop_clean = close_chan c.stop_clean })

-- The numbers and bytes that crypto/rand gives an Init: one draw for each attempt, and the salt.
pub record Random : Type 0 where
  pub draw : ℕ → Option ℕ
  pub salt : Option (List ℕ)

-- SHA-256 of a code, as a number.
module _ (sha256 : List ℕ → ℕ) where
  -- `for attempts := i; attempts < i + left; attempts++`
  unfoldable pub pick_code : List (ℕ × ℕ) → (ℕ → Option ℕ) → ℕ → ℕ → Result (List ℕ)
  pick_code taken draw zero i = err no_unique_code
  pick_code taken draw (suc left) i =
      let again = pick_code taken draw left (i + 1) in
      elim (generate_code (draw i)) [
        | none ↦ err random_source
        | some code ↦ elim (find (sha256 code) taken) [ none ↦ ok code | some _ ↦ again ]
      ]

  -- The new session under the hash of its code.
  unfoldable pub admit : Coordinator → List ℕ → List ℕ → ℕ → Coordinator
  admit c code salt now = record c {
    heap = c.heap ++ new_session (sha256 code) salt now c.ttl ∷ [];
    sessions = insert (sha256 code) (length c.heap) c.sessions;
  }

  unfoldable pub init : Coordinator → Random → ℕ → Coordinator × Result (List ℕ × List ℕ × ℕ)
  unfolding pick_code admit
  init c rand now =
      if leb c.max_concurrent (length c.sessions)
      then (c, err capacity_exceeded)
      else elim (pick_code c.sessions rand.draw 10 0) [
        | err e ↦ (c, err e)
        | ok code ↦ elim rand.salt [
          | none ↦ (c, err random_source)
          | some salt ↦ (admit c code salt now, ok (code, salt, c.ttl / second))
        ]
      ]

  -- The lookup by which WaitReceiver, Receive, Send and RecordFailedAttempt begin.
  unfoldable pub resolve : Coordinator → List ℕ → Result (ℕ × ℕ × Session)
  unfolding lookup_session normalize_code
  resolve c raw = elim (normalize_code raw) [
    | none ↦ err invalid_code
    | some code ↦ elim (lookup_session c (sha256 code)) [
      | none ↦ err not_found
      | some (sid, s) ↦ ok (sha256 code, sid, s)
    ]
  ]

  -- WaitReceiver up to its select.
  unfoldable pub wait_receiver : Coordinator → List ℕ → Result ℕ
  wait_receiver c raw = elim (resolve c raw) [ err e ↦ err e | ok (hash, sid, s) ↦ ok sid ]

  -- Receive up to its select: the hash and the pointer that the goroutine goes on with.
  unfoldable pub receive : Coordinator → List ℕ → Coordinator × Result (ℕ × ℕ)
  receive c raw = elim (resolve c raw) [
    | err e ↦ (c, err e)
    | ok (hash, sid, s) ↦
        if s.burned
        then (c, err session_burned)
        else if s.receiver_once
        then (c, err already_connected)
        else (update c sid connect_receiver, ok (hash, sid))
  ]

  -- Send up to its select. The metadata is written before `senderOnce` is asked.
  unfoldable pub send : Coordinator → List ℕ → SessionMetadata → Coordinator × Result (ℕ × ℕ)
  send c raw meta = elim (resolve c raw) [
    | err e ↦ (c, err e)
    | ok (hash, sid, s) ↦
        if s.burned
        then (c, err session_burned)
        else if s.sender_once
        then (update c sid (set_metadata meta), err already_connected)
        else (update c sid (λ t. connect_sender (set_metadata meta t)), ok (hash, sid))
  ]

  -- The flag `burned` and the error, which RecordFailedAttempt returns together.
  unfoldable pub record_failed_attempt : Coordinator → List ℕ → Coordinator × Bool × Option Error
  record_failed_attempt c raw = elim (resolve c raw) [
    | err e ↦ (c, false, some e)
    | ok (hash, sid, s) ↦
        if leb 3 (s.failed_attempts + 1)
        then (
          remove_locked (update c sid fail_attempt) hash (by session_burned),
          true,
          some session_burned,
        )
        else (update c sid fail_attempt, false, none)
  ]

-- ===== src/Relay/Handlers.antt =====
-- internal/piperelay/coordinator.go: the goroutines inside WaitReceiver, Receive and Send after their
-- select begins, and histories in which they interleave. A select may take any of its ready cases.
use flick_drop.Base.{
  ℕ, Bool, true, Option, none, some, List, [], ◌∷◌, ◌++◌, leb, if◌then◌else◌, get_elem?, set,
}
use flick_drop.Relay.Rendezvous.{
  Session, SessionMetadata, Error, Chan, is_closed, eof, by, expired, session_closed, context_done,
  close_session, close_writer,
}
use flick_drop.Relay.{
  Coordinator, Random, Result, ok, err, update, burn_session, init, wait_receiver, receive, send,
  record_failed_attempt, clean_expired, close,
}

-- Where a goroutine stands, with the hash and the pointer that it holds. One that is `burning` has closed
-- its end of the session and comes to burnSession next; others may run in between.
pub data Frame : Type 0 where
  polling : ℕ → Frame
  receiving draining sending copying : ℕ → ℕ → Frame
  burning : ℕ → Frame
  gone : Frame

-- The case that a select takes: the other party is there, the session is done, the request's context
-- is done, or the time is up.
pub data Wake : Type 0 where
  peer session_done context_ended time_up : Wake

abbrev pub is_ready : Chan → ℕ → Session → Wake → Bool
is_ready other now s peer = is_closed other
is_ready other now s session_done = is_closed s.done
is_ready other now s context_ended = true
is_ready other now s time_up = leb s.expires_at now

-- The closeOnce of the function that Receive returns and its callers defer. It does not hold the
-- coordinator's lock, which burnSession then takes.
unfoldable pub close_received : Coordinator → ℕ → Coordinator
close_received c sid = update c sid (close_session eof)

-- What a Receive does and returns for the case that its select took, up to burnSession.
unfoldable pub receive_woken :
    Coordinator → ℕ → Session → Wake → Coordinator × Result (List ℕ × SessionMetadata)
receive_woken c sid s peer = (c, ok (s.salt, s.metadata))
receive_woken c sid s session_done = (c, err session_closed)
receive_woken c sid s context_ended = (close_received c sid, err context_done)
receive_woken c sid s time_up = (close_received c sid, err expired)

-- Where the goroutine of a Receive goes on.
abbrev pub received_frame : ℕ → ℕ → Wake → Frame
received_frame hash sid peer = draining hash sid
received_frame hash sid session_done = gone
received_frame hash sid context_ended = burning hash
received_frame hash sid time_up = burning hash

-- The writer's end, which a Send that fails closes before it comes to burnSession.
abbrev pub fail_send : Coordinator → ℕ → Error → Coordinator
fail_send c sid e = update c sid (close_writer (by e))

-- Whether a Send goes on to copy, for the case that its select took.
unfoldable pub send_woken : Coordinator → ℕ → Wake → Coordinator × Result (Unit {0})
send_woken c sid peer = (c, ok tt)
send_woken c sid session_done = (c, err session_closed)
send_woken c sid context_ended = (fail_send c sid context_done, err context_done)
send_woken c sid time_up = (fail_send c sid expired, err expired)

abbrev pub sent_frame : ℕ → ℕ → Wake → Frame
sent_frame hash sid peer = copying hash sid
sent_frame hash sid session_done = gone
sent_frame hash sid context_ended = burning hash
sent_frame hash sid time_up = burning hash

-- What a WaitReceiver returns.
unfoldable pub wait_woken : Wake → Result (Unit {0})
wait_woken peer = ok tt
wait_woken session_done = err session_closed
wait_woken context_ended = err context_done
wait_woken time_up = err expired

-- The end of the copy in Send: it failed with an error, or it came to the end of the body.
unfoldable pub copied : Coordinator → ℕ → Option Error → Coordinator
copied c sid none = update c sid (close_writer eof)
copied c sid (some e) = fail_send c sid e

abbrev pub copied_frame : ℕ → Option Error → Frame
copied_frame hash none = gone
copied_frame hash (some e) = burning hash

-- The coordinator with the goroutines that are inside it.
pub record World : Type 0 where
  pub relay : Coordinator
  pub open relay use *
  pub frames : List Frame

pub data Call : Type 0 where
  inits : Random → ℕ → Call
  waits receives fails : List ℕ → Call
  sends : List ℕ → SessionMetadata → Call
  cleans : ℕ → Call
  closes : Call
  wakes : ℕ → Wake → ℕ → Call
  finishes : ℕ → Option Error → Call

unfoldable pub wake_ready : World → ℕ → Frame → Session → Wake → World
unfolding receive_woken send_woken wait_woken
wake_ready w i (receiving hash sid) s k = record {
  relay = (receive_woken w.relay sid s k).0;
  frames = set w.frames i (received_frame hash sid k);
}
wake_ready w i (sending hash sid) s k = record {
  relay = (send_woken w.relay sid k).0;
  frames = set w.frames i (sent_frame hash sid k);
}
wake_ready w i (polling sid) s k = record w { frames = set w.frames i gone }
wake_ready w i _ s k = w

-- The pointer, and the channel of the other party, that a select waits on.
abbrev pub awaits : Frame → Option ℕ
awaits (polling sid) = some sid
awaits (receiving hash sid) = some sid
awaits (sending hash sid) = some sid
awaits (draining hash sid) = none
awaits (copying hash sid) = none
awaits (burning hash) = none
awaits gone = none

abbrev pub peer_channel : Frame → Session → Chan
peer_channel (receiving hash sid) s = s.sender_ready
peer_channel _ s = s.receiver_ready

abbrev pub pointee : World → Option ℕ → Option Session
pointee w none = none
pointee w (some sid) = get_elem? w.heap sid

-- A case that is not ready is not taken.
abbrev pub wake_frame : World → ℕ → Wake → ℕ → Frame → World
wake_frame w i k now f = elim (pointee w (awaits f)) [
  | none ↦ w
  | some s ↦ if is_ready (peer_channel f s) now s k then wake_ready w i f s k else w
]

unfoldable pub wake : World → ℕ → Wake → ℕ → World
unfolding wake_ready
wake w i k now = elim (get_elem? w.frames i) [ none ↦ w | some f ↦ wake_frame w i k now f ]

abbrev pub finish_frame : World → ℕ → Option Error → Frame → World
finish_frame w i e (draining hash sid) = record {
  relay = close_received w.relay sid;
  frames = set w.frames i (burning hash);
}
finish_frame w i e (copying hash sid) = record {
  relay = copied w.relay sid e;
  frames = set w.frames i (copied_frame hash e);
}
finish_frame w i e (burning hash) = record {
  relay = burn_session w.relay hash;
  frames = set w.frames i gone;
}
finish_frame w i e _ = w

-- A receiver's handler returns, a sender's copy ends, or burnSession gets the lock.
unfoldable pub finish : World → ℕ → Option Error → World
unfolding copied close_received
finish w i e = elim (get_elem? w.frames i) [ none ↦ w | some f ↦ finish_frame w i e f ]

abbrev pub enter : World → Coordinator → Option Frame → World
enter w c none = record w { relay = c }
enter w c (some f) = record { relay = c; frames = w.frames ++ f ∷ [] }

abbrev pub entered : (ℕ → ℕ → Frame) → Result (ℕ × ℕ) → Option Frame
entered f (ok (hash, sid)) = some (f hash sid)
entered f (err e) = none

abbrev pub polled : Result ℕ → Option Frame
polled (ok sid) = some (polling sid)
polled (err e) = none

module _ (sha256 : List ℕ → ℕ) where
  unfoldable pub step : World → Call → World
  unfolding wake finish
  step w (inits rand now) = record w { relay = (init sha256 w.relay rand now).0 }
  step w (waits raw) = enter w w.relay (polled (wait_receiver sha256 w.relay raw))
  step w (receives raw) = let (c, r) = receive sha256 w.relay raw in enter w c (entered receiving r)
  step w (sends raw meta) =
      let (c, r) = send sha256 w.relay raw meta in enter w c (entered sending r)
  step w (fails raw) = record w { relay = (record_failed_attempt sha256 w.relay raw).0 }
  step w (cleans now) = record w { relay = clean_expired w.relay now }
  step w closes = record w { relay = close w.relay }
  step w (wakes i k now) = wake w i k now
  step w (finishes i e) = finish w i e

  unfoldable pub run : World → List Call → World
  run w [] = w
  run w (c ∷ cs) = run (step w c) cs

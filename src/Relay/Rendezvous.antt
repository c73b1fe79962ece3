-- ===== src/Relay/Rendezvous.antt =====
-- internal/piperelay/coordinator.go: one rendezvous session and the Go objects that it holds.
use flick_drop.Base.{
  ℕ, ◌+◌, String, Bool, true, false, Option, none, some, List, leb, if◌then◌else◌,
}

pub data Error : Type 0 where
  capacity_exceeded not_found session_closed session_burned already_connected invalid_code : Error
  expired no_unique_code random_source context_done : Error

-- Why a pipe end was closed.
pub data Cause : Type 0 where
  eof : Cause
  by : Error → Cause

-- `make(chan struct{})` that is only ever closed. Closing it twice is a run-time panic.
pub data Chan : Type 0 where
  waiting closed panicked : Chan

abbrev pub close_chan : Chan → Chan
close_chan waiting = closed
close_chan closed = panicked
close_chan panicked = panicked

abbrev pub is_closed : Chan → Bool
is_closed waiting = false
is_closed closed = true
is_closed panicked = true

-- CloseWithError of a pipe end keeps the first cause.
abbrev pub close_pipe : Cause → Option Cause → Option Cause
close_pipe c none = some c
close_pipe c (some d) = some d

pub record SessionMetadata : Type 0 where
  pub kind : String
  pub encrypted_filename : String

-- The three `sync.Once` are the flags `receiver_once`, `sender_once` and `close_once`.
pub record Session : Type 0 where
  pub code_hash : ℕ
  pub salt : List ℕ
  pub created_at : ℕ
  pub expires_at : ℕ
  pub failed_attempts : ℕ
  pub burned : Bool
  pub metadata : SessionMetadata
  pub receiver_ready : Chan
  pub sender_ready : Chan
  pub done : Chan
  pub pipe_reader : Option Cause
  pub pipe_writer : Option Cause
  pub receiver_once : Bool
  pub sender_once : Bool
  pub close_once : Bool

unfoldable pub new_session : ℕ → List ℕ → ℕ → ℕ → Session
new_session hash salt now ttl = record {
  code_hash = hash;
  salt = salt;
  created_at = now;
  expires_at = now + ttl;
  failed_attempts = 0;
  burned = false;
  metadata = record { kind = ""; encrypted_filename = "" };
  receiver_ready = waiting;
  sender_ready = waiting;
  done = waiting;
  pipe_reader = none;
  pipe_writer = none;
  receiver_once = false;
  sender_once = false;
  close_once = false;
}

-- receiverOnce.Do
unfoldable pub connect_receiver : Session → Session
connect_receiver s =
    if s.receiver_once
    then s
    else record s { receiver_once = true; receiver_ready = close_chan s.receiver_ready }

-- senderOnce.Do
unfoldable pub connect_sender : Session → Session
connect_sender s =
    if s.sender_once
    then s
    else record s { sender_once = true; sender_ready = close_chan s.sender_ready }

unfoldable pub set_metadata : SessionMetadata → Session → Session
set_metadata m s = record s { metadata = m }

-- closeOnce.Do
unfoldable pub close_session : Cause → Session → Session
close_session cause s = if s.close_once then s else record s {
  close_once = true;
  done = close_chan s.done;
  pipe_writer = close_pipe cause s.pipe_writer;
  pipe_reader = close_pipe cause s.pipe_reader;
}

unfoldable pub close_writer : Cause → Session → Session
close_writer cause s = record s { pipe_writer = close_pipe cause s.pipe_writer }

-- The part of RecordFailedAttempt that holds the session's lock.
unfoldable pub fail_attempt : Session → Session
fail_attempt s = record s {
  failed_attempts = s.failed_attempts + 1;
  burned = if leb 3 (s.failed_attempts + 1) then true else s.burned;
}

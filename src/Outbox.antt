-- ===== src/Outbox.antt =====
-- internal/events/outbox.go: the outbox's rows, and the row that EnqueueTx inserts.
pub mod Accepted
pub mod Kept
pub mod Listed
pub mod Publisher
pub mod Settled
mod Tests
use flick_drop.Base.{ℕ, String, Option, none}

pub data OutboxState : Type 0 where
  pending published failed : OutboxState

-- A row of `outbox_events`, but its id.
pub record OutboxRecord : Type 0 where
  pub subject : String
  pub payload_json : String
  pub state : OutboxState
  pub attempts : ℕ
  pub next_attempt_at : ℕ
  pub published_at : Option ℕ
  pub last_error : Option String
  pub created_at : ℕ
  pub updated_at : ℕ

-- The row of a new event.
unfoldable pub new_record : String → String → ℕ → OutboxRecord
new_record subject payload_json now = record {
  subject = subject;
  payload_json = payload_json;
  state = pending;
  attempts = 0;
  next_attempt_at = now;
  published_at = none;
  last_error = none;
  created_at = now;
  updated_at = now;
}

-- ===== src/Worker/Consumer.antt =====
-- internal/events/consumer.go: ConsumeMessages over one batch. `deliver` is the processor with
-- resolveMessageAction, and a message says which of the broker's calls for it fail.
use flick_drop.Base.{
  ℕ, ◌+◌, ◌<◌, ◌≡◌, refl, ◌⊎◌, inl, inr, String, Bool, true, false, not, ◌&&◌, List, [], ◌∷◌, arith,
  length, Bool-cases, if◌then◌else◌,
}
use flick_drop.Worker.Tables.{Db}
use flick_drop.Worker.Processor.{
  MessageAction, message_ack, message_retry, message_terminate, Surroundings, deliver,
}

pub record Message : Type 0 where
  pub data_json : String
  pub surroundings : Surroundings
  pub call_fails : MessageAction → Bool

pub record ConsumerResult : Type 0 where
  pub acked : ℕ
  pub naked : ℕ
  pub terminated : ℕ

abbrev pub count_action : MessageAction → ConsumerResult → ConsumerResult
count_action message_ack r = record r { acked = r.acked + 1 }
count_action message_retry r = record r { naked = r.naked + 1 }
count_action message_terminate r = record r { terminated = r.terminated + 1 }

-- The result, whether the loop ran to its end, and the tables.
unfoldable pub consume : ℕ → List Message → ConsumerResult → Db → ConsumerResult × Bool × Db
consume max_attempts [] r d = (r, true, d)
consume max_attempts (m ∷ messages) r d =
    let (action, d') = deliver m.surroundings max_attempts m.data_json d in
    elim (m.call_fails action) [
      | true ↦ (r, false, d')
      | false ↦ consume max_attempts messages (count_action action r) d'
    ]

unfoldable pub consume_messages : ℕ → List Message → Db → ConsumerResult × Bool × Db
unfolding consume
consume_messages max_attempts messages d =
    consume max_attempts messages (record { acked = 0; naked = 0; terminated = 0 }) d

abbrev pub settled : ConsumerResult → ℕ
settled r = r.acked + r.naked + r.terminated

module _ (max : ℕ) (m : Message) (messages : List Message) (r : ConsumerResult) (d : Db) where
  abbrev action_of : MessageAction
  action_of = (deliver m.surroundings max m.data_json d).0

  abbrev after : Db
  after = (deliver m.surroundings max m.data_json d).1

  consume-failing :
      m.call_fails action_of ≡ true → consume max (m ∷ messages) r d ≡ (r, false, after)
  unfolding consume
  consume-failing e = rw (consume, e) refl

  consume-next :
      m.call_fails action_of ≡ false
      → consume max (m ∷ messages) r d ≡ consume max messages (count_action action_of r) after
  unfolding consume
  consume-next e = rw (consume, e) refl

consume-none : (max : ℕ) (r : ConsumerResult) (d : Db) → consume max [] r d ≡ (r, true, d)
unfolding consume
consume-none max r d = refl

-- What the broker is asked for each message of the batch, were every message handled, and whether the
-- call fails.
abbrev pub calls : ℕ → List Message → Db → List (MessageAction × Bool)
calls max [] d = []
calls max (m ∷ messages) d =
    let (action, d') = deliver m.surroundings max m.data_json d in
    (action, m.call_fails action) ∷ calls max messages d'

abbrev pub none_fails : List (MessageAction × Bool) → Bool
none_fails [] = true
none_fails ((action, failing) ∷ t) = not failing && none_fails t

abbrev pub same_action : MessageAction → MessageAction → Bool
same_action message_ack message_ack = true
same_action message_retry message_retry = true
same_action message_terminate message_terminate = true
same_action _ _ = false

-- The calls of an action before the first call that fails.
abbrev pub made : MessageAction → List (MessageAction × Bool) → ℕ
made action [] = 0
made action ((a, failing) ∷ t) =
    if failing then 0 else if same_action a action then made action t + 1 else made action t

abbrev count_of : MessageAction → ConsumerResult → ℕ
count_of message_ack r = r.acked
count_of message_retry r = r.naked
count_of message_terminate r = r.terminated

count_of-count_action :
    (b a : MessageAction) (r : ConsumerResult)
    → count_of b (count_action a r) ≡ (if same_action a b then count_of b r + 1 else count_of b r)
count_of-count_action message_ack message_ack r = refl
count_of-count_action message_ack message_retry r = refl
count_of-count_action message_ack message_terminate r = refl
count_of-count_action message_retry message_ack r = refl
count_of-count_action message_retry message_retry r = refl
count_of-count_action message_retry message_terminate r = refl
count_of-count_action message_terminate message_ack r = refl
count_of-count_action message_terminate message_retry r = refl
count_of-count_action message_terminate message_terminate r = refl

consume-calls :
    (b : MessageAction) (max : ℕ) (messages : List Message) (r : ConsumerResult) (d : Db)
    → let p = consume max messages r d in
      (p.1 ≡ none_fails (calls max messages d))
      × (count_of b p.0 ≡ count_of b r + made b (calls max messages d))
consume-calls b max [] r d = rw (consume-none max r d) (refl, omega arith)
consume-calls b max (m ∷ messages) r d =
    elim (Bool-cases (m.call_fails (action_of max m messages r d))) [
      | inl failing ↦ rw (consume-failing max m messages r d failing, failing) (refl, omega arith)
      | inr next ↦
          rw (consume-next max m messages r d next, next)
            (ground (
              arith,
              count_of-count_action b (action_of max m messages r d) r,
              consume-calls b max messages (count_action (action_of max m messages r d) r)
                  (after max m messages r d),
            ))
    ]

made-length :
    (t : List (MessageAction × Bool))
    → let n = made message_ack t + made message_retry t + made message_terminate t in
      ((none_fails t ≡ true) × (n ≡ length t)) ⊎ ((none_fails t ≡ false) × (n < length t))
made-length [] = inl (refl, refl)
made-length ((message_ack, failing) ∷ t) = ground (arith, made-length t)
made-length ((message_retry, failing) ∷ t) = ground (arith, made-length t)
made-length ((message_terminate, failing) ∷ t) = ground (arith, made-length t)

length-calls :
    (max : ℕ) (messages : List Message) (d : Db) → length (calls max messages d) ≡ length messages
length-calls max [] d = refl
length-calls max (m ∷ messages) d =
    ground (arith, length-calls max messages (deliver m.surroundings max m.data_json d).1)

-- A batch runs to its end just when none of the broker's calls for its messages fails; the counts of
-- acknowledged, naked and terminated messages are those of the calls before the first one that fails;
-- and their sum is the batch's length at the end, and less when a call failed.
pub consume_messages-settled :
    (max : ℕ) (messages : List Message) (d : Db)
    → let p = consume_messages max messages d in
      let t = calls max messages d in
      (p.1 ≡ none_fails t)
      × (p.0.acked ≡ made message_ack t)
      × (p.0.naked ≡ made message_retry t)
      × (p.0.terminated ≡ made message_terminate t)
      × (((p.1 ≡ true) × (settled p.0 ≡ length messages))
          ⊎ ((p.1 ≡ false) × (settled p.0 < length messages)))
unfolding consume_messages
consume_messages-settled max messages d = ground (
  arith,
  consume-calls message_ack max messages zeros d,
  consume-calls message_retry max messages zeros d,
  consume-calls message_terminate max messages zeros d,
  made-length (calls max messages d),
  length-calls max messages d,
)
  where
    zeros : ConsumerResult
    zeros = record { acked = 0; naked = 0; terminated = 0 }

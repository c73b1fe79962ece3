-- ===== src/Jobs.antt =====
-- internal/events/job.go: job events, their validation and their decoding. The trace context of an
-- event, which only telemetry reads, is left out.
use Prim.Native.Char.{code}
use Prim.Native.String.{String, [], ◌∷◌}
use flick_drop.Base.{
  ℕ, Bool, true, false, not, ◌&&◌, ◌||◌, Option, none, some, ◌==◌, string_eq, if◌then◌else◌,
}
use flick_drop.Sql.{Result, ok, err}
use flick_drop.Relay.Code.{is_space}

abbrev pub delete_secret : String
delete_secret = "delete_secret"

abbrev pub delete_oci_object : String
delete_oci_object = "delete_oci_object"

-- `requested_at` is none for Go's zero time.
pub record JobEvent : Type 0 where
  pub job_id : String
  pub kind : String
  pub secret_id : String
  pub object_key : String
  pub reason : String
  pub requested_at : Option ℕ

-- The errors that wrap ErrInvalidEvent.
pub data InvalidEvent : Type 0 where
  job_id_required requested_at_required secret_id_required object_key_required : InvalidEvent
  unsupported_kind unsupported_reason not_json trailing_json : InvalidEvent

-- strings.TrimSpace(s) == ""
unfoldable pub is_blank : String → Bool
is_blank [] = true
is_blank (c ∷ s) = is_space (code c) && is_blank s

unfoldable pub valid_reason : String → Bool
valid_reason reason =
    reason == "consumed"
    || reason == "expired"
    || reason == "orphan"
    || reason == "manual"
    || reason == "retry"

abbrev pub kind_problem : JobEvent → Option InvalidEvent
kind_problem e =
    if e.kind == delete_secret
    then (if is_blank e.secret_id then some secret_id_required else none)
    else if e.kind == delete_oci_object
    then (if is_blank e.object_key then some object_key_required else none)
    else some unsupported_kind

abbrev pub reason_problem : JobEvent → Option InvalidEvent
reason_problem e =
    if not (e.reason == "") && not (valid_reason e.reason) then some unsupported_reason else none

-- The switch over the kind and the test of the reason, in their order.
abbrev pub or_else : Option InvalidEvent → Option InvalidEvent → Option InvalidEvent
or_else (some x) y = some x
or_else none y = y

abbrev pub is_zero_time : Option ℕ → Bool
is_zero_time none = true
is_zero_time (some t) = false

unfoldable pub validate : JobEvent → Option InvalidEvent
validate e =
    if is_blank e.job_id
    then some job_id_required
    else if is_zero_time e.requested_at
    then some requested_at_required
    else or_else (kind_problem e) (reason_problem e)

-- encoding/json: the event that a text begins with, and whether the text goes on after it.
module _ (parse : String → Option (JobEvent × Bool)) where
  unfoldable pub decode_job_event : String → Result InvalidEvent JobEvent
  decode_job_event raw = elim (parse raw) [
    | none ↦ err not_json
    | some (e, trailing) ↦ elim (validate e) [
      | some x ↦ err x
      | none ↦ if trailing then err trailing_json else ok e
    ]
  ]

-- JSON, with json.Marshal as a parameter.
module _ (marshal : JobEvent → String) where
  unfoldable pub job_json : JobEvent → Result InvalidEvent String
  job_json e = elim (validate e) [ some x ↦ err x | none ↦ ok (marshal e) ]

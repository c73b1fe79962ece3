-- ===== src/Worker/Cleanup.antt =====
-- internal/worker/cleanup.go: the client of the cleanup API and the handler of cleanup jobs. HTTP and
-- the object storage are parameters.
use text.Mathlib.Text.{starts_with}
use flick_drop.Base.{
  ℕ, ◌≡◌, ◌≢◌, inl, inr, refl, sym, subst, Bool-cases, String, Bool, true, false, not, ◌&&◌, ◌||◌,
  Option, none, some, ◌==◌, string_eq, if◌then◌else◌, nat_beq, ltb, leb, arith,
}
use flick_drop.Sql.{Result, ok, err, is_ok, Result-cases}
use flick_drop.Relay.Code.{is_space}
use flick_drop.Jobs.{JobEvent, delete_secret, delete_oci_object, is_blank, valid_reason, validate}

-- `invalid` wraps ErrInvalidJob; the others do not.
pub data JobError : Type 0 where
  invalid call_failed bad_status bad_body trailing_body wrong_id : JobError
  storage_required delete_failed : JobError

pub record CleanupRequest : Type 0 where
  pub secret_id : String
  pub job_id : String
  pub reason : String

-- What comes back from a call: the status, and the body's id and flag, if it decodes.
pub record Reply : Type 0 where
  pub status : ℕ
  pub body : Option (String × Bool)
  pub trailing : Bool

abbrev pub read_body : CleanupRequest → Bool → Option (String × Bool) → Result JobError Bool
read_body req trailing none = err bad_body
read_body req trailing (some (id, cleaned)) =
    if trailing then err trailing_body else if id == req.secret_id then ok cleaned else err wrong_id

abbrev pub read_reply : CleanupRequest → Option Reply → Result JobError Bool
read_reply req none = err call_failed
read_reply req (some r) =
    if ltb r.status 200 || leb 300 r.status then err bad_status else read_body req r.trailing r.body

unfoldable pub cleanup_secret :
    (CleanupRequest → Option Reply) → CleanupRequest → Result JobError Bool
cleanup_secret post req =
    if is_blank req.secret_id || is_blank req.job_id || is_blank req.reason
    then err invalid
    else read_reply req (post req)

unfoldable pub requires_object_acknowledgement : String → Bool
requires_object_acknowledgement key =
    (starts_with key "managed/secrets/" && not (key == "managed/secrets/"))
    || (starts_with key "managed/requests/" && not (key == "managed/requests/"))

-- AcknowledgeObjectCleanup; `post` gives the status of the call, if it was made.
unfoldable pub acknowledge_object_cleanup :
    (String → String → Option ℕ) → JobEvent → Option JobError
acknowledge_object_cleanup post e =
    if not (e.kind == delete_oci_object)
      || e.job_id == ""
      || not (requires_object_acknowledgement e.object_key)
    then some invalid
    else elim (post e.job_id e.object_key) [
      | none ↦ some call_failed
      | some status ↦ if nat_beq status 204 then none else some bad_status
    ]

unfoldable pub valid_cleanup_reason : String → Bool
valid_cleanup_reason reason =
    reason == "consumed"
    || reason == "expired"
    || reason == "orphan"
    || reason == "manual"
    || reason == "retry"

unfoldable pub cleanup_reason : JobEvent → Result JobError String
cleanup_reason e =
    if e.kind == delete_secret
    then (if e.reason == ""
        then ok "consumed"
        else if valid_cleanup_reason e.reason
        then ok e.reason
        else err invalid)
    else err invalid

-- The object storage: whether the deletion of a key fails. `none` is a worker without storage.
unfoldable pub handle_object_delete : Option (String → Bool) → JobEvent → Option JobError
handle_object_delete objects e = if is_blank e.object_key then some invalid else elim objects [
  | none ↦ if requires_object_acknowledgement e.object_key then some storage_required else none
  | some delete_fails ↦ if delete_fails e.object_key then some delete_failed else none
]

abbrev pub error_of : Result JobError Bool → Option JobError
error_of (ok cleaned) = none
error_of (err x) = some x

unfoldable pub handle_job :
    (CleanupRequest → Option Reply) → Option (String → Bool) → JobEvent → Option JobError
handle_job post objects e =
    if e.kind == delete_oci_object
    then handle_object_delete objects e
    else elim (cleanup_reason e) [
      | err x ↦ some x
      | ok reason ↦
          if is_blank e.secret_id || is_blank e.job_id
          then some invalid
          else error_of (
              cleanup_secret post
                (record { secret_id = e.secret_id; job_id = e.job_id; reason = reason }))
    ]

-- A test that one of five texts passes passes for a reason that is one of them.
named-is_blank :
    (reason name : String)
    → is_blank name ≡ false
    → (reason == name) ≡ true
    → is_blank reason ≡ false
named-is_blank reason name h e =
    subst (λ s. is_blank s ≡ false) (sym ((string_eq.same_iff reason name).0 e)) h

valid_cleanup_reason-is_blank :
    (reason : String) → valid_cleanup_reason reason ≡ true → is_blank reason ≡ false
unfolding valid_cleanup_reason is_blank is_space
valid_cleanup_reason-is_blank reason h = ground (
  arith,
  h,
  named-is_blank reason "consumed" refl,
  named-is_blank reason "expired" refl,
  named-is_blank reason "orphan" refl,
  named-is_blank reason "manual" refl,
  named-is_blank reason "retry" refl,
)

consumed-is_blank : is_blank "consumed" ≡ false
unfolding is_blank is_space
consumed-is_blank = refl

cleanup_reason-is_blank :
    (e : JobEvent) (reason : String) → cleanup_reason e ≡ ok reason → is_blank reason ≡ false
unfolding cleanup_reason
cleanup_reason-is_blank e reason h =
    ground (arith, h, valid_cleanup_reason-is_blank e.reason, consumed-is_blank)

cleanup_secret-invalid :
    (post : CleanupRequest → Option Reply) (req : CleanupRequest)
    → (is_blank req.secret_id || is_blank req.job_id || is_blank req.reason) ≡ false
    → error_of (cleanup_secret post req) ≢ some invalid
unfolding cleanup_secret
cleanup_secret-invalid post req h = ground (arith, h)

kinds_differ :
    (kind : String) → (kind == delete_oci_object) ≡ true → (kind == delete_secret) ≡ false
kinds_differ kind e =
    subst (λ k. (k == delete_secret) ≡ false)
      (sym ((string_eq.same_iff kind delete_oci_object).0 e)) refl

validate-object_key :
    (e : JobEvent)
    → validate e ≡ none
    → (e.kind == delete_oci_object) ≡ true
    → is_blank e.object_key ≡ false
unfolding validate
validate-object_key e v object = ground (arith, v, object, kinds_differ e.kind object)

validate-cleanup_reason :
    (e : JobEvent)
    → validate e ≡ none
    → (e.kind == delete_oci_object) ≡ false
    → (is_ok (cleanup_reason e) ≡ true) × ((is_blank e.secret_id || is_blank e.job_id) ≡ false)
unfolding validate cleanup_reason valid_reason valid_cleanup_reason
validate-cleanup_reason e v other = ground (arith, v, other)

-- The handler never answers an event that is valid with an error that wraps ErrInvalidJob, whatever
-- the API and the storage do.
pub handle_job-valid :
    (post : CleanupRequest → Option Reply) (objects : Option (String → Bool)) (e : JobEvent)
    → validate e ≡ none
    → handle_job post objects e ≢ some invalid
unfolding handle_job handle_object_delete
handle_job-valid post objects e v = elim (Bool-cases (e.kind == delete_oci_object)) [
  | inl object ↦ ground (arith, object, validate-object_key e v object)
  | inr other ↦ elim (Result-cases (cleanup_reason e)) [
    | inl (x, f) ↦ absurd (cc ((validate-cleanup_reason e v other).0, f))
    | inr (reason, f) ↦ ground (
      arith,
      other,
      f,
      (validate-cleanup_reason e v other).1,
      cleanup_secret-invalid post
          (record { secret_id = e.secret_id; job_id = e.job_id; reason = reason }),
      cleanup_reason-is_blank e reason f,
    )
  ]
]

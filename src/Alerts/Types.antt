-- ===== src/Alerts/Types.antt =====
-- The rows and the state of internal/storage/alerts.go. Times and durations are nanoseconds since
-- 1970, and 0 stands for the zero time, for NULL under COALESCE, and for a duration that is not
-- positive: the code tests those by `<= 0` before any use.
use gitops_dashboard.Prelude.{ℕ, Bool, true, false, Option, List}
use gitops_dashboard.Prelude.Text.{Text}

-- `unset` is the empty string.
pub data EventStatus : Type 0 where
  unset pending delivered failed partial reset : EventStatus

-- `other` is any string but the six constants.
pub data DispatchStatus : Type 0 where
  pending in_flight delivered dead_lettered reset skipped other : DispatchStatus

abbrev pub event_status_eq : EventStatus → EventStatus → Bool
event_status_eq EventStatus.unset EventStatus.unset = true
event_status_eq EventStatus.pending EventStatus.pending = true
event_status_eq EventStatus.delivered EventStatus.delivered = true
event_status_eq EventStatus.failed EventStatus.failed = true
event_status_eq EventStatus.partial EventStatus.partial = true
event_status_eq EventStatus.reset EventStatus.reset = true
event_status_eq _ _ = false

abbrev pub status_eq : DispatchStatus → DispatchStatus → Bool
status_eq DispatchStatus.pending DispatchStatus.pending = true
status_eq DispatchStatus.in_flight DispatchStatus.in_flight = true
status_eq DispatchStatus.delivered DispatchStatus.delivered = true
status_eq DispatchStatus.dead_lettered DispatchStatus.dead_lettered = true
status_eq DispatchStatus.reset DispatchStatus.reset = true
status_eq DispatchStatus.skipped DispatchStatus.skipped = true
status_eq DispatchStatus.other DispatchStatus.other = true
status_eq _ _ = false

-- A row of `alert_events` is an event whose `cooldown_key` is empty.
pub record AlertEvent : Type 0 where
  pub id : ℕ
  pub kind : Text
  pub service_id : Text
  pub target : Text
  pub repository : Text
  pub agent : Text
  pub old_state : Text
  pub new_state : Text
  pub reason : Text
  pub dedupe_key : Text
  pub cooldown_key : Text
  pub dedupe_hash : Text
  pub created_at : ℕ
  pub status : EventStatus

-- A row of `alert_dispatches`, and the struct read from it.
pub record AlertDispatch : Type 0 where
  pub id : ℕ
  pub event_id : ℕ
  pub sink : Text
  pub status : DispatchStatus
  pub worker_id : Text
  pub claim_id : Text
  pub attempts : ℕ
  pub last_error : Text
  pub delivered_at : Option ℕ
  pub lease_expires_at : Option ℕ
  pub next_attempt_at : ℕ
  pub updated_at : ℕ

pub record AlertDelivery : Type 0 where
  pub event : AlertEvent
  pub dispatch : AlertDispatch

-- The two tables, with the counters of their AUTOINCREMENT keys.
pub record Tables : Type 0 where
  pub events : List AlertEvent
  pub dispatches : List AlertDispatch
  pub next_event_id : ℕ
  pub next_dispatch_id : ℕ

-- Why alert writes are locked; `other_lock` is any reason that another part of the store gives.
pub data LockReason : Type 0 where
  key_unavailable sidecar_changed fingerprint_missing fingerprint_changed other_lock : LockReason

pub data AlertError : Type 0 where
  kind_required subject_required new_state_required dedupe_key_required : AlertError
  enqueue_status sink_empty sink_secret sink_not_configured sinks_required : AlertError
  conflict_without_pending : AlertError
  worker_required lease_required limit_required token_unavailable : AlertError
  dispatch_id_required claim_id_required result_status : AlertError
  row_missing dispatch_not_found claim_not_held lease_expired terminal_conflict : AlertError
  state_locked : AlertError

pub data Result {ℓ} (A : Type ℓ) : Type ℓ where
  ok : A → Result A
  err : AlertError → Result A

-- How a transaction ends. A rollback leaves the tables as they were.
pub data Outcome {ℓ} (A : Type ℓ) : Type ℓ where
  commit : Tables → Result A → Outcome A
  rollback : AlertError → Outcome A
  -- a rollback after `lockAlertState`
  rollback_locked : LockReason → Outcome A

-- The parts of `Store` that alerting uses. The two lock fields hold the messages of
-- `alertStateDurableLockMsg` and `alertStateCleanupLockMsg`, `none` for the empty one.
pub record Store : Type 0 where
  pub dedupe_key : Text
  pub redaction_tokens : List Text
  pub sink_names : List Text
  pub sink_allowlist : Bool
  pub durable_lock : Option LockReason
  pub cleanup_lock : Option LockReason
  pub fingerprint_row : Option Text
  pub tables : Tables

-- What one call takes from outside the store: the clock, the random claim token (`none` if the
-- generator fails), and the content of the key file (`none` if it cannot be read).
pub record Env : Type 0 where
  pub now : ℕ
  pub token : Option Text
  pub sidecar : Option Text

-- The keyed hash of `alertDedupeHash` and the hash of `alertDedupeKeyFingerprint`, which the
-- packages crypto/hmac, crypto/sha256 and encoding/hex compute.
pub record Hashes : Type 0 where
  pub hmac : Text → Text → Text
  pub fingerprint : Text → Text

-- ===== src/Alerts/Prepare.antt =====
-- What the operations of internal/storage/alerts.go do before they touch a table: redaction and
-- trimming of the fields, the checks of the sinks, and the check of the dedupe key.
use gitops_dashboard.Prelude.{
  Bool, true, false, not, ◌&&◌, List, [], ◌∷◌, Option, none, some, if◌then◌else◌,
}
use gitops_dashboard.Prelude.Text.{Text, is_empty, text_eq, trim_space, text_elem, insert_new}
use gitops_dashboard.Sanitizer.{redact}
use gitops_dashboard.Alerts.Types.{
  AlertEvent, AlertDispatch, AlertError, LockReason, key_unavailable, sidecar_changed,
  fingerprint_missing, fingerprint_changed, sink_empty, sink_secret, sink_not_configured,
  sinks_required, Result, ok, err, Outcome, commit, rollback, rollback_locked, state_locked, Store,
  Env, Hashes,
}

-- `strings.TrimSpace(store.redact(value))`.
unfoldable pub clean : Store → Text → Text
clean store value = trim_space (redact store.redaction_tokens value)

unfoldable pub prepare_event : Store → AlertEvent → AlertEvent
prepare_event store event = record event {
  kind = clean store event.kind;
  service_id = clean store event.service_id;
  target = clean store event.target;
  repository = clean store event.repository;
  agent = clean store event.agent;
  old_state = clean store event.old_state;
  new_state = clean store event.new_state;
  reason = clean store event.reason;
  dedupe_key = clean store event.dedupe_key;
  dedupe_hash = trim_space event.dedupe_hash;
}

-- `prepareScannedAlertDispatch`: what a caller sees of a row.
unfoldable pub prepare_dispatch : Store → AlertDispatch → AlertDispatch
prepare_dispatch store dispatch = record dispatch {
  sink = trim_space dispatch.sink;
  worker_id = clean store dispatch.worker_id;
  claim_id = trim_space dispatch.claim_id;
  last_error = clean store dispatch.last_error;
}

unfoldable pub validate_sink_identity : Store → Text → Option AlertError
validate_sink_identity store sink =
    if not (text_eq (redact store.redaction_tokens sink) sink)
    then some sink_secret
    else if store.sink_allowlist && not (text_elem sink store.sink_names)
    then some sink_not_configured
    else none

-- The loop of `prepareAlertSinks`; `prepared` holds the sinks seen so far.
unfoldable pub prepare_sinks_from : Store → List Text → List Text → Result (List Text)
prepare_sinks_from store prepared [] = elim prepared [
  | [] ↦ err sinks_required
  | s ∷ ss ↦ ok (s ∷ ss)
]
prepare_sinks_from store prepared (raw ∷ sinks) =
    let sink = trim_space raw in
    if is_empty sink then err sink_empty else elim (validate_sink_identity store sink) [
      | some e ↦ err e
      | none ↦ prepare_sinks_from store (insert_new sink prepared) sinks
    ]

unfoldable pub prepare_sinks : Store → List Text → Result (List Text)
prepare_sinks store sinks = prepare_sinks_from store [] sinks

unfoldable pub alert_dedupe_hash : Hashes → Store → Text → Text
alert_dedupe_hash hashes store raw =
    if is_empty store.dedupe_key then [] else hashes.hmac store.dedupe_key raw

-- `ensureAlertDedupeKeyCurrent`: `some` is the lock that it sets.
unfoldable pub key_problem : Hashes → Store → Env → Option LockReason
key_problem hashes store env =
    let current = hashes.fingerprint store.dedupe_key in
    if is_empty store.dedupe_key then some key_unavailable else elim env.sidecar [
      | none ↦ some sidecar_changed
      | some key ↦
          if not (text_eq (hashes.fingerprint key) current)
          then some sidecar_changed
          else elim store.fingerprint_row [
            | none ↦ some fingerprint_missing
            | some row ↦ if not (text_eq row current) then some fingerprint_changed else none
          ]
    ]

-- `alertStateLockMessage() != ""`.
unfoldable pub is_locked : Store → Bool
is_locked store = elim store.durable_lock [
  | some r ↦ true
  | none ↦ elim store.cleanup_lock [ some r ↦ true | none ↦ false ]
]

-- `lockAlertState`: the first durable lock stays.
unfoldable pub lock_alert_state : Store → LockReason → Store
lock_alert_state store reason = record store {
  durable_lock = elim store.durable_lock [ none ↦ some reason | some old ↦ some old ];
}

-- The end of a transaction.
unfoldable pub settle {ℓ} : {A : Type ℓ} → Store → Outcome A → Store × Result A
settle store (commit t r) = (record store { tables = t }, r)
settle store (rollback e) = (store, err e)
settle store (rollback_locked reason) = (lock_alert_state store reason, err state_locked)

-- A transaction goes on if the dedupe key is current.
unfoldable pub with_key {ℓ} : {A : Type ℓ} → Option LockReason → Outcome A → Outcome A
with_key none next = next
with_key (some reason) next = rollback_locked reason

-- A transaction goes on with a value, and is rolled back where there is none.
unfoldable pub require {ℓ κ} :
    {A : Type ℓ} {B : Type κ} → AlertError → Option A → (A → Outcome B) → Outcome B
require e none next = rollback e
require e (some a) next = next a

-- A transaction is rolled back with the error of a check.
unfoldable pub unless {ℓ} : {A : Type ℓ} → Option AlertError → Outcome A → Outcome A
unless none next = next
unless (some e) next = rollback e

-- A transaction goes on with the value of a check.
unfoldable pub proceed {ℓ κ} : {A : Type ℓ} {B : Type κ} → Result A → (A → Outcome B) → Outcome B
proceed (ok a) next = next a
proceed (err e) next = rollback e

-- A transaction is rolled back where a check fails.
unfoldable pub reject_if {ℓ} : {A : Type ℓ} → Bool → AlertError → Outcome A → Outcome A
reject_if true e next = rollback e
reject_if false e next = next

-- An operation on an unlocked store is a transaction.
unfoldable pub when_unlocked {ℓ} : {A : Type ℓ} → Store → Outcome A → Store × Result A
unfolding is_locked settle
when_unlocked store o = if is_locked store then (store, err state_locked) else settle store o

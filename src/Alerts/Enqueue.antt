-- ===== src/Alerts/Enqueue.antt =====
-- `EnqueueAlertEvent`: deduplication against a pending event, the cooldown after a closed one, and
-- the insertion of an event with its dispatches.
use gitops_dashboard.Prelude.{
  ℕ, ◌+◌, Bool, true, false, not, ◌&&◌, ◌||◌, List, [], ◌∷◌, ◌++◌, Option, none, some,
  if◌then◌else◌, ltb, leb, ◌==◌, head?,
}
use gitops_dashboard.Prelude.Text.{Text, is_empty, text_eq, trim_space}
use gitops_dashboard.Prelude.Rows.{select_where, exists_where, order_by}
use mathlib.Core.Option
use Prim.Native.Nat.{max}
use gitops_dashboard.Alerts.Types.{
  EventStatus, DispatchStatus, AlertEvent, AlertDispatch, Tables, AlertError, kind_required,
  subject_required, new_state_required, dedupe_key_required, enqueue_status,
  conflict_without_pending, Result, ok, Outcome, commit, Store, Env, Hashes, event_status_eq,
}
use gitops_dashboard.Alerts.Status.{is_open, tally}
use gitops_dashboard.Alerts.Prepare.{
  clean, prepare_event, prepare_sinks, alert_dedupe_hash, key_problem, when_unlocked, with_key,
  require, unless, proceed,
}

-- `ORDER BY created_at_ns DESC, id DESC`
abbrev newest_first : AlertEvent → AlertEvent → Bool
newest_first a b = ltb b.created_at a.created_at || (a.created_at == b.created_at && leb b.id a.id)

abbrev pub is_pending_for : Text → List AlertDispatch → AlertEvent → Bool
is_pending_for hash dispatches e =
    text_eq e.dedupe_hash hash
    && event_status_eq e.status EventStatus.pending
    && exists_where (λ d. d.event_id == e.id && is_open d.status) dispatches

-- `pendingAlertEventForDedupeHash`, the row before it is prepared.
unfoldable pub pending_row : Tables → Text → Option AlertEvent
pending_row t hash =
    head? (order_by newest_first (select_where (is_pending_for hash t.dispatches) t.events))

-- `MAX(COALESCE(delivered_at_ns, updated_at_ns, 0))` over the dispatches of an event.
unfoldable pub closed_at : ℕ → List AlertDispatch → ℕ
closed_at event_id [] = 0
closed_at event_id (d ∷ ds) =
    let rest = closed_at event_id ds in
    if d.event_id == event_id then max (Option.get_or d.delivered_at d.updated_at) rest else rest

-- `ORDER BY closed_at_ns DESC, id DESC`
abbrev latest_closed_first : List AlertDispatch → AlertEvent → AlertEvent → Bool
latest_closed_first ds a b =
    ltb (closed_at b.id ds) (closed_at a.id ds)
    || (closed_at a.id ds == closed_at b.id ds && leb b.id a.id)

-- The part of the two cooldown queries that they share: a closed event with no open dispatch.
abbrev pub is_closed : List AlertDispatch → AlertEvent → Bool
is_closed ds e =
    (event_status_eq e.status EventStatus.delivered || event_status_eq e.status EventStatus.partial)
    && tally is_open e.id ds == 0
    && ltb 0 (closed_at e.id ds)

-- The columns that `cooldownSuppressedAlertEventForEvent` compares.
abbrev pub same_identity : AlertEvent → AlertEvent → Bool
same_identity a b =
    text_eq a.kind b.kind
    && text_eq a.service_id b.service_id
    && text_eq a.target b.target
    && text_eq a.repository b.repository
    && text_eq a.agent b.agent
    && text_eq a.old_state b.old_state
    && text_eq a.new_state b.new_state

-- Which closed events count for the cooldown of an occurrence: with a cooldown key those of the
-- same identity, without one those of the same hash.
abbrev pub in_cooldown_group : AlertEvent → AlertEvent → Bool
in_cooldown_group event e =
    if is_empty (trim_space event.cooldown_key)
    then text_eq e.dedupe_hash event.dedupe_hash
    else same_identity e event

-- `latestCooldownAlertEventForDedupeHash`, and the query for an event with a cooldown key.
unfoldable pub latest_closed_row : Tables → AlertEvent → Option AlertEvent
latest_closed_row t event = head? (
    order_by (latest_closed_first t.dispatches)
      (select_where (λ e. in_cooldown_group event e && is_closed t.dispatches e) t.events))

-- `cooldownSuppressedAlertEventForEvent`: the event whose cooldown suppresses the occurrence.
unfoldable pub cooldown_row : Tables → AlertEvent → ℕ → Option AlertEvent
cooldown_row t event cooldown = if cooldown == 0 then none else elim (latest_closed_row t event) [
  | none ↦ none
  | some e ↦ if ltb event.created_at (closed_at e.id t.dispatches + cooldown) then some e else none
]

-- `ensurePendingAlertDispatches`: `ON CONFLICT(event_id, sink) DO NOTHING` for each sink.
abbrev pub new_dispatch : ℕ → ℕ → Text → ℕ → AlertDispatch
new_dispatch id event_id sink updated_at = record {
  id = id;
  event_id = event_id;
  sink = sink;
  status = DispatchStatus.pending;
  worker_id = [];
  claim_id = [];
  attempts = 0;
  last_error = [];
  delivered_at = none;
  lease_expires_at = none;
  next_attempt_at = 0;
  updated_at = updated_at;
}

unfoldable pub ensure_dispatch : ℕ → Text → ℕ → Tables → Tables
ensure_dispatch event_id sink updated_at t =
    if exists_where (λ d. d.event_id == event_id && text_eq d.sink sink) t.dispatches
    then t
    else record t {
      dispatches = t.dispatches ++ (new_dispatch t.next_dispatch_id event_id sink updated_at ∷ []);
      next_dispatch_id = t.next_dispatch_id + 1;
    }

unfoldable pub ensure_dispatches : ℕ → List Text → ℕ → Tables → Tables
ensure_dispatches event_id [] updated_at t = t
ensure_dispatches event_id (sink ∷ sinks) updated_at t =
    ensure_dispatches event_id sinks updated_at (ensure_dispatch event_id sink updated_at t)

-- `INSERT INTO alert_events ... ON CONFLICT DO NOTHING` under the unique index on the hash of the
-- pending events; `none` if no row was inserted.
unfoldable pub insert_event : AlertEvent → Tables → Option (Tables × ℕ)
insert_event event t =
    if not (is_empty event.dedupe_hash)
      && exists_where
          (λ e.
            event_status_eq e.status EventStatus.pending && text_eq e.dedupe_hash event.dedupe_hash)
          t.events
    then none
    else some (
      record t {
        events =
            t.events
            ++ (record event {
              id = t.next_event_id;
              cooldown_key = [];
              status = EventStatus.pending;
            }
                ∷ []);
        next_event_id = t.next_event_id + 1;
      },
      t.next_event_id,
    )

-- An occurrence that an existing pending event stands for: its missing dispatches are added.
unfoldable pub join_pending :
    Store → AlertEvent → List Text → Tables → AlertEvent → Outcome (AlertEvent × Bool)
join_pending store event sinks t existing =
    commit (ensure_dispatches existing.id sinks event.created_at t)
      (ok (prepare_event store existing, false))

-- An occurrence that gets an event of its own, if the insertion is no conflict.
unfoldable pub store_event :
    Store → AlertEvent → List Text → Tables → Option (Tables × ℕ) → Outcome (AlertEvent × Bool)
store_event store event sinks t none =
    require conflict_without_pending (pending_row t event.dedupe_hash)
      (join_pending store event sinks t)
store_event store event sinks t (some (t', id)) =
    commit (ensure_dispatches id sinks event.created_at t')
      (ok (record event { id = id; status = EventStatus.pending }, true))

-- The cooldown, and the insertion where nothing suppresses it.
unfoldable pub store_unless_cooling :
    Store → AlertEvent → List Text → Tables → Option AlertEvent → Outcome (AlertEvent × Bool)
store_unless_cooling store event sinks t none =
    store_event store event sinks t (insert_event event t)
store_unless_cooling store event sinks t (some existing) =
    commit t (ok (prepare_event store existing, false))

-- The end of `enqueueAlertEventInTx`, from the first query on.
unfoldable pub enqueue_prepared :
    Store → AlertEvent → List Text → ℕ → Tables → Outcome (AlertEvent × Bool)
enqueue_prepared store event sinks cooldown t = elim (pending_row t event.dedupe_hash) [
  | some existing ↦ join_pending store event sinks t existing
  | none ↦ store_unless_cooling store event sinks t (cooldown_row t event cooldown)
]

-- The event as `enqueueAlertEventInTx` completes it.
unfoldable pub stamp : Hashes → Store → Env → Text → AlertEvent → AlertEvent
stamp hashes store env raw_key event = record event {
  dedupe_key = clean store raw_key;
  dedupe_hash = alert_dedupe_hash hashes store raw_key;
  status = EventStatus.pending;
  created_at = if event.created_at == 0 then env.now else event.created_at;
}

-- The checks of `enqueueAlertEventInTx` on the event alone.
unfoldable pub enqueue_problem : AlertEvent → Text → Option AlertError
enqueue_problem event raw_key =
    if is_empty event.kind
    then some kind_required
    else if is_empty event.service_id && is_empty event.repository && is_empty event.agent
    then some subject_required
    else if is_empty event.new_state
    then some new_state_required
    else if is_empty raw_key
    then some dedupe_key_required
    else if not (
        event_status_eq event.status EventStatus.unset
        || event_status_eq event.status EventStatus.pending)
    then some enqueue_status
    else none

-- `enqueueAlertEventInTx`.
unfoldable pub enqueue_in_tx :
    Hashes → Store → Env → AlertEvent → List Text → ℕ → Outcome (AlertEvent × Bool)
enqueue_in_tx hashes store env raw sinks cooldown =
    let raw_key = trim_space raw.dedupe_key in
    let event = prepare_event store raw in
    unless (enqueue_problem event raw_key) (
      proceed (prepare_sinks store sinks) (λ prepared. with_key (key_problem hashes store env) (
        enqueue_prepared store (stamp hashes store env raw_key event) prepared cooldown
          store.tables)))

-- `EnqueueAlertEvent`.
unfoldable pub enqueue_alert_event :
    Hashes → Env → AlertEvent → List Text → ℕ → Store → Store × Result (AlertEvent × Bool)
enqueue_alert_event hashes env event sinks cooldown store =
    when_unlocked store (enqueue_in_tx hashes store env event sinks cooldown)

-- ===== src/Health/Produce.antt =====
-- `produceHealthAlert`: one transaction over the row of a service and the two alert tables.
use gitops_dashboard.Prelude.{
  ℕ, Bool, not, ◌&&◌, ◌||◌, List, [], ◌∷◌, ◌++◌, map, Option, none, some, if◌then◌else◌,
}
use gitops_dashboard.Prelude.Text.{Text, codes, text_eq}
use gitops_dashboard.Prelude.Rows.{select_where, find_where, exists_where, update_where}
use gitops_dashboard.Core.{health_eq, is_not_applicable}
use gitops_dashboard.Alerts.Types.{
  AlertEvent, Env, Hashes, Outcome, commit, rollback, rollback_locked, ok, err, state_locked,
}
use gitops_dashboard.Alerts.Prepare.{is_locked, lock_alert_state, alert_dedupe_hash}
use gitops_dashboard.Alerts.Enqueue.{enqueue_in_tx}
use gitops_dashboard.Health.Types.{
  StatusRow, ServiceRow, HealthAlertState, HealthAlertConfig, Formats, HealthStore,
  HealthAlertError, not_enqueued, edge_not_persisted,
}
use gitops_dashboard.Health.Rollup.{aggregate_target_health, rollup_observation_id}
use gitops_dashboard.Health.Machine.{
  Observation, first_state, back_to_stable, with_candidate, is_edge, edge_state, edge_event,
}

-- The incarnation of a service, or the name that stands for one that is not in the inventory.
unfoldable pub incarnation_of : List ServiceRow → Text → Text
incarnation_of services service_id = elim (find_where (λ row. text_eq row.id service_id) services) [
  | none ↦ codes "legacy:" ++ service_id
  | some row ↦ row.incarnation
]

-- What the statuses of a service show at a time.
unfoldable pub observe : Formats → List StatusRow → Text → ℕ → Observation
unfolding aggregate_target_health rollup_observation_id
observe formats statuses service_id at =
    let rows = select_where (λ row. text_eq row.service_id service_id) statuses in
    record {
      rollup = aggregate_target_health (map (λ row. row.health) rows);
      id = rollup_observation_id formats.timestamp rows;
      at = at;
    }

abbrev pub is_of : Text → HealthAlertState → Bool
is_of service_id s = text_eq s.service_id service_id

-- `INSERT INTO health_alert_states ... ON CONFLICT(service_id) DO UPDATE`.
unfoldable pub upsert_state : HealthAlertState → List HealthAlertState → List HealthAlertState
upsert_state s states =
    if exists_where (is_of s.service_id) states
    then update_where (is_of s.service_id) (λ old. s) states
    else states ++ (s ∷ [])

-- `UPDATE health_alert_states ... WHERE service_id=?`.
unfoldable pub update_state : HealthAlertState → List HealthAlertState → List HealthAlertState
update_state s states = update_where (is_of s.service_id) (λ old. s) states

-- The end of the transaction after the enqueueing of an edge.
unfoldable pub settle_edge :
    Hashes
    → Observation
    → HealthAlertState
    → AlertEvent
    → HealthStore
    → Outcome (AlertEvent × Bool)
    → HealthStore × Option HealthAlertError
unfolding update_state edge_state
settle_edge hashes o s event store (commit t (ok (stored, inserted))) =
    if not inserted
      && text_eq stored.dedupe_hash (alert_dedupe_hash hashes store.alerts event.dedupe_key)
    then (store, some edge_not_persisted)
    else (
      record store {
        alerts = record store.alerts { tables = t };
        states = update_state (edge_state o s) store.states;
      },
      none,
    )
settle_edge hashes o s event store (commit t (err e)) = (store, some (not_enqueued e))
settle_edge hashes o s event store (rollback e) = (store, some (not_enqueued e))
settle_edge hashes o s event store (rollback_locked reason) = (
  record store { alerts = lock_alert_state store.alerts reason },
  some (not_enqueued state_locked),
)

-- A confirmed candidate.
unfoldable pub produce_edge :
    Hashes
    → Formats
    → HealthAlertConfig
    → Env
    → Observation
    → HealthAlertState
    → HealthStore
    → HealthStore × Option HealthAlertError
unfolding settle_edge edge_event
produce_edge hashes formats config env o s store =
    let event = edge_event formats o s in
    settle_edge hashes o s event store
      (enqueue_in_tx hashes store.alerts env event config.sinks config.cooldown)

-- The branches for a row of the current incarnation.
unfoldable pub produce_known :
    Hashes
    → Formats
    → HealthAlertConfig
    → Env
    → Observation
    → HealthAlertState
    → HealthStore
    → HealthStore × Option HealthAlertError
unfolding back_to_stable with_candidate is_edge produce_edge
produce_known hashes formats config env o s store =
    let counted = with_candidate o s in
    if is_not_applicable o.rollup
    then (store, none)
    else if health_eq s.stable o.rollup
    then (record store { states = update_state (back_to_stable s) store.states }, none)
    else if not (is_edge config o counted)
    then (record store { states = update_state counted store.states }, none)
    else produce_edge hashes formats config env o counted store

-- The branches on the row.
unfoldable pub produce_observed :
    Hashes
    → Formats
    → HealthAlertConfig
    → Env
    → Text
    → Observation
    → HealthStore
    → HealthStore × Option HealthAlertError
unfolding first_state upsert_state produce_known incarnation_of
produce_observed hashes formats config env service_id o store =
    let incarnation = incarnation_of store.services service_id in
    let reset = record store {
      states = upsert_state (first_state service_id incarnation o) store.states;
    } in
    elim (find_where (is_of service_id) store.states) [
      | none ↦ (reset, none)
      | some s ↦
          if not (text_eq s.incarnation incarnation)
          then (reset, none)
          else produce_known hashes formats config env o s store
    ]

-- `produceHealthAlert`.
unfoldable pub produce_health_alert :
    Hashes
    → Formats
    → HealthAlertConfig
    → Env
    → Text
    → ℕ
    → HealthStore
    → HealthStore × Option HealthAlertError
unfolding observe produce_observed
produce_health_alert hashes formats config env service_id at store =
    if not config.enabled || is_locked store.alerts
    then (store, none)
    else produce_observed hashes formats config env service_id
        (observe formats store.statuses service_id at) store

-- ===== src/Health/Failures.antt =====
-- `produceHealthAlert` leaves the rows as they were where it fails, and keeps the alert tables
-- consistent.
use gitops_dashboard.Prelude.{
  ℕ, ◌≡◌, refl, Bool, not, ◌&&◌, ◌||◌, List, Option, none, some, inl, inr, Bool-cases, Option-cases,
}
use gitops_dashboard.Prelude.Text.{Text, text_eq}
use gitops_dashboard.Prelude.Rows.{find_where}
use gitops_dashboard.Core.{health_eq, is_not_applicable}
use gitops_dashboard.Alerts.Types.{
  AlertEvent, Env, Hashes, Outcome, commit, rollback, rollback_locked, ok, err,
}
use gitops_dashboard.Alerts.Prepare.{is_locked, alert_dedupe_hash, lock_alert_state}
use gitops_dashboard.Alerts.Enqueue.{enqueue_in_tx}
use gitops_dashboard.Alerts.Invariant.{Consistent, Commits}
use gitops_dashboard.Alerts.Invariant.Enqueue.{enqueue_in_tx-Consistent}
use gitops_dashboard.Health.Types.{
  HealthAlertState, HealthAlertConfig, Formats, HealthStore, HealthAlertError,
}
use gitops_dashboard.Health.Machine.{Observation, with_candidate, is_edge, edge_event}
use gitops_dashboard.Health.Produce.{
  incarnation_of, observe, is_of, settle_edge, produce_edge, produce_known, produce_observed,
  produce_health_alert,
}

-- A call that fails has written nothing, but the lock of the alert state.
abbrev Unwritten : HealthStore → HealthStore × Option HealthAlertError → Type 0
Unwritten store (after, none) = Unit
Unwritten store (after, some e) =
    (after.states ≡ store.states) × (after.alerts.tables ≡ store.alerts.tables)

-- The tables that a call leaves.
abbrev Sound : HealthStore × Option HealthAlertError → Type 0
Sound (after, e) = Consistent after.alerts.tables

settle_edge-Unwritten :
    (hashes : Hashes) (o : Observation) (s : HealthAlertState) (event : AlertEvent)
    (store : HealthStore) (outcome : Outcome (AlertEvent × Bool))
    → Unwritten store (settle_edge hashes o s event store outcome)
unfolding settle_edge lock_alert_state
settle_edge-Unwritten hashes o s event store (commit t (ok (e, inserted))) =
    elim (Bool-cases (
      not inserted
      && text_eq e.dedupe_hash (alert_dedupe_hash hashes store.alerts event.dedupe_key))) [
        | inl lost ↦ rw lost (refl, refl)
        | inr kept ↦ rw kept tt
      ]
settle_edge-Unwritten hashes o s event store (commit t (err e)) = (refl, refl)
settle_edge-Unwritten hashes o s event store (rollback e) = (refl, refl)
settle_edge-Unwritten hashes o s event store (rollback_locked reason) = (refl, refl)

settle_edge-Sound :
    (hashes : Hashes) (o : Observation) (s : HealthAlertState) (event : AlertEvent)
    (store : HealthStore) (outcome : Outcome (AlertEvent × Bool))
    → Consistent store.alerts.tables
    → Commits Consistent outcome
    → Sound (settle_edge hashes o s event store outcome)
unfolding settle_edge lock_alert_state
settle_edge-Sound hashes o s event store (commit t (ok (e, inserted))) c h =
    elim (Bool-cases (
      not inserted
      && text_eq e.dedupe_hash (alert_dedupe_hash hashes store.alerts event.dedupe_key))) [
        | inl lost ↦ rw lost c
        | inr kept ↦ rw kept h.holds
      ]
settle_edge-Sound hashes o s event store (commit t (err e)) c h = c
settle_edge-Sound hashes o s event store (rollback e) c h = c
settle_edge-Sound hashes o s event store (rollback_locked reason) c h = c

module _ (hashes : Hashes) (formats : Formats) (config : HealthAlertConfig) (env : Env) where
  -- What holds of a result that leaves the alerts, and of the result of an edge, holds of each call.
  produce_known-cases :
      (P : HealthStore × Option HealthAlertError → Type 0) (store : HealthStore)
      → ((states : List HealthAlertState) → P (record store { states = states }, none))
      → ((o : Observation) (s : HealthAlertState)
          → P (produce_edge hashes formats config env o s store))
      → (o : Observation) (s : HealthAlertState)
      → P (produce_known hashes formats config env o s store)
  unfolding produce_known
  produce_known-cases P store quiet edge o s = elim (Bool-cases (is_not_applicable o.rollup)) [
    | inl e ↦ rw e (quiet store.states)
    | inr e ↦ elim (Bool-cases (health_eq s.stable o.rollup)) [
      | inl f ↦ rw (e, f) (quiet _)
      | inr f ↦ elim (Bool-cases (is_edge config o (with_candidate o s))) [
        | inl g ↦ rw (e, f, g) (edge o (with_candidate o s))
        | inr g ↦ rw (e, f, g) (quiet _)
      ]
    ]
  ]

  produce_health_alert-cases :
      (P : HealthStore × Option HealthAlertError → Type 0) (store : HealthStore)
      → ((states : List HealthAlertState) → P (record store { states = states }, none))
      → ((o : Observation) (s : HealthAlertState)
          → P (produce_edge hashes formats config env o s store))
      → (service_id : Text) (at : ℕ)
      → P (produce_health_alert hashes formats config env service_id at store)
  unfolding produce_health_alert produce_observed
  produce_health_alert-cases P store quiet edge service_id at =
      let o = observe formats store.statuses service_id at in
      elim (Bool-cases (not config.enabled || is_locked store.alerts)) [
        | inl off ↦ rw off (quiet store.states)
        | inr on ↦ elim (Option-cases (find_where (is_of service_id) store.states)) [
          | inl new ↦ rw (on, new, produce_observed) (quiet _)
          | inr (s, old) ↦
              elim (Bool-cases (text_eq s.incarnation (incarnation_of store.services service_id))) [
                | inl same ↦
                    rw (on, old, produce_observed)
                      (rw same (produce_known-cases P store quiet edge o s))
                | inr other ↦ rw (on, old, produce_observed) (rw other (quiet _))
              ]
        ]
      ]

-- Where produceHealthAlert fails, whatever the error is, the rows of the health alerts and the
-- alert tables are as they were.
pub produce_health_alert-fails :
    (hashes : Hashes) (formats : Formats) (config : HealthAlertConfig) (env : Env)
    (service_id : Text) (at : ℕ) (store : HealthStore) (e : HealthAlertError)
    → (produce_health_alert hashes formats config env service_id at store).1 ≡ some e
    → ((produce_health_alert hashes formats config env service_id at store).0.states ≡ store.states)
      × ((produce_health_alert hashes formats config env service_id at store).0.alerts.tables
          ≡ store.alerts.tables)
unfolding produce_edge
produce_health_alert-fails hashes formats config env service_id at store e h =
    failed (produce_health_alert hashes formats config env service_id at store)
      (produce_health_alert-cases hashes formats config env (Unwritten store) store (λ states. tt)
        (λ o s. settle_edge-Unwritten hashes o s (edge_event formats o s) store (
          enqueue_in_tx hashes store.alerts env (edge_event formats o s) config.sinks
            config.cooldown))
        service_id at)
      h
  where
    failed :
        (r : HealthStore × Option HealthAlertError)
        → Unwritten store r
        → r.1 ≡ some e
        → (r.0.states ≡ store.states) × (r.0.alerts.tables ≡ store.alerts.tables)
    failed (after, none) u h = cc
    failed (after, some f) u h = u

-- produceHealthAlert keeps consistent alert tables consistent, however it ends.
pub produce_health_alert-Consistent :
    (hashes : Hashes) (formats : Formats) (config : HealthAlertConfig) (env : Env)
    (service_id : Text) (at : ℕ) (store : HealthStore)
    → Consistent store.alerts.tables
    → Consistent
        (produce_health_alert hashes formats config env service_id at store).0.alerts.tables
unfolding produce_edge
produce_health_alert-Consistent hashes formats config env service_id at store c =
    produce_health_alert-cases hashes formats config env Sound store (λ states. c)
      (λ o s.
        settle_edge-Sound hashes o s (edge_event formats o s) store
          (enqueue_in_tx hashes store.alerts env (edge_event formats o s) config.sinks
            config.cooldown)
          c
          (enqueue_in_tx-Consistent hashes env (edge_event formats o s) config.sinks config.cooldown
            store.alerts c))
      service_id at

-- ===== src/Health/Promised.antt =====
-- `produceHealthAlert` keeps the promise of the health alerts.
use gitops_dashboard.Prelude.{ℕ, ◌≡◌, refl, ◌∙◌, true, false, [], none, inl, inr, Bool-cases}
use gitops_dashboard.Prelude.Text.{Text, text_eq, text_eq_refl}
use gitops_dashboard.Core.{health_eq, is_not_applicable}
use gitops_dashboard.Alerts.Types.{Env, Hashes}
use gitops_dashboard.Alerts.Prepare.{is_locked}
use gitops_dashboard.Health.Types.{HealthAlertState, HealthAlertConfig, Formats, HealthStore}
use gitops_dashboard.Health.Machine.{
  Observation, back_to_stable, with_candidate, edge_event, count_candidate, start_failure,
}
use gitops_dashboard.Health.Produce.{
  incarnation_of, observe, produce_edge, produce_known, produce_observed, produce_health_alert,
}
use gitops_dashboard.Health.Spec.{Promise, extend, confirms, reports, promise_step}
use gitops_dashboard.Health.Refines.{
  with_candidate-Represents, is_edge-confirms, back_to_stable-Represents,
}
use gitops_dashboard.Health.Stored.{Stored, succeeded, Stored-update, settle_edge-Stored}

with_candidate-same :
    (o : Observation) (s : HealthAlertState)
    → ((with_candidate o s).service_id ≡ s.service_id)
      × ((with_candidate o s).incarnation ≡ s.incarnation)
unfolding with_candidate start_failure count_candidate
with_candidate-same o s = elim (Bool-cases (health_eq s.candidate o.rollup)) [
  | inr other ↦ rw other (refl, refl)
  | inl agreed ↦ elim (Bool-cases (text_eq s.candidate_observation o.id)) [
    | inl again ↦ rw (agreed, again) (refl, refl)
    | inr fresh ↦ rw (agreed, fresh) (refl, refl)
  ]
]

produce_known-Stored :
    (hashes : Hashes) (formats : Formats) (config : HealthAlertConfig) (env : Env) (o : Observation)
    (service_id : Text) (p : Promise) (store : HealthStore) (stored : Stored store service_id p)
    → Stored (produce_known hashes formats config env o stored.row store).0 service_id (
        promise_step config.stability_samples config.debounce
          (succeeded (produce_known hashes formats config env o stored.row store).1)
          o
          p)
unfolding produce_known promise_step produce_edge back_to_stable
produce_known-Stored hashes formats config env o service_id p store stored =
    let s = stored.row in
    let counted = with_candidate o s in
    let same = with_candidate-same o s in
    elim (Bool-cases (is_not_applicable o.rollup)) [
      | inl ignored ↦ rw ignored stored
      | inr applies ↦ elim (Bool-cases (health_eq p.reported o.rollup)) [
        | inl back ↦
            let row_back : health_eq s.stable o.rollup ≡ true =
              rw stored.represents.same_stable back in
            rw (applies, row_back, back)
              (Stored-update store store.alerts service_id p
                (record { reported = p.reported; streak = [] }) stored (back_to_stable s) refl refl
                (back_to_stable-Represents s p.reported p.streak stored.represents))
        | inr apart ↦
            let r = with_candidate-Represents o s p.reported p.streak stored.represents apart in
            let row_apart : health_eq s.stable o.rollup ≡ false =
              rw stored.represents.same_stable apart in
            let agreed = is_edge-confirms config o counted p.reported (extend o p.streak) r in
            elim (Bool-cases
              (confirms config.stability_samples config.debounce o (extend o p.streak))) [
                | inr early ↦
                    rw (applies, row_apart, apart, agreed, early)
                      (Stored-update store store.alerts service_id p
                        (record { reported = p.reported; streak = extend o p.streak }) stored
                        counted same.0 same.1 r)
                | inl edge ↦
                    rw (applies, row_apart, apart, agreed, edge)
                      (settle_edge-Stored hashes o counted (edge_event formats o counted) store
                        service_id p stored same.0 same.1 _)
              ]
      ]
    ]

produce_observed-known :
    (hashes : Hashes) (formats : Formats) (config : HealthAlertConfig) (env : Env) (o : Observation)
    (service_id : Text) (p : Promise) (store : HealthStore) (stored : Stored store service_id p)
    → produce_observed hashes formats config env service_id o store
      ≡ produce_known hashes formats config env o stored.row store
unfolding produce_observed
produce_observed-known hashes formats config env o service_id p store stored =
    let current : text_eq stored.row.incarnation (incarnation_of store.services service_id) ≡ true =
      rw stored.current (text_eq_refl (incarnation_of store.services service_id)) in
    rw (stored.found, produce_observed) (rw current refl)

pub produce_observed-Stored :
    (hashes : Hashes) (formats : Formats) (config : HealthAlertConfig) (env : Env) (o : Observation)
    (service_id : Text) (p : Promise) (store : HealthStore)
    → Stored store service_id p
    → Stored (produce_observed hashes formats config env service_id o store).0 service_id (
        promise_step config.stability_samples config.debounce
          (succeeded (produce_observed hashes formats config env service_id o store).1)
          o
          p)
produce_observed-Stored hashes formats config env o service_id p store stored =
    rw (produce_observed-known hashes formats config env o service_id p store stored)
      (produce_known-Stored hashes formats config env o service_id p store stored)

produce_health_alert-known :
    (hashes : Hashes) (formats : Formats) (config : HealthAlertConfig) (env : Env)
    (service_id : Text) (at : ℕ) (p : Promise) (store : HealthStore)
    → config.enabled ≡ true
    → is_locked store.alerts ≡ false
    → (stored : Stored store service_id p)
    → produce_health_alert hashes formats config env service_id at store
      ≡ produce_known hashes formats config env
          (observe formats store.statuses service_id at)
          stored.row
          store
unfolding produce_health_alert
produce_health_alert-known hashes formats config env service_id at p store enabled free stored =
    rw (enabled, free)
      (produce_observed-known hashes formats config env
        (observe formats store.statuses service_id at) service_id p store stored)

-- Where alerts are enabled and not locked and the row of a service, of the service's incarnation,
-- stands for a promise (the reported health, and the streak of the observations since that agree
-- on another), the row after produceHealthAlert stands for the promise after one step of the
-- specification, for the observation of the stored statuses: the step reports exactly when the
-- streak has enough distinct observations over a long enough time, and keeps the promise where the
-- call failed.
pub produce_health_alert-promise :
    (hashes : Hashes) (formats : Formats) (config : HealthAlertConfig) (env : Env)
    (service_id : Text) (at : ℕ) (p : Promise) (store : HealthStore)
    → config.enabled ≡ true
    → is_locked store.alerts ≡ false
    → Stored store service_id p
    → Stored (produce_health_alert hashes formats config env service_id at store).0 service_id (
        promise_step config.stability_samples config.debounce
          (succeeded (produce_health_alert hashes formats config env service_id at store).1)
          (observe formats store.statuses service_id at)
          p)
produce_health_alert-promise hashes formats config env service_id at p store enabled free stored =
    rw
      (produce_health_alert-known hashes formats config env service_id at p store enabled free
        stored)
      (produce_known-Stored hashes formats config env (observe formats store.statuses service_id at)
        service_id p store stored)

produce_known-quiet :
    (hashes : Hashes) (formats : Formats) (config : HealthAlertConfig) (env : Env) (o : Observation)
    (service_id : Text) (p : Promise) (store : HealthStore) (stored : Stored store service_id p)
    → reports config.stability_samples config.debounce o p ≡ false
    → ((produce_known hashes formats config env o stored.row store).0.alerts ≡ store.alerts)
      × ((produce_known hashes formats config env o stored.row store).1 ≡ none)
unfolding produce_known reports
produce_known-quiet hashes formats config env o service_id p store stored silent =
    let s = stored.row in
    elim (Bool-cases (is_not_applicable o.rollup)) [
      | inl ignored ↦ rw ignored (refl, refl)
      | inr applies ↦ elim (Bool-cases (health_eq p.reported o.rollup)) [
        | inl back ↦
            let row_back : health_eq s.stable o.rollup ≡ true =
              rw stored.represents.same_stable back in
            rw (applies, row_back) (refl, refl)
        | inr apart ↦
            let r = with_candidate-Represents o s p.reported p.streak stored.represents apart in
            let row_apart : health_eq s.stable o.rollup ≡ false =
              rw stored.represents.same_stable apart in
            let early =
              is_edge-confirms config o (with_candidate o s) p.reported (extend o p.streak) r
              ∙ (rw (applies, apart) at silent) in
            rw (applies, row_apart, early) (refl, refl)
      ]
    ]

-- Where alerts are enabled and not locked and the row of a service stands for a promise,
-- produceHealthAlert leaves the alert state as it is and succeeds, if the specification does not
-- report the observation.
pub produce_health_alert-quiet :
    (hashes : Hashes) (formats : Formats) (config : HealthAlertConfig) (env : Env)
    (service_id : Text) (at : ℕ) (p : Promise) (store : HealthStore)
    → config.enabled ≡ true
    → is_locked store.alerts ≡ false
    → Stored store service_id p
    → reports config.stability_samples config.debounce
        (observe formats store.statuses service_id at)
        p
      ≡ false
    → ((produce_health_alert hashes formats config env service_id at store).0.alerts ≡ store.alerts)
      × ((produce_health_alert hashes formats config env service_id at store).1 ≡ none)
produce_health_alert-quiet hashes formats config env service_id at p store enabled free stored
      silent =
    rw
      (produce_health_alert-known hashes formats config env service_id at p store enabled free
        stored)
      (produce_known-quiet hashes formats config env (observe formats store.statuses service_id at)
        service_id p store stored silent)

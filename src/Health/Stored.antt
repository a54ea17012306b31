-- ===== src/Health/Stored.antt =====
-- The row of a service that stands for its promise, through an update and an edge.
use gitops_dashboard.Prelude.{
  ◌≡◌, sym, ◌∙◌, subst, Bool, true, false, not, ◌&&◌, List, [], Option, none, some, if◌then◌else◌,
  inl, inr, Bool-cases,
}
use gitops_dashboard.Prelude.Text.{Text, text_eq, text_eq→eq, text_eq_refl}
use gitops_dashboard.Prelude.Rows.{
  find_where, find_where-some, update_where, find_where-update_where,
}
use gitops_dashboard.Alerts.Types.{
  AlertEvent, Store, Hashes, Outcome, commit, rollback, rollback_locked, ok, err,
}
use gitops_dashboard.Alerts.Prepare.{alert_dedupe_hash}
use gitops_dashboard.Health.Types.{HealthAlertState, HealthStore, HealthAlertError}
use gitops_dashboard.Health.Machine.{Observation, edge_state}
use gitops_dashboard.Health.Produce.{incarnation_of, is_of, update_state, settle_edge}
use gitops_dashboard.Health.Spec.{Promise}
use gitops_dashboard.Health.Refines.{Represents, edge_state-Represents}

-- The service has a row of its incarnation that stands for the promise.
pub record Stored (store : HealthStore) (service_id : Text) (p : Promise) : Type 0 where
  pub row : HealthAlertState
  pub found : find_where (is_of service_id) store.states ≡ some row
  pub current : row.incarnation ≡ incarnation_of store.services service_id
  pub represents : Represents row p.reported p.streak

abbrev pub succeeded : Option HealthAlertError → Bool
succeeded none = true
succeeded (some e) = false

update_state-found :
    (service_id : Text) (s s' : HealthAlertState) (states : List HealthAlertState)
    → find_where (is_of service_id) states ≡ some s
    → s'.service_id ≡ s.service_id
    → find_where (is_of service_id) (update_state s' states) ≡ some s'
unfolding update_state
update_state-found service_id s s' states found same =
    let (m, named) = find_where-some (is_of service_id) s states found in
    let id : s'.service_id ≡ service_id = same ∙ text_eq→eq s.service_id service_id named in
    subst (λ i. find_where (is_of service_id) (update_where (is_of i) (λ old. s') states) ≡ some s')
      (sym id)
      (find_where-update_where (is_of service_id) (λ old. s') s states found
        (subst (λ i. text_eq i service_id ≡ true) (sym id) (text_eq_refl service_id)))

-- A written row takes the place of the one that was found.
pub Stored-update :
    (store : HealthStore) (alerts : Store) (service_id : Text) (p p' : Promise)
    (stored : Stored store service_id p) (s' : HealthAlertState)
    → s'.service_id ≡ stored.row.service_id
    → s'.incarnation ≡ stored.row.incarnation
    → Represents s' p'.reported p'.streak
    → Stored (record store { alerts = alerts; states = update_state s' store.states }) service_id p'
Stored-update store alerts service_id p p' stored s' same version r = record {
  row = s';
  found = update_state-found service_id stored.row s' store.states stored.found same;
  current = version ∙ stored.current;
  represents = r;
}

-- The alerts do not enter into it.
Stored-alerts :
    (store : HealthStore) (alerts : Store) (service_id : Text) (p : Promise)
    → Stored store service_id p
    → Stored (record store { alerts = alerts }) service_id p
Stored-alerts store alerts service_id p stored = record {
  row = stored.row;
  found = stored.found;
  current = stored.current;
  represents = stored.represents;
}

-- An edge reports the rollup, or leaves the row.
abbrev pub after_edge : Bool → Observation → Promise → Promise
after_edge accepted o p = if accepted then record { reported = o.rollup; streak = [] } else p

pub settle_edge-Stored :
    (hashes : Hashes) (o : Observation) (s : HealthAlertState) (event : AlertEvent)
    (store : HealthStore) (service_id : Text) (p : Promise) (stored : Stored store service_id p)
    → s.service_id ≡ stored.row.service_id
    → s.incarnation ≡ stored.row.incarnation
    → (outcome : Outcome (AlertEvent × Bool))
    → Stored
        (settle_edge hashes o s event store outcome).0
        service_id
        (after_edge (succeeded (settle_edge hashes o s event store outcome).1) o p)
unfolding settle_edge edge_state
settle_edge-Stored hashes o s event store service_id p stored same version
      (commit t (ok (e, inserted))) =
    elim (Bool-cases (
      not inserted
      && text_eq e.dedupe_hash (alert_dedupe_hash hashes store.alerts event.dedupe_key))) [
        | inl lost ↦ rw lost stored
        | inr kept ↦ rw kept (
            Stored-update store (record store.alerts { tables = t }) service_id p
              (record { reported = o.rollup; streak = [] }) stored (edge_state o s) same version
              (edge_state-Represents o s))
      ]
settle_edge-Stored hashes o s event store service_id p stored same version (commit t (err e)) =
    stored
settle_edge-Stored hashes o s event store service_id p stored same version (rollback e) = stored
settle_edge-Stored hashes o s event store service_id p stored same version
      (rollback_locked reason) =
    Stored-alerts store _ service_id p stored

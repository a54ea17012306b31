-- ===== src/Alerts/Claim.antt =====
-- `ClaimPendingAlertDeliveries`: the dead-lettering of expired dispatches with no attempt left, and
-- the lease of the due ones to a worker.
use gitops_dashboard.Prelude.{
  ℕ, ◌+◌, Bool, ◌&&◌, ◌||◌, List, [], ◌∷◌, ◌++◌, none, some, if◌then◌else◌, ltb, leb, ◌==◌, map,
  take, id_elem,
}
use gitops_dashboard.Prelude.Text.{Text, codes, is_empty, text_eq, text_lt}
use gitops_dashboard.Prelude.Rows.{select_where, update_where, order_by}
use mathlib.Core.Option
use gitops_dashboard.Alerts.Types.{
  DispatchStatus, AlertEvent, AlertDispatch, AlertDelivery, Tables, worker_required, lease_required,
  limit_required, token_unavailable, Result, ok, Outcome, commit, Store, Env, Hashes, status_eq,
}
use gitops_dashboard.Alerts.Policy.{AlertRetryPolicy, normalized}
use gitops_dashboard.Alerts.Status.{sync_event_status}
use gitops_dashboard.Alerts.Prepare.{
  clean, prepare_event, prepare_dispatch, key_problem, when_unlocked, with_key, require, reject_if,
}

abbrev pub lease_expired_text : Text
lease_expired_text = codes "alert dispatch lease expired"

abbrev pub is_in_flight : AlertDispatch → Bool
is_in_flight d = status_eq d.status DispatchStatus.in_flight

-- In flight with a lease that has run out.
abbrev pub is_expired : ℕ → AlertDispatch → Bool
is_expired now d = is_in_flight d && leb (Option.get_or d.lease_expires_at 0) now

-- Expired with no attempt left.
abbrev pub is_exhausted : ℕ → ℕ → AlertDispatch → Bool
is_exhausted now max_attempts d = is_expired now d && leb max_attempts (d.attempts + 1)

abbrev pub dead_letter : ℕ → AlertDispatch → AlertDispatch
dead_letter now d = record d {
  attempts = d.attempts + 1;
  status = DispatchStatus.dead_lettered;
  worker_id = [];
  claim_id = [];
  lease_expires_at = none;
  next_attempt_at = 0;
  last_error = lease_expired_text;
  updated_at = now;
}

-- `SELECT DISTINCT event_id` in order of the rows.
unfoldable pub event_ids : List AlertDispatch → List ℕ
event_ids [] = []
event_ids (d ∷ ds) =
    let rest = event_ids ds in if id_elem d.event_id rest then rest else d.event_id ∷ rest

-- The UPDATE of `deadLetterExpiredAlertDispatches`.
unfoldable pub dead_letter_expired : ℕ → ℕ → Tables → Tables
dead_letter_expired now max_attempts t = record t {
  dispatches = update_where (is_exhausted now max_attempts) (dead_letter now) t.dispatches;
}

unfoldable pub sync_all : List ℕ → Tables → Tables
sync_all [] t = t
sync_all (i ∷ ids) t = sync_all ids (sync_event_status i t)

-- The events whose dispatches are dead-lettered, as selected before the UPDATE, are synced after.
unfoldable pub expire : ℕ → ℕ → Tables → Tables
expire now max_attempts t =
    sync_all (event_ids (select_where (is_exhausted now max_attempts) t.dispatches))
      (dead_letter_expired now max_attempts t)

-- `alert_events e JOIN alert_dispatches d ON d.event_id=e.id`
unfoldable pub joined : List AlertEvent → List AlertDispatch → List AlertDelivery
joined [] ds = []
joined (e ∷ es) ds =
    map (λ d. record { event = e; dispatch = d }) (select_where (λ d. d.event_id == e.id) ds)
    ++ joined es ds

-- `ORDER BY e.created_at_ns ASC, e.id ASC, d.sink ASC`
abbrev pub delivery_order : AlertDelivery → AlertDelivery → Bool
delivery_order a b =
    ltb a.event.created_at b.event.created_at
    || (a.event.created_at == b.event.created_at
        && (ltb a.event.id b.event.id
            || (a.event.id == b.event.id
                && (text_lt a.dispatch.sink b.dispatch.sink
                    || text_eq a.dispatch.sink b.dispatch.sink))))

abbrev pub is_due : ℕ → ℕ → AlertDispatch → Bool
is_due now max_attempts d =
    (status_eq d.status DispatchStatus.pending && leb d.next_attempt_at now)
    || (is_expired now d && ltb (d.attempts + 1) max_attempts)

-- The ids of the subquery of the claim.
unfoldable pub due_ids : ℕ → ℕ → ℕ → Tables → List ℕ
due_ids now max_attempts limit t =
    map (λ x. x.dispatch.id)
      (take limit (
        order_by delivery_order
          (select_where (λ x. is_due now max_attempts x.dispatch) (joined t.events t.dispatches))))

-- The SET part of the claim. The CASE expressions read the row as it was.
abbrev pub lease_to : Text → Text → ℕ → ℕ → AlertDispatch → AlertDispatch
lease_to worker claim now lease d = record d {
  status = DispatchStatus.in_flight;
  worker_id = worker;
  claim_id = claim;
  lease_expires_at = some (now + lease);
  next_attempt_at = 0;
  attempts = d.attempts + (if is_in_flight d then 1 else 0);
  last_error = if is_in_flight d then lease_expired_text else d.last_error;
  updated_at = now;
}

unfoldable pub lease_due : Text → Text → ℕ → ℕ → List ℕ → Tables → Tables
lease_due worker claim now lease ids t = record t {
  dispatches = update_where (λ d. id_elem d.id ids) (lease_to worker claim now lease) t.dispatches;
}

-- The deliveries that a worker holds under a claim, in order.
unfoldable pub claimed : Text → Text → Tables → List AlertDelivery
claimed worker claim t = order_by delivery_order (
    select_where
      (λ x.
        is_in_flight x.dispatch
        && text_eq x.dispatch.worker_id worker
        && text_eq x.dispatch.claim_id claim)
      (joined t.events t.dispatches))

abbrev pub prepare_delivery : Store → AlertDelivery → AlertDelivery
prepare_delivery store x = record {
  event = prepare_event store x.event;
  dispatch = prepare_dispatch store x.dispatch;
}

-- The tables after a claim.
unfoldable pub claim_tables : ℕ → ℕ → ℕ → ℕ → Text → Text → Tables → Tables
claim_tables now lease limit max_attempts worker claim t =
    let t' = expire now max_attempts t in
    lease_due worker claim now lease (due_ids now max_attempts limit t') t'

-- `claimPendingAlertDeliveriesOnce`.
unfoldable pub claim_in_tx :
    Hashes → Store → Env → Text → ℕ → ℕ → AlertRetryPolicy → Outcome (List AlertDelivery)
claim_in_tx hashes store env raw_worker lease limit policy =
    let worker = clean store raw_worker in
    reject_if (is_empty worker) worker_required (
      reject_if (lease == 0) lease_required (
        reject_if (limit == 0) limit_required (
          with_key (key_problem hashes store env) (
            require token_unavailable env.token (λ claim.
              let t =
                claim_tables env.now lease limit policy.max_attempts worker claim store.tables in
              commit t (ok (map (prepare_delivery store) (claimed worker claim t))))))))

-- `ClaimPendingAlertDeliveriesWithRetryPolicy`.
unfoldable pub claim_pending_deliveries :
    Hashes → Env → Text → ℕ → ℕ → AlertRetryPolicy → Store → Store × Result (List AlertDelivery)
claim_pending_deliveries hashes env worker lease limit policy store =
    when_unlocked store (claim_in_tx hashes store env worker lease limit (normalized policy))

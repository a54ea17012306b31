-- ===== src/Alerter/Worker.antt =====
-- The worker of internal/alerter/alerter.go. What a sink answers comes from outside; the deliveries
-- of a poll, which run at once, are a sequence of calls, each with its own clock.
use gitops_dashboard.Prelude.{ℕ, not, List, [], ◌∷◌, ◌++◌, Option, none, some, if◌then◌else◌}
use gitops_dashboard.Prelude.Text.{Text, codes, text_eq}
use gitops_dashboard.Alerts.Types.{
  AlertEvent, AlertDelivery, DispatchStatus, Store, Env, Hashes, Result, ok, err,
}
use gitops_dashboard.Alerts.Policy.{AlertRetryPolicy}
use gitops_dashboard.Alerts.Claim.{claim_pending_deliveries}
use gitops_dashboard.Alerts.Record.{record_dispatch_result}
use gitops_dashboard.Alerter.Routing.{SinkFilters, matches}

pub record Sink : Type 0 where
  pub name : Text
  pub filters : SinkFilters

pub record Worker : Type 0 where
  pub sinks : List Sink
  pub retry_policy : AlertRetryPolicy
  pub lease_duration : ℕ
  pub claim_batch : ℕ
  pub worker_id : Text

-- `w.sinks[name]`: the keys of the map are the names of the sinks.
unfoldable pub sink_of : Text → List Sink → Option Sink
sink_of name [] = none
sink_of name (s ∷ sinks) = if text_eq s.name name then some s else sink_of name sinks

-- The error that a sink's `Deliver` answers with for an event, `none` if it answers with none.
abbrev pub Answers : Type 0
Answers = Sink → AlertEvent → Option Text

-- What `deliverOne` hands to `complete`.
unfoldable pub answer_of : Answers → Sink → AlertEvent → DispatchStatus × Text
answer_of answers sink event = elim (answers sink event) [
  | none ↦ (DispatchStatus.delivered, [])
  | some e ↦ (DispatchStatus.pending, sink.name ++ codes ": " ++ e)
]

unfoldable pub outcome_of : Answers → List Sink → AlertDelivery → DispatchStatus × Text
outcome_of answers sinks delivery = elim (sink_of delivery.dispatch.sink sinks) [
  | none ↦ (DispatchStatus.skipped, [])
  | some sink ↦
      if not (matches sink.filters delivery.event)
      then (DispatchStatus.skipped, [])
      else answer_of answers sink delivery.event
]

-- `deliverOne` with `complete`.
unfoldable pub deliver_one : Hashes → Worker → Answers → Env → AlertDelivery → Store → Store
deliver_one hashes w answers env delivery store =
    let outcome = outcome_of answers w.sinks delivery in
    (record_dispatch_result hashes env
      (record {
        dispatch_id = delivery.dispatch.id;
        worker = w.worker_id;
        claim = delivery.dispatch.claim_id;
        status = outcome.0;
        last_error = outcome.1;
      })
      w.retry_policy store).0

unfoldable pub deliver_all :
    Hashes → Worker → Answers → (AlertDelivery → Env) → List AlertDelivery → Store → Store
deliver_all hashes w answers envs [] store = store
deliver_all hashes w answers envs (delivery ∷ deliveries) store =
    deliver_all hashes w answers envs deliveries
      (deliver_one hashes w answers (envs delivery) delivery store)

abbrev pub deliver_result :
    Hashes → Worker → Answers → (AlertDelivery → Env) → Store × Result (List AlertDelivery) → Store
deliver_result hashes w answers envs (store, ok deliveries) =
    deliver_all hashes w answers envs deliveries store
deliver_result hashes w answers envs (store, err e) = store

-- `pollOnce`.
unfoldable pub poll_once : Hashes → Worker → Answers → Env → (AlertDelivery → Env) → Store → Store
poll_once hashes w answers env envs store = deliver_result hashes w answers envs (
    claim_pending_deliveries hashes env w.worker_id w.lease_duration w.claim_batch w.retry_policy
      store)

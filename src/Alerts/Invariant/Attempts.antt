-- ===== src/Alerts/Invariant/Attempts.antt =====
-- No dispatch is attempted more often than the retry policy allows.
use gitops_dashboard.Prelude.{ℕ, List}
use gitops_dashboard.Prelude.Text.{Text}
use gitops_dashboard.Alerts.Types.{AlertEvent, Store, Env, Hashes}
use gitops_dashboard.Alerts.Policy.{AlertRetryPolicy, normalized}
use gitops_dashboard.Alerts.Claim.{claim_pending_deliveries}
use gitops_dashboard.Alerts.Record.{Completion, record_dispatch_result}
use gitops_dashboard.Alerts.Invariant.{Consistent}
use gitops_dashboard.Alerts.Invariant.Claim.{claim_pending_deliveries-Consistent}
use gitops_dashboard.Alerts.Policy.Bounds.{normalized_lem}
use gitops_dashboard.Alerts.Enqueue.{enqueue_alert_event}
use gitops_dashboard.Alerts.Invariant.Record.{record_dispatch_result-Consistent}
use gitops_dashboard.Alerts.Invariant.Enqueue.{enqueue_alert_event-Consistent}
use gitops_dashboard.Alerts.Invariant.History.{Many}
use gitops_dashboard.Alerts.Invariant.Within.{
  Within, enqueue_alert_event-Within, claim_pending_deliveries-Within,
  record_dispatch_result-Within,
}

-- The operations of a program that has one retry policy.
pub data PolicyWork (hashes : Hashes) (policy : AlertRetryPolicy) : Store → Store → Type 0 where
  enqueue :
      (env : Env) (event : AlertEvent) (sinks : List Text) (cooldown : ℕ) (store : Store)
      → PolicyWork hashes policy store (enqueue_alert_event hashes env event sinks cooldown store).0
  claim :
      (env : Env) (worker : Text) (lease limit : ℕ) (store : Store)
      → PolicyWork hashes policy store
          (claim_pending_deliveries hashes env worker lease limit policy store).0
  record_result :
      (env : Env) (c : Completion) (store : Store)
      → PolicyWork hashes policy store (record_dispatch_result hashes env c policy store).0

-- Under one retry policy no dispatch is ever attempted more often than the normalized policy
-- allows, and an open one has an attempt left, if that holds at the start of the history and the
-- tables are consistent there.
pub history-attempts :
    (hashes : Hashes) (policy : AlertRetryPolicy) (a b : Store)
    → Consistent a.tables
    → Within (normalized policy).max_attempts a.tables
    → Many (PolicyWork hashes policy) a b
    → Consistent b.tables × Within (normalized policy).max_attempts b.tables
history-attempts hashes policy a b c h Many.stop = (c, h)
history-attempts hashes policy a b c h (Many.next {b = m} before s) =
    let (c', h') = history-attempts hashes policy a m c h before in one m b s c' h'
  where
    one :
        (a b : Store)
        → PolicyWork hashes policy a b
        → Consistent a.tables
        → Within (normalized policy).max_attempts a.tables
        → Consistent b.tables × Within (normalized policy).max_attempts b.tables
    one a b (PolicyWork.enqueue env event sinks cooldown s) c h = (
      enqueue_alert_event-Consistent hashes env event sinks cooldown s c,
      enqueue_alert_event-Within _ hashes env event sinks cooldown s (normalized_lem policy).0 h,
    )
    one a b (PolicyWork.claim env worker lease limit s) c h = (
      claim_pending_deliveries-Consistent hashes env worker lease limit policy s c,
      claim_pending_deliveries-Within hashes env worker lease limit policy s c h,
    )
    one a b (PolicyWork.record_result env r s) c h = (
      record_dispatch_result-Consistent hashes env r policy s c,
      record_dispatch_result-Within hashes env r policy s c.keyed h,
    )

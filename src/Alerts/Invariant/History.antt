-- ===== src/Alerts/Invariant/History.antt =====
-- Histories of the alert tables: the operations in any order, by any number of workers.
use gitops_dashboard.Prelude.{ℕ, ◌≡◌, false, List, inl, Elem}
use gitops_dashboard.Prelude.Text.{Text}
use gitops_dashboard.Alerts.Types.{AlertEvent, AlertDispatch, Store, Env, Hashes}
use gitops_dashboard.Alerts.Policy.{AlertRetryPolicy}
use gitops_dashboard.Alerts.Status.{is_open}
use gitops_dashboard.Alerts.Enqueue.{enqueue_alert_event}
use gitops_dashboard.Alerts.Claim.{claim_pending_deliveries}
use gitops_dashboard.Alerts.Record.{Completion, record_dispatch_result}
use gitops_dashboard.Alerts.Prune.{victims, delete_events}
use gitops_dashboard.Alerts.Prune.Batches.{delete_events-Consistent}
use gitops_dashboard.Alerts.Invariant.{Consistent}
use gitops_dashboard.Alerts.Invariant.Claim.{claim_pending_deliveries-Consistent}
use gitops_dashboard.Alerts.Invariant.Record.{record_dispatch_result-Consistent}
use gitops_dashboard.Alerts.Invariant.Enqueue.{enqueue_alert_event-Consistent}
use gitops_dashboard.Alerts.Invariant.Kept.{
  enqueue_alert_event-keeps, claim_pending_deliveries-keeps, record_dispatch_result-keeps,
}

-- The operations that workers and producers call, each with its own clock and arguments.
pub data Work (hashes : Hashes) : Store → Store → Type 0 where
  enqueue :
      (env : Env) (event : AlertEvent) (sinks : List Text) (cooldown : ℕ) (store : Store)
      → Work hashes store (enqueue_alert_event hashes env event sinks cooldown store).0
  claim :
      (env : Env) (worker : Text) (lease limit : ℕ) (policy : AlertRetryPolicy) (store : Store)
      → Work hashes store (claim_pending_deliveries hashes env worker lease limit policy store).0
  record_result :
      (env : Env) (c : Completion) (policy : AlertRetryPolicy) (store : Store)
      → Work hashes store (record_dispatch_result hashes env c policy store).0

-- The operations, and a batch of the pruning, which is a transaction of its own.
pub data Step (hashes : Hashes) : Store → Store → Type 0 where
  work : {a b : Store} → Work hashes a b → Step hashes a b
  prune_batch :
      (cutoff batch : ℕ) (store : Store)
      → Step hashes store (record store {
        tables = (delete_events (victims cutoff batch store.tables) store.tables).0;
      })

-- Any number of steps.
pub data Many (R : Store → Store → Type 0) : Store → Store → Type 0 where
  stop : {a : Store} → Many R a a
  next : {a b c : Store} → Many R a b → R b c → Many R a c

Work-Consistent :
    (hashes : Hashes) (a b : Store) → Work hashes a b → Consistent a.tables → Consistent b.tables
Work-Consistent hashes a b (Work.enqueue env event sinks cooldown s) h =
    enqueue_alert_event-Consistent hashes env event sinks cooldown s h
Work-Consistent hashes a b (Work.claim env worker lease limit policy s) h =
    claim_pending_deliveries-Consistent hashes env worker lease limit policy s h
Work-Consistent hashes a b (Work.record_result env c policy s) h =
    record_dispatch_result-Consistent hashes env c policy s h

Step-Consistent :
    (hashes : Hashes) (a b : Store) → Step hashes a b → Consistent a.tables → Consistent b.tables
Step-Consistent hashes a b (Step.work w) h = Work-Consistent hashes a b w h
Step-Consistent hashes a b (Step.prune_batch cutoff batch s) h =
    delete_events-Consistent (victims cutoff batch s.tables) s.tables h

-- Through every history of enqueueing, claiming, recording and batches of pruning, consistent
-- tables stay consistent: the ids are keys below the counters, and every event has the status that
-- its dispatches give it.
pub history-Consistent :
    (hashes : Hashes) (a b : Store)
    → Consistent a.tables
    → Many (Step hashes) a b
    → Consistent b.tables
history-Consistent hashes a b h Many.stop = h
history-Consistent hashes a b h (Many.next {b = m} before s) =
    Step-Consistent hashes m b s (history-Consistent hashes a m h before)

-- From consistent tables, a dispatch that is neither pending nor in flight stays as it is through
-- every history of enqueueing, claiming and recording, and the tables stay consistent.
pub history-closed :
    (hashes : Hashes) (a b : Store) (d : AlertDispatch)
    → Consistent a.tables
    → is_open d.status ≡ false
    → Elem d a.tables.dispatches
    → Many (Work hashes) a b
    → Consistent b.tables × Elem d b.tables.dispatches
history-closed hashes a b d h closed m Many.stop = (h, m)
history-closed hashes a b d h closed m (Many.next {b = now} before s) =
    let (h', m') = history-closed hashes a now d h closed m before in
    (Work-Consistent hashes now b s h', work-keeps now b s h' m')
  where
    work-keeps :
        (a b : Store)
        → Work hashes a b
        → Consistent a.tables
        → Elem d a.tables.dispatches
        → Elem d b.tables.dispatches
    work-keeps a b (Work.enqueue env event sinks cooldown s) h m =
        enqueue_alert_event-keeps d hashes env event sinks cooldown s m
    work-keeps a b (Work.claim env worker lease limit policy s) h m =
        claim_pending_deliveries-keeps d hashes env worker lease limit policy s h (inl closed) m
    work-keeps a b (Work.record_result env c policy s) h m =
        record_dispatch_result-keeps d closed hashes env c policy s m

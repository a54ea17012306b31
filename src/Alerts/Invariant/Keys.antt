-- ===== src/Alerts/Invariant/Keys.antt =====
-- Syncing and updates of dispatches that keep the ids keep the keys.
use gitops_dashboard.Prelude.{ℕ, ◌<◌, ◌≡◌, refl, Bool}
use gitops_dashboard.Prelude.Rows.{update_where, All-update_where, Distinct-update_where}
use gitops_dashboard.Alerts.Types.{AlertDispatch, Tables}
use gitops_dashboard.Alerts.Status.{sync_events, sync_event_status}
use gitops_dashboard.Alerts.Invariant.{Keyed}

pub sync_event_status-Keyed : (i : ℕ) (t : Tables) → Keyed t → Keyed (sync_event_status i t)
unfolding sync_event_status sync_events
sync_event_status-Keyed i t k = record {
  event_ids = Distinct-update_where (λ e. e.id) _ _ t.events (λ e. refl) k.event_ids;
  events_below =
      All-update_where (λ e. e.id < t.next_event_id) _ _ t.events (λ e _ h. h) k.events_below;
  dispatch_ids = k.dispatch_ids;
  dispatches_below = k.dispatches_below;
}

pub update_dispatches-Keyed :
    (p : AlertDispatch → Bool) (f : AlertDispatch → AlertDispatch) (t : Tables)
    → ((d : AlertDispatch) → (f d).id ≡ d.id)
    → ((d : AlertDispatch) → (f d).event_id ≡ d.event_id)
    → Keyed t
    → Keyed (record t { dispatches = update_where p f t.dispatches })
update_dispatches-Keyed p f t same_id same_event k = record {
  event_ids = k.event_ids;
  events_below = k.events_below;
  dispatch_ids = Distinct-update_where (λ d. d.id) p f t.dispatches same_id k.dispatch_ids;
  dispatches_below =
      All-update_where (λ d. (d.id < t.next_dispatch_id) × (d.event_id < t.next_event_id)) p f
        t.dispatches (λ d _ h. rw (same_id d, same_event d) h) k.dispatches_below;
}

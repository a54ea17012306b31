-- ===== src/Alerts/Invariant/Inserted.antt =====
-- A new event with its dispatches keeps the tables consistent.
use gitops_dashboard.Prelude.{
  ℕ, ◌+◌, ◌<◌, ◌≡◌, ◌≢◌, sym, ◌∙◌, false, ◌&&◌, List, [], ◌∷◌, ◌++◌, ◌==◌, arith, All-impl,
  All-append, All-Elem, All-of_Elem, Distinct-append_fresh,
}
use gitops_dashboard.Prelude.Rows.{exists_where, exists_where_none}
use gitops_dashboard.Prelude.Text.{Text, text_eq}
use gitops_dashboard.Alerts.Types.{EventStatus, AlertEvent, AlertDispatch, Tables}
use gitops_dashboard.Alerts.Status.{is_open, derived_status}
use gitops_dashboard.Alerts.Status.Tally.{Synced, derived_of_SameTallies, derived_pending}
use gitops_dashboard.Alerts.Enqueue.{ensure_dispatch, ensure_dispatches, new_dispatch}
use gitops_dashboard.Alerts.Invariant.{Keyed, Consistent}
use gitops_dashboard.Alerts.Invariant.Added.{tally-added, added-Keyed, ensure_dispatches-Consistent}

-- The row that `insert_event` adds.
abbrev pub inserted_row : AlertEvent → ℕ → AlertEvent
inserted_row event id = record event { id = id; cooldown_key = []; status = EventStatus.pending }

abbrev pub with_event : AlertEvent → Tables → Tables
with_event event t = record t {
  events = t.events ++ (inserted_row event t.next_event_id ∷ []);
  next_event_id = t.next_event_id + 1;
}

with_event-Keyed : (event : AlertEvent) (t : Tables) → Keyed t → Keyed (with_event event t)
with_event-Keyed event t k = record {
  event_ids =
      Distinct-append_fresh (λ e. e.id) (inserted_row event t.next_event_id) t.events k.event_ids
        (All-impl _ _ (λ e h. apart e h) t.events k.events_below);
  events_below =
      All-append _ t.events (inserted_row event t.next_event_id ∷ [])
        (All-impl _ _ (λ e h. below e h) t.events k.events_below) (omega arith, tt);
  dispatch_ids = k.dispatch_ids;
  dispatches_below = All-impl _ _ (λ d h. still d h) t.dispatches k.dispatches_below;
}
  where
    apart : (e : AlertEvent) → e.id < t.next_event_id → e.id ≢ t.next_event_id
    apart e h = omega arith

    below : (e : AlertEvent) → e.id < t.next_event_id → e.id < t.next_event_id + 1
    below e h = omega arith

    still :
        (d : AlertDispatch)
        → (d.id < t.next_dispatch_id) × (d.event_id < t.next_event_id)
        → (d.id < t.next_dispatch_id) × (d.event_id < t.next_event_id + 1)
    still d h = (h.0, omega arith)

-- A new event has no dispatch yet, so the first sink gets one.
first_dispatch_is_new :
    (sink : Text) (t : Tables)
    → Keyed t
    → exists_where (λ d. d.event_id == t.next_event_id && text_eq d.sink sink) t.dispatches ≡ false
first_dispatch_is_new sink t k =
    exists_where_none _ t.dispatches
      (All-impl _ _ (λ d h. other d h) t.dispatches k.dispatches_below)
  where
    other :
        (d : AlertDispatch)
        → (d.id < t.next_dispatch_id) × (d.event_id < t.next_event_id)
        → (d.event_id == t.next_event_id && text_eq d.sink sink) ≡ false
    other d h = ground arith

with_event-Synced :
    (event : AlertEvent) (sink : Text) (at : ℕ) (t : Tables)
    → Consistent t
    → Synced
        (t.dispatches ++ new_dispatch t.next_dispatch_id t.next_event_id sink at ∷ [])
        (t.events ++ inserted_row event t.next_event_id ∷ [])
with_event-Synced event sink at t c =
    All-append _ t.events (inserted_row event t.next_event_id ∷ [])
      (All-of_Elem _ t.events (λ e m.
        old e (All-Elem _ e t.events c.keyed.events_below m) (All-Elem _ e t.events c.synced m)))
      (
        sym (
            derived_pending
              (t.dispatches ++ new_dispatch t.next_dispatch_id t.next_event_id sink at ∷ [])
              t.next_event_id
              (ground (
                arith,
                tally-added is_open t.next_event_id t.dispatches
                    (new_dispatch t.next_dispatch_id t.next_event_id sink at),
              ))),
        tt,
      )
  where
    old :
        (e : AlertEvent)
        → e.id < t.next_event_id
        → e.status ≡ derived_status t.dispatches e.id
        → e.status
          ≡ derived_status
              (t.dispatches ++ new_dispatch t.next_dispatch_id t.next_event_id sink at ∷ [])
              e.id
    old e below k =
        k
        ∙ sym (
            derived_of_SameTallies e.id t.dispatches _ (λ b _. ground (
              arith,
              tally-added b e.id t.dispatches
                  (new_dispatch t.next_dispatch_id t.next_event_id sink at),
            )))

-- A new event with its dispatches, one sink at least, keeps the tables consistent.
pub inserted-Consistent :
    (event : AlertEvent) (sink : Text) (sinks : List Text) (at : ℕ) (t : Tables)
    → Consistent t
    → Consistent (ensure_dispatches t.next_event_id (sink ∷ sinks) at (with_event event t))
unfolding ensure_dispatches ensure_dispatch
inserted-Consistent event sink sinks at t c = rw (first_dispatch_is_new sink t c.keyed) (
    ensure_dispatches-Consistent t.next_event_id sinks at
      (record (with_event event t) {
        dispatches = t.dispatches ++ (new_dispatch t.next_dispatch_id t.next_event_id sink at ∷ []);
        next_dispatch_id = t.next_dispatch_id + 1;
      })
      (omega arith)
      (ground (
        arith,
        tally-added is_open t.next_event_id t.dispatches
            (new_dispatch t.next_dispatch_id t.next_event_id sink at),
      ))
      (record {
        keyed =
            added-Keyed (with_event event t) t.next_event_id sink at (omega arith)
              (with_event-Keyed event t c.keyed);
        synced = with_event-Synced event sink at t c;
      }))

-- ===== src/Alerts/Invariant/Added.antt =====
-- A dispatch that is added to a pending event keeps the tables consistent.
use gitops_dashboard.Prelude.{
  ℕ, ◌+◌, ◌<◌, ◌≡◌, ◌≢◌, refl, sym, ◌∙◌, subst, Bool, ◌&&◌, List, [], ◌∷◌, ◌++◌, inl, inr,
  if◌then◌else◌, ◌==◌, arith, Bool-cases, All-impl, All-append, Distinct-append_fresh, ==_iff,
}
use gitops_dashboard.Prelude.Rows.{exists_where, count_where}
use gitops_dashboard.Prelude.Text.{Text, text_eq}
use gitops_dashboard.Alerts.Types.{DispatchStatus, AlertEvent, AlertDispatch, Tables}
use gitops_dashboard.Alerts.Status.{is_open, tally, derived_status}
use gitops_dashboard.Alerts.Status.Tally.{
  Synced, derived_of_SameTallies, derived_pending, tally-append,
}
use gitops_dashboard.Alerts.Enqueue.{ensure_dispatch, ensure_dispatches, new_dispatch}
use gitops_dashboard.Alerts.Invariant.{Keyed, Consistent}

-- A row that is added to the dispatches of an event, seen from the tallies.
pub tally-added :
    (b : DispatchStatus → Bool) (i : ℕ) (ds : List AlertDispatch) (d : AlertDispatch)
    → tally b i (ds ++ d ∷ []) ≡ tally b i ds + (if d.event_id == i && b d.status then 1 else 0)
unfolding tally count_where
tally-added b i ds d = omega (arith, tally-append b i ds (d ∷ []))

-- The dispatch ids are new, and the others stay below the counters.
pub added-Keyed :
    (t : Tables) (i : ℕ) (sink : Text) (at : ℕ)
    → i < t.next_event_id
    → Keyed t
    → Keyed (record t {
      dispatches = t.dispatches ++ (new_dispatch t.next_dispatch_id i sink at ∷ []);
      next_dispatch_id = t.next_dispatch_id + 1;
    })
added-Keyed t i sink at below k = record {
  event_ids = k.event_ids;
  events_below = k.events_below;
  dispatch_ids =
      Distinct-append_fresh (λ d. d.id) (new_dispatch t.next_dispatch_id i sink at) t.dispatches
        k.dispatch_ids (All-impl _ _ (λ d h. older d h) t.dispatches k.dispatches_below);
  dispatches_below =
      All-append _ t.dispatches (new_dispatch t.next_dispatch_id i sink at ∷ [])
        (All-impl _ _ (λ d h. still d h) t.dispatches k.dispatches_below)
        ((omega arith, below), tt);
}
  where
    older :
        (d : AlertDispatch)
        → (d.id < t.next_dispatch_id) × (d.event_id < t.next_event_id)
        → d.id ≢ t.next_dispatch_id
    older d h = omega arith

    still :
        (d : AlertDispatch)
        → (d.id < t.next_dispatch_id) × (d.event_id < t.next_event_id)
        → (d.id < t.next_dispatch_id + 1) × (d.event_id < t.next_event_id)
    still d h = (omega arith, h.1)

-- A pending dispatch added to an event that is pending anyway changes no status.
pub added-Synced :
    (ds : List AlertDispatch) (id i : ℕ) (sink : Text) (at : ℕ) (es : List AlertEvent)
    → 0 < tally is_open i ds
    → Synced ds es
    → Synced (ds ++ new_dispatch id i sink at ∷ []) es
added-Synced ds id i sink at es busy h = All-impl _ _ (λ e k. step e k) es h
  where
    step :
        (e : AlertEvent)
        → e.status ≡ derived_status ds e.id
        → e.status ≡ derived_status (ds ++ new_dispatch id i sink at ∷ []) e.id
    step e k = elim (Bool-cases (i == e.id)) [
      | inl same ↦
          let own : i ≡ e.id = (==_iff i e.id).0 same in
          let open_before : 0 < tally is_open e.id ds =
            subst (λ n. 0 < tally is_open n ds) own busy in
          k
          ∙ derived_pending ds e.id open_before
          ∙ sym (
              derived_pending (ds ++ new_dispatch id i sink at ∷ []) e.id
                (omega (arith, tally-added is_open e.id ds (new_dispatch id i sink at))))
      | inr other ↦
          k
          ∙ sym (
              derived_of_SameTallies e.id ds (ds ++ new_dispatch id i sink at ∷ [])
                (λ b _. ground (arith, tally-added b e.id ds (new_dispatch id i sink at), other)))
    ]

-- Adding a missing dispatch to a pending event keeps the tables consistent, and the event pending.
pub ensure_dispatch-Consistent :
    (i : ℕ) (sink : Text) (at : ℕ) (t : Tables)
    → i < t.next_event_id
    → 0 < tally is_open i t.dispatches
    → Consistent t
    → Consistent (ensure_dispatch i sink at t)
      × (0 < tally is_open i (ensure_dispatch i sink at t).dispatches)
      × ((ensure_dispatch i sink at t).next_event_id ≡ t.next_event_id)
unfolding ensure_dispatch
ensure_dispatch-Consistent i sink at t below busy c =
    elim (Bool-cases (exists_where (λ d. d.event_id == i && text_eq d.sink sink) t.dispatches)) [
      | inl old ↦ rw old (c, busy, refl)
      | inr new ↦ rw new (
        record {
          keyed = added-Keyed t i sink at below c.keyed;
          synced = added-Synced t.dispatches t.next_dispatch_id i sink at t.events busy c.synced;
        },
        omega
            (arith, tally-added is_open i t.dispatches (new_dispatch t.next_dispatch_id i sink at)),
        refl,
      )
    ]

pub ensure_dispatches-Consistent :
    (i : ℕ) (sinks : List Text) (at : ℕ) (t : Tables)
    → i < t.next_event_id
    → 0 < tally is_open i t.dispatches
    → Consistent t
    → Consistent (ensure_dispatches i sinks at t)
unfolding ensure_dispatches
ensure_dispatches-Consistent i [] at t below busy c = c
ensure_dispatches-Consistent i (sink ∷ sinks) at t below busy c =
    let (c', busy', same) = ensure_dispatch-Consistent i sink at t below busy c in
    ensure_dispatches-Consistent i sinks at (ensure_dispatch i sink at t) (omega arith) busy' c'

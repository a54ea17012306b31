-- ===== src/Alerts/Invariant/Enqueue.antt =====
-- Enqueueing keeps the tables consistent, and never meets a conflict that it cannot resolve.
use gitops_dashboard.Prelude.{
  ℕ, ◌<◌, ◌≡◌, sym, ◌∙◌, true, false, ◌&&◌, List, [], ◌∷◌, inl, inr, arith, Bool-cases,
  Option-cases, Elem, All-Elem, All-of_Elem, none, some, is_nil,
}
use gitops_dashboard.Prelude.Rows.{
  exists_where, count_pos_of_exists, exists_of_count_pos, exists_where_none, first_of_query,
  query_empty, exists_of_Elem,
}
use gitops_dashboard.Prelude.Text.{Text, insert_new, trim_space, text_eq}
use gitops_dashboard.Alerts.Types.{
  EventStatus, AlertEvent, Tables, Store, Env, Hashes, ok, event_status_eq,
}
use gitops_dashboard.Alerts.Status.{is_open, tally}
use gitops_dashboard.Alerts.Status.Tally.{open_of_pending}
use gitops_dashboard.Alerts.Enqueue.{
  pending_row, is_pending_for, insert_event, join_pending, store_event, store_unless_cooling,
  enqueue_prepared, enqueue_in_tx, enqueue_alert_event, cooldown_row,
}
use gitops_dashboard.Alerts.Prepare.{prepare_sinks, prepare_sinks_from}
use gitops_dashboard.Alerts.Invariant.{
  Consistent, Commits, Commits-commit, Commits-unless, Commits-proceed, Commits-with_key,
  when_unlocked_keeps,
}
use gitops_dashboard.Alerts.Invariant.Added.{ensure_dispatches-Consistent}
use gitops_dashboard.Alerts.Invariant.Inserted.{with_event, inserted-Consistent}

-- What is known of a pending row that a query found.
pending_row-found :
    (t : Tables) (hash : Text) (e : AlertEvent)
    → Consistent t
    → pending_row t hash ≡ some e
    → (e.id < t.next_event_id) × (0 < tally is_open e.id t.dispatches)
unfolding pending_row tally
pending_row-found t hash e c found =
    let (m, hit) = first_of_query _ _ e t.events found in
    (
      All-Elem _ e t.events c.keyed.events_below m,
      count_pos_of_exists _ t.dispatches (ground arith),
    )

-- With no pending row for a hash the unique index has no pending event of that hash, since a
-- pending event has an open dispatch.
no_conflict :
    (t : Tables) (hash : Text)
    → Consistent t
    → pending_row t hash ≡ none
    → exists_where
        (λ e. event_status_eq e.status EventStatus.pending && text_eq e.dedupe_hash hash)
        t.events
      ≡ false
unfolding pending_row tally
no_conflict t hash c missing = exists_where_none _ t.events (
    All-of_Elem _ t.events (λ e m.
      elim (Bool-cases
        (event_status_eq e.status EventStatus.pending && text_eq e.dedupe_hash hash)) [
          | inl hit ↦ absurd (contradiction e m hit)
          | inr miss ↦ miss
        ]))
  where
    contradiction :
        (e : AlertEvent)
        → Elem e t.events
        → (event_status_eq e.status EventStatus.pending && text_eq e.dedupe_hash hash) ≡ true
        → ⊥
    contradiction e m hit =
        let is_pending : e.status ≡ EventStatus.pending = ground arith in
        let busy =
          open_of_pending t.dispatches e.id (sym (All-Elem _ e t.events c.synced m) ∙ is_pending) in
        let opened = exists_of_count_pos _ t.dispatches busy in
        let listed =
          exists_of_Elem (is_pending_for hash t.dispatches) e t.events m (ground (arith, opened)) in
        cc (listed, query_empty (is_pending_for hash t.dispatches) _ t.events missing)

-- In consistent tables, where no pending event with an open dispatch has the hash of the
-- occurrence, its insertion meets no conflict: the event is appended, pending, under the next id.
pub insert_event-inserts :
    (t : Tables) (event : AlertEvent)
    → Consistent t
    → pending_row t event.dedupe_hash ≡ none
    → insert_event event t ≡ some (with_event event t, t.next_event_id)
unfolding insert_event
insert_event-inserts t event c missing = ground (arith, no_conflict t event.dedupe_hash c missing)

enqueue_prepared-Consistent :
    (store : Store) (event : AlertEvent) (sink : Text) (sinks : List Text) (cooldown : ℕ)
    (t : Tables)
    → Consistent t
    → Commits Consistent (enqueue_prepared store event (sink ∷ sinks) cooldown t)
unfolding enqueue_prepared join_pending store_unless_cooling store_event
enqueue_prepared-Consistent store event sink sinks cooldown t c =
    elim (Option-cases (pending_row t event.dedupe_hash)) [
      | inr (e, found) ↦
          let (below, busy) = pending_row-found t event.dedupe_hash e c found in
          rw (found, enqueue_prepared)
            (Commits-commit _
              (ensure_dispatches-Consistent e.id (sink ∷ sinks) event.created_at t below busy c))
      | inl missing ↦ elim (Option-cases (cooldown_row t event cooldown)) [
        | inr (e, cooling) ↦
            rw (missing, enqueue_prepared) (rw (cooling, store_unless_cooling) (Commits-commit _ c))
        | inl free ↦
            rw (missing, enqueue_prepared)
              (rw (free, store_unless_cooling)
                (rw (insert_event-inserts t event c missing, store_event)
                  (Commits-commit _ (inserted-Consistent event sink sinks event.created_at t c))))
      ]
    ]

-- The sinks that pass the checks are not none.
prepare_sinks_from-nonempty :
    (store : Store) (seen raw sinks : List Text)
    → prepare_sinks_from store seen raw ≡ ok sinks
    → is_nil sinks ≡ false
unfolding prepare_sinks_from
prepare_sinks_from-nonempty store seen [] sinks h = ground arith
prepare_sinks_from-nonempty store seen (s ∷ raw) sinks h =
    ground (arith, prepare_sinks_from-nonempty store (insert_new (trim_space s) seen) raw sinks)

prepared-Consistent :
    (store : Store) (event : AlertEvent) (sinks : List Text) (cooldown : ℕ) (t : Tables)
    → is_nil sinks ≡ false
    → Consistent t
    → Commits Consistent (enqueue_prepared store event sinks cooldown t)
prepared-Consistent store event [] cooldown t ne c = cc
prepared-Consistent store event (sink ∷ sinks) cooldown t ne c =
    enqueue_prepared-Consistent store event sink sinks cooldown t c

-- Enqueueing inside a transaction keeps the tables consistent.
pub enqueue_in_tx-Consistent :
    (hashes : Hashes) (env : Env) (event : AlertEvent) (sinks : List Text) (cooldown : ℕ)
    (store : Store)
    → Consistent store.tables
    → Commits Consistent (enqueue_in_tx hashes store env event sinks cooldown)
unfolding enqueue_in_tx prepare_sinks
enqueue_in_tx-Consistent hashes env event sinks cooldown store c = Commits-unless _ (
    Commits-proceed _ _ (λ prepared e. Commits-with_key _ (
      prepared-Consistent store _ prepared cooldown store.tables
        (prepare_sinks_from-nonempty store [] sinks prepared e) c)))

-- `EnqueueAlertEvent` keeps the tables consistent, however it ends.
pub enqueue_alert_event-Consistent :
    (hashes : Hashes) (env : Env) (event : AlertEvent) (sinks : List Text) (cooldown : ℕ)
    (store : Store)
    → Consistent store.tables
    → Consistent (enqueue_alert_event hashes env event sinks cooldown store).0.tables
unfolding enqueue_alert_event
enqueue_alert_event-Consistent hashes env event sinks cooldown store c =
    when_unlocked_keeps {P = Consistent} store _ c
      (enqueue_in_tx-Consistent hashes env event sinks cooldown store c)

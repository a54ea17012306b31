-- ===== src/Alerts/Invariant/Grow.antt =====
-- Enqueueing changes the dispatches by adding some, so it keeps whatever such an addition keeps.
use gitops_dashboard.Prelude.{
  ℕ, ◌≡◌, refl, List, [], ◌∷◌, inl, inr, arith, Option-cases, Option, some, none,
}
use gitops_dashboard.Prelude.Text.{Text}
use gitops_dashboard.Alerts.Types.{AlertEvent, Tables, Store, Env, Hashes}
use gitops_dashboard.Alerts.Enqueue.{
  ensure_dispatch, ensure_dispatches, insert_event, join_pending, store_event, store_unless_cooling,
  enqueue_prepared, enqueue_in_tx, enqueue_alert_event, pending_row, cooldown_row,
}
use gitops_dashboard.Alerts.Invariant.{
  Commits, Commits-commit, Commits-unless, Commits-proceed, Commits-with_key, Commits-require,
  when_unlocked_keeps,
}

module _ (P : Tables → Type 0)
    (grow : (i : ℕ) (sink : Text) (at : ℕ) (t : Tables) → P t → P (ensure_dispatch i sink at t))
    (rows : (t t' : Tables) → t'.dispatches ≡ t.dispatches → P t → P t') where
  ensure_dispatches-grows :
      (i : ℕ) (sinks : List Text) (at : ℕ) (t : Tables) → P t → P (ensure_dispatches i sinks at t)
  unfolding ensure_dispatches
  ensure_dispatches-grows i [] at t m = m
  ensure_dispatches-grows i (sink ∷ sinks) at t m =
      ensure_dispatches-grows i sinks at (ensure_dispatch i sink at t) (grow i sink at t m)

  insert_event-grows :
      (event : AlertEvent) (t : Tables) (r : Tables × ℕ)
      → insert_event event t ≡ some r
      → r.0.dispatches ≡ t.dispatches
  unfolding insert_event
  insert_event-grows event t r e = ground arith

  store_event-grows :
      (store : Store) (event : AlertEvent) (sinks : List Text) (t : Tables)
      (o : Option (Tables × ℕ))
      → P t
      → ((r : Tables × ℕ) → o ≡ some r → r.0.dispatches ≡ t.dispatches)
      → Commits P (store_event store event sinks t o)
  unfolding store_event join_pending
  store_event-grows store event sinks t none m same =
      Commits-require _ _ _
        (λ e _. Commits-commit _ (ensure_dispatches-grows e.id sinks event.created_at t m))
  store_event-grows store event sinks t (some r) m same =
      Commits-commit _
        (ensure_dispatches-grows r.1 sinks event.created_at r.0 (rows t r.0 (same r refl) m))

  enqueue_prepared-grows :
      (store : Store) (event : AlertEvent) (sinks : List Text) (cooldown : ℕ) (t : Tables)
      → P t
      → Commits P (enqueue_prepared store event sinks cooldown t)
  unfolding enqueue_prepared join_pending store_unless_cooling
  enqueue_prepared-grows store event sinks cooldown t m =
      elim (Option-cases (pending_row t event.dedupe_hash)) [
        | inr (e, found) ↦
            rw (found, enqueue_prepared)
              (Commits-commit _ (ensure_dispatches-grows e.id sinks event.created_at t m))
        | inl missing ↦
            rw (missing, enqueue_prepared)
              (elim (Option-cases (cooldown_row t event cooldown)) [
                | inr (e, cooling) ↦ rw (cooling, store_unless_cooling) (Commits-commit _ m)
                | inl free ↦
                    rw (free, store_unless_cooling)
                      (store_event-grows store event sinks t (insert_event event t) m
                        (insert_event-grows event t))
              ])
      ]

  pub enqueue_alert_event-grows :
      (hashes : Hashes) (env : Env) (event : AlertEvent) (sinks : List Text) (cooldown : ℕ)
      (store : Store)
      → P store.tables
      → P (enqueue_alert_event hashes env event sinks cooldown store).0.tables
  unfolding enqueue_alert_event enqueue_in_tx
  enqueue_alert_event-grows hashes env event sinks cooldown store m =
      when_unlocked_keeps {P = P} store _ m (
        Commits-unless _ (
          Commits-proceed _ _ (λ prepared e.
            Commits-with_key _ (enqueue_prepared-grows store _ prepared cooldown store.tables m))))

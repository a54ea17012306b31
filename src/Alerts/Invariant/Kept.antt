-- ===== src/Alerts/Invariant/Kept.antt =====
-- What an operation leaves alone: a dispatch that it may not touch.
use gitops_dashboard.Prelude.{
  ℕ, ◌≡◌, refl, Bool, true, false, ◌&&◌, List, inl, inr, ◌==◌, arith, Bool-cases, Elem,
  Elem-append_left,
}
use gitops_dashboard.Prelude.Text.{Text, text_eq}
use gitops_dashboard.Prelude.Rows.{exists_where, count_where}
use gitops_dashboard.Prelude.Keys.{Elem-update_where}
use gitops_dashboard.Alerts.Types.{
  AlertEvent, AlertDispatch, DispatchStatus, Tables, Store, Env, Hashes, status_eq, claim_not_held,
}
use gitops_dashboard.Alerts.Policy.{AlertRetryPolicy, normalized}
use gitops_dashboard.Alerts.Status.{is_open, terminal_status, sync_event_status}
use gitops_dashboard.Alerts.Prepare.{clean, prepare_dispatch}
use gitops_dashboard.Alerts.Enqueue.{ensure_dispatch, enqueue_alert_event}
use gitops_dashboard.Alerts.Claim.{claim_in_tx, claim_pending_deliveries}
use gitops_dashboard.Alerts.Record.{
  Completion, is_claimed_row, lease_is_live, holds, note_expired, complete_tables, reread,
  late_completion, finish_completion, complete_row, record_in_tx, record_dispatch_result,
}
use gitops_dashboard.Alerts.Invariant.{
  Consistent, Commits, Commits-commit, Commits-rollback, Commits-with_key, Commits-require,
  Commits-reject_if, when_unlocked_keeps,
}
use gitops_dashboard.Alerts.Invariant.Leases.{OutOfReach, claim_tables-keeps}
use gitops_dashboard.Alerts.Invariant.Grow.{enqueue_alert_event-grows}

module _ (d : AlertDispatch) where
  abbrev Kept : Tables → Type 0
  Kept t = Elem d t.dispatches

  ensure_dispatch-keeps :
      (i : ℕ) (sink : Text) (at : ℕ) (t : Tables) → Kept t → Kept (ensure_dispatch i sink at t)
  unfolding ensure_dispatch
  ensure_dispatch-keeps i sink at t m =
      elim (Bool-cases (exists_where (λ x. x.event_id == i && text_eq x.sink sink) t.dispatches)) [
        | inl old ↦ rw old m
        | inr new ↦ rw new (Elem-append_left d t.dispatches _ m)
      ]

  pub enqueue_alert_event-keeps :
      (hashes : Hashes) (env : Env) (event : AlertEvent) (sinks : List Text) (cooldown : ℕ)
      (store : Store)
      → Kept store.tables
      → Kept (enqueue_alert_event hashes env event sinks cooldown store).0.tables
  enqueue_alert_event-keeps =
      enqueue_alert_event-grows Kept ensure_dispatch-keeps (λ t t' same m. rw same m)

  pub claim_pending_deliveries-keeps :
      (hashes : Hashes) (env : Env) (worker : Text) (lease limit : ℕ) (policy : AlertRetryPolicy)
      (store : Store)
      → Consistent store.tables
      → OutOfReach env.now d
      → Kept store.tables
      → Kept (claim_pending_deliveries hashes env worker lease limit policy store).0.tables
  unfolding claim_pending_deliveries claim_in_tx
  claim_pending_deliveries-keeps hashes env worker lease limit policy store c far m =
      when_unlocked_keeps {P = Kept} store _ m (
        Commits-reject_if _ _ (
          Commits-reject_if _ _ (
            Commits-reject_if _ _ (
              Commits-with_key _ (
                Commits-require _ _ _ (λ claim _. Commits-commit _ (
                  claim_tables-keeps env.now lease limit (normalized policy).max_attempts
                    (clean store worker) claim store.tables d c m far)))))))

  -- A completion changes rows in flight only.
  module _ (closed : is_open d.status ≡ false) where
    not_claimed : (c : Completion) → is_claimed_row c d ≡ false
    not_claimed c = ground arith

    finish_completion-keeps :
        (store : Store) (c : Completion) (policy : AlertRetryPolicy) (now : ℕ) (r : AlertDispatch)
        (t : Tables)
        → Kept t
        → Commits Kept (finish_completion store c policy now r t)
    unfolding finish_completion reread complete_tables note_expired sync_event_status
    finish_completion-keeps store c policy now r t m =
        elim (Bool-cases
          (count_where (λ x. is_claimed_row c x && lease_is_live now x) t.dispatches == 1)) [
            | inl one ↦ rw one (
                Commits-require _ _ _ (λ x _.
                  Commits-commit _
                    (Elem-update_where _ _ d t.dispatches m (rw (not_claimed c) refl))))
            | inr gone ↦ rw gone (
                late (note_expired c now t)
                  (Elem-update_where _ _ d t.dispatches m (rw (not_claimed c) refl)))
          ]
      where
        late : (r : Tables × Bool) → Kept r.0 → Commits Kept (late_completion r)
        late (t, true) h = Commits-commit _ h
        late (t, false) h = Commits-rollback claim_not_held

    complete_row-keeps :
        (store : Store) (c : Completion) (policy : AlertRetryPolicy) (now : ℕ) (r : AlertDispatch)
        (t : Tables)
        → Kept t
        → Commits Kept (complete_row store c policy now r t)
    unfolding complete_row
    complete_row-keeps store c policy now r t m = elim (Bool-cases (terminal_status r.status)) [
      | inl done ↦ rw done (Commits-reject_if _ _ (Commits-reject_if _ _ (Commits-commit _ m)))
      | inr other ↦
          rw other
            (elim (Bool-cases (
              status_eq r.status DispatchStatus.pending
              && holds c r
              && status_eq c.status DispatchStatus.pending)) [
                | inl replay ↦ rw replay (Commits-commit _ m)
                | inr new ↦
                    rw new
                      (Commits-reject_if _ _ (finish_completion-keeps store c policy now r t m))
              ])
    ]

    pub record_dispatch_result-keeps :
        (hashes : Hashes) (env : Env) (c : Completion) (policy : AlertRetryPolicy) (store : Store)
        → Kept store.tables
        → Kept (record_dispatch_result hashes env c policy store).0.tables
    unfolding record_dispatch_result record_in_tx
    record_dispatch_result-keeps hashes env c policy store m =
        when_unlocked_keeps {P = Kept} store _ m (
          Commits-reject_if _ _ (
            Commits-reject_if _ _ (
              Commits-reject_if _ _ (
                Commits-reject_if _ _ (
                  Commits-with_key _ (
                    Commits-require _ _ _ (λ r _.
                      complete_row-keeps store _ (normalized policy) env.now
                        (prepare_dispatch store r) store.tables m)))))))

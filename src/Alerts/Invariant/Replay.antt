-- ===== src/Alerts/Invariant/Replay.antt =====
-- The replay of a completion.
use gitops_dashboard.Prelude.{ℕ, ◌≡◌, refl, true, false, ◌&&◌, inl, inr, arith, Bool-cases, Elem}
use gitops_dashboard.Prelude.Text.{text_eq_refl, trim_space}
use gitops_dashboard.Prelude.Keys.{Elem-updated}
use gitops_dashboard.Alerts.Types.{
  AlertDispatch, DispatchStatus, Tables, Store, commit, ok, status_eq,
}
use gitops_dashboard.Alerts.Policy.{AlertRetryPolicy}
use gitops_dashboard.Alerts.Status.{terminal_status, valid_result_status}
use gitops_dashboard.Alerts.Prepare.{clean, prepare_dispatch, reject_if}
use gitops_dashboard.Alerts.Record.{
  Completion, promoted, holds, is_claimed_row, lease_is_live, complete, complete_tables,
  complete_row,
}

-- A result that is not pending after the promotion is terminal.
promoted-cases :
    (s : DispatchStatus) (attempts max : ℕ)
    → valid_result_status s ≡ true
    → terminal_status (promoted s attempts max) ≡ false
    → (promoted s attempts max ≡ DispatchStatus.pending) × (s ≡ DispatchStatus.pending)
promoted-cases DispatchStatus.pending attempts max v h = ground arith
promoted-cases DispatchStatus.in_flight attempts max v h = cc
promoted-cases DispatchStatus.delivered attempts max v h = cc
promoted-cases DispatchStatus.dead_lettered attempts max v h = cc
promoted-cases DispatchStatus.reset attempts max v h = cc
promoted-cases DispatchStatus.skipped attempts max v h = cc
promoted-cases DispatchStatus.other attempts max v h = cc

status_eq_refl : (s : DispatchStatus) → status_eq s s ≡ true
status_eq_refl DispatchStatus.pending = refl
status_eq_refl DispatchStatus.in_flight = refl
status_eq_refl DispatchStatus.delivered = refl
status_eq_refl DispatchStatus.dead_lettered = refl
status_eq_refl DispatchStatus.reset = refl
status_eq_refl DispatchStatus.skipped = refl
status_eq_refl DispatchStatus.other = refl

-- A row that a completion left, read again for the same completion.
complete_row_again :
    (store : Store) (c : Completion) (policy : AlertRetryPolicy) (now : ℕ) (r : AlertDispatch)
    (t : Tables)
    → valid_result_status c.status ≡ true
    → holds c r ≡ true
    → r.status ≡ promoted c.status r.attempts policy.max_attempts
    → complete_row store c policy now r t ≡ commit t (ok r)
unfolding complete_row reject_if
complete_row_again store c policy now r t valid held same =
    elim (Bool-cases (terminal_status r.status)) [
      | inl done ↦
          rw (done, held, same, status_eq_refl (promoted c.status r.attempts policy.max_attempts))
            refl
      | inr retry ↦
          let (left, asked) =
            promoted-cases c.status r.attempts policy.max_attempts valid (rw same at retry) in
          rw (retry, same, left, held, asked) refl
    ]

-- A completion with a valid result, of a row in flight under its claim with a live lease, leaves
-- the completed row in the table, and the same completion of that row, read again at any time,
-- changes no table and returns the row, if cleaning leaves the worker and the claim of the
-- completion as they are.
pub complete_row-replays :
    (store : Store) (c : Completion) (policy : AlertRetryPolicy) (now later : ℕ) (d : AlertDispatch)
    (t t' : Tables)
    → valid_result_status c.status ≡ true
    → clean store c.worker ≡ c.worker
    → trim_space c.claim ≡ c.claim
    → Elem d t.dispatches
    → is_claimed_row c d ≡ true
    → lease_is_live now d ≡ true
    → Elem
        (complete c policy now d.attempts d)
        (complete_tables c policy now d.attempts t).dispatches
      × (complete_row store c policy later
            (prepare_dispatch store (complete c policy now d.attempts d))
            t'
          ≡ commit t' (ok (prepare_dispatch store (complete c policy now d.attempts d))))
unfolding complete_tables prepare_dispatch complete
complete_row-replays store c policy now later d t t' valid worker claim m claimed live = (
  Elem-updated (λ x. is_claimed_row c x && lease_is_live now x) (complete c policy now d.attempts) d
      t.dispatches m (rw (claimed, live) refl),
  complete_row_again store c policy later
      (prepare_dispatch store (complete c policy now d.attempts d)) t' valid
      (rw (worker, claim, text_eq_refl c.worker, text_eq_refl c.claim) refl) refl,
)

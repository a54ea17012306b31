-- ===== src/Alerts/Status.antt =====
-- `syncAlertEventStatus` and the tests on statuses of internal/storage/alerts.go: the status of an
-- event as a function of its dispatches.
pub mod Tally
use gitops_dashboard.Prelude.{
  ℕ, zero, suc, ◌+◌, Bool, true, false, ◌&&◌, ◌||◌, List, if◌then◌else◌, ltb, ◌==◌,
}
use gitops_dashboard.Prelude.Rows.{count_where, update_where}
use gitops_dashboard.Alerts.Types.{
  EventStatus, DispatchStatus, AlertEvent, AlertDispatch, Tables, status_eq,
}

abbrev pub is_open : DispatchStatus → Bool
is_open s = status_eq s DispatchStatus.pending || status_eq s DispatchStatus.in_flight

abbrev pub terminal_status : DispatchStatus → Bool
terminal_status s =
    status_eq s DispatchStatus.delivered
    || status_eq s DispatchStatus.dead_lettered
    || status_eq s DispatchStatus.skipped

abbrev pub valid_result_status : DispatchStatus → Bool
valid_result_status s = status_eq s DispatchStatus.pending || terminal_status s

-- `SUM(CASE WHEN bucket THEN 1 ELSE 0 END) ... WHERE event_id=?`
unfoldable pub tally : (DispatchStatus → Bool) → ℕ → List AlertDispatch → ℕ
tally bucket event_id = count_where (λ d. d.event_id == event_id && bucket d.status)

unfoldable pub status_from : ℕ → ℕ → ℕ → ℕ → ℕ → EventStatus
status_from unsettled delivered skipped dead_lettered reset =
    let closed = delivered + skipped in
    if ltb 0 unsettled
    then EventStatus.pending
    else if ltb 0 closed && dead_lettered == 0
    then EventStatus.delivered
    else if ltb 0 closed && ltb 0 dead_lettered
    then EventStatus.partial
    else if closed == 0 && ltb 0 dead_lettered
    then EventStatus.failed
    else if closed == 0 && dead_lettered == 0 && ltb 0 reset
    then EventStatus.reset
    else EventStatus.failed

-- The status that the dispatches of an event give it.
unfoldable pub derived_status : List AlertDispatch → ℕ → EventStatus
derived_status dispatches event_id =
    status_from (tally is_open event_id dispatches)
      (tally (λ s. status_eq s DispatchStatus.delivered) event_id dispatches)
      (tally (λ s. status_eq s DispatchStatus.skipped) event_id dispatches)
      (tally (λ s. status_eq s DispatchStatus.dead_lettered) event_id dispatches)
      (tally (λ s. status_eq s DispatchStatus.reset) event_id dispatches)

-- The UPDATE of `syncAlertEventStatus`.
unfoldable pub sync_events : List AlertDispatch → ℕ → List AlertEvent → List AlertEvent
sync_events dispatches event_id =
    update_where (λ e. e.id == event_id)
      (λ e. record e { status = derived_status dispatches event_id })

unfoldable pub sync_event_status : ℕ → Tables → Tables
unfolding sync_events
sync_event_status event_id t = record t { events = sync_events t.dispatches event_id t.events }

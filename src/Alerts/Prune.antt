-- ===== src/Alerts/Prune.antt =====
-- `PruneTerminalAlertEvents`: the deletion of old closed events in batches, and of their dispatches
-- by ON DELETE CASCADE.
pub mod Batches
use gitops_dashboard.Prelude.{
  ℕ, zero, suc, ◌+◌, ◌-◌, Bool, not, ◌&&◌, ◌||◌, List, Option, none, some, if◌then◌else◌, ltb, leb,
  ◌==◌, map, take, id_elem,
}
use gitops_dashboard.Prelude.Rows.{select_where, count_where, order_by}
use gitops_dashboard.Alerts.Types.{EventStatus, AlertEvent, AlertDispatch, Tables, event_status_eq}

abbrev pub default_batch_size : ℕ
default_batch_size = 500

abbrev pub is_terminal_event : AlertEvent → Bool
is_terminal_event e =
    event_status_eq e.status EventStatus.delivered
    || event_status_eq e.status EventStatus.failed
    || event_status_eq e.status EventStatus.partial
    || event_status_eq e.status EventStatus.reset

abbrev pub is_prunable : ℕ → AlertEvent → Bool
is_prunable cutoff e = is_terminal_event e && ltb e.created_at cutoff

-- `SELECT id ... ORDER BY id LIMIT ?`
unfoldable pub victims : ℕ → ℕ → Tables → List ℕ
victims cutoff batch t =
    map (λ e. e.id)
      (take batch (order_by (λ a b. leb a.id b.id) (select_where (is_prunable cutoff) t.events)))

-- The DELETE, and the number of its rows.
unfoldable pub delete_events : List ℕ → Tables → Tables × ℕ
delete_events ids t = (
  record t {
    events = select_where (λ e. not (id_elem e.id ids)) t.events;
    dispatches = select_where (λ d. not (id_elem d.event_id ids)) t.dispatches;
  },
  count_where (λ e. id_elem e.id ids) t.events,
)

-- The loop, which ends after a batch that is not full; `none` means that the fuel ran out.
unfoldable pub prune_loop : ℕ → ℕ → ℕ → ℕ → Tables → Option (Tables × ℕ)
prune_loop zero cutoff batch total t = none
prune_loop (suc fuel) cutoff batch total t =
    let deleted = delete_events (victims cutoff batch t) t in
    let total' = total + deleted.1 in
    let rest = prune_loop fuel cutoff batch total' deleted.0 in
    if ltb deleted.1 batch then some (deleted.0, total') else rest

-- `PruneTerminalAlertEvents` at the time `now`.
unfoldable pub prune_terminal_events : ℕ → ℕ → ℕ → ℕ → Tables → Option (Tables × ℕ)
prune_terminal_events fuel now horizon batch_size t =
    if horizon == 0
    then some (t, 0)
    else prune_loop fuel (now - horizon)
        (if batch_size == 0 then default_batch_size else batch_size) 0 t

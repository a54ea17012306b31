-- ===== src/Alerts/Record.antt =====
-- `RecordAlertDispatchResult`: the completion or the requeueing of a claimed dispatch.
use gitops_dashboard.Prelude.{
  ℕ, ◌+◌, Bool, true, false, not, ◌&&◌, [], Option, none, some, if◌then◌else◌, ltb, leb, ◌==◌,
}
use gitops_dashboard.Prelude.Text.{Text, codes, is_empty, text_eq, trim_space}
use gitops_dashboard.Prelude.Rows.{update_where, exists_where, count_where, find_where}
use mathlib.Core.Option
use gitops_dashboard.Alerts.Types.{
  DispatchStatus, AlertDispatch, Tables, dispatch_id_required, worker_required, claim_id_required,
  result_status, row_missing, dispatch_not_found, claim_not_held, lease_expired, terminal_conflict,
  Result, ok, err, Outcome, commit, rollback, Store, Env, Hashes, status_eq,
}
use gitops_dashboard.Alerts.Policy.{AlertRetryPolicy, normalized, backoff}
use gitops_dashboard.Alerts.Status.{terminal_status, valid_result_status, sync_event_status}
use gitops_dashboard.Alerts.Prepare.{
  clean, prepare_dispatch, key_problem, when_unlocked, with_key, require, reject_if,
}
use gitops_dashboard.Alerts.Claim.{is_in_flight, lease_expired_text}

abbrev retry_no_diagnostic : Text
retry_no_diagnostic = codes "retry requested by worker without diagnostic"

abbrev dead_no_diagnostic : Text
dead_no_diagnostic = codes "dead-lettered by worker without diagnostic"

abbrev maximum_reached : Text
maximum_reached = codes "maximum alert dispatch attempts reached"

-- The error text that is stored with a result.
unfoldable pub result_error : DispatchStatus → Text → Text
result_error DispatchStatus.delivered last_error = []
result_error DispatchStatus.skipped last_error = []
result_error DispatchStatus.pending last_error =
    if is_empty last_error then retry_no_diagnostic else last_error
result_error DispatchStatus.dead_lettered last_error =
    if is_empty last_error then dead_no_diagnostic else last_error
result_error _ last_error = last_error

-- A retry with no attempt left is dead-lettered.
abbrev pub promoted : DispatchStatus → ℕ → ℕ → DispatchStatus
promoted status attempts max_attempts =
    if status_eq status DispatchStatus.pending && leb max_attempts attempts
    then DispatchStatus.dead_lettered
    else status

-- What the caller of `RecordAlertDispatchResult` says, prepared.
pub record Completion : Type 0 where
  pub dispatch_id : ℕ
  pub worker : Text
  pub claim : Text
  pub status : DispatchStatus
  pub last_error : Text

abbrev pub holds : Completion → AlertDispatch → Bool
holds c d = text_eq d.worker_id c.worker && text_eq d.claim_id c.claim

-- The row of a completion that is in flight under its claim.
abbrev pub is_claimed_row : Completion → AlertDispatch → Bool
is_claimed_row c d = d.id == c.dispatch_id && is_in_flight d && holds c d

abbrev pub lease_is_live : ℕ → AlertDispatch → Bool
lease_is_live now d = ltb now (Option.get_or d.lease_expires_at 0)

-- The SET part of the completion.
unfoldable pub complete : Completion → AlertRetryPolicy → ℕ → ℕ → AlertDispatch → AlertDispatch
complete c policy now attempts d =
    let status = promoted c.status (attempts + 1) policy.max_attempts in
    record d {
      attempts = d.attempts + 1;
      status = status;
      worker_id = c.worker;
      claim_id = c.claim;
      lease_expires_at = none;
      next_attempt_at =
          if status_eq status DispatchStatus.pending
          then now + backoff policy (attempts + 1)
          else 0;
      last_error =
          if not (status_eq status c.status) && is_empty c.last_error
          then maximum_reached
          else c.last_error;
      delivered_at = if status_eq status DispatchStatus.delivered then some now else none;
      updated_at = now;
    }

-- `noteExpiredAlertDispatchCompletion`: the rows it updates, and their number.
abbrev is_late_row : Completion → ℕ → AlertDispatch → Bool
is_late_row c now d = is_claimed_row c d && not (lease_is_live now d)

unfoldable pub note_expired : Completion → ℕ → Tables → Tables × Bool
note_expired c now t = (
  record t {
    dispatches =
        update_where (is_late_row c now)
          (λ d. record d { last_error = lease_expired_text; updated_at = now }) t.dispatches;
  },
  count_where (is_late_row c now) t.dispatches == 1,
)

-- The UPDATE of the completion, `attempts` being those of the row as it was read.
unfoldable pub complete_tables : Completion → AlertRetryPolicy → ℕ → ℕ → Tables → Tables
complete_tables c policy now attempts t = record t {
  dispatches =
      update_where (λ d. is_claimed_row c d && lease_is_live now d) (complete c policy now attempts)
        t.dispatches;
}

-- The SELECT after the UPDATE.
unfoldable pub reread : Store → Completion → Tables → Outcome AlertDispatch
reread store c t =
    require row_missing (find_where (λ r. r.id == c.dispatch_id) t.dispatches)
      (λ r. commit t (ok (prepare_dispatch store r)))

abbrev pub late_completion : Tables × Bool → Outcome AlertDispatch
late_completion (t, true) = commit t (err lease_expired)
late_completion (t, false) = rollback claim_not_held

-- The end of `recordAlertDispatchResultOnce`, from the UPDATE on.
unfoldable pub finish_completion :
    Store → Completion → AlertRetryPolicy → ℕ → AlertDispatch → Tables → Outcome AlertDispatch
finish_completion store c policy now d t =
    if count_where (λ r. is_claimed_row c r && lease_is_live now r) t.dispatches == 1
    then reread store c (sync_event_status d.event_id (complete_tables c policy now d.attempts t))
    else late_completion (note_expired c now t)

-- What `recordAlertDispatchResultOnce` does with the row that it read.
unfoldable pub complete_row :
    Store → Completion → AlertRetryPolicy → ℕ → AlertDispatch → Tables → Outcome AlertDispatch
complete_row store c policy now d t =
    if terminal_status d.status
    then reject_if (not (holds c d)) claim_not_held (
        reject_if (not (status_eq (promoted c.status d.attempts policy.max_attempts) d.status))
          terminal_conflict (commit t (ok d)))
    else if status_eq d.status DispatchStatus.pending
        && holds c d
        && status_eq c.status DispatchStatus.pending
    then commit t (ok d)
    else reject_if (not (is_in_flight d && holds c d)) claim_not_held
        (finish_completion store c policy now d t)

-- `SELECT ... FROM alert_dispatches d JOIN alert_events e ON e.id=d.event_id WHERE d.id=?`
unfoldable pub dispatch_row : ℕ → Tables → Option AlertDispatch
dispatch_row id t =
    find_where (λ d. d.id == id && exists_where (λ e. e.id == d.event_id) t.events) t.dispatches

-- `recordAlertDispatchResultOnce`.
unfoldable pub record_in_tx :
    Hashes → Store → Env → Completion → AlertRetryPolicy → Outcome AlertDispatch
record_in_tx hashes store env raw policy =
    let c : Completion = record {
      dispatch_id = raw.dispatch_id;
      worker = clean store raw.worker;
      claim = trim_space raw.claim;
      status = raw.status;
      last_error = result_error raw.status (clean store raw.last_error);
    } in
    reject_if (c.dispatch_id == 0) dispatch_id_required (
      reject_if (is_empty c.worker) worker_required (
        reject_if (is_empty c.claim) claim_id_required (
          reject_if (not (valid_result_status c.status)) result_status (
            with_key (key_problem hashes store env) (
              require dispatch_not_found (dispatch_row c.dispatch_id store.tables) (λ d.
                complete_row store c policy env.now (prepare_dispatch store d) store.tables))))))

-- `RecordAlertDispatchResultWithRetryPolicy`.
unfoldable pub record_dispatch_result :
    Hashes → Env → Completion → AlertRetryPolicy → Store → Store × Result AlertDispatch
record_dispatch_result hashes env c policy store =
    when_unlocked store (record_in_tx hashes store env c (normalized policy))

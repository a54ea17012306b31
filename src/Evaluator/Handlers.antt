-- ===== src/Evaluator/Handlers.antt =====
-- `evaluateAgent` and `evaluateScan` with their handlers: one target against its baseline.
use gitops_dashboard.Prelude.{
  ℕ, Bool, true, false, not, List, Option, none, some, if◌then◌else◌, ltb,
}
use gitops_dashboard.Prelude.Text.{Text, codes, text_eq}
use gitops_dashboard.Alerts.Types.{AlertEvent, Result, ok, err, Store, Env, Hashes}
use gitops_dashboard.Alerts.Enqueue.{enqueue_alert_event}
use gitops_dashboard.Evaluator.Types.{
  TimeFormat, AgentBaseline, ScanBaseline, AgentInfo, TerminalScan, agent_offline_event,
  agent_recovery_event, scan_failure_event, scan_recovery_event,
}

-- A baseline advances with an event that is enqueued, and stays where the enqueueing fails.
abbrev advance {ℓ} : {B : Type ℓ} → B → B → Store × Result (AlertEvent × Bool) → B × Store
advance before after (store, ok r) = (after, store)
advance before after (store, err e) = (before, store)

-- What the evaluation of one target takes from its surroundings; `clock` is `e.now()`.
pub record Surroundings : Type 0 where
  pub clock : ℕ
  pub hashes : Hashes
  pub times : TimeFormat
  pub env : Env
  pub sinks : List Text
  pub cooldown : ℕ

abbrev pub send : Surroundings → AlertEvent → Store → Store × Result (AlertEvent × Bool)
send around event store =
    enqueue_alert_event around.hashes around.env event around.sinks around.cooldown store

-- `handleAgentOffline`.
unfoldable pub handle_agent_offline :
    Surroundings → Text → ℕ → AgentBaseline → Store → AgentBaseline × Store
handle_agent_offline around target stale_after baseline store =
    advance baseline (record baseline { online = false; offline_handled = true })
      (send around (agent_offline_event around.times target stale_after) store)

-- `handleAgentOnline`.
unfoldable pub handle_agent_online :
    Surroundings → Text → AgentInfo → AgentBaseline → Store → AgentBaseline × Store
handle_agent_online around target info baseline store =
    if not baseline.offline_handled
    then (record baseline { online = true }, store)
    else elim (around.times.parse info.last_seen_at) [
      | none ↦ (baseline, store)
      | some last_seen_at ↦
          advance baseline (record baseline { online = true; offline_handled = false })
            (send around (agent_recovery_event around.times target last_seen_at) store)
    ]

abbrev same_flag : Bool → Bool → Bool
same_flag true b = b
same_flag false b = not b

-- `evaluateAgent` from the classification on.
unfoldable pub compare_agent :
    Surroundings → Text → AgentInfo → ℕ → AgentBaseline → Store → AgentBaseline × Store
compare_agent around target info stale_after baseline store =
    let online_now = ltb around.clock stale_after in
    if not baseline.established
    then (record baseline { established = true; online = online_now }, store)
    else if same_flag online_now baseline.online
    then (baseline, store)
    else if not online_now
    then handle_agent_offline around target stale_after baseline store
    else handle_agent_online around target info baseline store

-- `evaluateAgent`, where `none` is a target that has not reported.
unfoldable pub evaluate_agent :
    Surroundings → Text → Option AgentInfo → AgentBaseline → Store → AgentBaseline × Store
evaluate_agent around target none baseline store = (baseline, store)
evaluate_agent around target (some info) baseline store =
    elim (around.times.parse info.stale_after) [
      | none ↦ (baseline, store)
      | some stale_after ↦ compare_agent around target info stale_after baseline store
    ]

-- `handleScanFailed`.
unfoldable pub handle_scan_failed :
    Surroundings → Text → TerminalScan → ScanBaseline → Store → ScanBaseline × Store
handle_scan_failed around name scan baseline store =
    advance baseline (record baseline { is_ok = false; failure_handled = true })
      (send around (scan_failure_event name scan) store)

-- `handleScanRecovered`.
unfoldable pub handle_scan_recovered :
    Surroundings → Text → TerminalScan → ScanBaseline → Store → ScanBaseline × Store
handle_scan_recovered around name scan baseline store =
    if not baseline.failure_handled
    then (record baseline { is_ok = true }, store)
    else advance baseline (record baseline { is_ok = true; failure_handled = false })
        (send around (scan_recovery_event name scan) store)

-- `evaluateScan`, where `none` is a repository without a finished scan.
unfoldable pub evaluate_scan :
    Surroundings → Text → Option TerminalScan → ScanBaseline → Store → ScanBaseline × Store
evaluate_scan around name none baseline store = (baseline, store)
evaluate_scan around name (some scan) baseline store =
    let current_ok = text_eq scan.status (codes "ok") in
    if not baseline.established
    then (record baseline { established = true; is_ok = current_ok }, store)
    else if same_flag current_ok baseline.is_ok
    then (baseline, store)
    else if not current_ok
    then handle_scan_failed around name scan baseline store
    else handle_scan_recovered around name scan baseline store

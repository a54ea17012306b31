-- ===== src/Evaluator/Types.antt =====
-- The state of internal/app/alert_evaluator.go and the events of its producers. A time is a number of
-- nanoseconds since 1970.
use gitops_dashboard.Prelude.{ℕ, Bool, List, [], ◌++◌, Option, if◌then◌else◌}
use gitops_dashboard.Prelude.Text.{Text, codes, decimal, is_empty}
use gitops_dashboard.Config.{DockerTarget}
use gitops_dashboard.Alerts.Types.{EventStatus, AlertEvent}

-- `time.Parse(time.RFC3339, ·)`, `none` for an error, and `Format(time.RFC3339Nano)` in UTC.
pub record TimeFormat : Type 0 where
  pub parse : Text → Option ℕ
  pub format : ℕ → Text

pub record AgentBaseline : Type 0 where
  pub established : Bool
  pub online : Bool
  pub offline_handled : Bool

pub record ScanBaseline : Type 0 where
  pub established : Bool
  pub is_ok : Bool
  pub failure_handled : Bool

-- The fields of `core.AgentInfo` and of `storage.LatestTerminalScan` that the evaluator reads.
pub record AgentInfo : Type 0 where
  pub target : Text
  pub stale_after : Text
  pub last_seen_at : Text

pub record TerminalScan : Type 0 where
  pub repository : Text
  pub id : ℕ
  pub status : Text
  pub error : Text

pub record AlertEvaluator : Type 0 where
  pub agent_targets : List DockerTarget
  pub repositories : List Text
  pub agents : List (Text × AgentBaseline)
  pub scans : List (Text × ScanBaseline)

abbrev pub kind_agent_offline : Text
kind_agent_offline = codes "agent.offline"

abbrev pub kind_agent_recovery : Text
kind_agent_recovery = codes "agent.recovery"

abbrev pub kind_scan_failure : Text
kind_scan_failure = codes "scan.failure"

abbrev pub kind_scan_recovery : Text
kind_scan_recovery = codes "scan.recovery"

abbrev colon : Text
colon = codes ":"

-- An event as a producer hands it over.
abbrev pub blank_event : AlertEvent
blank_event = record {
  id = 0;
  kind = [];
  service_id = [];
  target = [];
  repository = [];
  agent = [];
  old_state = [];
  new_state = [];
  reason = [];
  dedupe_key = [];
  cooldown_key = [];
  dedupe_hash = [];
  created_at = 0;
  status = EventStatus.unset;
}

abbrev agent_key : Text → Text → Text
agent_key target kind = codes "agent:" ++ target ++ colon ++ kind

abbrev repository_key : Text → Text → Text
repository_key name kind = codes "repository:" ++ name ++ colon ++ kind

-- The event of `handleAgentOffline`.
unfoldable pub agent_offline_event : TimeFormat → Text → ℕ → AlertEvent
agent_offline_event times target stale_after = record blank_event {
  kind = kind_agent_offline;
  agent = target;
  old_state = codes "online";
  new_state = codes "offline";
  reason = codes "agent report is stale";
  dedupe_key = agent_key target kind_agent_offline ++ colon ++ times.format stale_after;
  cooldown_key = agent_key target kind_agent_offline;
}

-- The event of `handleAgentOnline`.
unfoldable pub agent_recovery_event : TimeFormat → Text → ℕ → AlertEvent
agent_recovery_event times target last_seen_at = record blank_event {
  kind = kind_agent_recovery;
  agent = target;
  old_state = codes "offline";
  new_state = codes "online";
  reason = codes "agent report received";
  dedupe_key = agent_key target kind_agent_recovery ++ colon ++ times.format last_seen_at;
  cooldown_key = agent_key target kind_agent_recovery;
}

-- The event of `handleScanFailed`.
unfoldable pub scan_failure_event : Text → TerminalScan → AlertEvent
scan_failure_event name scan = record blank_event {
  kind = kind_scan_failure;
  repository = name;
  old_state = codes "ok";
  new_state = codes "error";
  reason = if is_empty scan.error then codes "repository scan failed" else scan.error;
  dedupe_key = repository_key name kind_scan_failure ++ colon ++ decimal scan.id;
  cooldown_key = repository_key name kind_scan_failure;
}

-- The event of `handleScanRecovered`.
unfoldable pub scan_recovery_event : Text → TerminalScan → AlertEvent
scan_recovery_event name scan = record blank_event {
  kind = kind_scan_recovery;
  repository = name;
  old_state = codes "error";
  new_state = codes "ok";
  reason = codes "repository scan recovered";
  dedupe_key = repository_key name kind_scan_recovery ++ colon ++ decimal scan.id;
  cooldown_key = repository_key name kind_scan_recovery;
}

-- ===== src/Evaluator/Loops.antt =====
-- `evaluate` and its two loops over the configured targets. A cancelled context is not modelled.
use gitops_dashboard.Prelude.{false, not, List, [], ◌∷◌, Option, none, some, if◌then◌else◌}
use gitops_dashboard.Prelude.Text.{Text, codes, is_empty, text_eq, trim_space}
use gitops_dashboard.Config.{DockerTarget}
use gitops_dashboard.Alerts.Types.{Store}
use gitops_dashboard.Evaluator.Types.{
  AgentBaseline, ScanBaseline, AgentInfo, TerminalScan, AlertEvaluator,
}
use gitops_dashboard.Evaluator.Handlers.{Surroundings, evaluate_agent, evaluate_scan}

-- `configuredAgentTargets` of the package app.
unfoldable pub configured_agent_targets : List DockerTarget → List Text
configured_agent_targets [] = []
configured_agent_targets (target ∷ targets) =
    let name = trim_space target.name in
    if not (text_eq target.kind (codes "agent"))
    then configured_agent_targets targets
    else if is_empty name
    then configured_agent_targets targets
    else name ∷ configured_agent_targets targets

-- `configuredRepositoryNames`.
unfoldable pub configured_repository_names : List Text → List Text
configured_repository_names [] = []
configured_repository_names (raw ∷ repos) =
    let name = trim_space raw in
    if is_empty name
    then configured_repository_names repos
    else name ∷ configured_repository_names repos

-- A map from names as the list of its entries: the first entry of a name counts.
unfoldable pub lookup {ℓ} : {B : Type ℓ} → B → Text → List (Text × B) → B
lookup missing name [] = missing
lookup missing name ((key, b) ∷ entries) =
    if text_eq key name then b else lookup missing name entries

unfoldable pub assign {ℓ} : {B : Type ℓ} → Text → B → List (Text × B) → List (Text × B)
assign name b [] = (name, b) ∷ []
assign name b ((key, c) ∷ entries) =
    if text_eq key name then (key, b) ∷ entries else (key, c) ∷ assign name b entries

abbrev new_agent_baseline : AgentBaseline
new_agent_baseline = record { established = false; online = false; offline_handled = false }

abbrev new_scan_baseline : ScanBaseline
new_scan_baseline = record { established = false; is_ok = false; failure_handled = false }

-- `byTarget[target]`: the last of the rows.
unfoldable pub agent_of : Text → List AgentInfo → Option AgentInfo
agent_of target [] = none
agent_of target (info ∷ infos) = elim (agent_of target infos) [
  | some later ↦ some later
  | none ↦ if text_eq info.target target then some info else none
]

-- `latest[name]`: the scan of a repository, which the query returns once.
unfoldable pub scan_of : Text → List TerminalScan → Option TerminalScan
scan_of name [] = none
scan_of name (scan ∷ scans) = if text_eq scan.repository name then some scan else scan_of name scans

abbrev Agents : Type 0
Agents = List (Text × AgentBaseline)

abbrev Scans : Type 0
Scans = List (Text × ScanBaseline)

-- The loop of `evaluateAgents`.
unfoldable pub evaluate_targets :
    Surroundings → List AgentInfo → List Text → Agents → Store → Agents × Store
evaluate_targets around infos [] agents store = (agents, store)
evaluate_targets around infos (target ∷ targets) agents store =
    let after =
      evaluate_agent around target (agent_of target infos) (lookup new_agent_baseline target agents)
        store in
    evaluate_targets around infos targets (assign target after.0 agents) after.1

-- The loop of `evaluateScans`.
unfoldable pub evaluate_repositories :
    Surroundings → List TerminalScan → List Text → Scans → Store → Scans × Store
evaluate_repositories around latest [] scans store = (scans, store)
evaluate_repositories around latest (name ∷ names) scans store =
    let after =
      evaluate_scan around name (scan_of name latest) (lookup new_scan_baseline name scans) store in
    evaluate_repositories around latest names (assign name after.0 scans) after.1

-- `evaluateAgents`, where `none` is a read that fails.
unfoldable pub evaluate_agents :
    Surroundings → Option (List AgentInfo) → AlertEvaluator → Store → AlertEvaluator × Store
evaluate_agents around none e store = (e, store)
evaluate_agents around (some infos) e store =
    let after =
      evaluate_targets around infos (configured_agent_targets e.agent_targets) e.agents store in
    (record e { agents = after.0 }, after.1)

-- `evaluateScans`, where `none` is a read that fails.
unfoldable pub evaluate_scans :
    Surroundings → Option (List TerminalScan) → AlertEvaluator → Store → AlertEvaluator × Store
evaluate_scans around none e store = (e, store)
evaluate_scans around (some latest) e store =
    let after =
      evaluate_repositories around latest (configured_repository_names e.repositories) e.scans
        store in
    (record e { scans = after.0 }, after.1)

-- `evaluate`: the agents, then the scans, whether the agents could be read or not.
unfoldable pub evaluate :
    Surroundings
    → Option (List AgentInfo)
    → Option (List TerminalScan)
    → AlertEvaluator
    → Store
    → AlertEvaluator × Store
evaluate around infos latest e store =
    let after = evaluate_agents around infos e store in evaluate_scans around latest after.0 after.1

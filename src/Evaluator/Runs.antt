-- ===== src/Evaluator/Runs.antt =====
-- Many evaluations of one agent, each in its own surroundings.
use gitops_dashboard.Prelude.{true, List, [], ◌∷◌, Option, none, some, ◌≡◌}
use gitops_dashboard.Prelude.Text.{Text}
use gitops_dashboard.Alerts.Types.{Store}
use gitops_dashboard.Evaluator.Types.{AgentBaseline, AgentInfo}
use gitops_dashboard.Evaluator.Handlers.{Surroundings, evaluate_agent}
use gitops_dashboard.Evaluator.Phases.{
  Phase, Notice, Transition, Notices, alternate, awaits_failure, Notices-alternate,
}
use gitops_dashboard.Evaluator.Effects.{Effect, IsAgentEvent, agent_phase, agent_fits}
use gitops_dashboard.Evaluator.Agents.{evaluate_agent-refines}

abbrev pub Sample : Type 0
Sample = Surroundings × Option AgentInfo

abbrev pub add_notice : Option Notice → List Notice → List Notice
add_notice none ns = ns
add_notice (some n) ns = n ∷ ns

-- The notices of an agent's evaluations, in order: each is an enqueued event of its kind for the
-- agent, and an evaluation without one leaves the store alone or has an event refused.
pub data Sends (target : Text) : List Sample → AgentBaseline → Store → List Notice → Type 0 where
  stop : {b : AgentBaseline} {store : Store} → Sends target [] b store []
  evaluation :
      {b : AgentBaseline} {store : Store} {samples : List Sample} {ns : List Notice}
      (around : Surroundings) (info : Option AgentInfo) (n : Option Notice)
      → Effect around (IsAgentEvent target) n store (evaluate_agent around target info b store).1
      → Sends target samples
          (evaluate_agent around target info b store).0
          (evaluate_agent around target info b store).1
          ns
      → Sends target ((around, info) ∷ samples) b store (add_notice n ns)

add-Transition :
    {p q r : Phase} {ns : List Notice} (n : Option Notice)
    → Transition p n q
    → Notices q ns r
    → Notices p (add_notice n ns) r
add-Transition none t rest = Notices.quiet t rest
add-Transition (some n) t rest = Notices.sent t rest

-- The run of an agent sends notices that the machine allows.
run-Notices :
    (target : Text) (samples : List Sample) (b : AgentBaseline) (store : Store)
    → agent_fits b ≡ true
    → (ns : List Notice) × (q : Phase) × Sends target samples b store ns
      × Notices (agent_phase b) ns q
run-Notices target [] b store fits = ([], agent_phase b, Sends.stop, Notices.done)
run-Notices target ((around, info) ∷ samples) b store fits =
    let (fits', step) = evaluate_agent-refines around target info b store fits in
    let after = evaluate_agent around target info b store in
    let (ns, q, sends, notices) = run-Notices target samples after.0 after.1 fits' in
    (
      add_notice step.notice ns,
      q,
      Sends.evaluation around info step.notice step.effect sends,
      add-Transition step.notice step.transition notices,
    )

-- If the flags of the baseline fit, then in every run of evaluations of one agent, each in its own
-- surroundings, the notices that are enqueued alternate between failure and recovery, and the
-- first is a failure unless the baseline stands for a failure that was sent.
pub agent_run-alternates :
    (target : Text) (samples : List Sample) (b : AgentBaseline) (store : Store)
    → agent_fits b ≡ true
    → (ns : List Notice) × Sends target samples b store ns
      × (alternate (awaits_failure (agent_phase b)) ns ≡ true)
agent_run-alternates target samples b store fits =
    let (ns, q, sends, notices) = run-Notices target samples b store fits in
    (ns, sends, Notices-alternate (agent_phase b) q ns notices)

-- ===== src/Evaluator/Agents.antt =====
-- `evaluateAgent` moves a target as the machine of the phases allows.
use gitops_dashboard.Prelude.{
  ℕ, Bool, true, false, inl, inr, ◌≡◌, refl, Option, none, some, ltb, Bool-cases, Option-cases,
}
use gitops_dashboard.Prelude.Text.{Text}
use gitops_dashboard.Alerts.Types.{Store}
use gitops_dashboard.Evaluator.Types.{
  AgentBaseline, AgentInfo, agent_offline_event, agent_recovery_event,
}
use gitops_dashboard.Evaluator.Handlers.{
  Surroundings, send, handle_agent_offline, handle_agent_online, compare_agent, evaluate_agent,
}
use gitops_dashboard.Evaluator.Phases.{Notice, Transition}
use gitops_dashboard.Evaluator.Effects.{
  flags_fit, agent_fits, sending-cases, unmoved, silent, AgentEvaluated, agent_baseline,
}

offline-refines :
    (around : Surroundings) (target : Text) (stale_after : ℕ) (store : Store)
    → AgentEvaluated around target
        (agent_baseline true true false)
        store
        (handle_agent_offline around target stale_after (agent_baseline true true false) store)
unfolding handle_agent_offline agent_offline_event
offline-refines around target stale_after store =
    elim (sending-cases (send around (agent_offline_event around.times target stale_after) store)) [
      | inl (s, x, e) ↦ rw e (
        refl,
        record {
          notice = some Notice.failure;
          transition = Transition.fail;
          effect = (_, x, (refl, refl), e);
        },
      )
      | inr (s, x, e) ↦
          rw e
            (refl, record { notice = none; transition = Transition.stay; effect = inr (_, x, e) })
    ]

online-refines :
    (around : Surroundings) (target : Text) (info : AgentInfo) (h : Bool) (store : Store)
    → AgentEvaluated around target
        (agent_baseline true false h)
        store
        (handle_agent_online around target info (agent_baseline true false h) store)
unfolding handle_agent_online agent_recovery_event
online-refines around target info false store = (refl, silent around _ Transition.silent_recovery)
online-refines around target info true store =
    elim (Option-cases (around.times.parse info.last_seen_at)) [
      | inl malformed ↦ rw malformed (refl, unmoved around _)
      | inr (seen, parsed) ↦
          rw parsed
            (elim (sending-cases
              (send around (agent_recovery_event around.times target seen) store)) [
                | inl (s, x, e) ↦ rw e (
                  refl,
                  record {
                    notice = some Notice.recovery;
                    transition = Transition.recover;
                    effect = (_, x, (refl, refl), e);
                  },
                )
                | inr (s, x, e) ↦ rw e (
                  refl,
                  record { notice = none; transition = Transition.stay; effect = inr (_, x, e) },
                )
              ])
    ]

compare-refines :
    (around : Surroundings) (target : Text) (info : AgentInfo) (stale_after : ℕ) (e o h : Bool)
    (store : Store)
    → flags_fit e o h ≡ true
    → AgentEvaluated around target
        (agent_baseline e o h)
        store
        (compare_agent around target info stale_after (agent_baseline e o h) store)
unfolding compare_agent
compare-refines around target info stale_after false o true store fits = cc
compare-refines around target info stale_after true true true store fits = cc
compare-refines around target info stale_after false o false store fits =
    elim (Bool-cases (ltb around.clock stale_after)) [
      | inl up ↦ rw up (refl, silent around _ Transition.first_up)
      | inr down ↦ rw down (refl, silent around _ Transition.first_down)
    ]
compare-refines around target info stale_after true true false store fits =
    elim (Bool-cases (ltb around.clock stale_after)) [
      | inl up ↦ rw up (refl, unmoved around _)
      | inr down ↦ rw down (offline-refines around target stale_after store)
    ]
compare-refines around target info stale_after true false h store fits =
    elim (Bool-cases (ltb around.clock stale_after)) [
      | inl up ↦ rw up (online-refines around target info h store)
      | inr down ↦ rw down (fits, unmoved around _)
    ]

-- If the flags of the baseline fit, evaluateAgent takes a target from phase to phase as the
-- machine of the phases allows, keeps the flags fitting, and where the machine sends a notice the
-- event of that kind for that target is enqueued; without a notice the store is left alone or has
-- refused an event.
pub evaluate_agent-refines :
    (around : Surroundings) (target : Text) (info : Option AgentInfo) (b : AgentBaseline)
    (store : Store)
    → agent_fits b ≡ true
    → AgentEvaluated around target b store (evaluate_agent around target info b store)
unfolding evaluate_agent
evaluate_agent-refines around target none b store fits = (fits, unmoved around _)
evaluate_agent-refines around target (some info) b store fits =
    elim (Option-cases (around.times.parse info.stale_after)) [
      | inl malformed ↦ rw (malformed, evaluate_agent) (fits, unmoved around _)
      | inr (stale_after, parsed) ↦
          rw (parsed, evaluate_agent)
            (compare-refines around target info stale_after b.established b.online b.offline_handled
              store fits)
    ]

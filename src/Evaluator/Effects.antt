-- ===== src/Evaluator/Effects.antt =====
-- What an evaluation promises: a move of the machine of the phases, and its effect on the store.
use gitops_dashboard.Prelude.{
  Bool, true, false, not, ◌&&◌, ◌||◌, ◌⊎◌, inl, inr, ◌≡◌, refl, Option, none, some,
}
use gitops_dashboard.Prelude.Text.{Text}
use gitops_dashboard.Alerts.Types.{AlertEvent, AlertError, Store, Result, ok, err}
use gitops_dashboard.Evaluator.Types.{
  AgentBaseline, ScanBaseline, kind_agent_offline, kind_agent_recovery, kind_scan_failure,
  kind_scan_recovery,
}
use gitops_dashboard.Evaluator.Handlers.{Surroundings, send}
use gitops_dashboard.Evaluator.Phases.{Phase, Notice, Transition}

-- The phase of a baseline, from its three flags.
abbrev pub phase_of : Bool → Bool → Bool → Phase
phase_of false good handled = Phase.unknown
phase_of true true handled = Phase.up
phase_of true false true = Phase.failed
phase_of true false false = Phase.down

-- A failure is handled only while the target is known and bad.
abbrev pub flags_fit : Bool → Bool → Bool → Bool
flags_fit established good handled = not handled || (established && not good)

abbrev pub agent_phase : AgentBaseline → Phase
agent_phase b = phase_of b.established b.online b.offline_handled

abbrev pub agent_fits : AgentBaseline → Bool
agent_fits b = flags_fit b.established b.online b.offline_handled

abbrev pub scan_phase : ScanBaseline → Phase
scan_phase b = phase_of b.established b.is_ok b.failure_handled

abbrev pub scan_fits : ScanBaseline → Bool
scan_fits b = flags_fit b.established b.is_ok b.failure_handled

-- What an evaluation does to the store: an event of the right kind is enqueued where a notice is
-- sent; without a notice the store is left alone, or has refused an event.
abbrev pub Effect :
    Surroundings → (Notice → AlertEvent → Type 0) → Option Notice → Store → Store → Type 0
Effect around IsFor none store store' =
    (store' ≡ store)
    ⊎ ((event : AlertEvent) × (e : AlertError) × (send around event store ≡ (store', err e)))
Effect around IsFor (some n) store store' =
    (event : AlertEvent) × (r : AlertEvent × Bool) × IsFor n event
    × (send around event store ≡ (store', ok r))

pub record Evaluated (around : Surroundings) (IsFor : Notice → AlertEvent → Type 0) (before : Phase)
    (store : Store) (after : Phase) (store' : Store) : Type 0 where
  pub notice : Option Notice
  pub transition : Transition before notice after
  pub effect : Effect around IsFor notice store store'

abbrev pub IsAgentEvent : Text → Notice → AlertEvent → Type 0
IsAgentEvent target Notice.failure event =
    (event.kind ≡ kind_agent_offline) × (event.agent ≡ target)
IsAgentEvent target Notice.recovery event =
    (event.kind ≡ kind_agent_recovery) × (event.agent ≡ target)

abbrev pub IsScanEvent : Text → Notice → AlertEvent → Type 0
IsScanEvent name Notice.failure event = (event.kind ≡ kind_scan_failure) × (event.repository ≡ name)
IsScanEvent name Notice.recovery event =
    (event.kind ≡ kind_scan_recovery) × (event.repository ≡ name)

-- How a sending ends.
pub sending-cases :
    (r : Store × Result (AlertEvent × Bool))
    → ((s : Store) × (x : AlertEvent × Bool) × (r ≡ (s, ok x)))
      ⊎ ((s : Store) × (e : AlertError) × (r ≡ (s, err e)))
sending-cases (s, ok x) = inl (s, x, refl)
sending-cases (s, err e) = inr (s, e, refl)

module _ (around : Surroundings) (IsFor : Notice → AlertEvent → Type 0) where
  pub unmoved : {p : Phase} {store : Store} → Evaluated around IsFor p store p store
  unmoved = record { notice = none; transition = Transition.stay; effect = inl refl }

  pub silent :
      {p q : Phase} {store : Store} → Transition p none q → Evaluated around IsFor p store q store
  silent t = record { notice = none; transition = t; effect = inl refl }

-- What an agent's evaluation promises of the baseline and the store that it returns.
abbrev pub AgentEvaluated :
    Surroundings → Text → AgentBaseline → Store → AgentBaseline × Store → Type 0
AgentEvaluated around target b store after =
    (agent_fits after.0 ≡ true)
    × Evaluated around (IsAgentEvent target) (agent_phase b) store (agent_phase after.0) after.1

abbrev pub ScanEvaluated :
    Surroundings → Text → ScanBaseline → Store → ScanBaseline × Store → Type 0
ScanEvaluated around name b store after =
    (scan_fits after.0 ≡ true)
    × Evaluated around (IsScanEvent name) (scan_phase b) store (scan_phase after.0) after.1

abbrev pub agent_baseline : Bool → Bool → Bool → AgentBaseline
agent_baseline e o h = record { established = e; online = o; offline_handled = h }

abbrev pub scan_baseline : Bool → Bool → Bool → ScanBaseline
scan_baseline e o h = record { established = e; is_ok = o; failure_handled = h }

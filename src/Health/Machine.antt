-- ===== src/Health/Machine.antt =====
-- `produceHealthAlert` between its reads and its writes: what an observation makes of the row of a
-- service, and the event of an edge.
use gitops_dashboard.Prelude.{
  ℕ, ◌+◌, ◌-◌, Bool, true, false, not, ◌&&◌, ◌||◌, [], ◌++◌, Option, none, some, leb, ◌==◌,
  if◌then◌else◌,
}
use mathlib.Core.Option
use gitops_dashboard.Prelude.Text.{Text, codes, text_eq}
use gitops_dashboard.Core.{HealthState, health_text, health_eq, is_not_applicable}
use gitops_dashboard.Alerts.Types.{EventStatus, AlertEvent}
use gitops_dashboard.Health.Types.{HealthAlertState, HealthAlertConfig, Formats}
use gitops_dashboard.Health.Rollup.{is_healthy}

-- What a call observes: the rollup, the identity of the observation, and the time.
pub record Observation : Type 0 where
  pub rollup : HealthState
  pub id : Text
  pub at : ℕ

-- The row of a service that has none, or one of an earlier incarnation.
unfoldable pub first_state : Text → Text → Observation → HealthAlertState
first_state service_id incarnation o = record {
  service_id = service_id;
  stable = o.rollup;
  candidate = o.rollup;
  samples = 0;
  candidate_started = none;
  candidate_observation = [];
  failure_started =
      if not (is_healthy o.rollup) && not (is_not_applicable o.rollup) then some o.at else none;
  incarnation = incarnation;
}

-- A rollup that is the stable state: the candidate is abandoned.
unfoldable pub back_to_stable : HealthAlertState → HealthAlertState
back_to_stable s = record s {
  candidate = s.stable;
  samples = 0;
  candidate_started = none;
  candidate_observation = [];
  failure_started = if is_healthy s.stable then none else s.failure_started;
}

-- A rollup that is not the stable state: the candidate counts the distinct observations.
unfoldable pub count_candidate : Observation → HealthAlertState → HealthAlertState
count_candidate o s =
    let same = health_eq s.candidate o.rollup in
    let again = text_eq s.candidate_observation o.id in
    if same
    then (if again then s else record s { samples = s.samples + 1; candidate_observation = o.id })
    else record s {
      candidate = o.rollup;
      samples = 1;
      candidate_observation = o.id;
      candidate_started = some o.at;
    }

abbrev is_set : Option ℕ → Bool
is_set none = false
is_set (some n) = true

-- The failure starts with the first rollup that is not healthy.
unfoldable pub start_failure : Observation → HealthAlertState → HealthAlertState
start_failure o s = record s {
  failure_started =
      if not (is_set s.failure_started) && not (is_healthy o.rollup)
      then some o.at
      else s.failure_started;
}

-- The row with the candidate of an observation.
unfoldable pub with_candidate : Observation → HealthAlertState → HealthAlertState
unfolding count_candidate start_failure
with_candidate o s = start_failure o (count_candidate o s)

-- `continuous`.
unfoldable pub is_continuous : ℕ → Option ℕ → ℕ → Bool
is_continuous debounce candidate_started at =
    let started = Option.get_or candidate_started 0 in
    debounce == 0 || (not (started == 0) && leb started at && leb debounce (at - started))

-- Whether the candidate is confirmed.
unfoldable pub is_edge : HealthAlertConfig → Observation → HealthAlertState → Bool
unfolding is_continuous
is_edge config o s =
    leb config.stability_samples s.samples && is_continuous config.debounce s.candidate_started o.at

-- The row after an edge.
unfoldable pub edge_state : Observation → HealthAlertState → HealthAlertState
edge_state o s = record s {
  stable = o.rollup;
  candidate = o.rollup;
  samples = 0;
  candidate_started = none;
  candidate_observation = [];
  failure_started =
      if is_healthy o.rollup
      then none
      else (if is_set s.failure_started then s.failure_started else some o.at);
}

-- `"health:service:" + serviceID + ":" + stable + ":" + rollup`, the cooldown key.
unfoldable pub edge_key : Observation → HealthAlertState → Text
edge_key o s =
    codes "health:service:"
    ++ s.service_id
    ++ codes ":"
    ++ health_text s.stable
    ++ codes ":"
    ++ health_text o.rollup

-- The time that identifies the occurrence of an edge.
unfoldable pub occurrence_id : Formats → Observation → HealthAlertState → Text
occurrence_id formats o s =
    let started = if is_healthy o.rollup then s.failure_started else s.candidate_started in
    formats.timestamp (Option.get_or started o.at)

unfoldable pub edge_reason : Formats → Observation → HealthAlertState → Text
edge_reason formats o s =
    if is_healthy o.rollup
    then elim s.failure_started [
      | none ↦ codes "service health transitioned"
      | some started ↦ codes "service recovered after " ++ formats.elapsed started o.at
    ]
    else codes "service health transitioned"

-- The event of an edge.
unfoldable pub edge_event : Formats → Observation → HealthAlertState → AlertEvent
unfolding edge_key occurrence_id edge_reason
edge_event formats o s = record {
  id = 0;
  kind = if is_healthy o.rollup then codes "health.recovery" else codes "health.transition";
  service_id = s.service_id;
  target = [];
  repository = [];
  agent = [];
  old_state = health_text s.stable;
  new_state = health_text o.rollup;
  reason = edge_reason formats o s;
  dedupe_key = edge_key o s ++ codes ":" ++ occurrence_id formats o s;
  cooldown_key = edge_key o s;
  dedupe_hash = [];
  created_at = 0;
  status = EventStatus.unset;
}

-- ===== src/Health/Rollup.antt =====
-- `aggregateTargetHealth`, and the identity of an observation.
use gitops_dashboard.Prelude.{ℕ, Bool, true, false, not, List, [], ◌∷◌, map, ltb, if◌then◌else◌}
use gitops_dashboard.Prelude.Text.{Text, text_lt}
use gitops_dashboard.Prelude.Rows.{select_where, order_by}
use gitops_dashboard.Prelude.Strings.{join}
use gitops_dashboard.Core.{HealthState, health_text, is_not_applicable}
use gitops_dashboard.Health.Types.{StatusRow}

-- `healthPriority`.
unfoldable pub health_priority : HealthState → ℕ
health_priority HealthState.error = 0
health_priority HealthState.unhealthy = 1
health_priority HealthState.degraded = 2
health_priority HealthState.healthy = 3
health_priority HealthState.not_applicable = 5
health_priority HealthState.unknown = 4

abbrev pub is_healthy : HealthState → Bool
is_healthy HealthState.healthy = true
is_healthy _ = false

abbrev pub is_unknown : HealthState → Bool
is_unknown HealthState.unknown = true
is_unknown _ = false

-- The variables of the loop.
pub record Verdict : Type 0 where
  pub all_healthy : Bool
  pub any_healthy : Bool
  pub all_unknown : Bool
  pub worst : HealthState

-- The worse of two states, the first where they are the same.
unfoldable pub worse : HealthState → HealthState → HealthState
worse worst health = if ltb (health_priority health) (health_priority worst) then health else worst

-- One turn of the loop.
unfoldable pub note_health : Verdict → HealthState → Verdict
unfolding health_priority worse
note_health v health = record {
  all_healthy = if is_healthy health then v.all_healthy else false;
  any_healthy = if is_healthy health then true else v.any_healthy;
  all_unknown = if not (is_unknown health) then false else v.all_unknown;
  worst = worse v.worst health;
}

unfoldable pub note_all : Verdict → List HealthState → Verdict
unfolding note_health
note_all v [] = v
note_all v (health ∷ rest) = note_all (note_health v health) rest

abbrev pub no_verdict : Verdict
no_verdict = record {
  all_healthy = true;
  any_healthy = false;
  all_unknown = true;
  worst = HealthState.unknown;
}

-- The results after the loop.
unfoldable pub conclude : Verdict → HealthState
conclude v =
    if v.all_healthy
    then HealthState.healthy
    else if v.any_healthy
    then HealthState.degraded
    else if v.all_unknown
    then HealthState.unknown
    else v.worst

-- `aggregateTargetHealth` on the states that apply.
unfoldable pub aggregate_applicable : List HealthState → HealthState
unfolding note_all conclude
aggregate_applicable [] = HealthState.unknown
aggregate_applicable (health ∷ []) = health
aggregate_applicable (a ∷ b ∷ rest) = conclude (note_all no_verdict (a ∷ b ∷ rest))

-- `aggregateTargetHealth`.
unfoldable pub aggregate_target_health : List HealthState → HealthState
unfolding aggregate_applicable
aggregate_target_health healths =
    aggregate_applicable (select_where (λ health. not (is_not_applicable health)) healths)

-- One part of `rollupObservationID`; `timestamp` formats a time.
unfoldable pub observation_part : (ℕ → Text) → StatusRow → Text
observation_part timestamp row =
    join 0 (row.target ∷ health_text row.health ∷ timestamp row.checked_at ∷ [])

-- `rollupObservationID`.
unfoldable pub rollup_observation_id : (ℕ → Text) → List StatusRow → Text
unfolding observation_part
rollup_observation_id timestamp rows =
    join 1
      (map (observation_part timestamp) (order_by (λ a b. not (text_lt b.target a.target)) rows))
